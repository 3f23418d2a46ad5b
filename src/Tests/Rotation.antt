-- ===== src/Tests/Rotation.antt =====
-- Examples of announcements and of the certificates that a peer keeps.
use net_tls.Prelude.{◌≡◌, ◌↔◌, ◌⊎◌, refl, true, false, none, some, some-inj, [], ◌∷◌, arith}
use net_tls.Prelude.Int.{pos}
use net_tls.Prelude.Text.{utf8, codes}
use net_tls.Error.{TlsError, ok, err}
use net_tls.Announcement.{verify, to_json, from_json}
use net_tls.Announcement.Verify.{Holds, verify_iff}
use net_tls.Announcement.Wire.{IsWire, from_json_iff, from_json-to_json}
use net_tls.Archive.{LineJson, archive, read_archive}
use net_tls.Archive.Append.{LineLaws, read_archive-archive}
use net_tls.Fingerprint.{trim_start, trim_end}
use net_tls.Generations.{
  Generation, Generations, stored, known, receive, verify_server_cert, from_approval,
}
use net_tls.Generations.Handshake.{HasFingerprint, IsDistinct, handshake_promotes}
use net_tls.Generations.Receive.{IsGeneration, receive_cases}
use net_tls.Generations.Chain.{receives, sees, approved, steps, AllTrusted, Reach-AllTrusted}
use net_tls.Generations.Rotation.{Rotates, new-Rotates}
use net_tls.Tests.Toy.{toy, toy-HexLaws, encode}
use net_tls.Tests.Data.{
  gateway, old_der, new_der, fp_of, key_of, old-IsKeyOf, announcement, announcement-made,
  old_generation, new_generation, at_first, waiting, after, gateway-IsComponentName,
  old-IsFingerprint, new-IsFingerprint, fingerprints_differ,
}

verify_iff_example :
    (verify toy announcement none old_der ≡ ok tt) ↔ Holds toy announcement none old_der
verify_iff_example = verify_iff toy announcement none old_der

new-Rotates_example : Rotates toy at_first announcement old_der new_der
new-Rotates_example =
    new-Rotates toy gateway none (fp_of old_der, key_of old_der) new_der (pos 100) announcement
      at_first new_der announcement-made old-IsKeyOf tt refl (λ z. z) fingerprints_differ refl

abbrev start : Generations
start = from_approval old_generation

Reach-AllTrusted_example :
    AllTrusted toy old_generation
      (verify_server_cert toy (receive toy start announcement).0 new_der).0
Reach-AllTrusted_example = Reach-AllTrusted toy old_generation (
    steps (steps approved (receives start announcement))
      (sees (receive toy start announcement).0 new_der))

waiting-IsDistinct : IsDistinct waiting
unfolding encode
waiting-IsDistinct = record { previous_current = refl; next_current = refl; previous_next = refl }

after-IsDistinct : IsDistinct after
unfolding encode
after-IsDistinct = record { previous_current = refl; next_current = refl; previous_next = refl }

handshake_promotes_example :
    (verify_server_cert toy waiting new_der ≡ (after, true))
    × IsDistinct after
    × (verify_server_cert toy after new_der ≡ (after, true))
    × (verify_server_cert toy after old_der ≡ (after, false))
handshake_promotes_example =
    handshake_promotes toy waiting new_der old_der new_generation waiting-IsDistinct refl refl refl

receive_cases_example :
    (HasFingerprint none (fp_of new_der)
      × (receive toy at_first announcement ≡ (at_first, ok known)))
    ⊎ ((HasFingerprint none (fp_of new_der) → ⊥)
        × Holds toy announcement none old_der
        × ((n : Generation) × (n.fp ≡ fp_of new_der)
            × IsGeneration toy n
            × (receive toy at_first announcement ≡ (record at_first { next = some n }, ok stored))))
    ⊎ ((HasFingerprint none (fp_of new_der) → ⊥)
        × (Holds toy announcement none old_der → ⊥)
        × ((e : TlsError) × (receive toy at_first announcement ≡ (at_first, err e))))
receive_cases_example = receive_cases toy at_first announcement

pub announcement-IsWire : IsWire announcement
unfolding utf8
announcement-IsWire = record {
  announcer = gateway-IsComponentName;
  pem_bounded = omega arith;
  prev_fp = tt;
  curr_fp = old-IsFingerprint;
  new_fp = new-IsFingerprint;
  both_or_none = refl;
  sig_prev = tt;
  sig_curr = ((omega arith, (omega arith, tt)), λ e. cc);
}

from_json-to_json_example : from_json toy (to_json toy announcement) ≡ ok announcement
from_json-to_json_example = from_json-to_json toy toy-HexLaws announcement announcement-IsWire

from_json_iff_example :
    (from_json toy (to_json toy announcement) ≡ ok announcement)
    ↔ (IsWire announcement × (to_json toy announcement ≡ to_json toy announcement))
from_json_iff_example = from_json_iff toy toy-HexLaws (to_json toy announcement) announcement

-- A serialization that knows this announcement only.
abbrev line_json : LineJson
line_json = record {
  to_text = λ a. some (codes "k");
  from_text = λ s. some (to_json toy announcement);
}

line_json-LineLaws : LineLaws line_json (to_json toy announcement)
unfolding trim_start trim_end
line_json-LineLaws = record {
  is_line = λ line e. rw (← some-inj e) (refl, refl);
  not_blank = λ line e. rw (← some-inj e) refl;
  reads = λ line e. refl;
}

first_read : read_archive toy line_json none ≡ ok ([], 0)
unfolding read_archive
first_read = refl

first_archived : archive toy line_json true true announcement none ≡ (ok tt, some (codes "k\n"))
unfolding archive
first_archived = refl

read_archive-archive_example :
    read_archive toy line_json (some (codes "k\n")) ≡ ok (announcement ∷ [], 0)
read_archive-archive_example =
    read_archive-archive toy line_json toy-HexLaws true true announcement none (some (codes "k\n"))
      [] 0 announcement-IsWire line_json-LineLaws refl first_read first_archived
