-- ===== src/Tests/Data.antt =====
-- The inputs of the examples: a gateway with an old and a new certificate, and its peers.
use net_tls.Prelude.{◌≡◌, ◌≢◌, refl, none, some, [], ◌∷◌, arith}
use net_tls.Prelude.Int.{pos}
use net_tls.Prelude.Text.{Str, Bytes, codes, utf8}
use net_tls.Prelude.Decimal.{to_string}
use net_tls.Error.{ok}
use net_tls.Signature.{p256_public_key, sign_p256}
use net_tls.Canonical.{
  assemble, rotate_v2, rotate_v2_tag, require_component_name, require_fingerprint,
  require_fingerprint_if, dash,
}
use net_tls.Canonical.Fields.{
  IsComponentName, IsFingerprint, require_component_name_iff, require_fingerprint_iff,
}
use net_tls.Announcement.{Announcement, fingerprint_of, fingerprint_from_pem, der_from_pem, new}
use net_tls.Announcement.Honest.{IsKeyOf}
use net_tls.Generations.{Generation, Generations}
use net_tls.Tests.Toy.{toy, encode, padded, check_sum, toy-IsP256Pair}

abbrev pub gateway : Str
gateway = codes "gateway"

abbrev pub portal : Str
portal = codes "portal"

abbrev pub old_der : Bytes
old_der = codes "old"

abbrev pub new_der : Bytes
new_der = codes "new"

abbrev pub fp_of : Bytes → Str
fp_of der = fingerprint_of toy der

-- The toy key of a certificate, private and public.
abbrev pub key_of : Bytes → Bytes
key_of der = 4 ∷ padded 64 der

pub old-IsKeyOf : IsKeyOf toy (fp_of old_der) (key_of old_der) old_der
unfolding p256_public_key
old-IsKeyOf = record {
  named = refl;
  key = key_of old_der;
  key_of = refl;
  pair = toy-IsP256Pair (key_of old_der);
}

abbrev pub rotate_message : Bytes
rotate_message =
    assemble (rotate_v2_tag ∷ gateway ∷ dash ∷ fp_of old_der ∷ fp_of new_der ∷ codes "100" ∷ [])

abbrev pub announcement : Announcement
announcement = record {
  announcer = gateway;
  prev_fp = none;
  curr_fp = fp_of old_der;
  new_fp = fp_of new_der;
  new_cert_pem = new_der;
  sent_at = pos 100;
  sig_prev = none;
  sig_curr = check_sum (key_of old_der) rotate_message;
}

pub announcement-made :
    new toy gateway none (fp_of old_der, key_of old_der) new_der (pos 100) ≡ ok announcement
unfolding new rotate_v2 assemble sign_p256 fingerprint_from_pem require_component_name
    require_fingerprint encode utf8 der_from_pem require_fingerprint_if to_string
announcement-made = refl

pub gateway-IsComponentName : IsComponentName gateway
unfolding require_component_name utf8
gateway-IsComponentName = (require_component_name_iff gateway "announcer").0 refl

pub portal-IsComponentName : IsComponentName portal
unfolding require_component_name utf8
portal-IsComponentName = (require_component_name_iff portal "announcer").0 refl

abbrev pub old_generation : Generation
old_generation = record { der = old_der; fp = fp_of old_der }

abbrev pub new_generation : Generation
new_generation = record { der = new_der; fp = fp_of new_der }

-- The gateway's certificates as a peer keeps them: after the approval, and with the next one announced.
abbrev pub at_first : Generations
at_first = record { previous = none; current = old_generation; next = none }

abbrev pub waiting : Generations
waiting = record { previous = none; current = old_generation; next = some new_generation }

abbrev pub after : Generations
after = record { previous = some old_generation; current = new_generation; next = none }

pub old-IsFingerprint : IsFingerprint (fp_of old_der)
unfolding require_fingerprint utf8 encode
old-IsFingerprint = (require_fingerprint_iff (fp_of old_der) "fingerprint").0 refl

pub new-IsFingerprint : IsFingerprint (fp_of new_der)
unfolding require_fingerprint utf8 encode
new-IsFingerprint = (require_fingerprint_iff (fp_of new_der) "fingerprint").0 refl

pub fingerprints_differ : fp_of new_der ≢ fp_of old_der
unfolding encode
fingerprints_differ e = ground (arith, e)
