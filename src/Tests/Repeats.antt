-- ===== src/Tests/Repeats.antt =====
-- An example of a rotation that is repeated, when the previous key could not be saved.
use net_tls.Prelude.{
  ℕ, ◌≡◌, refl, sym, ap, subst, some-inj, ◌∙◌, Bool, ltb, if◌then◌else◌, true, false, Option, none,
  some,
}
use mathlib.Core.Option
use net_tls.Prelude.Int.{pos, ◌+ℤ◌, ◌-ℤ◌}
use net_tls.Prelude.Text.{Str, Bytes, codes, same, utf8, join, utf8_char}
use net_tls.Error.{ok, err, chain, is_ok}
use net_tls.Announcement.{
  Announcement, fingerprint_of, to_json, from_json, der_from_pem, fingerprint_from_pem, only_cert,
  sign_if,
}
use net_tls.Schedule.Names.{collect}
use net_tls.Lockbox.{unlock}
use net_tls.Pem.Marker.{find_marker}
use net_tls.Schedule.{
  rate_limit_ok, rolled, draw_roll_time, tilfeldig_under, draw, from_le_bytes, grense, new,
  can_roll, announce,
}
use net_tls.Disk.{Files, call, new_dir, write_atomic, skriv_atomisk, remove_dir_all}
use net_tls.Store.{restore_material, load, locked_path, load_unlocked}
use net_tls.Store.Pending.{Pending}
use net_tls.Announcer.{
  World, prepare, prepare_new, switch, swap, roll_schedule, roll_if_ready_gated,
}
use net_tls.Announcer.Chain.{IsBacked, IsBackedBy}
use net_tls.Store.Crash.{load-locked_same}
use net_tls.Announcer.Restart.{roll-repeated}
use net_tls.Material.Names.{
  validate_common_name, validate_sans, validate_san_name, check_label, check_labels, strip_last,
  validate_dns,
}
use net_tls.Fingerprint.{trim_end, trim_start}
use net_tls.Canonical.{
  split, assemble, require_component_name, require_fingerprint, require_fingerprint_if, rotate_v2,
}
use net_tls.Store.Save.{save_previous, save, locked_material, save_pem, lock_now}
use net_tls.Lockbox.{hold, lock, derive, seal}
use net_tls.Pem.{certs_pem, chunk_lines}
use net_tls.Pkcs8.{pkcs8_p256}
use net_tls.Prelude.Decimal.{to_string}
use net_tls.Signature.{sign_p256}
use net_tls.Announcement
use net_tls.Pem
use net_tls.Tests.Toy
use net_tls.Tests.Drive.{drive, drive-PemLaws, drive-SealLaws, drive-PreviousLaw, scan}
use net_tls.Tests.Restarts.{
  config, announced, next, announced-IsBacked, announced-next, rolled_well,
}
use net_tls.Material.{
  from_pem, collect_certs, load_self_signed, from_der, format_ip, generate_pair, inspect,
}

-- The write of the previous key fails, once.
abbrev failing : ℕ → Bool
failing n = if ltb n 45 then true else ltb 45 n

abbrev halfway : World
halfway = (roll_if_ready_gated drive failing config (pos 200) true announced).1

abbrev repeated : World
repeated = (roll_if_ready_gated drive failing config (pos 300) true halfway).1

-- The first call fails behind the switch of the keys, and the material in `new` and what is pending stay;
-- the second goes well.
halfway-made :
    (is_ok (roll_if_ready_gated drive failing config (pos 200) true announced).0 ≡ false)
    × (halfway.pending ≡ announced.pending)
    × (halfway.machine.files (locked_path new_dir) ≡ announced.machine.files (locked_path new_dir))
    × (same halfway.material.current.0 next.new_fp ≡ true)
    × ((roll_if_ready_gated drive failing config (pos 300) true halfway).0
        ≡ ok (some halfway.serving.fingerprint))
unfolding new roll_if_ready_gated switch swap roll_schedule can_roll rolled draw_roll_time
    tilfeldig_under draw from_le_bytes grense ◌+ℤ◌ ◌-ℤ◌ load load_unlocked unlock find_marker
    from_pem collect_certs save_previous collect rate_limit_ok prepare prepare_new call
    load_self_signed from_der format_ip generate_pair inspect validate_common_name validate_sans
    validate_san_name check_label check_labels strip_last validate_dns trim_end trim_start utf8 join
    utf8_char split assemble require_component_name require_fingerprint require_fingerprint_if
    rotate_v2 save locked_material save_pem lock_now write_atomic skriv_atomisk remove_dir_all hold
    lock derive seal der_from_pem fingerprint_from_pem only_cert sign_if certs_pem chunk_lines
    pkcs8_p256 to_string announce sign_p256 scan Announcement.new Pem.encode Toy.encode
halfway-made = (refl, refl, refl, refl, refl)

has_repeated :
    roll_if_ready_gated drive failing config (pos 300) true halfway
    ≡ (ok (some halfway.serving.fingerprint), repeated)
has_repeated =
    rolled_well (roll_if_ready_gated drive failing config (pos 300) true halfway)
      (some halfway.serving.fingerprint) halfway-made.4

-- What backs a promise is what `load` finds in `new`.
IsBackedBy-load :
    (o : Option Pending) (fs gs : Files)
    → load drive config.password new_dir gs ≡ load drive config.password new_dir fs
    → IsBackedBy drive config fs o
    → IsBackedBy drive config gs o
IsBackedBy-load none fs gs e backed = backed
IsBackedBy-load (some p) fs gs e kept = record {
  next = kept.next;
  next_key = kept.next_key;
  loads = e ∙ kept.loads;
  good = kept.good;
  key = kept.key;
  named = kept.named;
}

halfway-IsBacked : IsBacked drive config halfway
halfway-IsBacked = subst (IsBackedBy drive config halfway.machine.files) (sym halfway-made.1) (
    IsBackedBy-load announced.pending announced.machine.files halfway.machine.files
      (load-locked_same drive (codes "pw") new_dir halfway.machine.files announced.machine.files
        halfway-made.2)
      announced-IsBacked)

names_current :
    (p : Pending)
    → halfway.pending ≡ some p
    → same halfway.material.current.0 p.announcement.new_fp ≡ true
names_current p e =
    let is_next : next ≡ p.announcement = some-inj (
      sym announced-next
      ∙ ap (Option.map (λ (p : Pending). p.announcement)) (sym halfway-made.1 ∙ e)) in
    ap (λ (k : Announcement). same halfway.material.current.0 k.new_fp) (sym is_next)
    ∙ halfway-made.3

roll-repeated_example :
    (Option.map
        (λ (k : Str × Bytes). same k.0 repeated.material.current.0)
        repeated.material.previous
      ≡ some true)
    × (restore_material drive config.password repeated.machine.files
        ≡ err (chain "previous and current have the same fingerprint"))
roll-repeated_example =
    roll-repeated drive failing config drive-PemLaws drive-SealLaws drive-PreviousLaw (pos 300) true
      halfway repeated halfway.serving.fingerprint halfway-IsBacked names_current has_repeated
