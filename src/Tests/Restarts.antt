-- ===== src/Tests/Restarts.antt =====
-- Examples of the announcer: an announcement, the switch, and the restarts behind them.
use net_tls.Prelude.{
  ℕ, ◌≡◌, refl, sym, ap, some-inj, ◌∙◌, Bool, true, false, Option, none, some, [], ◌∷◌,
}
use mathlib.Core.Option
use net_tls.Prelude.Int.{pos, ◌+ℤ◌, ◌-ℤ◌}
use net_tls.Prelude.Text.{Str, codes, same, utf8, join, utf8_char}
use net_tls.Error.{Result, ok, err, chain, is_ok}
use net_tls.Announcement.{
  Announcement, to_json, from_json, der_from_pem, fingerprint_from_pem, only_cert, sign_if,
}
use net_tls.Host.{pkcs8}
use net_tls.Schedule.Names.{collect}
use net_tls.Lockbox.{unlock}
use net_tls.Pem.Marker.{find_marker}
use net_tls.Schedule.{
  rate_limit_ok, rolled, draw_roll_time, tilfeldig_under, draw, from_le_bytes, grense, new,
  can_roll, announce,
}
use net_tls.Disk.{Files, call, write_atomic, skriv_atomisk, remove_dir_all}
use net_tls.Store.{OwnMaterial, load, load_unlocked}
use net_tls.Store.Pending.{Pending, pending_path}
use net_tls.Announcer.{
  World, Current, Config, prepare, prepare_new, switch, swap, roll_schedule, roll_if_ready_gated,
  save_pending, save_promise,
}
use net_tls.Announcer.Start
use net_tls.Announcer.Chain.{IsBacked}
use net_tls.Announcer.Restart.{roll-restart, roll-strands_promise}
use net_tls.Announcer.Sync.{IsInSync, roll-IsInSync}
use net_tls.Announcer.Prepare.{prepare-IsBacked}
use net_tls.Material.Names.{
  validate_common_name, validate_sans, validate_san_name, check_label, check_labels, strip_last,
  validate_dns,
}
use net_tls.Fingerprint.{trim_end, trim_start}
use net_tls.Canonical.{
  split, assemble, require_component_name, require_fingerprint, require_fingerprint_if, rotate_v2,
}
use net_tls.Store.Save.{save_previous, save, locked_material, save_pem, lock_now}
use net_tls.Lockbox.{hold, lock, derive, seal}
use net_tls.Pem.{certs_pem, chunk_lines}
use net_tls.Pkcs8.{pkcs8_p256}
use net_tls.Prelude.Decimal.{to_string}
use net_tls.Signature.{sign_p256}
use net_tls.Announcement
use net_tls.Pem
use net_tls.Tests.Toy
use net_tls.Tests.Data.{gateway, old_der, fp_of, key_of, announcement}
use net_tls.Tests.Rotation.{announcement-IsWire}
use net_tls.Announcement.Wire.{from_json-to_json}
use net_tls.Tests.Drive.{
  drive-HexLaws, drive, drive_libs, drive-PemLaws, drive-SealLaws, drive-PreviousLaw, promise, scan,
}
use net_tls.Material.{
  from_pem, collect_certs, default_params, load_self_signed, from_der, format_ip, generate_pair,
  inspect,
}

abbrev pub works : ℕ → Bool
works n = true

abbrev pub config : Config
config = record { name = gateway; params = default_params; password = some (codes "pw") }

abbrev pub old_material : OwnMaterial
old_material = record { previous = none; current = (fp_of old_der, key_of old_der) }

abbrev pub old_serving : Current
old_serving = record {
  certified = (old_der ∷ [], pkcs8 (key_of old_der));
  fingerprint = fp_of old_der;
}

-- A promise was saved before; nothing else is on the disk.
abbrev pub files : Files
files q = elim (same q.stem (codes "pending-rotation")) [ true ↦ some [] | false ↦ none ]

abbrev pub at_first : World
at_first = record {
  machine = record { files = files; calls = 0 };
  serving = old_serving;
  material = old_material;
  schedule = new [] (pos 0);
  pending = none;
}

abbrev pub announced : World
announced = (prepare drive works config (pos 100) at_first).1

abbrev pub or_old : Result Announcement → Announcement
or_old (ok k) = k
or_old (err e) = announcement

abbrev pub next : Announcement
next = or_old (prepare drive works config (pos 100) at_first).0

abbrev switched : World
switched = (roll_if_ready_gated drive works config (pos 200) true announced).1

pub prepared_well :
    (r : Result Announcement × World) → is_ok r.0 ≡ true → r ≡ (ok (or_old r.0), r.1)
prepared_well (ok k, w) h = refl
prepared_well (err e, w) h = cc

-- It goes well and names a certificate that was not in use; the announcer is in step, and the saved
-- promise is still there.
announced-made :
    (is_ok (prepare drive works config (pos 100) at_first).0 ≡ true)
    × (same announced.material.current.0 next.new_fp ≡ false)
    × IsInSync drive announced
    × (announced.machine.files pending_path ≡ some [])
unfolding prepare prepare_new call load_self_signed from_der format_ip generate_pair inspect
    validate_common_name validate_sans validate_san_name check_label check_labels strip_last
    validate_dns trim_end trim_start utf8 join utf8_char split assemble require_component_name
    require_fingerprint require_fingerprint_if rotate_v2 save locked_material save_pem lock_now
    write_atomic skriv_atomisk remove_dir_all hold lock derive seal der_from_pem
    fingerprint_from_pem only_cert sign_if certs_pem chunk_lines pkcs8_p256 to_string announce
    sign_p256 scan Announcement.new Pem.encode Toy.encode
announced-made = (refl, refl, (refl, refl), refl)

prepared : prepare drive works config (pos 100) at_first ≡ (ok next, announced)
prepared = prepared_well (prepare drive works config (pos 100) at_first) announced-made.0

at_first-IsBacked : IsBacked drive config at_first
at_first-IsBacked = tt

pub announced-IsBacked : IsBacked drive config announced
announced-IsBacked =
    (prepare-IsBacked drive works config drive-PemLaws drive-SealLaws (pos 100) at_first announced
      next at_first-IsBacked prepared).0

pub announced-next : Option.map (λ (p : Pending). p.announcement) announced.pending ≡ some next
announced-next =
    (prepare-IsBacked drive works config drive-PemLaws drive-SealLaws (pos 100) at_first announced
      next at_first-IsBacked prepared).1

prepare-IsBacked_example :
    IsBacked drive config announced
    × (Option.map (λ (p : Pending). p.announcement) announced.pending ≡ some next)
prepare-IsBacked_example =
    prepare-IsBacked drive works config drive-PemLaws drive-SealLaws (pos 100) at_first announced
      next at_first-IsBacked prepared

pub rolled_well : (r : Result (Option Str) × World) (o : Option Str) → r.0 ≡ ok o → r ≡ (ok o, r.1)
rolled_well r o e = ap (λ x. (x, r.1)) e

rolls :
    (roll_if_ready_gated drive works config (pos 200) true announced).0 ≡ ok (some (fp_of old_der))
unfolding new roll_if_ready_gated switch swap roll_schedule can_roll rolled draw_roll_time
    tilfeldig_under draw from_le_bytes grense ◌+ℤ◌ ◌-ℤ◌ load load_unlocked unlock find_marker
    from_pem collect_certs save_previous collect rate_limit_ok prepare prepare_new call
    load_self_signed from_der format_ip generate_pair inspect validate_common_name validate_sans
    validate_san_name check_label check_labels strip_last validate_dns trim_end trim_start utf8 join
    utf8_char split assemble require_component_name require_fingerprint require_fingerprint_if
    rotate_v2 save locked_material save_pem lock_now write_atomic skriv_atomisk remove_dir_all hold
    lock derive seal der_from_pem fingerprint_from_pem only_cert sign_if certs_pem chunk_lines
    pkcs8_p256 to_string announce sign_p256 scan Announcement.new Pem.encode Toy.encode
rolls = refl

has_rolled :
    roll_if_ready_gated drive works config (pos 200) true announced
    ≡ (ok (some (fp_of old_der)), switched)
has_rolled =
    rolled_well (roll_if_ready_gated drive works config (pos 200) true announced)
      (some (fp_of old_der)) rolls

-- What the announcement names is not what was in use.
names_another :
    (p : Pending)
    → announced.pending ≡ some p
    → same announced.material.current.0 p.announcement.new_fp ≡ false
names_another p e =
    let is_next : next ≡ p.announcement =
      some-inj (sym announced-next ∙ ap (Option.map (λ (p : Pending). p.announcement)) e) in
    ap (λ (k : Announcement). same announced.material.current.0 k.new_fp) (sym is_next)
    ∙ announced-made.1

abbrev cleared : World
cleared = (save_pending drive works config switched).1

quiet_again : switched.pending ≡ none
unfolding new roll_if_ready_gated switch swap roll_schedule can_roll rolled draw_roll_time
    tilfeldig_under draw from_le_bytes grense ◌+ℤ◌ ◌-ℤ◌ load load_unlocked unlock find_marker
    from_pem collect_certs save_previous collect rate_limit_ok prepare prepare_new call
    load_self_signed from_der format_ip generate_pair inspect validate_common_name validate_sans
    validate_san_name check_label check_labels strip_last validate_dns trim_end trim_start utf8 join
    utf8_char split assemble require_component_name require_fingerprint require_fingerprint_if
    rotate_v2 save locked_material save_pem lock_now write_atomic skriv_atomisk remove_dir_all hold
    lock derive seal der_from_pem fingerprint_from_pem only_cert sign_if certs_pem chunk_lines
    pkcs8_p256 to_string announce sign_p256 scan Announcement.new Pem.encode Toy.encode
quiet_again = refl

removes_quietly :
    (w : World) (o : Option Pending)
    → o ≡ none
    → save_promise drive works config o w ≡ (ok tt, (save_promise drive works config o w).1)
removes_quietly w none e = refl
removes_quietly w (some p) e = cc

clears : save_pending drive works config switched ≡ (ok tt, cleared)
unfolding save_pending
clears = removes_quietly switched switched.pending quiet_again

roll-restart_example :
    Start.new drive config cleared.machine old_serving old_material (new [] (pos 0))
    ≡ ok (record {
      machine = cleared.machine;
      serving = old_serving;
      material = switched.material;
      schedule = new [] (pos 0);
      pending = none;
    })
roll-restart_example =
    roll-restart drive works config drive-PemLaws drive-SealLaws drive-PreviousLaw (pos 200) true
      announced switched cleared (fp_of old_der) announced-IsBacked refl names_another has_rolled
      refl clears old_material old_serving (new [] (pos 0))

roll-IsInSync_example :
    IsInSync drive (roll_if_ready_gated drive works config (pos 200) true announced).1
roll-IsInSync_example = roll-IsInSync drive works config (pos 200) true announced announced-made.2

promised : from_json drive_libs promise.announcement ≡ ok announcement
unfolding to_json scan
promised = from_json-to_json drive_libs drive-HexLaws announcement announcement-IsWire

roll-strands_promise_example :
    Start.new drive config switched.machine old_serving old_material (new [] (pos 0))
    ≡ err (chain "the key material in new is missing or damaged")
roll-strands_promise_example =
    roll-strands_promise drive works config drive-PemLaws drive-SealLaws drive-PreviousLaw (pos 200)
      true announced switched (fp_of old_der) [] promise announcement (λ n. refl) announced-IsBacked
      refl names_another announced-made.3 refl promised has_rolled old_material old_serving
      (new [] (pos 0))
