-- ===== src/Tests/Links.antt =====
-- A whole rotation between an announcer and a peer, step by step.
use net_tls.Prelude.{◌≡◌, refl, ap, true, Option, none, some, [], ◌∷◌, arith}
use net_tls.Prelude.Int.{pos, ◌+ℤ◌, ◌-ℤ◌}
use net_tls.Prelude.Text.{Str, codes, same_refl, utf8, join, utf8_char}
use net_tls.Error.{ok, is_ok}
use net_tls.Announcement.{
  Announcement, fingerprint_of, der_from_pem, fingerprint_from_pem, only_cert, sign_if, verify,
  canonical, verify_prev,
}
use net_tls.Generations.{
  Generations, Received, stored, receive, learn, from_approval, verify_server_cert,
}
use net_tls.Generations
use net_tls.Schedule.Names.{collect, insert, remove, mem}
use net_tls.Lockbox.{unlock}
use net_tls.Pem.Marker.{find_marker}
use net_tls.Schedule.{
  rate_limit_ok, rolled, draw_roll_time, tilfeldig_under, draw, from_le_bytes, grense, new,
  can_roll, announce, acked,
}
use net_tls.Disk.{call, write_atomic, skriv_atomisk, remove_dir_all}
use net_tls.Store.{load, load_unlocked}
use net_tls.Store.Pending.{Pending}
use net_tls.Announcer.{
  World, prepare, prepare_new, switch, swap, roll_schedule, roll_if_ready_gated, acked_by,
}
use net_tls.Material.Names.{
  validate_common_name, validate_sans, validate_san_name, check_label, check_labels, strip_last,
  validate_dns,
}
use net_tls.Fingerprint.{trim_end, trim_start}
use net_tls.Canonical.{
  split, assemble, require_component_name, require_fingerprint, require_fingerprint_if, rotate_v2,
}
use net_tls.Store.Save.{save_previous, save, locked_material, save_pem, lock_now}
use net_tls.Lockbox.{hold, lock, derive, seal}
use net_tls.Pem.{certs_pem, chunk_lines}
use net_tls.Pkcs8.{pkcs8_p256}
use net_tls.Prelude.Decimal.{to_string}
use net_tls.Signature.{sign_p256, verify_p256, p256_public_key}
use net_tls.Announcement
use net_tls.Pem
use net_tls.Tests.Toy
use net_tls.Link.{IsFresh, Link, Reach, here, next, prepares, receives, acks, rolls}
use net_tls.Link.Accepted.{IsReady, approved, served-accepted}
use net_tls.Tests.Restarts.{works, config, at_first, prepared_well, rolled_well, or_old}
use net_tls.Tests.Data.{old_der, fp_of}
use net_tls.Tests.Drive.{drive, drive_libs, drive-PemLaws, drive-SealLaws, scan}
use net_tls.Material.{
  leaf, from_pem, collect_certs, load_self_signed, from_der, format_ip, generate_pair, inspect,
}

abbrev billing : Str
billing = codes "billing"

abbrev start : World
start = record at_first { schedule = new (billing ∷ []) (pos 0) }

abbrev out : World
out = (prepare drive works config (pos 100) start).1

abbrev announcement_out : Announcement
announcement_out = or_old (prepare drive works config (pos 100) start).0

abbrev or_empty : Option Pending → Pending
or_empty none = record { announcement = announcement_out; new_cert_pem = []; new_pkcs8 = [] }
or_empty (some p) = p

abbrev outstanding : Pending
outstanding = or_empty out.pending

abbrev first_peer : Generations
first_peer = from_approval (Generations.from_der drive_libs old_der)

abbrev told : Generations
told = (receive drive_libs first_peer outstanding.announcement).0

abbrev heard : World
heard = acked_by billing out

abbrev rolled_world : World
rolled_world = (roll_if_ready_gated drive works config (pos 200) true heard).1

start-IsReady : IsReady drive billing start
unfolding new collect insert Toy.encode
start-IsReady = record { synced = refl; named = refl; quiet = refl; idle = tt; registered = refl }

out-made :
    (is_ok (prepare drive works config (pos 100) start).0 ≡ true)
    × IsFresh (approved drive start) announcement_out
    × (out.pending ≡ some outstanding)
unfolding new collect prepare prepare_new call load_self_signed from_der format_ip generate_pair
    inspect validate_common_name validate_sans validate_san_name check_label check_labels strip_last
    validate_dns trim_end trim_start utf8 join utf8_char split assemble require_component_name
    require_fingerprint require_fingerprint_if rotate_v2 save locked_material save_pem lock_now
    write_atomic skriv_atomisk remove_dir_all hold lock derive seal der_from_pem
    fingerprint_from_pem only_cert sign_if certs_pem chunk_lines pkcs8_p256 to_string announce
    sign_p256 scan Announcement.new Pem.encode Toy.encode approved
out-made = (refl, (refl, refl), refl)

prepared : prepare drive works config (pos 100) start ≡ (ok announcement_out, out)
prepared = prepared_well (prepare drive works config (pos 100) start) out-made.0

heard-made :
    ((receive drive_libs first_peer outstanding.announcement).1 ≡ ok stored)
    × ((roll_if_ready_gated drive works config (pos 200) true heard).0 ≡ ok (some (fp_of old_der)))
unfolding receive learn verify canonical verify_prev verify_p256 p256_public_key from_approval
    Generations.from_der Generations.from_pem acked_by acked remove insert new roll_if_ready_gated
    switch swap roll_schedule can_roll rolled draw_roll_time tilfeldig_under draw from_le_bytes
    grense ◌+ℤ◌ ◌-ℤ◌ load load_unlocked unlock find_marker from_pem collect_certs save_previous
    collect rate_limit_ok prepare prepare_new call load_self_signed from_der format_ip generate_pair
    inspect validate_common_name validate_sans validate_san_name check_label check_labels strip_last
    validate_dns trim_end trim_start utf8 join utf8_char split assemble require_component_name
    require_fingerprint require_fingerprint_if rotate_v2 save locked_material save_pem lock_now
    write_atomic skriv_atomisk remove_dir_all hold lock derive seal der_from_pem
    fingerprint_from_pem only_cert sign_if certs_pem chunk_lines pkcs8_p256 to_string announce
    sign_p256 scan Announcement.new Pem.encode Toy.encode
heard-made = (refl, refl)

abbrev receipt_sent : Link
receipt_sent = record { world = out; peer = told; receipts = outstanding.announcement.new_fp ∷ [] }

run :
    Reach drive works config billing
      (approved drive start)
      (record receipt_sent { world = rolled_world })
unfolding approved
run =
    next
      (next
        (next
          (next here (
            prepares (approved drive start) (pos 100) announcement_out out prepared
              (λ _. out-made.1)))
          (receives (record (approved drive start) { world = out }) outstanding stored told
            out-made.2 (ap (λ r. (told, r)) heard-made.0)))
        (acks receipt_sent outstanding out-made.2 (same_head outstanding.announcement.new_fp)))
      (rolls (record receipt_sent { world = heard }) (pos 200) true (some (fp_of old_der))
        rolled_world
        (rolled_well (roll_if_ready_gated drive works config (pos 200) true heard)
          (some (fp_of old_der)) heard-made.1))
  where
    same_head : (fp : Str) → mem fp (fp ∷ []) ≡ true
    same_head fp = ground (arith, same_refl fp)

served-accepted_example :
    (verify_server_cert drive_libs told (leaf rolled_world.serving.certified.0)).1 ≡ true
served-accepted_example =
    served-accepted drive works config billing drive-PemLaws drive-SealLaws start
      (record receipt_sent { world = rolled_world }) start-IsReady run
