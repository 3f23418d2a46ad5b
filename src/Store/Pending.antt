-- ===== src/Store/Pending.antt =====
-- announcer.rs, `restore_pending`: the promise that lies on the disk, read back after a restart.
use net_tls.Prelude.{Option, none, some}
use net_tls.Prelude.Text.{Str, Bytes, codes}
use net_tls.Error.{Result, ok, chain, proof, map_err, ◌>>=◌}
use net_tls.Signature.{ok_or}
use net_tls.Announcement.{Announcement, from_json}
use net_tls.Host.{Host}
use net_tls.Pkcs8.{pkcs8_p256}
use net_tls.Material.{leaf}
use net_tls.Schedule.{Schedule, restore_announced}
use net_tls.Disk.{main, new_dir, FilePath, Files}
use net_tls.Store.{load}

pub record Pending : Type 0 where
  pub announcement : Announcement
  pub new_cert_pem : Str
  pub new_pkcs8 : Bytes

abbrev pub pending_path : FilePath
pending_path = record { dir = main; stem = codes "pending-rotation"; extension = codes "json" }

module _ (h : Host) where
  -- What lies in the pending file, with the schedule that goes with it; `none` is `Ok(false)`. A file
  -- that is no UTF-8 counts as one that cannot be parsed.
  abbrev pub promise_from :
      Option Bytes → Option Bytes → Files → Schedule → Result (Option (Pending × Schedule))
  promise_from none password fs r = ok none
  promise_from (some text) password fs r = do
    on_disk ← ok_or (h.pending_from_json text) (proof "the pending file could not be parsed")
    k ← from_json h.libs on_disk.announcement
    m ← map_err (load h password new_dir fs) (chain "the key material in new is missing or damaged")
    new_pkcs8 ← pkcs8_p256 h m.key (leaf m.chain)
    let found : Pending = record {
      announcement = k;
      new_cert_pem = on_disk.new_cert_pem;
      new_pkcs8 = new_pkcs8;
    }
    ok (some (found, restore_announced r on_disk.waiting_for on_disk.first_announced))

  unfoldable pub restore_pending :
      Option Bytes → Files → Schedule → Result (Option (Pending × Schedule))
  restore_pending password fs r = promise_from (fs pending_path) password fs r
