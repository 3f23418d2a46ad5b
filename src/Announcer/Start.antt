-- ===== src/Announcer/Start.antt =====
-- `Announcer::new`: the chain and the promise that lie on the disk, or the anchor at the first boot.
use net_tls.Prelude.{Option, none, some}
use net_tls.Error.{Result, ok, ◌>>=◌}
use net_tls.Host.{Host}
use net_tls.Schedule.{Schedule}
use net_tls.Disk.{Machine}
use net_tls.Store.{OwnMaterial, restore_material}
use net_tls.Store.Pending.{Pending, restore_pending}
use net_tls.Announcer.{World, Current, Config}

-- What `new` starts from, with what lies on the disk put into it.
abbrev pub started : World → Option OwnMaterial → Option (Pending × Schedule) → World
started w none none = w
started w (some own) none = record w { material = own }
started w none (some (p, r)) = record w { pending = some p; schedule = r }
started w (some own) (some (p, r)) = record w { material = own; pending = some p; schedule = r }

-- The announcer before anything is restored.
abbrev pub unrestored : Machine → Current → OwnMaterial → Schedule → World
unrestored machine serving anchor schedule = record {
  machine = machine;
  serving = serving;
  material = anchor;
  schedule = schedule;
  pending = none;
}

module _ (h : Host) (c : Config) where
  unfoldable pub new : Machine → Current → OwnMaterial → Schedule → Result World
  new machine serving anchor schedule = do
    own ← restore_material h c.password machine.files
    promise ← restore_pending h c.password machine.files schedule
    ok (started (unrestored machine serving anchor schedule) own promise)
