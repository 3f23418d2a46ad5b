-- ===== src/Announcer.antt =====
-- announcer.rs, the `Announcer`: the schedule, the keys, the served certificate and the disk in one;
-- and the swap of resolver.rs. A `RwLock` is the value in it: a call runs alone and no lock is poisoned.
pub mod Start
pub mod Roll
pub mod Chain
pub mod Settled
pub mod Restart
pub mod Sync
pub mod Prepare
pub mod Views
pub mod Crash
pub mod Leaves
pub mod Issued
use Prim.Native.String.{String}
use net_tls.Prelude.{
  ℕ, ◌≡◌, refl, Bool, true, false, not, Option, none, some, List, [], if◌then◌else◌,
}
use mathlib.Core.Option
use net_tls.Prelude.Int.{ℤ, pos}
use net_tls.Prelude.Text.{Str, Bytes, codes}
use net_tls.Error.{TlsError, Result, ok, err, io, pem, chain, proof, key_mismatch, map_err, refuse}
use net_tls.Signature.{ok_or}
use net_tls.Announcement
use net_tls.Announcement.{Announcement, fingerprint_of, to_json, from_json}
use net_tls.Host.{Host, PrivateKey, PendingOnDisk, SelfSignedParams}
use net_tls.Pem.{encode, certificate_label}
use net_tls.Lockbox.{hold}
use net_tls.Pkcs8.{pkcs8_p256}
use net_tls.Material.{TlsMaterial, load_self_signed, leaf}
use net_tls.Schedule.{
  Schedule, announce, acked, can_roll, rolled, waiting_for, first_announced, restore_announced,
  should_announce,
}
use net_tls.Disk.{
  Dir, main, new_dir, FilePath, Files, Machine, Action, ◌>>=◌, ◌>>◌, lift, look, change, ignoring,
  counted, call, skriv_atomisk, remove_dir_all, put,
}
use net_tls.Store.{OwnMaterial, load, restore_material, read}
use net_tls.Store.Save.{save, save_previous}
use net_tls.Store.Pending.{Pending, pending_path, restore_pending}

-- resolver.rs, `Current`: the chain and the key that new handshakes get.
pub record Current : Type 0 where
  pub certified : List Bytes × PrivateKey
  pub fingerprint : Str

pub record OwnTrio : Type 0 where
  pub previous_fingerprint : Option Str
  pub current_fingerprint : Str
  pub next_fingerprint : Option Str

-- What does not change in an `Announcer`; its directory is `main`.
pub record Config : Type 0 where
  pub name : Str
  pub params : SelfSignedParams
  pub password : Option Bytes

-- An `Announcer`, the resolver that it shares with the server, and its surroundings.
pub record World : Type 0 where
  pub machine : Machine
  pub serving : Current
  pub material : OwnMaterial
  pub schedule : Schedule
  pub pending : Option Pending

-- An action of the disk, in the world.
abbrev pub moved {ℓ} : {A : Type ℓ} → World → Result A × Machine → Result A × World
moved w (r, s) = (r, record w { machine = s })

abbrev pub on_machine {ℓ} : {A : Type ℓ} → Action Machine A → Action World A
on_machine m w = moved w (m w.machine)

unfoldable pub own_trio : World → OwnTrio
own_trio w = record {
  previous_fingerprint = Option.map (λ (p : Str × Bytes). p.0) w.material.previous;
  current_fingerprint = w.material.current.0;
  next_fingerprint = Option.map (λ (p : Pending). p.announcement.new_fp) w.pending;
}

-- The method `acked`.
unfoldable pub acked_by : Str → World → World
acked_by peer w = record w { schedule = acked w.schedule peer }

abbrev pub after_draw : World → Schedule × Result (Unit {0}) → Result (Unit {0}) × World
after_draw w (s, r) = (r, record w { schedule = s })

-- The consumer's gate.
abbrev pub gated : Bool → Action World (Option Str) → Action World (Option Str)
gated false m = lift (ok none)
gated true m = m

-- `o.unwrap_or(0)`
abbrev pub or_zero : Option ℤ → ℤ
or_zero none = pos 0
or_zero (some t) = t

module _ (h : Host) where
  -- resolver.rs, `swap`: the fingerprint that was served before.
  unfoldable pub swap : TlsMaterial → Action World Str
  swap m = do
    lift (
        refuse (not (h.certified m.chain m.key))
          (key_mismatch "the key does not belong to the certificate"))
    old ← look (λ (w : World). w.serving.fingerprint)
    change (λ (w : World). record w {
      serving = record { certified = (m.chain, m.key); fingerprint = m.fingerprint };
    })
    lift (ok old)

  module _ (works : ℕ → Bool) (c : Config) where
    -- `prepare` when nothing is pending.
    unfoldable pub prepare_new : ℤ → Action World Announcement
    prepare_new now = do
      n ← on_machine counted
      fresh ← lift (load_self_signed h c.params n)
      on_machine (call works "create_dir_all" (λ fs. fs))
      on_machine (save h works c.password fresh new_dir)
      let der = leaf fresh.chain
      let text = encode h certificate_label der
      new_pkcs8 ← lift (pkcs8_p256 h fresh.key der)
      m ← look (λ (w : World). w.material)
      k ← lift (Announcement.new h.libs c.name m.previous m.current text now)
      change (λ (w : World). record w {
        pending = some (record { announcement = k; new_cert_pem = text; new_pkcs8 = new_pkcs8 });
        schedule = announce w.schedule now;
      })
      lift (ok k)

    abbrev pub prepare_from : Option Pending → ℤ → Action World Announcement
    prepare_from (some p) now = lift (ok p.announcement)
    prepare_from none now = prepare_new now

    unfoldable pub prepare : ℤ → Action World Announcement
    prepare now w = prepare_from w.pending now w

    -- `self.schedule.write()?.rolled(now)?`, which draws at the next call.
    unfoldable pub roll_schedule : ℤ → Action World (Unit {0})
    roll_schedule now = do
      n ← on_machine counted
      λ w. after_draw w (rolled (h.random 8 n) w.schedule now)

    -- `roll_if_ready_gated` once the gate is open: from the disk to the disk, to the resolver, to `self`.
    unfoldable pub switch : ℤ → Bytes → Action World (Option Str)
    switch now new_pkcs8 = do
      fs ← look (λ (w : World). w.machine.files)
      fresh ← lift (load h c.password new_dir fs)
      on_machine (save h works c.password fresh main)
      old ← swap fresh
      change (λ (w : World). record w {
        material = record {
          previous = some w.material.current;
          current = (fingerprint_of h.libs (leaf fresh.chain), new_pkcs8);
        };
      })
      m ← look (λ (w : World). w.material)
      on_machine (save_previous h works c.password m.previous)
      change (λ (w : World). record w { pending = none })
      roll_schedule now
      on_machine (ignoring (remove_dir_all works new_dir))
      lift (ok (some old))

    abbrev pub roll_pending : Option Pending → ℤ → Bool → Action World (Option Str)
    roll_pending none now safe_now = lift (ok none)
    roll_pending (some p) now safe_now = do
      new_pkcs8 ← lift (hold h p.new_pkcs8)
      gated safe_now (switch now new_pkcs8)

    abbrev pub roll_ready : Bool → Option Pending → ℤ → Bool → Action World (Option Str)
    roll_ready false p now safe_now = lift (ok none)
    roll_ready true p now safe_now = roll_pending p now safe_now

    -- `safe_now` is the answer that the gate would give.
    unfoldable pub roll_if_ready_gated : ℤ → Bool → Action World (Option Str)
    roll_if_ready_gated now safe_now w =
        roll_ready (can_roll w.schedule now) w.pending now safe_now w

    unfoldable pub roll_if_ready : ℤ → Action World (Option Str)
    roll_if_ready now = roll_if_ready_gated now true

    abbrev pub save_promise : Option Pending → Action World (Unit {0})
    save_promise none = on_machine (ignoring (call works "remove_file" (put pending_path none)))
    save_promise (some v) = do
      r ← look (λ (w : World). w.schedule)
      text ← lift (
          ok_or
            (h.pending_to_json (record {
              announcement = to_json h.libs v.announcement;
              new_cert_pem = v.new_cert_pem;
              waiting_for = waiting_for r;
              first_announced = or_zero (first_announced r);
            }))
            (proof "could not serialize"))
      on_machine (skriv_atomisk works pending_path text)

    unfoldable pub save_pending : Action World (Unit {0})
    save_pending w = save_promise w.pending w
