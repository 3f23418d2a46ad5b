-- ===== src/Announcer/Roll.antt =====
-- What a switch of the certificate does: to the keys, the served certificate, the schedule and the disk.
use net_tls.Prelude.{ℕ, suc, ◌≡◌, refl, sym, ap, Bool, true, false, not, Option, none, some}
use net_tls.Prelude.Int.{ℤ}
use net_tls.Prelude.Text.{Str, Bytes}
use net_tls.Error.{Result, ok, err, ok-inj, refuse, key_mismatch}
use net_tls.Announcement.{fingerprint_of}
use net_tls.Host.{Host}
use net_tls.Material.{TlsMaterial, leaf}
use net_tls.Schedule.{Schedule, rolled}
use net_tls.Disk.{main, new_dir, Machine, Action, carry_on, remove_dir_all}
use net_tls.Disk.Effects.{lift-then}
use net_tls.Store.{load}
use net_tls.Store.Save.{save, save_previous}
use net_tls.Announcer.{after_draw, World, Config, moved, swap, switch, roll_schedule}

-- The steps of a chain that ended well, for the actions that a switch is made of.
pub machine-then {κ μ} :
    {A : Type κ} {B : Type μ} {b : B} {t : World} (w : World) (r : Result A × Machine)
    (rest : A → Action World B)
    → carry_on rest (moved w r) ≡ (ok b, t)
    → (a : A) × (s : Machine) × (r ≡ (ok a, s)) × (rest a (record w { machine = s }) ≡ (ok b, t))
machine-then w (ok a, s) rest e = (a, s, refl, e)
machine-then w (err x, s) rest e = cc

draw-then {μ} :
    {B : Type μ} {b : B} {t : World} (w : World) (r : Schedule × Result (Unit {0}))
    (rest : Unit {0} → Action World B)
    → carry_on rest (after_draw w r) ≡ (ok b, t)
    → (r.1 ≡ ok tt) × (rest tt (record w { schedule = r.0 }) ≡ (ok b, t))
draw-then w (s, ok u) rest e = (refl, e)
draw-then w (s, err x) rest e = cc

module _ (h : Host) where
  swap-then {μ} :
      {B : Type μ} {b : B} {t : World} (w : World) (m : TlsMaterial) (rest : Str → Action World B)
      → carry_on rest (swap h m w) ≡ (ok b, t)
      → rest w.serving.fingerprint (record w {
        serving = record { certified = (m.chain, m.key); fingerprint = m.fingerprint };
      })
        ≡ (ok b, t)
  unfolding swap
  swap-then {b = b} {t = t} w m rest e = split (h.certified m.chain m.key) e
    where
      split :
          (good : Bool)
          → carry_on rest (
              carry_on
                (λ _. λ (v : World). (
                  ok v.serving.fingerprint,
                  record v {
                    serving = record { certified = (m.chain, m.key); fingerprint = m.fingerprint };
                  },
                ))
                (refuse (not good) (key_mismatch "the key does not belong to the certificate"), w))
            ≡ (ok b, t)
          → rest w.serving.fingerprint (record w {
            serving = record { certified = (m.chain, m.key); fingerprint = m.fingerprint };
          })
            ≡ (ok b, t)
      split true e = e
      split false e = cc

module _ (h : Host) (works : ℕ → Bool) (c : Config) where
  -- A switch that went well: the material that it loaded, the disk after the material and after the
  -- previous key, the schedule, and the world that these make.
  pub record Switched (w w' : World) (key : Bytes) (now : ℤ) : Type 0 where
    pub fresh : TlsMaterial
    pub loaded : load h c.password new_dir w.machine.files ≡ ok fresh
    pub stored : Machine
    pub stores : save h works c.password fresh main w.machine ≡ (ok tt, stored)
    pub kept : Machine
    pub keeps : save_previous h works c.password (some w.material.current) stored ≡ (ok tt, kept)
    pub schedule : Schedule
    pub rolls : rolled (h.random 8 kept.calls) w.schedule now ≡ (schedule, ok tt)
    pub result : w' ≡ record {
      machine = (remove_dir_all works new_dir (record kept { calls = suc kept.calls })).1;
      serving = record { certified = (fresh.chain, fresh.key); fingerprint = fresh.fingerprint };
      material = record {
        previous = some w.material.current;
        current = (fingerprint_of h.libs (leaf fresh.chain), key);
      };
      schedule = schedule;
      pending = none;
    }

  pub switch-Switched :
      (now : ℤ) (key : Bytes) (w w' : World) (old : Option Str)
      → switch h works c now key w ≡ (ok old, w')
      → Switched w w' key now × (old ≡ some w.serving.fingerprint)
  unfolding switch roll_schedule
  switch-Switched now key w w' old e =
      let (fresh, h₁, k₁) = lift-then (load h c.password new_dir w.machine.files) _ w e in
      let (x₂, stored, h₂, k₂) =
        machine-then w (save h works c.password fresh main w.machine) _ k₁ in
      let k₃ = swap-then h (record w { machine = stored }) fresh _ k₂ in
      let switched : World = record {
        machine = stored;
        serving = record { certified = (fresh.chain, fresh.key); fingerprint = fresh.fingerprint };
        material = record {
          previous = some w.material.current;
          current = (fingerprint_of h.libs (leaf fresh.chain), key);
        };
        schedule = w.schedule;
        pending = w.pending;
      } in
      let (x₄, kept, h₄, k₄) =
        machine-then switched (save_previous h works c.password (some w.material.current) stored) _
          k₃ in
      let (h₅, k₅) =
        draw-then
          (record switched { machine = record kept { calls = suc kept.calls }; pending = none })
          (rolled (h.random 8 kept.calls) w.schedule now) _ k₄ in
      (
        record {
          fresh = fresh;
          loaded = h₁;
          stored = stored;
          stores = h₂;
          kept = kept;
          keeps = h₄;
          schedule = (rolled (h.random 8 kept.calls) w.schedule now).0;
          rolls = ap (λ r. ((rolled (h.random 8 kept.calls) w.schedule now).0, r)) h₅;
          result = sym (ap (λ p. p.1) k₅);
        },
        ok-inj (sym (ap (λ p. p.0) k₅)),
      )
