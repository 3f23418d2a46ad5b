-- ===== src/Announcer/Sync.antt =====
-- What is served and what the announcer takes for its own change together, whatever goes wrong.
use net_tls.Prelude.{ℕ, suc, ◌≡◌, refl, sym, Bool, true, false, not, Option, none, some, is_empty}
use net_tls.Prelude.Int.{ℤ}
use net_tls.Prelude.Text.{Str, Bytes}
use net_tls.Error.{Result, ok, err, ok-inj, refuse, key_mismatch, >>=-eq-ok, >>-eq-ok}
use net_tls.Signature.{ok_or}
use net_tls.Announcement.{fingerprint_of}
use net_tls.Host.{Host}
use net_tls.Lockbox.{hold, unlock}
use net_tls.Material.{
  TlsMaterial, CertOrigin, from_pem, from_der, inspect, collect_certs, leaf, pem_bytes,
}
use net_tls.Pem.Marker.{find_marker}
use net_tls.Schedule.{Schedule, can_roll, rolled}
use net_tls.Disk.{Dir, main, new_dir, Files, Machine, Action, carry_on}
use net_tls.Store.{load, load_files, load_unlocked, read, cert_path, key_path, locked_path}
use net_tls.Store.Save.{save, save_previous}
use net_tls.Store.Pending.{Pending}
use net_tls.Announcer.{
  World, Config, moved, after_draw, swap, switch, roll_schedule, roll_if_ready_gated, roll_ready,
}

module _ (h : Host) where
  IsNamed : TlsMaterial → Type 0
  IsNamed m = m.fingerprint ≡ fingerprint_of h.libs (leaf m.chain)

  from_pem-IsNamed :
      (cert key : Bytes) (o : CertOrigin) (m : TlsMaterial)
      → from_pem h cert key o ≡ ok m
      → IsNamed m
  unfolding from_pem from_der IsNamed
  from_pem-IsNamed cert key o m e =
      let (chain, h₁, k₁) = >>=-eq-ok (ok_or (collect_certs (h.libs.pem_slice_iter cert)) _) _ e in
      let (h₂, k₂) = >>-eq-ok (refuse (is_empty chain) _) _ k₁ in
      let (k, h₃, k₃) = >>=-eq-ok (ok_or (h.key_from_pem key) _) _ k₂ in
      let (h₄, k₄) = >>-eq-ok (refuse (not (h.certified chain k)) _) _ k₃ in
      let (i, h₅, k₅) = >>=-eq-ok (inspect h (leaf chain)) _ k₄ in rw (← ok-inj k₅) refl

  load-IsNamed :
      (password : Option Bytes) (d : Dir) (fs : Files) (m : TlsMaterial)
      → load h password d fs ≡ ok m
      → IsNamed m
  unfolding load load_files load_unlocked
  load-IsNamed none d fs m e =
      let (cert, h₁, k₁) = >>=-eq-ok (read (cert_path d) fs) _ e in
      let (file, h₂, k₂) = >>=-eq-ok (read (key_path d) fs) _ k₁ in
      let (key, h₃, k₃) = >>=-eq-ok (hold h file) _ k₂ in
      from_pem-IsNamed cert key CertOrigin.files m k₃
  load-IsNamed (some pw) d fs m e =
      let (file, h₁, k₁) = >>=-eq-ok (read (locked_path d) fs) _ e in
      let (out, h₂, k₂) = >>=-eq-ok (unlock h pw file) _ k₁ in
      let (skille, h₃, k₃) = >>=-eq-ok (ok_or (find_marker out) _) _ k₂ in
      from_pem-IsNamed _ _ pem_bytes m k₃

-- The certificate that new handshakes get, the first of the `CertifiedKey`, is the one that the chain
-- calls the current, and so is the fingerprint that the resolver names.
abbrev pub IsInSync : Host → World → Type 0
IsInSync h w =
    (fingerprint_of h.libs (leaf w.serving.certified.0) ≡ w.material.current.0)
    × (w.material.current.0 ≡ w.serving.fingerprint)

-- A chain of actions stays in step if its first part does and the rest does from there.
keeps-lift {κ μ} :
    (h : Host) {A : Type κ} {B : Type μ} (r : Result A) (rest : A → Action World B) (w : World)
    → IsInSync h w
    → ((a : A) → r ≡ ok a → IsInSync h (rest a w).1)
    → IsInSync h (carry_on rest (r, w)).1
keeps-lift h (ok a) rest w p q = q a refl
keeps-lift h (err e) rest w p q = p

keeps-machine {κ μ} :
    (h : Host) {A : Type κ} {B : Type μ} (w : World) (r : Result A × Machine)
    (rest : A → Action World B)
    → IsInSync h w
    → ((a : A) (s : Machine) → IsInSync h (rest a (record w { machine = s })).1)
    → IsInSync h (carry_on rest (moved w r)).1
keeps-machine h w (ok a, s) rest p q = q a s
keeps-machine h w (err e, s) rest p q = p

keeps-draw {μ} :
    (h : Host) {B : Type μ} (w : World) (r : Schedule × Result (Unit {0}))
    (rest : Unit {0} → Action World B)
    → IsInSync h w
    → ((s : Schedule) → IsInSync h (rest tt (record w { schedule = s })).1)
    → IsInSync h (carry_on rest (after_draw w r)).1
keeps-draw h w (s, ok u) rest p q = q s
keeps-draw h w (s, err e) rest p q = p

keeps-swap {μ} :
    (h : Host) {B : Type μ} (w : World) (m : TlsMaterial) (rest : Str → Action World B)
    → IsInSync h w
    → IsInSync h
        (rest w.serving.fingerprint (record w {
          serving = record { certified = (m.chain, m.key); fingerprint = m.fingerprint };
        })).1
    → IsInSync h (carry_on rest (swap h m w)).1
unfolding swap
keeps-swap h w m rest p q = split (
    refuse (not (h.certified m.chain m.key))
      (key_mismatch "the key does not belong to the certificate"))
  where
    split :
        (r : Result (Unit {0}))
        → IsInSync h
            (carry_on rest (
              carry_on
                (λ _. λ (v : World). (
                  ok v.serving.fingerprint,
                  record v {
                    serving = record { certified = (m.chain, m.key); fingerprint = m.fingerprint };
                  },
                ))
                (r, w))).1
    split (ok u) = q
    split (err e) = p

module _ (h : Host) (works : ℕ → Bool) (c : Config) where
  switch-IsInSync :
      (now : ℤ) (key : Bytes) (w : World) → IsInSync h w → IsInSync h (switch h works c now key w).1
  unfolding switch roll_schedule IsNamed
  switch-IsInSync now key w p =
      keeps-lift h (load h c.password new_dir w.machine.files) _ w p λ fresh loaded.
        keeps-machine h w (save h works c.password fresh main w.machine) _ p λ _ stored.
          keeps-swap h (record w { machine = stored }) fresh _ p
            let named : IsNamed h fresh =
                load-IsNamed h c.password new_dir w.machine.files fresh loaded in
              let switched : World = record w {
                machine = stored;
                serving = record {
                  certified = (fresh.chain, fresh.key);
                  fingerprint = fresh.fingerprint;
                };
                material = record {
                  previous = some w.material.current;
                  current = (fingerprint_of h.libs (leaf fresh.chain), key);
                };
              } in
              keeps-machine h switched
                (save_previous h works c.password (some w.material.current) stored) _
                (refl, sym named)
                λ _ kept.
                  keeps-draw h
                    (record switched {
                      machine = record kept { calls = suc kept.calls };
                      pending = none;
                    })
                    (rolled (h.random 8 kept.calls) w.schedule now) _ (refl, sym named)
                    λ schedule. (refl, sym named)

  -- Whether a call of `roll_if_ready_gated` goes well or fails, and wherever it fails: when the
  -- certificate that is served (the first of the certified key, and the fingerprint beside it) and the
  -- current one of the chain were the same before, they are behind it.
  pub roll-IsInSync :
      (now : ℤ) (safe_now : Bool) (w : World)
      → IsInSync h w
      → IsInSync h (roll_if_ready_gated h works c now safe_now w).1
  unfolding roll_if_ready_gated
  roll-IsInSync now safe_now w p = split (can_roll w.schedule now) w.pending safe_now
    where
      split :
          (ready : Bool) (o : Option Pending) (safe : Bool)
          → IsInSync h (roll_ready h works c ready o now safe w).1
      split false o safe = p
      split true none safe = p
      split true (some v) false = keeps-lift h (hold h v.new_pkcs8) _ w p λ key e. p
      split true (some v) true =
          keeps-lift h (hold h v.new_pkcs8) _ w p λ key e. switch-IsInSync now key w p
