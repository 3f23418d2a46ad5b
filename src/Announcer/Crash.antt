-- ===== src/Announcer/Crash.antt =====
-- A rotation that fails or is cut off: what is left on the disk is a material, the old or the new.
use net_tls.Prelude.{
  ℕ, suc, ◌≡◌, ◌⊎◌, inl, inr, refl, sym, ◌∙◌, subst, Bool, true, false, Option, none, some,
}
use net_tls.Prelude.Int.{ℤ}
use net_tls.Prelude.Text.{Str, Bytes}
use net_tls.Pkcs8.{pkcs8_p256}
use net_tls.Error.{Result, ok, err, is_ok}
use net_tls.Announcement.{fingerprint_of}
use net_tls.Host.{Host}
use net_tls.Lockbox.{hold}
use net_tls.Lockbox.RoundTrip.{SealLaws}
use net_tls.Material.{TlsMaterial, leaf}
use net_tls.Schedule.{can_roll, rolled}
use net_tls.Disk.{main, new_dir, Files, Machine, Action, carry_on, lift}
use net_tls.Store.{load, locked_path}
use net_tls.Store.RoundTrip.{PemLaws}
use net_tls.Store.Locked.{loaded_origin}
use net_tls.Store.Save.{save, save_previous}
use net_tls.Store.Crash.{save-crash, load-locked_same, remove_dir_all-Leaves}
use net_tls.Store.Pending.{Pending}
use net_tls.Announcer.Leaves.{
  LeavesIn, carry_on-LeavesIn, moved-LeavesIn, after_draw-LeavesIn, save_previous-Leaves,
  swap-LeavesIn,
}
use net_tls.Announcer.{
  World, Config, moved, after_draw, swap, switch, roll_schedule, roll_if_ready_gated, roll_ready,
}
use net_tls.Announcer.Chain.{IsBacked, IsKept, IsKept-of}

module _ (h : Host) (works : ℕ → Bool) where
  module _ (c : Config) where
    -- The pending material, on the disk under the main directory.
    abbrev pub IsPromoted : Pending → Files → Type 0
    IsPromoted p fs =
        (m : TlsMaterial) × (load h c.password main fs ≡ ok m)
        × (fingerprint_of h.libs (leaf m.chain) ≡ p.announcement.new_fp)
        × (pkcs8_p256 h m.key (leaf m.chain) ≡ ok p.new_pkcs8)

    -- The material is what it was, or the pending one.
    abbrev pub OldOrNew : Option Pending → Files → Files → Type 0
    OldOrNew none old fs = load h c.password main fs ≡ load h c.password main old
    OldOrNew (some p) old fs =
        (load h c.password main fs ≡ load h c.password main old) ⊎ IsPromoted p fs

    module _ (pw : Bytes) (has_password : c.password ≡ some pw) where
      load_same :
          (fs gs : Files)
          → fs (locked_path main) ≡ gs (locked_path main)
          → load h c.password main fs ≡ load h c.password main gs
      load_same fs gs e =
          subst (λ o. load h o main fs ≡ load h o main gs) (sym has_password)
            (load-locked_same h pw main fs gs e)

      after_save :
          (p : Pending) (w : World) (rest : Unit {0} → Action World (Option Str))
          (r : Result (Unit {0}) × Machine)
          → ((r.0 ≡ ok tt) × IsPromoted p r.1.files)
            ⊎ ((is_ok r.0 ≡ false)
                × (load h c.password main r.1.files ≡ load h c.password main w.machine.files))
          → ((t : Machine)
              → LeavesIn (locked_path main) t.files (rest tt (record w { machine = t })))
          → OldOrNew (some p) w.machine.files (carry_on rest (moved w r)).1.machine.files
      after_save p w rest (err x, t) (inl (bad, _)) keeps = cc
      after_save p w rest (err x, t) (inr (_, same)) keeps = inl same
      after_save p w rest (ok tt, t) (inr (bad, _)) keeps = cc
      after_save p w rest (ok tt, t) (inl (_, (m, loads, named, key))) keeps =
          inr (m, load_same _ t.files (keeps t) ∙ loads, named, key)

      switch-crash :
          PemLaws h
          → SealLaws h
          → (now : ℤ) (key : Bytes) (w : World) (p : Pending) → IsKept h c w.machine.files p
          → OldOrNew (some p) w.machine.files (switch h works c now key w).1.machine.files
      unfolding switch roll_schedule
      switch-crash laws seals now key w p kept = rw kept.loads (
          after_save p w _ (save h works c.password kept.next main w.machine) saved λ t.
            carry_on-LeavesIn (locked_path main) t.files _
              (swap h kept.next (record w { machine = t }))
              (swap-LeavesIn h works c kept.next t.files (record w { machine = t }) refl)
              λ old u e.
                let switched : World = record u {
                  material = record {
                    previous = some u.material.current;
                    current = (fingerprint_of h.libs (leaf kept.next.chain), key);
                  };
                } in
                carry_on-LeavesIn (locked_path main) t.files _
                  (moved switched
                    (save_previous h works c.password (some u.material.current) u.machine))
                  (moved-LeavesIn (locked_path main) t.files switched
                    (save_previous h works c.password (some u.material.current) u.machine)
                    (save_previous-Leaves h works c.password (some u.material.current) t.files
                      u.machine e))
                  λ _ v e₂.
                    let settled : World = record v {
                      pending = none;
                      machine = record v.machine { calls = suc v.machine.calls };
                    } in
                    carry_on-LeavesIn (locked_path main) t.files _
                      (after_draw settled (rolled (h.random 8 v.machine.calls) v.schedule now))
                      (after_draw-LeavesIn (locked_path main) t.files settled
                        (rolled (h.random 8 v.machine.calls) v.schedule now) e₂)
                      λ _ x e₃.
                        remove_dir_all-Leaves works (locked_path main) t.files new_dir x.machine
                          refl e₃)
        where
          saved :
              ((save h works c.password kept.next main w.machine).0 ≡ ok tt
                × IsPromoted p (save h works c.password kept.next main w.machine).1.files)
              ⊎ ((is_ok (save h works c.password kept.next main w.machine).0 ≡ false)
                  × (load h c.password main
                        (save h works c.password kept.next main w.machine).1.files
                      ≡ load h c.password main w.machine.files))
          saved = elim crashed [
            | inl (done, loads) ↦ inl (
              done,
              (record kept.next { origin = loaded_origin c.password }, loads, kept.named, kept.key),
            )
            | inr failed ↦ inr failed
          ]
            where
              crashed :
                  (((save h works c.password kept.next main w.machine).0 ≡ ok tt)
                    × (load h c.password main
                          (save h works c.password kept.next main w.machine).1.files
                        ≡ ok (record kept.next { origin = loaded_origin c.password })))
                  ⊎ ((is_ok (save h works c.password kept.next main w.machine).0 ≡ false)
                      × (load h c.password main
                            (save h works c.password kept.next main w.machine).1.files
                          ≡ load h c.password main w.machine.files))
              crashed =
                  subst
                    (λ o.
                      (((save h works o kept.next main w.machine).0 ≡ ok tt)
                        × (load h o main (save h works o kept.next main w.machine).1.files
                            ≡ ok (record kept.next { origin = loaded_origin o })))
                      ⊎ ((is_ok (save h works o kept.next main w.machine).0 ≡ false)
                          × (load h o main (save h works o kept.next main w.machine).1.files
                              ≡ load h o main w.machine.files)))
                    (sym has_password)
                    (save-crash h works laws seals pw kept.next kept.next_key main w.machine
                      kept.good)

      -- Whatever call of a rotation fails, or is not made any more because the process ends, with a
      -- password and a promise that can be kept: `load` gives what it gave before, or the material that
      -- was announced, with the key that belongs to it.
      pub roll-crash :
          PemLaws h
          → SealLaws h
          → (now : ℤ) (safe_now : Bool) (w : World) → IsBacked h c w
          → OldOrNew w.pending w.machine.files
              (roll_if_ready_gated h works c now safe_now w).1.machine.files
      unfolding roll_if_ready_gated
      roll-crash laws seals now safe_now w backed =
          split (can_roll w.schedule now) w.pending safe_now refl
        where
          held :
              (p : Pending) (r : Result Bytes) (rest : Bytes → Action World (Option Str))
              → ((key : Bytes) → OldOrNew (some p) w.machine.files (rest key w).1.machine.files)
              → OldOrNew (some p) w.machine.files (carry_on rest (r, w)).1.machine.files
          held p (ok key) rest k = k key
          held p (err x) rest k = inl refl

          split :
              (ready : Bool) (o : Option Pending) (safe : Bool)
              → w.pending ≡ o
              → OldOrNew o w.machine.files (roll_ready h works c ready o now safe w).1.machine.files
          split false none safe e = refl
          split false (some p) safe e = inl refl
          split true none safe e = refl
          split true (some p) false e =
              held p (hold h p.new_pkcs8) (λ key. lift (ok none)) (λ key. inl refl)
          split true (some p) true e =
              held p (hold h p.new_pkcs8) (switch h works c now)
                (λ key. switch-crash laws seals now key w p (IsKept-of h c w p backed e))
