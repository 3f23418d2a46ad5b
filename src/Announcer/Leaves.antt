-- ===== src/Announcer/Leaves.antt =====
-- The parts of a rotation that leave a file alone.
use net_tls.Prelude.{ℕ, ◌≡◌, refl, ◌∙◌, Bool, false, not, Option, none, some}
use net_tls.Prelude.Text.{Str, Bytes}
use net_tls.Error.{Result, ok, err, refuse}
use net_tls.Signature.{ok_or}
use net_tls.Host.{Host}
use net_tls.Material.{TlsMaterial}
use net_tls.Schedule.{Schedule}
use net_tls.Disk.{
  main, Files, FilePath, Machine, Action, carry_on, lift, is_at, tmp_of, skriv_atomisk,
}
use net_tls.Store.{locked_path, previous_path}
use net_tls.Store.Save.{save_previous, locked_if, lock_now}
use net_tls.Store.Crash.{Leaves, call-Leaves, carry_on-Leaves}
use net_tls.Disk.Effects.{after_write, skriv_atomisk-after_write}
use net_tls.Announcer.{World, Config, moved, after_draw, swap}

-- A file that every part of a chain in the world leaves as it is.
abbrev pub LeavesIn {ℓ} : {A : Type ℓ} → FilePath → Files → Result A × World → Type 0
LeavesIn q old r = r.1.machine.files q ≡ old q

module _ (q : FilePath) (old : Files) where
  pub carry_on-LeavesIn {κ μ} :
      {A : Type κ} {B : Type μ} (rest : A → Action World B) (r : Result A × World)
      → LeavesIn q old r
      → ((a : A) (u : World) → u.machine.files q ≡ old q → LeavesIn q old (rest a u))
      → LeavesIn q old (carry_on rest r)
  carry_on-LeavesIn rest (ok a, u) p k = k a u p
  carry_on-LeavesIn rest (err e, u) p k = p

  pub moved-LeavesIn {κ} :
      {A : Type κ} (w : World) (r : Result A × Machine)
      → Leaves q old r
      → LeavesIn q old (moved w r)
  moved-LeavesIn w (a, s) p = p

  pub after_draw-LeavesIn :
      (w : World) (r : Schedule × Result (Unit {0}))
      → w.machine.files q ≡ old q
      → LeavesIn q old (after_draw w r)
  after_draw-LeavesIn w (s, r) p = p

skriv_atomisk-Leaves :
    (works : ℕ → Bool) (p q : FilePath) (bytes : Bytes) (s : Machine)
    → is_at p q ≡ false
    → is_at (tmp_of p) q ≡ false
    → Leaves q s.files (skriv_atomisk works p bytes s)
skriv_atomisk-Leaves works p q bytes s n t =
    skriv_atomisk-after_write works p bytes s q t ∙ split (skriv_atomisk works p bytes s).0
  where
    split : (r : Result (Unit {0})) → after_write r p bytes s.files q ≡ s.files q
    split (ok u) = rw n refl
    split (err e) = refl

previous_path-apart :
    (password : Option Bytes)
    → (is_at (previous_path password) (locked_path main) ≡ false)
      × (is_at (tmp_of (previous_path password)) (locked_path main) ≡ false)
previous_path-apart none = (refl, refl)
previous_path-apart (some pw) = (refl, refl)

module _ (h : Host) (works : ℕ → Bool) where
  locked_if-Leaves :
      (password : Option Bytes) (b : Bytes) (q : FilePath) (old : Files) (s : Machine)
      → s.files q ≡ old q
      → Leaves q old (locked_if h password b s)
  unfolding lock_now
  locked_if-Leaves none b q old s e = e
  locked_if-Leaves (some pw) b q old s e = e

  pub save_previous-Leaves :
      (password : Option Bytes) (previous : Option (Str × Bytes)) (old : Files) (s : Machine)
      → s.files (locked_path main) ≡ old (locked_path main)
      → Leaves (locked_path main) old (save_previous h works password previous s)
  unfolding save_previous
  save_previous-Leaves password none old s e =
      call-Leaves works (locked_path main) old "remove_file" _ s
        (rw ((previous_path-apart password).0) refl) e
  save_previous-Leaves password (some (fp, pkcs8)) old s e =
      carry_on-Leaves (locked_path main) old _ (lift (ok_or (h.previous_to_json _) _) s) e
        λ json s₁ e₁.
          carry_on-Leaves (locked_path main) old _ (lift (refuse (not (h.lockable json)) _) s₁) e₁
            λ _ s₂ e₂.
              carry_on-Leaves (locked_path main) old _ (locked_if h password json s₂)
                (locked_if-Leaves password json (locked_path main) old s₂ e₂)
                λ out s₃ e₃.
                  skriv_atomisk-Leaves works (previous_path password) (locked_path main) out s₃
                    ((previous_path-apart password).0) ((previous_path-apart password).1)
                  ∙ e₃

  -- The part of a switch behind the writing of the material: it leaves that material alone.
  module _ (c : Config) where
    pub swap-LeavesIn :
        (m : TlsMaterial) (old : Files) (w : World)
        → w.machine.files (locked_path main) ≡ old (locked_path main)
        → LeavesIn (locked_path main) old (swap h m w)
    unfolding swap
    swap-LeavesIn m old w e =
        carry_on-LeavesIn (locked_path main) old _
          (lift (refuse (not (h.certified m.chain m.key)) _) w) e λ _ u e₁. e₁
