-- ===== src/Store/Crash.antt =====
-- What is left of the material when a call fails, or the process ends, while it is written.
use net_tls.Prelude.{String, ℕ, ◌≡◌, refl, ◌∙◌, Bool, false, inl, inr, ◌⊎◌, some, arith, Bool-cases}
use net_tls.Prelude.Text.{Bytes}
use net_tls.Error.{Result, ok, err, is_ok}
use net_tls.Host.{Host}
use net_tls.Lockbox.{hold}
use net_tls.Lockbox.RoundTrip.{SealLaws}
use net_tls.Signature.{ok_or}
use net_tls.Material.{TlsMaterial, key_block, cert_file_of}
use net_tls.Material.Load.{IsMaterial}
use net_tls.Disk.{
  Dir, main, new_dir, staging, FilePath, same_dir, is_at, is_under, tmp_of, Files, Machine, Action,
  carry_on, call, lift, in_the_end, ignoring, skriv_atomisk, write_atomic, remove_dir_all,
}
use net_tls.Disk.Effects.{after_write, skriv_atomisk-after_write}
use net_tls.Store.{cert_path, key_path, locked_path, load, read}
use net_tls.Store.RoundTrip.{PemLaws}
use net_tls.Store.Save.{save, save_pem, locked_material, lock_now}
use net_tls.Store.Locked.{loaded_origin, load-save}

-- Whatever comes of an action, it has left a file as it was.
abbrev pub Leaves {ℓ} : {A : Type ℓ} → FilePath → Files → Result A × Machine → Type 0
Leaves q old r = r.1.files q ≡ old q

pub carry_on-Leaves {κ μ} :
    {A : Type κ} {B : Type μ} (q : FilePath) (old : Files) (rest : A → Action Machine B)
    (r : Result A × Machine)
    → Leaves q old r
    → ((a : A) (u : Machine) → u.files q ≡ old q → Leaves q old (rest a u))
    → Leaves q old (carry_on rest r)
carry_on-Leaves q old rest (ok a, u) p k = k a u p
carry_on-Leaves q old rest (err e, u) p k = p

module _ (works : ℕ → Bool) (q : FilePath) (old : Files) where
  pub call-Leaves :
      (what : String) (f : Files → Files) (s : Machine)
      → f s.files q ≡ s.files q
      → s.files q ≡ old q
      → Leaves q old (call works what f s)
  unfolding call
  call-Leaves what f s small h = elim (Bool-cases (works s.calls)) [
    | inl e ↦ rw e (small ∙ h)
    | inr e ↦ rw e h
  ]

  pub write_atomic-Leaves :
      (p : FilePath) (bytes : Bytes) (s : Machine)
      → is_at p q ≡ false
      → is_at (tmp_of p) q ≡ false
      → s.files q ≡ old q
      → Leaves q old (write_atomic works p bytes s)
  unfolding write_atomic
  write_atomic-Leaves p bytes s n t h =
      carry_on-Leaves q old _ (call works "create" _ _)
        (call-Leaves "create" _ _ (rw t refl) (call-Leaves "remove" _ s (rw t refl) h))
        λ _ s₁ h₁.
          carry_on-Leaves q old _ (call works "set_permissions" _ s₁)
            (call-Leaves "set_permissions" _ s₁ refl h₁)
            λ _ s₂ h₂.
              carry_on-Leaves q old _ (call works "write_all" _ s₂)
                (call-Leaves "write_all" _ s₂ (rw t refl) h₂)
                λ _ s₃ h₃.
                  carry_on-Leaves q old _ (call works "sync_all" _ s₃)
                    (call-Leaves "sync_all" _ s₃ refl h₃)
                    λ _ s₄ h₄. call-Leaves "rename" _ s₄ (rw (n, t) refl) h₄

  pub remove_dir_all-Leaves :
      (top : Dir) (s : Machine)
      → is_under top q.dir ≡ false
      → s.files q ≡ old q
      → Leaves q old (remove_dir_all works top s)
  unfolding remove_dir_all
  remove_dir_all-Leaves top s n h = call-Leaves "remove_dir_all" _ s (rw n refl) h

is_at-dir : (p q : FilePath) → same_dir p.dir q.dir ≡ false → is_at p q ≡ false
is_at-dir p q e = ground (arith, e)

module _ (h : Host) (works : ℕ → Bool) (q : FilePath) (old : Files) where
  save_pem-Leaves :
      (m : TlsMaterial) (dir : Dir) (s : Machine)
      → same_dir dir q.dir ≡ false
      → s.files q ≡ old q
      → Leaves q old (save_pem h works m dir s)
  unfolding save_pem
  save_pem-Leaves m dir s n e =
      carry_on-Leaves q old _ (call works "create_dir_all" (λ fs. fs) s)
        (call-Leaves works q old "create_dir_all" _ s refl e)
        λ _ s₁ e₁.
          carry_on-Leaves q old _ (write_atomic works (cert_path dir) (cert_file_of h m) s₁)
            (write_atomic-Leaves works q old (cert_path dir) _ s₁ (is_at-dir (cert_path dir) q n)
              (is_at-dir (tmp_of (cert_path dir)) q n) e₁)
            λ _ s₂ e₂.
              carry_on-Leaves q old _ (lift (ok_or (key_block h m.key) _) s₂) e₂ λ block s₃ e₃.
                carry_on-Leaves q old _ (lift (hold h block) s₃) e₃ λ key s₄ e₄.
                  write_atomic-Leaves works q old (key_path dir) key s₄
                    (is_at-dir (key_path dir) q n) (is_at-dir (tmp_of (key_path dir)) q n) e₄

  locked_material-Leaves :
      (pw : Bytes) (m : TlsMaterial) (tmp : Dir) (s : Machine)
      → same_dir tmp q.dir ≡ false
      → s.files q ≡ old q
      → Leaves q old (locked_material h works pw m tmp s)
  unfolding locked_material lock_now
  locked_material-Leaves pw m tmp s n e =
      carry_on-Leaves q old _ (save_pem h works m tmp s) (save_pem-Leaves m tmp s n e) λ _ s₁ e₁.
        carry_on-Leaves q old _ (lift (read (cert_path tmp) s₁.files) s₁) e₁ λ cert s₂ e₂.
          carry_on-Leaves q old _ (lift (read (key_path tmp) s₁.files) s₂) e₂ λ key_file s₃ e₃.
            carry_on-Leaves q old _ (lift (hold h key_file) s₃) e₃
              λ key s₄ e₄. carry_on-Leaves q old _ (lift (hold h _) s₄) e₄ λ samlet s₅ e₅. e₅

same_dir-staging : (d : Dir) → same_dir (staging d) d ≡ false
same_dir-staging main = refl
same_dir-staging new_dir = refl
same_dir-staging (staging d) = same_dir-staging d

same_dir-staging_twice : (d : Dir) → same_dir (staging (staging d)) d ≡ false
same_dir-staging_twice main = refl
same_dir-staging_twice new_dir = refl
same_dir-staging_twice (staging d) = same_dir-staging_twice d

-- An action that fails has left a file as it was.
abbrev Unless {ℓ} : {A : Type ℓ} → FilePath → Files → Result A × Machine → Type 0
Unless q old (ok a, u) = Unit
Unless q old (err e, u) = u.files q ≡ old q

carry_on-Unless {κ μ} :
    {A : Type κ} {B : Type μ} (q : FilePath) (old : Files) (rest : A → Action Machine B)
    (r : Result A × Machine)
    → Leaves q old r
    → ((a : A) (u : Machine) → u.files q ≡ old q → Unless q old (rest a u))
    → Unless q old (carry_on rest r)
carry_on-Unless q old rest (ok a, u) p k = k a u p
carry_on-Unless q old rest (err e, u) p k = p

after_write-Unless :
    (p q : FilePath) (bytes : Bytes) (fs old : Files) (r : Result (Unit {0}) × Machine)
    → r.1.files q ≡ after_write r.0 p bytes fs q
    → fs q ≡ old q
    → Unless q old r
after_write-Unless p q bytes fs old (ok a, u) e h = tt
after_write-Unless p q bytes fs old (err x, u) e h = e ∙ h

-- With a password the material is one file, and what is read is in it.
pub load-locked_same :
    (h : Host) (pw : Bytes) (dir : Dir) (fs gs : Files)
    → fs (locked_path dir) ≡ gs (locked_path dir)
    → load h (some pw) dir fs ≡ load h (some pw) dir gs
unfolding load
load-locked_same h pw dir fs gs e = rw e refl

module _ (h : Host) (works : ℕ → Bool) where
  save-Unless :
      (pw : Bytes) (m : TlsMaterial) (dir : Dir) (s : Machine)
      → Unless (locked_path dir) s.files (save h works (some pw) m dir s)
  unfolding save
  save-Unless pw m dir s =
      carry_on-Unless (locked_path dir) s.files _ (call works "create_dir_all" (λ fs. fs) s)
        (call-Leaves works (locked_path dir) s.files "create_dir_all" _ s refl refl)
        λ _ s₁ e₁.
          let inner : Result Bytes × Machine = locked_material h works pw m (staging dir) s₁ in
          let outside : is_under (staging dir) dir ≡ false =
            ground (arith, same_dir-staging dir, same_dir-staging_twice dir) in
          carry_on-Unless (locked_path dir) s.files _
            (in_the_end (locked_material h works pw m (staging dir))
              (ignoring (remove_dir_all works (staging dir))) s₁)
            (remove_dir_all-Leaves works (locked_path dir) s.files (staging dir) inner.1 outside (
              locked_material-Leaves h works (locked_path dir) s.files pw m (staging dir) s₁
                (same_dir-staging dir) e₁))
            λ locked s₂ e₂.
              after_write-Unless (locked_path dir) (locked_path dir) locked s₂.files s.files
                (skriv_atomisk works (locked_path dir) locked s₂)
                (skriv_atomisk-after_write works (locked_path dir) locked s₂ (locked_path dir) refl)
                e₂

  -- Whichever call fails or is not made any more while material is saved with a password: either the
  -- save went well and `load` gives the new material, or it failed and `load` gives what it gave before.
  pub save-crash :
      PemLaws h
      → SealLaws h
      → (pw : Bytes) (m : TlsMaterial) (k : Bytes) (dir : Dir) (s : Machine) → IsMaterial h m k
      → (((save h works (some pw) m dir s).0 ≡ ok tt)
          × (load h (some pw) dir (save h works (some pw) m dir s).1.files
              ≡ ok (record m { origin = loaded_origin (some pw) })))
        ⊎ ((is_ok (save h works (some pw) m dir s).0 ≡ false)
            × (load h (some pw) dir (save h works (some pw) m dir s).1.files
                ≡ load h (some pw) dir s.files))
  save-crash laws seals pw m k dir s good =
      split (save h works (some pw) m dir s) refl (save-Unless pw m dir s)
    where
      split :
          (r : Result (Unit {0}) × Machine)
          → save h works (some pw) m dir s ≡ r
          → Unless (locked_path dir) s.files r
          → ((r.0 ≡ ok tt)
              × (load h (some pw) dir r.1.files
                  ≡ ok (record m { origin = loaded_origin (some pw) })))
            ⊎ ((is_ok r.0 ≡ false)
                × (load h (some pw) dir r.1.files ≡ load h (some pw) dir s.files))
      split (ok tt, t) e u = inl (refl, load-save h works laws seals (some pw) m k dir s t good e)
      split (err x, t) e u = inr (refl, load-locked_same h pw dir t.files s.files u)
