-- ===== src/Disk/Effects.antt =====
-- What the calls of the file system change, and what they leave as it was.
use net_tls.Prelude.{
  subst, String, ℕ, ◌≡◌, refl, sym, ap, ◌∙◌, Bool, true, false, inl, inr, none, some, [], arith,
  Bool-cases,
}
use net_tls.Prelude.Text.{Bytes, same_refl}
use net_tls.Error.{Result, ok, err}
use net_tls.Disk.{
  lift, Dir, main, new_dir, staging, FilePath, same_dir, is_at, tmp_of, Files, put, renamed,
  Machine, Action, carry_on, call, skriv_atomisk, write_atomic,
}

-- The steps of a chain that ended well.
pub steps {ℓ κ μ} :
    {S : Type ℓ} {A : Type κ} {B : Type μ} {b : B} {t : S} (r : Result A × S)
    (rest : A → Action S B)
    → carry_on rest r ≡ (ok b, t)
    → (a : A) × (u : S) × (r ≡ (ok a, u)) × (rest a u ≡ (ok b, t))
steps (ok a, u) rest h = (a, u, refl, h)
steps (err e, u) rest h = cc

pub same_dir_refl : (d : Dir) → same_dir d d ≡ true
same_dir_refl main = refl
same_dir_refl new_dir = refl
same_dir_refl (staging d) = same_dir_refl d

pub is_at_refl : (p : FilePath) → is_at p p ≡ true
is_at_refl p = ground (arith, same_refl p.stem, same_refl p.extension, same_dir_refl p.dir)

-- A write that went well: the file holds the bytes, and all but it and its temporary file is as before.
pub record Written (p : FilePath) (bytes : Bytes) (s t : Files) : Type 0 where
  pub there : t p ≡ some bytes
  pub elsewhere : (q : FilePath) → is_at p q ≡ false → is_at (tmp_of p) q ≡ false → t q ≡ s q

-- What an atomic write is to do: all of it when it goes well, and nothing when it fails.
abbrev pub after_write : Result (Unit {0}) → FilePath → Bytes → Files → Files
after_write (ok u) p bytes old = put p (some bytes) old
after_write (err e) p bytes old = old

abbrev Outcome : FilePath → Bytes → Files → Result (Unit {0}) × Machine → Type 0
Outcome p bytes old r =
    (q : FilePath) → is_at (tmp_of p) q ≡ false → r.1.files q ≡ after_write r.0 p bytes old q

module _ (works : ℕ → Bool) where
  pub call-files :
      (what : String) (f : Files → Files) (s t : Machine) (u : Unit {0})
      → call works what f s ≡ (ok u, t)
      → t.files ≡ f s.files
  unfolding call
  call-files what f s t u h = ground (arith, h)

  abbrev final : FilePath → Bytes → Files → Files
  final p bytes f = renamed (tmp_of p) p (put (tmp_of p) (some bytes) (put (tmp_of p) (some []) f))

  final-Written :
      (p : FilePath) (bytes : Bytes) (f : Files)
      → is_at (tmp_of p) p ≡ false
      → Written p bytes f (final p bytes f)
  final-Written p bytes f h = record {
    there = rw (h, is_at_refl p, is_at_refl (tmp_of p)) refl;
    elsewhere = λ q e e'. rw (e, e') refl;
  }

  pub skriv_atomisk-Written :
      (p : FilePath) (bytes : Bytes) (s t : Machine)
      → is_at (tmp_of p) p ≡ false
      → skriv_atomisk works p bytes s ≡ (ok tt, t)
      → Written p bytes s.files t.files
  unfolding skriv_atomisk
  skriv_atomisk-Written p bytes s t apart h =
      let (x₁, s₁, h₁, k₁) = steps (call works "create" _ s) _ h in
      let (x₂, s₂, h₂, k₂) = steps (call works "set_permissions" _ s₁) _ k₁ in
      let (x₃, s₃, h₃, k₃) = steps (call works "write_all" _ s₂) _ k₂ in
      let (x₄, s₄, h₄, k₄) = steps (call works "sync_all" _ s₃) _ k₃ in
      let e : final p bytes s.files ≡ t.files =
        rw
          (
            call-files "rename" _ s₄ t tt k₄,
            call-files "sync_all" _ s₃ s₄ x₄ h₄,
            call-files "write_all" _ s₂ s₃ x₃ h₃,
            call-files "set_permissions" _ s₁ s₂ x₂ h₂,
            call-files "create" _ s s₁ x₁ h₁,
          )
          refl in
      subst (Written p bytes s.files) e (final-Written p bytes s.files apart)

  removed-files :
      (p q : FilePath) (s : Machine)
      → is_at p q ≡ false
      → (call works "remove" (put p none) s).1.files q ≡ s.files q
  unfolding call
  removed-files p q s h = ground (arith, h)

  pub write_atomic-Written :
      (p : FilePath) (bytes : Bytes) (s t : Machine)
      → is_at (tmp_of p) p ≡ false
      → write_atomic works p bytes s ≡ (ok tt, t)
      → Written p bytes s.files t.files
  unfolding write_atomic skriv_atomisk
  write_atomic-Written p bytes s t apart h =
      let u : Machine = (call works "remove" (put (tmp_of p) none) s).1 in
      let w : Written p bytes u.files t.files = skriv_atomisk-Written p bytes u t apart h in
      record {
        there = w.there;
        elsewhere = λ q e e'. w.elsewhere q e e' ∙ removed-files (tmp_of p) q s e';
      }

  -- A step that touches the temporary file at most, and the rest of the write.
  Outcome-step :
      (p : FilePath) (bytes : Bytes) (old : Files) (what : String) (f : Files → Files) (s : Machine)
      (rest : Unit {0} → Action Machine (Unit {0}))
      → ((fs : Files) (q : FilePath) → is_at (tmp_of p) q ≡ false → f fs q ≡ fs q)
      → ((q : FilePath) → is_at (tmp_of p) q ≡ false → s.files q ≡ old q)
      → ((u : Machine)
          → ((q : FilePath) → is_at (tmp_of p) q ≡ false → u.files q ≡ old q)
          → u.files ≡ f s.files
          → Outcome p bytes old (rest tt u))
      → Outcome p bytes old (carry_on rest (call works what f s))
  unfolding call
  Outcome-step p bytes old what f s rest small h k = elim (Bool-cases (works s.calls)) [
    | inl e ↦ rw e (k _ (λ q n. small s.files q n ∙ h q n) refl)
    | inr e ↦ rw e h
  ]

  renamed-Outcome :
      (p : FilePath) (bytes : Bytes) (old : Files) (s : Machine)
      → ((q : FilePath) → is_at (tmp_of p) q ≡ false → s.files q ≡ old q)
      → s.files (tmp_of p) ≡ some bytes
      → Outcome p bytes old (call works "rename" (renamed (tmp_of p) p) s)
  unfolding call
  renamed-Outcome p bytes old s h content = elim (Bool-cases (works s.calls)) [
    | inl e ↦ rw e (λ q n. rw (n, content, h q n) refl)
    | inr e ↦ rw e h
  ]

  -- Whatever call fails: but for its temporary file, an atomic write that fails leaves every file as it
  -- was, and one that goes well changes the one file to all the bytes, and no other.
  pub skriv_atomisk-after_write :
      (p : FilePath) (bytes : Bytes) (s : Machine) (q : FilePath)
      → is_at (tmp_of p) q ≡ false
      → (skriv_atomisk works p bytes s).1.files q
        ≡ after_write (skriv_atomisk works p bytes s).0 p bytes s.files q
  unfolding skriv_atomisk
  skriv_atomisk-after_write p bytes s =
      Outcome-step p bytes s.files "create" _ s _ (λ fs q n. rw n refl) (λ q n. refl)
        λ s₁ h₁ e₁.
          Outcome-step p bytes s.files "set_permissions" _ s₁ _ (λ fs q n. refl) h₁
            λ s₂ h₂ e₂.
              Outcome-step p bytes s.files "write_all" _ s₂ _ (λ fs q n. rw n refl) h₂
                λ s₃ h₃ e₃.
                  Outcome-step p bytes s.files "sync_all" _ s₃ _ (λ fs q n. refl) h₃
                    λ s₄ h₄ e₄.
                      renamed-Outcome p bytes s.files s₄ h₄
                        (rw (e₄, e₃, is_at_refl (tmp_of p)) refl)

pub lift-steps {ℓ κ} :
    {S : Type ℓ} {A : Type κ} {a : A} {s u : S} (r : Result A)
    → lift r s ≡ (ok a, u)
    → (r ≡ ok a) × (u ≡ s)
lift-steps r h = (ap (λ p. p.0) h, sym (ap (λ p. p.1) h))

pub lift-then {ℓ κ μ} :
    {S : Type ℓ} {A : Type κ} {B : Type μ} {b : B} {t : S} (r : Result A) (rest : A → Action S B)
    (s : S)
    → carry_on rest (r, s) ≡ (ok b, t)
    → (a : A) × (r ≡ ok a) × (rest a s ≡ (ok b, t))
lift-then (ok a) rest s e = (a, refl, e)
lift-then (err x) rest s e = cc
