-- ===== src/Lockbox/RoundTrip.antt =====
-- What is locked can be unlocked, and what is refused as another format.
use net_tls.Prelude.{
  ℕ, ◌+◌, ◌<◌, ◌≡◌, ◌≢◌, ◌⊎◌, inl, inr, refl, sym, ap, ◌∙◌, Bool, true, false, not, some, ◌++◌,
  arith, ltb, length, take, drop, length-append, take-length_append, drop-length_append, Bool-cases,
}
use net_tls.Prelude.Text.{Bytes, same, same→eq}
use net_tls.Error.{TlsError, ok, err, pem, refuse, >>=-eq-ok, >>-eq-ok, ok-inj}
use net_tls.Signature.{ok_or}
use net_tls.Host.{Host}
use net_tls.Lockbox.{magic, salt_len, derive, seal, lock, unlock}

-- The random source gives the 32 bytes of a salt when it is asked for them, and what was sealed under a key is opened with it.
pub record SealLaws (h : Host) : Type 0 where
  pub salt_size :
      (call i : ℕ) (salt : Bytes) → h.random salt_len call i ≡ some salt → length salt ≡ 32
  pub opens :
      (dk plain blob : Bytes) → h.seal dk plain ≡ some blob → h.open_sealed dk blob ≡ some plain

module _ (h : Host) (laws : SealLaws h) where
  -- The file, taken apart again.
  parts :
      (salt blob : Bytes)
      → length salt ≡ 32
      → (ltb (length (magic ++ (salt ++ blob))) (length magic + salt_len) ≡ false)
        × (take salt_len (salt ++ blob) ≡ salt)
        × (drop salt_len (salt ++ blob) ≡ blob)
  parts salt blob e = (
    ground (arith, e, length-append salt blob),
    ap (λ n. take n (salt ++ blob)) (sym e) ∙ take-length_append salt blob,
    ap (λ n. drop n (salt ++ blob)) (sym e) ∙ drop-length_append salt blob,
  )

  -- What was locked with a password is unlocked with it.
  pub unlock-lock :
      (call : ℕ) (password plaintext file : Bytes)
      → lock h call password plaintext ≡ ok file
      → unlock h password file ≡ ok plaintext
  unfolding lock unlock seal
  unlock-lock call password plaintext file e =
      let (salt, h₁, k₁) = >>=-eq-ok (ok_or (h.random salt_len call 0) _) _ e in
      let (blob, h₂, k₂) = >>=-eq-ok (seal h password salt plaintext) _ k₁ in
      let (key, h₃, k₃) = >>=-eq-ok (derive h password salt) _ h₂ in
      let (dk, h₄, k₄) = >>=-eq-ok (ok_or (h.master_derive key salt) _) _ k₃ in
      let (h₅, k₅) = >>-eq-ok (refuse (not (h.lockable plaintext)) _) _ k₄ in
      let size : length salt ≡ 32 = laws.salt_size call 0 salt (ground arith) in
      let opened : h.open_sealed dk blob ≡ some plaintext =
        laws.opens dk plaintext blob (ground arith) in
      let (p, q, r) = parts salt blob size in rw (← ok-inj k₂, p, q, r, h₃, h₄, opened) refl

-- A file that is no locked file is refused as another format, before the password is used for anything.
pub unlock-format :
    (h : Host) (password file : Bytes)
    → (length file < 40) ⊎ (take 8 file ≢ magic)
    → (m : TlsError) × (unlock h password file ≡ err m)
      × ((other : Bytes) → unlock h other file ≡ err m)
unfolding unlock
unlock-format h password file c = elim (Bool-cases (ltb (length file) 40)) [
  | inl e ↦
      (pem "the locked file is too short to contain header and salt", rw e refl, λ other. rw e refl)
  | inr e ↦
      let bad : same (take 8 file) magic ≡ false = other_format (same (take 8 file) magic) refl e in
      (pem "unknown file format", rw (e, bad) refl, λ other. rw (e, bad) refl)
]
  where
    other_format :
        (b : Bool) → same (take 8 file) magic ≡ b → ltb (length file) 40 ≡ false → b ≡ false
    other_format true p q = elim c [
      | inl short ↦ absurd (ground arith)
      | inr ne ↦ absurd (ne (same→eq _ _ p))
    ]
    other_format false p q = refl
