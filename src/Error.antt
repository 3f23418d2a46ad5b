-- ===== src/Error.antt =====
-- error.rs: the error type of the crate, and the `Result` that every fallible function returns.
-- The text of a message is cut to the phrase that tells it from the others of its variant; the
-- values that `format!` puts into it are left out, except the bounds of `NotValidNow`.
use net_tls.Prelude.{String, ◌≡◌, refl, Bool, true, false}
use net_tls.Prelude.Int.{ℤ}

pub data TlsError : Type 0 where
  io pem key_mismatch : String → TlsError
  not_valid_now : ℤ → ℤ → ℤ → TlsError
  certificate generate rustls params fingerprint : String → TlsError
  proof proof_invalid chain sign negotiation : String → TlsError

pub data Result {ℓ} (A : Type ℓ) : Type ℓ where
  ok : A → Result A
  err : TlsError → Result A

-- `?`: the rest of the function, unless the first part failed.
abbrev pub ◌>>=◌ {ℓ κ} : {S : Type ℓ} {T : Type κ} → Result S → (S → Result T) → Result T
err problem >>= rest = err problem
ok value >>= rest = rest value

abbrev pub ◌>>◌ {κ} : {T : Type κ} → Result (Unit {0}) → Result T → Result T
check >> rest = check >>= λ _. rest

infixl 5 ◌>>=◌ ◌>>◌
-- `if b { return Err(e); }`
abbrev pub refuse : Bool → TlsError → Result (Unit {0})
refuse true e = err e
refuse false e = ok tt

-- `r.map_err(|_| e)`
abbrev pub map_err {ℓ} : {A : Type ℓ} → Result A → TlsError → Result A
map_err (ok a) e = ok a
map_err (err _) e = err e

-- `r.is_ok()`
abbrev pub is_ok {ℓ} : {A : Type ℓ} → Result A → Bool
is_ok (ok a) = true
is_ok (err e) = false

-- The steps of a chain that ended well.
module _ {κ} {T : Type κ} {t : T} where
  pub >>=-eq-ok {ℓ} :
      {S : Type ℓ} (first : Result S) (rest : S → Result T)
      → (first >>= rest) ≡ ok t
      → (value : S) × (first ≡ ok value) × (rest value ≡ ok t)
  >>=-eq-ok (err problem) rest h = cc
  >>=-eq-ok (ok value) rest h = (value, refl, h)

  pub >>-eq-ok :
      (check : Result (Unit {0})) (rest : Result T)
      → (check >> rest) ≡ ok t
      → (check ≡ ok tt) × (rest ≡ ok t)
  >>-eq-ok (err problem) rest h = cc
  >>-eq-ok (ok tt) rest h = (refl, h)

pub refuse-eq-ok : (b : Bool) (e : TlsError) → refuse b e ≡ ok tt → b ≡ false
refuse-eq-ok true e h = cc
refuse-eq-ok false e h = refl

pub ok-inj {ℓ} : {A : Type ℓ} {a b : A} → ok a ≡ ok b → a ≡ b
ok-inj h = cc
