-- ===== src/Capability/Choose.antt =====
-- The fallback rule of `choose`.
use net_tls.Prelude.{
  ℕ, ◌<◌, ◌≤◌, ◌≡◌, ◌⊎◌, inl, inr, refl, true, false, none, some, List, arith, Bool-cases,
}
use net_tls.Error.{TlsError, ok, err, negotiation}
use net_tls.Capability.{
  Alg, aegis256, xchacha20_poly1305, aes256_gcm, other, contains, first_supported, choose,
}

-- The place in the fixed preference order, the best one first.
abbrev pub rank : Alg → ℕ
rank aegis256 = 0
rank xchacha20_poly1305 = 1
rank aes256_gcm = 2
rank (other n) = 3

-- An algorithm that was declared, and that no declared one of the preference order comes before.
abbrev pub IsBest : List Alg → Alg → Type 0
IsBest supported a =
    (contains supported a ≡ true)
    × (rank a < 3)
    × ((b : Alg) → contains supported b ≡ true → rank a ≤ rank b)

-- `choose` answers with the requested algorithm if there is no statement or if the statement declares
-- it; with the best declared one if it declares a known one and not the requested; and it fails exactly
-- if the statement declares neither the requested one nor a known one.
pub choose_cases :
    (requested : Alg) (supported : List Alg)
    → (choose requested none ≡ ok requested)
      × (((contains supported requested ≡ true)
            × (choose requested (some supported) ≡ ok requested))
          ⊎ ((contains supported requested ≡ false)
              × ((a : Alg) × IsBest supported a × (choose requested (some supported) ≡ ok a)))
          ⊎ ((contains supported requested ≡ false)
              × ((b : Alg) → contains supported b ≡ true → rank b ≡ 3)
              × ((e : TlsError) × (choose requested (some supported) ≡ err e))))
unfolding choose first_supported
choose_cases requested supported = (
  refl,
  elim (Bool-cases (contains supported requested)) [
    | inl r ↦ inl (r, rw r refl)
    | inr r ↦ elim (Bool-cases (contains supported aegis256)) [
      | inl a ↦
          inr (inl (r, (aegis256, (a, omega arith, λ b h. omega arith), ground (arith, r, a))))
      | inr a ↦ elim (Bool-cases (contains supported xchacha20_poly1305)) [
        | inl x ↦ inr (
            inl (r, (xchacha20_poly1305, (x, omega arith, after_first a), ground (arith, r, a, x))))
        | inr x ↦ elim (Bool-cases (contains supported aes256_gcm)) [
          | inl g ↦ inr (
              inl (r, (aes256_gcm, (g, omega arith, after_second a x), ground (arith, r, a, x, g))))
          | inr g ↦ inr (
              inr (
                r,
                after_third a x g,
                (
                  negotiation "the peer's signed statement declares no acceptable algorithm",
                  ground (arith, r, a, x, g),
                ),
              ))
        ]
      ]
    ]
  ],
)
  where
    after_first :
        contains supported aegis256 ≡ false → (b : Alg) → contains supported b ≡ true → 1 ≤ rank b
    after_first a aegis256 h = cc
    after_first a xchacha20_poly1305 h = omega arith
    after_first a aes256_gcm h = omega arith
    after_first a (other n) h = omega arith

    after_second :
        contains supported aegis256 ≡ false
        → contains supported xchacha20_poly1305 ≡ false
        → (b : Alg) → contains supported b ≡ true
        → 2 ≤ rank b
    after_second a x aegis256 h = cc
    after_second a x xchacha20_poly1305 h = cc
    after_second a x aes256_gcm h = omega arith
    after_second a x (other n) h = omega arith

    after_third :
        contains supported aegis256 ≡ false
        → contains supported xchacha20_poly1305 ≡ false
        → contains supported aes256_gcm ≡ false
        → (b : Alg) → contains supported b ≡ true
        → rank b ≡ 3
    after_third a x g aegis256 h = cc
    after_third a x g xchacha20_poly1305 h = cc
    after_third a x g aes256_gcm h = cc
    after_third a x g (other n) h = refl
