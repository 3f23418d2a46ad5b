-- ===== src/Transport/Policy.antt =====
-- Which policies there are, and that a connection offers nothing outside its policy.
use net_tls.Prelude.{
  ◌≡◌, ◌↔◌, refl, sym, Bool, false, ◌||◌, List, [], ◌∷◌, ◌++◌, is_empty, any, arith,
}
use net_tls.Error.{ok, ok-inj, refuse, >>-eq-ok, refuse-eq-ok}
use net_tls.Transport.{
  TransportCipher, aes256_gcm, chacha20_poly1305, aegis256, same_cipher, TransportPolicy,
  no_repeats, new,
}

-- `cs.contains(c)`
abbrev pub names : List TransportCipher → TransportCipher → Bool
names cs c = any (same_cipher c) cs

-- No cipher stands in the list twice.
abbrev pub IsDistinct : List TransportCipher → Type 0
IsDistinct [] = Unit
IsDistinct (c ∷ cs) = (names cs c ≡ false) × IsDistinct cs

any-append :
    (p : TransportCipher → Bool) (xs ys : List TransportCipher)
    → any p (xs ++ ys) ≡ (any p xs || any p ys)
any-append p [] ys = refl
any-append p (x ∷ xs) ys = ground (arith, any-append p xs ys)

-- The two ways to say that a list has no repeats: no cipher before it, and none after it.
abbrev Apart : List TransportCipher → List TransportCipher → Type 0
Apart before [] = Unit
Apart before (c ∷ rest) = (names before c ≡ false) × Apart (before ++ c ∷ []) rest

no_repeats_iff :
    (before rest : List TransportCipher) → (no_repeats before rest ≡ ok tt) ↔ Apart before rest
unfolding no_repeats
no_repeats_iff before [] = (λ h. tt, λ h. refl)
no_repeats_iff before (c ∷ rest) = (
  λ h.
      let (h₁, k₁) = >>-eq-ok (refuse (names before c) _) _ h in
      (refuse-eq-ok _ _ h₁, (no_repeats_iff (before ++ c ∷ []) rest).0 k₁),
  λ h. rw h.0 ((no_repeats_iff (before ++ c ∷ []) rest).1 h.1),
)

same_cipher_comm : (c d : TransportCipher) → same_cipher c d ≡ same_cipher d c
same_cipher_comm aes256_gcm aes256_gcm = refl
same_cipher_comm aes256_gcm chacha20_poly1305 = refl
same_cipher_comm aes256_gcm aegis256 = refl
same_cipher_comm chacha20_poly1305 aes256_gcm = refl
same_cipher_comm chacha20_poly1305 chacha20_poly1305 = refl
same_cipher_comm chacha20_poly1305 aegis256 = refl
same_cipher_comm aegis256 aes256_gcm = refl
same_cipher_comm aegis256 chacha20_poly1305 = refl
same_cipher_comm aegis256 aegis256 = refl

-- No cipher of the first list stands in the second.
abbrev Disjoint : List TransportCipher → List TransportCipher → Type 0
Disjoint before [] = Unit
Disjoint before (c ∷ rest) = (names before c ≡ false) × Disjoint before rest

Disjoint-snoc :
    (before : List TransportCipher) (c : TransportCipher) (rest : List TransportCipher)
    → Disjoint (before ++ c ∷ []) rest ↔ (Disjoint before rest × (names rest c ≡ false))
Disjoint-snoc before c [] = (λ h. (tt, refl), λ h. tt)
Disjoint-snoc before c (d ∷ rest) = (
  λ h.
      let (p, q) = (Disjoint-snoc before c rest).0 h.1 in
      (
        (ground (arith, h.0, any-append (same_cipher d) before (c ∷ [])), p),
        ground (arith, h.0, q, same_cipher_comm c d, any-append (same_cipher d) before (c ∷ [])),
      ),
  λ h. (
    ground (arith, h.0.0, h.1, same_cipher_comm c d, any-append (same_cipher d) before (c ∷ [])),
    (Disjoint-snoc before c rest).1 (h.0.1, ground (arith, h.1)),
  ),
)

Apart-iff :
    (before rest : List TransportCipher)
    → Apart before rest ↔ (Disjoint before rest × IsDistinct rest)
Apart-iff before [] = (λ h. (tt, tt), λ h. tt)
Apart-iff before (c ∷ rest) = (
  λ h.
      let (p, q) = (Apart-iff (before ++ c ∷ []) rest).0 h.1 in
      let (r, s) = (Disjoint-snoc before c rest).0 p in ((h.0, r), (s, q)),
  λ h. (
    h.0.0,
    (Apart-iff (before ++ c ∷ []) rest).1 ((Disjoint-snoc before c rest).1 (h.0.1, h.1.0), h.1.1),
  ),
)

Disjoint-nil : (cs : List TransportCipher) → Disjoint [] cs
Disjoint-nil [] = tt
Disjoint-nil (c ∷ cs) = (refl, Disjoint-nil cs)

-- A policy is made of exactly the lists with at least one cipher and none twice, in their order.
pub policy-new_iff :
    (ciphers : List TransportCipher) (p : TransportPolicy)
    → (new ciphers ≡ ok p)
      ↔ ((is_empty ciphers ≡ false) × IsDistinct ciphers × (p ≡ record { ciphers = ciphers }))
unfolding new
policy-new_iff ciphers p = (to, from)
  where
    to :
        new ciphers ≡ ok p
        → (is_empty ciphers ≡ false) × IsDistinct ciphers × (p ≡ record { ciphers = ciphers })
    to h =
        let (h₁, k₁) = >>-eq-ok (refuse (is_empty ciphers) _) _ h in
        let (h₂, k₂) = >>-eq-ok (no_repeats [] ciphers) _ k₁ in
        (
          refuse-eq-ok _ _ h₁,
          ((Apart-iff [] ciphers).0 ((no_repeats_iff [] ciphers).0 h₂)).1,
          sym (ok-inj k₂),
        )

    from :
        (is_empty ciphers ≡ false) × IsDistinct ciphers × (p ≡ record { ciphers = ciphers })
        → new ciphers ≡ ok p
    from (ne, d, e) =
        rw
          (
            ne,
            (no_repeats_iff [] ciphers).1 ((Apart-iff [] ciphers).1 (Disjoint-nil ciphers, d)),
            e,
          )
          refl
