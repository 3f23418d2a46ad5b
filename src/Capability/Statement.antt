-- ===== src/Capability/Statement.antt =====
-- A support statement that `signed` makes is verified, and says what was declared.
use net_tls.Prelude.{
  subst, ◌≡◌, refl, Bool, true, false, not, some, List, [], ◌∷◌, map, arith, ◌==◌, if◌then◌else◌,
  length, is_empty,
}
use net_tls.Prelude.Int.{ℤ}
use net_tls.Prelude.Text.{Str, Bytes, join}
use net_tls.Error.{ok, ok-inj, refuse, >>=-eq-ok, >>-eq-ok}
use net_tls.External.{Libs, HexLaws}
use net_tls.Signature.{sign_p256}
use net_tls.Canonical.{algsupport_v1}
use net_tls.Announcement.Verify.{verify_p256_iff}
use net_tls.Announcement.Honest.{IsKeyOf, sign-SignedBy}
use net_tls.Announcement.Wire.{IsSig, from_hex-encode}
use net_tls.Capability.{
  Alg, aegis256, xchacha20_poly1305, aes256_gcm, contains, preference, alg_token, alg_from_token,
  algs_from_tokens, filter_by, comma, SupportStatement, signed, verify,
}

-- The algorithms of a set that have a token, in the fixed order.
abbrev pub declared : List Alg → List Alg
declared supported = filter_by supported preference

tokens_back :
    (supported : List Alg)
    → algs_from_tokens (map alg_token (declared supported)) ≡ ok (declared supported)
unfolding algs_from_tokens alg_from_token
tokens_back supported =
    by_cases (contains supported aegis256) (contains supported xchacha20_poly1305)
      (contains supported aes256_gcm)
  where
    by_cases :
        (a x g : Bool)
        → algs_from_tokens (
            map alg_token (
              if a
              then aegis256
                ∷ (if x
                    then xchacha20_poly1305 ∷ (if g then aes256_gcm ∷ [] else [])
                    else if g
                    then aes256_gcm ∷ []
                    else [])
              else if x
              then xchacha20_poly1305 ∷ (if g then aes256_gcm ∷ [] else [])
              else if g
              then aes256_gcm ∷ []
              else []))
          ≡ ok (
              if a
              then aegis256
                ∷ (if x
                    then xchacha20_poly1305 ∷ (if g then aes256_gcm ∷ [] else [])
                    else if g
                    then aes256_gcm ∷ []
                    else [])
              else if x
              then xchacha20_poly1305 ∷ (if g then aes256_gcm ∷ [] else [])
              else if g
              then aes256_gcm ∷ []
              else [])
    by_cases true true true = refl
    by_cases true true false = refl
    by_cases true false true = refl
    by_cases true false false = refl
    by_cases false true true = refl
    by_cases false true false = refl
    by_cases false false true = refl
    by_cases false false false = refl

module _ (l : Libs) where
  -- A statement that `signed` makes with the key of a certificate is verified against that certificate
  -- and gives the known algorithms of the declared ones back, in the order of preference. (A signature
  -- is a string of bytes that is never empty.)
  pub verify-signed :
      (component : Str) (supported : List Alg) (timestamp : ℤ) (pkcs8 cert : Bytes) (fp : Str)
      (s : SupportStatement)
      → HexLaws l
      → ((m sig : Bytes) → l.ecdsa_p256_sign pkcs8 m ≡ some sig → IsSig sig)
      → IsKeyOf l fp pkcs8 cert
      → signed l component supported timestamp pkcs8 ≡ ok s
      → verify l s cert ≡ ok (declared supported)
  unfolding signed verify sign_p256
  verify-signed component supported timestamp pkcs8 cert fp s hex full key h =
      let (h₁, k₁) = >>-eq-ok (refuse (is_empty supported) _) _ h in
      let (h₂, k₂) = >>-eq-ok (refuse (not (length tokens == length supported)) _) _ k₁ in
      let (b, h₃, k₃) = >>=-eq-ok (algsupport_v1 component (join comma tokens) timestamp) _ k₂ in
      let (sig, h₄, k₄) = >>=-eq-ok (sign_p256 l pkcs8 b) _ k₃ in
      let ne : IsSig sig = full b sig (sign-some b sig h₄) in
      let passes = (verify_p256_iff l cert b sig).1 (sign-SignedBy l b sig key h₄) in
      subst (λ x. verify l x cert ≡ ok (declared supported)) (ok-inj k₄)
        (rw (h₃, from_hex-encode l hex sig ne, passes) (tokens_back supported))
    where
      tokens : List Str
      tokens = map alg_token (declared supported)

      sign-some :
          (m sig : Bytes) → sign_p256 l pkcs8 m ≡ ok sig → l.ecdsa_p256_sign pkcs8 m ≡ some sig
      sign-some m sig e = ground arith
