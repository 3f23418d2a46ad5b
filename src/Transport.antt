-- ===== src/Transport.antt =====
-- transport.rs: which ciphers a connection offers, and in which order.
pub mod Policy
use Prim.Native.String.{String}
use net_tls.Prelude.{
  ℕ, ◌≡◌, refl, Bool, true, false, not, ◌||◌, List, [], ◌∷◌, ◌++◌, is_empty, any, if◌then◌else◌,
}
use net_tls.Error.{TlsError, Result, ok, err, params, ◌>>=◌, ◌>>◌, refuse}

pub data TransportCipher : Type 0 where
  aes256_gcm chacha20_poly1305 aegis256 : TransportCipher

abbrev pub same_cipher : TransportCipher → TransportCipher → Bool
same_cipher aes256_gcm aes256_gcm = true
same_cipher chacha20_poly1305 chacha20_poly1305 = true
same_cipher aegis256 aegis256 = true
same_cipher _ _ = false

-- The suites of rustls, and the one of aegis.rs.
pub data Suite : Type 0 where
  tls13_aes_256_gcm_sha384 tls_ecdhe_ecdsa_with_aes_256_gcm_sha384
        tls_ecdhe_rsa_with_aes_256_gcm_sha384 :
      Suite
  tls13_chacha20_poly1305_sha256 tls_ecdhe_ecdsa_with_chacha20_poly1305_sha256 : Suite
  tls_ecdhe_rsa_with_chacha20_poly1305_sha256 aegis_suite : Suite

abbrev pub suites : TransportCipher → List Suite
suites aes256_gcm =
    tls13_aes_256_gcm_sha384 ∷ tls_ecdhe_ecdsa_with_aes_256_gcm_sha384
    ∷ tls_ecdhe_rsa_with_aes_256_gcm_sha384 ∷ []
suites chacha20_poly1305 =
    tls13_chacha20_poly1305_sha256 ∷ tls_ecdhe_ecdsa_with_chacha20_poly1305_sha256
    ∷ tls_ecdhe_rsa_with_chacha20_poly1305_sha256 ∷ []
suites aegis256 = aegis_suite ∷ []

pub record TransportPolicy : Type 0 where
  pub ciphers : List TransportCipher

unfoldable pub only : TransportCipher → TransportPolicy
only cipher = record { ciphers = cipher ∷ [] }

unfoldable pub default : TransportPolicy
unfolding only
default = only aes256_gcm

-- The loop of `new`, with the ciphers before the rest.
unfoldable pub no_repeats : List TransportCipher → List TransportCipher → Result (Unit {0})
no_repeats before [] = ok tt
no_repeats before (c ∷ rest) = do
  refuse (any (same_cipher c) before) (params "a transport policy names each cipher once")
  no_repeats (before ++ c ∷ []) rest

unfoldable pub new : List TransportCipher → Result TransportPolicy
unfolding no_repeats
new ciphers = do
  refuse (is_empty ciphers) (params "a transport policy must name at least one cipher")
  no_repeats [] ciphers
  ok (record { ciphers = ciphers })

abbrev pub flat_map : List TransportCipher → List Suite
flat_map [] = []
flat_map (c ∷ cs) = suites c ++ flat_map cs

-- The suites of `provider`; the rest of it is ring's.
unfoldable pub provider_suites : TransportPolicy → List Suite
provider_suites p = flat_map p.ciphers
