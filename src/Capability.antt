-- ===== src/Capability.antt =====
-- capability.rs: the signed statement of the supported algorithms, and the choice that follows from it.
pub mod Choose
pub mod Statement
use net_tls.Prelude.{
  ℕ, ◌≡◌, refl, Bool, true, false, not, ◌||◌, Option, none, some, List, [], ◌∷◌, map, ◌==◌,
  if◌then◌else◌, length, is_empty, any,
}
use net_tls.Prelude.Int.{ℤ}
use net_tls.Prelude.Text.{Str, Bytes, codes, same, join}
use net_tls.Error.{
  Result, ok, err, params, proof_invalid, negotiation, ◌>>=◌, ◌>>◌, refuse, map_err,
}
use net_tls.External.{Libs}
use net_tls.Signature.{from_hex, verify_p256, sign_p256}
use net_tls.Canonical.{algsupport_v1}

-- `krypto::Alg`, which is `#[non_exhaustive]`: the algorithms named here, and others to come.
pub data Alg : Type 0 where
  aegis256 xchacha20_poly1305 aes256_gcm : Alg
  other : ℕ → Alg

abbrev pub preference : List Alg
preference = aegis256 ∷ xchacha20_poly1305 ∷ aes256_gcm ∷ []

abbrev pub same_alg : Alg → Alg → Bool
same_alg aegis256 aegis256 = true
same_alg xchacha20_poly1305 xchacha20_poly1305 = true
same_alg aes256_gcm aes256_gcm = true
same_alg (other m) (other n) = m == n
same_alg _ _ = false

-- `supported.contains(a)`
abbrev pub contains : List Alg → Alg → Bool
contains supported a = any (same_alg a) supported

abbrev pub alg_token : Alg → Str
alg_token aegis256 = codes "aegis256"
alg_token xchacha20_poly1305 = codes "xchacha20"
alg_token aes256_gcm = codes "aes256gcm"
alg_token (other n) = codes "unknown"

unfoldable pub alg_from_token : Str → Result Alg
alg_from_token token =
    if same token (codes "aegis256")
    then ok aegis256
    else if same token (codes "xchacha20")
    then ok xchacha20_poly1305
    else if same token (codes "aes256gcm")
    then ok aes256_gcm
    else err (params "unknown AEAD token")

-- `.iter().map(alg_from_token).collect::<Result<Vec<_>, _>>()`
unfoldable pub algs_from_tokens : List Str → Result (List Alg)
unfolding alg_from_token
algs_from_tokens [] = ok []
algs_from_tokens (t ∷ ts) = do a ← alg_from_token t; rest ← algs_from_tokens ts; ok (a ∷ rest)

pub record SupportStatement : Type 0 where
  pub component : Str
  pub supported : List Str
  pub timestamp : ℤ
  pub signature : Str

-- `PREFERENCE.iter().filter(|a| supported.contains(a))`
abbrev pub filter_by : List Alg → List Alg → List Alg
filter_by supported [] = []
filter_by supported (a ∷ algs) =
    if contains supported a then a ∷ filter_by supported algs else filter_by supported algs

abbrev pub comma : Str
comma = codes ","

module _ (l : Libs) where
  unfoldable pub signed : Str → List Alg → ℤ → Bytes → Result SupportStatement
  signed component supported timestamp anchor_pkcs8 = do
    refuse (is_empty supported) (params "a support statement must declare at least one algorithm")
    let tokens = map alg_token (filter_by supported preference)
    refuse (not (length tokens == length supported))
        (params "a support statement may only declare known algorithms, once each")
    bytes ← algsupport_v1 component (join comma tokens) timestamp
    sig ← sign_p256 l anchor_pkcs8 bytes
    ok (record {
      component = component;
      supported = tokens;
      timestamp = timestamp;
      signature = l.hex_encode sig;
    })

  unfoldable pub verify : SupportStatement → Bytes → Result (List Alg)
  unfolding algs_from_tokens
  verify s signer_cert_der = do
    bytes ← algsupport_v1 s.component (join comma s.supported) s.timestamp
    sig ← from_hex l s.signature
    map_err (verify_p256 l signer_cert_der bytes sig) (proof_invalid "support statement")
    algs_from_tokens s.supported

-- The loop of `choose` over the preferences.
unfoldable pub first_supported : List Alg → List Alg → Result Alg
first_supported supported [] =
    err (negotiation "the peer's signed statement declares no acceptable algorithm")
first_supported supported (a ∷ algs) = elim (contains supported a) [
  | true ↦ ok a
  | false ↦ first_supported supported algs
]

unfoldable pub choose : Alg → Option (List Alg) → Result Alg
unfolding first_supported
choose requested none = ok requested
choose requested (some supported) =
    if contains supported requested then ok requested else first_supported supported preference
