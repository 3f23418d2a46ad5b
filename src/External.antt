-- ===== src/External.antt =====
-- What the crate calls and does not implement: `krypto` (hash, hex, signatures), `x509_parser` and the
-- PEM reader of `rustls_pki_types`. Every model that uses them takes a `Libs`; the laws below are the
-- documented behaviour that a theorem relies on, each a hypothesis of its own.
use net_tls.Prelude.{◌*◌, ◌≡◌, Bool, true, Option, some, List, length}
use net_tls.Prelude.Text.{Str, Bytes, IsBytes}

pub record Libs : Type 0 where
  -- krypto::sha256
  pub sha256 : Bytes → Bytes
  -- krypto::hex
  pub hex_encode : Bytes → Str
  pub hex_decode : Str → Option Bytes
  -- krypto::sign: key, message, then the signature; a private key is the content of a `SecretBuf`
  pub ecdsa_p256_verify : Bytes → Bytes → Bytes → Bool
  pub ecdsa_p256_sign : Bytes → Bytes → Option Bytes
  pub ed25519_verify : Bytes → Bytes → Bytes → Bool
  pub ed25519_sign : Bytes → Bytes → Option Bytes
  -- X509Certificate::from_der: the OID of the key's algorithm and the bits of the key
  pub x509 : Bytes → Option (Str × Bytes)
  -- CertificateDer::pem_slice_iter: the CERTIFICATE blocks of a file, each read or broken
  pub pem_slice_iter : Bytes → List (Option Bytes)

-- `encode` writes two lowercase digits for each byte; `decode` undoes it, and reads nothing else.
pub record HexLaws (l : Libs) : Type 0 where
  pub length-encode : (b : Bytes) → length (l.hex_encode b) ≡ 2 * length b
  pub decode-encode : (b : Bytes) → IsBytes b → l.hex_decode (l.hex_encode b) ≡ some b
  pub encode-decode :
      (s : Str) (b : Bytes) → l.hex_decode s ≡ some b → IsBytes b × (l.hex_encode b ≡ s)

-- What is signed with the private key holds against the public key.
abbrev pub IsP256Pair : Libs → Bytes → Bytes → Type 0
IsP256Pair l private public =
    (m s : Bytes) → l.ecdsa_p256_sign private m ≡ some s → l.ecdsa_p256_verify public m s ≡ true

abbrev pub IsEd25519Pair : Libs → Bytes → Bytes → Type 0
IsEd25519Pair l private public =
    (m s : Bytes) → l.ed25519_sign private m ≡ some s → l.ed25519_verify public m s ≡ true
