-- ===== src/Envelope.antt =====
-- envelope.rs: bytes sealed to a recipient's X25519 key. Key exchange, derivation and cipher are `krypto`'s
-- and stand in a record of their own.
pub mod RoundTrip
use Prim.Native.String.{String}
use net_tls.Prelude.{
  ℕ, ◌+◌, ◌≡◌, refl, Bool, true, false, not, Option, none, some, List, [], ◌∷◌, ◌++◌, ltb, ◌==◌,
  length, take, drop,
}
use net_tls.Prelude.Text.{Bytes, same}
use net_tls.Error.{
  TlsError, Result, ok, err, generate, params, pem, proof_invalid, ◌>>=◌, ◌>>◌, refuse,
}
use net_tls.Signature.{ok_or}

pub record Exchange : Type 0 where
  -- krypto::exchange: the pair drawn at a call, the public half, the shared secret
  pub x25519_keypair : ℕ → Option (Bytes × Bytes)
  pub x25519_public : Bytes → Option Bytes
  pub x25519_shared : Bytes → Bytes → Option Bytes
  -- krypto::MasterKey: from_bytes, and derive with a salt
  pub master_key : Bytes → Option Bytes
  pub master_derive : Bytes → Bytes → Option Bytes
  pub lockable : Bytes → Bool
  pub seal : Bytes → Bytes → Option Bytes
  pub open_sealed : Bytes → Bytes → Option Bytes

-- "NETENV", version 1
abbrev pub envelope_magic : Bytes
envelope_magic = 78 ∷ 69 ∷ 84 ∷ 69 ∷ 78 ∷ 86 ∷ 1 ∷ 0 ∷ []

abbrev pub x25519_len : ℕ
x25519_len = 32

-- The private half, in locked memory.
pub record RecipientKey : Type 0 where
  pub privat : Bytes

module _ (x : Exchange) where
  unfoldable pub from_bytes : Bytes → Result RecipientKey
  from_bytes b = do
    refuse (not (length b == x25519_len)) (params "an X25519 private key must be 32 bytes")
    ok (record { privat = b })

  -- The key and its public part, drawn at a call.
  unfoldable pub generate_key : ℕ → Result (RecipientKey × Bytes)
  generate_key call = do
    (privat, public) ← ok_or (x.x25519_keypair call) (generate "key generation failed")
    ok (record { privat = privat }, public)

  unfoldable pub public_of : RecipientKey → Result Bytes
  public_of key = ok_or (x.x25519_public key.privat) (generate "invalid X25519 private key")

  unfoldable pub derive_shared : Bytes → Bytes → Bytes → Result Bytes
  derive_shared shared ephemeral_pub recipient_pub = do
    let ikm = shared ++ (ephemeral_pub ++ recipient_pub)
    refuse (not (x.lockable ikm)) (generate "could not hold the key material")
    mk ← ok_or (x.master_key ikm) (generate "could not build the key root")
    ok_or (x.master_derive mk ephemeral_pub) (generate "key derivation failed")

  unfoldable pub seal_inner : Bytes → Bytes → Bytes → Bytes → Result Bytes
  unfolding derive_shared
  seal_inner shared ephemeral_pub recipient_pub plaintext = do
    dk ← derive_shared shared ephemeral_pub recipient_pub
    refuse (not (x.lockable plaintext)) (generate "could not hold the plaintext")
    ok_or (x.seal dk plaintext) (generate "sealing failed")

  unfoldable pub seal_envelope : ℕ → Bytes → Bytes → Result Bytes
  unfolding seal_inner
  seal_envelope call recipient_public plaintext = do
    refuse (not (length recipient_public == x25519_len))
        (params "an X25519 public key must be 32 bytes")
    (ephemeral, ephemeral_pub) ← ok_or (x.x25519_keypair call) (generate "key generation failed")
    shared ←
        ok_or (x.x25519_shared ephemeral recipient_public)
          (params "the recipient's X25519 public key is invalid")
    blob ← seal_inner shared ephemeral_pub recipient_public plaintext
    ok (envelope_magic ++ (ephemeral_pub ++ blob))

  unfoldable pub open_envelope : RecipientKey → Bytes → Result Bytes
  unfolding derive_shared public_of
  open_envelope key envelope = do
    refuse (ltb (length envelope) (length envelope_magic + x25519_len))
        (pem "the envelope is too short")
    refuse (not (same (take (length envelope_magic) envelope) envelope_magic))
        (pem "unknown format")
    let ephemeral_pub = take x25519_len (drop (length envelope_magic) envelope)
    let blob = drop (length envelope_magic + x25519_len) envelope
    my_pub ← public_of key
    shared ←
        ok_or (x.x25519_shared key.privat ephemeral_pub)
          (proof_invalid "the ephemeral key in the envelope is invalid")
    dk ← derive_shared shared ephemeral_pub my_pub
    ok_or (x.open_sealed dk blob) (proof_invalid "could not open the envelope")
