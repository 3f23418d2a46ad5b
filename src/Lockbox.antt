-- ===== src/Lockbox.antt =====
-- lockbox.rs: a file locked with a password.
pub mod RoundTrip
use Prim.Native.String.{String}
use net_tls.Prelude.{
  ℕ, zero, ◌+◌, ◌≡◌, refl, Bool, true, false, not, Option, none, some, List, [], ◌∷◌, ◌++◌, ltb,
  length, take, drop,
}
use net_tls.Prelude.Text.{Str, Bytes, codes, same}
use net_tls.Error.{
  TlsError, Result, ok, err, generate, pem, proof_invalid, sign, ◌>>=◌, ◌>>◌, refuse,
}
use net_tls.Signature.{ok_or}
use net_tls.Host.{Host}

-- "NETTLS", version 1
abbrev pub magic : Bytes
magic = 78 ∷ 69 ∷ 84 ∷ 84 ∷ 76 ∷ 83 ∷ 1 ∷ 0 ∷ []

abbrev pub salt_len : ℕ
salt_len = 32

module _ (h : Host) where
  -- secret.rs, `hold`: the bytes in locked memory.
  unfoldable pub hold : Bytes → Result Bytes
  hold v = do
    refuse (not (h.lockable v)) (sign "could not hold a private key in locked memory")
    ok v

  unfoldable pub derive : Bytes → Bytes → Result Bytes
  derive password salt = ok_or (h.derive_key password salt) (generate "argon2 derivation failed")

  unfoldable pub seal : Bytes → Bytes → Bytes → Result Bytes
  unfolding derive
  seal password salt plaintext = do
    key ← derive password salt
    dk ← ok_or (h.master_derive key salt) (generate "key derivation failed")
    refuse (not (h.lockable plaintext)) (generate "could not hold the plaintext")
    ok_or (h.seal dk plaintext) (generate "sealing failed")

  -- `lock`, at the given call of the random source.
  unfoldable pub lock : ℕ → Bytes → Bytes → Result Bytes
  unfolding seal
  lock call password plaintext = do
    salt ← ok_or (h.random salt_len call 0) (generate "CSPRNG unavailable")
    blob ← seal password salt plaintext
    ok (magic ++ (salt ++ blob))

  unfoldable pub unlock : Bytes → Bytes → Result Bytes
  unfolding derive
  unlock password file = do
    refuse (ltb (length file) (length magic + salt_len))
        (pem "the locked file is too short to contain header and salt")
    refuse (not (same (take (length magic) file) magic)) (pem "unknown file format")
    let salt = take salt_len (drop (length magic) file)
    let blob = drop (length magic + salt_len) file
    key ← derive password salt
    dk ← ok_or (h.master_derive key salt) (generate "key derivation failed")
    ok_or (h.open_sealed dk blob) (proof_invalid "could not unlock the local state")
