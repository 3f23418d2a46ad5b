-- ===== src/Signature.antt =====
-- signature.rs: hex fields, and the P-256 key of a certificate.
use net_tls.Prelude.{ℕ, Bool, false, not, ◌||◌, Option, none, some, [], ◌∷◌, ◌==◌, length, is_empty}
use net_tls.Prelude.Text.{Str, Bytes, codes, same}
use net_tls.Error.{
  TlsError, Result, ok, err, proof, proof_invalid, certificate, sign, ◌>>=◌, ◌>>◌, refuse,
}
use net_tls.External.{Libs}

-- `o.ok_or(e)`, which is also how a foreign error becomes one of the crate's
abbrev pub ok_or {ℓ} : {A : Type ℓ} → Option A → TlsError → Result A
ok_or none e = err e
ok_or (some a) e = ok a

abbrev pub ec_public_key_oid : Str
ec_public_key_oid = codes "1.2.840.10045.2.1"

-- `point[0] != 0x04`
abbrev pub first_is : ℕ → Bytes → Bool
first_is b [] = false
first_is b (x ∷ xs) = x == b

module _ (l : Libs) where
  unfoldable pub from_hex : Str → Result Bytes
  from_hex s = do
    refuse (is_empty s) (proof "empty hex string")
    ok_or (l.hex_decode s) (proof "invalid hex")

  unfoldable pub p256_public_key : Bytes → Result Bytes
  p256_public_key cert_der = do
    (alg, point) ← ok_or (l.x509 cert_der) (certificate "invalid certificate")
    refuse (not (same alg ec_public_key_oid)) (proof_invalid "key type is not ECDSA")
    refuse (not (length point == 65) || not (first_is 0x04 point))
        (proof_invalid "expected an uncompressed P-256 point")
    ok point

  unfoldable pub verify_p256 : Bytes → Bytes → Bytes → Result (Unit {0})
  verify_p256 cert_der message signature = do
    key ← p256_public_key cert_der
    refuse (not (l.ecdsa_p256_verify key message signature))
        (proof_invalid "the ECDSA P-256 signature does not hold")

  unfoldable pub sign_p256 : Bytes → Bytes → Result Bytes
  sign_p256 pkcs8 message =
      ok_or (l.ecdsa_p256_sign pkcs8 message) (sign "the private key is not ECDSA P-256 in PKCS#8")
