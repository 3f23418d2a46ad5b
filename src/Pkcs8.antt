-- ===== src/Pkcs8.antt =====
-- pkcs8.rs: the private key of a P-256 certificate in the form that signs.
pub mod RoundTrip
use Prim.Native.String.{String}
use net_tls.Prelude.{
  ℕ, zero, suc, ◌+◌, ◌-◌, ◌%◌, ◌≡◌, refl, Bool, true, false, not, ◌||◌, Option, none, some, List,
  [], ◌∷◌, ◌++◌, leb, ltb, ◌==◌, if◌then◌else◌, length, take, drop,
}
use net_tls.Prelude.Text.{Str, Bytes, same}
use net_tls.Error.{TlsError, Result, ok, err, sign, ◌>>=◌, ◌>>◌, refuse}
use net_tls.Signature.{ok_or, p256_public_key}
use net_tls.Host.{Host, PrivateKey, pkcs8, sec1, pkcs1, other_key}
use net_tls.Lockbox.{hold}

-- `der.get(i)` and `der.get(i..i + n)`
unfoldable pub get : Bytes → ℕ → Option ℕ
get [] i = none
get (b ∷ bs) zero = some b
get (b ∷ bs) (suc i) = get bs i

unfoldable pub get_range : Bytes → ℕ → ℕ → Option Bytes
get_range der i n = if leb (i + n) (length der) then some (take n (drop i der)) else none

abbrev pub bad_form : TlsError
bad_form = sign "the EC private key does not have the expected form"

-- `x != Some(&bytes)`
abbrev pub differs : Option Bytes → Bytes → Bool
differs none bytes = true
differs (some b) bytes = not (same b bytes)

-- The bytes that the length of the sequence takes behind its first byte.
unfoldable pub skip_length : ℕ → Result ℕ
skip_length len_byte =
    if ltb len_byte 0x80
    then ok 0
    else (let n : ℕ = len_byte - 0x80 in if n == 0 || ltb 4 n then err bad_form else ok n)

unfoldable pub sec1_private_scalar : Bytes → Result Bytes
unfolding get get_range skip_length
sec1_private_scalar der = do
  tag ← ok_or (get der 0) bad_form
  refuse (not (tag == 0x30)) bad_form
  len_byte ← ok_or (get der 1) bad_form
  n ← skip_length len_byte
  refuse (differs (get_range der (2 + n) 3) (0x02 ∷ 0x01 ∷ 0x01 ∷ [])) bad_form
  refuse (differs (get_range der (5 + n) 2) (0x04 ∷ 0x20 ∷ [])) bad_form
  ok_or (get_range der (7 + n) 32) bad_form

abbrev pub alg : Bytes
alg =
    0x30 ∷ 0x13 ∷ 0x06 ∷ 0x07 ∷ 0x2a ∷ 0x86 ∷ 0x48 ∷ 0xce ∷ 0x3d ∷ 0x02 ∷ 0x01 ∷ 0x06 ∷ 0x08 ∷ 0x2a
    ∷ 0x86 ∷ 0x48 ∷ 0xce ∷ 0x3d ∷ 0x03 ∷ 0x01 ∷ 0x07 ∷ []

-- `bytes.len() as u8`
abbrev pub len_u8 : Bytes → ℕ
len_u8 b = length b % 256

abbrev pub bit_string : Bytes → Bytes
bit_string point = 0x03 ∷ ((length point + 1) % 256) ∷ 0x00 ∷ point

-- The `ECPrivateKey` in the middle.
unfoldable pub ec_seq : Bytes → Bytes → Bytes
ec_seq scalar point =
    let bit : Bytes = bit_string point in
    let ec : Bytes = 0x02 ∷ 0x01 ∷ 0x01 ∷ 0x04 ∷ 0x20 ∷ (scalar ++ (0xa1 ∷ len_u8 bit ∷ bit)) in
    0x30 ∷ len_u8 ec ∷ ec

-- The length of the outermost sequence.
abbrev pub outer_length : Bytes → Bytes
outer_length inner = if ltb (length inner) 128 then len_u8 inner ∷ [] else 0x81 ∷ len_u8 inner ∷ []

unfoldable pub pkcs8_from_parts : Bytes → Bytes → Bytes
unfolding ec_seq
pkcs8_from_parts scalar point =
    let seq : Bytes = ec_seq scalar point in
    let inner : Bytes = 0x02 ∷ 0x01 ∷ 0x00 ∷ (alg ++ (0x04 ∷ len_u8 seq ∷ seq)) in
    0x30 ∷ (outer_length inner ++ inner)

module _ (h : Host) where
  unfoldable pub pkcs8_p256 : PrivateKey → Bytes → Result Bytes
  pkcs8_p256 (pkcs8 k) cert_der = hold h k
  pkcs8_p256 (sec1 k) cert_der = do
    scalar ← sec1_private_scalar k
    point ← p256_public_key h.libs cert_der
    hold h (pkcs8_from_parts scalar point)
  pkcs8_p256 (pkcs1 k) cert_der = err (sign "the private key is not an EC key")
  pkcs8_p256 (other_key k) cert_der = err (sign "the private key is not an EC key")
