-- ===== src/Tests/Toy.antt =====
-- A concrete `Libs` for the examples: real hexadecimal, a digest that pads, a signature that is a check
-- sum under the key, a certificate that is its own key, a PEM file that is its own block.
use net_tls.Prelude.{
  ℕ, zero, suc, ◌+◌, ◌-◌, ◌*◌, ◌/◌, ◌%◌, ◌<◌, ◌≡◌, refl, sym, ap, ◌∙◌, ◌&&◌, Option, none, some,
  some-inj, [], ◌∷◌, arith, ltb, leb, if◌then◌else◌, length,
}
use net_tls.Prelude.Text.{Str, Bytes, IsBytes, same, same_refl}
use net_tls.External.{Libs, HexLaws, IsP256Pair, IsEd25519Pair}
use net_tls.Signature.{ec_public_key_oid}

abbrev digit : ℕ → ℕ
digit n = if ltb n 10 then 48 + n else 87 + n

abbrev value : ℕ → Option ℕ
value c =
    if leb 48 c && leb c 57
    then some (c - 48)
    else if leb 97 c && leb c 102
    then some (c - 87)
    else none

unfoldable pub encode : Bytes → Str
encode [] = []
encode (b ∷ bs) = digit (b / 16 % 16) ∷ digit (b % 16) ∷ encode bs

abbrev put : Option ℕ → Option ℕ → Option Bytes → Option Bytes
put (some a) (some b) (some bs) = some ((a * 16 + b) ∷ bs)
put _ _ _ = none

unfoldable pub decode : Str → Option Bytes
decode [] = some []
decode (x ∷ []) = none
decode (x ∷ y ∷ s) = put (value x) (value y) (decode s)

length-encode : (b : Bytes) → length (encode b) ≡ 2 * length b
unfolding encode
length-encode [] = omega arith
length-encode (b ∷ bs) = omega (arith, length-encode bs)

value-digit : (n : ℕ) → n < 16 → value (digit n) ≡ some n
value-digit n h = ground arith

decode-encode : (b : Bytes) → IsBytes b → decode (encode b) ≡ some b
unfolding encode decode
decode-encode [] h = refl
decode-encode (b ∷ bs) (hb, h) =
    rw
      (
        value-digit (b / 16 % 16) (omega arith),
        value-digit (b % 16) (omega arith),
        decode-encode bs h,
      )
      (ap (λ x. some (x ∷ bs)) (omega arith))

value-inv : (c n : ℕ) → value c ≡ some n → (n < 16) × (digit n ≡ c)
value-inv c n h = ground arith

put-inv :
    (a b : Option ℕ) (o : Option Bytes) (r : Bytes)
    → put a b o ≡ some r
    → (x y : ℕ) × (bs : Bytes) × (a ≡ some x)
      × (b ≡ some y)
      × (o ≡ some bs)
      × (r ≡ (x * 16 + y) ∷ bs)
put-inv (some a) (some b) (some bs) r h = (a, b, bs, refl, refl, refl, sym (some-inj h))
put-inv (some a) (some b) none r h = cc
put-inv (some a) none o r h = cc
put-inv none b o r h = cc

encode-decode : (s : Str) (b : Bytes) → decode s ≡ some b → IsBytes b × (encode b ≡ s)
unfolding encode decode
encode-decode [] b h = ground arith
encode-decode (x ∷ []) b h = cc
encode-decode (x ∷ y ∷ s) b h =
    let (m, n, bs, hx, hy, hs, e) = put-inv (value x) (value y) (decode s) b h in
    let (m_bound, m_eq) = value-inv x m hx in
    let (n_bound, n_eq) = value-inv y n hy in
    let (bytes, s_eq) = encode-decode s bs hs in
    let high : (m * 16 + n) / 16 % 16 ≡ m = omega arith in
    let low : (m * 16 + n) % 16 ≡ n = omega arith in
    rw e ((omega arith, bytes), rw (high, low, m_eq, n_eq, s_eq) refl)

abbrev zeros : ℕ → Bytes
zeros zero = []
zeros (suc n) = 0 ∷ zeros n

-- The first n bytes, filled up with zeros.
abbrev pub padded : ℕ → Bytes → Bytes
padded zero b = []
padded (suc n) [] = 0 ∷ padded n []
padded (suc n) (b ∷ bs) = b ∷ padded n bs

abbrev sum : Bytes → ℕ
sum [] = 0
sum (b ∷ bs) = b + sum bs

abbrev pub check_sum : Bytes → Bytes → Bytes
check_sum key message = (sum key % 256) ∷ (sum message % 256) ∷ []

abbrev pub toy : Libs
toy = record {
  sha256 = padded 32;
  hex_encode = encode;
  hex_decode = decode;
  ecdsa_p256_verify = λ key m s. same s (check_sum key m);
  ecdsa_p256_sign = λ key m. some (check_sum key m);
  ed25519_verify = λ key m s. same s (check_sum key m);
  ed25519_sign = λ key m. some (check_sum key m);
  x509 = λ der. some (ec_public_key_oid, 4 ∷ padded 64 der);
  pem_slice_iter = λ text. some text ∷ [];
}

pub toy-HexLaws : HexLaws toy
toy-HexLaws = record {
  length-encode = length-encode;
  decode-encode = decode-encode;
  encode-decode = encode-decode;
}

pub toy-IsP256Pair : (key : Bytes) → IsP256Pair toy key key
toy-IsP256Pair key m s h =
    ap (λ x. same x (check_sum key m)) (sym (some-inj h)) ∙ same_refl (check_sum key m)

pub toy-IsEd25519Pair : (key : Bytes) → IsEd25519Pair toy key key
toy-IsEd25519Pair key m s h =
    ap (λ x. same x (check_sum key m)) (sym (some-inj h)) ∙ same_refl (check_sum key m)
