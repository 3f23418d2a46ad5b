-- ===== src/Pkcs8/RoundTrip.antt =====
-- The PKCS#8 form is well-formed DER, and both readers find the key in it.
use net_tls.Prelude.{
  ℕ, zero, suc, ◌+◌, ◌%◌, ◌<◌, ◌≤◌, ◌≡◌, refl, sym, ap, ◌∙◌, true, false, not, Option, none, some,
  [], ◌∷◌, ◌++◌, arith, ltb, ◌==◌, if◌then◌else◌, length, take, drop, length-append,
  take-length_append, append-nil,
}
use net_tls.Prelude.Text.{Bytes}
use net_tls.Error.{ok}
use net_tls.Pkcs8.{
  get, get_range, skip_length, sec1_private_scalar, alg, len_u8, bit_string, ec_seq, outer_length,
  pkcs8_from_parts,
}

-- Splitting a text that is one or more bytes too short gives nothing.
abbrev split_at : ℕ → Bytes → Option (Bytes × Bytes)
split_at zero s = some ([], s)
split_at (suc n) [] = none
split_at (suc n) (b ∷ s) = elim (split_at n s) [ none ↦ none | some (c, r) ↦ some (b ∷ c, r) ]

split_at-append : (c rest : Bytes) → split_at (length c) (c ++ rest) ≡ some (c, rest)
split_at-append [] rest = refl
split_at-append (b ∷ c) rest = rw (split_at-append c rest) refl

abbrev long_form : Bytes → Option (Bytes × Bytes)
long_form [] = none
long_form (m ∷ r) = if ltb m 128 then none else split_at m r

-- An element of DER with this tag, in the short form of its length or the form with one more byte: its
-- content and what follows it. (X.690, 8.1)
abbrev pub element : ℕ → Bytes → Option (Bytes × Bytes)
element tag [] = none
element tag (t ∷ []) = none
element tag (t ∷ n ∷ s) =
    if not (t == tag)
    then none
    else if ltb n 128
    then split_at n s
    else (if n == 0x81 then long_form s else none)

==_refl : (n : ℕ) → (n == n) ≡ true
==_refl n = ground arith

element_short :
    (tag n : ℕ) (c rest : Bytes)
    → n ≡ length c
    → length c < 128
    → element tag (tag ∷ n ∷ (c ++ rest)) ≡ some (c, rest)
element_short tag n c rest e h =
    let small : ltb (length c) 128 ≡ true = ground arith in
    rw (e, ==_refl tag, small) (split_at-append c rest)

-- A private key of P-256 in PKCS#8, as a reader of DER takes it apart, down to the scalar and the point.
pub record IsPkcs8 (der scalar point : Bytes) : Type 0 where
  pub inner : Bytes
  pub after_version : Bytes
  pub after_alg : Bytes
  pub seq : Bytes
  pub ec : Bytes
  pub after_ec_version : Bytes
  pub after_scalar : Bytes
  pub bits : Bytes
  pub outer : element 0x30 der ≡ some (inner, [])
  pub version : element 0x02 inner ≡ some (0 ∷ [], after_version)
  pub algorithm : element 0x30 after_version ≡ some (drop 2 alg, after_alg)
  pub key : element 0x04 after_alg ≡ some (seq, [])
  pub sequence : element 0x30 seq ≡ some (ec, [])
  pub ec_version : element 0x02 ec ≡ some (1 ∷ [], after_ec_version)
  pub scalar_of : element 0x04 after_ec_version ≡ some (scalar, after_scalar)
  pub public : element 0xa1 after_scalar ≡ some (bits, [])
  pub point_of : element 0x03 bits ≡ some (0 ∷ point, [])

abbrev ec_of : Bytes → Bytes → Bytes
ec_of scalar point =
    0x02
    ∷ 0x01
    ∷ 0x01
    ∷ 0x04
    ∷ 0x20
    ∷ (scalar ++ (0xa1 ∷ len_u8 (bit_string point) ∷ bit_string point))

abbrev inner_of : Bytes → Bytes → Bytes
inner_of scalar point =
    0x02 ∷ 0x01 ∷ 0x00 ∷ (alg ++ (0x04 ∷ len_u8 (ec_seq scalar point) ∷ ec_seq scalar point))

length-ec_of :
    (scalar point : Bytes)
    → length scalar ≡ 32
    → length point ≡ 65
    → length (ec_of scalar point) ≡ 107
length-ec_of scalar point p q =
    omega (arith, length-append scalar (0xa1 ∷ len_u8 (bit_string point) ∷ bit_string point))

length-inner_of :
    (scalar point : Bytes)
    → length scalar ≡ 32
    → length point ≡ 65
    → length (inner_of scalar point) ≡ 135
unfolding ec_seq
length-inner_of scalar point p q = omega (arith, length-ec_of scalar point p q)

element_all :
    (tag n : ℕ) (c : Bytes)
    → n ≡ length c
    → length c < 128
    → element tag (tag ∷ n ∷ c) ≡ some (c, [])
element_all tag n c e h =
    ap (λ x. element tag (tag ∷ n ∷ x)) (sym (append-nil c)) ∙ element_short tag n c [] e h

element_long :
    (tag : ℕ) (c : Bytes)
    → length c ≡ 135
    → element tag (tag ∷ 0x81 ∷ (length c % 256) ∷ c) ≡ some (c, [])
element_long tag c e =
    rw (==_refl tag, e)
      (ap (λ n. split_at n c) (sym e)
        ∙ (ap (split_at (length c)) (sym (append-nil c)) ∙ split_at-append c []))

outer_of : (c : Bytes) → length c ≡ 135 → element 0x30 (0x30 ∷ (outer_length c ++ c)) ≡ some (c, [])
outer_of c e =
    let long : ltb (length c) 128 ≡ false = ground arith in rw long (element_long 0x30 c e)

-- The PKCS#8 form of a scalar of 32 bytes and a point of 65 is well-formed: every length in it fits its
-- byte, and a reader of DER finds the scalar and the point.
pub pkcs8_from_parts-IsPkcs8 :
    (scalar point : Bytes)
    → length scalar ≡ 32
    → length point ≡ 65
    → IsPkcs8 (pkcs8_from_parts scalar point) scalar point
unfolding pkcs8_from_parts ec_seq
pkcs8_from_parts-IsPkcs8 scalar point p q =
    let ec_len = length-ec_of scalar point p q in
    let inner_len = length-inner_of scalar point p q in
    record {
      inner = inner_of scalar point;
      after_version = alg ++ (0x04 ∷ len_u8 (ec_seq scalar point) ∷ ec_seq scalar point);
      after_alg = 0x04 ∷ len_u8 (ec_seq scalar point) ∷ ec_seq scalar point;
      seq = ec_seq scalar point;
      ec = ec_of scalar point;
      after_ec_version =
          0x04 ∷ 0x20 ∷ (scalar ++ (0xa1 ∷ len_u8 (bit_string point) ∷ bit_string point));
      after_scalar = 0xa1 ∷ len_u8 (bit_string point) ∷ bit_string point;
      bits = bit_string point;
      outer = outer_of (inner_of scalar point) inner_len;
      version = refl;
      algorithm = refl;
      key =
          element_all 0x04 (len_u8 (ec_seq scalar point)) (ec_seq scalar point) (omega arith)
            (omega arith);
      sequence =
          element_all 0x30 (len_u8 (ec_of scalar point)) (ec_of scalar point) (omega arith)
            (omega arith);
      ec_version = refl;
      scalar_of =
          element_short 0x04 0x20 scalar (0xa1 ∷ len_u8 (bit_string point) ∷ bit_string point)
            (sym p) (omega arith);
      public =
          element_all 0xa1 (len_u8 (bit_string point)) (bit_string point) (omega arith)
            (omega arith);
      point_of =
          element_all 0x03 ((length point + 1) % 256) (0 ∷ point) (omega arith) (omega arith);
    }

get_range-in :
    (der : Bytes) (i n : ℕ) → i + n ≤ length der → get_range der i n ≡ some (take n (drop i der))
unfolding get_range
get_range-in der i n h = ground arith

-- The scalar that was put into an `ECPrivateKey` is the one that is read from it.
pub sec1_private_scalar-ec_seq :
    (scalar point : Bytes)
    → length scalar ≡ 32
    → length point ≡ 65
    → sec1_private_scalar (ec_seq scalar point) ≡ ok scalar
unfolding sec1_private_scalar ec_seq skip_length get
sec1_private_scalar-ec_seq scalar point p q =
    let rest : Bytes = 0xa1 ∷ len_u8 (bit_string point) ∷ bit_string point in
    let ec_len = length-ec_of scalar point p q in
    let taken : take 32 (scalar ++ rest) ≡ scalar =
      ap (λ n. take n (scalar ++ rest)) (sym p) ∙ take-length_append scalar rest in
    let short : skip_length (len_u8 (ec_of scalar point)) ≡ ok 0 =
      let e : len_u8 (ec_of scalar point) ≡ 107 = omega arith in ap skip_length e in
    rw
      (
        short,
        get_range-in (ec_seq scalar point) 2 3 (omega arith),
        get_range-in (ec_seq scalar point) 5 2 (omega arith),
        get_range-in (ec_seq scalar point) 7 32 (omega arith),
      )
      (ap ok taken)
