-- ===== src/Pin/Hex.antt =====
-- The text of a fingerprint, as the crate writes it, is read back by `parse_fingerprint`.
use net_tls.Prelude.{
  ℕ, ◌+◌, ◌/◌, ◌%◌, ◌<◌, ◌≡◌, refl, false, none, [], ◌∷◌, arith, ltb, ◌==◌, if◌then◌else◌, length,
  All,
}
use net_tls.Prelude.Text.{Str, Bytes, IsBytes, codes}
use net_tls.Error.{ok}
use net_tls.Fingerprint.Spells.{
  Spells, ends, reads, IsDigitOf, digits_of, Spells-nibbles_of, pairs-digits_of, length-digits_of,
}
use net_tls.Fingerprint.{
  is_whitespace, trim_start, trim_end, strip_prefix, body_of, parse_fingerprint,
}

unfoldable pub hex_digit : ℕ → ℕ
hex_digit n = if ltb n 10 then 48 + n else 87 + n

-- Two lowercase digits for each byte.
abbrev pub lower_hex : Bytes → Str
lower_hex [] = []
lower_hex (b ∷ bs) = hex_digit (b / 16) ∷ hex_digit (b % 16) ∷ lower_hex bs

abbrev lower_hex_rest : ℕ → Bytes → Str
lower_hex_rest b bs = hex_digit (b % 16) ∷ lower_hex bs

hex_digit-IsDigitOf : (n : ℕ) → n < 16 → IsDigitOf (hex_digit n) n
unfolding hex_digit
hex_digit-IsDigitOf n h = ground arith

lower_hex-Spells : (bs : Bytes) → IsBytes bs → Spells (lower_hex bs) (digits_of bs)
lower_hex-Spells [] h = ends
lower_hex-Spells (b ∷ bs) (p, h) =
    reads _ _ (hex_digit-IsDigitOf (b / 16) (omega arith))
      (reads _ _ (hex_digit-IsDigitOf (b % 16) (omega arith)) (lower_hex-Spells bs h))

-- A text with no white space stays as it is when it is trimmed.
abbrev IsSolid : Str → Type 0
IsSolid = All (λ c. is_whitespace c ≡ false)

trim_start-IsSolid : (s : Str) → IsSolid s → trim_start s ≡ s
unfolding trim_start
trim_start-IsSolid [] h = refl
trim_start-IsSolid (c ∷ s) (p, h) = rw p refl

trim_end-IsSolid : (s : Str) → IsSolid s → trim_end s ≡ s
unfolding trim_end
trim_end-IsSolid [] h = refl
trim_end-IsSolid (c ∷ []) (p, h) = rw p refl
trim_end-IsSolid (c ∷ d ∷ s) (p, h) = rw (trim_end-IsSolid (d ∷ s) h) refl

hex_digit-IsSolid : (n : ℕ) → n < 16 → is_whitespace (hex_digit n) ≡ false
unfolding hex_digit
hex_digit-IsSolid n h = ground arith

lower_hex-IsSolid : (bs : Bytes) → IsBytes bs → IsSolid (lower_hex bs)
lower_hex-IsSolid [] h = tt
lower_hex-IsSolid (b ∷ bs) (p, h) = (
  hex_digit-IsSolid (b / 16) (omega arith),
  (hex_digit-IsSolid (b % 16) (omega arith), lower_hex-IsSolid bs h),
)

not_prefix : (n : ℕ) → n < 16 → ((115 == hex_digit n) ≡ false) × ((83 == hex_digit n) ≡ false)
unfolding hex_digit
not_prefix n h = ground arith

strip_prefix-other :
    (p c : ℕ) (ps s : Str) → (p == c) ≡ false → strip_prefix (p ∷ ps) (c ∷ s) ≡ none
unfolding strip_prefix
strip_prefix-other p c ps s h = ground (arith, h)

body_of-lower_hex : (bs : Bytes) → IsBytes bs → body_of (lower_hex bs) ≡ lower_hex bs
unfolding body_of
body_of-lower_hex [] h = unfold strip_prefix in refl
body_of-lower_hex (b ∷ bs) (p, h) =
    let (small, large) = not_prefix (b / 16) (omega arith) in
    rw
      (
        strip_prefix-other 115 (hex_digit (b / 16)) (codes "ha256:") (lower_hex_rest b bs) small,
        strip_prefix-other 83 (hex_digit (b / 16)) (codes "HA256:") (lower_hex_rest b bs) large,
        strip_prefix-other 115 (hex_digit (b / 16)) (codes "ha256-") (lower_hex_rest b bs) small,
      )
      refl

pub parse_fingerprint-lower_hex :
    (bs : Bytes) → IsBytes bs → length bs ≡ 32 → parse_fingerprint (lower_hex bs) ≡ ok bs
unfolding parse_fingerprint
parse_fingerprint-lower_hex bs h size =
    rw
      (
        trim_start-IsSolid (lower_hex bs) (lower_hex-IsSolid bs h),
        trim_end-IsSolid (lower_hex bs) (lower_hex-IsSolid bs h),
        body_of-lower_hex bs h,
        Spells-nibbles_of (lower_hex-Spells bs h),
        length-digits_of bs,
        size,
        pairs-digits_of bs,
      )
      refl
