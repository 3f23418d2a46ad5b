-- ===== src/Fingerprint.antt =====
-- fingerprint.rs: the fingerprint that an operator types or pastes.
pub mod Reads
pub mod Spells
use Prim.Native.String.{String}
use net_tls.Prelude.{
  ℕ, ◌+◌, ◌-◌, ◌*◌, ◌≡◌, refl, Bool, true, false, not, ◌&&◌, ◌||◌, Option, none, some, List, [],
  ◌∷◌, ◌==◌, leb, length, if◌then◌else◌,
}
use net_tls.Prelude.Text.{Str, Bytes, codes}
use net_tls.Error.{TlsError, Result, ok, err, fingerprint, ◌>>=◌, ◌>>◌, refuse}

-- `char::is_whitespace`: the property White_Space of Unicode.
abbrev pub is_whitespace : ℕ → Bool
is_whitespace c =
    (leb 0x9 c && leb c 0xd)
    || c == 0x20
    || c == 0x85
    || c == 0xa0
    || c == 0x1680
    || (leb 0x2000 c && leb c 0x200a)
    || c == 0x2028
    || c == 0x2029
    || c == 0x202f
    || c == 0x205f
    || c == 0x3000

unfoldable pub trim_start : Str → Str
trim_start [] = []
trim_start (c ∷ s) = if is_whitespace c then trim_start s else c ∷ s

-- A character in front of a text whose end is trimmed.
abbrev pub keep_unless_end : ℕ → Str → Str
keep_unless_end c [] = if is_whitespace c then [] else c ∷ []
keep_unless_end c (d ∷ s) = c ∷ d ∷ s

unfoldable pub trim_end : Str → Str
trim_end [] = []
trim_end (c ∷ s) = keep_unless_end c (trim_end s)

-- `s.strip_prefix(p)`
unfoldable pub strip_prefix : Str → Str → Option Str
strip_prefix [] s = some s
strip_prefix (p ∷ ps) [] = none
strip_prefix (p ∷ ps) (c ∷ s) = elim (p == c) [ true ↦ strip_prefix ps s | false ↦ none ]

-- `a.or_else(|| b)` and `a.unwrap_or(d)`
abbrev pub or_else : Option Str → Option Str → Option Str
or_else none b = b
or_else (some a) b = some a

abbrev pub or_text : Option Str → Str → Str
or_text none d = d
or_text (some a) d = a

unfoldable pub body_of : Str → Str
unfolding strip_prefix
body_of trimmed =
    or_text
      (or_else
        (or_else (strip_prefix (codes "sha256:") trimmed) (strip_prefix (codes "SHA256:") trimmed))
        (strip_prefix (codes "sha256-") trimmed))
      trimmed

abbrev pub is_separator : ℕ → Bool
is_separator c = c == b':' || c == b' ' || c == b'-' || c == b'\n' || c == 13 || c == 9

-- `c.to_digit(16)`
abbrev pub to_digit : ℕ → Option ℕ
to_digit c =
    if leb b'0' c && leb c b'9'
    then some (c - b'0')
    else if leb b'a' c && leb c b'f'
    then some (c - b'a' + 10)
    else if leb b'A' c && leb c b'F'
    then some (c - b'A' + 10)
    else none

-- The nibble of a character in front of the rest.
abbrev pub push : Option ℕ → Result (List ℕ) → Result (List ℕ)
push none rest = err (fingerprint "the character is not hexadecimal")
push (some d) rest = do ds ← rest; ok (d ∷ ds)

-- The loop over the characters.
unfoldable pub nibbles_of : Str → Result (List ℕ)
nibbles_of [] = ok []
nibbles_of (c ∷ s) = elim (is_separator c) [
  | true ↦ nibbles_of s
  | false ↦ push (to_digit c) (nibbles_of s)
]

-- `(pair[0] << 4) | pair[1]` for two nibbles, over the pairs.
unfoldable pub pairs : List ℕ → Bytes
pairs [] = []
pairs (x ∷ []) = []
pairs (x ∷ y ∷ ns) = (x * 16 + y) ∷ pairs ns

unfoldable pub parse_fingerprint : Str → Result Bytes
unfolding body_of trim_start trim_end nibbles_of pairs
parse_fingerprint s = do
  nibbles ← nibbles_of (body_of (trim_end (trim_start s)))
  refuse (not (length nibbles == 64)) (fingerprint "expected 64 hex digits (32 bytes)")
  ok (pairs nibbles)
