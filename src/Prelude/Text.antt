-- ===== src/Prelude/Text.antt =====
-- Text: a `&str` is the list of its code points, and its bytes are their UTF-8 encoding.
use Prim.Native.Char.{code}
use Prim.Native.Nat.{ℕ, ◌+◌, ◌/◌, ◌%◌, ◌<◌}
use Prim.Native.String.{String}
use mathlib.Core.Path.{◌≡◌, refl}
use mathlib.Core.Logic.{◌↔◌}
use mathlib.Core.Bool.{Bool, true, false, ◌&&◌}
use mathlib.Core.List.{List, [], ◌∷◌, ◌++◌, append_assoc}
use native.Mathlib.Omega.{arith}
use net_tls.Prelude.Tests.{ltb, ◌==◌, if◌then◌else◌}
use net_tls.Prelude.Lists.{All}

abbrev pub Str : Type 0
Str = List ℕ

abbrev pub Bytes : Type 0
Bytes = List ℕ

-- The code points of a literal.
abbrev pub codes : String → Str
codes String.[] = []
codes (String.◌∷◌ c s) = code c ∷ codes s

-- `a == b` on texts and on byte strings.
abbrev pub same : List ℕ → List ℕ → Bool
same [] [] = true
same [] (y ∷ ys) = false
same (x ∷ xs) [] = false
same (x ∷ xs) (y ∷ ys) = x == y && same xs ys

pub same→eq : (xs ys : List ℕ) → same xs ys ≡ true → xs ≡ ys
same→eq [] [] h = refl
same→eq [] (y ∷ ys) h = cc
same→eq (x ∷ xs) [] h = cc
same→eq (x ∷ xs) (y ∷ ys) h = ground (arith, same→eq xs ys)

pub same_refl : (xs : List ℕ) → same xs xs ≡ true
same_refl [] = refl
same_refl (x ∷ xs) = ground (arith, same_refl xs)

pub same_iff : (xs ys : List ℕ) → (same xs ys ≡ true) ↔ (xs ≡ ys)
same_iff xs ys = (same→eq xs ys, λ e. ground (arith, same_refl xs))

pub same_comm : (xs ys : List ℕ) → same xs ys ≡ same ys xs
same_comm [] [] = refl
same_comm [] (y ∷ ys) = refl
same_comm (x ∷ xs) [] = refl
same_comm (x ∷ xs) (y ∷ ys) = ground (arith, same_comm xs ys)

-- The UTF-8 bytes of one code point.
unfoldable pub utf8_char : ℕ → Bytes
utf8_char c =
    if ltb c 0x80
    then c ∷ []
    else if ltb c 0x800
    then (0xc0 + c / 64) ∷ (0x80 + c % 64) ∷ []
    else if ltb c 0x10000
    then (0xe0 + c / 4096) ∷ (0x80 + c / 64 % 64) ∷ (0x80 + c % 64) ∷ []
    else (0xf0 + c / 262144) ∷ (0x80 + c / 4096 % 64) ∷ (0x80 + c / 64 % 64) ∷ (0x80 + c % 64) ∷ []

-- `s.as_bytes()` and `s.into_bytes()`
unfoldable pub utf8 : Str → Bytes
unfolding utf8_char
utf8 [] = []
utf8 (c ∷ s) = utf8_char c ++ utf8 s

-- `lines.join(sep)`
unfoldable pub join : Str → List Str → Str
join sep [] = []
join sep (x ∷ []) = x
join sep (x ∷ y ∷ ys) = x ++ (sep ++ join sep (y ∷ ys))

-- A `char` is at most U+10FFFF.
abbrev pub IsText : Str → Type 0
IsText = All (λ c. c < 0x110000)

-- Bytes are below 256.
abbrev pub IsBytes : Bytes → Type 0
IsBytes = All (λ b. b < 256)

abbrev pub IsAscii : Str → Type 0
IsAscii = All (λ c. c < 0x80)

utf8_char-inj :
    (c d : ℕ) (s t : Bytes)
    → c < 0x110000
    → d < 0x110000
    → utf8_char c ++ s ≡ utf8_char d ++ t
    → (c ≡ d) × (s ≡ t)
unfolding utf8_char
utf8_char-inj c d s t h k e = ground arith

utf8_char-ne-nil : (c : ℕ) (s : Bytes) → utf8_char c ++ s ≡ [] → ⊥
unfolding utf8_char
utf8_char-ne-nil c s e = ground arith

-- The encoding loses nothing.
pub utf8-inj : (s t : Str) → IsText s → IsText t → utf8 s ≡ utf8 t → s ≡ t
unfolding utf8
utf8-inj [] [] h k e = refl
utf8-inj [] (d ∷ t) h k e = ground (arith, utf8_char-ne-nil d (utf8 t))
utf8-inj (c ∷ s) [] h k e = ground (arith, utf8_char-ne-nil c (utf8 s))
utf8-inj (c ∷ s) (d ∷ t) (hc, h) (kd, k) e =
    ground (arith, utf8_char-inj c d (utf8 s) (utf8 t), utf8-inj s t h k)

-- ASCII text is its own encoding.
pub utf8_ascii : (s : Str) → IsAscii s → utf8 s ≡ s
unfolding utf8
utf8_ascii [] h = refl
utf8_ascii (c ∷ s) (hc, h) = ground (arith, utf8_ascii s h)

pub utf8-append : (s t : Str) → utf8 (s ++ t) ≡ utf8 s ++ utf8 t
unfolding utf8
utf8-append [] t = refl
utf8-append (c ∷ s) t = simp (utf8-append s t, append_assoc)

two_bytes : utf8 (0xe6 ∷ []) ≡ 0xc3 ∷ 0xa6 ∷ []
unfolding utf8
two_bytes = refl
