-- ===== src/Canonical/Fields.antt =====
-- The field rules of canonical.rs, as predicates.
use Prim.Native.String.{String}
use net_tls.Prelude.{
  ℕ, ◌<◌, ◌≤◌, ◌≡◌, ◌≢◌, ◌↔◌, refl, Bool, true, false, not, ◌&&◌, List, [], ◌∷◌, ◌++◌, length, any,
  all, All, All-mono, arith,
}
use net_tls.Prelude.Text.{Str, Bytes, utf8, utf8_char, utf8_ascii, IsText, IsAscii}
use net_tls.Error.{ok}
use net_tls.Canonical.{
  is_ascii_hexdigit, is_ascii_uppercase, is_component_char, is_control, require_fingerprint,
  require_component_name, require_name,
}

-- A lowercase hexadecimal digit.
abbrev pub IsHexDigit : ℕ → Type 0
IsHexDigit c = (is_ascii_hexdigit c && not (is_ascii_uppercase c)) ≡ true

pub record IsFingerprint (v : Str) : Type 0 where
  pub size : length v ≡ 64
  pub digits : All IsHexDigit v

pub record IsComponentName (v : Str) : Type 0 where
  pub nonempty : 1 ≤ length v
  pub bounded : length v ≤ 32
  pub chars : All (λ c. is_component_char c ≡ true) v

pub record IsName (v : Str) (max : ℕ) : Type 0 where
  pub nonempty : 1 ≤ length v
  pub bounded : length v ≤ max
  pub chars : All (λ c. is_control c ≡ false) v

abbrev IsAsciiHex : ℕ → Type 0
IsAsciiHex c = is_ascii_hexdigit c ≡ true

any-All {ℓ} :
    {A : Type ℓ} (p : A → Bool) (xs : List A) → any p xs ≡ false → All (λ a. p a ≡ false) xs
any-All p [] h = tt
any-All p (x ∷ xs) h = (ground arith, any-All p xs (ground arith))

All-any {ℓ} :
    {A : Type ℓ} (p : A → Bool) (xs : List A) → All (λ a. p a ≡ false) xs → any p xs ≡ false
All-any p [] h = refl
All-any p (x ∷ xs) (px, h) = ground (arith, All-any p xs)

-- Text whose bytes are all ASCII hexadecimal digits is that text itself.
hex_char :
    (c : ℕ) (s : Bytes) → all is_ascii_hexdigit (utf8_char c ++ s) ≡ true → utf8_char c ≡ c ∷ []
unfolding utf8_char
hex_char c s h = ground arith

utf8-hex : (v : Str) → all is_ascii_hexdigit (utf8 v) ≡ true → utf8 v ≡ v
unfolding utf8
utf8-hex [] h = refl
utf8-hex (c ∷ v) h = ground (arith, hex_char c (utf8 v), utf8-hex v)

HexDigit-all :
    (v : Str) → all is_ascii_hexdigit v ≡ true → any is_ascii_uppercase v ≡ false → All IsHexDigit v
HexDigit-all [] h k = tt
HexDigit-all (c ∷ v) h k = (ground arith, HexDigit-all v (ground arith) (ground arith))

all-HexDigit :
    (v : Str)
    → All IsHexDigit v
    → (all is_ascii_hexdigit v ≡ true) × (any is_ascii_uppercase v ≡ false) × IsAscii v
all-HexDigit [] h = (refl, refl, tt)
all-HexDigit (c ∷ v) (hc, h) =
    let (p, q, r) = all-HexDigit v h in (ground arith, ground arith, (ground arith, r))

-- A fingerprint is accepted exactly when it is 64 lowercase hexadecimal digits.
pub require_fingerprint_iff :
    (v : Str) (field : String) → (require_fingerprint v field ≡ ok tt) ↔ IsFingerprint v
unfolding require_fingerprint
require_fingerprint_iff v field = (to, from)
  where
    to : require_fingerprint v field ≡ ok tt → IsFingerprint v
    to h =
        let e : utf8 v ≡ v = utf8-hex v (ground arith) in
        record { size = ground arith; digits = HexDigit-all v (ground arith) (ground arith) }

    from : IsFingerprint v → require_fingerprint v field ≡ ok tt
    from f =
        let (p, q, r) = all-HexDigit v f.digits in
        let e : utf8 v ≡ v = utf8_ascii v r in ground arith

component_char-ascii : (c : ℕ) → is_component_char c ≡ true → c < 0x80
component_char-ascii c h = ground arith

not-not : (p : ℕ → Bool) (v : Str) → All (λ c. not (p c) ≡ false) v → All (λ c. p c ≡ true) v
not-not p = All-mono _ _ (λ c h. ground arith)

to_not : (p : ℕ → Bool) (v : Str) → All (λ c. p c ≡ true) v → All (λ c. not (p c) ≡ false) v
to_not p = All-mono _ _ (λ c h. ground arith)

-- A component name is accepted exactly when it has 1 to 32 characters of `[a-z0-9-]`.
pub require_component_name_iff :
    (v : Str) (field : String) → (require_component_name v field ≡ ok tt) ↔ IsComponentName v
unfolding require_component_name
require_component_name_iff v field = (to, from)
  where
    spell : All (λ c. is_component_char c ≡ true) v → utf8 v ≡ v
    spell h = utf8_ascii v (All-mono _ _ component_char-ascii v h)

    to : require_component_name v field ≡ ok tt → IsComponentName v
    to h =
        let chars : All (λ c. is_component_char c ≡ true) v =
          not-not is_component_char v (any-All (λ c. not (is_component_char c)) v (ground arith)) in
        let e : utf8 v ≡ v = spell chars in
        record { nonempty = ground arith; bounded = ground arith; chars = chars }

    from : IsComponentName v → require_component_name v field ≡ ok tt
    from f =
        let e : utf8 v ≡ v = spell f.chars in
        let none_bad : any (λ c. not (is_component_char c)) v ≡ false =
          All-any _ v (to_not is_component_char v f.chars) in
        ground arith

-- A name is accepted exactly when it is not empty, not too long and free of control characters.
pub require_name_iff :
    (v : Str) (field : String) (max : ℕ) → (require_name v field max ≡ ok tt) ↔ IsName v max
unfolding require_name
require_name_iff v field max = (to, from)
  where
    to : require_name v field max ≡ ok tt → IsName v max
    to h = record {
      nonempty = ground arith;
      bounded = ground arith;
      chars = any-All is_control v (ground arith);
    }

    from : IsName v max → require_name v field max ≡ ok tt
    from f = let none_bad : any is_control v ≡ false = All-any is_control v f.chars in ground arith

-- A line that is text and holds no line feed.
abbrev pub IsLineChar : ℕ → Type 0
IsLineChar c = (c < 0x110000) × (c ≢ b'\n')

abbrev pub IsLine : Str → Type 0
IsLine = All IsLineChar

pub fingerprint-IsLine : (v : Str) → IsFingerprint v → IsLine v
fingerprint-IsLine v f = All-mono IsHexDigit IsLineChar (λ c h. ground arith) v f.digits

pub component-IsLine : (v : Str) → IsComponentName v → IsLine v
component-IsLine v f =
    All-mono (λ c. is_component_char c ≡ true) IsLineChar (λ c h. ground arith) v f.chars

name-IsLine_from : (v : Str) → IsText v → All (λ c. is_control c ≡ false) v → IsLine v
name-IsLine_from [] t h = tt
name-IsLine_from (c ∷ v) (tc, t) (hc, h) = (ground arith, name-IsLine_from v t h)

pub name-IsLine : (v : Str) (max : ℕ) → IsText v → IsName v max → IsLine v
name-IsLine v max t f = name-IsLine_from v t f.chars
