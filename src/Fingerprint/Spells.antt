-- ===== src/Fingerprint/Spells.antt =====
-- How a fingerprint may be spelt: its prefix, its separators and its digits.
use net_tls.Prelude.{
  ℕ, zero, suc, ◌+◌, ◌*◌, ◌/◌, ◌%◌, ◌<◌, ◌≤◌, ◌≡◌, ◌≢◌, ◌↔◌, ◌⊎◌, inl, inr, refl, sym, ap, subst,
  true, false, Option, none, some, List, [], ◌∷◌, ◌++◌, ◌==◌, ==_iff, arith, length, All,
  Bool-cases,
}
use net_tls.Prelude.Text.{Str, Bytes, IsBytes, codes}
use net_tls.Error.{Result, ok, ok-inj, >>=-eq-ok}
use net_tls.Fingerprint.{
  strip_prefix, or_else, or_text, body_of, is_separator, to_digit, push, nibbles_of, pairs,
}

-- The character of a hexadecimal digit, in either case: `0` to `9` are 48 to 57, `A` to `F` 65 to 70,
-- `a` to `f` 97 to 102.
abbrev pub IsDigitOf : ℕ → ℕ → Type 0
IsDigitOf c d = ((d < 10) × (c ≡ 48 + d)) ⊎ ((10 ≤ d) × (d < 16) × ((c ≡ 55 + d) ⊎ (c ≡ 87 + d)))

-- A colon, a blank, a dash, the end of a line or a tab.
abbrev pub IsSeparator : ℕ → Type 0
IsSeparator c = (c ≡ 58) ⊎ (c ≡ 32) ⊎ (c ≡ 45) ⊎ (c ≡ 10) ⊎ (c ≡ 13) ⊎ (c ≡ 9)

-- The digits of a text, as numbers, the separators left out; nothing else may stand in it.
pub data Spells : Str → List ℕ → Type 0 where
  ends : Spells [] []
  skips : {s : Str} {ns : List ℕ} (c : ℕ) → IsSeparator c → Spells s ns → Spells (c ∷ s) ns
  reads : {s : Str} {ns : List ℕ} (c d : ℕ) → IsDigitOf c d → Spells s ns → Spells (c ∷ s) (d ∷ ns)

-- A text behind one of the three prefixes, or a text that begins with none of them.
abbrev pub IsBehind : Str → Str → Type 0
IsBehind body s =
    (s ≡ codes "sha256:" ++ body)
    ⊎ (s ≡ codes "SHA256:" ++ body)
    ⊎ (s ≡ codes "sha256-" ++ body)
    ⊎ ((s ≡ body)
        × ((t : Str) → s ≢ codes "sha256:" ++ t)
        × ((t : Str) → s ≢ codes "SHA256:" ++ t)
        × ((t : Str) → s ≢ codes "sha256-" ++ t))

-- The two digits of each byte, the high one first.
abbrev pub digits_of : Bytes → List ℕ
digits_of [] = []
digits_of (b ∷ bs) = b / 16 ∷ b % 16 ∷ digits_of bs

is_separator_iff : (c : ℕ) → (is_separator c ≡ true) ↔ IsSeparator c
is_separator_iff c = ground arith

to_digit_iff : (c d : ℕ) → (to_digit c ≡ some d) ↔ IsDigitOf c d
to_digit_iff c d = ground arith

strip_prefix-some : (p s t : Str) → strip_prefix p s ≡ some t → s ≡ p ++ t
unfolding strip_prefix
strip_prefix-some [] s t h = ground arith
strip_prefix-some (p ∷ ps) [] t h = cc
strip_prefix-some (p ∷ ps) (c ∷ s) t h = elim (Bool-cases (p == c)) [
  | inl e ↦
      let same_head : p ≡ c = (==_iff p c).0 e in
      let rest : s ≡ ps ++ t = strip_prefix-some ps s t (rw (strip_prefix, e) at h) in
      rw (same_head, rest) refl
  | inr e ↦ absurd (ground (arith, e, h))
]

strip_prefix-append : (p t : Str) → strip_prefix p (p ++ t) ≡ some t
unfolding strip_prefix
strip_prefix-append [] t = refl
strip_prefix-append (p ∷ ps) t =
    let e : (p == p) ≡ true = (==_iff p p).1 refl in rw (strip_prefix, e) (strip_prefix-append ps t)

-- A text that does not begin with a prefix.
no_prefix : (p s : Str) → strip_prefix p s ≡ none → (t : Str) → s ≢ p ++ t
no_prefix p s h t e = ground (arith, h, ap (strip_prefix p) e, strip_prefix-append p t)

no_prefix-none : (p s : Str) → ((t : Str) → s ≢ p ++ t) → strip_prefix p s ≡ none
no_prefix-none p s h = split (strip_prefix p s) refl
  where
    split : (o : Option Str) → strip_prefix p s ≡ o → strip_prefix p s ≡ none
    split none e = e
    split (some t) e = absurd (h t (strip_prefix-some p s t e))

pub body_of-IsBehind : (s : Str) → IsBehind (body_of s) s
unfolding body_of
body_of-IsBehind s =
    split (strip_prefix (codes "sha256:") s) (strip_prefix (codes "SHA256:") s)
      (strip_prefix (codes "sha256-") s) refl refl refl
  where
    split :
        (a b c : Option Str)
        → strip_prefix (codes "sha256:") s ≡ a
        → strip_prefix (codes "SHA256:") s ≡ b
        → strip_prefix (codes "sha256-") s ≡ c
        → IsBehind (or_text (or_else (or_else a b) c) s) s
    split (some t) b c p q r = inl (strip_prefix-some (codes "sha256:") s t p)
    split none (some t) c p q r = inr (inl (strip_prefix-some (codes "SHA256:") s t q))
    split none none (some t) p q r = inr (inr (inl (strip_prefix-some (codes "sha256-") s t r)))
    split none none none p q r = inr (
        inr (
          inr (
            refl,
            no_prefix (codes "sha256:") s p,
            no_prefix (codes "SHA256:") s q,
            no_prefix (codes "sha256-") s r,
          )))

pub IsBehind-body_of : (body s : Str) → IsBehind body s → body_of s ≡ body
unfolding body_of strip_prefix
IsBehind-body_of body s (inl e) = rw e refl
IsBehind-body_of body s (inr (inl e)) = rw e refl
IsBehind-body_of body s (inr (inr (inl e))) = rw e refl
IsBehind-body_of body s (inr (inr (inr (e, a, b, c)))) =
    rw
      (
        no_prefix-none (codes "sha256:") s a,
        no_prefix-none (codes "SHA256:") s b,
        no_prefix-none (codes "sha256-") s c,
      )
      e

push-inv :
    (o : Option ℕ) (r : Result (List ℕ)) (ns : List ℕ)
    → push o r ≡ ok ns
    → (d : ℕ) × (ds : List ℕ) × (o ≡ some d) × (r ≡ ok ds) × (ns ≡ d ∷ ds)
push-inv none r ns h = cc
push-inv (some d) r ns h = let (ds, e, k) = >>=-eq-ok r _ h in (d, ds, refl, e, sym (ok-inj k))

pub nibbles_of-Spells : (s : Str) (ns : List ℕ) → nibbles_of s ≡ ok ns → Spells s ns
unfolding nibbles_of
nibbles_of-Spells [] ns h = subst (Spells []) (ok-inj h) ends
nibbles_of-Spells (c ∷ s) ns h = elim (Bool-cases (is_separator c)) [
  | inl e ↦ skips c ((is_separator_iff c).0 e) (nibbles_of-Spells s ns (ground arith))
  | inr e ↦
      let (d, ds, p, q, r) = push-inv (to_digit c) (nibbles_of s) ns (ground arith) in
      subst (Spells (c ∷ s)) (sym r) (reads c d ((to_digit_iff c d).0 p) (nibbles_of-Spells s ds q))
]

digit-apart : (c d : ℕ) → IsDigitOf c d → is_separator c ≡ false
digit-apart c d h = ground (arith, h)

pub Spells-nibbles_of : {s : Str} {ns : List ℕ} → Spells s ns → nibbles_of s ≡ ok ns
unfolding nibbles_of
Spells-nibbles_of ends = refl
Spells-nibbles_of (skips c e h) = rw (nibbles_of, (is_separator_iff c).1 e) (Spells-nibbles_of h)
Spells-nibbles_of (reads c d p h) =
    rw (nibbles_of, digit-apart c d p, (to_digit_iff c d).1 p, Spells-nibbles_of h) refl

digit-bound : (c d : ℕ) → IsDigitOf c d → d < 16
digit-bound c d h = ground (arith, h)

pub Spells-bound : {s : Str} {ns : List ℕ} → Spells s ns → All (λ d. d < 16) ns
Spells-bound ends = tt
Spells-bound (skips c e h) = Spells-bound h
Spells-bound (reads c d p h) = (digit-bound c d p, Spells-bound h)

-- The bytes of an even number of digits, and the digits of bytes.
pub pairs-Bytes :
    (ns : List ℕ) (k : ℕ)
    → length ns ≡ 2 * k
    → All (λ d. d < 16) ns
    → (digits_of (pairs ns) ≡ ns) × (length (pairs ns) ≡ k) × IsBytes (pairs ns)
unfolding pairs
pairs-Bytes [] k h a = (refl, omega arith, tt)
pairs-Bytes (x ∷ []) k h a = absurd (omega arith)
pairs-Bytes (x ∷ y ∷ ns) zero h a = absurd (omega arith)
pairs-Bytes (x ∷ y ∷ ns) (suc k) h (p, (q, a)) =
    let (digits, size, bytes) = pairs-Bytes ns k (omega arith) a in
    let high : (x * 16 + y) / 16 ≡ x = omega arith in
    let low : (x * 16 + y) % 16 ≡ y = omega arith in
    (rw (high, low, digits) refl, omega arith, (omega arith, bytes))

pub pairs-digits_of : (b : Bytes) → pairs (digits_of b) ≡ b
unfolding pairs
pairs-digits_of [] = refl
pairs-digits_of (b ∷ bs) =
    let byte : b / 16 * 16 + b % 16 ≡ b = omega arith in rw (byte, pairs-digits_of bs) refl

pub length-digits_of : (b : Bytes) → length (digits_of b) ≡ 2 * length b
length-digits_of [] = refl
length-digits_of (b ∷ bs) = omega (arith, length-digits_of bs)
