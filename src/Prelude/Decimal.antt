-- ===== src/Prelude/Decimal.antt =====
-- `i64::to_string`: decimal digits behind an optional minus sign.
use Prim.Native.Nat.{ℕ, zero, suc, ◌+◌, ◌-◌, ◌*◌, ◌/◌, ◌%◌, ◌<◌, ◌≤◌}
use mathlib.Core.Path.{◌≡◌, refl, ap, ◌∙◌, sym}
use mathlib.Core.List.{[], ◌∷◌}
use mathlib.Core.Logic.{dite, ◌≢◌}
use mathlib.Core.WellFounded.{Acc, WellFounded}
use native.Mathlib.Decide.{dec_lt}
use native.Mathlib.Omega.{arith}
use net_tls.Prelude.Tests.{◌==◌, if◌then◌else◌}
use net_tls.Prelude.Lists.{All, All-mono}
use net_tls.Prelude.Int.{ℤ, pos, negsuc}
use net_tls.Prelude.Text.{Str, codes}

lt_acc : (k n : ℕ) → n < k → Acc ◌<◌ n
lt_acc zero n h = absurd (omega arith)
lt_acc (suc k) n h = Acc.intro n λ m lt. lt_acc k m (omega arith)

lt_wf : WellFounded ◌<◌
unfolding lt_acc
lt_wf = record { apply = λ n. lt_acc (suc n) n (omega arith) }

abbrev tenth-lt : {n : ℕ} → 0 < n → n / 10 < n
tenth-lt h = omega arith

-- The digits of `n` in front of `out`.
emit : (n : ℕ) → Acc ◌<◌ n → Str → Str
emit n (Acc.intro _ smaller) out =
    dite (dec_lt 0 n) (λ h. emit (n / 10) (smaller (n / 10) (tenth-lt h)) ((b'0' + n % 10) ∷ out))
      (λ _. out)

decimal : ℕ → Str
unfolding emit lt_wf dec_lt
decimal n = if n == 0 then b'0' ∷ [] else emit n (lt_wf.apply n) []

unfoldable pub to_string : ℤ → Str
unfolding decimal
to_string (pos n) = decimal n
to_string (negsuc n) = b'-' ∷ decimal (suc n)

-- The number that digits spell behind a number already read.
value : ℕ → Str → ℕ
value n [] = n
value n (c ∷ s) = value (n * 10 + (c - b'0')) s

digit_step : (n : ℕ) → n / 10 * 10 + (b'0' + n % 10 - b'0') ≡ n
digit_step n = omega arith

value_zero : (n : ℕ) (out : Str) → n ≡ 0 → value 0 out ≡ value n out
value_zero n out e = ap (λ k. value k out) (sym e)

value-emit : (n : ℕ) (w : Acc ◌<◌ n) (out : Str) → value 0 (emit n w out) ≡ value n out
unfolding emit value
value-emit n (Acc.intro _ smaller) out = grind (
  arith,
  λ (p : n / 10 < n).
      value-emit (n / 10) (smaller (n / 10) p) ((b'0' + n % 10) ∷ out)
      ∙ ap (λ k. value k out) (digit_step n),
  value_zero n out,
)

abbrev pub IsDigit : ℕ → Type 0
IsDigit c = (b'0' ≤ c) × (c ≤ b'9')

emit-digits : (n : ℕ) (w : Acc ◌<◌ n) (out : Str) → All IsDigit out → All IsDigit (emit n w out)
unfolding emit
emit-digits n (Acc.intro _ smaller) out h =
    grind
      (arith, λ (p : n / 10 < n). emit-digits (n / 10) (smaller (n / 10) p) ((b'0' + n % 10) ∷ out))

-- The digits of a number, read back, give the number.
value-decimal : (n : ℕ) → value 0 (decimal n) ≡ n
unfolding decimal value
value-decimal n = ground (arith, value-emit n (lt_wf.apply n) [])

decimal-digits : (n : ℕ) → All IsDigit (decimal n)
unfolding decimal
decimal-digits n = ground (arith, emit-digits n (lt_wf.apply n) [])

decimal-inj : (m n : ℕ) → decimal m ≡ decimal n → m ≡ n
decimal-inj m n e = sym (value-decimal m) ∙ ap (value 0) e ∙ value-decimal n

minus-not-decimal : (m n : ℕ) → decimal m ≢ b'-' ∷ decimal n
minus-not-decimal m n e = absurd (first (decimal m) (decimal n) (decimal-digits m) e)
  where
    first : (s t : Str) → All IsDigit s → s ≡ b'-' ∷ t → ⊥
    first [] t h e = cc
    first (c ∷ s) t h e = ground arith

-- Two integers are written alike only if they are one.
pub to_string-inj : (a b : ℤ) → to_string a ≡ to_string b → a ≡ b
unfolding to_string
to_string-inj (pos m) (pos n) e = ap pos (decimal-inj m n e)
to_string-inj (pos m) (negsuc n) e = absurd (minus-not-decimal m (suc n) e)
to_string-inj (negsuc m) (pos n) e = absurd (minus-not-decimal n (suc m) (sym e))
to_string-inj (negsuc m) (negsuc n) e = ground (arith, decimal-inj (suc m) (suc n))

abbrev pub IsSignOrDigit : ℕ → Type 0
IsSignOrDigit c = (b'-' ≤ c) × (c ≤ b'9')

-- The text of an integer holds digits and a sign, so no line feed.
pub to_string-All : (a : ℤ) → All IsSignOrDigit (to_string a)
unfolding to_string
to_string-All (pos n) =
    All-mono IsDigit IsSignOrDigit (λ c h. omega arith) (decimal n) (decimal-digits n)
to_string-All (negsuc n) = (
  omega arith,
  All-mono IsDigit IsSignOrDigit (λ c h. omega arith) (decimal (suc n)) (decimal-digits (suc n)),
)

minus : to_string (negsuc 1233) ≡ codes "-1234"
unfolding to_string
minus = refl
