-- ===== src/Canonical/Distinct.antt =====
-- The bytes of a signed message determine the message: no two messages share a signature.
use net_tls.Prelude.{◌≡◌, ◌≢◌, refl, ap, Option, none, some, [], All, All-mono, arith, length}
use net_tls.Prelude.Int.{ℤ}
use net_tls.Prelude.Text.{Str, Bytes, IsText}
use net_tls.Prelude.Decimal.{to_string, to_string-inj, to_string-All, IsSignOrDigit}
use net_tls.Error.{ok}
use net_tls.Canonical.{unwrap_or, dash}
use net_tls.Canonical.Fields.{IsLine, IsLineChar, fingerprint-IsLine, component-IsLine, name-IsLine}
use net_tls.Canonical.Algs.{accepted-IsLine}
use net_tls.Canonical.Lines.{assemble-inj}
use net_tls.Canonical.Messages.{
  Message, approve, rotate, rotate_ack, pairsecret, algsupport, signed_bytes, lines, IsValid,
  IsFingerprintIf, signed_bytes_iff,
}

-- The free text of a message, `approved_by`, is text; the other fields are by their rules.
abbrev pub IsWritten : Message → Type 0
IsWritten (approve p f by t) = IsText by
IsWritten m = Unit

to_string-IsLine : (t : ℤ) → IsLine (to_string t)
to_string-IsLine t = All-mono IsSignOrDigit IsLineChar (λ c h. ground arith) _ (to_string-All t)

unwrap_or-IsLine : (p : Option Str) → IsFingerprintIf p → IsLine (unwrap_or p dash)
unwrap_or-IsLine none h = omega arith
unwrap_or-IsLine (some p) h = fingerprint-IsLine p h

lines-IsLine : (m : Message) → IsValid m → IsWritten m → All IsLine (lines m)
lines-IsLine (approve p f by t) (hp, hf, hb) w = (
  omega arith,
  (
    component-IsLine p hp,
    (fingerprint-IsLine f hf, (name-IsLine by 64 w hb, (to_string-IsLine t, tt))),
  ),
)
lines-IsLine (rotate a p c n t) (ha, hp, hc, hn) w = (
  omega arith,
  (
    component-IsLine a ha,
    (
      unwrap_or-IsLine p hp,
      (fingerprint-IsLine c hc, (fingerprint-IsLine n hn, (to_string-IsLine t, tt))),
    ),
  ),
)
lines-IsLine (rotate_ack k a n t) (hk, ha, hn) w = (
  omega arith,
  (
    component-IsLine k hk,
    (component-IsLine a ha, (fingerprint-IsLine n hn, (to_string-IsLine t, tt))),
  ),
)
lines-IsLine (pairsecret a b s r t) (ha, hb, hs, hr) w = (
  omega arith,
  (
    component-IsLine a ha,
    (
      component-IsLine b hb,
      (fingerprint-IsLine s hs, (fingerprint-IsLine r hr, (to_string-IsLine t, tt))),
    ),
  ),
)
lines-IsLine (algsupport c s t) (hc, hs) w =
    (omega arith, (component-IsLine c hc, (accepted-IsLine s hs, (to_string-IsLine t, tt))))

-- A stated previous fingerprint is never read as the dash that stands for none.
unwrap_or-inj :
    (p q : Option Str)
    → IsFingerprintIf p
    → IsFingerprintIf q
    → unwrap_or p dash ≡ unwrap_or q dash
    → p ≡ q
unwrap_or-inj none none h k e = refl
unwrap_or-inj none (some q) h k e = absurd (omega (arith, ap length e, k.size))
unwrap_or-inj (some p) none h k e = absurd (omega (arith, ap length e, h.size))
unwrap_or-inj (some p) (some q) h k e = ap some e

lines-inj : (m n : Message) → IsValid m → IsValid n → lines m ≡ lines n → m ≡ n
lines-inj (approve p f b t) (approve q g c u) h k e = ground (arith, to_string-inj t u)
lines-inj (rotate a p c n t) (rotate a' p' c' n' t') h k e =
    ground (arith, to_string-inj t t', unwrap_or-inj p p' h.1 k.1)
lines-inj (rotate_ack x a n t) (rotate_ack x' a' n' t') h k e = ground (arith, to_string-inj t t')
lines-inj (pairsecret a b s r t) (pairsecret a' b' s' r' t') h k e =
    ground (arith, to_string-inj t t')
lines-inj (algsupport c s t) (algsupport c' s' t') h k e = ground (arith, to_string-inj t t')
lines-inj _ _ h k e = cc

lines-ne-nil : (m : Message) → lines m ≢ []
lines-ne-nil (approve p f b t) = λ e. cc
lines-ne-nil (rotate a p c n t) = λ e. cc
lines-ne-nil (rotate_ack k a n t) = λ e. cc
lines-ne-nil (pairsecret a b s r t) = λ e. cc
lines-ne-nil (algsupport c s t) = λ e. cc

-- Two messages of any of the five kinds that are turned into the same bytes are the same message:
-- same kind, same value in every field. (The operator's name in an approval is text.)
pub signed_bytes-inj :
    (m n : Message) (b : Bytes)
    → IsWritten m
    → IsWritten n
    → signed_bytes m ≡ ok b
    → signed_bytes n ≡ ok b
    → m ≡ n
signed_bytes-inj m n b w v h k =
    let (hm, em) = (signed_bytes_iff m b).0 h in
    let (hn, en) = (signed_bytes_iff n b).0 k in
    let e : lines m ≡ lines n =
      assemble-inj (lines m) (lines n) (lines-IsLine m hm w) (lines-IsLine n hn v) (lines-ne-nil m)
        (lines-ne-nil n) (cc) in
    lines-inj m n hm hn e
