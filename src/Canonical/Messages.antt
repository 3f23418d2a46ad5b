-- ===== src/Canonical/Messages.antt =====
-- The five signed messages together: what each accepts, and that the bytes determine the message.
use net_tls.Prelude.{String, ◌≡◌, ◌↔◌, refl, Option, none, some, List, [], ◌∷◌, arith}
use net_tls.Prelude.Int.{ℤ}
use net_tls.Prelude.Text.{Str, Bytes}
use net_tls.Prelude.Decimal.{to_string}
use net_tls.Error.{Result, ok}
use net_tls.Canonical.{
  approve_v1_tag, rotate_v2_tag, rotate_ack_v2_tag, pairsecret_v1_tag, algsupport_v1_tag,
  approve_v1, rotate_v2, rotate_ack_v2, pairsecret_v1, algsupport_v1, assemble, unwrap_or, dash,
  require_fingerprint_if,
}
use net_tls.Canonical.Fields.{
  IsFingerprint, IsComponentName, IsName, require_fingerprint_iff, require_component_name_iff,
  require_name_iff,
}
use net_tls.Canonical.Algs.{IsAccepted}

-- A message that one of the five functions of canonical.rs turns into bytes.
pub data Message : Type 0 where
  approve : Str → Str → Str → ℤ → Message
  rotate : Str → Option Str → Str → Str → ℤ → Message
  rotate_ack : Str → Str → Str → ℤ → Message
  pairsecret : Str → Str → Str → Str → ℤ → Message
  algsupport : Str → Str → ℤ → Message

abbrev pub signed_bytes : Message → Result Bytes
signed_bytes (approve p f b t) = approve_v1 p f b t
signed_bytes (rotate a p c n t) = rotate_v2 a p c n t
signed_bytes (rotate_ack k a n t) = rotate_ack_v2 k a n t
signed_bytes (pairsecret a b s r t) = pairsecret_v1 a b s r t
signed_bytes (algsupport c s t) = algsupport_v1 c s t

abbrev pub lines : Message → List Str
lines (approve p f b t) = approve_v1_tag ∷ p ∷ f ∷ b ∷ to_string t ∷ []
lines (rotate a p c n t) = rotate_v2_tag ∷ a ∷ unwrap_or p dash ∷ c ∷ n ∷ to_string t ∷ []
lines (rotate_ack k a n t) = rotate_ack_v2_tag ∷ k ∷ a ∷ n ∷ to_string t ∷ []
lines (pairsecret a b s r t) = pairsecret_v1_tag ∷ a ∷ b ∷ s ∷ r ∷ to_string t ∷ []
lines (algsupport c s t) = algsupport_v1_tag ∷ c ∷ s ∷ to_string t ∷ []

abbrev pub IsFingerprintIf : Option Str → Type 0
IsFingerprintIf none = Unit
IsFingerprintIf (some p) = IsFingerprint p

-- The field rules of each message.
abbrev pub IsValid : Message → Type 0
IsValid (approve p f b t) = IsComponentName p × IsFingerprint f × IsName b 64
IsValid (rotate a p c n t) =
    IsComponentName a × IsFingerprintIf p × IsFingerprint c × IsFingerprint n
IsValid (rotate_ack k a n t) = IsComponentName k × IsComponentName a × IsFingerprint n
IsValid (pairsecret a b s r t) =
    IsComponentName a × IsComponentName b × IsFingerprint s × IsFingerprint r
IsValid (algsupport c s t) = IsComponentName c × IsAccepted s

pub require_fingerprint_if_iff :
    (p : Option Str) (f : String) → (require_fingerprint_if p f ≡ ok tt) ↔ IsFingerprintIf p
unfolding require_fingerprint_if
require_fingerprint_if_iff none f = (λ h. tt, λ h. refl)
require_fingerprint_if_iff (some p) f = require_fingerprint_iff p f

-- With valid fields the bytes are made, and they are the lines.
pub signed_bytes_valid : (m : Message) → IsValid m → signed_bytes m ≡ ok (assemble (lines m))
unfolding approve_v1 rotate_v2 rotate_ack_v2 pairsecret_v1 algsupport_v1
signed_bytes_valid (approve p f b t) (hp, hf, hb) = rw (
  (require_component_name_iff p _).1 hp,
  (require_fingerprint_iff f _).1 hf,
  (require_name_iff b _ _).1 hb,
)
signed_bytes_valid (rotate a p c n t) (ha, hp, hc, hn) = rw (
  (require_component_name_iff a _).1 ha,
  (require_fingerprint_if_iff p _).1 hp,
  (require_fingerprint_iff c _).1 hc,
  (require_fingerprint_iff n _).1 hn,
)
signed_bytes_valid (rotate_ack k a n t) (hk, ha, hn) = rw (
  (require_component_name_iff k _).1 hk,
  (require_component_name_iff a _).1 ha,
  (require_fingerprint_iff n _).1 hn,
)
signed_bytes_valid (pairsecret a b s r t) (ha, hb, hs, hr) = rw (
  (require_component_name_iff a _).1 ha,
  (require_component_name_iff b _).1 hb,
  (require_fingerprint_iff s _).1 hs,
  (require_fingerprint_iff r _).1 hr,
)
signed_bytes_valid (algsupport c s t) (hc, hs) =
    rw ((require_component_name_iff c _).1 hc, hs.0, hs.1)

-- Bytes are made only from valid fields.
pub signed_bytes-IsValid : (m : Message) {b : Bytes} → signed_bytes m ≡ ok b → IsValid m
unfolding approve_v1 rotate_v2 rotate_ack_v2 pairsecret_v1 algsupport_v1
signed_bytes-IsValid (approve p f by t) h = (
  (require_component_name_iff p "peer").0 (ground arith),
  (require_fingerprint_iff f "fingerprint").0 (ground arith),
  (require_name_iff by "approved_by" 64).0 (ground arith),
)
signed_bytes-IsValid (rotate a p c n t) h = (
  (require_component_name_iff a "announcer").0 (ground arith),
  (require_fingerprint_if_iff p "prev_fp").0 (ground arith),
  (require_fingerprint_iff c "curr_fp").0 (ground arith),
  (require_fingerprint_iff n "new_fp").0 (ground arith),
)
signed_bytes-IsValid (rotate_ack k a n t) h = (
  (require_component_name_iff k "acker").0 (ground arith),
  (require_component_name_iff a "announcer").0 (ground arith),
  (require_fingerprint_iff n "new_fp").0 (ground arith),
)
signed_bytes-IsValid (pairsecret a b s r t) h = (
  (require_component_name_iff a "a").0 (ground arith),
  (require_component_name_iff b "b").0 (ground arith),
  (require_fingerprint_iff s "sealed_a_sha256").0 (ground arith),
  (require_fingerprint_iff r "sealed_b_sha256").0 (ground arith),
)
signed_bytes-IsValid (algsupport c s t) h =
    ((require_component_name_iff c "component").0 (ground arith), (ground arith, ground arith))

-- The bytes of a message are made exactly when its fields keep the rules, and they are then its
-- lines: the version tag first, every field on a line of its own, joined by LF.
pub signed_bytes_iff :
    (m : Message) (b : Bytes) → (signed_bytes m ≡ ok b) ↔ (IsValid m × (b ≡ assemble (lines m)))
signed_bytes_iff m b = (to, from)
  where
    to : signed_bytes m ≡ ok b → IsValid m × (b ≡ assemble (lines m))
    to h = (signed_bytes-IsValid m h, cc (signed_bytes_valid m (signed_bytes-IsValid m h)))

    from : IsValid m × (b ≡ assemble (lines m)) → signed_bytes m ≡ ok b
    from (v, e) = rw e (signed_bytes_valid m v)
