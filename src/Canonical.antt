-- ===== src/Canonical.antt =====
-- canonical.rs: the field rules and the byte strings that are signed.
pub mod Fields
pub mod Lines
pub mod Algs
pub mod Messages
pub mod Distinct
use Prim.Native.String.{◌++◌ as ◌+++◌}
use mathlib.Core.Option
use net_tls.Prelude.{
  ℕ, ◌+◌, ◌<◌, ◌≤◌, ◌≡◌, refl, Bool, true, false, not, ◌&&◌, ◌||◌, Option, none, some, List, [],
  ◌∷◌, ◌++◌, suc, leb, ltb, ◌==◌, if◌then◌else◌, length, is_empty, any, all, String,
}
use net_tls.Prelude.Int.{ℤ}
use net_tls.Prelude.Text.{Str, Bytes, codes, same, utf8, join}
use net_tls.Prelude.Decimal.{to_string}
use net_tls.Error.{Result, ok, err, params, ◌>>=◌, ◌>>◌, refuse}

abbrev pub approve_v1_tag : Str
approve_v1_tag = codes "nettls-approve/v1"

abbrev pub rotate_v2_tag : Str
rotate_v2_tag = codes "nettls-rotate/v2"

abbrev pub rotate_ack_v2_tag : Str
rotate_ack_v2_tag = codes "nettls-rotate-ack/v2"

abbrev pub pairsecret_v1_tag : Str
pairsecret_v1_tag = codes "nettls-pairsecret/v1"

abbrev pub algsupport_v1_tag : Str
algsupport_v1_tag = codes "nettls-algsupport/v1"

abbrev pub is_ascii_uppercase : ℕ → Bool
is_ascii_uppercase c = leb b'A' c && leb c b'Z'

abbrev pub is_ascii_lowercase : ℕ → Bool
is_ascii_lowercase c = leb b'a' c && leb c b'z'

abbrev pub is_ascii_digit : ℕ → Bool
is_ascii_digit c = leb b'0' c && leb c b'9'

abbrev pub is_ascii_hexdigit : ℕ → Bool
is_ascii_hexdigit c = is_ascii_digit c || (leb b'a' c && leb c b'f') || (leb b'A' c && leb c b'F')

-- The control characters of Unicode.
abbrev pub is_control : ℕ → Bool
is_control c = ltb c 0x20 || (leb 0x7f c && leb c 0x9f)

-- `[a-z0-9-]`
abbrev pub is_component_char : ℕ → Bool
is_component_char c = is_ascii_lowercase c || is_ascii_digit c || c == b'-'

unfoldable pub require_fingerprint : Str → String → Result (Unit {0})
require_fingerprint v field = do
  refuse (not (length (utf8 v) == 64) || not (all is_ascii_hexdigit (utf8 v)))
      (params (field +++ ": expected 64 hex characters"))
  refuse (any is_ascii_uppercase (utf8 v))
      (params (field +++ ": fingerprints are written in lowercase"))

unfoldable pub require_component_name : Str → String → Result (Unit {0})
require_component_name v field = do
  refuse (is_empty v) (params (field +++ ": cannot be empty"))
  refuse (ltb 32 (length (utf8 v))) (params (field +++ ": too long"))
  refuse (any (λ c. not (is_component_char c)) v) (params (field +++ ": outside [a-z0-9-]"))

unfoldable pub require_name : Str → String → ℕ → Result (Unit {0})
require_name v field max = do
  refuse (is_empty v) (params (field +++ ": cannot be empty"))
  refuse (ltb max (length v)) (params (field +++ ": too long"))
  refuse (any is_control v) (params (field +++ ": contains a control character"))

abbrev pub lf : Str
lf = b'\n' ∷ []

-- LF between the lines, none behind the last.
unfoldable pub assemble : List Str → Bytes
assemble lines = utf8 (join lf lines)

unfoldable pub approve_v1 : Str → Str → Str → ℤ → Result Bytes
approve_v1 peer fingerprint approved_by timestamp = do
  require_component_name peer "peer"
  require_fingerprint fingerprint "fingerprint"
  require_name approved_by "approved_by" 64
  ok (assemble (approve_v1_tag ∷ peer ∷ fingerprint ∷ approved_by ∷ to_string timestamp ∷ []))

-- `if let Some(v) = v { require_fingerprint(v, field)?; }`
unfoldable pub require_fingerprint_if : Option Str → String → Result (Unit {0})
require_fingerprint_if none field = ok tt
require_fingerprint_if (some v) field = require_fingerprint v field

abbrev pub dash : Str
dash = b'-' ∷ []

abbrev pub unwrap_or : Option Str → Str → Str
unwrap_or none d = d
unwrap_or (some v) d = v

unfoldable pub rotate_v2 : Str → Option Str → Str → Str → ℤ → Result Bytes
rotate_v2 announcer prev_fp curr_fp new_fp sent_at = do
  require_component_name announcer "announcer"
  require_fingerprint_if prev_fp "prev_fp"
  require_fingerprint curr_fp "curr_fp"
  require_fingerprint new_fp "new_fp"
  ok (
      assemble (
        rotate_v2_tag
        ∷ announcer
        ∷ unwrap_or prev_fp dash
        ∷ curr_fp
        ∷ new_fp
        ∷ to_string sent_at
        ∷ []))

unfoldable pub rotate_ack_v2 : Str → Str → Str → ℤ → Result Bytes
rotate_ack_v2 acker announcer new_fp sent_at = do
  require_component_name acker "acker"
  require_component_name announcer "announcer"
  require_fingerprint new_fp "new_fp"
  ok (assemble (rotate_ack_v2_tag ∷ acker ∷ announcer ∷ new_fp ∷ to_string sent_at ∷ []))

unfoldable pub pairsecret_v1 : Str → Str → Str → Str → ℤ → Result Bytes
pairsecret_v1 a b sealed_a_sha256 sealed_b_sha256 sent_at = do
  require_component_name a "a"
  require_component_name b "b"
  require_fingerprint sealed_a_sha256 "sealed_a_sha256"
  require_fingerprint sealed_b_sha256 "sealed_b_sha256"
  ok (
      assemble
        (pairsecret_v1_tag ∷ a ∷ b ∷ sealed_a_sha256 ∷ sealed_b_sha256 ∷ to_string sent_at ∷ []))

-- `algs.split(',')`: the last argument is the part read so far.
unfoldable pub split : ℕ → Str → Str → List Str
split sep [] cur = cur ∷ []
split sep (c ∷ s) cur = elim (c == sep) [
  | true ↦ cur ∷ split sep s []
  | false ↦ split sep s (cur ++ c ∷ [])
]

-- `order.iter().position(|t| *t == token)`
unfoldable pub position : Str → List Str → Option ℕ
position token [] = none
position token (t ∷ ts) = if same t token then some 0 else Option.map suc (position token ts)

abbrev pub alg_order : List Str
alg_order = codes "aegis256" ∷ codes "xchacha20" ∷ codes "aes256gcm" ∷ []

-- Is the position not behind the one before it?
abbrev pub out_of_order : Option ℕ → ℕ → Bool
out_of_order none pos = false
out_of_order (some prev) pos = leb pos prev

-- The loop over the tokens, from the position of the last one.
unfoldable pub check_tokens : Option ℕ → List Str → Result (Unit {0})
unfolding position
check_tokens last_pos [] = ok tt
check_tokens last_pos (token ∷ tokens) = elim (position token alg_order) [
  | none ↦ err (params "algs: unknown token")
  | some pos ↦ do
    refuse (out_of_order last_pos pos) (params "algs: token out of canonical order")
    check_tokens (some pos) tokens
]

unfoldable pub algsupport_v1 : Str → Str → ℤ → Result Bytes
algsupport_v1 component algs timestamp = do
  require_component_name component "component"
  refuse (is_empty algs) (params "algs: cannot be empty")
  check_tokens none (split b',' algs [])
  ok (assemble (algsupport_v1_tag ∷ component ∷ algs ∷ to_string timestamp ∷ []))
