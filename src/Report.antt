-- ===== src/Report.antt =====
-- status.rs: the report of a service on its certificates and peers, and its traffic light.
pub mod Light
pub mod Signals
use Prim.Native.String.{String}
use net_tls.Prelude.{
  ℕ, zero, suc, ◌/◌, ◌-◌, ◌≡◌, refl, Bool, true, false, not, ◌&&◌, ◌||◌, Option, none, some, List,
  [], ◌∷◌, ◌++◌, if◌then◌else◌, is_empty, any,
}
use mathlib.Core.Option
use net_tls.Prelude.Int.{ℤ, pos, negsuc, leb_ℤ, ltb_ℤ, ◌-ℤ◌}
use net_tls.Prelude.Text.{Str, Bytes, codes, join}
use net_tls.Prelude.Decimal.{to_string}
use net_tls.Material.{
  TlsMaterial, CertOrigin, files, pem_bytes, generated, reused, reused_expired, ephemeral,
}
use net_tls.Generations.{Generation, Generations}
use net_tls.Modes.{mode1_should_warn}
use net_tls.Schedule.Retry.{Status}

pub data Level : Type 0 where
  fine warn alert : Level

pub data PeerState : Type 0 where
  quiet rotation_pending broken : PeerState

pub record PeerReport : Type 0 where
  pub name : Str
  pub state : PeerState
  pub current_fingerprint : Str
  pub next_fingerprint : Option Str

abbrev pub state_from : Option Generation → PeerState
state_from none = quiet
state_from (some n) = rotation_pending

unfoldable pub from_generations : Str → Generations → PeerReport
from_generations name g = record {
  name = name;
  state = state_from g.next;
  current_fingerprint = g.current.fp;
  next_fingerprint = Option.map (λ (n : Generation). n.fp) g.next;
}

unfoldable pub broken_peer : Str → Str → PeerReport
broken_peer name last_known = record {
  name = name;
  state = broken;
  current_fingerprint = last_known;
  next_fingerprint = none;
}

pub record IdentityReport : Type 0 where
  pub fingerprint_sha256 : Str
  pub origin : Str
  pub not_after : Option ℤ
  pub days_until_expiry : ℤ
  pub expiry_warning : Bool

pub record RotationReport : Type 0 where
  pub waiting_for : List Str
  pub alarm : Bool
  pub seconds_until_stop : ℤ

pub record Report : Type 0 where
  pub version : Str
  pub level : Level
  pub headline : Str
  pub identity : IdentityReport
  pub rotation : Option RotationReport
  pub peers : List PeerReport

pub record Summary : Type 0 where
  pub version : Str
  pub level : Level
  pub headline : Str

-- `a / 86_400`, which is cut towards zero.
abbrev pub negated : ℕ → ℤ
negated zero = pos 0
negated (suc n) = negsuc n

unfoldable pub whole_days : ℤ → ℤ
whole_days (pos n) = pos (n / 86400)
whole_days (negsuc n) = negated (suc n / 86400)

-- `days_until_expiry`, at the moment that the system's clock shows.
unfoldable pub days_until_expiry : TlsMaterial → ℤ → ℤ
unfolding whole_days
days_until_expiry m clock = whole_days (m.not_after -ℤ clock)

-- `format!("{:?}", origin)`
abbrev pub origin_text : CertOrigin → Str
origin_text files = codes "Files"
origin_text pem_bytes = codes "Pem"
origin_text generated = codes "Generated"
origin_text reused = codes "Reused"
origin_text reused_expired = codes "ReusedExpired"
origin_text ephemeral = codes "Ephemeral"

abbrev pub is_broken : PeerState → Bool
is_broken broken = true
is_broken _ = false

abbrev pub is_pending : PeerState → Bool
is_pending rotation_pending = true
is_pending _ = false

-- `peers.iter().filter(…).map(name)`
unfoldable pub names_in : (PeerState → Bool) → List PeerReport → List Str
names_in test [] = []
names_in test (p ∷ ps) = let rest = names_in test ps in if test p.state then p.name ∷ rest else rest

abbrev pub rotation_from : Option Status → Option RotationReport
rotation_from none = none
rotation_from (some s) = some (record {
  waiting_for = s.waiting_for;
  alarm = s.alarm;
  seconds_until_stop = s.seconds_until_stop;
})

abbrev pub alarm_of : Option RotationReport → Bool
alarm_of none = false
alarm_of (some r) = r.alarm

abbrev pub stopping_of : Option RotationReport → Bool
stopping_of none = false
stopping_of (some r) = leb_ℤ r.seconds_until_stop (pos 0)

abbrev pub waiting_of : Option RotationReport → List Str
waiting_of none = []
waiting_of (some r) = r.waiting_for

-- The light and its text.
unfoldable pub light_of : List PeerReport → ℤ → Option RotationReport → Bool → Level × Str
unfolding names_in
light_of peers days rotation expiry_warning =
    if not (is_empty (names_in is_broken peers))
    then (
      alert,
      codes "trust chain broken to "
          ++ (join (codes ", ") (names_in is_broken peers) ++ codes " — operator action required"),
    )
    else if ltb_ℤ days (pos 0) || stopping_of rotation
    then (alert, codes "certificate expired — communication stops")
    else if alarm_of rotation
    then (
      alert,
      codes "rotation alarm: still waiting for " ++ join (codes ", ") (waiting_of rotation),
    )
    else if expiry_warning
    then (warn, codes "certificate expires in " ++ (to_string days ++ codes " days"))
    else if not (is_empty (waiting_of rotation)) || not (is_empty (names_in is_pending peers))
    then (warn, codes "rotation pending")
    else (fine, codes "TLS ok")

-- `Report::collect`: the caller's moment `now`, and what the system's clock shows meanwhile.
unfoldable pub collect : Str → ℤ → ℤ → TlsMaterial → Option Status → List PeerReport → Report
unfolding light_of days_until_expiry
collect version now clock material announcer_status peers =
    let days : ℤ = days_until_expiry material clock in
    let expiry_warning : Bool = mode1_should_warn now material.not_after in
    let rotation : Option RotationReport = rotation_from announcer_status in
    let light : Level × Str = light_of peers days rotation expiry_warning in
    record {
      version = version;
      level = light.0;
      headline = light.1;
      identity = record {
        fingerprint_sha256 = material.fingerprint;
        origin = origin_text material.origin;
        not_after = some material.not_after;
        days_until_expiry = days;
        expiry_warning = expiry_warning;
      };
      rotation = rotation;
      peers = peers;
    }

unfoldable pub summary : Report → Summary
summary r = record { version = r.version; level = r.level; headline = r.headline }
