-- ===== src/Modes.antt =====
-- announcer.rs: the mode of a connection, the clock of a peer, the lifetimes, and the fall to mode 1.
pub mod Rules
pub mod Messages
use Prim.Native.String.{String}
use net_tls.Prelude.{
  ℕ, ◌*◌, ◌≡◌, refl, Bool, true, false, not, ◌&&◌, ◌||◌, Option, none, some, List, [], ◌∷◌, ltb,
  leb, if◌then◌else◌,
}
use net_tls.Prelude.Int.{ℤ, pos, leb_ℤ, ltb_ℤ, ◌-ℤ◌, abs}
use net_tls.Prelude.Text.{Str}
use net_tls.Error.{TlsError, Result, ok, err, params, ◌>>=◌, ◌>>◌, refuse}

pub data Mode : Type 0 where
  pinning rolling : Mode

abbrev pub mode1_warn_days : ℕ
mode1_warn_days = 30

unfoldable pub mode1_should_warn : ℤ → ℤ → Bool
mode1_should_warn now expires = leb_ℤ (expires -ℤ now) (pos (mode1_warn_days * 86400))

pub data ModeCheck : Type 0 where
  agree : Mode → ModeCheck
  disagree : Mode → Mode → ModeCheck

unfoldable pub check_mode : Mode → Mode → ModeCheck
check_mode pinning pinning = agree pinning
check_mode rolling rolling = agree rolling
check_mode ours theirs = disagree ours theirs

-- `ModeCheck::can_roll`
unfoldable pub check_can_roll : ModeCheck → Bool
check_can_roll (agree rolling) = true
check_can_roll _ = false

abbrev pub drift_normal_s : ℕ
drift_normal_s = 5

abbrev pub drift_warning_s : ℕ
drift_warning_s = 30

abbrev pub drift_jump_s : ℕ
drift_jump_s = 10

pub data Drift : Type 0 where
  normal log warning : Drift

pub record ClockDrift : Type 0 where
  pub last : Option ℤ
  pub max : ℤ

unfoldable pub new : ClockDrift
new = record { last = none; max = pos 0 }

abbrev pub max_ℤ : ℤ → ℤ → ℤ
max_ℤ a b = if ltb_ℤ b a then a else b

-- `self.last.map(|f| (deviation - f).abs()).unwrap_or(0)`
abbrev pub jump : Option ℤ → ℤ → ℤ
jump none deviation = pos 0
jump (some f) deviation = abs (deviation -ℤ f)

-- How an observed deviation is handled.
unfoldable pub judge : ℤ → ℤ → Drift
judge deviation sprang =
    if ltb_ℤ (pos drift_warning_s) (abs deviation) || ltb_ℤ (pos drift_jump_s) sprang
    then warning
    else if leb_ℤ (pos drift_normal_s) (abs deviation)
    then log
    else normal

unfoldable pub observe : ClockDrift → ℤ → ℤ → ClockDrift × Drift
unfolding judge
observe c their_sent_at our_now =
    let deviation : ℤ = their_sent_at -ℤ our_now in
    (
      record { last = some deviation; max = max_ℤ c.max (abs deviation) },
      judge deviation (jump c.last deviation),
    )

abbrev pub mode2_lifetime_days : ℕ
mode2_lifetime_days = 30

abbrev pub mode1_min_days : ℕ
mode1_min_days = 47

abbrev pub mode1_default_days : ℕ
mode1_default_days = 90

abbrev pub mode1_max_days : ℕ
mode1_max_days = 365

abbrev pub or_default : Option ℕ → ℕ → ℕ
or_default none d = d
or_default (some n) d = n

-- The parameters of a self-signed certificate that these functions set.
pub record Lifetime : Type 0 where
  pub common_name : Str
  pub sans : List Str
  pub valid_days : ℕ

unfoldable pub mode2_params : Str → List Str → Lifetime
mode2_params common_name sans = record {
  common_name = common_name;
  sans = sans;
  valid_days = mode2_lifetime_days;
}

unfoldable pub mode1_params : Str → List Str → Option ℕ → Result Lifetime
mode1_params common_name sans days = do
  let d = or_default days mode1_default_days
  refuse (ltb d mode1_min_days) (params "lifetime is below the floor")
  refuse (ltb mode1_max_days d) (params "lifetime is above the ceiling")
  ok (record { common_name = common_name; sans = sans; valid_days = d })

pub data Deviation : Type 0 where
  unknown_certificate invalid_signature abandoned_certificate : Str → Deviation

pub record FallToMode1 : Type 0 where
  pub deviation : Deviation

unfoldable pub mode : FallToMode1 → Mode
mode f = pinning

unfoldable pub can_retry : FallToMode1 → Bool
can_retry f = false
