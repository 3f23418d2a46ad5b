-- ===== src/Report/Light.antt =====
-- What the traffic light of a report says.
use net_tls.Prelude.{
  suc, ◌/◌, ◌<◌, ◌≡◌, ◌↔◌, ◌⊎◌, refl, Bool, true, false, not, ◌||◌, Option, List, [], ◌∷◌, arith,
  is_empty, if◌then◌else◌,
}
use net_tls.Prelude.Int.{ℤ, pos, negsuc, neg_part, ltb_ℤ, ◌-ℤ◌, ◌<ℤ◌, IsMoment, -ℤ_parts}
use net_tls.Prelude.Text.{Str}
use net_tls.Material.{TlsMaterial, is_valid_at}
use net_tls.Modes.{mode1_should_warn}
use net_tls.Schedule.Retry.{Status}
use net_tls.Report.{
  Level, fine, warn, alert, PeerReport, PeerState, RotationReport, names_in, is_broken, is_pending,
  whole_days, days_until_expiry, collect, light_of, rotation_from, alarm_of, stopping_of,
  waiting_of,
}
use net_tls.Report.Signals.{has, IsRed, IsGreen, IsRed-iff, IsGreen-iff}

is_empty-names_in :
    (test : PeerState → Bool) (peers : List PeerReport)
    → not (is_empty (names_in test peers)) ≡ has test peers
unfolding names_in
is_empty-names_in test [] = refl
is_empty-names_in test (p ∷ ps) = ground (arith, is_empty-names_in test ps)

-- The light, as a table.
abbrev level_of : (broken days_over stopping alarm warning nobody pending : Bool) → Level
level_of true b c d e f g = alert
level_of false true c d e f g = alert
level_of false false true d e f g = alert
level_of false false false true e f g = alert
level_of false false false false true f g = warn
level_of false false false false false false g = warn
level_of false false false false false true true = warn
level_of false false false false false true false = fine

level_of-alert :
    (a b c d e f g : Bool)
    → (level_of a b c d e f g ≡ alert) ↔ ((a ≡ true) ⊎ (b ≡ true) ⊎ (c ≡ true) ⊎ (d ≡ true))
level_of-alert a b c d e f g = ground arith

level_of-fine :
    (a b c d e f g : Bool)
    → (level_of a b c d e f g ≡ fine) ↔ (
        (a ≡ false)
        × (b ≡ false)
        × (c ≡ false)
        × (d ≡ false)
        × (e ≡ false)
        × (f ≡ true)
        × (g ≡ false))
level_of-fine a b c d e f g = ground arith

chosen :
    (a b c d e f g : Bool) (t₁ t₂ t₃ t₄ t₅ t₆ : Str)
    → (let r : Level × Str =
          if a
          then (alert, t₁)
          else if b || c
          then (alert, t₂)
          else if d
          then (alert, t₃)
          else if e
          then (warn, t₄)
          else if not f || g
          then (warn, t₅)
          else (fine, t₆) in
        r.0)
      ≡ level_of a b c d e f g
chosen a b c d e f g t₁ t₂ t₃ t₄ t₅ t₆ = ground arith

light_of-level :
    (peers : List PeerReport) (days : ℤ) (rotation : Option RotationReport) (warning : Bool)
    → (light_of peers days rotation warning).0
      ≡ level_of
          (has is_broken peers)
          (ltb_ℤ days (pos 0))
          (stopping_of rotation)
          (alarm_of rotation)
          warning
          (is_empty (waiting_of rotation))
          (has is_pending peers)
unfolding light_of
light_of-level peers days rotation warning =
    rw (is_empty-names_in is_broken peers, is_empty-names_in is_pending peers)
      (chosen (has is_broken peers) (ltb_ℤ days (pos 0)) (stopping_of rotation) (alarm_of rotation)
        warning (is_empty (waiting_of rotation)) (has is_pending peers) _ _ _ _ _ _)

-- The light is red exactly when a peer's chain is broken, a whole day has passed on the system's clock
-- since the certificate expired, the announcer's countdown is over or its alarm sounds; it is green
-- exactly when every peer is quiet, there is none of that, the certificate does not expire within thirty
-- days of the caller's moment, and nobody is waited for. The moments are far from the ends of `i64`.
pub collect-level :
    (version : Str) (now clock : ℤ) (m : TlsMaterial) (status : Option Status)
    (peers : List PeerReport)
    → IsMoment now
    → IsMoment clock
    → IsMoment m.not_after
    → (((collect version now clock m status peers).level ≡ alert) ↔ IsRed clock m status peers)
      × (((collect version now clock m status peers).level ≡ fine)
          ↔ IsGreen now clock m status peers)
unfolding collect
collect-level version now clock m status peers called moment expiry =
    let red = IsRed-iff clock m status peers moment expiry in
    let green = IsGreen-iff now clock m status peers called moment expiry in
    rw
      (light_of-level peers (days_until_expiry m clock) (rotation_from status)
        (mode1_should_warn now m.not_after))
      (
        (
          λ h. red.0 ((level_of-alert _ _ _ _ _ _ _).0 h),
          λ h. (level_of-alert _ _ _ _ _ _ _).1 (red.1 h),
        ),
        (
          λ h. green.0 ((level_of-fine _ _ _ _ _ _ _).0 h),
          λ h. (level_of-fine _ _ _ _ _ _ _).1 (green.1 h),
        ),
      )

whole_days-within : (a : ℤ) → neg_part a < 86400 → ltb_ℤ (whole_days a) (pos 0) ≡ false
unfolding whole_days
whole_days-within (pos n) h = ground arith
whole_days-within (negsuc n) h = let e : suc n / 86400 ≡ 0 = omega (arith, h) in rw e refl

-- A certificate that expired less than a day ago does not make the light red: with the caller's moment
-- the system's, and both and the expiry far from the ends of `i64`, no broken peer, no alarm and a
-- countdown that is not over, the light is yellow, although the certificate is not valid any more.
pub collect-expired_today :
    (version : Str) (now : ℤ) (m : TlsMaterial) (status : Option Status) (peers : List PeerReport)
    → IsMoment now
    → IsMoment m.not_after
    → m.not_after <ℤ now
    → neg_part (m.not_after -ℤ now) < 86400
    → has is_broken peers ≡ false
    → stopping_of (rotation_from status) ≡ false
    → alarm_of (rotation_from status) ≡ false
    → ((collect version now now m status peers).level ≡ warn) × (is_valid_at m now ≡ false)
unfolding collect is_valid_at days_until_expiry mode1_should_warn
collect-expired_today version now m status peers moment expiry past today unbroken going silent =
    let days : ltb_ℤ (days_until_expiry m now) (pos 0) ≡ false =
      whole_days-within (m.not_after -ℤ now) today in
    let parts = -ℤ_parts m.not_after now (omega (arith, expiry)) (omega (arith, moment)) in
    let warned : mode1_should_warn now m.not_after ≡ true = ground (arith, parts, past) in
    (
      rw
          (
            light_of-level peers (days_until_expiry m now) (rotation_from status)
                (mode1_should_warn now m.not_after),
            unbroken,
            days,
            going,
            silent,
            warned,
          )
          refl,
      ground (arith, past),
    )
