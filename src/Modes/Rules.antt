-- ===== src/Modes/Rules.antt =====
-- The rules on modes, clocks and lifetimes.
use net_tls.Prelude.{ℕ, ◌≤◌, ◌≡◌, ◌↔◌, refl, ap, true, Option, List, [], ◌∷◌, arith}
use net_tls.Prelude.Int.{ℤ, ◌-ℤ◌, abs, ◌≤ℤ◌}
use net_tls.Prelude.Text.{Str}
use net_tls.Error.{ok}
use net_tls.Modes.{
  Mode, pinning, rolling, check_mode, check_can_roll, ClockDrift, new, observe, max_ℤ, Lifetime,
  mode1_params, or_default,
}

-- Rotation is attempted exactly when both sides stand in the rolling mode: neither side can talk the
-- other into a mode.
pub check_mode-can_roll :
    (ours theirs : Mode)
    → (check_can_roll (check_mode ours theirs) ≡ true) ↔ ((ours ≡ rolling) × (theirs ≡ rolling))
unfolding check_mode check_can_roll
check_mode-can_roll pinning pinning = (λ h. cc, λ h. cc)
check_mode-can_roll pinning rolling = (λ h. cc, λ h. cc)
check_mode-can_roll rolling pinning = (λ h. cc, λ h. cc)
check_mode-can_roll rolling rolling = (λ h. (refl, refl), λ h. refl)

-- A user-facing certificate is given exactly the number of days that was asked for, or 90 if none was,
-- and only from 47 to 365.
pub mode1_params_iff :
    (common_name : Str) (sans : List Str) (days : Option ℕ) (p : Lifetime)
    → (mode1_params common_name sans days ≡ ok p) ↔ (
        (47 ≤ p.valid_days)
        × (p.valid_days ≤ 365)
        × (p ≡ record { common_name = common_name; sans = sans; valid_days = or_default days 90 }))
unfolding mode1_params
mode1_params_iff common_name sans days p = (to, from)
  where
    to :
        mode1_params common_name sans days ≡ ok p
        → (47 ≤ p.valid_days)
          × (p.valid_days ≤ 365)
          × (p ≡ record { common_name = common_name; sans = sans; valid_days = or_default days 90 })
    to h =
        let e : p
            ≡ record { common_name = common_name; sans = sans; valid_days = or_default days 90 } =
          ground arith in
        (rw e (ground arith), rw e (ground arith), e)

    from :
        (47 ≤ p.valid_days)
          × (p.valid_days ≤ 365)
          × (p ≡ record { common_name = common_name; sans = sans; valid_days = or_default days 90 })
        → mode1_params common_name sans days ≡ ok p
    from (low, high, e) =
        let low' : 47 ≤ or_default days 90 = rw (ap (λ (x : Lifetime). x.valid_days) e) at low in
        let high' : or_default days 90 ≤ 365 = rw (ap (λ (x : Lifetime). x.valid_days) e) at high in
        ground arith

-- The state of a tracker after a series of observations, the last one first: their `sent_at` and our
-- clock.
abbrev pub observed : List (ℤ × ℤ) → ClockDrift
observed [] = new
observed ((theirs, ours) ∷ rest) = (observe (observed rest) theirs ours).0

-- Every deviation of a list, in size, is at most m.
abbrev pub AreWithin : ℤ → List (ℤ × ℤ) → Type 0
AreWithin m [] = Unit
AreWithin m ((theirs, ours) ∷ rest) = (abs (theirs -ℤ ours) ≤ℤ m) × AreWithin m rest

max_left : (a b : ℤ) → a ≤ℤ max_ℤ a b
max_left a b = ground arith

max_right : (a b : ℤ) → b ≤ℤ max_ℤ a b
max_right a b = ground arith

le_trans : (a b c : ℤ) → a ≤ℤ b → b ≤ℤ c → a ≤ℤ c
le_trans a b c h k = omega arith

within_mono : (m n : ℤ) (rest : List (ℤ × ℤ)) → m ≤ℤ n → AreWithin m rest → AreWithin n rest
within_mono m n [] h k = tt
within_mono m n ((t, o) ∷ rest) h (p, k) =
    (le_trans (abs (t -ℤ o)) m n p h, within_mono m n rest h k)

-- After any series of observations the maximum is at least the size of every deviation in it.
pub observed-max : (series : List (ℤ × ℤ)) → AreWithin (observed series).max series
unfolding observe new
observed-max [] = tt
observed-max ((t, o) ∷ rest) = (
  max_right (observed rest).max (abs (t -ℤ o)),
  within_mono (observed rest).max (max_ℤ (observed rest).max (abs (t -ℤ o))) rest
      (max_left (observed rest).max (abs (t -ℤ o))) (observed-max rest),
)
