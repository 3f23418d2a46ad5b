-- ===== src/Schedule/Retry.antt =====
-- announcer.rs, "Retries, alarm and countdown": what is done while peers have not acknowledged.
use net_tls.Prelude.{
  ℕ, ◌+◌, ◌*◌, ◌/◌, ◌%◌, ◌<◌, ◌≡◌, ◌≢◌, ◌⊎◌, refl, Bool, true, false, not, ◌&&◌, Option, none, some,
  List, [], ◌∷◌, arith, ltb, if◌then◌else◌, is_empty, inl, inr,
}
use net_tls.Prelude.Int.{
  ℤ, pos, negsuc, pos_part, leb_ℤ, ltb_ℤ, ◌+ℤ◌, ◌-ℤ◌, ◌≤ℤ◌, IsMoment, +ℤ_parts,
}
use mathlib.Core.List.{◌++◌ as ◌+++◌}
use net_tls.Prelude.Text.{Str, codes, join}
use net_tls.Prelude.Decimal.{to_string}
use net_tls.Schedule.{Schedule, ChainState, idle, announced, alarm_after_s, waiting_for}

unfoldable pub interval_after : ℤ → ℤ
interval_after s =
    if ltb_ℤ s (pos (15 * 60))
    then pos 60
    else if ltb_ℤ s (pos 3600)
    then pos (5 * 60)
    else pos 3600

-- `x.max(0)`
abbrev pub max_zero : ℤ → ℤ
max_zero a = pos (pos_part a)

abbrev pub retry_from : ChainState → ℤ → Option ℤ
retry_from (idle t) now = none
retry_from (announced [] first) now = none
retry_from (announced (w ∷ ws) first) now = some (now +ℤ interval_after (max_zero (now -ℤ first)))

unfoldable pub next_retry : Schedule → ℤ → Option ℤ
next_retry s now = retry_from s.state now

abbrev pub alarm_from : ChainState → ℤ → Bool
alarm_from (idle t) now = false
alarm_from (announced w first) now = not (is_empty w) && leb_ℤ (pos alarm_after_s) (now -ℤ first)

unfoldable pub alarm : Schedule → ℤ → Bool
alarm s now = alarm_from s.state now

pub record Status : Type 0 where
  pub waiting_for : List Str
  pub alarm : Bool
  pub seconds_until_stop : ℤ

unfoldable pub status : Schedule → ℤ → ℤ → Status
status s now expires = record {
  waiting_for = waiting_for s;
  alarm = alarm s now;
  seconds_until_stop = expires -ℤ now;
}

-- `{:02}`
abbrev two_digits : ℕ → Str
two_digits n = if ltb n 10 then 48 ∷ to_string (pos n) else to_string (pos n)

-- The format of `countdown`.
abbrev pub clock : ℕ → ℕ → ℕ → ℕ → Str
clock d h m s =
    to_string (pos d)
    +++ codes " days "
    +++ two_digits h
    +++ codes ":"
    +++ two_digits m
    +++ codes ":"
    +++ two_digits s

unfoldable pub countdown : Status → Str
countdown t =
    let s : ℕ = pos_part t.seconds_until_stop in
    let r : ℕ = s % 86400 in clock (s / 86400) (r / 3600) (r % 3600 / 60) (r % 60)

unfoldable pub message : Status → Str → Option Str
unfolding countdown
message t own_name =
    if is_empty t.waiting_for
    then none
    else some (
        (if t.alarm then codes "ERROR" else codes "Waiting")
        +++ codes ": rotation of "
        +++ own_name
        +++ codes " is blocked — waiting for acknowledgement from "
        +++ join (codes ", ") t.waiting_for
        +++ codes ". "
        +++ countdown t
        +++ codes " until internal communication stops.")

-- The countdown shows the time that is left until the stop in days, hours, minutes and seconds, each in
-- its usual range, and no time left when the stop has passed.
pub countdown_reads :
    (t : Status)
    → (d h m s : ℕ) × (countdown t ≡ clock d h m s)
      × (d * 86400 + h * 3600 + m * 60 + s ≡ pos_part t.seconds_until_stop)
      × (h < 24)
      × (m < 60)
      × (s < 60)
unfolding countdown
countdown_reads t =
    let s : ℕ = pos_part t.seconds_until_stop in
    let r : ℕ = s % 86400 in
    (
      s / 86400,
      r / 3600,
      r % 3600 / 60,
      r % 60,
      refl,
      omega arith,
      omega arith,
      omega arith,
      omega arith,
    )

interval_bounds : (s : ℤ) → (pos 60 ≤ℤ interval_after s) × (interval_after s ≤ℤ pos 3600)
unfolding interval_after
interval_bounds s = ground arith

plus_bounds :
    (now s : ℤ)
    → IsMoment now
    → (pos 60 ≤ℤ s) × (s ≤ℤ pos 3600)
    → (now +ℤ pos 60 ≤ℤ now +ℤ s) × (now +ℤ s ≤ℤ now +ℤ pos 3600)
plus_bounds now (pos n) m (a, b) =
    let p₁ = +ℤ_parts now (pos 60) (omega arith) (omega arith) in
    let p₂ = +ℤ_parts now (pos n) (omega arith) (omega arith) in
    let p₃ = +ℤ_parts now (pos 3600) (omega arith) (omega arith) in (omega arith, omega arith)
plus_bounds now (negsuc n) m (a, b) = absurd (omega arith)

-- While a peer is waited for, and only then, there is another try; it comes after at least a minute and
-- at most an hour.
pub next_retry-bounds :
    (s : Schedule) (now : ℤ)
    → IsMoment now
    → ((waiting_for s ≡ []) × (next_retry s now ≡ none))
      ⊎ ((waiting_for s ≢ [])
          × ((t : ℤ) × (next_retry s now ≡ some t) × (now +ℤ pos 60 ≤ℤ t) × (t ≤ℤ now +ℤ pos 3600)))
unfolding waiting_for next_retry
next_retry-bounds s now m = from s.state
  where
    later :
        (d : ℤ)
        → (now +ℤ pos 60 ≤ℤ now +ℤ interval_after (max_zero d))
          × (now +ℤ interval_after (max_zero d) ≤ℤ now +ℤ pos 3600)
    later d = plus_bounds now (interval_after (max_zero d)) m (interval_bounds (max_zero d))

    from :
        (c : ChainState)
        → ((elim c as (λ _. List Str) [ idle t ↦ [] | announced w t ↦ w ] ≡ [])
            × (retry_from c now ≡ none))
          ⊎ ((elim c as (λ _. List Str) [ idle t ↦ [] | announced w t ↦ w ] ≢ [])
              × ((t : ℤ) × (retry_from c now ≡ some t)
                  × (now +ℤ pos 60 ≤ℤ t)
                  × (t ≤ℤ now +ℤ pos 3600)))
    from (idle t) = inl (refl, refl)
    from (announced [] t) = inl (refl, refl)
    from (announced (w ∷ ws) t) = inr (
      λ e. cc,
      (
        now +ℤ interval_after (max_zero (now -ℤ t)),
        refl,
        (later (now -ℤ t)).0,
        (later (now -ℤ t)).1,
      ),
    )

-- The alarm ends nothing: while it sounds, there is a peer to wait for, and a try every hour.
pub alarm-next_retry :
    (s : Schedule) (now : ℤ)
    → alarm s now ≡ true
    → (waiting_for s ≢ []) × (next_retry s now ≡ some (now +ℤ pos 3600))
unfolding alarm waiting_for next_retry
alarm-next_retry s now h = from s.state h
  where
    from :
        (c : ChainState)
        → alarm_from c now ≡ true
        → (elim c as (λ _. List Str) [ idle t ↦ [] | announced w t ↦ w ] ≢ [])
          × (retry_from c now ≡ some (now +ℤ pos 3600))
    from (idle t) k = cc
    from (announced [] t) k = cc
    from (announced (w ∷ ws) t) k = (λ e. cc, unfold interval_after in ground arith)
