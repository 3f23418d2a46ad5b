-- ===== src/Tests/Rounds.antt =====
-- Examples of the schedule: one round with one peer, and the draw of the next one.
use net_tls.Prelude.{ℕ, ◌≡◌, refl, true, Option, none, some, [], ◌∷◌, arith}
use net_tls.Prelude.Int.{ℤ, pos, leb_ℤ, ◌+ℤ◌, ◌-ℤ◌, ◌≤ℤ◌, ◌<ℤ◌}
use net_tls.Prelude.Text.{Bytes, codes}
use net_tls.Error.{ok, err, generate}
use net_tls.Schedule.{
  Schedule, announced, rolled, new, announce, acked, can_roll, rate_limit_ok, draw_roll_time, draw,
  from_le_bytes, grense, tilfeldig_under, restore_announced, waiting_for, first_announced,
}
use net_tls.Schedule.Runs.{Runs, start, announces, acks, restarts}
use net_tls.Schedule.Draw.{IsDrawn, draw_roll_time-bounds, draw_roll_time-drawn}
use net_tls.Schedule.Failed.{rolled-unheard}
use net_tls.Tests.Data.{portal}

-- A random source that always answers 1.
abbrev ones : ℕ → Option Bytes
ones i = some (1 ∷ 0 ∷ 0 ∷ 0 ∷ 0 ∷ 0 ∷ 0 ∷ 0 ∷ [])

abbrev asked : Schedule
asked = announce (new (portal ∷ []) (pos 0)) (pos 5)

asked-run : Runs ones asked [] []
unfolding new
asked-run = announces (pos 5) (start (portal ∷ []) (pos 0))

asked_since : first_announced asked ≡ some (pos 5)
unfolding first_announced announce new
asked_since = refl

-- The process restarts while the peer is waited for.
abbrev resumed : Schedule
resumed = restore_announced (new (portal ∷ []) (pos 7)) (waiting_for asked) (pos 5)

resumed-run : Runs ones resumed [] []
unfolding announce new
resumed-run = restarts (portal ∷ []) (pos 7) (pos 5) asked-run asked_since refl

abbrev answered : Schedule
answered = acked resumed portal

answered-run : Runs ones answered (portal ∷ []) []
answered-run = acks portal resumed-run

draw_at : draw_roll_time ones (pos 1000) ≡ ok (pos 433001)
unfolding draw_roll_time tilfeldig_under draw from_le_bytes grense ◌+ℤ◌ ◌-ℤ◌
draw_at = refl

draw_roll_time-bounds_example :
    (pos 1000 +ℤ pos 432000 ≤ℤ pos 433001) × (pos 433001 <ℤ pos 1000 +ℤ pos 777600)
draw_roll_time-bounds_example =
    draw_roll_time-bounds ones (pos 1000) (pos 433001) (omega arith) draw_at

first-IsDrawn : IsDrawn ones 0 0 (1 ∷ 0 ∷ 0 ∷ 0 ∷ 0 ∷ 0 ∷ 0 ∷ 0 ∷ [])
unfolding from_le_bytes grense
first-IsDrawn = record { reads = refl; below = refl; earlier = λ j h k. absurd (omega arith) }

draw_roll_time-drawn_example : (t : ℤ) × (draw_roll_time ones (pos 1000) ≡ ok t)
draw_roll_time-drawn_example =
    draw_roll_time-drawn ones (pos 1000) 0 (1 ∷ 0 ∷ 0 ∷ 0 ∷ 0 ∷ 0 ∷ 0 ∷ 0 ∷ []) (omega arith)
      first-IsDrawn

abbrev heard_all : Schedule
heard_all = record {
  state = announced [] (pos 0);
  peers = codes "billing" ∷ [];
  last_rolled = none;
}

heard_all-ready : can_roll heard_all (pos 10) ≡ true
unfolding can_roll rate_limit_ok
heard_all-ready = refl

no_time :
    rolled (λ _. none) heard_all (pos 10)
    ≡ (record heard_all { last_rolled = some (pos 10) }, err (generate "CSPRNG unavailable"))
unfolding rolled draw_roll_time tilfeldig_under draw
no_time = refl

a_day_later : leb_ℤ (pos 86400) (pos 90000 -ℤ pos 10) ≡ true
unfolding ◌-ℤ◌
a_day_later = refl

rolled-unheard_example :
    (waiting_for (announce (record heard_all { last_rolled = some (pos 10) }) (pos 50)) ≡ [])
    × (can_roll (announce (record heard_all { last_rolled = some (pos 10) }) (pos 50)) (pos 90000)
        ≡ true)
rolled-unheard_example =
    rolled-unheard (λ _. none) heard_all (record heard_all { last_rolled = some (pos 10) }) (pos 10)
      (pos 50) (pos 90000) (generate "CSPRNG unavailable") heard_all-ready no_time a_day_later
