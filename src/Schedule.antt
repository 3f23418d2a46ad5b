-- ===== src/Schedule.antt =====
-- announcer.rs, the state machine of one rotation: `Schedule`, `ChainState`, the draw of the next time
-- and the retries. A `BTreeSet<String>` is the sorted list of its elements (`Schedule.Names`).
pub mod Names
pub mod Draw
pub mod Sorted
pub mod Runs
pub mod Retry
pub mod Failed
use net_tls.Prelude.{
  ℕ, ◌+◌, ◌-◌, ◌*◌, ◌%◌, ◌^◌, suc, zero, ◌≡◌, refl, Bool, true, false, not, ◌&&◌, Option, none,
  some, List, [], ◌∷◌, ltb, if◌then◌else◌, is_empty,
}
use net_tls.Prelude.Int.{ℤ, pos, leb_ℤ, ◌+ℤ◌, ◌-ℤ◌}
use net_tls.Prelude.Text.{Str, Bytes}
use net_tls.Error.{TlsError, Result, ok, err, generate, ◌>>=◌}
use net_tls.Schedule.Names.{insert, remove, collect}

abbrev pub day_s : ℕ
day_s = 86400

abbrev pub nominal_age_days : ℕ
nominal_age_days = 7

abbrev pub spread_days : ℕ
spread_days = 2

abbrev pub min_between_rolls_s : ℕ
min_between_rolls_s = 86400

abbrev pub alarm_after_s : ℕ
alarm_after_s = 12 * 3600

-- `u64::from_le_bytes`
unfoldable pub from_le_bytes : Bytes → ℕ
from_le_bytes [] = 0
from_le_bytes (b ∷ bs) = b + 256 * from_le_bytes bs

-- The numbers that `tilfeldig_under` keeps are below this.
unfoldable pub grense : ℕ → ℕ
grense tak = 2 ^ 64 - 1 - (2 ^ 64 - 1) % tak

-- `random_bytes i` is what the i-th call of `krypto::random_bytes(8)` returns.
module _ (random_bytes : ℕ → Option Bytes) where
  -- The loop, with its rounds left and the number of the next call.
  unfoldable pub draw : ℕ → ℕ → ℕ → Result ℕ
  draw zero i tak = err (generate "CSPRNG produced 64 rejected values in a row")
  draw (suc n) i tak = elim (random_bytes i) [
    | none ↦ err (generate "CSPRNG unavailable")
    | some b ↦ elim (ltb (from_le_bytes b) (grense tak)) [
      | true ↦ ok (from_le_bytes b % tak)
      | false ↦ draw n (suc i) tak
    ]
  ]

  unfoldable pub tilfeldig_under : ℕ → Result ℕ
  tilfeldig_under zero = ok 0
  tilfeldig_under (suc tak) = draw 64 0 (suc tak)

  unfoldable pub draw_roll_time : ℤ → Result ℤ
  draw_roll_time issued = do
    t ← tilfeldig_under (2 * spread_days * day_s)
    ok (issued +ℤ pos (nominal_age_days * day_s) +ℤ (pos t -ℤ pos (spread_days * day_s)))

pub data ChainState : Type 0 where
  idle : ℤ → ChainState
  -- the peers that have not acked, and when the first announcement was published
  announced : List Str → ℤ → ChainState

pub record Schedule : Type 0 where
  pub state : ChainState
  pub peers : List Str
  pub last_rolled : Option ℤ

unfoldable pub new : List Str → ℤ → Schedule
new names attempt_at = record { state = idle attempt_at; peers = collect names; last_rolled = none }

-- `if let Announced { waiting_for, .. } = &mut self.state { waiting_for = f(waiting_for) }`
abbrev pub if_announced : (List Str → List Str) → ChainState → ChainState
if_announced f (idle t) = idle t
if_announced f (announced w t) = announced (f w) t

unfoldable pub add_peer : Schedule → Str → Schedule
add_peer s name = record s {
  state = if_announced (insert name) s.state;
  peers = insert name s.peers;
}

unfoldable pub remove_peer : Schedule → Str → Schedule
remove_peer s name = record s {
  state = if_announced (remove name) s.state;
  peers = remove name s.peers;
}

unfoldable pub should_announce : Schedule → ℤ → Bool
should_announce s now = elim s.state [ idle t ↦ leb_ℤ t now | announced w t ↦ false ]

abbrev pub announce_from : ChainState → Schedule → ℤ → Schedule
announce_from (idle t) s now = record s { state = announced s.peers now }
announce_from (announced w t) s now = s

-- The method `announced`.
unfoldable pub announce : Schedule → ℤ → Schedule
announce s now = announce_from s.state s now

unfoldable pub acked : Schedule → Str → Schedule
acked s peer = record s { state = if_announced (remove peer) s.state }

unfoldable pub waiting_for : Schedule → List Str
waiting_for s = elim s.state [ idle t ↦ [] | announced w t ↦ w ]

abbrev pub limit_ok : Option ℤ → ℤ → Bool
limit_ok none now = true
limit_ok (some t) now = leb_ℤ (pos min_between_rolls_s) (now -ℤ t)

unfoldable pub rate_limit_ok : Schedule → ℤ → Bool
rate_limit_ok s now = limit_ok s.last_rolled now

abbrev pub all_ready : ChainState → Bool
all_ready (idle t) = false
all_ready (announced w t) = is_empty w

unfoldable pub can_roll : Schedule → ℤ → Bool
unfolding rate_limit_ok
can_roll s now = all_ready s.state && rate_limit_ok s now

-- The time is noted before the draw, and stays noted when the draw fails.
abbrev pub roll_to : Schedule → ℤ → Result ℤ → Schedule × Result (Unit {0})
roll_to s now (ok t) = (record { state = idle t; peers = s.peers; last_rolled = some now }, ok tt)
roll_to s now (err e) = (record s { last_rolled = some now }, err e)

unfoldable pub rolled : (ℕ → Option Bytes) → Schedule → ℤ → Schedule × Result (Unit {0})
rolled random_bytes s now = roll_to s now (draw_roll_time random_bytes now)

unfoldable pub first_announced : Schedule → Option ℤ
first_announced s = elim s.state [ idle t ↦ none | announced w t ↦ some t ]

unfoldable pub restore_announced : Schedule → List Str → ℤ → Schedule
restore_announced s waiting t = record s { state = announced (collect waiting) t }
