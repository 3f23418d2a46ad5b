-- ===== src/Schedule/Failed.antt =====
-- What is left of a rotation whose next time could not be drawn.
use net_tls.Prelude.{ℕ, ◌≡◌, refl, ap, subst, Bool, true, ◌&&◌, Option, some, [], ◌∷◌}
use net_tls.Prelude.Int.{ℤ, pos, leb_ℤ, ◌-ℤ◌}
use net_tls.Prelude.Text.{Bytes}
use net_tls.Error.{TlsError, Result, ok, err}
use net_tls.Schedule.{
  Schedule, ChainState, idle, announced, can_roll, all_ready, limit_ok, rate_limit_ok, rolled,
  roll_to, draw_roll_time, announce, announce_from, waiting_for, min_between_rolls_s,
}

abbrev IsAnswered : ChainState → Type 0
IsAnswered (idle t) = ⊥
IsAnswered (announced [] t) = Unit
IsAnswered (announced (x ∷ xs) t) = ⊥

ready-IsAnswered : (t : ChainState) (b : Bool) → (all_ready t && b) ≡ true → IsAnswered t
ready-IsAnswered (idle t) b h = cc
ready-IsAnswered (announced [] t) b h = tt
ready-IsAnswered (announced (x ∷ xs) t) b h = cc

unasked :
    (s : Schedule) (t later : ℤ)
    → IsAnswered s.state
    → limit_ok s.last_rolled later ≡ true
    → (waiting_for (announce s t) ≡ []) × (can_roll (announce s t) later ≡ true)
unfolding announce waiting_for can_roll rate_limit_ok
unasked s t later answered limit = split s.state answered refl
  where
    split :
        (state : ChainState)
        → IsAnswered state
        → s.state ≡ state
        → (waiting_for (announce_from s.state s t) ≡ [])
          × (can_roll (announce_from s.state s t) later ≡ true)
    split (idle x) a e = absurd a
    split (announced [] x) a e = rw (e, limit) (refl, refl)
    split (announced (y ∷ ys) x) a e = absurd a

-- After a switch for which the next time could not be drawn, the schedule goes on with the old round, in
-- which everybody has answered: the next announcement waits for nobody, and a day after the switch it
-- may be taken into use although no peer has acknowledged it.
pub rolled-unheard :
    (random_bytes : ℕ → Option Bytes) (s s' : Schedule) (now t later : ℤ) (e : TlsError)
    → can_roll s now ≡ true
    → rolled random_bytes s now ≡ (s', err e)
    → leb_ℤ (pos min_between_rolls_s) (later -ℤ now) ≡ true
    → (waiting_for (announce s' t) ≡ []) × (can_roll (announce s' t) later ≡ true)
unfolding rolled can_roll
rolled-unheard random_bytes s s' now t later e ready failed day =
    split (draw_roll_time random_bytes now) failed
  where
    split :
        (r : Result ℤ)
        → roll_to s now r ≡ (s', err e)
        → (waiting_for (announce s' t) ≡ []) × (can_roll (announce s' t) later ≡ true)
    split (ok x) p = cc
    split (err x) p =
        subst
          (λ (v : Schedule).
            (waiting_for (announce v t) ≡ []) × (can_roll (announce v t) later ≡ true))
          (ap (λ q. q.0) p)
          (unasked (record s { last_rolled = some now }) t later
            (ready-IsAnswered s.state (rate_limit_ok s now) ready) day)
