-- ===== src/Schedule/Runs.antt =====
-- The runs of a `Schedule`: who has acknowledged what, and when certificates were switched.
use net_tls.Prelude.{ℕ, ◌≡◌, ◌⊎◌, true, Option, none, some, List, [], ◌∷◌}
use net_tls.Prelude.Int.{ℤ, pos, leb_ℤ, ◌-ℤ◌}
use net_tls.Prelude.Text.{Str, Bytes}
use net_tls.Error.{ok}
use net_tls.Schedule.Names.{remove, mem, collect}
use net_tls.Schedule.{
  restore_announced, waiting_for, first_announced, Schedule, ChainState, idle, announced, new,
  add_peer, remove_peer, announce, acked, can_roll, rolled, min_between_rolls_s,
}

-- The acknowledgements that count once an announcement may have been published: an announcement that
-- is published starts with none.
abbrev pub heard_at : ChainState → List Str → List Str
heard_at (idle t) heard = []
heard_at (announced w t) heard = heard

module _ (random_bytes : ℕ → Option Bytes) where
  -- The states that the methods lead to, with the peers that acknowledged since the announcement was
  -- published (and since they were registered), and the moments of the switches since the process
  -- started, the last one first. What was acknowledged counts until the switch.
  -- `rolled` is called when `can_roll` holds, as `Announcer::roll_if_ready` does; it may fail.
  -- A restart while peers are waited for gives a new schedule for the same peers the pending state back,
  -- as `Announcer::restore_pending` does.
  pub data Runs : Schedule → List Str → List ℤ → Type 0 where
    start : (names : List Str) → (t : ℤ) → Runs (new names t) [] []
    adds :
        {s : Schedule} {h : List Str} {r : List ℤ} (name : Str)
        → Runs s h r
        → Runs (add_peer s name) (remove name h) r
    removes :
        {s : Schedule} {h : List Str} {r : List ℤ} (name : Str)
        → Runs s h r
        → Runs (remove_peer s name) h r
    announces :
        {s : Schedule} {h : List Str} {r : List ℤ} (now : ℤ)
        → Runs s h r
        → Runs (announce s now) (heard_at s.state h) r
    acks :
        {s : Schedule} {h : List Str} {r : List ℤ} (peer : Str)
        → Runs s h r
        → Runs (acked s peer) (peer ∷ h) r
    rolls :
        {s : Schedule} {h : List Str} {r : List ℤ} (now : ℤ)
        → Runs s h r
        → can_roll s now ≡ true
        → Runs (rolled random_bytes s now).0 [] (now ∷ r)
    restarts :
        {s : Schedule} {h : List Str} {r : List ℤ} (names : List Str) (attempt_at t : ℤ)
        → Runs s h r
        → first_announced s ≡ some t
        → collect names ≡ s.peers
        → Runs (restore_announced (new names attempt_at) (waiting_for s) t) h []

-- No switch has failed for want of random numbers since the last one that went well.
abbrev pub HasDrawn :
    {random_bytes : ℕ → Option Bytes} {s : Schedule} {h : List Str} {r : List ℤ}
    → Runs random_bytes s h r
    → Type 0
HasDrawn (start names t) = Unit
HasDrawn (adds name run) = HasDrawn run
HasDrawn (removes name run) = HasDrawn run
HasDrawn (announces now run) = HasDrawn run
HasDrawn (acks peer run) = HasDrawn run
HasDrawn {random_bytes} (rolls {s} now run c) = (rolled random_bytes s now).1 ≡ ok tt
HasDrawn (restarts names attempt_at t run e p) = HasDrawn run

-- Every peer is waited for or has been heard.
abbrev IsHeard : ChainState → List Str → List Str → Type 0
IsHeard (idle t) peers heard = Unit
IsHeard (announced w t) peers heard =
    (z : Str) → mem z peers ≡ true → (mem z w ≡ true) ⊎ (mem z heard ≡ true)

-- The last switch is remembered.
abbrev head : List ℤ → Option ℤ
head [] = none
head (t ∷ ts) = some t

-- A day lies between each switch and the one before it.
abbrev pub AreSpaced : List ℤ → Type 0
AreSpaced [] = Unit
AreSpaced (t ∷ []) = Unit
AreSpaced (t ∷ u ∷ us) = (leb_ℤ (pos min_between_rolls_s) (t -ℤ u) ≡ true) × AreSpaced (u ∷ us)
