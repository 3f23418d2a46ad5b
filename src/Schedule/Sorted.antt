-- ===== src/Schedule/Sorted.antt =====
-- The sets of a `Schedule` stay sorted without repetition, so that a restart gives them back as they were.
use net_tls.Prelude.{
  ℕ, ◌≡◌, refl, sym, ap, true, false, Option, none, some, List, [], ◌∷◌, arith, All, All-mono,
  Bool-cases, inl, inr, some-inj,
}
use net_tls.Prelude.Int.{ℤ}
use net_tls.Prelude.Text.{Str, Bytes, same, same→eq}
use net_tls.Error.{Result, ok, err}
use net_tls.Schedule.Names.{lt, insert, remove, collect}
use net_tls.Schedule.{
  Schedule, ChainState, idle, announced, new, if_announced, add_peer, remove_peer, announce,
  announce_from, acked, rolled, roll_to, draw_roll_time, restore_announced, waiting_for,
  first_announced,
}
use net_tls.Schedule.Runs.{Runs, start, adds, removes, announces, acks, rolls, restarts}

abbrev pub IsSorted : List Str → Type 0
IsSorted [] = Unit
IsSorted (x ∷ xs) = All (λ y. lt x y ≡ true) xs × IsSorted xs

lt_trans : (x y z : Str) → lt x y ≡ true → lt y z ≡ true → lt x z ≡ true
lt_trans [] [] z h k = cc
lt_trans [] (b ∷ y) [] h k = cc
lt_trans [] (b ∷ y) (c ∷ z) h k = refl
lt_trans (a ∷ x) [] z h k = cc
lt_trans (a ∷ x) (b ∷ y) [] h k = cc
lt_trans (a ∷ x) (b ∷ y) (c ∷ z) h k = ground (arith, lt_trans x y z)

lt_of_not : (x y : Str) → same x y ≡ false → lt x y ≡ false → lt y x ≡ true
lt_of_not [] [] h k = cc
lt_of_not [] (b ∷ y) h k = cc
lt_of_not (a ∷ x) [] h k = refl
lt_of_not (a ∷ x) (b ∷ y) h k = ground (arith, lt_of_not x y)

insert-All : (P : Str → Type 0) (x : Str) (xs : List Str) → P x → All P xs → All P (insert x xs)
unfolding insert
insert-All P x [] p h = (p, tt)
insert-All P x (y ∷ ys) p (q, h) = elim (Bool-cases (same x y)) [
  | inl e ↦ rw e (q, h)
  | inr e ↦ elim (Bool-cases (lt x y)) [
    | inl k ↦ rw (e, k) (p, (q, h))
    | inr k ↦ rw (e, k) (q, insert-All P x ys p h)
  ]
]

insert-IsSorted : (x : Str) (xs : List Str) → IsSorted xs → IsSorted (insert x xs)
unfolding insert
insert-IsSorted x [] h = (tt, tt)
insert-IsSorted x (y ∷ ys) (q, h) = elim (Bool-cases (same x y)) [
  | inl e ↦ rw e (q, h)
  | inr e ↦ elim (Bool-cases (lt x y)) [
    | inl k ↦ rw (e, k) ((k, All-mono _ _ (λ z m. lt_trans x y z k m) ys q), (q, h))
    | inr k ↦
        rw (e, k)
          (insert-All (λ z. lt y z ≡ true) x ys (lt_of_not x y e k) q, insert-IsSorted x ys h)
  ]
]

remove-All : (P : Str → Type 0) (x : Str) (xs : List Str) → All P xs → All P (remove x xs)
unfolding remove
remove-All P x [] h = tt
remove-All P x (y ∷ ys) (q, h) = elim (Bool-cases (same x y)) [
  | inl e ↦ rw e (remove-All P x ys h)
  | inr e ↦ rw e (q, remove-All P x ys h)
]

remove-IsSorted : (x : Str) (xs : List Str) → IsSorted xs → IsSorted (remove x xs)
unfolding remove
remove-IsSorted x [] h = tt
remove-IsSorted x (y ∷ ys) (q, h) = elim (Bool-cases (same x y)) [
  | inl e ↦ rw e (remove-IsSorted x ys h)
  | inr e ↦ rw e (remove-All _ x ys q, remove-IsSorted x ys h)
]

collect-IsSorted : (xs : List Str) → IsSorted (collect xs)
unfolding collect
collect-IsSorted [] = tt
collect-IsSorted (x ∷ xs) = insert-IsSorted x (collect xs) (collect-IsSorted xs)

lt_irrefl : (x : Str) → lt x x ≡ false
lt_irrefl [] = refl
lt_irrefl (a ∷ x) = ground (arith, lt_irrefl x)

lt-same : (x y : Str) → lt x y ≡ true → same x y ≡ false
lt-same x y h = elim (Bool-cases (same x y)) [
  | inl e ↦ absurd (ground (arith, same→eq x y e, lt_irrefl x))
  | inr e ↦ e
]

insert_min : (x : Str) (xs : List Str) → All (λ y. lt x y ≡ true) xs → insert x xs ≡ x ∷ xs
unfolding insert
insert_min x [] h = refl
insert_min x (y ∷ ys) (k, h) = rw (lt-same x y k, k) refl

-- What is sorted already is collected as it is.
pub collect-sorted : (xs : List Str) → IsSorted xs → collect xs ≡ xs
unfolding collect
collect-sorted [] h = refl
collect-sorted (x ∷ xs) (q, h) = rw (collect-sorted xs h) (insert_min x xs q)

abbrev SortedIn : ChainState → Type 0
SortedIn (idle t) = Unit
SortedIn (announced w t) = IsSorted w

pub record IsSortedState (s : Schedule) : Type 0 where
  pub peers : IsSorted s.peers
  pub waiting : SortedIn s.state

if_announced-Sorted :
    (f : List Str → List Str) (c : ChainState)
    → ((w : List Str) → IsSorted w → IsSorted (f w))
    → SortedIn c
    → SortedIn (if_announced f c)
if_announced-Sorted f (idle t) k h = tt
if_announced-Sorted f (announced w t) k h = k w h

announce_from-Sorted :
    (c : ChainState) (s : Schedule) (now : ℤ)
    → IsSortedState s
    → IsSortedState (announce_from c s now)
announce_from-Sorted (idle t) s now h = record { peers = h.peers; waiting = h.peers }
announce_from-Sorted (announced w t) s now h = h

roll_to-Sorted :
    (s : Schedule) (now : ℤ) (r : Result ℤ) → IsSortedState s → IsSortedState (roll_to s now r).0
roll_to-Sorted s now (ok t) h = record { peers = h.peers; waiting = tt }
roll_to-Sorted s now (err e) h = record { peers = h.peers; waiting = h.waiting }

module _ {random_bytes : ℕ → Option Bytes} where
  -- The registered and the awaited peers are sorted without repetition in every run.
  pub runs-IsSortedState :
      {s : Schedule} {h : List Str} {r : List ℤ} → Runs random_bytes s h r → IsSortedState s
  unfolding new add_peer remove_peer announce acked rolled restore_announced
  runs-IsSortedState (start names t) = record { peers = collect-IsSorted names; waiting = tt }
  runs-IsSortedState (adds {s} name run) =
      let i = runs-IsSortedState run in
      record {
        peers = insert-IsSorted name s.peers i.peers;
        waiting = if_announced-Sorted (insert name) s.state (insert-IsSorted name) i.waiting;
      }
  runs-IsSortedState (removes {s} name run) =
      let i = runs-IsSortedState run in
      record {
        peers = remove-IsSorted name s.peers i.peers;
        waiting = if_announced-Sorted (remove name) s.state (remove-IsSorted name) i.waiting;
      }
  runs-IsSortedState (announces {s} now run) =
      announce_from-Sorted s.state s now (runs-IsSortedState run)
  runs-IsSortedState (acks {s} peer run) =
      let i = runs-IsSortedState run in
      record {
        peers = i.peers;
        waiting = if_announced-Sorted (remove peer) s.state (remove-IsSorted peer) i.waiting;
      }
  runs-IsSortedState (rolls {s} now run c) =
      roll_to-Sorted s now (draw_roll_time random_bytes now) (runs-IsSortedState run)
  runs-IsSortedState (restarts {s} names attempt_at t run e p) = record {
    peers = collect-IsSorted names;
    waiting = collect-IsSorted (waiting_for s);
  }

  -- A restart that reads back who is waited for and since when finds the same state.
  pub restore_announced-waiting_for :
      {s : Schedule} {h : List Str} {r : List ℤ} (fresh : Schedule) (t : ℤ)
      → Runs random_bytes s h r
      → first_announced s ≡ some t
      → (restore_announced fresh (waiting_for s) t).state ≡ s.state
  unfolding restore_announced waiting_for first_announced
  restore_announced-waiting_for {s} fresh t run e =
      same_state s.state (runs-IsSortedState run).waiting e
    where
      same_state :
          (c : ChainState)
          → SortedIn c
          → elim c as (λ _. Option ℤ) [ idle t ↦ none | announced w t ↦ some t ] ≡ some t
          → announced (collect (elim c as (λ _. List Str) [ idle t ↦ [] | announced w t ↦ w ])) t
            ≡ c
      same_state (idle u) h e = cc
      same_state (announced w u) h e = rw (collect-sorted w h) (ap (announced w) (sym (some-inj e)))
