-- ===== src/Report/Signals.antt =====
-- What a report is made of, in the terms of the certificate, the announcer and the peers.
use net_tls.Prelude.{
  ℕ, zero, suc, ◌+◌, ◌/◌, ◌≡◌, ◌↔◌, ◌⊎◌, inl, inr, refl, ◌∙◌, Bool, true, false, ◌||◌, Option, none,
  some, some-inj, List, [], ◌∷◌, arith, is_empty, any, All, leb,
}
use net_tls.Prelude.Int.{
  ℤ, pos, negsuc, pos_part, neg_part, ltb_ℤ, leb_ℤ, ◌+ℤ◌, ◌-ℤ◌, ◌≤ℤ◌, ◌<ℤ◌, IsMoment, -ℤ_parts,
  +ℤ_parts,
}
use net_tls.Prelude.Text.{Str}
use net_tls.Material.{TlsMaterial}
use net_tls.Modes.{mode1_should_warn}
use net_tls.Schedule.Retry.{Status}
use net_tls.Report.{
  PeerReport, PeerState, quiet, rotation_pending, broken, negated, is_broken, is_pending,
  whole_days, days_until_expiry, rotation_from, alarm_of, stopping_of, waiting_of,
}

abbrev pub has : (PeerState → Bool) → List PeerReport → Bool
has test peers = any (λ (p : PeerReport). test p.state) peers

-- Some peer is in this state.
abbrev pub SomePeer : PeerState → List PeerReport → Type 0
SomePeer state [] = ⊥
SomePeer state (p ∷ ps) = (p.state ≡ state) ⊎ SomePeer state ps

-- A chain is broken, a whole day has passed since the certificate expired, or the announcer's status
-- has no seconds left or an alarm.
abbrev pub IsRed : ℤ → TlsMaterial → Option Status → List PeerReport → Type 0
IsRed clock m status peers =
    SomePeer broken peers
    ⊎ (m.not_after +ℤ pos 86400 ≤ℤ clock)
    ⊎ ((s : Status) × (status ≡ some s) × (s.seconds_until_stop ≤ℤ pos 0))
    ⊎ ((s : Status) × (status ≡ some s) × (s.alarm ≡ true))

-- Every peer is quiet, the certificate is not a day over and does not expire within thirty days, and the
-- status, if there is one, has seconds left, no alarm and nobody to wait for.
abbrev pub IsGreen : ℤ → ℤ → TlsMaterial → Option Status → List PeerReport → Type 0
IsGreen now clock m status peers =
    All (λ (p : PeerReport). p.state ≡ quiet) peers
    × (clock <ℤ m.not_after +ℤ pos 86400)
    × (now +ℤ pos 2592000 <ℤ m.not_after)
    × ((s : Status)
        → status ≡ some s
        → (pos 0 <ℤ s.seconds_until_stop) × (s.alarm ≡ false) × (s.waiting_for ≡ []))

has-broken_iff : (peers : List PeerReport) → (has is_broken peers ≡ true) ↔ SomePeer broken peers
has-broken_iff [] = (λ h. cc, λ h. absurd h)
has-broken_iff (p ∷ ps) = split p.state (has-broken_iff ps)
  where
    split :
        (st : PeerState)
        → (has is_broken ps ≡ true) ↔ SomePeer broken ps
        → ((is_broken st || has is_broken ps) ≡ true) ↔ ((st ≡ broken) ⊎ SomePeer broken ps)
    split broken k = (λ h. inl refl, λ h. refl)
    split quiet k = (λ h. inr (k.0 h), λ h. elim h [ inl e ↦ cc | inr q ↦ k.1 q ])
    split rotation_pending k = (λ h. inr (k.0 h), λ h. elim h [ inl e ↦ cc | inr q ↦ k.1 q ])

quiet_iff :
    (peers : List PeerReport)
    → ((has is_broken peers ≡ false) × (has is_pending peers ≡ false))
      ↔ All (λ (p : PeerReport). p.state ≡ quiet) peers
quiet_iff [] = (λ h. tt, λ h. (refl, refl))
quiet_iff (p ∷ ps) = split p.state (quiet_iff ps)
  where
    split :
        (st : PeerState)
        → ((has is_broken ps ≡ false) × (has is_pending ps ≡ false))
          ↔ All (λ (p : PeerReport). p.state ≡ quiet) ps
        → (((is_broken st || has is_broken ps) ≡ false)
            × ((is_pending st || has is_pending ps) ≡ false))
          ↔ ((st ≡ quiet) × All (λ (p : PeerReport). p.state ≡ quiet) ps)
    split quiet k = (λ h. (refl, k.0 h), λ h. k.1 h.1)
    split broken k = (λ h. absurd (ground (arith, h.0)), λ h. cc)
    split rotation_pending k = (λ h. absurd (ground (arith, h.1)), λ h. cc)

whole_days-negative : (a : ℤ) → ltb_ℤ (whole_days a) (pos 0) ≡ leb 86400 (neg_part a)
unfolding whole_days
whole_days-negative (pos n) = ground arith
whole_days-negative (negsuc n) = split (suc n / 86400) refl
  where
    split : (q : ℕ) → suc n / 86400 ≡ q → ltb_ℤ (negated q) (pos 0) ≡ leb 86400 (suc n)
    split zero e = ground (arith, e)
    split (suc q) e = ground (arith, e)

day-over :
    (d : ℤ) (p n : ℕ) → pos_part d + n ≡ neg_part d + p → leb 86400 (neg_part d) ≡ leb (p + 86400) n
day-over (pos x) p n e = ground (arith, e)
day-over (negsuc x) p n e = ground (arith, e)

-- The days are negative exactly when a whole day has passed.
days-negative :
    (m : TlsMaterial) (clock : ℤ)
    → IsMoment m.not_after
    → IsMoment clock
    → ltb_ℤ (days_until_expiry m clock) (pos 0) ≡ leb_ℤ (m.not_after +ℤ pos 86400) clock
unfolding days_until_expiry
days-negative m clock expiry moment =
    let diff = -ℤ_parts m.not_after clock (omega (arith, expiry)) (omega (arith, moment)) in
    let sum = +ℤ_parts m.not_after (pos 86400) (omega (arith, expiry)) (omega arith) in
    whole_days-negative (m.not_after -ℤ clock)
    ∙ day-over (m.not_after -ℤ clock) (pos_part m.not_after + neg_part clock)
        (neg_part m.not_after + pos_part clock) (omega (arith, diff))
    ∙ ground (arith, sum)

warns_within :
    (now expires : ℤ)
    → IsMoment now
    → IsMoment expires
    → mode1_should_warn now expires ≡ leb_ℤ expires (now +ℤ pos 2592000)
unfolding mode1_should_warn
warns_within now expires moment expiry =
    let diff = -ℤ_parts expires now (omega (arith, expiry)) (omega (arith, moment)) in
    let sum = +ℤ_parts now (pos 2592000) (omega (arith, moment)) (omega arith) in
    ground (arith, diff, sum)

stopping_iff :
    (status : Option Status)
    → (stopping_of (rotation_from status) ≡ true)
      ↔ ((s : Status) × (status ≡ some s) × (s.seconds_until_stop ≤ℤ pos 0))
stopping_iff none = (λ h. cc, λ h. cc)
stopping_iff (some t) = (
  λ h. (t, refl, ground (arith, h)),
  λ h. let e : t ≡ h.0 = some-inj h.1 in rw e (ground (arith, h.2)),
)

alarm_iff :
    (status : Option Status)
    → (alarm_of (rotation_from status) ≡ true)
      ↔ ((s : Status) × (status ≡ some s) × (s.alarm ≡ true))
alarm_iff none = (λ h. cc, λ h. cc)
alarm_iff (some t) = (λ h. (t, refl, h), λ h. let e : t ≡ h.0 = some-inj h.1 in rw e h.2)

calm_iff :
    (status : Option Status)
    → ((stopping_of (rotation_from status) ≡ false)
        × (alarm_of (rotation_from status) ≡ false)
        × (is_empty (waiting_of (rotation_from status)) ≡ true))
      ↔ ((s : Status)
          → status ≡ some s
          → (pos 0 <ℤ s.seconds_until_stop) × (s.alarm ≡ false) × (s.waiting_for ≡ []))
calm_iff none = (λ h s e. cc, λ h. (refl, refl, refl))
calm_iff (some t) = (
  λ (h, k, w) s e.
      let same_status : t ≡ s = some-inj e in
      rw (← same_status) (ground (arith, h), k, none_left t.waiting_for w),
  λ h. let (a, b, w) = h t refl in (ground (arith, a), b, rw w refl),
)
  where
    none_left : (names : List Str) → is_empty names ≡ true → names ≡ []
    none_left [] e = refl
    none_left (x ∷ xs) e = cc

pub IsRed-iff :
    (clock : ℤ) (m : TlsMaterial) (status : Option Status) (peers : List PeerReport)
    → IsMoment clock
    → IsMoment m.not_after
    → ((has is_broken peers ≡ true)
        ⊎ (ltb_ℤ (days_until_expiry m clock) (pos 0) ≡ true)
        ⊎ (stopping_of (rotation_from status) ≡ true)
        ⊎ (alarm_of (rotation_from status) ≡ true))
      ↔ IsRed clock m status peers
IsRed-iff clock m status peers moment expiry =
    let days = days-negative m clock expiry moment in
    (
      λ h. elim h [
        | inl q ↦ inl ((has-broken_iff peers).0 q)
        | inr (inl q) ↦ inr (inl (ground (arith, days, q)))
        | inr (inr (inl q)) ↦ inr (inr (inl ((stopping_iff status).0 q)))
        | inr (inr (inr q)) ↦ inr (inr (inr ((alarm_iff status).0 q)))
      ],
      λ h. elim h [
        | inl q ↦ inl ((has-broken_iff peers).1 q)
        | inr (inl q) ↦ inr (inl (ground (arith, days, q)))
        | inr (inr (inl q)) ↦ inr (inr (inl ((stopping_iff status).1 q)))
        | inr (inr (inr q)) ↦ inr (inr (inr ((alarm_iff status).1 q)))
      ],
    )

pub IsGreen-iff :
    (now clock : ℤ) (m : TlsMaterial) (status : Option Status) (peers : List PeerReport)
    → IsMoment now
    → IsMoment clock
    → IsMoment m.not_after
    → ((has is_broken peers ≡ false)
        × (ltb_ℤ (days_until_expiry m clock) (pos 0) ≡ false)
        × (stopping_of (rotation_from status) ≡ false)
        × (alarm_of (rotation_from status) ≡ false)
        × (mode1_should_warn now m.not_after ≡ false)
        × (is_empty (waiting_of (rotation_from status)) ≡ true)
        × (has is_pending peers ≡ false))
      ↔ IsGreen now clock m status peers
IsGreen-iff now clock m status peers called moment expiry =
    let days = days-negative m clock expiry moment in
    let warns = warns_within now m.not_after called expiry in
    (
      λ (a, b, c, d, e, f, g). (
        (quiet_iff peers).0 (a, g),
        ground (arith, days, b),
        ground (arith, warns, e),
        (calm_iff status).0 (c, d, f),
      ),
      λ (q, b, e, k).
          let (a, g) = (quiet_iff peers).1 q in
          let (c, d, f) = (calm_iff status).1 k in
          (a, ground (arith, days, b), c, d, ground (arith, warns, e), f, g),
    )
