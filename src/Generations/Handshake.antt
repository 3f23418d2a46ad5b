-- ===== src/Generations/Handshake.antt =====
-- Which certificates a handshake accepts, and what seeing one does to the state.
use net_tls.Prelude.{
  ◌≡◌, ◌↔◌, ◌⊎◌, inl, inr, refl, ap, true, false, ◌||◌, Option, none, some, arith, Option-cases,
  Bool-cases, if◌then◌else◌,
}
use net_tls.Prelude.Text.{Str, Bytes, same, same_iff, same→eq, same_refl, same_comm}
use net_tls.External.{Libs}
use net_tls.Announcement.{fingerprint_of}
use net_tls.Generations.{Generation, Generations, has_fingerprint, verify_server_cert, both_same}

abbrev pub HasFingerprint : Option Generation → Str → Type 0
HasFingerprint none fp = ⊥
HasFingerprint (some g) fp = g.fp ≡ fp

-- The shape that `restore` enforces: three different certificates.
pub record IsDistinct (g : Generations) : Type 0 where
  pub previous_current : has_fingerprint g.previous g.current.fp ≡ false
  pub next_current : has_fingerprint g.next g.current.fp ≡ false
  pub previous_next : both_same g.previous g.next ≡ false

-- The state after the peer's next certificate has been seen.
abbrev pub promoted : Generations → Generation → Generations
promoted g n = record { previous = some g.current; current = n; next = none }

module _ (l : Libs) where
  -- The handshake with no announced certificate, and with one.
  pub handshake-none :
      (g : Generations) (cert : Bytes)
      → g.next ≡ none
      → verify_server_cert l g cert ≡ (g, same g.current.fp (fingerprint_of l cert))
  unfolding verify_server_cert
  handshake-none g cert e = ground arith

  pub handshake-some :
      (g : Generations) (cert : Bytes) (n : Generation)
      → g.next ≡ some n
      → verify_server_cert l g cert ≡ (
        if same n.fp (fingerprint_of l cert) then promoted g n else g,
        same g.current.fp (fingerprint_of l cert) || same n.fp (fingerprint_of l cert),
      )
  unfolding verify_server_cert
  handshake-some g cert n e = ground arith

  -- A handshake is accepted exactly with the fingerprint of `current` or of `next`.
  pub handshake_iff :
      (g : Generations) (cert : Bytes)
      → ((verify_server_cert l g cert).1 ≡ true)
        ↔ ((g.current.fp ≡ fingerprint_of l cert) ⊎ HasFingerprint g.next (fingerprint_of l cert))
  handshake_iff g cert = elim (Option-cases g.next) [
    | inl e ↦
        rw (handshake-none g cert e, e)
          (λ h. inl (same→eq _ _ h), λ h. elim h [ inl p ↦ (same_iff _ _).1 p | inr p ↦ absurd p ])
    | inr (n, e) ↦
        rw (handshake-some g cert n e, e)
          (
            λ h. elim (Bool-cases (same g.current.fp (fingerprint_of l cert))) [
              | inl p ↦ inl (same→eq _ _ p)
              | inr p ↦ inr (same→eq n.fp (fingerprint_of l cert) (ground arith))
            ],
            λ h. elim h [
              | inl p ↦ ground (arith, (same_iff g.current.fp (fingerprint_of l cert)).1 p)
              | inr p ↦ ground (arith, (same_iff n.fp (fingerprint_of l cert)).1 p)
            ],
          )
  ]

  -- What a handshake does to the state: it is promoted if the certificate is the announced one, and
  -- stays as it was otherwise; a refused handshake changes nothing.
  pub handshake_state :
      (g : Generations) (cert : Bytes)
      → ((n : Generation) × (g.next ≡ some n)
          × (n.fp ≡ fingerprint_of l cert)
          × (verify_server_cert l g cert ≡ (promoted g n, true)))
        ⊎ ((HasFingerprint g.next (fingerprint_of l cert) → ⊥)
            × ((verify_server_cert l g cert).0 ≡ g))
  handshake_state g cert = elim (Option-cases g.next) [
    | inl e ↦ inr (rw e (λ h. h), rw (handshake-none g cert e))
    | inr (n, e) ↦ elim (Bool-cases (same n.fp (fingerprint_of l cert))) [
      | inl p ↦ inl (
        n,
        e,
        same→eq _ _ p,
        rw (handshake-some g cert n e, p) (ap (λ b. (promoted g n, b)) (ground arith)),
      )
      | inr p ↦ inr (
        rw e (λ h. ground (arith, (same_iff n.fp (fingerprint_of l cert)).1 h)),
        rw (handshake-some g cert n e, p),
      )
    ]
  ]

  -- In a state with three different certificates the previous one is refused in a handshake, and
  -- changes nothing.
  pub handshake_old_refused :
      (g : Generations) (old : Bytes)
      → IsDistinct g
      → HasFingerprint g.previous (fingerprint_of l old)
      → verify_server_cert l g old ≡ (g, false)
  handshake_old_refused g old d h = elim (Option-cases g.previous) [
    | inl e ↦ absurd (rw e at h)
    | inr (p, e) ↦
        let fp : p.fp ≡ fingerprint_of l old = rw e at h in
        let not_current : same p.fp g.current.fp ≡ false = ground arith in
        elim (Option-cases g.next) [
          | inl none_next ↦
              rw (handshake-none g old none_next, ← fp, same_comm g.current.fp p.fp, not_current)
          | inr (n, e') ↦
              let not_next : same n.fp p.fp ≡ false = ground arith in
              rw (
                handshake-some g old n e',
                ← fp,
                same_comm g.current.fp p.fp,
                not_current,
                not_next,
              )
        ]
  ]

  -- In a state with three different certificates a handshake with the announced one makes it current
  -- and the current one previous, the state keeps its shape, and from then on the new certificate is
  -- accepted and the old one refused.
  pub handshake_promotes :
      (g : Generations) (cert old : Bytes) (n : Generation)
      → IsDistinct g
      → g.next ≡ some n
      → n.fp ≡ fingerprint_of l cert
      → g.current.fp ≡ fingerprint_of l old
      → (verify_server_cert l g cert ≡ (promoted g n, true))
        × IsDistinct (promoted g n)
        × (verify_server_cert l (promoted g n) cert ≡ (promoted g n, true))
        × (verify_server_cert l (promoted g n) old ≡ (promoted g n, false))
  handshake_promotes g cert old n d e p q =
      let differ : same n.fp g.current.fp ≡ false = ground arith in
      (
        rw (handshake-some g cert n e, ← p, same_refl n.fp)
            (ap (λ b. (promoted g n, b)) (ground arith)),
        record {
          previous_current = rw (same_comm g.current.fp n.fp) differ;
          next_current = refl;
          previous_next = refl;
        },
        rw (handshake-none (promoted g n) cert refl, ← p, same_refl n.fp),
        rw (handshake-none (promoted g n) old refl, ← q, differ),
      )
