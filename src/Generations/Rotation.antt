-- ===== src/Generations/Rotation.antt =====
-- One whole rotation, from the announcer's announcement to the peer's first handshake after it.
use net_tls.Prelude.{◌≡◌, ◌≢◌, inl, inr, refl, sym, ap, ◌∙◌, Bool, true, false, Option, some, arith}
use net_tls.Prelude.Int.{ℤ}
use net_tls.Prelude.Text.{Str, Bytes, same, same→eq, same_refl}
use net_tls.Error.{ok}
use net_tls.External.{Libs}
use net_tls.Announcement.{Announcement, fingerprint_of, new}
use net_tls.Announcement.Verify.{verify_iff}
use net_tls.Announcement.Honest.{IsKeyOf, Knows, verify-new}
use net_tls.Generations.{Generation, Generations, stored, der_if, receive, verify_server_cert}
use net_tls.Generations.Handshake.{HasFingerprint, promoted, handshake-none, handshake-some}
use net_tls.Generations.Receive.{IsGeneration, receive_cases}

module _ (l : Libs) where
  -- What a rotation leads a peer through: it stores the announced certificate; until the switch it
  -- lets the old certificate in and stays as it is; the first handshake with the new one promotes it,
  -- and from then on the new one is let in and the old one is not.
  pub record Rotates (g : Generations) (a : Announcement) (old cert : Bytes) : Type 0 where
    pub next : Generation
    pub announced : next.fp ≡ a.new_fp
    pub stores : receive l g a ≡ (record g { next = some next }, ok stored)
    pub before :
        verify_server_cert l (record g { next = some next }) old
        ≡ (record g { next = some next }, true)
    pub switch : verify_server_cert l (record g { next = some next }) cert ≡ (promoted g next, true)
    pub new_in : verify_server_cert l (promoted g next) cert ≡ (promoted g next, true)
    pub old_out : verify_server_cert l (promoted g next) old ≡ (promoted g next, false)

  after_store :
      (g : Generations) (a : Announcement) (n : Generation) (cert : Bytes)
      → IsGeneration l g.current
      → a.new_fp ≢ g.current.fp
      → n.fp ≡ a.new_fp
      → fingerprint_of l cert ≡ a.new_fp
      → receive l g a ≡ (record g { next = some n }, ok stored)
      → Rotates g a g.current.der cert
  after_store g a n cert own ne fp c h =
      let e : n.fp ≡ fingerprint_of l cert = fp ∙ sym c in
      let differ : same n.fp g.current.fp ≡ false = not_same (same n.fp g.current.fp) refl in
      record {
        next = n;
        announced = fp;
        stores = h;
        before =
            rw (handshake-some l waits g.current.der n refl, ← own, differ, same_refl g.current.fp);
        switch =
            rw (handshake-some l waits cert n refl, ← e, same_refl n.fp)
              (ap (λ b. (promoted g n, b)) (ground arith));
        new_in = rw (handshake-none l (promoted g n) cert refl, ← e, same_refl n.fp);
        old_out = rw (handshake-none l (promoted g n) g.current.der refl, ← own, differ);
      }
    where
      waits : Generations
      waits = record g { next = some n }

      not_same : (b : Bool) → same n.fp g.current.fp ≡ b → b ≡ false
      not_same true k = absurd (ne (sym fp ∙ same→eq n.fp g.current.fp k))
      not_same false k = refl

  -- An announcement that the announcer makes with `new` takes a peer through a whole rotation, if the
  -- peer knows the announcer's current certificate as current and, if it has a previous one, the
  -- announcer's previous one; if it is a new certificate and not the one the peer already waits for.
  pub new-Rotates :
      (announcer : Str) (prev : Option (Str × Bytes)) (curr : Str × Bytes) (pem : Str) (sent_at : ℤ)
      (a : Announcement) (g : Generations) (cert : Bytes)
      → new l announcer prev curr pem sent_at ≡ ok a
      → IsKeyOf l curr.0 curr.1 g.current.der
      → Knows l prev (der_if g.previous)
      → IsGeneration l g.current
      → (HasFingerprint g.next a.new_fp → ⊥)
      → a.new_fp ≢ g.current.fp
      → fingerprint_of l cert ≡ a.new_fp
      → Rotates g a g.current.der cert
  new-Rotates announcer prev curr pem sent_at a g cert made k kp own fresh ne c =
      let passes =
        verify-new l announcer prev curr pem sent_at a (der_if g.previous) g.current.der k kp
          made in
      let holds = (verify_iff l a (der_if g.previous) g.current.der).0 passes in
      elim (receive_cases l g a) [
        | inl (known, _) ↦ absurd (fresh known)
        | inr (inl (_, _, (n, fp, _, e))) ↦ after_store g a n cert own ne fp c e
        | inr (inr (_, refused, _)) ↦ absurd (refused holds)
      ]
