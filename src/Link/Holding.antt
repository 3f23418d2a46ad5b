-- ===== src/Link/Holding.antt =====
-- What an announcer and a peer keep between them, and what the peer's own steps do to it.
use net_tls.Prelude.{
  ◌≡◌, ◌⊎◌, inl, inr, refl, sym, ap, ◌∙◌, subst, true, false, Option, none, some, List, arith,
}
use net_tls.Prelude.Text.{Str, Bytes, same, same_refl}
use net_tls.Error.{TlsError, Result, ok, err}
use net_tls.Announcement.{Announcement, fingerprint_of}
use net_tls.External.{Libs}
use net_tls.Generations.{Generations, Received, receive, verify_server_cert}
use net_tls.Generations.Handshake.{HasFingerprint, handshake_state, handshake_iff}
use net_tls.Generations.Receive.{IsGeneration, AreGenerations, receive_cases}
use net_tls.Schedule.{ChainState, idle, announced}
use net_tls.Schedule.Names.{mem}
use net_tls.Store.Pending.{Pending}

abbrev pub AllOwn : Libs → Generations → Type 0
AllOwn l g = IsGeneration l g.current × AreGenerations l g.next

-- The peer would let this certificate in.
abbrev pub Lets : Generations → Str → Type 0
Lets g fp = (g.current.fp ≡ fp) ⊎ HasFingerprint g.next fp

-- Nobody counts as ready who has not stored the announcement.
abbrev pub Waits : Str → ChainState → Generations → Str → Type 0
Waits name (idle t) g fp = ⊥
Waits name (announced w t) g fp = mem name w ≡ false → HasFingerprint g.next fp

-- An announcement that is out names the certificate that is served, and another as the next; who has
-- written a receipt for it or is not waited for has stored it.
pub record IsPromised (name : Str) (serving : Str) (state : ChainState) (g : Generations)
    (receipts : List Str) (k : Announcement) : Type 0 where
  pub differs : same k.new_fp serving ≡ false
  pub signed : k.curr_fp ≡ serving
  pub receipt : mem k.new_fp receipts ≡ true → HasFingerprint g.next k.new_fp
  pub waits : Waits name state g k.new_fp

abbrev pub IsIdle : ChainState → Type 0
IsIdle (idle t) = Unit
IsIdle (announced w t) = ⊥

abbrev pub IsKeptFor : Str → Option Pending → ChainState → Str → Generations → List Str → Type 0
IsKeptFor name none state serving g receipts = IsIdle state
IsKeptFor name (some p) state serving g receipts =
    IsPromised name serving state g receipts p.announcement

module _ (l : Libs) where
  -- Reading the announcement that is out: it is stored, and the served certificate is still let in.
  pub receive-Lets :
      (g g' : Generations) (k : Announcement) (r : Received)
      → AllOwn l g
      → Lets g k.curr_fp
      → receive l g k ≡ (g', ok r)
      → AllOwn l g' × Lets g' k.curr_fp × HasFingerprint g'.next k.new_fp
  receive-Lets g g' k r own lets e = elim (receive_cases l g k) [
    | inl (is_known, e') ↦
        let same_g : g ≡ g' = ap (λ x. x.0) (sym e' ∙ e) in
        subst (λ x. AllOwn l x × Lets x k.curr_fp × HasFingerprint x.next k.new_fp) same_g
          (own, lets, is_known)
    | inr (inl (_, holds, (n, fp, n_own, e'))) ↦
        let same_g : record g { next = some n } ≡ g' = ap (λ x. x.0) (sym e' ∙ e) in
        subst (λ x. AllOwn l x × Lets x k.curr_fp × HasFingerprint x.next k.new_fp) same_g
          ((own.0, n_own), inl (own.0 ∙ holds.current), fp)
    | inr (inr (_, _, (x, e'))) ↦ absurd (failed x (sym e' ∙ e))
  ]
    where
      failed : (x : TlsError) → ◌≡◌ {A = Generations × Result Received} (g, err x) (g', ok r) → ⊥
      failed x e = cc

  -- A connection to the served certificate: it is let in, and nothing else is forgotten.
  pub connect-Lets :
      (g : Generations) (cert : Bytes)
      → AllOwn l g
      → Lets g (fingerprint_of l cert)
      → ((verify_server_cert l g cert).1 ≡ true)
        × AllOwn l (verify_server_cert l g cert).0
        × Lets (verify_server_cert l g cert).0 (fingerprint_of l cert)
        × ((fp : Str)
            → same fp (fingerprint_of l cert) ≡ false
            → HasFingerprint g.next fp
            → HasFingerprint (verify_server_cert l g cert).0.next fp)
  connect-Lets g cert own lets = elim (handshake_state l g cert) [
    | inl (n, is_next, fp, e) ↦ rw e (
      refl,
      (rw is_next at own.1, tt),
      inl fp,
      λ other differs has. absurd (ground (arith, rw is_next at has, same_refl other)),
    )
    | inr (not_next, e) ↦
        rw e ((handshake_iff l g cert).1 lets, own, lets, λ other differs has. has)
  ]
