-- ===== src/Link/Accepted.antt =====
-- A peer that takes part in the rotation is never locked out.
use net_tls.Prelude.{ℕ, ◌≡◌, inl, refl, sym, subst, Bool, true, none, []}
use net_tls.Prelude.Text.{Str}
use net_tls.Announcement.{fingerprint_of}
use net_tls.Generations.{from_approval, from_der, verify_server_cert}
use net_tls.Host.{Host}
use net_tls.Lockbox.RoundTrip.{SealLaws}
use net_tls.Material.{leaf}
use net_tls.Schedule.Names.{mem}
use net_tls.Store.RoundTrip.{PemLaws}
use net_tls.Announcer.{World, Config}
use net_tls.Announcer.Chain.{IsBackedBy}
use net_tls.Link.{Link, Step, Reach, prepares, receives, acks, others, rolls, connects, here, next}
use net_tls.Link.Holding.{Lets, IsIdle, IsKeptFor, connect-Lets}
use net_tls.Link.Promise.{Holding, receives-Holding, connects-Holding}
use net_tls.Link.Receipts.{acks-Holding, others-Holding}
use net_tls.Link.Prepares.{prepares-Holding}
use net_tls.Link.Switching.{rolls-Holding}

-- An announcer that serves the certificate that it calls its own and has nothing out, with this peer
-- in its schedule.
pub record IsReady (h : Host) (name : Str) (w : World) : Type 0 where
  pub synced : w.material.current.0 ≡ w.serving.fingerprint
  pub named : fingerprint_of h.libs (leaf w.serving.certified.0) ≡ w.serving.fingerprint
  pub quiet : w.pending ≡ none
  pub idle : IsIdle w.schedule.state
  pub registered : mem name w.schedule.peers ≡ true

-- The peer's operator has approved the certificate that is served.
unfoldable pub approved : Host → World → Link
approved h w = record {
  world = w;
  peer = from_approval (from_der h.libs (leaf w.serving.certified.0));
  receipts = [];
}

module _ (h : Host) (works : ℕ → Bool) (c : Config) (name : Str) (laws : PemLaws h)
    (seals : SealLaws h) where
  Step-Holding : {s t : Link} → Step h works c name s t → Holding h c name s → Holding h c name t
  Step-Holding (prepares s now k w e fresh) =
      prepares-Holding h works c name laws seals s now k w e fresh
  Step-Holding (receives s p r g pends e) = receives-Holding h c name s p r g pends e
  Step-Holding (acks s p pends sent) = acks-Holding h c name s p pends sent
  Step-Holding (others s other differs) = others-Holding h c name s other differs
  Step-Holding (rolls s now safe r w e) = rolls-Holding h works c name s now safe r w e
  Step-Holding (connects s) = connects-Holding h c name s

  Reach-Holding : {s t : Link} → Reach h works c name s t → Holding h c name s → Holding h c name t
  Reach-Holding here holds = holds
  Reach-Holding (next r step) holds = Step-Holding step (Reach-Holding r holds)

  approved-Holding : (w : World) → IsReady h name w → Holding h c name (approved h w)
  unfolding approved from_approval from_der
  approved-Holding w ready = record {
    synced = ready.synced;
    named = ready.named;
    backed = subst (IsBackedBy h c w.machine.files) (sym ready.quiet) tt;
    registered = ready.registered;
    own = (refl, tt);
    lets = inl ready.named;
    promise =
        subst
          (λ o.
            IsKeptFor name o w.schedule.state w.serving.fingerprint
              (from_approval (from_der h.libs (leaf w.serving.certified.0))) [])
          (sym ready.quiet) ready.idle;
  }

  -- In every state that an announcer and an approved peer reach, whatever the order of announcements,
  -- receipts, switches and connections: the certificate that is served is let in by the peer.
  pub served-accepted :
      (w : World) (s : Link)
      → IsReady h name w
      → Reach h works c name (approved h w) s
      → (verify_server_cert h.libs s.peer (leaf s.world.serving.certified.0)).1 ≡ true
  served-accepted w s ready run =
      let holds = Reach-Holding run (approved-Holding w ready) in
      (connect-Lets h.libs s.peer (leaf s.world.serving.certified.0) holds.own
        (subst (Lets s.peer) (sym holds.named) holds.lets)).0
