-- ===== src/Link/Promise.antt =====
-- What holds on a connection, and that announcements, receipts and connections keep it.
use net_tls.Prelude.{◌≡◌, sym, ap, ◌∙◌, subst, true, false, Option, none, some, ◌∷◌}
use net_tls.Prelude.Text.{Str, Bytes, same}
use net_tls.Error.{ok}
use net_tls.Announcement.{fingerprint_of}
use net_tls.Generations.{Generations, Received, receive, verify_server_cert}
use net_tls.Generations.Handshake.{HasFingerprint}
use net_tls.Host.{Host}
use net_tls.Material.{leaf}
use net_tls.Schedule.{ChainState, idle, announced}
use net_tls.Schedule.Names.{mem}
use net_tls.Store.Pending.{Pending}
use net_tls.Announcer.{Config}
use net_tls.Announcer.Chain.{IsBacked}
use net_tls.Link.{Link}
use net_tls.Link.Holding.{AllOwn, Lets, Waits, IsPromised, IsKeptFor, receive-Lets, connect-Lets}

module _ (h : Host) (c : Config) (name : Str) where
  pub record Holding (s : Link) : Type 0 where
    pub synced : s.world.material.current.0 ≡ s.world.serving.fingerprint
    pub named :
        fingerprint_of h.libs (leaf s.world.serving.certified.0) ≡ s.world.serving.fingerprint
    pub backed : IsBacked h c s.world
    pub registered : mem name s.world.schedule.peers ≡ true
    pub own : AllOwn h.libs s.peer
    pub lets : Lets s.peer s.world.serving.fingerprint
    pub promise :
        IsKeptFor name s.world.pending s.world.schedule.state s.world.serving.fingerprint s.peer
          s.receipts

  -- The peer reads the announcement that is out and writes a receipt.
  pub receives-Holding :
      (s : Link) (p : Pending) (r : Received) (g : Generations)
      → s.world.pending ≡ some p
      → receive h.libs s.peer p.announcement ≡ (g, ok r)
      → Holding s
      → Holding (record s { peer = g; receipts = p.announcement.new_fp ∷ s.receipts })
  receives-Holding s p r g pends e holds =
      let promise : IsPromised name s.world.serving.fingerprint s.world.schedule.state s.peer
          s.receipts p.announcement =
        subst
          (λ o.
            IsKeptFor name o s.world.schedule.state s.world.serving.fingerprint s.peer s.receipts)
          pends holds.promise in
      let (own, lets, stored) =
        receive-Lets h.libs s.peer g p.announcement r holds.own
          (subst (Lets s.peer) (sym promise.signed) holds.lets) e in
      record {
        synced = holds.synced;
        named = holds.named;
        backed = holds.backed;
        registered = holds.registered;
        own = own;
        lets = subst (Lets g) promise.signed lets;
        promise =
            subst
              (λ o.
                IsKeptFor name o s.world.schedule.state s.world.serving.fingerprint g
                  (p.announcement.new_fp ∷ s.receipts))
              (sym pends)
              (record {
                differs = promise.differs;
                signed = promise.signed;
                receipt = λ _. stored;
                waits = waits s.world.schedule.state promise.waits stored;
              });
      }
    where
      waits :
          (t : ChainState)
          → Waits name t s.peer p.announcement.new_fp
          → HasFingerprint g.next p.announcement.new_fp
          → Waits name t g p.announcement.new_fp
      waits (idle t) w stored = w
      waits (announced ws t) w stored = λ _. stored

  -- The peer connects.
  pub connects-Holding :
      (s : Link)
      → Holding s
      → Holding (record s {
        peer = (verify_server_cert h.libs s.peer (leaf s.world.serving.certified.0)).0;
      })
  connects-Holding s holds =
      let cert : Bytes = leaf s.world.serving.certified.0 in
      let (_, own, lets, keeps) =
        connect-Lets h.libs s.peer cert holds.own
          (subst (Lets s.peer) (sym holds.named) holds.lets) in
      record {
        synced = holds.synced;
        named = holds.named;
        backed = holds.backed;
        registered = holds.registered;
        own = own;
        lets = subst (Lets (verify_server_cert h.libs s.peer cert).0) holds.named lets;
        promise =
            kept s.world.pending s.world.schedule.state holds.promise
              (λ fp differs. keeps fp (ap (same fp) holds.named ∙ differs));
      }
    where
      kept :
          (o : Option Pending) (t : ChainState)
          → IsKeptFor name o t s.world.serving.fingerprint s.peer s.receipts
          → ((x : Str)
              → same x s.world.serving.fingerprint ≡ false
              → HasFingerprint s.peer.next x
              → HasFingerprint
                  (verify_server_cert h.libs s.peer (leaf s.world.serving.certified.0)).0.next
                  x)
          → IsKeptFor name o t s.world.serving.fingerprint
              (verify_server_cert h.libs s.peer (leaf s.world.serving.certified.0)).0
              s.receipts
      kept none t q keeps = q
      kept (some p) (idle t) q keeps = absurd q.waits
      kept (some p) (announced ws t) q keeps = record {
        differs = q.differs;
        signed = q.signed;
        receipt = λ m. keeps p.announcement.new_fp q.differs (q.receipt m);
        waits = λ m. keeps p.announcement.new_fp q.differs (q.waits m);
      }
