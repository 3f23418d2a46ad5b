-- ===== src/Link/Receipts.antt =====
-- What the receipts that arrive at the announcer keep.
use net_tls.Prelude.{◌≡◌, inl, inr, sym, subst, true, false, Option, none, some, arith, Bool-cases}
use net_tls.Prelude.Text.{Str, same}
use net_tls.Generations.{Generations}
use net_tls.Generations.Handshake.{HasFingerprint}
use net_tls.Host.{Host}
use net_tls.Schedule.{ChainState, idle, announced, acked, if_announced}
use net_tls.Schedule.Names.{mem, remove, mem-remove_other}
use net_tls.Store.Pending.{Pending}
use net_tls.Announcer.{Config, acked_by}
use net_tls.Link.{Link}
use net_tls.Link.Holding.{Waits, IsPromised, IsKeptFor}
use net_tls.Link.Promise.{Holding}

-- Who is not waited for any more, behind the receipt of another, was not before.
Waits-other :
    (name other : Str) (t : ChainState) (g : Generations) (fp : Str)
    → same name other ≡ false
    → Waits name t g fp
    → Waits name (if_announced (remove other) t) g fp
Waits-other name other (idle t) g fp differs w = w
Waits-other name other (announced ws t) g fp differs w = λ gone.
    w (elim (Bool-cases (mem name ws)) [
      | inl still ↦ absurd (ground (arith, mem-remove_other name other ws differs still, gone))
      | inr absent ↦ absent
    ])

-- Once the announcement is stored, nothing more is asked of who is waited for.
Waits-stored :
    (name other : Str) (t : ChainState) (g : Generations) (fp : Str)
    → Waits name t g fp
    → HasFingerprint g.next fp
    → Waits name (if_announced (remove other) t) g fp
Waits-stored name other (idle t) g fp w stored = w
Waits-stored name other (announced ws t) g fp w stored = λ _. stored

module _ (h : Host) (c : Config) (name : Str) where
  acked-Holding :
      (s : Link) (other : Str)
      → Holding h c name s
      → IsKeptFor name s.world.pending
          (if_announced (remove other) s.world.schedule.state)
          s.world.serving.fingerprint
          s.peer
          s.receipts
      → Holding h c name (record s { world = acked_by other s.world })
  unfolding acked_by acked
  acked-Holding s other holds promise = record {
    synced = holds.synced;
    named = holds.named;
    backed = holds.backed;
    registered = holds.registered;
    own = holds.own;
    lets = holds.lets;
    promise = promise;
  }

  -- A receipt of the peer arrives that names what is pending.
  pub acks-Holding :
      (s : Link) (p : Pending)
      → s.world.pending ≡ some p
      → mem p.announcement.new_fp s.receipts ≡ true
      → Holding h c name s
      → Holding h c name (record s { world = acked_by name s.world })
  acks-Holding s p pends sent holds = acked-Holding s name holds (
      subst
        (λ o.
          IsKeptFor name o (if_announced (remove name) s.world.schedule.state)
            s.world.serving.fingerprint s.peer s.receipts)
        (sym pends) promise)
    where
      before :
          IsPromised name s.world.serving.fingerprint s.world.schedule.state s.peer s.receipts
            p.announcement
      before =
          subst
            (λ o.
              IsKeptFor name o s.world.schedule.state s.world.serving.fingerprint s.peer s.receipts)
            pends holds.promise

      promise :
          IsPromised name s.world.serving.fingerprint
            (if_announced (remove name) s.world.schedule.state)
            s.peer
            s.receipts
            p.announcement
      promise = record {
        differs = before.differs;
        signed = before.signed;
        receipt = before.receipt;
        waits =
            Waits-stored name name s.world.schedule.state s.peer p.announcement.new_fp before.waits
              (before.receipt sent);
      }

  -- A receipt of another peer arrives.
  pub others-Holding :
      (s : Link) (other : Str)
      → same name other ≡ false
      → Holding h c name s
      → Holding h c name (record s { world = acked_by other s.world })
  others-Holding s other differs holds =
      acked-Holding s other holds (kept s.world.pending s.world.schedule.state holds.promise)
    where
      kept :
          (o : Option Pending) (t : ChainState)
          → IsKeptFor name o t s.world.serving.fingerprint s.peer s.receipts
          → IsKeptFor name o
              (if_announced (remove other) t)
              s.world.serving.fingerprint
              s.peer
              s.receipts
      kept none (idle t) q = q
      kept none (announced ws t) q = absurd q
      kept (some p) t q = record {
        differs = q.differs;
        signed = q.signed;
        receipt = q.receipt;
        waits = Waits-other name other t s.peer p.announcement.new_fp differs q.waits;
      }
