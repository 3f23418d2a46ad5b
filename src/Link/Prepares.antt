-- ===== src/Link/Prepares.antt =====
-- What a call of `prepare` keeps.
use net_tls.Prelude.{◌≡◌, refl, sym, ap, ◌∙◌, subst, Bool, true, false, Option, none, some}
use net_tls.Prelude.Int.{ℤ}
use net_tls.Prelude.Text.{Str}
use net_tls.Error.{ok}
use net_tls.Announcement.{Announcement}
use net_tls.Host.{Host}
use net_tls.Lockbox.RoundTrip.{SealLaws}
use net_tls.Schedule.{Schedule, ChainState, idle, announced, announce, announce_from}
use net_tls.Store.RoundTrip.{PemLaws}
use net_tls.Store.Pending.{Pending}
use net_tls.Announcer.Issued.{new-current}
use net_tls.Announcer.{World, Config, prepare, prepare_from}
use net_tls.Announcer.Chain.{IsBacked}
use net_tls.Announcer.Prepare.{Prepared, prepare-IsBacked, prepare_new-Prepared, prepared_world}
use net_tls.Link.{Link, IsFresh}
use net_tls.Link.Holding.{IsIdle, IsKeptFor}
use net_tls.Link.Promise.{Holding}

-- An announcement that goes out waits for every registered peer.
announce-idle :
    (s : Schedule) (now : ℤ)
    → IsIdle s.state
    → announce s now ≡ record s { state = announced s.peers now }
unfolding announce
announce-idle s now i = split s.state i
  where
    split :
        (t : ChainState)
        → IsIdle t
        → announce_from t s now ≡ record s { state = announced s.peers now }
    split (idle t) i = refl
    split (announced w t) i = absurd i

module _ (h : Host) (works : _) (c : Config) (name : Str) (laws : PemLaws h)
    (seals : SealLaws h) where
  fresh-Holding :
      (s : Link) (now : ℤ) (k : Announcement) (w : World)
      → s.world.pending ≡ none
      → Prepared h works c s.world w k now
      → IsBacked h c w
      → IsFresh s k
      → Holding h c name s
      → Holding h c name (record s { world = w })
  fresh-Holding s now k w free made backed (differs, unsent) holds =
      let is_idle : IsIdle s.world.schedule.state =
        subst
          (λ o.
            IsKeptFor name o s.world.schedule.state s.world.serving.fingerprint s.peer s.receipts)
          free holds.promise in
      let before : World = prepared_world h works c s.world made.stored k made.fresh made.key now in
      let after : World = record before {
        schedule = record s.world.schedule { state = announced s.world.schedule.peers now };
      } in
      let result : w ≡ after =
        made.result
        ∙ ap (λ (x : Schedule). record before { schedule = x })
            (announce-idle s.world.schedule now is_idle) in
      subst (λ v. Holding h c name (record s { world = v })) (sym result)
        (record {
          synced = holds.synced;
          named = holds.named;
          backed = subst (IsBacked h c) result backed;
          registered = holds.registered;
          own = holds.own;
          lets = holds.lets;
          promise = record {
            differs = differs;
            signed =
                new-current h c.name s.world.material.previous s.world.material.current _ now k
                  made.announced
                ∙ holds.synced;
            receipt = λ m. absurd (never m unsent);
            waits = λ m. absurd (never holds.registered m);
          };
        })
    where
      never : {b : Bool} → b ≡ true → b ≡ false → ⊥
      never p q = cc

  -- A new announcement goes out, or the one that is out is given again.
  pub prepares-Holding :
      (s : Link) (now : ℤ) (k : Announcement) (w : World)
      → prepare h works c now s.world ≡ (ok k, w)
      → (s.world.pending ≡ none → IsFresh s k)
      → Holding h c name s
      → Holding h c name (record s { world = w })
  unfolding prepare
  prepares-Holding s now k w e fresh holds = split s.world.pending refl e
    where
      split :
          (o : Option Pending)
          → s.world.pending ≡ o
          → prepare_from h works c o now s.world ≡ (ok k, w)
          → Holding h c name (record s { world = w })
      split (some p) pends e' =
          subst (λ v. Holding h c name (record s { world = v })) (ap (λ x. x.1) e') holds
      split none free e' =
          fresh-Holding s now k w free (prepare_new-Prepared h works c now s.world w k e')
            (prepare-IsBacked h works c laws seals now s.world w k holds.backed e).0 (fresh free)
            holds
