-- ===== src/Link/Switching.antt =====
-- What a switch of the certificate keeps.
use net_tls.Prelude.{
  ℕ, ◌≡◌, inl, inr, refl, sym, ap, ◌∙◌, subst, Bool, true, ◌&&◌, Option, some, [], ◌∷◌,
}
use net_tls.Prelude.Int.{ℤ}
use net_tls.Prelude.Text.{Str, Bytes}
use net_tls.Error.{Result, ok, err, ok-inj}
use net_tls.Announcement.{fingerprint_of}
use net_tls.Generations.{Generations}
use net_tls.Generations.Handshake.{HasFingerprint}
use net_tls.Host.{Host, pkcs8}
use net_tls.Material.{TlsMaterial, leaf}
use net_tls.Material.Load.{from_der-fingerprint}
use net_tls.Schedule.{
  Schedule, ChainState, idle, announced, can_roll, all_ready, rate_limit_ok, rolled, roll_to,
  draw_roll_time,
}
use net_tls.Schedule.Names.{mem}
use net_tls.Store.Pending.{Pending}
use net_tls.Announcer.{World, Config, roll_if_ready_gated}
use net_tls.Announcer.Chain.{IsKept, IsKept-of, roll-cases}
use net_tls.Announcer.Roll.{Switched}
use net_tls.Link.{Link}
use net_tls.Link.Holding.{Waits, IsIdle, IsPromised, IsKeptFor}
use net_tls.Link.Promise.{Holding}

-- A rotation that is noted without an error leaves the schedule idle, with the same peers.
pub rolled-IsIdle :
    (random : ℕ → Option Bytes) (s s' : Schedule) (now : ℤ)
    → rolled random s now ≡ (s', ok tt)
    → IsIdle s'.state × (s'.peers ≡ s.peers)
unfolding rolled
rolled-IsIdle random s s' now e = split (draw_roll_time random now) e
  where
    split : (r : Result ℤ) → roll_to s now r ≡ (s', ok tt) → IsIdle s'.state × (s'.peers ≡ s.peers)
    split (ok t) e =
        subst (λ (x : Schedule). IsIdle x.state × (x.peers ≡ s.peers)) (ap (λ x. x.0) e) (tt, refl)
    split (err x) e = cc

-- Who may switch is waiting for nobody.
ready-nobody :
    (name : Str) (s : Schedule) (now : ℤ) (g : Generations) (fp : Str)
    → can_roll s now ≡ true
    → Waits name s.state g fp
    → HasFingerprint g.next fp
unfolding can_roll
ready-nobody name s now g fp ready w = split s.state ready w
  where
    split :
        (t : ChainState)
        → (all_ready t && rate_limit_ok s now) ≡ true
        → Waits name t g fp
        → HasFingerprint g.next fp
    split (idle t) r w = absurd w
    split (announced [] t) r w = w refl
    split (announced (x ∷ xs) t) r w = cc

module _ (h : Host) (works : ℕ → Bool) (c : Config) (name : Str) where
  Switched-Holding :
      (s : Link) (now : ℤ) (p : Pending) (w : World)
      → s.world.pending ≡ some p
      → can_roll s.world.schedule now ≡ true
      → Switched h works c s.world w p.new_pkcs8 now
      → Holding h c name s
      → Holding h c name (record s { world = w })
  Switched-Holding s now p w pends ready sw holds =
      let promise : IsPromised name s.world.serving.fingerprint s.world.schedule.state s.peer
          s.receipts p.announcement =
        subst
          (λ o.
            IsKeptFor name o s.world.schedule.state s.world.serving.fingerprint s.peer s.receipts)
          pends holds.promise in
      let kept : IsKept h c s.world.machine.files p = IsKept-of h c s.world p holds.backed pends in
      let same_next : kept.next ≡ sw.fresh = ok-inj (sym kept.loads ∙ sw.loaded) in
      let own_name : sw.fresh.fingerprint ≡ fingerprint_of h.libs (leaf sw.fresh.chain) =
        subst (λ (m : TlsMaterial). m.fingerprint ≡ fingerprint_of h.libs (leaf m.chain)) same_next
          (from_der-fingerprint h kept.next.chain (pkcs8 kept.next_key) kept.next.origin kept.next
            kept.good.made) in
      let is_next : p.announcement.new_fp ≡ sw.fresh.fingerprint =
        sym kept.named
        ∙ ap (λ (m : TlsMaterial). fingerprint_of h.libs (leaf m.chain)) same_next
        ∙ sym own_name in
      let stored : HasFingerprint s.peer.next p.announcement.new_fp =
        ready-nobody name s.world.schedule now s.peer p.announcement.new_fp ready promise.waits in
      let (is_idle, same_peers) =
        rolled-IsIdle (h.random 8 sw.kept.calls) s.world.schedule sw.schedule now sw.rolls in
      subst (λ v. Holding h c name (record s { world = v })) (sym sw.result)
        (record {
          synced = sym own_name;
          named = sym own_name;
          backed = tt;
          registered = ap (mem name) same_peers ∙ holds.registered;
          own = holds.own;
          lets = inr (subst (HasFingerprint s.peer.next) is_next stored);
          promise = is_idle;
        })

  -- A call of `roll_if_ready_gated` that goes well.
  pub rolls-Holding :
      (s : Link) (now : ℤ) (safe_now : Bool) (r : Option Str) (w : World)
      → roll_if_ready_gated h works c now safe_now s.world ≡ (ok r, w)
      → Holding h c name s
      → Holding h c name (record s { world = w })
  rolls-Holding s now safe_now r w e holds =
      elim (roll-cases h c works now safe_now s.world w r e) [
        | inl (_, unchanged) ↦
            subst (λ v. Holding h c name (record s { world = v })) (sym unchanged) holds
        | inr (p, pends, ready, _, _, sw, _) ↦ Switched-Holding s now p w pends ready sw holds
      ]
