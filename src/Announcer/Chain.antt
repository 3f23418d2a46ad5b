-- ===== src/Announcer/Chain.antt =====
-- A rotation as the peers see it: a step of the chain of fingerprints.
use net_tls.Prelude.{
  ℕ, ◌≡◌, refl, sym, ap, subst, Bool, true, false, ◌⊎◌, inl, inr, Option, none, some,
}
use net_tls.Prelude.Int.{ℤ}
use net_tls.Prelude.Text.{Str, Bytes}
use net_tls.Error.{ok, ok-inj}
use net_tls.Announcement.{fingerprint_of}
use net_tls.Host.{Host}
use net_tls.Lockbox.{hold}
use net_tls.Material.{TlsMaterial, leaf}
use net_tls.Pkcs8.{pkcs8_p256}
use net_tls.Schedule.{can_roll}
use net_tls.Disk.{new_dir, Files}
use net_tls.Store.{load}
use net_tls.Material.Load.{IsMaterial}
use net_tls.Store.RoundTrip.{hold-lockable}
use net_tls.Store.Pending.{Pending}
use net_tls.Announcer.{World, Config, roll_if_ready_gated, roll_ready}
use net_tls.Disk.Effects.{lift-then}
use net_tls.Announcer.Roll.{Switched, switch-Switched}

module _ (h : Host) (c : Config) where
  -- The promise of a pending announcement can be kept: `new` holds the certificate that it names, and
  -- the key in memory is that certificate's.
  pub record IsKept (files : Files) (p : Pending) : Type 0 where
    pub next : TlsMaterial
    pub next_key : Bytes
    pub loads : load h c.password new_dir files ≡ ok next
    pub good : IsMaterial h next next_key
    pub key : pkcs8_p256 h next.key (leaf next.chain) ≡ ok p.new_pkcs8
    pub named : fingerprint_of h.libs (leaf next.chain) ≡ p.announcement.new_fp

  abbrev pub IsBackedBy : Files → Option Pending → Type 0
  IsBackedBy files none = Unit
  IsBackedBy files (some p) = IsKept files p

  abbrev pub IsBacked : World → Type 0
  IsBacked w = IsBackedBy w.machine.files w.pending

  pub IsKept-of :
      (w : World) (p : Pending) → IsBacked w → w.pending ≡ some p → IsKept w.machine.files p
  IsKept-of w p backed e = subst (IsBackedBy w.machine.files) e backed

  module _ (works : ℕ → Bool) where
    -- A call of `roll_if_ready_gated` that went well: nothing happened, or a switch.
    pub roll-cases :
        (now : ℤ) (safe_now : Bool) (w w' : World) (r : Option Str)
        → roll_if_ready_gated h works c now safe_now w ≡ (ok r, w')
        → ((r ≡ none) × (w' ≡ w))
          ⊎ ((p : Pending) × (w.pending ≡ some p)
              × (can_roll w.schedule now ≡ true)
              × (safe_now ≡ true)
              × (h.lockable p.new_pkcs8 ≡ true)
              × Switched h works c w w' p.new_pkcs8 now
              × (r ≡ some w.serving.fingerprint))
    unfolding roll_if_ready_gated
    roll-cases now safe_now w w' r e =
        split (can_roll w.schedule now) w.pending safe_now refl refl refl e
      where
        split :
            (ready : Bool) (o : Option Pending) (safe : Bool)
            → can_roll w.schedule now ≡ ready
            → w.pending ≡ o
            → safe_now ≡ safe
            → roll_ready h works c ready o now safe w ≡ (ok r, w')
            → ((r ≡ none) × (w' ≡ w))
              ⊎ ((p : Pending) × (w.pending ≡ some p)
                  × (can_roll w.schedule now ≡ true)
                  × (safe_now ≡ true)
                  × (h.lockable p.new_pkcs8 ≡ true)
                  × Switched h works c w w' p.new_pkcs8 now
                  × (r ≡ some w.serving.fingerprint))
        split false o safe a b s e = inl (ok-inj (sym (ap (λ p. p.0) e)), sym (ap (λ p. p.1) e))
        split true none safe a b s e = inl (ok-inj (sym (ap (λ p. p.0) e)), sym (ap (λ p. p.1) e))
        split true (some p) false a b s e =
            let (key, h₁, k₁) = lift-then (hold h p.new_pkcs8) _ w e in
            inl (ok-inj (sym (ap (λ p. p.0) k₁)), sym (ap (λ p. p.1) k₁))
        split true (some p) true a b s e =
            let (key, h₁, k₁) = lift-then (hold h p.new_pkcs8) _ w e in
            let (held, same_key) = hold-lockable h p.new_pkcs8 key h₁ in
            let (switched, old) = switch-Switched h works c now key w w' r k₁ in
            inr
              (p, b, a, s, held, subst (λ x. Switched h works c w w' x now) same_key switched, old)
