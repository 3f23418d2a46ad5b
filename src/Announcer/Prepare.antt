-- ===== src/Announcer/Prepare.antt =====
-- What `prepare` promises, and what it has on the disk to keep it.
use net_tls.Prelude.{ℕ, suc, ◌≡◌, refl, sym, ap, ◌∙◌, subst, Bool, Option, none, some}
use mathlib.Core.Option
use net_tls.Prelude.Int.{ℤ}
use net_tls.Prelude.Text.{Bytes}
use net_tls.Error.{ok, ok-inj}
use net_tls.Announcement
use net_tls.Announcement.{
  Announcement, fingerprint_of, fingerprint_from_pem, der_from_pem, only_cert, sign_if,
}
use net_tls.Host.{Host, pkcs8}
use net_tls.Lockbox.RoundTrip.{SealLaws}
use net_tls.Material.{TlsMaterial, load_self_signed, leaf}
use net_tls.Pem.{encode, certificate_label}
use net_tls.Pkcs8.{pkcs8_p256}
use net_tls.Schedule.{announce}
use net_tls.Disk.{new_dir, Machine, call}
use net_tls.Store.{load}
use net_tls.Store.Save.{save}
use net_tls.Material.Load.{from_der-origin, load_self_signed-IsMaterial}
use net_tls.Store.RoundTrip.{PemLaws}
use net_tls.Store.Locked.{loaded_origin, load-save}
use net_tls.Store.Pending.{Pending}
use net_tls.Announcer.{World, Config, prepare_new, prepare, prepare_from}
use net_tls.Disk.Effects.{lift-then}
use net_tls.Announcer.Issued.{fingerprint_from_pem-encode, new-named}
use net_tls.Announcer.Roll.{machine-then}
use net_tls.Announcer.Chain.{IsKept, IsBacked, IsBackedBy}

module _ (h : Host) where
  module _ (works : ℕ → Bool) (c : Config) where
    abbrev pub prepared_world : World → Machine → Announcement → TlsMaterial → Bytes → ℤ → World
    prepared_world w stored k fresh key now = record w {
      machine = stored;
      pending = some (record {
        announcement = k;
        new_cert_pem = encode h certificate_label (leaf fresh.chain);
        new_pkcs8 = key;
      });
      schedule = announce w.schedule now;
    }

    -- A new announcement: the material on the disk, its certificate in the announcement, its key in memory.
    pub record Prepared (w w' : World) (k : Announcement) (now : ℤ) : Type 0 where
      pub call_number : ℕ
      pub fresh : TlsMaterial
      pub made : load_self_signed h c.params call_number ≡ ok fresh
      pub before : Machine
      pub stored : Machine
      pub stores : save h works c.password fresh new_dir before ≡ (ok tt, stored)
      pub key : Bytes
      pub signs : pkcs8_p256 h fresh.key (leaf fresh.chain) ≡ ok key
      pub announced :
          Announcement.new h.libs c.name w.material.previous w.material.current
            (encode h certificate_label (leaf fresh.chain))
            now
          ≡ ok k
      pub result : w' ≡ prepared_world w stored k fresh key now

    pub prepare_new-Prepared :
        (now : ℤ) (w w' : World) (k : Announcement)
        → prepare_new h works c now w ≡ (ok k, w')
        → Prepared w w' k now
    unfolding prepare_new
    prepare_new-Prepared now w w' k e =
        let counted_machine : Machine = record w.machine { calls = suc w.machine.calls } in
        let (fresh, h₁, k₁) =
          lift-then (load_self_signed h c.params w.machine.calls) _
            (record w { machine = counted_machine }) e in
        let (x₂, before, h₂, k₂) =
          machine-then (record w { machine = counted_machine })
            (call works "create_dir_all" (λ fs. fs) counted_machine) _ k₁ in
        let (x₃, stored, h₃, k₃) =
          machine-then (record w { machine = before })
            (save h works c.password fresh new_dir before) _ k₂ in
        let (key, h₄, k₄) =
          lift-then (pkcs8_p256 h fresh.key (leaf fresh.chain)) _ (record w { machine = stored })
            k₃ in
        let (a, h₅, k₅) =
          lift-then
            (Announcement.new h.libs c.name w.material.previous w.material.current
              (encode h certificate_label (leaf fresh.chain)) now)
            _ (record w { machine = stored }) k₄ in
        let same_k : a ≡ k = ok-inj (ap (λ p. p.0) k₅) in
        record {
          call_number = w.machine.calls;
          fresh = fresh;
          made = h₁;
          before = before;
          stored = stored;
          stores = h₃;
          key = key;
          signs = h₄;
          announced = h₅ ∙ ap ok same_k;
          result =
              sym (ap (λ p. p.1) k₅) ∙ ap (λ x. prepared_world w stored x fresh key now) same_k;
        }

    abbrev pub promised : Announcement → TlsMaterial → Bytes → Pending
    promised k fresh key = record {
      announcement = k;
      new_cert_pem = encode h certificate_label (leaf fresh.chain);
      new_pkcs8 = key;
    }

    -- The announcement names the certificate that it carries.
    announced_fingerprint :
        PemLaws h
        → (w w' : World) (k : Announcement) (now : ℤ) (made : Prepared w w' k now)
        → fingerprint_of h.libs (leaf made.fresh.chain) ≡ k.new_fp
    announced_fingerprint laws w w' k now made = ok-inj (
        sym (fingerprint_from_pem-encode h laws (leaf made.fresh.chain))
        ∙ new-named h _ _ _ _ _ k made.announced)

    Prepared-IsKept :
        PemLaws h
        → SealLaws h
        → (w w' : World) (k : Announcement) (now : ℤ) (made : Prepared w w' k now)
        → IsKept h c w'.machine.files (promised k made.fresh made.key)
    Prepared-IsKept laws seals w w' k now made =
        let (cert, next_key, good, is_chain) =
          load_self_signed-IsMaterial h c.params made.call_number made.fresh made.made in
        record {
          next = record made.fresh { origin = loaded_origin c.password };
          next_key = next_key;
          loads =
              ap (λ (v : World). load h c.password new_dir v.machine.files) made.result
              ∙ load-save h works laws seals c.password made.fresh next_key new_dir made.before
                  made.stored good made.stores;
          good = record {
            made =
                from_der-origin h made.fresh.chain (pkcs8 next_key) made.fresh.origin _ made.fresh
                  good.made;
            not_empty = good.not_empty;
            key = good.key;
          };
          key = made.signs;
          named = announced_fingerprint laws w w' k now made;
        }

    -- `prepare` leaves the announcer able to keep its promise: what `load` finds in `new` is the
    -- certificate that the announcement names, with the key that is pending, and the announcement that is
    -- returned is the one that is pending.
    pub prepare-IsBacked :
        PemLaws h
        → SealLaws h
        → (now : ℤ) (w w' : World) (k : Announcement) → IsBacked h c w
        → prepare h works c now w ≡ (ok k, w')
        → IsBacked h c w' × (Option.map (λ (p : Pending). p.announcement) w'.pending ≡ some k)
    unfolding prepare
    prepare-IsBacked laws seals now w w' k backed e = split w.pending refl e
      where
        split :
            (o : Option Pending)
            → w.pending ≡ o
            → prepare_from h works c o now w ≡ (ok k, w')
            → IsBacked h c w' × (Option.map (λ (p : Pending). p.announcement) w'.pending ≡ some k)
        split (some p) pends e =
            let same_world : w ≡ w' = ap (λ x. x.1) e in
            (
              subst (IsBacked h c) same_world backed,
              ap (λ (v : World). Option.map (λ (p : Pending). p.announcement) v.pending)
                    (sym same_world)
                  ∙ (ap (Option.map (λ (p : Pending). p.announcement)) pends
                      ∙ ap some (ok-inj (ap (λ x. x.0) e))),
            )
        split none pends e =
            let made : Prepared w w' k now = prepare_new-Prepared now w w' k e in
            let is_pending : w'.pending ≡ some (promised k made.fresh made.key) =
              ap (λ (v : World). v.pending) made.result in
            (
              subst (IsBackedBy h c w'.machine.files) (sym is_pending)
                  (Prepared-IsKept laws seals w w' k now made),
              ap (Option.map (λ (p : Pending). p.announcement)) is_pending,
            )

    -- `prepare` again, at whatever time, gives the announcement that is out, and changes nothing.
    prepare-prepare :
        (now later : ℤ) (w w' : World) (k : Announcement)
        → prepare h works c now w ≡ (ok k, w')
        → prepare h works c later w' ≡ (ok k, w')
    unfolding prepare
    prepare-prepare now later w w' k e = split w.pending refl e
      where
        split :
            (o : Option Pending)
            → w.pending ≡ o
            → prepare_from h works c o now w ≡ (ok k, w')
            → prepare_from h works c w'.pending later w' ≡ (ok k, w')
        split (some p) pends e =
            let same_world : w ≡ w' = ap (λ x. x.1) e in
            ap (λ o. prepare_from h works c o later w')
              (ap (λ (v : World). v.pending) (sym same_world) ∙ pends)
            ∙ ap (λ x. (x.0, w')) e
        split none pends e =
            let made : Prepared w w' k now = prepare_new-Prepared now w w' k e in
            ap (λ o. prepare_from h works c o later w') (ap (λ (v : World). v.pending) made.result)
