-- ===== src/Announcer/Settled.antt =====
-- What a rotation that went well leaves on the disk: the material that was announced, and the key before.
use net_tls.Prelude.{ℕ, suc, ◌≡◌, refl, sym, ap, ◌∙◌, subst, Bool, inl, inr, Option, none, some}
use net_tls.Prelude.Int.{ℤ}
use net_tls.Prelude.Text.{Str, Bytes}
use net_tls.Error.{ok, ok-inj}
use net_tls.Announcement.{fingerprint_of}
use net_tls.Host.{Host}
use net_tls.Lockbox.RoundTrip.{SealLaws}
use net_tls.Material.{TlsMaterial, leaf}
use net_tls.Pkcs8.{pkcs8_p256}
use net_tls.Disk.{main, new_dir, FilePath, Files, Machine}
use net_tls.Store.{previous_path, previous_of, cert_path, key_path, locked_path}
use net_tls.Material.Load.{IsMaterial}
use net_tls.Store.Locked.{Holds, save-Holds, cleared}
use net_tls.Store.Previous.{PreviousLaw, SavedPrevious, save_previous-saved}
use net_tls.Store.Pending.{Pending}
use net_tls.Announcer.{World, Config, roll_if_ready_gated}
use net_tls.Announcer.Roll.{Switched}
use net_tls.Announcer.Chain.{IsKept, IsBacked, IsKept-of, roll-cases}

pub previous_path_main : (password : Option Bytes) → (previous_path password).dir ≡ main
previous_path_main none = refl
previous_path_main (some pw) = refl

module _ (h : Host) (works : ℕ → Bool) where
  -- The material is held as long as its files stay.
  pub Holds-kept :
      (password : Option Bytes) (m : TlsMaterial) (k : Bytes) (fs gs : Files)
      → gs (cert_path main) ≡ fs (cert_path main)
      → gs (key_path main) ≡ fs (key_path main)
      → gs (locked_path main) ≡ fs (locked_path main)
      → Holds h works password m k main fs
      → Holds h works password m k main gs
  Holds-kept none m k fs gs a b c (x, y, z) = (a ∙ x, b ∙ y, z)
  Holds-kept (some pw) m k fs gs a b c (n, blob, locked, there) = (n, blob, locked, c ∙ there)

module _ (h : Host) (works : ℕ → Bool) (c : Config) where
  -- The disk and the keys behind a switch from `w` to `w'` that a pending `p` has made.
  pub record Settled (w w' : World) (p : Pending) : Type 0 where
    pub fresh : TlsMaterial
    pub next_key : Bytes
    pub good : IsMaterial h fresh next_key
    pub holds : Holds h works c.password fresh next_key main w'.machine.files
    pub raa : Bytes
    pub there : w'.machine.files (previous_path c.password) ≡ some raa
    pub reads :
        previous_of h c.password raa
        ≡ ok (record { fingerprint = w.material.current.0; pkcs8 = w.material.current.1 })
    pub key : pkcs8_p256 h fresh.key (leaf fresh.chain) ≡ ok p.new_pkcs8
    pub named : fingerprint_of h.libs (leaf fresh.chain) ≡ p.announcement.new_fp
    pub fulfilled : w'.pending ≡ none
    pub result : w'.material ≡ record {
      previous = some w.material.current;
      current = (fingerprint_of h.libs (leaf fresh.chain), p.new_pkcs8);
    }

  module _ (seals : SealLaws h) (json : PreviousLaw h) where
    Switched-Settled :
        (now : ℤ) (w w' : World) (p : Pending)
        → IsKept h c w.machine.files p
        → Switched h works c w w' p.new_pkcs8 now
        → Settled w w' p
    Switched-Settled now w w' p kept s =
        let same_next : kept.next ≡ s.fresh = ok-inj (sym kept.loads ∙ s.loaded) in
        let good : IsMaterial h s.fresh kept.next_key =
          subst (λ m. IsMaterial h m kept.next_key) same_next kept.good in
        let saved : SavedPrevious h works seals json c.password w.material.current.0
            w.material.current.1 s.stored.files s.kept.files =
          save_previous-saved h works seals json c.password w.material.current.0
            w.material.current.1 s.stored s.kept s.keeps in
        let last : Machine = record s.kept { calls = suc s.kept.calls } in
        let stays : (q : FilePath) → q.dir ≡ main → w'.machine.files q ≡ s.kept.files q = λ q d.
          ap (λ (v : World). v.machine.files q) s.result
          ∙ cleared h works new_dir last q (rw d refl) (rw d refl) in
        record {
          fresh = s.fresh;
          next_key = kept.next_key;
          good = good;
          holds =
              Holds-kept h works c.password s.fresh kept.next_key s.stored.files w'.machine.files
                (stays (cert_path main) refl ∙ saved.elsewhere (cert_path main) refl)
                (stays (key_path main) refl ∙ saved.elsewhere (key_path main) refl)
                (stays (locked_path main) refl ∙ saved.elsewhere (locked_path main) refl)
                (save-Holds h works c.password s.fresh kept.next_key main w.machine s.stored
                  good.key s.stores);
          raa = saved.raa;
          there = stays (previous_path c.password) (previous_path_main c.password) ∙ saved.there;
          reads = saved.reads;
          key =
              subst (λ (m : TlsMaterial). pkcs8_p256 h m.key (leaf m.chain) ≡ ok p.new_pkcs8)
                same_next kept.key;
          named =
              ap (λ (m : TlsMaterial). fingerprint_of h.libs (leaf m.chain)) (sym same_next)
              ∙ kept.named;
          fulfilled = ap (λ (v : World). v.pending) s.result;
          result = ap (λ (v : World). v.material) s.result;
        }

    -- A rotation that went well has had something pending.
    pub roll-Settled :
        (now : ℤ) (safe_now : Bool) (w w' : World) (old : Str)
        → IsBacked h c w
        → roll_if_ready_gated h works c now safe_now w ≡ (ok (some old), w')
        → (p : Pending) × (w.pending ≡ some p) × Settled w w' p
    roll-Settled now safe_now w w' old backed e =
        elim (roll-cases h c works now safe_now w w' (some old) e) [
          | inl (impossible, _) ↦ cc
          | inr (p, pends, ready, safe, key_held, s, _) ↦
              (p, pends, Switched-Settled now w w' p (IsKept-of h c w p backed pends) s)
        ]
