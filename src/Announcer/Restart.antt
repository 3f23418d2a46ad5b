-- ===== src/Announcer/Restart.antt =====
-- A restart behind a rotation: the chain that is read back from the disk is the one that was held.
use net_tls.Prelude.{
  ℕ, suc, ◌≡◌, refl, sym, ap, ◌∙◌, Bool, true, false, inl, inr, Option, none, some,
}
use net_tls.Prelude.Int.{ℤ}
use net_tls.Prelude.Text.{Str, Bytes, codes, same}
use net_tls.Error.{Result, ok, err, chain, io, ok-inj}
use net_tls.Announcement.{Announcement, fingerprint_of, from_json}
use net_tls.Host.{Host, pkcs8, PendingOnDisk}
use net_tls.Lockbox.RoundTrip.{SealLaws}
use net_tls.Material.{TlsMaterial, leaf}
use net_tls.Schedule.{Schedule}
use net_tls.Disk.{main, is_at, put, new_dir, FilePath, Files, Machine, remove_dir_all, call}
use net_tls.Store.{
  OwnMaterial, load, load_files, restore_material, previous_path, key_path, cert_path, locked_path,
}
use net_tls.Store.RoundTrip.{PemLaws}
use net_tls.Store.Locked.{Holds, save-elsewhere, cleared}
use net_tls.Store.Previous.{PreviousLaw, SavedPrevious, save_previous-saved, restores, clashes}
use net_tls.Store.Pending.{Pending, pending_path, restore_pending}
use net_tls.Announcer.{save_pending, save_promise, World, Current, Config, roll_if_ready_gated}
use mathlib.Core.Option
use net_tls.Announcer.Settled.{Holds-kept, roll-Settled}
use net_tls.Announcer.Start.{new}
use net_tls.Announcer.Roll.{Switched}
use net_tls.Announcer.Chain.{IsKept, IsBacked, IsKept-of, roll-cases}

previous-beside : (password : Option Bytes) → is_at pending_path (previous_path password) ≡ false
previous-beside none = refl
previous-beside (some pw) = refl

module _ (h : Host) (works : ℕ → Bool) (c : Config) (laws : PemLaws h) (seals : SealLaws h)
    (json : PreviousLaw h) where
  Switched-files :
      (w w' : World) (key : Bytes) (now : ℤ) (s : Switched h works c w w' key now)
      → w'.machine.files
        ≡ (remove_dir_all works new_dir (record s.kept { calls = suc s.kept.calls })).1.files
  Switched-files w w' key now s = ap (λ (v : World). v.machine.files) s.result

  -- A file beside the material and the previous key stays through a switch.
  Switched-beside :
      (w w' : World) (key : Bytes) (now : ℤ) (k : Bytes) (s : Switched h works c w w' key now)
      → s.fresh.key ≡ pkcs8 k
      → w'.machine.files pending_path ≡ w.machine.files pending_path
  Switched-beside w w' key now k s is_pkcs8 =
      let saved : SavedPrevious h works seals json c.password w.material.current.0
          w.material.current.1 s.stored.files s.kept.files =
        save_previous-saved h works seals json c.password w.material.current.0 w.material.current.1
          s.stored s.kept s.keeps in
      ap (λ f. f pending_path) (Switched-files w w' key now s)
      ∙ (cleared h works new_dir (record s.kept { calls = suc s.kept.calls }) pending_path refl refl
          ∙ (saved.elsewhere pending_path refl
              ∙ save-elsewhere h works c.password s.fresh k w.machine s.stored
                  (codes "pending-rotation") (codes "json") is_pkcs8 refl refl refl s.stores))

  -- Where removing works, nothing is left in `new`.
  removed :
      (s : Machine) (q : FilePath)
      → ((n : ℕ) → works n ≡ true)
      → q.dir ≡ new_dir
      → (remove_dir_all works new_dir s).1.files q ≡ none
  unfolding remove_dir_all call
  removed s q all_work d = rw (all_work s.calls, d) refl

  load-nothing :
      (password : Option Bytes) (fs : Files)
      → ((q : FilePath) → q.dir ≡ new_dir → fs q ≡ none)
      → load h password new_dir fs ≡ err (io "read")
  unfolding load load_files
  load-nothing none fs gone = rw (gone (cert_path new_dir) refl) refl
  load-nothing (some pw) fs gone = rw (gone (locked_path new_dir) refl) refl

  -- The chain is read back from files that differ in the promise at most.
  roll-restores :
      (now : ℤ) (safe_now : Bool) (w w' : World) (old : Str) (gs : Files)
      → IsBacked h c w
      → h.lockable w.material.current.1 ≡ true
      → ((p : Pending)
          → w.pending ≡ some p
          → same w.material.current.0 p.announcement.new_fp ≡ false)
      → roll_if_ready_gated h works c now safe_now w ≡ (ok (some old), w')
      → ((q : FilePath) → is_at pending_path q ≡ false → gs q ≡ w'.machine.files q)
      → restore_material h c.password gs ≡ ok (some w'.material)
  roll-restores now safe_now w w' old gs backed held apart e stays =
      let (p, pends, s) = roll-Settled h works c seals json now safe_now w w' old backed e in
      let holds : Holds h works c.password s.fresh s.next_key main gs =
        Holds-kept h works c.password s.fresh s.next_key w'.machine.files gs
          (stays (cert_path main) refl) (stays (key_path main) refl) (stays (locked_path main) refl)
          s.holds in
      restores h works seals json laws c.password s.fresh s.next_key gs s.raa w.material.current.0
        w.material.current.1 p.new_pkcs8 s.good holds
        (stays (previous_path c.password) (previous-beside c.password) ∙ s.there) s.reads s.key held
        (ap (same w.material.current.0) s.named ∙ apart p pends)
      ∙ ap (λ (m : OwnMaterial). ok (some m)) (sym s.result)

  -- With nothing pending `save_pending` removes the promise.
  save_pending-removed :
      (w v : World)
      → w.pending ≡ none
      → works w.machine.calls ≡ true
      → save_pending h works c w ≡ (ok tt, v)
      → v.machine.files ≡ put pending_path none w.machine.files
  unfolding save_pending call
  save_pending-removed w v quiet goes e = split w.pending quiet e
    where
      split :
          (o : Option Pending)
          → o ≡ none
          → save_promise h works c o w ≡ (ok tt, v)
          → v.machine.files ≡ put pending_path none w.machine.files
      split none q e =
          ap (λ (r : Result (Unit {0}) × World). r.1.machine.files) (sym e) ∙ rw goes refl
      split (some p) q e = cc

  -- After a rotation that went well, and `save_pending`, whose removal of the promise goes well, a start
  -- of `Announcer::new` with any anchor, schedule and served certificate goes well, holds the chain that
  -- was held in memory, the same two fingerprints and the same two keys, and has nothing pending. The
  -- key that served so far can be held in locked memory, and the announced certificate is another than
  -- the one in use.
  pub roll-restart :
      (now : ℤ) (safe_now : Bool) (w w' v : World) (old : Str)
      → IsBacked h c w
      → h.lockable w.material.current.1 ≡ true
      → ((p : Pending)
          → w.pending ≡ some p
          → same w.material.current.0 p.announcement.new_fp ≡ false)
      → roll_if_ready_gated h works c now safe_now w ≡ (ok (some old), w')
      → works w'.machine.calls ≡ true
      → save_pending h works c w' ≡ (ok tt, v)
      → (anchor : OwnMaterial) (serving : Current) (schedule : Schedule)
      → (new h c v.machine serving anchor schedule
          ≡ ok (record {
            machine = v.machine;
            serving = serving;
            material = w'.material;
            schedule = schedule;
            pending = none;
          }))
  unfolding new restore_pending
  roll-restart now safe_now w w' v old backed held apart e goes saves anchor serving schedule =
      let (p, pends, s) = roll-Settled h works c seals json now safe_now w w' old backed e in
      let files : v.machine.files ≡ put pending_path none w'.machine.files =
        save_pending-removed w' v s.fulfilled goes saves in
      let chain_back : restore_material h c.password v.machine.files ≡ ok (some w'.material) =
        roll-restores now safe_now w w' old v.machine.files backed held apart e
          λ q n. ap (λ f. f q) files ∙ rw n refl in
      let gone : v.machine.files pending_path ≡ none = ap (λ f. f pending_path) files in
      rw (chain_back, gone) refl

  -- A rotation that went well when the announced certificate was the current one already, as a call
  -- leaves it that has switched the keys in memory and could not save the previous one: previous and
  -- current have the same fingerprint, and a restart is refused.
  pub roll-repeated :
      (now : ℤ) (safe_now : Bool) (w w' : World) (old : Str)
      → IsBacked h c w
      → ((p : Pending)
          → w.pending ≡ some p
          → same w.material.current.0 p.announcement.new_fp ≡ true)
      → roll_if_ready_gated h works c now safe_now w ≡ (ok (some old), w')
      → (Option.map (λ (k : Str × Bytes). same k.0 w'.material.current.0) w'.material.previous
          ≡ some true)
        × (restore_material h c.password w'.machine.files
            ≡ err (chain "previous and current have the same fingerprint"))
  roll-repeated now safe_now w w' old backed again e =
      let (p, pends, s) = roll-Settled h works c seals json now safe_now w w' old backed e in
      let clash : same w.material.current.0 (fingerprint_of h.libs (leaf s.fresh.chain)) ≡ true =
        ap (same w.material.current.0) s.named ∙ again p pends in
      (
        ap (λ (m : OwnMaterial). Option.map (λ (k : Str × Bytes). same k.0 m.current.0) m.previous)
              s.result
            ∙ ap some clash,
        clashes h works seals json laws c.password s.fresh s.next_key w'.machine.files s.raa
            w.material.current.0 w.material.current.1 p.new_pkcs8 s.good s.holds s.there s.reads
            s.key clash,
      )

  -- The pending file stays, and the material that it promises is gone.
  stranded :
      (w w' : World) (now : ℤ) (safe_now : Bool) (old : Str)
      → ((n : ℕ) → works n ≡ true)
      → IsBacked h c w
      → roll_if_ready_gated h works c now safe_now w ≡ (ok (some old), w')
      → (w'.machine.files pending_path ≡ w.machine.files pending_path)
        × (load h c.password new_dir w'.machine.files ≡ err (io "read"))
  stranded w w' now safe_now old all_work backed e =
      elim (roll-cases h c works now safe_now w w' (some old) e) [
        | inl (impossible, _) ↦ cc
        | inr (p, pends, ready, safe, key_held, s, _) ↦
            let kept : IsKept h c w.machine.files p = IsKept-of h c w p backed pends in
            let same_next : kept.next ≡ s.fresh = ok-inj (sym kept.loads ∙ s.loaded) in
            let key : s.fresh.key ≡ pkcs8 kept.next_key =
              ap (λ (m : TlsMaterial). m.key) (sym same_next) ∙ kept.good.key in
            (
              Switched-beside w w' p.new_pkcs8 now kept.next_key s key,
              load-nothing c.password w'.machine.files λ q d.
                  ap (λ f. f q) (Switched-files w w' p.new_pkcs8 now s) ∙ removed _ q all_work d,
            )
      ]

  -- The promise that was saved with `save_pending` and not removed: behind a rotation that went well,
  -- `Announcer::new` fails, since the material that the promise names has moved out of `new`. The file
  -- on the disk is one that `save_pending` writes, and the file system works.
  pub roll-strands_promise :
      (now : ℤ) (safe_now : Bool) (w w' : World) (old : Str) (text : Bytes) (d : PendingOnDisk)
      (k : Announcement)
      → ((n : ℕ) → works n ≡ true)
      → IsBacked h c w
      → h.lockable w.material.current.1 ≡ true
      → ((p : Pending)
          → w.pending ≡ some p
          → same w.material.current.0 p.announcement.new_fp ≡ false)
      → w.machine.files pending_path ≡ some text
      → h.pending_from_json text ≡ some d
      → from_json h.libs d.announcement ≡ ok k
      → roll_if_ready_gated h works c now safe_now w ≡ (ok (some old), w')
      → (machine_anchor : OwnMaterial) (serving : Current) (schedule : Schedule)
      → (new h c w'.machine serving machine_anchor schedule
          ≡ err (chain "the key material in new is missing or damaged"))
  unfolding new restore_pending
  roll-strands_promise now safe_now w w' old text d k all_work backed held apart there parsed read e
        anchor serving schedule =
      rw
        (
          roll-restores now safe_now w w' old w'.machine.files backed held apart e (λ q n. refl),
          (stranded w w' now safe_now old all_work backed e).0 ∙ there,
          parsed,
          read,
          (stranded w w' now safe_now old all_work backed e).1,
        )
        refl
