-- ===== src/Store/Previous.antt =====
-- The previous key on the disk: what `save_previous` writes is what `restore_material` reads.
use net_tls.Prelude.{ℕ, ◌≡◌, refl, ap, ◌∙◌, Bool, true, false, not, Option, none, some, arith}
use net_tls.Prelude.Text.{Str, Bytes, codes, same}
use net_tls.Error.{ok, err, chain, ok-inj, refuse}
use net_tls.Signature.{ok_or}
use net_tls.Host.{Host, PreviousOnDisk}
use net_tls.Lockbox.RoundTrip.{SealLaws, unlock-lock}
use net_tls.Announcement.{fingerprint_of}
use net_tls.Material.{TlsMaterial, leaf}
use net_tls.Pkcs8.{pkcs8_p256}
use net_tls.Disk.{main, FilePath, Files, Machine, lift, is_at, tmp_of}
use net_tls.Disk.Effects.{steps, lift-steps, Written, skriv_atomisk-Written}
use net_tls.Store.{previous_path, previous_of, own_chain, restore_material}
use net_tls.Store.Save.{save_previous, locked_if}
use net_tls.Material.Load.{IsMaterial}
use net_tls.Store.RoundTrip.{PemLaws, hold-ok}
use net_tls.Store.Locked.{lock_now-steps, Holds, load-Holds}

-- `serde_json`: what was serialized is parsed again.
abbrev pub PreviousLaw : Host → Type 0
PreviousLaw h =
    (d : PreviousOnDisk) (b : Bytes)
    → h.previous_to_json d ≡ some b
    → h.previous_from_json b ≡ some d

module _ (h : Host) (works : ℕ → Bool) (seals : SealLaws h) (json : PreviousLaw h) where
  pub record SavedPrevious (password : Option Bytes) (fp : Str) (key : Bytes) (s t : Files)
      : Type 0 where
    pub raa : Bytes
    pub there : t (previous_path password) ≡ some raa
    pub reads : previous_of h password raa ≡ ok (record { fingerprint = fp; pkcs8 = key })
    pub elsewhere : (q : FilePath) → same (codes "previous-key") q.stem ≡ false → t q ≡ s q

  locked_if-reads :
      (password : Option Bytes) (d : PreviousOnDisk) (b out : Bytes) (s t : Machine)
      → h.previous_to_json d ≡ some b
      → locked_if h password b s ≡ (ok out, t)
      → (previous_of h password out ≡ ok d) × (t.files ≡ s.files)
  unfolding previous_of
  locked_if-reads none d b out s t e k =
      let (same_bytes, same_machine) = lift-steps (ok b) k in
      (rw (← ok-inj same_bytes, json d b e) refl, ap (λ (u : Machine). u.files) same_machine)
  locked_if-reads (some pw) d b out s t e k =
      let (locked, unchanged) = lock_now-steps h pw b out s t k in
      (rw (unlock-lock h seals s.calls pw b out locked, json d b e) refl, unchanged)

  previous_path-apart :
      (password : Option Bytes)
      → is_at (tmp_of (previous_path password)) (previous_path password) ≡ false
  previous_path-apart none = refl
  previous_path-apart (some pw) = refl

  previous_path-other :
      (password : Option Bytes) (q : FilePath)
      → same (codes "previous-key") q.stem ≡ false
      → (is_at (previous_path password) q ≡ false)
        × (is_at (tmp_of (previous_path password)) q ≡ false)
  previous_path-other none q e = (rw e refl, rw e refl)
  previous_path-other (some pw) q e = (rw e refl, rw e refl)

  pub save_previous-saved :
      (password : Option Bytes) (fp : Str) (key : Bytes) (s t : Machine)
      → save_previous h works password (some (fp, key)) s ≡ (ok tt, t)
      → SavedPrevious password fp key s.files t.files
  unfolding save_previous
  save_previous-saved password fp key s t e =
      let d : PreviousOnDisk = record { fingerprint = fp; pkcs8 = key } in
      let (b, s₁, h₁, k₁) =
        steps (lift (ok_or (h.previous_to_json d) (chain "could not serialize the previous key")) s)
          _ e in
      let (x, s₂, h₂, k₂) =
        steps (lift (refuse (not (h.lockable b)) (chain "could not lock the previous key")) s₁) _
          k₁ in
      let (out, s₃, h₃, k₃) = steps (locked_if h password b s₂) _ k₂ in
      let (a₁, b₁) =
        lift-steps (ok_or (h.previous_to_json d) (chain "could not serialize the previous key"))
          h₁ in
      let (a₂, b₂) =
        lift-steps (refuse (not (h.lockable b)) (chain "could not lock the previous key")) h₂ in
      let is_json : h.previous_to_json d ≡ some b = ground (arith, a₁) in
      let (reads, unchanged) = locked_if-reads password d b out s₂ s₃ is_json h₃ in
      let w : Written (previous_path password) out s₃.files t.files =
        skriv_atomisk-Written works (previous_path password) out s₃ t (previous_path-apart password)
          k₃ in
      record {
        raa = out;
        there = w.there;
        reads = reads;
        elsewhere = λ q other.
            let (n, n') = previous_path-other password q other in
            w.elsewhere q n n'
            ∙ ap (λ f. f q) (unchanged ∙ ap (λ (u : Machine). u.files) (b₂ ∙ b₁));
      }

  module _ (laws : PemLaws h) where
    -- The chain on the disk, when the material and the previous key are there.
    pub restores :
        (password : Option Bytes) (m : TlsMaterial) (k : Bytes) (fs : Files) (raa : Bytes)
        (fp : Str) (old_key new_key : Bytes)
        → IsMaterial h m k
        → Holds h works password m k main fs
        → fs (previous_path password) ≡ some raa
        → previous_of h password raa ≡ ok (record { fingerprint = fp; pkcs8 = old_key })
        → pkcs8_p256 h m.key (leaf m.chain) ≡ ok new_key
        → h.lockable old_key ≡ true
        → same fp (fingerprint_of h.libs (leaf m.chain)) ≡ false
        → restore_material h password fs
          ≡ ok (
              some (record {
                previous = some (fp, old_key);
                current = (fingerprint_of h.libs (leaf m.chain), new_key);
              }))
    unfolding restore_material own_chain
    restores password m k fs raa fp old_key new_key good holds there reads key held apart =
        rw
          (
            there,
            reads,
            load-Holds h works laws seals password m k main fs good holds,
            key,
            apart,
            hold-ok h old_key held,
          )
          refl

    -- The previous key is that of the material itself.
    pub clashes :
        (password : Option Bytes) (m : TlsMaterial) (k : Bytes) (fs : Files) (raa : Bytes)
        (fp : Str) (old_key new_key : Bytes)
        → IsMaterial h m k
        → Holds h works password m k main fs
        → fs (previous_path password) ≡ some raa
        → previous_of h password raa ≡ ok (record { fingerprint = fp; pkcs8 = old_key })
        → pkcs8_p256 h m.key (leaf m.chain) ≡ ok new_key
        → same fp (fingerprint_of h.libs (leaf m.chain)) ≡ true
        → restore_material h password fs
          ≡ err (chain "previous and current have the same fingerprint")
    unfolding restore_material own_chain
    clashes password m k fs raa fp old_key new_key good holds there reads key clash =
        rw (there, reads, load-Holds h works laws seals password m k main fs good holds, key, clash)
          refl
