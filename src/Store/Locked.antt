-- ===== src/Store/Locked.antt =====
-- The material locked with a password: what `save` leaves on the disk, and that it is loaded again.
use net_tls.Prelude.{
  ℕ, ◌≡◌, refl, sym, ap, ◌∙◌, subst, Bool, true, false, Option, none, some, ◌++◌, arith,
}
use net_tls.Prelude.Text.{Str, Bytes, codes, same}
use net_tls.Error.{Result, ok, io, ok-inj}
use net_tls.Signature.{ok_or}
use net_tls.Host.{Host, pkcs8}
use net_tls.Pem.{newline, encode, private_key_label}
use net_tls.Lockbox.{hold, lock}
use net_tls.Lockbox.RoundTrip.{SealLaws, unlock-lock}
use net_tls.Material.{TlsMaterial, CertOrigin, pem_bytes, cert_file_of}
use net_tls.Disk.{
  Dir, main, staging, same_dir, FilePath, Files, Machine, lift, call, is_at, tmp_of, ignoring,
  in_the_end, remove_dir_all,
}
use net_tls.Disk.Effects.{steps, lift-steps, Written, skriv_atomisk-Written, call-files}
use net_tls.Store.{cert_path, key_path, locked_path, load, read}
use net_tls.Store.Save.{save_pem, save, locked_material, lock_now}
use net_tls.Material.Load.{IsMaterial}
use net_tls.Store.RoundTrip.{
  SavedPem, PemLaws, save_pem-SavedPem, hold-lockable, loads_files, loads_unlocked,
}

-- The origin that a loaded material has.
abbrev pub loaded_origin : Option Bytes → CertOrigin
loaded_origin none = CertOrigin.files
loaded_origin (some pw) = pem_bytes

-- The two files of the PEM form, in one text.
abbrev pub samlet_of : Host → TlsMaterial → Bytes → Bytes
samlet_of h m k = cert_file_of h m ++ (newline ++ encode h private_key_label k)

module _ (h : Host) where
  pub lock_now-steps :
      (pw plain blob : Bytes) (s t : Machine)
      → lock_now h pw plain s ≡ (ok blob, t)
      → (lock h s.calls pw plain ≡ ok blob) × (t.files ≡ s.files)
  unfolding lock_now
  lock_now-steps pw plain blob s t e =
      (ap (λ p. p.0) e, sym (ap (λ (p : Result Bytes × Machine). p.1.files) e))

module _ (h : Host) (works : ℕ → Bool) where
  -- A file of the PEM form that is there is what is read.
  read-there : (p : FilePath) (fs : Files) (b c : Bytes) → fs p ≡ some b → read p fs ≡ ok c → c ≡ b
  read-there p fs b c there e = ok-inj (sym e ∙ ap (λ o. ok_or o (io "read")) there)

  locked_material-steps :
      (pw : Bytes) (m : TlsMaterial) (k : Bytes) (tmp : Dir) (s t : Machine) (blob : Bytes)
      → m.key ≡ pkcs8 k
      → locked_material h works pw m tmp s ≡ (ok blob, t)
      → (n : ℕ) × (u : Machine) × (lock h n pw (samlet_of h m k) ≡ ok blob)
        × SavedPem h m k tmp s.files u.files
        × (t.files ≡ u.files)
  unfolding locked_material
  locked_material-steps pw m k tmp s t blob key e =
      let (x₁, s₁, h₁, k₁) = steps (save_pem h works m tmp s) _ e in
      let saved : SavedPem h m k tmp s.files s₁.files =
        save_pem-SavedPem h works m k tmp s s₁ key h₁ in
      let (cert, s₂, h₂, k₂) = steps (lift (read (cert_path tmp) s₁.files) s₁) _ k₁ in
      let (key_file, s₃, h₃, k₃) = steps (lift (read (key_path tmp) s₁.files) s₂) _ k₂ in
      let (held, s₄, h₄, k₄) = steps (lift (hold h key_file) s₃) _ k₃ in
      let (samlet, s₅, h₅, k₅) = steps (lift (hold h (cert ++ (newline ++ held))) s₄) _ k₄ in
      let (a₂, b₂) = lift-steps (read (cert_path tmp) s₁.files) h₂ in
      let (a₃, b₃) = lift-steps (read (key_path tmp) s₁.files) h₃ in
      let (a₄, b₄) = lift-steps (hold h key_file) h₄ in
      let (a₅, b₅) = lift-steps (hold h (cert ++ (newline ++ held))) h₅ in
      let (locked, unchanged) = lock_now-steps h pw samlet blob s₅ t k₅ in
      let c : cert ≡ cert_file_of h m = read-there (cert_path tmp) s₁.files _ cert saved.cert a₂ in
      let f : key_file ≡ encode h private_key_label k =
        read-there (key_path tmp) s₁.files _ key_file saved.key a₃ in
      let whole : samlet ≡ samlet_of h m k =
        (hold-lockable h _ samlet a₅).1
        ∙ ap (λ x. x ++ (newline ++ held)) c
        ∙ ap (λ x. cert_file_of h m ++ (newline ++ x)) ((hold-lockable h key_file held a₄).1 ∙ f) in
      (
        s₅.calls,
        s₁,
        subst (λ x. lock h s₅.calls pw x ≡ ok blob) whole locked,
        saved,
        unchanged ∙ ap (λ (u : Machine). u.files) (b₅ ∙ b₄ ∙ b₃ ∙ b₂),
      )

  -- What `save` leaves with a password: the locked material, and outside the staging directory nothing else.
  pub record SavedLocked (pw : Bytes) (m : TlsMaterial) (k : Bytes) (dir : Dir) (s t : Files)
      : Type 0 where
    pub call_number : ℕ
    pub blob : Bytes
    pub locked : lock h call_number pw (samlet_of h m k) ≡ ok blob
    pub there : t (locked_path dir) ≡ some blob
    pub elsewhere :
        (q : FilePath)
        → same_dir (staging dir) q.dir ≡ false
        → same_dir (staging (staging dir)) q.dir ≡ false
        → is_at (locked_path dir) q ≡ false
        → is_at (tmp_of (locked_path dir)) q ≡ false
        → t q ≡ s q

  pub cleared :
      (top : Dir) (s : Machine) (q : FilePath)
      → same_dir top q.dir ≡ false
      → same_dir (staging top) q.dir ≡ false
      → (remove_dir_all works top s).1.files q ≡ s.files q
  unfolding remove_dir_all call
  cleared top s q a b = ground (arith, a, b)

  is_at-other_dir : (p q : FilePath) → same_dir p.dir q.dir ≡ false → is_at p q ≡ false
  is_at-other_dir p q e = ground (arith, e)

  save-SavedLocked :
      (pw : Bytes) (m : TlsMaterial) (k : Bytes) (dir : Dir) (s t : Machine)
      → m.key ≡ pkcs8 k
      → save h works (some pw) m dir s ≡ (ok tt, t)
      → SavedLocked pw m k dir s.files t.files
  unfolding save
  save-SavedLocked pw m k dir s t key e =
      let tmp : Dir = staging dir in
      let (x₁, s₁, h₁, k₁) = steps (call works "create_dir_all" _ s) _ e in
      let (locked, s₂, h₂, k₂) =
        steps
          (in_the_end (locked_material h works pw m tmp) (ignoring (remove_dir_all works tmp)) s₁) _
          k₁ in
      let v : Machine = (locked_material h works pw m tmp s₁).1 in
      let inner : locked_material h works pw m tmp s₁ ≡ (ok locked, v) =
        ap (λ (p : Result Bytes × Machine). (p.0, v)) h₂ in
      let last : s₂ ≡ (remove_dir_all works tmp v).1 =
        sym (ap (λ (p : Result Bytes × Machine). p.1) h₂) in
      let (n, u, is_lock, saved, same_files) =
        locked_material-steps pw m k tmp s₁ v locked key inner in
      let written : Written (locked_path dir) locked s₂.files t.files =
        skriv_atomisk-Written works (locked_path dir) locked s₂ t refl k₂ in
      record {
        call_number = n;
        blob = locked;
        locked = is_lock;
        there = written.there;
        elsewhere = λ q a b c d.
            written.elsewhere q c d
            ∙ ap (λ (z : Machine). z.files q) last
            ∙ cleared tmp v q a b
            ∙ ap (λ f. f q) same_files
            ∙ saved.elsewhere q (is_at-other_dir (cert_path tmp) q a)
                (is_at-other_dir (tmp_of (cert_path tmp)) q a) (is_at-other_dir (key_path tmp) q a)
                (is_at-other_dir (tmp_of (key_path tmp)) q a)
            ∙ ap (λ f. f q) (call-files works "create_dir_all" (λ fs. fs) s s₁ x₁ h₁);
      }

  -- What `save` wrote, in files that still hold it.
  abbrev pub Holds : Option Bytes → TlsMaterial → Bytes → Dir → Files → Type 0
  Holds none m k dir fs =
      (fs (cert_path dir) ≡ some (cert_file_of h m))
      × (fs (key_path dir) ≡ some (encode h private_key_label k))
      × (h.lockable (encode h private_key_label k) ≡ true)
  Holds (some pw) m k dir fs =
      (n : ℕ) × (blob : Bytes) × (lock h n pw (samlet_of h m k) ≡ ok blob)
      × (fs (locked_path dir) ≡ some blob)

  pub save-Holds :
      (password : Option Bytes) (m : TlsMaterial) (k : Bytes) (dir : Dir) (s t : Machine)
      → m.key ≡ pkcs8 k
      → save h works password m dir s ≡ (ok tt, t)
      → Holds password m k dir t.files
  unfolding save
  save-Holds none m k dir s t key e =
      let saved : SavedPem h m k dir s.files t.files =
        save_pem-SavedPem h works m k dir s t key e in
      (saved.cert, saved.key, saved.held)
  save-Holds (some pw) m k dir s t key e =
      let saved : SavedLocked pw m k dir s.files t.files = save-SavedLocked pw m k dir s t key e in
      (saved.call_number, saved.blob, saved.locked, saved.there)

  -- A file of the announcer's own directory that is neither the material nor on the way to it is kept.
  pub save-elsewhere :
      (password : Option Bytes) (m : TlsMaterial) (k : Bytes) (s t : Machine) (stem extension : Str)
      → m.key ≡ pkcs8 k
      → same (codes "cert") stem ≡ false
      → same (codes "key") stem ≡ false
      → same (codes "material") stem ≡ false
      → save h works password m main s ≡ (ok tt, t)
      → t.files (record { dir = main; stem = stem; extension = extension })
        ≡ s.files (record { dir = main; stem = stem; extension = extension })
  unfolding save
  save-elsewhere none m k s t stem extension key a b c e =
      let saved : SavedPem h m k main s.files t.files =
        save_pem-SavedPem h works m k main s t key e in
      saved.elsewhere (record { dir = main; stem = stem; extension = extension }) (rw a refl)
        (rw a refl) (rw b refl) (rw b refl)
  save-elsewhere (some pw) m k s t stem extension key a b c e =
      let saved : SavedLocked pw m k main s.files t.files =
        save-SavedLocked pw m k main s t key e in
      saved.elsewhere (record { dir = main; stem = stem; extension = extension }) refl refl
        (rw c refl) (rw c refl)

  module _ (laws : PemLaws h) (seals : SealLaws h) where
    pub load-Holds :
        (password : Option Bytes) (m : TlsMaterial) (k : Bytes) (dir : Dir) (fs : Files)
        → IsMaterial h m k
        → Holds password m k dir fs
        → load h password dir fs ≡ ok (record m { origin = loaded_origin password })
    unfolding load
    load-Holds none m k dir fs good (c, f, held) = loads_files h laws m k dir fs good c f held
    load-Holds (some pw) m k dir fs good (n, blob, locked, there) =
        rw (there, unlock-lock h seals n pw (samlet_of h m k) blob locked)
          (loads_unlocked h laws m k good)

    -- Material with a PKCS#8 key that `save` has written without an error, with a password or without,
    -- is what `load` reads back from the directory, but for the note of where it came from.
    pub load-save :
        (password : Option Bytes) (m : TlsMaterial) (k : Bytes) (dir : Dir) (s t : Machine)
        → IsMaterial h m k
        → save h works password m dir s ≡ (ok tt, t)
        → load h password dir t.files ≡ ok (record m { origin = loaded_origin password })
    load-save password m k dir s t good e =
        load-Holds password m k dir t.files good (save-Holds password m k dir s t good.key e)
