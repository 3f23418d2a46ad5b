-- ===== src/Store/Torn.antt =====
-- Material in the clear is two files, and a process may end between them.
use net_tls.Prelude.{
  ℕ, suc, ◌≤◌, ◌≡◌, refl, ap, ◌∙◌, Bool, true, false, none, some, arith, is_empty,
}
use net_tls.Prelude.Text.{Bytes}
use net_tls.Error.{Result, ok, err, io, key_mismatch, is_ok}
use net_tls.Host.{Host, pkcs8}
use net_tls.Lockbox.{hold}
use net_tls.Pem.{encode, private_key_label}
use net_tls.Material.{TlsMaterial, from_pem, from_der, cert_file_of}
use net_tls.Material.Load.{IsMaterial}
use net_tls.Disk.{Dir, FilePath, Files, Machine, carry_on, call, write_atomic}
use net_tls.Disk.Effects.{Written, write_atomic-Written, call-files}
use net_tls.Store.{cert_path, key_path, load, load_files}
use net_tls.Store.RoundTrip.{PemLaws, collect_certs-map, hold-ok}
use net_tls.Store.Save.{save, save_pem}

-- A write of a process that has ended changes nothing.
write_atomic-dead :
    (works : ℕ → Bool) (p : FilePath) (bytes : Bytes) (t : Machine)
    → works t.calls ≡ false
    → works (suc t.calls) ≡ false
    → write_atomic works p bytes t ≡ (err (io "create"), record t { calls = suc (suc t.calls) })
unfolding write_atomic call
write_atomic-dead works p bytes t a b = rw (a, b) refl

module _ (h : Host) (laws : PemLaws h) (works : ℕ → Bool) where
  loads-torn :
      (k : Bytes) (dir : Dir) (fs : Files) (m : TlsMaterial)
      → is_empty m.chain ≡ false
      → fs (cert_path dir) ≡ some (cert_file_of h m)
      → fs (key_path dir) ≡ some (encode h private_key_label k)
      → h.lockable (encode h private_key_label k) ≡ true
      → h.certified m.chain (pkcs8 k) ≡ false
      → load h none dir fs ≡ err (key_mismatch "the key does not belong to the certificate")
  unfolding load load_files from_pem from_der
  loads-torn k dir fs m not_empty c e held other =
      rw
        (
          c,
          e,
          hold-ok h (encode h private_key_label k) held,
          laws.reads_certs m.chain,
          collect_certs-map m.chain,
          not_empty,
          laws.reads_key k,
          other,
        )
        refl

  ends-behind :
      (m : TlsMaterial) (k : Bytes) (dir : Dir) (s u t : Machine)
      → m.key ≡ pkcs8 k
      → call works "create_dir_all" (λ fs. fs) s ≡ (ok tt, u)
      → write_atomic works (cert_path dir) (cert_file_of h m) u ≡ (ok tt, t)
      → works t.calls ≡ false
      → works (suc t.calls) ≡ false
      → (is_ok (save h works none m dir s).0 ≡ false)
        × ((save h works none m dir s).1.files ≡ t.files)
  unfolding save save_pem
  ends-behind m k dir s u t is_key made written a b =
      rw (made, written, is_key) (held (hold h (encode h private_key_label k)))
    where
      held :
          (r : Result Bytes)
          → (is_ok (carry_on (write_atomic works (key_path dir)) (r, t)).0 ≡ false)
            × ((carry_on (write_atomic works (key_path dir)) (r, t)).1.files ≡ t.files)
      held (err x) = (refl, refl)
      held (ok key) = rw (write_atomic-dead works (key_path dir) key t a b) (refl, refl)

  -- Without a password, a process that ends once the new certificate is written, and before the key is,
  -- leaves the certificate with the old key: `save` has failed, and `load` refuses what it left, if the
  -- old key is not the new certificate's.
  pub save-torn :
      (m : TlsMaterial) (k old : Bytes) (dir : Dir) (s u t : Machine)
      → IsMaterial h m k
      → s.files (key_path dir) ≡ some (encode h private_key_label old)
      → h.lockable (encode h private_key_label old) ≡ true
      → h.certified m.chain (pkcs8 old) ≡ false
      → call works "create_dir_all" (λ fs. fs) s ≡ (ok tt, u)
      → write_atomic works (cert_path dir) (cert_file_of h m) u ≡ (ok tt, t)
      → ((n : ℕ) → t.calls ≤ n → works n ≡ false)
      → (is_ok (save h works none m dir s).0 ≡ false)
        × (load h none dir (save h works none m dir s).1.files
            ≡ err (key_mismatch "the key does not belong to the certificate"))
  save-torn m k old dir s u t good there held other made written ends =
      let (failed, files) =
        ends-behind m k dir s u t good.key made written (ends t.calls (omega arith))
          (ends (suc t.calls) (omega arith)) in
      let w : Written (cert_path dir) (cert_file_of h m) u.files t.files =
        write_atomic-Written works (cert_path dir) (cert_file_of h m) u t refl written in
      let kept : t.files (key_path dir) ≡ some (encode h private_key_label old) =
        w.elsewhere (key_path dir) refl refl
        ∙ ap (λ f. f (key_path dir)) (call-files works "create_dir_all" (λ fs. fs) s u tt made)
        ∙ there in
      (
        failed,
        ap (load h none dir) files
            ∙ loads-torn old dir t.files m good.not_empty w.there kept held other,
      )
