-- ===== src/Store/RoundTrip.antt =====
-- The material that was saved is loaded again, locked or in the clear.
use net_tls.Prelude.{
  ℕ, ◌<◌, All, ◌≡◌, refl, sym, ap, ◌∙◌, Bool, true, false, none, some, List, [], ◌∷◌, ◌++◌, map,
  append_assoc, arith, take, drop, length, take-length_append, drop-length_append,
}
use net_tls.Prelude.Text.{Bytes}
use net_tls.Error.{pem, ok, ok-inj}
use net_tls.Signature.{ok_or}
use net_tls.Host.{Host, pkcs8}
use net_tls.Pem.{newline, encode, certs_pem, private_key_label}
use net_tls.Pem.Marker.{HasNoHyphen, find_marker-material}
use net_tls.Lockbox.{hold}
use net_tls.Material.{
  TlsMaterial, CertOrigin, pem_bytes, from_pem, collect_certs, key_block, cert_file_of,
}
use net_tls.Material.Load.{IsMaterial, from_der-origin}
use net_tls.Disk.{Dir, FilePath, Files, Machine, lift, call, is_at, tmp_of, write_atomic}
use net_tls.Disk.Effects.{steps, Written, write_atomic-Written, call-files, lift-steps}
use net_tls.Store.{cert_path, key_path, load, load_files, load_unlocked}
use net_tls.Store.Save.{save_pem}

-- What `encode` writes, the PEM reader of `rustls_pki_types` reads.
pub record PemLaws (h : Host) : Type 0 where
  pub base64_chars : (b : Bytes) → HasNoHyphen (h.base64 b)
  pub base64_ascii : (b : Bytes) → All (λ c. c < 128) (h.base64 b)
  pub reads_certs :
      (chain : List Bytes) → h.libs.pem_slice_iter (certs_pem h chain) ≡ map some chain
  pub reads_certs_line :
      (chain : List Bytes) → h.libs.pem_slice_iter (certs_pem h chain ++ newline) ≡ map some chain
  pub reads_key : (k : Bytes) → h.key_from_pem (encode h private_key_label k) ≡ some (pkcs8 k)

pub collect_certs-map : (chain : List Bytes) → collect_certs (map some chain) ≡ some chain
unfolding collect_certs
collect_certs-map [] = refl
collect_certs-map (c ∷ cs) = rw (collect_certs-map cs) refl

-- A PKCS#8 key's file, and what is left alone.
pub record SavedPem (h : Host) (m : TlsMaterial) (k : Bytes) (dir : Dir) (s t : Files)
    : Type 0 where
  pub cert : t (cert_path dir) ≡ some (cert_file_of h m)
  pub key : t (key_path dir) ≡ some (encode h private_key_label k)
  pub held : h.lockable (encode h private_key_label k) ≡ true
  pub elsewhere :
      (q : FilePath)
      → is_at (cert_path dir) q ≡ false
      → is_at (tmp_of (cert_path dir)) q ≡ false
      → is_at (key_path dir) q ≡ false
      → is_at (tmp_of (key_path dir)) q ≡ false
      → t q ≡ s q

module _ (h : Host) where
  pub hold-lockable : (b v : Bytes) → hold h b ≡ ok v → (h.lockable b ≡ true) × (v ≡ b)
  unfolding hold
  hold-lockable b v e = ground (arith, e)

  pub hold-ok : (b : Bytes) → h.lockable b ≡ true → hold h b ≡ ok b
  unfolding hold
  hold-ok b e = rw e refl

  module _ (works : ℕ → Bool) where
    pub save_pem-SavedPem :
        (m : TlsMaterial) (k : Bytes) (dir : Dir) (s t : Machine)
        → m.key ≡ pkcs8 k
        → save_pem h works m dir s ≡ (ok tt, t)
        → SavedPem h m k dir s.files t.files
    unfolding save_pem
    save_pem-SavedPem m k dir s t key e =
        let (x₁, s₁, h₁, k₁) = steps (call works "create_dir_all" _ s) _ e in
        let (x₂, s₂, h₂, k₂) =
          steps (write_atomic works (cert_path dir) (cert_file_of h m) s₁) _ k₁ in
        let (block, s₃, h₃, k₃) = steps (lift (ok_or (key_block h m.key) _) s₂) _ k₂ in
        let (key_pem, s₄, h₄, k₄) = steps (lift (hold h block) s₃) _ k₃ in
        let (b, e₃) = lift-steps (ok_or (key_block h m.key) _) h₃ in
        let (c, e₄) = lift-steps (hold h block) h₄ in
        let (held, same_block) = hold-lockable block key_pem c in
        let is_block : encode h private_key_label k ≡ block =
          ok-inj
            (sym (ap (λ x. ok_or (key_block h x) (pem "unknown private key format")) key) ∙ b) in
        let first : Written (cert_path dir) (cert_file_of h m) s₁.files s₂.files =
          write_atomic-Written works (cert_path dir) (cert_file_of h m) s₁ s₂ refl h₂ in
        let second : Written (key_path dir) key_pem s₄.files t.files =
          write_atomic-Written works (key_path dir) key_pem s₄ t refl k₄ in
        let between : s₄.files ≡ s₂.files = ap (λ (u : Machine). u.files) (e₄ ∙ e₃) in
        let before : s₁.files ≡ s.files = call-files works "create_dir_all" (λ fs. fs) s s₁ x₁ h₁ in
        record {
          cert =
              second.elsewhere (cert_path dir) refl refl
              ∙ (ap (λ f. f (cert_path dir)) between ∙ first.there);
          key = second.there ∙ ap some (same_block ∙ sym is_block);
          held = ap h.lockable is_block ∙ held;
          elsewhere = λ q n₁ n₂ n₃ n₄.
              second.elsewhere q n₃ n₄
              ∙ (ap (λ f. f q) between ∙ (first.elsewhere q n₁ n₂ ∙ ap (λ f. f q) before));
        }

  module _ (laws : PemLaws h) where
    from_pem-certs :
        (m : TlsMaterial) (k : Bytes) (o : CertOrigin) (cert_pem : Bytes)
        → IsMaterial h m k
        → h.libs.pem_slice_iter cert_pem ≡ map some m.chain
        → from_pem h cert_pem (encode h private_key_label k) o ≡ ok (record m { origin = o })
    unfolding from_pem
    from_pem-certs m k o cert_pem good e =
        rw (e, collect_certs-map m.chain, good.not_empty, laws.reads_key k)
          (from_der-origin h m.chain (pkcs8 k) m.origin o m good.made)

    pub loads_files :
        (m : TlsMaterial) (k : Bytes) (dir : Dir) (fs : Files)
        → IsMaterial h m k
        → fs (cert_path dir) ≡ some (cert_file_of h m)
        → fs (key_path dir) ≡ some (encode h private_key_label k)
        → h.lockable (encode h private_key_label k) ≡ true
        → load h none dir fs ≡ ok (record m { origin = CertOrigin.files })
    unfolding load load_files
    loads_files m k dir fs good c e held =
        rw (c, e, hold-ok (encode h private_key_label k) held)
          (from_pem-certs m k CertOrigin.files (cert_file_of h m) good (laws.reads_certs m.chain))

    -- The unlocked bytes are split into the certificates and the key.
    pub loads_unlocked :
        (m : TlsMaterial) (k : Bytes)
        → IsMaterial h m k
        → load_unlocked h (cert_file_of h m ++ (newline ++ encode h private_key_label k))
          ≡ ok (record m { origin = pem_bytes })
    unfolding load_unlocked
    loads_unlocked m k good =
        let front : Bytes = certs_pem h m.chain ++ newline in
        let key : Bytes = encode h private_key_label k in
        let joined : certs_pem h m.chain ++ (newline ++ key) ≡ front ++ key =
          sym (append_assoc (certs_pem h m.chain) newline key) in
        let t : take (length front) (certs_pem h m.chain ++ (newline ++ key)) ≡ front =
          ap (take (length front)) joined ∙ take-length_append front key in
        let d : drop (length front) (certs_pem h m.chain ++ (newline ++ key)) ≡ key =
          ap (drop (length front)) joined ∙ drop-length_append front key in
        rw (find_marker-material h laws.base64_chars m.chain k, t, d)
          (from_pem-certs m k pem_bytes front good (laws.reads_certs_line m.chain))
