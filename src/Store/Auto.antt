-- ===== src/Store/Auto.antt =====
-- material.rs, `load_auto`: the material of a directory, generated if there is none that can be used.
use net_tls.Prelude.{
  ℕ, suc, ◌≡◌, ◌≢◌, refl, sym, ap, ◌∙◌, Bool, true, false, ◌&&◌, if◌then◌else◌, some,
}
use net_tls.Prelude.Int.{ℤ}
use net_tls.Prelude.Text.{Bytes}
use net_tls.Error.{Result, ok, err, ok-inj}
use net_tls.Announcement.{is_some}
use net_tls.Host.{Host, SelfSignedParams}
use net_tls.Material.{
  TlsMaterial, CertOrigin, reused, reused_expired, ephemeral, is_valid_at, load_self_signed,
  cert_file_of,
}
use net_tls.Material.Load.{IsMaterial, load_self_signed-IsMaterial}
use net_tls.Disk.{Dir, Machine, Action, ◌>>=◌, lift, counted}
use net_tls.Store.{cert_path, key_path, load, load_files}
use net_tls.Disk.Effects.{lift-then}
use net_tls.Pem.{encode, private_key_label}
use net_tls.Store.Save.{save_pem}
use net_tls.Store.RoundTrip.{PemLaws, SavedPem, save_pem-SavedPem, loads_files}

-- The note on a material that was there already.
abbrev pub marked : ℤ → TlsMaterial → TlsMaterial
marked now m = record m { origin = if is_valid_at m now then reused else reused_expired }

-- `if m.save_pem(dir).is_err() { m.origin = Ephemeral }`
abbrev pub noted : TlsMaterial → Result (Unit {0}) × Machine → Result TlsMaterial × Machine
noted m (ok u, s) = (ok m, s)
noted m (err e, s) = (ok (record m { origin = ephemeral }), s)

module _ (h : Host) (works : ℕ → Bool) where
  unfoldable pub generate_auto : SelfSignedParams → Dir → Action Machine TlsMaterial
  generate_auto params dir = do
    n ← counted
    m ← lift (load_self_signed h params n)
    λ s. noted m (save_pem h works m dir s)

  -- By whether both files are there, and what loading them gives.
  abbrev pub auto_from :
      Bool → Result TlsMaterial → SelfSignedParams → ℤ → Dir → Action Machine TlsMaterial
  auto_from false r params now dir = generate_auto params dir
  auto_from true (err e) params now dir = generate_auto params dir
  auto_from true (ok m) params now dir = lift (ok (marked now m))

  unfoldable pub load_auto : SelfSignedParams → ℤ → Dir → Action Machine TlsMaterial
  load_auto params now dir s =
      auto_from (is_some (s.files (cert_path dir)) && is_some (s.files (key_path dir)))
        (load_files h dir s.files) params now dir s

  module _ (laws : PemLaws h) where
    -- What `load_files` reads in the directory after a generation that could be saved.
    generate_auto-loads :
        (params : SelfSignedParams) (dir : Dir) (s t : Machine) (m : TlsMaterial)
        → generate_auto params dir s ≡ (ok m, t)
        → m.origin ≢ ephemeral
        → load_files h dir t.files ≡ ok (record m { origin = CertOrigin.files })
          × (t.files (cert_path dir) ≡ some (cert_file_of h m))
          × ((b : Bytes) × (t.files (key_path dir) ≡ some b))
    unfolding generate_auto load
    generate_auto-loads params dir s t m e lasting =
        let counted_machine : Machine = record s { calls = suc s.calls } in
        let (fresh, h₁, k₁) = lift-then (load_self_signed h params s.calls) _ counted_machine e in
        let (cert, k, good, is_chain) = load_self_signed-IsMaterial h params s.calls fresh h₁ in
        split fresh k good (save_pem h works fresh dir counted_machine) refl k₁
      where
        split :
            (fresh : TlsMaterial) (k : Bytes)
            → IsMaterial h fresh k
            → (r : Result (Unit {0}) × Machine)
            → save_pem h works fresh dir (record s { calls = suc s.calls }) ≡ r
            → noted fresh r ≡ (ok m, t)
            → load_files h dir t.files ≡ ok (record m { origin = CertOrigin.files })
              × (t.files (cert_path dir) ≡ some (cert_file_of h m))
              × ((b : Bytes) × (t.files (key_path dir) ≡ some b))
        split fresh k good (err x, u) saves e =
            absurd (lasting (ap (λ (n : TlsMaterial). n.origin) (ok-inj (sym (ap (λ p. p.0) e)))))
        split fresh k good (ok x, u) saves e =
            let same_m : fresh ≡ m = ok-inj (ap (λ p. p.0) e) in
            let same_t : u ≡ t = ap (λ p. p.1) e in
            let saved : SavedPem h fresh k dir s.files u.files =
              save_pem-SavedPem h works fresh k dir (record s { calls = suc s.calls }) u good.key
                saves in
            (
              ap (λ (v : Machine). load_files h dir v.files) (sym same_t)
                  ∙ loads_files h laws fresh k dir u.files good saved.cert saved.key saved.held
                  ∙ ap (λ (n : TlsMaterial). ok (record n { origin = CertOrigin.files })) same_m,
              ap (λ (v : Machine). v.files (cert_path dir)) (sym same_t)
                  ∙ saved.cert
                  ∙ ap (λ (n : TlsMaterial). some (cert_file_of h n)) same_m,
              (
                encode h private_key_label k,
                ap (λ (v : Machine). v.files (key_path dir)) (sym same_t) ∙ saved.key,
              ),
            )

    -- The identity of a directory stays: once `load_auto` has come back with material that is not
    -- ephemeral, every later `load_auto` of the directory, with whatever parameters and at whatever time,
    -- comes back with the same certificates and key, says whether they are still valid, and changes nothing.
    pub load_auto-load_auto :
        (params other : SelfSignedParams) (now later : ℤ) (dir : Dir) (s t : Machine)
        (m : TlsMaterial)
        → load_auto params now dir s ≡ (ok m, t)
        → m.origin ≢ ephemeral
        → load_auto other later dir t ≡ (ok (marked later m), t)
    unfolding load_auto is_valid_at
    load_auto-load_auto params other now later dir s t m e lasting =
        split (is_some (s.files (cert_path dir)) && is_some (s.files (key_path dir)))
          (load_files h dir s.files) refl refl e
      where
        generated_again :
            generate_auto params dir s ≡ (ok m, t)
            → load_auto other later dir t ≡ (ok (marked later m), t)
        generated_again e =
            let (loads, cert, (b, key)) = generate_auto-loads params dir s t m e lasting in
            rw (cert, key, loads) refl

        split :
            (there : Bool) (r : Result TlsMaterial)
            → (is_some (s.files (cert_path dir)) && is_some (s.files (key_path dir))) ≡ there
            → load_files h dir s.files ≡ r
            → auto_from there r params now dir s ≡ (ok m, t)
            → load_auto other later dir t ≡ (ok (marked later m), t)
        split false r a b e = generated_again e
        split true (err x) a b e = generated_again e
        split true (ok n) a b e =
            let same_m : marked now n ≡ m = ok-inj (ap (λ p. p.0) e) in
            let same_t : s ≡ t = ap (λ p. p.1) e in
            ap (λ (v : Machine). load_auto other later dir v) (sym same_t)
            ∙ rw (a, b) (ap (λ (x : TlsMaterial). (ok (marked later x), s)) same_m)
            ∙ ap (λ v. (ok (marked later m), v)) same_t
