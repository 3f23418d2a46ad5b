-- ===== src/Store/Valid.antt =====
-- What every material that was loaded is, whatever it was loaded from.
use net_tls.Prelude.{ℕ, suc, ◌≡◌, refl, ap, subst, Bool, true, false, not, List, is_empty}
use net_tls.Prelude.Int.{ℤ}
use net_tls.Prelude.Text.{Bytes}
use net_tls.Error.{Result, ok, err, ok-inj, refuse, refuse-eq-ok, >>=-eq-ok, >>-eq-ok}
use net_tls.Signature.{ok_or}
use net_tls.Announcement.{fingerprint_of}
use net_tls.Host.{Host, PrivateKey, pkcs8, SelfSignedParams}
use net_tls.Material.{
  TlsMaterial, CertOrigin, from_pem, from_der, inspect, collect_certs, load_self_signed, leaf,
  ephemeral,
}
use net_tls.Lockbox.{hold}
use net_tls.Material.Load.{load_self_signed-IsMaterial}
use net_tls.Disk.{Dir, FilePath, Files, Machine}
use net_tls.Disk.Effects.{lift-then}
use net_tls.Store.{read, load_paths, load_files, cert_path, key_path}
use net_tls.Store.Save.{save_pem}
use net_tls.Store.Auto.{load_auto, auto_from, generate_auto, noted}
use net_tls.Store.Source.{
  Kind, of_files, of_pem, self_signed, auto, CertSource, load_kind, load_source, certified_key,
}

-- A chain that is not empty, a key that belongs to it, the fingerprint of its first certificate, and what
-- that certificate says of itself.
pub record IsValid (h : Host) (m : TlsMaterial) : Type 0 where
  pub not_empty : is_empty m.chain ≡ false
  pub belongs : certified_key h m ≡ ok (m.chain, m.key)
  pub named : m.fingerprint ≡ fingerprint_of h.libs (leaf m.chain)
  pub says : inspect h (leaf m.chain) ≡ ok (m.not_before, m.not_after, m.sans, m.subject)

of_not : (b : Bool) → not b ≡ false → b ≡ true
of_not true e = refl
of_not false e = cc

module _ (h : Host) where
  from_der-IsValid :
      (chain : List Bytes) (key : PrivateKey) (o : CertOrigin) (m : TlsMaterial)
      → is_empty chain ≡ false
      → from_der h chain key o ≡ ok m
      → IsValid h m
  unfolding from_der certified_key
  from_der-IsValid chain key o m not_empty e =
      let (h₁, k₁) = >>-eq-ok (refuse (not (h.certified chain key)) _) _ e in
      let (i, h₂, k₂) = >>=-eq-ok (inspect h (leaf chain)) _ k₁ in
      let fits : h.certified chain key ≡ true =
        of_not (h.certified chain key) (refuse-eq-ok _ _ h₁) in
      subst (IsValid h) (ok-inj k₂)
        (record { not_empty = not_empty; belongs = rw fits refl; named = refl; says = h₂ })

  from_pem-IsValid :
      (cert key : Bytes) (o : CertOrigin) (m : TlsMaterial)
      → from_pem h cert key o ≡ ok m
      → IsValid h m
  unfolding from_pem
  from_pem-IsValid cert key o m e =
      let (chain, h₁, k₁) = >>=-eq-ok (ok_or (collect_certs (h.libs.pem_slice_iter cert)) _) _ e in
      let (h₂, k₂) = >>-eq-ok (refuse (is_empty chain) _) _ k₁ in
      let (k, h₃, k₃) = >>=-eq-ok (ok_or (h.key_from_pem key) _) _ k₂ in
      from_der-IsValid chain k o m (refuse-eq-ok _ _ h₂) k₃

  load_paths-IsValid :
      (cert key : FilePath) (fs : Files) (m : TlsMaterial)
      → load_paths h cert key fs ≡ ok m
      → IsValid h m
  unfolding load_paths
  load_paths-IsValid cert key fs m e =
      let (c, h₁, k₁) = >>=-eq-ok (read cert fs) _ e in
      let (file, h₂, k₂) = >>=-eq-ok (read key fs) _ k₁ in
      let (k, h₃, k₃) = >>=-eq-ok (hold h file) _ k₂ in from_pem-IsValid c k CertOrigin.files m k₃

  load_self_signed-IsValid :
      (p : SelfSignedParams) (n : ℕ) (m : TlsMaterial) → load_self_signed h p n ≡ ok m → IsValid h m
  load_self_signed-IsValid p n m e =
      let (cert, k, good, is_chain) = load_self_signed-IsMaterial h p n m e in
      from_der-IsValid m.chain (pkcs8 k) m.origin m good.not_empty good.made

  -- The note of where it came from changes nothing of that.
  noted-IsValid :
      (m : TlsMaterial) (o : CertOrigin) → IsValid h m → IsValid h (record m { origin = o })
  unfolding certified_key
  noted-IsValid m o good = record {
    not_empty = good.not_empty;
    belongs = good.belongs;
    named = good.named;
    says = good.says;
  }

  module _ (works : ℕ → Bool) where
    generate_auto-IsValid :
        (p : SelfSignedParams) (dir : Dir) (s t : Machine) (m : TlsMaterial)
        → generate_auto h works p dir s ≡ (ok m, t)
        → IsValid h m
    unfolding generate_auto
    generate_auto-IsValid p dir s t m e =
        let machine : Machine = record s { calls = suc s.calls } in
        let (fresh, h₁, k₁) = lift-then (load_self_signed h p s.calls) _ machine e in
        split fresh (load_self_signed-IsValid p s.calls fresh h₁)
          (save_pem h works fresh dir machine) k₁
      where
        split :
            (fresh : TlsMaterial)
            → IsValid h fresh
            → (r : Result (Unit {0}) × Machine) → noted fresh r ≡ (ok m, t)
            → IsValid h m
        split fresh good (ok u, v) e = subst (IsValid h) (ok-inj (ap (λ p. p.0) e)) good
        split fresh good (err x, v) e =
            subst (IsValid h) (ok-inj (ap (λ p. p.0) e)) (noted-IsValid fresh ephemeral good)

    auto_from-IsValid :
        (both : Bool) (r : Result TlsMaterial) (p : SelfSignedParams) (now : ℤ) (dir : Dir)
        (s t : Machine) (m : TlsMaterial)
        → ((n : TlsMaterial) → r ≡ ok n → IsValid h n)
        → auto_from h works both r p now dir s ≡ (ok m, t)
        → IsValid h m
    auto_from-IsValid false r p now dir s t m good e = generate_auto-IsValid p dir s t m e
    auto_from-IsValid true (err x) p now dir s t m good e = generate_auto-IsValid p dir s t m e
    auto_from-IsValid true (ok n) p now dir s t m good e =
        subst (IsValid h) (ok-inj (ap (λ p. p.0) e)) (noted-IsValid n _ (good n refl))

    load_kind-IsValid :
        (now : ℤ) (kind : Kind) (s t : Machine) (m : TlsMaterial)
        → load_kind h works now kind s ≡ (ok m, t)
        → IsValid h m
    unfolding load_kind load_auto load_files load_paths
    load_kind-IsValid now (of_files cert key) s t m e =
        load_paths-IsValid cert key s.files m (ap (λ p. p.0) e)
    load_kind-IsValid now (of_pem cert key) s t m e =
        from_pem-IsValid cert key CertOrigin.pem_bytes m (ap (λ p. p.0) e)
    load_kind-IsValid now (self_signed p) s t m e =
        load_self_signed-IsValid p s.calls m (ap (λ p. p.0) e)
    load_kind-IsValid now (auto dir p) s t m e =
        auto_from-IsValid _ (load_paths h (cert_path dir) (key_path dir) s.files) p now dir s t m
          (λ n. load_paths-IsValid (cert_path dir) (key_path dir) s.files n) e

    -- Whatever it is loaded from: material that `load` gives has a chain that is not empty, a key that
    -- belongs to it, the fingerprint of its first certificate, and the times and names that stand there.
    pub load_source-IsValid :
        (now : ℤ) (source : CertSource) (s t : Machine) (m : TlsMaterial)
        → load_source h works now source s ≡ (ok m, t)
        → IsValid h m
    unfolding load_source
    load_source-IsValid now source s t m e = load_kind-IsValid now source.kind s t m e
