-- ===== src/Material/Load.antt =====
-- What is known of a material that `from_der` has made, and of one that was generated.
use net_tls.Prelude.{
  ℕ, ◌≡◌, refl, sym, ap, ◌∙◌, false, not, List, [], ◌∷◌, is_empty, ◌==◌, ◌||◌, ltb,
}
use net_tls.Prelude.Text.{Bytes}
use net_tls.Error.{ok, ok-inj, refuse, >>=-eq-ok, >>-eq-ok}
use net_tls.Signature.{ok_or}
use net_tls.Announcement.{fingerprint_of}
use net_tls.Host.{Host, PrivateKey, pkcs8, SelfSignedParams}
use net_tls.Material.{
  TlsMaterial, CertOrigin, generated, generate_pair, load_self_signed, from_der, inspect, leaf,
}
use net_tls.Material.Names.{validate_common_name, validate_sans, max_valid_days}

-- A material as `from_der` makes it, with a PKCS#8 key.
pub record IsMaterial (h : Host) (m : TlsMaterial) (k : Bytes) : Type 0 where
  pub made : from_der h m.chain (pkcs8 k) m.origin ≡ ok m
  pub not_empty : is_empty m.chain ≡ false
  pub key : m.key ≡ pkcs8 k

module _ (h : Host) where
  pub from_der-origin :
      (chain : List Bytes) (key : PrivateKey) (o o' : CertOrigin) (m : TlsMaterial)
      → from_der h chain key o ≡ ok m
      → from_der h chain key o' ≡ ok (record m { origin = o' })
  unfolding from_der
  from_der-origin chain key o o' m e =
      let (h₁, k₁) = >>-eq-ok (refuse (not (h.certified chain key)) _) _ e in
      let (i, h₂, k₂) = >>=-eq-ok (inspect h (leaf chain)) _ k₁ in
      rw (h₁, h₂) (ap (λ (r : TlsMaterial). ok (record r { origin = o' })) (ok-inj k₂))

  -- A material carries the fingerprint of its first certificate.
  pub from_der-fingerprint :
      (chain : List Bytes) (key : PrivateKey) (o : CertOrigin) (m : TlsMaterial)
      → from_der h chain key o ≡ ok m
      → m.fingerprint ≡ fingerprint_of h.libs (leaf chain)
  unfolding from_der
  from_der-fingerprint chain key o m e =
      let (h₁, k₁) = >>-eq-ok (refuse (not (h.certified chain key)) _) _ e in
      let (i, h₂, k₂) = >>=-eq-ok (inspect h (leaf chain)) _ k₁ in
      ap (λ (r : TlsMaterial). r.fingerprint) (sym (ok-inj k₂))

  from_der-fields :
      (chain : List Bytes) (key : PrivateKey) (o : CertOrigin) (m : TlsMaterial)
      → from_der h chain key o ≡ ok m
      → (m.chain ≡ chain) × (m.key ≡ key) × (m.origin ≡ o)
  unfolding from_der
  from_der-fields chain key o m e =
      let (h₁, k₁) = >>-eq-ok (refuse (not (h.certified chain key)) _) _ e in
      let (i, h₂, k₂) = >>=-eq-ok (inspect h (leaf chain)) _ k₁ in
      rw (← ok-inj k₂) (refl, refl, refl)

  made_again :
      (chain : List Bytes) (key : PrivateKey) (o : CertOrigin) (m : TlsMaterial) (k : Bytes)
      → m.chain ≡ chain
      → m.origin ≡ o
      → key ≡ pkcs8 k
      → from_der h chain key o ≡ ok m
      → from_der h m.chain (pkcs8 k) m.origin ≡ ok m
  made_again chain key o m k a b is_key e =
      ap (λ x. from_der h x (pkcs8 k) m.origin) a
      ∙ (ap (λ x. from_der h chain (pkcs8 k) x) b
          ∙ (ap (λ x. from_der h chain x o) (sym is_key) ∙ e))

  -- A generated material has one certificate and a PKCS#8 key.
  pub load_self_signed-IsMaterial :
      (p : SelfSignedParams) (n : ℕ) (m : TlsMaterial)
      → load_self_signed h p n ≡ ok m
      → (cert : Bytes) × (k : Bytes) × IsMaterial h m k × (m.chain ≡ cert ∷ [])
  unfolding load_self_signed generate_pair
  load_self_signed-IsMaterial p n m e =
      let ((chain, key), h₁, k₁) = >>=-eq-ok (generate_pair h p n) _ e in
      let (a₁, b₁) = >>-eq-ok (refuse (is_empty p.sans) _) _ h₁ in
      let (a₂, b₂) =
        >>-eq-ok (refuse (p.valid_days == 0 || ltb max_valid_days p.valid_days) _) _ b₁ in
      let (a₃, b₃) = >>-eq-ok (validate_common_name p.common_name) _ b₂ in
      let (a₄, b₄) = >>-eq-ok (validate_sans h.is_ip p.sans) _ b₃ in
      let ((cert, k), a₅, b₅) = >>=-eq-ok (ok_or (h.self_sign p n) _) _ b₄ in
      let (is_chain, is_key, is_origin) = from_der-fields chain key generated m k₁ in
      let chain_eq : m.chain ≡ cert ∷ [] = is_chain ∙ ap (λ x. x.0) (sym (ok-inj b₅)) in
      let key_eq : m.key ≡ pkcs8 k = is_key ∙ ap (λ x. x.1) (sym (ok-inj b₅)) in
      (
        cert,
        k,
        record {
          made =
              made_again chain key generated m k is_chain is_origin
                (ap (λ x. x.1) (sym (ok-inj b₅))) k₁;
          not_empty = rw chain_eq refl;
          key = key_eq;
        },
        chain_eq,
      )
