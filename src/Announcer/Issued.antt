-- ===== src/Announcer/Issued.antt =====
-- What a new announcement names: the certificate that issues it, and the one it carries.
use net_tls.Prelude.{◌≡◌, refl, sym, ap, ◌∙◌, Option, some, [], ◌∷◌, append-nil}
use net_tls.Prelude.Int.{ℤ}
use net_tls.Prelude.Text.{Str, Bytes, utf8}
use net_tls.Error.{ok, ok-inj, >>=-eq-ok}
use net_tls.Signature.{sign_p256}
use net_tls.Announcement
use net_tls.Announcement.{
  Announcement, fingerprint_of, fingerprint_from_pem, der_from_pem, only_cert, sign_if,
}
use net_tls.Canonical.{rotate_v2}
use net_tls.Host.{Host}
use net_tls.Pem.{encode, certificate_label, certs_pem}
use net_tls.Pem.Ascii.{utf8-encode}
use net_tls.Store.RoundTrip.{PemLaws}

module _ (h : Host) where
  -- The text of a certificate names it.
  pub fingerprint_from_pem-encode :
      PemLaws h
      → (der : Bytes)
      → fingerprint_from_pem h.libs (encode h certificate_label der)
        ≡ ok (fingerprint_of h.libs der)
  unfolding fingerprint_from_pem der_from_pem only_cert certs_pem
  fingerprint_from_pem-encode laws der =
      let one : h.libs.pem_slice_iter (utf8 (encode h certificate_label der)) ≡ some der ∷ [] =
        ap h.libs.pem_slice_iter
          (utf8-encode h laws.base64_ascii der ∙ sym (append-nil (encode h certificate_label der)))
        ∙ laws.reads_certs (der ∷ []) in
      rw one refl

  pub new-named :
      (name : Str) (prev : Option (Str × Bytes)) (current : Str × Bytes) (text : Str) (now : ℤ)
      (k : Announcement)
      → Announcement.new h.libs name prev current text now ≡ ok k
      → fingerprint_from_pem h.libs text ≡ ok k.new_fp
  unfolding Announcement.new
  new-named name prev (curr_fp, curr_pkcs8) text now k e =
      let (new_fp, h₁, k₁) = >>=-eq-ok (fingerprint_from_pem h.libs text) _ e in
      let (message, h₂, k₂) = >>=-eq-ok (rotate_v2 name _ curr_fp new_fp now) _ k₁ in
      let (sig_curr, h₃, k₃) = >>=-eq-ok (sign_p256 h.libs curr_pkcs8 message) _ k₂ in
      let (sig_prev, h₄, k₄) = >>=-eq-ok (sign_if h.libs prev message) _ k₃ in
      h₁ ∙ ap (λ (a : Announcement). ok a.new_fp) (ok-inj k₄)

  -- An announcement is issued by the current certificate.
  pub new-current :
      (name : Str) (prev : Option (Str × Bytes)) (current : Str × Bytes) (text : Str) (now : ℤ)
      (k : Announcement)
      → Announcement.new h.libs name prev current text now ≡ ok k
      → k.curr_fp ≡ current.0
  unfolding Announcement.new
  new-current name prev (curr_fp, curr_pkcs8) text now k e =
      let (new_fp, h₁, k₁) = >>=-eq-ok (fingerprint_from_pem h.libs text) _ e in
      let (message, h₂, k₂) = >>=-eq-ok (rotate_v2 name _ curr_fp new_fp now) _ k₁ in
      let (sig_curr, h₃, k₃) = >>=-eq-ok (sign_p256 h.libs curr_pkcs8 message) _ k₂ in
      let (sig_prev, h₄, k₄) = >>=-eq-ok (sign_if h.libs prev message) _ k₃ in
      ap (λ (a : Announcement). a.curr_fp) (sym (ok-inj k₄))
