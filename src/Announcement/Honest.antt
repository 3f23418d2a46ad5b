-- ===== src/Announcement/Honest.antt =====
-- An announcement that `Announcement::new` makes passes `verify` at its receivers.
use net_tls.Prelude.{subst, ◌≡◌, inl, inr, refl, sym, ap, Option, none, some, arith}
use mathlib.Core.Option
use net_tls.Prelude.Text.{Str, Bytes}
use net_tls.Prelude.Int.{ℤ}
use net_tls.Error.{ok, ok-inj, >>=-eq-ok}
use net_tls.External.{Libs, IsP256Pair}
use net_tls.Signature.{p256_public_key, sign_p256}
use net_tls.Canonical.{rotate_v2}
use net_tls.Announcement.{
  Announcement, fingerprint_of, fingerprint_from_pem, canonical, verify, new, sign_if,
}
use net_tls.Announcement.Verify.{SignedBy, PreviousHolds, verify_iff}

module _ (l : Libs) where
  -- A key that an announcer signs with, and the certificate that a receiver knows it by.
  pub record IsKeyOf (fp : Str) (pkcs8 cert : Bytes) : Type 0 where
    pub named : fingerprint_of l cert ≡ fp
    pub key : Bytes
    pub key_of : p256_public_key l cert ≡ ok key
    pub pair : IsP256Pair l pkcs8 key

  pub sign-SignedBy :
      {fp : Str} {pkcs8 cert : Bytes} (message sig : Bytes)
      → IsKeyOf fp pkcs8 cert
      → sign_p256 l pkcs8 message ≡ ok sig
      → SignedBy l cert message sig
  unfolding sign_p256
  sign-SignedBy message sig k h = record {
    key = k.key;
    key_of = k.key_of;
    holds = k.pair message sig (ground arith);
  }

  -- The announcer's previous key, if it has one, against the receiver's previous certificate, if it
  -- has one: a receiver that knows the announcer's previous certificate, and any receiver without.
  abbrev pub Knows : Option (Str × Bytes) → Option Bytes → Type 0
  Knows prev none = Unit
  Knows none (some der) = ⊥
  Knows (some (fp, pkcs8)) (some der) = IsKeyOf fp pkcs8 der

  sign_if-holds :
      (prev : Option (Str × Bytes)) (prev_der : Option Bytes) (message : Bytes) (sig : Option Bytes)
      → Knows prev prev_der
      → sign_if l prev message ≡ ok sig
      → PreviousHolds l prev_der (Option.map (λ (p : Str × Bytes). p.0) prev) sig message
  unfolding sign_if
  sign_if-holds none none message sig k h = inl (refl, ground arith)
  sign_if-holds none (some der) message sig k h = absurd k
  sign_if-holds (some (fp, pkcs8)) none message sig k h =
      let (s, _, e) = >>=-eq-ok (sign_p256 l pkcs8 message) _ h in inr (fp, s, refl, ground arith)
  sign_if-holds (some (fp, pkcs8)) (some der) message sig k h =
      let (s, signed, e) = >>=-eq-ok (sign_p256 l pkcs8 message) _ h in
      (ap some (sym k.named), (s, ground arith, sign-SignedBy message s k signed))

  abbrev made :
      Str → Option (Str × Bytes) → Str → Str → ℤ → Str → Option Bytes → Bytes → Announcement
  made announcer prev curr_fp pem sent_at new_fp sig_prev sig_curr = record {
    announcer = announcer;
    prev_fp = Option.map (λ (p : Str × Bytes). p.0) prev;
    curr_fp = curr_fp;
    new_fp = new_fp;
    new_cert_pem = pem;
    sent_at = sent_at;
    sig_prev = sig_prev;
    sig_curr = sig_curr;
  }

  -- An announcement that `new` makes passes `verify` at every receiver whose current certificate
  -- belongs to the announcer's current key, and which has no previous certificate or the one that
  -- belongs to the announcer's previous key.
  pub verify-new :
      (announcer : Str) (prev : Option (Str × Bytes)) (curr : Str × Bytes) (pem : Str) (sent_at : ℤ)
      (a : Announcement) (prev_der : Option Bytes) (curr_der : Bytes)
      → IsKeyOf curr.0 curr.1 curr_der
      → Knows prev prev_der
      → new l announcer prev curr pem sent_at ≡ ok a
      → verify l a prev_der curr_der ≡ ok tt
  unfolding new canonical
  verify-new announcer prev (curr_fp, curr_pkcs8) pem sent_at a prev_der curr_der k kp h =
      let (new_fp, h₁, k₁) = >>=-eq-ok (fingerprint_from_pem l pem) _ h in
      let (message, h₂, k₂) = >>=-eq-ok (rotate_v2 announcer _ curr_fp new_fp sent_at) _ k₁ in
      let (sig_curr, h₃, k₃) = >>=-eq-ok (sign_p256 l curr_pkcs8 message) _ k₂ in
      let (sig_prev, h₄, k₄) = >>=-eq-ok (sign_if l prev message) _ k₃ in
      subst (λ x. verify l x prev_der curr_der ≡ ok tt) (ok-inj k₄)
        ((verify_iff l (made announcer prev curr_fp pem sent_at new_fp sig_prev sig_curr) prev_der
            curr_der).1
          (record {
            message = message;
            signs = h₂;
            hashes = h₁;
            current = k.named;
            signed = sign-SignedBy message sig_curr k h₃;
            previous = sign_if-holds prev prev_der message sig_prev kp h₄;
          }))
