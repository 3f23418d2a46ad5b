-- ===== src/Envelope/RoundTrip.antt =====
-- What is sealed to a key is opened with it.
use net_tls.Prelude.{
  ℕ, ◌+◌, ◌≡◌, refl, sym, ap, ◌∙◌, false, not, some, ◌++◌, arith, ltb, ◌==◌, length, take, drop,
  length-append, take-length_append, drop-length_append,
}
use net_tls.Prelude.Text.{Bytes}
use net_tls.Error.{ok, refuse, >>=-eq-ok, >>-eq-ok, ok-inj}
use net_tls.Signature.{ok_or}
use net_tls.Envelope.{
  Exchange, RecipientKey, envelope_magic, x25519_len, public_of, derive_shared, seal_inner,
  seal_envelope, open_envelope,
}

-- A public key has 32 bytes, both sides of an exchange come to one secret, and what was sealed under a
-- key is opened with it.
pub record ExchangeLaws (x : Exchange) : Type 0 where
  pub key_size :
      (call : ℕ) (privat public : Bytes)
      → x.x25519_keypair call ≡ some (privat, public)
      → length public ≡ 32
  pub agrees :
      (call : ℕ) (ephemeral ephemeral_pub privat public shared : Bytes)
      → x.x25519_keypair call ≡ some (ephemeral, ephemeral_pub)
      → x.x25519_public privat ≡ some public
      → x.x25519_shared ephemeral public ≡ some shared
      → x.x25519_shared privat ephemeral_pub ≡ some shared
  pub opens :
      (dk plain blob : Bytes) → x.seal dk plain ≡ some blob → x.open_sealed dk blob ≡ some plain

module _ (x : Exchange) (laws : ExchangeLaws x) where
  framed :
      (public blob : Bytes)
      → length public ≡ 32
      → (ltb (length (envelope_magic ++ (public ++ blob))) (length envelope_magic + x25519_len)
          ≡ false)
        × (take x25519_len (public ++ blob) ≡ public)
        × (drop x25519_len (public ++ blob) ≡ blob)
  framed public blob e = (
    ground (arith, e, length-append public blob),
    ap (λ n. take n (public ++ blob)) (sym e) ∙ take-length_append public blob,
    ap (λ n. drop n (public ++ blob)) (sym e) ∙ drop-length_append public blob,
  )

  -- An envelope that was sealed to the public half of a key is opened with the private half, and gives
  -- the same bytes back.
  pub open_envelope-seal_envelope :
      (call : ℕ) (key : RecipientKey) (public plaintext envelope : Bytes)
      → x.x25519_public key.privat ≡ some public
      → seal_envelope x call public plaintext ≡ ok envelope
      → open_envelope x key envelope ≡ ok plaintext
  unfolding seal_envelope open_envelope seal_inner public_of
  open_envelope-seal_envelope call key public plaintext envelope mine e =
      let (h₁, k₁) = >>-eq-ok (refuse (not (length public == x25519_len)) _) _ e in
      let ((ephemeral, ephemeral_pub), h₂, k₂) = >>=-eq-ok (ok_or (x.x25519_keypair call) _) _ k₁ in
      let (shared, h₃, k₃) = >>=-eq-ok (ok_or (x.x25519_shared ephemeral public) _) _ k₂ in
      let (blob, h₄, k₄) = >>=-eq-ok (seal_inner x shared ephemeral_pub public plaintext) _ k₃ in
      let (dk, h₅, k₅) = >>=-eq-ok (derive_shared x shared ephemeral_pub public) _ h₄ in
      let (h₆, k₆) = >>-eq-ok (refuse (not (x.lockable plaintext)) _) _ k₅ in
      let drawn : x.x25519_keypair call ≡ some (ephemeral, ephemeral_pub) = ground arith in
      let met : x.x25519_shared ephemeral public ≡ some shared = ground arith in
      let opened : x.open_sealed dk blob ≡ some plaintext =
        laws.opens dk plaintext blob (ground arith) in
      let (p, q, r) =
        framed ephemeral_pub blob (laws.key_size call ephemeral ephemeral_pub drawn) in
      rw
        (
          ← ok-inj k₄,
          p,
          q,
          r,
          mine,
          laws.agrees call ephemeral ephemeral_pub key.privat public shared drawn mine met,
          h₅,
          opened,
        )
        refl
