-- ===== src/Announcement/Verify.antt =====
-- What `Announcement::verify` decides, and that an honest announcement passes.
use net_tls.Prelude.{◌≡◌, ◌↔◌, ◌⊎◌, inl, inr, refl, true, not, Option, none, some, arith}
use net_tls.Prelude.Text.{Str, Bytes, same, same→eq, same_refl}
use net_tls.Error.{ok, refuse, >>=-eq-ok, >>-eq-ok}
use net_tls.External.{Libs}
use net_tls.Signature.{p256_public_key, verify_p256}
use net_tls.Announcement.{
  Announcement, fingerprint_of, fingerprint_from_pem, canonical, verify, verify_prev,
}

module _ (l : Libs) where
  -- The certificate has a P-256 key, and the signature holds against it.
  pub record SignedBy (cert message sig : Bytes) : Type 0 where
    pub key : Bytes
    pub key_of : p256_public_key l cert ≡ ok key
    pub holds : l.ecdsa_p256_verify key message sig ≡ true

  pub verify_p256_iff :
      (cert message sig : Bytes)
      → (verify_p256 l cert message sig ≡ ok tt) ↔ SignedBy cert message sig
  unfolding verify_p256
  verify_p256_iff cert message sig = (to, from)
    where
      to : verify_p256 l cert message sig ≡ ok tt → SignedBy cert message sig
      to h =
          let (key, p, q) = >>=-eq-ok (p256_public_key l cert) _ h in
          record { key = key; key_of = p; holds = ground arith }

      from : SignedBy cert message sig → verify_p256 l cert message sig ≡ ok tt
      from s = rw (s.key_of, s.holds)

  -- What is asked of the stated previous fingerprint and its signature: of a receiver without a
  -- previous certificate only that both or neither are there, of any other that they are its own.
  abbrev pub PreviousHolds : Option Bytes → Option Str → Option Bytes → Bytes → Type 0
  PreviousHolds none fp sig message =
      ((fp ≡ none) × (sig ≡ none)) ⊎ ((f : Str) × (s : Bytes) × (fp ≡ some f) × (sig ≡ some s))
  PreviousHolds (some der) fp sig message =
      (fp ≡ some (fingerprint_of l der)) × ((s : Bytes) × (sig ≡ some s) × SignedBy der message s)

  -- An announcement that a receiver with these certificates may trust.
  pub record Holds (a : Announcement) (prev : Option Bytes) (curr : Bytes) : Type 0 where
    pub message : Bytes
    pub signs : canonical a ≡ ok message
    pub hashes : fingerprint_from_pem l a.new_cert_pem ≡ ok a.new_fp
    pub current : fingerprint_of l curr ≡ a.curr_fp
    pub signed : SignedBy curr message a.sig_curr
    pub previous : PreviousHolds prev a.prev_fp a.sig_prev message

  verify_prev_sound :
      (prev : Option Bytes) (fp : Option Str) (sig : Option Bytes) (message : Bytes)
      → verify_prev l prev fp sig message ≡ ok tt
      → PreviousHolds prev fp sig message
  unfolding verify_prev
  verify_prev_sound none none none message h = inl (refl, refl)
  verify_prev_sound none none (some sig) message h = cc
  verify_prev_sound none (some fp) none message h = cc
  verify_prev_sound none (some fp) (some sig) message h = inr (fp, sig, refl, refl)
  verify_prev_sound (some der) (some fp) (some sig) message h =
      let (h₁, k₁) = >>-eq-ok (refuse (not (same (fingerprint_of l der) fp)) _) _ h in
      (
        ground (arith, same→eq (fingerprint_of l der) fp),
        (sig, refl, (verify_p256_iff der message sig).0 k₁),
      )
  verify_prev_sound (some der) none sig message h = cc
  verify_prev_sound (some der) (some fp) none message h = cc

  verify_prev_complete :
      (prev : Option Bytes) (fp : Option Str) (sig : Option Bytes) (message : Bytes)
      → PreviousHolds prev fp sig message
      → verify_prev l prev fp sig message ≡ ok tt
  unfolding verify_prev
  verify_prev_complete none fp sig message (inl (p, q)) = rw (p, q)
  verify_prev_complete none fp sig message (inr (f, s, p, q)) = rw (p, q)
  verify_prev_complete (some der) fp sig message (p, (s, q, signed)) =
      rw (p, q, same_refl (fingerprint_of l der)) ((verify_p256_iff der message s).1 signed)

  verify_sound :
      (a : Announcement) (prev : Option Bytes) (curr : Bytes)
      → verify l a prev curr ≡ ok tt
      → Holds a prev curr
  unfolding verify
  verify_sound a prev curr h =
      let (actual, h₁, k₁) = >>=-eq-ok (fingerprint_from_pem l a.new_cert_pem) _ h in
      let (h₂, k₂) = >>-eq-ok (refuse (not (same actual a.new_fp)) _) _ k₁ in
      let (h₃, k₃) = >>-eq-ok (refuse (not (same (fingerprint_of l curr) a.curr_fp)) _) _ k₂ in
      let (message, h₄, k₄) = >>=-eq-ok (canonical a) _ k₃ in
      let (h₅, k₅) = >>-eq-ok (verify_p256 l curr message a.sig_curr) _ k₄ in
      record {
        message = message;
        signs = h₄;
        hashes = ground (arith, same→eq actual a.new_fp);
        current = ground (arith, same→eq (fingerprint_of l curr) a.curr_fp);
        signed = (verify_p256_iff curr message a.sig_curr).0 h₅;
        previous = verify_prev_sound prev a.prev_fp a.sig_prev message k₅;
      }

  -- `verify` passes exactly the announcements that hold against the receiver's own certificates: with
  -- canonical fields, the announced certificate hashing to `new_fp`, the receiver's current certificate
  -- as `curr_fp` with its signature, and its previous certificate, if it has one, as `prev_fp` with its
  -- signature (if not, both or neither of the two).
  pub verify_iff :
      (a : Announcement) (prev : Option Bytes) (curr : Bytes)
      → (verify l a prev curr ≡ ok tt) ↔ Holds a prev curr
  unfolding verify
  verify_iff a prev curr = (verify_sound a prev curr, from)
    where
      from : Holds a prev curr → verify l a prev curr ≡ ok tt
      from h =
          rw
            (
              h.hashes,
              same_refl a.new_fp,
              h.current,
              same_refl a.curr_fp,
              h.signs,
              (verify_p256_iff curr h.message a.sig_curr).1 h.signed,
            )
            (verify_prev_complete prev a.prev_fp a.sig_prev h.message h.previous)
