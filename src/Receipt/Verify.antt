-- ===== src/Receipt/Verify.antt =====
-- What `Receipt::verify` and `Receipt::from_json` accept, and the way of an honest receipt.
use net_tls.Prelude.{◌≡◌, ◌↔◌, refl, sym, subst, true, not, arith}
use net_tls.Prelude.Int.{ℤ}
use net_tls.Prelude.Text.{Str, Bytes, same, same→eq, same_refl}
use net_tls.Error.{ok, ok-inj, refuse, >>=-eq-ok, >>-eq-ok}
use net_tls.External.{Libs, HexLaws, IsEd25519Pair}
use net_tls.Signature.{ok_or, from_hex}
use net_tls.Canonical.{
  rotate_ack_v2, rotate_ack_v2_tag, assemble, require_component_name, require_fingerprint,
}
use net_tls.Canonical.Fields.{
  IsComponentName, IsFingerprint, require_component_name_iff, require_fingerprint_iff,
}
use net_tls.Canonical.Messages.{rotate_ack, lines, signed_bytes_iff}
use net_tls.Announcement.Wire.{IsSig, from_hex-encode, from_hex-inv}
use net_tls.Receipt.{ReceiptJson, Receipt, canonical, new, verify, to_json, from_json}

-- The bytes that a receipt signs.
abbrev pub message_of : Receipt → Bytes
message_of r = assemble (lines (rotate_ack r.acker r.announcer r.new_fp r.sent_at))

pub record HasValidFields (r : Receipt) : Type 0 where
  pub acker : IsComponentName r.acker
  pub announcer : IsComponentName r.announcer
  pub new_fp : IsFingerprint r.new_fp

canonical_iff :
    (r : Receipt) (b : Bytes) → (canonical r ≡ ok b) ↔ (HasValidFields r × (b ≡ message_of r))
unfolding canonical
canonical_iff r b =
    let both = signed_bytes_iff (rotate_ack r.acker r.announcer r.new_fp r.sent_at) b in
    (
      λ h. let ((p, q, s), e) = both.0 h in (record { acker = p; announcer = q; new_fp = s }, e),
      λ h. both.1 ((h.0.acker, h.0.announcer, h.0.new_fp), h.1),
    )

module _ (l : Libs) where
  -- `verify` passes exactly the receipts with valid fields for the rotation that was announced,
  -- signed over their own canonical string with the pinned key.
  pub receipt-verify_iff :
      (r : Receipt) (pinned : Bytes) (expected : Str)
      → (verify l r pinned expected ≡ ok tt) ↔ (
          (r.new_fp ≡ expected)
          × HasValidFields r
          × (l.ed25519_verify pinned (message_of r) r.sig ≡ true))
  unfolding verify
  receipt-verify_iff r pinned expected = (to, from)
    where
      to :
          verify l r pinned expected ≡ ok tt
          → (r.new_fp ≡ expected)
            × HasValidFields r
            × (l.ed25519_verify pinned (message_of r) r.sig ≡ true)
      to h =
          let (h₁, k₁) = >>-eq-ok (refuse (not (same r.new_fp expected)) _) _ h in
          let (b, h₂, k₂) = >>=-eq-ok (canonical r) _ k₁ in
          let (fields, e) = (canonical_iff r b).0 h₂ in
          (ground (arith, same→eq r.new_fp expected), fields, ground arith)

      from :
          (r.new_fp ≡ expected)
            × HasValidFields r
            × (l.ed25519_verify pinned (message_of r) r.sig ≡ true)
          → verify l r pinned expected ≡ ok tt
      from (e, fields, holds) =
          rw (← e, same_refl r.new_fp, (canonical_iff r _).1 (fields, refl), holds)

  -- A receipt made with the private half of the pinned key passes at the announcer that announced
  -- this certificate, and at no announcer that announced another.
  pub verify-new_receipt :
      (acker announcer new_fp : Str) (sent_at : ℤ) (seed pinned : Bytes) (r : Receipt)
      (expected : Str)
      → IsEd25519Pair l seed pinned
      → new l acker announcer new_fp sent_at seed ≡ ok r
      → (verify l r pinned expected ≡ ok tt) ↔ (expected ≡ new_fp)
  unfolding new canonical
  verify-new_receipt acker announcer new_fp sent_at seed pinned r expected pair h =
      let (b, h₁, k₁) = >>=-eq-ok (rotate_ack_v2 acker announcer new_fp sent_at) _ h in
      let (sig, h₂, k₂) = >>=-eq-ok (ok_or (l.ed25519_sign seed b) _) _ k₁ in
      let made : Receipt = record {
        acker = acker;
        announcer = announcer;
        new_fp = new_fp;
        sent_at = sent_at;
        sig = sig;
      } in
      let (fields, e) = (canonical_iff made b).0 h₁ in
      let signed : l.ed25519_verify pinned (message_of made) sig ≡ true =
        rw (← e) (pair b sig (ground arith)) in
      let both = receipt-verify_iff made pinned expected in
      subst (λ x. (verify l x pinned expected ≡ ok tt) ↔ (expected ≡ new_fp)) (ok-inj k₂)
        (λ v. sym (both.0 v).0, λ z. both.1 (sym z, fields, signed))

  module _ (hex : HexLaws l) where
    -- `from_json` accepts exactly the wire form of a receipt with valid fields and a signature
    -- of at least one byte.
    pub receipt-from_json_iff :
        (j : ReceiptJson) (r : Receipt)
        → (from_json l j ≡ ok r) ↔ (HasValidFields r × IsSig r.sig × (j ≡ to_json l r))
    unfolding from_json to_json
    receipt-from_json_iff j r = (to, from)
      where
        to : from_json l j ≡ ok r → HasValidFields r × IsSig r.sig × (j ≡ to_json l r)
        to h =
            let (h₁, k₁) = >>-eq-ok (refuse (not (same j.v rotate_ack_v2_tag)) _) _ h in
            let (h₂, k₂) = >>-eq-ok (require_component_name j.acker _) _ k₁ in
            let (h₃, k₃) = >>-eq-ok (require_component_name j.announcer _) _ k₂ in
            let (h₄, k₄) = >>-eq-ok (require_fingerprint j.new_fingerprint _) _ k₃ in
            let (sig, h₅, k₅) = >>=-eq-ok (from_hex l j.sig) _ k₄ in
            let (sig_eq, sig_ne) = from_hex-inv l hex j.sig sig h₅ in
            let version : j.v ≡ rotate_ack_v2_tag = same→eq j.v rotate_ack_v2_tag (ground arith) in
            subst (λ x. HasValidFields x × IsSig x.sig × (j ≡ to_json l x)) (ok-inj k₅)
              (
                record {
                  acker = (require_component_name_iff j.acker _).0 h₂;
                  announcer = (require_component_name_iff j.announcer _).0 h₃;
                  new_fp = (require_fingerprint_iff j.new_fingerprint _).0 h₄;
                },
                sig_ne,
                ground (arith, sig_eq, version),
              )

        from : HasValidFields r × IsSig r.sig × (j ≡ to_json l r) → from_json l j ≡ ok r
        from (fields, ne, e) = rw (
          e,
          (require_component_name_iff r.acker _).1 fields.acker,
          (require_component_name_iff r.announcer _).1 fields.announcer,
          (require_fingerprint_iff r.new_fp _).1 fields.new_fp,
          from_hex-encode l hex r.sig ne,
        )
