-- ===== src/Approval/Verify.antt =====
-- What an approval and a recognition prove, and the wire form of an approval.
use net_tls.Prelude.{subst, ◌≡◌, ◌↔◌, refl, true, not, some, arith}
use net_tls.Prelude.Int.{ℤ}
use net_tls.Prelude.Text.{Str, Bytes, same, same→eq}
use net_tls.Error.{ok, refuse, ok-inj, >>=-eq-ok, >>-eq-ok}
use net_tls.External.{Libs, HexLaws, IsEd25519Pair}
use net_tls.Signature.{ok_or, from_hex}
use net_tls.Canonical.{
  approve_v1, approve_v1_tag, require_component_name, require_fingerprint, require_name,
}
use net_tls.Canonical.Fields.{
  IsFingerprint, IsComponentName, IsName, require_fingerprint_iff, require_component_name_iff,
  require_name_iff,
}
use net_tls.Canonical.Messages.{Message, lines, signed_bytes_iff}
use net_tls.Canonical.{assemble}
use net_tls.Announcement.Verify.{Holds, verify_iff}
use net_tls.Announcement.Wire.{IsSig, from_hex-encode, from_hex-inv}
use net_tls.Approval.{
  Approval, ApprovalJson, Keys, Context, Recognition, operator, schedule, canonical, new, verify,
  to_json, from_json, verify_recognition,
}

-- The bytes that are signed when the fields are valid.
abbrev pub message_of : Approval → Bytes
message_of a = assemble (lines (Message.approve a.peer a.fingerprint a.approved_by a.timestamp))

pub record HasValidFields (a : Approval) : Type 0 where
  pub peer : IsComponentName a.peer
  pub fingerprint : IsFingerprint a.fingerprint
  pub approved_by : IsName a.approved_by 64

canonical_iff :
    (a : Approval) (b : Bytes) → (canonical a ≡ ok b) ↔ (HasValidFields a × (b ≡ message_of a))
unfolding canonical
canonical_iff a b =
    let both =
      signed_bytes_iff (Message.approve a.peer a.fingerprint a.approved_by a.timestamp) b in
    (
      λ h.
          let ((p, f, n), e) = both.0 h in
          (record { peer = p; fingerprint = f; approved_by = n }, e),
      λ h. both.1 ((h.0.peer, h.0.fingerprint, h.0.approved_by), h.1),
    )

module _ (l : Libs) where
  -- The registry has a key of this name, the fields are valid, and the signature over all of them holds.
  pub record IsApproved (a : Approval) (keys : Keys) : Type 0 where
    pub key : Bytes
    pub registered : keys a.key_id ≡ some key
    pub fields : HasValidFields a
    pub holds : l.ed25519_verify key (message_of a) a.sig ≡ true

  approval-verify_iff : (a : Approval) (keys : Keys) → (verify l a keys ≡ ok tt) ↔ IsApproved a keys
  unfolding verify
  approval-verify_iff a keys = (to, from)
    where
      to : verify l a keys ≡ ok tt → IsApproved a keys
      to h =
          let (key, h₁, k₁) = >>=-eq-ok (ok_or (keys a.key_id) _) _ h in
          let (b, h₂, k₂) = >>=-eq-ok (canonical a) _ k₁ in
          let (fields, e) = (canonical_iff a b).0 h₂ in
          record {
            key = key;
            registered = ground arith;
            fields = fields;
            holds = rw (← e) (ground arith);
          }

      from : IsApproved a keys → verify l a keys ≡ ok tt
      from i = rw (i.registered, (canonical_iff a _).1 (i.fields, refl), i.holds)

  -- An approval made with the private half of a registered key is verified with that registry.
  pub verify-new_approval :
      (peer fingerprint approved_by : Str) (timestamp : ℤ) (key_id : Str) (seed pinned : Bytes)
      (a : Approval) (keys : Keys)
      → IsEd25519Pair l seed pinned
      → keys key_id ≡ some pinned
      → new l peer fingerprint approved_by timestamp key_id seed ≡ ok a
      → verify l a keys ≡ ok tt
  unfolding new canonical
  verify-new_approval peer fingerprint approved_by timestamp key_id seed pinned a keys pair known
        h =
      let (b, h₁, k₁) = >>=-eq-ok (approve_v1 peer fingerprint approved_by timestamp) _ h in
      let (h₂, k₂) = >>-eq-ok (require_name key_id "key_id" 64) _ k₁ in
      let (sig, h₃, k₃) = >>=-eq-ok (ok_or (l.ed25519_sign seed b) _) _ k₂ in
      let made : Approval = record {
        peer = peer;
        fingerprint = fingerprint;
        approved_by = approved_by;
        timestamp = timestamp;
        key_id = key_id;
        sig = sig;
      } in
      let (fields, e) = (canonical_iff made b).0 h₁ in
      let signed : l.ed25519_verify pinned (message_of made) sig ≡ true =
        rw (← e) (pair b sig (ground arith)) in
      subst (λ x. verify l x keys ≡ ok tt) (ok-inj k₃)
        ((approval-verify_iff made keys).1
          (record { key = pinned; registered = known; fields = fields; holds = signed }))

  -- What a recognition has to show in a context: an approval its signature, an announcement that it
  -- holds against the current certificate, which there must be, and the previous one.
  abbrev pub Recognizes : Recognition → Context → Type 0
  Recognizes (operator a) k = IsApproved a k.keys
  Recognizes (schedule r) k =
      (current : Bytes) × (k.current_der ≡ some current) × Holds l r k.previous_der current

  -- A recognition is verified exactly when it shows this, whichever of the two kinds it is.
  pub recognition-verify_iff :
      (r : Recognition) (k : Context) → (verify_recognition l r k ≡ ok tt) ↔ Recognizes r k
  unfolding verify_recognition
  recognition-verify_iff (operator a) k = approval-verify_iff a k.keys
  recognition-verify_iff (schedule r) k = (to, from)
    where
      to : verify_recognition l (schedule r) k ≡ ok tt → Recognizes (schedule r) k
      to h =
          let (current, h₁, k₁) = >>=-eq-ok (ok_or k.current_der _) _ h in
          (current, ground arith, (verify_iff l r k.previous_der current).0 k₁)

      from : Recognizes (schedule r) k → verify_recognition l (schedule r) k ≡ ok tt
      from (current, e, h) = rw e ((verify_iff l r k.previous_der current).1 h)

  module _ (hex : HexLaws l) where
    -- `from_json` accepts exactly the wire form of an approval with valid fields, a valid key id and a
    -- signature of at least one byte.
    pub approval-from_json_iff :
        (j : ApprovalJson) (a : Approval)
        → (from_json l j ≡ ok a)
          ↔ (HasValidFields a × IsName a.key_id 64 × IsSig a.sig × (j ≡ to_json l a))
    unfolding from_json to_json
    approval-from_json_iff j a = (to, from)
      where
        to :
            from_json l j ≡ ok a
            → HasValidFields a × IsName a.key_id 64 × IsSig a.sig × (j ≡ to_json l a)
        to h =
            let (h₁, k₁) = >>-eq-ok (refuse (not (same j.v approve_v1_tag)) _) _ h in
            let (h₂, k₂) = >>-eq-ok (require_component_name j.peer _) _ k₁ in
            let (h₃, k₃) = >>-eq-ok (require_fingerprint j.fingerprint _) _ k₂ in
            let (h₄, k₄) = >>-eq-ok (require_name j.approved_by _ 64) _ k₃ in
            let (h₅, k₅) = >>-eq-ok (require_name j.key_id _ 64) _ k₄ in
            let (sig, h₆, k₆) = >>=-eq-ok (from_hex l j.sig) _ k₅ in
            let (sig_eq, sig_ne) = from_hex-inv l hex j.sig sig h₆ in
            let version : j.v ≡ approve_v1_tag = same→eq j.v approve_v1_tag (ground arith) in
            subst (λ x. HasValidFields x × IsName x.key_id 64 × IsSig x.sig × (j ≡ to_json l x))
              (ok-inj k₆)
              (
                record {
                  peer = (require_component_name_iff j.peer _).0 h₂;
                  fingerprint = (require_fingerprint_iff j.fingerprint _).0 h₃;
                  approved_by = (require_name_iff j.approved_by _ 64).0 h₄;
                },
                (require_name_iff j.key_id _ 64).0 h₅,
                sig_ne,
                ground (arith, sig_eq, version),
              )

        from :
            HasValidFields a × IsName a.key_id 64 × IsSig a.sig × (j ≡ to_json l a)
            → from_json l j ≡ ok a
        from (fields, id, ne, e) = rw (
          e,
          (require_component_name_iff a.peer _).1 fields.peer,
          (require_fingerprint_iff a.fingerprint _).1 fields.fingerprint,
          (require_name_iff a.approved_by _ 64).1 fields.approved_by,
          (require_name_iff a.key_id _ 64).1 id,
          from_hex-encode l hex a.sig ne,
        )
