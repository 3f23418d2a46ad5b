-- ===== src/Announcement/Wire.antt =====
-- The wire form of an announcement: what `from_json` accepts, and the round trip.
use mathlib.Core.Option
use net_tls.Prelude.{
  ◌≡◌, ◌≢◌, ◌↔◌, ◌≤◌, refl, sym, ap, ◌∙◌, subst, Bool, false, not, Option, none, some,
  is_empty_of_pos, pos_of_not_empty, pos_of_ne_nil, [], arith, length, ltb,
}
use net_tls.Prelude.Text.{Str, Bytes, IsBytes, utf8, same, same→eq}
use net_tls.Error.{ok, ok-inj, refuse, >>=-eq-ok, >>-eq-ok, refuse-eq-ok}
use net_tls.External.{Libs, HexLaws}
use net_tls.Signature.{from_hex}
use net_tls.Canonical.{
  rotate_v2_tag, require_component_name, require_fingerprint, require_fingerprint_if, assemble,
}
use net_tls.Canonical.Fields.{
  IsComponentName, IsFingerprint, require_component_name_iff, require_fingerprint_iff,
}
use net_tls.Canonical.Messages.{
  IsFingerprintIf, require_fingerprint_if_iff, rotate, lines, signed_bytes_valid,
}
use net_tls.Announcement.{
  AnnouncementJson, Announcement, max_cert_pem_len, is_some, differ, to_json, from_json,
  from_hex_if, canonical,
}

-- A signature that may travel: bytes, at least one.
abbrev pub IsSig : Bytes → Type 0
IsSig b = IsBytes b × (b ≢ [])

abbrev pub IsSigIf : Option Bytes → Type 0
IsSigIf none = Unit
IsSigIf (some b) = IsSig b

-- An announcement that may travel.
pub record IsWire (a : Announcement) : Type 0 where
  pub announcer : IsComponentName a.announcer
  pub pem_bounded : length (utf8 a.new_cert_pem) ≤ max_cert_pem_len
  pub prev_fp : IsFingerprintIf a.prev_fp
  pub curr_fp : IsFingerprint a.curr_fp
  pub new_fp : IsFingerprint a.new_fp
  pub both_or_none : is_some a.prev_fp ≡ is_some a.sig_prev
  pub sig_prev : IsSigIf a.sig_prev
  pub sig_curr : IsSig a.sig_curr

differ_same : (a b : Bool) → a ≡ b → differ a b ≡ false
differ_same a b e = ground arith

same_of_differ : (a b : Bool) → differ a b ≡ false → a ≡ b
same_of_differ a b h = ground arith

module _ (l : Libs) (hex : HexLaws l) where
  pub from_hex-encode : (b : Bytes) → IsSig b → from_hex l (l.hex_encode b) ≡ ok b
  unfolding from_hex
  from_hex-encode b (bytes, h) =
      rw (is_empty_of_pos (l.hex_encode b) encoded_pos, hex.decode-encode b bytes)
    where
      encoded_pos : 1 ≤ length (l.hex_encode b)
      encoded_pos = omega (arith, hex.length-encode b, pos_of_ne_nil b h)

  pub from_hex-inv : (s : Str) (b : Bytes) → from_hex l s ≡ ok b → (s ≡ l.hex_encode b) × IsSig b
  unfolding from_hex
  from_hex-inv s b h =
      let decoded : l.hex_decode s ≡ some b = ground arith in
      let (bytes, written) = hex.encode-decode s b decoded in
      let s_pos : 1 ≤ length s = pos_of_not_empty s (ground arith) in
      (
        sym written,
        (bytes, λ e. omega (arith, ap length written, hex.length-encode b, ap length e)),
      )

  from_hex_if-encode :
      (o : Option Bytes) → IsSigIf o → from_hex_if l (Option.map l.hex_encode o) ≡ ok o
  unfolding from_hex_if
  from_hex_if-encode none h = refl
  from_hex_if-encode (some b) h = rw (from_hex-encode b h)

  from_hex_if-inv :
      (s : Option Str) (o : Option Bytes)
      → from_hex_if l s ≡ ok o
      → (s ≡ Option.map l.hex_encode o) × IsSigIf o
  unfolding from_hex_if
  from_hex_if-inv none o h =
      subst (λ x. (none ≡ Option.map l.hex_encode x) × IsSigIf x) (ok-inj h) (refl, tt)
  from_hex_if-inv (some s) o h =
      let (b, h₁, k₁) = >>=-eq-ok (from_hex l s) _ h in
      let (e, ne) = from_hex-inv s b h₁ in
      subst (λ x. (some s ≡ Option.map l.hex_encode x) × IsSigIf x) (ok-inj k₁) (ap some e, ne)

  is_some-map : (o : Option Bytes) → is_some (Option.map l.hex_encode o) ≡ is_some o
  is_some-map none = refl
  is_some-map (some b) = refl

  -- An announcement that may travel is read back from its wire form as it was.
  pub from_json-to_json : (a : Announcement) → IsWire a → from_json l (to_json l a) ≡ ok a
  unfolding from_json to_json
  from_json-to_json a w =
      let pem_ok : ltb max_cert_pem_len (length (utf8 a.new_cert_pem)) ≡ false =
        ground (arith, w.pem_bounded) in
      rw (
        (require_component_name_iff a.announcer _).1 w.announcer,
        pem_ok,
        (require_fingerprint_iff a.curr_fp _).1 w.curr_fp,
        (require_fingerprint_iff a.new_fp _).1 w.new_fp,
        (require_fingerprint_if_iff a.prev_fp _).1 w.prev_fp,
        differ_same (is_some a.prev_fp) (is_some (Option.map l.hex_encode a.sig_prev))
            (w.both_or_none ∙ sym (is_some-map a.sig_prev)),
        from_hex_if-encode a.sig_prev w.sig_prev,
        from_hex-encode a.sig_curr w.sig_curr,
      )

  from_json_sound :
      (j : AnnouncementJson) (a : Announcement)
      → from_json l j ≡ ok a
      → IsWire a × (j ≡ to_json l a)
  unfolding from_json to_json
  from_json_sound j a h =
      let (h₁, k₁) = >>-eq-ok (refuse (not (same j.v rotate_v2_tag)) _) _ h in
      let (h₂, k₂) = >>-eq-ok (require_component_name j.announcer _) _ k₁ in
      let (h₃, k₃) =
        >>-eq-ok (refuse (ltb max_cert_pem_len (length (utf8 j.new_cert_pem))) _) _ k₂ in
      let (h₄, k₄) = >>-eq-ok (require_fingerprint j.curr_fingerprint _) _ k₃ in
      let (h₅, k₅) = >>-eq-ok (require_fingerprint j.new_fingerprint _) _ k₄ in
      let (h₆, k₆) = >>-eq-ok (require_fingerprint_if j.prev_fingerprint _) _ k₅ in
      let (h₇, k₇) =
        >>-eq-ok (refuse (differ (is_some j.prev_fingerprint) (is_some j.sig_prev)) _) _ k₆ in
      let (sig_prev, h₈, k₈) = >>=-eq-ok (from_hex_if l j.sig_prev) _ k₇ in
      let (sig_curr, h₉, k₉) = >>=-eq-ok (from_hex l j.sig_curr) _ k₈ in
      let (prev_eq, prev_ne) = from_hex_if-inv j.sig_prev sig_prev h₈ in
      let (curr_eq, curr_ne) = from_hex-inv j.sig_curr sig_curr h₉ in
      let version : j.v ≡ rotate_v2_tag = same→eq j.v rotate_v2_tag (ground arith) in
      subst (λ x. IsWire x × (j ≡ to_json l x)) (ok-inj k₉)
        (
          record {
            announcer = (require_component_name_iff j.announcer _).0 h₂;
            pem_bounded = ground arith;
            prev_fp = (require_fingerprint_if_iff j.prev_fingerprint _).0 h₆;
            curr_fp = (require_fingerprint_iff j.curr_fingerprint _).0 h₄;
            new_fp = (require_fingerprint_iff j.new_fingerprint _).0 h₅;
            both_or_none =
                same_of_differ _ _ (refuse-eq-ok _ _ h₇)
                ∙ ap is_some prev_eq
                ∙ is_some-map sig_prev;
            sig_prev = prev_ne;
            sig_curr = curr_ne;
          },
          ground (arith, prev_eq, curr_eq, version),
        )

  -- `from_json` accepts exactly the wire form of an announcement that may travel, and returns that
  -- announcement: fields in their rules, a bounded certificate, both previous fields or neither,
  -- signatures that are bytes and not empty.
  pub from_json_iff :
      (j : AnnouncementJson) (a : Announcement)
      → (from_json l j ≡ ok a) ↔ (IsWire a × (j ≡ to_json l a))
  from_json_iff j a =
      (from_json_sound j a, λ (p : IsWire a × (j ≡ to_json l a)). rw p.1 (from_json-to_json a p.0))

-- An announcement that was read has a canonical string, the six lines of its fields.
pub canonical_of_wire :
    (a : Announcement)
    → IsWire a
    → canonical a
      ≡ ok (assemble (lines (rotate a.announcer a.prev_fp a.curr_fp a.new_fp a.sent_at)))
unfolding canonical
canonical_of_wire a w =
    signed_bytes_valid (rotate a.announcer a.prev_fp a.curr_fp a.new_fp a.sent_at)
      (w.announcer, w.prev_fp, w.curr_fp, w.new_fp)
