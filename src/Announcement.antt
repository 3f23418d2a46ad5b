-- ===== src/Announcement.antt =====
-- announcement.rs: the announcement of the next certificate.
pub mod Verify
pub mod Honest
pub mod Wire
use Prim.Native.String.{String}
use net_tls.Prelude.{
  ℕ, ◌*◌, ◌≡◌, refl, Bool, true, false, not, ◌||◌, Option, none, some, List, [], ◌∷◌, ◌==◌, ltb,
  if◌then◌else◌, length, is_empty,
}
use mathlib.Core.Option
use net_tls.Prelude.Int.{ℤ}
use net_tls.Prelude.Text.{Str, Bytes, codes, same, utf8}
use net_tls.Error.{
  TlsError, Result, ok, err, pem, params, proof, proof_invalid, chain, ◌>>=◌, ◌>>◌, refuse,
}
use net_tls.External.{Libs}
use net_tls.Signature.{ok_or, from_hex, verify_p256, sign_p256}
use net_tls.Canonical.{
  rotate_v2, rotate_v2_tag, require_component_name, require_fingerprint, require_fingerprint_if,
}

abbrev pub max_cert_pem_len : ℕ
max_cert_pem_len = 16 * 1024

-- The serialized form; `v` is the version.
pub record AnnouncementJson : Type 0 where
  pub v : Str
  pub announcer : Str
  pub prev_fingerprint : Option Str
  pub curr_fingerprint : Str
  pub new_fingerprint : Str
  pub new_cert_pem : Str
  pub sent_at : ℤ
  pub sig_prev : Option Str
  pub sig_curr : Str

pub record Announcement : Type 0 where
  pub announcer : Str
  pub prev_fp : Option Str
  pub curr_fp : Str
  pub new_fp : Str
  pub new_cert_pem : Str
  pub sent_at : ℤ
  pub sig_prev : Option Bytes
  pub sig_curr : Bytes

unfoldable pub canonical : Announcement → Result Bytes
canonical a = rotate_v2 a.announcer a.prev_fp a.curr_fp a.new_fp a.sent_at

-- The loop over the CERTIFICATE blocks; the first argument is `found`.
unfoldable pub only_cert : Option Bytes → List (Option Bytes) → Result Bytes
only_cert found [] = ok_or found (pem "found no CERTIFICATE block in the PEM")
only_cert found (none ∷ certs) = err (pem "invalid PEM")
only_cert none (some cert ∷ certs) = only_cert (some cert) certs
only_cert (some first) (some cert ∷ certs) = err (pem "the PEM contains multiple certificates")

-- `o.is_some()`
abbrev pub is_some {ℓ} : {A : Type ℓ} → Option A → Bool
is_some none = false
is_some (some a) = true

-- `a != b`
abbrev pub differ : Bool → Bool → Bool
differ true b = not b
differ false b = b

module _ (l : Libs) where
  unfoldable pub der_from_pem : Str → Result Bytes
  unfolding only_cert
  der_from_pem text = only_cert none (l.pem_slice_iter (utf8 text))

  -- SHA-256 over the DER, in hex.
  abbrev pub fingerprint_of : Bytes → Str
  fingerprint_of der = l.hex_encode (l.sha256 der)

  unfoldable pub fingerprint_from_pem : Str → Result Str
  fingerprint_from_pem text = do der ← der_from_pem text; ok (fingerprint_of der)

  unfoldable pub sign_if : Option (Str × Bytes) → Bytes → Result (Option Bytes)
  sign_if none message = ok none
  sign_if (some (fp, pkcs8)) message = do sig ← sign_p256 l pkcs8 message; ok (some sig)

  unfoldable pub new : Str → Option (Str × Bytes) → Str × Bytes → Str → ℤ → Result Announcement
  unfolding sign_if
  new announcer prev (curr_fp, curr_pkcs8) new_cert_pem sent_at = do
    new_fp ← fingerprint_from_pem new_cert_pem
    let prev_fp = Option.map (λ (p : Str × Bytes). p.0) prev
    message ← rotate_v2 announcer prev_fp curr_fp new_fp sent_at
    sig_curr ← sign_p256 l curr_pkcs8 message
    sig_prev ← sign_if prev message
    ok (record {
      announcer = announcer;
      prev_fp = prev_fp;
      curr_fp = curr_fp;
      new_fp = new_fp;
      new_cert_pem = new_cert_pem;
      sent_at = sent_at;
      sig_prev = sig_prev;
      sig_curr = sig_curr;
    })

  -- The last step of `verify`: the receiver's previous certificate, then the stated previous
  -- fingerprint and the previous signature.
  unfoldable pub verify_prev : Option Bytes → Option Str → Option Bytes → Bytes → Result (Unit {0})
  verify_prev (some der) (some fp) (some sig) message = do
    refuse (not (same (fingerprint_of der) fp)) (chain "another certificate is stated as previous")
    verify_p256 l der message sig
  verify_prev (some der) _ _ message = err (proof_invalid "the announcement is single-signed")
  verify_prev none none none message = ok tt
  verify_prev none (some fp) (some sig) message = ok tt
  verify_prev none _ _ message =
      err (proof_invalid "prev_fingerprint and sig_prev must either both be present or absent")

  unfoldable pub verify : Announcement → Option Bytes → Bytes → Result (Unit {0})
  verify a prev_cert_der curr_cert_der = do
    actual ← fingerprint_from_pem a.new_cert_pem
    refuse (not (same actual a.new_fp)) (proof_invalid "the certificate was swapped in transit")
    refuse (not (same (fingerprint_of curr_cert_der) a.curr_fp))
        (chain "the announcement is issued by another certificate than our current")
    message ← canonical a
    verify_p256 l curr_cert_der message a.sig_curr
    verify_prev prev_cert_der a.prev_fp a.sig_prev message

  unfoldable pub to_json : Announcement → AnnouncementJson
  to_json a = record {
    v = rotate_v2_tag;
    announcer = a.announcer;
    prev_fingerprint = a.prev_fp;
    curr_fingerprint = a.curr_fp;
    new_fingerprint = a.new_fp;
    new_cert_pem = a.new_cert_pem;
    sent_at = a.sent_at;
    sig_prev = Option.map l.hex_encode a.sig_prev;
    sig_curr = l.hex_encode a.sig_curr;
  }

  -- `sig.map(from_hex).transpose()`
  unfoldable pub from_hex_if : Option Str → Result (Option Bytes)
  from_hex_if none = ok none
  from_hex_if (some s) = do b ← from_hex l s; ok (some b)

  unfoldable pub from_json : AnnouncementJson → Result Announcement
  unfolding from_hex_if
  from_json j = do
    refuse (not (same j.v rotate_v2_tag)) (proof "unknown message version")
    require_component_name j.announcer "announcer"
    refuse (ltb max_cert_pem_len (length (utf8 j.new_cert_pem))) (params "new_cert_pem is too long")
    require_fingerprint j.curr_fingerprint "curr_fingerprint"
    require_fingerprint j.new_fingerprint "new_fingerprint"
    require_fingerprint_if j.prev_fingerprint "prev_fingerprint"
    refuse (differ (is_some j.prev_fingerprint) (is_some j.sig_prev))
        (proof "prev_fingerprint and sig_prev must either both be present or absent")
    sig_prev ← from_hex_if j.sig_prev
    sig_curr ← from_hex l j.sig_curr
    ok (record {
      announcer = j.announcer;
      prev_fp = j.prev_fingerprint;
      curr_fp = j.curr_fingerprint;
      new_fp = j.new_fingerprint;
      new_cert_pem = j.new_cert_pem;
      sent_at = j.sent_at;
      sig_prev = sig_prev;
      sig_curr = sig_curr;
    })
