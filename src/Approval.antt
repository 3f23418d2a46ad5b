-- ===== src/Approval.antt =====
-- approval.rs: the operator's approval (generation 0), and the recognition of either kind.
pub mod Verify
use Prim.Native.String.{String}
use net_tls.Prelude.{ℕ, ◌≡◌, refl, Bool, true, false, not, Option, none, some}
use net_tls.Prelude.Int.{ℤ}
use net_tls.Prelude.Text.{Str, Bytes, same}
use net_tls.Error.{Result, ok, err, sign, proof, proof_invalid, chain, ◌>>=◌, ◌>>◌, refuse}
use net_tls.External.{Libs}
use net_tls.Signature.{ok_or, from_hex}
use net_tls.Canonical.{
  approve_v1, approve_v1_tag, require_component_name, require_fingerprint, require_name,
}
use net_tls.Announcement.{Announcement}
use net_tls.Announcement as A

pub record ApprovalJson : Type 0 where
  pub v : Str
  pub peer : Str
  pub fingerprint : Str
  pub approved_by : Str
  pub timestamp : ℤ
  pub key_id : Str
  pub sig : Str

pub record Approval : Type 0 where
  pub peer : Str
  pub fingerprint : Str
  pub approved_by : Str
  pub timestamp : ℤ
  pub key_id : Str
  pub sig : Bytes

unfoldable pub canonical : Approval → Result Bytes
canonical a = approve_v1 a.peer a.fingerprint a.approved_by a.timestamp

-- The registry of keys is a function of the caller's.
abbrev pub Keys : Type 0
Keys = Str → Option Bytes

pub record Context : Type 0 where
  pub keys : Keys
  pub previous_der : Option Bytes
  pub current_der : Option Bytes

pub data Recognition : Type 0 where
  operator : Approval → Recognition
  schedule : Announcement → Recognition

module _ (l : Libs) where
  unfoldable pub new : Str → Str → Str → ℤ → Str → Bytes → Result Approval
  new peer fingerprint approved_by timestamp key_id ed25519_seed = do
    message ← approve_v1 peer fingerprint approved_by timestamp
    require_name key_id "key_id" 64
    sig ← ok_or (l.ed25519_sign ed25519_seed message) (sign "Ed25519 signing failed")
    ok (record {
      peer = peer;
      fingerprint = fingerprint;
      approved_by = approved_by;
      timestamp = timestamp;
      key_id = key_id;
      sig = sig;
    })

  unfoldable pub verify : Approval → Keys → Result (Unit {0})
  verify a look_up_key = do
    pk ← ok_or (look_up_key a.key_id) (chain "the key does not exist in the key registry")
    message ← canonical a
    refuse (not (l.ed25519_verify pk message a.sig))
        (proof_invalid "the Ed25519 signature does not hold")

  unfoldable pub to_json : Approval → ApprovalJson
  to_json a = record {
    v = approve_v1_tag;
    peer = a.peer;
    fingerprint = a.fingerprint;
    approved_by = a.approved_by;
    timestamp = a.timestamp;
    key_id = a.key_id;
    sig = l.hex_encode a.sig;
  }

  unfoldable pub from_json : ApprovalJson → Result Approval
  from_json j = do
    refuse (not (same j.v approve_v1_tag)) (proof "unknown message version")
    require_component_name j.peer "peer"
    require_fingerprint j.fingerprint "fingerprint"
    require_name j.approved_by "approved_by" 64
    require_name j.key_id "key_id" 64
    sig ← from_hex l j.sig
    ok (record {
      peer = j.peer;
      fingerprint = j.fingerprint;
      approved_by = j.approved_by;
      timestamp = j.timestamp;
      key_id = j.key_id;
      sig = sig;
    })

  unfoldable pub verify_recognition : Recognition → Context → Result (Unit {0})
  verify_recognition (operator a) k = verify a k.keys
  verify_recognition (schedule r) k = do
    current ←
        ok_or k.current_der
          (chain "an announcement cannot be verified without a current generation")
    A.verify l r k.previous_der current

unfoldable pub fingerprint_of_recognition : Recognition → Str
fingerprint_of_recognition (operator a) = a.fingerprint
fingerprint_of_recognition (schedule r) = r.new_fp

unfoldable pub is_anchor : Recognition → Bool
is_anchor (operator a) = true
is_anchor (schedule r) = false
