-- ===== src/Receipt.antt =====
-- announcement.rs: the receipt, by which a peer says that it has stored the next certificate.
pub mod Verify
use Prim.Native.String.{String}
use net_tls.Prelude.{ℕ, ◌≡◌, refl, Bool, true, false, not, Option, none, some}
use net_tls.Prelude.Int.{ℤ}
use net_tls.Prelude.Text.{Str, Bytes, same}
use net_tls.Error.{Result, ok, err, sign, proof, proof_invalid, ◌>>=◌, ◌>>◌, refuse}
use net_tls.External.{Libs}
use net_tls.Signature.{ok_or, from_hex}
use net_tls.Canonical.{
  rotate_ack_v2, rotate_ack_v2_tag, require_component_name, require_fingerprint,
}

pub record ReceiptJson : Type 0 where
  pub v : Str
  pub acker : Str
  pub announcer : Str
  pub new_fingerprint : Str
  pub sent_at : ℤ
  pub sig : Str

pub record Receipt : Type 0 where
  pub acker : Str
  pub announcer : Str
  pub new_fp : Str
  pub sent_at : ℤ
  pub sig : Bytes

unfoldable pub canonical : Receipt → Result Bytes
canonical r = rotate_ack_v2 r.acker r.announcer r.new_fp r.sent_at

module _ (l : Libs) where
  unfoldable pub new : Str → Str → Str → ℤ → Bytes → Result Receipt
  new acker announcer new_fp sent_at ed25519_seed = do
    message ← rotate_ack_v2 acker announcer new_fp sent_at
    sig ← ok_or (l.ed25519_sign ed25519_seed message) (sign "Ed25519 signing failed")
    ok (record {
      acker = acker;
      announcer = announcer;
      new_fp = new_fp;
      sent_at = sent_at;
      sig = sig;
    })

  unfoldable pub verify : Receipt → Bytes → Str → Result (Unit {0})
  verify r pinned_pubkey expected_new_fp = do
    refuse (not (same r.new_fp expected_new_fp))
        (proof_invalid "this is a receipt for a different rotation")
    message ← canonical r
    refuse (not (l.ed25519_verify pinned_pubkey message r.sig))
        (proof_invalid "the Ed25519 signature does not hold")

  unfoldable pub to_json : Receipt → ReceiptJson
  to_json r = record {
    v = rotate_ack_v2_tag;
    acker = r.acker;
    announcer = r.announcer;
    new_fingerprint = r.new_fp;
    sent_at = r.sent_at;
    sig = l.hex_encode r.sig;
  }

  unfoldable pub from_json : ReceiptJson → Result Receipt
  from_json j = do
    refuse (not (same j.v rotate_ack_v2_tag)) (proof "unknown message version")
    require_component_name j.acker "acker"
    require_component_name j.announcer "announcer"
    require_fingerprint j.new_fingerprint "new_fingerprint"
    sig ← from_hex l j.sig
    ok (record {
      acker = j.acker;
      announcer = j.announcer;
      new_fp = j.new_fingerprint;
      sent_at = j.sent_at;
      sig = sig;
    })
