-- ===== src/Tests/Acks.antt =====
-- Examples of receipts, approvals and support statements.
use net_tls.Prelude.{
  ◌≡◌, ◌↔◌, ◌⊎◌, refl, subst, some-inj, true, false, none, some, [], ◌∷◌, arith, if◌then◌else◌,
}
use net_tls.Prelude.Int.{pos}
use net_tls.Prelude.Text.{Str, Bytes, codes, utf8, same, join}
use net_tls.Prelude.Decimal.{to_string}
use net_tls.Error.{TlsError, ok, err}
use net_tls.Canonical.{
  assemble, rotate_ack_v2, rotate_ack_v2_tag, approve_v1, approve_v1_tag, algsupport_v1,
  algsupport_v1_tag, require_fingerprint, require_component_name, require_name, split, check_tokens,
  position,
}
use net_tls.Signature.{sign_p256}
use net_tls.Announcement.Verify.{Holds}
use net_tls.Announcement.Wire.{IsSig}
use net_tls.Receipt.{Receipt}
use net_tls.Receipt as R
use net_tls.Receipt.Verify.{verify-new_receipt}
use net_tls.Approval.{Approval, Keys, Context, Recognition, operator, schedule, verify_recognition}
use net_tls.Approval as P
use net_tls.Approval.Verify.{recognition-verify_iff}
use net_tls.Capability.{
  Alg, aegis256, xchacha20_poly1305, aes256_gcm, contains, SupportStatement, choose,
}
use net_tls.Capability as C
use net_tls.Capability.Choose.{IsBest, rank, choose_cases}
use net_tls.Capability.Statement.{verify-signed}
use net_tls.Tests.Toy.{toy, toy-HexLaws, toy-IsEd25519Pair, encode, check_sum}
use net_tls.Tests.Data.{gateway, portal, old_der, new_der, fp_of, key_of, old-IsKeyOf, announcement}

abbrev seed : Bytes
seed = 7 ∷ 9 ∷ []

abbrev receipt : Receipt
receipt = record {
  acker = portal;
  announcer = gateway;
  new_fp = fp_of new_der;
  sent_at = pos 100;
  sig =
      check_sum seed
        (assemble (rotate_ack_v2_tag ∷ portal ∷ gateway ∷ fp_of new_der ∷ codes "100" ∷ []));
}

receipt-made : R.new toy portal gateway (fp_of new_der) (pos 100) seed ≡ ok receipt
unfolding R.new rotate_ack_v2 require_component_name require_fingerprint utf8 encode to_string
    assemble
receipt-made = refl

verify-new_receipt_example :
    (R.verify toy receipt seed (fp_of new_der) ≡ ok tt) ↔ (fp_of new_der ≡ fp_of new_der)
verify-new_receipt_example =
    verify-new_receipt toy portal gateway (fp_of new_der) (pos 100) seed seed receipt
      (fp_of new_der) (toy-IsEd25519Pair seed) receipt-made

abbrev operator_name : Str
operator_name = codes "bjørn-øyvind"

abbrev approval : Approval
approval = record {
  peer = gateway;
  fingerprint = fp_of old_der;
  approved_by = operator_name;
  timestamp = pos 100;
  key_id = portal;
  sig =
      check_sum seed
        (assemble (approve_v1_tag ∷ gateway ∷ fp_of old_der ∷ operator_name ∷ codes "100" ∷ []));
}

approval-made : P.new toy gateway (fp_of old_der) operator_name (pos 100) portal seed ≡ ok approval
unfolding P.new approve_v1 require_component_name require_fingerprint require_name utf8 encode
    to_string assemble
approval-made = refl

abbrev registry : Keys
registry id = if same id portal then some seed else none

abbrev context : Context
context = record { keys = registry; previous_der = none; current_der = some old_der }

recognition-verify_iff_example :
    (verify_recognition toy (schedule announcement) context ≡ ok tt)
    ↔ ((current : Bytes) × (some old_der ≡ some current) × Holds toy announcement none current)
recognition-verify_iff_example = recognition-verify_iff toy (schedule announcement) context

abbrev support : SupportStatement
support = record {
  component = gateway;
  supported = codes "aegis256" ∷ codes "aes256gcm" ∷ [];
  timestamp = pos 100;
  signature = encode (
      check_sum (key_of old_der)
        (assemble (algsupport_v1_tag ∷ gateway ∷ codes "aegis256,aes256gcm" ∷ codes "100" ∷ [])));
}

support-made :
    C.signed toy gateway (aes256_gcm ∷ aegis256 ∷ []) (pos 100) (key_of old_der) ≡ ok support
unfolding C.signed algsupport_v1 require_component_name split check_tokens position utf8 encode
    to_string assemble sign_p256 join
support-made = refl

toy-signs : (m sig : Bytes) → some (check_sum (key_of old_der) m) ≡ some sig → IsSig sig
toy-signs m sig h = subst IsSig (some-inj h) ((omega arith, (omega arith, tt)), λ e. cc)

verify-signed_example : C.verify toy support old_der ≡ ok (aegis256 ∷ aes256_gcm ∷ [])
verify-signed_example =
    verify-signed toy gateway (aes256_gcm ∷ aegis256 ∷ []) (pos 100) (key_of old_der) old_der
      (fp_of old_der) support toy-HexLaws toy-signs old-IsKeyOf support-made

choose_cases_example :
    (choose xchacha20_poly1305 none ≡ ok xchacha20_poly1305)
    × (((false ≡ true)
          × (choose xchacha20_poly1305 (some (aes256_gcm ∷ [])) ≡ ok xchacha20_poly1305))
        ⊎ ((false ≡ false)
            × ((a : Alg) × IsBest (aes256_gcm ∷ []) a
                × (choose xchacha20_poly1305 (some (aes256_gcm ∷ [])) ≡ ok a)))
        ⊎ ((false ≡ false)
            × ((b : Alg) → contains (aes256_gcm ∷ []) b ≡ true → rank b ≡ 3)
            × ((e : TlsError) × (choose xchacha20_poly1305 (some (aes256_gcm ∷ [])) ≡ err e))))
choose_cases_example = choose_cases xchacha20_poly1305 (aes256_gcm ∷ [])
