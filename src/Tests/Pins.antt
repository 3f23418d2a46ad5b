-- ===== src/Tests/Pins.antt =====
-- Examples of a pinned connection, and of a record on it.
use net_tls.Prelude.{
  ℕ, zero, suc, ◌/◌, ◌%◌, ◌≡◌, ◌↔◌, refl, ap, true, Option, none, some, [], ◌∷◌, ◌++◌, arith,
  length,
}
use net_tls.Prelude.Text.{Bytes, IsBytes, codes, same, same_iff}
use net_tls.Error.{ok}
use net_tls.External.{Libs, HexLaws}
use net_tls.Announcement.{fingerprint_of}
use net_tls.Generations.{from_approval, from_der}
use net_tls.Transport.{default}
use net_tls.Pin.{
  Rustls, ClientConfig, pinned, pinned_client_config_with, client_config_with, verify_with,
}
use net_tls.Pin.Hex.{lower_hex, hex_digit}
use net_tls.Pin.Accepts.{PinLaws, pinned-approved}
use net_tls.Aegis.{RecordLayer, RecordKey, Message, opened, zeros, nonce32, decrypt, tls12}
use net_tls.Aegis.Opens.{decrypt_iff}
use net_tls.Tests.Toy.{toy, toy-HexLaws, padded, encode}
use net_tls.Tests.Data.{old_der, new_der}

abbrev cut : Bytes → Bytes
cut [] = []
cut (b ∷ bs) = b % 256 ∷ cut bs

abbrev pin_libs : Libs
pin_libs = record toy { sha256 = λ d. padded 32 (cut d) }

abbrev pin_tls : Rustls
pin_tls = record { with_protocol_versions = λ suites. true; ct_eq = same }

length-padded : (n : ℕ) (b : Bytes) → length (padded n b) ≡ n
length-padded zero b = refl
length-padded (suc n) [] = ap suc (length-padded n [])
length-padded (suc n) (b ∷ bs) = ap suc (length-padded n bs)

padded-IsBytes : (n : ℕ) (b : Bytes) → IsBytes (padded n (cut b))
padded-IsBytes zero b = tt
padded-IsBytes (suc n) [] = (omega arith, padded-IsBytes n [])
padded-IsBytes (suc n) (b ∷ bs) = (omega arith, padded-IsBytes n bs)

encode-lower_hex : (b : Bytes) → IsBytes b → encode b ≡ lower_hex b
unfolding encode hex_digit
encode-lower_hex [] h = refl
encode-lower_hex (b ∷ bs) (p, h) =
    let e : b / 16 % 16 ≡ b / 16 = omega arith in rw (e, encode-lower_hex bs h) refl

pin-PinLaws : PinLaws pin_libs pin_tls
pin-PinLaws = record {
  hash_size = λ d. length-padded 32 (cut d);
  hash_bytes = λ d. padded-IsBytes 32 d;
  encodes = encode-lower_hex;
  compares = same_iff;
}

pin-HexLaws : HexLaws pin_libs
pin-HexLaws = record {
  length-encode = toy-HexLaws.length-encode;
  decode-encode = toy-HexLaws.decode-encode;
  encode-decode = toy-HexLaws.encode-decode;
}

pinned-approved_example :
    (one : ClientConfig) × (other : ClientConfig) × (pinned_client_config_with pin_tls
        (fingerprint_of pin_libs old_der)
        []
        default
      ≡ ok one)
    × (client_config_with pin_tls [] default ≡ ok other)
    × (one ≡ record other { verifier = pinned (pin_libs.sha256 old_der) })
    × (((verify_with pin_libs pin_tls one.verifier
            (from_approval (from_der pin_libs old_der))
            new_der).1
          ≡ true)
        ↔ (pin_libs.sha256 new_der ≡ pin_libs.sha256 old_der))
    × ((verify_with pin_libs pin_tls one.verifier
          (from_approval (from_der pin_libs old_der))
          new_der).1
        ≡ (verify_with pin_libs pin_tls other.verifier
            (from_approval (from_der pin_libs old_der))
            new_der).1)
pinned-approved_example =
    pinned-approved pin_libs pin_tls pin-PinLaws pin-HexLaws old_der new_der [] default refl

-- A record layer that counts, and a cipher that only adds a tag.
abbrev add_front : ℕ → Option (Bytes × ℕ) → Option (Bytes × ℕ)
add_front b none = none
add_front b (some (bs, t)) = some (b ∷ bs, t)

abbrev split_last : Bytes → Option (Bytes × ℕ)
split_last [] = none
split_last (b ∷ []) = some ([], b)
split_last (b ∷ c ∷ bs) = add_front b (split_last (c ∷ bs))

abbrev inner_message : Message → Option (Bytes × ℕ) → Option Message
inner_message m none = none
inner_message m (some (bs, t)) = some (record m { typ = t; payload = bs })

abbrev counting : RecordLayer
counting = record {
  nonce_new = λ iv seq. seq ∷ zeros 11;
  make_tls13_aad = λ n. n ∷ [];
  into_tls13_unpadded_message = λ m. inner_message m (split_last m.payload);
  encrypt_in_place = λ k n aad p. (p, zeros 16);
  decrypt_in_place = λ k n aad ct tag. some ct;
}

abbrev record_key : RecordKey
record_key = record { key = zeros 32; iv = zeros 12 }

abbrev hello : Message
hello = record { typ = 22; version = tls12; payload = codes "hello" }

decrypt_iff_example : (decrypt counting record_key hello 3 ≡ opened hello) ↔ (
    (ct : Bytes) × (tag : Bytes) × (plain : Bytes) × (hello.payload ≡ ct ++ tag)
    × (length tag ≡ 16)
    × (counting.decrypt_in_place record_key.key
          (nonce32 counting record_key.iv 3)
          (counting.make_tls13_aad (length hello.payload))
          ct
          tag
        ≡ some plain)
    × (counting.into_tls13_unpadded_message (record hello { payload = plain }) ≡ some hello))
decrypt_iff_example = decrypt_iff counting record_key hello 3 hello
