-- ===== src/Aegis.antt =====
-- aegis.rs: AEGIS-256 as the cipher of TLS 1.3 records, under a private code point and with a padded
-- nonce. The cipher and the record layer of `rustls` are parameters.
pub mod Records
pub mod Opens
use net_tls.Prelude.{
  ℕ, ◌+◌, ◌-◌, ◌^◌, ◌≡◌, Bool, true, false, Option, none, some, List, [], ◌∷◌, ◌++◌, ltb, ◌==◌,
  length, take, drop, if◌then◌else◌,
}
use net_tls.Prelude.Text.{Bytes}

abbrev pub codepoint : ℕ
codepoint = 0xff06

abbrev pub tag_len : ℕ
tag_len = 16

abbrev pub key_len : ℕ
key_len = 32

-- rustls, `NONCE_LEN`
abbrev pub nonce_len : ℕ
nonce_len = 12

-- ContentType::ApplicationData and ProtocolVersion::TLSv1_2, as they stand in a record
abbrev pub application_data : ℕ
application_data = 23

abbrev pub tls12 : ℕ
tls12 = 0x0303

-- A record before it is encrypted and after, and a record that came in.
pub record Message : Type 0 where
  pub typ : ℕ
  pub version : ℕ
  pub payload : Bytes

pub record RecordLayer : Type 0 where
  -- rustls: Nonce::new, make_tls13_aad, InboundOpaqueMessage::into_tls13_unpadded_message
  pub nonce_new : Bytes → ℕ → Bytes
  pub make_tls13_aad : ℕ → Bytes
  pub into_tls13_unpadded_message : Message → Option Message
  -- aegis::aegis256::Aegis256::<16> of a key and a nonce: the bytes and the associated data to the
  -- encrypted bytes and the tag; and back with the tag
  pub encrypt_in_place : Bytes → Bytes → Bytes → Bytes → Bytes × Bytes
  pub decrypt_in_place : Bytes → Bytes → Bytes → Bytes → Bytes → Option Bytes

-- rustls, `Tls13CipherSuite`: the providers of hash and key derivation are named by the suite that they
-- are borrowed from.
pub record Tls13CipherSuite (P : Type 0) : Type 0 where
  pub suite : ℕ
  pub hash_provider : P
  pub confidentiality_limit : ℕ
  pub hkdf_provider : P

unfoldable pub suite : {P : Type 0} → Tls13CipherSuite P → Tls13CipherSuite P
suite base = record {
  suite = codepoint;
  hash_provider = base.hash_provider;
  confidentiality_limit = 2 ^ 48;
  hkdf_provider = base.hkdf_provider;
}

abbrev pub zeros : ℕ → Bytes
zeros ℕ.zero = []
zeros (ℕ.suc n) = 0 ∷ zeros n

-- `out[..a.len()].copy_from_slice(a)`
unfoldable pub copy_from_slice : Bytes → Bytes → Bytes
copy_from_slice [] out = out
copy_from_slice (b ∷ bs) [] = []
copy_from_slice (b ∷ bs) (o ∷ out) = b ∷ copy_from_slice bs out

-- `none`: the panic of a key of another length.
unfoldable pub key32 : Bytes → Option Bytes
key32 key = if length key == key_len then some key else none

-- `Encrypter` and `Decrypter` have the same fields.
pub record RecordKey : Type 0 where
  pub key : Bytes
  pub iv : Bytes

abbrev pub keyed : Option Bytes → Bytes → Option RecordKey
keyed none iv = none
keyed (some k) iv = some (record { key = k; iv = iv })

unfoldable pub encrypter : Bytes → Bytes → Option RecordKey
unfolding key32
encrypter key iv = keyed (key32 key) iv

unfoldable pub decrypter : Bytes → Bytes → Option RecordKey
unfolding key32
decrypter key iv = keyed (key32 key) iv

unfoldable pub encrypted_payload_len : ℕ → ℕ
encrypted_payload_len payload_len = payload_len + 1 + tag_len

-- What comes of a record: the message, `Error::DecryptError`, or the error of the record layer for
-- what stood inside.
pub data Opened : Type 0 where
  opened : Message → Opened
  decrypt_error : Opened
  inner_error : Opened

module _ (r : RecordLayer) where
  unfoldable pub nonce32 : Bytes → ℕ → Bytes
  unfolding copy_from_slice
  nonce32 iv seq = copy_from_slice (r.nonce_new iv seq) (zeros 32)

  unfoldable pub encrypt : RecordKey → Message → ℕ → Message
  unfolding encrypted_payload_len
  encrypt e msg seq =
      let total_len : ℕ = encrypted_payload_len (length msg.payload) in
      let (payload, tag) =
        r.encrypt_in_place e.key (nonce32 e.iv seq) (r.make_tls13_aad total_len)
          (msg.payload ++ (msg.typ ∷ [])) in
      record { typ = application_data; version = tls12; payload = payload ++ tag }

  abbrev pub unpadded : Option Message → Opened
  unpadded none = inner_error
  unpadded (some m) = opened m

  abbrev pub decrypted : Message → Option Bytes → Opened
  decrypted msg none = decrypt_error
  decrypted msg (some plain) =
      unpadded (r.into_tls13_unpadded_message (record msg { payload = plain }))

  unfoldable pub decrypt : RecordKey → Message → ℕ → Opened
  decrypt d msg seq =
      let len : ℕ = length msg.payload in
      if ltb len tag_len
      then decrypt_error
      else let ct : Bytes = take (len - tag_len) msg.payload in
        let tag : Bytes = drop (len - tag_len) msg.payload in
        if length tag == tag_len
        then decrypted msg
            (r.decrypt_in_place d.key (nonce32 d.iv seq) (r.make_tls13_aad len) ct tag)
        else decrypt_error
