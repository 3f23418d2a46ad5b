-- ===== src/Host.antt =====
-- What the material and the announcer call and the crate does not implement: certificates (`rcgen`,
-- `x509_parser`, `rustls`), locked memory, the random source, the ciphers of `krypto`, `serde_json`.
use net_tls.Prelude.{ℕ, Bool, Option, List}
use net_tls.Prelude.Int.{ℤ}
use net_tls.Prelude.Text.{Str, Bytes}
use net_tls.External.{Libs}
use net_tls.Announcement.{AnnouncementJson}

-- `rustls::pki_types::PrivateKeyDer`, which is `#[non_exhaustive]`.
pub data PrivateKey : Type 0 where
  pkcs8 sec1 pkcs1 other_key : Bytes → PrivateKey

pub data GeneralName : Type 0 where
  dns_name : Str → GeneralName
  ip_address : Bytes → GeneralName
  other_name : Str → GeneralName

-- What `X509Certificate::from_der` tells of a certificate's validity and names.
pub record X509Info : Type 0 where
  pub not_before : ℤ
  pub not_after : ℤ
  pub subject : Str
  pub names : Option (List GeneralName)

pub record SelfSignedParams : Type 0 where
  pub common_name : Str
  pub sans : List Str
  pub valid_days : ℕ

-- announcer.rs, `ForrigePaaDisk` and `PendingOnDisk`
pub record PreviousOnDisk : Type 0 where
  pub fingerprint : Str
  pub pkcs8 : Bytes

pub record PendingOnDisk : Type 0 where
  pub announcement : AnnouncementJson
  pub new_cert_pem : Str
  pub waiting_for : List Str
  pub first_announced : ℤ

pub record Host : Type 0 where
  pub libs : Libs
  -- krypto::SecretBuf::from_vec: can these bytes be locked in memory?
  pub lockable : Bytes → Bool
  -- krypto::base64::encode
  pub base64 : Bytes → Bytes
  -- krypto::random_bytes: how many bytes, the call, and the number within it
  pub random : ℕ → ℕ → ℕ → Option Bytes
  -- krypto::password::derive_key: password, salt; MasterKey::derive: key, salt
  pub derive_key : Bytes → Bytes → Option Bytes
  pub master_derive : Bytes → Bytes → Option Bytes
  -- krypto::seal and krypto::open with a derived key
  pub seal : Bytes → Bytes → Option Bytes
  pub open_sealed : Bytes → Bytes → Option Bytes
  -- PrivateKeyDer::from_pem_slice
  pub key_from_pem : Bytes → Option PrivateKey
  -- CertifiedKey::from_der: does the key belong to the chain?
  pub certified : List Bytes → PrivateKey → Bool
  pub x509_info : Bytes → Option X509Info
  -- IpAddr: is this text an address, and the text of its bytes
  pub is_ip : Str → Bool
  pub ip_text : Bytes → Str
  -- rcgen: a self-signed certificate and its PKCS#8 key, drawn at some call
  pub self_sign : SelfSignedParams → ℕ → Option (Bytes × Bytes)
  -- serde_json
  pub previous_to_json : PreviousOnDisk → Option Bytes
  pub previous_from_json : Bytes → Option PreviousOnDisk
  pub pending_to_json : PendingOnDisk → Option Bytes
  pub pending_from_json : Bytes → Option PendingOnDisk
