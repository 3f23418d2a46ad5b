-- ===== src/Material.antt =====
-- material.rs: a certificate chain with its private key, where it comes from and how it is stored.
pub mod Names
pub mod Load
use Prim.Native.String.{String}
use net_tls.Prelude.{
  ℕ, zero, ◌*◌, ◌≡◌, refl, Bool, true, false, not, ◌&&◌, ◌||◌, Option, none, some, List, [], ◌∷◌,
  ◌++◌, ltb, ◌==◌, if◌then◌else◌, is_empty, length,
}
use net_tls.Prelude.Int.{ℤ, leb_ℤ}
use net_tls.Prelude.Text.{Str, Bytes, codes}
use net_tls.Error.{
  TlsError, Result, ok, err, pem, key_mismatch, certificate, generate, params, ◌>>=◌, ◌>>◌, refuse,
}
use net_tls.External.{Libs}
use net_tls.Signature.{ok_or}
use net_tls.Announcement.{fingerprint_of}
use net_tls.Host.{
  Host, PrivateKey, pkcs8, sec1, pkcs1, other_key, GeneralName, dns_name, ip_address, other_name,
  X509Info, SelfSignedParams,
}
use net_tls.Pem.{encode, certs_pem, private_key_label, rsa_private_key_label, ec_private_key_label}
use net_tls.Material.Names.{validate_common_name, validate_san_name, validate_sans, max_valid_days}

pub data CertOrigin : Type 0 where
  files pem_bytes generated reused reused_expired ephemeral : CertOrigin

pub record TlsMaterial : Type 0 where
  pub chain : List Bytes
  pub key : PrivateKey
  pub origin : CertOrigin
  pub fingerprint : Str
  pub not_before : ℤ
  pub not_after : ℤ
  pub sans : List Str
  pub subject : Str

abbrev pub default_params : SelfSignedParams
default_params = record {
  common_name = codes "nettls self-signed";
  sans = codes "localhost" ∷ codes "127.0.0.1" ∷ [];
  valid_days = 365;
}

-- `&chain[0]`; `from_pem` refuses an empty chain before it is asked for.
abbrev pub leaf : List Bytes → Bytes
leaf [] = []
leaf (c ∷ cs) = c

-- `collect::<Result<_, _>>()` over the blocks of a file
unfoldable pub collect_certs : List (Option Bytes) → Option (List Bytes)
collect_certs [] = some []
collect_certs (none ∷ os) = none
collect_certs (some c ∷ os) = elim (collect_certs os) [ none ↦ none | some cs ↦ some (c ∷ cs) ]

module _ (h : Host) where
  unfoldable pub format_ip : Bytes → Str
  format_ip bytes =
      if length bytes == 4 || length bytes == 16
      then h.ip_text bytes
      else codes "<IP SAN with other bytes>"

  abbrev pub san_text : GeneralName → Str
  san_text (dns_name s) = s
  san_text (ip_address b) = format_ip b
  san_text (other_name s) = s

  abbrev pub san_texts : List GeneralName → List Str
  san_texts [] = []
  san_texts (n ∷ ns) = san_text n ∷ san_texts ns

  abbrev pub sans_of : Option (List GeneralName) → List Str
  sans_of none = []
  sans_of (some ns) = san_texts ns

  unfoldable pub inspect : Bytes → Result (ℤ × ℤ × List Str × Str)
  unfolding format_ip
  inspect der = do
    i ← ok_or (h.x509_info der) (certificate "invalid certificate")
    ok (i.not_before, i.not_after, sans_of i.names, i.subject)

  unfoldable pub from_der : List Bytes → PrivateKey → CertOrigin → Result TlsMaterial
  unfolding inspect
  from_der chain key origin = do
    refuse (not (h.certified chain key)) (key_mismatch "the key does not belong to the certificate")
    (not_before, not_after, sans, subject) ← inspect (leaf chain)
    ok (record {
      chain = chain;
      key = key;
      origin = origin;
      fingerprint = fingerprint_of h.libs (leaf chain);
      not_before = not_before;
      not_after = not_after;
      sans = sans;
      subject = subject;
    })

  unfoldable pub from_pem : Bytes → Bytes → CertOrigin → Result TlsMaterial
  unfolding from_der collect_certs
  from_pem cert_pem key_pem origin = do
    chain ←
        ok_or (collect_certs (h.libs.pem_slice_iter cert_pem))
          (pem "could not read CERTIFICATE blocks")
    refuse (is_empty chain) (pem "found no CERTIFICATE block")
    key ← ok_or (h.key_from_pem key_pem) (pem "could not read private key")
    from_der chain key origin

  -- `generate`, at some call of the random source. The clock that it reads is the callee's.
  unfoldable pub generate_pair : SelfSignedParams → ℕ → Result (List Bytes × PrivateKey)
  generate_pair p call = do
    refuse (is_empty p.sans) (params "the SAN list is empty")
    refuse (p.valid_days == 0 || ltb max_valid_days p.valid_days)
        (params "valid_days is out of range")
    validate_common_name p.common_name
    validate_sans h.is_ip p.sans
    (cert, key) ← ok_or (h.self_sign p call) (generate "the certificate could not be generated")
    ok (cert ∷ [], pkcs8 key)

  -- `TlsMaterial::load` of `CertSource::self_signed`
  unfoldable pub load_self_signed : SelfSignedParams → ℕ → Result TlsMaterial
  unfolding generate_pair
  load_self_signed p call = do (chain, key) ← generate_pair p call; from_der chain key generated

  -- The label and the bytes that `save_pem` writes a key with.
  abbrev pub key_block : PrivateKey → Option Bytes
  key_block (pkcs8 k) = some (encode h private_key_label k)
  key_block (pkcs1 k) = some (encode h rsa_private_key_label k)
  key_block (sec1 k) = some (encode h ec_private_key_label k)
  key_block (other_key k) = none

  abbrev pub cert_file_of : TlsMaterial → Bytes
  cert_file_of m = certs_pem h m.chain

-- `is_valid_now`, at a moment
unfoldable pub is_valid_at : TlsMaterial → ℤ → Bool
is_valid_at m now = leb_ℤ m.not_before now && leb_ℤ now m.not_after
