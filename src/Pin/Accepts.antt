-- ===== src/Pin/Accepts.antt =====
-- A pin and a fresh approval let in the same certificates.
use net_tls.Prelude.{◌≡◌, ◌↔◌, refl, sym, ap, ◌∙◌, Bool, true, false, some-inj, List, length}
use net_tls.Prelude.Text.{Bytes, IsBytes, same, same_iff, same→eq}
use net_tls.Error.{ok}
use net_tls.External.{Libs, HexLaws}
use net_tls.Announcement.{fingerprint_of}
use net_tls.Fingerprint.{parse_fingerprint}
use net_tls.Transport.{TransportPolicy, provider_suites}
use net_tls.Generations.{from_approval, from_der}
use net_tls.Generations.Handshake.{handshake-none}
use net_tls.Pin.{
  Rustls, ClientConfig, pinned, live, pinned_client_config_with, client_config_with, verify_pinned,
  verify_with,
}
use net_tls.Pin.Hex.{lower_hex, parse_fingerprint-lower_hex}

-- The digest has 32 bytes, `encode` writes two lowercase digits for each byte, and `ct_eq` compares.
pub record PinLaws (l : Libs) (r : Rustls) : Type 0 where
  pub hash_size : (d : Bytes) → length (l.sha256 d) ≡ 32
  pub hash_bytes : (d : Bytes) → IsBytes (l.sha256 d)
  pub encodes : (b : Bytes) → IsBytes b → l.hex_encode b ≡ lower_hex b
  pub compares : (a b : Bytes) → (r.ct_eq a b ≡ true) ↔ (a ≡ b)

same_bool : (a b : Bool) → (a ≡ true → b ≡ true) → (b ≡ true → a ≡ true) → a ≡ b
same_bool true true f g = refl
same_bool true false f g = sym (f refl)
same_bool false true f g = g refl
same_bool false false f g = refl

module _ (l : Libs) (r : Rustls) (laws : PinLaws l r) (hex : HexLaws l) where
  pub parse_fingerprint-fingerprint_of :
      (der : Bytes) → parse_fingerprint (fingerprint_of l der) ≡ ok (l.sha256 der)
  parse_fingerprint-fingerprint_of der =
      ap parse_fingerprint (laws.encodes (l.sha256 der) (laws.hash_bytes der))
      ∙ parse_fingerprint-lower_hex (l.sha256 der) (laws.hash_bytes der) (laws.hash_size der)

  fingerprint_of-inj :
      (a b : Bytes) → fingerprint_of l a ≡ fingerprint_of l b → l.sha256 a ≡ l.sha256 b
  fingerprint_of-inj a b e = some-inj (
      sym (hex.decode-encode (l.sha256 a) (laws.hash_bytes a))
      ∙ ap l.hex_decode e
      ∙ hex.decode-encode (l.sha256 b) (laws.hash_bytes b))

  -- The fingerprint of a certificate, as the crate writes it, is a pin, and the client that is
  -- configured with it lets in exactly the certificates with the same digest; a client whose `Trust` was
  -- just approved with the certificate, with the same lists, offers the same and lets in the same.
  pub pinned-approved :
      (der cert : Bytes) (alpn : List Bytes) (transport : TransportPolicy)
      → r.with_protocol_versions (provider_suites transport) ≡ true
      → (one : ClientConfig) × (other : ClientConfig) × (pinned_client_config_with r
            (fingerprint_of l der)
            alpn
            transport
          ≡ ok one)
        × (client_config_with r alpn transport ≡ ok other)
        × (one ≡ record other { verifier = pinned (l.sha256 der) })
        × (((verify_with l r one.verifier (from_approval (from_der l der)) cert).1 ≡ true)
            ↔ (l.sha256 cert ≡ l.sha256 der))
        × ((verify_with l r one.verifier (from_approval (from_der l der)) cert).1
            ≡ (verify_with l r other.verifier (from_approval (from_der l der)) cert).1)
  unfolding pinned_client_config_with client_config_with verify_pinned from_approval from_der
  pinned-approved der cert alpn transport usable = (
    record {
      cipher_suites = provider_suites transport;
      verifier = pinned (l.sha256 der);
      alpn_protocols = alpn;
      resumption = false;
    },
    record {
      cipher_suites = provider_suites transport;
      verifier = live;
      alpn_protocols = alpn;
      resumption = false;
    },
    rw (parse_fingerprint-fingerprint_of der, usable) refl,
    rw usable refl,
    refl,
    laws.compares (l.sha256 cert) (l.sha256 der),
    same_bool _ _ to from
        ∙ sym (ap (λ x. x.1) (handshake-none l (from_approval (from_der l der)) cert refl)),
  )
    where
      to :
          r.ct_eq (l.sha256 cert) (l.sha256 der) ≡ true
          → same (fingerprint_of l der) (fingerprint_of l cert) ≡ true
      to e =
          (same_iff (fingerprint_of l der) (fingerprint_of l cert)).1
            (ap l.hex_encode (sym ((laws.compares (l.sha256 cert) (l.sha256 der)).0 e)))

      from :
          same (fingerprint_of l der) (fingerprint_of l cert) ≡ true
          → r.ct_eq (l.sha256 cert) (l.sha256 der) ≡ true
      from e = (laws.compares (l.sha256 cert) (l.sha256 der)).1 (
          fingerprint_of-inj cert der
            (sym (same→eq (fingerprint_of l der) (fingerprint_of l cert) e)))
