-- ===== src/Pin.antt =====
-- The configurations that connections are made with: pin.rs, and those of generations.rs, resolver.rs
-- and material.rs. What `rustls` makes of them is a parameter, but for what the crate sets.
pub mod Hex
pub mod Accepts
use Prim.Native.String.{String}
use net_tls.Prelude.{ℕ, ◌≡◌, refl, Bool, true, false, not, Option, none, some, List, [], ◌∷◌}
use net_tls.Prelude.Text.{Str, Bytes, codes}
use net_tls.Error.{TlsError, Result, ok, err, rustls, ◌>>=◌, ◌>>◌, refuse}
use net_tls.Fingerprint.{parse_fingerprint}
use net_tls.Transport.{TransportPolicy, Suite, default, provider_suites}
use net_tls.External.{Libs}
use net_tls.Host.{Host, PrivateKey}
use net_tls.Material.{TlsMaterial}
use net_tls.Generations.{Generations, verify_server_cert}
use net_tls.Announcer.{Current}

-- `with_protocol_versions(&[TLS13, TLS12])`: is there a suite for one of the versions? And `ct_eq`.
pub record Rustls : Type 0 where
  pub with_protocol_versions : List Suite → Bool
  pub ct_eq : Bytes → Bytes → Bool

-- `PinnedServerCertVerifier`, or `GenerationVerifier`, which reads the live state of a `Trust`.
pub data Verifier : Type 0 where
  pinned : Bytes → Verifier
  live : Verifier

pub record ClientConfig : Type 0 where
  pub cipher_suites : List Suite
  pub verifier : Verifier
  pub alpn_protocols : List Bytes
  -- is resumption of sessions enabled?
  pub resumption : Bool

-- What a server shows: one certificate with its key, or what a `RotatingResolver` holds at the moment.
pub data Shown : Type 0 where
  single : List Bytes → PrivateKey → Shown
  resolved : Shown

pub record ServerConfig : Type 0 where
  pub cipher_suites : List Suite
  pub shown : Shown
  pub alpn_protocols : List Bytes
  pub ignore_client_order : Bool

abbrev pub no_resumption : Bool
no_resumption = false

-- "h2" and "http/1.1"
abbrev pub server_alpn : List Bytes
server_alpn = codes "h2" ∷ codes "http/1.1" ∷ []

-- `PinnedServerCertVerifier::verify_server_cert`: does the handshake go on?
unfoldable pub verify_pinned : Libs → Rustls → Bytes → Bytes → Bool
verify_pinned l r expected end_entity = r.ct_eq (l.sha256 end_entity) expected

module _ (r : Rustls) where
  abbrev versions : List Suite → Result (Unit {0})
  versions suites =
      refuse (not (r.with_protocol_versions suites)) (rustls "no usable cipher suites configured")

  unfoldable pub pinned_client_config_with :
      Str → List Bytes → TransportPolicy → Result ClientConfig
  pinned_client_config_with fingerprint_sha256 alpn transport = do
    expected ← parse_fingerprint fingerprint_sha256
    versions (provider_suites transport)
    ok (record {
      cipher_suites = provider_suites transport;
      verifier = pinned expected;
      alpn_protocols = alpn;
      resumption = no_resumption;
    })

  unfoldable pub pinned_client_config_with_alpn : Str → List Bytes → Result ClientConfig
  unfolding pinned_client_config_with
  pinned_client_config_with_alpn fingerprint_sha256 alpn =
      pinned_client_config_with fingerprint_sha256 alpn default

  unfoldable pub pinned_client_config : Str → Result ClientConfig
  unfolding pinned_client_config_with_alpn
  pinned_client_config fingerprint_sha256 = pinned_client_config_with_alpn fingerprint_sha256 []

  -- `Trust::client_config_with`; the state that it reads is that of the `Trust`.
  unfoldable pub client_config_with : List Bytes → TransportPolicy → Result ClientConfig
  client_config_with alpn transport = do
    versions (provider_suites transport)
    ok (record {
      cipher_suites = provider_suites transport;
      verifier = live;
      alpn_protocols = alpn;
      resumption = no_resumption;
    })

  unfoldable pub client_config_with_alpn : List Bytes → Result ClientConfig
  unfolding client_config_with
  client_config_with_alpn alpn = client_config_with alpn default

  unfoldable pub client_config : Result ClientConfig
  unfolding client_config_with_alpn
  client_config = client_config_with_alpn []

  -- `RotatingResolver::server_config_with` and its two short forms.
  unfoldable pub resolver_config_with : List Bytes → TransportPolicy → Result ServerConfig
  resolver_config_with alpn transport = do
    versions (provider_suites transport)
    ok (record {
      cipher_suites = provider_suites transport;
      shown = resolved;
      alpn_protocols = alpn;
      ignore_client_order = true;
    })

  unfoldable pub resolver_config_with_alpn : List Bytes → Result ServerConfig
  unfolding resolver_config_with
  resolver_config_with_alpn alpn = resolver_config_with alpn default

  unfoldable pub resolver_config : Result ServerConfig
  unfolding resolver_config_with_alpn
  resolver_config = resolver_config_with_alpn server_alpn

  -- `TlsMaterial::server_config_with` and its two short forms.
  module _ (h : Host) where
    unfoldable pub server_config_with :
        TlsMaterial → List Bytes → TransportPolicy → Result ServerConfig
    server_config_with m alpn transport = do
      versions (provider_suites transport)
      refuse (not (h.certified m.chain m.key)) (rustls "the key does not belong to the certificate")
      ok (record {
        cipher_suites = provider_suites transport;
        shown = single m.chain m.key;
        alpn_protocols = alpn;
        ignore_client_order = true;
      })

    unfoldable pub server_config_with_alpn : TlsMaterial → List Bytes → Result ServerConfig
    unfolding server_config_with
    server_config_with_alpn m alpn = server_config_with m alpn default

    unfoldable pub server_config : TlsMaterial → Result ServerConfig
    unfolding server_config_with_alpn
    server_config m = server_config_with_alpn m server_alpn

-- `RotatingResolver::resolve`, and what a server shows in a handshake.
unfoldable pub resolve : Current → List Bytes × PrivateKey
resolve current = current.certified

abbrev pub shows : Shown → Current → List Bytes × PrivateKey
shows (single chain key) current = (chain, key)
shows resolved current = resolve current

-- What the verifier of a configuration says of a certificate, and what it does to the state of the peer.
abbrev pub verify_with : Libs → Rustls → Verifier → Generations → Bytes → Generations × Bool
verify_with l r (pinned expected) g end_entity = (g, verify_pinned l r expected end_entity)
verify_with l r live g end_entity = verify_server_cert l g end_entity
