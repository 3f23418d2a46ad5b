-- ===== src/Store/Source.antt =====
-- material.rs, `CertSource` and `TlsMaterial::load`: where a certificate comes from.
use net_tls.Prelude.{ℕ, Bool, List, if◌then◌else◌}
use net_tls.Prelude.Int.{ℤ}
use net_tls.Prelude.Text.{Str, Bytes}
use net_tls.Error.{Result, ok, err, key_mismatch}
use net_tls.Host.{Host, PrivateKey, SelfSignedParams}
use net_tls.Material.{TlsMaterial, pem_bytes, from_pem, load_self_signed, leaf}
use net_tls.Pkcs8.{pkcs8_p256}
use net_tls.Disk.{Dir, FilePath, Machine, Action, ◌>>=◌, look, lift, counted}
use net_tls.Store.{load_paths}
use net_tls.Store.Auto.{load_auto}

pub data Kind : Type 0 where
  of_files : FilePath → FilePath → Kind
  of_pem : Bytes → Bytes → Kind
  self_signed : SelfSignedParams → Kind
  auto : Dir → SelfSignedParams → Kind

pub record CertSource : Type 0 where
  pub kind : Kind

-- `CertSource::files`, `pem`, `self_signed` and `auto`
unfoldable pub source_files : FilePath → FilePath → CertSource
source_files cert key = record { kind = of_files cert key }

unfoldable pub source_pem : Bytes → Bytes → CertSource
source_pem cert key = record { kind = of_pem cert key }

unfoldable pub source_self_signed : SelfSignedParams → CertSource
source_self_signed params = record { kind = self_signed params }

unfoldable pub source_auto : Dir → SelfSignedParams → CertSource
source_auto dir params = record { kind = auto dir params }

-- `SelfSignedParams::new` and `valid_days`
unfoldable pub new_params : Str → List Str → SelfSignedParams
new_params common_name sans = record { common_name = common_name; sans = sans; valid_days = 365 }

unfoldable pub valid_days : SelfSignedParams → ℕ → SelfSignedParams
valid_days p days = record p { valid_days = days }

module _ (h : Host) where
  module _ (works : ℕ → Bool) where
    -- `TlsMaterial::load`, at a moment: that of `load_auto`'s clock.
    unfoldable pub load_kind : ℤ → Kind → Action Machine TlsMaterial
    load_kind now (of_files cert key) = do
      fs ← look (λ (s : Machine). s.files)
      lift (load_paths h cert key fs)
    load_kind now (of_pem cert key) = lift (from_pem h cert key pem_bytes)
    load_kind now (self_signed params) = do n ← counted; lift (load_self_signed h params n)
    load_kind now (auto dir params) = load_auto h works params now dir

    unfoldable pub load_source : ℤ → CertSource → Action Machine TlsMaterial
    load_source now source = load_kind now source.kind

  -- rustls::sign::CertifiedKey: the chain with its key, checked again
  unfoldable pub certified_key : TlsMaterial → Result (List Bytes × PrivateKey)
  certified_key m =
      if h.certified m.chain m.key
      then ok (m.chain, m.key)
      else err (key_mismatch "the key does not belong to the certificate")

  unfoldable pub anchor_pkcs8 : TlsMaterial → Result Bytes
  anchor_pkcs8 m = pkcs8_p256 h m.key (leaf m.chain)
