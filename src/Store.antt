-- ===== src/Store.antt =====
-- material.rs and announcer.rs: the certificate and the keys of an announcer on the disk, locked with
-- its password or in the clear.
pub mod Save
pub mod Locked
pub mod Previous
pub mod Pending
pub mod Auto
pub mod Source
pub mod Valid
pub mod Crash
pub mod Torn
pub mod RoundTrip
use Prim.Native.String.{String}
use net_tls.Prelude.{
  ℕ, ◌≡◌, refl, Bool, true, false, Option, none, some, List, [], ◌∷◌, ◌++◌, take, drop,
  if◌then◌else◌, ◌&&◌,
}
use net_tls.Prelude.Text.{Str, Bytes, codes, same}
use net_tls.Error.{TlsError, Result, ok, err, io, pem, chain, map_err, refuse, ◌>>=◌, ◌>>◌}
use net_tls.Signature.{ok_or}
use net_tls.Announcement.{fingerprint_of, is_some}
use net_tls.Host.{Host, PrivateKey, PreviousOnDisk, SelfSignedParams}
use net_tls.Pem.{newline}
use net_tls.Pem.Marker.{find_marker}
use net_tls.Lockbox.{hold, lock, unlock}
use net_tls.Pkcs8.{pkcs8_p256}
use net_tls.Material.{
  TlsMaterial, CertOrigin, files, pem_bytes, from_pem, generate_pair, from_der, generated,
  cert_file_of, leaf, is_valid_at, reused, reused_expired, ephemeral,
}
use net_tls.Prelude.Int.{ℤ}
use net_tls.Disk.{Dir, main, new_dir, FilePath, Files}

abbrev pub cert_path : Dir → FilePath
cert_path d = record { dir = d; stem = codes "cert"; extension = codes "pem" }

abbrev pub key_path : Dir → FilePath
key_path d = record { dir = d; stem = codes "key"; extension = codes "pem" }

abbrev pub locked_path : Dir → FilePath
locked_path d = record { dir = d; stem = codes "material"; extension = codes "locked" }

-- The previous key has a name for each of the two forms.
abbrev pub previous_path : Option Bytes → FilePath
previous_path (some pw) = record {
  dir = main;
  stem = codes "previous-key";
  extension = codes "locked";
}
previous_path none = record { dir = main; stem = codes "previous-key"; extension = codes "json" }

abbrev pub other_path : Option Bytes → FilePath
other_path (some pw) = previous_path none
other_path none = previous_path (some [])

-- `OwnMaterial`: a fingerprint and a key for the previous generation and for the current one.
pub record OwnMaterial : Type 0 where
  pub previous : Option (Str × Bytes)
  pub current : Str × Bytes

abbrev pub read : FilePath → Files → Result Bytes
read p fs = ok_or (fs p) (io "read")

module _ (h : Host) where
  -- `TlsMaterial::load` of `CertSource::files`
  unfoldable pub load_files : Dir → Files → Result TlsMaterial
  load_files d fs = do
    cert_pem ← read (cert_path d) fs
    key_file ← read (key_path d) fs
    key_pem ← hold h key_file
    from_pem h cert_pem key_pem CertOrigin.files

  -- The same of any two paths.
  unfoldable pub load_paths : FilePath → FilePath → Files → Result TlsMaterial
  load_paths cert key fs = do
    cert_pem ← read cert fs
    key_file ← read key fs
    key_pem ← hold h key_file
    from_pem h cert_pem key_pem CertOrigin.files

  -- The unlocked material, split where the private key begins.
  unfoldable pub load_unlocked : Bytes → Result TlsMaterial
  load_unlocked b = do
    skille ← ok_or (find_marker b) (pem "no private key found in the locked material")
    from_pem h (take skille b) (drop skille b) pem_bytes

  unfoldable pub load : Option Bytes → Dir → Files → Result TlsMaterial
  unfolding load_files load_unlocked
  load none d fs = load_files d fs
  load (some pw) d fs = do file ← read (locked_path d) fs; out ← unlock h pw file; load_unlocked out

  unfoldable pub previous_of : Option Bytes → Bytes → Result PreviousOnDisk
  previous_of none raa =
      ok_or (h.previous_from_json raa) (chain "the previous key could not be parsed")
  previous_of (some pw) raa = do
    out ← unlock h pw raa
    ok_or (h.previous_from_json out) (chain "the previous key could not be parsed")

  -- The chain that a previous key and the material on the disk make.
  unfoldable pub own_chain : Option Bytes → PreviousOnDisk → Files → Result OwnMaterial
  own_chain password read_back fs = do
    material ← load password main fs
    let der = leaf material.chain
    let current_fp = fingerprint_of h.libs der
    current_pkcs8 ← pkcs8_p256 h material.key der
    refuse (same read_back.fingerprint current_fp)
        (chain "previous and current have the same fingerprint")
    previous_pkcs8 ← hold h read_back.pkcs8
    ok (record {
      previous = some (read_back.fingerprint, previous_pkcs8);
      current = (current_fp, current_pkcs8);
    })

  -- `restore_material`, by what lies under the name of the previous key. `none` is `Ok(false)`; the
  -- material of `some` goes into `self`.
  abbrev pub restore_from : Option Bytes → Option Bytes → Files → Result (Option OwnMaterial)
  restore_from none password fs = do
    refuse (is_some (fs (other_path password)))
        (chain "the password setup has changed since the chain was saved")
    ok none
  restore_from (some raa) password fs = do
    read_back ← previous_of password raa
    own ← own_chain password read_back fs
    ok (some own)

  unfoldable pub restore_material : Option Bytes → Files → Result (Option OwnMaterial)
  restore_material password fs = restore_from (fs (previous_path password)) password fs
