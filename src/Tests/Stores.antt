-- ===== src/Tests/Stores.antt =====
-- Examples of what lies on the disk: locked bytes, atomic writes, saved material, PEM and PKCS#8.
use net_tls.Prelude.{
  ℕ, ◌≡◌, ◌≢◌, refl, sym, ap, some-inj, ◌∙◌, Bool, true, none, some, [], ◌∷◌, ◌++◌, length, not,
  ◌==◌,
}
use net_tls.Prelude.Int.{pos}
use net_tls.Prelude.Text.{Bytes, codes, utf8}
use net_tls.Error.{Result, ok, err, is_ok}
use net_tls.Host.{pkcs8}
use net_tls.Lockbox.{lock, unlock, magic, seal, derive, hold}
use net_tls.Pkcs8.{pkcs8_from_parts}
use net_tls.Pkcs8.RoundTrip.{IsPkcs8, pkcs8_from_parts-IsPkcs8}
use net_tls.Tests.Toy.{padded}
use net_tls.Envelope.{
  Exchange, RecipientKey, envelope_magic, seal_envelope, seal_inner, derive_shared, open_envelope,
}
use net_tls.Envelope.RoundTrip.{ExchangeLaws, open_envelope-seal_envelope}
use net_tls.Lockbox.RoundTrip.{unlock-lock}
use net_tls.Pem.{encode, certs_pem, chunk_lines}
use net_tls.Material.{
  TlsMaterial, generated, from_der, pem_bytes, ephemeral, load_self_signed, default_params,
}
use net_tls.Disk.{main, Machine, call, skriv_atomisk, write_atomic, remove_dir_all}
use net_tls.Disk.Effects.{after_write, skriv_atomisk-after_write}
use net_tls.Store.{load, cert_path}
use net_tls.Material.Names.{validate_common_name, validate_sans, validate_san_name}
use net_tls.Fingerprint.{trim_end, trim_start}
use net_tls.Canonical.{split}
use net_tls.Store.Source.{load_source, load_kind, source_auto}
use net_tls.Store.Valid.{IsValid, load_source-IsValid}
use net_tls.Store.Auto.{generate_auto, load_auto, marked, load_auto-load_auto}
use net_tls.Store.Save.{save, save_pem, locked_material, lock_now}
use net_tls.Material.Load.{IsMaterial}
use net_tls.Store.Locked.{load-save}
use net_tls.Tests.Data.{old_der, fp_of}
use net_tls.Tests.Drive.{drive, drive-PemLaws, drive-SealLaws}

abbrev works : ℕ → Bool
works n = true

abbrev pw : Bytes
pw = codes "pw"

abbrev locked_file : Bytes
locked_file = magic ++ (padded 32 [] ++ (7 ∷ 8 ∷ []))

is_locked : lock drive 0 pw (7 ∷ 8 ∷ []) ≡ ok locked_file
unfolding lock seal derive
is_locked = refl

unlock-lock_example : unlock drive pw locked_file ≡ ok (7 ∷ 8 ∷ [])
unlock-lock_example = unlock-lock drive drive-SealLaws 0 pw (7 ∷ 8 ∷ []) locked_file is_locked

abbrev empty : Machine
empty = record { files = λ q. none; calls = 0 }

-- The third call fails.
abbrev third_fails : ℕ → Bool
third_fails n = not (n == 2)

skriv_atomisk-after_write_example :
    (skriv_atomisk third_fails (cert_path main) (7 ∷ []) empty).1.files (cert_path main)
    ≡ after_write
        (skriv_atomisk third_fails (cert_path main) (7 ∷ []) empty).0
        (cert_path main)
        (7 ∷ [])
        empty.files
        (cert_path main)
skriv_atomisk-after_write_example =
    skriv_atomisk-after_write third_fails (cert_path main) (7 ∷ []) empty (cert_path main) refl

abbrev pub material : TlsMaterial
material = record {
  chain = old_der ∷ [];
  key = pkcs8 (3 ∷ []);
  origin = generated;
  fingerprint = fp_of old_der;
  not_before = pos 0;
  not_after = pos 1000;
  sans = [];
  subject = codes "toy";
}

pub material-IsMaterial : IsMaterial drive material (3 ∷ [])
unfolding from_der
material-IsMaterial = record { made = refl; not_empty = refl; key = refl }

abbrev stored : Machine
stored = (save drive works (some pw) material main empty).1

saved : save drive works (some pw) material main empty ≡ (ok tt, stored)
unfolding save locked_material save_pem lock_now lock seal derive hold write_atomic skriv_atomisk
    remove_dir_all call certs_pem encode chunk_lines
saved = refl

load-save_example :
    load drive (some pw) main stored.files ≡ ok (record material { origin = pem_bytes })
load-save_example =
    load-save drive works drive-PemLaws drive-SealLaws (some pw) material (3 ∷ []) main empty stored
      material-IsMaterial saved

abbrev scalar : Bytes
scalar = padded 32 (7 ∷ [])

abbrev point : Bytes
point = 4 ∷ padded 64 (8 ∷ [])

scalar-length : length scalar ≡ 32
scalar-length = refl

point-length : length point ≡ 65
point-length = refl

pkcs8_from_parts-IsPkcs8_example : IsPkcs8 (pkcs8_from_parts scalar point) scalar point
pkcs8_from_parts-IsPkcs8_example = pkcs8_from_parts-IsPkcs8 scalar point scalar-length point-length

abbrev first_run : Result TlsMaterial × Machine
first_run = load_auto drive works default_params (pos 5) main empty

abbrev or_material : Result TlsMaterial → TlsMaterial
or_material (ok m) = m
or_material (err e) = material

ran : (r : Result TlsMaterial × Machine) → is_ok r.0 ≡ true → r ≡ (ok (or_material r.0), r.1)
ran (ok m, s) h = refl
ran (err e, s) h = cc

first_run-made : (is_ok first_run.0 ≡ true) × ((or_material first_run.0).origin ≡ generated)
unfolding load_auto generate_auto load_self_signed validate_common_name trim_end trim_start
    validate_sans validate_san_name utf8 split from_der save_pem call write_atomic hold
first_run-made = (refl, refl)

load_auto-load_auto_example :
    load_auto drive works default_params (pos 9000) main first_run.1
    ≡ (ok (marked (pos 9000) (or_material first_run.0)), first_run.1)
load_auto-load_auto_example =
    load_auto-load_auto drive works drive-PemLaws default_params default_params (pos 5) (pos 9000)
      main empty first_run.1 (or_material first_run.0) (ran first_run first_run-made.0)
      (λ e. generated_lasts (sym first_run-made.1 ∙ e))
  where
    generated_lasts : generated ≢ ephemeral
    generated_lasts e = cc

-- An exchange whose secret is always the same.
abbrev exchange : Exchange
exchange = record {
  x25519_keypair = λ call. some (padded 32 (1 ∷ []), padded 32 (1 ∷ []));
  x25519_public = λ privat. some privat;
  x25519_shared = λ privat public. some [];
  master_key = λ ikm. some ikm;
  master_derive = λ mk salt. some mk;
  lockable = λ b. true;
  seal = λ dk plain. some plain;
  open_sealed = λ dk blob. some blob;
}

exchange-ExchangeLaws : ExchangeLaws exchange
exchange-ExchangeLaws = record {
  key_size = λ call privat public e. ap (λ (p : Bytes × Bytes). length p.1) (sym (some-inj e));
  agrees = λ call e ep p own s a b c. c;
  opens = λ dk plain blob e. sym e;
}

abbrev own_key : RecipientKey
own_key = record { privat = padded 32 (2 ∷ []) }

abbrev envelope : Bytes
envelope = envelope_magic ++ (padded 32 (1 ∷ []) ++ (7 ∷ []))

is_sealed : seal_envelope exchange 0 (padded 32 (2 ∷ [])) (7 ∷ []) ≡ ok envelope
unfolding seal_envelope seal_inner derive_shared
is_sealed = refl

open_envelope-seal_envelope_example : open_envelope exchange own_key envelope ≡ ok (7 ∷ [])
open_envelope-seal_envelope_example =
    open_envelope-seal_envelope exchange exchange-ExchangeLaws 0 own_key (padded 32 (2 ∷ []))
      (7 ∷ []) envelope refl is_sealed

load_source-IsValid_example : IsValid drive (or_material first_run.0)
unfolding load_source load_kind source_auto
load_source-IsValid_example =
    load_source-IsValid drive works (pos 5) (source_auto main default_params) empty first_run.1
      (or_material first_run.0) (ran first_run first_run-made.0)
