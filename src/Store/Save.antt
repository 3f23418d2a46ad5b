-- ===== src/Store/Save.antt =====
-- Writing the material and the previous key: `save_pem`, `Announcer::save`, `save_previous`.
use net_tls.Prelude.{ℕ, Bool, not, Option, none, some, ◌++◌}
use net_tls.Prelude.Text.{Str, Bytes}
use net_tls.Error.{ok, pem, chain, refuse}
use net_tls.Signature.{ok_or}
use net_tls.Host.{Host}
use net_tls.Pem.{newline}
use net_tls.Lockbox.{hold, lock}
use net_tls.Material.{TlsMaterial, key_block, cert_file_of}
use net_tls.Disk.{
  Dir, staging, Machine, Action, ◌>>=◌, ◌>>◌, lift, look, ignoring, in_the_end, counted, call,
  skriv_atomisk, write_atomic, remove_dir_all, put,
}
use net_tls.Store.{cert_path, key_path, locked_path, previous_path, read}

module _ (h : Host) where
  -- `lock` draws its salt at the next call.
  unfoldable pub lock_now : Bytes → Bytes → Action Machine Bytes
  lock_now pw plain = do n ← counted; lift (lock h n pw plain)

  abbrev pub locked_if : Option Bytes → Bytes → Action Machine Bytes
  locked_if none b = lift (ok b)
  locked_if (some pw) b = lock_now pw b

-- `works` says which calls of the file system go well; `password` is the announcer's.
module _ (h : Host) (works : ℕ → Bool) where
  unfoldable pub save_pem : TlsMaterial → Dir → Action Machine (Unit {0})
  save_pem m dir = do
    call works "create_dir_all" (λ fs. fs)
    write_atomic works (cert_path dir) (cert_file_of h m)
    block ← lift (ok_or (key_block h m.key) (pem "unknown private key format"))
    key_pem ← lift (hold h block)
    write_atomic works (key_path dir) key_pem

  -- The closure in `save`: through the PEM files in the staging directory.
  unfoldable pub locked_material : Bytes → TlsMaterial → Dir → Action Machine Bytes
  locked_material pw m tmp = do
    save_pem m tmp
    fs ← look (λ (s : Machine). s.files)
    cert ← lift (read (cert_path tmp) fs)
    key_file ← lift (read (key_path tmp) fs)
    key ← lift (hold h key_file)
    samlet ← lift (hold h (cert ++ (newline ++ key)))
    lock_now h pw samlet

  unfoldable pub save : Option Bytes → TlsMaterial → Dir → Action Machine (Unit {0})
  save none m dir = save_pem m dir
  save (some pw) m dir = do
    call works "create_dir_all" (λ fs. fs)
    locked ←
        in_the_end (locked_material pw m (staging dir))
          (ignoring (remove_dir_all works (staging dir)))
    skriv_atomisk works (locked_path dir) locked

  unfoldable pub save_previous : Option Bytes → Option (Str × Bytes) → Action Machine (Unit {0})
  save_previous password none =
      ignoring (call works "remove_file" (put (previous_path password) none))
  save_previous password (some (fp, pkcs8)) = do
    json ← lift (
        ok_or (h.previous_to_json (record { fingerprint = fp; pkcs8 = pkcs8 }))
          (chain "could not serialize the previous key"))
    lift (refuse (not (h.lockable json)) (chain "could not lock the previous key"))
    out ← locked_if h password json
    skriv_atomisk works (previous_path password) out
