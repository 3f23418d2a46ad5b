-- ===== src/Tests/Crashes.antt =====
-- Examples of a process that ends while it writes.
use net_tls.Prelude.{ℕ, ◌≤◌, ◌≡◌, refl, Bool, true, false, none, some, [], ◌∷◌, arith, ltb}
use net_tls.Prelude.Int.{pos}
use net_tls.Prelude.Text.{codes}
use net_tls.Error.{ok, err, key_mismatch, is_ok}
use net_tls.Pem
use net_tls.Pem.{private_key_label, certs_pem, chunk_lines}
use net_tls.Material.{cert_file_of}
use net_tls.Disk.{main, Machine, put, call, write_atomic}
use net_tls.Store.{cert_path, key_path, load}
use net_tls.Store.Save.{save}
use net_tls.Store.Torn.{save-torn}
use net_tls.Announcer.{roll_if_ready_gated}
use net_tls.Announcer.Crash.{OldOrNew, roll-crash}
use net_tls.Tests.Drive.{drive, drive-PemLaws, drive-SealLaws}
use net_tls.Tests.Restarts.{config, announced, announced-IsBacked}
use net_tls.Tests.Stores.{material, material-IsMaterial}

-- The process ends early in the rotation.
abbrev ends_soon : ℕ → Bool
ends_soon n = ltb n 60

roll-crash_example :
    OldOrNew drive ends_soon config announced.pending announced.machine.files
      (roll_if_ready_gated drive ends_soon config (pos 200) true announced).1.machine.files
roll-crash_example =
    roll-crash drive ends_soon config (codes "pw") refl drive-PemLaws drive-SealLaws (pos 200) true
      announced announced-IsBacked

-- An old key that is not the new certificate's lies on the disk.
abbrev before : Machine
before = record {
  files = put (key_path main) (some (Pem.encode drive private_key_label (9 ∷ []))) (λ q. some []);
  calls = 0;
}

abbrev first_seven : ℕ → Bool
first_seven n = ltb n 7

abbrev made : Machine
made = (call first_seven "create_dir_all" (λ fs. fs) before).1

abbrev written : Machine
written = (write_atomic first_seven (cert_path main) (cert_file_of drive material) made).1

is_made : call first_seven "create_dir_all" (λ fs. fs) before ≡ (ok tt, made)
unfolding call
is_made = refl

is_written :
    write_atomic first_seven (cert_path main) (cert_file_of drive material) made ≡ (ok tt, written)
unfolding call write_atomic
is_written = refl

is_over : (n : ℕ) → written.calls ≤ n → first_seven n ≡ false
unfolding call write_atomic
is_over n h = ground arith

save-torn_example :
    (is_ok (save drive first_seven none material main before).0 ≡ false)
    × (load drive none main (save drive first_seven none material main before).1.files
        ≡ err (key_mismatch "the key does not belong to the certificate"))
save-torn_example =
    save-torn drive drive-PemLaws first_seven material (3 ∷ []) (9 ∷ []) main before made written
      material-IsMaterial refl refl refl is_made is_written is_over
