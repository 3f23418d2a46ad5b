-- ===== src/Disk.antt =====
-- The file system as announcer.rs, material.rs and pem.rs use it. A file is there with its bytes or is
-- not; a call that changes something may fail and then changes nothing; a file that is there can be
-- read. Permissions and the flush to the disk are calls that change no bytes.
pub mod Effects
use Prim.Native.String.{String}
use net_tls.Prelude.{
  ℕ, suc, ◌≡◌, refl, Bool, true, false, ◌&&◌, ◌||◌, Option, none, some, List, [], if◌then◌else◌,
}
use net_tls.Prelude.Text.{Str, Bytes, codes, same}
use net_tls.Error.{TlsError, Result, ok, err, io}

-- The directory of the announcer, its `new`, and the `.tmp-material` of a directory.
pub data Dir : Type 0 where
  main new_dir : Dir
  staging : Dir → Dir

pub record FilePath : Type 0 where
  pub dir : Dir
  pub stem : Str
  pub extension : Str

abbrev pub same_dir : Dir → Dir → Bool
same_dir main main = true
same_dir new_dir new_dir = true
same_dir (staging d) (staging e) = same_dir d e
same_dir _ _ = false

abbrev pub is_at : FilePath → FilePath → Bool
is_at p q = same p.stem q.stem && (same p.extension q.extension && same_dir p.dir q.dir)

-- `path.with_extension("tmp")`
abbrev pub tmp_of : FilePath → FilePath
tmp_of p = record p { extension = codes "tmp" }

abbrev pub Files : Type 0
Files = FilePath → Option Bytes

abbrev pub put : FilePath → Option Bytes → Files → Files
put p content files q = if is_at p q then content else files q

-- `fs::rename`
abbrev pub renamed : FilePath → FilePath → Files → Files
renamed p q files = put p none (put q (files p) files)

abbrev pub is_under : Dir → Dir → Bool
is_under top d = same_dir top d || same_dir (staging top) d

abbrev pub without : Dir → Files → Files
without top files q = if is_under top q.dir then none else files q

-- What is left of a process's surroundings: the files, and the number of the next call of the operating
-- system (the file system, the random source).
pub record Machine : Type 0 where
  pub files : Files
  pub calls : ℕ

-- A function with `&self` on a state of its own: what it changed stays changed when it fails.
abbrev pub Action {ℓ κ} : Type ℓ → Type κ → Type (ℓ ⊔ κ)
Action S A = S → Result A × S

abbrev pub carry_on {ℓ κ μ} :
    {S : Type ℓ} {A : Type κ} {B : Type μ} → (A → Action S B) → Result A × S → Result B × S
carry_on rest (ok a, s) = rest a s
carry_on rest (err e, s) = (err e, s)

infixl 5 ◌>>=◌ ◌>>◌
abbrev pub ◌>>=◌ {ℓ κ μ} :
    {S : Type ℓ} {A : Type κ} {B : Type μ} → Action S A → (A → Action S B) → Action S B
(m >>= rest) s = carry_on rest (m s)

abbrev pub ◌>>◌ {ℓ μ} : {S : Type ℓ} {B : Type μ} → Action S (Unit {0}) → Action S B → Action S B
m >> rest = m >>= λ _. rest

-- A result that depends on no state, a look at the state, and a change of it.
abbrev pub lift {ℓ κ} : {S : Type ℓ} {A : Type κ} → Result A → Action S A
lift r s = (r, s)

abbrev pub look {ℓ κ} : {S : Type ℓ} {A : Type κ} → (S → A) → Action S A
look f s = (ok (f s), s)

abbrev pub change {ℓ} : {S : Type ℓ} → (S → S) → Action S (Unit {0})
change f s = (ok tt, f s)

-- `let _ = …`
abbrev pub ignoring {ℓ κ} : {S : Type ℓ} {A : Type κ} → Action S A → Action S (Unit {0})
ignoring m s = (ok tt, (m s).1)

-- `let res = body; cleanup; res?`
abbrev pub in_the_end {ℓ κ} :
    {S : Type ℓ} {A : Type κ} → Action S A → Action S (Unit {0}) → Action S A
in_the_end body cleanup s = ((body s).0, (cleanup (body s).1).1)

abbrev pub counted : Action Machine ℕ
counted s = (ok s.calls, record s { calls = suc s.calls })

-- `works n`: does the n-th call go well?
module _ (works : ℕ → Bool) where
  unfoldable pub call : String → (Files → Files) → Action Machine (Unit {0})
  call what f s =
      if works s.calls
      then (ok tt, record { files = f s.files; calls = suc s.calls })
      else (err (io what), record s { calls = suc s.calls })

  -- `Announcer::skriv_atomisk`: create, permissions, write, flush, rename.
  unfoldable pub skriv_atomisk : FilePath → Bytes → Action Machine (Unit {0})
  skriv_atomisk path bytes = do
    call "create" (put (tmp_of path) (some []))
    call "set_permissions" (λ files. files)
    call "write_all" (put (tmp_of path) (some bytes))
    call "sync_all" (λ files. files)
    call "rename" (renamed (tmp_of path) path)

  -- `pem::write_atomic`, which also clears what an interrupted write has left.
  unfoldable pub write_atomic : FilePath → Bytes → Action Machine (Unit {0})
  write_atomic path bytes = do
    ignoring (call "remove" (put (tmp_of path) none))
    call "create" (put (tmp_of path) (some []))
    call "set_permissions" (λ files. files)
    call "write_all" (put (tmp_of path) (some bytes))
    call "sync_all" (λ files. files)
    call "rename" (renamed (tmp_of path) path)

  unfoldable pub remove_dir_all : Dir → Action Machine (Unit {0})
  remove_dir_all top = call "remove_dir_all" (without top)
