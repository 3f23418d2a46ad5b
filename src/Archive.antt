-- ===== src/Archive.antt =====
-- announcement.rs, the archive of announcements: one line of JSON for each, oldest first. The file is its
-- text; a write that fails leaves it as it was, but for an empty file that `create` has made.
pub mod Append
use Prim.Native.String.{String}
use net_tls.Prelude.{
  ℕ, suc, ◌≡◌, refl, Bool, true, false, not, Option, none, some, List, [], ◌∷◌, ◌++◌, ◌==◌,
  is_empty, if◌then◌else◌,
}
use net_tls.Prelude.Text.{Str}
use net_tls.Error.{TlsError, Result, ok, err, io, proof}
use net_tls.External.{Libs}
use net_tls.Announcement.{Announcement, AnnouncementJson, to_json, from_json}
use net_tls.Fingerprint.{trim_start, trim_end}

-- serde_json, for one announcement in a line
pub record LineJson : Type 0 where
  pub to_text : AnnouncementJson → Option Str
  pub from_text : Str → Option AnnouncementJson

abbrev pub or_empty : Option Str → Str
or_empty none = []
or_empty (some s) = s

-- `str::lines`: the part of a line read so far, then what is left.
abbrev pub without_cr : Str → Str
without_cr [] = []
without_cr (c ∷ []) = if c == 13 then [] else c ∷ []
without_cr (c ∷ d ∷ s) = c ∷ without_cr (d ∷ s)

unfoldable pub lines_from : Str → Str → List Str
lines_from cur [] = if is_empty cur then [] else cur ∷ []
lines_from cur (c ∷ s) = elim (c == 10) [
  | true ↦ without_cr cur ∷ lines_from [] s
  | false ↦ lines_from (cur ++ (c ∷ [])) s
]

abbrev pub is_ok_some : Result Announcement → Option Announcement
is_ok_some (ok k) = some k
is_ok_some (err e) = none

abbrev pub read_json : Libs → Option AnnouncementJson → Option Announcement
read_json l none = none
read_json l (some j) = is_ok_some (from_json l j)

-- One line: what is read so far, and how many lines were skipped.
abbrev pub put_entry : Option Announcement → List Announcement × ℕ → List Announcement × ℕ
put_entry none (ks, n) = (ks, suc n)
put_entry (some k) (ks, n) = (k ∷ ks, n)

module _ (l : Libs) (j : LineJson) where
  -- `archive`: `opens` and `writes` say which of its calls go well.
  unfoldable pub archive : Bool → Bool → Announcement → Option Str → Result (Unit {0}) × Option Str
  archive opens writes k file = elim (j.to_text (to_json l k)) [
    | none ↦ (err (proof "could not serialize the announcement"), file)
    | some line ↦
        if not opens
        then (err (io "open"), file)
        else if not writes
        then (err (io "write"), some (or_empty file))
        else (ok tt, some (or_empty file ++ (line ++ (10 ∷ []))))
  ]

  unfoldable pub read_lines : List Str → List Announcement × ℕ
  read_lines [] = ([], 0)
  read_lines (s ∷ ss) =
      let rest = read_lines ss in
      if is_empty (trim_end (trim_start s))
      then rest
      else put_entry (read_json l (j.from_text s)) rest

  abbrev pub archive_from : Option Str → List Announcement × ℕ
  archive_from none = ([], 0)
  archive_from (some text) = read_lines (lines_from [] text)

  unfoldable pub read_archive : Option Str → Result (List Announcement × ℕ)
  unfolding read_lines lines_from
  read_archive file = ok (archive_from file)
