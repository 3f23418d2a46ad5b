-- ===== src/Archive/Append.antt =====
-- An archived announcement is read back behind the older ones.
use net_tls.Prelude.{
  ℕ, ◌≡◌, refl, sym, ap, ◌∙◌, Bool, true, false, not, ◌||◌, Option, none, some, List, [], ◌∷◌, ◌++◌,
  append-nil, append_assoc, arith, ◌==◌, is_empty, any, Bool-cases, Option-cases, inl, inr,
}
use net_tls.Prelude.Text.{Str}
use net_tls.Error.{ok, ok-inj}
use net_tls.External.{Libs, HexLaws}
use net_tls.Announcement.{Announcement, AnnouncementJson, to_json}
use net_tls.Announcement.Wire.{IsWire, from_json-to_json}
use net_tls.Fingerprint.{trim_start, trim_end}
use net_tls.Archive.{
  LineJson, or_empty, without_cr, lines_from, read_json, is_ok_some, put_entry, archive, read_lines,
  archive_from, read_archive,
}

-- Every line of the text is ended.
abbrev pub is_complete : Str → Bool
is_complete [] = true
is_complete (c ∷ []) = c == 10
is_complete (c ∷ d ∷ s) = is_complete (d ∷ s)

lines_from-end :
    (cur : Str) (c : ℕ) (s : Str)
    → (c == 10) ≡ true
    → lines_from cur (c ∷ s) ≡ without_cr cur ∷ lines_from [] s
unfolding lines_from
lines_from-end cur c s e = ground (arith, e)

lines_from-more :
    (cur : Str) (c : ℕ) (s : Str)
    → (c == 10) ≡ false
    → lines_from cur (c ∷ s) ≡ lines_from (cur ++ (c ∷ [])) s
unfolding lines_from
lines_from-more cur c s e = ground (arith, e)

-- Behind complete text the lines go on.
lines_from-append :
    (cur s t : Str)
    → is_complete s ≡ true
    → (is_empty cur || not (is_empty s)) ≡ true
    → lines_from cur (s ++ t) ≡ lines_from cur s ++ lines_from [] t
unfolding lines_from
lines_from-append [] [] t h k = refl
lines_from-append (c ∷ cur) [] t h k = cc
lines_from-append cur (c ∷ []) t h k = ground (arith, h)
lines_from-append cur (c ∷ d ∷ s) t h k = elim (Bool-cases (c == 10)) [
  | inl e ↦
      lines_from-end cur c (d ∷ (s ++ t)) e
      ∙ (ap (◌∷◌ (without_cr cur)) (lines_from-append [] (d ∷ s) t h refl)
          ∙ ap (λ x. x ++ lines_from [] t) (sym (lines_from-end cur c (d ∷ s) e)))
  | inr e ↦
      lines_from-more cur c (d ∷ (s ++ t)) e
      ∙ (lines_from-append (cur ++ (c ∷ [])) (d ∷ s) t h (ground arith)
          ∙ ap (λ x. x ++ lines_from [] t) (sym (lines_from-more cur c (d ∷ s) e)))
]

-- A line is text without an end of line in it.
abbrev pub IsLine : Str → Type 0
IsLine s = (any (λ c. c == 10) s ≡ false) × (any (λ c. c == 13) s ≡ false)

without_cr-line : (s : Str) → any (λ c. c == 13) s ≡ false → without_cr s ≡ s
without_cr-line [] h = refl
without_cr-line (c ∷ []) h = ground (arith, h)
without_cr-line (c ∷ d ∷ s) h = ap (◌∷◌ c) (without_cr-line (d ∷ s) (ground (arith, h)))

lines_from-line :
    (cur s : Str)
    → any (λ c. c == 10) s ≡ false
    → lines_from cur (s ++ (10 ∷ [])) ≡ without_cr (cur ++ s) ∷ []
unfolding lines_from
lines_from-line cur [] h = ap (λ x. without_cr x ∷ []) (sym (append-nil cur))
lines_from-line cur (c ∷ s) h =
    let e : (c == 10) ≡ false = ground (arith, h) in
    lines_from-more cur c (s ++ (10 ∷ [])) e
    ∙ (lines_from-line (cur ++ (c ∷ [])) s (ground (arith, h))
        ∙ ap (λ x. without_cr x ∷ []) (append_assoc cur (c ∷ []) s))

-- `serde_json` writes this announcement in one line that is not blank, and reads it again.
pub record LineLaws (j : LineJson) (a : AnnouncementJson) : Type 0 where
  pub is_line : (line : Str) → j.to_text a ≡ some line → IsLine line
  pub not_blank :
      (line : Str) → j.to_text a ≡ some line → is_empty (trim_end (trim_start line)) ≡ false
  pub reads : (line : Str) → j.to_text a ≡ some line → j.from_text line ≡ some a

abbrev pub with_last : Announcement → List Announcement × ℕ → List Announcement × ℕ
with_last k (ks, n) = (ks ++ (k ∷ []), n)

put_entry-with_last :
    (o : Option Announcement) (k : Announcement) (r : List Announcement × ℕ)
    → put_entry o (with_last k r) ≡ with_last k (put_entry o r)
put_entry-with_last none k (ks, n) = refl
put_entry-with_last (some a) k (ks, n) = refl

module _ (l : Libs) (j : LineJson) where
  read_lines-last :
      (ss : List Str) (line : Str) (k : Announcement)
      → is_empty (trim_end (trim_start line)) ≡ false
      → read_json l (j.from_text line) ≡ some k
      → read_lines l j (ss ++ (line ∷ [])) ≡ with_last k (read_lines l j ss)
  unfolding read_lines
  read_lines-last [] line k h e = rw (h, e) refl
  read_lines-last (s ∷ ss) line k h e = elim (Bool-cases (is_empty (trim_end (trim_start s)))) [
    | inl b ↦ rw b (read_lines-last ss line k h e)
    | inr b ↦ rw b (
        ap (put_entry (read_json l (j.from_text s))) (read_lines-last ss line k h e)
        ∙ put_entry-with_last (read_json l (j.from_text s)) k (read_lines l j ss))
  ]

  module _ (hex : HexLaws l) where
    -- An announcement that may travel, archived behind complete lines, is read back as the last one: the
    -- older ones, their order and the number of lines that were skipped stay as they were.
    pub read_archive-archive :
        (opens writes : Bool) (k : Announcement) (file file' : Option Str) (ks : List Announcement)
        (n : ℕ)
        → IsWire k
        → LineLaws j (to_json l k)
        → is_complete (or_empty file) ≡ true
        → read_archive l j file ≡ ok (ks, n)
        → archive l j opens writes k file ≡ (ok tt, file')
        → read_archive l j file' ≡ ok (ks ++ (k ∷ []), n)
    unfolding archive read_archive
    read_archive-archive opens writes k file file' ks n wire laws complete before e =
        elim (Option-cases (j.to_text (to_json l k))) [
          | inl none_e ↦ absurd (ground (arith, e))
          | inr (line, some_e) ↦
              let grown : file' ≡ some (or_empty file ++ (line ++ (10 ∷ []))) = ground (arith, e) in
              let (no_end, no_cr) = laws.is_line line some_e in
              let last : lines_from [] (or_empty file ++ (line ++ (10 ∷ [])))
                  ≡ lines_from [] (or_empty file) ++ (line ∷ []) =
                lines_from-append [] (or_empty file) (line ++ (10 ∷ [])) complete refl
                ∙ ap (λ x. lines_from [] (or_empty file) ++ x)
                    (lines_from-line [] line no_end
                      ∙ ap (λ x. x ∷ []) (without_cr-line line no_cr)) in
              let reads : read_json l (j.from_text line) ≡ some k =
                ap (read_json l) (laws.reads line some_e)
                ∙ ap is_ok_some (from_json-to_json l hex k wire) in
              ap (λ f. ok (archive_from l j f)) grown
              ∙ ap (λ x. ok (read_lines l j x)) last
              ∙ ap ok (
                  read_lines-last (lines_from [] (or_empty file)) line k
                    (laws.not_blank line some_e) reads)
              ∙ ap (λ r. ok (with_last k r)) (old file before)
        ]
      where
        old :
            (f : Option Str)
            → read_archive l j f ≡ ok (ks, n)
            → read_lines l j (lines_from [] (or_empty f)) ≡ (ks, n)
        old none b = ok-inj b
        old (some text) b = ok-inj b
