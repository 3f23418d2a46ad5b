-- ===== src/Material/Names.antt =====
-- material.rs: the names that may go into a certificate.
use net_tls.Prelude.{
  ℕ, Bool, true, false, not, ◌||◌, List, [], ◌∷◌, ltb, ◌==◌, if◌then◌else◌, is_empty, length, any,
}
use net_tls.Prelude.Text.{Str, codes, same, utf8}
use net_tls.Error.{Result, ok, is_ok, params, ◌>>◌, refuse}
use net_tls.Canonical.{split, is_ascii_uppercase, is_ascii_lowercase, is_ascii_digit, is_control}
use net_tls.Fingerprint.{trim_start, trim_end}

abbrev pub max_valid_days : ℕ
max_valid_days = 397

abbrev pub max_dns_name : ℕ
max_dns_name = 253

abbrev pub max_dns_label : ℕ
max_dns_label = 63

abbrev pub max_common_name : ℕ
max_common_name = 64

-- `c.is_ascii_alphanumeric() || c == '-'`
abbrev pub is_dns_char : ℕ → Bool
is_dns_char c = is_ascii_lowercase c || is_ascii_uppercase c || is_ascii_digit c || c == b'-'

-- `s.starts_with(c)` and `s.ends_with(c)` for a character
abbrev pub begins_with : ℕ → Str → Bool
begins_with c [] = false
begins_with c (x ∷ s) = x == c

abbrev pub ends_with : ℕ → Str → Bool
ends_with c [] = false
ends_with c (x ∷ []) = x == c
ends_with c (x ∷ y ∷ s) = ends_with c (y ∷ s)

-- `name.strip_suffix(c).unwrap_or(name)`
unfoldable pub strip_last : ℕ → Str → Str
strip_last c [] = []
strip_last c (x ∷ []) = if x == c then [] else x ∷ []
strip_last c (x ∷ y ∷ s) = x ∷ strip_last c (y ∷ s)

abbrev pub check_chars : Str → Result (Unit {0})
check_chars label = do
  refuse (begins_with b'-' label || ends_with b'-' label)
      (params "a part starts or ends with a hyphen")
  refuse (any (λ c. not (is_dns_char c)) label) (params "contains an illegal character")

-- One turn of the loop over the labels; the first argument tells the first label.
unfoldable pub check_label : Bool → Str → Result (Unit {0})
check_label is_first label = do
  refuse (is_empty label) (params "an empty part between the dots")
  refuse (ltb max_dns_label (length (utf8 label))) (params "a part is too long")
  elim (same label (codes "*")) [
    | true ↦ refuse (not is_first) (params "a wildcard is only legal as the first part")
    | false ↦ check_chars label
  ]

unfoldable pub check_labels : Bool → List Str → Result (Unit {0})
unfolding check_label
check_labels is_first [] = ok tt
check_labels is_first (label ∷ labels) = do check_label is_first label; check_labels false labels

module _ (is_ip : Str → Bool) where
  unfoldable pub validate_dns : Str → Result (Unit {0})
  unfolding check_labels strip_last
  validate_dns name = do
    refuse (ltb max_dns_name (length (utf8 name))) (params "a DNS name is too long")
    refuse (is_empty (strip_last b'.' name)) (params "consists only of dots")
    check_labels true (split b'.' (strip_last b'.' name) [])

  unfoldable pub validate_san_name : Str → Result (Unit {0})
  unfolding validate_dns
  validate_san_name name = do
    refuse (is_empty name) (params "an empty string")
    if is_ip name then ok tt else validate_dns name

  unfoldable pub validate_sans : List Str → Result (Unit {0})
  validate_sans [] = ok tt
  validate_sans (name ∷ names) = do validate_san_name name; validate_sans names

unfoldable pub validate_common_name : Str → Result (Unit {0})
validate_common_name cn = do
  refuse (is_empty (trim_end (trim_start cn))) (params "common_name is empty")
  refuse (ltb max_common_name (length cn)) (params "common_name is too long")
  refuse (any is_control cn) (params "common_name contains a control character")

-- `is_valid_san`
unfoldable pub is_valid_san : (Str → Bool) → Str → Bool
is_valid_san is_ip name = is_ok (validate_san_name is_ip name)
