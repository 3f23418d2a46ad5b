-- ===== src/Fingerprint/Reads.antt =====
-- What `parse_fingerprint` returns, and which spellings of a fingerprint it reads.
use net_tls.Prelude.{
  ◌≡◌, ◌↔◌, refl, sym, ap, ◌∙◌, subst, Bool, true, false, not, ◌==◌, ==_iff, arith, length,
}
use net_tls.Prelude.Text.{Str, Bytes, IsBytes}
use net_tls.Error.{ok, ok-inj, refuse, >>=-eq-ok, >>-eq-ok, refuse-eq-ok}
use net_tls.Fingerprint.{trim_start, trim_end, body_of, nibbles_of, parse_fingerprint}
use net_tls.Fingerprint.Spells.{
  IsBehind, Spells, digits_of, body_of-IsBehind, IsBehind-body_of, nibbles_of-Spells,
  Spells-nibbles_of, Spells-bound, pairs-Bytes, pairs-digits_of, length-digits_of,
}

of_not : (b : Bool) → not b ≡ false → b ≡ true
of_not b h = ground arith

-- `parse_fingerprint` reads exactly the texts that, trimmed and without the prefix `sha256:`, `SHA256:` or
-- `sha256-`, spell the digits of 32 bytes, the high digit of each first and in either case, with any
-- separators (colons, blanks, dashes, ends of lines, tabs) between them; the result is these bytes.
pub parse_fingerprint_iff :
    (s : Str) (b : Bytes)
    → (parse_fingerprint s ≡ ok b) ↔ (
        (body : Str) × IsBehind body (trim_end (trim_start s))
        × Spells body (digits_of b)
        × (length b ≡ 32)
        × IsBytes b)
unfolding parse_fingerprint
parse_fingerprint_iff s b = (to, from)
  where
    to :
        parse_fingerprint s ≡ ok b
        → (body : Str) × IsBehind body (trim_end (trim_start s))
          × Spells body (digits_of b)
          × (length b ≡ 32)
          × IsBytes b
    to h =
        let body : Str = body_of (trim_end (trim_start s)) in
        let (ns, h₁, k₁) = >>=-eq-ok (nibbles_of body) _ h in
        let (h₂, k₂) = >>-eq-ok (refuse (not (length ns == 64)) _) _ k₁ in
        let size : length ns ≡ 64 =
          (==_iff (length ns) 64).0 (of_not (length ns == 64) (refuse-eq-ok _ _ h₂)) in
        let spelt : Spells body ns = nibbles_of-Spells body ns h₁ in
        let (digits, len, bytes) = pairs-Bytes ns 32 size (Spells-bound spelt) in
        (
          body,
          body_of-IsBehind (trim_end (trim_start s)),
          subst (λ p. Spells body (digits_of p)) (ok-inj k₂)
              (subst (Spells body) (sym digits) spelt),
          ap length (sym (ok-inj k₂)) ∙ len,
          subst IsBytes (ok-inj k₂) bytes,
        )

    from :
        (body : Str) × IsBehind body (trim_end (trim_start s))
          × Spells body (digits_of b)
          × (length b ≡ 32)
          × IsBytes b
        → parse_fingerprint s ≡ ok b
    from (body, behind, spelt, len, bytes) =
        let size : length (digits_of b) ≡ 64 = omega (arith, length-digits_of b, len) in
        rw
          (
            IsBehind-body_of body (trim_end (trim_start s)) behind,
            Spells-nibbles_of spelt,
            size,
            pairs-digits_of b,
          )
          refl
