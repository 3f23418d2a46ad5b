-- ===== src/Tests/Rules.antt =====
-- Examples of the operator's fingerprints, the modes, the clocks and the policies.
use net_tls.Prelude.{ℕ, ◌≡◌, ◌↔◌, refl, [], ◌∷◌, length}
use net_tls.Prelude.Text.{Str, IsBytes, codes}
use net_tls.Error.{ok}
use net_tls.Fingerprint.{
  parse_fingerprint, body_of, trim_end, trim_start, strip_prefix, nibbles_of, pairs,
}
use net_tls.Fingerprint.Reads.{parse_fingerprint_iff}
use net_tls.Fingerprint.Spells.{IsBehind, Spells, digits_of}
use net_tls.Transport.{aegis256, aes256_gcm, TransportPolicy}
use net_tls.Tests.Toy.{encode, padded}
use net_tls.Tests.Data.{old_der, fp_of}

parses : parse_fingerprint (fp_of old_der) ≡ ok (padded 32 old_der)
unfolding parse_fingerprint encode trim_start trim_end body_of strip_prefix nibbles_of pairs
parses = refl

abbrev pasted : Str
pasted = codes " SHA256:AB:cd "

parse_fingerprint_iff_example : (parse_fingerprint pasted ≡ ok (0xab ∷ 0xcd ∷ [])) ↔ (
    (body : Str) × IsBehind body (trim_end (trim_start pasted))
    × Spells body (digits_of (0xab ∷ 0xcd ∷ []))
    × (length {A = ℕ} (0xab ∷ 0xcd ∷ []) ≡ 32)
    × IsBytes (0xab ∷ 0xcd ∷ []))
parse_fingerprint_iff_example = parse_fingerprint_iff pasted (0xab ∷ 0xcd ∷ [])

abbrev policy : TransportPolicy
policy = record { ciphers = aegis256 ∷ aes256_gcm ∷ [] }
