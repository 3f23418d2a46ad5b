-- ===== src/Tests/Drive.antt =====
-- A concrete `Host` for the examples: a base64 that counts, a PEM reader of the blocks that it writes, a
-- cipher that hides nothing, and files with the length in front.
use net_tls.Prelude.{
  ℕ, zero, suc, ◌+◌, ◌<◌, ◌≡◌, refl, sym, ap, ◌∙◌, Bool, true, false, not, ◌⊎◌, inl, inr, Option,
  none, some, some-inj, List, [], ◌∷◌, ◌++◌, map, append-nil, append_assoc, arith, length, take,
  drop, ◌==◌, All, take-length_append, drop-length_append,
}
use net_tls.Prelude.Int.{pos}
use net_tls.Prelude.Text.{Bytes, codes, same}
use net_tls.External.{Libs, HexLaws}
use net_tls.Announcement.{to_json}
use net_tls.Host.{Host, PrivateKey, pkcs8, PreviousOnDisk, PendingOnDisk}
use net_tls.Pem.{
  newline, chunk_lines, chunked, encode, certificate_label, private_key_label, certs_pem,
}
use net_tls.Lockbox.RoundTrip.{SealLaws}
use net_tls.Store.RoundTrip.{PemLaws}
use net_tls.Store.Previous.{PreviousLaw}
use net_tls.Tests.Toy.{toy, toy-HexLaws, padded}
use net_tls.Tests.Data.{announcement}

-- `n` letters a, before a text.
abbrev counted : ℕ → Bytes → Bytes
counted zero t = t
counted (suc n) t = 97 ∷ counted n t

abbrev count64 : Bytes → Bytes
count64 [] = []
count64 (b ∷ bs) = counted b (98 ∷ count64 bs)

-- The reader: letters to skip, the count so far, the bytes so far.
unfoldable pub scan : ℕ → ℕ → Bytes → Bytes → List (Option Bytes)
scan n k acc [] = []
scan (suc n) k acc (c ∷ s) = scan n k acc s
scan zero k acc (c ∷ s) = elim (c == 97) [
  | true ↦ scan 0 (suc k) acc s
  | false ↦ elim (c == 98) [
    | true ↦ scan 0 0 (acc ++ (k ∷ [])) s
    | false ↦ elim (c == 10) [ true ↦ scan 0 k acc s | false ↦ some acc ∷ scan 53 0 [] s ]
  ]
]

abbrev first_key : List (Option Bytes) → Option PrivateKey
first_key (some k ∷ _) = some (pkcs8 k)
first_key _ = none

abbrev previous_of_bytes : Bytes → Option PreviousOnDisk
previous_of_bytes [] = none
previous_of_bytes (n ∷ s) = some (record { fingerprint = take n s; pkcs8 = drop n s })

abbrev pub drive_libs : Libs
drive_libs = record toy { pem_slice_iter = scan 28 0 [] }

abbrev pub promise : PendingOnDisk
promise = record {
  announcement = to_json toy announcement;
  new_cert_pem = [];
  waiting_for = [];
  first_announced = pos 100;
}

-- The key of one byte 9 belongs to no certificate.
abbrev belongs : PrivateKey → Bool
belongs (pkcs8 k) = not (same k (9 ∷ []))
belongs _ = true

abbrev pub drive : Host
drive = record {
  libs = drive_libs;
  lockable = λ b. true;
  base64 = count64;
  random = λ len call i. some (padded len []);
  derive_key = λ password salt. some password;
  master_derive = λ key salt. some key;
  seal = λ dk plain. some plain;
  open_sealed = λ dk blob. some blob;
  key_from_pem = λ text. first_key (scan 28 0 [] text);
  certified = λ chain key. belongs key;
  x509_info = λ der.
      some
        (record { not_before = pos 0; not_after = pos 1000; subject = codes "toy"; names = none });
  is_ip = λ text. false;
  ip_text = λ b. b;
  self_sign = λ params call. some (2 ∷ 1 ∷ [], 3 ∷ []);
  previous_to_json = λ d. some (length d.fingerprint ∷ (d.fingerprint ++ d.pkcs8));
  previous_from_json = previous_of_bytes;
  pending_to_json = λ d. some [];
  pending_from_json = λ b. some promise;
}

IsLetter : ℕ → Type 0
IsLetter c = (c ≡ 97) ⊎ (c ≡ 98)

counted-All : (n : ℕ) (t : Bytes) → All IsLetter t → All IsLetter (counted n t)
unfolding IsLetter
counted-All zero t h = h
counted-All (suc n) t h = (inl refl, counted-All n t h)

count64-All : (b : Bytes) → All IsLetter (count64 b)
unfolding IsLetter
count64-All [] = tt
count64-All (b ∷ bs) = counted-All b (98 ∷ count64 bs) (inr refl, count64-All bs)

letters-below : (s : Bytes) → All IsLetter s → All (λ c. c < 128) s
unfolding IsLetter
letters-below [] h = tt
letters-below (c ∷ s) (p, h) = (ground (arith, p), letters-below s h)

letters-no_hyphen : (s : Bytes) → All IsLetter s → All (λ c. (45 == c) ≡ false) s
unfolding IsLetter
letters-no_hyphen [] h = tt
letters-no_hyphen (c ∷ s) (p, h) = (ground (arith, p), letters-no_hyphen s h)

-- The lines are read as the letters in them.
scan-lines :
    (room k : ℕ) (acc s r : Bytes)
    → All IsLetter s
    → scan 0 k acc (chunk_lines room s ++ r) ≡ scan 0 k acc (s ++ r)
unfolding scan chunk_lines IsLetter
scan-lines room k acc [] r h = refl
scan-lines zero k acc (c ∷ s) r (inl e, h) = rw e (scan-lines 63 (suc k) acc s r h)
scan-lines zero k acc (c ∷ s) r (inr e, h) = rw e (scan-lines 63 0 (acc ++ (k ∷ [])) s r h)
scan-lines (suc room) k acc (c ∷ s) r (inl e, h) = rw e (scan-lines room (suc k) acc s r h)
scan-lines (suc room) k acc (c ∷ s) r (inr e, h) = rw e (scan-lines room 0 (acc ++ (k ∷ [])) s r h)

scan-chunked :
    (acc s r : Bytes) → All IsLetter s → scan 0 0 acc (chunked s ++ r) ≡ scan 0 0 acc (s ++ r)
scan-chunked acc [] r h = refl
scan-chunked acc (c ∷ s) r h = scan-lines 64 0 acc (c ∷ s) r h

scan-counted :
    (n k : ℕ) (acc t r : Bytes) → scan 0 k acc (counted n t ++ r) ≡ scan 0 (n + k) acc (t ++ r)
unfolding scan
scan-counted zero k acc t r = let e : k ≡ 0 + k = omega arith in ap (λ x. scan 0 x acc (t ++ r)) e
scan-counted (suc n) k acc t r =
    let e : n + suc k ≡ suc n + k = omega arith in
    scan-counted n (suc k) acc t r ∙ ap (λ x. scan 0 x acc (t ++ r)) e

scan-count64 : (b acc r : Bytes) → scan 0 0 acc (count64 b ++ r) ≡ scan 0 0 (acc ++ b) r
unfolding scan
scan-count64 [] acc r = ap (λ x. scan 0 0 x r) (sym (append-nil acc))
scan-count64 (b ∷ bs) acc r =
    let e : b + 0 ≡ b = omega arith in
    scan-counted b 0 acc (98 ∷ count64 bs) r
    ∙ ap (λ x. scan 0 0 (acc ++ (x ∷ [])) (count64 bs ++ r)) e
    ∙ scan-count64 bs (acc ++ (b ∷ [])) r
    ∙ ap (λ x. scan 0 0 x r) (append_assoc acc (b ∷ []) bs)

scan-certificate :
    (c r : Bytes) → scan 28 0 [] (encode drive certificate_label c ++ r) ≡ some c ∷ scan 28 0 [] r
unfolding scan encode
scan-certificate c r =
    ap (scan 0 0 []) (append_assoc (chunked (count64 c)) (codes "-----END CERTIFICATE-----\n") r)
    ∙ scan-chunked [] (count64 c) (codes "-----END CERTIFICATE-----\n" ++ r) (count64-All c)
    ∙ scan-count64 c [] (codes "-----END CERTIFICATE-----\n" ++ r)

scan-certs :
    (chain : List Bytes) (r : Bytes)
    → scan 28 0 [] r ≡ []
    → scan 28 0 [] (certs_pem drive chain ++ r) ≡ map some chain
unfolding certs_pem
scan-certs [] r h = h
scan-certs (c ∷ cs) r h =
    ap (scan 28 0 []) (append_assoc (encode drive certificate_label c) (certs_pem drive cs) r)
    ∙ scan-certificate c (certs_pem drive cs ++ r)
    ∙ ap (◌∷◌ (some c)) (scan-certs cs r h)

scan-key : (k : Bytes) → scan 28 0 [] (encode drive private_key_label k) ≡ some k ∷ []
unfolding scan encode
scan-key k =
    scan-chunked [] (count64 k) (codes "-----END PRIVATE KEY-----\n") (count64-All k)
    ∙ scan-count64 k [] (codes "-----END PRIVATE KEY-----\n")

nothing_left : scan 28 0 [] [] ≡ []
unfolding scan
nothing_left = refl

newline_left : scan 28 0 [] newline ≡ []
unfolding scan
newline_left = refl

pub drive-PemLaws : PemLaws drive
drive-PemLaws = record {
  base64_chars = λ b. letters-no_hyphen (count64 b) (count64-All b);
  base64_ascii = λ b. letters-below (count64 b) (count64-All b);
  reads_certs = λ chain.
      ap (scan 28 0 []) (sym (append-nil (certs_pem drive chain)))
      ∙ scan-certs chain [] nothing_left;
  reads_certs_line = λ chain. scan-certs chain newline newline_left;
  reads_key = λ k. ap first_key (scan-key k);
}

pub drive-SealLaws : SealLaws drive
drive-SealLaws = record {
  salt_size = λ call i salt e. ap length (sym (some-inj e));
  opens = λ dk plain blob e. sym e;
}

pub drive-PreviousLaw : PreviousLaw drive
drive-PreviousLaw d b e =
    ap previous_of_bytes (sym (some-inj e))
    ∙ rw (take-length_append d.fingerprint d.pkcs8, drop-length_append d.fingerprint d.pkcs8) refl

pub drive-HexLaws : HexLaws drive_libs
drive-HexLaws = record {
  length-encode = toy-HexLaws.length-encode;
  decode-encode = toy-HexLaws.decode-encode;
  encode-decode = toy-HexLaws.encode-decode;
}
