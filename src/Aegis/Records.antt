-- ===== src/Aegis/Records.antt =====
-- What a record costs, which records are opened, and that no nonce is used twice.
use net_tls.Prelude.{
  ℕ, zero, suc, ◌-◌, ◌^◌, ◌<◌, ◌≤◌, ◌≡◌, ◌≢◌, ap, ◌∙◌, false, some, [], ◌∷◌, ◌++◌, arith, ltb,
  length, take, drop, length-append, take-length_append, drop-length_append,
}
use net_tls.Prelude.Text.{Bytes}
use net_tls.Aegis.{RecordLayer, tag_len}

-- The record layer gives 12 bytes of nonce, another for each record; the cipher keeps the length, has a
-- tag of 16 bytes, and opens what it sealed; of an opened record the last byte is the content type.
pub record RecordLaws (r : RecordLayer) : Type 0 where
  pub nonce_size : (iv : Bytes) (seq : ℕ) → length (r.nonce_new iv seq) ≡ 12
  pub nonce_fresh :
      (iv : Bytes) (seq other : ℕ)
      → seq < 2 ^ 64
      → other < 2 ^ 64
      → r.nonce_new iv seq ≡ r.nonce_new iv other
      → seq ≡ other
  pub cipher_size : (k n aad p : Bytes) → length (r.encrypt_in_place k n aad p).0 ≡ length p
  pub tag_size : (k n aad p : Bytes) → length (r.encrypt_in_place k n aad p).1 ≡ 16
  pub opens :
      (k n aad p : Bytes)
      → r.decrypt_in_place k n aad (r.encrypt_in_place k n aad p).0 (r.encrypt_in_place k n aad p).1
        ≡ some p
  pub unpads :
      (typ version t : ℕ) (content : Bytes)
      → t ≢ 0
      → length content ≤ 2 ^ 14
      → r.into_tls13_unpadded_message
          (record { typ = typ; version = version; payload = content ++ (t ∷ []) })
        ≡ some (record { typ = t; version = version; payload = content })

pub length-drop : (n : ℕ) (xs : Bytes) → length (drop n xs) ≡ length xs - n
length-drop zero xs = omega arith
length-drop (suc n) [] = omega arith
length-drop (suc n) (x ∷ xs) = omega (arith, length-drop n xs)

-- Facts about an encrypted payload, taken apart again.
pub apart :
    (ct tag : Bytes)
    → length tag ≡ 16
    → (ltb (length (ct ++ tag)) tag_len ≡ false)
      × (take (length (ct ++ tag) - tag_len) (ct ++ tag) ≡ ct)
      × (drop (length (ct ++ tag) - tag_len) (ct ++ tag) ≡ tag)
apart ct tag e =
    let size : length (ct ++ tag) - tag_len ≡ length ct = omega (arith, length-append ct tag) in
    (
      ground (arith, length-append ct tag),
      ap (λ n. take n (ct ++ tag)) size ∙ take-length_append ct tag,
      ap (λ n. drop n (ct ++ tag)) size ∙ drop-length_append ct tag,
    )
