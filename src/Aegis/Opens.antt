-- ===== src/Aegis/Opens.antt =====
-- Which records are opened.
use net_tls.Prelude.{
  ℕ, zero, suc, ◌-◌, ◌≡◌, ◌↔◌, refl, sym, ap, ◌∙◌, false, Option, none, some, [], ◌∷◌, ◌++◌, arith,
  ltb, length, take, drop, Bool-cases, inl, inr,
}
use net_tls.Prelude.Text.{Bytes}
use net_tls.Aegis.{
  RecordLayer, RecordKey, Message, opened, nonce32, decrypt, tag_len, decrypted, unpadded,
}
use net_tls.Aegis.Records.{apart, length-drop}

take-append-drop : (n : ℕ) (xs : Bytes) → take n xs ++ drop n xs ≡ xs
take-append-drop zero xs = refl
take-append-drop (suc n) [] = refl
take-append-drop (suc n) (x ∷ xs) = ap (◌∷◌ x) (take-append-drop n xs)

opened-inj : {m n : Message} → opened m ≡ opened n → m ≡ n
opened-inj h = cc

module _ (r : RecordLayer) (k : RecordKey) (msg : Message) (seq : ℕ) (m : Message) where
  decrypted-opened :
      (o : Option Bytes)
      → decrypted r msg o ≡ opened m
      → (plain : Bytes) × (o ≡ some plain)
        × (r.into_tls13_unpadded_message (record msg { payload = plain }) ≡ some m)
  decrypted-opened none h = cc
  decrypted-opened (some plain) h =
      (plain, refl, inner (r.into_tls13_unpadded_message (record msg { payload = plain })) h)
    where
      inner : (o : Option Message) → unpadded r o ≡ opened m → o ≡ some m
      inner none h = cc
      inner (some n) h = ap some (opened-inj h)

  -- A record is opened exactly if it is encrypted bytes with a tag of 16 bytes behind them, which the
  -- cipher opens under the key, the nonce of this number and the length of the record, and the record
  -- layer reads what was inside.
  pub decrypt_iff : (decrypt r k msg seq ≡ opened m) ↔ (
      (ct : Bytes) × (tag : Bytes) × (plain : Bytes) × (msg.payload ≡ ct ++ tag)
      × (length tag ≡ 16)
      × (r.decrypt_in_place k.key
            (nonce32 r k.iv seq)
            (r.make_tls13_aad (length msg.payload))
            ct
            tag
          ≡ some plain)
      × (r.into_tls13_unpadded_message (record msg { payload = plain }) ≡ some m))
  unfolding decrypt
  decrypt_iff = (to, from)
    where
      to :
          decrypt r k msg seq ≡ opened m
          → (ct : Bytes) × (tag : Bytes) × (plain : Bytes) × (msg.payload ≡ ct ++ tag)
            × (length tag ≡ 16)
            × (r.decrypt_in_place k.key
                  (nonce32 r k.iv seq)
                  (r.make_tls13_aad (length msg.payload))
                  ct
                  tag
                ≡ some plain)
            × (r.into_tls13_unpadded_message (record msg { payload = plain }) ≡ some m)
      to h = elim (Bool-cases (ltb (length msg.payload) tag_len)) [
        | inl short ↦ absurd (ground (arith, h, short))
        | inr long ↦
            let ct : Bytes = take (length msg.payload - tag_len) msg.payload in
            let tag : Bytes = drop (length msg.payload - tag_len) msg.payload in
            let size : length tag ≡ 16 =
              length-drop (length msg.payload - tag_len) msg.payload ∙ ground (arith, long) in
            let (plain, e, u) = decrypted-opened _ (rw (long, size) at h) in
            (
              ct,
              tag,
              plain,
              sym (take-append-drop (length msg.payload - tag_len) msg.payload),
              size,
              e,
              u,
            )
      ]

      from :
          ((ct : Bytes) × (tag : Bytes) × (plain : Bytes) × (msg.payload ≡ ct ++ tag)
            × (length tag ≡ 16)
            × (r.decrypt_in_place k.key
                  (nonce32 r k.iv seq)
                  (r.make_tls13_aad (length msg.payload))
                  ct
                  tag
                ≡ some plain)
            × (r.into_tls13_unpadded_message (record msg { payload = plain }) ≡ some m))
          → decrypt r k msg seq ≡ opened m
      from (ct, tag, plain, whole, size, e, u) =
          let (long, front, back) = apart ct tag size in
          let long' : ltb (length msg.payload) tag_len ≡ false = rw whole long in
          let front' : take (length msg.payload - tag_len) msg.payload ≡ ct = rw whole front in
          let back' : drop (length msg.payload - tag_len) msg.payload ≡ tag = rw whole back in
          rw (long', front', back', size, e, u) refl
