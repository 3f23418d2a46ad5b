-- ===== src/Schedule/Draw.antt =====
-- The draw of the next rotation: its bounds, that it ends, and that it favours no moment.
use net_tls.Prelude.{
  ℕ, zero, suc, ◌+◌, ◌*◌, ◌/◌, ◌%◌, ◌^◌, ◌≤◌, ◌<◌, ◌≡◌, ◌↔◌, inl, inr, refl, ap, ◌∙◌, true, false,
  Option, some, arith, ltb, ◌==◌, ==_iff, Option-cases, Bool-cases,
}
use net_tls.Prelude.Int.{
  ℤ, pos, pos_part, neg_part, IsMoment, ◌+ℤ◌, ◌-ℤ◌, +ℤ_parts, -ℤ_parts, size_of_parts, ◌≤ℤ◌, ◌<ℤ◌,
}
use net_tls.Prelude.Text.{Bytes}
use net_tls.Error.{ok, >>=-eq-ok, ok-inj}
use net_tls.Schedule.{grense, from_le_bytes, draw, tilfeldig_under, draw_roll_time}

-- How many moments a rotation is drawn from: four days of seconds.
abbrev pub span : ℕ
span = 345600

moved :
    (issued t : ℤ) (x : ℕ)
    → IsMoment issued
    → x < span
    → issued +ℤ pos 604800 +ℤ (pos x -ℤ pos 172800) ≡ t
    → (issued +ℤ pos (5 * 86400) ≤ℤ t) × (t <ℤ issued +ℤ pos (9 * 86400))
moved issued t x m b e =
    let p₁ = +ℤ_parts issued (pos 604800) (omega arith) (omega arith) in
    let p₂ = -ℤ_parts (pos x) (pos 172800) (omega arith) (omega arith) in
    let s₁ =
      size_of_parts (issued +ℤ pos 604800) (pos_part issued + 604800) (neg_part issued) (2 ^ 61)
        (omega arith) (omega arith) (omega arith) in
    let s₂ =
      size_of_parts (pos x -ℤ pos 172800) x 172800 (2 ^ 61) (omega arith) (omega arith)
        (omega arith) in
    let p₃ = +ℤ_parts (issued +ℤ pos 604800) (pos x -ℤ pos 172800) s₁ s₂ in
    let p₄ = +ℤ_parts issued (pos (5 * 86400)) (omega arith) (omega arith) in
    let p₅ = +ℤ_parts issued (pos (9 * 86400)) (omega arith) (omega arith) in
    rw (← e) (omega arith, omega arith)

module _ (random_bytes : ℕ → Option Bytes) where
  draw-bound : (n i x : ℕ) → draw random_bytes n i span ≡ ok x → x < span
  unfolding draw
  draw-bound zero i x h = cc
  draw-bound (suc n) i x h = elim (Option-cases (random_bytes i)) [
    | inl e ↦ ground (arith, e)
    | inr (b, e) ↦ elim (Bool-cases (ltb (from_le_bytes b) (grense span))) [
      | inl k ↦ ground (arith, e, k)
      | inr k ↦ draw-bound n (suc i) x (ground (arith, e, k))
    ]
  ]

  -- A rotation is drawn at least five days and less than nine days after the moment it counts from.
  pub draw_roll_time-bounds :
      (issued t : ℤ)
      → IsMoment issued
      → draw_roll_time random_bytes issued ≡ ok t
      → (issued +ℤ pos (5 * 86400) ≤ℤ t) × (t <ℤ issued +ℤ pos (9 * 86400))
  unfolding draw_roll_time tilfeldig_under
  draw_roll_time-bounds issued t m h =
      let (x, h₁, k₁) = >>=-eq-ok (draw random_bytes 64 0 span) _ h in
      let bound = draw-bound 64 0 x h₁ in
      let e : issued +ℤ pos 604800 +ℤ (pos x -ℤ pos 172800) ≡ t = ok-inj k₁ in
      moved issued t x m bound e

  -- The i-th call gives a number below the limit, and the calls from the first to it give a number.
  pub record IsDrawn (first i : ℕ) (b : Bytes) : Type 0 where
    pub reads : random_bytes i ≡ some b
    pub below : ltb (from_le_bytes b) (grense span) ≡ true
    pub earlier : (j : ℕ) → first ≤ j → j < i → (c : Bytes) × (random_bytes j ≡ some c)

  draw_hit :
      (n i : ℕ) (b : Bytes)
      → random_bytes i ≡ some b
      → ltb (from_le_bytes b) (grense span) ≡ true
      → draw random_bytes (suc n) i span ≡ ok (from_le_bytes b % span)
  unfolding draw
  draw_hit n i b r k = ground (arith, r, k)

  draw_miss :
      (n i : ℕ) (b : Bytes)
      → random_bytes i ≡ some b
      → ltb (from_le_bytes b) (grense span) ≡ false
      → draw random_bytes (suc n) i span ≡ draw random_bytes n (suc i) span
  unfolding draw
  draw_miss n i b r k = ground (arith, r, k)

  draw-drawn :
      (n first i : ℕ) (b : Bytes)
      → first ≤ i
      → i < first + n
      → IsDrawn first i b
      → (x : ℕ) × (draw random_bytes n first span ≡ ok x)
  draw-drawn zero first i b p q d = absurd (omega arith)
  draw-drawn (suc n) first i b p q d = elim (Bool-cases (first == i)) [
    | inl e ↦
        let r : random_bytes first ≡ some b = ap random_bytes ((==_iff first i).0 e) ∙ d.reads in
        (from_le_bytes b % span, draw_hit n first b r d.below)
    | inr e ↦
        let (c, k) = d.earlier first (omega arith) (ground arith) in
        elim (Bool-cases (ltb (from_le_bytes c) (grense span))) [
          | inl m ↦ (from_le_bytes c % span, draw_hit n first c k m)
          | inr m ↦
              let (x, r) = draw-drawn n (suc first) i b (ground arith) (omega arith) (record {
                reads = d.reads;
                below = d.below;
                earlier = λ j u v. d.earlier j (omega arith) v;
              }) in
              (x, draw_miss n first c k m ∙ r)
        ]
  ]

  -- The draw ends well as soon as one of its 64 numbers is below the limit and the random source has
  -- answered up to there.
  pub draw_roll_time-drawn :
      (issued : ℤ) (i : ℕ) (b : Bytes)
      → i < 64
      → IsDrawn 0 i b
      → (t : ℤ) × (draw_roll_time random_bytes issued ≡ ok t)
  unfolding draw_roll_time tilfeldig_under
  draw_roll_time-drawn issued i b h d =
      let (x, e) = draw-drawn 64 0 i b (omega arith) h d in
      (issued +ℤ pos 604800 +ℤ (pos x -ℤ pos 172800), rw e refl)

-- The numbers that are kept are dealt out evenly: below the limit, each moment of the span is the
-- remainder of exactly `grense span / span` numbers, one in each stretch of `span` numbers.
pub kept_evenly :
    (r q : ℕ)
    → r < span
    → ((q * span + r) % span ≡ r) × ((q < grense span / span) ↔ (q * span + r < grense span))
unfolding grense
kept_evenly r q h = (omega arith, (λ k. omega arith, λ k. omega arith))
