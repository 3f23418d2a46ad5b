-- ===== src/Canonical/Lines.antt =====
-- `assemble` loses nothing: the lines can be read back from the bytes.
use net_tls.Prelude.{◌≡◌, ◌≢◌, refl, sym, ap, List, [], ◌∷◌, ◌++◌, All, All-mono, All-append, arith}
use net_tls.Prelude.Text.{Str, utf8-inj, IsText, join}
use net_tls.Canonical.{lf, assemble}
use net_tls.Canonical.Fields.{IsLineChar, IsLine}

-- Two lines, each followed by a line feed, are cut at the same place.
cut-eq : (x y r s : Str) → IsLine x → IsLine y → x ++ (lf ++ r) ≡ y ++ (lf ++ s) → (x ≡ y) × (r ≡ s)
cut-eq [] [] r s h k e = (refl, ground arith)
cut-eq [] (d ∷ y) r s h k e = ground arith
cut-eq (c ∷ x) [] r s h k e = ground arith
cut-eq (c ∷ x) (d ∷ y) r s (hc, h) (kd, k) e = ground (arith, cut-eq x y r s h k)

-- A line is not a line with a line feed behind it.
line-ne-cut : (x y r : Str) → IsLine x → x ≢ y ++ (lf ++ r)
line-ne-cut [] [] r h = λ e. cc
line-ne-cut [] (d ∷ y) r h = λ e. cc
line-ne-cut (c ∷ x) [] r h = λ e. ground arith
line-ne-cut (c ∷ x) (d ∷ y) r (hc, h) = λ e. ground (arith, line-ne-cut x y r h)

pub join-inj :
    (xs ys : List Str)
    → All IsLine xs
    → All IsLine ys
    → xs ≢ []
    → ys ≢ []
    → join lf xs ≡ join lf ys
    → xs ≡ ys
unfolding join
join-inj [] ys h k p q e = absurd (p refl)
join-inj (x ∷ xs) [] h k p q e = absurd (q refl)
join-inj (x ∷ []) (y ∷ []) h k p q e = ap (λ z. z ∷ []) e
join-inj (x ∷ []) (y ∷ y' ∷ ys) h k p q e = absurd (line-ne-cut x y (join lf (y' ∷ ys)) h.0 e)
join-inj (x ∷ x' ∷ xs) (y ∷ []) h k p q e = absurd (line-ne-cut y x (join lf (x' ∷ xs)) k.0 (sym e))
join-inj (x ∷ x' ∷ xs) (y ∷ y' ∷ ys) h k p q e =
    let (a, b) = cut-eq x y (join lf (x' ∷ xs)) (join lf (y' ∷ ys)) h.0 k.0 e in
    let ih = join-inj (x' ∷ xs) (y' ∷ ys) h.1 k.1 (λ z. cc) (λ z. cc) b in cc

join-IsText : (xs : List Str) → All IsLine xs → IsText (join lf xs)
unfolding join
join-IsText [] h = tt
join-IsText (x ∷ []) (hx, h) = All-mono IsLineChar _ (λ c p. p.0) x hx
join-IsText (x ∷ y ∷ ys) (hx, h) =
    All-append _ x _ (All-mono IsLineChar _ (λ c p. p.0) x hx) (omega arith, join-IsText (y ∷ ys) h)

-- Different lines give different bytes.
pub assemble-inj :
    (xs ys : List Str)
    → All IsLine xs
    → All IsLine ys
    → xs ≢ []
    → ys ≢ []
    → assemble xs ≡ assemble ys
    → xs ≡ ys
unfolding assemble
assemble-inj xs ys h k p q e =
    join-inj xs ys h k p q
      (utf8-inj (join lf xs) (join lf ys) (join-IsText xs h) (join-IsText ys k) e)
