-- ===== src/Canonical/Algs.antt =====
-- Which support lists `algsupport_v1` accepts: one spelling for each set of algorithms.
use net_tls.Prelude.{
  ℕ, ◌≡◌, ◌≢◌, ◌↔◌, ◌⊎◌, inl, inr, refl, sym, ap, Bool, true, false, ◌||◌, Option, none, some, List,
  [], ◌∷◌, ◌++◌, if◌then◌else◌, ◌==◌, is_empty, append_assoc, append-nil, arith, Bool-cases, subst,
}
use net_tls.Prelude.Text.{Str, codes, same→eq, join}
use net_tls.Error.{ok}
use net_tls.Canonical.{split, position, alg_order, out_of_order, check_tokens}
use net_tls.Canonical.Fields.{IsLine}

abbrev pub aegis256 : Str
aegis256 = codes "aegis256"

abbrev pub xchacha20 : Str
xchacha20 = codes "xchacha20"

abbrev pub aes256gcm : Str
aes256gcm = codes "aes256gcm"

abbrev keep : Bool → Str → List Str → List Str
keep b t ts = if b then t ∷ ts else ts

-- The tokens of a set of algorithms, in the fixed order.
abbrev pub tokens_of : Bool → Bool → Bool → List Str
tokens_of a x g = keep a aegis256 (keep x xchacha20 (keep g aes256gcm []))

abbrev pub comma : Str
comma = b',' ∷ []

join-cons : (sep x : Str) (ys : List Str) → ys ≢ [] → join sep (x ∷ ys) ≡ x ++ (sep ++ join sep ys)
unfolding join
join-cons sep x [] h = absurd (h refl)
join-cons sep x (y ∷ ys) h = refl

split-ne-nil : (s cur : Str) → split b',' s cur ≢ []
unfolding split
split-ne-nil [] cur = λ e. cc
split-ne-nil (c ∷ s) cur = ground (arith, split-ne-nil s (cur ++ c ∷ []))

split_at :
    (c : ℕ) (s cur : Str) → (c == b',') ≡ true → split b',' (c ∷ s) cur ≡ cur ∷ split b',' s []
unfolding split
split_at c s cur h = ground arith

split_on :
    (c : ℕ) (s cur : Str)
    → (c == b',') ≡ false
    → split b',' (c ∷ s) cur ≡ split b',' s (cur ++ c ∷ [])
unfolding split
split_on c s cur h = ground arith

-- Joining the parts gives the text back.
join-split : (s cur : Str) → join comma (split b',' s cur) ≡ cur ++ s
join-split [] cur = unfold split join in sym (append-nil cur)
join-split (c ∷ s) cur = elim (Bool-cases (c == b',')) [
  | inl e ↦
      let c_eq : c ≡ b',' = ground arith in
      rw (split_at c s cur e, join-cons comma cur _ (split-ne-nil s []), join-split s [])
        (ap (λ d. cur ++ d ∷ s) (sym c_eq))
  | inr e ↦ rw (split_on c s cur e, join-split s (cur ++ c ∷ [])) (append_assoc cur (c ∷ []) s)
]

position_cases :
    (t : Str) (i : ℕ)
    → position t alg_order ≡ some i
    → ((i ≡ 0) × (t ≡ aegis256)) ⊎ ((i ≡ 1) × (t ≡ xchacha20)) ⊎ ((i ≡ 2) × (t ≡ aes256gcm))
unfolding position
position_cases t i h = ground (arith, same→eq aegis256 t, same→eq xchacha20 t, same→eq aes256gcm t)

-- The steps of the loop at a known token.
check_tokens-cons :
    (last : Option ℕ) (t : Str) (ts : List Str)
    → check_tokens last (t ∷ ts) ≡ ok tt
    → (i : ℕ) × (position t alg_order ≡ some i)
      × (out_of_order last i ≡ false)
      × (check_tokens (some i) ts ≡ ok tt)
unfolding check_tokens
check_tokens-cons last t ts h = ground arith

tokens_after_2 : (ts : List Str) → check_tokens (some 2) ts ≡ ok tt → ts ≡ []
tokens_after_2 [] h = refl
tokens_after_2 (t ∷ ts) h =
    let (i, p, q, r) = check_tokens-cons (some 2) t ts h in ground (arith, position_cases t i)

tokens_after_1 :
    (ts : List Str) → check_tokens (some 1) ts ≡ ok tt → (g : Bool) × (ts ≡ tokens_of false false g)
tokens_after_1 [] h = (false, refl)
tokens_after_1 (t ∷ ts) h =
    let (i, p, q, r) = check_tokens-cons (some 1) t ts h in
    let i_eq : i ≡ 2 = ground (arith, position_cases t i) in
    (true, ground (arith, position_cases t i, tokens_after_2 ts))

tokens_after_0 :
    (ts : List Str)
    → check_tokens (some 0) ts ≡ ok tt
    → (x : Bool) × (g : Bool) × (ts ≡ tokens_of false x g)
tokens_after_0 [] h = (false, false, refl)
tokens_after_0 (t ∷ ts) h =
    let (i, p, q, r) = check_tokens-cons (some 0) t ts h in
    elim (position_cases t i p) [
      | inl e ↦ absurd (ground arith)
      | inr (inl e) ↦ let (g, eq) = tokens_after_1 ts (ground arith) in (true, g, ground arith)
      | inr (inr e) ↦ (false, true, ground (arith, tokens_after_2 ts))
    ]

tokens_accepted :
    (ts : List Str)
    → check_tokens none ts ≡ ok tt
    → (a : Bool) × (x : Bool) × (g : Bool) × (ts ≡ tokens_of a x g)
tokens_accepted [] h = (false, false, false, refl)
tokens_accepted (t ∷ ts) h =
    let (i, p, q, r) = check_tokens-cons none t ts h in
    elim (position_cases t i p) [
      | inl e ↦ let (x, g, eq) = tokens_after_0 ts (ground arith) in (true, x, g, ground arith)
      | inr (inl e) ↦
          let (g, eq) = tokens_after_1 ts (ground arith) in (false, true, g, ground arith)
      | inr (inr e) ↦ (false, false, true, ground (arith, tokens_after_2 ts))
    ]

-- The one spelling of a set of algorithms.
unfoldable pub spelling : Bool → Bool → Bool → Str
unfolding join
spelling a x g = join comma (tokens_of a x g)

-- What the guards of `algsupport_v1` ask of a support list.
abbrev pub IsAccepted : Str → Type 0
IsAccepted algs = (is_empty algs ≡ false) × (check_tokens none (split b',' algs []) ≡ ok tt)

pub spelling-IsAccepted : (a x g : Bool) → (a || x || g) ≡ true → IsAccepted (spelling a x g)
unfolding spelling split check_tokens position
spelling-IsAccepted true true true h = (refl, refl)
spelling-IsAccepted true true false h = (refl, refl)
spelling-IsAccepted true false true h = (refl, refl)
spelling-IsAccepted true false false h = (refl, refl)
spelling-IsAccepted false true true h = (refl, refl)
spelling-IsAccepted false true false h = (refl, refl)
spelling-IsAccepted false false true h = (refl, refl)
spelling-IsAccepted false false false h = cc

pub IsAccepted-spelling :
    (algs : Str)
    → IsAccepted algs
    → (a : Bool) × (x : Bool) × (g : Bool) × ((a || x || g) ≡ true) × (algs ≡ spelling a x g)
IsAccepted-spelling algs h =
    let (a, x, g, e) = tokens_accepted (split b',' algs []) h.1 in
    let algs_eq : algs ≡ join comma (tokens_of a x g) = cc (join-split algs []) in
    (a, x, g, some_token a x g e, unfold spelling in algs_eq)
  where
    some_token : (a x g : Bool) → split b',' algs [] ≡ tokens_of a x g → (a || x || g) ≡ true
    some_token false false false e = absurd (split-ne-nil algs [] e)
    some_token true x g e = refl
    some_token false true g e = refl
    some_token false false true e = refl

-- A support list is accepted exactly when it is the spelling of a set with at least one algorithm.
pub IsAccepted-iff :
    (algs : Str)
    → IsAccepted algs
      ↔ ((a : Bool) × (x : Bool) × (g : Bool) × ((a || x || g) ≡ true) × (algs ≡ spelling a x g))
IsAccepted-iff algs = (IsAccepted-spelling algs, back)
  where
    back :
        (a : Bool) × (x : Bool) × (g : Bool) × ((a || x || g) ≡ true) × (algs ≡ spelling a x g)
        → IsAccepted algs
    back (a, x, g, some_alg, e) = subst IsAccepted (sym e) (spelling-IsAccepted a x g some_alg)

spelling-IsLine : (a x g : Bool) → IsLine (spelling a x g)
unfolding spelling
spelling-IsLine true true true = omega arith
spelling-IsLine true true false = omega arith
spelling-IsLine true false true = omega arith
spelling-IsLine true false false = omega arith
spelling-IsLine false true true = omega arith
spelling-IsLine false true false = omega arith
spelling-IsLine false false true = omega arith
spelling-IsLine false false false = omega arith

pub accepted-IsLine : (algs : Str) → IsAccepted algs → IsLine algs
accepted-IsLine algs h =
    let (a, x, g, _, e) = IsAccepted-spelling algs h in subst IsLine (sym e) (spelling-IsLine a x g)
