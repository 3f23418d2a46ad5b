-- ===== src/Schedule/Names.antt =====
-- `BTreeSet<String>` (std): a set of names as the sorted list of its elements, without repetition.
use net_tls.Prelude.{
  ◌≡◌, ◌⊎◌, inl, inr, refl, Bool, true, false, List, [], ◌∷◌, arith, ltb, ◌==◌, if◌then◌else◌, any,
  Bool-cases,
}
use net_tls.Prelude.Text.{Str, same, same→eq, same_refl, same_iff}

-- The order of `String`, by bytes; UTF-8 keeps the order of the code points.
abbrev pub lt : Str → Str → Bool
lt [] [] = false
lt [] (y ∷ ys) = true
lt (x ∷ xs) [] = false
lt (x ∷ xs) (y ∷ ys) = if x == y then lt xs ys else ltb x y

unfoldable pub insert : Str → List Str → List Str
insert x [] = x ∷ []
insert x (y ∷ ys) = if same x y then y ∷ ys else if lt x y then x ∷ y ∷ ys else y ∷ insert x ys

unfoldable pub remove : Str → List Str → List Str
remove x [] = []
remove x (y ∷ ys) = if same x y then remove x ys else y ∷ remove x ys

unfoldable pub collect : List Str → List Str
collect [] = []
collect (x ∷ xs) = insert x (collect xs)

-- `set.contains(x)`
abbrev pub mem : Str → List Str → Bool
mem z xs = any (same z) xs

pub mem-insert_self : (z : Str) (xs : List Str) → mem z (insert z xs) ≡ true
unfolding insert
mem-insert_self z [] = ground (arith, same_refl z)
mem-insert_self z (y ∷ ys) = ground (arith, same_refl z, mem-insert_self z ys)

pub mem-insert : (z x : Str) (xs : List Str) → mem z xs ≡ true → mem z (insert x xs) ≡ true
unfolding insert
mem-insert z x [] h = cc
mem-insert z x (y ∷ ys) h = elim (Bool-cases (same z y)) [
  | inl e ↦ ground arith
  | inr e ↦ ground (arith, mem-insert z x ys (ground arith))
]

pub mem-insert_inv :
    (z x : Str) (xs : List Str) → mem z (insert x xs) ≡ true → (z ≡ x) ⊎ (mem z xs ≡ true)
unfolding insert
mem-insert_inv z x [] h = inl (same→eq z x (ground arith))
mem-insert_inv z x (y ∷ ys) h = elim (Bool-cases (same z x)) [
  | inl e ↦ inl (same→eq z x e)
  | inr e ↦ inr (elim (Bool-cases (same z y)) [
    | inl k ↦ ground arith
    | inr k ↦ elim (Bool-cases (mem z (insert x ys))) [
      | inl m ↦ elim (mem-insert_inv z x ys m) [
        | inl q ↦ ground (arith, (same_iff z x).1 q)
        | inr q ↦ ground arith
      ]
      | inr m ↦ ground arith
    ]
  ])
]

pub mem-collect : (z : Str) (xs : List Str) → mem z xs ≡ true → mem z (collect xs) ≡ true
unfolding collect
mem-collect z [] h = h
mem-collect z (x ∷ xs) h = elim (Bool-cases (same z x)) [
  | inl e ↦ ground (arith, same→eq z x e, mem-insert_self x (collect xs))
  | inr e ↦ mem-insert z x (collect xs) (mem-collect z xs (ground arith))
]

pub mem-remove : (z x : Str) (xs : List Str) → mem z (remove x xs) ≡ true → mem z xs ≡ true
unfolding remove
mem-remove z x [] h = h
mem-remove z x (y ∷ ys) h = elim (Bool-cases (same z y)) [
  | inl e ↦ ground arith
  | inr e ↦ ground (arith, mem-remove z x ys (ground arith))
]

pub mem-remove_self : (z : Str) (xs : List Str) → mem z (remove z xs) ≡ false
unfolding remove
mem-remove_self z [] = refl
mem-remove_self z (y ∷ ys) = ground (arith, mem-remove_self z ys)

pub mem-remove_other :
    (z x : Str) (xs : List Str) → same z x ≡ false → mem z xs ≡ true → mem z (remove x xs) ≡ true
unfolding remove
mem-remove_other z x [] n h = h
mem-remove_other z x (y ∷ ys) n h = elim (Bool-cases (same z y)) [
  | inl e ↦
      let q = same→eq z y e in
      elim (Bool-cases (same x y)) [
        | inl k ↦ absurd (
            ground
              (arith, same→eq x y k, same_refl z, (same_iff z x).1 (ground (arith, same→eq x y k))))
        | inr k ↦ ground arith
      ]
  | inr e ↦ ground (arith, mem-remove_other z x ys n (ground arith))
]
