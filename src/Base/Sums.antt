-- ===== src/Base/Sums.antt =====
-- Sums over tables: over two disjoint filters, over the rows of a foreign key, over sorted rows.
use Prim.Native.Nat.{ℕ}
use mathlib.Core.Path.{◌≡◌, refl, sym, ◌∙◌, ap}
use mathlib.Core.Logic.{inl, inr}
use mathlib.Core.Bool.{Bool, true, false, ◌||◌}
use mathlib.Core.List.{List, [], ◌∷◌, ◌++◌, map}
use mono256_sic_core.Base.Tests.{◌==◌, ==→eq, Bool-cases}
use mono256_sic_core.Base.Lists.{where_, exists, All, insert_sorted, sort_by}
use mono256_sic_core.Base.Int.{ℤ, pos, ◌+ℤ◌, sum_of, int_laws, parts_eq, sum_of-append}

-- The keys of the rows are different.
abbrev pub IsKeyed {ℓ} : {A : Type ℓ} → (A → ℕ) → List A → Type 0
IsKeyed id [] = Unit
IsKeyed id (x ∷ xs) = (exists (λ y. id x == id y) xs ≡ false) × IsKeyed id xs

-- Lists in a row.
unfoldable pub flat_map {ℓ κ} : {A : Type ℓ} {B : Type κ} → (A → List B) → List A → List B
flat_map f [] = []
flat_map f (x ∷ xs) = f x ++ flat_map f xs

module _ {ℓ} {A : Type ℓ} (f : A → ℤ) where
  pub sum_of-where_-or :
      (p q : A → Bool) (xs : List A)
      → ((x : A) → p x ≡ true → q x ≡ false)
      → sum_of f (where_ (λ x. p x || q x) xs) ≡ sum_of f (where_ p xs) +ℤ sum_of f (where_ q xs)
  unfolding sum_of
  sum_of-where_-or p q [] apart = omega int_laws
  sum_of-where_-or p q (x ∷ xs) apart =
      let rest = sum_of-where_-or p q xs apart in
      elim (Bool-cases (p x)) [
        | inl yes_p ↦ rw (yes_p, apart x yes_p) (omega (int_laws, parts_eq rest))
        | inr no_p ↦ elim (Bool-cases (q x)) [
          | inl yes_q ↦ rw (no_p, yes_q) (omega (int_laws, parts_eq rest))
          | inr no_q ↦ rw (no_p, no_q) rest
        ]
      ]

  pub sum_of-where_-same :
      (p q : A → Bool) (xs : List A)
      → All (λ x. p x ≡ q x) xs
      → sum_of f (where_ p xs) ≡ sum_of f (where_ q xs)
  unfolding sum_of
  sum_of-where_-same p q [] same = refl
  sum_of-where_-same p q (x ∷ xs) (e, same) =
      let rest = sum_of-where_-same p q xs same in
      rw e (elim (Bool-cases (q x)) [
        | inl keep ↦ rw keep (ap (λ s. f x +ℤ s) rest)
        | inr drop ↦ rw drop rest
      ])

  pub sum_of-where_-All :
      (p : A → Bool) (xs : List A) → All (λ x. p x ≡ true) xs → sum_of f (where_ p xs) ≡ sum_of f xs
  unfolding sum_of
  sum_of-where_-All p [] every = refl
  sum_of-where_-All p (x ∷ xs) (e, every) = rw e (ap (λ s. f x +ℤ s) (sum_of-where_-All p xs every))

  pub sum_of-insert_sorted :
      (le : A → A → Bool) (x : A) (xs : List A)
      → sum_of f (insert_sorted le x xs) ≡ f x +ℤ sum_of f xs
  unfolding sum_of insert_sorted
  sum_of-insert_sorted le x [] = refl
  sum_of-insert_sorted le x (y ∷ ys) = elim (Bool-cases (le x y)) [
    | inl here ↦ rw here refl
    | inr later ↦ rw later (omega (int_laws, parts_eq (sum_of-insert_sorted le x ys)))
  ]

  pub sum_of-sort_by : (le : A → A → Bool) (xs : List A) → sum_of f (sort_by le xs) ≡ sum_of f xs
  unfolding sum_of sort_by
  sum_of-sort_by le [] = refl
  sum_of-sort_by le (x ∷ xs) =
      sum_of-insert_sorted le x (sort_by le xs) ∙ ap (λ s. f x +ℤ s) (sum_of-sort_by le xs)

sum_of-nothing {κ} :
    {B : Type κ} (g : B → ℤ) (ys : List B) → sum_of g (where_ (λ y. false) ys) ≡ pos 0
unfolding sum_of
sum_of-nothing g [] = refl
sum_of-nothing g (y ∷ ys) = sum_of-nothing g ys

-- Two functions that agree on the rows.
pub sum_of-agree {ℓ} :
    {A : Type ℓ} (f g : A → ℤ) (p : A → Bool) (xs : List A)
    → All (λ x. f x ≡ g x) xs
    → sum_of f (where_ p xs) ≡ sum_of g (where_ p xs)
unfolding sum_of
sum_of-agree f g p [] same = refl
sum_of-agree f g p (x ∷ xs) (e, same) =
    let rest = sum_of-agree f g p xs same in
    elim (Bool-cases (p x)) [
      | inl keep ↦ rw keep (omega (int_laws, parts_eq e, parts_eq rest))
      | inr drop ↦ rw drop rest
    ]

module _ {ℓ κ} {A : Type ℓ} {B : Type κ} (g : B → ℤ) where
  pub sum_of-flat_map :
      (f : A → List B) (xs : List A) → sum_of g (flat_map f xs) ≡ sum_of (λ x. sum_of g (f x)) xs
  unfolding sum_of flat_map
  sum_of-flat_map f [] = refl
  sum_of-flat_map f (x ∷ xs) =
      sum_of-append g (f x) (flat_map f xs) ∙ ap (λ s. sum_of g (f x) +ℤ s) (sum_of-flat_map f xs)

  -- Row by row of the first table, the rows of the second that refer to it: each counts once.
  pub sum_of-keyed :
      (id : A → ℕ) (key : B → ℕ) (xs : List A) (ys : List B)
      → IsKeyed id xs
      → sum_of (λ x. sum_of g (where_ (λ y. key y == id x) ys)) xs
        ≡ sum_of g (where_ (λ y. exists (λ x. key y == id x) xs) ys)
  unfolding sum_of
  sum_of-keyed id key [] ys keyed = sym (sum_of-nothing g ys)
  sum_of-keyed id key (x ∷ xs) ys (fresh, keyed) =
      ap (λ s. sum_of g (where_ (λ y. key y == id x) ys) +ℤ s) (sum_of-keyed id key xs ys keyed)
      ∙ sym (
          sum_of-where_-or g (λ y. key y == id x) (λ y. exists (λ z. key y == id z) xs) ys
            (λ y here. ap (λ k. exists (λ z. k == id z) xs) (==→eq (key y) (id x) here) ∙ fresh))

pub sum_of-map {ℓ κ} :
    {A : Type ℓ} {B : Type κ} (g : B → ℤ) (f : A → B) (xs : List A)
    → sum_of g (map f xs) ≡ sum_of (λ x. g (f x)) xs
unfolding sum_of
sum_of-map g f [] = refl
sum_of-map g f (x ∷ xs) = ap (λ s. g (f x) +ℤ s) (sum_of-map g f xs)

pub sum_of-each {ℓ} :
    {A : Type ℓ} (f g : A → ℤ) (xs : List A) → ((x : A) → f x ≡ g x) → sum_of f xs ≡ sum_of g xs
unfolding sum_of
sum_of-each f g [] same = refl
sum_of-each f g (x ∷ xs) same =
    omega (int_laws, parts_eq (same x), parts_eq (sum_of-each f g xs same))
