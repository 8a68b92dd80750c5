-- ===== src/Base/Lists.antt =====
-- Lists read as database tables: filters, tests and lookups by Boolean functions, all executable.
use Prim.Native.Nat.{ℕ, suc, ◌+◌, ◌<◌}
use mathlib.Core.Path.{◌≡◌, refl, ap, ◌∙◌}
use mathlib.Core.Bool.{Bool, false, ◌||◌}
use mathlib.Core.Option.{Option, none, some}
use mathlib.Core.List.{List, [], ◌∷◌, ◌++◌}
use mathlib.Core.Logic.{inl, inr}
use native.Mathlib.Omega.{arith}
use mono256_sic_core.Base.Tests.{◌==◌, if◌then◌else◌, Bool-cases}

module _ {ℓ} {A : Type ℓ} where
  abbrev pub length : List A → ℕ
  length [] = 0
  length (x ∷ xs) = suc (length xs)

  -- The rows of a table that a query keeps.
  abbrev pub where_ : (A → Bool) → List A → List A
  where_ p [] = []
  where_ p (x ∷ xs) = if p x then x ∷ where_ p xs else where_ p xs

  -- `queryset.exists()`
  abbrev pub exists : (A → Bool) → List A → Bool
  exists p [] = false
  exists p (x ∷ xs) = p x || exists p xs

  -- The first row that passes, as a lookup by primary key.
  abbrev pub find : (A → Bool) → List A → Option A
  find p [] = none
  find p (x ∷ xs) = if p x then some x else find p xs

  -- A predicate of every row, which computes to tuples.
  abbrev pub All {κ} : (A → Type κ) → List A → Type κ
  All P [] = Unit
  All P (x ∷ xs) = P x × All P xs

  pub All-append {κ} : (P : A → Type κ) (xs ys : List A) → All P xs → All P ys → All P (xs ++ ys)
  All-append P [] ys h k = k
  All-append P (x ∷ xs) ys h k = (h.0, All-append P xs ys h.1 k)

  pub All-map {κ μ} :
      (P : A → Type κ) (Q : A → Type μ) (xs : List A) → ((x : A) → P x → Q x) → All P xs → All Q xs
  All-map P Q [] f h = tt
  All-map P Q (x ∷ xs) f h = (f x h.0, All-map P Q xs f h.1)

  pub length-append : (xs ys : List A) → length (xs ++ ys) ≡ length xs + length ys
  length-append [] ys = omega arith
  length-append (x ∷ xs) ys = omega (arith, length-append xs ys)

  pub where_-append :
      (p : A → Bool) (xs ys : List A) → where_ p (xs ++ ys) ≡ where_ p xs ++ where_ p ys
  where_-append p [] ys = refl
  where_-append p (x ∷ xs) ys = ground (arith, where_-append p xs ys)

-- What holds of every row holds of the one that is found.
pub find-All {ℓ κ} :
    {A : Type ℓ} (P : A → Type κ) (p : A → Bool) (xs : List A) {a : A}
    → All P xs
    → find p xs ≡ some a
    → P a
find-All P p [] h e = cc
find-All P p (x ∷ xs) h e = elim (Bool-cases (p x)) [
  | inl here ↦ let same : x ≡ _ = ground arith in rw same at h.0
  | inr there ↦ find-All P p xs h.1 (rw there at e)
]

-- `key in collection` for numbers.
abbrev pub contains : ℕ → List ℕ → Bool
contains k [] = false
contains k (x ∷ xs) = k == x || contains k xs

-- A key that no row of a block has selects nothing of it.
pub where_-none {ℓ} :
    {A : Type ℓ} (key : A → ℕ) (k : ℕ) (xs : List A)
    → All (λ x. key x < k) xs
    → where_ (λ x. key x == k) xs ≡ []
where_-none key k [] h = refl
where_-none key k (x ∷ xs) h = ground (arith, where_-none key k xs h.1)

where_-self {ℓ} :
    {A : Type ℓ} (key : A → ℕ) (k : ℕ) (xs : List A)
    → All (λ x. key x ≡ k) xs
    → where_ (λ x. key x == k) xs ≡ xs
where_-self key k [] h = refl
where_-self key k (x ∷ xs) h = ground (arith, where_-self key k xs h.1)

where_-other {ℓ} :
    {A : Type ℓ} (key : A → ℕ) (j k : ℕ) (xs : List A)
    → All (λ x. key x ≡ k) xs
    → j < k
    → where_ (λ x. key x == j) xs ≡ []
where_-other key j k [] h lt = refl
where_-other key j k (x ∷ xs) h lt = ground (arith, where_-other key j k xs h.1 lt)

append_nil {ℓ} : {A : Type ℓ} (xs : List A) → xs ++ [] ≡ xs
append_nil [] = refl
append_nil (x ∷ xs) = ap (◌∷◌ x) (append_nil xs)

-- A block of new rows under a new key stands in front of the old rows.
module _ {ℓ} {A : Type ℓ} (key : A → ℕ) (k : ℕ) (new old : List A)
    (new_keys : All (λ x. key x ≡ k) new) (old_keys : All (λ x. key x < k) old) where
  pub where_-new : where_ (λ x. key x == k) (new ++ old) ≡ new
  where_-new =
      where_-append (λ x. key x == k) new old
      ∙ rw (where_-self key k new new_keys, where_-none key k old old_keys) (append_nil new)

  pub where_-old :
      (j : ℕ) → j < k → where_ (λ x. key x == j) (new ++ old) ≡ where_ (λ x. key x == j) old
  where_-old j lt =
      where_-append (λ x. key x == j) new old ∙ rw (where_-other key j k new new_keys lt) refl

  pub keys-append : All (λ x. key x < k + 1) (new ++ old)
  keys-append =
      All-append _ new old
        (All-map (λ x. key x ≡ k) (λ x. key x < k + 1) new (λ x e. omega arith) new_keys)
        (All-map (λ x. key x < k) (λ x. key x < k + 1) old (λ x e. omega arith) old_keys)

-- `sorted(rows, key=…)`, stable, by a test `le` of the keys.
module _ {ℓ} {A : Type ℓ} (le : A → A → Bool) where
  unfoldable pub insert_sorted : A → List A → List A
  insert_sorted x [] = x ∷ []
  insert_sorted x (y ∷ ys) = if le x y then x ∷ y ∷ ys else y ∷ insert_sorted x ys

  unfoldable pub sort_by : List A → List A
  unfolding insert_sorted
  sort_by [] = []
  sort_by (x ∷ xs) = insert_sorted x (sort_by xs)
