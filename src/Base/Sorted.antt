-- ===== src/Base/Sorted.antt =====
-- What sorting a table keeps.
use Prim.Native.Nat.{ℕ}
use mathlib.Core.Path.{◌≡◌, refl, ◌∙◌, ap}
use mathlib.Core.Logic.{inl, inr}
use mathlib.Core.Bool.{Bool, true, false, ◌||◌}
use mathlib.Core.List.{List, [], ◌∷◌}
use native.Mathlib.Omega.{arith}
use mono256_sic_core.Base.Tests.{◌==◌, Bool-cases, or-false, or-false_intro}
use mono256_sic_core.Base.Lists.{exists, All, insert_sorted, sort_by}
use mono256_sic_core.Base.Sums.{IsKeyed}

swap_or : (a b c : Bool) → (a || (b || c)) ≡ (b || (a || c))
swap_or true true c = refl
swap_or true false c = refl
swap_or false b c = refl

module _ {A : Type 0} (le : A → A → Bool) where
  exists-insert_sorted :
      (p : A → Bool) (x : A) (xs : List A) → exists p (insert_sorted le x xs) ≡ (p x || exists p xs)
  unfolding insert_sorted
  exists-insert_sorted p x [] = refl
  exists-insert_sorted p x (y ∷ ys) = elim (Bool-cases (le x y)) [
    | inl here ↦ rw here refl
    | inr later ↦ rw (later, exists-insert_sorted p x ys) (swap_or (p y) (p x) (exists p ys))
  ]

  exists-sort_by : (p : A → Bool) (xs : List A) → exists p (sort_by le xs) ≡ exists p xs
  unfolding sort_by
  exists-sort_by p [] = refl
  exists-sort_by p (x ∷ xs) =
      exists-insert_sorted p x (sort_by le xs) ∙ ap (λ b. p x || b) (exists-sort_by p xs)

  All-insert_sorted :
      (P : A → Type 0) (x : A) (xs : List A) → P x → All P xs → All P (insert_sorted le x xs)
  unfolding insert_sorted
  All-insert_sorted P x [] h hs = (h, tt)
  All-insert_sorted P x (y ∷ ys) h (k, ks) = elim (Bool-cases (le x y)) [
    | inl here ↦ rw here (h, (k, ks))
    | inr later ↦ rw later (k, All-insert_sorted P x ys h ks)
  ]

  pub All-sort_by : (P : A → Type 0) (xs : List A) → All P xs → All P (sort_by le xs)
  unfolding sort_by
  All-sort_by P [] hs = tt
  All-sort_by P (x ∷ xs) (h, hs) = All-insert_sorted P x (sort_by le xs) h (All-sort_by P xs hs)

  IsKeyed-insert_sorted :
      (id : A → ℕ) (x : A) (xs : List A)
      → exists (λ y. id x == id y) xs ≡ false
      → IsKeyed id xs
      → IsKeyed id (insert_sorted le x xs)
  unfolding insert_sorted
  IsKeyed-insert_sorted id x [] fresh keyed = (refl, tt)
  IsKeyed-insert_sorted id x (y ∷ ys) fresh (other, keyed) = elim (Bool-cases (le x y)) [
    | inl here ↦ rw here (fresh, (other, keyed))
    | inr later ↦
        let (apart, fresh_rest) = or-false (id x == id y) _ fresh in
        rw later (
          exists-insert_sorted (λ z. id y == id z) x ys
              ∙ or-false_intro (id y == id x) _ (ground arith) other,
          IsKeyed-insert_sorted id x ys fresh_rest keyed,
        )
  ]

  pub IsKeyed-sort_by : (id : A → ℕ) (xs : List A) → IsKeyed id xs → IsKeyed id (sort_by le xs)
  unfolding sort_by
  IsKeyed-sort_by id [] keyed = tt
  IsKeyed-sort_by id (x ∷ xs) (fresh, keyed) =
      IsKeyed-insert_sorted id x (sort_by le xs) (exists-sort_by (λ y. id x == id y) xs ∙ fresh)
        (IsKeyed-sort_by id xs keyed)
