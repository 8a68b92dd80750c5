-- ===== src/Reports/Ranges.antt =====
-- The ranges that `resolve_report_exercise_context` chooses.
use mono256_sic_core.Base.{
  ℕ, true, Option, none, some, List, [], ◌∷◌, ◌≡◌, refl, subst, ◌⊎◌, inl, inr, arith, ◌≤◌, where_,
  All, some_inj, or_default,
}
use mono256_sic_core.Closing.Exercises.{LogicalExercise, last}
use mono256_sic_core.Reports.Context.{resolve_report_exercise_context, active_context, intersects}
use mono256_sic_core.Reports.Rows.{starts_by, All-kept}

-- The days that are shown lie at the end of the days that are computed or are the same, or neither has
-- a first one.
abbrev pub IsRanged : Option ℕ → Option ℕ → ℕ → Type 0
IsRanged none none to = Unit
IsRanged (some visible) (some computed) to =
    (computed ≤ visible) × ((visible ≤ to) ⊎ (visible ≡ computed))
IsRanged none (some computed) to = ⊥
IsRanged (some visible) none to = ⊥

-- No exercise begins before the first.
abbrev pub BeginsFirst : List LogicalExercise → Type 0
BeginsFirst [] = Unit
BeginsFirst (x ∷ xs) = All (λ y. x.start_date ≤ y.start_date) (x ∷ xs)

last-All {κ} :
    (P : LogicalExercise → Type κ) (xs : List LogicalExercise) {a : LogicalExercise}
    → All P xs
    → last xs ≡ some a
    → P a
last-All P [] h e = cc
last-All P (x ∷ []) (h, hs) e = subst P (some_inj e) h
last-All P (x ∷ y ∷ ys) (h, hs) e = last-All P (y ∷ ys) hs e

begins_by : (from to : ℕ) (y : LogicalExercise) → intersects from to y ≡ true → y.start_date ≤ to
begins_by from to y meets = ground arith

-- The range of an active exercise.
active_context-IsRanged :
    (active : LogicalExercise) (intersected : List LogicalExercise) (date_from : Option ℕ)
    (from to : ℕ)
    → active.start_date ≤ to
    → (from ≤ to) ⊎ (from ≤ active.start_date)
    → IsRanged
        (active_context (some active) intersected date_from from to).visible_from
        (active_context (some active) intersected date_from from to).computed_from
        to
active_context-IsRanged active intersected date_from from to starts (inl before_end) =
    (ground arith, inl (ground arith))
active_context-IsRanged active intersected date_from from to starts (inr early) =
    (ground arith, inr (ground arith))

-- What is asked of the first day: it is not behind the last one, or no exercise begins before it.
day_choice :
    (x : LogicalExercise) (date_from : Option ℕ) (to : ℕ) (y : LogicalExercise)
    → starts_by date_from to ≡ true
    → x.start_date ≤ y.start_date
    → (or_default date_from x.start_date ≤ to) ⊎ (or_default date_from x.start_date ≤ y.start_date)
day_choice x none to y forward le = inr le
day_choice x (some d) to y forward le = inl (ground arith)

active_or_bare-IsRanged :
    (found : Option LogicalExercise) (intersected : List LogicalExercise) (date_from : Option ℕ)
    (from to : ℕ)
    → ((y : LogicalExercise)
        → found ≡ some y
        → (y.start_date ≤ to) × ((from ≤ to) ⊎ (from ≤ y.start_date)))
    → ((active_context found intersected date_from from to).visible_to
        ≡ (active_context found intersected date_from from to).computed_to)
      × IsRanged
          (active_context found intersected date_from from to).visible_from
          (active_context found intersected date_from from to).computed_from
          (active_context found intersected date_from from to).visible_to
active_or_bare-IsRanged none intersected date_from from to fits = (refl, (omega arith, inr refl))
active_or_bare-IsRanged (some active) intersected date_from from to fits =
    let (starts, choice) = fits active refl in
    (refl, active_context-IsRanged active intersected date_from from to starts choice)

same_days : (date_from : Option ℕ) (to : ℕ) → IsRanged date_from date_from to
same_days none to = tt
same_days (some d) to = (omega arith, inr refl)

pub resolve_report_exercise_context-IsRanged :
    (exercises : List LogicalExercise) (date_from date_to : Option ℕ) (today : ℕ)
    → BeginsFirst exercises
    → starts_by date_from (or_default date_to today) ≡ true
    → ((resolve_report_exercise_context exercises date_from date_to today).visible_to
        ≡ (resolve_report_exercise_context exercises date_from date_to today).computed_to)
      × IsRanged
          (resolve_report_exercise_context exercises date_from date_to today).visible_from
          (resolve_report_exercise_context exercises date_from date_to today).computed_from
          (resolve_report_exercise_context exercises date_from date_to today).visible_to
unfolding resolve_report_exercise_context
resolve_report_exercise_context-IsRanged [] date_from date_to today first forward =
    (refl, same_days date_from (or_default date_to today))
resolve_report_exercise_context-IsRanged (x ∷ xs) date_from date_to today first forward =
    let to = or_default date_to today in
    let from = or_default date_from x.start_date in
    let kept = All-kept (λ y. x.start_date ≤ y.start_date) (intersects from to) (x ∷ xs) first in
    active_or_bare-IsRanged (last (where_ (intersects from to) (x ∷ xs)))
      (where_ (intersects from to) (x ∷ xs)) date_from from to
      (λ y e.
        let (le, meets) =
          last-All (λ y. (x.start_date ≤ y.start_date) × (intersects from to y ≡ true))
            (where_ (intersects from to) (x ∷ xs)) kept e in
        (begins_by from to y meets, day_choice x date_from to y forward le))
