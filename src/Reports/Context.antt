-- ===== src/Reports/Context.antt =====
-- `resolve_report_exercise_context` (apps/closing/selectors.py): which part of the books a report shows.
-- A day where the request gives none is an argument.
use mono256_sic_core.Base.{
  ℕ, Bool, ◌&&◌, Option, none, some, List, [], ◌∷◌, reverse, ltb, leb, if◌then◌else◌, where_,
  or_default,
}
use mono256_sic_core.Closing.Exercises.{LogicalExercise, last}

pub record ReportExerciseContext : Type 0 where
  pub requested_from : Option ℕ
  pub requested_to : ℕ
  pub active_exercise : Option LogicalExercise
  pub previous_exercises : List LogicalExercise
  pub visible_from : Option ℕ
  pub visible_to : ℕ
  pub computed_from : Option ℕ
  pub computed_to : ℕ

-- Without an exercise the request is shown as it stands.
abbrev pub bare_context : Option ℕ → ℕ → Option ℕ → ReportExerciseContext
bare_context requested actual_to from = record {
  requested_from = requested;
  requested_to = actual_to;
  active_exercise = none;
  previous_exercises = [];
  visible_from = from;
  visible_to = actual_to;
  computed_from = from;
  computed_to = actual_to;
}

abbrev pub intersects : ℕ → ℕ → LogicalExercise → Bool
intersects from to x = leb x.start_date to && leb from (or_default x.closing_date to)

-- `exercises[:-1]`
abbrev pub all_but_last : List LogicalExercise → List LogicalExercise
all_but_last [] = []
all_but_last (x ∷ []) = []
all_but_last (x ∷ y ∷ ys) = x ∷ all_but_last (y ∷ ys)

abbrev pub active_context :
    Option LogicalExercise → List LogicalExercise → Option ℕ → ℕ → ℕ → ReportExerciseContext
active_context none intersected requested from to = bare_context requested to (some from)
active_context (some active) intersected requested from to = record {
  requested_from = requested;
  requested_to = to;
  active_exercise = some active;
  previous_exercises = reverse (all_but_last intersected);
  visible_from = some (if ltb active.start_date from then from else active.start_date);
  visible_to = to;
  computed_from = some active.start_date;
  computed_to = to;
}

unfoldable pub resolve_report_exercise_context :
    List LogicalExercise → Option ℕ → Option ℕ → (today : ℕ) → ReportExerciseContext
resolve_report_exercise_context [] date_from date_to today =
    bare_context date_from (or_default date_to today) date_from
resolve_report_exercise_context (x ∷ xs) date_from date_to today =
    let to = or_default date_to today in
    let from = or_default date_from x.start_date in
    let intersected = where_ (intersects from to) (x ∷ xs) in
    active_context (last intersected) intersected date_from from to
