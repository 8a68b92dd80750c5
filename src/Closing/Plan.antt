-- ===== src/Closing/Plan.antt =====
-- `_validate_request` and `build_simplified_closing_plan`.
pub mod Emptied
pub mod Loaded
use mono256_sic_core.Base.{
  ℕ, Bool, true, false, not, ◌&&◌, Option, none, some, List, [], ◌∷◌, ◌++◌, reverse, ◌==◌, ltb, leb,
  if◌then◌else◌, exists, where_,
}
use mono256_sic_core.Base.Result.{
  Result, ok, raise, Error, ◌>>=◌, ◌>>◌, raise_if, conflict_error, validation_error, Reason,
}
use mono256_sic_core.Store.{
  SourceType, Company, JournalEntry, Db, is_reopening, is_patrimonial_closing,
}
use mono256_sic_core.Companies.{assert_company_writable, assert_company_accounting_ready}
use mono256_sic_core.Journal.{of_company}
use mono256_sic_core.Closing.Draft.{DraftEntry}
use mono256_sic_core.Closing.Balances.{Balances}
use mono256_sic_core.Closing.Adjust.{ClosingRequest, Adjustments, build_adjustment_entries}
use mono256_sic_core.Closing.Statement.{
  IncomeStatement, BalanceSheet, validate_patrimonial_natural_balances, build_income_statement,
  build_balance_sheet,
}
use mono256_sic_core.Closing.Entries.{
  ResultClosing, SnapshotLine, build_result_closing_entries, build_snapshot_lines,
  build_patrimonial_closing_and_reopening,
}
use mono256_sic_core.Closing.Exercises.{
  LogicalExercise, is_open, build_logical_exercises, current_exercise,
}
use mono256_sic_core.Closing.Load.{load_balance_nodes}

-- The guards on the current exercise.
abbrev pub check_exercise : ClosingRequest → Option LogicalExercise → Result (Unit {0})
check_exercise r none = raise (conflict_error Reason.no_open_exercise)
check_exercise r (some x) = do
  raise_if (not (is_open x)) (conflict_error Reason.no_open_exercise)
  raise_if (ltb r.closing_date x.start_date) (conflict_error Reason.before_exercise_start)

abbrev pub is_closed_at : Option ℕ → ℕ → Bool
is_closed_at none date = false
is_closed_at (some until) date = leb date until

abbrev pub is_later : ℕ → ℕ → JournalEntry → Bool
is_later company_id date e = e.company_id == company_id && ltb date e.date

abbrev pub closes_on : ℕ → ℕ → JournalEntry → Bool
closes_on company_id date e =
    (e.company_id == company_id && is_patrimonial_closing e.source_type) && e.date == date

abbrev pub reopens_on : ℕ → ℕ → JournalEntry → Bool
reopens_on company_id date e =
    (e.company_id == company_id && is_reopening e.source_type) && e.date == date

unfoldable pub validate_request : Db → Company → ClosingRequest → Result (Unit {0})
unfolding assert_company_writable assert_company_accounting_ready build_logical_exercises
    current_exercise
validate_request db c r = do
  assert_company_writable c
  assert_company_accounting_ready db c
  exercises ← build_logical_exercises db c.id
  check_exercise r (current_exercise exercises)
  raise_if (is_closed_at c.books_closed_until r.closing_date) (conflict_error Reason.already_closed)
  raise_if (leb r.reopening_date r.closing_date) (validation_error Reason.reopening_not_after)
  raise_if (exists (is_later c.id r.closing_date) db.entries) (conflict_error Reason.later_entries)
  raise_if (exists (closes_on c.id r.closing_date) db.entries)
      (conflict_error Reason.closing_exists)
  raise_if (exists (reopens_on c.id r.reopening_date) db.entries)
      (conflict_error Reason.reopening_exists)

pub record Plan : Type 0 where
  pub active_exercise : Option LogicalExercise
  pub previous_exercises : List LogicalExercise
  pub adjustments : Adjustments
  pub result : ResultClosing
  pub balance_sheet : BalanceSheet
  pub income_statement : IncomeStatement
  pub patrimonial_closing : DraftEntry
  pub reopening : DraftEntry
  pub snapshot_lines : List SnapshotLine

-- The order in which the entries are posted.
abbrev pub ordered_entries : Plan → List DraftEntry
ordered_entries p =
    p.adjustments.entries ++ p.result.entries ++ p.patrimonial_closing ∷ p.reopening ∷ []

abbrev is_other_exercise : Option LogicalExercise → LogicalExercise → Bool
is_other_exercise none x = true
is_other_exercise (some y) x = not (x.opening_entry_id == y.opening_entry_id)

-- The steps behind the request's guards, on the balances that were loaded.
unfoldable pub plan_from : ClosingRequest → List LogicalExercise → Balances → Result Plan
unfolding build_adjustment_entries validate_patrimonial_natural_balances build_income_statement
    build_balance_sheet build_result_closing_entries build_snapshot_lines
    build_patrimonial_closing_and_reopening current_exercise
plan_from r exercises loaded = do
  adjustments ← build_adjustment_entries r loaded
  validate_patrimonial_natural_balances adjustments.balances
  income ← build_income_statement adjustments.balances
  let sheet = build_balance_sheet adjustments.balances income
  result ← build_result_closing_entries r.closing_date adjustments.balances
  (closing, reopening) ← build_patrimonial_closing_and_reopening r result.balances
  ok (record {
    active_exercise = current_exercise exercises;
    previous_exercises =
        where_ (is_other_exercise (current_exercise exercises)) (reverse exercises);
    adjustments = adjustments;
    result = result;
    balance_sheet = sheet;
    income_statement = income;
    patrimonial_closing = closing;
    reopening = reopening;
    snapshot_lines = build_snapshot_lines result.balances;
  })

unfoldable pub build_simplified_closing_plan : Db → Company → ClosingRequest → Result Plan
unfolding validate_request build_logical_exercises load_balance_nodes plan_from
build_simplified_closing_plan db c r = do
  validate_request db c r
  exercises ← build_logical_exercises db c.id
  plan_from r exercises (load_balance_nodes db c.id r.closing_date)
