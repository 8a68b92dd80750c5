-- ===== src/Reports/Tests.antt =====
-- Examples for the reports: the books of the sample company after a sale.
use mono256_sic_core.Base.{none, some, [], ◌∷◌, ◌≡◌, refl, arith}
use mono256_sic_core.Base.Int.{pos, sum_of, ◌+ℤ◌, ◌-ℤ◌}
use mono256_sic_core.Store.{SourceType}
use mono256_sic_core.Journal.Invariant.{line_debit, line_credit}
use mono256_sic_core.Samples.{
  shop, student, empty_books, opened_books, opening_lines, sold_books, cash_account,
}
use mono256_sic_core.Samples.Valid.{empty-WellFormed, create-opening, sold-WellFormed}
use mono256_sic_core.Samples.Kept.{empty-Complete, sold-Complete}
use mono256_sic_core.Reports.Kept.{create_journal_entry-Complete}
use mono256_sic_core.Closing.Exercises.{LogicalExercise, ExerciseStatus}
use mono256_sic_core.Reports.Context.{ReportExerciseContext, resolve_report_exercise_context}
use mono256_sic_core.Reports.Rows.{lines_in, Complete}
use mono256_sic_core.Reports.Trial.{get_trial_balance, trial_row}
use mono256_sic_core.Reports.Trial.Totals.{get_trial_balance_lem}
use mono256_sic_core.Reports.Book.{get_journal_book, get_journal_book_lem}
use mono256_sic_core.Reports.Ledger.{ledger_account, balance_delta}
use mono256_sic_core.Reports.Ledger.Continuity.{ledger_account-closing}
use mono256_sic_core.Reports.Ledger.Running.{ledger_account_lem, last_balance}

abbrev year : ReportExerciseContext
unfolding resolve_report_exercise_context
year = resolve_report_exercise_context [] (some 90) (some 200) 200

get_trial_balance_lem_example :
    ((get_trial_balance sold_books 7 year).grand_total_debit
      ≡ sum_of line_debit (lines_in sold_books 7 (some 90) 200))
    × ((get_trial_balance sold_books 7 year).grand_total_credit
        ≡ sum_of line_credit (lines_in sold_books 7 (some 90) 200))
    × ((get_trial_balance sold_books 7 year).grand_total_debit
        ≡ (get_trial_balance sold_books 7 year).grand_total_credit)
    × ((get_trial_balance sold_books 7 year).total_debit_balance
        ≡ (get_trial_balance sold_books 7 year).total_credit_balance)
unfolding year
get_trial_balance_lem_example =
    get_trial_balance_lem sold_books 7 year sold-WellFormed sold-Complete

-- 1050.00 on each side.
trial_total : (get_trial_balance sold_books 7 year).grand_total_debit ≡ pos 105000
unfolding get_trial_balance year sum_of ◌+ℤ◌
trial_total = refl

get_journal_book_lem_example :
    ((get_journal_book sold_books 7 year).grand_total_debit
      ≡ (get_journal_book sold_books 7 year).grand_total_credit)
    × (year.visible_from ≡ year.computed_from
        → year.visible_to ≡ year.computed_to
        → ((get_journal_book sold_books 7 year).grand_total_debit
            ≡ (get_trial_balance sold_books 7 year).grand_total_debit)
          × ((get_journal_book sold_books 7 year).grand_total_credit
              ≡ (get_trial_balance sold_books 7 year).grand_total_credit))
get_journal_book_lem_example = get_journal_book_lem sold_books 7 year sold-WellFormed sold-Complete

ledger_account_lem_example :
    last_balance
      (ledger_account sold_books 7 year cash_account).opening_balance
      (ledger_account sold_books 7 year cash_account).movements
    ≡ (ledger_account sold_books 7 year cash_account).closing_balance
ledger_account_lem_example = ledger_account_lem sold_books 7 year cash_account

abbrev first_exercise : LogicalExercise
first_exercise = record {
  exercise_index = 1;
  opening_entry_id = 1;
  opening_source_type = SourceType.opening;
  start_date = 100;
  closing_entry_id = none;
  closing_date = none;
  snapshot_id = none;
  status = ExerciseStatus.open_;
}

abbrev second_half : ReportExerciseContext
unfolding resolve_report_exercise_context
second_half = resolve_report_exercise_context (first_exercise ∷ []) (some 110) (some 200) 200

-- Only the sale is shown, and the opening balance is that of the days before.
ledger_account-closing_example :
    (ledger_account sold_books 7 second_half cash_account).closing_balance
    ≡ balance_delta cash_account.type
        (trial_row
          (lines_in sold_books 7 second_half.computed_from second_half.computed_to)
          cash_account).total_debit
        (trial_row
          (lines_in sold_books 7 second_half.computed_from second_half.computed_to)
          cash_account).total_credit
unfolding second_half
ledger_account-closing_example =
    ledger_account-closing sold_books 7 cash_account (first_exercise ∷ []) (some 110) (some 200) 200
      (refl, (refl, tt)) (omega arith, tt) refl

cash-opening : (ledger_account sold_books 7 second_half cash_account).opening_balance ≡ pos 100000
unfolding ledger_account second_half ◌-ℤ◌ sum_of ◌+ℤ◌
cash-opening = refl

create_journal_entry-Complete_example : Complete opened_books
create_journal_entry-Complete_example =
    create_journal_entry-Complete empty_books shop student 100 "s/ Inventario Inicial"
      SourceType.opening "" opening_lines empty-WellFormed empty-Complete tt create-opening
