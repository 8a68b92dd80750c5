-- ===== src/Closing/Tests.antt =====
-- The theorems of the closing on a small company, and runs of its services.
use mono256_sic_core.Base.{
  Bool, false, none, some, List, [], ◌∷◌, ◌≡◌, ◌↔◌, refl, arith, All, String, where_, find, str_eq,
  str_eq_iff, ◌==◌, normalize, int_of_code, two_digits,
}
use mono256_sic_core.Base.Int.{pos, ◌+ℤ◌, ◌-ℤ◌, sum_of, eq_ℤ}
use mono256_sic_core.Base.Result.{Result, ok, raise, or_raise, key_error}
use mono256_sic_core.Store.{SourceType, Company, Account, JournalEntry, ClosingSnapshot, Db}
use mono256_sic_core.Journal.{
  create_journal_entry, assert_books_open, check_lines, check_line, check_totals,
}
use mono256_sic_core.Companies.{assert_actor_can_write_company}
use mono256_sic_core.Journal.Invariant.{WellFormed}
use mono256_sic_core.Samples.Valid.{sold-WellFormed}
use mono256_sic_core.Samples.{
  student, shop, sold_books, opening_entry, sale_lines, chart, cash_account,
}
use mono256_sic_core.Closing.Draft.{DraftEntry, draft_entry}
use mono256_sic_core.Closing.Balances.{
  Balances, aggregate_parent_balance, root_of_parent, account_key, first_segment, apply_entry,
  apply_line, type_of_root, with_virtual, debit_balance, credit_balance,
}
use mono256_sic_core.Closing.Balances.Measure.{IsConsistent, weigh, line_weight}
use mono256_sic_core.Closing.Adjust.{
  ClosingRequest, Adjustments, no_summary, abs, build_adjustment_entries,
}
use mono256_sic_core.Closing.Adjust.Counted.{
  build_adjustment_entries_lem, IsCounted, IsBalancedDraft, everywhere,
}
use mono256_sic_core.Closing.Statement.{
  IncomeStatement, income_statement_of, result_nodes, build_income_statement, build_balance_sheet,
  ResultKind,
}
use mono256_sic_core.Closing.Statement.Equation.{build_balance_sheet_lem, credits, debits}
use mono256_sic_core.Closing.Entries.{ResultClosing, build_result_closing_entries}
use mono256_sic_core.Closing.Entries.Weights.{Below}
use mono256_sic_core.Closing.Entries.Closed.{build_result_closing_entries_lem}
use mono256_sic_core.Closing.Exercises.{
  LogicalExercise, build_logical_exercises, chain_start, current_exercise, last,
}
use mono256_sic_core.Closing.Exercises.Chain.{IsNumbered, IsOpenLast, build_logical_exercises_lem}
use mono256_sic_core.Closing.Exercises.Accepted.{IsAccepted, Follows, Phase, chain_loop_iff}
use mono256_sic_core.Closing.Support.{is_child_of, suffixes_of, next_child_number}
use mono256_sic_core.Closing.Support.Fresh.{
  IsFirstFree, AllTaken, next_child_number-IsFirstFree, next_child_number-none,
}
use mono256_sic_core.Closing.Load.{load_balance_nodes}
use mono256_sic_core.Closing.Plan.Loaded.{build_simplified_closing_plan-IsBalancedDraft}
use mono256_sic_core.Samples.Kept.{sold-Complete}
use mono256_sic_core.Closing.Plan.{Plan, ordered_entries, plan_from, build_simplified_closing_plan}
use mono256_sic_core.Closing.Plan.Emptied.{plan_from_lem, plan_from-IsBalancedDraft}
use mono256_sic_core.Closing.Execute.{Closing, execute_simplified_closing}
use mono256_sic_core.Closing.Execute.Keeps.{
  execute_simplified_closing-WellFormed, execute_simplified_closing-closed,
}

-- What a run of the services computes with.
services : Unit {0}
unfolding execute_simplified_closing load_balance_nodes aggregate_parent_balance root_of_parent
    account_key first_segment apply_entry apply_line type_of_root with_virtual debit_balance
    credit_balance normalize abs int_of_code two_digits assert_actor_can_write_company
    assert_books_open check_lines check_line check_totals build_adjustment_entries
    build_income_statement build_balance_sheet build_result_closing_entries plan_from
    build_logical_exercises next_child_number create_journal_entry ◌+ℤ◌ ◌-ℤ◌ sum_of
services = tt

-- The books of the sale, which show 1050.00 in cash; 1040.00 are counted.
abbrev request : ClosingRequest
request = record {
  closing_date = 130;
  reopening_date = 131;
  cash_actual = some (pos 104000);
  inventory_actual = none;
}

abbrev value_of : {A : Type 0} → A → Result A → A
value_of d (ok x) = x
value_of d (raise e) = d

abbrev loaded : Balances
unfolding services
loaded = load_balance_nodes sold_books 7 130

loaded-IsConsistent : IsConsistent loaded
unfolding services
loaded-IsConsistent = record {
  unique = (refl, (refl, (refl, tt)));
  sound = ((refl, refl, refl), ((refl, refl, refl), ((refl, refl, refl), tt)));
}

abbrev no_adjustments : Adjustments
no_adjustments = record {
  entries = [];
  cash_summary = no_summary;
  inventory_summary = no_summary;
  balances = [];
}

abbrev adjusted : Adjustments
unfolding services
adjusted = value_of no_adjustments (build_adjustment_entries request loaded)

build_adjustment_entries_lem_example :
    IsConsistent adjusted.balances
    × (sum_of (weigh everywhere) adjusted.balances ≡ sum_of (weigh everywhere) loaded)
    × All IsBalancedDraft adjusted.entries
    × IsCounted (some (pos 104000)) (aggregate_parent_balance adjusted.balances "1.01").2
    × IsCounted none (aggregate_parent_balance adjusted.balances "1.09").2
unfolding services
build_adjustment_entries_lem_example =
    build_adjustment_entries_lem request loaded {a = adjusted} loaded-IsConsistent refl

adjusted-IsConsistent : IsConsistent adjusted.balances
unfolding services
adjusted-IsConsistent =
    (build_adjustment_entries_lem request loaded {a = adjusted} loaded-IsConsistent refl).0

abbrev income : IncomeStatement
unfolding services
income = value_of (income_statement_of (result_nodes [])) (build_income_statement adjusted.balances)

-- The virtual cash account holds 10.00 in credit: the sheet is out of balance.
build_balance_sheet_lem_example :
    (build_balance_sheet adjusted.balances income).is_balanced
    ≡ eq_ℤ
        (credits "1" adjusted.balances)
        (debits "2" adjusted.balances +ℤ debits "3" adjusted.balances)
unfolding services
build_balance_sheet_lem_example =
    build_balance_sheet_lem adjusted.balances {income = income} adjusted-IsConsistent.sound refl
      refl

unbalanced_sheet : (build_balance_sheet adjusted.balances income).is_balanced ≡ false
unfolding services
unbalanced_sheet = refl

abbrev no_closing : ResultClosing
no_closing = record {
  entries = [];
  total_negative = pos 0;
  total_positive = pos 0;
  net_result = pos 0;
  net_kind = ResultKind.neutral;
  balances = [];
}

abbrev result_closing : ResultClosing
unfolding services
result_closing = value_of no_closing (build_result_closing_entries 130 adjusted.balances)

abbrev sales : String → Bool
sales p = str_eq p "5.01"

sales-Below : Below "5" sales
unfolding services
sales-Below p h = rw ((str_eq_iff p "5.01").0 h)

build_result_closing_entries_lem_example :
    All IsBalancedDraft result_closing.entries
    × (sum_of (weigh sales) result_closing.balances ≡ pos 0)
unfolding services
build_result_closing_entries_lem_example =
    build_result_closing_entries_lem 130 "5" sales adjusted.balances {c = result_closing} refl
      sales-Below adjusted-IsConsistent refl

abbrev no_entry : DraftEntry
no_entry = draft_entry 0 "" SourceType.other "" []

abbrev no_snapshot : ClosingSnapshot
no_snapshot = record {
  id = 0;
  company_id = 0;
  closing_entry_id = 0;
  reopening_entry_id = 0;
  closing_date = 0;
  reopening_date = 0;
}

abbrev closed_shop : Company
closed_shop = record shop { books_closed_until = some 130 }

abbrev plan : Plan
unfolding services
plan =
    value_of
      (record {
        active_exercise = none;
        previous_exercises = [];
        adjustments = no_adjustments;
        result = no_closing;
        balance_sheet = build_balance_sheet [] income;
        income_statement = income;
        patrimonial_closing = no_entry;
        reopening = no_entry;
        snapshot_lines = [];
      })
      (plan_from request [] loaded)

cash_group : String → Bool
cash_group p = str_eq p "1.01"

plan_from_lem_example :
    (sum_of (weigh cash_group) plan.result.balances
        +ℤ sum_of (line_weight cash_group) plan.patrimonial_closing.lines
      ≡ pos 0)
    × (sum_of (line_weight cash_group) plan.reopening.lines
        ≡ sum_of (weigh cash_group) plan.result.balances)
unfolding services
plan_from_lem_example =
    plan_from_lem request [] loaded cash_group {plan = plan} loaded-IsConsistent refl

plan_from-IsBalancedDraft_example : All IsBalancedDraft (ordered_entries plan)
unfolding services
plan_from-IsBalancedDraft_example =
    plan_from-IsBalancedDraft request [] loaded {plan = plan} loaded-IsConsistent refl refl

abbrev whole_plan : Plan
unfolding services
whole_plan = value_of plan (build_simplified_closing_plan sold_books shop request)

build_simplified_closing_plan-IsBalancedDraft_example :
    All IsBalancedDraft (ordered_entries whole_plan)
unfolding services
build_simplified_closing_plan-IsBalancedDraft_example =
    build_simplified_closing_plan-IsBalancedDraft sold_books shop request {plan = whole_plan}
      sold-WellFormed sold-Complete
      (
        (λ h. cc),
        (
          (λ h. cc),
          (
            (λ h. (refl, refl)),
            (
              (λ h. cc),
              (
                (λ h. cc),
                (
                  (λ h. (refl, refl)),
                  ((λ h. cc), ((λ h. cc), ((λ h. (refl, refl)), ((λ h. cc), ((λ h. cc), tt))))),
                ),
              ),
            ),
          ),
        ),
      )
      refl

abbrev exercises : List LogicalExercise
unfolding services
exercises = value_of [] (build_logical_exercises sold_books 7)

build_logical_exercises_lem_example :
    IsNumbered 1 exercises × IsOpenLast exercises × (current_exercise exercises ≡ last exercises)
unfolding services
build_logical_exercises_lem_example = build_logical_exercises_lem sold_books 7 {xs = exercises} refl

chain_loop_iff_example :
    IsAccepted [] chain_start (opening_entry ∷ []) ↔ Follows Phase.fresh (opening_entry ∷ [])
chain_loop_iff_example = chain_loop_iff [] (opening_entry ∷ []) (refl, tt)

abbrev cash_parent : Account
cash_parent = value_of cash_account (or_raise (find (λ a. a.id == 2) chart) key_error)

next_child_number-IsFirstFree_example :
    IsFirstFree (suffixes_of (where_ (is_child_of 2) chart)) 99 1 2
unfolding services
next_child_number-IsFirstFree_example = next_child_number-IsFirstFree sold_books cash_parent 2 refl

next_child_number-none_example :
    next_child_number sold_books cash_parent ≡ none
    ↔ AllTaken (suffixes_of (where_ (is_child_of 2) chart)) 99 1
unfolding services
next_child_number-none_example = next_child_number-none sold_books cash_parent

abbrev outcome : Closing × Db
unfolding services
outcome =
    value_of
      (record { created_entries = []; snapshot = no_snapshot; snapshot_lines = [] }, sold_books)
      (execute_simplified_closing sold_books shop student request)

execute_simplified_closing-WellFormed_example : WellFormed outcome.1
unfolding services
execute_simplified_closing-WellFormed_example =
    execute_simplified_closing-WellFormed sold_books shop student request {out = outcome} refl
      sold-WellFormed refl

execute_simplified_closing-closed_example : ¬ (
    (made : JournalEntry × Db) × (create_journal_entry outcome.1 closed_shop student 125 "Venta"
        SourceType.manual "" sale_lines
      ≡ ok made))
unfolding services
execute_simplified_closing-closed_example =
    execute_simplified_closing-closed sold_books shop student request {out = outcome} closed_shop
      student 125 "Venta" SourceType.manual "" sale_lines refl refl tt (omega arith)
