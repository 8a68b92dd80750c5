-- ===== src/Reports/Ledger/Running.antt =====
-- The balances of the ledger.
use mono256_sic_core.Base.{
  ℕ, Bool, true, false, not, List, [], ◌∷◌, ◌++◌, ◌≡◌, refl, ◌∙◌, if◌then◌else◌,
}
use mono256_sic_core.Base.Int.{ℤ, pos, ◌+ℤ◌, ◌-ℤ◌, sum_of, int_laws, parts_eq}
use mono256_sic_core.Store.{
  Account, AccountType, LineType, JournalEntry, JournalEntryLine, Db, is_debit, debit_part,
  credit_part,
}
use mono256_sic_core.Journal.Invariant.{line_debit, line_credit}
use mono256_sic_core.Reports.Context.{ReportExerciseContext}
use mono256_sic_core.Reports.Ledger.{
  is_debit_normal, balance_delta, Movement, RunningState, amount_if, movement_step, movement_loop,
  opening_from, movements_of, ledger_account,
}

abbrev pub pair_debit : JournalEntry × JournalEntryLine → ℤ
pair_debit (e, l) = line_debit l

abbrev pub pair_credit : JournalEntry × JournalEntryLine → ℤ
pair_credit (e, l) = line_credit l

-- The last balance that is shown, or the one at the start.
abbrev pub last_balance : ℤ → List Movement → ℤ
last_balance start [] = start
last_balance start (m ∷ ms) = last_balance m.balance ms

last_balance-append :
    (start : ℤ) (ms : List Movement) (m : Movement) → last_balance start (ms ++ m ∷ []) ≡ m.balance
last_balance-append start [] m = refl
last_balance-append start (x ∷ ms) m = last_balance-append x.balance ms m

-- The loop over the lines keeps its sums, its running balance and the last balance shown in step.
pub record IsInStep (type : AccountType) (opening : ℤ) (st : RunningState) : Type 0 where
  pub runs : st.running ≡ opening +ℤ balance_delta type st.period_debit st.period_credit
  pub shown : last_balance opening st.movements ≡ st.running

delta_step :
    (normal side : Bool) (running opening debit credit amount : ℤ)
    → running ≡ opening +ℤ (if normal then debit -ℤ credit else credit -ℤ debit)
    → running
        +ℤ (if normal
            then amount_if side amount -ℤ amount_if (not side) amount
            else amount_if (not side) amount -ℤ amount_if side amount)
      ≡ opening
        +ℤ (if normal
            then (if side then debit +ℤ amount else debit)
              -ℤ (if side then credit else credit +ℤ amount)
            else (if side then credit else credit +ℤ amount)
              -ℤ (if side then debit +ℤ amount else debit))
delta_step true true running opening debit credit amount h = omega (int_laws, parts_eq h)
delta_step true false running opening debit credit amount h = omega (int_laws, parts_eq h)
delta_step false true running opening debit credit amount h = omega (int_laws, parts_eq h)
delta_step false false running opening debit credit amount h = omega (int_laws, parts_eq h)

nothing_moved :
    (normal : Bool) (opening : ℤ)
    → opening ≡ opening +ℤ (if normal then pos 0 -ℤ pos 0 else pos 0 -ℤ pos 0)
nothing_moved true opening = omega int_laws
nothing_moved false opening = omega int_laws

movement_step-IsInStep :
    (type : AccountType) (opening : ℤ) (st : RunningState) (e : JournalEntry) (l : JournalEntryLine)
    → IsInStep type opening st
    → IsInStep type opening (movement_step type st (e, l))
unfolding movement_step
movement_step-IsInStep type opening st e l ok_so_far = record {
  runs =
      delta_step (is_debit_normal type) (is_debit l.type) st.running opening st.period_debit
        st.period_credit l.amount ok_so_far.runs;
  shown = last_balance-append opening st.movements _;
}

movement_loop-IsInStep :
    (type : AccountType) (opening : ℤ) (st : RunningState)
    (xs : List (JournalEntry × JournalEntryLine))
    → IsInStep type opening st
    → IsInStep type opening (movement_loop type st xs)
unfolding movement_loop
movement_loop-IsInStep type opening st [] so_far = so_far
movement_loop-IsInStep type opening st ((e, l) ∷ xs) so_far =
    movement_loop-IsInStep type opening (movement_step type st (e, l)) xs
      (movement_step-IsInStep type opening st e l so_far)

step_sums :
    (side : LineType) (debit credit amount : ℤ)
    → ((if is_debit side then debit +ℤ amount else debit) ≡ debit +ℤ debit_part side amount)
      × ((if is_debit side then credit else credit +ℤ amount) ≡ credit +ℤ credit_part side amount)
step_sums LineType.debit debit credit amount = (refl, omega int_laws)
step_sums LineType.credit debit credit amount = (omega int_laws, refl)

pub movement_loop_sums :
    (type : AccountType) (st : RunningState) (xs : List (JournalEntry × JournalEntryLine))
    → ((movement_loop type st xs).period_debit ≡ st.period_debit +ℤ sum_of pair_debit xs)
      × ((movement_loop type st xs).period_credit ≡ st.period_credit +ℤ sum_of pair_credit xs)
unfolding movement_loop movement_step sum_of
movement_loop_sums type st [] = (omega int_laws, omega int_laws)
movement_loop_sums type st ((e, l) ∷ xs) =
    let (debit, credit) = step_sums l.type st.period_debit st.period_credit l.amount in
    let (debits, credits) = movement_loop_sums type (movement_step type st (e, l)) xs in
    (
      omega (int_laws, parts_eq debits, parts_eq debit),
      omega (int_laws, parts_eq credits, parts_eq credit),
    )

-- In the ledger of every account, the last balance that is shown is the closing balance, which is the
-- opening balance where nothing moved.
pub ledger_account_lem :
    (db : Db) (company_id : ℕ) (context : ReportExerciseContext) (a : Account)
    → last_balance
        (ledger_account db company_id context a).opening_balance
        (ledger_account db company_id context a).movements
      ≡ (ledger_account db company_id context a).closing_balance
unfolding ledger_account
ledger_account_lem db company_id context a =
    let opening = opening_from context.visible_from db company_id context.computed_from a in
    let st : RunningState = record {
      running = opening;
      period_debit = pos 0;
      period_credit = pos 0;
      movements = [];
    } in
    let end =
      movement_loop-IsInStep a.type opening st (movements_of db company_id context a)
        (record { runs = nothing_moved (is_debit_normal a.type) opening; shown = refl }) in
    end.shown ∙ end.runs
