-- ===== src/Reports/Ledger.antt =====
-- The ledger (apps/reports/services/ledger.py), computed: the cache in front of it, the texts of amounts
-- and the first day that the header shows are left out.
pub mod Running
pub mod Continuity
use mono256_sic_core.Base.{
  ℕ, Bool, true, false, not, ◌&&◌, Option, none, some, List, [], ◌∷◌, ◌++◌, map, ◌==◌, ltb, leb,
  if◌then◌else◌, where_, exists, sort_by,
}
use mono256_sic_core.Base.Int.{ℤ, pos, ◌+ℤ◌, ◌-ℤ◌, sum_of}
use mono256_sic_core.Base.Sums.{flat_map}
use mono256_sic_core.Base.Result.{
  Result, ok, raise, Reason, validation_error, ◌>>=◌, ◌>>◌, raise_if,
}
use mono256_sic_core.Store.{
  Account, AccountType, LineType, JournalEntry, JournalEntryLine, Db, is_debit,
}
use mono256_sic_core.Journal.{lines_of}
use mono256_sic_core.Journal.Invariant.{line_debit, line_credit}
use mono256_sic_core.Closing.Support.{is_owned_by}
use mono256_sic_core.Closing.Load.{on_account, code_le}
use mono256_sic_core.Closing.Exercises.{entry_le}
use mono256_sic_core.Reports.Context.{ReportExerciseContext}
use mono256_sic_core.Reports.Rows.{starts_by, entries_in}

-- `_DEBIT_NORMAL`
abbrev pub is_debit_normal : AccountType → Bool
is_debit_normal AccountType.asset = true
is_debit_normal AccountType.expense = true
is_debit_normal AccountType.liability = false
is_debit_normal AccountType.equity = false
is_debit_normal AccountType.income = false

-- `_balance_delta`
abbrev pub balance_delta : AccountType → ℤ → ℤ → ℤ
balance_delta type debit credit = if is_debit_normal type then debit -ℤ credit else credit -ℤ debit

pub record Movement : Type 0 where
  pub entry : JournalEntry
  pub debit : Option ℤ
  pub credit : Option ℤ
  pub balance : ℤ

pub record LedgerAccount : Type 0 where
  pub account : Account
  pub opening_balance : ℤ
  pub movements : List Movement
  pub total_debit : ℤ
  pub total_credit : ℤ
  pub closing_balance : ℤ

-- The variables of the loop over the lines of an account.
pub record RunningState : Type 0 where
  pub running : ℤ
  pub period_debit : ℤ
  pub period_credit : ℤ
  pub movements : List Movement

abbrev pub amount_if : Bool → ℤ → ℤ
amount_if true amount = amount
amount_if false amount = pos 0

-- One round.
unfoldable pub movement_step :
    AccountType → RunningState → JournalEntry × JournalEntryLine → RunningState
movement_step type st (e, l) =
    let debit = is_debit l.type in
    let running =
      st.running
      +ℤ balance_delta type (amount_if debit l.amount) (amount_if (not debit) l.amount) in
    record {
      running = running;
      period_debit = if debit then st.period_debit +ℤ l.amount else st.period_debit;
      period_credit = if debit then st.period_credit else st.period_credit +ℤ l.amount;
      movements =
          st.movements
          ++ record {
            entry = e;
            debit = if debit then some l.amount else none;
            credit = if debit then none else some l.amount;
            balance = running;
          }
            ∷ [];
    }

unfoldable pub movement_loop :
    AccountType → RunningState → List (JournalEntry × JournalEntryLine) → RunningState
unfolding movement_step
movement_loop type st [] = st
movement_loop type st (x ∷ xs) = movement_loop type (movement_step type st x) xs

-- The entries before the days that are shown, from where the range is computed.
abbrev pub is_before : ℕ → Option ℕ → ℕ → JournalEntry → Bool
is_before company_id from visible e =
    e.company_id == company_id && (ltb e.date visible && starts_by from e.date)

abbrev pub lines_before : Db → ℕ → Option ℕ → ℕ → ℕ → List JournalEntryLine
lines_before db company_id from visible account_id =
    where_ (λ l. exists (λ e. l.entry_id == e.id && is_before company_id from visible e) db.entries)
      (on_account account_id db.lines)

abbrev pub opening_from : Option ℕ → Db → ℕ → Option ℕ → Account → ℤ
opening_from none db company_id from a = pos 0
opening_from (some visible) db company_id from a =
    let lines = lines_before db company_id from visible a.id in
    balance_delta a.type (sum_of line_debit lines) (sum_of line_credit lines)

-- The account's lines in the range, in the order of the entries' dates and numbers.
unfoldable pub movements_of :
    Db → ℕ → ReportExerciseContext → Account → List (JournalEntry × JournalEntryLine)
unfolding sort_by flat_map
movements_of db company_id context a =
    flat_map (λ e. map (λ l. (e, l)) (lines_of e.id (on_account a.id db.lines)))
      (sort_by entry_le (entries_in db company_id context.visible_from context.visible_to))

unfoldable pub ledger_account : Db → ℕ → ReportExerciseContext → Account → LedgerAccount
unfolding movements_of movement_loop
ledger_account db company_id context a =
    let opening = opening_from context.visible_from db company_id context.computed_from a in
    let start : RunningState = record {
      running = opening;
      period_debit = pos 0;
      period_credit = pos 0;
      movements = [];
    } in
    let end = movement_loop a.type start (movements_of db company_id context a) in
    record {
      account = a;
      opening_balance = opening;
      movements = end.movements;
      total_debit = end.period_debit;
      total_credit = end.period_credit;
      closing_balance = opening +ℤ balance_delta a.type end.period_debit end.period_credit;
    }

abbrev is_asked : Option ℕ → Account → Bool
is_asked none a = true
is_asked (some id) a = a.id == id

abbrev is_given : Option ℕ → Bool
is_given none = false
is_given (some id) = true

unfoldable pub get_ledger : Db → ℕ → ReportExerciseContext → Option ℕ → Result (List LedgerAccount)
unfolding ledger_account sort_by
get_ledger db company_id context account_id = do
  let accounts = where_ (λ a. is_owned_by db company_id a && is_asked account_id a) db.accounts
  raise_if (is_given account_id && not (exists (λ a. true) accounts))
      (validation_error Reason.bad_account_id)
  ok (map (ledger_account db company_id context) (sort_by code_le accounts))
