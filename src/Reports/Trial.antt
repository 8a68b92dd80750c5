-- ===== src/Reports/Trial.antt =====
-- The trial balance (apps/reports/services/trial_balance.py), computed: the cache in front of it, the
-- texts of amounts and the first day that the header shows are left out.
pub mod Totals
use mono256_sic_core.Base.{
  ℕ, Bool, true, false, ◌&&◌, Option, none, some, List, [], ◌∷◌, ◌++◌, map, String, ◌==◌, ltb, leb,
  if◌then◌else◌, where_, exists, or_default, str_leb, sort_by,
}
use mono256_sic_core.Base.Int.{ℤ, pos, ◌+ℤ◌, ◌-ℤ◌, ltb_ℤ, sum_of}
use mono256_sic_core.Store.{
  Account, AccountType, CompanyAccount, JournalEntry, JournalEntryLine, Db,
}
use mono256_sic_core.Journal.{find_account}
use mono256_sic_core.Journal.Invariant.{line_debit, line_credit}
use mono256_sic_core.Closing.Balances.{at_least_zero}
use mono256_sic_core.Closing.Load.{on_account, moved_accounts, code_le}
use mono256_sic_core.Reports.Context.{ReportExerciseContext}
use mono256_sic_core.Reports.Rows.{lines_in}

-- `_balance_pair`
abbrev pub balance_pair : ℤ → ℤ → Option ℤ × Option ℤ
balance_pair total_debit total_credit =
    let net = total_debit -ℤ total_credit in
    if ltb_ℤ (pos 0) net
    then (some net, none)
    else if ltb_ℤ net (pos 0)
    then (none, some (pos 0 -ℤ net))
    else (none, none)

pub record TrialRow : Type 0 where
  pub account : Account
  pub total_debit : ℤ
  pub total_credit : ℤ
  pub balances : Option ℤ × Option ℤ

-- A group has the key of the parent; its fields of the parent are looked up where they are shown.
pub record TrialGroup : Type 0 where
  pub parent_id : Option ℕ
  pub subtotal_debit : ℤ
  pub subtotal_credit : ℤ
  pub accounts : List TrialRow

abbrev pub trial_row : List JournalEntryLine → Account → TrialRow
trial_row lines a =
    let debit = sum_of line_debit (on_account a.id lines) in
    let credit = sum_of line_credit (on_account a.id lines) in
    record {
      account = a;
      total_debit = debit;
      total_credit = credit;
      balances = balance_pair debit credit;
    }

-- The query: one row for each account of the company that has lines in the range.
unfoldable pub trial_rows : Db → ℕ → List JournalEntryLine → List TrialRow
unfolding sort_by
trial_rows db company_id lines =
    map (trial_row lines) (sort_by code_le (moved_accounts db company_id lines))

abbrev pub same_parent : Option ℕ → Option ℕ → Bool
same_parent none none = true
same_parent none (some p) = false
same_parent (some p) none = false
same_parent (some p) (some q) = p == q

abbrev pub new_group : TrialRow → TrialGroup
new_group row = record {
  parent_id = row.account.parent_id;
  subtotal_debit = pos 0 +ℤ row.total_debit;
  subtotal_credit = pos 0 +ℤ row.total_credit;
  accounts = row ∷ [];
}

abbrev pub joined : TrialGroup → TrialRow → TrialGroup
joined g row = record g {
  subtotal_debit = g.subtotal_debit +ℤ row.total_debit;
  subtotal_credit = g.subtotal_credit +ℤ row.total_credit;
  accounts = g.accounts ++ row ∷ [];
}

-- One round of the loop over the rows: the group of the parent, made where it is missing.
unfoldable pub add_row : List TrialGroup → TrialRow → List TrialGroup
add_row [] row = new_group row ∷ []
add_row (g ∷ gs) row =
    let rest = add_row gs row in
    if same_parent g.parent_id row.account.parent_id then joined g row ∷ gs else g ∷ rest

unfoldable pub group_rows : List TrialGroup → List TrialRow → List TrialGroup
unfolding add_row
group_rows gs [] = gs
group_rows gs (row ∷ rows) = group_rows (add_row gs row) rows

abbrev pub group_net : TrialGroup → ℤ
group_net g = g.subtotal_debit -ℤ g.subtotal_credit

-- `g["account_code"] or ""`
abbrev pub group_code : Db → TrialGroup → String
group_code db g = elim g.parent_id [
  | none ↦ ""
  | some p ↦ elim (find_account p db.accounts) [ none ↦ "" | some a ↦ a.full_code ]
]

pub record TrialBalance : Type 0 where
  pub groups : List TrialGroup
  pub grand_total_debit : ℤ
  pub grand_total_credit : ℤ
  pub total_debit_balance : ℤ
  pub total_credit_balance : ℤ

-- The report over the range of the context, for which `today` is already chosen.
unfoldable pub get_trial_balance : Db → ℕ → ReportExerciseContext → TrialBalance
unfolding trial_rows group_rows sort_by
get_trial_balance db company_id context =
    let lines = lines_in db company_id context.computed_from context.computed_to in
    let rows = trial_rows db company_id lines in
    let groups = group_rows [] rows in
    record {
      groups = sort_by (λ g h. str_leb (group_code db g) (group_code db h)) groups;
      grand_total_debit = sum_of TrialRow.total_debit rows;
      grand_total_credit = sum_of TrialRow.total_credit rows;
      total_debit_balance = sum_of (λ g. at_least_zero (group_net g)) groups;
      total_credit_balance = sum_of (λ g. at_least_zero (pos 0 -ℤ group_net g)) groups;
    }
