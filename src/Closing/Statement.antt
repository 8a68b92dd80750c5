-- ===== src/Closing/Statement.antt =====
-- The guards on the working balances, the income statement and the balance sheet.
pub mod Equation
use mono256_sic_core.Base.{
  ℕ, Bool, true, false, not, ◌&&◌, ◌||◌, Option, none, some, List, [], ◌∷◌, ◌++◌, map, String,
  if◌then◌else◌, exists, where_, str_eq, str_leb, sort_by,
}
use mono256_sic_core.Base.Int.{ℤ, pos, ◌+ℤ◌, ◌-ℤ◌, ltb_ℤ, leb_ℤ, eq_ℤ, sum_of}
use mono256_sic_core.Base.Result.{Result, ok, raise, ◌>>=◌, ◌>>◌, raise_if, conflict_error, Reason}
use mono256_sic_core.Store.{AccountType}
use mono256_sic_core.Closing.Balances.{
  BalanceNode, Balances, debit_balance, credit_balance, is_root,
}

-- The group of a node in `_validate_patrimonial_natural_balances`: the nodes of its root and parent.
abbrev pub same_group : BalanceNode → BalanceNode → Bool
same_group n m = str_eq m.root_code n.root_code && str_eq m.parent_code n.parent_code

abbrev pub group_debit : Balances → BalanceNode → ℤ
group_debit bs n = sum_of (λ (m : BalanceNode). m.total_debit) (where_ (same_group n) bs)

abbrev pub group_credit : Balances → BalanceNode → ℤ
group_credit bs n = sum_of (λ (m : BalanceNode). m.total_credit) (where_ (same_group n) bs)

-- A group of assets with a credit balance; a group of liabilities or equity with a debit balance.
abbrev pub is_contrary_debit : Balances → String → BalanceNode → Bool
is_contrary_debit bs r n = is_root r n && ltb_ℤ (group_debit bs n -ℤ group_credit bs n) (pos 0)

abbrev pub is_contrary_credit : Balances → String → BalanceNode → Bool
is_contrary_credit bs r n = is_root r n && ltb_ℤ (group_credit bs n -ℤ group_debit bs n) (pos 0)

unfoldable pub validate_patrimonial_natural_balances : Balances → Result (Unit {0})
validate_patrimonial_natural_balances bs = do
  raise_if (exists (is_contrary_debit bs "1") bs) (conflict_error Reason.asset_not_debit)
  raise_if (exists (is_contrary_credit bs "2") bs) (conflict_error Reason.liability_not_credit)
  raise_if (exists (is_contrary_credit bs "3") bs) (conflict_error Reason.equity_not_credit)

abbrev pub has_debit_balance : BalanceNode → Bool
has_debit_balance n = ltb_ℤ (pos 0) (debit_balance n)

abbrev pub has_credit_balance : BalanceNode → Bool
has_credit_balance n = ltb_ℤ (pos 0) (credit_balance n)

abbrev pub in_debit : String → Balances → List BalanceNode
in_debit r = where_ (λ n. is_root r n && has_debit_balance n)

abbrev pub in_credit : String → Balances → List BalanceNode
in_credit r = where_ (λ n. is_root r n && has_credit_balance n)

pub record ResultNodes : Type 0 where
  pub negative_accounts : List BalanceNode
  pub positive_accounts : List BalanceNode
  pub total_negative : ℤ
  pub total_positive : ℤ
  pub net : ℤ

abbrev pub result_nodes : Balances → ResultNodes
result_nodes bs = record {
  negative_accounts = in_debit "4" bs;
  positive_accounts = in_credit "5" bs;
  total_negative = sum_of debit_balance (in_debit "4" bs);
  total_positive = sum_of credit_balance (in_credit "5" bs);
  net = sum_of credit_balance (in_credit "5" bs) -ℤ sum_of debit_balance (in_debit "4" bs);
}

-- `_collect_result_nodes`
unfoldable pub collect_result_nodes : Balances → Result ResultNodes
collect_result_nodes bs = do
  raise_if (exists (λ n. is_root "4" n && has_credit_balance n) bs)
      (conflict_error Reason.negative_not_debit)
  raise_if (exists (λ n. is_root "5" n && has_debit_balance n) bs)
      (conflict_error Reason.positive_not_credit)
  ok (result_nodes bs)

-- A line of a group in a statement, and a group: a colectiva with its accounts.
pub record StatementAccount : Type 0 where
  pub account_id : Option ℕ
  pub account_code : Option String
  pub account_name : String
  pub account_type : AccountType
  pub amount : ℤ

pub record StatementGroup : Type 0 where
  pub account_code : String
  pub account_name : String
  pub subtotal : ℤ
  pub accounts : List StatementAccount

abbrev pub statement_account : BalanceNode → ℤ → StatementAccount
statement_account n amount = record {
  account_id = n.account_id;
  account_code = n.account_code;
  account_name = n.account_name;
  account_type = n.account_type;
  amount = amount;
}

-- `grouped.setdefault(node.parent_code, …)` and the two updates of the group.
unfoldable pub add_to_group : BalanceNode → ℤ → List StatementGroup → List StatementGroup
add_to_group n amount [] =
    record {
      account_code = n.parent_code;
      account_name = n.parent_name;
      subtotal = pos 0 +ℤ amount;
      accounts = statement_account n amount ∷ [];
    }
    ∷ []
add_to_group n amount (g ∷ gs) =
    if str_eq g.account_code n.parent_code
    then record g {
      subtotal = g.subtotal +ℤ amount;
      accounts = g.accounts ++ statement_account n amount ∷ [];
    }
      ∷ gs
    else g ∷ add_to_group n amount gs

unfoldable pub group_nodes :
    (BalanceNode → ℤ) → List BalanceNode → List StatementGroup → List StatementGroup
unfolding add_to_group
group_nodes amount_of [] gs = gs
group_nodes amount_of (n ∷ ns) gs =
    group_nodes amount_of ns
      (if leb_ℤ (amount_of n) (pos 0) then gs else add_to_group n (amount_of n) gs)

abbrev pub group_le : StatementGroup → StatementGroup → Bool
group_le g h = str_leb g.account_code h.account_code

-- `_group_statement_nodes`
unfoldable pub group_statement_nodes : (BalanceNode → ℤ) → List BalanceNode → List StatementGroup
unfolding group_nodes sort_by
group_statement_nodes amount_of ns = sort_by group_le (group_nodes amount_of ns [])

pub data ResultKind : Type 0 where
  gain loss neutral : ResultKind

abbrev pub kind_of : ℤ → ResultKind
kind_of net =
    if ltb_ℤ (pos 0) net
    then ResultKind.gain
    else if ltb_ℤ net (pos 0)
    then ResultKind.loss
    else ResultKind.neutral

pub record IncomeStatement : Type 0 where
  pub positive_groups : List StatementGroup
  pub positive_total : ℤ
  pub negative_groups : List StatementGroup
  pub negative_total : ℤ
  pub net_amount : ℤ
  pub net_kind : ResultKind

abbrev pub income_statement_of : ResultNodes → IncomeStatement
income_statement_of r = record {
  positive_groups = group_statement_nodes credit_balance r.positive_accounts;
  positive_total = r.total_positive;
  negative_groups = group_statement_nodes debit_balance r.negative_accounts;
  negative_total = r.total_negative;
  net_amount = r.net;
  net_kind = kind_of r.net;
}

unfoldable pub build_income_statement : Balances → Result IncomeStatement
unfolding collect_result_nodes group_statement_nodes
build_income_statement bs = do r ← collect_result_nodes bs; ok (income_statement_of r)

pub record BalanceSheet : Type 0 where
  pub asset_groups : List StatementGroup
  pub assets_total : ℤ
  pub liability_groups : List StatementGroup
  pub liabilities_total : ℤ
  pub equity_groups : List StatementGroup
  pub derived_result : ℤ
  pub derived_kind : ResultKind
  pub total_equity : ℤ
  pub total_liabilities_plus_equity : ℤ
  pub is_balanced : Bool

unfoldable pub build_balance_sheet : Balances → IncomeStatement → BalanceSheet
unfolding group_statement_nodes
build_balance_sheet bs income =
    let assets = sum_of debit_balance (in_debit "1" bs) in
    let liabilities = sum_of credit_balance (in_credit "2" bs) in
    let equity = sum_of credit_balance (in_credit "3" bs) +ℤ income.net_amount in
    record {
      asset_groups = group_statement_nodes debit_balance (in_debit "1" bs);
      assets_total = assets;
      liability_groups = group_statement_nodes credit_balance (in_credit "2" bs);
      liabilities_total = liabilities;
      equity_groups = group_statement_nodes credit_balance (in_credit "3" bs);
      derived_result = income.net_amount;
      derived_kind = income.net_kind;
      total_equity = equity;
      total_liabilities_plus_equity = liabilities +ℤ equity;
      is_balanced = eq_ℤ assets (liabilities +ℤ equity);
    }
