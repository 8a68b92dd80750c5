-- ===== src/Closing/Balances.antt =====
-- The working balances of a closing: one node for each account with movements, and a virtual node
-- for each support account that a draft names before it exists. The source's dictionary is a list of
-- nodes with distinct keys, in the order of insertion.
pub mod Measure
pub mod Update
pub mod Consistent
pub mod Fits
use mono256_sic_core.Base.{
  ℕ, Bool, true, false, not, ◌&&◌, ◌||◌, Option, none, some, List, [], ◌∷◌, ◌++◌, map, String, ◌==◌,
  leb, if◌then◌else◌, or_default, exists, where_, find, str_eq, codes_eq, normalize,
}
use mono256_sic_core.Base.Int.{ℤ, pos, ◌+ℤ◌, ◌-ℤ◌, ltb_ℤ, sum_of}
use mono256_sic_core.Base.Result.{
  Result, ok, raise, Error, ◌>>=◌, ◌>>◌, or_raise, key_error, raise_if, conflict_error, Reason,
}
use mono256_sic_core.Store.{
  Company, Account, AccountType, CompanyAccount, LineType, JournalEntry, JournalEntryLine, Db,
}
use mono256_sic_core.Closing.Draft.{DraftLine, DraftEntry}

-- `id:…` or `virtual:…|…` with the name stripped and lowered.
pub data Key : Type 0 where
  by_id : ℕ → Key
  virtual : String → List ℕ → Key

abbrev pub key_eq : Key → Key → Bool
key_eq (by_id i) (by_id j) = i == j
key_eq (virtual p n) (virtual q m) = str_eq p q && codes_eq n m
key_eq (by_id i) (virtual q m) = false
key_eq (virtual p n) (by_id j) = false

pub record BalanceNode : Type 0 where
  pub key : Key
  pub account_id : Option ℕ
  pub account_code : Option String
  pub account_name : String
  pub parent_code : String
  pub parent_name : String
  pub root_code : String
  pub account_type : AccountType
  pub total_debit : ℤ
  pub total_credit : ℤ

abbrev pub Balances : Type 0
Balances = List BalanceNode

abbrev pub at_least_zero : ℤ → ℤ
at_least_zero net = if ltb_ℤ (pos 0) net then net else pos 0

unfoldable pub debit_balance : BalanceNode → ℤ
debit_balance n = at_least_zero (n.total_debit -ℤ n.total_credit)

unfoldable pub credit_balance : BalanceNode → ℤ
credit_balance n = at_least_zero (n.total_credit -ℤ n.total_debit)

unfoldable pub account_key : Option ℕ → String → String → Key
account_key (some id) parent_code name = by_id id
account_key none parent_code name = virtual parent_code (normalize name)

abbrev pub line_key : DraftLine → Key
line_key l = account_key l.account_id l.parent_code l.account_name

abbrev pub add_amount : LineType → ℤ → BalanceNode → BalanceNode
add_amount LineType.debit amount n = record n { total_debit = n.total_debit +ℤ amount }
add_amount LineType.credit amount n = record n { total_credit = n.total_credit +ℤ amount }

abbrev pub has_key : Key → BalanceNode → Bool
has_key k n = key_eq n.key k

-- `node.total_… += amount` on the node under the key.
abbrev pub add_at : Key → LineType → ℤ → Balances → Balances
add_at k type amount = map (λ n. if has_key k n then add_amount type amount n else n)

-- `parent_code.split(".", 1)[0]`
unfoldable pub first_segment : String → String
first_segment String.[] = String.[]
first_segment (String.◌∷◌ ch s) =
    if str_eq (String.◌∷◌ ch String.[]) "." then String.[] else String.◌∷◌ ch (first_segment s)

-- Every code in the source's table is the first segment of its key.
unfoldable pub root_of_parent : String → String
root_of_parent p =
    if str_eq p "1.01" || str_eq p "1.09"
    then "1"
    else if str_eq p "3.02"
    then "3"
    else if str_eq p "4.01" || str_eq p "4.12" || str_eq p "4.13"
    then "4"
    else if str_eq p "5.06" || str_eq p "5.07"
    then "5"
    else first_segment p

unfoldable pub name_of_parent : String → String
name_of_parent p =
    if str_eq p "1.01"
    then "Caja"
    else if str_eq p "1.09"
    then "Mercaderías"
    else if str_eq p "3.02"
    then "Resultado del Ejercicio"
    else if str_eq p "4.01"
    then "Costo de Mercaderías Vendidas"
    else if str_eq p "4.12"
    then "Faltante de Caja"
    else if str_eq p "4.13"
    then "Faltante de Mercaderías"
    else if str_eq p "5.06"
    then "Sobrante de Caja"
    else if str_eq p "5.07"
    then "Sobrante de Mercaderías"
    else p

-- `account_type_by_root[root_code]`
unfoldable pub type_of_root : String → Result AccountType
type_of_root r =
    if str_eq r "1"
    then ok AccountType.asset
    else if str_eq r "2"
    then ok AccountType.liability
    else if str_eq r "3"
    then ok AccountType.equity
    else if str_eq r "4"
    then ok AccountType.expense
    else if str_eq r "5"
    then ok AccountType.income
    else raise key_error

abbrev pub virtual_node : String → String → AccountType → BalanceNode
virtual_node parent_code name type = record {
  key = account_key none parent_code name;
  account_id = none;
  account_code = none;
  account_name = name;
  parent_code = parent_code;
  parent_name = name_of_parent parent_code;
  root_code = root_of_parent parent_code;
  account_type = type;
  total_debit = pos 0;
  total_credit = pos 0;
}

-- `_get_or_create_virtual_balance`: the dictionary with the virtual node in it.
unfoldable pub with_virtual : Balances → String → String → AccountType → Balances
with_virtual bs parent_code name type =
    if exists (has_key (account_key none parent_code name)) bs
    then bs
    else bs ++ virtual_node parent_code name type ∷ []

-- One round of the loop of `_apply_entry_to_balances`.
unfoldable pub apply_line : Balances → DraftLine → Result Balances
apply_line bs l =
    if exists (has_key (line_key l)) bs then ok (add_at (line_key l) l.type l.amount bs) else (do
      type ← type_of_root (root_of_parent l.parent_code)
      ok (
          add_at (account_key none l.parent_code l.account_name) l.type l.amount
            (with_virtual bs l.parent_code l.account_name type)))

unfoldable pub apply_lines : Balances → List DraftLine → Result Balances
apply_lines bs [] = ok bs
apply_lines bs (l ∷ ls) = apply_line bs l >>= λ bs'. apply_lines bs' ls

-- `_apply_entry_to_balances`
unfoldable pub apply_entry : Balances → DraftEntry → Result Balances
unfolding apply_lines
apply_entry bs e = apply_lines bs e.lines

abbrev pub has_parent : String → BalanceNode → Bool
has_parent parent_code n = str_eq n.parent_code parent_code

-- `_aggregate_parent_balance`: debits, credits and their difference.
unfoldable pub aggregate_parent_balance : Balances → String → ℤ × ℤ × ℤ
aggregate_parent_balance bs parent_code =
    let nodes = where_ (has_parent parent_code) bs in
    let debit = sum_of (λ (n : BalanceNode). n.total_debit) nodes in
    let credit = sum_of (λ (n : BalanceNode). n.total_credit) nodes in
    (debit, credit, debit -ℤ credit)

abbrev pub is_patrimonial : BalanceNode → Bool
is_patrimonial n = str_eq n.root_code "1" || str_eq n.root_code "2" || str_eq n.root_code "3"

abbrev pub is_root : String → BalanceNode → Bool
is_root r n = str_eq n.root_code r
