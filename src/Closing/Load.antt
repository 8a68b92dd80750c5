-- ===== src/Closing/Load.antt =====
-- `_load_balance_nodes`: the debits and credits of every account of the company that has movements
-- up to a date. The query's groups are its accounts, in the order of their full codes.
use mono256_sic_core.Base.{
  ℕ, Bool, ◌&&◌, Option, none, some, List, map, String, ◌==◌, leb, exists, where_, str_leb, sort_by,
}
use mono256_sic_core.Base.Int.{sum_of}
use mono256_sic_core.Store.{Account, JournalEntry, JournalEntryLine, Db}
use mono256_sic_core.Journal.{find_account}
use mono256_sic_core.Journal.Invariant.{line_debit, line_credit}
use mono256_sic_core.Closing.Balances.{BalanceNode, Balances, account_key}
use mono256_sic_core.Closing.Support.{is_owned_by}

-- `journal_entry__company=company, journal_entry__date__lte=date_to`
abbrev pub is_counted : ℕ → ℕ → JournalEntry → Bool
is_counted company_id date_to e = e.company_id == company_id && leb e.date date_to

abbrev pub line_is_counted : Db → ℕ → ℕ → JournalEntryLine → Bool
line_is_counted db company_id date_to l =
    exists (λ e. e.id == l.entry_id && is_counted company_id date_to e) db.entries

abbrev pub counted_lines : Db → ℕ → ℕ → List JournalEntryLine
counted_lines db company_id date_to = where_ (line_is_counted db company_id date_to) db.lines

abbrev pub on_account : ℕ → List JournalEntryLine → List JournalEntryLine
on_account account_id = where_ (λ l. l.account_id == account_id)

-- A field of the parent, through a foreign key that may be null; level-2 accounts have both parents.
abbrev parent_of : Db → Account → Option Account
parent_of db a = elim a.parent_id [ none ↦ none | some p ↦ find_account p db.accounts ]

abbrev full_code_of : Option Account → String
full_code_of none = ""
full_code_of (some a) = a.full_code

abbrev name_of : Option Account → String
name_of none = ""
name_of (some a) = a.name

abbrev grandparent_of : Db → Account → Option Account
grandparent_of db a = elim (parent_of db a) [ none ↦ none | some p ↦ parent_of db p ]

abbrev pub loaded_node : Db → List JournalEntryLine → Account → BalanceNode
loaded_node db lines a = record {
  key = account_key (some a.id) (full_code_of (parent_of db a)) a.name;
  account_id = some a.id;
  account_code = some a.full_code;
  account_name = a.name;
  parent_code = full_code_of (parent_of db a);
  parent_name = name_of (parent_of db a);
  root_code = full_code_of (grandparent_of db a);
  account_type = a.type;
  total_debit = sum_of line_debit (on_account a.id lines);
  total_credit = sum_of line_credit (on_account a.id lines);
}

abbrev pub has_lines : List JournalEntryLine → Account → Bool
has_lines lines a = exists (λ l. l.account_id == a.id) lines

abbrev pub code_le : Account → Account → Bool
code_le a b = str_leb a.full_code b.full_code

abbrev pub moved_accounts : Db → ℕ → List JournalEntryLine → List Account
moved_accounts db company_id lines =
    where_ (λ a. is_owned_by db company_id a && has_lines lines a) db.accounts

unfoldable pub load_balance_nodes : Db → ℕ → ℕ → Balances
unfolding sort_by
load_balance_nodes db company_id date_to =
    let lines = counted_lines db company_id date_to in
    map (loaded_node db lines) (sort_by code_le (moved_accounts db company_id lines))
