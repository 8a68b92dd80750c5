-- ===== src/Samples.antt =====
-- A small company for the examples of the other modules: a cash account and a capital account, an
-- opening of 1000.00, and a sale.
pub mod Valid
pub mod Kept
pub mod Caches
pub mod Entries
use mono256_sic_core.Base.{
  ℕ, Bool, true, false, Option, none, some, List, [], ◌∷◌, map, String, ◌≡◌, refl, arith,
}
use mono256_sic_core.Base.Int.{ℤ, pos}
use mono256_sic_core.Store.{
  Role, User, Company, AccountType, Account, CompanyAccount, LineType, SourceType, JournalEntry,
  JournalEntryLine, Leg, Db,
}
use mono256_sic_core.Journal.{JournalLineInput, Heading, new_entry, make_leg, posted}

abbrev account : ℕ → String → String → String → AccountType → Option ℕ → ℕ → Account
account id full_code code name type parent_id level = record {
  id = id;
  full_code = full_code;
  code = code;
  name = name;
  type = type;
  parent_id = parent_id;
  level = level;
  currencies = "ARS" ∷ [];
}

abbrev pub student : User
student = record { id = 9; role = Role.student }

abbrev pub shop : Company
shop = record {
  id = 7;
  owner_id = 9;
  books_closed_until = none;
  is_demo = false;
  is_read_only = false;
  is_published = true;
  has_opening_entry = none;
}

abbrev pub cash_account : Account
cash_account = account 3 "1.01.01" ".01" "Caja Principal" AccountType.asset (some 2) 2

abbrev pub chart : List Account
chart =
    account 1 "1" "1" "ACTIVO" AccountType.asset none 0
    ∷ account 2 "1.01" ".01" "Caja" AccountType.asset (some 1) 1
    ∷ cash_account
    ∷ account 4 "3" "3" "PATRIMONIO NETO" AccountType.equity none 0
    ∷ account 5 "3.01" ".01" "Capital" AccountType.equity (some 4) 1
    ∷ account 6 "3.01.01" ".01" "Capital" AccountType.equity (some 5) 2
    ∷ account 7 "5" "5" "RESULTADO POSITIVO" AccountType.income none 0
    ∷ account 8 "5.01" ".01" "Ventas" AccountType.income (some 7) 1
    ∷ account 9 "5.01.01" ".01" "Ventas" AccountType.income (some 8) 2
    ∷ account 10 "4" "4" "RESULTADO NEGATIVO" AccountType.expense none 0
    ∷ account 11 "1.09" ".09" "Mercaderías" AccountType.asset (some 1) 1
    ∷ []

abbrev pub empty_books : Db
empty_books = record {
  companies = shop ∷ [];
  accounts = chart;
  company_accounts =
      record { account_id = 3; company_id = 7 }
      ∷ record { account_id = 6; company_id = 7 }
      ∷ record { account_id = 9; company_id = 7 }
      ∷ [];
  transactions = [];
  legs = [];
  entries = [];
  lines = [];
  snapshots = [];
  next_account_id = 12;
  next_transaction_id = 1;
  next_entry_id = 1;
  next_snapshot_id = 1;
  report_bumps = [];
  chart_bumps = [];
}

abbrev pub line : ℕ → LineType → ℕ → JournalLineInput
line account_id type amount = record { account_id = account_id; type = type; amount = pos amount }

abbrev pub opening_lines : List JournalLineInput
opening_lines = line 3 LineType.debit 100000 ∷ line 6 LineType.credit 100000 ∷ []

abbrev pub sale_lines : List JournalLineInput
sale_lines = line 3 LineType.debit 5000 ∷ line 9 LineType.credit 5000 ∷ []

abbrev heading : ℕ → String → SourceType → Heading
heading date description source_type = record {
  date = date;
  description = description;
  source_type = source_type;
  source_ref = "";
  reversal_of = none;
}

abbrev entry : ℕ → ℕ → String → SourceType → JournalEntry
entry number date description source_type = record {
  id = number;
  transaction_id = number;
  company_id = 7;
  entry_number = number;
  date = date;
  description = description;
  source_type = source_type;
  source_ref = "";
  created_by = 9;
  reversal_of = none;
}

abbrev pub opening_entry : JournalEntry
opening_entry = entry 1 100 "s/ Inventario Inicial" SourceType.opening

abbrev pub opened_books : Db
opened_books =
    posted empty_books shop (heading 100 "s/ Inventario Inicial" SourceType.opening) opening_entry
      opening_lines (map (make_leg 1 "ARS") opening_lines)

abbrev pub sale_entry : JournalEntry
sale_entry = entry 2 120 "Venta" SourceType.manual

abbrev pub sold_books : Db
sold_books =
    posted opened_books shop (heading 120 "Venta" SourceType.manual) sale_entry sale_lines
      (map (make_leg 2 "ARS") sale_lines)
