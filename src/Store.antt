-- ===== src/Store.antt =====
-- The rows that the services read and write (apps/*/models.py, and the tables of django-hordak), and
-- the database as a record of tables. A new row stands first; its key comes from a sequence.
-- Dates are day numbers, and amounts are counted in cents.
use mono256_sic_core.Base.{ℕ, Bool, true, false, Option, List, String}
use mono256_sic_core.Base.Int.{ℤ, pos}

-- `User.Role`
pub data Role : Type 0 where
  admin teacher student : Role

pub record User : Type 0 where
  pub id : ℕ
  pub role : Role

abbrev pub is_admin : Role → Bool
is_admin Role.admin = true
is_admin _ = false

abbrev pub is_teacher : Role → Bool
is_teacher Role.teacher = true
is_teacher _ = false

abbrev pub is_student : Role → Bool
is_student Role.student = true
is_student _ = false

-- A company. `has_opening_entry` is the annotation of `with_accounting_state`: `none` where the
-- object was loaded without it.
pub record Company : Type 0 where
  pub id : ℕ
  pub owner_id : ℕ
  pub books_closed_until : Option ℕ
  pub is_demo : Bool
  pub is_read_only : Bool
  pub is_published : Bool
  pub has_opening_entry : Option Bool

-- hordak's account types: asset, liability, equity, expense, income.
pub data AccountType : Type 0 where
  asset liability equity expense income : AccountType

pub record Account : Type 0 where
  pub id : ℕ
  pub full_code : String
  pub code : String
  pub name : String
  pub type : AccountType
  pub parent_id : Option ℕ
  pub level : ℕ
  pub currencies : List String

pub record CompanyAccount : Type 0 where
  pub account_id : ℕ
  pub company_id : ℕ

pub record Transaction : Type 0 where
  pub id : ℕ
  pub date : ℕ
  pub description : String

pub record Leg : Type 0 where
  pub transaction_id : ℕ
  pub account_id : ℕ
  pub debit : Option ℤ
  pub credit : Option ℤ
  pub currency : String

-- `JournalEntry.SourceType`
pub data SourceType : Type 0 where
  opening adjustment result_closing patrimonial_closing reopening manual invoice receipt other :
      SourceType

-- `JournalEntryLine.LineType`
pub data LineType : Type 0 where
  debit credit : LineType

pub record JournalEntry : Type 0 where
  pub id : ℕ
  pub transaction_id : ℕ
  pub company_id : ℕ
  pub entry_number : ℕ
  pub date : ℕ
  pub description : String
  pub source_type : SourceType
  pub source_ref : String
  pub created_by : ℕ
  pub reversal_of : Option ℕ

pub record JournalEntryLine : Type 0 where
  pub entry_id : ℕ
  pub account_id : ℕ
  pub type : LineType
  pub amount : ℤ

pub record ClosingSnapshot : Type 0 where
  pub id : ℕ
  pub company_id : ℕ
  pub closing_entry_id : ℕ
  pub reopening_entry_id : ℕ
  pub closing_date : ℕ
  pub reopening_date : ℕ

pub record Db : Type 0 where
  pub companies : List Company
  pub accounts : List Account
  pub company_accounts : List CompanyAccount
  pub transactions : List Transaction
  pub legs : List Leg
  pub entries : List JournalEntry
  pub lines : List JournalEntryLine
  pub snapshots : List ClosingSnapshot
  pub next_account_id : ℕ
  pub next_transaction_id : ℕ
  pub next_entry_id : ℕ
  pub next_snapshot_id : ℕ
  -- The companies whose report cache version was bumped, the last one first.
  pub report_bumps : List ℕ
  -- The companies whose chart cache version was bumped, the last one first.
  pub chart_bumps : List ℕ

abbrev pub is_opening : SourceType → Bool
is_opening SourceType.opening = true
is_opening _ = false

abbrev pub is_reopening : SourceType → Bool
is_reopening SourceType.reopening = true
is_reopening _ = false

abbrev pub is_patrimonial_closing : SourceType → Bool
is_patrimonial_closing SourceType.patrimonial_closing = true
is_patrimonial_closing _ = false

abbrev pub is_debit : LineType → Bool
is_debit LineType.debit = true
is_debit LineType.credit = false

-- The other side.
abbrev pub swap_side : LineType → LineType
swap_side LineType.debit = LineType.credit
swap_side LineType.credit = LineType.debit

-- What an amount on a side adds to the debits, and to the credits.
abbrev pub debit_part : LineType → ℤ → ℤ
debit_part LineType.debit amount = amount
debit_part LineType.credit amount = pos 0

abbrev pub credit_part : LineType → ℤ → ℤ
credit_part LineType.debit amount = pos 0
credit_part LineType.credit amount = amount
