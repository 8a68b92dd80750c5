-- ===== src/Closing/Draft.antt =====
-- Draft entries of the closing plan (`_draft_line`, `_draft_entry`). An amount is written as
-- `f"{amount:.2f}"` and read back by `Decimal`, which is the identity on cents.
use mono256_sic_core.Base.{ℕ, Option, none, List, String}
use mono256_sic_core.Base.Int.{ℤ, sum_of}
use mono256_sic_core.Store.{LineType, SourceType, debit_part, credit_part}

pub record DraftLine : Type 0 where
  pub account_id : Option ℕ
  pub account_code : Option String
  pub account_name : String
  pub parent_code : String
  pub type : LineType
  pub amount : ℤ

pub record DraftEntry : Type 0 where
  pub date : ℕ
  pub description : String
  pub source_type : SourceType
  pub source_ref : String
  pub lines : List DraftLine
  pub total_debit : ℤ
  pub total_credit : ℤ

abbrev pub draft_debit : DraftLine → ℤ
draft_debit l = debit_part l.type l.amount

abbrev pub draft_credit : DraftLine → ℤ
draft_credit l = credit_part l.type l.amount

abbrev pub draft_entry : ℕ → String → SourceType → String → List DraftLine → DraftEntry
draft_entry date description source_type source_ref lines = record {
  date = date;
  description = description;
  source_type = source_type;
  source_ref = source_ref;
  lines = lines;
  total_debit = sum_of draft_debit lines;
  total_credit = sum_of draft_credit lines;
}

-- A line on an account that the plan names by its colectiva and name, not by its key.
abbrev pub support_line : String → String → LineType → ℤ → DraftLine
support_line name parent_code type amount = record {
  account_id = none;
  account_code = none;
  account_name = name;
  parent_code = parent_code;
  type = type;
  amount = amount;
}
