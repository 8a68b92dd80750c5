-- ===== src/Closing/Adjust.antt =====
-- `_build_adjustment_entries`: the entries that bring the books to the counted cash and inventory.
-- The source spells the two cases out; they differ in the texts of a `CountedAccount` alone.
pub mod Counted
use mono256_sic_core.Base.{ℕ, Bool, Option, none, some, List, [], ◌∷◌, ◌++◌, String, if◌then◌else◌}
use mono256_sic_core.Base.Int.{ℤ, pos, ◌+ℤ◌, ◌-ℤ◌, ltb_ℤ, eq_ℤ}
use mono256_sic_core.Base.Result.{Result, ok, raise, ◌>>=◌, ◌>>◌}
use mono256_sic_core.Store.{LineType, SourceType}
use mono256_sic_core.Closing.Draft.{DraftLine, DraftEntry, draft_entry, support_line}
use mono256_sic_core.Closing.Balances.{Balances, apply_entry, aggregate_parent_balance}

pub record ClosingRequest : Type 0 where
  pub closing_date : ℕ
  pub reopening_date : ℕ
  pub cash_actual : Option ℤ
  pub inventory_actual : Option ℤ

pub record CountedAccount : Type 0 where
  pub parent_code : String
  pub name : String
  pub surplus_code : String
  pub surplus_name : String
  pub shortage_code : String
  pub shortage_name : String
  pub description : String
  pub source_ref : String

abbrev pub cash : CountedAccount
cash = record {
  parent_code = "1.01";
  name = "Caja";
  surplus_code = "5.06";
  surplus_name = "Sobrante de Caja";
  shortage_code = "4.12";
  shortage_name = "Faltante de Caja";
  description = "s/ Arqueo realizado a la fecha";
  source_ref = "CLOSING-CASH";
}

abbrev pub inventory : CountedAccount
inventory = record {
  parent_code = "1.09";
  name = "Mercaderías";
  surplus_code = "5.07";
  surplus_name = "Sobrante de Mercaderías";
  shortage_code = "4.13";
  shortage_name = "Faltante de Mercaderías";
  description = "s/ Inventario de Mercaderías";
  source_ref = "CLOSING-INVENTORY";
}

pub data Status : Type 0 where
  not_requested balanced surplus shortage : Status

pub record Summary : Type 0 where
  pub book_balance : Option ℤ
  pub actual_balance : Option ℤ
  pub difference : Option ℤ
  pub status : Status
  pub entry : Option DraftEntry

abbrev pub no_summary : Summary
no_summary = record {
  book_balance = none;
  actual_balance = none;
  difference = none;
  status = Status.not_requested;
  entry = none;
}

-- `abs(difference)`
unfoldable pub abs : ℤ → ℤ
abs a = if ltb_ℤ a (pos 0) then pos 0 -ℤ a else a

abbrev pub status_of : ℤ → Status
status_of difference =
    if eq_ℤ difference (pos 0)
    then Status.balanced
    else if ltb_ℤ (pos 0) difference
    then Status.surplus
    else Status.shortage

abbrev pub adjustment_lines : CountedAccount → ℤ → List DraftLine
adjustment_lines a difference =
    if ltb_ℤ (pos 0) difference
    then support_line a.name a.parent_code LineType.debit (abs difference)
      ∷ support_line a.surplus_name a.surplus_code LineType.credit (abs difference)
      ∷ []
    else support_line a.shortage_name a.shortage_code LineType.debit (abs difference)
      ∷ support_line a.name a.parent_code LineType.credit (abs difference)
      ∷ []

abbrev pub adjustment_entry : ℕ → CountedAccount → ℤ → DraftEntry
adjustment_entry date a difference =
    draft_entry date a.description SourceType.adjustment a.source_ref
      (adjustment_lines a difference)

abbrev pub summary_of : ℤ → ℤ → Option DraftEntry → Summary
summary_of book actual entry = record {
  book_balance = some book;
  actual_balance = some actual;
  difference = some (actual -ℤ book);
  status = status_of (actual -ℤ book);
  entry = entry;
}

-- One counted account: the entries, its summary and the balances behind them.
unfoldable pub adjust_one :
    ℕ → CountedAccount → Option ℤ → Balances → Result (List DraftEntry × Summary × Balances)
adjust_one date a none bs = ok ([], no_summary, bs)
adjust_one date a (some actual) bs =
    let book = (aggregate_parent_balance bs a.parent_code).2 in
    let entry = adjustment_entry date a (actual -ℤ book) in
    if eq_ℤ (actual -ℤ book) (pos 0)
    then ok ([], summary_of book actual none, bs)
    else (do bs' ← apply_entry bs entry; ok (entry ∷ [], summary_of book actual (some entry), bs'))

pub record Adjustments : Type 0 where
  pub entries : List DraftEntry
  pub cash_summary : Summary
  pub inventory_summary : Summary
  pub balances : Balances

unfoldable pub build_adjustment_entries : ClosingRequest → Balances → Result Adjustments
unfolding adjust_one
build_adjustment_entries r bs = do
  (cash_entries, cash_summary, bs₁) ← adjust_one r.closing_date cash r.cash_actual bs
  (inventory_entries, inventory_summary, bs₂) ←
      adjust_one r.closing_date inventory r.inventory_actual bs₁
  ok (record {
    entries = cash_entries ++ inventory_entries;
    cash_summary = cash_summary;
    inventory_summary = inventory_summary;
    balances = bs₂;
  })
