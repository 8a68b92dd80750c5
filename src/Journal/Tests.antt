-- ===== src/Journal/Tests.antt =====
-- The journal's theorems on a small company, and runs of its services.
use mono256_sic_core.Base.{◌+◌, none, some, List, [], ◌∷◌, map, ◌≡◌, ◌≢◌, ◌↔◌, refl, arith, All}
use mono256_sic_core.Base.Int.{pos, ◌+ℤ◌, sum_of}
use mono256_sic_core.Base.Result.{ok, raise, conflict_error, validation_error, Reason}
use mono256_sic_core.Store.{LineType, SourceType, JournalEntry, Db}
use mono256_sic_core.Companies.{assert_actor_can_write_company, assert_company_accounting_ready}
use mono256_sic_core.Journal.{
  check_lines, check_line, check_totals, create_journal_entry, reverse_journal_entry,
  validate_lines, store_line, lines_of, assert_books_open, posted, make_leg, JournalLineInput,
}
use mono256_sic_core.Journal.Validation.{IsBalancedPosting, validate_lines_iff}
use mono256_sic_core.Journal.Invariant.{WellFormed, count_of}
use mono256_sic_core.Journal.Create.{
  create_journal_entry-WellFormed, create_journal_entry_iff, create_journal_entry_writes, IsAllowed,
}
use mono256_sic_core.Journal.Reverse.{
  net_on, reverse_journal_entry-WellFormed, reverse_journal_entry_cancels,
  reverse_journal_entry_once,
}
use mono256_sic_core.Samples.Valid.{
  create-opening, create-sale, empty-WellFormed, opened-WellFormed, sold-WellFormed,
}
use mono256_sic_core.Samples.{
  student, shop, empty_books, opening_lines, opening_entry, opened_books, sale_lines, sale_entry,
  sold_books, line,
}

-- What a run of the services computes with.
services : Unit {0}
unfolding create_journal_entry reverse_journal_entry assert_actor_can_write_company
    assert_company_accounting_ready assert_books_open check_lines check_line check_totals ◌+ℤ◌
services = tt

-- A manual entry waits for the opening.
create_before_opening :
    create_journal_entry empty_books shop student 100 "Venta" SourceType.manual "" sale_lines
    ≡ raise (conflict_error Reason.not_opened)
unfolding services
create_before_opening = refl

create_unbalanced :
    create_journal_entry opened_books shop student 100 "Venta" SourceType.manual ""
      (line 3 LineType.debit 5000 ∷ line 9 LineType.credit 4999 ∷ [])
    ≡ raise (validation_error Reason.unbalanced_entry)
unfolding services
create_unbalanced = refl

create_journal_entry-WellFormed_example : WellFormed opened_books
create_journal_entry-WellFormed_example =
    create_journal_entry-WellFormed empty_books shop student 100 "s/ Inventario Inicial"
      SourceType.opening "" opening_lines empty-WellFormed tt create-opening

abbrev reversal_entry : JournalEntry
reversal_entry = record {
  id = 3;
  transaction_id = 3;
  company_id = 7;
  entry_number = 3;
  date = 130;
  description = "Reversión de asiento #2: Venta";
  source_type = SourceType.other;
  source_ref = "REV-2";
  created_by = 9;
  reversal_of = some 2;
}

abbrev reversal_lines : List JournalLineInput
reversal_lines = line 3 LineType.credit 5000 ∷ line 9 LineType.debit 5000 ∷ []

abbrev reversed_books : Db
reversed_books =
    posted sold_books shop
      (record {
        date = 130;
        description = "Reversión de asiento #2: Venta";
        source_type = SourceType.other;
        source_ref = "REV-2";
        reversal_of = some 2;
      })
      reversal_entry reversal_lines (map (make_leg 3 "ARS") reversal_lines)

reverse-sale :
    reverse_journal_entry sold_books shop sale_entry student 130 none " "
    ≡ ok (reversal_entry, reversed_books)
unfolding services
reverse-sale = refl

reverse_opening :
    reverse_journal_entry sold_books shop opening_entry student 130 none ""
    ≡ raise (conflict_error Reason.not_reversible)
unfolding services
reverse_opening = refl

validate_lines_iff_example :
    (validate_lines opened_books shop sale_lines ≡ ok tt)
    ↔ IsBalancedPosting opened_books shop sale_lines
validate_lines_iff_example = validate_lines_iff opened_books shop sale_lines

create_journal_entry_iff_example :
    ((r : JournalEntry × Db) × (create_journal_entry opened_books shop student 120 "Venta"
          SourceType.manual "" sale_lines
        ≡ ok r))
    ↔ IsAllowed opened_books shop student 120 SourceType.manual sale_lines
create_journal_entry_iff_example =
    create_journal_entry_iff opened_books shop student 120 "Venta" SourceType.manual "" sale_lines
      opened-WellFormed tt (ground arith)

create_journal_entry_writes_example :
    (sold_books.entries ≡ sale_entry ∷ opened_books.entries)
    × (sale_entry.company_id ≡ shop.id)
    × (sale_entry.entry_number ≡ count_of shop.id opened_books.entries + 1)
    × (sale_entry.date ≡ 120)
    × (sale_entry.source_type ≡ SourceType.manual)
    × (lines_of 2 sold_books.lines ≡ map (store_line 2) sale_lines)
    × All
        (λ e. lines_of e.id sold_books.lines ≡ lines_of e.id opened_books.lines)
        opened_books.entries
create_journal_entry_writes_example =
    create_journal_entry_writes opened_books shop student 120 "Venta" SourceType.manual ""
      sale_lines opened-WellFormed tt create-sale

reverse_journal_entry-WellFormed_example : WellFormed reversed_books
reverse_journal_entry-WellFormed_example =
    reverse_journal_entry-WellFormed sold_books shop sale_entry student 130 none " " sold-WellFormed
      tt refl reverse-sale

reverse_journal_entry_cancels_example :
    (reversal_entry.reversal_of ≡ some sale_entry.id)
    × (sum_of (net_on 3) (lines_of 3 reversed_books.lines)
          +ℤ sum_of (net_on 3) (lines_of 2 reversed_books.lines)
        ≡ pos 0)
reverse_journal_entry_cancels_example =
    reverse_journal_entry_cancels sold_books shop sale_entry student 130 none " " 3 sold-WellFormed
      refl reverse-sale

reverse_journal_entry_once_example :
    reverse_journal_entry reversed_books shop sale_entry student 140 none ""
    ≢ ok (reversal_entry, reversed_books)
reverse_journal_entry_once_example =
    reverse_journal_entry_once sold_books shop sale_entry student 130 none " " student 140 none ""
      (reversal_entry, reversed_books) reverse-sale
