-- ===== src/Samples/Valid.antt =====
-- The books of the examples are well-formed: each is the outcome of a posting.
use mono256_sic_core.Base.{◌≡◌, refl}
use mono256_sic_core.Base.Int.{◌+ℤ◌}
use mono256_sic_core.Base.Result.{ok}
use mono256_sic_core.Store.{SourceType}
use mono256_sic_core.Companies.{assert_actor_can_write_company, assert_company_accounting_ready}
use mono256_sic_core.Journal.{
  check_lines, check_line, check_totals, create_journal_entry, assert_books_open,
}
use mono256_sic_core.Journal.Invariant.{WellFormed}
use mono256_sic_core.Journal.Create.{create_journal_entry-WellFormed}
use mono256_sic_core.Samples.{
  student, shop, empty_books, opening_lines, opening_entry, opened_books, sale_lines, sale_entry,
  sold_books,
}

-- What a posting computes with.
posting : Unit {0}
unfolding create_journal_entry assert_actor_can_write_company assert_company_accounting_ready
    assert_books_open check_lines check_line check_totals ◌+ℤ◌
posting = tt

pub create-opening :
    create_journal_entry empty_books shop student 100 "s/ Inventario Inicial" SourceType.opening ""
      opening_lines
    ≡ ok (opening_entry, opened_books)
unfolding posting
create-opening = refl

pub create-sale :
    create_journal_entry opened_books shop student 120 "Venta" SourceType.manual "" sale_lines
    ≡ ok (sale_entry, sold_books)
unfolding posting
create-sale = refl

pub empty-WellFormed : WellFormed empty_books
empty-WellFormed = record {
  old_entries = tt;
  old_lines = tt;
  old_legs = tt;
  numbered = tt;
  opens_first = tt;
  reverses_once = tt;
  balanced = tt;
  mirrored = tt;
}

pub opened-WellFormed : WellFormed opened_books
opened-WellFormed =
    create_journal_entry-WellFormed empty_books shop student 100 "s/ Inventario Inicial"
      SourceType.opening "" opening_lines empty-WellFormed tt create-opening

pub sold-WellFormed : WellFormed sold_books
sold-WellFormed =
    create_journal_entry-WellFormed opened_books shop student 120 "Venta" SourceType.manual ""
      sale_lines opened-WellFormed tt create-sale
