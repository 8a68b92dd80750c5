-- ===== src/Reports/Book.antt =====
-- The journal book (apps/reports/services/journal_book.py), computed: the cache in front of it, the
-- texts of amounts and the first day that the header shows are left out.
use mono256_sic_core.Base.{
  ℕ, Option, none, some, List, [], ◌∷◌, ◌++◌, map, ◌≡◌, refl, sym, ◌∙◌, if◌then◌else◌, sort_by,
}
use mono256_sic_core.Base.Int.{ℤ, pos, ◌+ℤ◌, sum_of, int_laws, parts_eq, zero-+ℤ}
use mono256_sic_core.Base.Sums.{sum_of-sort_by}
use mono256_sic_core.Store.{
  Account, LineType, JournalEntry, JournalEntryLine, Db, is_debit, debit_part, credit_part,
}
use mono256_sic_core.Journal.{find_account, lines_of}
use mono256_sic_core.Journal.Invariant.{line_debit, line_credit, WellFormed}
use mono256_sic_core.Closing.Exercises.{entry_le}
use mono256_sic_core.Reports.Context.{ReportExerciseContext}
use mono256_sic_core.Reports.Rows.{
  entries_in, lines_in, sum_of-lines_in, lines_in-balanced, Complete,
}
use mono256_sic_core.Reports.Trial.{get_trial_balance}
use mono256_sic_core.Reports.Trial.Totals.{get_trial_balance_lem}

pub record BookLine : Type 0 where
  pub account : Option Account
  pub debit : Option ℤ
  pub credit : Option ℤ

pub record BookEntry : Type 0 where
  pub entry : JournalEntry
  pub lines : List BookLine
  pub total_debit : ℤ
  pub total_credit : ℤ

pub record JournalBook : Type 0 where
  pub entries : List BookEntry
  pub grand_total_debit : ℤ
  pub grand_total_credit : ℤ

abbrev pub book_line : Db → JournalEntryLine → BookLine
book_line db l = record {
  account = find_account l.account_id db.accounts;
  debit = if is_debit l.type then some l.amount else none;
  credit = if is_debit l.type then none else some l.amount;
}

-- A line added to the sum of its side.
abbrev pub with_amount : LineType → ℤ → ℤ × ℤ → ℤ × ℤ
with_amount LineType.debit amount (debit, credit) = (debit +ℤ amount, credit)
with_amount LineType.credit amount (debit, credit) = (debit, credit +ℤ amount)

-- The two sums of the loop over the lines of an entry.
unfoldable pub add_lines : ℤ × ℤ → List JournalEntryLine → ℤ × ℤ
add_lines totals [] = totals
add_lines totals (l ∷ ls) = add_lines (with_amount l.type l.amount totals) ls

abbrev pub book_entry : Db → JournalEntry → BookEntry
unfolding add_lines
book_entry db e =
    let lines = lines_of e.id db.lines in
    let (debit, credit) = add_lines (pos 0, pos 0) lines in
    record {
      entry = e;
      lines = map (book_line db) lines;
      total_debit = debit;
      total_credit = credit;
    }

-- One round of the loop over the entries.
unfoldable pub with_entry : Db → JournalBook → JournalEntry → JournalBook
unfolding book_entry
with_entry db book e =
    let row = book_entry db e in
    record {
      entries = book.entries ++ row ∷ [];
      grand_total_debit = book.grand_total_debit +ℤ row.total_debit;
      grand_total_credit = book.grand_total_credit +ℤ row.total_credit;
    }

unfoldable pub book_loop : Db → JournalBook → List JournalEntry → JournalBook
unfolding with_entry
book_loop db book [] = book
book_loop db book (e ∷ es) = book_loop db (with_entry db book e) es

abbrev pub empty_book : JournalBook
empty_book = record { entries = []; grand_total_debit = pos 0; grand_total_credit = pos 0 }

unfoldable pub get_journal_book : Db → ℕ → ReportExerciseContext → JournalBook
unfolding sort_by book_loop
get_journal_book db company_id context =
    book_loop db empty_book
      (sort_by entry_le (entries_in db company_id context.visible_from context.visible_to))

with_amount_lem :
    (t : LineType) (amount : ℤ) (totals : ℤ × ℤ)
    → ((with_amount t amount totals).0 ≡ totals.0 +ℤ debit_part t amount)
      × ((with_amount t amount totals).1 ≡ totals.1 +ℤ credit_part t amount)
with_amount_lem LineType.debit amount (debit, credit) = (refl, omega int_laws)
with_amount_lem LineType.credit amount (debit, credit) = (omega int_laws, refl)

add_lines_lem :
    (totals : ℤ × ℤ) (ls : List JournalEntryLine)
    → ((add_lines totals ls).0 ≡ totals.0 +ℤ sum_of line_debit ls)
      × ((add_lines totals ls).1 ≡ totals.1 +ℤ sum_of line_credit ls)
unfolding add_lines sum_of
add_lines_lem totals [] = (omega int_laws, omega int_laws)
add_lines_lem totals (l ∷ ls) =
    let (debit, credit) = with_amount_lem l.type l.amount totals in
    let (debits, credits) = add_lines_lem (with_amount l.type l.amount totals) ls in
    (
      omega (int_laws, parts_eq debits, parts_eq debit),
      omega (int_laws, parts_eq credits, parts_eq credit),
    )

book_loop_lem :
    (db : Db) (book : JournalBook) (es : List JournalEntry)
    → ((book_loop db book es).grand_total_debit
        ≡ book.grand_total_debit +ℤ sum_of (λ e. sum_of line_debit (lines_of e.id db.lines)) es)
      × ((book_loop db book es).grand_total_credit
          ≡ book.grand_total_credit +ℤ sum_of (λ e. sum_of line_credit (lines_of e.id db.lines)) es)
unfolding book_loop with_entry sum_of book_entry
book_loop_lem db book [] = (omega int_laws, omega int_laws)
book_loop_lem db book (e ∷ es) =
    let (debit, credit) = add_lines_lem (pos 0, pos 0) (lines_of e.id db.lines) in
    let (debits, credits) = book_loop_lem db (with_entry db book e) es in
    (
      omega (int_laws, parts_eq debits, parts_eq debit),
      omega (int_laws, parts_eq credits, parts_eq credit),
    )

totals :
    (db : Db) (company_id : ℕ) (context : ReportExerciseContext)
    → Complete db
    → ((get_journal_book db company_id context).grand_total_debit
        ≡ sum_of line_debit (lines_in db company_id context.visible_from context.visible_to))
      × ((get_journal_book db company_id context).grand_total_credit
          ≡ sum_of line_credit (lines_in db company_id context.visible_from context.visible_to))
unfolding get_journal_book
totals db company_id context complete =
    let from = context.visible_from in
    let to = context.visible_to in
    let es = entries_in db company_id from to in
    let (debits, credits) = book_loop_lem db empty_book (sort_by entry_le es) in
    (
      debits
          ∙ (zero-+ℤ _
              ∙ (sum_of-sort_by _ entry_le es
                  ∙ sum_of-lines_in db company_id from to line_debit complete.entry_keys)),
      credits
          ∙ (zero-+ℤ _
              ∙ (sum_of-sort_by _ entry_le es
                  ∙ sum_of-lines_in db company_id from to line_credit complete.entry_keys)),
    )

-- In a well-formed journal whose lines stand on accounts of their companies: the journal book's total
-- of debits is its total of credits, and where the range that is shown begins where the range that is
-- computed begins, and ends with it, both are the totals of the trial balance.
pub get_journal_book_lem :
    (db : Db) (company_id : ℕ) (context : ReportExerciseContext)
    → WellFormed db
    → Complete db
    → ((get_journal_book db company_id context).grand_total_debit
        ≡ (get_journal_book db company_id context).grand_total_credit)
      × (context.visible_from ≡ context.computed_from
          → context.visible_to ≡ context.computed_to
          → ((get_journal_book db company_id context).grand_total_debit
              ≡ (get_trial_balance db company_id context).grand_total_debit)
            × ((get_journal_book db company_id context).grand_total_credit
                ≡ (get_trial_balance db company_id context).grand_total_credit))
get_journal_book_lem db company_id context wf complete =
    let from = context.visible_from in
    let to = context.visible_to in
    let (debits, credits) = totals db company_id context complete in
    let (trial_debits, trial_credits, balanced, balances) =
      get_trial_balance_lem db company_id context wf complete in
    (
      debits
          ∙ lines_in-balanced db company_id from to complete.entry_keys wf.balanced
          ∙ sym credits,
      λ same_from same_to. (
        debits ∙ (rw (same_from, same_to) refl ∙ sym trial_debits),
        credits ∙ (rw (same_from, same_to) refl ∙ sym trial_credits),
      ),
    )
