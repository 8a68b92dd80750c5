-- ===== src/Reports.antt =====
-- The reports (apps/reports): `Reports.Context` the range that a report shows, `Reports.Trial` the trial
-- balance, `Reports.Ledger` the ledger, `Reports.Book` the journal book.
pub mod Context
pub mod Rows
pub mod Ranges
pub mod Kept
pub mod Trial
pub mod Ledger
pub mod Book
mod Tests
