-- ===== src/Closing.antt =====
-- The simplified year-end closing: apps/closing. `Draft` and `Balances` hold the entries that are
-- proposed and the working balances, `Adjust`, `Statement` and `Entries` the steps of the plan.
pub mod Draft
pub mod Balances
pub mod Adjust
pub mod Statement
pub mod Entries
pub mod Exercises
pub mod Support
pub mod Load
pub mod Plan
pub mod Execute
mod Tests
