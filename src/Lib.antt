-- ===== src/Lib.antt =====
-- SIC: the accounting core of a teaching application (Django, apps/). Students keep the books of
-- small companies in double entry: an opening, manual entries, reversals, and a simplified year-end
-- closing that adjusts, closes the results, closes the balances and reopens them.
--
-- Parts and files
--   Base        shared helpers: Boolean tests and tables as lists (Tests, Lists), strings (Text),
--               amounts (Int), results and errors (Result).
--   Store       the database: one record for each model (apps/*/models.py) and Db, the tables, each a
--               list with the newest row first. Accounts, transactions and legs belong to the ledger
--               package; the records hold what the services read and write of them.
--   Companies   the guards of apps/companies/services.py and apps/companies/opening.py.
--   Journal     apps/journal/services.py: validate_lines is `_validate_lines`, create_journal_entry
--               and reverse_journal_entry have their own names. Journal.Validation, Create and Reverse
--               hold the theorems, Journal.Invariant the well-formed journal, Journal.Posting the
--               writes that both services share.
--   Closing     apps/closing. Draft and Balances are the proposed entries and the working balances of
--               services.py; Adjust, Statement and Entries the steps of the plan; Load the query
--               behind it; Plan `build_simplified_closing_plan`; Execute `execute_simplified_closing`;
--               Exercises the chain of selectors.py; Support the accounts of support.py.
--   Cache       apps/common/cache.py over the web framework's cache, a parameter whose documented
--               behaviour is the record Cache.Laws.IsReliable; Cache.Versions the version counters
--               (`_get_or_init_version` and `_bump_version` of apps/reports/cache.py), Cache.Memory a
--               cache that fills the laws.
--   Users       apps/users: Limits the limits on registration attempts, Codes the registration codes,
--               Roles the accounts (all of services.py, and `User.save`). `create_user` is Django's, a
--               parameter whose documented behaviour is the record Users.Roles.Registered.IsUserManager.
--   Courses     the services and tables of apps/courses, over the cache of the students' teachers
--               (Visibility.Keys); Courses.Reachable the schools they make.
--   Access      the listings and lookups of apps/companies/selectors.py and apps/courses/selectors.py.
--   Visibility  apps/accounts/visibility.py: a student's teacher and the accounts that the teacher hides,
--               as they are cached; Rows and Overrides the write of apps/accounts/api/views.py,
--               Enrolled the enrolments. A student who has no teacher has the key 0, as in the cache.
--   Reports     apps/reports/services: Trial the trial balance, Ledger the ledger, Book the journal
--               book; Context the range of a report (`resolve_report_exercise_context` of
--               apps/closing/selectors.py).
--   Samples     a small company for the examples.
--
-- A service is a function of the database and its arguments into Result: an exception is `raise`
-- with its class and a reason, and the database of a failed call is the old one, since each service
-- runs in a transaction. The closing calls the guards of Companies, reads the journal's tables, and
-- posts through create_journal_entry; nothing else writes entries.
--
-- Amounts are whole cents, an integer type on the native numbers; Decimal with two places and its
-- formatting are the identity on these. Dates are day numbers. The loops are structural recursion on
-- lists; the search of a free account code recurs on the 99 candidates that the source tries, so
-- there is no fuel.
--
-- Instants are whole seconds since the epoch; a missing key of the cache and a call of it that fails
-- are told apart, and expiry is a missing key.
--
-- Not modelled: the HTTP layer, exports, migrations and the admin site; the cached copies of
-- charts and reports, whose version bumps are recorded in Db only; JSON documents stored for display; locks (an
-- entry that another request made is the case concurrent_entry); the overviews of courses, the chart's
-- own services, openings from a payload and demo files. Of the database's own limits the digits of an
-- amount and the lengths of texts are left out, and so is what a refused registration leaves of the
-- check of its code, as new settings. The user name of an attempt to register comes without
-- blanks around it and in small letters, as `_registration_keys` makes it.
pub mod Base
pub mod Access
pub mod Cache
pub mod Courses
pub mod Reports
pub mod Store
pub mod Users
pub mod Visibility
pub mod Companies
pub mod Journal
mod Samples
pub mod Closing
