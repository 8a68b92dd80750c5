-- ===== src/Journal.antt =====
-- Posting and reversing journal entries: apps/journal/services.py. Every posting writes a hordak
-- transaction, its legs, the entry and its lines, and bumps the report cache version.
pub mod Validation
pub mod Invariant
pub mod Posting
pub mod Create
pub mod Reverse
mod Tests
use mono256_sic_core.Base.{
  ℕ, ◌+◌, Bool, true, false, not, ◌&&◌, ◌||◌, Option, none, some, List, [], ◌∷◌, ◌++◌, map, String,
  ◌==◌, leb, if◌then◌else◌, is_some, or_default, exists, find, where_, concat, strip_or, show,
}
use mono256_sic_core.Base.Int.{ℤ, pos, ◌+ℤ◌, leb_ℤ, eq_ℤ}
use mono256_sic_core.Base.Result.{
  Result, ok, raise, Error, Reason, ◌>>=◌, ◌>>◌, raise_if, or_raise, validation_error,
  conflict_error, index_error, key_error,
}
use mono256_sic_core.Store.{
  User, Company, Account, CompanyAccount, Leg, SourceType, LineType, JournalEntry, JournalEntryLine,
  Db, is_opening, is_debit, swap_side,
}
use mono256_sic_core.Companies.{
  assert_actor_can_write_company, assert_company_accounting_ready, company_has_opening_entry,
  is_opening_of,
}

abbrev pub non_reversible : SourceType → Bool
non_reversible SourceType.opening = true
non_reversible SourceType.adjustment = true
non_reversible SourceType.result_closing = true
non_reversible SourceType.patrimonial_closing = true
non_reversible SourceType.reopening = true
non_reversible _ = false

pub record JournalLineInput : Type 0 where
  pub account_id : ℕ
  pub type : LineType
  pub amount : ℤ

unfoldable pub assert_books_open : Company → ℕ → Result (Unit {0})
assert_books_open c date = elim c.books_closed_until [
  | none ↦ ok tt
  | some until ↦ raise_if (leb date until) (conflict_error Reason.books_closed)
]

abbrev pub find_account : ℕ → List Account → Option Account
find_account k = find (λ a. a.id == k)

-- `account.is_leaf_node()`
abbrev pub is_leaf_node : List Account → Account → Bool
is_leaf_node accounts a =
    not (exists (λ b. elim b.parent_id [ none ↦ false | some p ↦ p == a.id ]) accounts)

abbrev pub owns_account : ℕ → ℕ → CompanyAccount → Bool
owns_account company_id account_id ca = ca.company_id == company_id && ca.account_id == account_id

-- The running totals of `_validate_lines`.
pub record Totals : Type 0 where
  pub debit_total : ℤ
  pub credit_total : ℤ
  pub has_debit : Bool
  pub has_credit : Bool

abbrev pub no_totals : Totals
no_totals = record {
  debit_total = pos 0;
  credit_total = pos 0;
  has_debit = false;
  has_credit = false;
}

abbrev pub add_side : LineType → ℤ → Totals → Totals
add_side LineType.debit amount t = record t {
  debit_total = t.debit_total +ℤ amount;
  has_debit = true;
}
add_side LineType.credit amount t = record t {
  credit_total = t.credit_total +ℤ amount;
  has_credit = true;
}

-- The guards of one line in the loop of `_validate_lines`.
unfoldable pub check_line : Db → Company → JournalLineInput → Result (Unit {0})
check_line db c line = do
  raise_if (leb_ℤ line.amount (pos 0)) (validation_error Reason.amount_not_positive)
  account ← or_raise (find_account line.account_id db.accounts) key_error
  raise_if (not (account.level == 2)) (validation_error Reason.not_movement_level)
  raise_if (not (is_leaf_node db.accounts account)) (validation_error Reason.not_movement_leaf)
  raise_if (not (exists (owns_account c.id line.account_id) db.company_accounts))
      (validation_error Reason.not_company_account)

unfoldable pub check_lines : Db → Company → List JournalLineInput → Totals → Result Totals
check_lines db c [] t = ok t
check_lines db c (line ∷ lines) t =
    let rest = check_lines db c lines (add_side line.type line.amount t) in
    check_line db c line >>= λ _. rest

-- The guards behind the loop of `_validate_lines`.
unfoldable pub check_totals : Totals → Result (Unit {0})
check_totals t = do
  raise_if (not t.has_debit || not t.has_credit) (validation_error Reason.entry_needs_both_sides)
  raise_if (not (eq_ℤ t.debit_total t.credit_total)) (validation_error Reason.unbalanced_entry)

abbrev pub is_missing : Db → JournalLineInput → Bool
is_missing db line = not (is_some (find_account line.account_id db.accounts))

abbrev pub is_empty {ℓ} : {A : Type ℓ} → List A → Bool
is_empty [] = true
is_empty (x ∷ xs) = false

unfoldable pub validate_lines : Db → Company → List JournalLineInput → Result (Unit {0})
validate_lines db c lines = do
  raise_if (is_empty lines) (validation_error Reason.entry_needs_lines)
  raise_if (exists (is_missing db) lines) (validation_error Reason.unknown_account)
  t ← check_lines db c lines no_totals
  check_totals t

-- The largest entry number of the company, `none` if it has no entry.
unfoldable pub last_entry_number : ℕ → List JournalEntry → Option ℕ
last_entry_number company_id [] = none
last_entry_number company_id (e ∷ es) =
    let rest = last_entry_number company_id es in
    if e.company_id == company_id
    then some (elim rest [
      | none ↦ e.entry_number
      | some n ↦ if leb e.entry_number n then n else e.entry_number
    ])
    else rest

unfoldable pub next_entry_number : Db → ℕ → ℕ
unfolding last_entry_number
next_entry_number db company_id = elim (last_entry_number company_id db.entries) [
  | none ↦ 1
  | some n ↦ n + 1
]

-- `Leg(transaction=…, account=…, debit=money)` or `credit=money`, in the account's first currency.
abbrev pub make_leg : ℕ → String → JournalLineInput → Leg
make_leg tx currency line = record {
  transaction_id = tx;
  account_id = line.account_id;
  debit = if is_debit line.type then some line.amount else none;
  credit = if is_debit line.type then none else some line.amount;
  currency = currency;
}

abbrev pub first_currency : List String → Result String
first_currency [] = raise index_error
first_currency (c ∷ cs) = ok c

unfoldable pub build_legs : List Account → ℕ → List JournalLineInput → Result (List Leg)
build_legs accounts tx [] = ok []
build_legs accounts tx (line ∷ lines) =
    let rest = build_legs accounts tx lines in
    or_raise (find_account line.account_id accounts) key_error >>= λ account.
    first_currency account.currencies >>= λ currency.
    rest >>= λ legs. ok (make_leg tx currency line ∷ legs)

abbrev pub reverses : ℕ → JournalEntry → Bool
reverses entry_id e = elim e.reversal_of [ none ↦ false | some r ↦ r == entry_id ]

-- The same reference to a reversed entry; two empty ones do not clash.
abbrev pub same_reversal : Option ℕ → JournalEntry → Bool
same_reversal none e = false
same_reversal (some r) e = reverses r e

abbrev pub same_number : ℕ → ℕ → JournalEntry → Bool
same_number company_id n e = e.company_id == company_id && e.entry_number == n

abbrev pub second_opening : JournalEntry → JournalEntry → Bool
second_opening new old =
    is_opening new.source_type && is_opening old.source_type && old.company_id == new.company_id

-- The unique constraints of the table of entries: (company, entry_number), one opening for each
-- company, and the one-to-one references to the transaction and to the reversed entry.
abbrev pub clashes : JournalEntry → JournalEntry → Bool
clashes new old =
    (same_number new.company_id new.entry_number old || second_opening new old)
    || (old.transaction_id == new.transaction_id || same_reversal new.reversal_of old)

abbrev pub store_line : ℕ → JournalLineInput → JournalEntryLine
store_line entry_id line = record {
  entry_id = entry_id;
  account_id = line.account_id;
  type = line.type;
  amount = line.amount;
}

-- What distinguishes one posting from another, apart from its lines.
pub record Heading : Type 0 where
  pub date : ℕ
  pub description : String
  pub source_type : SourceType
  pub source_ref : String
  pub reversal_of : Option ℕ

abbrev pub new_entry : Db → Company → User → Heading → JournalEntry
new_entry db c u h = record {
  id = db.next_entry_id;
  transaction_id = db.next_transaction_id;
  company_id = c.id;
  entry_number = next_entry_number db c.id;
  date = h.date;
  description = h.description;
  source_type = h.source_type;
  source_ref = h.source_ref;
  created_by = u.id;
  reversal_of = h.reversal_of;
}

-- The database after the writes of a posting.
abbrev pub posted : Db → Company → Heading → JournalEntry → List JournalLineInput → List Leg → Db
posted db c h entry lines legs = record db {
  transactions =
      record { id = db.next_transaction_id; date = h.date; description = h.description }
      ∷ db.transactions;
  legs = legs ++ db.legs;
  entries = entry ∷ db.entries;
  lines = map (store_line entry.id) lines ++ db.lines;
  next_transaction_id = db.next_transaction_id + 1;
  next_entry_id = db.next_entry_id + 1;
  report_bumps = c.id ∷ db.report_bumps;
}

-- The writes that end both services, from the entry number to the cache bump.
unfoldable pub post :
    Db → Company → User → Heading → List JournalLineInput → Result (JournalEntry × Db)
unfolding next_entry_number build_legs
post db c u h lines = do
  legs ← build_legs db.accounts db.next_transaction_id lines
  let entry = new_entry db c u h
  raise_if (exists (clashes entry) db.entries) (conflict_error Reason.concurrent_entry)
  ok (entry, posted db c h entry lines legs)

abbrev pub of_company : ℕ → JournalEntry → Bool
of_company company_id e = e.company_id == company_id

-- The guards on the source type that open `create_journal_entry`.
unfoldable pub check_source : Db → Company → SourceType → Result (Unit {0})
check_source db c source_type =
    if is_opening source_type
    then (do
      raise_if (company_has_opening_entry db c) (conflict_error Reason.already_opened)
      raise_if (exists (of_company c.id) db.entries) (conflict_error Reason.opening_not_first))
    else assert_company_accounting_ready db c

unfoldable pub create_journal_entry :
    Db
    → Company
    → User
    → ℕ
    → String
    → SourceType
    → String
    → List JournalLineInput
    → Result (JournalEntry × Db)
unfolding check_source validate_lines post
create_journal_entry db c u date description source_type source_ref lines = do
  assert_actor_can_write_company (some u) c
  check_source db c source_type
  assert_books_open c date
  validate_lines db c lines
  post db c u
      (record {
        date = date;
        description = description;
        source_type = source_type;
        source_ref = source_ref;
        reversal_of = none;
      })
      lines

-- The lines of an entry, in the order in which they were written.
abbrev pub lines_of : ℕ → List JournalEntryLine → List JournalEntryLine
lines_of entry_id = where_ (λ l. l.entry_id == entry_id)

abbrev pub reversed_line : JournalEntryLine → JournalLineInput
reversed_line l = record { account_id = l.account_id; type = swap_side l.type; amount = l.amount }

abbrev reversal_text : JournalEntry → String
reversal_text e =
    concat "Reversión de asiento #" (concat (show e.entry_number) (concat ": " e.description))

-- `today` is the date of the call.
unfoldable pub reverse_journal_entry :
    Db
    → Company
    → JournalEntry
    → User
    → (today : ℕ) → Option ℕ
    → String
    → Result (JournalEntry × Db)
unfolding post strip_or show
reverse_journal_entry db c original u today date description = do
  assert_actor_can_write_company (some u) c
  assert_company_accounting_ready db c
  raise_if (not (original.company_id == c.id)) (validation_error Reason.entry_not_found)
  raise_if (non_reversible original.source_type) (conflict_error Reason.not_reversible)
  raise_if (exists (reverses original.id) db.entries) (conflict_error Reason.already_reversed)
  let reversal_date = or_default date today
  assert_books_open c reversal_date
  let lines = lines_of original.id db.lines
  raise_if (is_empty lines) (validation_error Reason.no_lines_to_reverse)
  post db c u
      (record {
        date = reversal_date;
        description = strip_or description (reversal_text original);
        source_type = SourceType.other;
        source_ref = concat "REV-" (show original.entry_number);
        reversal_of = some original.id;
      })
      (map reversed_line lines)
