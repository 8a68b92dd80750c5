-- ===== src/Closing/Execute.antt =====
-- `execute_simplified_closing`: the plan's entries are posted in order, a snapshot is written, and
-- the books are closed at the closing date.
pub mod Tables
pub mod Keeps
use mono256_sic_core.Base.{
  ℕ, ◌+◌, Bool, true, false, ◌&&◌, Option, none, some, List, [], ◌∷◌, ◌++◌, map, String, ◌==◌,
  if◌then◌else◌, find, str_eq, codes_eq, normalize,
}
use mono256_sic_core.Base.Result.{
  Result, ok, raise, Error, ◌>>=◌, ◌>>◌, or_raise, conflict_error, Reason,
}
use mono256_sic_core.Store.{
  User, Company, JournalEntry, ClosingSnapshot, Db, is_reopening, is_patrimonial_closing,
}
use mono256_sic_core.Companies.{assert_can_manage_company_closing}
use mono256_sic_core.Journal.{JournalLineInput, create_journal_entry}
use mono256_sic_core.Closing.Draft.{DraftLine, DraftEntry}
use mono256_sic_core.Closing.Adjust.{ClosingRequest}
use mono256_sic_core.Closing.Entries.{SnapshotLine}
use mono256_sic_core.Closing.Plan.{Plan, ordered_entries, build_simplified_closing_plan}
use mono256_sic_core.Closing.Support.{SupportAccount, ensure_company_closing_accounts}

abbrev pub is_support_for : DraftLine → SupportAccount → Bool
is_support_for l s =
    str_eq s.parent_code l.parent_code && codes_eq s.name (normalize l.account_name)

abbrev pub resolved_line : DraftLine → ℕ → JournalLineInput
resolved_line l account_id = record { account_id = account_id; type = l.type; amount = l.amount }

abbrev pub resolve_line : List SupportAccount → DraftLine → Result JournalLineInput
resolve_line supports l = elim l.account_id [
  | some id ↦ ok (resolved_line l id)
  | none ↦
      or_raise (find (is_support_for l) supports) (conflict_error Reason.support_account_missing)
      >>= λ s. ok (resolved_line l s.account_id)
]

unfoldable pub resolve_lines : List SupportAccount → List DraftLine → Result (List JournalLineInput)
resolve_lines supports [] = ok []
resolve_lines supports (l ∷ ls) = do
  line ← resolve_line supports l
  rest ← resolve_lines supports ls
  ok (line ∷ rest)

-- `_resolve_line_account_ids`
unfoldable pub resolve_line_account_ids :
    Db → ℕ → List DraftLine → Result (List JournalLineInput × Db)
unfolding ensure_company_closing_accounts resolve_lines
resolve_line_account_ids db company_id lines = do
  (supports, db') ← ensure_company_closing_accounts db company_id
  resolved ← resolve_lines supports lines
  ok (resolved, db')

-- One round of the loop: the entry is resolved and posted.
unfoldable pub post_draft : Company → User → DraftEntry → Db → Result (JournalEntry × Db)
unfolding resolve_line_account_ids create_journal_entry
post_draft c u e db = do
  (lines, db') ← resolve_line_account_ids db c.id e.lines
  create_journal_entry db' c u e.date e.description e.source_type e.source_ref lines

unfoldable pub post_drafts : Company → User → List DraftEntry → Db → Result (List JournalEntry × Db)
unfolding post_draft
post_drafts c u [] db = ok ([], db)
post_drafts c u (e ∷ es) db = do
  (entry, db₁) ← post_draft c u e db
  (entries, db₂) ← post_drafts c u es db₁
  ok (entry ∷ entries, db₂)

-- The last entry of the kind among those created, as the loop's variable holds it.
abbrev pub last_such : (JournalEntry → Bool) → List JournalEntry → Option JournalEntry
last_such p [] = none
last_such p (e ∷ es) = elim (last_such p es) [
  | some later ↦ some later
  | none ↦ if p e then some e else none
]

abbrev pub new_snapshot : Db → ℕ → JournalEntry → JournalEntry → ClosingSnapshot
new_snapshot db company_id closing reopening = record {
  id = db.next_snapshot_id;
  company_id = company_id;
  closing_entry_id = closing.id;
  reopening_entry_id = reopening.id;
  closing_date = closing.date;
  reopening_date = reopening.date;
}

-- `company.save(update_fields=["books_closed_until", …])`
abbrev pub close_books : ℕ → ℕ → List Company → List Company
close_books company_id date =
    map (λ (x : Company).
      if x.id == company_id then record x { books_closed_until = some date } else x)

abbrev pub closed_db : Db → ℕ → ℕ → ClosingSnapshot → Db
closed_db db company_id date snapshot = record db {
  snapshots = snapshot ∷ db.snapshots;
  next_snapshot_id = db.next_snapshot_id + 1;
  companies = close_books company_id date db.companies;
}

pub record Closing : Type 0 where
  pub created_entries : List JournalEntry
  pub snapshot : ClosingSnapshot
  pub snapshot_lines : List SnapshotLine

unfoldable pub execute_simplified_closing :
    Db → Company → User → ClosingRequest → Result (Closing × Db)
unfolding assert_can_manage_company_closing build_simplified_closing_plan post_drafts
execute_simplified_closing db c u r = do
  assert_can_manage_company_closing u c
  plan ← build_simplified_closing_plan db c r
  (created, db') ← post_drafts c u (ordered_entries plan) db
  closing ←
      or_raise (last_such (λ e. is_patrimonial_closing e.source_type) created)
        (conflict_error Reason.closing_entries_missing)
  reopening ←
      or_raise (last_such (λ e. is_reopening e.source_type) created)
        (conflict_error Reason.closing_entries_missing)
  let snapshot = new_snapshot db' c.id closing reopening
  ok (
    record { created_entries = created; snapshot = snapshot; snapshot_lines = plan.snapshot_lines },
    closed_db db' c.id r.closing_date snapshot,
  )
