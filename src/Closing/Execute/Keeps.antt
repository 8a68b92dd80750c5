-- ===== src/Closing/Execute/Keeps.antt =====
-- What `execute_simplified_closing` leaves behind: the journal, and the closed period.
use mono256_sic_core.Base.{
  ℕ, ◌≤◌, none, some, List, [], ◌∷◌, String, ◌≡◌, refl, sym, ap, subst, inl, inr, arith, ◌==◌, find,
  Bool-cases, some_inj,
}
use mono256_sic_core.Base.Result.{ok, or_raise, conflict_error, Reason, >>=-eq-ok, ok-injective}
use mono256_sic_core.Store.{
  User, Company, JournalEntry, SourceType, Db, ClosingSnapshot, is_reopening,
  is_patrimonial_closing,
}
use mono256_sic_core.Companies.{assert_can_manage_company_closing}
use mono256_sic_core.Journal.{JournalLineInput, create_journal_entry}
use mono256_sic_core.Journal.Invariant.{WellFormed}
use mono256_sic_core.Journal.Create.{
  IsTruthful, IsAfter, create_inv, create_journal_entry-WellFormed,
}
use mono256_sic_core.Closing.Draft.{DraftEntry}
use mono256_sic_core.Closing.Adjust.{ClosingRequest}
use mono256_sic_core.Closing.Plan.{Plan, ordered_entries, build_simplified_closing_plan}
use mono256_sic_core.Closing.Support.{ensure_company_closing_accounts}
use mono256_sic_core.Closing.Execute.{
  resolve_line_account_ids, resolve_lines, post_draft, post_drafts, last_such, closed_db,
  close_books, Closing, execute_simplified_closing,
}
use mono256_sic_core.Closing.Execute.Tables.{
  SameJournal, SameJournal-WellFormed, ensure-SameJournal,
}

truthful : (db : Db) (c : Company) → c.has_opening_entry ≡ none → IsTruthful db c
truthful db c h = rw h tt

post_drafts-WellFormed :
    (c : Company) (u : User) (es : List DraftEntry) (db : Db) {r : List JournalEntry × Db}
    → c.has_opening_entry ≡ none
    → WellFormed db
    → post_drafts c u es db ≡ ok r
    → WellFormed r.1
unfolding post_drafts post_draft resolve_line_account_ids
post_drafts-WellFormed c u [] db plain wf h =
    subst (λ (r : List JournalEntry × Db). WellFormed r.1) (ok-injective h) wf
post_drafts-WellFormed c u (e ∷ es) db plain wf h =
    let (one, ran, h₁) = >>=-eq-ok (post_draft c u e db) _ h in
    let (more, ran', made) = >>=-eq-ok (post_drafts c u es one.1) _ h₁ in
    let (resolved, found, posted) = >>=-eq-ok (resolve_line_account_ids db c.id e.lines) _ ran in
    let (supports, ensured, g₁) = >>=-eq-ok (ensure_company_closing_accounts db c.id) _ found in
    let (_, _, kept) = >>=-eq-ok (resolve_lines supports.0 e.lines) _ g₁ in
    let same : SameJournal db resolved.1 =
      subst (λ (r : List _ × Db). SameJournal db r.1) (ok-injective kept)
        (ensure-SameJournal db c.id ensured) in
    subst (λ (r : List JournalEntry × Db). WellFormed r.1) (ok-injective made)
      (post_drafts-WellFormed c u es one.1 plain
        (create_journal_entry-WellFormed resolved.1 c u e.date e.description e.source_type
          e.source_ref resolved.0 (SameJournal-WellFormed same wf) (truthful resolved.1 c plain)
          posted)
        ran')

-- The steps of a closing that was executed.
record Executed (db : Db) (c : Company) (u : User) (r : ClosingRequest) (closing : Closing)
    (db' : Db) : Type 0 where
  pub plan : Plan
  pub planned : build_simplified_closing_plan db c r ≡ ok plan
  pub posted_db : Db
  pub posted : post_drafts c u (ordered_entries plan) db ≡ ok (closing.created_entries, posted_db)
  pub left : closed_db posted_db c.id r.closing_date closing.snapshot ≡ db'

execute-Executed :
    (db : Db) (c : Company) (u : User) (r : ClosingRequest) {out : Closing × Db}
    → execute_simplified_closing db c u r ≡ ok out
    → Executed db c u r out.0 out.1
unfolding execute_simplified_closing
execute-Executed db c u r h =
    let (_, _, h₁) = >>=-eq-ok (assert_can_manage_company_closing u c) _ h in
    let (plan, planned, h₂) = >>=-eq-ok (build_simplified_closing_plan db c r) _ h₁ in
    let (done, posted, h₃) = >>=-eq-ok (post_drafts c u (ordered_entries plan) db) _ h₂ in
    let (closing, _, h₄) =
      >>=-eq-ok
        (or_raise (last_such (λ e. is_patrimonial_closing e.source_type) done.0)
          (conflict_error Reason.closing_entries_missing))
        _ h₃ in
    let (reopening, _, made) =
      >>=-eq-ok
        (or_raise (last_such (λ e. is_reopening e.source_type) done.0)
          (conflict_error Reason.closing_entries_missing))
        _ h₄ in
    subst (λ (x : Closing × Db). Executed db c u r x.0 x.1) (ok-injective made)
      (record { plan = plan; planned = planned; posted_db = done.1; posted = posted; left = refl })

SameJournal-closed :
    (db : Db) (company_id date : ℕ) (s : ClosingSnapshot)
    → SameJournal db (closed_db db company_id date s)
SameJournal-closed db company_id date s = record {
  entries = refl;
  lines = refl;
  legs = refl;
  next_entry = refl;
  next_transaction = refl;
}

-- A closing that is executed on a company read without annotations leaves a well-formed journal
-- well-formed.
pub execute_simplified_closing-WellFormed :
    (db : Db) (c : Company) (u : User) (r : ClosingRequest) {out : Closing × Db}
    → c.has_opening_entry ≡ none
    → WellFormed db
    → execute_simplified_closing db c u r ≡ ok out
    → WellFormed out.1
execute_simplified_closing-WellFormed db c u r plain wf h =
    let did = execute-Executed db c u r h in
    subst WellFormed did.left (
      SameJournal-WellFormed (SameJournal-closed did.posted_db c.id r.closing_date _)
        (post_drafts-WellFormed c u (ordered_entries did.plan) db plain wf did.posted))

-- The company's row says until when its books are closed.
find-close_books :
    (company_id date : ℕ) (cs : List Company) {x : Company}
    → find (λ (y : Company). y.id == company_id) (close_books company_id date cs) ≡ some x
    → x.books_closed_until ≡ some date
find-close_books company_id date [] h = cc
find-close_books company_id date (y ∷ ys) {x} h = elim (Bool-cases (y.id == company_id)) [
  | inl same ↦
      let found = some_inj (rw (same, same) at h) in
      sym (ap (λ (z : Company). z.books_closed_until) found)
  | inr other ↦ find-close_books company_id date ys (rw (other, other) at h)
]

-- After an executed closing no entry dated up to the closing date can be posted to the company, as
-- its row then reads and where its cached opening flag is true to the table, by anyone.
pub execute_simplified_closing-closed :
    (db : Db) (c : Company) (u : User) (r : ClosingRequest) {out : Closing × Db} (x : Company)
    (v : User) (date : ℕ) (description : String) (s : SourceType) (ref : String)
    (lines : List JournalLineInput)
    → execute_simplified_closing db c u r ≡ ok out
    → find (λ (y : Company). y.id == c.id) out.1.companies ≡ some x
    → IsTruthful out.1 x
    → date ≤ r.closing_date
    → ¬ (
        (made : JournalEntry × Db) × (create_journal_entry out.1 x v date description s ref lines
          ≡ ok made))
execute_simplified_closing-closed db c u r {out} x v date description s ref lines h row t early
      (made, e) =
    let did = execute-Executed db c u r h in
    let (allowed, _) = create_inv out.1 x v date description s ref lines t e in
    let until = find-close_books c.id r.closing_date did.posted_db.companies (
      subst (λ (d : Db). find (λ (y : Company). y.id == c.id) d.companies ≡ some x) (sym did.left)
        row) in
    let after : IsAfter (some r.closing_date) date =
      subst (λ o. IsAfter o date) until allowed.after in
    omega arith
