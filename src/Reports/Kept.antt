-- ===== src/Reports/Kept.antt =====
-- Postings keep what the reports need of the tables.
use mono256_sic_core.Base.{
  ℕ, ◌<◌, Bool, true, false, ◌&&◌, ◌||◌, some, List, [], ◌∷◌, map, String, ◌≡◌, refl, sym, subst,
  inl, inr, arith, ◌==◌, ==→eq, exists, All, All-map, All-append, Bool-cases,
}
use mono256_sic_core.Base.Result.{ok}
use mono256_sic_core.Store.{
  User, Company, Account, SourceType, JournalEntry, JournalEntryLine, Leg, Db,
}
use mono256_sic_core.Journal.{
  JournalLineInput, Heading, new_entry, posted, store_line, owns_account, find_account,
  create_journal_entry,
}
use mono256_sic_core.Journal.Invariant.{IsOld, WellFormed}
use mono256_sic_core.Journal.Validation.{IsPostable}
use mono256_sic_core.Journal.Posting.{post_inv}
use mono256_sic_core.Journal.Create.{IsTruthful, create_inv, heading}
use mono256_sic_core.Closing.Support.{is_owned_by}
use mono256_sic_core.Reports.Rows.{Complete, exists_weaker}

-- A key above all others is new.
above-fresh :
    (k : ℕ) (es : List JournalEntry) → All (λ e. e.id < k) es → exists (λ e. k == e.id) es ≡ false
above-fresh k [] below = refl
above-fresh k (e ∷ es) (lt, below) = ground (arith, above-fresh k es below)

-- The account that a valid line names stands in the table and belongs to the company.
postable-account :
    (db : Db) (company_id account_id : ℕ) (accounts : List Account) (a : Account)
    → find_account account_id accounts ≡ some a
    → exists (owns_account company_id account_id) db.company_accounts ≡ true
    → exists (λ x. account_id == x.id && is_owned_by db company_id x) accounts ≡ true
postable-account db company_id account_id [] a found owned = cc
postable-account db company_id account_id (x ∷ xs) a found owned =
    elim (Bool-cases (x.id == account_id)) [
      | inl here ↦
          let same : x.id ≡ account_id = ==→eq x.id account_id here in
          let it : (account_id == x.id) ≡ true = ground arith in
          let its : is_owned_by db company_id x ≡ true =
            subst
              (λ i.
                exists (λ ca. ca.company_id == company_id && ca.account_id == i) db.company_accounts
                ≡ true)
              (sym same) owned in
          rw (it, its) refl
      | inr there ↦
          or_later (account_id == x.id && is_owned_by db company_id x)
            (postable-account db company_id account_id xs a (rw there at found) owned)
    ]
  where
    or_later : (p : Bool) {q : Bool} → q ≡ true → (p || q) ≡ true
    or_later true h = refl
    or_later false h = h

module _ (db : Db) (c : Company) (h : Heading) (entry : JournalEntry)
    (lines : List JournalLineInput) (legs : List Leg) (old : All (IsOld db) db.entries)
    (complete : Complete db) (its_key : entry.id ≡ db.next_entry_id)
    (its_company : entry.company_id ≡ c.id) where
  abbrev after : Db
  after = posted db c h entry lines legs

  -- What the lines of the join need, for one company.
  abbrev IsPlaced : ℕ → JournalEntryLine → Type 0
  IsPlaced k l =
      exists (λ e. l.entry_id == e.id && e.company_id == k) after.entries ≡ true
      → exists (λ a. l.account_id == a.id && is_owned_by db k a) db.accounts ≡ true

  old_line :
      (k : ℕ) (l : JournalEntryLine)
      → l.entry_id < db.next_entry_id
      → (exists (λ e. l.entry_id == e.id && e.company_id == k) db.entries ≡ true
          → exists (λ a. l.account_id == a.id && is_owned_by db k a) db.accounts ≡ true)
      → IsPlaced k l
  old_line k l before was now = was (not_new now)
    where
      other : (l.entry_id == entry.id) ≡ false
      other = ground (arith, its_key, before)

      not_new :
          ((l.entry_id == entry.id && entry.company_id == k)
              || exists (λ e. l.entry_id == e.id && e.company_id == k) db.entries)
            ≡ true
          → exists (λ e. l.entry_id == e.id && e.company_id == k) db.entries ≡ true
      not_new there = ground (arith, other, there)

  same_company :
      (k : ℕ) → ((entry.id == entry.id && entry.company_id == k) || false) ≡ true → c.id ≡ k
  same_company k there = ground (arith, its_company)

  fresh_key : exists (λ e. entry.id == e.id) db.entries ≡ false
  fresh_key = above-fresh entry.id db.entries (
      All-map (IsOld db) (λ e. e.id < entry.id) db.entries (λ e o. omega (arith, its_key, o.0)) old)

  new_line :
      (k : ℕ) (line : JournalLineInput)
      → IsPostable db c line
      → IsPlaced k (store_line entry.id line)
  new_line k line fits now =
      let others =
        exists_weaker (λ e. entry.id == e.id) (λ e. e.company_id == k) db.entries fresh_key in
      let the_company : c.id ≡ k = same_company k (rw others at now) in
      subst (λ i. exists (λ a. line.account_id == a.id && is_owned_by db i a) db.accounts ≡ true)
        the_company
        (postable-account db c.id line.account_id db.accounts fits.account fits.found fits.owned)

  new_lines :
      (k : ℕ) (ls : List JournalLineInput)
      → All (IsPostable db c) ls
      → All (IsPlaced k) (map (store_line entry.id) ls)
  new_lines k [] fits = tt
  new_lines k (l ∷ ls) (fit, fits) = (new_line k l fit, new_lines k ls fits)

  old_lines :
      (k : ℕ) (ls : List JournalEntryLine)
      → All (λ l. l.entry_id < db.next_entry_id) ls
      → All
          (λ l.
            exists (λ e. l.entry_id == e.id && e.company_id == k) db.entries ≡ true
            → exists (λ a. l.account_id == a.id && is_owned_by db k a) db.accounts ≡ true)
          ls
      → All (IsPlaced k) ls
  old_lines k [] below were = tt
  old_lines k (l ∷ ls) (lt, below) (was, were) = (old_line k l lt was, old_lines k ls below were)

  posted-Complete :
      All (λ l. l.entry_id < db.next_entry_id) db.lines
      → All (IsPostable db c) lines
      → Complete (posted db c h entry lines legs)
  posted-Complete below fits = record {
    entry_keys = (fresh_key, complete.entry_keys);
    account_keys = complete.account_keys;
    placed = λ k.
        All-append (IsPlaced k) (map (store_line entry.id) lines) db.lines (new_lines k lines fits)
          (old_lines k db.lines below (complete.placed k));
  }

-- A posting that succeeds in a well-formed journal, for a company whose cached opening flag is true to
-- the table, keeps the keys of the tables different and every line on an account of its company.
pub create_journal_entry-Complete :
    (db : Db) (c : Company) (u : User) (date : ℕ) (description : String) (s : SourceType)
    (ref : String) (lines : List JournalLineInput) {r : JournalEntry × Db}
    → WellFormed db
    → Complete db
    → IsTruthful db c
    → create_journal_entry db c u date description s ref lines ≡ ok r
    → Complete r.1
create_journal_entry-Complete db c u date description s ref lines wf complete truthful e =
    let (allowed, p) = create_inv db c u date description s ref lines truthful e in
    let h = heading db c u date description s ref lines in
    let (legs, built, same) = post_inv db c u h lines p in
    rw same (
      posted-Complete db c h (new_entry db c u h) lines legs wf.old_entries complete refl refl
        wf.old_lines allowed.posting.postable)
