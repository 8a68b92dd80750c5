-- ===== src/Journal/Create.antt =====
-- `create_journal_entry`: when it succeeds, and what it writes.
use mono256_sic_core.Base.{
  ℕ, ◌+◌, ◌<◌, Bool, true, false, not, Option, none, some, List, [], ◌∷◌, String, ◌≡◌, ◌↔◌, refl,
  inl, inr, arith, All, All-map, find-All, map, exists, Option-cases,
}
use mono256_sic_core.Base.Result.{ok, >>=-eq-ok}
use mono256_sic_core.Store.{User, Company, Account, Leg, SourceType, JournalEntry, Db, is_opening}
use mono256_sic_core.Companies.{
  assert_actor_can_write_company, assert_company_accounting_ready, company_has_opening_entry,
  is_opening_of,
}
use mono256_sic_core.Journal.{
  JournalLineInput, Heading, store_line, lines_of, assert_books_open, validate_lines, build_legs,
  new_entry, posted, post, of_company, is_empty, make_leg, same_reversal, check_source,
  create_journal_entry,
}
use mono256_sic_core.Journal.Validation.{
  IsPostable, IsBalancedPosting, validate_lines_sound, validate_lines_complete,
}
use mono256_sic_core.Journal.Invariant.{count_of, IsOld, OpensFirst, WellFormed}
use mono256_sic_core.Journal.Posting.{
  posted-WellFormed, new_lines, kept_lines, post_inv, post_total, next_entry_number-eq,
}

-- The annotation of the company object, if it has one, still Agrees with the table.
abbrev Agrees : Option Bool → Bool → Type 0
Agrees none b = Unit
Agrees (some a) b = a ≡ b

abbrev pub IsTruthful : Db → Company → Type 0
IsTruthful db c = Agrees c.has_opening_entry (exists (is_opening_of c.id) db.entries)

pub company_has_opening_entry-eq :
    (db : Db) (c : Company)
    → IsTruthful db c
    → company_has_opening_entry db c ≡ exists (is_opening_of c.id) db.entries
unfolding company_has_opening_entry
company_has_opening_entry-eq db c t = elim (Option-cases c.has_opening_entry) [
  | inl e ↦ rw (e, company_has_opening_entry)
  | inr (b, e) ↦ rw (e, company_has_opening_entry) (rw e at t)
]

-- The date lies after the date up to which the books are closed.
abbrev pub IsAfter : Option ℕ → ℕ → Type 0
IsAfter none date = Unit
IsAfter (some until) date = until < date

pub assert_books_open_sound :
    (c : Company) (date : ℕ) → assert_books_open c date ≡ ok tt → IsAfter c.books_closed_until date
unfolding assert_books_open
assert_books_open_sound c date h = ground arith

pub assert_books_open_complete :
    (c : Company) (date : ℕ) → IsAfter c.books_closed_until date → assert_books_open c date ≡ ok tt
unfolding assert_books_open
assert_books_open_complete c date h = ground arith

exists-opening_of :
    (k : ℕ) (es : List JournalEntry)
    → exists (is_opening_of k) es ≡ true
    → exists (of_company k) es ≡ true
exists-opening_of k [] h = h
exists-opening_of k (e ∷ es) h = ground (arith, exists-opening_of k es)

-- The guards let an opening through only as the first entry, and anything else only behind one.
pub check_source_sound :
    (db : Db) (c : Company) (s : SourceType)
    → IsTruthful db c
    → check_source db c s ≡ ok tt
    → is_opening s ≡ not (exists (of_company c.id) db.entries)
unfolding check_source assert_company_accounting_ready
check_source_sound db c s t h =
    ground (arith, company_has_opening_entry-eq db c t, exists-opening_of c.id db.entries)

-- In a well-formed journal a company with any entry has an opening.
pub of_company-opened :
    (k : ℕ) (es : List JournalEntry)
    → OpensFirst es
    → exists (of_company k) es ≡ exists (is_opening_of k) es
of_company-opened k [] h = refl
of_company-opened k (e ∷ es) h = ground (arith, of_company-opened k es h.1)

check_source_complete :
    (db : Db) (c : Company) (s : SourceType)
    → IsTruthful db c
    → OpensFirst db.entries
    → is_opening s ≡ not (exists (of_company c.id) db.entries)
    → check_source db c s ≡ ok tt
unfolding check_source assert_company_accounting_ready
check_source_complete db c s t first h = ground (
  arith,
  company_has_opening_entry-eq db c t,
  of_company-opened c.id db.entries first,
  exists-opening_of c.id db.entries,
)

abbrev head_or : String → List String → String
head_or d [] = d
head_or d (x ∷ xs) = x

-- Every account has a currency, as hordak's form and the loader of the chart write it.
abbrev pub HasCurrencies : Db → Type 0
HasCurrencies db = All (λ (a : Account). is_empty a.currencies ≡ false) db.accounts

build_legs_total :
    (db : Db) (c : Company) (tx : ℕ) (lines : List JournalLineInput)
    → HasCurrencies db
    → All (IsPostable db c) lines
    → (legs : List Leg) × (build_legs db.accounts tx lines ≡ ok legs)
unfolding build_legs
build_legs_total db c tx [] cur h = ([], refl)
build_legs_total db c tx (line ∷ lines) cur h =
    let (legs, built) = build_legs_total db c tx lines cur h.1 in
    (
      make_leg tx (head_or "" h.0.account.currencies) line ∷ legs,
      ground (arith, h.0.found, built, find-All _ _ db.accounts cur h.0.found),
    )

no_reversal : (es : List JournalEntry) → exists (same_reversal none) es ≡ false
no_reversal [] = refl
no_reversal (e ∷ es) = no_reversal es

-- The conditions for a posting, as the source means them.
pub record IsAllowed (db : Db) (c : Company) (u : User) (date : ℕ) (s : SourceType)
    (lines : List JournalLineInput) : Type 0 where
  pub writable : assert_actor_can_write_company (some u) c ≡ ok tt
  pub first : is_opening s ≡ not (exists (of_company c.id) db.entries)
  pub after : IsAfter c.books_closed_until date
  pub posting : IsBalancedPosting db c lines

module _ (db : Db) (c : Company) (u : User) (date : ℕ) (description : String) (s : SourceType)
    (ref : String) (lines : List JournalLineInput) where
  abbrev pub heading : Heading
  heading = record {
    date = date;
    description = description;
    source_type = s;
    source_ref = ref;
    reversal_of = none;
  }

  pub create_inv :
      {r : JournalEntry × Db}
      → IsTruthful db c
      → create_journal_entry db c u date description s ref lines ≡ ok r
      → IsAllowed db c u date s lines × (post db c u heading lines ≡ ok r)
  unfolding create_journal_entry
  create_inv t e =
      let (_, w, e₁) = >>=-eq-ok (assert_actor_can_write_company (some u) c) _ e in
      let (_, g, e₂) = >>=-eq-ok (check_source db c s) _ e₁ in
      let (_, b, e₃) = >>=-eq-ok (assert_books_open c date) _ e₂ in
      let (_, v, e₄) = >>=-eq-ok (validate_lines db c lines) _ e₃ in
      (
        record {
          writable = w;
          first = check_source_sound db c s t g;
          after = assert_books_open_sound c date b;
          posting = validate_lines_sound db c lines v;
        },
        e₄,
      )

  -- In a well-formed journal, for a company whose cached opening flag is true to the table, a
  -- posting that succeeds leaves a well-formed journal.
  pub create_journal_entry-WellFormed :
      {r : JournalEntry × Db}
      → WellFormed db
      → IsTruthful db c
      → create_journal_entry db c u date description s ref lines ≡ ok r
      → WellFormed r.1
  create_journal_entry-WellFormed wf t e =
      let (allowed, p) = create_inv t e in
      let (legs, built, same) = post_inv db c u heading lines p in
      rw same (
        posted-WellFormed db c u heading lines legs wf built allowed.posting.balanced allowed.first
          (no_reversal db.entries))

  create_complete :
      WellFormed db
      → IsTruthful db c
      → HasCurrencies db
      → IsAllowed db c u date s lines
      → (r : JournalEntry × Db) × (create_journal_entry db c u date description s ref lines ≡ ok r)
  unfolding create_journal_entry
  create_complete wf t cur allowed =
      let (legs, built) =
        build_legs_total db c db.next_transaction_id lines cur allowed.posting.postable in
      (
        (new_entry db c u heading, posted db c heading (new_entry db c u heading) lines legs),
        rw
            (
              allowed.writable,
              check_source_complete db c s t wf.opens_first allowed.first,
              assert_books_open_complete c date allowed.after,
              validate_lines_complete db c lines allowed.posting,
            )
            (post_total db c u heading lines legs wf (ground (arith, allowed.first))
              (no_reversal db.entries) built),
      )

  -- In a well-formed journal whose accounts all have a currency, for a company whose cached opening
  -- flag is true to the table: a posting succeeds exactly if the actor may write the company, the
  -- entry is an opening if and only if the company has no entry yet, the date lies after the closed
  -- period, and the lines make a balanced posting.
  pub create_journal_entry_iff :
      WellFormed db
      → IsTruthful db c
      → HasCurrencies db
      → ((r : JournalEntry × Db) × (create_journal_entry db c u date description s ref lines
            ≡ ok r))
        ↔ IsAllowed db c u date s lines
  create_journal_entry_iff wf t cur = ((λ (r, e). (create_inv t e).0), create_complete wf t cur)

  -- A posting that succeeds in a well-formed journal, for a company whose cached opening flag is
  -- true to the table, adds one entry of the company with its next number, the date and the source
  -- type asked for and the given lines in their order; every older entry keeps its lines.
  pub create_journal_entry_writes :
      {r : JournalEntry × Db}
      → WellFormed db
      → IsTruthful db c
      → create_journal_entry db c u date description s ref lines ≡ ok r
      → (r.1.entries ≡ r.0 ∷ db.entries)
        × (r.0.company_id ≡ c.id)
        × (r.0.entry_number ≡ count_of c.id db.entries + 1)
        × (r.0.date ≡ date)
        × (r.0.source_type ≡ s)
        × (lines_of r.0.id r.1.lines ≡ map (store_line r.0.id) lines)
        × All (λ e. lines_of e.id r.1.lines ≡ lines_of e.id db.lines) db.entries
  create_journal_entry_writes wf t e =
      let (allowed, p) = create_inv t e in
      let (legs, built, same) = post_inv db c u heading lines p in
      rw same (
        refl,
        refl,
        next_entry_number-eq db c.id wf.numbered,
        refl,
        refl,
        new_lines db c u heading lines legs wf built,
        All-map (IsOld db) _ db.entries
            (λ old o. kept_lines db c u heading lines legs wf built old.id o.0) wf.old_entries,
      )
