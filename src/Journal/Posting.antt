-- ===== src/Journal/Posting.antt =====
-- The writes of a posting and the invariant of the journal.
use mono256_sic_core.Base.{
  ℕ, ◌+◌, ◌<◌, ◌≤◌, String, true, false, not, ◌&&◌, none, some, List, [], ◌∷◌, map, ◌≡◌, refl, sym,
  ◌∙◌, inl, inr, arith, ◌==◌, All, All-map, exists, where_-new, where_-old, keys-append, Bool-cases,
  or-false, or-false_intro, and-or-false,
}
use mono256_sic_core.Base.Int.{sum_of}
use mono256_sic_core.Base.Result.{ok, raise_if, or_raise, key_error, >>=-eq-ok}
use mono256_sic_core.Store.{User, Company, Account, JournalEntry, Leg, Db, is_opening}
use mono256_sic_core.Journal.{
  JournalLineInput, Heading, find_account, first_currency, last_entry_number, next_entry_number,
  make_leg, build_legs, clashes, store_line, new_entry, posted, post, of_company, lines_of,
  same_number, same_reversal, second_opening,
}
use mono256_sic_core.Journal.Validation.{debit_of, credit_of}
use mono256_sic_core.Journal.Invariant.{
  line_debit, line_credit, count_of, IsNumbered, IsFirstReversal, IsBalancedEntry, legs_of,
  IsMirror, IsMirrored, IsOld, WellFormed,
}

store_line-keys :
    (k : ℕ) (lines : List JournalLineInput) → All (λ l. l.entry_id ≡ k) (map (store_line k) lines)
store_line-keys k [] = tt
store_line-keys k (line ∷ lines) = (refl, store_line-keys k lines)

build_legs-cons :
    (accounts : List Account) (tx : ℕ) (line : JournalLineInput) (lines : List JournalLineInput)
    {legs : List Leg}
    → build_legs accounts tx (line ∷ lines) ≡ ok legs
    → (currency : String) × (rest : List Leg) × (build_legs accounts tx lines ≡ ok rest)
      × (legs ≡ make_leg tx currency line ∷ rest)
unfolding build_legs
build_legs-cons accounts tx line lines h =
    let (a, _, h₁) = >>=-eq-ok (or_raise (find_account line.account_id accounts) key_error) _ h in
    let (currency, _, h₂) = >>=-eq-ok (first_currency a.currencies) _ h₁ in
    let (rest, built, made) = >>=-eq-ok (build_legs accounts tx lines) _ h₂ in
    (currency, rest, built, ground (arith, made))

build_legs-IsMirror :
    (accounts : List Account) (tx k : ℕ) (lines : List JournalLineInput) (legs : List Leg)
    → build_legs accounts tx lines ≡ ok legs
    → IsMirror legs (map (store_line k) lines) × All (λ g. g.transaction_id ≡ tx) legs
unfolding build_legs
build_legs-IsMirror accounts tx k [] [] h = (tt, tt)
build_legs-IsMirror accounts tx k [] (g ∷ gs) h = cc
build_legs-IsMirror accounts tx k (line ∷ lines) legs h =
    let (currency, rest, built, e) = build_legs-cons accounts tx line lines h in
    let (mirror, keys) = build_legs-IsMirror accounts tx k lines rest built in
    rw e ((refl, refl, refl, mirror), (refl, keys))

-- Numbering.
last_entry_number-numbered :
    (company_id : ℕ) (es : List JournalEntry)
    → IsNumbered es
    → elim (last_entry_number company_id es) [ none ↦ 1 | some n ↦ n + 1 ]
      ≡ count_of company_id es + 1
unfolding last_entry_number count_of
last_entry_number-numbered company_id [] h = omega arith
last_entry_number-numbered company_id (e ∷ es) h =
    ground (arith, last_entry_number-numbered company_id es h.1)

-- The number that a company's next entry gets.
pub next_entry_number-eq :
    (db : Db) (company_id : ℕ)
    → IsNumbered db.entries
    → next_entry_number db company_id ≡ count_of company_id db.entries + 1
unfolding next_entry_number
next_entry_number-eq db company_id h = last_entry_number-numbered company_id db.entries h

number-le-count :
    (company_id n : ℕ) (es : List JournalEntry)
    → IsNumbered es
    → exists (λ e. e.company_id == company_id && e.entry_number == n) es ≡ true
    → n ≤ count_of company_id es
unfolding count_of
number-le-count company_id n [] h p = cc
number-le-count company_id n (e ∷ es) h p = ground (arith, number-le-count company_id n es h.1)

abbrev NumberFree : JournalEntry → List JournalEntry → Type 0
NumberFree new es = exists (same_number new.company_id new.entry_number) es ≡ false

no_clash_one :
    (new e : JournalEntry)
    → same_number new.company_id new.entry_number e ≡ false
    → (is_opening new.source_type && of_company new.company_id e) ≡ false
    → e.transaction_id < new.transaction_id
    → same_reversal new.reversal_of e ≡ false
    → clashes new e ≡ false
no_clash_one new e n o t r =
    or-false_intro _ _ (or-false_intro _ _ n second) (or-false_intro _ _ (ground arith) r)
  where
    second : second_opening new e ≡ false
    second = ground arith

-- What keeps the unique constraints, one premise for each.
no_clash :
    (new : JournalEntry) (es : List JournalEntry)
    → NumberFree new es
    → (is_opening new.source_type && exists (of_company new.company_id) es) ≡ false
    → All (λ e. e.transaction_id < new.transaction_id) es
    → IsFirstReversal new.reversal_of es
    → exists (clashes new) es ≡ false
no_clash new [] n o t r = refl
no_clash new (e ∷ es) n o t r =
    let (n₁, n₂) = or-false _ _ n in
    let (o₁, o₂) =
      and-or-false (is_opening new.source_type) (of_company new.company_id e)
        (exists (of_company new.company_id) es) o in
    let (r₁, r₂) = or-false _ _ r in
    or-false_intro _ _ (no_clash_one new e n₁ o₁ t.0 r₁) (no_clash new es n₂ o₂ t.1 r₂)

-- The next number is free.
next-NumberFree :
    (company_id n : ℕ) (es : List JournalEntry)
    → IsNumbered es
    → n ≡ count_of company_id es + 1
    → exists (same_number company_id n) es ≡ false
next-NumberFree company_id n es h e = elim (Bool-cases (exists (same_number company_id n) es)) [
  | inl taken ↦ absurd (omega (arith, number-le-count company_id n es h taken, e))
  | inr free ↦ free
]

sum_of-store_line :
    (k : ℕ) (lines : List JournalLineInput)
    → (sum_of line_debit (map (store_line k) lines) ≡ sum_of debit_of lines)
      × (sum_of line_credit (map (store_line k) lines) ≡ sum_of credit_of lines)
unfolding sum_of
sum_of-store_line k [] = (refl, refl)
sum_of-store_line k (line ∷ lines) = let (d, c) = sum_of-store_line k lines in (rw d, rw c)

module _ (db : Db) (c : Company) (u : User) (h : Heading) (lines : List JournalLineInput)
    (legs : List Leg) (wf : WellFormed db)
    (built : build_legs db.accounts db.next_transaction_id lines ≡ ok legs) where
  abbrev pub fresh : JournalEntry
  fresh = new_entry db c u h

  abbrev pub after : Db
  after = posted db c h fresh lines legs

  -- The new lines are those of the new entry, and the old entries keep theirs.
  pub new_lines : lines_of db.next_entry_id after.lines ≡ map (store_line db.next_entry_id) lines
  new_lines =
      where_-new (λ l. l.entry_id) db.next_entry_id _ db.lines
        (store_line-keys db.next_entry_id lines) wf.old_lines

  pub kept_lines : (j : ℕ) → j < db.next_entry_id → lines_of j after.lines ≡ lines_of j db.lines
  kept_lines =
      where_-old (λ l. l.entry_id) db.next_entry_id _ db.lines
        (store_line-keys db.next_entry_id lines) wf.old_lines

  leg_facts :
      IsMirror legs (map (store_line db.next_entry_id) lines)
      × All (λ g. g.transaction_id ≡ db.next_transaction_id) legs
  leg_facts =
      build_legs-IsMirror db.accounts db.next_transaction_id db.next_entry_id lines legs built

  new_legs : legs_of db.next_transaction_id after.legs ≡ legs
  new_legs =
      where_-new (λ g. g.transaction_id) db.next_transaction_id legs db.legs leg_facts.1 wf.old_legs

  kept_legs : (j : ℕ) → j < db.next_transaction_id → legs_of j after.legs ≡ legs_of j db.legs
  kept_legs =
      where_-old (λ g. g.transaction_id) db.next_transaction_id legs db.legs leg_facts.1 wf.old_legs

  old_balanced :
      (es : List JournalEntry)
      → All (IsOld db) es
      → All (IsBalancedEntry db.lines) es
      → All (IsBalancedEntry after.lines) es
  old_balanced [] o b = tt
  old_balanced (e ∷ es) o b = (rw (kept_lines e.id o.0.0) b.0, old_balanced es o.1 b.1)

  old-IsMirrored :
      (es : List JournalEntry)
      → All (IsOld db) es
      → All (IsMirrored db.legs db.lines) es
      → All (IsMirrored after.legs after.lines) es
  old-IsMirrored [] o m = tt
  old-IsMirrored (e ∷ es) o m =
      (rw (kept_lines e.id o.0.0, kept_legs e.transaction_id o.0.1) m.0, old-IsMirrored es o.1 m.1)

  -- A posting of balanced lines keeps the invariant.
  pub posted-WellFormed :
      sum_of debit_of lines ≡ sum_of credit_of lines
      → is_opening h.source_type ≡ not (exists (of_company c.id) db.entries)
      → IsFirstReversal h.reversal_of db.entries
      → WellFormed (posted db c h (new_entry db c u h) lines legs)
  posted-WellFormed bal opens reversal = record {
    old_entries = (
      (omega arith, omega arith),
      All-map (IsOld db) (IsOld after) db.entries (λ e o. (omega arith, omega arith))
          wf.old_entries,
    );
    old_lines =
        keys-append (λ l. l.entry_id) db.next_entry_id _ db.lines
          (store_line-keys db.next_entry_id lines) wf.old_lines;
    old_legs =
        keys-append (λ g. g.transaction_id) db.next_transaction_id legs db.legs leg_facts.1
          wf.old_legs;
    numbered = (next_entry_number-eq db c.id wf.numbered, wf.numbered);
    opens_first = (opens, wf.opens_first);
    reverses_once = (reversal, wf.reverses_once);
    balanced = (
      rw new_lines (let (d, cr) = sum_of-store_line db.next_entry_id lines in d ∙ bal ∙ sym cr),
      old_balanced db.entries wf.old_entries wf.balanced,
    );
    mirrored = (
      rw (new_lines, new_legs) leg_facts.0,
      old-IsMirrored db.entries wf.old_entries wf.mirrored,
    );
  }

-- What a successful call of `post` has done.
pub post_inv :
    (db : Db) (c : Company) (u : User) (h : Heading) (lines : List JournalLineInput)
    {r : JournalEntry × Db}
    → post db c u h lines ≡ ok r
    → (legs : List Leg) × (build_legs db.accounts db.next_transaction_id lines ≡ ok legs)
      × (r ≡ (new_entry db c u h, posted db c h (new_entry db c u h) lines legs))
unfolding post
post_inv db c u h lines e =
    let (legs, built, e₁) = >>=-eq-ok (build_legs db.accounts db.next_transaction_id lines) _ e in
    let (_, _, e₂) =
      >>=-eq-ok (raise_if (exists (clashes (new_entry db c u h)) db.entries) _) _ e₁ in
    (legs, built, ground (arith, e₂))

-- In a well-formed journal no unique constraint is violated: the branch for `IntegrityError` is
-- left to concurrent writers.
pub post_total :
    (db : Db) (c : Company) (u : User) (h : Heading) (lines : List JournalLineInput)
    (legs : List Leg)
    → WellFormed db
    → (is_opening h.source_type && exists (of_company c.id) db.entries) ≡ false
    → IsFirstReversal h.reversal_of db.entries
    → build_legs db.accounts db.next_transaction_id lines ≡ ok legs
    → post db c u h lines ≡ ok (new_entry db c u h, posted db c h (new_entry db c u h) lines legs)
unfolding post
post_total db c u h lines legs wf opens reversal built =
    rw (built, no_clash (new_entry db c u h) db.entries free opens transactions reversal)
  where
    free : NumberFree (new_entry db c u h) db.entries
    free =
        next-NumberFree c.id (next_entry_number db c.id) db.entries wf.numbered
          (next_entry_number-eq db c.id wf.numbered)

    transactions : All (λ e. e.transaction_id < db.next_transaction_id) db.entries
    transactions = All-map (IsOld db) _ db.entries (λ e o. o.1) wf.old_entries
