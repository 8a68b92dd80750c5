-- ===== src/Journal/Reverse.antt =====
-- `reverse_journal_entry`: its guards, and what it writes.
use mono256_sic_core.Base.{
  find, find-All, ℕ, true, false, not, Option, some, List, [], ◌∷◌, map, String, ◌≡◌, ◌≢◌, refl,
  sym, ◌∙◌, inl, inr, arith, ◌==◌, ==_refl, exists, if◌then◌else◌, or_default, Bool-cases, strip_or,
  show, concat,
}
use mono256_sic_core.Base.Int.{ℤ, pos, ◌+ℤ◌, ◌-ℤ◌, sum_of, int_laws, parts_eq}
use mono256_sic_core.Base.Result.{ok, raise_if, >>=-eq-ok}
use mono256_sic_core.Store.{
  User, Company, LineType, SourceType, JournalEntry, JournalEntryLine, Db, swap_side, debit_part,
  credit_part,
}
use mono256_sic_core.Companies.{assert_actor_can_write_company, assert_company_accounting_ready}
use mono256_sic_core.Journal.{
  Heading, assert_books_open, lines_of, reversed_line, check_source, reversal_text, reverses,
  non_reversible, is_empty, post, store_line, reverse_journal_entry,
}
use mono256_sic_core.Journal.Validation.{debit_of, credit_of}
use mono256_sic_core.Journal.Invariant.{line_debit, line_credit, IsBalancedEntry, WellFormed}
use mono256_sic_core.Journal.Posting.{posted-WellFormed, post_inv, new_lines, kept_lines}
use mono256_sic_core.Journal.Create.{
  IsTruthful, IsAfter, assert_books_open_sound, check_source_sound,
}

swap_side_parts :
    (s : LineType) (amount : ℤ)
    → (debit_part (swap_side s) amount ≡ credit_part s amount)
      × (credit_part (swap_side s) amount ≡ debit_part s amount)
swap_side_parts LineType.debit amount = (refl, refl)
swap_side_parts LineType.credit amount = (refl, refl)

sum_of-reversed_line :
    (lines : List JournalEntryLine)
    → (sum_of debit_of (map reversed_line lines) ≡ sum_of line_credit lines)
      × (sum_of credit_of (map reversed_line lines) ≡ sum_of line_debit lines)
unfolding sum_of
sum_of-reversed_line [] = (refl, refl)
sum_of-reversed_line (l ∷ lines) =
    let (d, c) = swap_side_parts l.type l.amount in
    let (ds, cs) = sum_of-reversed_line lines in (rw (d, ds), rw (c, cs))

module _ (db : Db) (c : Company) (original : JournalEntry) (u : User) (today : ℕ) (date : Option ℕ)
    (description : String) where
  abbrev pub heading : Heading
  heading = record {
    date = or_default date today;
    description = strip_or description (reversal_text original);
    source_type = SourceType.other;
    source_ref = concat "REV-" (show original.entry_number);
    reversal_of = some original.id;
  }

  -- The conditions for a reversal, as the source means them.
  pub record IsReversible : Type 0 where
    pub writable : assert_actor_can_write_company (some u) c ≡ ok tt
    pub ready : assert_company_accounting_ready db c ≡ ok tt
    pub own : (original.company_id == c.id) ≡ true
    pub kind : non_reversible original.source_type ≡ false
    pub fresh : exists (reverses original.id) db.entries ≡ false
    pub after : IsAfter c.books_closed_until (or_default date today)
    pub lines : is_empty (lines_of original.id db.lines) ≡ false

  pub reverse_inv :
      {r : JournalEntry × Db}
      → reverse_journal_entry db c original u today date description ≡ ok r
      → IsReversible
        × (post db c u heading (map reversed_line (lines_of original.id db.lines)) ≡ ok r)
  unfolding reverse_journal_entry
  reverse_inv e =
      let (_, w, e₁) = >>=-eq-ok (assert_actor_can_write_company (some u) c) _ e in
      let (_, g, e₂) = >>=-eq-ok (assert_company_accounting_ready db c) _ e₁ in
      let (_, o, e₃) = >>=-eq-ok (raise_if (not (original.company_id == c.id)) _) _ e₂ in
      let (_, k, e₄) = >>=-eq-ok (raise_if (non_reversible original.source_type) _) _ e₃ in
      let (_, f, e₅) = >>=-eq-ok (raise_if (exists (reverses original.id) db.entries) _) _ e₄ in
      let (_, b, e₆) = >>=-eq-ok (assert_books_open c (or_default date today)) _ e₅ in
      let (_, l, e₇) = >>=-eq-ok (raise_if (is_empty (lines_of original.id db.lines)) _) _ e₆ in
      (
        record {
          writable = w;
          ready = g;
          own = ground (arith, o);
          kind = ground (arith, k);
          fresh = ground (arith, f);
          after = assert_books_open_sound c _ b;
          lines = ground (arith, l);
        },
        e₇,
      )

-- The entry object is a row of the table.
abbrev pub IsPosted : Db → JournalEntry → Type 0
IsPosted db e = find (λ x. x.id == e.id) db.entries ≡ some e

posted-IsBalancedEntry :
    (db : Db) (e : JournalEntry) → WellFormed db → IsPosted db e → IsBalancedEntry db.lines e
posted-IsBalancedEntry db e wf found =
    find-All (IsBalancedEntry db.lines) (λ x. x.id == e.id) db.entries wf.balanced found

-- What the lines add to the balance of an account, debits less credits.
abbrev pub net_on : ℕ → JournalEntryLine → ℤ
net_on account_id l = if l.account_id == account_id then line_debit l -ℤ line_credit l else pos 0

swap_side_net :
    (s : LineType) (amount : ℤ)
    → debit_part (swap_side s) amount -ℤ credit_part (swap_side s) amount
      ≡ pos 0 -ℤ (debit_part s amount -ℤ credit_part s amount)
swap_side_net LineType.debit amount = omega int_laws
swap_side_net LineType.credit amount = omega int_laws

sum_of-reversed_net :
    (account_id k : ℕ) (lines : List JournalEntryLine)
    → sum_of (net_on account_id) (map (store_line k) (map reversed_line lines))
        +ℤ sum_of (net_on account_id) lines
      ≡ pos 0
unfolding sum_of
sum_of-reversed_net account_id k [] = omega int_laws
sum_of-reversed_net account_id k (l ∷ lines) = elim (Bool-cases (l.account_id == account_id)) [
  | inl same ↦ rw same (
      omega (
        int_laws,
        parts_eq (swap_side_net l.type l.amount),
        parts_eq (sum_of-reversed_net account_id k lines),
      ))
  | inr other ↦ rw other (omega (int_laws, parts_eq (sum_of-reversed_net account_id k lines)))
]

module _ (db : Db) (c : Company) (original : JournalEntry) (u : User) (today : ℕ) (date : Option ℕ)
    (description : String) {r : JournalEntry × Db} where
  -- In a well-formed journal, for a company whose cached opening flag is true to the table, a
  -- reversal of a posted entry that succeeds leaves a well-formed journal.
  pub reverse_journal_entry-WellFormed :
      WellFormed db
      → IsTruthful db c
      → IsPosted db original
      → reverse_journal_entry db c original u today date description ≡ ok r
      → WellFormed r.1
  unfolding check_source assert_company_accounting_ready
  reverse_journal_entry-WellFormed wf t found e =
      let (can, p) = reverse_inv db c original u today date description e in
      let h = heading db c original u today date description in
      let lines = map reversed_line (lines_of original.id db.lines) in
      let (legs, built, same) = post_inv db c u h lines p in
      let (d, cr) = sum_of-reversed_line (lines_of original.id db.lines) in
      rw same (
        posted-WellFormed db c u h lines legs wf built
          (d ∙ sym (posted-IsBalancedEntry db original wf found) ∙ sym cr)
          (check_source_sound db c SourceType.other t can.ready) can.fresh)

  -- In a well-formed journal a reversal of a posted entry that succeeds refers to the original, and
  -- on every account the two entries cancel.
  pub reverse_journal_entry_cancels :
      (account_id : ℕ)
      → WellFormed db
      → IsPosted db original
      → reverse_journal_entry db c original u today date description ≡ ok r
      → (r.0.reversal_of ≡ some original.id)
        × (sum_of (net_on account_id) (lines_of r.0.id r.1.lines)
              +ℤ sum_of (net_on account_id) (lines_of original.id r.1.lines)
            ≡ pos 0)
  reverse_journal_entry_cancels account_id wf found e =
      let (can, p) = reverse_inv db c original u today date description e in
      let h = heading db c original u today date description in
      let lines = map reversed_line (lines_of original.id db.lines) in
      let (legs, built, same) = post_inv db c u h lines p in
      let old = find-All _ (λ x. x.id == original.id) db.entries wf.old_entries found in
      rw same (
        refl,
        rw
            (
              new_lines db c u h lines legs wf built,
              kept_lines db c u h lines legs wf built original.id old.0,
            )
            (sum_of-reversed_net account_id db.next_entry_id (lines_of original.id db.lines)),
      )

  -- Behind a reversal that succeeded no further reversal of the same entry succeeds.
  pub reverse_journal_entry_once :
      (v : User) (later : ℕ) (when : Option ℕ) (text : String) (q : JournalEntry × Db)
      → reverse_journal_entry db c original u today date description ≡ ok r
      → reverse_journal_entry r.1 c original v later when text ≢ ok q
  reverse_journal_entry_once v later when text q e again =
      let (can, p) = reverse_inv db c original u today date description e in
      let h = heading db c original u today date description in
      let lines = map reversed_line (lines_of original.id db.lines) in
      let (legs, built, same) = post_inv db c u h lines p in
      let (twice, _) = reverse_inv r.1 c original v later when text again in
      ground (arith, same, twice.fresh, ==_refl original.id)
