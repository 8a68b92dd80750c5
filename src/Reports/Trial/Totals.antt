-- ===== src/Reports/Trial/Totals.antt =====
-- The totals of the trial balance.
use mono256_sic_core.Base.{
  ℕ, Bool, true, false, ◌&&◌, ◌||◌, Option, List, [], ◌∷◌, ◌≡◌, refl, sym, ◌∙◌, ap, inl, inr, arith,
  ◌==◌, leb, exists, All, All-map, Bool-cases, sort_by,
}
use mono256_sic_core.Base.Int.{ℤ, pos, ◌+ℤ◌, ◌-ℤ◌, sum_of, int_laws, parts_eq}
use mono256_sic_core.Base.Sums.{
  sum_of-keyed, sum_of-where_-All, sum_of-map, sum_of-each, sum_of-sort_by,
}
use mono256_sic_core.Store.{Account, JournalEntryLine, Db}
use mono256_sic_core.Journal.Invariant.{line_debit, line_credit, WellFormed}
use mono256_sic_core.Closing.Balances.{at_least_zero}
use mono256_sic_core.Closing.Support.{is_owned_by}
use mono256_sic_core.Closing.Load.{on_account, moved_accounts, has_lines, code_le}
use mono256_sic_core.Reports.Context.{ReportExerciseContext}
use mono256_sic_core.Reports.Rows.{
  All-kept, lines_in, starts_by, is_in_range, Complete, exists-where_, IsKeyed-where_,
  lines_in-balanced,
}
use mono256_sic_core.Reports.Trial.{
  TrialRow, TrialGroup, trial_row, trial_rows, same_parent, new_group, joined, add_row, group_rows,
  group_net, get_trial_balance,
}

-- A row of a list passes the tests that some row passes.
or_later : (a : Bool) {b : Bool} → b ≡ true → (a || b) ≡ true
or_later true h = refl
or_later false h = h

pub and-left : (a b : Bool) → (a && b) ≡ true → a ≡ true
and-left true b h = refl
and-left false b h = cc

and-right : (a b : Bool) → (a && b) ≡ true → b ≡ true
and-right true b h = h
and-right false b h = cc

inner : (a b c : Bool) → (a && (b && c)) ≡ true → (a && b) ≡ true
inner true true c h = refl
inner true false c h = cc
inner false b c h = cc

exists_self {ℓ} :
    {A : Type ℓ} (xs : List A) → All (λ x. (p : A → Bool) → p x ≡ true → exists p xs ≡ true) xs
exists_self [] = tt
exists_self (x ∷ xs) = (
  (λ p h. rw h refl),
  All-map (λ y. (p : _ → Bool) → p y ≡ true → exists p xs ≡ true)
      (λ y. (p : _ → Bool) → p y ≡ true → exists p (x ∷ xs) ≡ true) xs
      (λ y there p h. or_later (p x) (there p h)) (exists_self xs),
)

module _ (part : TrialGroup → ℤ) (amount : TrialRow → ℤ)
    (new : (row : TrialRow) → part (new_group row) ≡ pos 0 +ℤ amount row)
    (join : (g : TrialGroup) (row : TrialRow) → part (joined g row) ≡ part g +ℤ amount row) where
  sum_of-add_row :
      (gs : List TrialGroup) (row : TrialRow)
      → sum_of part (add_row gs row) ≡ sum_of part gs +ℤ amount row
  unfolding sum_of add_row
  sum_of-add_row [] row = omega (int_laws, parts_eq (new row))
  sum_of-add_row (g ∷ gs) row = elim (Bool-cases (same_parent g.parent_id row.account.parent_id)) [
    | inl here ↦ rw here (omega (int_laws, parts_eq (join g row)))
    | inr other ↦ rw other (omega (int_laws, parts_eq (sum_of-add_row gs row)))
  ]

  -- The groups hold what the rows hold.
  sum_of-group_rows :
      (gs : List TrialGroup) (rows : List TrialRow)
      → sum_of part (group_rows gs rows) ≡ sum_of part gs +ℤ sum_of amount rows
  unfolding group_rows sum_of
  sum_of-group_rows gs [] = omega int_laws
  sum_of-group_rows gs (row ∷ rows) = omega (
    int_laws,
    parts_eq (sum_of-group_rows (add_row gs row) rows),
    parts_eq (sum_of-add_row gs row),
  )

either_part : (n : ℤ) → at_least_zero n -ℤ at_least_zero (pos 0 -ℤ n) ≡ n
unfolding ◌-ℤ◌
either_part n = ground arith

-- What the nets of the groups leave above and below zero.
balance_difference :
    (gs : List TrialGroup)
    → sum_of (λ g. at_least_zero (group_net g)) gs
        -ℤ sum_of (λ g. at_least_zero (pos 0 -ℤ group_net g)) gs
      ≡ sum_of TrialGroup.subtotal_debit gs -ℤ sum_of TrialGroup.subtotal_credit gs
unfolding sum_of
balance_difference [] = refl
balance_difference (g ∷ gs) =
    omega (int_laws, parts_eq (balance_difference gs), parts_eq (either_part (group_net g)))

exists_mono {ℓ} :
    {A : Type ℓ} (p q : A → Bool) (xs : List A)
    → ((x : A) → p x ≡ true → q x ≡ true)
    → exists p xs ≡ true
    → exists q xs ≡ true
exists_mono p q [] implies h = cc
exists_mono p q (x ∷ xs) implies h = elim (Bool-cases (p x)) [
  | inl here ↦ rw (implies x here) refl
  | inr there ↦ or_later (q x) (exists_mono p q xs implies (rw there at h))
]

All-both {ℓ κ μ} :
    {A : Type ℓ} (P : A → Type κ) (Q : A → Type μ) (xs : List A)
    → All P xs
    → All Q xs
    → All (λ x. P x × Q x) xs
All-both P Q [] hp hq = tt
All-both P Q (x ∷ xs) (p, ps) (q, qs) = ((p, q), All-both P Q xs ps qs)

-- Where the groups' debits are their credits, so are the balances above and below zero.
equal_parts :
    (gs : List TrialGroup)
    → sum_of TrialGroup.subtotal_debit gs ≡ sum_of TrialGroup.subtotal_credit gs
    → sum_of (λ g. at_least_zero (group_net g)) gs
      ≡ sum_of (λ g. at_least_zero (pos 0 -ℤ group_net g)) gs
equal_parts gs same = omega (int_laws, parts_eq (balance_difference gs), parts_eq same)

module _ (db : Db) (complete : Complete db) (company_id : ℕ) (from : Option ℕ) (to : ℕ) where
  abbrev lines : List JournalEntryLine
  lines = lines_in db company_id from to

  -- Every line of the range has its account among the rows.
  All-moved :
      All
        (λ l. exists (λ a. l.account_id == a.id) (moved_accounts db company_id lines) ≡ true)
        lines
  All-moved =
      All-map _ _ lines moved_one (
        All-both _ _ lines (All-kept _ _ db.lines (complete.placed company_id)) (exists_self lines))
    where
      moved_one :
          (l : JournalEntryLine)
          → ((exists (λ e. l.entry_id == e.id && e.company_id == company_id) db.entries ≡ true
                → exists (λ a. l.account_id == a.id && is_owned_by db company_id a) db.accounts
                  ≡ true)
              × (exists (λ e. l.entry_id == e.id && is_in_range company_id from to e) db.entries
                  ≡ true))
            × ((p : JournalEntryLine → Bool) → p l ≡ true → exists p lines ≡ true)
          → exists (λ a. l.account_id == a.id) (moved_accounts db company_id lines) ≡ true
      moved_one l ((owned, inside), itself) =
          let of_company =
            exists_mono (λ e. l.entry_id == e.id && is_in_range company_id from to e)
              (λ e. l.entry_id == e.id && e.company_id == company_id) db.entries
              (λ e h.
                inner (l.entry_id == e.id) (e.company_id == company_id)
                  (leb e.date to && starts_by from e.date) h)
              inside in
          exists-where_ (λ a. l.account_id == a.id)
            (λ a. is_owned_by db company_id a && has_lines lines a) db.accounts
          ∙ exists_mono (λ a. l.account_id == a.id && is_owned_by db company_id a)
              (λ a. l.account_id == a.id && (is_owned_by db company_id a && has_lines lines a))
              db.accounts
              (λ a h.
                let here = and-left (l.account_id == a.id) _ h in
                let its = and-right (l.account_id == a.id) _ h in
                rw (here, its) (itself (λ x. x.account_id == a.id) here))
              (owned of_company)

  -- Each line of the range counts in one row.
  pub sum_of-trial_rows :
      (g : JournalEntryLine → ℤ)
      → sum_of
          (λ a. sum_of g (on_account a.id lines))
          (sort_by code_le (moved_accounts db company_id lines))
        ≡ sum_of g lines
  sum_of-trial_rows g =
      sum_of-sort_by (λ a. sum_of g (on_account a.id lines)) code_le
        (moved_accounts db company_id lines)
      ∙ (sum_of-keyed g Account.id JournalEntryLine.account_id (moved_accounts db company_id lines)
            lines (IsKeyed-where_ Account.id _ db.accounts complete.account_keys)
          ∙ sum_of-where_-All g _ lines All-moved)

  rows_total :
      (amount : TrialRow → ℤ) (g : JournalEntryLine → ℤ)
      → ((a : Account) → amount (trial_row lines a) ≡ sum_of g (on_account a.id lines))
      → sum_of amount (trial_rows db company_id lines) ≡ sum_of g lines
  unfolding trial_rows
  rows_total amount g same =
      sum_of-map amount (trial_row lines) (sort_by code_le (moved_accounts db company_id lines))
      ∙ (sum_of-each _ _ (sort_by code_le (moved_accounts db company_id lines)) same
          ∙ sum_of-trial_rows g)

-- In a well-formed journal whose lines stand on accounts of their companies, and for every range: the
-- trial balance's total of debits is the sum of the debits of the lines in the range, the same for the
-- credits; both totals agree, and so do the totals of the debit and of the credit balances.
pub get_trial_balance_lem :
    (db : Db) (company_id : ℕ) (context : ReportExerciseContext)
    → WellFormed db
    → Complete db
    → ((get_trial_balance db company_id context).grand_total_debit
        ≡ sum_of line_debit (lines_in db company_id context.computed_from context.computed_to))
      × ((get_trial_balance db company_id context).grand_total_credit
          ≡ sum_of line_credit (lines_in db company_id context.computed_from context.computed_to))
      × ((get_trial_balance db company_id context).grand_total_debit
          ≡ (get_trial_balance db company_id context).grand_total_credit)
      × ((get_trial_balance db company_id context).total_debit_balance
          ≡ (get_trial_balance db company_id context).total_credit_balance)
unfolding get_trial_balance sum_of
get_trial_balance_lem db company_id context wf complete =
    let from = context.computed_from in
    let to = context.computed_to in
    let debits =
      rows_total db complete company_id from to TrialRow.total_debit line_debit (λ a. refl) in
    let credits =
      rows_total db complete company_id from to TrialRow.total_credit line_credit (λ a. refl) in
    let balanced = lines_in-balanced db company_id from to complete.entry_keys wf.balanced in
    let rows = trial_rows db company_id (lines_in db company_id from to) in
    let debit_groups =
      sum_of-group_rows TrialGroup.subtotal_debit TrialRow.total_debit (λ row. refl) (λ g row. refl)
        [] rows in
    let credit_groups =
      sum_of-group_rows TrialGroup.subtotal_credit TrialRow.total_credit (λ row. refl)
        (λ g row. refl) [] rows in
    (
      debits,
      credits,
      debits ∙ balanced ∙ sym credits,
      equal_parts (group_rows [] rows) (
          debit_groups
          ∙ ap (λ s. pos 0 +ℤ s) (debits ∙ balanced ∙ sym credits)
          ∙ sym credit_groups),
    )
