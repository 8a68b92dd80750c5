-- ===== src/Reports/Ledger/Continuity.antt =====
-- The closing balances of the ledger and the rows of the trial balance.
use mono256_sic_core.Base.{
  ℕ, Bool, true, false, ◌&&◌, ◌||◌, Option, none, some, List, [], ◌∷◌, map, ◌≡◌, refl, ◌∙◌, ap, ◌⊎◌,
  inl, inr, arith, ◌==◌, if◌then◌else◌, where_, exists, All, sort_by, ◌≤◌, Bool-cases, or_default,
}
use mono256_sic_core.Base.Int.{ℤ, pos, ◌+ℤ◌, ◌-ℤ◌, sum_of, int_laws, parts_eq, zero-+ℤ}
use mono256_sic_core.Base.Sums.{
  IsKeyed, sum_of-flat_map, sum_of-sort_by, sum_of-where_-or, sum_of-where_-same, sum_of-map,
  sum_of-each,
}
use mono256_sic_core.Store.{Account, JournalEntry, JournalEntryLine, Db}
use mono256_sic_core.Journal.{lines_of}
use mono256_sic_core.Journal.Invariant.{line_debit, line_credit}
use mono256_sic_core.Closing.Load.{on_account}
use mono256_sic_core.Closing.Exercises.{LogicalExercise, entry_le}
use mono256_sic_core.Reports.Context.{ReportExerciseContext, resolve_report_exercise_context}
use mono256_sic_core.Reports.Rows.{starts_by, is_in_range, entries_in, lines_in, sum_of-join}
use mono256_sic_core.Reports.Ranges.{
  IsRanged, BeginsFirst, resolve_report_exercise_context-IsRanged,
}
use mono256_sic_core.Reports.Trial.{trial_row}
use mono256_sic_core.Reports.Ledger.{
  is_debit_normal, balance_delta, RunningState, movement_loop, is_before, opening_from,
  movements_of, ledger_account,
}
use mono256_sic_core.Reports.Ledger.Running.{pair_debit, pair_credit, movement_loop_sums}

All-every {ℓ κ} : {A : Type ℓ} (P : A → Type κ) (xs : List A) → ((x : A) → P x) → All P xs
All-every P [] every = tt
All-every P (x ∷ xs) every = (every x, All-every P xs every)

where_-comm {ℓ} :
    {A : Type ℓ} (p q : A → Bool) (xs : List A) → where_ p (where_ q xs) ≡ where_ q (where_ p xs)
where_-comm p q [] = refl
where_-comm p q (x ∷ xs) =
    let rest = where_-comm p q xs in
    elim (Bool-cases (p x)) [
      | inl yes_p ↦ elim (Bool-cases (q x)) [
        | inl yes_q ↦ rw (yes_p, yes_q, yes_p) (ap (λ ys. x ∷ ys) rest)
        | inr no_q ↦ rw (yes_p, no_q) rest
      ]
      | inr no_p ↦ elim (Bool-cases (q x)) [
        | inl yes_q ↦ rw (no_p, yes_q, no_p) rest
        | inr no_q ↦ rw (no_p, no_q) rest
      ]
    ]

module _ (db : Db) (keyed : IsKeyed JournalEntry.id db.entries) (company_id : ℕ) (a : Account)
    (g : JournalEntryLine → ℤ) where
  -- The account's lines of the entries that a query keeps.
  abbrev joined_sum : (JournalEntry → Bool) → ℤ
  joined_sum q =
      sum_of g (
        where_ (λ l. exists (λ e. l.entry_id == e.id && q e) db.entries) (on_account a.id db.lines))

  sum_of-movements_of :
      (context : ReportExerciseContext) (pair : JournalEntry × JournalEntryLine → ℤ)
      → ((e : JournalEntry) (l : JournalEntryLine) → pair (e, l) ≡ g l)
      → sum_of pair (movements_of db company_id context a)
        ≡ joined_sum (is_in_range company_id context.visible_from context.visible_to)
  unfolding movements_of
  sum_of-movements_of context pair same =
      let es = entries_in db company_id context.visible_from context.visible_to in
      let rows = on_account a.id db.lines in
      sum_of-flat_map pair (λ e. map (λ l. (e, l)) (lines_of e.id rows)) (sort_by entry_le es)
      ∙ (sum_of-each (λ e. sum_of pair (map (λ l. (e, l)) (lines_of e.id rows)))
            (λ e. sum_of g (lines_of e.id rows)) (sort_by entry_le es)
            (λ e.
              sum_of-map pair (λ l. (e, l)) (lines_of e.id rows)
              ∙ sum_of-each (λ l. pair (e, l)) g (lines_of e.id rows) (same e))
          ∙ (sum_of-sort_by (λ e. sum_of g (lines_of e.id rows)) entry_le es
              ∙ sum_of-join g (is_in_range company_id context.visible_from context.visible_to)
                  db.entries rows keyed))

  not_shown :
      (e : JournalEntry) (visible computed to : ℕ)
      → is_before company_id (some computed) visible e ≡ true
      → is_in_range company_id (some visible) to e ≡ false
  not_shown e visible computed to early = ground arith

  split_days :
      (e : JournalEntry) (visible computed to : ℕ)
      → computed ≤ visible
      → (visible ≤ to) ⊎ (visible ≡ computed)
      → (is_before company_id (some computed) visible e
          || is_in_range company_id (some visible) to e)
        ≡ is_in_range company_id (some computed) to e
  split_days e visible computed to le (inl before_end) = ground arith
  split_days e visible computed to le (inr same) = ground arith

  -- The days before and the days that are shown make the days that are computed.
  joined_sum-split :
      (visible computed to : ℕ)
      → computed ≤ visible
      → (visible ≤ to) ⊎ (visible ≡ computed)
      → joined_sum (is_before company_id (some computed) visible)
          +ℤ joined_sum (is_in_range company_id (some visible) to)
        ≡ joined_sum (is_in_range company_id (some computed) to)
  joined_sum-split visible computed to le before_end =
      let before = is_before company_id (some computed) visible in
      let shown = is_in_range company_id (some visible) to in
      let whole = is_in_range company_id (some computed) to in
      let rows = on_account a.id db.lines in
      let h : JournalEntry → ℤ = λ e. sum_of g (lines_of e.id rows) in
      let both =
        sum_of-where_-or h before shown db.entries
          (λ e early. not_shown e visible computed to early) in
      let same =
        sum_of-where_-same h (λ e. before e || shown e) whole db.entries
          (All-every _ db.entries (λ e. split_days e visible computed to le before_end)) in
      omega (
        int_laws,
        parts_eq (sum_of-join g before db.entries rows keyed),
        parts_eq (sum_of-join g shown db.entries rows keyed),
        parts_eq (sum_of-join g whole db.entries rows keyed),
        parts_eq both,
        parts_eq same,
      )

  joined_sum-lines_in :
      (from : Option ℕ) (to : ℕ)
      → joined_sum (is_in_range company_id from to)
        ≡ sum_of g (on_account a.id (lines_in db company_id from to))
  joined_sum-lines_in from to = ap (sum_of g) (where_-comm _ _ db.lines)

delta_sum :
    (normal : Bool) (od oc pd pc td tc : ℤ)
    → od +ℤ pd ≡ td
    → oc +ℤ pc ≡ tc
    → (if normal then od -ℤ oc else oc -ℤ od) +ℤ (if normal then pd -ℤ pc else pc -ℤ pd)
      ≡ (if normal then td -ℤ tc else tc -ℤ td)
delta_sum true od oc pd pc td tc h k = omega (int_laws, parts_eq h, parts_eq k)
delta_sum false od oc pd pc td tc h k = omega (int_laws, parts_eq h, parts_eq k)

module _ (db : Db) (keyed : IsKeyed JournalEntry.id db.entries) (company_id : ℕ) (a : Account) where
  -- The opening balance and the lines of the days that are shown are the lines of all days.
  opening_and_period :
      (visible computed : Option ℕ) (to : ℕ)
      → IsRanged visible computed to
      → opening_from visible db company_id computed a
          +ℤ balance_delta a.type
              (joined_sum db keyed company_id a line_debit (is_in_range company_id visible to))
              (joined_sum db keyed company_id a line_credit (is_in_range company_id visible to))
        ≡ balance_delta a.type
            (joined_sum db keyed company_id a line_debit (is_in_range company_id computed to))
            (joined_sum db keyed company_id a line_credit (is_in_range company_id computed to))
  opening_and_period none none to ranged = zero-+ℤ _
  opening_and_period (some visible) (some computed) to (le, before_end) =
      delta_sum (is_debit_normal a.type) _ _ _ _ _ _
        (joined_sum-split db keyed company_id a line_debit visible computed to le before_end)
        (joined_sum-split db keyed company_id a line_credit visible computed to le before_end)
  opening_and_period none (some computed) to ranged = absurd ranged
  opening_and_period (some visible) none to ranged = absurd ranged

closing_in :
    (db : Db) (company_id : ℕ) (context : ReportExerciseContext) (a : Account)
    → IsKeyed JournalEntry.id db.entries
    → context.visible_to ≡ context.computed_to
    → IsRanged context.visible_from context.computed_from context.visible_to
    → (ledger_account db company_id context a).closing_balance
      ≡ balance_delta a.type
          (trial_row
            (lines_in db company_id context.computed_from context.computed_to)
            a).total_debit
          (trial_row
            (lines_in db company_id context.computed_from context.computed_to)
            a).total_credit
unfolding ledger_account
closing_in db company_id context a keyed same_to ranged =
    let opening = opening_from context.visible_from db company_id context.computed_from a in
    let st : RunningState = record {
      running = opening;
      period_debit = pos 0;
      period_credit = pos 0;
      movements = [];
    } in
    let xs = movements_of db company_id context a in
    let (debits, credits) = movement_loop_sums a.type st xs in
    let shown = is_in_range company_id context.visible_from context.visible_to in
    let debit : (movement_loop a.type st xs).period_debit
        ≡ joined_sum db keyed company_id a line_debit shown =
      debits
      ∙ (zero-+ℤ _
          ∙ sum_of-movements_of db keyed company_id a line_debit context pair_debit
              (λ e l. refl)) in
    let credit : (movement_loop a.type st xs).period_credit
        ≡ joined_sum db keyed company_id a line_credit shown =
      credits
      ∙ (zero-+ℤ _
          ∙ sum_of-movements_of db keyed company_id a line_credit context pair_credit
              (λ e l. refl)) in
    rw (debit, credit)
      (opening_and_period db keyed company_id a context.visible_from context.computed_from
          context.visible_to ranged
        ∙ rw
            (
              joined_sum-lines_in db keyed company_id a line_debit context.computed_from
                  context.visible_to,
              joined_sum-lines_in db keyed company_id a line_credit context.computed_from
                  context.visible_to,
              same_to,
            )
            refl)

-- In a journal whose entries have different keys, for exercises of which none begins before the first
-- and a request that does not end before it begins: the closing balance that the ledger shows for an
-- account is the difference of the totals in the account's row of the trial balance, on the account's
-- normal side, however few days of the exercise are shown.
pub ledger_account-closing :
    (db : Db) (company_id : ℕ) (a : Account) (exercises : List LogicalExercise)
    (date_from date_to : Option ℕ) (today : ℕ)
    → IsKeyed JournalEntry.id db.entries
    → BeginsFirst exercises
    → starts_by date_from (or_default date_to today) ≡ true
    → (ledger_account db company_id
        (resolve_report_exercise_context exercises date_from date_to today)
        a).closing_balance
      ≡ balance_delta a.type
          (trial_row
            (lines_in db company_id
              (resolve_report_exercise_context exercises date_from date_to today).computed_from
              (resolve_report_exercise_context exercises date_from date_to today).computed_to)
            a).total_debit
          (trial_row
            (lines_in db company_id
              (resolve_report_exercise_context exercises date_from date_to today).computed_from
              (resolve_report_exercise_context exercises date_from date_to today).computed_to)
            a).total_credit
ledger_account-closing db company_id a exercises date_from date_to today keyed first forward =
    let (same_to, ranged) =
      resolve_report_exercise_context-IsRanged exercises date_from date_to today first forward in
    closing_in db company_id (resolve_report_exercise_context exercises date_from date_to today) a
      keyed same_to ranged
