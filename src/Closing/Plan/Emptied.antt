-- ===== src/Closing/Plan/Emptied.antt =====
-- The entries of `build_simplified_closing_plan` taken together.
use mono256_sic_core.Base.{
  ℕ, Bool, true, ◌&&◌, ◌||◌, List, [], ◌∷◌, ◌++◌, String, ◌≡◌, refl, sym, ◌∙◌, subst, inl, inr,
  if◌then◌else◌, All, All-append, where_, Bool-cases, str_eq,
}
use mono256_sic_core.Base.Int.{ℤ, pos, ◌+ℤ◌, sum_of, int_laws, parts_eq}
use mono256_sic_core.Base.Result.{ok, raise_if, conflict_error, Reason, >>=-eq-ok, ok-injective}
use mono256_sic_core.Closing.Draft.{DraftEntry, draft_debit, draft_credit}
use mono256_sic_core.Closing.Balances.{BalanceNode, Balances, root_of_parent}
use mono256_sic_core.Closing.Balances.Measure.{
  weigh, line_weight, IsSound, IsConsistent, is_chart_root,
}
use mono256_sic_core.Closing.Adjust.{ClosingRequest, build_adjustment_entries}
use mono256_sic_core.Closing.Adjust.Counted.{
  IsBalancedDraft, everywhere, build_adjustment_entries_lem,
}
use mono256_sic_core.Closing.Statement.{
  build_income_statement, validate_patrimonial_natural_balances,
}
use mono256_sic_core.Closing.Statement.Equation.{chart_root}
use mono256_sic_core.Closing.Entries.{
  ResultClosing, build_result_closing_entries, build_patrimonial_closing_and_reopening,
  closing_lines, is_open_node, patrimonial_entry, reopening_entry, no_nodes,
}
use mono256_sic_core.Closing.Entries.Weights.{Below}
use mono256_sic_core.Closing.Entries.Patrimonial.{
  weigh_patrimonial, closing_lines-weight, swapped-weight,
}
use mono256_sic_core.Closing.Entries.Closed.{
  losses-closed, gains-closed, build_result_closing_entries-ResultClosed,
}
use mono256_sic_core.Closing.Entries.Drafts.{balanced_of_weight}
use mono256_sic_core.Closing.Exercises.{LogicalExercise}
use mono256_sic_core.Closing.Plan.{Plan, ordered_entries, plan_from}

-- The colectivas of the set that lie below the root.
abbrev below_root : String → (String → Bool) → String → Bool
below_root r q p = str_eq (root_of_parent p) r && q p

below_root-Below : (r : String) (q : String → Bool) → Below r (below_root r q)
below_root-Below r q p h = elim (Bool-cases (str_eq (root_of_parent p) r)) [
  | inl same ↦ same
  | inr other ↦ absurd (cc (rw other at h))
]

abbrev three : ℤ → ℤ → ℤ → ℤ
three a b c = a +ℤ b +ℤ c

-- The net of a node splits into patrimonial, negative and positive.
node_split :
    (d : ℤ) (r : String)
    → is_chart_root r ≡ true
    → d
      ≡ three
          (if str_eq r "1" || str_eq r "2" || str_eq r "3" then d else pos 0)
          (if str_eq r "4" then d else pos 0)
          (if str_eq r "5" then d else pos 0)
node_split d r h =
    chart_root
      (λ x.
        d
        ≡ three (if str_eq x "1" || str_eq x "2" || str_eq x "3" then d else pos 0)
            (if str_eq x "4" then d else pos 0) (if str_eq x "5" then d else pos 0))
      r (omega int_laws) (omega int_laws) (omega int_laws) (omega int_laws) (omega int_laws) h

weigh-below_root :
    (r : String) (q : String → Bool) (n : BalanceNode)
    → IsSound n
    → (if str_eq n.root_code r then weigh q n else pos 0) ≡ weigh (below_root r q) n
weigh-below_root r q n h = rw h.1 (elim (Bool-cases (str_eq (root_of_parent n.parent_code) r)) [
  | inl same ↦ rw same
  | inr other ↦ rw other
])

sum_of-split :
    (q : String → Bool) (bs : Balances)
    → All IsSound bs
    → sum_of (weigh q) bs
      ≡ three
          (sum_of (weigh_patrimonial q) bs)
          (sum_of (weigh (below_root "4" q)) bs)
          (sum_of (weigh (below_root "5" q)) bs)
unfolding sum_of
sum_of-split q [] h = omega int_laws
sum_of-split q (n ∷ ns) h = omega (
  int_laws,
  parts_eq (node_split (weigh q n) n.root_code h.0.2),
  parts_eq (weigh-below_root "4" q n h.0),
  parts_eq (weigh-below_root "5" q n h.0),
  parts_eq (sum_of-split q ns h.1),
)

-- Behind the result closing the whole net is patrimonial.
patrimonial_after :
    (date : ℕ) (q : String → Bool) (bs : Balances) {c : ResultClosing}
    → IsConsistent bs
    → build_result_closing_entries date bs ≡ ok c
    → sum_of (weigh_patrimonial q) c.balances ≡ sum_of (weigh q) c.balances
patrimonial_after date q bs {c} h e =
    let closed = build_result_closing_entries-ResultClosed date bs h e in
    omega (
      int_laws,
      parts_eq (sum_of-split q c.balances closed.consistent.sound),
      parts_eq (losses-closed date (below_root "4" q) bs (below_root-Below "4" q) h e),
      parts_eq (gains-closed date (below_root "5" q) bs (below_root-Below "5" q) h e),
    )

-- The parts of a plan that was made.
record Made (r : ClosingRequest) (loaded : Balances) (plan : Plan) : Type 0 where
  pub adjusted : build_adjustment_entries r loaded ≡ ok plan.adjustments
  pub result_closed :
      build_result_closing_entries r.closing_date plan.adjustments.balances ≡ ok plan.result
  pub patrimonial :
      build_patrimonial_closing_and_reopening r plan.result.balances
      ≡ ok (plan.patrimonial_closing, plan.reopening)

plan_from-Made :
    (r : ClosingRequest) (exercises : List LogicalExercise) (loaded : Balances) {plan : Plan}
    → plan_from r exercises loaded ≡ ok plan
    → Made r loaded plan
unfolding plan_from
plan_from-Made r exercises loaded h =
    let (adjustments, adjusted, h₁) = >>=-eq-ok (build_adjustment_entries r loaded) _ h in
    let (_, _, h₂) = >>=-eq-ok (validate_patrimonial_natural_balances adjustments.balances) _ h₁ in
    let (_, _, h₃) = >>=-eq-ok (build_income_statement adjustments.balances) _ h₂ in
    let (result, closed, h₄) =
      >>=-eq-ok (build_result_closing_entries r.closing_date adjustments.balances) _ h₃ in
    let (_, made, h₅) =
      >>=-eq-ok (build_patrimonial_closing_and_reopening r result.balances) _ h₄ in
    rw (← ok-injective h₅)
      (record { adjusted = adjusted; result_closed = closed; patrimonial = made })

-- The two entries, if there is a balance to close.
patrimonial_drafts :
    (r : ClosingRequest) (bs : Balances) {closing reopening : DraftEntry}
    → build_patrimonial_closing_and_reopening r bs ≡ ok (closing, reopening)
    → (patrimonial_entry r.closing_date (where_ is_open_node bs) ≡ closing)
      × (reopening_entry r.reopening_date (where_ is_open_node bs) ≡ reopening)
unfolding build_patrimonial_closing_and_reopening
patrimonial_drafts r bs h =
    let ns = where_ is_open_node bs in
    let (_, _, made) =
      >>=-eq-ok (raise_if (no_nodes ns) (conflict_error Reason.nothing_to_close))
        (λ _. ok (patrimonial_entry r.closing_date ns, reopening_entry r.reopening_date ns)) h in
    let same = ok-injective made in (cc same, cc same)

-- For every set of colectivas, when a plan is made from consistent balances: the patrimonial closing
-- entry takes out of it exactly what the adjustments and the result closing left, and the reopening
-- entry puts that in again.
pub plan_from_lem :
    (r : ClosingRequest) (exercises : List LogicalExercise) (loaded : Balances) (q : String → Bool)
    {plan : Plan}
    → IsConsistent loaded
    → plan_from r exercises loaded ≡ ok plan
    → (sum_of (weigh q) plan.result.balances
          +ℤ sum_of (line_weight q) plan.patrimonial_closing.lines
        ≡ pos 0)
      × (sum_of (line_weight q) plan.reopening.lines ≡ sum_of (weigh q) plan.result.balances)
plan_from_lem r exercises loaded q {plan} consistent h =
    let made = plan_from-Made r exercises loaded h in
    let (adjusted, _, _, _, _) = build_adjustment_entries_lem r loaded consistent made.adjusted in
    let (closing, reopening) = patrimonial_drafts r plan.result.balances made.patrimonial in
    let left =
      patrimonial_after r.closing_date q plan.adjustments.balances adjusted made.result_closed in
    let taken = closing_lines-weight q plan.result.balances in
    let put = swapped-weight q (closing_lines (where_ is_open_node plan.result.balances)) in
    (
      rw (← closing) (omega (int_laws, parts_eq left, parts_eq taken)),
      rw (← reopening) (omega (int_laws, parts_eq left, parts_eq taken, parts_eq put)),
    )

-- A draft that is made from its lines is balanced if they weigh nothing.
record MadeOfLines (e : DraftEntry) : Type 0 where
  pub debit : e.total_debit ≡ sum_of draft_debit e.lines
  pub credit : e.total_credit ≡ sum_of draft_credit e.lines

of_lines :
    (made : DraftEntry) {e : DraftEntry}
    → MadeOfLines made
    → made ≡ e
    → sum_of (line_weight everywhere) e.lines ≡ pos 0
    → IsBalancedDraft e
of_lines made m same h =
    subst IsBalancedDraft same (m.debit ∙ balanced_of_weight made.lines (rw same h) ∙ sym m.credit)

-- Every entry of a plan that is made from consistent balances whose net is zero has equal debits and
-- credits.
pub plan_from-IsBalancedDraft :
    (r : ClosingRequest) (exercises : List LogicalExercise) (loaded : Balances) {plan : Plan}
    → IsConsistent loaded
    → sum_of (weigh everywhere) loaded ≡ pos 0
    → plan_from r exercises loaded ≡ ok plan
    → All IsBalancedDraft (ordered_entries plan)
plan_from-IsBalancedDraft r exercises loaded {plan} consistent zero_net h =
    let made = plan_from-Made r exercises loaded h in
    let (adjusted, kept, counted, _, _) =
      build_adjustment_entries_lem r loaded consistent made.adjusted in
    let closed =
      build_result_closing_entries-ResultClosed r.closing_date plan.adjustments.balances adjusted
        made.result_closed in
    let (closing, reopening) = patrimonial_drafts r plan.result.balances made.patrimonial in
    let (emptied, filled) = plan_from_lem r exercises loaded everywhere consistent h in
    let zero_left = closed.total ∙ kept ∙ zero_net in
    let nodes = where_ is_open_node plan.result.balances in
    let closing_weight : sum_of (line_weight everywhere) plan.patrimonial_closing.lines ≡ pos 0 =
      omega (int_laws, parts_eq emptied, parts_eq zero_left) in
    All-append IsBalancedDraft (plan.adjustments.entries ++ plan.result.entries)
      (plan.patrimonial_closing ∷ plan.reopening ∷ [])
      (All-append IsBalancedDraft plan.adjustments.entries plan.result.entries counted
        closed.drafts)
      (
        of_lines (patrimonial_entry r.closing_date nodes) (record { debit = refl; credit = refl })
            closing closing_weight,
        (
          of_lines (reopening_entry r.reopening_date nodes) (record { debit = refl; credit = refl })
              reopening (filled ∙ zero_left),
          tt,
        ),
      )
