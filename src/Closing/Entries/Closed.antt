-- ===== src/Closing/Entries/Closed.antt =====
-- `_build_result_closing_entries` and the balances behind it.
use mono256_sic_core.Base.{
  ℕ, Bool, true, false, ◌&&◌, ◌||◌, String, ◌≡◌, refl, sym, ◌∙◌, subst, inl, inr, exists, All,
  All-append, All-map, Bool-cases, str_eq, str_eq_iff,
}
use mono256_sic_core.Base.Int.{pos, ◌+ℤ◌, sum_of, int_laws, parts_eq}
use mono256_sic_core.Base.Result.{ok, raise_if, >>=-eq-ok, raise_if-eq-ok, ok-injective}
use mono256_sic_core.Store.{LineType}
use mono256_sic_core.Closing.Balances.{
  Balances, debit_balance, credit_balance, root_of_parent, is_root,
}
use mono256_sic_core.Closing.Balances.Measure.{weigh, line_weight, IsConsistent}
use mono256_sic_core.Closing.Balances.Consistent.{Fits}
use mono256_sic_core.Closing.Adjust.Counted.{IsBalancedDraft, everywhere, sum_of-everywhere}
use mono256_sic_core.Closing.Statement.{
  result_nodes, in_debit, in_credit, has_debit_balance, has_credit_balance, collect_result_nodes,
}
use mono256_sic_core.Closing.Entries.{
  negative_lines, positive_lines, negative_entry, positive_entry, close_nodes, ResultClosing,
  build_result_closing_entries,
}
use mono256_sic_core.Closing.Entries.Weights.{
  Below, debit_lines-weight, credit_lines-weight, node_lines-apart,
}
use mono256_sic_core.Closing.Entries.Drafts.{
  negative_lines-weight, positive_lines-weight, close_nodes-Done, negative_lines-Fit,
  positive_lines-Fit, negative_entry-IsBalancedDraft, positive_entry-IsBalancedDraft,
  no_losses-weight, no_gains-weight,
}

-- What the result-closing entries do, and the guards that let them be made.
pub record ResultClosed (bs : Balances) (c : ResultClosing) : Type 0 where
  pub consistent : IsConsistent c.balances
  pub drafts : All IsBalancedDraft c.entries
  pub weight :
      (q : String → Bool)
      → sum_of (weigh q) c.balances
        ≡ sum_of (weigh q) bs
          +ℤ sum_of (line_weight q) (negative_lines (result_nodes bs))
          +ℤ sum_of (line_weight q) (positive_lines (result_nodes bs))
  pub total : sum_of (weigh everywhere) c.balances ≡ sum_of (weigh everywhere) bs
  pub losses_natural : exists (λ n. is_root "4" n && has_credit_balance n) bs ≡ false
  pub gains_natural : exists (λ n. is_root "5" n && has_debit_balance n) bs ≡ false

collected_from :
    (bs : Balances)
    → exists (λ n. is_root "4" n && has_credit_balance n) bs ≡ false
    → exists (λ n. is_root "5" n && has_debit_balance n) bs ≡ false
    → collect_result_nodes bs ≡ ok (result_nodes bs)
unfolding collect_result_nodes
collected_from bs g₁ g₂ = rw (g₁, g₂)

pub build_result_closing_entries-ResultClosed :
    (date : ℕ) (bs : Balances) {c : ResultClosing}
    → IsConsistent bs
    → build_result_closing_entries date bs ≡ ok c
    → ResultClosed bs c
unfolding build_result_closing_entries
build_result_closing_entries-ResultClosed date bs h e =
    let (_, collected, _) = >>=-eq-ok (collect_result_nodes bs) _ e in
    let (_, g₁, c₁) = >>=-eq-ok (raise_if _ _) _ collected in
    let (_, g₂, _) = >>=-eq-ok (raise_if _ _) _ c₁ in
    let losses = raise_if-eq-ok _ _ g₁ in
    let gains = raise_if-eq-ok _ _ g₂ in
    let r = result_nodes bs in
    let e₁ = rw (collected_from bs losses gains) at e in
    let (one, ran₁, e₂) =
      >>=-eq-ok (close_nodes r.negative_accounts (negative_entry date r) bs) _ e₁ in
    let (two, ran₂, e₃) =
      >>=-eq-ok (close_nodes r.positive_accounts (positive_entry date r) one.1) _ e₂ in
    let first =
      close_nodes-Done (in_debit "4" bs) (negative_entry date (result_nodes bs)) bs h
        (negative_lines-Fit bs h) (negative_entry-IsBalancedDraft date bs)
        (no_losses-weight (result_nodes bs) refl) ran₁ in
    let fit =
      All-map _ (λ l. Fits l one.1) (positive_lines (result_nodes bs)) first.fits
        (positive_lines-Fit bs h) in
    let second =
      close_nodes-Done (in_credit "5" bs) (positive_entry date (result_nodes bs)) one.1
        first.consistent fit (positive_entry-IsBalancedDraft date bs)
        (no_gains-weight (result_nodes bs) refl) ran₂ in
    rw (← ok-injective e₃) (record {
      consistent = second.consistent;
      drafts = All-append IsBalancedDraft one.0 two.0 first.drafts second.drafts;
      weight = λ q. second.weight q ∙ rw (first.weight q) refl;
      total =
          let debit_side = sum_of-everywhere (negative_lines r) in
          let credit_side = sum_of-everywhere (positive_lines r) in
          omega (
            int_laws,
            parts_eq (first.weight everywhere),
            parts_eq (second.weight everywhere),
            parts_eq debit_side,
            parts_eq credit_side,
            parts_eq (negative_entry-IsBalancedDraft date bs),
            parts_eq (positive_entry-IsBalancedDraft date bs),
          );
      losses_natural = losses;
      gains_natural = gains;
    })

-- The result account lies in no set below another root.
apart_of_result :
    (r : String) (q : String → Bool)
    → Below r q
    → str_eq (root_of_parent "3.02") r ≡ false
    → q "3.02" ≡ false
apart_of_result r q below other = elim (Bool-cases (q "3.02")) [
  | inl within ↦ let same = below "3.02" within in absurd (cc (same, other))
  | inr apart ↦ apart
]

-- A set below one root holds nothing below another.
apart_of_root :
    (r k : String) (q : String → Bool)
    → Below r q
    → str_eq r k ≡ false
    → (p : String) → q p ≡ true
    → str_eq (root_of_parent p) k ≡ false
apart_of_root r k q below other p within =
    subst (λ x. str_eq x k ≡ false) (sym ((str_eq_iff (root_of_parent p) r).0 (below p within)))
      other

-- The result-closing entries leave no net in any set of colectivas of negative results.
pub losses-closed :
    (date : ℕ) (q : String → Bool) (bs : Balances) {c : ResultClosing}
    → Below "4" q
    → IsConsistent bs
    → build_result_closing_entries date bs ≡ ok c
    → sum_of (weigh q) c.balances ≡ pos 0
unfolding root_of_parent
losses-closed date q bs below h e =
    let closed = build_result_closing_entries-ResultClosed date bs h e in
    let apart = apart_of_result "4" q below refl in
    let taken = debit_lines-weight "4" q bs below h.sound closed.losses_natural in
    let rest =
      node_lines-apart "5" q has_credit_balance LineType.debit credit_balance bs
        (apart_of_root "4" "5" q below refl) h.sound in
    closed.weight q
    ∙ rw
        (
          negative_lines-weight q (result_nodes bs),
          positive_lines-weight q (result_nodes bs),
          apart,
          taken,
          rest,
        )
        (omega int_laws)

-- Nor in any set of colectivas of positive results.
pub gains-closed :
    (date : ℕ) (q : String → Bool) (bs : Balances) {c : ResultClosing}
    → Below "5" q
    → IsConsistent bs
    → build_result_closing_entries date bs ≡ ok c
    → sum_of (weigh q) c.balances ≡ pos 0
unfolding root_of_parent
gains-closed date q bs below h e =
    let closed = build_result_closing_entries-ResultClosed date bs h e in
    let apart = apart_of_result "5" q below refl in
    let taken = credit_lines-weight "5" q bs below h.sound closed.gains_natural in
    let rest =
      node_lines-apart "4" q has_debit_balance LineType.credit debit_balance bs
        (apart_of_root "5" "4" q below refl) h.sound in
    closed.weight q
    ∙ rw
        (
          negative_lines-weight q (result_nodes bs),
          positive_lines-weight q (result_nodes bs),
          apart,
          taken,
          rest,
        )
        (omega int_laws)

-- The result-closing entries are balanced, and leave no net in any set of colectivas of the results
-- of one sign, when they can be made from consistent balances.
pub build_result_closing_entries_lem :
    (date : ℕ) (r : String) (q : String → Bool) (bs : Balances) {c : ResultClosing}
    → (str_eq r "4" || str_eq r "5") ≡ true
    → Below r q
    → IsConsistent bs
    → build_result_closing_entries date bs ≡ ok c
    → All IsBalancedDraft c.entries × (sum_of (weigh q) c.balances ≡ pos 0)
build_result_closing_entries_lem date r q bs {c} is_result below h e = (
  (build_result_closing_entries-ResultClosed date bs h e).drafts,
  elim (Bool-cases (str_eq r "4")) [
    | inl four ↦
        let same = (str_eq_iff r "4").0 four in
        losses-closed date q bs (subst (λ x. Below x q) same below) h e
    | inr other ↦
        let same = (str_eq_iff r "5").0 (rw other at is_result) in
        gains-closed date q bs (subst (λ x. Below x q) same below) h e
  ],
)
