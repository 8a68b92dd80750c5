-- ===== src/Closing/Entries/Drafts.antt =====
-- The lines of the result-closing entries: their weight and their totals.
use mono256_sic_core.Base.{
  ℕ, Bool, ◌&&◌, List, [], ◌∷◌, map, String, ◌≡◌, refl, sym, ◌∙◌, inl, inr, if◌then◌else◌, All,
  All-append, Bool-cases,
}
use mono256_sic_core.Base.Int.{
  ℤ, pos, ◌+ℤ◌, ◌-ℤ◌, sum_of, sum_of-append, int_laws, parts_eq, +ℤ-zero,
}
use mono256_sic_core.Base.Result.{ok, >>=-eq-ok, ok-injective}
use mono256_sic_core.Store.{LineType}
use mono256_sic_core.Closing.Draft.{DraftLine, DraftEntry, draft_debit, draft_credit}
use mono256_sic_core.Closing.Balances.{
  BalanceNode, Balances, debit_balance, credit_balance, apply_entry, is_root,
}
use mono256_sic_core.Closing.Balances.Measure.{weigh, line_weight, IsConsistent}
use mono256_sic_core.Closing.Balances.Consistent.{
  AllFit, Fits, apply_lines-weight, apply_lines-Fits,
}
use mono256_sic_core.Closing.Balances.Fits.{All-where_, node_line-Fits, support_line-Fits}
use mono256_sic_core.Closing.Adjust.Counted.{IsBalancedDraft, everywhere, sum_of-everywhere}
use mono256_sic_core.Closing.Statement.{
  ResultNodes, result_nodes, in_debit, in_credit, has_debit_balance, has_credit_balance,
}
use mono256_sic_core.Closing.Entries.{
  node_line, result_line, negative_lines, positive_lines, negative_entry, positive_entry,
  close_nodes,
}

-- Lines whose weight over all colectivas is zero make a balanced draft.
pub balanced_of_weight :
    (ls : List DraftLine)
    → sum_of (line_weight everywhere) ls ≡ pos 0
    → sum_of draft_debit ls ≡ sum_of draft_credit ls
balanced_of_weight ls h = omega (int_laws, parts_eq (sum_of-everywhere ls), parts_eq h)

credit_lines-everywhere :
    (f : BalanceNode → ℤ) (ns : Balances)
    → sum_of (line_weight everywhere) (map (node_line LineType.credit f) ns) ≡ pos 0 -ℤ sum_of f ns
unfolding sum_of
credit_lines-everywhere f [] = omega int_laws
credit_lines-everywhere f (n ∷ ns) = rw (credit_lines-everywhere f ns) (omega int_laws)

debit_lines-everywhere :
    (f : BalanceNode → ℤ) (ns : Balances)
    → sum_of (line_weight everywhere) (map (node_line LineType.debit f) ns) ≡ sum_of f ns
unfolding sum_of
debit_lines-everywhere f [] = refl
debit_lines-everywhere f (n ∷ ns) = rw (debit_lines-everywhere f ns) (omega int_laws)

-- The line on the result account.
abbrev result_weight : (String → Bool) → ℤ → ℤ
result_weight q amount = if q "3.02" then amount else pos 0

pub negative_lines-weight :
    (q : String → Bool) (r : ResultNodes)
    → sum_of (line_weight q) (negative_lines r)
      ≡ result_weight q r.total_negative
        +ℤ sum_of
            (line_weight q)
            (map (node_line LineType.credit debit_balance) r.negative_accounts)
unfolding sum_of
negative_lines-weight q r = elim (Bool-cases (q "3.02")) [
  | inl within ↦ rw within (omega int_laws)
  | inr apart ↦ rw apart (omega int_laws)
]

pub positive_lines-weight :
    (q : String → Bool) (r : ResultNodes)
    → sum_of (line_weight q) (positive_lines r)
      ≡ sum_of (line_weight q) (map (node_line LineType.debit credit_balance) r.positive_accounts)
        +ℤ result_weight q (pos 0 -ℤ r.total_positive)
unfolding sum_of
positive_lines-weight q r =
    sum_of-append (line_weight q)
      (map (node_line LineType.debit credit_balance) r.positive_accounts)
      (result_line LineType.credit r.total_positive ∷ [])
    ∙ elim (Bool-cases (q "3.02")) [
      | inl within ↦ rw within (omega int_laws)
      | inr apart ↦ rw apart (omega int_laws)
    ]

-- What the entries for one kind of result accounts do.
pub record Done (bs : Balances) (ls : List DraftLine) (es : List DraftEntry) (bs' : Balances)
    : Type 0 where
  pub consistent : IsConsistent bs'
  pub drafts : All IsBalancedDraft es
  pub weight :
      (q : String → Bool) → sum_of (weigh q) bs' ≡ sum_of (weigh q) bs +ℤ sum_of (line_weight q) ls
  pub fits : (m : DraftLine) → Fits m bs → Fits m bs'

pub close_nodes-Done :
    (ns : List BalanceNode) (e : DraftEntry) (bs : Balances) {r : List DraftEntry × Balances}
    → IsConsistent bs
    → AllFit e.lines bs
    → IsBalancedDraft e
    → (ns ≡ [] → (q : String → Bool) → sum_of (line_weight q) e.lines ≡ pos 0)
    → close_nodes ns e bs ≡ ok r
    → Done bs e.lines r.0 r.1
unfolding apply_entry
close_nodes-Done [] e bs h f balanced nothing made = rw (← ok-injective made) (record {
  consistent = h;
  drafts = tt;
  weight = λ q. rw (nothing refl q) (sym (+ℤ-zero _));
  fits = λ m g. g;
})
close_nodes-Done (n ∷ ns) e bs h f balanced nothing made =
    let (bs', applied, made') = >>=-eq-ok (apply_entry bs e) _ made in
    rw (← ok-injective made') (record {
      consistent = (apply_lines-weight everywhere e.lines bs h f applied).0;
      drafts = (balanced, tt);
      weight = λ q. (apply_lines-weight q e.lines bs h f applied).1;
      fits = λ m g. apply_lines-Fits e.lines bs m h f applied g;
    })

All-mapped :
    (f : BalanceNode → DraftLine) (P : DraftLine → Type 0) (ns : Balances)
    → All (λ n. P (f n)) ns
    → All P (map f ns)
All-mapped f P [] h = tt
All-mapped f P (n ∷ ns) h = (h.0, All-mapped f P ns h.1)

pub negative_lines-Fit :
    (bs : Balances) → IsConsistent bs → AllFit (negative_lines (result_nodes bs)) bs
negative_lines-Fit bs h = (
  support_line-Fits "Resultado del Ejercicio" "3.02" LineType.debit (result_nodes bs).total_negative
      bs h,
  All-mapped (node_line LineType.credit debit_balance) _ (in_debit "4" bs) (
      All-where_ _ (λ n. is_root "4" n && has_debit_balance n) bs
        (node_line-Fits LineType.credit debit_balance bs h)),
)

pub positive_lines-Fit :
    (bs : Balances) → IsConsistent bs → AllFit (positive_lines (result_nodes bs)) bs
positive_lines-Fit bs h =
    All-append _ (map (node_line LineType.debit credit_balance) (in_credit "5" bs)) _
      (All-mapped (node_line LineType.debit credit_balance) _ (in_credit "5" bs) (
        All-where_ _ (λ n. is_root "5" n && has_credit_balance n) bs
          (node_line-Fits LineType.debit credit_balance bs h)))
      (
        support_line-Fits "Resultado del Ejercicio" "3.02" LineType.credit
            (result_nodes bs).total_positive bs h,
        tt,
      )

pub negative_entry-IsBalancedDraft :
    (date : ℕ) (bs : Balances) → IsBalancedDraft (negative_entry date (result_nodes bs))
negative_entry-IsBalancedDraft date bs = balanced_of_weight (negative_lines (result_nodes bs)) (
    negative_lines-weight everywhere (result_nodes bs)
    ∙ rw (credit_lines-everywhere debit_balance (in_debit "4" bs)) (omega int_laws))

pub positive_entry-IsBalancedDraft :
    (date : ℕ) (bs : Balances) → IsBalancedDraft (positive_entry date (result_nodes bs))
positive_entry-IsBalancedDraft date bs = balanced_of_weight (positive_lines (result_nodes bs)) (
    positive_lines-weight everywhere (result_nodes bs)
    ∙ rw (debit_lines-everywhere credit_balance (in_credit "5" bs)) (omega int_laws))

-- Without losses the entry would weigh nothing, and without gains neither.
pub no_losses-weight :
    (r : ResultNodes)
    → r.total_negative ≡ sum_of debit_balance r.negative_accounts
    → r.negative_accounts ≡ []
    → (q : String → Bool) → sum_of (line_weight q) (negative_lines r) ≡ pos 0
unfolding sum_of
no_losses-weight r t e q =
    negative_lines-weight q r
    ∙ rw (t, e)
        (elim (Bool-cases (q "3.02")) [
          | inl within ↦ rw within (omega int_laws)
          | inr apart ↦ rw apart (omega int_laws)
        ])

pub no_gains-weight :
    (r : ResultNodes)
    → r.total_positive ≡ sum_of credit_balance r.positive_accounts
    → r.positive_accounts ≡ []
    → (q : String → Bool) → sum_of (line_weight q) (positive_lines r) ≡ pos 0
unfolding sum_of
no_gains-weight r t e q =
    positive_lines-weight q r
    ∙ rw (t, e)
        (elim (Bool-cases (q "3.02")) [
          | inl within ↦ rw within (omega int_laws)
          | inr apart ↦ rw apart (omega int_laws)
        ])
