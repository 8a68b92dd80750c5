-- ===== src/Closing/Adjust/Counted.antt =====
-- `_build_adjustment_entries` and the book balances behind it.
use mono256_sic_core.Base.{
  ℕ, Bool, true, false, Option, none, some, List, [], ◌∷◌, String, ◌≡◌, refl, sym, ◌∙◌, inl, inr,
  arith, All, All-append, Bool-cases, str_eq, str_eq_iff, some_inj,
}
use mono256_sic_core.Base.Int.{
  ℤ, pos, ◌-ℤ◌, ltb_ℤ, eq_ℤ, eq_ℤ→eq, sum_of, int_laws, eq_of_parts, -ℤ_parts, parts_eq, +ℤ-zero,
}
use mono256_sic_core.Base.Result.{ok, >>=-eq-ok, ok-injective}
use mono256_sic_core.Store.{LineType}
use mono256_sic_core.Closing.Draft.{DraftLine, DraftEntry, draft_debit, draft_credit}
use mono256_sic_core.Closing.Balances.{Balances, apply_entry, aggregate_parent_balance}
use mono256_sic_core.Closing.Balances.Measure.{IsConsistent, weigh, line_weight}
use mono256_sic_core.Closing.Balances.Consistent.{AllFit, apply_lines-weight}
use mono256_sic_core.Closing.Balances.Fits.{support_line-Fits}
use mono256_sic_core.Closing.Adjust.{
  ClosingRequest, CountedAccount, cash, inventory, Summary, abs, adjustment_lines, adjustment_entry,
  adjust_one, Adjustments, build_adjustment_entries,
}

-- A draft whose totals agree.
abbrev pub IsBalancedDraft : DraftEntry → Type 0
IsBalancedDraft e = e.total_debit ≡ e.total_credit

abbrev pub in_parent : String → String → Bool
in_parent p x = str_eq x p

abbrev pub everywhere : String → Bool
everywhere p = true

-- The book balance is the net of the nodes below the colectiva.
pub aggregate-weigh :
    (p : String) (bs : Balances)
    → (aggregate_parent_balance bs p).2 ≡ sum_of (weigh (in_parent p)) bs
unfolding aggregate_parent_balance sum_of
aggregate-weigh p [] = omega int_laws
aggregate-weigh p (n ∷ ns) = elim (Bool-cases (str_eq n.parent_code p)) [
  | inl h ↦ rw (h, ← aggregate-weigh p ns) (omega int_laws)
  | inr h ↦ rw (h, ← aggregate-weigh p ns) (omega int_laws)
]

-- The weight of lines over all colectivas is their debits less their credits.
pub sum_of-everywhere :
    (ls : List DraftLine)
    → sum_of (line_weight everywhere) ls ≡ sum_of draft_debit ls -ℤ sum_of draft_credit ls
unfolding sum_of
sum_of-everywhere [] = omega int_laws
sum_of-everywhere (l ∷ ls) = rw (sum_of-everywhere ls) (omega int_laws)

str_eq_refl : (s : String) → str_eq s s ≡ true
str_eq_refl s = (str_eq_iff s s).1 refl

-- The difference goes to another colectiva.
pub record IsCounter (a : CountedAccount) : Type 0 where
  pub surplus_apart : str_eq a.surplus_code a.parent_code ≡ false
  pub shortage_apart : str_eq a.shortage_code a.parent_code ≡ false

pub cash-IsCounter : IsCounter cash
cash-IsCounter = record { surplus_apart = refl; shortage_apart = refl }

pub inventory-IsCounter : IsCounter inventory
inventory-IsCounter = record { surplus_apart = refl; shortage_apart = refl }

pub abs_of_positive : (d : ℤ) → ltb_ℤ (pos 0) d ≡ true → abs d ≡ d
unfolding abs
abs_of_positive d h = ground arith

pub abs_of_other : (d : ℤ) → ltb_ℤ (pos 0) d ≡ false → abs d ≡ pos 0 -ℤ d
unfolding abs
abs_of_other d h = elim (Bool-cases (ltb_ℤ d (pos 0))) [
  | inl negative ↦ rw negative
  | inr zero_ ↦ rw zero_ (eq_of_parts d (pos 0 -ℤ d) (ground (arith, -ℤ_parts (pos 0) d)))
]

adjustment_lines-weight :
    (a : CountedAccount) (d : ℤ)
    → IsCounter a
    → sum_of (line_weight (in_parent a.parent_code)) (adjustment_lines a d) ≡ d
unfolding sum_of
adjustment_lines-weight a d h = elim (Bool-cases (ltb_ℤ (pos 0) d)) [
  | inl more ↦
      rw (more, str_eq_refl a.parent_code, h.surplus_apart, abs_of_positive d more) (omega int_laws)
  | inr less ↦
      rw (less, str_eq_refl a.parent_code, h.shortage_apart, abs_of_other d less) (omega int_laws)
]

adjustment_lines-balanced :
    (a : CountedAccount) (d : ℤ)
    → sum_of draft_debit (adjustment_lines a d) ≡ sum_of draft_credit (adjustment_lines a d)
unfolding sum_of
adjustment_lines-balanced a d = elim (Bool-cases (ltb_ℤ (pos 0) d)) [
  | inl more ↦ rw more (omega int_laws)
  | inr less ↦ rw less (omega int_laws)
]

adjustment_lines-Fit :
    (a : CountedAccount) (d : ℤ) (bs : Balances)
    → IsConsistent bs
    → AllFit (adjustment_lines a d) bs
adjustment_lines-Fit a d bs h = elim (Bool-cases (ltb_ℤ (pos 0) d)) [
  | inl more ↦ rw more (
    support_line-Fits a.name a.parent_code LineType.debit (abs d) bs h,
    (support_line-Fits a.surplus_name a.surplus_code LineType.credit (abs d) bs h, tt),
  )
  | inr less ↦ rw less (
    support_line-Fits a.shortage_name a.shortage_code LineType.debit (abs d) bs h,
    (support_line-Fits a.name a.parent_code LineType.credit (abs d) bs h, tt),
  )
]

-- What one adjustment guarantees.
pub record Counted (a : CountedAccount) (actual : Option ℤ) (bs : Balances) (es : List DraftEntry)
    (bs' : Balances) : Type 0 where
  pub consistent : IsConsistent bs'
  pub total : sum_of (weigh everywhere) bs' ≡ sum_of (weigh everywhere) bs
  pub drafts : All IsBalancedDraft es
  pub book : (x : ℤ) → actual ≡ some x → (aggregate_parent_balance bs' a.parent_code).2 ≡ x
  pub others :
      (q : String → Bool)
      → q a.parent_code ≡ false
      → q a.surplus_code ≡ false
      → q a.shortage_code ≡ false
      → sum_of (weigh q) bs' ≡ sum_of (weigh q) bs

adjustment_lines-others :
    (q : String → Bool) (a : CountedAccount) (d : ℤ)
    → q a.parent_code ≡ false
    → q a.surplus_code ≡ false
    → q a.shortage_code ≡ false
    → sum_of (line_weight q) (adjustment_lines a d) ≡ pos 0
unfolding sum_of
adjustment_lines-others q a d p s t = elim (Bool-cases (ltb_ℤ (pos 0) d)) [
  | inl more ↦ rw (more, p, s) (omega int_laws)
  | inr less ↦ rw (less, p, t) (omega int_laws)
]

adjust_one-done :
    (date : ℕ) (a : CountedAccount) (actual : ℤ) (bs bs' : Balances)
    → IsCounter a
    → IsConsistent bs
    → apply_entry bs
        (adjustment_entry date a (actual -ℤ (aggregate_parent_balance bs a.parent_code).2))
      ≡ ok bs'
    → Counted a
        (some actual)
        bs
        (adjustment_entry date a (actual -ℤ (aggregate_parent_balance bs a.parent_code).2) ∷ [])
        bs'
unfolding apply_entry
adjust_one-done date a actual bs bs' counter h e =
    let d = actual -ℤ (aggregate_parent_balance bs a.parent_code).2 in
    let ls = adjustment_lines a d in
    let fit = adjustment_lines-Fit a d bs h in
    let (consistent, all) = apply_lines-weight everywhere ls bs h fit e in
    let (_, here) = apply_lines-weight (in_parent a.parent_code) ls bs h fit e in
    let zero_sum = sum_of-everywhere ls in
    let equal = adjustment_lines-balanced a d in
    let before = aggregate-weigh a.parent_code bs in
    let after = aggregate-weigh a.parent_code bs' in
    let weight = adjustment_lines-weight a d counter in
    record {
      consistent = consistent;
      total = all ∙ rw (zero_sum, equal) (omega int_laws);
      drafts = (equal, tt);
      book = λ x same.
          after ∙ here ∙ rw (weight, ← before) (omega (int_laws, parts_eq (some_inj same)));
      others = λ q p s t.
          let (_, moved) = apply_lines-weight q ls bs h fit e in
          moved ∙ rw (adjustment_lines-others q a d p s t) (+ℤ-zero _);
    }

adjust_one-Counted :
    (date : ℕ) (a : CountedAccount) (actual : Option ℤ) (bs : Balances)
    {r : List DraftEntry × Summary × Balances}
    → IsCounter a
    → IsConsistent bs
    → adjust_one date a actual bs ≡ ok r
    → Counted a actual bs r.0 r.2
unfolding adjust_one
adjust_one-Counted date a none bs counter h e = rw (← ok-injective e) (record {
  consistent = h;
  total = refl;
  drafts = tt;
  book = λ x same. cc;
  others = λ q p s t. refl;
})
adjust_one-Counted date a (some actual) bs counter h e =
    let book = (aggregate_parent_balance bs a.parent_code).2 in
    elim (Bool-cases (eq_ℤ (actual -ℤ book) (pos 0))) [
      | inl same ↦ rw (← ok-injective (rw same at e)) (record {
        consistent = h;
        total = refl;
        drafts = tt;
        book = λ x wanted. omega (
          int_laws,
          parts_eq (eq_ℤ→eq (actual -ℤ book) (pos 0) same),
          parts_eq (some_inj wanted),
        );
        others = λ q p s t. refl;
      })
      | inr differ ↦
          let (bs', applied, made) =
            >>=-eq-ok (apply_entry bs (adjustment_entry date a (actual -ℤ book))) _
              (rw differ at e) in
          rw (← ok-injective made) (adjust_one-done date a actual bs bs' counter h applied)
    ]

-- The book balance is the counted amount, if one was given.
abbrev pub IsCounted : Option ℤ → ℤ → Type 0
IsCounted none book = Unit
IsCounted (some actual) book = book ≡ actual

IsCounted-intro :
    (actual : Option ℤ) (book : ℤ) → ((x : ℤ) → actual ≡ some x → book ≡ x) → IsCounted actual book
IsCounted-intro none book h = tt
IsCounted-intro (some x) book h = h x refl

-- When the adjustments are made from consistent balances, the balances stay consistent, the book
-- balances of cash and of inventory are the counted amounts, where an amount was counted, every
-- adjustment entry has equal totals, and the net of all balances is kept.
pub build_adjustment_entries_lem :
    (r : ClosingRequest) (bs : Balances) {a : Adjustments}
    → IsConsistent bs
    → build_adjustment_entries r bs ≡ ok a
    → IsConsistent a.balances
      × (sum_of (weigh everywhere) a.balances ≡ sum_of (weigh everywhere) bs)
      × All IsBalancedDraft a.entries
      × IsCounted r.cash_actual (aggregate_parent_balance a.balances "1.01").2
      × IsCounted r.inventory_actual (aggregate_parent_balance a.balances "1.09").2
unfolding build_adjustment_entries
build_adjustment_entries_lem r bs h e =
    let (one, ran, e₁) = >>=-eq-ok (adjust_one r.closing_date cash r.cash_actual bs) _ e in
    let first = adjust_one-Counted r.closing_date cash r.cash_actual bs cash-IsCounter h ran in
    let (two, ran', e₂) =
      >>=-eq-ok (adjust_one r.closing_date inventory r.inventory_actual one.2) _ e₁ in
    let second =
      adjust_one-Counted r.closing_date inventory r.inventory_actual one.2 inventory-IsCounter
        first.consistent ran' in
    rw (← ok-injective e₂) (
      second.consistent,
      second.total ∙ first.total,
      All-append IsBalancedDraft one.0 two.0 first.drafts second.drafts,
      IsCounted-intro r.cash_actual _ (λ x wanted.
          aggregate-weigh "1.01" two.2
          ∙ second.others (in_parent "1.01") refl refl refl
          ∙ sym (aggregate-weigh "1.01" one.2)
          ∙ first.book x wanted),
      IsCounted-intro r.inventory_actual _ second.book,
    )
