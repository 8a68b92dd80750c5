-- ===== src/Closing/Statement/Equation.antt =====
-- The accounting equation of the balance sheet that the plan shows.
use mono256_sic_core.Base.{
  Bool, true, false, ◌&&◌, List, [], ◌∷◌, String, ◌≡◌, refl, sym, ap, subst, inl, inr, arith,
  if◌then◌else◌, All, where_, exists, Bool-cases, str_eq, str_eq_iff,
}
use mono256_sic_core.Base.Int.{
  ℤ, pos, ◌+ℤ◌, ◌-ℤ◌, ltb_ℤ, eq_ℤ, sum_of, int_laws, parts_eq, eq_of_parts, -ℤ_parts,
}
use mono256_sic_core.Base.Result.{ok, raise_if, >>=-eq-ok, raise_if-eq-ok, ok-injective}
use mono256_sic_core.Closing.Balances.{
  BalanceNode, Balances, debit_balance, credit_balance, at_least_zero, is_root,
}
use mono256_sic_core.Closing.Balances.Measure.{weigh, net, IsSound, is_chart_root}
use mono256_sic_core.Closing.Adjust.Counted.{everywhere}
use mono256_sic_core.Closing.Statement.{
  ResultNodes, in_debit, in_credit, has_debit_balance, has_credit_balance, collect_result_nodes,
  result_nodes, IncomeStatement, build_income_statement, build_balance_sheet,
}

-- The debit balances of a root, and its credit balances.
abbrev pub debits : String → Balances → ℤ
debits r bs = sum_of debit_balance (in_debit r bs)

abbrev pub credits : String → Balances → ℤ
credits r bs = sum_of credit_balance (in_credit r bs)

-- The net of a node below the root.
abbrev pub part : String → BalanceNode → ℤ
part r n = if is_root r n then net n else pos 0

at_least_zero_split : (a b : ℤ) → at_least_zero (a -ℤ b) -ℤ at_least_zero (b -ℤ a) ≡ a -ℤ b
at_least_zero_split a b = elim (Bool-cases (ltb_ℤ (pos 0) (a -ℤ b))) [
  | inl more ↦
      let less : ltb_ℤ (pos 0) (b -ℤ a) ≡ false = ground (arith, -ℤ_parts a b, -ℤ_parts b a) in
      rw (more, less) (omega int_laws)
  | inr other ↦ elim (Bool-cases (ltb_ℤ (pos 0) (b -ℤ a))) [
    | inl less ↦ rw (other, less) (omega int_laws)
    | inr same ↦
        rw (other, same)
          (eq_of_parts (pos 0 -ℤ pos 0) (a -ℤ b)
            (ground (arith, -ℤ_parts a b, -ℤ_parts b a, -ℤ_parts (pos 0) (pos 0))))
  ]
]

pub net_split : (n : BalanceNode) → debit_balance n -ℤ credit_balance n ≡ net n
unfolding debit_balance credit_balance
net_split n = at_least_zero_split n.total_debit n.total_credit

-- A balance that is not positive is zero.
at_least_zero_none : (a : ℤ) → ltb_ℤ (pos 0) (at_least_zero a) ≡ false → at_least_zero a ≡ pos 0
at_least_zero_none a h = elim (Bool-cases (ltb_ℤ (pos 0) a)) [
  | inl more ↦ ground (arith, more)
  | inr other ↦ rw other
]

pub debit_balance_none : (n : BalanceNode) → has_debit_balance n ≡ false → debit_balance n ≡ pos 0
unfolding debit_balance
debit_balance_none n h = at_least_zero_none (n.total_debit -ℤ n.total_credit) h

pub credit_balance_none :
    (n : BalanceNode) → has_credit_balance n ≡ false → credit_balance n ≡ pos 0
unfolding credit_balance
credit_balance_none n h = at_least_zero_none (n.total_credit -ℤ n.total_debit) h

-- One node's share of a sum over the nodes of a root with a balance.
share :
    (f : BalanceNode → ℤ) (r : String) (n : BalanceNode) (ns : Balances)
    → (ltb_ℤ (pos 0) (f n) ≡ false → f n ≡ pos 0)
    → sum_of f (where_ (λ m. is_root r m && ltb_ℤ (pos 0) (f m)) (n ∷ ns))
      ≡ (if is_root r n then f n else pos 0)
        +ℤ sum_of f (where_ (λ m. is_root r m && ltb_ℤ (pos 0) (f m)) ns)
unfolding sum_of
share f r n ns none_ = elim (Bool-cases (is_root r n)) [
  | inr other ↦ rw other (omega int_laws)
  | inl root ↦ elim (Bool-cases (ltb_ℤ (pos 0) (f n))) [
    | inl more ↦ rw (root, more)
    | inr zero_ ↦ rw (root, zero_, none_ zero_) (omega int_laws)
  ]
]

debits-cons :
    (b : Bool) (r : String) (n : BalanceNode) (ns : Balances)
    → is_root r n ≡ b
    → debits r (n ∷ ns) ≡ (if b then debit_balance n else pos 0) +ℤ debits r ns
unfolding debit_balance
debits-cons b r n ns h =
    rw (← h) (share debit_balance r n ns (at_least_zero_none (n.total_debit -ℤ n.total_credit)))

credits-cons :
    (b : Bool) (r : String) (n : BalanceNode) (ns : Balances)
    → is_root r n ≡ b
    → credits r (n ∷ ns) ≡ (if b then credit_balance n else pos 0) +ℤ credits r ns
unfolding credit_balance
credits-cons b r n ns h =
    rw (← h) (share credit_balance r n ns (at_least_zero_none (n.total_credit -ℤ n.total_debit)))

part_share :
    (b : Bool) (r : String) (n : BalanceNode)
    → is_root r n ≡ b
    → part r n ≡ (if b then net n else pos 0)
part_share b r n h = rw h

-- The net of a root is its debit balances less its credit balances.
pub sum_of-part : (r : String) (bs : Balances) → sum_of (part r) bs ≡ debits r bs -ℤ credits r bs
unfolding sum_of
sum_of-part r [] = omega int_laws
sum_of-part r (n ∷ ns) = elim (Bool-cases (is_root r n)) [
  | inl root ↦ omega (
    int_laws,
    parts_eq (debits-cons true r n ns root),
    parts_eq (credits-cons true r n ns root),
    parts_eq (part_share true r n root),
    parts_eq (sum_of-part r ns),
    parts_eq (net_split n),
  )
  | inr other ↦ omega (
    int_laws,
    parts_eq (debits-cons false r n ns other),
    parts_eq (credits-cons false r n ns other),
    parts_eq (part_share false r n other),
    parts_eq (sum_of-part r ns),
  )
]

abbrev five : ℤ → ℤ → ℤ → ℤ → ℤ → ℤ
five a b c d e = a +ℤ b +ℤ c +ℤ d +ℤ e

root_of : (P : String → Type 0) (r k : String) → P k → (str_eq r k ≡ false → P r) → P r
root_of P r k p other = elim (Bool-cases (str_eq r k)) [
  | inl same ↦ subst P (sym ((str_eq_iff r k).0 same)) p
  | inr different ↦ other different
]

-- What holds of the five roots holds of every root of the chart.
pub chart_root :
    (P : String → Type 0) (r : String)
    → P "1"
    → P "2"
    → P "3"
    → P "4"
    → P "5"
    → is_chart_root r ≡ true
    → P r
chart_root P r p₁ p₂ p₃ p₄ p₅ h = root_of P r "1" p₁ (λ n₁. root_of P r "2" p₂ (λ n₂.
    root_of P r "3" p₃ (λ n₃.
      root_of P r "4" p₄ (λ n₄. root_of P r "5" p₅ (λ n₅. absurd (cc (h, n₁, n₂, n₃, n₄, n₅)))))))

-- The net of a node is split over the roots.
abbrev split : ℤ → String → ℤ
split d r =
    five (if str_eq r "1" then d else pos 0) (if str_eq r "2" then d else pos 0)
      (if str_eq r "3" then d else pos 0) (if str_eq r "4" then d else pos 0)
      (if str_eq r "5" then d else pos 0)

split_of_root : (r : String) (d : ℤ) → is_chart_root r ≡ true → d ≡ split d r
split_of_root r d =
    chart_root (λ x. d ≡ split d x) r (omega int_laws) (omega int_laws) (omega int_laws)
      (omega int_laws) (omega int_laws)

-- The net of all nodes is the sum over the five roots.
pub sum_of-five :
    (bs : Balances)
    → All IsSound bs
    → sum_of (weigh everywhere) bs
      ≡ five
          (sum_of (part "1") bs)
          (sum_of (part "2") bs)
          (sum_of (part "3") bs)
          (sum_of (part "4") bs)
          (sum_of (part "5") bs)
unfolding sum_of
sum_of-five [] h = omega int_laws
sum_of-five (n ∷ ns) h =
    omega
      (int_laws, parts_eq (split_of_root n.root_code (net n) h.0.2), parts_eq (sum_of-five ns h.1))

pub where_-no_one {ℓ} :
    {A : Type ℓ} (p : A → Bool) (xs : List A) → exists p xs ≡ false → where_ p xs ≡ []
where_-no_one p [] h = refl
where_-no_one p (x ∷ xs) h = ground (arith, where_-no_one p xs)

-- What the guards of the result accounts leave.
pub record ResultNatural (bs : Balances) (r : ResultNodes) : Type 0 where
  pub nodes : r ≡ result_nodes bs
  pub no_credit_losses : credits "4" bs ≡ pos 0
  pub no_debit_gains : debits "5" bs ≡ pos 0

pub collect_result_nodes-ok :
    (bs : Balances) {r : ResultNodes} → collect_result_nodes bs ≡ ok r → ResultNatural bs r
unfolding collect_result_nodes sum_of
collect_result_nodes-ok bs h =
    let (_, g₁, h₁) = >>=-eq-ok (raise_if _ _) _ h in
    let (_, g₂, h₂) = >>=-eq-ok (raise_if _ _) _ h₁ in
    record {
      nodes = sym (ok-injective h₂);
      no_credit_losses = ap (sum_of credit_balance) (where_-no_one _ bs (raise_if-eq-ok _ _ g₁));
      no_debit_gains = ap (sum_of debit_balance) (where_-no_one _ bs (raise_if-eq-ok _ _ g₂));
    }

eq_ℤ_shift : (a b c d : ℤ) → a -ℤ b ≡ c -ℤ d → eq_ℤ a b ≡ eq_ℤ c d
eq_ℤ_shift a b c d h = ground (arith, -ℤ_parts a b, -ℤ_parts c d, parts_eq h)

-- When every node has the key of its account and the root of its colectiva, which is one of the
-- chart's five, the net of all balances is zero and the income statement can be built: the balance
-- sheet is balanced exactly when the credit balances among the assets are as large as the debit
-- balances among liabilities and equity.
pub build_balance_sheet_lem :
    (bs : Balances) {income : IncomeStatement}
    → All IsSound bs
    → sum_of (weigh everywhere) bs ≡ pos 0
    → build_income_statement bs ≡ ok income
    → (build_balance_sheet bs income).is_balanced
      ≡ eq_ℤ (credits "1" bs) (debits "2" bs +ℤ debits "3" bs)
unfolding build_income_statement build_balance_sheet
build_balance_sheet_lem bs sound zero_net h =
    let (r, collected, made) = >>=-eq-ok (collect_result_nodes bs) _ h in
    let natural = collect_result_nodes-ok bs collected in
    rw (← ok-injective made, natural.nodes)
      (eq_ℤ_shift (debits "1" bs)
        (credits "2" bs +ℤ (credits "3" bs +ℤ (credits "5" bs -ℤ debits "4" bs))) (credits "1" bs)
        (debits "2" bs +ℤ debits "3" bs)
        (omega (
          int_laws,
          parts_eq (sum_of-five bs sound),
          parts_eq zero_net,
          parts_eq (sum_of-part "1" bs),
          parts_eq (sum_of-part "2" bs),
          parts_eq (sum_of-part "3" bs),
          parts_eq (sum_of-part "4" bs),
          parts_eq (sum_of-part "5" bs),
          parts_eq natural.no_credit_losses,
          parts_eq natural.no_debit_gains,
        )))
