-- ===== src/Closing/Entries/Patrimonial.antt =====
-- What the patrimonial closing and the reopening weigh.
use mono256_sic_core.Base.{
  Bool, true, false, ◌&&◌, ◌||◌, List, [], ◌∷◌, map, String, ◌≡◌, refl, sym, ◌∙◌, inl, inr,
  if◌then◌else◌, All, where_, Bool-cases,
}
use mono256_sic_core.Base.Int.{ℤ, pos, ◌+ℤ◌, ◌-ℤ◌, sum_of, sum_of-append, int_laws, parts_eq}
use mono256_sic_core.Store.{LineType, swap_side}
use mono256_sic_core.Closing.Draft.{DraftLine}
use mono256_sic_core.Closing.Balances.{
  BalanceNode, Balances, debit_balance, credit_balance, is_patrimonial,
}
use mono256_sic_core.Closing.Balances.Measure.{weigh, line_weight, signed}
use mono256_sic_core.Closing.Statement.{has_debit_balance, has_credit_balance}
use mono256_sic_core.Closing.Statement.Equation.{net_split, debit_balance_none, credit_balance_none}
use mono256_sic_core.Closing.Entries.{node_line, closing_lines, swapped, is_open_node}
use mono256_sic_core.Closing.Entries.Weights.{
  line_part, sum_of-node_lines, sum_of-negated, sum_of-both, where_-both, none_either,
}

-- The net of a node of a patrimonial root.
abbrev pub weigh_patrimonial : (String → Bool) → BalanceNode → ℤ
weigh_patrimonial q n = if is_patrimonial n then weigh q n else pos 0

abbrev shown : (String → Bool) → ℤ → BalanceNode → ℤ
shown q amount n = if is_patrimonial n then (if q n.parent_code then amount else pos 0) else pos 0

or_true : (a : Bool) → (a || true) ≡ true
or_true true = refl
or_true false = refl

open_part :
    (patrimonial has_any more within : Bool) (t : LineType) (amount : ℤ)
    → (more ≡ true → has_any ≡ true)
    → (more ≡ false → signed t amount ≡ pos 0)
    → (if (patrimonial && has_any) && more
        then (if within then signed t amount else pos 0)
        else pos 0)
      ≡ (if patrimonial then (if within then signed t amount else pos 0) else pos 0)
open_part false has_any more within t amount any none_ = refl
open_part true has_any true within t amount any none_ = rw (any refl)
open_part true true false within t amount any none_ = rw (none_ refl) (sym (none_either within))
open_part true false false within t amount any none_ = rw (none_ refl) (sym (none_either within))

credit_part_open :
    (q : String → Bool) (n : BalanceNode)
    → line_part q (λ m. is_open_node m && has_credit_balance m) LineType.debit credit_balance n
      ≡ shown q (credit_balance n -ℤ pos 0) n
credit_part_open q n =
    open_part (is_patrimonial n) _ (has_credit_balance n) (q n.parent_code) LineType.debit
      (credit_balance n) (λ h. rw h (or_true (has_debit_balance n)))
      (λ h. rw (credit_balance_none n h) (omega int_laws))

debit_part_open :
    (q : String → Bool) (n : BalanceNode)
    → line_part q (λ m. is_open_node m && has_debit_balance m) LineType.credit debit_balance n
      ≡ shown q (pos 0 -ℤ debit_balance n) n
debit_part_open q n =
    open_part (is_patrimonial n) _ (has_debit_balance n) (q n.parent_code) LineType.credit
      (debit_balance n) (λ h. rw h) (λ h. rw (debit_balance_none n h) (omega int_laws))

shown-both :
    (q : String → Bool) (n : BalanceNode)
    → shown q (credit_balance n -ℤ pos 0) n +ℤ shown q (pos 0 -ℤ debit_balance n) n
      ≡ pos 0 -ℤ weigh_patrimonial q n
shown-both q n = elim (Bool-cases (is_patrimonial n)) [
  | inr other ↦ rw other (omega int_laws)
  | inl patrimonial ↦ rw patrimonial (elim (Bool-cases (q n.parent_code)) [
    | inr apart ↦ rw apart (omega int_laws)
    | inl within ↦ rw within (omega (int_laws, parts_eq (net_split n)))
  ])
]

-- Every node satisfies what holds of all nodes.
All-any : (P : BalanceNode → Type 0) (bs : Balances) → ((n : BalanceNode) → P n) → All P bs
All-any P [] f = tt
All-any P (n ∷ ns) f = (f n, All-any P ns f)

-- The patrimonial closing takes the patrimonial net out of every colectiva.
pub closing_lines-weight :
    (q : String → Bool) (bs : Balances)
    → sum_of (line_weight q) (closing_lines (where_ is_open_node bs))
      ≡ pos 0 -ℤ sum_of (weigh_patrimonial q) bs
closing_lines-weight q bs =
    let credits =
      sum_of-node_lines q (λ m. is_open_node m && has_credit_balance m) LineType.debit
        credit_balance (λ n. shown q (credit_balance n -ℤ pos 0) n) bs
        (All-any _ bs (credit_part_open q)) in
    let debits =
      sum_of-node_lines q (λ m. is_open_node m && has_debit_balance m) LineType.credit debit_balance
        (λ n. shown q (pos 0 -ℤ debit_balance n) n) bs (All-any _ bs (debit_part_open q)) in
    let both =
      sum_of-both (λ n. shown q (credit_balance n -ℤ pos 0) n)
        (λ n. shown q (pos 0 -ℤ debit_balance n) n) (λ n. pos 0 -ℤ weigh_patrimonial q n) bs
        (shown-both q)
      ∙ sum_of-negated (weigh_patrimonial q) bs in
    rw
      (
        where_-both has_credit_balance is_open_node bs,
        where_-both has_debit_balance is_open_node bs,
        sum_of-append (line_weight q)
            (map (node_line LineType.debit credit_balance)
              (where_ (λ m. is_open_node m && has_credit_balance m) bs))
            (map (node_line LineType.credit debit_balance)
              (where_ (λ m. is_open_node m && has_debit_balance m) bs)),
        credits,
        debits,
      )
      both

swapped-line_weight :
    (q : String → Bool) (l : DraftLine) → line_weight q (swapped l) ≡ pos 0 -ℤ line_weight q l
swapped-line_weight q l = elim (Bool-cases (q l.parent_code)) [
  | inr apart ↦ rw apart (omega int_laws)
  | inl within ↦ rw within (swapped-signed l.type l.amount)
]
  where
    swapped-signed : (t : LineType) (a : ℤ) → signed (swap_side t) a ≡ pos 0 -ℤ signed t a
    swapped-signed LineType.debit a = omega int_laws
    swapped-signed LineType.credit a = omega int_laws

-- The reopening is the closing with the sides swapped.
pub swapped-weight :
    (q : String → Bool) (ls : List DraftLine)
    → sum_of (line_weight q) (map swapped ls) ≡ pos 0 -ℤ sum_of (line_weight q) ls
unfolding sum_of
swapped-weight q [] = omega int_laws
swapped-weight q (l ∷ ls) =
    omega (int_laws, parts_eq (swapped-line_weight q l), parts_eq (swapped-weight q ls))
