-- ===== src/Closing/Entries/Weights.antt =====
-- What the lines that close the nodes of one root weigh.
use mono256_sic_core.Base.{
  Bool, true, false, ◌&&◌, List, [], ◌∷◌, map, String, ◌≡◌, refl, sym, ◌∙◌, ap, subst, inl, inr,
  if◌then◌else◌, exists, All, All-map, where_, Bool-cases, or-false, str_eq,
}
use mono256_sic_core.Base.Int.{ℤ, pos, ◌+ℤ◌, ◌-ℤ◌, sum_of, int_laws, parts_eq}
use mono256_sic_core.Store.{LineType}
use mono256_sic_core.Closing.Balances.{
  BalanceNode, Balances, debit_balance, credit_balance, is_root, root_of_parent,
}
use mono256_sic_core.Closing.Balances.Measure.{weigh, line_weight, signed, IsSound}
use mono256_sic_core.Closing.Statement.{has_debit_balance, has_credit_balance, in_debit, in_credit}
use mono256_sic_core.Closing.Statement.Equation.{net_split, debit_balance_none, credit_balance_none}
use mono256_sic_core.Closing.Balances.Fits.{All-both}
use mono256_sic_core.Closing.Entries.{node_line}

-- A node's part in the lines of the kept nodes.
abbrev pub line_part :
    (String → Bool) → (BalanceNode → Bool) → LineType → (BalanceNode → ℤ) → BalanceNode → ℤ
line_part q keep t f n =
    if keep n then (if q n.parent_code then signed t (f n) else pos 0) else pos 0

pub sum_of-node_lines :
    (q : String → Bool) (keep : BalanceNode → Bool) (t : LineType) (f g : BalanceNode → ℤ)
    (bs : Balances)
    → All (λ n. line_part q keep t f n ≡ g n) bs
    → sum_of (line_weight q) (map (node_line t f) (where_ keep bs)) ≡ sum_of g bs
unfolding sum_of
sum_of-node_lines q keep t f g [] h = refl
sum_of-node_lines q keep t f g (n ∷ ns) h = elim (Bool-cases (keep n)) [
  | inl kept ↦
      rw (kept, sum_of-node_lines q keep t f g ns h.1) (ap (λ x. x +ℤ sum_of g ns) (rw kept at h.0))
  | inr dropped ↦
      rw (dropped, sum_of-node_lines q keep t f g ns h.1, ← rw dropped at h.0) (omega int_laws)
]

pub sum_of-negated :
    (f : BalanceNode → ℤ) (bs : Balances) → sum_of (λ n. pos 0 -ℤ f n) bs ≡ pos 0 -ℤ sum_of f bs
unfolding sum_of
sum_of-negated f [] = omega int_laws
sum_of-negated f (n ∷ ns) = rw (sum_of-negated f ns) (omega int_laws)

pub sum_of-both :
    (f g h : BalanceNode → ℤ) (bs : Balances)
    → ((n : BalanceNode) → f n +ℤ g n ≡ h n)
    → sum_of f bs +ℤ sum_of g bs ≡ sum_of h bs
unfolding sum_of
sum_of-both f g h [] e = omega int_laws
sum_of-both f g h (n ∷ ns) e = omega (int_laws, parts_eq (e n), parts_eq (sum_of-both f g h ns e))

pub where_-both {ℓ} :
    {A : Type ℓ} (p k : A → Bool) (xs : List A)
    → where_ p (where_ k xs) ≡ where_ (λ x. k x && p x) xs
where_-both p k [] = refl
where_-both p k (x ∷ xs) = elim (Bool-cases (k x)) [
  | inl kept ↦ rw (kept, where_-both p k xs)
  | inr dropped ↦ rw (dropped, where_-both p k xs)
]

-- The set holds colectivas of the root alone.
abbrev pub Below : String → (String → Bool) → Type 0
Below r q = (p : String) → q p ≡ true → str_eq (root_of_parent p) r ≡ true

-- A sound node of another root is in no set below the root.
outside :
    (r : String) (q : String → Bool) (n : BalanceNode)
    → Below r q
    → IsSound n
    → is_root r n ≡ false
    → q n.parent_code ≡ false
outside r q n below sound other = elim (Bool-cases (q n.parent_code)) [
  | inl within ↦
      let same : str_eq n.root_code r ≡ true =
        subst (λ x. str_eq x r ≡ true) (sym sound.1) (below n.parent_code within) in
      absurd (contradiction other same)
  | inr apart ↦ apart
]
  where
    contradiction : {b : Bool} → b ≡ false → b ≡ true → ⊥
    contradiction h k = cc

no_contrary : (a b : Bool) → (a && b) ≡ false → a ≡ true → b ≡ false
no_contrary true b h k = h
no_contrary false b h k = cc

debit_closed :
    (r : String) (q : String → Bool) (n : BalanceNode)
    → Below r q
    → IsSound n
    → (is_root r n && has_credit_balance n) ≡ false
    → line_part q (λ m. is_root r m && has_debit_balance m) LineType.credit debit_balance n
      ≡ pos 0 -ℤ weigh q n
debit_closed r q n below sound natural = elim (Bool-cases (is_root r n)) [
  | inr other ↦ rw (other, outside r q n below sound other) (omega int_laws)
  | inl root ↦
      let no_credit = credit_balance_none n (no_contrary _ _ natural root) in
      elim (Bool-cases (has_debit_balance n)) [
        | inl more ↦
            rw (root, more)
              (elim (Bool-cases (q n.parent_code)) [
                | inl within ↦
                    rw within (omega (int_laws, parts_eq (net_split n), parts_eq no_credit))
                | inr apart ↦ rw apart (omega int_laws)
              ])
        | inr none_ ↦
            rw (root, none_)
              (elim (Bool-cases (q n.parent_code)) [
                | inl within ↦
                    let no_debit = debit_balance_none n none_ in
                    rw within (
                      omega
                        (int_laws, parts_eq (net_split n), parts_eq no_credit, parts_eq no_debit))
                | inr apart ↦ rw apart (omega int_laws)
              ])
      ]
]

credit_closed :
    (r : String) (q : String → Bool) (n : BalanceNode)
    → Below r q
    → IsSound n
    → (is_root r n && has_debit_balance n) ≡ false
    → line_part q (λ m. is_root r m && has_credit_balance m) LineType.debit credit_balance n
      ≡ pos 0 -ℤ weigh q n
credit_closed r q n below sound natural = elim (Bool-cases (is_root r n)) [
  | inr other ↦ rw (other, outside r q n below sound other) (omega int_laws)
  | inl root ↦
      let no_debit = debit_balance_none n (no_contrary _ _ natural root) in
      elim (Bool-cases (has_credit_balance n)) [
        | inl more ↦
            rw (root, more)
              (elim (Bool-cases (q n.parent_code)) [
                | inl within ↦
                    rw within (omega (int_laws, parts_eq (net_split n), parts_eq no_debit))
                | inr apart ↦ rw apart (omega int_laws)
              ])
        | inr none_ ↦
            rw (root, none_)
              (elim (Bool-cases (q n.parent_code)) [
                | inl within ↦
                    let no_credit = credit_balance_none n none_ in
                    rw within (
                      omega
                        (int_laws, parts_eq (net_split n), parts_eq no_credit, parts_eq no_debit))
                | inr apart ↦ rw apart (omega int_laws)
              ])
      ]
]

All-no_one :
    (p : BalanceNode → Bool) (bs : Balances) → exists p bs ≡ false → All (λ n. p n ≡ false) bs
All-no_one p [] h = tt
All-no_one p (n ∷ ns) h =
    let (here, there) = or-false (p n) (exists p ns) h in (here, All-no_one p ns there)

-- The lines that close a root with debit balances only take its net out of every colectiva.
pub debit_lines-weight :
    (r : String) (q : String → Bool) (bs : Balances)
    → Below r q
    → All IsSound bs
    → exists (λ n. is_root r n && has_credit_balance n) bs ≡ false
    → sum_of (line_weight q) (map (node_line LineType.credit debit_balance) (in_debit r bs))
      ≡ pos 0 -ℤ sum_of (weigh q) bs
debit_lines-weight r q bs below sound natural =
    sum_of-node_lines q _ LineType.credit debit_balance (λ n. pos 0 -ℤ weigh q n) bs
      (All-map _ _ bs (λ n both. debit_closed r q n below both.0 both.1)
        (All-both IsSound _ bs sound (All-no_one _ bs natural)))
    ∙ sum_of-negated (weigh q) bs

-- The same for a root with credit balances only.
pub credit_lines-weight :
    (r : String) (q : String → Bool) (bs : Balances)
    → Below r q
    → All IsSound bs
    → exists (λ n. is_root r n && has_debit_balance n) bs ≡ false
    → sum_of (line_weight q) (map (node_line LineType.debit credit_balance) (in_credit r bs))
      ≡ pos 0 -ℤ sum_of (weigh q) bs
credit_lines-weight r q bs below sound natural =
    sum_of-node_lines q _ LineType.debit credit_balance (λ n. pos 0 -ℤ weigh q n) bs
      (All-map _ _ bs (λ n both. credit_closed r q n below both.0 both.1)
        (All-both IsSound _ bs sound (All-no_one _ bs natural)))
    ∙ sum_of-negated (weigh q) bs

sum_of-none : (ns : Balances) → sum_of (λ (n : BalanceNode). pos 0) ns ≡ pos 0
unfolding sum_of
sum_of-none [] = refl
sum_of-none (n ∷ ns) = rw (sum_of-none ns) (omega int_laws)

pub none_either : (a : Bool) → (if a then pos 0 else pos 0) ≡ pos 0
none_either true = refl
none_either false = refl

-- The lines on nodes of one root do not touch a set without colectivas of that root.
pub node_lines-apart :
    (r : String) (q : String → Bool) (b : BalanceNode → Bool) (t : LineType) (f : BalanceNode → ℤ)
    (bs : Balances)
    → ((p : String) → q p ≡ true → str_eq (root_of_parent p) r ≡ false)
    → All IsSound bs
    → sum_of (line_weight q) (map (node_line t f) (where_ (λ n. is_root r n && b n) bs)) ≡ pos 0
node_lines-apart r q b t f bs away sound =
    sum_of-node_lines q _ t f (λ n. pos 0) bs
      (All-map IsSound _ bs
        (λ n h. elim (Bool-cases (is_root r n)) [
          | inr other ↦ rw other
          | inl root ↦ rw (root, not_in n h root) (none_either (b n))
        ])
        sound)
    ∙ sum_of-none bs
  where
    contradiction : {a : Bool} → a ≡ false → a ≡ true → ⊥
    contradiction h k = cc

    not_in : (n : BalanceNode) → IsSound n → is_root r n ≡ true → q n.parent_code ≡ false
    not_in n h root = elim (Bool-cases (q n.parent_code)) [
      | inl within ↦
          absurd
            (contradiction (away n.parent_code within) (subst (λ x. str_eq x r ≡ true) h.1 root))
      | inr apart ↦ apart
    ]
