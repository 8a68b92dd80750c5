-- ===== src/Closing/Balances/Measure.antt =====
-- How a draft line changes the net balance of a set of colectivas.
use mono256_sic_core.Base.{
  Bool, true, false, ◌||◌, [], ◌∷◌, String, ◌≡◌, refl, subst, inl, inr, arith, if◌then◌else◌,
  exists, All, Bool-cases, str_eq, str_eq_iff, codes_eq→eq, codes_eq_refl,
}
use mono256_sic_core.Base.Int.{ℤ, pos, ◌+ℤ◌, ◌-ℤ◌, sum_of, int_laws}
use mono256_sic_core.Store.{LineType, debit_part, credit_part}
use mono256_sic_core.Closing.Draft.{DraftLine}
use mono256_sic_core.Closing.Balances.{
  Key, by_id, virtual, key_eq, BalanceNode, Balances, account_key, add_amount, has_key, add_at,
  root_of_parent,
}

pub key_eq→eq : (k j : Key) → key_eq k j ≡ true → k ≡ j
key_eq→eq (by_id i) (by_id j) h = ground arith
key_eq→eq (virtual p n) (virtual q m) h = ground (arith, str_eq_iff p q, codes_eq→eq n m)
key_eq→eq (by_id i) (virtual q m) h = cc
key_eq→eq (virtual p n) (by_id j) h = cc

pub key_eq_refl : (k : Key) → key_eq k k ≡ true
key_eq_refl (by_id i) = ground arith
key_eq_refl (virtual p n) = ground (arith, str_eq_iff p p, codes_eq_refl n)

abbrev pub net : BalanceNode → ℤ
net n = n.total_debit -ℤ n.total_credit

-- The net of a node whose colectiva is in the set `q`.
abbrev pub weigh : (String → Bool) → BalanceNode → ℤ
weigh q n = if q n.parent_code then net n else pos 0

abbrev pub signed : LineType → ℤ → ℤ
signed t a = debit_part t a -ℤ credit_part t a

abbrev pub line_weight : (String → Bool) → DraftLine → ℤ
line_weight q l = if q l.parent_code then signed l.type l.amount else pos 0

abbrev pub IsUnique : Balances → Type 0
IsUnique [] = Unit
IsUnique (n ∷ ns) = (exists (has_key n.key) ns ≡ false) × IsUnique ns

-- One of the five roots of the chart.
abbrev pub is_chart_root : String → Bool
is_chart_root r = (str_eq r "1" || str_eq r "2") || (str_eq r "3" || (str_eq r "4" || str_eq r "5"))

-- The key and the root of a node are those of its account, and the root is one of the chart's.
abbrev pub IsSound : BalanceNode → Type 0
IsSound n =
    (n.key ≡ account_key n.account_id n.parent_code n.account_name)
    × (n.root_code ≡ root_of_parent n.parent_code)
    × (is_chart_root n.root_code ≡ true)

pub record IsConsistent (bs : Balances) : Type 0 where
  pub unique : IsUnique bs
  pub sound : All IsSound bs

-- A node under the key belongs to the colectiva.
abbrev pub LiesIn : Key → String → BalanceNode → Type 0
LiesIn k p n = key_eq n.key k ≡ true → n.parent_code ≡ p

weigh-add_amount :
    (q : String → Bool) (t : LineType) (a : ℤ) (n : BalanceNode)
    → weigh q (add_amount t a n) ≡ weigh q n +ℤ (if q n.parent_code then signed t a else pos 0)
weigh-add_amount q LineType.debit a n = elim (Bool-cases (q n.parent_code)) [
  | inl h ↦ rw h (omega int_laws)
  | inr h ↦ rw h (omega int_laws)
]
weigh-add_amount q LineType.credit a n = elim (Bool-cases (q n.parent_code)) [
  | inl h ↦ rw h (omega int_laws)
  | inr h ↦ rw h (omega int_laws)
]

add_at_absent :
    (k : Key) (t : LineType) (a : ℤ) (bs : Balances)
    → exists (has_key k) bs ≡ false
    → add_at k t a bs ≡ bs
add_at_absent k t a [] h = refl
add_at_absent k t a (n ∷ ns) h = ground (arith, add_at_absent k t a ns)

cons_shift : (a b d : ℤ) {c : ℤ} → c ≡ a +ℤ d → c +ℤ b ≡ a +ℤ b +ℤ d
cons_shift a b d e = rw e (omega int_laws)

cons_keep : (a b d : ℤ) {c : ℤ} → c ≡ b +ℤ d → a +ℤ c ≡ a +ℤ b +ℤ d
cons_keep a b d e = rw e (omega int_laws)

-- A node of the colectiva `p`.
weigh-add_in :
    (q : String → Bool) (p : String) (t : LineType) (a : ℤ) (n : BalanceNode)
    → n.parent_code ≡ p
    → weigh q (add_amount t a n) ≡ weigh q n +ℤ (if q p then signed t a else pos 0)
weigh-add_in q p t a n e =
    subst (λ x. weigh q (add_amount t a n) ≡ weigh q n +ℤ (if q x then signed t a else pos 0)) e
      (weigh-add_amount q t a n)

pub sum_of-add_at :
    (q : String → Bool) (k : Key) (p : String) (t : LineType) (a : ℤ) (bs : Balances)
    → IsUnique bs
    → All (LiesIn k p) bs
    → exists (has_key k) bs ≡ true
    → sum_of (weigh q) (add_at k t a bs)
      ≡ sum_of (weigh q) bs +ℤ (if q p then signed t a else pos 0)
unfolding sum_of
sum_of-add_at q k p t a [] u l h = cc
sum_of-add_at q k p t a (n ∷ ns) u l h = elim (Bool-cases (has_key k n)) [
  | inl here ↦
      let same : n.key ≡ k = key_eq→eq n.key k here in
      rw (here, add_at_absent k t a ns (rw same at u.0))
        (cons_shift (weigh q n) (sum_of (weigh q) ns) (if q p then signed t a else pos 0)
          (weigh-add_in q p t a n (l.0 here)))
  | inr there ↦ rw there (
      cons_keep (weigh q n) (sum_of (weigh q) ns) (if q p then signed t a else pos 0)
        (sum_of-add_at q k p t a ns u.1 l.1 (rw there at h)))
]
