-- ===== src/Closing/Balances/Update.antt =====
-- Updates of the working balances, and the virtual nodes.
use mono256_sic_core.Base.{
  Bool, true, false, ◌||◌, none, [], ◌∷◌, ◌++◌, String, ◌≡◌, refl, ◌∙◌, inl, inr, arith,
  if◌then◌else◌, exists, All, All-append, All-map, Bool-cases, Option-cases, or-false,
}
use mono256_sic_core.Base.Int.{ℤ, pos, sum_of, sum_of-append, int_laws}
use mono256_sic_core.Base.Result.{ok}
use mono256_sic_core.Store.{AccountType, LineType}
use mono256_sic_core.Closing.Draft.{DraftLine}
use mono256_sic_core.Closing.Balances.{
  Key, key_eq, BalanceNode, Balances, account_key, line_key, add_amount, has_key, add_at,
  root_of_parent, type_of_root, virtual_node, with_virtual,
}
use mono256_sic_core.Closing.Balances.Measure.{
  key_eq→eq, key_eq_refl, weigh, IsUnique, is_chart_root, IsSound, IsConsistent, LiesIn,
}

pub key_eq-false_comm : (k j : Key) → key_eq k j ≡ false → key_eq j k ≡ false
key_eq-false_comm k j h = elim (Bool-cases (key_eq j k)) [
  | inl same ↦
      let e : j ≡ k = key_eq→eq j k same in absurd (ground (arith, rw e at h, key_eq_refl k))
  | inr other ↦ other
]

-- An update of the amounts keeps what identifies a node.
abbrev touch : Bool → LineType → ℤ → BalanceNode → BalanceNode
touch b t a n = if b then add_amount t a n else n

abbrev SameAccount : BalanceNode → BalanceNode → Type 0
SameAccount m n =
    (m.key ≡ n.key)
    × (m.account_id ≡ n.account_id)
    × (m.parent_code ≡ n.parent_code)
    × (m.account_name ≡ n.account_name)
    × (m.root_code ≡ n.root_code)

touch-SameAccount :
    (b : Bool) (t : LineType) (a : ℤ) (n : BalanceNode) → SameAccount (touch b t a n) n
touch-SameAccount true LineType.debit a n = (refl, refl, refl, refl, refl)
touch-SameAccount true LineType.credit a n = (refl, refl, refl, refl, refl)
touch-SameAccount false t a n = (refl, refl, refl, refl, refl)

exists-add_at :
    (j k : Key) (t : LineType) (a : ℤ) (bs : Balances)
    → exists (has_key j) (add_at k t a bs) ≡ exists (has_key j) bs
exists-add_at j k t a [] = refl
exists-add_at j k t a (n ∷ ns) =
    rw ((touch-SameAccount (has_key k n) t a n).0, exists-add_at j k t a ns)

IsUnique-add_at :
    (k : Key) (t : LineType) (a : ℤ) (bs : Balances) → IsUnique bs → IsUnique (add_at k t a bs)
IsUnique-add_at k t a [] u = tt
IsUnique-add_at k t a (n ∷ ns) u = (
  rw ((touch-SameAccount (has_key k n) t a n).0, exists-add_at n.key k t a ns) u.0,
  IsUnique-add_at k t a ns u.1,
)

touch-IsSound : (m n : BalanceNode) → SameAccount m n → IsSound n → IsSound m
touch-IsSound m n s h = (cc, cc, cc)

add_at-IsSound :
    (k : Key) (t : LineType) (a : ℤ) (bs : Balances)
    → All IsSound bs
    → All IsSound (add_at k t a bs)
add_at-IsSound k t a [] h = tt
add_at-IsSound k t a (n ∷ ns) h = (
  touch-IsSound (touch (has_key k n) t a n) n (touch-SameAccount (has_key k n) t a n) h.0,
  add_at-IsSound k t a ns h.1,
)

pub add_at-IsConsistent :
    (k : Key) (t : LineType) (a : ℤ) (bs : Balances)
    → IsConsistent bs
    → IsConsistent (add_at k t a bs)
add_at-IsConsistent k t a bs h = record {
  unique = IsUnique-add_at k t a bs h.unique;
  sound = add_at-IsSound k t a bs h.sound;
}

pub add_at-LiesIn :
    (j : Key) (p : String) (k : Key) (t : LineType) (a : ℤ) (bs : Balances)
    → All (LiesIn j p) bs
    → All (LiesIn j p) (add_at k t a bs)
add_at-LiesIn j p k t a [] h = tt
add_at-LiesIn j p k t a (n ∷ ns) h =
    let (key, _, parent, _, _) = touch-SameAccount (has_key k n) t a n in
    ((λ e. parent ∙ h.0 (rw key at e)), add_at-LiesIn j p k t a ns h.1)

-- A virtual key names its colectiva.
virtual-LiesIn :
    (p : String) (name : String) (n : BalanceNode)
    → IsSound n
    → LiesIn (account_key none p name) p n
unfolding account_key
virtual-LiesIn p name n s e =
    let same : n.key ≡ account_key none p name = key_eq→eq n.key _ e in
    elim (Option-cases n.account_id) [
      | inl plain ↦ ground (arith, same, s.0, plain)
      | inr (i, real) ↦ ground (arith, same, s.0, real)
    ]

pub All-virtual-LiesIn :
    (p : String) (name : String) (bs : Balances)
    → All IsSound bs
    → All (LiesIn (account_key none p name) p) bs
All-virtual-LiesIn p name bs = All-map IsSound _ bs (virtual-LiesIn p name)

-- A virtual node lies in the colectiva of every line that meets its key.
virtual_node-LiesIn :
    (l : DraftLine) (p name : String) (type : AccountType)
    → LiesIn (line_key l) l.parent_code (virtual_node p name type)
unfolding account_key
virtual_node-LiesIn l p name type e =
    let same : account_key none p name ≡ line_key l = key_eq→eq _ (line_key l) e in
    elim (Option-cases l.account_id) [
      | inl plain ↦ ground (arith, same, plain)
      | inr (i, real) ↦ ground (arith, same, real)
    ]

IsUnique-append :
    (bs : Balances) (v : BalanceNode)
    → IsUnique bs
    → exists (has_key v.key) bs ≡ false
    → IsUnique (bs ++ v ∷ [])
IsUnique-append [] v u h = (refl, tt)
IsUnique-append (n ∷ ns) v u h =
    let (here, there) = or-false (has_key v.key n) (exists (has_key v.key) ns) h in
    (
      exists-append n.key ns v u.0 (key_eq-false_comm n.key v.key here),
      IsUnique-append ns v u.1 there,
    )
  where
    exists-append :
        (k : Key) (xs : Balances) (x : BalanceNode)
        → exists (has_key k) xs ≡ false
        → key_eq x.key k ≡ false
        → exists (has_key k) (xs ++ x ∷ []) ≡ false
    exists-append k [] x a b = ground (arith, b)
    exists-append k (y ∷ ys) x a b = ground (arith, exists-append k ys x)

exists-append_self :
    (k : Key) (bs : Balances) (v : BalanceNode)
    → key_eq v.key k ≡ true
    → exists (has_key k) (bs ++ v ∷ []) ≡ true
exists-append_self k [] v h = rw h
exists-append_self k (n ∷ ns) v h = rw (exists-append_self k ns v h) (or_true (has_key k n))
  where
    or_true : (b : Bool) → (b || true) ≡ true
    or_true true = refl
    or_true false = refl

weigh-virtual_node :
    (q : String → Bool) (p name : String) (type : AccountType)
    → weigh q (virtual_node p name type) ≡ pos 0
weigh-virtual_node q p name type = elim (Bool-cases (q p)) [
  | inl h ↦ rw h (omega int_laws)
  | inr h ↦ rw h
]

-- What adding a virtual node, if it is not there, keeps and provides.
pub record Extends (q : String → Bool) (k : Key) (bs bs' : Balances) : Type 0 where
  pub consistent : IsConsistent bs'
  pub present : exists (has_key k) bs' ≡ true
  pub weight : sum_of (weigh q) bs' ≡ sum_of (weigh q) bs

pub with_virtual-Extends :
    (q : String → Bool) (bs : Balances) (p name : String) (type : AccountType)
    → IsConsistent bs
    → is_chart_root (root_of_parent p) ≡ true
    → Extends q (account_key none p name) bs (with_virtual bs p name type)
unfolding with_virtual sum_of
with_virtual-Extends q bs p name type h root =
    elim (Bool-cases (exists (has_key (account_key none p name)) bs)) [
      | inl old ↦ rw old (record { consistent = h; present = old; weight = refl })
      | inr new ↦ rw new (record {
        consistent = record {
          unique = IsUnique-append bs (virtual_node p name type) h.unique new;
          sound = All-append IsSound bs _ h.sound ((refl, refl, root), tt);
        };
        present =
            exists-append_self (account_key none p name) bs (virtual_node p name type)
              (key_eq_refl (account_key none p name));
        weight =
            sum_of-append (weigh q) bs (virtual_node p name type ∷ [])
            ∙ rw (weigh-virtual_node q p name type) (omega int_laws);
      })
    ]

pub with_virtual-LiesIn :
    (l : DraftLine) (bs : Balances) (p name : String) (type : AccountType)
    → All (LiesIn (line_key l) l.parent_code) bs
    → All (LiesIn (line_key l) l.parent_code) (with_virtual bs p name type)
unfolding with_virtual
with_virtual-LiesIn l bs p name type h =
    elim (Bool-cases (exists (has_key (account_key none p name)) bs)) [
      | inl old ↦ rw old h
      | inr new ↦ rw new (All-append _ bs _ h (virtual_node-LiesIn l p name type, tt))
    ]

pub type_of_root-ok :
    (r : String) {t : AccountType} → type_of_root r ≡ ok t → is_chart_root r ≡ true
unfolding type_of_root
type_of_root-ok r h = ground arith
