-- ===== src/Closing/Balances/Fits.antt =====
-- The colectivas of the lines that the plan proposes, against the balances that they are made from.
use mono256_sic_core.Base.{
  Bool, true, false, List, [], ◌∷◌, String, ◌≡◌, refl, subst, inl, inr, exists, All, All-map,
  where_, Bool-cases, or-false,
}
use mono256_sic_core.Base.Int.{ℤ}
use mono256_sic_core.Store.{LineType}
use mono256_sic_core.Closing.Draft.{support_line}
use mono256_sic_core.Closing.Balances.{Key, BalanceNode, Balances, has_key}
use mono256_sic_core.Closing.Balances.Measure.{IsUnique, IsSound, IsConsistent, LiesIn}
use mono256_sic_core.Closing.Balances.Consistent.{Fits}
use mono256_sic_core.Closing.Balances.Update.{All-virtual-LiesIn, key_eq-false_comm}
use mono256_sic_core.Closing.Entries.{node_line}

-- `sum`-free reading of a filter: what holds of all rows holds of the kept ones.
pub All-where_ {ℓ κ} :
    {A : Type ℓ} (P : A → Type κ) (p : A → Bool) (xs : List A) → All P xs → All P (where_ p xs)
All-where_ P p [] h = tt
All-where_ P p (x ∷ xs) h = elim (Bool-cases (p x)) [
  | inl kept ↦ rw kept (h.0, All-where_ P p xs h.1)
  | inr dropped ↦ rw dropped (All-where_ P p xs h.1)
]

-- Nodes under one key are one node, and so lie in one colectiva.
abbrev SameParent : BalanceNode → Balances → Type 0
SameParent n = All (LiesIn n.key n.parent_code)

contradiction : {b : Bool} → b ≡ false → b ≡ true → ⊥
contradiction h k = cc

absent-LiesIn :
    (k : Key) (p : String) (ms : Balances) → exists (has_key k) ms ≡ false → All (LiesIn k p) ms
absent-LiesIn k p [] h = tt
absent-LiesIn k p (m ∷ ms) h =
    let (here, there) = or-false (has_key k m) (exists (has_key k) ms) h in
    ((λ e. absurd (contradiction here e)), absent-LiesIn k p ms there)

absent-not-mem :
    (x : BalanceNode) (ns : Balances)
    → exists (has_key x.key) ns ≡ false
    → All (λ n. LiesIn n.key n.parent_code x) ns
absent-not-mem x [] h = tt
absent-not-mem x (n ∷ ns) h =
    let (here, there) = or-false (has_key x.key n) (exists (has_key x.key) ns) h in
    (
      (λ e. absurd (contradiction (key_eq-false_comm n.key x.key here) e)),
      absent-not-mem x ns there,
    )

pub All-both {κ μ} :
    (P : BalanceNode → Type κ) (Q : BalanceNode → Type μ) (ns : Balances)
    → All P ns
    → All Q ns
    → All (λ n. P n × Q n) ns
All-both P Q [] h k = tt
All-both P Q (n ∷ ns) h k = ((h.0, k.0), All-both P Q ns h.1 k.1)

IsUnique-SameParent : (bs : Balances) → IsUnique bs → All (λ n. SameParent n bs) bs
IsUnique-SameParent [] u = tt
IsUnique-SameParent (x ∷ xs) u = (
  ((λ e. refl), absent-LiesIn x.key x.parent_code xs u.0),
  All-map _ _ xs (λ n both. both)
      (All-both (λ n. LiesIn n.key n.parent_code x) (λ n. SameParent n xs) xs
        (absent-not-mem x xs u.0) (IsUnique-SameParent xs u.1)),
)

-- A line on the account of a node fits.
pub node_line-Fits :
    (t : LineType) (amount_of : BalanceNode → ℤ) (bs : Balances)
    → IsConsistent bs
    → All (λ n. Fits (node_line t amount_of n) bs) bs
node_line-Fits t amount_of bs h =
    All-map (λ n. IsSound n × SameParent n bs) _ bs
      (λ n both. subst (λ k. All (LiesIn k n.parent_code) bs) both.0.0 both.1)
      (All-both IsSound (λ n. SameParent n bs) bs h.sound (IsUnique-SameParent bs h.unique))

pub support_line-Fits :
    (name p : String) (t : LineType) (amount : ℤ) (bs : Balances)
    → IsConsistent bs
    → Fits (support_line name p t amount) bs
support_line-Fits name p t amount bs h = All-virtual-LiesIn p name bs h.sound
