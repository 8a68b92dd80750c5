-- ===== src/Closing/Balances/Consistent.antt =====
-- `_apply_entry_to_balances` and the net balance of a set of colectivas.
use mono256_sic_core.Base.{
  Bool, true, none, List, [], ◌∷◌, String, ◌≡◌, sym, ◌∙◌, ap, subst, inl, inr, exists, All, All-map,
  Bool-cases,
}
use mono256_sic_core.Base.Int.{◌+ℤ◌, sum_of, +ℤ-zero, +ℤ_assoc}
use mono256_sic_core.Base.Result.{ok, >>=-eq-ok, ok-injective}
use mono256_sic_core.Store.{AccountType}
use mono256_sic_core.Closing.Draft.{DraftLine}
use mono256_sic_core.Closing.Balances.{
  Balances, account_key, line_key, has_key, add_at, root_of_parent, type_of_root, with_virtual,
  apply_line, apply_lines,
}
use mono256_sic_core.Closing.Balances.Measure.{
  weigh, line_weight, is_chart_root, IsConsistent, LiesIn, sum_of-add_at,
}
use mono256_sic_core.Closing.Balances.Update.{
  add_at-IsConsistent, add_at-LiesIn, All-virtual-LiesIn, with_virtual-Extends, with_virtual-LiesIn,
  type_of_root-ok,
}

-- Every node under the key of the line lies in the colectiva of the line.
abbrev pub Fits : DraftLine → Balances → Type 0
Fits l = All (LiesIn (line_key l) l.parent_code)

-- What a line does to consistent balances.
pub record Applied (q : String → Bool) (l : DraftLine) (bs bs' : Balances) : Type 0 where
  pub consistent : IsConsistent bs'
  pub weight : sum_of (weigh q) bs' ≡ sum_of (weigh q) bs +ℤ line_weight q l
  pub fits : (m : DraftLine) → Fits m bs → Fits m bs'

apply_line-old :
    (q : String → Bool) (l : DraftLine) (bs : Balances)
    → IsConsistent bs
    → Fits l bs
    → exists (has_key (line_key l)) bs ≡ true
    → Applied q l bs (add_at (line_key l) l.type l.amount bs)
apply_line-old q l bs h f present = record {
  consistent = add_at-IsConsistent (line_key l) l.type l.amount bs h;
  weight = sum_of-add_at q (line_key l) l.parent_code l.type l.amount bs h.unique f present;
  fits = λ m. add_at-LiesIn (line_key m) m.parent_code (line_key l) l.type l.amount bs;
}

apply_line-new :
    (q : String → Bool) (l : DraftLine) (bs : Balances) (type : AccountType)
    → IsConsistent bs
    → is_chart_root (root_of_parent l.parent_code) ≡ true
    → Applied q l bs (
        add_at
          (account_key none l.parent_code l.account_name)
          l.type
          l.amount
          (with_virtual bs l.parent_code l.account_name type))
apply_line-new q l bs type h root =
    let k = account_key none l.parent_code l.account_name in
    let bs' = with_virtual bs l.parent_code l.account_name type in
    let more = with_virtual-Extends q bs l.parent_code l.account_name type h root in
    record {
      consistent = add_at-IsConsistent k l.type l.amount bs' more.consistent;
      weight =
          sum_of-add_at q k l.parent_code l.type l.amount bs' more.consistent.unique
            (All-virtual-LiesIn l.parent_code l.account_name bs' more.consistent.sound) more.present
          ∙ ap (λ x. x +ℤ line_weight q l) more.weight;
      fits = λ m f.
          add_at-LiesIn (line_key m) m.parent_code k l.type l.amount bs'
            (with_virtual-LiesIn m bs l.parent_code l.account_name type f);
    }

apply_line-Applied :
    (q : String → Bool) (l : DraftLine) (bs : Balances) {bs' : Balances}
    → IsConsistent bs
    → Fits l bs
    → apply_line bs l ≡ ok bs'
    → Applied q l bs bs'
unfolding apply_line
apply_line-Applied q l bs h f e = elim (Bool-cases (exists (has_key (line_key l)) bs)) [
  | inl old ↦ subst (Applied q l bs) (ok-injective (rw old at e)) (apply_line-old q l bs h f old)
  | inr new ↦
      let (type, typed, made) =
        >>=-eq-ok (type_of_root (root_of_parent l.parent_code)) _ (rw new at e) in
      subst (Applied q l bs) (ok-injective made)
        (apply_line-new q l bs type h (type_of_root-ok (root_of_parent l.parent_code) typed))
]

abbrev pub AllFit : List DraftLine → Balances → Type 0
AllFit ls bs = All (λ l. Fits l bs) ls

-- A list of lines that fit moves the net balance of the colectivas in `q` by its weight.
pub apply_lines-weight :
    (q : String → Bool) (ls : List DraftLine) (bs : Balances) {bs' : Balances}
    → IsConsistent bs
    → AllFit ls bs
    → apply_lines bs ls ≡ ok bs'
    → IsConsistent bs' × (sum_of (weigh q) bs' ≡ sum_of (weigh q) bs +ℤ sum_of (line_weight q) ls)
unfolding apply_lines sum_of
apply_lines-weight q [] bs h f e =
    let same = ok-injective e in (rw same at h, rw (← same) (sym (+ℤ-zero _)))
apply_lines-weight q (l ∷ ls) bs h f e =
    let (mid, one, rest) = >>=-eq-ok (apply_line bs l) (λ x. apply_lines x ls) e in
    let did = apply_line-Applied q l bs h f.0 one in
    let kept : AllFit ls mid = All-map (λ m. Fits m bs) _ ls did.fits f.1 in
    let (consistent, moved) = apply_lines-weight q ls mid did.consistent kept rest in
    (consistent, moved ∙ rw did.weight (+ℤ_assoc _ _ _))

-- What fits before the lines fits behind them.
pub apply_lines-Fits :
    (ls : List DraftLine) (bs : Balances) {bs' : Balances} (m : DraftLine)
    → IsConsistent bs
    → AllFit ls bs
    → apply_lines bs ls ≡ ok bs'
    → Fits m bs
    → Fits m bs'
unfolding apply_lines
apply_lines-Fits [] bs m h f e g = subst (Fits m) (ok-injective e) g
apply_lines-Fits (l ∷ ls) bs m h f e g =
    let (mid, one, rest) = >>=-eq-ok (apply_line bs l) (λ x. apply_lines x ls) e in
    let did = apply_line-Applied (λ p. true) l bs h f.0 one in
    apply_lines-Fits ls mid m did.consistent (All-map (λ x. Fits x bs) _ ls did.fits f.1) rest
      (did.fits m g)
