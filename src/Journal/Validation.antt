-- ===== src/Journal/Validation.antt =====
-- What `_validate_lines` accepts.
use mono256_sic_core.Base.{
  Bool, true, false, not, ◌||◌, some, List, [], ◌∷◌, ◌≡◌, refl, sym, ◌∙◌, ◌↔◌, inl, inr, arith, All,
  exists, Option-cases,
}
use mono256_sic_core.Base.Int.{
  ℤ, pos, ◌+ℤ◌, ◌<ℤ◌, eq_ℤ→eq, eq_ℤ_refl, sum_of, int_laws, +ℤ_assoc, zero-+ℤ, +ℤ-zero,
}
use mono256_sic_core.Base.Result.{ok, raise_if, >>=-eq-ok}
use mono256_sic_core.Store.{Company, Account, LineType, Db, is_debit, debit_part, credit_part}
use mono256_sic_core.Journal.{
  JournalLineInput, find_account, is_leaf_node, owns_account, Totals, no_totals, add_side,
  check_line, check_totals, check_lines, is_missing, is_empty, validate_lines,
}

-- A line that may be posted for the company.
pub record IsPostable (db : Db) (c : Company) (line : JournalLineInput) : Type 0 where
  pub positive : pos 0 <ℤ line.amount
  pub account : Account
  pub found : find_account line.account_id db.accounts ≡ some account
  pub movement : account.level ≡ 2
  pub leaf : is_leaf_node db.accounts account ≡ true
  pub owned : exists (owns_account c.id line.account_id) db.company_accounts ≡ true

abbrev pub debit_of : JournalLineInput → ℤ
debit_of line = debit_part line.type line.amount

abbrev pub credit_of : JournalLineInput → ℤ
credit_of line = credit_part line.type line.amount

abbrev pub is_debit_line : JournalLineInput → Bool
is_debit_line line = is_debit line.type

abbrev pub is_credit_line : JournalLineInput → Bool
is_credit_line line = not (is_debit line.type)

pub record IsBalancedPosting (db : Db) (c : Company) (lines : List JournalLineInput) : Type 0 where
  pub postable : All (IsPostable db c) lines
  pub debited : exists is_debit_line lines ≡ true
  pub credited : exists is_credit_line lines ≡ true
  pub balanced : sum_of debit_of lines ≡ sum_of credit_of lines

check_line_sound :
    (db : Db) (c : Company) (line : JournalLineInput)
    → check_line db c line ≡ ok tt
    → IsPostable db c line
unfolding check_line
check_line_sound db c line h = elim (Option-cases (find_account line.account_id db.accounts)) [
  | inl missing ↦ ground arith
  | inr (a, e) ↦ record {
    positive = ground arith;
    account = a;
    found = e;
    movement = ground arith;
    leaf = ground arith;
    owned = ground arith;
  }
]

check_line_complete :
    (db : Db) (c : Company) (line : JournalLineInput)
    → IsPostable db c line
    → check_line db c line ≡ ok tt
unfolding check_line
check_line_complete db c line p = ground (arith, p.positive, p.found, p.movement, p.leaf, p.owned)

-- The totals at which the loop arrives from `t`.
abbrev added : List JournalLineInput → Totals → Totals
added [] t = t
added (line ∷ lines) t = added lines (add_side line.type line.amount t)

check_lines_sound :
    (db : Db) (c : Company) (lines : List JournalLineInput) (t u : Totals)
    → check_lines db c lines t ≡ ok u
    → All (IsPostable db c) lines × (u ≡ added lines t)
unfolding check_lines
check_lines_sound db c [] t u h = (tt, ground arith)
check_lines_sound db c (line ∷ lines) t u h =
    let (_, checked, rest) =
      >>=-eq-ok (check_line db c line)
        (λ _. check_lines db c lines (add_side line.type line.amount t)) h in
    let (all, e) = check_lines_sound db c lines (add_side line.type line.amount t) u rest in
    ((check_line_sound db c line checked, all), e)

check_lines_complete :
    (db : Db) (c : Company) (lines : List JournalLineInput) (t : Totals)
    → All (IsPostable db c) lines
    → check_lines db c lines t ≡ ok (added lines t)
unfolding check_lines
check_lines_complete db c [] t h = refl
check_lines_complete db c (line ∷ lines) t h =
    rw (check_line_complete db c line h.0)
      (check_lines_complete db c lines (add_side line.type line.amount t) h.1)

add_side_totals :
    (s : LineType) (amount : ℤ) (t : Totals)
    → ((add_side s amount t).debit_total ≡ t.debit_total +ℤ debit_part s amount)
      × ((add_side s amount t).credit_total ≡ t.credit_total +ℤ credit_part s amount)
      × ((add_side s amount t).has_debit ≡ (t.has_debit || is_debit s))
      × ((add_side s amount t).has_credit ≡ (t.has_credit || not (is_debit s)))
add_side_totals LineType.debit amount t =
    (refl, sym (+ℤ-zero t.credit_total), ground arith, ground arith)
add_side_totals LineType.credit amount t =
    (sym (+ℤ-zero t.debit_total), refl, ground arith, ground arith)

added_totals :
    (lines : List JournalLineInput) (t : Totals)
    → ((added lines t).debit_total ≡ t.debit_total +ℤ sum_of debit_of lines)
      × ((added lines t).credit_total ≡ t.credit_total +ℤ sum_of credit_of lines)
      × ((added lines t).has_debit ≡ (t.has_debit || exists is_debit_line lines))
      × ((added lines t).has_credit ≡ (t.has_credit || exists is_credit_line lines))
unfolding sum_of
added_totals [] t = (omega int_laws, omega int_laws, ground arith, ground arith)
added_totals (line ∷ lines) t =
    let (d, c, hd, hc) = add_side_totals line.type line.amount t in
    let (ds, cs, hds, hcs) = added_totals lines (add_side line.type line.amount t) in
    (
      rw (ds, d) (+ℤ_assoc t.debit_total _ _),
      rw (cs, c) (+ℤ_assoc t.credit_total _ _),
      ground (arith, hd, hds),
      ground (arith, hc, hcs),
    )

-- The totals at the end of the loop, which starts from zero.
no_totals-added :
    (lines : List JournalLineInput)
    → ((added lines no_totals).debit_total ≡ sum_of debit_of lines)
      × ((added lines no_totals).credit_total ≡ sum_of credit_of lines)
      × ((added lines no_totals).has_debit ≡ exists is_debit_line lines)
      × ((added lines no_totals).has_credit ≡ exists is_credit_line lines)
no_totals-added lines =
    let (d, c, hd, hc) = added_totals lines no_totals in (d ∙ zero-+ℤ _, c ∙ zero-+ℤ _, hd, hc)

check_totals_sound :
    (t : Totals)
    → check_totals t ≡ ok tt
    → (t.has_debit ≡ true) × (t.has_credit ≡ true) × (t.debit_total ≡ t.credit_total)
unfolding check_totals
check_totals_sound t h = ground (arith, eq_ℤ→eq t.debit_total t.credit_total)

check_totals_complete :
    (t : Totals)
    → t.has_debit ≡ true
    → t.has_credit ≡ true
    → t.debit_total ≡ t.credit_total
    → check_totals t ≡ ok tt
unfolding check_totals
check_totals_complete t d c e = rw (d, c, e) (ground (arith, eq_ℤ_refl t.credit_total))

pub validate_lines_sound :
    (db : Db) (c : Company) (lines : List JournalLineInput)
    → validate_lines db c lines ≡ ok tt
    → IsBalancedPosting db c lines
unfolding validate_lines
validate_lines_sound db c lines h =
    let (_, _, h₁) = >>=-eq-ok (raise_if (is_empty lines) _) _ h in
    let (_, _, h₂) = >>=-eq-ok (raise_if (exists (is_missing db) lines) _) _ h₁ in
    let (t, checked, settled) = >>=-eq-ok (check_lines db c lines no_totals) check_totals h₂ in
    let (all, e) = check_lines_sound db c lines no_totals t checked in
    let (d, cr, hd, hc) = no_totals-added lines in
    let (td, tc, te) = check_totals_sound t settled in
    record { postable = all; debited = cc; credited = cc; balanced = cc }

not-missing :
    (db : Db) (c : Company) (lines : List JournalLineInput)
    → All (IsPostable db c) lines
    → exists (is_missing db) lines ≡ false
not-missing db c [] h = refl
not-missing db c (line ∷ lines) h = ground (arith, h.0.found, not-missing db c lines h.1)

pub validate_lines_complete :
    (db : Db) (c : Company) (lines : List JournalLineInput)
    → IsBalancedPosting db c lines
    → validate_lines db c lines ≡ ok tt
unfolding validate_lines
validate_lines_complete db c [] p = cc (p.debited)
validate_lines_complete db c (line ∷ lines) p =
    let all = line ∷ lines in
    let (d, cr, hd, hc) = no_totals-added all in
    rw (not-missing db c all p.postable, check_lines_complete db c all no_totals p.postable)
      (check_totals_complete (added all no_totals) (hd ∙ p.debited) (hc ∙ p.credited)
        (d ∙ p.balanced ∙ sym cr))

-- `_validate_lines` accepts a list of lines exactly if every line has a positive amount on a leaf
-- account of level 2 that the company owns, both sides occur, and debits equal credits.
pub validate_lines_iff :
    (db : Db) (c : Company) (lines : List JournalLineInput)
    → (validate_lines db c lines ≡ ok tt) ↔ IsBalancedPosting db c lines
validate_lines_iff db c lines =
    (validate_lines_sound db c lines, validate_lines_complete db c lines)
