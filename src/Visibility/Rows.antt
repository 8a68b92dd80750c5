-- ===== src/Visibility/Rows.antt =====
-- The rows of overrides behind a write.
use mono256_sic_core.Base.{
  ℕ, Bool, true, false, not, ◌&&◌, ◌||◌, List, [], ◌∷◌, map, ◌≡◌, refl, sym, arith, ◌∙◌, ◌==◌,
  Bool-cases, inl, inr, if◌then◌else◌, exists, contains, or-false, ==_refl, ==→eq,
}
use mono256_sic_core.Visibility.{
  TeacherAccountVisibility, hides, hidden_ids, is_override, set_override,
}

abbrev written : ℕ → ℕ → Bool → TeacherAccountVisibility → TeacherAccountVisibility
written t a v row = if is_override t a row then record row { is_visible = v } else row

-- Whether the teacher hides the account.
abbrev hidden_in : ℕ → ℕ → List TeacherAccountVisibility → Bool
hidden_in t x rows = contains x (hidden_ids rows t)

-- One row of the table.
abbrev hides_account : ℕ → ℕ → TeacherAccountVisibility → Bool
hides_account t x row = (row.teacher_id == t && not row.is_visible) && x == row.account_id

hidden_in_cons :
    (t x : ℕ) (row : TeacherAccountVisibility) (rows : List TeacherAccountVisibility)
    → hidden_in t x (row ∷ rows) ≡ (hides_account t x row || hidden_in t x rows)
unfolding hidden_ids
hidden_in_cons t x row rows = elim (Bool-cases (hides t row)) [
  | inl e ↦ rw e refl
  | inr e ↦ rw e refl
]

hides_account-written :
    (t a x : ℕ) (v : Bool) (row : TeacherAccountVisibility)
    → hides_account t x (written t a v row)
      ≡ (if x == a then is_override t a row && not v else hides_account t x row)
hides_account-written t a x v row = elim (Bool-cases (row.teacher_id == t)) [
  | inl e ↦ elim (Bool-cases (row.account_id == a)) [ inl f ↦ ground arith | inr f ↦ ground arith ]
  | inr e ↦ ground arith
]

join_or :
    (c o e n h k : Bool)
    → ((if c then o && n else h) || (if c then e && n else k))
      ≡ (if c then (o || e) && n else (h || k))
join_or true true e true h k = refl
join_or true true true false h k = refl
join_or true true false false h k = refl
join_or true false e n h k = refl
join_or false o e n h k = refl

hidden_in-map :
    (t a x : ℕ) (v : Bool) (rows : List TeacherAccountVisibility)
    → hidden_in t x (map (written t a v) rows)
      ≡ (if x == a then exists (is_override t a) rows && not v else hidden_in t x rows)
unfolding hidden_ids
hidden_in-map t a x v [] = elim (Bool-cases (x == a)) [ inl e ↦ rw e refl | inr e ↦ rw e refl ]
hidden_in-map t a x v (row ∷ rows) =
    hidden_in_cons t x (written t a v row) (map (written t a v) rows)
    ∙ rw
        (hides_account-written t a x v row, hidden_in-map t a x v rows, hidden_in_cons t x row rows)
        (join_or (x == a) (is_override t a row) (exists (is_override t a) rows) (not v)
          (hides_account t x row) (hidden_in t x rows))

not_hidden :
    (t a : ℕ) (row : TeacherAccountVisibility)
    → is_override t a row ≡ false
    → hides_account t a row ≡ false
not_hidden t a row h = ground arith

hidden_in_absent :
    (t a : ℕ) (rows : List TeacherAccountVisibility)
    → exists (is_override t a) rows ≡ false
    → hidden_in t a rows ≡ false
unfolding hidden_ids
hidden_in_absent t a [] h = refl
hidden_in_absent t a (row ∷ rows) h =
    let (first, others) = or-false (is_override t a row) (exists (is_override t a) rows) h in
    hidden_in_cons t a row rows
    ∙ rw (not_hidden t a row first, hidden_in_absent t a rows others) refl

and-true_or : (b : Bool) → ((b && true) || false) ≡ b
and-true_or true = refl
and-true_or false = refl

and-false : (b : Bool) → (b && false) ≡ false
and-false true = refl
and-false false = refl

new_row_lem :
    (t a x : ℕ) (v : Bool) (rest : Bool)
    → (x ≡ a → rest ≡ false)
    → (((t == t) && not v) && x == a || rest) ≡ (if x == a then not v else rest)
new_row_lem t a x v rest absent = elim (Bool-cases (x == a)) [
  | inl e ↦ rw (==_refl t, e, absent (==→eq x a e)) (and-true_or (not v))
  | inr e ↦ rw (e, and-false (t == t && not v)) refl
]

-- Behind a write, the teacher hides an account as the write says for the account it names, and as before
-- for the others.
pub hidden_ids-set_override :
    (rows : List TeacherAccountVisibility) (t a x : ℕ) (v : Bool)
    → contains x (hidden_ids (set_override rows t a v) t)
      ≡ (if x == a then not v else contains x (hidden_ids rows t))
unfolding set_override
hidden_ids-set_override rows t a x v = elim (Bool-cases (exists (is_override t a) rows)) [
  | inl e ↦ rw (e, hidden_in-map t a x v rows, e) refl
  | inr e ↦
      rw (e, hidden_in_cons t x (record { teacher_id = t; account_id = a; is_visible = v }) rows)
        (new_row_lem t a x v (hidden_in t x rows) (λ same. rw same (hidden_in_absent t a rows e)))
]

hidden_ids_cons :
    (u : ℕ) (row : TeacherAccountVisibility) (rows : List TeacherAccountVisibility)
    → hidden_ids (row ∷ rows) u
      ≡ (if hides u row then row.account_id ∷ hidden_ids rows u else hidden_ids rows u)
unfolding hidden_ids
hidden_ids_cons u row rows = elim (Bool-cases (hides u row)) [
  | inl e ↦ rw e refl
  | inr e ↦ rw e refl
]

hides-written :
    (t a u : ℕ) (v : Bool) (row : TeacherAccountVisibility)
    → (u == t) ≡ false
    → hides u (written t a v row) ≡ hides u row
hides-written t a u v row h = elim (Bool-cases (row.teacher_id == t)) [
  | inl e ↦ ground arith
  | inr e ↦ rw e refl
]

account_id-written :
    (t a : ℕ) (v : Bool) (row : TeacherAccountVisibility)
    → (written t a v row).account_id ≡ row.account_id
account_id-written t a v row = elim (Bool-cases (is_override t a row)) [
  | inl e ↦ rw e refl
  | inr e ↦ rw e refl
]

hidden_ids-map_other :
    (t a u : ℕ) (v : Bool) (rows : List TeacherAccountVisibility)
    → (u == t) ≡ false
    → hidden_ids (map (written t a v) rows) u ≡ hidden_ids rows u
unfolding hidden_ids
hidden_ids-map_other t a u v [] h = refl
hidden_ids-map_other t a u v (row ∷ rows) h =
    hidden_ids_cons u (written t a v row) (map (written t a v) rows)
    ∙ (rw
          (
            hides-written t a u v row h,
            account_id-written t a v row,
            hidden_ids-map_other t a u v rows h,
          )
          refl
        ∙ sym (hidden_ids_cons u row rows))

-- The accounts that another teacher hides stay the same.
pub hidden_ids-set_override_other :
    (rows : List TeacherAccountVisibility) (t a u : ℕ) (v : Bool)
    → (u == t) ≡ false
    → hidden_ids (set_override rows t a v) u ≡ hidden_ids rows u
unfolding set_override hidden_ids
hidden_ids-set_override_other rows t a u v h = elim (Bool-cases (exists (is_override t a) rows)) [
  | inl e ↦ rw e (hidden_ids-map_other t a u v rows h)
  | inr e ↦ rw (e, ==_swapped) refl
]
  where
    ==_swapped : (t == u) ≡ false
    ==_swapped = ground arith
