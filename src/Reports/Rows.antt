-- ===== src/Reports/Rows.antt =====
-- What the reports read: the entries of a company in a range of days, and their lines.
use mono256_sic_core.Base.{
  ℕ, Bool, true, false, ◌&&◌, Option, none, some, List, [], ◌∷◌, ◌≡◌, refl, sym, ◌∙◌, inl, inr,
  arith, ◌==◌, leb, where_, exists, All, Bool-cases,
}
use mono256_sic_core.Base.Int.{ℤ, sum_of}
use mono256_sic_core.Base.Sums.{IsKeyed, sum_of-keyed, sum_of-where_-same, sum_of-agree}
use mono256_sic_core.Store.{Account, JournalEntry, JournalEntryLine, Db}
use mono256_sic_core.Journal.{lines_of}
use mono256_sic_core.Journal.Invariant.{line_debit, line_credit, IsBalancedEntry}
use mono256_sic_core.Closing.Support.{is_owned_by}

abbrev pub starts_by : Option ℕ → ℕ → Bool
starts_by none date = true
starts_by (some from) date = leb from date

-- `company=…, date__gte=…, date__lte=…`, without a first day where there is none.
abbrev pub is_in_range : ℕ → Option ℕ → ℕ → JournalEntry → Bool
is_in_range company_id from to e =
    e.company_id == company_id && (leb e.date to && starts_by from e.date)

abbrev pub entries_in : Db → ℕ → Option ℕ → ℕ → List JournalEntry
entries_in db company_id from to = where_ (is_in_range company_id from to) db.entries

-- The lines of these entries, by the join on the entry.
abbrev pub lines_in : Db → ℕ → Option ℕ → ℕ → List JournalEntryLine
lines_in db company_id from to =
    where_ (λ l. exists (λ e. l.entry_id == e.id && is_in_range company_id from to e) db.entries)
      db.lines

-- The keys of the tables are different, and every line of a company's entry stands on an account of the
-- company.
pub record Complete (db : Db) : Type 0 where
  pub entry_keys : IsKeyed JournalEntry.id db.entries
  pub account_keys : IsKeyed Account.id db.accounts
  pub placed :
      (company_id : ℕ)
      → All
          (λ l.
            exists (λ e. l.entry_id == e.id && e.company_id == company_id) db.entries ≡ true
            → exists (λ a. l.account_id == a.id && is_owned_by db company_id a) db.accounts ≡ true)
          db.lines

pub exists-where_ {ℓ} :
    {A : Type ℓ} (p q : A → Bool) (xs : List A)
    → exists p (where_ q xs) ≡ exists (λ x. p x && q x) xs
exists-where_ p q [] = refl
exists-where_ p q (x ∷ xs) = ground (arith, exists-where_ p q xs)

pub exists_weaker {ℓ} :
    {A : Type ℓ} (p q : A → Bool) (xs : List A)
    → exists p xs ≡ false
    → exists (λ x. p x && q x) xs ≡ false
exists_weaker p q [] h = refl
exists_weaker p q (x ∷ xs) h = ground (arith, exists_weaker p q xs, h)

pub IsKeyed-where_ {ℓ} :
    {A : Type ℓ} (id : A → ℕ) (p : A → Bool) (xs : List A)
    → IsKeyed id xs
    → IsKeyed id (where_ p xs)
IsKeyed-where_ id p [] keyed = tt
IsKeyed-where_ id p (x ∷ xs) (fresh, keyed) =
    let rest = IsKeyed-where_ id p xs keyed in
    elim (Bool-cases (p x)) [
      | inl keep ↦ rw keep (
        exists-where_ (λ y. id x == id y) p xs ∙ exists_weaker (λ y. id x == id y) p xs fresh,
        rest,
      )
      | inr drop ↦ rw drop rest
    ]

pub All-kept {ℓ κ} :
    {A : Type ℓ} (P : A → Type κ) (p : A → Bool) (xs : List A)
    → All P xs
    → All (λ x. P x × (p x ≡ true)) (where_ p xs)
All-kept P p [] h = tt
All-kept P p (x ∷ xs) (h, hs) = elim (Bool-cases (p x)) [
  | inl keep ↦ rw keep ((h, keep), All-kept P p xs hs)
  | inr drop ↦ rw drop (All-kept P p xs hs)
]

-- Entry by entry, the lines of the entries that a query keeps add up to the lines of the join.
pub sum_of-join :
    (g : JournalEntryLine → ℤ) (q : JournalEntry → Bool) (entries : List JournalEntry)
    (rows : List JournalEntryLine)
    → IsKeyed JournalEntry.id entries
    → sum_of (λ e. sum_of g (lines_of e.id rows)) (where_ q entries)
      ≡ sum_of g (where_ (λ l. exists (λ e. l.entry_id == e.id && q e) entries) rows)
sum_of-join g q entries rows keyed =
    sum_of-keyed g JournalEntry.id JournalEntryLine.entry_id (where_ q entries) rows
      (IsKeyed-where_ JournalEntry.id q entries keyed)
    ∙ sum_of-where_-same g _ _ rows (same_rows rows)
  where
    same_rows :
        (ls : List JournalEntryLine)
        → All
            (λ l.
              exists (λ e. l.entry_id == e.id) (where_ q entries)
              ≡ exists (λ e. l.entry_id == e.id && q e) entries)
            ls
    same_rows [] = tt
    same_rows (l ∷ ls) = (exists-where_ (λ e. l.entry_id == e.id) q entries, same_rows ls)

pub sum_of-lines_in :
    (db : Db) (company_id : ℕ) (from : Option ℕ) (to : ℕ) (g : JournalEntryLine → ℤ)
    → IsKeyed JournalEntry.id db.entries
    → sum_of (λ e. sum_of g (lines_of e.id db.lines)) (entries_in db company_id from to)
      ≡ sum_of g (lines_in db company_id from to)
sum_of-lines_in db company_id from to g keyed =
    sum_of-join g (is_in_range company_id from to) db.entries db.lines keyed

-- In a journal of balanced entries the debits of a range are its credits.
pub lines_in-balanced :
    (db : Db) (company_id : ℕ) (from : Option ℕ) (to : ℕ)
    → IsKeyed JournalEntry.id db.entries
    → All (IsBalancedEntry db.lines) db.entries
    → sum_of line_debit (lines_in db company_id from to)
      ≡ sum_of line_credit (lines_in db company_id from to)
lines_in-balanced db company_id from to keyed balanced =
    sym (sum_of-lines_in db company_id from to line_debit keyed)
    ∙ (sum_of-agree (λ e. sum_of line_debit (lines_of e.id db.lines))
          (λ e. sum_of line_credit (lines_of e.id db.lines)) (is_in_range company_id from to)
          db.entries balanced
        ∙ sum_of-lines_in db company_id from to line_credit keyed)
