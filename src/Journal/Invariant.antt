-- ===== src/Journal/Invariant.antt =====
-- What holds of the tables of the journal between two calls of the services.
use mono256_sic_core.Base.{
  ℕ, ◌+◌, ◌<◌, Bool, false, not, Option, none, some, List, [], ◌∷◌, ◌≡◌, ◌==◌, if◌then◌else◌, All,
  exists, where_,
}
use mono256_sic_core.Base.Int.{ℤ, sum_of}
use mono256_sic_core.Store.{
  JournalEntry, JournalEntryLine, Leg, Db, is_opening, is_debit, debit_part, credit_part,
}
use mono256_sic_core.Journal.{of_company, lines_of, same_reversal}

abbrev pub line_debit : JournalEntryLine → ℤ
line_debit l = debit_part l.type l.amount

abbrev pub line_credit : JournalEntryLine → ℤ
line_credit l = credit_part l.type l.amount

abbrev pub has_entry : ℕ → JournalEntryLine → Bool
has_entry entry_id l = l.entry_id == entry_id

-- How many entries a company has.
unfoldable pub count_of : ℕ → List JournalEntry → ℕ
count_of company_id [] = 0
count_of company_id (e ∷ es) =
    if e.company_id == company_id then count_of company_id es + 1 else count_of company_id es

-- The entries of each company carry the numbers 1, 2, 3, … in the order of posting, with no gap.
abbrev pub IsNumbered : List JournalEntry → Type 0
IsNumbered [] = Unit
IsNumbered (e ∷ es) = (e.entry_number ≡ count_of e.company_id es + 1) × IsNumbered es

-- An entry is an opening exactly if it is the first of its company.
abbrev pub OpensFirst : List JournalEntry → Type 0
OpensFirst [] = Unit
OpensFirst (e ∷ es) =
    (is_opening e.source_type ≡ not (exists (of_company e.company_id) es)) × OpensFirst es

abbrev pub IsFirstReversal : Option ℕ → List JournalEntry → Type 0
IsFirstReversal o es = exists (same_reversal o) es ≡ false

-- No entry is reversed twice.
abbrev pub ReversesOnce : List JournalEntry → Type 0
ReversesOnce [] = Unit
ReversesOnce (e ∷ es) = IsFirstReversal e.reversal_of es × ReversesOnce es

-- The lines of the entry have equal debits and credits.
abbrev pub IsBalancedEntry : List JournalEntryLine → JournalEntry → Type 0
IsBalancedEntry lines e =
    sum_of line_debit (lines_of e.id lines) ≡ sum_of line_credit (lines_of e.id lines)

abbrev pub legs_of : ℕ → List Leg → List Leg
legs_of transaction_id = where_ (λ l. l.transaction_id == transaction_id)

-- A leg has the account of its line, and its amount on the same side.
abbrev pub IsMirror : List Leg → List JournalEntryLine → Type 0
IsMirror [] [] = Unit
IsMirror (g ∷ gs) (l ∷ ls) =
    (g.account_id ≡ l.account_id)
    × (g.debit ≡ (if is_debit l.type then some l.amount else none))
    × (g.credit ≡ (if is_debit l.type then none else some l.amount))
    × IsMirror gs ls
IsMirror [] (l ∷ ls) = ⊥
IsMirror (g ∷ gs) [] = ⊥

abbrev pub IsMirrored : List Leg → List JournalEntryLine → JournalEntry → Type 0
IsMirrored legs lines e = IsMirror (legs_of e.transaction_id legs) (lines_of e.id lines)

abbrev pub IsOld : Db → JournalEntry → Type 0
IsOld db e = (e.id < db.next_entry_id) × (e.transaction_id < db.next_transaction_id)

pub record WellFormed (db : Db) : Type 0 where
  pub old_entries : All (IsOld db) db.entries
  pub old_lines : All (λ l. l.entry_id < db.next_entry_id) db.lines
  pub old_legs : All (λ l. l.transaction_id < db.next_transaction_id) db.legs
  pub numbered : IsNumbered db.entries
  pub opens_first : OpensFirst db.entries
  pub reverses_once : ReversesOnce db.entries
  pub balanced : All (IsBalancedEntry db.lines) db.entries
  pub mirrored : All (IsMirrored db.legs db.lines) db.entries
