-- ===== src/Closing/Execute/Tables.antt =====
-- The support accounts (apps/closing/support.py) and the tables of the journal.
use mono256_sic_core.Base.{
  ℕ, Bool, true, false, Option, none, some, List, [], ◌∷◌, String, ◌≡◌, refl, ◌∙◌, subst, inl, inr,
  if◌then◌else◌, exists, find, Bool-cases, concat, two_digits,
}
use mono256_sic_core.Base.Result.{
  ok, or_raise, key_error, value_error, not_found, Reason, >>=-eq-ok, ok-injective,
}
use mono256_sic_core.Store.{Account, Db}
use mono256_sic_core.Journal.Invariant.{WellFormed}
use mono256_sic_core.Closing.Support.{
  ParentSpec, SupportAccount, has_full_code, is_root_with, with_account, new_account,
  ensure_parents, ensure_movement, create_movement, existing_or, ensure_movements, is_movement,
  next_child_number, ensure_company_closing_accounts, closing_parents, closing_movements,
  with_company_account, bump_chart,
}

-- The tables of the journal are the same.
pub record SameJournal (db db' : Db) : Type 0 where
  pub entries : db'.entries ≡ db.entries
  pub lines : db'.lines ≡ db.lines
  pub legs : db'.legs ≡ db.legs
  pub next_entry : db'.next_entry_id ≡ db.next_entry_id
  pub next_transaction : db'.next_transaction_id ≡ db.next_transaction_id

same_journal : {db : Db} → SameJournal db db
same_journal = record {
  entries = refl;
  lines = refl;
  legs = refl;
  next_entry = refl;
  next_transaction = refl;
}

SameJournal-account : (db : Db) (a : Account) → SameJournal db (with_account db a)
SameJournal-account db a = record {
  entries = refl;
  lines = refl;
  legs = refl;
  next_entry = refl;
  next_transaction = refl;
}

SameJournal-owned :
    (db : Db) (company_id : ℕ) (a : Account) → SameJournal db (with_company_account db company_id a)
SameJournal-owned db company_id a = record {
  entries = refl;
  lines = refl;
  legs = refl;
  next_entry = refl;
  next_transaction = refl;
}

SameJournal-chart : (db : Db) (company_id : ℕ) → SameJournal db (bump_chart company_id db)
SameJournal-chart db company_id = record {
  entries = refl;
  lines = refl;
  legs = refl;
  next_entry = refl;
  next_transaction = refl;
}

SameJournal-trans : {a b c : Db} → SameJournal a b → SameJournal b c → SameJournal a c
SameJournal-trans h k = record {
  entries = k.entries ∙ h.entries;
  lines = k.lines ∙ h.lines;
  legs = k.legs ∙ h.legs;
  next_entry = k.next_entry ∙ h.next_entry;
  next_transaction = k.next_transaction ∙ h.next_transaction;
}

pub SameJournal-WellFormed : {db db' : Db} → SameJournal db db' → WellFormed db → WellFormed db'
SameJournal-WellFormed h wf = record {
  old_entries = rw (h.entries, h.next_entry, h.next_transaction) wf.old_entries;
  old_lines = rw (h.lines, h.next_entry) wf.old_lines;
  old_legs = rw (h.legs, h.next_transaction) wf.old_legs;
  numbered = rw h.entries wf.numbered;
  opens_first = rw h.entries wf.opens_first;
  reverses_once = rw h.entries wf.reverses_once;
  balanced = rw (h.entries, h.lines) wf.balanced;
  mirrored = rw (h.entries, h.lines, h.legs) wf.mirrored;
}

ensure_parents-SameJournal :
    (specs : List ParentSpec) (db : Db) {db' : Db}
    → ensure_parents specs db ≡ ok db'
    → SameJournal db db'
unfolding ensure_parents
ensure_parents-SameJournal [] db h = subst (SameJournal db) (ok-injective h) same_journal
ensure_parents-SameJournal (s ∷ ss) db h =
    elim (Bool-cases (exists (has_full_code s.full_code) db.accounts)) [
      | inl old ↦ ensure_parents-SameJournal ss db (rw old at h)
      | inr new ↦
          let (root, _, rest) =
            >>=-eq-ok
              (or_raise (find (is_root_with s.root_code) db.accounts)
                (not_found Reason.root_account_missing))
              (λ root.
                ensure_parents ss (with_account db (new_account db root s.local_code s.name)))
              (rw new at h) in
          let more = new_account db root s.local_code s.name in
          SameJournal-trans (SameJournal-account db more)
            (ensure_parents-SameJournal ss (with_account db more) rest)
    ]

create_movement-SameJournal :
    (company_id : ℕ) (parent_code name : String) (db : Db) {r : ℕ × Bool × Db}
    → create_movement company_id parent_code name db ≡ ok r
    → SameJournal db r.2
unfolding create_movement
create_movement-SameJournal company_id parent_code name db h =
    let (parent, _, h₁) =
      >>=-eq-ok (or_raise (find (has_full_code parent_code) db.accounts) key_error) _ h in
    let (number, _, made) = >>=-eq-ok (or_raise (next_child_number db parent) value_error) _ h₁ in
    subst (λ (r : ℕ × Bool × Db). SameJournal db r.2) (ok-injective made)
      (SameJournal-owned db company_id
        (new_account db parent (concat "." (two_digits number)) name))

ensure_movement-SameJournal :
    (company_id : ℕ) (parent_code name : String) (db : Db) {r : ℕ × Bool × Db}
    → ensure_movement company_id parent_code name db ≡ ok r
    → SameJournal db r.2
unfolding ensure_movement
ensure_movement-SameJournal company_id parent_code name db =
    chosen (find (is_movement db company_id parent_code name) db.accounts)
  where
    chosen :
        (o : Option Account) {r : ℕ × Bool × Db}
        → existing_or o db (create_movement company_id parent_code name db) ≡ ok r
        → SameJournal db r.2
    chosen none h = create_movement-SameJournal company_id parent_code name db h
    chosen (some a) h =
        subst (λ (r : ℕ × Bool × Db). SameJournal db r.2) (ok-injective h) same_journal

ensure_movements-SameJournal :
    (company_id : ℕ) (specs : List (String × String)) (db : Db)
    {r : List SupportAccount × Bool × Db}
    → ensure_movements company_id specs db ≡ ok r
    → SameJournal db r.2
unfolding ensure_movements
ensure_movements-SameJournal company_id [] db h =
    subst (λ (r : List SupportAccount × Bool × Db). SameJournal db r.2) (ok-injective h)
      same_journal
ensure_movements-SameJournal company_id ((parent_code, name) ∷ specs) db h =
    let (one, ran, h₁) = >>=-eq-ok (ensure_movement company_id parent_code name db) _ h in
    let (more, ran', made) = >>=-eq-ok (ensure_movements company_id specs one.2) _ h₁ in
    subst (λ (r : List SupportAccount × Bool × Db). SameJournal db r.2) (ok-injective made)
      (SameJournal-trans (ensure_movement-SameJournal company_id parent_code name db ran)
        (ensure_movements-SameJournal company_id specs one.2 ran'))

SameJournal-bump :
    (b : Bool) (company_id : ℕ) {db db' : Db}
    → SameJournal db db'
    → SameJournal db (if b then bump_chart company_id db' else db')
SameJournal-bump true company_id {db} {db'} h =
    SameJournal-trans h (SameJournal-chart db' company_id)
SameJournal-bump false company_id h = h

-- The support accounts leave the journal as it is.
pub ensure-SameJournal :
    (db : Db) (company_id : ℕ) {r : List SupportAccount × Db}
    → ensure_company_closing_accounts db company_id ≡ ok r
    → SameJournal db r.1
unfolding ensure_company_closing_accounts
ensure-SameJournal db company_id h =
    let (db₁, parents, h₁) = >>=-eq-ok (ensure_parents closing_parents db) _ h in
    let (moved, movements, made) =
      >>=-eq-ok (ensure_movements company_id closing_movements db₁) _ h₁ in
    subst (λ (r : List SupportAccount × Db). SameJournal db r.1) (ok-injective made)
      (SameJournal-bump moved.1 company_id (
        SameJournal-trans (ensure_parents-SameJournal closing_parents db parents)
          (ensure_movements-SameJournal company_id closing_movements db₁ movements)))
