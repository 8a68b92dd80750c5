-- ===== src/Closing/Support.antt =====
-- The accounts that a closing may need and that a company may not have yet: apps/closing/support.py.
-- A new account is a child of its colectiva, under the first free two-digit code.
pub mod Fresh
use mono256_sic_core.Base.{
  ℕ, zero, suc, ◌+◌, Bool, true, false, ◌&&◌, Option, none, some, List, [], ◌∷◌, ◌++◌, map, String,
  ◌==◌, if◌then◌else◌, contains, exists, find, where_, concat, str_eq, codes_eq, normalize,
  two_digits, int_of_code,
}
use mono256_sic_core.Base.Result.{
  Result, ok, raise, Error, ◌>>=◌, ◌>>◌, or_raise, key_error, not_found, value_error, Reason,
}
use mono256_sic_core.Store.{Company, Account, CompanyAccount, Db}
use mono256_sic_core.Journal.{find_account}

abbrev pub is_child_of : ℕ → Account → Bool
is_child_of parent_id a = elim a.parent_id [ none ↦ false | some p ↦ p == parent_id ]

-- The numbers of the children's local codes.
unfoldable pub suffixes_of : List Account → List ℕ
suffixes_of [] = []
suffixes_of (a ∷ rest) = elim (int_of_code a.code) [
  | some n ↦ n ∷ suffixes_of rest
  | none ↦ suffixes_of rest
]

-- The first of `count` candidates from `candidate` on that is not taken.
unfoldable pub first_free : List ℕ → ℕ → ℕ → Option ℕ
first_free taken zero candidate = none
first_free taken (suc count) candidate =
    let rest = first_free taken count (candidate + 1) in
    if contains candidate taken then rest else some candidate

-- `_next_child_full_code`: its last segment, among 01 to 99.
unfoldable pub next_child_number : Db → Account → Option ℕ
unfolding suffixes_of first_free
next_child_number db parent =
    first_free (suffixes_of (where_ (is_child_of parent.id) db.accounts)) 99 1

-- `Account.objects.create(…)` below a parent, whose type and currencies it takes. The database
-- computes the full code and the level.
abbrev pub new_account : Db → Account → String → String → Account
new_account db parent code name = record {
  id = db.next_account_id;
  full_code = concat parent.full_code code;
  code = code;
  name = name;
  type = parent.type;
  parent_id = some parent.id;
  level = parent.level + 1;
  currencies = parent.currencies;
}

abbrev pub with_account : Db → Account → Db
with_account db a = record db {
  accounts = a ∷ db.accounts;
  next_account_id = db.next_account_id + 1;
}

abbrev pub has_full_code : String → Account → Bool
has_full_code code a = str_eq a.full_code code

-- A colectiva of the closing: its full code, the code of its root, its local code and its name.
pub record ParentSpec : Type 0 where
  pub full_code : String
  pub root_code : String
  pub local_code : String
  pub name : String

abbrev parent_spec : String → String → String → String → ParentSpec
parent_spec full_code root_code local_code name = record {
  full_code = full_code;
  root_code = root_code;
  local_code = local_code;
  name = name;
}

-- `GLOBAL_CLOSING_PARENT_SPECS`, in the order of the codes.
abbrev pub closing_parents : List ParentSpec
closing_parents =
    parent_spec "3.02" "3" ".02" "Resultado del Ejercicio"
    ∷ parent_spec "4.01" "4" ".01" "Costo de Mercaderías Vendidas"
    ∷ parent_spec "4.12" "4" ".12" "Faltante de Caja"
    ∷ parent_spec "4.13" "4" ".13" "Faltante de Mercaderías"
    ∷ parent_spec "5.06" "5" ".06" "Sobrante de Caja"
    ∷ parent_spec "5.07" "5" ".07" "Sobrante de Mercaderías"
    ∷ []

abbrev pub is_root_with : String → Account → Bool
is_root_with code a = str_eq a.code code && elim a.parent_id [ none ↦ true | some p ↦ false ]

-- The missing colectivas are created below their roots.
unfoldable pub ensure_parents : List ParentSpec → Db → Result Db
ensure_parents [] db = ok db
ensure_parents (s ∷ ss) db =
    if exists (has_full_code s.full_code) db.accounts then ensure_parents ss db else (do
      root ←
          or_raise (find (is_root_with s.root_code) db.accounts)
            (not_found Reason.root_account_missing)
      ensure_parents ss (with_account db (new_account db root s.local_code s.name)))

-- `COMPANY_CLOSING_MOVEMENT_SPECS`
abbrev pub closing_movements : List (String × String)
closing_movements =
    ("1.01", "Caja")
    ∷ ("1.09", "Mercaderías")
    ∷ ("3.02", "Resultado del Ejercicio")
    ∷ ("4.01", "Costo de Mercaderías Vendidas")
    ∷ ("4.12", "Faltante de Caja")
    ∷ ("4.13", "Faltante de Mercaderías")
    ∷ ("5.06", "Sobrante de Caja")
    ∷ ("5.07", "Sobrante de Mercaderías")
    ∷ []

-- A resolved support account: its colectiva, its name in the form that is compared, and its key.
pub record SupportAccount : Type 0 where
  pub parent_code : String
  pub name : List ℕ
  pub account_id : ℕ

abbrev pub is_owned_by : Db → ℕ → Account → Bool
is_owned_by db company_id a =
    exists (λ (ca : CompanyAccount). ca.company_id == company_id && ca.account_id == a.id)
      db.company_accounts

-- The company's account of that name below the colectiva. The source's query has no order: of several
-- such accounts the model takes the first of the table.
abbrev pub is_movement : Db → ℕ → String → String → Account → Bool
is_movement db company_id parent_code name a =
    (is_owned_by db company_id a && codes_eq (normalize a.name) (normalize name))
    && elim a.parent_id [
      | none ↦ false
      | some p ↦ elim (find_account p db.accounts) [
        | none ↦ false
        | some parent ↦ str_eq parent.full_code parent_code
      ]
    ]

abbrev pub with_company_account : Db → ℕ → Account → Db
with_company_account db company_id a = record db {
  accounts = a ∷ db.accounts;
  next_account_id = db.next_account_id + 1;
  company_accounts = record { account_id = a.id; company_id = company_id } ∷ db.company_accounts;
}

-- A new movement account of the company.
unfoldable pub create_movement : ℕ → String → String → Db → Result (ℕ × Bool × Db)
unfolding next_child_number
create_movement company_id parent_code name db = do
  parent ← or_raise (find (has_full_code parent_code) db.accounts) key_error
  number ← or_raise (next_child_number db parent) value_error
  let a = new_account db parent (concat "." (two_digits number)) name
  ok (a.id, true, with_company_account db company_id a)

abbrev pub existing_or : Option Account → Db → Result (ℕ × Bool × Db) → Result (ℕ × Bool × Db)
existing_or (some a) db created = ok (a.id, false, db)
existing_or none db created = created

-- One movement account: the existing one, or a new one; and whether it was created.
unfoldable pub ensure_movement : ℕ → String → String → Db → Result (ℕ × Bool × Db)
unfolding create_movement
ensure_movement company_id parent_code name db =
    existing_or (find (is_movement db company_id parent_code name) db.accounts) db
      (create_movement company_id parent_code name db)

unfoldable pub ensure_movements :
    ℕ → List (String × String) → Db → Result (List SupportAccount × Bool × Db)
unfolding ensure_movement
ensure_movements company_id [] db = ok ([], false, db)
ensure_movements company_id ((parent_code, name) ∷ specs) db = do
  (id, created, db₁) ← ensure_movement company_id parent_code name db
  (rest, created_more, db₂) ← ensure_movements company_id specs db₁
  ok (
    record { parent_code = parent_code; name = normalize name; account_id = id } ∷ rest,
    (if created then true else created_more),
    db₂,
  )

abbrev pub bump_chart : ℕ → Db → Db
bump_chart company_id db = record db { chart_bumps = company_id ∷ db.chart_bumps }

unfoldable pub ensure_company_closing_accounts : Db → ℕ → Result (List SupportAccount × Db)
unfolding ensure_parents ensure_movements
ensure_company_closing_accounts db company_id = do
  db₁ ← ensure_parents closing_parents db
  (accounts, created, db₂) ← ensure_movements company_id closing_movements db₁
  ok (accounts, (if created then bump_chart company_id db₂ else db₂))
