-- ===== src/Companies.antt =====
-- Who may write a company, and when it is ready for accounting: the guards of
-- apps/companies/services.py, apps/companies/opening.py and apps/closing/services.py that the other
-- services call first.
use mono256_sic_core.Base.{
  ℕ, Bool, true, false, not, ◌&&◌, Option, none, some, ◌==◌, if◌then◌else◌, exists,
}
use mono256_sic_core.Base.Result.{
  Result, ok, raise, Reason, ◌>>◌, raise_if, conflict_error, permission_denied,
}
use mono256_sic_core.Store.{Role, User, Company, JournalEntry, Db, is_opening, is_admin}

unfoldable pub assert_company_writable : Company → Result (Unit {0})
assert_company_writable c = raise_if c.is_read_only (conflict_error Reason.demo_read_only)

abbrev may_write_as : Role → ℕ → Company → Bool
may_write_as Role.admin id c = true
may_write_as Role.teacher id c = true
may_write_as Role.student id c = c.owner_id == id

-- `none` is the actor `None`, a call of the system itself.
unfoldable pub viewer_can_write_company : Option User → Company → Bool
viewer_can_write_company none c = if c.is_read_only then false else true
viewer_can_write_company (some u) c = if c.is_read_only then false else may_write_as u.role u.id c

unfoldable pub assert_actor_can_write_company : Option User → Company → Result (Unit {0})
unfolding assert_company_writable viewer_can_write_company
assert_actor_can_write_company actor c = do
  assert_company_writable c
  raise_if (not (viewer_can_write_company actor c)) (conflict_error Reason.company_read_only)

abbrev pub is_opening_of : ℕ → JournalEntry → Bool
is_opening_of company_id e = e.company_id == company_id && is_opening e.source_type

-- The annotation answers if the object has it, whatever the table says by now.
unfoldable pub company_has_opening_entry : Db → Company → Bool
company_has_opening_entry db c = elim c.has_opening_entry [
  | some known ↦ known
  | none ↦ exists (is_opening_of c.id) db.entries
]

unfoldable pub assert_company_accounting_ready : Db → Company → Result (Unit {0})
unfolding company_has_opening_entry
assert_company_accounting_ready db c =
    raise_if (not (company_has_opening_entry db c)) (conflict_error Reason.not_opened)

unfoldable pub assert_can_manage_company_opening : User → Company → Result (Unit {0})
assert_can_manage_company_opening u c =
    if is_admin u.role
    then ok tt
    else if c.owner_id == u.id
    then ok tt
    else raise (permission_denied Reason.cannot_open)

unfoldable pub assert_can_manage_company_closing : User → Company → Result (Unit {0})
assert_can_manage_company_closing u c =
    if is_admin u.role
    then ok tt
    else if c.owner_id == u.id
    then ok tt
    else raise (permission_denied Reason.cannot_close)
