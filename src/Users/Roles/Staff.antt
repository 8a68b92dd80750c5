-- ===== src/Users/Roles/Staff.antt =====
-- Staff and roles.
use mono256_sic_core.Base.{
  Bool, true, false, not, ◌&&◌, Option, none, some, String, ◌≡◌, refl, sym, if◌then◌else◌,
}
use mono256_sic_core.Base.Result.{Result, ok, Error, value_error, or_raise, ok-injective, >>=-eq-ok}
use mono256_sic_core.Store.{Role, is_admin}
use mono256_sic_core.Users.Roles.{UserRow, save, role_of, set_user_role}

-- Whoever is an administrator by role has access to the admin site, and nobody else; a superuser has
-- that role.
abbrev pub IsAligned : UserRow → Type 0
IsAligned user =
    (user.is_staff ≡ is_admin user.role) × (user.is_superuser ≡ true → user.role ≡ Role.admin)

save-IsAligned : (user : UserRow) → IsAligned (save user)
unfolding save
save-IsAligned user = aligned user.role user.is_superuser
  where
    aligned :
        (role : Role) (super : Bool)
        → ((if is_admin (if super && not (is_admin role) then Role.admin else role)
              then true
              else false)
            ≡ is_admin (if super && not (is_admin role) then Role.admin else role))
          × (super ≡ true
              → (if super && not (is_admin role) then Role.admin else role) ≡ Role.admin)
    aligned Role.admin true = (refl, λ h. refl)
    aligned Role.teacher true = (refl, λ h. refl)
    aligned Role.student true = (refl, λ h. refl)
    aligned Role.admin false = (refl, λ h. refl)
    aligned Role.teacher false = (refl, λ h. cc)
    aligned Role.student false = (refl, λ h. cc)

save-role_plain : (user : UserRow) → user.is_superuser ≡ false → (save user).role ≡ user.role
unfolding save
save-role_plain user h = rw h refl

or_raise-eq-ok {ℓ} :
    {A : Type ℓ} (o : Option A) (e : Error) {a : A} → or_raise o e ≡ ok a → o ≡ some a
or_raise-eq-ok none e h = cc
or_raise-eq-ok (some a) e h = cc

module _ (full_clean : UserRow → Result (Unit {0})) where
  -- A change of role that succeeds named one of the three roles, and leaves the account with that role
  -- unless it is a superuser's; staff access follows the role.
  pub set_user_role_lem :
      (user changed : UserRow) (name : String)
      → set_user_role full_clean user name ≡ ok changed
      → IsAligned changed
        × ((role : Role) × (role_of name ≡ some role)
            × (user.is_superuser ≡ false → changed.role ≡ role))
  unfolding set_user_role
  set_user_role_lem user changed name returned =
      let (role, known, rest) = >>=-eq-ok (or_raise (role_of name) value_error) _ returned in
      let (checked, clean, written) = >>=-eq-ok (full_clean _) _ rest in
      let e = ok-injective written in
      rw (sym e) (
        save-IsAligned (record user { role = role; is_staff = is_admin role }),
        (
          role,
          or_raise-eq-ok (role_of name) value_error known,
          λ plain. save-role_plain (record user { role = role; is_staff = is_admin role }) plain,
        ),
      )
