-- ===== src/Users/Roles.antt =====
-- User accounts: `User.save` (apps/users/models.py), and `set_user_role`, `update_me` and
-- `register_student_user` (apps/users/services.py).
pub mod Staff
pub mod Registered
use mono256_sic_core.Base.{
  ℕ, Bool, true, false, not, ◌&&◌, Option, none, some, List, [], ◌∷◌, String, str_eq, if◌then◌else◌,
  or_default,
}
use mono256_sic_core.Base.Result.{
  Result, ok, raise, Reason, Error, validation_error, value_error, ◌>>=◌, ◌>>◌, raise_if, or_raise,
}
use mono256_sic_core.Store.{Role, is_admin}
use mono256_sic_core.Cache.{Backend}
use mono256_sic_core.Users.Limits.{LimitKey}
use mono256_sic_core.Users.Codes.{RegistrationCodeConfig, Registration, validate_registration_code}

-- The fields of the user model that the services write, and `is_superuser`.
pub record UserRow : Type 0 where
  pub username : String
  pub email : String
  pub first_name : String
  pub last_name : String
  pub role : Role
  pub is_staff : Bool
  pub is_superuser : Bool

-- `User.save`: what is written.
unfoldable pub save : UserRow → UserRow
save user =
    let role = if user.is_superuser && not (is_admin user.role) then Role.admin else user.role in
    record user { role = role; is_staff = if is_admin role then true else false }

abbrev pub role_of : String → Option Role
role_of name =
    if str_eq name "admin"
    then some Role.admin
    else if str_eq name "teacher"
    then some Role.teacher
    else if str_eq name "student"
    then some Role.student
    else none

-- `full_clean` is the model's own validation, of the package.
module _ (full_clean : UserRow → Result (Unit {0})) where
  unfoldable pub set_user_role : UserRow → String → Result UserRow
  unfolding save
  set_user_role user name = do
    role ← or_raise (role_of name) value_error
    let changed : UserRow = record user { role = role; is_staff = is_admin role }
    full_clean changed
    ok (save changed)

  unfoldable pub update_me :
      UserRow → Option String → Option String → Option String → Result UserRow
  unfolding save
  update_me user email first_name last_name = do
    let changed : UserRow = record user {
      email = or_default email user.email;
      first_name = or_default first_name user.first_name;
      last_name = or_default last_name user.last_name;
    }
    full_clean changed
    ok (save changed)

-- What a registration asks for.
pub record Registrant : Type 0 where
  pub username : String
  pub password : String
  pub password_confirm : String
  pub email : String
  pub first_name : String
  pub last_name : String
  pub registration_code : String

-- The user that the password is checked against: `is_staff` and `is_superuser` have the package's defaults.
abbrev pub candidate : Registrant → UserRow
candidate form = record {
  username = form.username;
  email = form.email;
  first_name = form.first_name;
  last_name = form.last_name;
  role = Role.student;
  is_staff = false;
  is_superuser = false;
}

-- The arguments of `create_user`, but for the password.
pub record NewUser : Type 0 where
  pub username : String
  pub email : String
  pub first_name : String
  pub last_name : String
  pub role : Role

abbrev pub new_user : Registrant → NewUser
new_user form = record {
  username = form.username;
  email = form.email;
  first_name = form.first_name;
  last_name = form.last_name;
  role = Role.student;
}

-- `validate_password` and `create_user` are the package's.
module _ {S : Type 0} (b : Backend LimitKey RegistrationCodeConfig S) (digest : String → String)
    (timeout : ℕ) (validate_password : String → UserRow → Result (Unit {0}))
    (create_user : NewUser → String → Result UserRow) where
  unfoldable pub register_student_user :
      Registration S → Registrant → String → ℕ → Result (UserRow × Registration S)
  unfolding validate_registration_code
  register_student_user r form token now = do
    raise_if (not (str_eq form.password form.password_confirm))
        (validation_error Reason.passwords_differ)
    validate_password form.password (candidate form)
    let judged : Bool × Registration S =
        validate_registration_code b digest timeout r form.registration_code token now
    raise_if (not judged.0) (validation_error Reason.invalid_registration_code)
    user ← create_user (new_user form) form.password
    ok (user, judged.1)
