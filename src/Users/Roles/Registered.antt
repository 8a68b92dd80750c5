-- ===== src/Users/Roles/Registered.antt =====
-- Who may register, and the account that a registration makes.
use mono256_sic_core.Base.{
  ℕ, Bool, true, false, not, some, String, ◌≡◌, ◌≢◌, refl, sym, ◌∙◌, ◌↔◌, str_eq, str_eq_iff,
}
use mono256_sic_core.Base.Result.{
  Result, ok, raise_if, raise_if-eq-ok, ok-injective, >>=-eq-ok, ◌>>◌,
}
use mono256_sic_core.Store.{Role}
use mono256_sic_core.Cache.{Backend}
use mono256_sic_core.Cache.Laws.{IsReliable}
use mono256_sic_core.Users.Limits.{LimitKey}
use mono256_sic_core.Users.Codes.{
  RegistrationCodeConfig, Registration, accepts, validate_registration_code,
}
use mono256_sic_core.Users.Codes.Coherence.{IsCoherent, row_or_new, validate_registration_code_lem}
use mono256_sic_core.Users.Roles.{
  UserRow, save, Registrant, candidate, NewUser, new_user, register_student_user,
}

-- Django's documented `create_user`: it normalises the name and the address, takes no staff access and no
-- superuser status where none is given, and stores the password and what the model's `save` writes.
-- `stored` is the refusal of the storage, as of a name that is taken or empty.
pub record IsUserManager (create_user : NewUser → String → Result UserRow) : Type 0 where
  pub normalize_username : String → String
  pub normalize_email : String → String
  pub stored : UserRow → String → Result (Unit {0})
  pub create_user_lem :
      (u : NewUser) (password : String)
      → create_user u password ≡ (
          let row = save (record {
            username = normalize_username u.username;
            email = normalize_email u.email;
            first_name = u.first_name;
            last_name = u.last_name;
            role = u.role;
            is_staff = false;
            is_superuser = false;
          }) in
          stored row password >> ok row)

-- A student's account, without staff access.
abbrev pub student_account : String → String → String → String → UserRow
student_account username email first_name last_name = record {
  username = username;
  email = email;
  first_name = first_name;
  last_name = last_name;
  role = Role.student;
  is_staff = false;
  is_superuser = false;
}

not-false : (x : Bool) → not x ≡ false → x ≡ true
not-false true h = refl
not-false false h = cc

module _ {S : Type 0} (same : LimitKey → LimitKey → Bool)
    (b : Backend LimitKey RegistrationCodeConfig S) (laws : IsReliable same b)
    (digest : String → String) (timeout : ℕ)
    (validate_password : String → UserRow → Result (Unit {0}))
    (create_user : NewUser → String → Result UserRow) (manager : IsUserManager create_user)
    (r : Registration S) (form : Registrant) (token : String) (now : ℕ) where
  abbrev judged : Bool × Registration S
  judged = validate_registration_code b digest timeout r form.registration_code token now

  -- The settings that the code is judged by.
  abbrev pub settings_row : RegistrationCodeConfig
  settings_row = row_or_new same b laws digest timeout r.config token

  -- The account that is stored.
  abbrev pub made_account : UserRow
  made_account =
      student_account (manager.normalize_username form.username)
        (manager.normalize_email form.email) form.first_name form.last_name

  -- What a registration needs, of the form, the settings and the storage.
  abbrev pub MayRegister : Type 0
  MayRegister =
      (form.password ≡ form.password_confirm)
      × (validate_password form.password
            (student_account form.username form.email form.first_name form.last_name)
          ≡ ok tt)
      × (accepts b digest timeout settings_row form.registration_code now ≡ true)
      × (manager.stored made_account form.password ≡ ok tt)

  -- What a registration leaves.
  abbrev pub IsRegistered : UserRow × Registration S → Type 0
  IsRegistered out =
      (out.0 ≡ made_account)
      × (out.1.config ≡ some settings_row)
      × IsCoherent same b laws digest timeout out.1

  made_lem :
      create_user (new_user form) form.password
      ≡ (manager.stored made_account form.password >> ok made_account)
  unfolding save
  made_lem = manager.create_user_lem (new_user form) form.password

  module _ (coherent : IsCoherent same b laws digest timeout r)
      (given : form.registration_code ≢ "") where
    code_lem :
        (judged.0 ≡ accepts b digest timeout settings_row form.registration_code now)
        × (judged.1.config ≡ some settings_row)
        × IsCoherent same b laws digest timeout judged.1
    code_lem =
        validate_registration_code_lem same b laws digest timeout r form.registration_code token now
          coherent given

    register_student_user-inv :
        (out : UserRow × Registration S)
        → register_student_user b digest timeout validate_password create_user r form token now
          ≡ ok out
        → MayRegister × IsRegistered out
    unfolding register_student_user
    register_student_user-inv out returned =
        let (t₁, same_password, rest₁) =
          >>=-eq-ok (raise_if (not (str_eq form.password form.password_confirm)) _) _ returned in
        let (t₂, strong, rest₂) =
          >>=-eq-ok (validate_password form.password (candidate form)) _ rest₁ in
        let (t₃, accepted, rest₃) = >>=-eq-ok (raise_if (not judged.0) _) _ rest₂ in
        let (user, created, rest₄) =
          >>=-eq-ok (create_user (new_user form) form.password) _ rest₃ in
        let (t₅, kept, rest₅) =
          >>=-eq-ok (manager.stored made_account form.password) _ (sym made_lem ∙ created) in
        let (answer, row, copy) = code_lem in
        rw (sym (ok-injective rest₄)) (
          (
            (str_eq_iff form.password form.password_confirm).0
                (not-false _ (raise_if-eq-ok _ _ same_password)),
            strong,
            sym answer ∙ not-false _ (raise_if-eq-ok _ _ accepted),
            kept,
          ),
          (sym (ok-injective rest₅), row, copy),
        )

    registers :
        MayRegister
        → register_student_user b digest timeout validate_password create_user r form token now
          ≡ ok (made_account, judged.1)
    unfolding register_student_user
    registers (same_password, strong, accepted, kept) =
        rw
          (
            (str_eq_iff form.password form.password_confirm).1 same_password,
            strong,
            code_lem.0 ∙ accepted,
            made_lem,
            kept,
          )
          refl

    -- Over a reliable cache whose copy of the settings is true, and for a code that is not empty: a
    -- registration succeeds exactly if the two passwords agree, the password is valid for the student's
    -- account, the settings accept the code and the storage takes the account.
    pub register_student_user_iff :
        ((out : UserRow × Registration S) × (register_student_user b digest timeout
              validate_password create_user r form token now
            ≡ ok out))
        ↔ MayRegister
    register_student_user_iff = (
      (λ (out, returned). (register_student_user-inv out returned).0),
      λ may. ((made_account, judged.1), registers may),
    )

    -- Over a reliable cache whose copy of the settings is true, and for a code that is not empty: a
    -- registration that succeeds makes a student's account without staff access, of the normalised name and
    -- address, and leaves the settings that judged the code in the table and their copy true.
    pub register_student_user_lem :
        (out : UserRow × Registration S)
        → register_student_user b digest timeout validate_password create_user r form token now
          ≡ ok out
        → IsRegistered out
    register_student_user_lem out returned = (register_student_user-inv out returned).1
