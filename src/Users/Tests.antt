-- ===== src/Users/Tests.antt =====
-- Examples for the limits, the registration codes and the user accounts.
use mono256_sic_core.Base.{
  ℕ, ◌+◌, ◌-◌, ◌*◌, ◌%◌, ◌≤◌, ◌<◌, true, false, none, some, List, [], ◌∷◌, String, str_eq, ◌≡◌, ◌≢◌,
  ◌↔◌, ◌⊎◌, refl, ap, arith, concat, show, if◌then◌else◌,
}
use mono256_sic_core.Base.Int.{◌-ℤ◌}
use mono256_sic_core.Base.Result.{Result, ok, Reason, raise_if, validation_error, value_error, ◌>>◌}
use mono256_sic_core.Users.Roles.Registered.{
  IsUserManager, student_account, MayRegister, IsRegistered, register_student_user_iff,
  register_student_user_lem,
}
use mono256_sic_core.Store.{Role}
use mono256_sic_core.Cache.{number, document, Backend}
use mono256_sic_core.Cache.Laws.{IsCounter}
use mono256_sic_core.Cache.Memory.{Memory}
use mono256_sic_core.Samples.Caches.{
  same_key, counters, counters-IsReliable, settings, settings-IsReliable,
}
use mono256_sic_core.Users.Limits.{
  Subject, LimitKey, consume_window_attempt, check_registration_limits, register_failure,
  register_success,
}
use mono256_sic_core.Users.Limits.Attempts.{passed, passed-bounded, consume_window_attempt_iff}
use mono256_sic_core.Users.Limits.Cooldown.{
  register_failure_lem, register_success_lem, limits_fail_open, cooldown_after,
}
use mono256_sic_core.Users.Codes.{
  RegistrationCodeConfig, Registration, info_of, accepts, build_registration_code,
  normalize_registration_code, window_index, rotate_registration_code, validate_registration_code,
}
use mono256_sic_core.Users.Codes.Windows.{accepts_iff, info_of-valid}
use mono256_sic_core.Users.Codes.Coherence.{rotate_registration_code_lem}
use mono256_sic_core.Users.Roles.{
  UserRow, set_user_role, role_of, Registrant, register_student_user, NewUser, save,
}
use mono256_sic_core.Users.Roles.Staff.{IsAligned, set_user_role_lem}

abbrev nothing : Memory LimitKey ⊥
nothing k = none

abbrev address : String
address = "10.0.0.1"

abbrev six_attempts : List (String × ℕ)
six_attempts =
    ("ana", 1000)
    ∷ ("eva", 1010)
    ∷ ("leo", 1020)
    ∷ ("max", 1030)
    ∷ ("noa", 1040)
    ∷ ("sol", 1050)
    ∷ []

six-passed : passed counters nothing address six_attempts ≡ 5
unfolding passed
six-passed = refl

passed-bounded_example : passed counters nothing address six_attempts ≤ 5
passed-bounded_example =
    passed-bounded same_key counters counters-IsReliable address 1 six_attempts nothing 0
      (refl, (refl, (refl, (refl, (refl, (refl, tt)))))) refl

consume_window_attempt_iff_example :
    ((consume_window_attempt counters nothing (Subject.ip_attempts address) 5 900 1000).0 ≡ none
      ↔ 0 < 5)
    × ((seconds : ℕ)
        → (consume_window_attempt counters nothing (Subject.ip_attempts address) 5 900 1000).0
          ≡ some seconds
        → (0 < seconds) × (seconds ≤ 900) × ((1000 + seconds) % 900 ≡ 0))
consume_window_attempt_iff_example =
    consume_window_attempt_iff same_key counters counters-IsReliable nothing
      (Subject.ip_attempts address) 5 900 1000 0 (omega arith) refl

abbrev two_failures : Memory LimitKey ⊥
two_failures k = if same_key k (LimitKey.failures_of address) then some (number 2) else none

register_failure_lem_example :
    ((register_failure counters two_failures address "eva" 1020).0 ≡ cooldown_after 3)
    × IsCounter
        ((register_failure counters two_failures address "eva" 1020).1
          (LimitKey.failures_of address))
        3
    × ((seconds later : ℕ) (who : String)
        → cooldown_after 3 ≡ some seconds
        → later < 1020 + seconds
        → check_registration_limits counters
            (register_failure counters two_failures address "eva" 1020).1
            address
            who
            later
          ≡ (
            some (1020 + seconds - later),
            (register_failure counters two_failures address "eva" 1020).1,
          ))
register_failure_lem_example =
    register_failure_lem same_key counters counters-IsReliable address two_failures "eva" 1020 2
      refl

register_success_lem_example :
    (register_success counters two_failures address "ana" (LimitKey.block_of address) ≡ none)
    × IsCounter
        (register_success counters two_failures address "ana" (LimitKey.failures_of address))
        0
    × ((register_failure counters
          (register_success counters two_failures address "ana")
          address
          "eva"
          1020).0
        ≡ none)
register_success_lem_example =
    register_success_lem same_key counters counters-IsReliable address two_failures "ana" "eva" 1020

abbrev broken : Backend LimitKey ⊥ (Unit {0})
broken = record {
  get = λ s k. none;
  set = λ s k v timeout. none;
  delete = λ s k. none;
  add = λ s k v timeout. none;
  incr = λ s k. none;
}

limits_fail_open_example :
    (check_registration_limits broken tt address "ana" 1000 ≡ (none, tt))
    × (register_failure broken tt address "ana" 1000 ≡ (none, tt))
    × (register_success broken tt address "ana" ≡ tt)
limits_fail_open_example =
    limits_fail_open broken tt address "ana" 1000 ((λ s k. refl), (λ s k t. refl), (λ s k. refl))

-- In place of the digest, a text that shows the index of the window.
abbrev sample_digest : String → String
sample_digest payload = concat payload "ABCDEFGHI"

abbrev hourly : RegistrationCodeConfig
hourly = record { salt = ""; window_minutes = 60; allow_previous_window = true }

abbrev empty_settings : Memory LimitKey RegistrationCodeConfig
empty_settings k = none

abbrev first_code : List ℕ → ℕ
first_code [] = 0
first_code (c ∷ cs) = c

info_of-valid_example :
    ((info_of settings sample_digest 300 hourly 7300).valid_from ≤ 7300)
    × (7300 < (info_of settings sample_digest 300 hourly 7300).valid_until)
    × ((info_of settings sample_digest 300 hourly 7300).valid_from ≤ 11000
        → 11000 < (info_of settings sample_digest 300 hourly 7300).valid_until
        → accepts settings sample_digest 300 hourly
            (info_of settings sample_digest 300 hourly 7300).code
            11000
          ≡ true)
    × (true ≡ true
        → (info_of settings sample_digest 300 hourly 7300).valid_until ≤ 11000
        → 11000 < (info_of settings sample_digest 300 hourly 7300).valid_until + 60 * 60
        → accepts settings sample_digest 300 hourly
            (info_of settings sample_digest 300 hourly 7300).code
            11000
          ≡ true)
info_of-valid_example = info_of-valid settings sample_digest 300 hourly 7300 11000 (omega arith)

two-three : ◌≡◌ {A = ℕ} 50 51 → ⊥
two-three h = omega (arith, h)

accepts_iff_example :
    accepts settings sample_digest 300 hourly
        (info_of settings sample_digest 300 hourly 7300).code
        11000
      ≡ true
    ↔ (window_index 11000 60 ≡ window_index 7300 60)
      ⊎ ((true ≡ true) × (window_index 11000 60 ≡ window_index 7300 60 + 1))
unfolding window_index build_registration_code normalize_registration_code ◌-ℤ◌ show
accepts_iff_example =
    accepts_iff settings sample_digest 300 hourly 7300 11000
      (λ h. absurd (two-three (ap first_code h))) (λ h. refl)

abbrev stale : Registration (Memory LimitKey RegistrationCodeConfig)
stale = record {
  config = some hourly;
  cache = λ k. some (document (record hourly { salt = "old" }));
}

rotate_registration_code_lem_example :
    ((rotate_registration_code settings sample_digest 300 stale "row" "new" "t" 7300).0
      ≡ info_of settings sample_digest 300 (record hourly { salt = "new" }) 7300)
    × ((validate_registration_code settings sample_digest 300
          (rotate_registration_code settings sample_digest 300 stale "row" "new" "t" 7300).1
          "NEW2A"
          "t"
          7400).0
        ≡ accepts settings sample_digest 300 (record hourly { salt = "new" }) "NEW2A" 7400)
rotate_registration_code_lem_example =
    rotate_registration_code_lem same_key settings settings-IsReliable sample_digest 300 stale "row"
      "new" "t" "NEW2A" "t" 7300 7400 (λ e. cc)

abbrev form : Registrant
form = record {
  username = "ana";
  password = "correct horse";
  password_confirm = "correct horse";
  email = "ana@example.org";
  first_name = "Ana";
  last_name = "Paz";
  registration_code = "2abcd-efgh";
}

abbrev fresh : Registration (Memory LimitKey RegistrationCodeConfig)
fresh = record { config = some hourly; cache = empty_settings }

-- Every password but the user's name will do, and every name but one is free.
abbrev not_the_name : String → UserRow → Result (Unit {0})
not_the_name password user =
    raise_if (str_eq password user.username) (validation_error Reason.weak_password)

abbrev free_name : UserRow → String → Result (Unit {0})
free_name user password = raise_if (str_eq user.username "root") value_error

abbrev create_user : NewUser → String → Result UserRow
unfolding save
create_user u password =
    let row = save (record {
      username = u.username;
      email = u.email;
      first_name = u.first_name;
      last_name = u.last_name;
      role = u.role;
      is_staff = false;
      is_superuser = false;
    }) in
    free_name row password >> ok row

create_user-IsUserManager : IsUserManager create_user
unfolding save
create_user-IsUserManager = record {
  normalize_username = λ name. name;
  normalize_email = λ address. address;
  stored = free_name;
  create_user_lem = λ u password. refl;
}

form-given : form.registration_code ≢ ""
form-given e = cc

register_student_user_iff_example :
    ((out : UserRow × Registration (Memory LimitKey RegistrationCodeConfig))
      × (register_student_user settings sample_digest 300 not_the_name create_user fresh form "t"
            7300
          ≡ ok out))
    ↔ MayRegister same_key settings settings-IsReliable sample_digest 300 not_the_name create_user
        create_user-IsUserManager fresh form "t" 7300
register_student_user_iff_example =
    register_student_user_iff same_key settings settings-IsReliable sample_digest 300 not_the_name
      create_user create_user-IsUserManager fresh form "t" 7300 tt form-given

abbrev first_student : UserRow × Registration (Memory LimitKey RegistrationCodeConfig)
unfolding validate_registration_code
first_student = (
  student_account "ana" "ana@example.org" "Ana" "Paz",
  (validate_registration_code settings sample_digest 300 fresh "2abcd-efgh" "t" 7300).1,
)

registers_ana :
    register_student_user settings sample_digest 300 not_the_name create_user fresh form "t" 7300
    ≡ ok first_student
unfolding register_student_user validate_registration_code create_user first_student show ◌-ℤ◌
registers_ana = refl

register_student_user_lem_example :
    IsRegistered same_key settings settings-IsReliable sample_digest 300 not_the_name create_user
      create_user-IsUserManager fresh form "t" 7300 first_student
register_student_user_lem_example =
    register_student_user_lem same_key settings settings-IsReliable sample_digest 300 not_the_name
      create_user create_user-IsUserManager fresh form "t" 7300 tt form-given first_student
      registers_ana

-- The code of the sample is accepted in capitals or not, with its dash or without.
code-accepted :
    (validate_registration_code settings sample_digest 300 fresh "2abcd-efgh" "t" 7300).0 ≡ true
unfolding validate_registration_code show ◌-ℤ◌
code-accepted = refl

abbrev superuser : UserRow
superuser = record {
  username = "root";
  email = "";
  first_name = "";
  last_name = "";
  role = Role.admin;
  is_staff = true;
  is_superuser = true;
}

abbrev clean : UserRow → Result (Unit {0})
clean user = ok tt

kept : set_user_role clean superuser "teacher" ≡ ok superuser
unfolding set_user_role
kept = refl

set_user_role_lem_example :
    IsAligned superuser
    × ((role : Role) × (role_of "teacher" ≡ some role) × (true ≡ false → Role.admin ≡ role))
set_user_role_lem_example = set_user_role_lem clean superuser superuser "teacher" kept
