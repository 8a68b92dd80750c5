-- ===== src/Base/Result.antt =====
-- The outcome of a service call: a value, or the exception that leaves it. An action runs on a state;
-- the exception carries no state, since `transaction.atomic` undoes what was written.
use mathlib.Core.Path.{◌≡◌, refl}
use mathlib.Core.Bool.{Bool, true, false}
use mathlib.Core.Option.{Option, none, some}
use mono256_sic_core.Base.Tests.{if◌then◌else◌}

-- The message of an exception, one for each `raise` of the source.
pub data Reason : Type 0 where
  entry_needs_lines entry_needs_both_sides unknown_account amount_not_positive not_movement_level
        not_movement_leaf not_company_account unbalanced_entry :
      Reason
  books_closed already_opened opening_not_first not_opened concurrent_entry : Reason
  demo_read_only company_read_only : Reason
  entry_not_found not_reversible already_reversed no_lines_to_reverse : Reason
  no_open_exercise before_exercise_start already_closed reopening_not_after later_entries
        closing_exists reopening_exists :
      Reason
  asset_not_debit liability_not_credit equity_not_credit negative_not_debit positive_not_credit
        nothing_to_close support_account_missing closing_entries_missing :
      Reason
  invalid_chain entries_without_chain : Reason
  cannot_open cannot_close no_access company_not_found capital_not_positive : Reason
  invalid_inventory_kind bad_account_id root_account_missing : Reason
  passwords_differ weak_password invalid_registration_code : Reason
  not_teacher not_student enrolled_elsewhere not_enrolled invalid_course course_not_found demo_only
        not_demo :
      Reason

pub data Error : Type 0 where
  validation_error : Reason → Error
  conflict_error : Reason → Error
  permission_denied : Reason → Error
  not_found : Reason → Error
  -- Python's own: `IndexError`, `KeyError` and `ValueError`.
  index_error key_error value_error : Error

pub data Result {ℓ} (A : Type ℓ) : Type ℓ where
  ok : A → Result A
  raise : Error → Result A

-- `if test: raise e`
abbrev pub raise_if : Bool → Error → Result (Unit {0})
raise_if test e = if test then raise e else ok tt

-- A lookup that raises when it finds nothing.
abbrev pub or_raise {ℓ} : {A : Type ℓ} → Option A → Error → Result A
or_raise none e = raise e
or_raise (some a) e = ok a

-- Statements in sequence: the first exception ends the call.
infixl 5 ◌>>=◌ ◌>>◌
abbrev pub ◌>>=◌ {ι κ} : {S : Type ι} {T : Type κ} → Result S → (S → Result T) → Result T
raise e >>= next = raise e
ok s >>= next = next s

abbrev pub ◌>>◌ {ι κ} : {S : Type ι} {T : Type κ} → Result S → Result T → Result T
step >> rest = step >>= λ _. rest

pub raise_if-eq-ok : (test : Bool) (e : Error) → raise_if test e ≡ ok tt → test ≡ false
raise_if-eq-ok true e returned = cc
raise_if-eq-ok false e returned = refl

pub ok-injective {ℓ} : {A : Type ℓ} {a b : A} → ok a ≡ ok b → a ≡ b
ok-injective e = cc

-- A sequence that returns has run its first step.
pub >>=-eq-ok {ι κ} :
    {S : Type ι} {T : Type κ} (step : Result S) (next : S → Result T) {out : T}
    → (step >>= next) ≡ ok out
    → (s : S) × (step ≡ ok s) × (next s ≡ ok out)
>>=-eq-ok (raise e) next returned = cc
>>=-eq-ok (ok s) next returned = (s, refl, returned)
