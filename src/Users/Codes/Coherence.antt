-- ===== src/Users/Codes/Coherence.antt =====
-- The cached copy of the code's settings, and the row.
use mono256_sic_core.Base.{ℕ, Bool, true, Option, none, some, String, ◌≡◌, ◌≢◌, refl, sym, ◌∙◌, ap}
use mono256_sic_core.Cache.{Value, number, document, Backend, safe_cache_delete}
use mono256_sic_core.Cache.Laws.{
  IsReliable, look-write_self, safe_cache_get_lem, safe_cache_set_lem, safe_cache_delete_lem,
}
use mono256_sic_core.Users.Limits.{LimitKey, code_config}
use mono256_sic_core.Users.Codes.{
  RegistrationCodeConfig, Registration, first_config, registration_config, read_config,
  cached_or_read, registration_config_values, info_of, get_current_registration_code_info,
  rotate_registration_code, accepts, validate_registration_code,
}

-- What is cached is nothing or the row.
abbrev pub IsCopyOf : Option (Value RegistrationCodeConfig) → Option RegistrationCodeConfig → Type 0
IsCopyOf none row = Unit
IsCopyOf (some (document config)) row = row ≡ some config
IsCopyOf (some (number n)) row = ⊥

module _ {S : Type 0} (same : LimitKey → LimitKey → Bool)
    (b : Backend LimitKey RegistrationCodeConfig S) (laws : IsReliable same b)
    (digest : String → String) (timeout : ℕ) where
  abbrev pub IsCoherent : Registration S → Type 0
  IsCoherent r = IsCopyOf (laws.look r.cache code_config) r.config

  -- The row of the state, or the one that is made where none exists.
  abbrev pub row_or_new : Option RegistrationCodeConfig → String → RegistrationCodeConfig
  row_or_new (some config) token = config
  row_or_new none token = record { salt = token; window_minutes = 60; allow_previous_window = true }

  -- The settings after a rotation.
  abbrev pub with_salt : Registration S → String → String → RegistrationCodeConfig
  with_salt r row_token salt = record (row_or_new r.config row_token) { salt = salt }

  first_config_lem :
      (row : Option RegistrationCodeConfig) (token : String) (r : Registration S)
      → r.config ≡ row
      → ((first_config b digest timeout row token r).0 ≡ row_or_new row token)
        × ((first_config b digest timeout row token r).1.config ≡ some (row_or_new row token))
  unfolding first_config
  first_config_lem (some config) token r e = (refl, e)
  first_config_lem none token r e = (refl, refl)

  -- What a call of the settings leaves: the row as it is answered, and a true copy.
  abbrev IsRead : RegistrationCodeConfig → RegistrationCodeConfig × Registration S → Type 0
  IsRead config (answer, r) = (answer ≡ config) × (r.config ≡ some config) × IsCoherent r

  read_config-IsRead :
      (r : Registration S) (token : String)
      → IsRead (row_or_new r.config token) (read_config b digest timeout r token)
  unfolding read_config registration_config
  read_config-IsRead r token =
      let (answer, row) = first_config_lem r.config token r refl in
      let out = first_config b digest timeout r.config token r in
      let s = out.1.cache in
      (
        answer,
        row,
        rw
            (
              safe_cache_set_lem same b laws s code_config (document out.0) timeout,
              look-write_self same b laws s code_config (some (document out.0)),
            )
            (row ∙ ap some (sym answer)),
      )

  registration_config_values-IsRead :
      (r : Registration S) (token : String)
      → IsCoherent r
      → IsRead (row_or_new r.config token) (registration_config_values b digest timeout r token)
  unfolding registration_config_values cached_or_read
  registration_config_values-IsRead r token coherent =
      rw (safe_cache_get_lem same b laws r.cache code_config)
        (answered (laws.look r.cache code_config) refl coherent)
    where
      answered :
          (v : Option (Value RegistrationCodeConfig))
          → laws.look r.cache code_config ≡ v
          → IsCopyOf v r.config
          → IsRead (row_or_new r.config token) (cached_or_read b digest timeout v r token)
      answered none h copy = read_config-IsRead r token
      answered (some (document config)) h copy =
          let row : row_or_new r.config token ≡ config = rw copy refl in
          (sym row, copy ∙ ap some (sym row), coherent)
      answered (some (number n)) h copy = absurd copy

  -- Over a reliable cache whose copy of the settings is true: a code that is not empty is judged by the
  -- settings' row, or by new settings where there is no row yet; and afterwards that row exists and the
  -- copy is true.
  pub validate_registration_code_lem :
      (r : Registration S) (code token : String) (now : ℕ)
      → IsCoherent r
      → code ≢ ""
      → ((validate_registration_code b digest timeout r code token now).0
          ≡ accepts b digest timeout (row_or_new r.config token) code now)
        × ((validate_registration_code b digest timeout r code token now).1.config
            ≡ some (row_or_new r.config token))
        × IsCoherent (validate_registration_code b digest timeout r code token now).1
  unfolding validate_registration_code
  validate_registration_code_lem r String.[] token now coherent given = absurd (given refl)
  validate_registration_code_lem r (String.◌∷◌ c rest) token now coherent given =
      let (answer, row, copy) = registration_config_values-IsRead r token coherent in
      (ap (λ config. accepts b digest timeout config (String.◌∷◌ c rest) now) answer, row, copy)

  -- Over a reliable cache, whatever it held: a rotation shows the code of the new salt, and from then on
  -- every code is judged by the settings with the new salt, though the cache held the old ones.
  pub rotate_registration_code_lem :
      (r : Registration S) (row_token salt token code later_token : String) (now later : ℕ)
      → code ≢ ""
      → ((rotate_registration_code b digest timeout r row_token salt token now).0
          ≡ info_of b digest timeout (with_salt r row_token salt) now)
        × ((validate_registration_code b digest timeout
              (rotate_registration_code b digest timeout r row_token salt token now).1
              code
              later_token
              later).0
            ≡ accepts b digest timeout (with_salt r row_token salt) code later)
  unfolding rotate_registration_code get_current_registration_code_info registration_config
  rotate_registration_code_lem r row_token salt token code later_token now later given =
      let (answer, kept) = first_config_lem r.config row_token r refl in
      let start = first_config b digest timeout r.config row_token r in
      let saved : RegistrationCodeConfig = record start.0 { salt = salt } in
      let forgotten = (safe_cache_delete b start.1.cache code_config).1 in
      let rotated : Registration S = record { config = some saved; cache = forgotten } in
      let cleared : IsCoherent rotated =
        rw
          (
            safe_cache_delete_lem same b laws start.1.cache code_config,
            look-write_self same b laws start.1.cache code_config none,
          )
          tt in
      let (shown, row, copy) = registration_config_values-IsRead rotated token cleared in
      let (judged, stored, copied) =
        validate_registration_code_lem (registration_config_values b digest timeout rotated token).1
          code later_token later copy given in
      let salted : saved ≡ with_salt r row_token salt =
        ap {B = RegistrationCodeConfig} (λ config. record config { salt = salt }) answer in
      (
        ap (λ config. info_of b digest timeout config now) (shown ∙ salted),
        judged
            ∙ ap (λ row. accepts b digest timeout (row_or_new row later_token) code later) row
            ∙ ap (λ config. accepts b digest timeout config code later) salted,
      )
