-- ===== src/Users/Codes.antt =====
-- Registration codes (apps/users/services.py): a code is read off a keyed digest of a salt and the
-- index of a window of time. The salt and the window stand in one row, a copy of which is cached.
pub mod Windows
pub mod Coherence
use mono256_sic_core.Base.{
  ℕ, zero, suc, ◌+◌, ◌-◌, ◌*◌, ◌/◌, Bool, true, false, ◌&&◌, ◌||◌, Option, none, some, List, [],
  ◌∷◌, map, String, ltb, leb, if◌then◌else◌, where_, codes, codes_eq, concat, show, is_some,
}
use mono256_sic_core.Base.Int.{ℤ, pos, negsuc, ◌-ℤ◌}
use mono256_sic_core.Cache.{
  Value, number, document, Backend, safe_cache_get, safe_cache_set, safe_cache_delete,
}
use mono256_sic_core.Users.Limits.{LimitKey, code_config}

-- The fields of `RegistrationCodeConfig`, which are also what is cached.
pub record RegistrationCodeConfig : Type 0 where
  pub salt : String
  pub window_minutes : ℕ
  pub allow_previous_window : Bool

-- `str.upper` and `str.isalnum` of ASCII.
abbrev upper_code : ℕ → ℕ
upper_code c = if leb 97 c && leb c 122 then c - 32 else c

abbrev is_alnum : ℕ → Bool
is_alnum c = (leb 48 c && leb c 57) || (leb 65 c && leb c 90) || (leb 97 c && leb c 122)

unfoldable pub normalize_registration_code : String → List ℕ
normalize_registration_code code = where_ is_alnum (map upper_code (codes code))

unfoldable pub window_index : ℕ → ℕ → ℕ
window_index ts_epoch window_minutes =
    let window_seconds = (if ltb window_minutes 1 then 1 else window_minutes) * 60 in
    ts_epoch / window_seconds

-- `f"{index}"`
abbrev show_ℤ : ℤ → String
show_ℤ (pos n) = show n
show_ℤ (negsuc n) = concat "-" (show (n + 1))

-- `s[:n]` and `s[n:]`
unfoldable pub str_take : ℕ → String → String
str_take zero s = ""
str_take (suc n) String.[] = ""
str_take (suc n) (String.◌∷◌ c s) = String.◌∷◌ c (str_take n s)

unfoldable pub str_drop : ℕ → String → String
str_drop zero s = s
str_drop (suc n) String.[] = ""
str_drop (suc n) (String.◌∷◌ c s) = str_drop n s

-- The row, if there is one, and the cache.
pub record Registration (S : Type 0) : Type 0 where
  pub config : Option RegistrationCodeConfig
  pub cache : S

pub record CodeInfo : Type 0 where
  pub code : String
  pub window_minutes : ℕ
  pub allow_previous_window : Bool
  pub valid_from : ℕ
  pub valid_until : ℕ

-- `digest` is the HMAC-SHA256 of a text under the secret key, in base 32 and without padding. `token` is
-- what `secrets.token_urlsafe` answers in the call, and `timeout` the setting
-- REGISTRATION_CONFIG_CACHE_TIMEOUT.
module _ {S : Type 0} (b : Backend LimitKey RegistrationCodeConfig S) (digest : String → String)
    (timeout : ℕ) where
  unfoldable pub build_registration_code : String → ℤ → String
  unfolding str_take str_drop
  build_registration_code salt index =
      let base = digest (concat salt (concat ":" (show_ℤ index))) in
      let compact = str_take 10 base in
      concat (str_take 5 compact) (concat "-" (str_drop 5 compact))

  unfoldable pub first_config :
      Option RegistrationCodeConfig
      → String
      → Registration S
      → RegistrationCodeConfig × Registration S
  unfolding safe_cache_delete
  first_config (some config) token r = (config, r)
  first_config none token r =
      let config : RegistrationCodeConfig = record {
        salt = token;
        window_minutes = 60;
        allow_previous_window = true;
      } in
      (config, record { config = some config; cache = (safe_cache_delete b r.cache code_config).1 })

  -- `_registration_config`
  unfoldable pub registration_config :
      Registration S → String → RegistrationCodeConfig × Registration S
  unfolding first_config
  registration_config r token = first_config r.config token r

  -- Reads the row, and caches a copy.
  unfoldable pub read_config : Registration S → String → RegistrationCodeConfig × Registration S
  unfolding registration_config safe_cache_set
  read_config r token =
      let (config, r') = registration_config r token in
      let cache = (safe_cache_set b r'.cache code_config (document config) timeout).1 in
      (config, record r' { cache = cache })

  unfoldable pub cached_or_read :
      Option (Value RegistrationCodeConfig)
      → Registration S
      → String
      → RegistrationCodeConfig × Registration S
  unfolding read_config
  cached_or_read (some (document config)) r token = (config, r)
  cached_or_read (some (number n)) r token = read_config r token
  cached_or_read none r token = read_config r token

  -- `_registration_config_values`
  unfoldable pub registration_config_values :
      Registration S → String → RegistrationCodeConfig × Registration S
  unfolding cached_or_read safe_cache_get
  registration_config_values r token = cached_or_read (safe_cache_get b r.cache code_config) r token

  unfoldable pub info_of : RegistrationCodeConfig → ℕ → CodeInfo
  unfolding build_registration_code window_index
  info_of config now =
      let index = window_index now config.window_minutes in
      let window_seconds = config.window_minutes * 60 in
      record {
        code = build_registration_code config.salt (pos index);
        window_minutes = config.window_minutes;
        allow_previous_window = config.allow_previous_window;
        valid_from = index * window_seconds;
        valid_until = index * window_seconds + window_seconds;
      }

  unfoldable pub get_current_registration_code_info :
      Registration S → String → ℕ → CodeInfo × Registration S
  unfolding registration_config_values info_of
  get_current_registration_code_info r token now =
      let (config, r') = registration_config_values r token in (info_of config now, r')

  -- `row_token` is the token for a row that is missing, `salt` the one for the new salt.
  unfoldable pub rotate_registration_code :
      Registration S → String → String → String → ℕ → CodeInfo × Registration S
  unfolding registration_config safe_cache_delete get_current_registration_code_info
  rotate_registration_code r row_token salt token now =
      let (config, r') = registration_config r row_token in
      let saved = record config { salt = salt } in
      let cache = (safe_cache_delete b r'.cache code_config).1 in
      get_current_registration_code_info (record { config = some saved; cache = cache }) token now

  -- The membership of a normalised code in the codes that are valid now.
  unfoldable pub accepts : RegistrationCodeConfig → String → ℕ → Bool
  unfolding build_registration_code window_index normalize_registration_code
  accepts config submitted now =
      let index = window_index now config.window_minutes in
      let normalized = normalize_registration_code submitted in
      let current = normalize_registration_code (build_registration_code config.salt (pos index)) in
      let previous =
        normalize_registration_code (build_registration_code config.salt (pos index -ℤ pos 1)) in
      codes_eq normalized current || (config.allow_previous_window && codes_eq normalized previous)

  unfoldable pub validate_registration_code :
      Registration S → String → String → ℕ → Bool × Registration S
  unfolding registration_config_values accepts
  validate_registration_code r String.[] token now = (false, r)
  validate_registration_code r (String.◌∷◌ c rest) token now =
      let (config, r') = registration_config_values r token in
      (accepts config (String.◌∷◌ c rest) now, r')
