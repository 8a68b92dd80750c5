-- ===== src/Users/Limits.antt =====
-- The limits on registration attempts (apps/users/services.py): counters in the cache, one for each
-- window of time, and a cooldown after failures. Instants are whole seconds since the epoch.
pub mod Counter
pub mod Attempts
pub mod Cooldown
use mono256_sic_core.Base.{
  ℕ, ◌+◌, ◌-◌, ◌*◌, ◌/◌, ◌%◌, Bool, true, false, ◌&&◌, Option, none, some, List, [], ◌∷◌, String,
  ltb, leb, if◌then◌else◌, or_default, is_some,
}
use mono256_sic_core.Cache.{
  Value, number, document, Backend, safe_cache_get, safe_cache_set, safe_cache_delete,
  safe_cache_add, safe_cache_incr,
}

abbrev pub register_ip_limit : ℕ
register_ip_limit = 5

abbrev pub register_username_limit : ℕ
register_username_limit = 3

abbrev pub register_window_seconds : ℕ
register_window_seconds = 15 * 60

abbrev pub failure_counter_ttl : ℕ
failure_counter_ttl = 60 * 60

-- The threshold of failures, and the seconds of cooldown.
abbrev pub cooldown_steps : List (ℕ × ℕ)
cooldown_steps = (3, 60) ∷ (5, 5 * 60) ∷ (8, 15 * 60) ∷ []

-- The keys of the cache. `register:ip:…` and `register:user:…` count attempts, and the index of the
-- window is appended to them.
pub data Subject : Type 0 where
  ip_attempts username_attempts : String → Subject

pub data LimitKey : Type 0 where
  attempts_in : Subject → ℕ → LimitKey
  failures_of block_of : String → LimitKey
  code_config : LimitKey

pub record RegistrationKeys : Type 0 where
  pub ip_attempts : Subject
  pub username_attempts : Option Subject
  pub fail_count : LimitKey
  pub blocked_until : LimitKey

-- The second argument is `(username or "").strip().lower()`, where "" is a missing one.
abbrev pub username_subject : String → Option Subject
username_subject String.[] = none
username_subject (String.◌∷◌ c rest) = some (Subject.username_attempts (String.◌∷◌ c rest))

unfoldable pub registration_keys : String → String → RegistrationKeys
registration_keys ip safe_username = record {
  ip_attempts = Subject.ip_attempts ip;
  username_attempts = username_subject safe_username;
  fail_count = failures_of ip;
  blocked_until = block_of ip;
}

module _ {K D S : Type 0} (b : Backend K D S) where
  -- The value that is written, or `none` where the write failed.
  unfoldable pub set_or_none : S → K → ℕ → ℕ → Option ℕ × S
  unfolding safe_cache_set
  set_or_none s k value timeout =
      let (written, s') = safe_cache_set b s k (number value) timeout in
      (if written then some value else none, s')

  abbrev next_count : Option (Value D) → ℕ
  next_count none = 1
  next_count (some (number n)) = n + 1
  next_count (some (document d)) = 1

  abbrev or_write : Option ℕ → S → K → ℕ → ℕ → Option ℕ × S
  unfolding set_or_none
  or_write (some value) s k written timeout = (some value, s)
  or_write none s k written timeout = set_or_none s k written timeout

  -- After `add`, which answers whether it added.
  abbrev after_add : Option Bool → S → K → ℕ → Option ℕ × S
  unfolding or_write safe_cache_incr safe_cache_get
  after_add none s k timeout = (none, s)
  after_add (some true) s k timeout =
      let (value, s') = safe_cache_incr b s k in or_write value s' k 1 timeout
  after_add (some false) s k timeout =
      let (value, s') = safe_cache_incr b s k in
      or_write value s' k (next_count (safe_cache_get b s' k)) timeout

  -- `_incr_counter`
  unfoldable pub incr_counter : S → K → ℕ → Option ℕ × S
  unfolding safe_cache_add after_add
  incr_counter s k timeout =
      let (added, s') = safe_cache_add b s k (number 0) timeout in after_add added s' k timeout

-- `max(window_seconds - now % window_seconds, 1)`
abbrev pub retry_seconds : ℕ → ℕ → ℕ
retry_seconds window now = if ltb (window - now % window) 1 then 1 else window - now % window

-- The seconds to wait, where the attempts exceed the limit.
abbrev pub retry_after : Option ℕ → ℕ → ℕ → ℕ → Option ℕ
retry_after none limit window now = none
retry_after (some attempts) limit window now =
    if ltb limit attempts then some (retry_seconds window now) else none

-- The seconds that a block still lasts.
abbrev pub seconds_blocked : Option (Value ⊥) → ℕ → Option ℕ
seconds_blocked none now = none
seconds_blocked (some (number until)) now =
    if ltb 0 until && ltb now until then some (until - now) else none
seconds_blocked (some (document d)) now = absurd d

abbrev pub cooldown_for : List (ℕ × ℕ) → ℕ → Option ℕ → Option ℕ
cooldown_for [] fail_count cooldown = cooldown
cooldown_for ((threshold, seconds) ∷ steps) fail_count cooldown =
    cooldown_for steps fail_count (if leb threshold fail_count then some seconds else cooldown)

-- Below these keys stand numbers only.
module _ {S : Type 0} (b : Backend LimitKey ⊥ S) where
  -- `_consume_window_attempt`
  unfoldable pub consume_window_attempt : S → Subject → ℕ → ℕ → ℕ → Option ℕ × S
  unfolding incr_counter
  consume_window_attempt s subject limit window now =
      let (attempts, s') = incr_counter b s (attempts_in subject (now / window)) (window + 1) in
      (retry_after attempts limit window now, s')

  unfoldable pub consume_username : Option Subject → S → ℕ → Option ℕ × S
  unfolding consume_window_attempt
  consume_username none s now = (none, s)
  consume_username (some subject) s now =
      consume_window_attempt s subject register_username_limit register_window_seconds now

  unfoldable pub consume_ip : Option ℕ × S → Option Subject → ℕ → Option ℕ × S
  unfolding consume_username
  consume_ip (some seconds, s) user now = (some seconds, s)
  consume_ip (none, s) user now = consume_username user s now

  -- After the look at the block.
  unfoldable pub consume_both : Option ℕ → S → RegistrationKeys → ℕ → Option ℕ × S
  unfolding consume_window_attempt consume_ip
  consume_both (some seconds) s keys now = (some seconds, s)
  consume_both none s keys now =
      consume_ip
        (consume_window_attempt s keys.ip_attempts register_ip_limit register_window_seconds now)
        keys.username_attempts now

  -- `none` lets the registration go on; a number tells how long to wait.
  unfoldable pub check_registration_limits : S → String → String → ℕ → Option ℕ × S
  unfolding registration_keys safe_cache_get consume_both
  check_registration_limits s ip safe_username now =
      let keys = registration_keys ip safe_username in
      consume_both (seconds_blocked (safe_cache_get b s keys.blocked_until) now) s keys now

  unfoldable pub block : Option ℕ → S → LimitKey → ℕ → Option ℕ × S
  unfolding safe_cache_set
  block none s k now = (none, s)
  block (some cooldown) s k now =
      let (written, s') = safe_cache_set b s k (number (now + cooldown)) cooldown in
      (if written then some cooldown else none, s')

  unfoldable pub after_failure : Option ℕ → S → LimitKey → ℕ → Option ℕ × S
  unfolding block
  after_failure none s k now = (none, s)
  after_failure (some fail_count) s k now =
      block (cooldown_for cooldown_steps fail_count none) s k now

  unfoldable pub register_failure : S → String → String → ℕ → Option ℕ × S
  unfolding registration_keys incr_counter after_failure
  register_failure s ip safe_username now =
      let keys = registration_keys ip safe_username in
      let (fail_count, s') = incr_counter b s keys.fail_count failure_counter_ttl in
      after_failure fail_count s' keys.blocked_until now

  unfoldable pub register_success : S → String → String → S
  unfolding registration_keys safe_cache_delete
  register_success s ip safe_username =
      let keys = registration_keys ip safe_username in
      let s₁ = (safe_cache_delete b s keys.fail_count).1 in
      (safe_cache_delete b s₁ keys.blocked_until).1
