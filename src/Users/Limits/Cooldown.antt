-- ===== src/Users/Limits/Cooldown.antt =====
-- `register_failure`, `register_success` and the block that `check_registration_limits` looks at.
use mono256_sic_core.Base.{
  ℕ, ◌+◌, ◌-◌, ◌/◌, ◌<◌, Bool, true, false, Option, none, some, String, ◌≡◌, refl, ◌∙◌, ap, ◌&&◌,
  ltb, leb, arith, if◌then◌else◌,
}
use mono256_sic_core.Cache.{number, Backend, safe_cache_get, safe_cache_add, safe_cache_delete}
use mono256_sic_core.Cache.Laws.{
  IsReliable, IsCounter, look-write_self, look-write_other, safe_cache_get_lem, safe_cache_set_lem,
  safe_cache_delete_lem,
}
use mono256_sic_core.Users.Limits.{
  Subject, attempts_in, consume_window_attempt, consume_username, consume_ip, username_subject,
  register_ip_limit, register_username_limit, register_window_seconds, LimitKey, failures_of,
  block_of, registration_keys, consume_both, incr_counter, cooldown_for, block, after_failure,
  cooldown_steps, failure_counter_ttl, check_registration_limits, register_failure,
  register_success,
}
use mono256_sic_core.Users.Limits.Counter.{incr_counter_lem}
use mono256_sic_core.Users.Limits.Attempts.{other_key}

-- The cooldown after that many failures in an hour.
abbrev pub cooldown_after : ℕ → Option ℕ
cooldown_after failures =
    if leb 8 failures
    then some 900
    else if leb 5 failures
    then some 300
    else if leb 3 failures
    then some 60
    else none

cooldown_for_lem : (n : ℕ) → cooldown_for cooldown_steps n none ≡ cooldown_after n
cooldown_for_lem n = ground arith

module _ {S : Type 0} (same : LimitKey → LimitKey → Bool) (b : Backend LimitKey ⊥ S)
    (r : IsReliable same b) (s : S) (ip : String) where
  -- A check before the end of a block is refused with the seconds left, and counts nothing.
  blocked_lem :
      (until other_now : ℕ) (who : String)
      → other_now < until
      → r.look s (block_of ip) ≡ some (number until)
      → check_registration_limits b s ip who other_now ≡ (some (until - other_now), s)
  unfolding check_registration_limits registration_keys consume_both
  blocked_lem until other_now who before h =
      rw (safe_cache_get_lem same b r s (block_of ip), h, ahead) refl
    where
      ahead : (ltb 0 until && ltb other_now until) ≡ true
      ahead = ground arith

-- After a failure was counted.
module _ {S : Type 0} (same : LimitKey → LimitKey → Bool) (b : Backend LimitKey ⊥ S)
    (r : IsReliable same b) (ip : String) where
  after_failure_lem :
      (cooldown : Option ℕ) (s : S) (now : ℕ)
      → ((block b cooldown s (block_of ip) now).0 ≡ cooldown)
        × ((seconds : ℕ)
            → cooldown ≡ some seconds
            → r.look (block b cooldown s (block_of ip) now).1 (block_of ip)
              ≡ some (number (now + seconds)))
        × (r.look (block b cooldown s (block_of ip) now).1 (failures_of ip)
            ≡ r.look s (failures_of ip))
  unfolding block
  after_failure_lem none s now = (refl, λ seconds e. cc, refl)
  after_failure_lem (some c) s now =
      rw (safe_cache_set_lem same b r s (block_of ip) (number (now + c)) c) (
        refl,
        λ seconds e. look-write_self same b r s (block_of ip) _ ∙ cc,
        look-write_other same b r s (block_of ip) (failures_of ip) _
            (other_key same b r (block_of ip) (failures_of ip) (λ e. cc)),
      )

  -- Over a reliable cache, the failure that follows `n` counted ones answers the cooldown of `n + 1`
  -- failures and counts `n + 1`; and until that cooldown ends, each check from the same address is
  -- refused with the seconds that are left, whatever the user name, and changes nothing.
  pub register_failure_lem :
      (s : S) (user : String) (now n : ℕ)
      → IsCounter (r.look s (failures_of ip)) n
      → ((register_failure b s ip user now).0 ≡ cooldown_after (n + 1))
        × IsCounter (r.look (register_failure b s ip user now).1 (failures_of ip)) (n + 1)
        × ((seconds later : ℕ) (who : String)
            → cooldown_after (n + 1) ≡ some seconds
            → later < now + seconds
            → check_registration_limits b (register_failure b s ip user now).1 ip who later
              ≡ (some (now + seconds - later), (register_failure b s ip user now).1))
  unfolding register_failure registration_keys after_failure
  register_failure_lem s user now n counter =
      let (count, left, others) =
        incr_counter_lem same b r s (failures_of ip) failure_counter_ttl n counter in
      let s' = (incr_counter b s (failures_of ip) failure_counter_ttl).1 in
      let (verdict, blocked, kept) = after_failure_lem (cooldown_after (n + 1)) s' now in
      rw (count, cooldown_for_lem (n + 1))
        (
          verdict,
          rw kept left,
          λ seconds later who e before.
              blocked_lem same b r _ ip (now + seconds) later who before (blocked seconds e),
        )

  cleared :
      (s : S) (user : String)
      → register_success b s ip user ≡ r.write (r.write s (failures_of ip) none) (block_of ip) none
  unfolding register_success registration_keys
  cleared s user =
      ap (λ out. (safe_cache_delete b out.1 (block_of ip)).1)
        (safe_cache_delete_lem same b r s (failures_of ip))
      ∙ ap (λ out. out.1)
          (safe_cache_delete_lem same b r (r.write s (failures_of ip) none) (block_of ip))

  -- Over a reliable cache, after a registration that succeeded the address is not blocked, its failures
  -- count from zero, and so the next failure has no cooldown.
  pub register_success_lem :
      (s : S) (user other : String) (now : ℕ)
      → (r.look (register_success b s ip user) (block_of ip) ≡ none)
        × IsCounter (r.look (register_success b s ip user) (failures_of ip)) 0
        × ((register_failure b (register_success b s ip user) ip other now).0 ≡ none)
  register_success_lem s user other now =
      let forgotten = r.write s (failures_of ip) none in
      let after = r.write forgotten (block_of ip) none in
      let count =
        look-write_other same b r forgotten (block_of ip) (failures_of ip) none
          (other_key same b r (block_of ip) (failures_of ip) (λ e. cc))
        ∙ look-write_self same b r s (failures_of ip) none in
      let zero_count : IsCounter (r.look after (failures_of ip)) 0 = rw count refl in
      rw (cleared s user) (
        look-write_self same b r forgotten (block_of ip) none,
        zero_count,
        (register_failure_lem after other now 0 zero_count).0,
      )

-- A cache whose every call raises.
abbrev pub IsDown : {S : Type 0} → Backend LimitKey ⊥ S → Type 0
IsDown {S} b =
    ((s : S) (k : LimitKey) → b.get s k ≡ none)
    × ((s : S) (k : LimitKey) (t : ℕ) → b.add s k (number 0) t ≡ none)
    × ((s : S) (k : LimitKey) → b.delete s k ≡ none)

module _ {S : Type 0} (b : Backend LimitKey ⊥ S) (down : IsDown b) where
  incr_counter_down : (s : S) (k : LimitKey) (t : ℕ) → incr_counter b s k t ≡ (none, s)
  unfolding incr_counter safe_cache_add
  incr_counter_down s k t = rw (down.1 s k t, safe_cache_add) refl

  delete_down : (s : S) (k : LimitKey) → safe_cache_delete b s k ≡ (false, s)
  unfolding safe_cache_delete
  delete_down s k = rw (down.2 s k, safe_cache_delete) refl

  consume_down :
      (s : S) (subject : Subject) (limit window now : ℕ)
      → consume_window_attempt b s subject limit window now ≡ (none, s)
  unfolding consume_window_attempt
  consume_down s subject limit window now =
      rw (incr_counter_down s (attempts_in subject (now / window)) (window + 1)) refl

  consume_username_down :
      (s : S) (who : Option Subject) (now : ℕ) → consume_username b who s now ≡ (none, s)
  unfolding consume_username
  consume_username_down s none now = refl
  consume_username_down s (some subject) now =
      consume_down s subject register_username_limit register_window_seconds now

  check_down :
      (s : S) (ip user : String) (now : ℕ) → check_registration_limits b s ip user now ≡ (none, s)
  unfolding check_registration_limits registration_keys safe_cache_get consume_both consume_ip
  check_down s ip user now =
      rw
        (
          down.0 s (block_of ip),
          safe_cache_get,
          consume_down s (Subject.ip_attempts ip) register_ip_limit register_window_seconds now,
        )
        (consume_username_down s (username_subject user) now)

-- While every call of the cache raises, no registration is refused, a failure has no cooldown, and
-- nothing is written.
pub limits_fail_open :
    {S : Type 0} (b : Backend LimitKey ⊥ S) (s : S) (ip user : String) (now : ℕ)
    → IsDown b
    → (check_registration_limits b s ip user now ≡ (none, s))
      × (register_failure b s ip user now ≡ (none, s))
      × (register_success b s ip user ≡ s)
unfolding register_failure register_success registration_keys safe_cache_delete after_failure
limits_fail_open b s ip user now down = (
  check_down b down s ip user now,
  rw (incr_counter_down b down s (failures_of ip) failure_counter_ttl) refl,
  ap (λ out. (safe_cache_delete b out.1 (block_of ip)).1) (delete_down b down s (failures_of ip))
      ∙ ap (λ out. out.1) (delete_down b down s (block_of ip)),
)
