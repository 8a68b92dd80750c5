-- ===== src/Users/Limits/Attempts.antt =====
-- The attempts that `check_registration_limits` lets pass in one window, over a reliable cache.
use mono256_sic_core.Base.{
  ℕ, suc, ◌+◌, ◌-◌, ◌*◌, ◌/◌, ◌%◌, ◌≤◌, ◌<◌, Bool, true, false, Option, none, some, List, [], ◌∷◌,
  String, ◌≡◌, ◌≢◌, ◌↔◌, refl, sym, ◌∙◌, subst, ◌⊎◌, inl, inr, arith, ltb, All, is_some,
  if◌then◌else◌, Bool-cases,
}
use native.Mathlib.Nat.{mod-lt, mul-mod_left, div-add-mod'}
use mono256_sic_core.Cache.{Value, number, document, Backend}
use mono256_sic_core.Cache.Laws.{IsReliable, IsCounter}
use mono256_sic_core.Users.Limits.{
  Subject, LimitKey, attempts_in, registration_keys, consume_window_attempt, consume_both,
  consume_ip, consume_username, username_subject, retry_after, retry_seconds,
  check_registration_limits, register_ip_limit, register_username_limit, register_window_seconds,
}
use mono256_sic_core.Users.Limits.Counter.{incr_counter_lem}

-- Below every key stands some count.
pub count_below : (v : Option (Value ⊥)) → (n : ℕ) × IsCounter v n
count_below none = (0, refl)
count_below (some (number m)) = (m, refl)
count_below (some (document d)) = absurd d

-- How many of a sequence of attempts from one address, each a user name and its instant, may go on.
unfoldable pub passed : {S : Type 0} → Backend LimitKey ⊥ S → S → String → List (String × ℕ) → ℕ
unfolding check_registration_limits
passed b s ip [] = 0
passed b s ip ((user, now) ∷ rest) =
    let (verdict, s') = check_registration_limits b s ip user now in
    let others = passed b s' ip rest in if is_some verdict then others else suc others

-- A wait of `window - now % window` ends where the next window begins.
next_window : (now window : ℕ) → 0 < window → (now + (window - now % window)) % window ≡ 0
next_window now window positive =
    let whole : now + (window - now % window) ≡ (now / window + 1) * window =
      omega (arith, div-add-mod' now window, mod-lt now positive) in
    rw whole (mul-mod_left (now / window + 1) window)

retry_bounds :
    (limit window now n seconds : ℕ)
    → 0 < window
    → retry_after (some (n + 1)) limit window now ≡ some seconds
    → (0 < seconds) × (seconds ≤ window) × ((now + seconds) % window ≡ 0)
retry_bounds limit window now n seconds positive e =
    let late = mod-lt now positive in
    let wait : seconds ≡ window - now % window = ground arith in
    rw wait (omega (arith, late), omega (arith, late), next_window now window positive)

module _ {S : Type 0} (same : LimitKey → LimitKey → Bool) (b : Backend LimitKey ⊥ S)
    (r : IsReliable same b) where
  pub other_key : (k j : LimitKey) → k ≢ j → same k j ≡ false
  other_key k j h = elim (Bool-cases (same k j)) [
    | inl e ↦ absurd (h ((r.same_iff k j).0 e))
    | inr e ↦ e
  ]

  pub consume_window_attempt_lem :
      (s : S) (subject : Subject) (limit window now n : ℕ)
      → IsCounter (r.look s (attempts_in subject (now / window))) n
      → ((consume_window_attempt b s subject limit window now).0
          ≡ retry_after (some (n + 1)) limit window now)
        × IsCounter
            (r.look
              (consume_window_attempt b s subject limit window now).1
              (attempts_in subject (now / window)))
            (n + 1)
        × ((j : LimitKey)
            → attempts_in subject (now / window) ≢ j
            → r.look (consume_window_attempt b s subject limit window now).1 j ≡ r.look s j)
  unfolding consume_window_attempt
  consume_window_attempt_lem s subject limit window now n counter =
      let (count, left, kept) =
        incr_counter_lem same b r s (attempts_in subject (now / window)) (window + 1) n counter in
      (rw count refl, left, λ j other. kept j (other_key _ j other))

  pub consume_username_keeps :
      (user : Option Subject) (s : S) (now : ℕ) (j : LimitKey)
      → ((subject : Subject) → user ≡ some subject → (i : ℕ) → attempts_in subject i ≢ j)
      → r.look (consume_username b user s now).1 j ≡ r.look s j
  unfolding consume_username
  consume_username_keeps none s now j other = refl
  consume_username_keeps (some subject) s now j other =
      let (n, counter) =
        count_below (r.look s (attempts_in subject (now / register_window_seconds))) in
      let (verdict, left, kept) =
        consume_window_attempt_lem s subject register_username_limit register_window_seconds now n
          counter in
      kept j (other subject refl (now / register_window_seconds))

  stopped :
      (out : Option ℕ × S) (x now : ℕ) (user : Option Subject)
      → out.0 ≡ some x
      → consume_ip b out user now ≡ (some x, out.1)
  unfolding consume_ip
  stopped (verdict, s) x now user h = rw h refl

  goes_on :
      (out : Option ℕ × S) (now : ℕ) (user : Option Subject)
      → out.0 ≡ none
      → consume_ip b out user now ≡ consume_username b user out.1 now
  unfolding consume_ip
  goes_on (verdict, s) now user h = rw h refl

  username-other :
      (ip u : String) (i j : ℕ) (subject : Subject)
      → username_subject u ≡ some subject
      → attempts_in subject j ≢ attempts_in (Subject.ip_attempts ip) i
  username-other ip String.[] i j subject e same_key = cc
  username-other ip (String.◌∷◌ c rest) i j subject e same_key = cc

  module _ (ip : String) (s : S) (user : String) (now n : ℕ)
      (counter : IsCounter
        (r.look s (attempts_in (Subject.ip_attempts ip) (now / register_window_seconds)))
        n) where
    -- One check counts at least what it lets pass, and lets nothing pass beyond the limit.
    abbrev IsCountedBy : Option ℕ × S → Type 0
    IsCountedBy (verdict, s') =
        (m : ℕ) × IsCounter
          (r.look s' (attempts_in (Subject.ip_attempts ip) (now / register_window_seconds))) m
        × (((is_some verdict ≡ true) × (n ≤ m))
            ⊎ ((is_some verdict ≡ false) × (m ≡ n + 1) × (n < register_ip_limit)))

    either_way :
        (verdict : Option ℕ)
        → n < register_ip_limit
        → ((is_some verdict ≡ true) × (n ≤ n + 1))
          ⊎ ((is_some verdict ≡ false) × (n + 1 ≡ n + 1) × (n < register_ip_limit))
    either_way none h = inr (refl, refl, h)
    either_way (some x) h = inl (refl, omega arith)

    let_through : (v : Option ℕ) → IsCountedBy (consume_both b v s (registration_keys ip user) now)
    unfolding registration_keys consume_both
    let_through (some x) = (n, counter, inl (refl, omega arith))
    let_through none =
        let subject = Subject.ip_attempts ip in
        let window = register_window_seconds in
        let out = consume_window_attempt b s subject register_ip_limit window now in
        let who = username_subject user in
        let (verdict, left, kept) =
          consume_window_attempt_lem s subject register_ip_limit window now n counter in
        elim (Bool-cases (ltb register_ip_limit (n + 1))) [
          | inl over ↦
              rw (stopped out (retry_seconds window now) now who (verdict ∙ rw over refl))
                (n + 1, left, inl (refl, omega arith))
          | inr free ↦ rw (goes_on out now who (verdict ∙ rw free refl)) (
            n + 1,
            subst (λ v. IsCounter v (n + 1))
                (sym (
                  consume_username_keeps who out.1 now (attempts_in subject (now / window))
                    (λ other e i. username-other ip user (now / window) i other e)))
                left,
            either_way (consume_username b who out.1 now).0 (ground arith),
          )
        ]

    check_registration_limits-IsCountedBy : IsCountedBy (check_registration_limits b s ip user now)
    unfolding check_registration_limits
    check_registration_limits-IsCountedBy = let_through _

  -- In one window of fifteen minutes an address whose attempts were counted up to `n` gets at most as
  -- many further attempts past the check as the limit of five leaves, whatever user names it gives,
  -- and over a reliable cache.
  pub passed-bounded :
      (ip : String) (window : ℕ) (attempts : List (String × ℕ)) (s : S) (n : ℕ)
      → All (λ a. a.1 / register_window_seconds ≡ window) attempts
      → IsCounter (r.look s (attempts_in (Subject.ip_attempts ip) window)) n
      → passed b s ip attempts ≤ register_ip_limit - n
  unfolding passed
  passed-bounded ip window [] s n times counter = omega arith
  passed-bounded ip window ((user, now) ∷ rest) s n times counter =
      let (m, left, verdict) = check_registration_limits-IsCountedBy ip s user now n (
        subst (λ i. IsCounter (r.look s (attempts_in (Subject.ip_attempts ip) i)) n) (sym times.0)
          counter) in
      let others =
        passed-bounded ip window rest (check_registration_limits b s ip user now).1 m times.1 (
          subst
            (λ i.
              IsCounter
                (r.look (check_registration_limits b s ip user now).1
                  (attempts_in (Subject.ip_attempts ip) i))
                m)
            times.0 left) in
      elim verdict [
        | inl (refused, le) ↦ rw refused (omega (arith, le, others))
        | inr (free, e, lt) ↦ rw free (omega (arith, e, lt, others))
      ]

  -- Over a reliable cache and for a window of at least a second: the attempt that follows `n` counted
  -- ones in its window passes exactly if `n` is below the limit; one that is refused is told to wait at
  -- least a second and at most the window, and the wait ends in a later window.
  pub consume_window_attempt_iff :
      (s : S) (subject : Subject) (limit window now n : ℕ)
      → 0 < window
      → IsCounter (r.look s (attempts_in subject (now / window))) n
      → ((consume_window_attempt b s subject limit window now).0 ≡ none ↔ n < limit)
        × ((seconds : ℕ)
            → (consume_window_attempt b s subject limit window now).0 ≡ some seconds
            → (0 < seconds) × (seconds ≤ window) × ((now + seconds) % window ≡ 0))
  consume_window_attempt_iff s subject limit window now n positive counter =
      rw ((consume_window_attempt_lem s subject limit window now n counter).0) (
        (λ e. ground arith, λ h. ground arith),
        λ seconds e. retry_bounds limit window now n seconds positive e,
      )
