-- ===== src/Users/Codes/Windows.antt =====
-- When `validate_registration_code` accepts the code that `get_current_registration_code_info` shows.
use mono256_sic_core.Base.{
  ℕ, ◌+◌, ◌*◌, ◌/◌, ◌≤◌, ◌<◌, Bool, true, false, ◌&&◌, ◌||◌, List, String, ltb, if◌then◌else◌, ◌≡◌,
  refl, sym, ◌↔◌, ◌⊎◌, inl, inr, arith, codes_eq, codes_eq_refl, codes_eq→eq, Bool-cases,
}
use mono256_sic_core.Base.Int.{ℤ, pos, ◌-ℤ◌}
use native.Mathlib.Nat.{mod-lt, div-eq_of_lt-le, div-add-mod'}
use mono256_sic_core.Cache.{Backend}
use mono256_sic_core.Users.Limits.{LimitKey}
use mono256_sic_core.Users.Codes.{
  RegistrationCodeConfig, normalize_registration_code, window_index, build_registration_code,
  info_of, accepts,
}

or-true : (a : Bool) → (a || true) ≡ true
or-true true = refl
or-true false = refl

and-true : (a c : Bool) → (a && c) ≡ true → (a ≡ true) × (c ≡ true)
and-true true c h = (refl, h)
and-true false c h = cc

pos_inj : {i j : ℕ} → pos i ≡ pos j → i ≡ j
pos_inj e = cc

before-next : (i j : ℕ) → pos i ≡ pos j -ℤ pos 1 → j ≡ i + 1
unfolding ◌-ℤ◌
before-next i j e = ground arith

-- An index and its first second.
index_iff : (w i t : ℕ) → 0 < w → i * w ≤ t → t < i * w + w → t / w ≡ i
index_iff w i t positive low high = div-eq_of_lt-le w low (omega (arith, high))

index_low : (w t : ℕ) → 0 < w → (t / w * w ≤ t) × (t < t / w * w + w)
index_low w t positive =
    (omega (arith, div-add-mod' t w), omega (arith, div-add-mod' t w, mod-lt t positive))

module _ {S : Type 0} (b : Backend LimitKey RegistrationCodeConfig S) (digest : String → String)
    (timeout : ℕ) (config : RegistrationCodeConfig) where
  -- What of a code is compared.
  abbrev pub normal : ℤ → List ℕ
  normal index =
      normalize_registration_code (build_registration_code b digest timeout config.salt index)

  -- The codes of two windows agree only if the windows do.
  abbrev pub IsCollisionFree : ℤ → ℤ → Type 0
  IsCollisionFree i j = normal i ≡ normal j → i ≡ j

  abbrev index : ℕ → ℕ
  unfolding window_index
  index now = window_index now config.window_minutes

  previous : (i : ℕ) → pos (i + 1) -ℤ pos 1 ≡ pos i
  unfolding ◌-ℤ◌
  previous i = ground arith

  minutes : (m : ℕ) → 0 < m → (if ltb m 1 then 1 else m) ≡ m
  minutes m h = ground arith

  -- An index and the one before it, as the codes of which are tried.
  abbrev tried : ℕ → ℕ → Bool
  tried i j =
      codes_eq (normal (pos i)) (normal (pos j))
      || (config.allow_previous_window && codes_eq (normal (pos i)) (normal (pos j -ℤ pos 1)))

  accepts_lem :
      (issued now : ℕ)
      → accepts b digest timeout config (info_of b digest timeout config issued).code now
        ≡ tried (index issued) (index now)
  unfolding accepts info_of index
  accepts_lem issued now = refl

  tried_same : (i : ℕ) → tried i i ≡ true
  tried_same i = rw (codes_eq_refl (normal (pos i))) refl

  tried_next : (i : ℕ) → config.allow_previous_window ≡ true → tried i (i + 1) ≡ true
  tried_next i allowed = rw (previous i, codes_eq_refl (normal (pos i)), allowed) (or-true _)

  tried→near :
      (i j : ℕ)
      → IsCollisionFree (pos i) (pos j)
      → IsCollisionFree (pos i) (pos j -ℤ pos 1)
      → tried i j ≡ true
      → (j ≡ i) ⊎ ((config.allow_previous_window ≡ true) × (j ≡ i + 1))
  tried→near i j free free_before h =
      elim (Bool-cases (codes_eq (normal (pos i)) (normal (pos j)))) [
        | inl now ↦ inl (sym (pos_inj (free (codes_eq→eq _ _ now))))
        | inr not_now ↦
            let (allowed, before) =
              and-true config.allow_previous_window
                (codes_eq (normal (pos i)) (normal (pos j -ℤ pos 1))) (rw not_now at h) in
            inr (allowed, before-next i j (free_before (codes_eq→eq _ _ before)))
      ]

  -- Where the code of the window of `issued` is not by chance that of the window of `now` or of the one
  -- before: read at `issued`, the code is accepted at `now` exactly if that lies in the same window, or
  -- in the next one and the setting admits the previous window.
  pub accepts_iff :
      (issued now : ℕ)
      → IsCollisionFree
          (pos (window_index issued config.window_minutes))
          (pos (window_index now config.window_minutes))
      → IsCollisionFree
          (pos (window_index issued config.window_minutes))
          (pos (window_index now config.window_minutes) -ℤ pos 1)
      → accepts b digest timeout config (info_of b digest timeout config issued).code now ≡ true
        ↔ (window_index now config.window_minutes ≡ window_index issued config.window_minutes)
          ⊎ ((config.allow_previous_window ≡ true)
              × (window_index now config.window_minutes
                  ≡ window_index issued config.window_minutes + 1))
  unfolding index
  accepts_iff issued now free free_before =
      rw (accepts_lem issued now) (tried→near _ _ free free_before, either)
    where
      either :
          (index now ≡ index issued)
            ⊎ ((config.allow_previous_window ≡ true) × (index now ≡ index issued + 1))
          → tried (index issued) (index now) ≡ true
      either (inl e) = rw e (tried_same (index issued))
      either (inr (allowed, e)) = rw e (tried_next (index issued) allowed)

  -- The times that are shown with the code: for a window of at least a minute they enclose the instant
  -- of the call, and the code is accepted from the first until the second, and until one window later
  -- where the setting admits the previous window.
  pub info_of-valid :
      (issued now : ℕ)
      → 0 < config.window_minutes
      → ((info_of b digest timeout config issued).valid_from ≤ issued)
        × (issued < (info_of b digest timeout config issued).valid_until)
        × ((info_of b digest timeout config issued).valid_from ≤ now
            → now < (info_of b digest timeout config issued).valid_until
            → accepts b digest timeout config (info_of b digest timeout config issued).code now
              ≡ true)
        × (config.allow_previous_window ≡ true
            → (info_of b digest timeout config issued).valid_until ≤ now
            → now
              < (info_of b digest timeout config issued).valid_until + config.window_minutes * 60
            → accepts b digest timeout config (info_of b digest timeout config issued).code now
              ≡ true)
  unfolding info_of index
  info_of-valid issued now positive =
      let w = config.window_minutes * 60 in
      let some_time : 0 < w = omega (arith, positive) in
      let (low, high) = index_low w issued some_time in
      rw (accepts_lem issued now, index_lem issued, index_lem now)
        (
          low,
          high,
          λ from until.
              rw (index_iff w (issued / w) now some_time from until) (tried_same (issued / w)),
          λ allowed from until.
              rw
                (index_iff w (issued / w + 1) now some_time (omega (arith, from))
                  (omega (arith, until)))
                (tried_next (issued / w) allowed),
        )
    where
      index_lem : (t : ℕ) → index t ≡ t / (config.window_minutes * 60)
      index_lem t = rw (minutes _ positive) refl
