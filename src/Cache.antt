-- ===== src/Cache.antt =====
-- The cache: apps/common/cache.py over Django's cache, which is a parameter (`Backend`); and the
-- version counters that reports and charts keep in it (apps/reports/cache.py, apps/accounts).
pub mod Laws
pub mod Versions
pub mod Memory
use mono256_sic_core.Base.{ℕ, ◌+◌, Bool, true, false, Option, none, some, ltb, if◌then◌else◌}

-- What the program keeps in the cache: a number, or a document of some other type.
pub data Value (D : Type 0) : Type 0 where
  number : ℕ → Value D
  document : D → Value D

-- The backend's calls on a state `S`, over keys `K` and documents `D`. `none` is an exception; `get` answers `some none`
-- for a missing key, and `incr` raises on one.
pub record Backend (K D S : Type 0) : Type 0 where
  pub get : S → K → Option (Option (Value D))
  pub set : S → K → Value D → ℕ → Option S
  pub delete : S → K → Option S
  pub add : S → K → Value D → ℕ → Option (Bool × S)
  pub incr : S → K → Option (ℕ × S)

module _ {K D S : Type 0} (b : Backend K D S) where
  unfoldable pub safe_cache_get : S → K → Option (Value D)
  safe_cache_get s k = elim (b.get s k) [ none ↦ none | some found ↦ found ]

  -- The new state, and whether the write succeeded.
  unfoldable pub safe_cache_set : S → K → Value D → ℕ → Bool × S
  safe_cache_set s k v timeout = elim (b.set s k v timeout) [
    | none ↦ (false, s)
    | some s' ↦ (true, s')
  ]

  unfoldable pub safe_cache_delete : S → K → Bool × S
  safe_cache_delete s k = elim (b.delete s k) [ none ↦ (false, s) | some s' ↦ (true, s') ]

  -- `none` where the backend raised.
  unfoldable pub safe_cache_add : S → K → Value D → ℕ → Option Bool × S
  safe_cache_add s k v timeout = elim (b.add s k v timeout) [
    | none ↦ (none, s)
    | some (added, s') ↦ (some added, s')
  ]

  unfoldable pub safe_cache_incr : S → K → Option ℕ × S
  safe_cache_incr s k = elim (b.incr s k) [ none ↦ (none, s) | some (n, s') ↦ (some n, s') ]

  abbrev version_of : Option (Value D) → Option ℕ
  version_of (some (number n)) = if ltb 0 n then some n else none
  version_of (some (document x)) = none
  version_of none = none

  abbrev or_first : Option ℕ → S → S → ℕ × S
  or_first (some n) s fresh = (n, s)
  or_first none s fresh = (1, fresh)

  -- `_get_or_init_version`
  unfoldable pub get_or_init_version : S → K → ℕ → ℕ × S
  unfolding safe_cache_get safe_cache_set
  get_or_init_version s k timeout =
      or_first (version_of (safe_cache_get s k)) s (safe_cache_set s k (number 1) timeout).1

  abbrev next_number : Option (Value D) → ℕ
  next_number (some (number n)) = n + 1
  next_number (some (document x)) = 2
  next_number none = 2

  abbrev or_write : Option ℕ → S → K → ℕ → ℕ × S
  or_write (some n) s k timeout = (n, s)
  or_write none s k timeout =
      let n = next_number (safe_cache_get s k) in (n, (safe_cache_set s k (number n) timeout).1)

  abbrev is_true : Option Bool → Bool
  is_true none = false
  is_true (some x) = x

  -- `_bump_version`
  unfoldable pub bump_version : S → K → ℕ → ℕ × S
  unfolding safe_cache_add safe_cache_incr safe_cache_get safe_cache_set
  bump_version s k timeout =
      let (added, s₁) = safe_cache_add s k (number 2) timeout in
      let (value, s₂) = safe_cache_incr s₁ k in
      if is_true added then (2, s₁) else or_write value s₂ k timeout
