-- ===== src/Cache/Versions.antt =====
-- `_get_or_init_version` and `_bump_version`.
use mono256_sic_core.Base.{ℕ, ◌+◌, ◌<◌, Bool, true, Option, none, some, ◌≡◌, refl, sym, arith, ltb}
use mono256_sic_core.Cache.{Value, number, document, Backend, get_or_init_version, bump_version}
use mono256_sic_core.Cache.Laws.{
  IsReliable, IsVersion, look-write_self, safe_cache_get_lem, safe_cache_set_lem,
  safe_cache_add_new, safe_cache_add_old, safe_cache_incr_lem,
}

pub positive : (n : ℕ) → 0 < n → ltb 0 n ≡ true
positive n h = ground arith

module _ {K D S : Type 0} (same : K → K → Bool) (b : Backend K D S) (r : IsReliable same b) (s : S)
    (k : K) (timeout n : ℕ) (version : IsVersion (r.look s k) n) where
  -- With a reliable cache, reading the version answers the one that the entry stands for, and keeps it.
  pub get_or_init_version_lem :
      ((get_or_init_version b s k timeout).0 ≡ n)
      × IsVersion (r.look (get_or_init_version b s k timeout).1 k) n
  unfolding get_or_init_version
  get_or_init_version_lem = kept (r.look s k) refl version
    where
      kept :
          (v : Option (Value D))
          → r.look s k ≡ v
          → IsVersion v n
          → ((get_or_init_version b s k timeout).0 ≡ n)
            × IsVersion (r.look (get_or_init_version b s k timeout).1 k) n
      kept none h one =
          rw
            (
              safe_cache_get_lem same b r s k,
              h,
              safe_cache_set_lem same b r s k (number 1) timeout,
              look-write_self same b r s k (some (number 1)),
            )
            (sym one, (sym one, omega (arith, one)))
      kept (some (number m)) h (e, p) =
          rw (safe_cache_get_lem same b r s k, h, positive m (omega (arith, e, p))) (e, rw h (e, p))
      kept (some (document x)) h w = absurd w

  -- With a reliable cache, a bump answers the next version, and leaves it below the key.
  pub bump_version_lem :
      ((bump_version b s k timeout).0 ≡ n + 1)
      × IsVersion (r.look (bump_version b s k timeout).1 k) (n + 1)
  unfolding bump_version
  bump_version_lem = bumped (r.look s k) refl version
    where
      bumped :
          (v : Option (Value D))
          → r.look s k ≡ v
          → IsVersion v n
          → ((bump_version b s k timeout).0 ≡ n + 1)
            × IsVersion (r.look (bump_version b s k timeout).1 k) (n + 1)
      bumped none h one =
          rw
            (
              safe_cache_add_new same b r s k (number 2) timeout h,
              look-write_self same b r s k (some (number 2)),
            )
            (omega (arith, one), (omega (arith, one), omega arith))
      bumped (some (number m)) h (e, p) =
          rw
            (
              safe_cache_add_old same b r s k (number 2) (number m) timeout h,
              safe_cache_incr_lem same b r s k m h,
              look-write_self same b r s k (some (number (m + 1))),
            )
            (omega (arith, e), (omega (arith, e), omega arith))
      bumped (some (document x)) h w = absurd w

  -- What a bump leaves is one write of the next version.
  pub bump_version-write : (bump_version b s k timeout).1 ≡ r.write s k (some (number (n + 1)))
  unfolding bump_version
  bump_version-write = written (r.look s k) refl version
    where
      written :
          (v : Option (Value D))
          → r.look s k ≡ v
          → IsVersion v n
          → (bump_version b s k timeout).1 ≡ r.write s k (some (number (n + 1)))
      written none h one = rw (safe_cache_add_new same b r s k (number 2) timeout h, one) refl
      written (some (number m)) h (e, p) =
          rw
            (
              safe_cache_add_old same b r s k (number 2) (number m) timeout h,
              safe_cache_incr_lem same b r s k m h,
              e,
            )
            refl
      written (some (document x)) h w = absurd w
