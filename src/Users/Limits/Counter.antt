-- ===== src/Users/Limits/Counter.antt =====
-- `_incr_counter` over a reliable cache.
use mono256_sic_core.Base.{ℕ, ◌+◌, Bool, false, Option, none, some, ◌≡◌, refl, ◌∙◌, arith}
use mono256_sic_core.Cache.{Value, number, document, Backend}
use mono256_sic_core.Cache.Laws.{
  IsReliable, IsCounter, look-write_self, look-write_other, safe_cache_add_new, safe_cache_add_old,
  safe_cache_incr_lem,
}
use mono256_sic_core.Users.Limits.{incr_counter}

module _ {K D S : Type 0} (same : K → K → Bool) (b : Backend K D S) (r : IsReliable same b) (s : S)
    (k : K) (timeout : ℕ) where
  first_count :
      r.look s k ≡ none
      → incr_counter b s k timeout
        ≡ (some 1, r.write (r.write s k (some (number 0))) k (some (number 1)))
  unfolding incr_counter
  first_count h = rw (
    safe_cache_add_new same b r s k (number 0) timeout h,
    safe_cache_incr_lem same b r _ k 0 (look-write_self same b r s k (some (number 0))),
  )

  later_count :
      (m : ℕ)
      → r.look s k ≡ some (number m)
      → incr_counter b s k timeout ≡ (some (m + 1), r.write s k (some (number (m + 1))))
  unfolding incr_counter
  later_count m h = rw (
    safe_cache_add_old same b r s k (number 0) (number m) timeout h,
    safe_cache_incr_lem same b r s k m h,
  )

  -- What one count does: it answers the next number, leaves it below the key, and keeps the rest.
  pub incr_counter_lem :
      (n : ℕ)
      → IsCounter (r.look s k) n
      → ((incr_counter b s k timeout).0 ≡ some (n + 1))
        × IsCounter (r.look (incr_counter b s k timeout).1 k) (n + 1)
        × ((j : K) → same k j ≡ false → r.look (incr_counter b s k timeout).1 j ≡ r.look s j)
  incr_counter_lem n counter = counted (r.look s k) refl counter
    where
      counted :
          (v : Option (Value D))
          → r.look s k ≡ v
          → IsCounter v n
          → ((incr_counter b s k timeout).0 ≡ some (n + 1))
            × IsCounter (r.look (incr_counter b s k timeout).1 k) (n + 1)
            × ((j : K) → same k j ≡ false → r.look (incr_counter b s k timeout).1 j ≡ r.look s j)
      counted none h zero_count =
          rw (first_count h, look-write_self same b r _ k (some (number 1)), zero_count)
            (
              refl,
              omega arith,
              λ j other.
                  look-write_other same b r _ k j (some (number 1)) other
                  ∙ look-write_other same b r s k j (some (number 0)) other,
            )
      counted (some (number m)) h e =
          rw (later_count m h, look-write_self same b r _ k (some (number (m + 1))), e)
            (refl, omega arith, λ j other. look-write_other same b r s k j _ other)
      counted (some (document d)) h w = absurd w
