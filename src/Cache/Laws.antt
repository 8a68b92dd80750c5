-- ===== src/Cache/Laws.antt =====
-- What the program relies on of the cache while no entry expires and the backend answers.
use mono256_sic_core.Base.{
  ℕ, ◌+◌, ◌<◌, Bool, true, false, Option, none, some, ◌≡◌, refl, ◌∙◌, ◌↔◌, if◌then◌else◌, is_some,
}
use mono256_sic_core.Cache.{
  Value, number, document, Backend, safe_cache_get, safe_cache_set, safe_cache_delete,
  safe_cache_add, safe_cache_incr,
}

-- Django's documented behaviour: `add` keeps what is there, `incr` wants a number.
pub record IsReliable {K D S : Type 0} (same : K → K → Bool) (b : Backend K D S) : Type 0 where
  pub same_iff : (j k : K) → same j k ≡ true ↔ j ≡ k
  pub look : S → K → Option (Value D)
  pub write : S → K → Option (Value D) → S
  pub look-write :
      (s : S) (k j : K) (v : Option (Value D))
      → look (write s k v) j ≡ (if same k j then v else look s j)
  pub get_lem : (s : S) (k : K) → b.get s k ≡ some (look s k)
  pub set_lem : (s : S) (k : K) (v : Value D) (t : ℕ) → b.set s k v t ≡ some (write s k (some v))
  pub delete_lem : (s : S) (k : K) → b.delete s k ≡ some (write s k none)
  pub add_lem :
      (s : S) (k : K) (v : Value D) (t : ℕ)
      → b.add s k v t ≡ some (if is_some (look s k) then (false, s) else (true, write s k (some v)))
  pub incr_lem :
      (s : S) (k : K) (n : ℕ)
      → look s k ≡ some (number n)
      → b.incr s k ≡ some (n + 1, write s k (some (number (n + 1))))

-- A number below the key, or nothing.
abbrev pub IsCounter : {D : Type 0} → Option (Value D) → ℕ → Type 0
IsCounter none n = n ≡ 0
IsCounter (some (number m)) n = m ≡ n
IsCounter (some (document x)) n = ⊥

-- The version that an entry stands for: 1 where there is none.
abbrev pub IsVersion : {D : Type 0} → Option (Value D) → ℕ → Type 0
IsVersion none n = n ≡ 1
IsVersion (some (number m)) n = (m ≡ n) × (0 < n)
IsVersion (some (document x)) n = ⊥

module _ {K D S : Type 0} (same : K → K → Bool) (b : Backend K D S) (r : IsReliable same b) where
  open r use {look, write, look-write, same_iff, get_lem, set_lem, delete_lem, add_lem, incr_lem}

  pub look-write_self : (s : S) (k : K) (v : Option (Value D)) → look (write s k v) k ≡ v
  look-write_self s k v = look-write s k k v ∙ rw ((same_iff k k).1 refl)

  pub look-write_other :
      (s : S) (k j : K) (v : Option (Value D)) → same k j ≡ false → look (write s k v) j ≡ look s j
  look-write_other s k j v h = look-write s k j v ∙ rw h

  pub safe_cache_get_lem : (s : S) (k : K) → safe_cache_get b s k ≡ look s k
  unfolding safe_cache_get
  safe_cache_get_lem s k = rw (get_lem s k, safe_cache_get)

  pub safe_cache_set_lem :
      (s : S) (k : K) (v : Value D) (t : ℕ) → safe_cache_set b s k v t ≡ (true, write s k (some v))
  unfolding safe_cache_set
  safe_cache_set_lem s k v t = rw (set_lem s k v t, safe_cache_set)

  pub safe_cache_delete_lem : (s : S) (k : K) → safe_cache_delete b s k ≡ (true, write s k none)
  unfolding safe_cache_delete
  safe_cache_delete_lem s k = rw (delete_lem s k, safe_cache_delete)

  pub safe_cache_add_new :
      (s : S) (k : K) (v : Value D) (t : ℕ)
      → look s k ≡ none
      → safe_cache_add b s k v t ≡ (some true, write s k (some v))
  unfolding safe_cache_add
  safe_cache_add_new s k v t h = rw (add_lem s k v t, h, safe_cache_add)

  pub safe_cache_add_old :
      (s : S) (k : K) (v w : Value D) (t : ℕ)
      → look s k ≡ some w
      → safe_cache_add b s k v t ≡ (some false, s)
  unfolding safe_cache_add
  safe_cache_add_old s k v w t h = rw (add_lem s k v t, h, safe_cache_add)

  pub safe_cache_incr_lem :
      (s : S) (k : K) (n : ℕ)
      → look s k ≡ some (number n)
      → safe_cache_incr b s k ≡ (some (n + 1), write s k (some (number (n + 1))))
  unfolding safe_cache_incr
  safe_cache_incr_lem s k n h = rw (incr_lem s k n h, safe_cache_incr)
