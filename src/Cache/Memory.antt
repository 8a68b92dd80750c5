-- ===== src/Cache/Memory.antt =====
-- A cache in memory that never fails and never forgets: it fills the laws of `Cache.Laws`.
use mono256_sic_core.Base.{
  ℕ, ◌+◌, Bool, true, false, Option, none, some, ◌≡◌, refl, ◌↔◌, if◌then◌else◌, is_some,
}
use mono256_sic_core.Cache.{Value, number, document, Backend}
use mono256_sic_core.Cache.Laws.{IsReliable}

abbrev pub Memory : Type 0 → Type 0 → Type 0
Memory K D = K → Option (Value D)

module _ {K D : Type 0} (same : K → K → Bool) where
  abbrev pub updated : Memory K D → K → Option (Value D) → Memory K D
  updated s k v j = if same k j then v else s j

  abbrev added : Option (Value D) → Memory K D → K → Value D → Bool × Memory K D
  added old s k v = if is_some old then (false, s) else (true, updated s k (some v))

  abbrev counted_up : Option (Value D) → Memory K D → K → Option (ℕ × Memory K D)
  counted_up none s k = none
  counted_up (some (number n)) s k = some (n + 1, updated s k (some (number (n + 1))))
  counted_up (some (document d)) s k = none

  abbrev pub memory : Backend K D (Memory K D)
  memory = record {
    get = λ s k. some (s k);
    set = λ s k v timeout. some (updated s k (some v));
    delete = λ s k. some (updated s k none);
    add = λ s k v timeout. some (added (s k) s k v);
    incr = λ s k. counted_up (s k) s k;
  }

  abbrev pub memory-IsReliable : ((j k : K) → same j k ≡ true ↔ j ≡ k) → IsReliable same memory
  memory-IsReliable same_iff = record {
    same_iff = same_iff;
    look = λ s k. s k;
    write = updated;
    look-write = λ s k j v. refl;
    get_lem = λ s k. refl;
    set_lem = λ s k v t. refl;
    delete_lem = λ s k. refl;
    add_lem = λ s k v t. refl;
    incr_lem = λ s k n h. rw h refl;
  }
