-- ===== src/Closing/Support/Fresh.antt =====
-- The number that a new support account gets below its colectiva.
use mono256_sic_core.Base.{
  ℕ, zero, suc, ◌+◌, ◌<◌, true, false, none, some, List, ◌≡◌, refl, inl, inr, arith, ◌↔◌, contains,
  where_, Bool-cases, some_inj,
}
use mono256_sic_core.Store.{Account, Db}
use mono256_sic_core.Closing.Support.{is_child_of, suffixes_of, first_free, next_child_number}

-- The `count` numbers from `candidate` on are taken.
abbrev pub AllTaken : List ℕ → ℕ → ℕ → Type 0
AllTaken taken zero candidate = Unit
AllTaken taken (suc count) candidate =
    (contains candidate taken ≡ true) × AllTaken taken count (candidate + 1)

-- The number is free, it is one of the candidates, and all candidates before it are taken.
pub record IsFirstFree (taken : List ℕ) (count candidate k : ℕ) : Type 0 where
  pub free : contains k taken ≡ false
  pub tried : ℕ
  pub offset : k ≡ candidate + tried
  pub within : tried < count
  pub before : AllTaken taken tried candidate

first_free-some :
    (taken : List ℕ) (count candidate k : ℕ)
    → first_free taken count candidate ≡ some k
    → IsFirstFree taken count candidate k
unfolding first_free
first_free-some taken zero candidate k h = cc
first_free-some taken (suc count) candidate k h = elim (Bool-cases (contains candidate taken)) [
  | inl used ↦
      let later = first_free-some taken count (candidate + 1) k (rw used at h) in
      record {
        free = later.free;
        tried = suc later.tried;
        offset = omega (arith, later.offset);
        within = omega (arith, later.within);
        before = (used, later.before);
      }
  | inr unused ↦
      let same : candidate ≡ k = some_inj (rw unused at h) in
      record {
        free = rw (← same) unused;
        tried = 0;
        offset = omega (arith, same);
        within = omega arith;
        before = tt;
      }
]

first_free-none :
    (taken : List ℕ) (count candidate : ℕ)
    → first_free taken count candidate ≡ none ↔ AllTaken taken count candidate
unfolding first_free
first_free-none taken zero candidate = ((λ h. tt), (λ h. refl))
first_free-none taken (suc count) candidate = elim (Bool-cases (contains candidate taken)) [
  | inl used ↦
      let more = first_free-none taken count (candidate + 1) in
      ((λ h. (used, more.0 (rw used at h))), (λ h. rw used (more.1 h.1)))
  | inr unused ↦ ((λ h. cc (rw unused at h)), (λ h. absurd (cc (unused, h.0))))
]

-- The number of a new account is the least of 1 to 99 that no child of the colectiva has.
pub next_child_number-IsFirstFree :
    (db : Db) (parent : Account) (k : ℕ)
    → next_child_number db parent ≡ some k
    → IsFirstFree (suffixes_of (where_ (is_child_of parent.id) db.accounts)) 99 1 k
unfolding next_child_number
next_child_number-IsFirstFree db parent k h = first_free-some _ 99 1 k h

-- There is no such number exactly if the children have all of 1 to 99.
pub next_child_number-none :
    (db : Db) (parent : Account)
    → next_child_number db parent ≡ none
      ↔ AllTaken (suffixes_of (where_ (is_child_of parent.id) db.accounts)) 99 1
unfolding next_child_number
next_child_number-none db parent =
    first_free-none (suffixes_of (where_ (is_child_of parent.id) db.accounts)) 99 1
