-- ===== src/Visibility/Overrides.antt =====
-- What a teacher's write means to the students.
use mono256_sic_core.Base.{
  ℕ, zero, suc, ◌+◌, ◌<◌, Bool, true, false, not, ◌&&◌, Option, none, some, List, ◌≡◌, ◌≢◌, refl,
  sym, ap, subst, arith, inl, inr, ◌==◌, ==_refl, ==→eq, Bool-cases, if◌then◌else◌, contains,
}
use mono256_sic_core.Cache.{Value, number, document, Backend}
use mono256_sic_core.Cache.Laws.{IsReliable, IsVersion, look-write_self, look-write_other}
use mono256_sic_core.Cache.Versions.{bump_version-write}
use mono256_sic_core.Courses.{School}
use mono256_sic_core.Visibility.Keys.{
  VisibilityKey, student_teacher, teacher_version, teacher_hidden_ids,
}
use mono256_sic_core.Visibility.{
  version_ttl_seconds, TeacherAccountVisibility, id_or_none, enrolled_teacher, hidden_ids,
  set_override, update_override, bump_teacher_visibility_cache_version,
  hidden_account_ids_for_student, is_hidden_for_student,
}
use mono256_sic_core.Visibility.Coherence.{
  IsHiddenList, IsTrue, IsCoherent, Answers, hidden_by, hidden_account_ids_for_student_lem,
}
use mono256_sic_core.Visibility.Rows.{hidden_ids-set_override, hidden_ids-set_override_other}

-- The versions behind a bump of the teacher's.
abbrev pub bumped : (ℕ → ℕ) → ℕ → ℕ → ℕ
bumped versions t u = if u == t then versions u + 1 else versions u

older-IsHiddenList :
    (v : Option (Value (List ℕ))) (m current : ℕ) (ids new_ids : List ℕ)
    → IsHiddenList v m current ids
    → IsHiddenList v m (current + 1) new_ids
older-IsHiddenList none m current ids new_ids h = tt
older-IsHiddenList (some (number n)) m current ids new_ids h = absurd h
older-IsHiddenList (some (document cached)) m current ids new_ids h =
    λ below. absurd (omega (arith, below, (h (omega (arith, below))).0))

module _ {S : Type 0} (same : VisibilityKey → VisibilityKey → Bool)
    (b : Backend VisibilityKey (List ℕ) S) (laws : IsReliable same b) (timeout : ℕ)
    (versions : ℕ → ℕ) (school : School) (rows : List TeacherAccountVisibility) (s : S)
    (coherent : IsCoherent same b laws timeout versions school rows s) (t account : ℕ)
    (visible : Bool) where
  -- The table behind the write, and the cache.
  abbrev new_rows : List TeacherAccountVisibility
  new_rows = set_override rows t account visible

  abbrev new_cache : S
  new_cache = (update_override b timeout rows s t account visible).1

  not_other : (u : ℕ) → (u == t) ≡ true → same (teacher_version t) (teacher_version u) ≢ false
  not_other u e other =
      let here =
        (laws.same_iff (teacher_version t) (teacher_version u)).1
          (ap teacher_version (sym (==→eq u t e))) in
      cc

  next-IsVersion :
      (v : Option (Value (List ℕ)))
      → v ≡ some (number (versions t + 1))
      → IsVersion v (bumped versions t t)
  next-IsVersion v e = rw (e, ==_refl t) (refl, omega arith)

  kept :
      (k : VisibilityKey)
      → same (teacher_version t) k ≡ false
      → IsTrue (bumped versions t) school new_rows k (laws.look s k)
  kept (student_teacher i) other = coherent (student_teacher i)
  kept (teacher_version u) other = elim (Bool-cases (u == t)) [
    | inl e ↦ absurd (not_other u e other)
    | inr e ↦ rw e (coherent (teacher_version u))
  ]
  kept (teacher_hidden_ids u m) other = elim (Bool-cases (u == t)) [
    | inl e ↦ rw e (
        older-IsHiddenList (laws.look s (teacher_hidden_ids u m)) m (versions u) (hidden_ids rows u)
          (hidden_ids new_rows u) (coherent (teacher_hidden_ids u m)))
    | inr e ↦
        rw (e, hidden_ids-set_override_other rows t account u visible e)
          (coherent (teacher_hidden_ids u m))
  ]

  update_override-IsCoherent :
      IsCoherent same b laws timeout (bumped versions t) school new_rows new_cache
  unfolding update_override bump_teacher_visibility_cache_version
  update_override-IsCoherent k =
      rw
        (bump_version-write same b laws s (teacher_version t) version_ttl_seconds (versions t)
          (coherent (teacher_version t)))
        (elim (Bool-cases (same (teacher_version t) k)) [
          | inl equal ↦
              subst
                (λ i.
                  IsTrue (bumped versions t) school new_rows i (
                    laws.look (laws.write s (teacher_version t) (some (number (versions t + 1))))
                      i))
                ((laws.same_iff (teacher_version t) k).0 equal)
                (next-IsVersion _ (
                  look-write_self same b laws s (teacher_version t)
                    (some (number (versions t + 1)))))
          | inr other ↦
              rw
                (look-write_other same b laws s (teacher_version t) k
                  (some (number (versions t + 1))) other)
                (kept k other)
        ])

  is_hidden-Answers :
      (i x : ℕ)
      → Answers same b laws timeout
          (bumped versions t)
          school
          new_rows
          (contains x (hidden_by new_rows (id_or_none (enrolled_teacher school i))))
          (is_hidden_for_student b timeout school new_rows new_cache i x)
  unfolding is_hidden_for_student
  is_hidden-Answers i x =
      asked (hidden_account_ids_for_student b timeout school new_rows new_cache i) (
        hidden_account_ids_for_student_lem same b laws timeout (bumped versions t) school new_rows
          new_cache i update_override-IsCoherent)
    where
      asked :
          (out : Option (List ℕ × S))
          → Answers same b laws timeout
              (bumped versions t)
              school
              new_rows
              (hidden_by new_rows (id_or_none (enrolled_teacher school i)))
              out
          → Answers same b laws timeout
              (bumped versions t)
              school
              new_rows
              (contains x (hidden_by new_rows (id_or_none (enrolled_teacher school i))))
              (elim out [ none ↦ none | some (ids, s') ↦ some (contains x ids, s') ])
      asked none w = absurd w
      asked (some (ids, s')) (e, after) = (ap (λ y. contains x y) e, after)

  hidden_by_new :
      (teacher x : ℕ)
      → 0 < t
      → contains x (hidden_by new_rows (id_or_none teacher)) ≡ (
          if teacher == t && x == account
          then not visible
          else contains x (hidden_by rows (id_or_none teacher)))
  hidden_by_new zero x p = ground arith
  hidden_by_new (suc n) x p = elim (Bool-cases (suc n == t)) [
    | inl e ↦
        subst
          (λ u.
            contains x (hidden_ids new_rows u)
            ≡ (if u == t && x == account then not visible else contains x (hidden_ids rows u)))
          (sym (==→eq (suc n) t e))
          (rw (==_refl t) (hidden_ids-set_override rows t account x visible))
    | inr e ↦ rw (e, hidden_ids-set_override_other rows t account (suc n) visible e) refl
  ]

  -- Over a reliable cache whose entries are true, after a teacher with a key above 0 shows or hides an
  -- account: the next question of any student about any account is answered by the write for that teacher's
  -- students and that account, and by the table of before otherwise, though lists of before are cached;
  -- and the entries stay true.
  pub update_override_lem :
      (i x : ℕ)
      → 0 < t
      → Answers same b laws timeout
          (bumped versions t)
          school
          new_rows
          (if enrolled_teacher school i == t && x == account
            then not visible
            else contains x (hidden_by rows (id_or_none (enrolled_teacher school i))))
          (is_hidden_for_student b timeout school
            (update_override b timeout rows s t account visible).0
            (update_override b timeout rows s t account visible).1
            i
            x)
  unfolding update_override
  update_override_lem i x p =
      subst
        (λ answer.
          Answers same b laws timeout (bumped versions t) school new_rows answer
            (is_hidden_for_student b timeout school new_rows new_cache i x))
        (hidden_by_new (enrolled_teacher school i) x p) (is_hidden-Answers i x)
