-- ===== src/Visibility/Coherence.antt =====
-- The cached teachers and hidden accounts, and the rows they were read from.
use mono256_sic_core.Base.{
  ℕ, ◌≤◌, Bool, Option, none, some, List, [], ◌≡◌, inl, inr, refl, sym, ap, subst, arith,
  Bool-cases,
}
use mono256_sic_core.Cache.{Value, number, document, Backend, get_or_init_version}
use mono256_sic_core.Cache.Laws.{
  IsReliable, IsVersion, look-write_self, look-write_other, safe_cache_get_lem, safe_cache_set_lem,
}
use mono256_sic_core.Cache.Versions.{positive}
use mono256_sic_core.Courses.{School}
use mono256_sic_core.Visibility.Keys.{
  VisibilityKey, student_teacher, teacher_version, teacher_hidden_ids,
}
use mono256_sic_core.Visibility.{
  version_ttl_seconds, TeacherAccountVisibility, id_or_none, enrolled_teacher, hidden_ids,
  cached_or_enrolled, cached_or_hidden, hidden_at, hidden_for, resolve_teacher_id_for_student,
  teacher_visibility_version, hidden_account_ids_for_student,
}

-- A cached teacher is the one of the query.
abbrev pub IsTeacher : Option (Value (List ℕ)) → ℕ → Type 0
IsTeacher none teacher = Unit
IsTeacher (some (number n)) teacher = n ≡ teacher
IsTeacher (some (document ids)) teacher = ⊥

-- A cached list below a version: an older version, or the current one and the list of the query.
abbrev pub IsHiddenList : Option (Value (List ℕ)) → ℕ → ℕ → List ℕ → Type 0
IsHiddenList none version current ids = Unit
IsHiddenList (some (number n)) version current ids = ⊥
IsHiddenList (some (document cached)) version current ids =
    current ≤ version → (version ≡ current) × (cached ≡ ids)

-- What an entry has to be, for the current version of each teacher.
abbrev pub IsTrue :
    (ℕ → ℕ)
    → School
    → List TeacherAccountVisibility
    → VisibilityKey
    → Option (Value (List ℕ))
    → Type 0
IsTrue versions school rows (student_teacher i) v = IsTeacher v (enrolled_teacher school i)
IsTrue versions school rows (teacher_version t) v = IsVersion v (versions t)
IsTrue versions school rows (teacher_hidden_ids t m) v =
    IsHiddenList v m (versions t) (hidden_ids rows t)

-- The accounts that the teacher with that key hides, where there is one.
abbrev pub hidden_by : List TeacherAccountVisibility → Option ℕ → List ℕ
hidden_by rows none = []
hidden_by rows (some t) = hidden_ids rows t

module _ {S : Type 0} (same : VisibilityKey → VisibilityKey → Bool)
    (b : Backend VisibilityKey (List ℕ) S) (laws : IsReliable same b) (timeout : ℕ) where
  abbrev pub IsCoherent : (ℕ → ℕ) → School → List TeacherAccountVisibility → S → Type 0
  IsCoherent versions school rows s =
      (k : VisibilityKey) → IsTrue versions school rows k (laws.look s k)

  module _ (versions : ℕ → ℕ) (school : School) (rows : List TeacherAccountVisibility) where
    -- An entry that is true may be written.
    pub write-IsCoherent :
        (s : S) (k : VisibilityKey) (v : Option (Value (List ℕ)))
        → IsCoherent versions school rows s
        → IsTrue versions school rows k v
        → IsCoherent versions school rows (laws.write s k v)
    write-IsCoherent s k v coherent true_entry j = elim (Bool-cases (same k j)) [
      | inl equal ↦
          subst (λ i. IsTrue versions school rows i (laws.look (laws.write s k v) i))
            ((laws.same_iff k j).0 equal) (rw (look-write_self same b laws s k v) true_entry)
      | inr other ↦ rw (look-write_other same b laws s k j v other) (coherent j)
    ]

    -- A call that answers, and leaves the cache true.
    abbrev pub Answers : {A : Type 0} → A → Option (A × S) → Type 0
    Answers answer none = ⊥
    Answers answer (some (a, s)) = (a ≡ answer) × IsCoherent versions school rows s

    resolve-Answers :
        (s : S) (i : ℕ)
        → IsCoherent versions school rows s
        → Answers
            (id_or_none (enrolled_teacher school i))
            (resolve_teacher_id_for_student b timeout school s i)
    unfolding resolve_teacher_id_for_student
    resolve-Answers s i coherent =
        rw (safe_cache_get_lem same b laws s (student_teacher i))
          (answered (laws.look s (student_teacher i)) (coherent (student_teacher i)))
      where
        answered :
            (v : Option (Value (List ℕ)))
            → IsTeacher v (enrolled_teacher school i)
            → Answers
                (id_or_none (enrolled_teacher school i))
                (cached_or_enrolled b timeout v school s i)
        answered none any = (
          refl,
          rw
              (safe_cache_set_lem same b laws s (student_teacher i)
                (number (enrolled_teacher school i)) timeout)
              (write-IsCoherent s (student_teacher i) (some (number (enrolled_teacher school i)))
                coherent refl),
        )
        answered (some (number n)) e = (ap id_or_none e, coherent)
        answered (some (document ids)) w = absurd w

    -- The version call answers the version, and leaves the cache true.
    version-IsCoherent :
        (s : S) (t : ℕ)
        → IsCoherent versions school rows s
        → ((teacher_visibility_version b timeout s t).0 ≡ versions t)
          × IsCoherent versions school rows (teacher_visibility_version b timeout s t).1
    unfolding teacher_visibility_version get_or_init_version
    version-IsCoherent s t coherent =
        read (laws.look s (teacher_version t)) refl (coherent (teacher_version t))
      where
        read :
            (v : Option (Value (List ℕ)))
            → laws.look s (teacher_version t) ≡ v
            → IsVersion v (versions t)
            → ((teacher_visibility_version b timeout s t).0 ≡ versions t)
              × IsCoherent versions school rows (teacher_visibility_version b timeout s t).1
        read none h one =
            rw
              (
                safe_cache_get_lem same b laws s (teacher_version t),
                h,
                safe_cache_set_lem same b laws s (teacher_version t) (number 1) version_ttl_seconds,
              )
              (
                sym one,
                write-IsCoherent s (teacher_version t) (some (number 1)) coherent
                    (sym one, omega (arith, one)),
              )
        read (some (number m)) h (e, p) =
            rw
              (
                safe_cache_get_lem same b laws s (teacher_version t),
                h,
                positive m (omega (arith, e, p)),
              )
              (e, coherent)
        read (some (document x)) h w = absurd w

    hidden_at-Answers :
        (s : S) (t m : ℕ)
        → m ≡ versions t
        → IsCoherent versions school rows s
        → Answers (hidden_ids rows t) (hidden_at b timeout rows t (m, s))
    hidden_at-Answers s t m current coherent =
        rw (safe_cache_get_lem same b laws s (teacher_hidden_ids t m))
          (answered (laws.look s (teacher_hidden_ids t m)) (coherent (teacher_hidden_ids t m)))
      where
        answered :
            (v : Option (Value (List ℕ)))
            → IsHiddenList v m (versions t) (hidden_ids rows t)
            → Answers (hidden_ids rows t) (cached_or_hidden b timeout v rows s t m)
        answered none any = (
          refl,
          rw
              (safe_cache_set_lem same b laws s (teacher_hidden_ids t m)
                (document (hidden_ids rows t)) timeout)
              (write-IsCoherent s (teacher_hidden_ids t m) (some (document (hidden_ids rows t)))
                coherent (λ below. (current, refl))),
        )
        answered (some (number n)) w = absurd w
        answered (some (document ids)) true_entry =
            ((true_entry (omega (arith, current))).1, coherent)

    -- Over a reliable cache whose entries are true, a student's hidden accounts are those that the teacher
    -- of the student's course hides in the table, none without a teacher; and the entries stay true.
    pub hidden_account_ids_for_student_lem :
        (s : S) (i : ℕ)
        → IsCoherent versions school rows s
        → Answers
            (hidden_by rows (id_or_none (enrolled_teacher school i)))
            (hidden_account_ids_for_student b timeout school rows s i)
    unfolding hidden_account_ids_for_student
    hidden_account_ids_for_student_lem s i coherent =
        answered (resolve_teacher_id_for_student b timeout school s i)
          (resolve-Answers s i coherent)
      where
        from_teacher :
            (teacher : Option ℕ) (s' : S)
            → IsCoherent versions school rows s'
            → Answers (hidden_by rows teacher) (hidden_for b timeout rows (some (teacher, s')))
        from_teacher none s' kept = (refl, kept)
        from_teacher (some t) s' kept =
            let (e, after) = version-IsCoherent s' t kept in
            hidden_at-Answers (teacher_visibility_version b timeout s' t).1 t
              (teacher_visibility_version b timeout s' t).0 e after

        answered :
            (out : Option (Option ℕ × S))
            → Answers (id_or_none (enrolled_teacher school i)) out
            → Answers
                (hidden_by rows (id_or_none (enrolled_teacher school i)))
                (hidden_for b timeout rows out)
        answered none w = absurd w
        answered (some (teacher, s')) (e, kept) =
            subst (λ x. Answers (hidden_by rows x) (hidden_for b timeout rows (some (teacher, s'))))
              e (from_teacher teacher s' kept)
