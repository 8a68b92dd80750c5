-- ===== src/Visibility/Enrolled.antt =====
-- The cached teachers behind an enrolment and its end: enroll_student and unenroll_student of
-- apps/courses/services.py over the cache that they invalidate.
use mono256_sic_core.Base.{
  ℕ, Bool, true, false, not, Option, none, some, List, [], ◌∷◌, ◌≡◌, refl, sym, ap, subst, arith,
  inl, inr, ◌==◌, ==→eq, Bool-cases, where_, find, exists,
}
use mono256_sic_core.Base.Result.{ok, raise_if, ok-injective, >>=-eq-ok}
use mono256_sic_core.Store.{User, is_student}
use mono256_sic_core.Cache.{Backend}
use mono256_sic_core.Cache.Laws.{
  IsReliable, look-write_self, look-write_other, safe_cache_delete_lem,
}
use mono256_sic_core.Courses.{
  School, Course, CourseEnrollment, enrollment_of, enroll_new, is_enrollment, enroll_student,
  unenroll_student,
}
use mono256_sic_core.Visibility.Keys.{
  VisibilityKey, student_teacher, teacher_version, teacher_hidden_ids,
  invalidate_student_teacher_cache,
}
use mono256_sic_core.Visibility.{TeacherAccountVisibility, enrolled_teacher}
use mono256_sic_core.Visibility.Coherence.{IsTrue, IsCoherent}

-- The rows of other students are found as before.
find-where_ :
    (course : Course) (student : User) (j : ℕ) (rows : List CourseEnrollment)
    → (student.id == j) ≡ false
    → find (λ e. e.student_id == j) (where_ (λ e. not (is_enrollment course student e)) rows)
      ≡ find (λ e. e.student_id == j) rows
find-where_ course student j [] other = refl
find-where_ course student j (e ∷ rows) other = elim (Bool-cases (is_enrollment course student e)) [
  | inl gone ↦ rw (gone, not_theirs gone) (find-where_ course student j rows other)
  | inr stays ↦ rw (stays, find-where_ course student j rows other) refl
]
  where
    not_theirs : is_enrollment course student e ≡ true → (e.student_id == j) ≡ false
    not_theirs gone = ground arith

module _ {S : Type 0} (b : Backend VisibilityKey (List ℕ) S) where
  -- A call that succeeds, from the tables and the cache to those of then.
  pub data Moves (school : School) (s : S) (course : Course) (student : User)
      : School → S → Type 0 where
    enrolls :
        (out : CourseEnrollment × School × S)
        → enroll_student b school s course student ≡ ok out
        → Moves school s course student out.1 out.2
    unenrolls :
        (out : School × S)
        → unenroll_student b school s course student ≡ ok out
        → Moves school s course student out.0 out.1

module _ {S : Type 0} (same : VisibilityKey → VisibilityKey → Bool)
    (b : Backend VisibilityKey (List ℕ) S) (laws : IsReliable same b) (timeout : ℕ)
    (versions : ℕ → ℕ) (school : School) (rows : List TeacherAccountVisibility) (s : S)
    (coherent : IsCoherent same b laws timeout versions school rows s) (student : User) where
  same_student :
      (i : ℕ)
      → same (student_teacher student.id) (student_teacher i) ≡ false
      → (student.id == i) ≡ false
  same_student i other = elim (Bool-cases (student.id == i)) [
    | inl here ↦
        let there =
          (laws.same_iff (student_teacher student.id) (student_teacher i)).1
            (ap student_teacher (==→eq student.id i here)) in
        cc
    | inr away ↦ away
  ]

  -- Where only the student's own teacher changes, the dropped entry is the only one that could be wrong.
  invalidate_student_teacher_cache-IsCoherent :
      (after : School)
      → ((j : ℕ) → (student.id == j) ≡ false → enrolled_teacher after j ≡ enrolled_teacher school j)
      → IsCoherent same b laws timeout versions after rows
          (invalidate_student_teacher_cache b s student.id)
  unfolding invalidate_student_teacher_cache
  invalidate_student_teacher_cache-IsCoherent after others k =
      rw
        (
          invalidate_student_teacher_cache,
          safe_cache_delete_lem same b laws s (student_teacher student.id),
        )
        (elim (Bool-cases (same (student_teacher student.id) k)) [
          | inl equal ↦
              subst
                (λ i.
                  IsTrue versions after rows i
                    (laws.look (laws.write s (student_teacher student.id) none) i))
                ((laws.same_iff (student_teacher student.id) k).0 equal)
                (rw (look-write_self same b laws s (student_teacher student.id) none) tt)
          | inr other ↦
              rw (look-write_other same b laws s (student_teacher student.id) k none other)
                (kept k other)
        ])
    where
      kept :
          (j : VisibilityKey)
          → same (student_teacher student.id) j ≡ false
          → IsTrue versions after rows j (laws.look s j)
      kept (student_teacher i) other =
          rw (others i (same_student i other)) (coherent (student_teacher i))
      kept (teacher_version t) other = coherent (teacher_version t)
      kept (teacher_hidden_ids t m) other = coherent (teacher_hidden_ids t m)

  enroll_new-IsCoherent :
      (found : Option CourseEnrollment) (course : Course) (out : CourseEnrollment × School × S)
      → enroll_new b found school s course student ≡ ok out
      → IsCoherent same b laws timeout versions out.1 rows out.2
  unfolding enrolled_teacher enrollment_of
  enroll_new-IsCoherent none course out returned = rw (sym (ok-injective returned)) (
      invalidate_student_teacher_cache-IsCoherent
        (record school {
          enrollments =
              record { student_id = student.id; course_id = course.id } ∷ school.enrollments;
        })
        (λ j other. rw other refl))
  enroll_new-IsCoherent (some existing) course out returned =
      let (done, here, rest) =
        >>=-eq-ok (raise_if (not (existing.course_id == course.id)) _) _ returned in
      rw (sym (ok-injective rest)) coherent

  -- Over a reliable cache whose entries are true to the tables: an enrolment of a student that succeeds, or
  -- the end of one, leaves tables and a cache whose entries are true to them.
  pub Moves-IsCoherent :
      (after : School) (s' : S) (course : Course)
      → Moves b school s course student after s'
      → IsCoherent same b laws timeout versions after rows s'
  unfolding enroll_student unenroll_student enrolled_teacher enrollment_of
  Moves-IsCoherent after s' course (enrolls out returned) =
      let (done, role, rest) = >>=-eq-ok (raise_if (not (is_student student.role)) _) _ returned in
      enroll_new-IsCoherent (enrollment_of school student.id) course out rest
  Moves-IsCoherent after s' course (unenrolls out returned) =
      let (done, there, rest) =
        >>=-eq-ok (raise_if (not (exists (is_enrollment course student) school.enrollments)) _) _
          returned in
      subst (λ o. IsCoherent same b laws timeout versions o.0 rows o.1) (ok-injective rest)
        (invalidate_student_teacher_cache-IsCoherent
          (record school {
            enrollments = where_ (λ e. not (is_enrollment course student e)) school.enrollments;
          })
          (λ j other. rw (find-where_ course student j school.enrollments other) refl))
