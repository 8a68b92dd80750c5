-- ===== src/Visibility/Tests.antt =====
-- Examples: a student whose teacher's hidden accounts are cached.
use mono256_sic_core.Base.{ℕ, ◌<◌, true, false, none, some, List, [], ◌∷◌, refl, arith}
use mono256_sic_core.Cache.{number, document}
use mono256_sic_core.Cache.Memory.{Memory, updated}
use mono256_sic_core.Courses.{
  unenroll_student, Course, CourseEnrollment, School, empty_school, enrollment_of,
}
use mono256_sic_core.Visibility.Keys.{
  VisibilityKey, student_teacher, teacher_version, teacher_hidden_ids,
}
use mono256_sic_core.Visibility.{
  TeacherAccountVisibility, enrolled_teacher, hidden_ids, hidden_account_ids_for_student,
  is_hidden_for_student, update_override,
}
use mono256_sic_core.Visibility.Coherence.{
  write-IsCoherent, IsTrue, IsCoherent, Answers, hidden_account_ids_for_student_lem,
}
use mono256_sic_core.Store.{User, Role}
use mono256_sic_core.Visibility.Enrolled.{Moves, unenrolls, Moves-IsCoherent}
use mono256_sic_core.Samples.Entries.{same_entry, entries, entries-IsReliable}
use mono256_sic_core.Visibility.Overrides.{bumped, update_override_lem}

abbrev course : Course
course = record { id = 1; name = "Contabilidad"; code = none; teacher_id = 2 }

abbrev enrolment : CourseEnrollment
enrolment = record { student_id = 9; course_id = 1 }

abbrev school : School
school = record empty_school { courses = course ∷ []; enrollments = enrolment ∷ [] }

-- The teacher hides account 5.
abbrev rows : List TeacherAccountVisibility
rows = record { teacher_id = 2; account_id = 5; is_visible = false } ∷ []

abbrev first : ℕ → ℕ
first t = 1

abbrev nothing : Memory VisibilityKey (List ℕ)
nothing k = none

-- The hidden accounts of the teacher are cached.
abbrev warm : Memory VisibilityKey (List ℕ)
warm = updated same_entry nothing (teacher_hidden_ids 2 1) (some (document (5 ∷ [])))

nothing-IsCoherent : (k : VisibilityKey) → IsTrue first school rows k none
nothing-IsCoherent (student_teacher i) = tt
nothing-IsCoherent (teacher_version t) = refl
nothing-IsCoherent (teacher_hidden_ids t m) = tt

warm-IsCoherent : IsCoherent same_entry entries entries-IsReliable 300 first school rows warm
unfolding hidden_ids
warm-IsCoherent =
    write-IsCoherent same_entry entries entries-IsReliable 300 first school rows nothing
      (teacher_hidden_ids 2 1) (some (document (5 ∷ []))) nothing-IsCoherent (λ below. (refl, refl))

hidden_account_ids_for_student_lem_example :
    Answers same_entry entries entries-IsReliable 300 first school rows
      (5 ∷ [])
      (hidden_account_ids_for_student entries 300 school rows warm 9)
unfolding enrolled_teacher enrollment_of hidden_ids
hidden_account_ids_for_student_lem_example =
    hidden_account_ids_for_student_lem same_entry entries entries-IsReliable 300 first school rows
      warm 9 warm-IsCoherent

two-positive : 0 < 2
two-positive = omega arith

update_override_lem_example :
    Answers same_entry entries entries-IsReliable 300
      (bumped first 2)
      school
      (update_override entries 300 rows warm 2 5 true).0
      false
      (is_hidden_for_student entries 300 school
        (update_override entries 300 rows warm 2 5 true).0
        (update_override entries 300 rows warm 2 5 true).1
        9
        5)
unfolding update_override enrolled_teacher enrollment_of
update_override_lem_example =
    update_override_lem same_entry entries entries-IsReliable 300 first school rows warm
      warm-IsCoherent 2 5 true 9 5 two-positive

abbrev student : User
student = record { id = 9; role = Role.student }

abbrev left_school : School
left_school = record school { enrollments = [] }

-- The student's teacher is cached before the student leaves the course.
abbrev known : Memory VisibilityKey (List ℕ)
known = updated same_entry warm (student_teacher 9) (some (number 2))

known-IsCoherent : IsCoherent same_entry entries entries-IsReliable 300 first school rows known
unfolding enrolled_teacher enrollment_of
known-IsCoherent =
    write-IsCoherent same_entry entries entries-IsReliable 300 first school rows warm
      (student_teacher 9) (some (number 2)) warm-IsCoherent refl

abbrev forgetful : Memory VisibilityKey (List ℕ)
forgetful = updated same_entry known (student_teacher 9) none

leaves : Moves entries school known course student left_school forgetful
unfolding unenroll_student
leaves = unenrolls (left_school, forgetful) refl

Moves-IsCoherent_example :
    IsCoherent same_entry entries entries-IsReliable 300 first left_school rows forgetful
Moves-IsCoherent_example =
    Moves-IsCoherent same_entry entries entries-IsReliable 300 first school rows known
      known-IsCoherent student left_school forgetful course leaves
