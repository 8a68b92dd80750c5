-- ===== src/Access/Tests.antt =====
-- Examples for the courses and for who sees what: a school of one course with one student.
use mono256_sic_core.Base.{
  ℕ, Bool, true, false, Option, none, some, List, [], ◌∷◌, String, ◌≡◌, refl, ◌↔◌, arith,
}
use mono256_sic_core.Base.Result.{ok}
use mono256_sic_core.Store.{Role, User, Company}
use mono256_sic_core.Samples.{student, shop}
use mono256_sic_core.Visibility.Keys.{VisibilityKey, student_teacher}
use mono256_sic_core.Samples.Entries.{same_entry, entries}
use mono256_sic_core.Cache.Memory.{Memory, updated}
use mono256_sic_core.Courses.{
  empty_school, Course, CourseEnrollment, School, create_course, enroll_student, enrollment_of,
  set_shared_company_visibility, set_visibility,
}
use mono256_sic_core.Courses.Tables.{IsWellFormedSchool}
use mono256_sic_core.Courses.Reachable.{
  creates, enrolls, Reachable, empty, further, Reachable-IsWellFormedSchool,
}
use mono256_sic_core.Access.{
  company_with, course_with, get_company, list_companies, get_course, list_courses,
}
use mono256_sic_core.Access.Agree.{is_hidden_demo, get_company_iff, get_course_iff}
use mono256_sic_core.Access.Shared.{set_shared_company_visibility_lem}

abbrev teacher : User
teacher = record { id = 2; role = Role.teacher }

abbrev all_valid : String → Option String → Bool
all_valid name code = true

abbrev course : Course
course = record { id = 1; name = "Contabilidad"; code = none; teacher_id = 2 }

abbrev enrollment : CourseEnrollment
enrollment = record { student_id = 9; course_id = 1 }

abbrev opened : School
opened = record empty_school { courses = course ∷ []; next_course_id = 2 }

abbrev school : School
school = record opened { enrollments = enrollment ∷ [] }

abbrev nothing : Memory VisibilityKey (List ℕ)
nothing k = none

school-Reachable : Reachable all_valid entries school
unfolding create_course enroll_student
school-Reachable =
    further opened school
      (further empty_school opened (empty empty_school refl)
        (creates empty_school teacher "Contabilidad" (some "") (course, opened) refl))
      (enrolls opened nothing course student
        (enrollment, school, updated same_entry nothing (student_teacher 9) none) refl)

Reachable-IsWellFormedSchool_example : IsWellFormedSchool school
Reachable-IsWellFormedSchool_example =
    Reachable-IsWellFormedSchool all_valid entries school school-Reachable

-- A company of the teacher.
abbrev model_company : Company
model_company = record shop { id = 8; owner_id = 2 }

abbrev companies : List Company
companies = shop ∷ model_company ∷ []

get_company_iff_example :
    get_company companies school 7 teacher ≡ ok shop
    ↔ (company_with 7 (list_companies companies school teacher) ≡ some shop)
      × (is_hidden_demo school teacher shop ≡ false)
get_company_iff_example = get_company_iff companies school teacher 7 shop (omega arith)

-- The teacher sees the student's company.
teacher-sees : get_company companies school 7 teacher ≡ ok shop
unfolding get_company
teacher-sees = refl

get_course_iff_example :
    get_course school 1 teacher ≡ ok course
    ↔ course_with 1 (list_courses school teacher) ≡ some course
get_course_iff_example = get_course_iff school 1 teacher course (omega arith)

abbrev shared : School
unfolding set_visibility
shared = record school { shared_visibilities = set_visibility school.shared_visibilities 1 8 true }

set_shared_company_visibility_lem_example :
    get_company companies shared 8 student ≡ ok model_company ↔ true ≡ true
unfolding shared set_shared_company_visibility enrollment_of
set_shared_company_visibility_lem_example =
    set_shared_company_visibility_lem companies school shared course model_company true student
      enrollment refl refl refl refl refl refl
