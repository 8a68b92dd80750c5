-- ===== src/Courses.antt =====
-- Courses (apps/courses): the tables of apps/courses/models.py, and the services that write them.
pub mod Tables
pub mod Reachable
use mono256_sic_core.Base.{
  ℕ, ◌+◌, Bool, true, false, not, ◌&&◌, ◌||◌, Option, none, some, List, [], ◌∷◌, map, String,
  str_eq, ◌==◌, if◌then◌else◌, where_, find, exists,
}
use mono256_sic_core.Base.Result.{
  Result, ok, raise, Reason, validation_error, ◌>>=◌, ◌>>◌, raise_if,
}
use mono256_sic_core.Cache.{Backend}
use mono256_sic_core.Visibility.Keys.{VisibilityKey, invalidate_student_teacher_cache}
use mono256_sic_core.Store.{User, Company, is_teacher, is_student}

pub record Course : Type 0 where
  pub id : ℕ
  pub name : String
  pub code : Option String
  pub teacher_id : ℕ

pub record CourseEnrollment : Type 0 where
  pub student_id : ℕ
  pub course_id : ℕ

-- A row of `CourseDemoCompanyVisibility` or of `CourseSharedCompanyVisibility`.
pub record CompanyVisibility : Type 0 where
  pub course_id : ℕ
  pub company_id : ℕ
  pub is_visible : Bool

-- The tables, a new row first.
pub record School : Type 0 where
  pub courses : List Course
  pub enrollments : List CourseEnrollment
  pub demo_visibilities : List CompanyVisibility
  pub shared_visibilities : List CompanyVisibility
  pub next_course_id : ℕ

abbrev pub empty_school : School
empty_school = record {
  courses = [];
  enrollments = [];
  demo_visibilities = [];
  shared_visibilities = [];
  next_course_id = 1;
}

-- `code or None`
abbrev code_or_none : Option String → Option String
code_or_none none = none
code_or_none (some String.[]) = none
code_or_none (some (String.◌∷◌ c rest)) = some (String.◌∷◌ c rest)

abbrev has_code : Option String → Option String → Bool
has_code none other = false
has_code (some code) none = false
has_code (some code) (some other) = str_eq code other

-- `unique=True`, against the other rows.
abbrev code_taken : School → Course → Bool
code_taken school course =
    exists (λ c. not (c.id == course.id) && has_code course.code c.code) school.courses

abbrev pub new_course : School → User → String → Option String → Course
new_course school teacher name code = record {
  id = school.next_course_id;
  name = name;
  code = code_or_none code;
  teacher_id = teacher.id;
}

abbrev given_code : Option String → Option String → Option String
given_code none old = old
given_code (some code) old = code_or_none (some code)

abbrev given_name : Option String → String → String
given_name none old = old
given_name (some name) old = name

abbrev pub changed_course : Course → Option String → Option String → Course
changed_course course name code = record course {
  name = given_name name course.name;
  code = given_code code course.code;
}

-- `fields_valid` is what the package checks of the fields alone: lengths, and that the name is there.
module _ (fields_valid : String → Option String → Bool) where
  -- `full_clean`, for a course of the teacher.
  unfoldable pub clean_course : School → User → Course → Result (Unit {0})
  clean_course school teacher course = do
    raise_if (not (fields_valid course.name course.code)) (validation_error Reason.invalid_course)
    raise_if (not (is_teacher teacher.role)) (validation_error Reason.not_teacher)
    raise_if (code_taken school course) (validation_error Reason.invalid_course)

  unfoldable pub create_course : School → User → String → Option String → Result (Course × School)
  unfolding clean_course
  create_course school teacher name code = do
    raise_if (not (is_teacher teacher.role)) (validation_error Reason.not_teacher)
    let course = new_course school teacher name code
    clean_course school teacher course
    ok (
      course,
      record school {
        courses = course ∷ school.courses;
        next_course_id = school.next_course_id + 1;
      },
    )

  -- The course is a row of the table, and its teacher is read with it.
  unfoldable pub update_course :
      School → User → Course → Option String → Option String → Result (Course × School)
  unfolding clean_course
  update_course school teacher course name code = do
    let changed = changed_course course name code
    clean_course school teacher changed
    ok (
      changed,
      record school {
        courses = map (λ c. if c.id == course.id then changed else c) school.courses;
      },
    )

-- The rows of a deleted course go with it.
unfoldable pub delete_course : School → Course → School
delete_course school course = record school {
  courses = where_ (λ c. not (c.id == course.id)) school.courses;
  enrollments = where_ (λ e. not (e.course_id == course.id)) school.enrollments;
  demo_visibilities = where_ (λ v. not (v.course_id == course.id)) school.demo_visibilities;
  shared_visibilities = where_ (λ v. not (v.course_id == course.id)) school.shared_visibilities;
}

-- The student's enrolment, if there is one.
unfoldable pub enrollment_of : School → ℕ → Option CourseEnrollment
enrollment_of school student_id = find (λ e. e.student_id == student_id) school.enrollments

abbrev pub is_enrollment : Course → User → CourseEnrollment → Bool
is_enrollment course student e = e.course_id == course.id && e.student_id == student.id

-- The students' teachers stand in a cache, and the calls drop the entry of a student whose enrolment they
-- change.
module _ {S : Type 0} (b : Backend VisibilityKey (List ℕ) S) where
  abbrev pub enroll_new :
      Option CourseEnrollment → School → S → Course → User → Result (CourseEnrollment × School × S)
  enroll_new (some existing) school s course student = do
    raise_if (not (existing.course_id == course.id)) (validation_error Reason.enrolled_elsewhere)
    ok (existing, school, s)
  enroll_new none school s course student =
      let enrollment : CourseEnrollment = record {
        student_id = student.id;
        course_id = course.id;
      } in
      ok (
        enrollment,
        record school { enrollments = enrollment ∷ school.enrollments },
        invalidate_student_teacher_cache b s student.id,
      )

  unfoldable pub enroll_student :
      School → S → Course → User → Result (CourseEnrollment × School × S)
  unfolding enrollment_of invalidate_student_teacher_cache
  enroll_student school s course student = do
    raise_if (not (is_student student.role)) (validation_error Reason.not_student)
    enroll_new (enrollment_of school student.id) school s course student

  unfoldable pub unenroll_student : School → S → Course → User → Result (School × S)
  unfolding invalidate_student_teacher_cache
  unenroll_student school s course student = do
    raise_if (not (exists (is_enrollment course student) school.enrollments))
        (validation_error Reason.not_enrolled)
    ok (
      record school {
        enrollments = where_ (λ e. not (is_enrollment course student e)) school.enrollments;
      },
      invalidate_student_teacher_cache b s student.id,
    )

abbrev pub is_visibility : ℕ → ℕ → CompanyVisibility → Bool
is_visibility course_id company_id v = v.course_id == course_id && v.company_id == company_id

-- `get_or_create`, and the flag is written.
unfoldable pub set_visibility : List CompanyVisibility → ℕ → ℕ → Bool → List CompanyVisibility
set_visibility rows course_id company_id is_visible =
    if exists (is_visibility course_id company_id) rows
    then map
        (λ v.
          if is_visibility course_id company_id v then record v { is_visible = is_visible } else v)
        rows
    else record { course_id = course_id; company_id = company_id; is_visible = is_visible } ∷ rows

unfoldable pub set_demo_company_visibility : School → Course → Company → Bool → Result School
unfolding set_visibility
set_demo_company_visibility school course company is_visible = do
  raise_if (not company.is_demo) (validation_error Reason.demo_only)
  ok (record school {
    demo_visibilities = set_visibility school.demo_visibilities course.id company.id is_visible;
  })

unfoldable pub set_shared_company_visibility : School → Course → Company → Bool → Result School
unfolding set_visibility
set_shared_company_visibility school course company is_visible = do
  raise_if company.is_demo (validation_error Reason.not_demo)
  ok (record school {
    shared_visibilities = set_visibility school.shared_visibilities course.id company.id is_visible;
  })
