-- ===== src/Access.antt =====
-- Who sees which company and which course: apps/companies/selectors.py, and the lookups of
-- apps/courses/selectors.py. Queries are functions of the tables; annotations that are only shown are
-- left out.
pub mod Agree
pub mod Shared
mod Tests
use mono256_sic_core.Base.{
  ℕ, ◌+◌, Bool, true, false, not, ◌&&◌, ◌||◌, Option, none, some, List, [], ◌∷◌, map, ◌==◌,
  if◌then◌else◌, where_, find, exists, contains,
}
use mono256_sic_core.Base.Result.{
  Result, ok, raise, Reason, permission_denied, not_found, ◌>>=◌, or_raise,
}
use mono256_sic_core.Store.{Role, User, Company}
use mono256_sic_core.Courses.{Course, CourseEnrollment, CompanyVisibility, School, enrollment_of}

abbrev pub company_with : ℕ → List Company → Option Company
company_with pk companies = find (λ c. c.id == pk) companies

-- `company__is_demo=…`, a join.
abbrev pub company_is : List Company → Bool → ℕ → Bool
company_is companies is_demo id =
    exists (λ c. c.id == id && (if is_demo then c.is_demo else not c.is_demo)) companies

-- The companies that a course shows, of either kind.
abbrev pub visible_ids : List Company → Bool → List CompanyVisibility → ℕ → List ℕ
visible_ids companies is_demo rows course_id = map CompanyVisibility.company_id (
    where_
      (λ v. v.course_id == course_id && (company_is companies is_demo v.company_id && v.is_visible))
      rows)

abbrev visible_in : List Company → Bool → List CompanyVisibility → Option CourseEnrollment → List ℕ
visible_in companies is_demo rows none = []
visible_in companies is_demo rows (some e) = visible_ids companies is_demo rows e.course_id

unfoldable pub visible_demo_company_ids_for_student : List Company → School → User → List ℕ
unfolding enrollment_of
visible_demo_company_ids_for_student companies school student =
    visible_in companies true school.demo_visibilities (enrollment_of school student.id)

unfoldable pub visible_shared_company_ids_for_student : List Company → School → User → List ℕ
unfolding enrollment_of
visible_shared_company_ids_for_student companies school student =
    visible_in companies false school.shared_visibilities (enrollment_of school student.id)

unfoldable pub student_can_access_demo_company : List Company → School → User → Company → Bool
unfolding visible_demo_company_ids_for_student
student_can_access_demo_company companies school student company =
    contains company.id (visible_demo_company_ids_for_student companies school student)

unfoldable pub student_can_access_shared_company : List Company → School → User → Company → Bool
unfolding visible_shared_company_ids_for_student
student_can_access_shared_company companies school student company =
    contains company.id (visible_shared_company_ids_for_student companies school student)

-- `course__teacher=…`, a join.
abbrev pub taught_by : School → ℕ → CourseEnrollment → Bool
taught_by school teacher_id e =
    exists (λ c. c.id == e.course_id && c.teacher_id == teacher_id) school.courses

unfoldable pub student_ids_for_teacher : School → User → List ℕ
student_ids_for_teacher school teacher =
    map CourseEnrollment.student_id (where_ (taught_by school teacher.id) school.enrollments)

-- The filter of `list_companies`; a list of keys that is empty adds nothing.
unfoldable pub is_listed : List Company → School → Role → User → Company → Bool
unfolding student_ids_for_teacher visible_demo_company_ids_for_student
    visible_shared_company_ids_for_student
is_listed companies school Role.admin user c = true
is_listed companies school Role.teacher user c =
    (c.is_demo && c.is_published)
    || (c.owner_id == user.id || contains c.owner_id (student_ids_for_teacher school user))
is_listed companies school Role.student user c =
    let demo_ids = visible_demo_company_ids_for_student companies school user in
    let shared_ids = visible_shared_company_ids_for_student companies school user in
    (c.owner_id == user.id && not c.is_demo)
    || ((c.is_demo && (c.is_published && contains c.id demo_ids))
        || (not c.is_demo && contains c.id shared_ids))

unfoldable pub list_companies : List Company → School → User → List Company
unfolding is_listed
list_companies companies school user =
    where_ (λ c. is_listed companies school user.role user c) companies

-- `CourseEnrollment.objects.filter(course__teacher=user, student_id=…).exists()`
abbrev pub teaches_owner : School → User → Company → Bool
teaches_owner school user c =
    exists (λ e. taught_by school user.id e && e.student_id == c.owner_id) school.enrollments

abbrev pub refused : Result Company
refused = raise (permission_denied Reason.no_access)

unfoldable pub get_demo : List Company → School → Role → User → Company → Result Company
unfolding student_can_access_demo_company
get_demo companies school Role.admin user c = ok c
get_demo companies school Role.teacher user c = if c.is_published then ok c else refused
get_demo companies school Role.student user c =
    if student_can_access_demo_company companies school user c && c.is_published
    then ok c
    else refused

unfoldable pub get_plain : List Company → School → Role → User → Company → Result Company
unfolding student_can_access_shared_company
get_plain companies school Role.admin user c = ok c
get_plain companies school Role.teacher user c =
    if c.owner_id == user.id then ok c else if teaches_owner school user c then ok c else refused
get_plain companies school Role.student user c =
    if not (c.owner_id == user.id)
    then (if student_can_access_shared_company companies school user c then ok c else refused)
    else ok c

-- The checks on a company that was found; an administrator passes first.
unfoldable pub check_access : List Company → School → User → Company → Result Company
unfolding get_demo get_plain
check_access companies school user c =
    if c.is_demo
    then get_demo companies school user.role user c
    else get_plain companies school user.role user c

unfoldable pub get_company : List Company → School → ℕ → User → Result Company
unfolding check_access
get_company companies school pk user = do
  company ← or_raise (company_with pk companies) (not_found Reason.company_not_found)
  check_access companies school user company

abbrev pub course_with : ℕ → List Course → Option Course
course_with pk courses = find (λ c. c.id == pk) courses

abbrev pub courses_for : Role → School → User → List Course
courses_for Role.admin school user = school.courses
courses_for Role.teacher school user = where_ (λ c. c.teacher_id == user.id) school.courses
courses_for Role.student school user = []

unfoldable pub list_courses : School → User → List Course
list_courses school user = courses_for user.role school user

abbrev pub check_course : Role → User → Course → Result Course
check_course Role.admin user course = ok course
check_course Role.teacher user course =
    if course.teacher_id == user.id then ok course else raise (permission_denied Reason.no_access)
check_course Role.student user course = raise (permission_denied Reason.no_access)

unfoldable pub get_course : School → ℕ → User → Result Course
get_course school pk user = do
  course ← or_raise (course_with pk school.courses) (not_found Reason.course_not_found)
  check_course user.role user course
