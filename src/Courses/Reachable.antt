-- ===== src/Courses/Reachable.antt =====
-- The schools that the services of apps/courses/services.py make, one call after another.
use mono256_sic_core.Base.{
  ℕ, ◌≤◌, ◌<◌, Bool, not, Option, none, some, List, [], ◌∷◌, map, String, ◌==◌, ==→eq, ◌≡◌, refl,
  sym, ◌∙◌, ap, subst, inl, inr, arith, if◌then◌else◌, where_, exists, All, Bool-cases,
}
use mono256_sic_core.Base.Result.{ok, raise_if, ok-injective, >>=-eq-ok}
use mono256_sic_core.Store.{User, Company, is_teacher, is_student}
use mono256_sic_core.Cache.{Backend}
use mono256_sic_core.Visibility.Keys.{VisibilityKey}
use mono256_sic_core.Courses.{
  empty_school, new_course, changed_course, Course, CourseEnrollment, School, clean_course,
  create_course, update_course, delete_course, enrollment_of, enroll_new, enroll_student,
  is_enrollment, unenroll_student, is_visibility, set_demo_company_visibility,
  set_shared_company_visibility,
}
use mono256_sic_core.Courses.Tables.{
  count-where_, count-map, count_none, exists-find, count_new, IsWellFormedSchool,
  set_visibility-IsSetOnce, create_course-IsNumbered,
}

-- One call of a service that succeeds, over a cache of any content.
pub data Step (fields_valid : String → Option String → Bool) {S : Type 0}
    (b : Backend VisibilityKey (List ℕ) S) : School → School → Type 0 where
  creates :
      (s : School) (teacher : User) (name : String) (code : Option String) (out : Course × School)
      → create_course fields_valid s teacher name code ≡ ok out
      → Step fields_valid b s out.1
  updates :
      (s : School) (teacher : User) (course : Course) (name code : Option String)
      (out : Course × School)
      → update_course fields_valid s teacher course name code ≡ ok out
      → Step fields_valid b s out.1
  deletes : (s : School) (course : Course) → Step fields_valid b s (delete_course s course)
  enrolls :
      (s : School) (cache : S) (course : Course) (student : User)
      (out : CourseEnrollment × School × S)
      → enroll_student b s cache course student ≡ ok out
      → Step fields_valid b s out.1
  unenrolls :
      (s : School) (cache : S) (course : Course) (student : User) (out : School × S)
      → unenroll_student b s cache course student ≡ ok out
      → Step fields_valid b s out.0
  sets_demo :
      (s : School) (course : Course) (company : Company) (is_visible : Bool) (s' : School)
      → set_demo_company_visibility s course company is_visible ≡ ok s'
      → Step fields_valid b s s'
  sets_shared :
      (s : School) (course : Course) (company : Company) (is_visible : Bool) (s' : School)
      → set_shared_company_visibility s course company is_visible ≡ ok s'
      → Step fields_valid b s s'

-- The schools that the services make of empty tables.
pub data Reachable (fields_valid : String → Option String → Bool) {S : Type 0}
    (b : Backend VisibilityKey (List ℕ) S) : School → Type 0 where
  empty : (s : School) → s ≡ empty_school → Reachable fields_valid b s
  further :
      (s t : School)
      → Reachable fields_valid b s
      → Step fields_valid b s t
      → Reachable fields_valid b t

All-where_ {ℓ κ} :
    {A : Type ℓ} (P : A → Type κ) (p : A → Bool) (xs : List A) → All P xs → All P (where_ p xs)
All-where_ P p [] h = tt
All-where_ P p (x ∷ xs) (h, hs) = elim (Bool-cases (p x)) [
  | inl keep ↦ rw keep (h, All-where_ P p xs hs)
  | inr drop ↦ rw drop (All-where_ P p xs hs)
]

All-mapped {ℓ κ} :
    {A : Type ℓ} (P : A → Type κ) (f : A → A) (xs : List A)
    → ((x : A) → P x → P (f x))
    → All P xs
    → All P (map f xs)
All-mapped P f [] kept h = tt
All-mapped P f (x ∷ xs) kept (h, hs) = (kept x h, All-mapped P f xs kept hs)

abbrev replaced : Course → Course → Course → Course
replaced course changed c = if c.id == course.id then changed else c

replaced-id :
    (course changed : Course)
    → changed.id ≡ course.id
    → (c : Course) → (replaced course changed c).id ≡ c.id
replaced-id course changed e c = elim (Bool-cases (c.id == course.id)) [
  | inl same ↦ rw same (e ∙ sym (==→eq c.id course.id same))
  | inr other ↦ rw other refl
]

module _ (s : School) (wf : IsWellFormedSchool s) where
  delete_course-IsWellFormedSchool : (course : Course) → IsWellFormedSchool (delete_course s course)
  unfolding delete_course
  delete_course-IsWellFormedSchool course =
      let ((below, once), enrolled, demo, shared) = wf in
      (
        (
          All-where_ _ _ s.courses below,
          λ i. omega (
            arith,
            count-where_ (λ c. c.id == i) (λ c. not (c.id == course.id)) s.courses,
            once i,
          ),
        ),
        (λ i. omega (
          arith,
          count-where_ (λ e. e.student_id == i) (λ e. not (e.course_id == course.id)) s.enrollments,
          enrolled i,
        )),
        (λ c k. omega (
          arith,
          count-where_ (is_visibility c k) (λ v. not (v.course_id == course.id))
              s.demo_visibilities,
          demo c k,
        )),
        (λ c k. omega (
          arith,
          count-where_ (is_visibility c k) (λ v. not (v.course_id == course.id))
              s.shared_visibilities,
          shared c k,
        )),
      )

  unenroll_student-IsWellFormedSchool :
      {S : Type 0} (b : Backend VisibilityKey (List ℕ) S) (cache : S) (course : Course)
      (student : User) (out : School × S)
      → unenroll_student b s cache course student ≡ ok out
      → IsWellFormedSchool out.0
  unfolding unenroll_student
  unenroll_student-IsWellFormedSchool b cache course student out returned =
      let (numbered, enrolled, demo, shared) = wf in
      let (done, there, rest) =
        >>=-eq-ok (raise_if (not (exists (is_enrollment course student) s.enrollments)) _) _
          returned in
      rw (sym (ok-injective rest)) (
        numbered,
        (λ i. omega (
          arith,
          count-where_ (λ e. e.student_id == i) (λ e. not (is_enrollment course student e))
              s.enrollments,
          enrolled i,
        )),
        demo,
        shared,
      )

  enroll_new-IsWellFormedSchool :
      {S : Type 0} (b : Backend VisibilityKey (List ℕ) S) (cache : S)
      (found : Option CourseEnrollment) (course : Course) (student : User)
      (out : CourseEnrollment × School × S)
      → enrollment_of s student.id ≡ found
      → enroll_new b found s cache course student ≡ ok out
      → IsWellFormedSchool out.1
  unfolding enrollment_of
  enroll_new-IsWellFormedSchool b cache (some existing) course student out looked returned =
      let (done, same, rest) =
        >>=-eq-ok (raise_if (not (existing.course_id == course.id)) _) _ returned in
      rw (sym (ok-injective rest)) wf
  enroll_new-IsWellFormedSchool b cache none course student out looked returned =
      let (numbered, enrolled, demo, shared) = wf in
      rw (sym (ok-injective returned)) (
        numbered,
        count_new CourseEnrollment.student_id
            (record { student_id = student.id; course_id = course.id }) s.enrollments
            (count_none (λ e. e.student_id == student.id) s.enrollments
              (exists-find (λ e. e.student_id == student.id) s.enrollments looked))
            enrolled,
        demo,
        shared,
      )

  enroll_student-IsWellFormedSchool :
      {S : Type 0} (b : Backend VisibilityKey (List ℕ) S) (cache : S) (course : Course)
      (student : User) (out : CourseEnrollment × School × S)
      → enroll_student b s cache course student ≡ ok out
      → IsWellFormedSchool out.1
  unfolding enroll_student
  enroll_student-IsWellFormedSchool b cache course student out returned =
      let (done, role, rest) = >>=-eq-ok (raise_if (not (is_student student.role)) _) _ returned in
      enroll_new-IsWellFormedSchool b cache (enrollment_of s student.id) course student out refl
        rest

  sets_demo-IsWellFormedSchool :
      (course : Course) (company : Company) (flag : Bool) (s' : School)
      → set_demo_company_visibility s course company flag ≡ ok s'
      → IsWellFormedSchool s'
  unfolding set_demo_company_visibility
  sets_demo-IsWellFormedSchool course company flag s' returned =
      let (numbered, enrolled, demo, shared) = wf in
      let (done, kind, rest) = >>=-eq-ok (raise_if (not company.is_demo) _) _ returned in
      rw (sym (ok-injective rest)) (
        numbered,
        enrolled,
        set_visibility-IsSetOnce s.demo_visibilities course.id company.id flag demo,
        shared,
      )

  sets_shared-IsWellFormedSchool :
      (course : Course) (company : Company) (flag : Bool) (s' : School)
      → set_shared_company_visibility s course company flag ≡ ok s'
      → IsWellFormedSchool s'
  unfolding set_shared_company_visibility
  sets_shared-IsWellFormedSchool course company flag s' returned =
      let (numbered, enrolled, demo, shared) = wf in
      let (done, kind, rest) = >>=-eq-ok (raise_if company.is_demo _) _ returned in
      rw (sym (ok-injective rest)) (
        numbered,
        enrolled,
        demo,
        set_visibility-IsSetOnce s.shared_visibilities course.id company.id flag shared,
      )

  module _ (fields_valid : String → Option String → Bool) where
    create_course-IsWellFormedSchool :
        (teacher : User) (name : String) (code : Option String) (out : Course × School)
        → create_course fields_valid s teacher name code ≡ ok out
        → IsWellFormedSchool out.1
    unfolding create_course
    create_course-IsWellFormedSchool teacher name code out returned =
        let (numbered, enrolled, demo, shared) = wf in
        let (done, role, rest) =
          >>=-eq-ok (raise_if (not (is_teacher teacher.role)) _) _ returned in
        let (clean, cleaned, made) =
          >>=-eq-ok (clean_course fields_valid s teacher (new_course s teacher name code)) _ rest in
        rw (sym (ok-injective made))
          (create_course-IsNumbered s _ refl numbered, enrolled, demo, shared)

    update_course-IsWellFormedSchool :
        (teacher : User) (course : Course) (name code : Option String) (out : Course × School)
        → update_course fields_valid s teacher course name code ≡ ok out
        → IsWellFormedSchool out.1
    unfolding update_course
    update_course-IsWellFormedSchool teacher course name code out returned =
        let ((below, once), enrolled, demo, shared) = wf in
        let (clean, cleaned, made) =
          >>=-eq-ok (clean_course fields_valid s teacher (changed_course course name code)) _
            returned in
        rw (sym (ok-injective made)) (
          (
            All-mapped (λ c. c.id < s.next_course_id) (replaced course _) s.courses
                (λ c lt. subst (λ i. i < s.next_course_id) (sym (replaced-id course _ refl c)) lt)
                below,
            λ i.
                subst (λ n. n ≤ 1)
                  (sym (
                    count-map (λ c. c.id == i) (replaced course _) s.courses
                      (λ c. ap (λ j. j == i) (replaced-id course _ refl c))))
                  (once i),
          ),
          enrolled,
          demo,
          shared,
        )

-- Every call of a service that succeeds keeps the tables well-formed.
Step-IsWellFormedSchool :
    (fields_valid : String → Option String → Bool) {S : Type 0}
    (b : Backend VisibilityKey (List ℕ) S) {s t : School}
    → Step fields_valid b s t
    → IsWellFormedSchool s
    → IsWellFormedSchool t
Step-IsWellFormedSchool fv b (creates s teacher name code out e) wf =
    create_course-IsWellFormedSchool s wf fv teacher name code out e
Step-IsWellFormedSchool fv b (updates s teacher course name code out e) wf =
    update_course-IsWellFormedSchool s wf fv teacher course name code out e
Step-IsWellFormedSchool fv b (deletes s course) wf = delete_course-IsWellFormedSchool s wf course
Step-IsWellFormedSchool fv b (enrolls s cache course student out e) wf =
    enroll_student-IsWellFormedSchool s wf b cache course student out e
Step-IsWellFormedSchool fv b (unenrolls s cache course student s' e) wf =
    unenroll_student-IsWellFormedSchool s wf b cache course student s' e
Step-IsWellFormedSchool fv b (sets_demo s course company flag s' e) wf =
    sets_demo-IsWellFormedSchool s wf course company flag s' e
Step-IsWellFormedSchool fv b (sets_shared s course company flag s' e) wf =
    sets_shared-IsWellFormedSchool s wf course company flag s' e

empty_school-IsWellFormedSchool : IsWellFormedSchool empty_school
empty_school-IsWellFormedSchool =
    ((tt, λ i. omega arith), (λ i. omega arith), (λ c k. omega arith), λ c k. omega arith)

-- In every school that the services make of empty tables, whatever the package checks of the fields:
-- the keys of the courses are different and below the next one, each student is enrolled in one course
-- at most, and each pair of a course and a company has at most one row in each table of visibilities.
pub Reachable-IsWellFormedSchool :
    (fields_valid : String → Option String → Bool) {S : Type 0}
    (b : Backend VisibilityKey (List ℕ) S) (s : School)
    → Reachable fields_valid b s
    → IsWellFormedSchool s
Reachable-IsWellFormedSchool fv b _ (empty s e) = rw e empty_school-IsWellFormedSchool
Reachable-IsWellFormedSchool fv b _ (further s t before step) =
    Step-IsWellFormedSchool fv b step (Reachable-IsWellFormedSchool fv b s before)
