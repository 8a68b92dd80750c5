-- ===== src/Access/Agree.antt =====
-- The listings and the lookups of companies and of courses.
use mono256_sic_core.Base.{
  ℕ, ◌≤◌, Bool, true, false, not, ◌&&◌, ◌||◌, Option, none, some, List, [], ◌∷◌, map, ◌==◌, ◌≡◌,
  refl, sym, ◌∙◌, ap, ◌↔◌, inl, inr, arith, if◌then◌else◌, where_, find, exists, contains,
  Bool-cases, some_inj,
}
use mono256_sic_core.Base.Result.{
  Result, ok, raise, Reason, not_found, permission_denied, ◌>>=◌, or_raise, ok-injective,
}
use mono256_sic_core.Store.{Role, User, Company, is_teacher}
use mono256_sic_core.Courses.{Course, CourseEnrollment, School}
use mono256_sic_core.Courses.Tables.{count}
use mono256_sic_core.Access.{
  company_with, course_with, refused, is_listed, list_companies, check_access, get_company,
  list_courses, courses_for, get_course, teaches_owner, student_ids_for_teacher, taught_by,
  get_demo, get_plain, check_course, student_can_access_demo_company,
  student_can_access_shared_company,
}

-- A row that passes, or nothing.
abbrev kept {ℓ} : {A : Type ℓ} → (A → Bool) → Option A → Option A
kept p none = none
kept p (some x) = if p x then some x else none

kept_all : (found : Option Course) → kept (λ x. true) found ≡ found
kept_all none = refl
kept_all (some x) = refl

kept_none : {c : Course} {A : Type 0} (found : Option Course) → kept (λ x. false) found ≡ some c → A
kept_none none e = cc
kept_none (some x) e = cc

find-none {ℓ} : {A : Type ℓ} (p : A → Bool) (xs : List A) → count p xs ≡ 0 → find p xs ≡ none
find-none p [] h = refl
find-none p (x ∷ xs) h = ground (arith, find-none p xs)

-- Where at most one row has the key, a lookup among the rows of a filter is the filtered lookup.
find-where_ {ℓ} :
    {A : Type ℓ} (key p : A → Bool) (xs : List A)
    → count key xs ≤ 1
    → find key (where_ p xs) ≡ kept p (find key xs)
find-where_ key p [] once = refl
find-where_ key p (x ∷ xs) once = elim (Bool-cases (key x)) [
  | inl here ↦
      let alone : count key xs ≡ 0 = ground (arith, here, once) in
      let no_more =
        find-where_ key p xs (omega (arith, alone)) ∙ ap (kept p) (find-none key xs alone) in
      elim (Bool-cases (p x)) [
        | inl keep ↦ rw (here, keep, here) refl
        | inr drop ↦ rw (here, drop) no_more
      ]
  | inr there ↦
      let rest = find-where_ key p xs (ground (arith, there, once)) in
      elim (Bool-cases (p x)) [
        | inl keep ↦ rw (there, keep, there) rest
        | inr drop ↦ rw (there, drop) rest
      ]
]

pub contains-map :
    {A : Type 0} (key : A → ℕ) (p : A → Bool) (k : ℕ) (xs : List A)
    → contains k (map key (where_ p xs)) ≡ exists (λ x. p x && key x == k) xs
contains-map key p k [] = refl
contains-map key p k (x ∷ xs) = ground (arith, contains-map key p k xs)

-- An unpublished demo company of a teacher, or of a student of theirs.
abbrev pub is_hidden_demo : School → User → Company → Bool
is_hidden_demo school user c =
    is_teacher user.role
    && (c.is_demo
        && (not c.is_published
            && (c.owner_id == user.id
                || contains c.owner_id (student_ids_for_teacher school user))))

teaches_owner_lem :
    (school : School) (user : User) (c : Company)
    → teaches_owner school user c ≡ contains c.owner_id (student_ids_for_teacher school user)
unfolding student_ids_for_teacher
teaches_owner_lem school user c = sym (
    contains-map CourseEnrollment.student_id (taught_by school user.id) c.owner_id
      school.enrollments)

either_way : {R : Type 0} {y : R} (demo : Bool) → (if demo then y else y) ≡ y
either_way true = refl
either_way false = refl

-- The two ways to decide, over the answers that they ask for.
teacher_table :
    {R : Type 0} (yes_ no_ : R) (demo published owner enrolled : Bool)
    → (if demo
        then (if published then yes_ else no_)
        else if owner
        then yes_
        else if enrolled
        then yes_
        else no_)
      ≡ (if ((demo && published) || (owner || enrolled))
            && not (true && (demo && (not published && (owner || enrolled))))
          then yes_
          else no_)
teacher_table y n demo published owner enrolled = ground arith

student_table :
    {R : Type 0} (yes_ no_ : R) (demo published owner in_demo in_shared : Bool)
    → (if demo
        then (if in_demo && published then yes_ else no_)
        else if not owner
        then (if in_shared then yes_ else no_)
        else yes_)
      ≡ (if ((owner && not demo) || ((demo && (published && in_demo)) || (not demo && in_shared)))
            && not (false && true)
          then yes_
          else no_)
student_table y n demo published owner in_demo in_shared = ground arith

decided :
    (hidden : Company → Bool) (x c : Company) (listed secret : Bool)
    → hidden x ≡ secret
    → (if listed && not secret then ok x else refused) ≡ ok c
      ↔ ((if listed then some x else none) ≡ some c) × (hidden c ≡ false)
decided hidden x c true false h = (
  λ e. (ap some (ok-injective e), ap hidden (sym (ok-injective e)) ∙ h),
  λ (e, open_to_all). ap ok (some_inj e),
)
decided hidden x c true true h = (
  λ e. cc,
  λ (e, open_to_all). let clash : true ≡ false = sym h ∙ ap hidden (some_inj e) ∙ open_to_all in cc,
)
decided hidden x c false secret h = (λ e. cc, λ (e, open_to_all). cc)

module _ (companies : List Company) (school : School) (user : User) where
  -- The checks of the lookup and the filter of the listing.
  check_access_lem :
      (c : Company)
      → check_access companies school user c ≡ (
          if is_listed companies school user.role user c && not (is_hidden_demo school user c)
          then ok c
          else refused)
  unfolding check_access is_listed get_demo get_plain student_can_access_demo_company
      student_can_access_shared_company
  check_access_lem c = by_role user.role
    where
      by_role :
          (role : Role)
          → (if c.is_demo
              then get_demo companies school role user c
              else get_plain companies school role user c)
            ≡ (if is_listed companies school role user c
                  && not (
                      is_teacher role
                      && (c.is_demo
                          && (not c.is_published
                              && (c.owner_id == user.id
                                  || contains c.owner_id (student_ids_for_teacher school user)))))
                then ok c
                else refused)
      by_role Role.admin = either_way c.is_demo
      by_role Role.teacher =
          rw (teaches_owner_lem school user c)
            (teacher_table (ok c) refused c.is_demo c.is_published (c.owner_id == user.id) _)
      by_role Role.student =
          student_table (ok c) refused c.is_demo c.is_published (c.owner_id == user.id) _ _

  found_iff :
      (found : Option Company) (c : Company)
      → (or_raise found (not_found Reason.company_not_found) >>= check_access companies school user)
          ≡ ok c
        ↔ (kept (λ x. is_listed companies school user.role user x) found ≡ some c)
          × (is_hidden_demo school user c ≡ false)
  found_iff none c = ((λ e. cc), λ (e, h). cc)
  found_iff (some x) c = rw (check_access_lem x) (
      decided (is_hidden_demo school user) x c (is_listed companies school user.role user x)
        (is_hidden_demo school user x) refl)

  -- Where the keys of the companies are different: a user gets a company by its key exactly if it stands
  -- in the user's listing, but for one kind: a teacher's listing has the unpublished demo companies of
  -- their own and of their students, and the lookup refuses them.
  pub get_company_iff :
      (pk : ℕ) (c : Company)
      → count (λ x. x.id == pk) companies ≤ 1
      → get_company companies school pk user ≡ ok c
        ↔ (company_with pk (list_companies companies school user) ≡ some c)
          × (is_hidden_demo school user c ≡ false)
  unfolding get_company list_companies
  get_company_iff pk c once =
      rw
        (find-where_ (λ x. x.id == pk) (λ x. is_listed companies school user.role user x) companies
          once)
        (found_iff (company_with pk companies) c)

-- A lookup and a check of what it finds.
looked_up_iff :
    (found : Option Course) (check : Course → Result Course) (p : Course → Bool) (c : Course)
    → ((x : Course) → check x ≡ (if p x then ok x else raise (permission_denied Reason.no_access)))
    → (or_raise found (not_found Reason.course_not_found) >>= check) ≡ ok c ↔ kept p found ≡ some c
looked_up_iff none check p c checked = (λ e. cc, λ e. cc)
looked_up_iff (some x) check p c checked = rw (checked x) (passes (p x))
  where
    passes :
        (b : Bool)
        → (if b then ok x else raise (permission_denied Reason.no_access)) ≡ ok c
          ↔ (if b then some x else none) ≡ some c
    passes true = (λ e. ap some (ok-injective e), λ e. ap ok (some_inj e))
    passes false = (λ e. cc, λ e. cc)

courses_for_iff :
    (role : Role) (school : School) (pk : ℕ) (user : User) (c : Course)
    → count (λ x. x.id == pk) school.courses ≤ 1
    → (or_raise (course_with pk school.courses) (not_found Reason.course_not_found)
          >>= check_course role user)
        ≡ ok c
      ↔ course_with pk (courses_for role school user) ≡ some c
courses_for_iff Role.admin school pk user c once =
    let found = course_with pk school.courses in
    let (forth, back) =
      looked_up_iff found (check_course Role.admin user) (λ x. true) c (λ x. refl) in
    (λ e. sym (kept_all found) ∙ forth e, λ e. back (kept_all found ∙ e))
courses_for_iff Role.teacher school pk user c once =
    rw (find-where_ (λ x. x.id == pk) (λ x. x.teacher_id == user.id) school.courses once)
      (looked_up_iff (course_with pk school.courses) _ (λ x. x.teacher_id == user.id) c (λ x. refl))
courses_for_iff Role.student school pk user c once =
    let (forth, back) =
      looked_up_iff (course_with pk school.courses) (check_course Role.student user) (λ x. false) c
        (λ x. refl) in
    (λ e. (kept_none (course_with pk school.courses) (forth e)), λ e. cc)

-- A user gets a course by its key exactly if it stands in the user's listing, where the keys of the
-- courses are different.
pub get_course_iff :
    (school : School) (pk : ℕ) (user : User) (c : Course)
    → count (λ x. x.id == pk) school.courses ≤ 1
    → get_course school pk user ≡ ok c ↔ course_with pk (list_courses school user) ≡ some c
unfolding get_course list_courses
get_course_iff school pk user c once = courses_for_iff user.role school pk user c once
