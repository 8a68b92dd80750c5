-- ===== src/Access/Shared.antt =====
-- What a student of a course sees of a company that the course shows or hides.
use mono256_sic_core.Base.{
  ℕ, Bool, true, false, ◌&&◌, ◌||◌, some, List, [], ◌∷◌, map, ◌==◌, ==_refl, ◌≡◌, refl, sym, ◌∙◌,
  ap, ◌↔◌, inl, inr, arith, if◌then◌else◌, exists, contains, Bool-cases, or-false, some_inj,
}
use mono256_sic_core.Base.Result.{ok, raise_if, raise_if-eq-ok, ok-injective, >>=-eq-ok}
use mono256_sic_core.Store.{Role, User, Company}
use mono256_sic_core.Courses.{
  Course, CourseEnrollment, CompanyVisibility, School, enrollment_of, is_visibility, set_visibility,
  set_shared_company_visibility,
}
use mono256_sic_core.Access.Agree.{contains-map}
use mono256_sic_core.Access.{
  company_with, company_is, visible_ids, get_company, check_access, get_plain, refused,
  student_can_access_shared_company, visible_shared_company_ids_for_student,
}

exists-map :
    {A : Type 0} (q p : A → Bool) (f : A → A) (flag : Bool) (xs : List A)
    → ((x : A) → q (f x) ≡ (p x && flag))
    → exists q (map f xs) ≡ (exists p xs && flag)
exists-map q p f flag [] each = refl
exists-map q p f flag (x ∷ xs) each = ground (arith, each x, exists-map q p f flag xs each)

exists_none :
    {A : Type 0} (q p : A → Bool) (xs : List A)
    → ((x : A) → p x ≡ false → q x ≡ false)
    → exists p xs ≡ false
    → exists q xs ≡ false
exists_none q p [] each h = refl
exists_none q p (x ∷ xs) each h =
    let (here, there) = or-false (p x) (exists p xs) h in
    rw (each x here) (exists_none q p xs each there)

or-false_right : (b : Bool) → (b || false) ≡ b
or-false_right true = refl
or-false_right false = refl

and_true : (b : Bool) → (b && true) ≡ b
and_true true = refl
and_true false = refl

module _ (companies : List Company) (is_demo flag : Bool) (course company : ℕ)
    (kind : company_is companies is_demo company ≡ true) where
  -- The rows that show the company in the course.
  abbrev is_showing : CompanyVisibility → Bool
  is_showing v =
      (v.course_id == course && (company_is companies is_demo v.company_id && v.is_visible))
      && v.company_id == company

  abbrev flagged : CompanyVisibility → CompanyVisibility
  flagged v = if is_visibility course company v then record v { is_visible = flag } else v

  not_showing :
      (v : CompanyVisibility) → is_visibility course company v ≡ false → is_showing v ≡ false
  not_showing v h = ground (arith, h)

  flagged-is_showing :
      (v : CompanyVisibility) → is_showing (flagged v) ≡ (is_visibility course company v && flag)
  flagged-is_showing v = elim (Bool-cases (is_visibility course company v)) [
    | inl same ↦
        let the_course : (v.course_id == course) ≡ true = ground arith in
        let the_company : v.company_id ≡ company = ground arith in
        let shown : company_is companies is_demo v.company_id ≡ true =
          ap (company_is companies is_demo) the_company ∙ kind in
        let that : (v.company_id == company) ≡ true = ground arith in
        rw (same, the_course, shown, that) (and_true flag)
    | inr other ↦ rw other (not_showing v other)
  ]

  -- After a flag is set, the course shows the company exactly if the flag says so.
  set_visibility-visible_ids :
      (rows : List CompanyVisibility)
      → contains company
          (visible_ids companies is_demo (set_visibility rows course company flag) course)
        ≡ flag
  unfolding set_visibility
  set_visibility-visible_ids rows =
      contains-map CompanyVisibility.company_id
        (λ v. v.course_id == course && (company_is companies is_demo v.company_id && v.is_visible))
        company (set_visibility rows course company flag)
      ∙ (elim (Bool-cases (exists (is_visibility course company) rows)) [
        | inl there ↦ rw there (
            exists-map is_showing (is_visibility course company) flagged flag rows
              flagged-is_showing
            ∙ rw there refl)
        | inr new ↦
            rw
              (
                new,
                ==_refl course,
                kind,
                ==_refl company,
                exists_none is_showing (is_visibility course company) rows not_showing new,
              )
              (or-false_right (flag && true) ∙ and_true flag)
      ])

known-company_is :
    (companies : List Company) (k : ℕ) (c : Company)
    → company_with k companies ≡ some c
    → c.is_demo ≡ false
    → company_is companies false k ≡ true
known-company_is [] k c known plain = cc
known-company_is (x ∷ xs) k c known plain = elim (Bool-cases (x.id == k)) [
  | inl here ↦
      let same : x ≡ c = some_inj (rw here at known) in
      let plain_x : x.is_demo ≡ false = ap Company.is_demo same ∙ plain in rw (here, plain_x) refl
  | inr there ↦ rw there (known-company_is xs k c (rw there at known) plain)
]

granted_iff : (flag : Bool) (c : Company) → (if flag then ok c else refused) ≡ ok c ↔ flag ≡ true
granted_iff true c = (λ e. refl, λ e. refl)
granted_iff false c = (λ e. cc, λ e. cc)

module _ (companies : List Company) (school : School) (course : Course) (company : Company)
    (student : User) (e : CourseEnrollment) (pupil : student.role ≡ Role.student)
    (known : company_with company.id companies ≡ some company) (plain : company.is_demo ≡ false)
    (stranger : (company.owner_id == student.id) ≡ false) where
  -- What a student who does not own it asks for.
  get_company_shared : get_company companies school company.id student ≡ (
      if student_can_access_shared_company companies school student company
      then ok company
      else refused)
  unfolding get_company check_access get_plain
  get_company_shared = rw (known, plain, pupil, stranger) refl

  shows :
      enrollment_of school student.id ≡ some e
      → student_can_access_shared_company companies school student company
        ≡ contains company.id (visible_ids companies false school.shared_visibilities e.course_id)
  unfolding student_can_access_shared_company visible_shared_company_ids_for_student
  shows enrolled = rw enrolled refl

-- After a course is set to show or to hide a company that is no demo, a student of the course who does
-- not own the company gets it exactly if it is shown.
pub set_shared_company_visibility_lem :
    (companies : List Company) (school after : School) (course : Course) (company : Company)
    (flag : Bool) (student : User) (e : CourseEnrollment)
    → student.role ≡ Role.student
    → (company.owner_id == student.id) ≡ false
    → company_with company.id companies ≡ some company
    → enrollment_of school student.id ≡ some e
    → e.course_id ≡ course.id
    → set_shared_company_visibility school course company flag ≡ ok after
    → get_company companies after company.id student ≡ ok company ↔ flag ≡ true
unfolding set_shared_company_visibility enrollment_of
set_shared_company_visibility_lem companies school after course company flag student e pupil
      stranger known enrolled in_course returned =
    let (done, kind, made) = >>=-eq-ok (raise_if company.is_demo _) _ returned in
    let plain = raise_if-eq-ok company.is_demo _ kind in
    let rows = set_visibility school.shared_visibilities course.id company.id flag in
    let set_rows : School = record school { shared_visibilities = rows } in
    let there : enrollment_of set_rows student.id ≡ some e = enrolled in
    let seen : contains company.id (visible_ids companies false rows e.course_id) ≡ flag =
      ap (λ i. contains company.id (visible_ids companies false rows i)) in_course
      ∙ set_visibility-visible_ids companies false flag course.id company.id
          (known-company_is companies company.id company known plain) school.shared_visibilities in
    rw
      (
        sym (ok-injective made),
        get_company_shared companies set_rows course company student e pupil known plain stranger,
        shows companies set_rows course company student e pupil known plain stranger there,
        seen,
      )
      (granted_iff flag company)
