-- ===== src/Courses/Tables.antt =====
-- The uniqueness that apps/courses/models.py asks of its tables, and the services that write them.
use mono256_sic_core.Base.{
  ℕ, ◌+◌, ◌≤◌, ◌<◌, Bool, true, false, ◌&&◌, none, List, [], ◌∷◌, map, ◌==◌, ==→eq, inl, inr, ◌≡◌,
  refl, sym, ap, subst, arith, if◌then◌else◌, length, where_, where_-none, find, exists, All,
  All-map, Bool-cases, or-false,
}
use mono256_sic_core.Courses.{
  Course, CourseEnrollment, CompanyVisibility, School, is_visibility, set_visibility,
}

-- Rows that pass a test, counted.
abbrev pub count {ℓ} : {A : Type ℓ} → (A → Bool) → List A → ℕ
count p xs = length (where_ p xs)

module _ {ℓ} {A : Type ℓ} where
  pub count-where_ : (p q : A → Bool) (xs : List A) → count p (where_ q xs) ≤ count p xs
  count-where_ p q [] = omega arith
  count-where_ p q (x ∷ xs) = ground (arith, count-where_ p q xs)

  -- Two rows that pass alike before lists with equal counts.
  cons_count :
      (p : A → Bool) (x y : A) (xs ys : List A)
      → p y ≡ p x
      → count p ys ≡ count p xs
      → count p (y ∷ ys) ≡ count p (x ∷ xs)
  cons_count p x y xs ys same rest = ground (arith, same, rest)

  pub count-map :
      (p : A → Bool) (f : A → A) (xs : List A)
      → ((x : A) → p (f x) ≡ p x)
      → count p (map f xs) ≡ count p xs
  count-map p f [] same = refl
  count-map p f (x ∷ xs) same = cons_count p x (f x) xs (map f xs) (same x) (count-map p f xs same)

  pub count_none : (p : A → Bool) (xs : List A) → exists p xs ≡ false → count p xs ≡ 0
  count_none p [] h = refl
  count_none p (x ∷ xs) h =
      let (here, there) = or-false (p x) (exists p xs) h in rw here (count_none p xs there)

  pub exists-find : (p : A → Bool) (xs : List A) → find p xs ≡ none → exists p xs ≡ false
  exists-find p [] h = refl
  exists-find p (x ∷ xs) h = elim (Bool-cases (p x)) [
    | inl e ↦ cc
    | inr e ↦ rw e (exists-find p xs (rw e at h))
  ]

-- A row under a new key keeps the keys apart.
pub count_new {ℓ} :
    {A : Type ℓ} (key : A → ℕ) (x : A) (xs : List A)
    → count (λ y. key y == key x) xs ≡ 0
    → ((i : ℕ) → count (λ y. key y == i) xs ≤ 1)
    → (i : ℕ) → count (λ y. key y == i) (x ∷ xs) ≤ 1
count_new key x xs free once i = elim (Bool-cases (key x == i)) [
  | inl same ↦
      let none_there : count (λ y. key y == i) xs ≡ 0 =
        subst (λ j. count (λ y. key y == j) xs ≡ 0) (==→eq (key x) i same) free in
      rw same (omega (arith, none_there))
  | inr other ↦ rw other (once i)
]

-- Each student is enrolled at most once, and each pair of a course and a company has one row at most in
-- each table of visibilities.
abbrev pub IsEnrolledOnce : List CourseEnrollment → Type 0
IsEnrolledOnce rows = (student : ℕ) → count (λ e. e.student_id == student) rows ≤ 1

abbrev pub IsSetOnce : List CompanyVisibility → Type 0
IsSetOnce rows = (course company : ℕ) → count (is_visibility course company) rows ≤ 1

-- The identifiers of the courses come from a sequence.
abbrev pub IsNumbered : School → Type 0
IsNumbered school =
    All (λ c. c.id < school.next_course_id) school.courses
    × ((i : ℕ) → count (λ c. c.id == i) school.courses ≤ 1)

abbrev pub IsWellFormedSchool : School → Type 0
IsWellFormedSchool school =
    IsNumbered school
    × IsEnrolledOnce school.enrollments
    × IsSetOnce school.demo_visibilities
    × IsSetOnce school.shared_visibilities

shown : ℕ → ℕ → Bool → CompanyVisibility → CompanyVisibility
shown course company flag v =
    if is_visibility course company v then record v { is_visible = flag } else v

shown-is_visibility :
    (course company : ℕ) (flag : Bool) (c k : ℕ) (v : CompanyVisibility)
    → is_visibility c k (shown course company flag v) ≡ is_visibility c k v
unfolding shown
shown-is_visibility course company flag c k v = ground arith

moved :
    (course company c k : ℕ) (rows : List CompanyVisibility)
    → (course == c && company == k) ≡ true
    → exists (is_visibility course company) rows ≡ false
    → exists (is_visibility c k) rows ≡ false
moved course company c k rows same new =
    let the_course : course ≡ c = ground arith in
    let the_company : company ≡ k = ground arith in rw (sym the_course, sym the_company) new

new_row-IsSetOnce :
    (rows : List CompanyVisibility) (course company : ℕ) (flag : Bool)
    → exists (is_visibility course company) rows ≡ false
    → IsSetOnce rows
    → IsSetOnce (record { course_id = course; company_id = company; is_visible = flag } ∷ rows)
new_row-IsSetOnce rows course company flag new once c k =
    elim (Bool-cases (course == c && company == k)) [
      | inl same ↦
          let free : count (is_visibility c k) rows ≡ 0 =
            count_none (is_visibility c k) rows (moved course company c k rows same new) in
          rw same (omega (arith, free))
      | inr other ↦ rw other (once c k)
    ]

pub set_visibility-IsSetOnce :
    (rows : List CompanyVisibility) (course company : ℕ) (flag : Bool)
    → IsSetOnce rows
    → IsSetOnce (set_visibility rows course company flag)
unfolding set_visibility shown
set_visibility-IsSetOnce rows course company flag once c k =
    elim (Bool-cases (exists (is_visibility course company) rows)) [
      | inl there ↦ rw there (
          subst (λ n. n ≤ 1)
            (sym (
              count-map (is_visibility c k) (shown course company flag) rows
                (shown-is_visibility course company flag c k)))
            (once c k))
      | inr new ↦ rw new (new_row-IsSetOnce rows course company flag new once c k)
    ]

pub create_course-IsNumbered :
    (s : School) (course : Course)
    → course.id ≡ s.next_course_id
    → IsNumbered s
    → All (λ c. c.id < s.next_course_id + 1) (course ∷ s.courses)
      × ((i : ℕ) → count (λ c. c.id == i) (course ∷ s.courses) ≤ 1)
create_course-IsNumbered s course e (below, once) = (
  (
    omega (arith, e),
    All-map (λ c. c.id < s.next_course_id) (λ c. c.id < s.next_course_id + 1) s.courses
        (λ c lt. omega (arith, lt)) below,
  ),
  count_new Course.id course s.courses
      (subst (λ i. count (λ c. c.id == i) s.courses ≡ 0) (sym e)
        (ap length (where_-none Course.id s.next_course_id s.courses below)))
      once,
)
