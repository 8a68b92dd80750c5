-- ===== src/Visibility.antt =====
-- The accounts that teachers hide from their students: apps/accounts/visibility.py over the cache, and the
-- write of the view that changes an override (apps/accounts/api/views.py).
pub mod Keys
pub mod Coherence
pub mod Rows
pub mod Overrides
pub mod Enrolled
mod Tests
use mono256_sic_core.Base.{
  ℕ, zero, suc, Bool, true, false, not, ◌&&◌, Option, none, some, List, [], ◌∷◌, map, ◌==◌,
  if◌then◌else◌, where_, exists, find, contains,
}
use mono256_sic_core.Cache.{
  Value, number, document, Backend, safe_cache_get, safe_cache_set, get_or_init_version,
  bump_version,
}
use mono256_sic_core.Visibility.Keys.{
  VisibilityKey, student_teacher, teacher_version, teacher_hidden_ids,
}
use mono256_sic_core.Courses.{School, Course, CourseEnrollment, enrollment_of}

pub record TeacherAccountVisibility : Type 0 where
  pub teacher_id : ℕ
  pub account_id : ℕ
  pub is_visible : Bool

abbrev pub version_ttl_seconds : ℕ
version_ttl_seconds = 2592000

-- `int(teacher_id) if teacher_id else None`
abbrev pub id_or_none : ℕ → Option ℕ
id_or_none zero = none
id_or_none (suc n) = some (suc n)

abbrev pub teacher_in : List Course → Option CourseEnrollment → ℕ
teacher_in courses none = 0
teacher_in courses (some e) = elim (find (λ c. c.id == e.course_id) courses) [
  | none ↦ 0
  | some c ↦ c.teacher_id
]

-- The query for the teacher of the course that the student is enrolled in: 0 where there is none.
unfoldable pub enrolled_teacher : School → ℕ → ℕ
enrolled_teacher school student_id = teacher_in school.courses (enrollment_of school student_id)

abbrev pub hides : ℕ → TeacherAccountVisibility → Bool
hides teacher_id row = row.teacher_id == teacher_id && not row.is_visible

-- The query for the accounts that the teacher hides.
unfoldable pub hidden_ids : List TeacherAccountVisibility → ℕ → List ℕ
hidden_ids rows teacher_id = map (λ row. row.account_id) (where_ (hides teacher_id) rows)

abbrev pub is_override : ℕ → ℕ → TeacherAccountVisibility → Bool
is_override teacher_id account_id row = row.teacher_id == teacher_id && row.account_id == account_id

-- `get_or_create`, and the flag is written.
unfoldable pub set_override :
    List TeacherAccountVisibility → ℕ → ℕ → Bool → List TeacherAccountVisibility
set_override rows teacher_id account_id is_visible =
    if exists (is_override teacher_id account_id) rows
    then map
        (λ row.
          if is_override teacher_id account_id row
          then record row { is_visible = is_visible }
          else row)
        rows
    else record { teacher_id = teacher_id; account_id = account_id; is_visible = is_visible } ∷ rows

-- In the answers, an outer `none` is a `TypeError`: the entry has another type than the code writes.
module _ {S : Type 0} (b : Backend VisibilityKey (List ℕ) S) (timeout : ℕ) where
  abbrev pub cached_or_enrolled : Option (Value (List ℕ)) → School → S → ℕ → Option (Option ℕ × S)
  cached_or_enrolled (some (number n)) school s student_id = some (id_or_none n, s)
  cached_or_enrolled (some (document [])) school s student_id = some (none, s)
  cached_or_enrolled (some (document (x ∷ xs))) school s student_id = none
  cached_or_enrolled none school s student_id =
      let teacher = enrolled_teacher school student_id in
      some (
        id_or_none teacher,
        (safe_cache_set b s (student_teacher student_id) (number teacher) timeout).1,
      )

  unfoldable pub resolve_teacher_id_for_student : School → S → ℕ → Option (Option ℕ × S)
  unfolding safe_cache_get safe_cache_set enrolled_teacher
  resolve_teacher_id_for_student school s student_id =
      cached_or_enrolled (safe_cache_get b s (student_teacher student_id)) school s student_id

  unfoldable pub teacher_visibility_version : S → ℕ → ℕ × S
  unfolding get_or_init_version
  teacher_visibility_version s teacher_id =
      get_or_init_version b s (teacher_version teacher_id) version_ttl_seconds

  unfoldable pub bump_teacher_visibility_cache_version : S → ℕ → S
  unfolding bump_version
  bump_teacher_visibility_cache_version s teacher_id =
      (bump_version b s (teacher_version teacher_id) version_ttl_seconds).1

  abbrev pub cached_or_hidden :
      Option (Value (List ℕ)) → List TeacherAccountVisibility → S → ℕ → ℕ → Option (List ℕ × S)
  cached_or_hidden (some (document ids)) rows s teacher_id version = some (ids, s)
  cached_or_hidden (some (number n)) rows s teacher_id version = none
  cached_or_hidden none rows s teacher_id version =
      let ids = hidden_ids rows teacher_id in
      some
        (ids, (safe_cache_set b s (teacher_hidden_ids teacher_id version) (document ids) timeout).1)

  abbrev pub hidden_at : List TeacherAccountVisibility → ℕ → ℕ × S → Option (List ℕ × S)
  hidden_at rows teacher_id (version, s) =
      cached_or_hidden (safe_cache_get b s (teacher_hidden_ids teacher_id version)) rows s
        teacher_id version

  abbrev pub hidden_for :
      List TeacherAccountVisibility → Option (Option ℕ × S) → Option (List ℕ × S)
  hidden_for rows none = none
  hidden_for rows (some (none, s)) = some ([], s)
  hidden_for rows (some (some teacher_id, s)) =
      hidden_at rows teacher_id (teacher_visibility_version s teacher_id)

  unfoldable pub hidden_account_ids_for_student :
      School → List TeacherAccountVisibility → S → ℕ → Option (List ℕ × S)
  unfolding resolve_teacher_id_for_student teacher_visibility_version safe_cache_get safe_cache_set
      hidden_ids
  hidden_account_ids_for_student school rows s student_id =
      hidden_for rows (resolve_teacher_id_for_student school s student_id)

  unfoldable pub is_hidden_for_student :
      School → List TeacherAccountVisibility → S → ℕ → ℕ → Option (Bool × S)
  unfolding hidden_account_ids_for_student
  is_hidden_for_student school rows s student_id account_id =
      elim (hidden_account_ids_for_student school rows s student_id) [
        | none ↦ none
        | some (ids, s') ↦ some (contains account_id ids, s')
      ]

  -- The write of the view's `patch`, behind its guards: the row, then the version.
  unfoldable pub update_override :
      List TeacherAccountVisibility → S → ℕ → ℕ → Bool → List TeacherAccountVisibility × S
  unfolding set_override bump_teacher_visibility_cache_version
  update_override rows s teacher_id account_id is_visible = (
    set_override rows teacher_id account_id is_visible,
    bump_teacher_visibility_cache_version s teacher_id,
  )
