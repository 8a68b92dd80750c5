-- ===== src/Visibility/Keys.antt =====
-- The keys of apps/accounts/visibility.py, and the call that forgets a student's teacher: the services of
-- courses make it.
use mono256_sic_core.Base.{ℕ, List}
use mono256_sic_core.Cache.{Backend, safe_cache_delete}

-- The texts of the keys as a data type, since no two of them coincide.
pub data VisibilityKey : Type 0 where
  student_teacher : ℕ → VisibilityKey
  teacher_version : ℕ → VisibilityKey
  teacher_hidden_ids : ℕ → ℕ → VisibilityKey

unfoldable pub invalidate_student_teacher_cache :
    {S : Type 0} → Backend VisibilityKey (List ℕ) S → S → ℕ → S
unfolding safe_cache_delete
invalidate_student_teacher_cache b s student_id =
    (safe_cache_delete b s (student_teacher student_id)).1
