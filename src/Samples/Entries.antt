-- ===== src/Samples/Entries.antt =====
-- The keys of the students' teachers and their hidden accounts told apart, and a cache in memory over them.
use mono256_sic_core.Base.{
  ℕ, Bool, true, false, List, ◌≡◌, refl, sym, ap, ◌↔◌, arith, ◌==◌, ==_refl, ==→eq, ◌∙◌,
  if◌then◌else◌,
}
use mono256_sic_core.Cache.{Backend}
use mono256_sic_core.Cache.Laws.{IsReliable}
use mono256_sic_core.Cache.Memory.{Memory, memory, memory-IsReliable}
use mono256_sic_core.Visibility.Keys.{
  VisibilityKey, student_teacher, teacher_version, teacher_hidden_ids,
}

abbrev pub same_entry : VisibilityKey → VisibilityKey → Bool
same_entry (student_teacher i) (student_teacher j) = i == j
same_entry (student_teacher i) (teacher_version u) = false
same_entry (student_teacher i) (teacher_hidden_ids u m) = false
same_entry (teacher_version t) (student_teacher j) = false
same_entry (teacher_version t) (teacher_version u) = t == u
same_entry (teacher_version t) (teacher_hidden_ids u m) = false
same_entry (teacher_hidden_ids t n) (student_teacher j) = false
same_entry (teacher_hidden_ids t n) (teacher_version u) = false
same_entry (teacher_hidden_ids t n) (teacher_hidden_ids u m) = if t == u then n == m else false

same_entry_refl : (k : VisibilityKey) → same_entry k k ≡ true
same_entry_refl (student_teacher i) = ==_refl i
same_entry_refl (teacher_version t) = ==_refl t
same_entry_refl (teacher_hidden_ids t n) = rw (==_refl t) (==_refl n)

same_entry→eq : (j k : VisibilityKey) → same_entry j k ≡ true → j ≡ k
same_entry→eq (student_teacher i) (student_teacher j) h = ap student_teacher (==→eq i j h)
same_entry→eq (student_teacher i) (teacher_version u) h = cc
same_entry→eq (student_teacher i) (teacher_hidden_ids u m) h = cc
same_entry→eq (teacher_version t) (student_teacher j) h = cc
same_entry→eq (teacher_version t) (teacher_version u) h = ap teacher_version (==→eq t u h)
same_entry→eq (teacher_version t) (teacher_hidden_ids u m) h = cc
same_entry→eq (teacher_hidden_ids t n) (student_teacher j) h = cc
same_entry→eq (teacher_hidden_ids t n) (teacher_version u) h = cc
same_entry→eq (teacher_hidden_ids t n) (teacher_hidden_ids u m) h =
    let teachers : t ≡ u = ground arith in
    let numbers : n ≡ m = ground arith in rw (teachers, numbers) refl

pub same_entry_iff : (j k : VisibilityKey) → same_entry j k ≡ true ↔ j ≡ k
same_entry_iff j k = (same_entry→eq j k, λ e. ap (λ x. same_entry j x) (sym e) ∙ same_entry_refl j)

abbrev pub entries : Backend VisibilityKey (List ℕ) (Memory VisibilityKey (List ℕ))
entries = memory same_entry

abbrev pub entries-IsReliable : IsReliable same_entry entries
entries-IsReliable = memory-IsReliable same_entry same_entry_iff
