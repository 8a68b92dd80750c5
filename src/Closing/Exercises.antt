-- ===== src/Closing/Exercises.antt =====
-- Logical exercises, inferred from the boundary entries: apps/closing/selectors.py. The cache in
-- front of `_build_logical_exercises` is keyed by the report version, which every posting bumps;
-- here the chain is always built.
pub mod Chain
pub mod Accepted
use mono256_sic_core.Base.{
  ℕ, ◌+◌, Bool, true, false, not, ◌&&◌, ◌||◌, Option, none, some, List, [], ◌∷◌, ◌++◌, reverse,
  ◌==◌, ltb, leb, if◌then◌else◌, is_some, or_default, length, exists, find, where_, sort_by,
}
use mono256_sic_core.Base.Result.{
  Result, ok, raise, Error, ◌>>=◌, ◌>>◌, raise_if, conflict_error, Reason,
}
use mono256_sic_core.Store.{
  SourceType, Company, JournalEntry, ClosingSnapshot, Db, is_opening, is_reopening,
  is_patrimonial_closing,
}
use mono256_sic_core.Journal.{of_company}

pub data ExerciseStatus : Type 0 where
  open_ closed : ExerciseStatus

-- `exercise_id` is `opening:…` or `reopening:…` with the key of the entry that opens it, which are
-- the fields `opening_source_type` and `opening_entry_id`.
pub record LogicalExercise : Type 0 where
  pub exercise_index : ℕ
  pub opening_entry_id : ℕ
  pub opening_source_type : SourceType
  pub start_date : ℕ
  pub closing_entry_id : Option ℕ
  pub closing_date : Option ℕ
  pub snapshot_id : Option ℕ
  pub status : ExerciseStatus

abbrev pub is_boundary : SourceType → Bool
is_boundary s = is_opening s || is_reopening s || is_patrimonial_closing s

-- `order_by("date", "entry_number")`
abbrev pub entry_le : JournalEntry → JournalEntry → Bool
entry_le a b = ltb a.date b.date || a.date == b.date && leb a.entry_number b.entry_number

abbrev pub is_boundary_of : ℕ → JournalEntry → Bool
is_boundary_of company_id e = e.company_id == company_id && is_boundary e.source_type

unfoldable pub boundary_entries : Db → ℕ → List JournalEntry
unfolding sort_by
boundary_entries db company_id = sort_by entry_le (where_ (is_boundary_of company_id) db.entries)

abbrev pub snapshot_of : List ClosingSnapshot → ℕ → Option ℕ
snapshot_of [] entry_id = none
snapshot_of (s ∷ ss) entry_id =
    if s.closing_entry_id == entry_id then some s.id else snapshot_of ss entry_id

abbrev pub closed_exercise : ℕ → JournalEntry → JournalEntry → Option ℕ → LogicalExercise
closed_exercise index opening closing snapshot = record {
  exercise_index = index;
  opening_entry_id = opening.id;
  opening_source_type = opening.source_type;
  start_date = opening.date;
  closing_entry_id = some closing.id;
  closing_date = some closing.date;
  snapshot_id = snapshot;
  status = ExerciseStatus.closed;
}

abbrev pub open_exercise : ℕ → JournalEntry → LogicalExercise
open_exercise index opening = record {
  exercise_index = index;
  opening_entry_id = opening.id;
  opening_source_type = opening.source_type;
  start_date = opening.date;
  closing_entry_id = none;
  closing_date = none;
  snapshot_id = none;
  status = ExerciseStatus.open_;
}

-- The variables of the loop in `_build_logical_exercises`.
pub record ChainState : Type 0 where
  pub exercises : List LogicalExercise
  pub current : Option JournalEntry
  pub seen_opening : Bool

abbrev pub chain_start : ChainState
chain_start = record { exercises = []; current = none; seen_opening = false }

abbrev pub bad_chain : Error
bad_chain = conflict_error Reason.invalid_chain

abbrev pub has_any {ℓ} : {A : Type ℓ} → List A → Bool
has_any [] = false
has_any (x ∷ xs) = true

-- One round of the loop.
unfoldable pub chain_step : List ClosingSnapshot → ChainState → JournalEntry → Result ChainState
chain_step snaps st e =
    if is_opening e.source_type
    then (if st.seen_opening || is_some st.current || has_any st.exercises
        then raise bad_chain
        else ok (record st { current = some e; seen_opening = true }))
    else (if is_reopening e.source_type
        then (if not st.seen_opening || is_some st.current
            then raise bad_chain
            else ok (record st { current = some e }))
        else elim st.current [
          | none ↦ raise bad_chain
          | some opening ↦ ok (record st {
            exercises =
                st.exercises
                ++ closed_exercise (length st.exercises + 1) opening e (snapshot_of snaps e.id)
                  ∷ [];
            current = none;
          })
        ])

unfoldable pub chain_loop :
    List ClosingSnapshot → ChainState → List JournalEntry → Result ChainState
chain_loop snaps st [] = ok st
chain_loop snaps st (e ∷ es) = chain_step snaps st e >>= λ st'. chain_loop snaps st' es

-- The exercise still open behind the last boundary.
abbrev pub finish_chain : ChainState → List LogicalExercise
finish_chain st = elim st.current [
  | none ↦ st.exercises
  | some opening ↦ st.exercises ++ open_exercise (length st.exercises + 1) opening ∷ []
]

unfoldable pub build_logical_exercises : Db → ℕ → Result (List LogicalExercise)
unfolding boundary_entries chain_loop chain_step
build_logical_exercises db company_id = do
  st ←
      chain_loop (where_ (λ s. s.company_id == company_id) db.snapshots) chain_start
        (boundary_entries db company_id)
  raise_if (exists (of_company company_id) db.entries && not (has_any (finish_chain st)))
      (conflict_error Reason.entries_without_chain)
  ok (finish_chain st)

abbrev pub is_open : LogicalExercise → Bool
is_open x = elim x.status [ ExerciseStatus.open_ ↦ true | ExerciseStatus.closed ↦ false ]

abbrev pub last {ℓ} : {A : Type ℓ} → List A → Option A
last [] = none
last (x ∷ []) = some x
last (x ∷ y ∷ ys) = last (y ∷ ys)

abbrev pub choose : Option LogicalExercise → Option LogicalExercise → Option LogicalExercise
choose none d = d
choose (some x) d = some x

-- The last open exercise, or else the last one.
unfoldable pub current_exercise : List LogicalExercise → Option LogicalExercise
current_exercise xs = choose (find is_open (reverse xs)) (last xs)
