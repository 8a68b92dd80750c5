-- ===== src/Closing/Exercises/Chain.antt =====
-- What the exercises of a chain look like: `_build_logical_exercises` of apps/closing/selectors.py.
use mono256_sic_core.Base.{
  ℕ, ◌+◌, Bool, true, false, not, ◌&&◌, ◌||◌, Option, none, some, List, [], ◌∷◌, ◌++◌, reverse, ◌≡◌,
  refl, ◌∙◌, ap, subst, inl, inr, arith, length, All, All-append, where_, find, exists, ◌==◌,
  Bool-cases, Option-cases, is_some, or-false,
}
use mathlib.Core.List.{reverse-cons}
use mono256_sic_core.Base.Result.{ok, raise_if, >>=-eq-ok, ok-injective, conflict_error, Reason}
use mono256_sic_core.Store.{JournalEntry, ClosingSnapshot, Db, is_opening, is_reopening}
use mono256_sic_core.Journal.{of_company}
use mono256_sic_core.Closing.Exercises.{
  LogicalExercise, ChainState, chain_start, chain_step, chain_loop, finish_chain, boundary_entries,
  build_logical_exercises, is_open, last, current_exercise, choose, has_any, closed_exercise,
  snapshot_of,
}

abbrev IsClosedExercise : LogicalExercise → Type 0
IsClosedExercise x = is_open x ≡ false

-- The exercises are numbered from `k`.
abbrev pub IsNumbered : ℕ → List LogicalExercise → Type 0
IsNumbered k [] = Unit
IsNumbered k (x ∷ xs) = (x.exercise_index ≡ k) × IsNumbered (k + 1) xs

-- Only the last exercise may be open.
abbrev pub IsOpenLast : List LogicalExercise → Type 0
IsOpenLast [] = Unit
IsOpenLast (x ∷ []) = Unit
IsOpenLast (x ∷ y ∷ ys) = (is_open x ≡ false) × IsOpenLast (y ∷ ys)

IsNumbered-append :
    (k : ℕ) (xs : List LogicalExercise) (x : LogicalExercise)
    → IsNumbered k xs
    → x.exercise_index ≡ length xs + k
    → IsNumbered k (xs ++ x ∷ [])
IsNumbered-append k [] x h e = (omega (arith, e), tt)
IsNumbered-append k (y ∷ ys) x h e = (h.0, IsNumbered-append (k + 1) ys x h.1 (omega (arith, e)))

IsOpenLast-append :
    (xs : List LogicalExercise) (x : LogicalExercise)
    → All IsClosedExercise xs
    → IsOpenLast (xs ++ x ∷ [])
IsOpenLast-append [] x h = tt
IsOpenLast-append (y ∷ []) x h = (h.0, tt)
IsOpenLast-append (y ∷ z ∷ zs) x h = (h.0, IsOpenLast-append (z ∷ zs) x h.1)

IsOpenLast-closed : (xs : List LogicalExercise) → All IsClosedExercise xs → IsOpenLast xs
IsOpenLast-closed [] h = tt
IsOpenLast-closed (y ∷ []) h = tt
IsOpenLast-closed (y ∷ z ∷ zs) h = (h.0, IsOpenLast-closed (z ∷ zs) h.1)

-- The state of the loop: closed exercises with their numbers, and an opening before any other entry.
pub record Sound (st : ChainState) : Type 0 where
  pub numbered : IsNumbered 1 st.exercises
  pub closed : All IsClosedExercise st.exercises
  pub untouched : st.seen_opening ≡ false → (st.current ≡ none) × (st.exercises ≡ [])

choose-none : (v d : Option LogicalExercise) → choose (choose v none) d ≡ choose v d
choose-none none d = refl
choose-none (some x) d = refl

find-append_closed :
    (rows : List LogicalExercise) (x : LogicalExercise)
    → is_open x ≡ false
    → find is_open (rows ++ x ∷ []) ≡ choose (find is_open rows) none
find-append_closed [] x h = rw h
find-append_closed (y ∷ ys) x h = elim (Bool-cases (is_open y)) [
  | inl here ↦ rw here
  | inr there ↦ rw there (find-append_closed ys x h)
]

-- The active exercise is the last of the chain.
current_exercise-last : (xs : List LogicalExercise) → IsOpenLast xs → current_exercise xs ≡ last xs
unfolding current_exercise
current_exercise-last [] h = refl
current_exercise-last (x ∷ []) h = elim (Bool-cases (is_open x)) [
  | inl active ↦ rw active
  | inr shut ↦ rw shut
]
current_exercise-last (x ∷ y ∷ ys) h =
    ap (λ r. choose (find is_open r) (last (y ∷ ys))) (reverse-cons x (y ∷ ys))
    ∙ ap (λ v. choose v (last (y ∷ ys))) (find-append_closed (reverse (y ∷ ys)) x h.0)
    ∙ choose-none (find is_open (reverse (y ∷ ys))) (last (y ∷ ys))
    ∙ current_exercise-last (y ∷ ys) h.1

pub start-Sound : Sound chain_start
start-Sound = record { numbered = tt; closed = tt; untouched = λ h. (refl, refl) }

abbrev pub opened_state : ChainState → JournalEntry → ChainState
opened_state st e = record st { current = some e; seen_opening = true }

abbrev pub reopened_state : ChainState → JournalEntry → ChainState
reopened_state st e = record st { current = some e }

abbrev pub closed_state :
    List ClosingSnapshot → ChainState → JournalEntry → JournalEntry → ChainState
closed_state snaps st opening e = record st {
  exercises =
      st.exercises
      ++ closed_exercise (length st.exercises + 1) opening e (snapshot_of snaps e.id) ∷ [];
  current = none;
}

-- What one entry may be.
pub data Step (snaps : List ClosingSnapshot) (st : ChainState) (e : JournalEntry)
    : ChainState → Type 0 where
  opening_step :
      is_opening e.source_type ≡ true
      → st.seen_opening ≡ false
      → st.current ≡ none
      → Step snaps st e (opened_state st e)
  reopening_step :
      is_opening e.source_type ≡ false
      → is_reopening e.source_type ≡ true
      → st.seen_opening ≡ true
      → st.current ≡ none
      → Step snaps st e (reopened_state st e)
  closing_step :
      (opening : JournalEntry)
      → is_opening e.source_type ≡ false
      → is_reopening e.source_type ≡ false
      → st.current ≡ some opening
      → Step snaps st e (closed_state snaps st opening e)

is_some-none : {o : Option JournalEntry} → is_some o ≡ false → o ≡ none
is_some-none {o = none} h = refl
is_some-none {o = some e} h = cc

true_of_not : {b : Bool} → not b ≡ false → b ≡ true
true_of_not {b = true} h = refl
true_of_not {b = false} h = cc

pub chain_step-Step :
    (snaps : List ClosingSnapshot) (st : ChainState) (e : JournalEntry) {st' : ChainState}
    → chain_step snaps st e ≡ ok st'
    → Step snaps st e st'
unfolding chain_step
chain_step-Step snaps st e h = elim (Bool-cases (is_opening e.source_type)) [
  | inl opening ↦
      elim (Bool-cases (st.seen_opening || is_some st.current || has_any st.exercises)) [
        | inl bad ↦ absurd (cc (rw (opening, bad) at h))
        | inr good ↦
            let (front, _) = or-false (st.seen_opening || is_some st.current) _ good in
            let (unseen, idle) = or-false st.seen_opening (is_some st.current) front in
            subst (Step snaps st e) (ok-injective (rw (opening, good) at h))
              (opening_step opening unseen (is_some-none idle))
      ]
  | inr other ↦ elim (Bool-cases (is_reopening e.source_type)) [
    | inl reopening ↦ elim (Bool-cases (not st.seen_opening || is_some st.current)) [
      | inl bad ↦ absurd (cc (rw (other, reopening, bad) at h))
      | inr good ↦
          let (seen, idle) = or-false (not st.seen_opening) (is_some st.current) good in
          subst (Step snaps st e) (ok-injective (rw (other, reopening, good) at h))
            (reopening_step other reopening (true_of_not seen) (is_some-none idle))
    ]
    | inr closing ↦ elim (Option-cases st.current) [
      | inl idle ↦ absurd (cc (rw (other, closing, idle) at h))
      | inr (opening, active) ↦
          subst (Step snaps st e) (ok-injective (rw (other, closing, active) at h))
            (closing_step opening other closing active)
    ]
  ]
]

pub Step-Sound :
    {snaps : List ClosingSnapshot} {st : ChainState} {e : JournalEntry} {st' : ChainState}
    → Sound st
    → Step snaps st e st'
    → Sound st'
Step-Sound {st = st} h (opening_step is_one unseen idle) = record {
  numbered = h.numbered;
  closed = h.closed;
  untouched = λ x. cc;
}
Step-Sound {st = st} h (reopening_step other is_one seen idle) = record {
  numbered = h.numbered;
  closed = h.closed;
  untouched = λ x. absurd (cc (seen, x));
}
Step-Sound {snaps = snaps} {st = st} {e = e} h (closing_step opening other closing active) =
    record {
      numbered = IsNumbered-append 1 st.exercises _ h.numbered refl;
      closed = All-append IsClosedExercise st.exercises _ h.closed (refl, tt);
      untouched = λ x. absurd (cc ((h.untouched x).0, active));
    }

loop-Sound :
    (snaps : List ClosingSnapshot) (st : ChainState) (es : List JournalEntry) {st' : ChainState}
    → Sound st
    → chain_loop snaps st es ≡ ok st'
    → Sound st'
unfolding chain_loop
loop-Sound snaps st [] h e = subst Sound (ok-injective e) h
loop-Sound snaps st (x ∷ xs) h e =
    let (mid, one, rest) = >>=-eq-ok (chain_step snaps st x) (λ m. chain_loop snaps m xs) e in
    loop-Sound snaps mid xs (Step-Sound h (chain_step-Step snaps st x one)) rest

finish_chain-lem :
    (st : ChainState) → Sound st → IsNumbered 1 (finish_chain st) × IsOpenLast (finish_chain st)
finish_chain-lem st h = elim (Option-cases st.current) [
  | inl idle ↦ rw idle (h.numbered, IsOpenLast-closed st.exercises h.closed)
  | inr (opening, active) ↦ rw active (
    IsNumbered-append 1 st.exercises _ h.numbered refl,
    IsOpenLast-append st.exercises _ h.closed,
  )
]

-- The exercises of a company, where they can be built, are numbered 1, 2, …; only the last may be
-- open; and the active exercise is the last one.
pub build_logical_exercises_lem :
    (db : Db) (company_id : ℕ) {xs : List LogicalExercise}
    → build_logical_exercises db company_id ≡ ok xs
    → IsNumbered 1 xs × IsOpenLast xs × (current_exercise xs ≡ last xs)
unfolding build_logical_exercises
build_logical_exercises_lem db company_id h =
    let snaps = where_ (λ s. s.company_id == company_id) db.snapshots in
    let entries = boundary_entries db company_id in
    let (st, ran, h₁) = >>=-eq-ok (chain_loop snaps chain_start entries) _ h in
    let missing = exists (of_company company_id) db.entries && not (has_any (finish_chain st)) in
    let (_, _, made) =
      >>=-eq-ok (raise_if missing (conflict_error Reason.entries_without_chain))
        (λ _. ok (finish_chain st)) h₁ in
    let (numbered, ordered) =
      finish_chain-lem st (loop-Sound snaps chain_start entries start-Sound ran) in
    subst (λ xs. IsNumbered 1 xs × IsOpenLast xs × (current_exercise xs ≡ last xs))
      (ok-injective made) (numbered, ordered, current_exercise-last (finish_chain st) ordered)
