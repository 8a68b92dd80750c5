-- ===== src/Closing/Exercises/Accepted.antt =====
-- Which boundary entries `_build_logical_exercises` accepts as a chain of exercises.
use mono256_sic_core.Base.{
  true, false, none, some, List, [], ◌∷◌, ◌≡◌, refl, ◌⊎◌, inl, inr, arith, ◌↔◌, if◌then◌else◌, All,
  Bool-cases,
}
use mono256_sic_core.Base.Result.{ok, >>=-eq-ok}
use mono256_sic_core.Store.{
  SourceType, JournalEntry, ClosingSnapshot, is_opening, is_reopening, is_patrimonial_closing,
}
use mono256_sic_core.Closing.Exercises.{
  is_boundary, ChainState, chain_start, chain_step, chain_loop, has_any,
}
use mono256_sic_core.Closing.Exercises.Chain.{
  Sound, Step, opening_step, reopening_step, closing_step, opened_state, reopened_state,
  closed_state, start-Sound, chain_step-Step, Step-Sound,
}

-- Before the opening, inside an exercise, between two exercises.
pub data Phase : Type 0 where
  fresh running between : Phase

-- The entries continue a chain from the phase.
pub data Follows : Phase → List JournalEntry → Type 0 where
  done : {p : Phase} → Follows p []
  opens :
      {e : JournalEntry} {es : List JournalEntry}
      → is_opening e.source_type ≡ true
      → Follows Phase.running es
      → Follows Phase.fresh (e ∷ es)
  closes :
      {e : JournalEntry} {es : List JournalEntry}
      → is_patrimonial_closing e.source_type ≡ true
      → Follows Phase.between es
      → Follows Phase.running (e ∷ es)
  reopens :
      {e : JournalEntry} {es : List JournalEntry}
      → is_reopening e.source_type ≡ true
      → Follows Phase.running es
      → Follows Phase.between (e ∷ es)

abbrev phase : ChainState → Phase
phase st = elim st.current [
  | some e ↦ Phase.running
  | none ↦ if st.seen_opening then Phase.between else Phase.fresh
]

seen_of :
    (st : ChainState) {opening : JournalEntry}
    → Sound st
    → st.current ≡ some opening
    → st.seen_opening ≡ true
seen_of st h active = elim (Bool-cases st.seen_opening) [
  | inl seen ↦ seen
  | inr unseen ↦ absurd (cc ((h.untouched unseen).0, active))
]

closing_kind :
    (s : SourceType)
    → is_boundary s ≡ true
    → is_opening s ≡ false
    → is_reopening s ≡ false
    → is_patrimonial_closing s ≡ true
closing_kind s b other closing = rw (other, closing) at b

Step-Follows :
    {snaps : List ClosingSnapshot} {st : ChainState} {e : JournalEntry} {es : List JournalEntry}
    {st' : ChainState}
    → Sound st
    → is_boundary e.source_type ≡ true
    → Step snaps st e st'
    → Follows (phase st') es
    → Follows (phase st) (e ∷ es)
Step-Follows h b (opening_step is_one unseen idle) f = rw (idle, unseen) (opens is_one f)
Step-Follows h b (reopening_step other is_one seen idle) f = rw (idle, seen) (reopens is_one f)
Step-Follows {st = st} {e = e} h b (closing_step opening other closing active) f =
    rw active (closes (closing_kind e.source_type b other closing) (rw (seen_of st h active) at f))

loop-Follows :
    (snaps : List ClosingSnapshot) (st : ChainState) (es : List JournalEntry) {st' : ChainState}
    → Sound st
    → All (λ e. is_boundary e.source_type ≡ true) es
    → chain_loop snaps st es ≡ ok st'
    → Follows (phase st) es
unfolding chain_loop
loop-Follows snaps st [] h b e = done
loop-Follows snaps st (x ∷ xs) h b e =
    let (mid, one, rest) = >>=-eq-ok (chain_step snaps st x) (λ m. chain_loop snaps m xs) e in
    let step = chain_step-Step snaps st x one in
    Step-Follows h b.0 step (loop-Follows snaps mid xs (Step-Sound h step) b.1 rest)

-- The phase tells the state's fields.
abbrev InPhase : Phase → ChainState → Type 0
InPhase Phase.fresh st =
    (st.current ≡ none) × (st.seen_opening ≡ false) × (has_any st.exercises ≡ false)
InPhase Phase.running st = (o : JournalEntry) × (st.current ≡ some o)
InPhase Phase.between st = (st.current ≡ none) × (st.seen_opening ≡ true)

reopening-kind : (s : SourceType) → is_reopening s ≡ true → s ≡ SourceType.reopening
reopening-kind s h = ground arith

closing-kind :
    (s : SourceType) → is_patrimonial_closing s ≡ true → s ≡ SourceType.patrimonial_closing
closing-kind s h = ground arith

opening-steps :
    (snaps : List ClosingSnapshot) (st : ChainState) (e : JournalEntry)
    → InPhase Phase.fresh st
    → is_opening e.source_type ≡ true
    → chain_step snaps st e ≡ ok (opened_state st e)
unfolding chain_step
opening-steps snaps st e (idle, unseen, none_) h = rw (h, unseen, idle, none_)

reopening-steps :
    (snaps : List ClosingSnapshot) (st : ChainState) (e : JournalEntry)
    → InPhase Phase.between st
    → is_reopening e.source_type ≡ true
    → chain_step snaps st e ≡ ok (reopened_state st e)
unfolding chain_step
reopening-steps snaps st e (idle, seen) h = rw (reopening-kind e.source_type h, seen, idle)

closing-steps :
    (snaps : List ClosingSnapshot) (st : ChainState) (e opening : JournalEntry)
    → st.current ≡ some opening
    → is_patrimonial_closing e.source_type ≡ true
    → chain_step snaps st e ≡ ok (closed_state snaps st opening e)
unfolding chain_step
closing-steps snaps st e opening active h = rw (closing-kind e.source_type h, active)

-- Accepted by the loop.
abbrev pub IsAccepted : List ClosingSnapshot → ChainState → List JournalEntry → Type 0
IsAccepted snaps st es = (st' : ChainState) × (chain_loop snaps st es ≡ ok st')

IsAccepted-step :
    (snaps : List ClosingSnapshot) (st mid : ChainState) (e : JournalEntry) (es : List JournalEntry)
    → chain_step snaps st e ≡ ok mid
    → IsAccepted snaps mid es
    → IsAccepted snaps st (e ∷ es)
unfolding chain_loop
IsAccepted-step snaps st mid e es one (st', rest) = (st', rw one rest)

Follows-loop :
    (snaps : List ClosingSnapshot) (p : Phase) (st : ChainState) (es : List JournalEntry)
    → st.seen_opening ≡ true ⊎ (p ≡ Phase.fresh)
    → InPhase p st
    → Follows p es
    → IsAccepted snaps st es
unfolding chain_loop
Follows-loop snaps p st [] s i done = (st, refl)
Follows-loop snaps Phase.fresh st (e ∷ es) s i (opens is_one f) =
    IsAccepted-step snaps st (opened_state st e) e es (opening-steps snaps st e i is_one)
      (Follows-loop snaps Phase.running (opened_state st e) es (inl refl) (e, refl) f)
Follows-loop snaps Phase.running st (e ∷ es) (inr wrong) i (closes is_one f) = absurd (cc wrong)
Follows-loop snaps Phase.running st (e ∷ es) (inl seen) (opening, active) (closes is_one f) =
    IsAccepted-step snaps st (closed_state snaps st opening e) e es
      (closing-steps snaps st e opening active is_one)
      (Follows-loop snaps Phase.between (closed_state snaps st opening e) es (inl seen) (refl, seen)
        f)
Follows-loop snaps Phase.between st (e ∷ es) s (idle, seen) (reopens is_one f) =
    IsAccepted-step snaps st (reopened_state st e) e es
      (reopening-steps snaps st e (idle, seen) is_one)
      (Follows-loop snaps Phase.running (reopened_state st e) es (inl seen) (e, refl) f)

-- The loop accepts boundary entries exactly when they are a chain: an opening first, then closings
-- and reopenings in turn.
pub chain_loop_iff :
    (snaps : List ClosingSnapshot) (es : List JournalEntry)
    → All (λ e. is_boundary e.source_type ≡ true) es
    → IsAccepted snaps chain_start es ↔ Follows Phase.fresh es
chain_loop_iff snaps es b = (
  (λ (st, ran). loop-Follows snaps chain_start es start-Sound b ran),
  Follows-loop snaps Phase.fresh chain_start es (inr refl) (refl, refl, refl),
)
