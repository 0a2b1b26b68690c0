-- ===== src/Propagation.antt =====
-- Unit propagation of src/solver/mod.rs: `propagate_impl` with `decide_assertions` and
-- `decide_learned`. The loops run on fuel; the children prove what a walk over one list does.
pub mod Models
pub mod Invariant
pub mod Front
pub mod Progress
pub mod Moved
pub mod Visit
pub mod Walk
pub mod Units
pub mod Assertions
pub mod Learned
pub mod Bounds
pub mod Passed
pub mod Outer
pub mod Whole
use resolvo.Prelude.{
  ℕ, zero, suc, Bool, true, false, Option, none, some, List, [], ◌∷◌, Run, ok, panic, out_of_fuel,
  ◌>>=◌, expect, is_value, get_elem?,
}
use resolvo.DecisionMap.{VariableId}
use resolvo.DecisionTracker.{
  ClauseId, Decision, DecisionTracker, try_add_decision, next_unpropagated,
}
use resolvo.Literal.{Literal, new, eval, variable, satisfying_value}
use resolvo.Clause.{
  Clause, learnt, Tables, WatchedLiterals, is_binary, next_unwatched_literal, pick, other_index,
}
use resolvo.WatchMap.{WatchState, WatchMapCursor, cursor, watched_literals, next, update}

-- What propagation only reads of `SolverState`.
pub record Problem : Type 0 where
  pub kinds : List Clause
  pub tables : Tables
  pub negative_assertions : List (VariableId × ClauseId)
  pub learnt_clause_ids : List ClauseId

pub record SolverState : Type 0 where
  pub decision_tracker : DecisionTracker
  pub watches : WatchState

pub data PropagationError : Type 0 where
  conflict : VariableId → Bool → ClauseId → PropagationError
  cancelled : PropagationError

-- `Result<T, PropagationError>`
pub data Outcome (T : Type 0) : Type 0 where
  success : T → Outcome T
  failure : PropagationError → Outcome T

-- The outcome of the attempt to decide the last literal that can satisfy the clause; then the next
-- clause.
unfoldable pub unit_decided :
    Option (Bool × DecisionTracker)
    → SolverState
    → WatchMapCursor
    → Literal
    → Run (Outcome (Option WatchMapCursor) × SolverState)
unit_decided none st c other = ok (failure (conflict (variable other) true c.current.clause_id), st)
unit_decided (some (_, t)) st c other = do
  next_cursor ← next st.watches c
  ok (success next_cursor, record st { decision_tracker = t })

unfoldable pub propagate_unit :
    ℕ → SolverState → WatchMapCursor → Literal → Run (Outcome (Option WatchMapCursor) × SolverState)
propagate_unit level st c other =
    let decision : Decision = record {
      variable = variable other;
      value = satisfying_value other;
      derived_from = c.current.clause_id;
    } in
    unit_decided (try_add_decision st.decision_tracker decision level) st c other

-- What is done for a clause whose other watch is not true: `found` is another literal to watch.
unfoldable pub visit_with :
    Option Literal
    → ℕ
    → SolverState
    → WatchMapCursor
    → Literal
    → Run (Outcome (Option WatchMapCursor) × SolverState)
visit_with (some literal) level st c other = do
  r ← update st.watches c literal
  ok (success r.0, record st { watches = r.1 })
visit_with none level st c other = propagate_unit level st c other

-- A binary clause is not searched.
unfoldable pub search :
    Problem → SolverState → WatchMapCursor → Clause → WatchedLiterals → Run (Option Literal)
search p st c clause w = elim (is_binary clause) [
  | true ↦ ok none
  | false ↦ next_unwatched_literal w clause p.tables st.decision_tracker.map c.current.watch_index
]

-- A clause whose other watch is true is skipped.
unfoldable pub visit_clause :
    Problem
    → ℕ
    → SolverState
    → WatchMapCursor
    → Clause
    → WatchedLiterals
    → Run (Outcome (Option WatchMapCursor) × SolverState)
visit_clause p level st c clause w =
    let other = pick w.watched_literals (other_index c.current.watch_index) in
    elim (is_value (eval other st.decision_tracker.map) true) [
      | true ↦ next st.watches c >>= λ next_cursor. ok (success next_cursor, st)
      | false ↦ search p st c clause w >>= λ found. visit_with found level st c other
    ]

-- One round of the inner loop, at the cursor's clause.
unfoldable pub visit :
    Problem → ℕ → SolverState → WatchMapCursor → Run (Outcome (Option WatchMapCursor) × SolverState)
visit p level st c = do
  clause ← expect (get_elem? p.kinds c.current.clause_id)
  w ← watched_literals st.watches c
  visit_clause p level st c clause w

-- The inner loop.
unfoldable pub walk :
    ℕ → Problem → ℕ → SolverState → Option WatchMapCursor → Run (Outcome (Unit {0}) × SolverState)
walk fuel p level st none = ok (success tt, st)
walk zero p level st (some c) = out_of_fuel
walk (suc fuel) p level st (some c) = do
  r ← visit p level st c
  elim r.0 [
    | failure e ↦ ok (failure e, r.1)
    | success next_cursor ↦ walk fuel p level r.1 next_cursor
  ]

unfoldable pub propagate_literal :
    ℕ → Problem → ℕ → SolverState → Literal → Run (Outcome (Unit {0}) × SolverState)
propagate_literal fuel p level st watched_literal =
    cursor st.watches watched_literal >>= λ c. walk fuel p level st c

-- The outer loop: `fuel` bounds the decisions propagated, `inner` the clauses of one list.
unfoldable pub propagate_decisions :
    ℕ → ℕ → Problem → ℕ → SolverState → Run (Outcome (Unit {0}) × SolverState)
propagate_decisions zero inner p level st = out_of_fuel
propagate_decisions (suc fuel) inner p level st = do
  n ← next_unpropagated st.decision_tracker
  let st' = record st { decision_tracker = n.1 }
  elim n.0 [
    | none ↦ ok (success tt, st')
    | some decision ↦ do
      r ← propagate_literal inner p level st' (new decision.variable decision.value)
      elim r.0 [
        | failure e ↦ ok (failure e, r.1)
        | success _ ↦ propagate_decisions fuel inner p level r.1
      ]
  ]

-- One assertion: the value is decided, or it is a conflict; then the other assertions.
unfoldable pub decide_one :
    VariableId
    → Bool
    → ClauseId
    → ℕ
    → DecisionTracker
    → (DecisionTracker → Run (Outcome (Unit {0}) × DecisionTracker))
    → Run (Outcome (Unit {0}) × DecisionTracker)
decide_one v value clause_id level t rest =
    elim (try_add_decision t (record { variable = v; value = value; derived_from = clause_id })
      level) [ none ↦ ok (failure (conflict v value clause_id), t) | some (_, t') ↦ rest t' ]

unfoldable pub decide_assertions :
    List (VariableId × ClauseId) → ℕ → DecisionTracker → Run (Outcome (Unit {0}) × DecisionTracker)
decide_assertions [] level t = ok (success tt, t)
decide_assertions ((solvable_id, clause_id) ∷ rest) level t =
    decide_one solvable_id false clause_id level t (λ t'. decide_assertions rest level t')

-- The literals of a learnt clause; another kind of clause is `unreachable!()`.
abbrev pub learnt_literals : Problem → Clause → Run (List Literal)
learnt_literals p (learnt id) = expect (get_elem? p.tables.learnt_clauses id)
learnt_literals p _ = panic

-- A learnt clause of one literal is an assertion; one of none panics at `literals[0]`.
unfoldable pub decide_learnt_clause :
    List Literal
    → ClauseId
    → ℕ
    → DecisionTracker
    → (DecisionTracker → Run (Outcome (Unit {0}) × DecisionTracker))
    → Run (Outcome (Unit {0}) × DecisionTracker)
decide_learnt_clause [] clause_id level t rest = panic
decide_learnt_clause (literal ∷ []) clause_id level t rest =
    decide_one (variable literal) (satisfying_value literal) clause_id level t rest
decide_learnt_clause (_ ∷ _ ∷ _) clause_id level t rest = rest t

unfoldable pub decide_learned :
    Problem → List ClauseId → ℕ → DecisionTracker → Run (Outcome (Unit {0}) × DecisionTracker)
decide_learned p [] level t = ok (success tt, t)
decide_learned p (clause_id ∷ ids) level t = do
  clause ← expect (get_elem? p.kinds clause_id)
  literals ← learnt_literals p clause
  decide_learnt_clause literals clause_id level t (λ t'. decide_learned p ids level t')

-- The state after a step on the tracker, whose error ends the propagation.
abbrev pub then_decide :
    SolverState
    → Run (Outcome (Unit {0}) × DecisionTracker)
    → (SolverState → Run (Outcome (Unit {0}) × SolverState))
    → Run (Outcome (Unit {0}) × SolverState)
then_decide st step rest = do
  r ← step
  let st' = record st { decision_tracker = r.1 }
  elim r.0 [ failure e ↦ ok (failure e, st') | success _ ↦ rest st' ]

-- `should_cancel` tells whether the provider asks to stop.
unfoldable pub propagate_impl :
    ℕ → ℕ → Problem → Bool → ℕ → SolverState → Run (Outcome (Unit {0}) × SolverState)
propagate_impl fuel inner p true level st = ok (failure cancelled, st)
propagate_impl fuel inner p false level st =
    then_decide st (decide_assertions p.negative_assertions level st.decision_tracker) (λ st'.
      then_decide st' (decide_learned p p.learnt_clause_ids level st'.decision_tracker)
        (λ st''. propagate_decisions fuel inner p level st''))
