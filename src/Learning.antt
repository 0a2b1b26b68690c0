-- ===== src/Learning.antt =====
-- Conflicts in src/solver/mod.rs: `analyze` adds the clause it learns and backtracks,
-- `learn_from_conflict` decides its last literal, and at the first level `analyze_unsolvable` gathers
-- the clauses that cannot hold together. The activity scores, which order the decisions, are left
-- out.
pub mod Valid
pub mod Add
pub mod Analyze
pub mod Decide
pub mod Gather
pub mod Involve
pub mod Core
use resolvo.Prelude.{
  ℕ, zero, suc, ◌+◌, max, Bool, true, false, not, Option, none, some, List, [], ◌∷◌, ◌++◌, Run, ok,
  panic, out_of_fuel, ◌>>=◌, expect, ◌==◌, if◌then◌else◌, any, get_elem?, length, is_value, map,
}
use resolvo.DecisionMap.{VariableId}
use resolvo.DecisionTracker.{
  ClauseId, Decision, DecisionTracker, try_add_decision, undo_until, level,
}
use resolvo.Literal.{Literal, new, eval, variable, satisfying_value}
use resolvo.Mapping
use resolvo.Mapping.{Mapping}
use resolvo.Clause.{Clause, Tables, root, literals}
use resolvo.Clause.Watched
use resolvo.WatchMap.{WatchMap, WatchState}
use resolvo.Clauses.{Clauses, add_clause}
use resolvo.Propagation.{Problem, SolverState}
use resolvo.Analysis.{contains, nothing_seen, resolve_loop, learnt_clause}

-- The fields of `SolverState` that a conflict reads or changes.
pub record Solver : Type 0 where
  pub problem : Problem
  pub state : SolverState
  pub learnt_why : Mapping (List ClauseId)

abbrev pub clauses_of : Solver → Clauses
clauses_of s = record { kinds = s.problem.kinds; watched_literals = s.state.watches.watches }

-- The solver once `add_clause` returned the id, the watch map and the clauses.
abbrev pub with_learnt :
    Solver → List Literal → List ClauseId → ClauseId × WatchMap × Clauses → Solver
with_learnt s learnt why r = record {
  problem = record s.problem {
    kinds = r.2.kinds;
    tables = record s.problem.tables {
      learnt_clauses = s.problem.tables.learnt_clauses ++ learnt ∷ [];
    };
    learnt_clause_ids = s.problem.learnt_clause_ids ++ r.0 ∷ [];
  };
  state = record s.state { watches = record { watch_map = r.1; watches = r.2.watched_literals } };
  learnt_why = (Mapping.insert s.learnt_why (length s.problem.tables.learnt_clauses) why).1;
}

-- The clause is stored with its causes, and added with the id that comes next.
unfoldable pub add_learnt : Solver → List Literal → List ClauseId → Run (ClauseId × Solver)
add_learnt s learnt why = do
  w ← Watched.learnt (length s.problem.tables.learnt_clauses) learnt
  r ← add_clause s.state.watches.watch_map (clauses_of s) w.0 w.1
  ok (r.0, with_learnt s learnt why r)

-- The level to go back to, the id of the learnt clause and its last literal.
pub record Learnt : Type 0 where
  pub target_level : ℕ
  pub clause_id : ClauseId
  pub last_literal : Literal

unfoldable pub analyze : Solver → ℕ → VariableId → ClauseId → Run (Learnt × Solver)
analyze s current_level conflicting_solvable clause_id = do
  r ←
      resolve_loop (suc (length s.state.decision_tracker.stack)) s.problem true conflicting_solvable
        current_level clause_id s.state.decision_tracker nothing_seen []
  learnt ← learnt_clause r
  c ← add_learnt s learnt r.learnt_why
  t ← undo_until (max r.analysis.back_track_to 1) r.tracker
  ok (
    record {
      target_level = max r.analysis.back_track_to 1;
      clause_id = c.0;
      last_literal = new r.last.variable r.last.value;
    },
    record c.1 { state = record c.1.state { decision_tracker = t } },
  )

-- The clauses of a conflict, in the order found.
abbrev pub Conflict : Type 0
Conflict = List ClauseId

unfoldable pub add_to_conflict : Conflict → ClauseId → Conflict
add_to_conflict clauses clause_id =
    if any (λ x. x == clause_id) clauses then clauses else clauses ++ clause_id ∷ []

-- The conflict, and the learnt clauses seen.
abbrev pub Gathered : Type 0
Gathered = Conflict × List ClauseId

unfoldable pub for_each :
    (ClauseId → Gathered → Run Gathered) → List ClauseId → Gathered → Run Gathered
for_each f [] g = ok g
for_each f (cause ∷ causes) g = f cause g >>= λ g'. for_each f causes g'

-- A learnt clause stands for its causes; `visit` is the recursive call.
unfoldable pub gather :
    (ClauseId → Gathered → Run Gathered)
    → Mapping (List ClauseId)
    → ClauseId
    → Clause
    → Gathered
    → Run Gathered
gather visit learnt_why clause_id (Clause.learnt learnt_clause_id) (conflict, seen) =
    if any (λ x. x == clause_id) seen
    then ok (conflict, seen)
    else (expect (Mapping.get learnt_why learnt_clause_id) >>= λ causes.
        for_each visit causes (conflict, clause_id ∷ seen))
gather visit learnt_why clause_id _ (conflict, seen) = ok (add_to_conflict conflict clause_id, seen)

unfoldable pub analyze_unsolvable_clause :
    ℕ → List Clause → Mapping (List ClauseId) → ClauseId → Gathered → Run Gathered
analyze_unsolvable_clause zero clauses learnt_why clause_id g = out_of_fuel
analyze_unsolvable_clause (suc fuel) clauses learnt_why clause_id g = do
  clause ← expect (get_elem? clauses clause_id)
  gather (analyze_unsolvable_clause fuel clauses learnt_why) learnt_why clause_id clause g

-- What the closure does with a literal of the clause that a decision was derived from.
unfoldable pub involve :
    DecisionTracker → Decision → List Literal → List VariableId → Run (List VariableId)
involve t decision [] involved = ok involved
involve t decision (literal ∷ ls) involved =
    if is_value (eval literal t.map) true
    then (if variable literal == decision.variable then involve t decision ls involved else panic)
    else involve t decision ls (variable literal ∷ involved)

-- The clause from which an involved decision was derived.
unfoldable pub explain :
    Solver → Decision → List VariableId → Gathered → Run (List VariableId × Gathered)
explain s decision involved g = if decision.derived_from == 0 then panic else do
  g' ←
      analyze_unsolvable_clause (suc decision.derived_from) s.problem.kinds s.learnt_why
        decision.derived_from g
  clause ← expect (get_elem? s.problem.kinds decision.derived_from)
  ls ← literals s.problem.tables clause
  involved' ← involve s.state.decision_tracker decision ls involved
  ok (involved', g')

-- The loop over the decisions, the last one first.
unfoldable pub explain_decisions :
    Solver → List Decision → List VariableId → Gathered → Run Gathered
explain_decisions s [] involved g = ok g
explain_decisions s (decision ∷ ds) involved g =
    if decision.variable == root
    then explain_decisions s ds involved g
    else if not (contains involved decision.variable)
    then explain_decisions s ds involved g
    else explain s decision involved g >>= λ r. explain_decisions s ds r.0 r.1

-- `stack().last()`
abbrev pub last_decision : List Decision → Option Decision
last_decision [] = none
last_decision (d ∷ _) = some d

unfoldable pub analyze_unsolvable : Solver → ClauseId → Run Conflict
analyze_unsolvable s clause_id = do
  _ ← expect (last_decision s.state.decision_tracker.stack)
  clause ← expect (get_elem? s.problem.kinds clause_id)
  ls ← literals s.problem.tables clause
  g ← analyze_unsolvable_clause (suc clause_id) s.problem.kinds s.learnt_why clause_id ([], [])
  g' ← explain_decisions s s.state.decision_tracker.stack (map variable ls) g
  ok g'.0

-- `Result<u32, Conflict>`, with the state.
pub data Outcome : Type 0 where
  learned : ℕ → Solver → Outcome
  unsolvable : Conflict → Outcome

-- The learnt clause is a unit clause, so its literal is decided at once.
unfoldable pub decide_last : Learnt × Solver → Run Outcome
decide_last (r, s) =
    let decision : Decision = record {
      variable = variable r.last_literal;
      value = satisfying_value r.last_literal;
      derived_from = r.clause_id;
    } in
    expect (try_add_decision s.state.decision_tracker decision r.target_level) >>= λ d.
    ok (learned r.target_level (record s { state = record s.state { decision_tracker = d.1 } }))

unfoldable pub learn_from_conflict : Solver → ℕ → VariableId → ClauseId → Run Outcome
learn_from_conflict s level conflicting_solvable conflicting_clause =
    if level == 1
    then (analyze_unsolvable s conflicting_clause >>= λ c. ok (unsolvable c))
    else (analyze s level conflicting_solvable conflicting_clause >>= decide_last)
