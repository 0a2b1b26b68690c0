-- ===== src/Analysis.antt =====
-- Conflict analysis of src/solver/mod.rs: `analyze` walks the trail back from a conflict, resolves the
-- clause with the reasons of what it takes back, and learns the clause that is left.
pub mod Trail
pub mod Pending
pub mod See
pub mod Pop
pub mod Undo
pub mod Round
pub mod Loop
pub mod Learnt
use resolvo.Prelude.{
  ℕ, zero, suc, ◌+◌, ◌-◌, max, Bool, true, false, not, ◌&&◌, Option, none, some, List, [], ◌∷◌,
  ◌++◌, Run, ok, panic, out_of_fuel, ◌>>=◌, expect, ltb, ◌==◌, if◌then◌else◌, any, get_elem?, set,
  length,
}
use resolvo.DecisionMap.{VariableId}
use resolvo.DecisionTracker.{ClauseId, Decision, DecisionTracker, assigned_value, level, undo_last}
use resolvo.Literal.{Literal, new, variable}
use resolvo.Clause.{literals}
use resolvo.Propagation.{Problem}

-- The set of variables is the list of those inserted.
abbrev pub contains : List VariableId → VariableId → Bool
contains seen v = any (λ x. x == v) seen

-- The local variables of `analyze` that the closure changes.
pub record Analysis : Type 0 where
  pub seen : List VariableId
  pub causes_at_current_level : ℕ
  pub learnt : List Literal
  pub back_track_to : ℕ
  pub highest_level_idx : ℕ

abbrev pub nothing_seen : Analysis
nothing_seen = record {
  seen = [];
  causes_at_current_level = 0;
  learnt = [];
  back_track_to = 0;
  highest_level_idx = 0;
}

-- A literal of a lower level is learnt, and the highest of these levels is kept with its index.
abbrev pub learn_literal : ℕ → Literal → Analysis → Analysis
learn_literal decision_level learnt_literal a = record a {
  back_track_to = if ltb a.back_track_to decision_level then decision_level else a.back_track_to;
  highest_level_idx =
      if ltb a.back_track_to decision_level then length a.learnt else a.highest_level_idx;
  learnt = a.learnt ++ learnt_literal ∷ [];
}

-- What is done with the literal of a variable that was just inserted into `seen`.
unfoldable pub count_or_learn : ℕ → DecisionTracker → Literal → Analysis → Run Analysis
count_or_learn current_level t lit a =
    let decision_level = level t (variable lit) in
    if decision_level == current_level
    then ok (record a { causes_at_current_level = a.causes_at_current_level + 1 })
    else if ltb 1 current_level
    then (expect (assigned_value t (variable lit)) >>= λ value.
        ok (learn_literal decision_level (new (variable lit) value) a))
    else panic

-- The closure that visits the literals of a clause.
unfoldable pub see_literal :
    Bool → VariableId → ℕ → DecisionTracker → Literal → Analysis → Run Analysis
see_literal first_iteration conflicting current_level t lit a =
    if not first_iteration && (variable lit == conflicting)
    then ok a
    else if contains a.seen (variable lit)
    then ok a
    else count_or_learn current_level t lit (record a { seen = variable lit ∷ a.seen })

unfoldable pub see_literals :
    Bool → VariableId → ℕ → DecisionTracker → List Literal → Analysis → Run Analysis
see_literals first_iteration conflicting current_level t [] a = ok a
see_literals first_iteration conflicting current_level t (lit ∷ ls) a =
    see_literal first_iteration conflicting current_level t lit a >>= λ a'.
    see_literals first_iteration conflicting current_level t ls a'

-- The inner loop, which takes back decisions up to one that is seen.
unfoldable pub undo_to_seen :
    ℕ → List VariableId → DecisionTracker → Run ((Decision × ℕ) × DecisionTracker)
undo_to_seen zero seen t = out_of_fuel
undo_to_seen (suc fuel) seen t = do
  r ← undo_last t
  elim (contains seen r.0.0.variable) [ true ↦ ok r | false ↦ undo_to_seen fuel seen r.1 ]

-- What the outer loop leaves: the last decision, the trail, and the clauses resolved.
pub record Resolved : Type 0 where
  pub analysis : Analysis
  pub last : Decision
  pub tracker : DecisionTracker
  pub learnt_why : List ClauseId

-- One round of the outer loop, up to the test that ends it.
unfoldable pub resolve_clause :
    Problem
    → Bool
    → VariableId
    → ℕ
    → ClauseId
    → DecisionTracker
    → Analysis
    → Run (Analysis × (Decision × ℕ) × DecisionTracker)
resolve_clause p first_iteration conflicting current_level clause_id t a = do
  clause ← expect (get_elem? p.kinds clause_id)
  ls ← literals p.tables clause
  a' ← see_literals first_iteration conflicting current_level t ls a
  r ← undo_to_seen (suc (length t.stack)) a'.seen t
  ok (record a' { causes_at_current_level = a'.causes_at_current_level - 1 }, r.0, r.1)

-- The outer loop.
unfoldable pub resolve_loop :
    ℕ
    → Problem
    → Bool
    → VariableId
    → ℕ
    → ClauseId
    → DecisionTracker
    → Analysis
    → List ClauseId
    → Run Resolved
resolve_loop zero p first_iteration conflicting current_level clause_id t a why = out_of_fuel
resolve_loop (suc fuel) p first_iteration conflicting current_level clause_id t a why = do
  r ← resolve_clause p first_iteration conflicting current_level clause_id t a
  let d = r.1.0
  elim (r.0.causes_at_current_level == 0) [
    | true ↦
        ok (record { analysis = r.0; last = d; tracker = r.2; learnt_why = why ++ clause_id ∷ [] })
    | false ↦
        resolve_loop fuel p false d.variable r.1.1 d.derived_from r.2 r.0 (why ++ clause_id ∷ [])
  ]

-- `learnt.swap(0, highest_level_idx)`, with its bounds checks.
unfoldable pub swap_first : List Literal → ℕ → Run (List Literal)
swap_first [] idx = ok []
swap_first (x ∷ xs) idx = do y ← expect (get_elem? (x ∷ xs) idx); ok (set (set (x ∷ xs) 0 y) idx x)

-- The literals of the learnt clause, the one of the last decision behind the others.
unfoldable pub learnt_clause : Resolved → Run (List Literal)
learnt_clause r = do
  ls ← swap_first r.analysis.learnt r.analysis.highest_level_idx
  ok (ls ++ new r.last.variable r.last.value ∷ [])
