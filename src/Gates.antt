-- ===== src/Gates.antt =====
-- `force_stuck_gates` of src/solver/mod.rs: gates that were left undecided by a backtrack are decided
-- again. The index map from gates to their requirers is the list of its entries.
pub mod Forced
use resolvo.Prelude.{
  ℕ, Bool, true, false, Option, none, some, List, [], ◌∷◌, Run, ok, ◌>>=◌, expect, find, is_value,
  if◌then◌else◌,
}
use resolvo.DecisionMap.{VariableId}
use resolvo.DecisionTracker.{ClauseId, Decision, DecisionTracker, assigned_value, try_add_decision}

-- The first requirer that is installed, with its clause.
unfoldable pub installed_requirer :
    DecisionTracker → List (VariableId × ClauseId) → Option (VariableId × ClauseId)
installed_requirer t requirers = find (λ r. is_value (assigned_value t r.0) true) requirers

-- One gate that is undecided: whether it was forced, and the trail.
unfoldable pub force_gate :
    VariableId → Option (VariableId × ClauseId) → ℕ → DecisionTracker → Run (Bool × DecisionTracker)
force_gate gate none level t = ok (false, t)
force_gate gate (some (_, reason)) level t = do
  r ←
      expect
        (try_add_decision t (record { variable = gate; value = true; derived_from = reason }) level)
  ok (true, r.1)

unfoldable pub visit_gate :
    Option Bool
    → VariableId
    → List (VariableId × ClauseId)
    → ℕ
    → DecisionTracker
    → Run (Bool × DecisionTracker)
visit_gate (some _) gate requirers level t = ok (false, t)
visit_gate none gate requirers level t = force_gate gate (installed_requirer t requirers) level t

unfoldable pub force_stuck_gates :
    List (VariableId × List (VariableId × ClauseId))
    → ℕ
    → Bool
    → DecisionTracker
    → Run (Bool × DecisionTracker)
force_stuck_gates [] level forced_any t = ok (forced_any, t)
force_stuck_gates ((gate, requirers) ∷ gates) level forced_any t = do
  r ← visit_gate (assigned_value t gate) gate requirers level t
  force_stuck_gates gates level (if r.0 then true else forced_any) r.1
