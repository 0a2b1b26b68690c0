-- ===== src/Tests/Gates.antt =====
-- The gate 9 is undecided, and its second requirer, variable 4, is installed.
use resolvo.Prelude.{◌≡◌, refl, true, false, none, List, [], ◌∷◌, arith, Returns}
use resolvo.DecisionMap
use resolvo.DecisionMap.{VariableId}
use resolvo.DecisionTracker.{ClauseId, DecisionTracker, clear, assigned_value, level}
use resolvo.DecisionTracker.Invariant.{clear-IsValid}
use resolvo.DecisionTracker.Add.{pushed, pushed-IsValid}
use resolvo.Propagation.Units.{IsOpen}
use resolvo.Gates.{force_stuck_gates}
use resolvo.Gates.Forced.{Forced, force_stuck_gates-IsForced}

abbrev installed : DecisionTracker
installed = pushed clear (record { variable = 4; value = true; derived_from = 1 }) 1

installed-values : (assigned_value clear 4 ≡ none) × (level installed 4 ≡ 1)
unfolding clear assigned_value level DecisionMap.value DecisionMap.level DecisionMap.set_decision
    DecisionMap.empty DecisionMap.with_value_and_level
installed-values = (refl, refl)

installed-IsOpen : IsOpen 1 installed
unfolding clear
installed-IsOpen = record {
  trail =
      pushed-IsValid clear (record { variable = 4; value = true; derived_from = 1 }) 1
        (omega arith, omega arith) clear-IsValid installed-values.0 (omega arith);
  fits = (omega arith, omega arith);
  below = let e = installed-values.1 in omega arith;
}

abbrev gates : List (VariableId × List (VariableId × ClauseId))
gates = (9, (3, 5) ∷ (4, 6) ∷ []) ∷ []

force_stuck_gates-IsForced_example :
    Returns (force_stuck_gates gates 1 false installed) (Forced 1 gates false installed)
force_stuck_gates-IsForced_example =
    force_stuck_gates-IsForced gates 1 false installed installed-IsOpen
