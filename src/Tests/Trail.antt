-- ===== src/Tests/Trail.antt =====
-- A trail of two decisions: variable 4 is true at level 1, variable 7 false at level 2.
use resolvo.Prelude.{
  ℕ, ◌≤◌, ◌<◌, length, ◌∷◌, ◌≡◌, refl, true, false, none, some, [], arith, Returns,
}
use resolvo.DecisionMap
use resolvo.DecisionMap.Laws.{IsLevel}
use resolvo.DecisionTracker.{
  Decision, DecisionTracker, clear, assigned_value, level, take_sync_floor, nth_decision, undo_at,
  find_clause_for_assignment, try_add_decision, add_at, undo_last, undo_until,
}
use resolvo.DecisionTracker.Invariant.{IsValid, clear-IsValid}
use resolvo.DecisionTracker.Add.{pushed, pushed-IsValid, Adds, try_add_decision-Adds}
use resolvo.DecisionTracker.Undo.{
  popped, UndoneLast, undo_last-UndoneLast, Undone, undo_until-Undone,
}
use resolvo.DecisionTracker.Floor.{Reach, Step}
use resolvo.DecisionTracker.Cursors.{lowest, take_sync_floor-SameBelowFloor}

abbrev first : Decision
first = record { variable = 4; value = true; derived_from = 0 }

abbrev second : Decision
second = record { variable = 7; value = false; derived_from = 3 }

abbrev third : Decision
third = record { variable = 5; value = true; derived_from = 6 }

abbrev one_decision : DecisionTracker
one_decision = pushed clear first 1

abbrev two_decisions : DecisionTracker
two_decisions = pushed one_decision second 2

fits_one : IsLevel 1
fits_one = (omega arith, omega arith)

fits_two : IsLevel 2
fits_two = (omega arith, omega arith)

one_decision-values : (assigned_value clear 4 ≡ none) × (assigned_value one_decision 7 ≡ none)
unfolding clear assigned_value level DecisionMap.value DecisionMap.level DecisionMap.set_decision
    DecisionMap.empty DecisionMap.with_value_and_level
one_decision-values = (refl, refl)

two_decisions-levels :
    (level one_decision 4 ≡ 1) × (level two_decisions 7 ≡ 2) × (level two_decisions 4 ≡ 1)
unfolding clear assigned_value level DecisionMap.value DecisionMap.level DecisionMap.set_decision
    DecisionMap.empty DecisionMap.with_value_and_level
two_decisions-levels = (refl, refl, refl)

one_decision-IsValid : IsValid one_decision
unfolding clear
one_decision-IsValid =
    pushed-IsValid clear first 1 fits_one clear-IsValid one_decision-values.0 (omega arith)

two_decisions-IsValid : IsValid two_decisions
two_decisions-IsValid =
    pushed-IsValid one_decision second 2 fits_two one_decision-IsValid one_decision-values.1
      (omega (arith, two_decisions-levels.0))

two_decisions-found : find_clause_for_assignment two_decisions 7 ≡ some 3
unfolding find_clause_for_assignment clear
two_decisions-found = refl

try_add_decision-Adds_example : Adds two_decisions third 2 (try_add_decision two_decisions third 2)
try_add_decision-Adds_example =
    try_add_decision-Adds two_decisions third 2 two_decisions-IsValid fits_two
      (omega (arith, two_decisions-levels.1))

two_decisions-conflict :
    try_add_decision two_decisions (record { variable = 7; value = true; derived_from = 9 }) 2
    ≡ none
unfolding try_add_decision add_at assigned_value clear DecisionMap.value DecisionMap.set_decision
    DecisionMap.empty DecisionMap.with_value_and_level
two_decisions-conflict = refl

undo_last-UndoneLast_example :
    Returns (undo_last two_decisions) (UndoneLast two_decisions second first [])
unfolding clear
undo_last-UndoneLast_example =
    undo_last-UndoneLast two_decisions second first [] two_decisions-IsValid refl

undo_until-Undone_example : Returns (undo_until 1 two_decisions) (Undone two_decisions 1)
unfolding clear
undo_until-Undone_example =
    undo_until-Undone 1 two_decisions two_decisions-IsValid (omega arith)
      (omega (arith, two_decisions-levels.2))

-- After the floor is taken, the second decision is taken back, and another one made.
abbrev floored : DecisionTracker
floored = (take_sync_floor two_decisions).1

abbrev undone : DecisionTracker
undone = popped floored second (first ∷ [])

abbrev redone : DecisionTracker
redone = pushed undone third 2

redone-Reach : Reach floored redone
unfolding take_sync_floor clear undo_last undo_at try_add_decision add_at assigned_value
    DecisionMap.value DecisionMap.level DecisionMap.set_decision DecisionMap.reset DecisionMap.empty
    DecisionMap.with_value_and_level
redone-Reach =
    Reach.step (Reach.step Reach.here (Step.undo second 1 refl)) (Step.add third 2 true refl)

take_sync_floor-SameBelowFloor_example :
    ((take_sync_floor redone).0 ≡ lowest redone-Reach)
    × ((take_sync_floor redone).0 ≤ length two_decisions.stack)
    × ((take_sync_floor redone).0 ≤ length redone.stack)
    × ((i : ℕ)
        → i < (take_sync_floor redone).0
        → nth_decision redone.stack i ≡ nth_decision two_decisions.stack i)
    × ((take_sync_floor redone).1.stack ≡ redone.stack)
    × ((take_sync_floor redone).1.sync_floor ≡ length redone.stack)
take_sync_floor-SameBelowFloor_example =
    take_sync_floor-SameBelowFloor two_decisions redone redone-Reach
