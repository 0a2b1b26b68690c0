-- ===== src/DecisionTracker.antt =====
-- src/solver/decision_tracker.rs and src/solver/decision.rs: the trail of decisions with the map of
-- the assigned values. The children prove the invariant, backtracking and the cursors.
pub mod Invariant
pub mod Add
pub mod Undo
pub mod Floor
pub mod Cursors
use resolvo.Prelude.{
  ℕ, zero, suc, ◌+◌, min, Bool, true, false, not, Option, none, some, List, [], ◌∷◌, Run, ok, panic,
  out_of_fuel, ◌>>=◌, leb, ltb, ◌==◌, bool_eq, if◌then◌else◌, length, find,
}
use resolvo.DecisionMap
use resolvo.DecisionMap.{VariableId, DecisionMap}
use mathlib.Core.List.{reverse}

-- A clause's id by its index in the list of clauses.
abbrev pub ClauseId : Type 0
ClauseId = ℕ

-- `ClauseId::install_root`, the id with index 0.
abbrev pub install_root : ClauseId
install_root = 0

pub record Decision : Type 0 where
  pub variable : VariableId
  pub value : Bool
  pub derived_from : ClauseId

-- The vector `stack` is kept back to front: its last element is the head.
pub record DecisionTracker : Type 0 where
  pub map : DecisionMap
  pub stack : List Decision
  pub propagate_index : ℕ
  pub sync_floor : ℕ

-- `Default::default()`, which `clear` assigns.
unfoldable pub clear : DecisionTracker
unfolding DecisionMap.empty
clear = record { map = DecisionMap.empty; stack = []; propagate_index = 0; sync_floor = 0 }

unfoldable pub assigned_value : DecisionTracker → VariableId → Option Bool
assigned_value t v = DecisionMap.value t.map v

unfoldable pub level : DecisionTracker → VariableId → ℕ
level t v = DecisionMap.level t.map v

-- The floor since the last call, and the state in which it starts anew.
unfoldable pub take_sync_floor : DecisionTracker → ℕ × DecisionTracker
take_sync_floor t = (t.sync_floor, record t { sync_floor = length t.stack })

-- The search starts at the oldest decision.
unfoldable pub find_clause_for_assignment : DecisionTracker → VariableId → Option ClauseId
find_clause_for_assignment t v = elim (find (λ (d : Decision). d.variable == v) (reverse t.stack)) [
  | none ↦ none
  | some d ↦ some d.derived_from
]

-- What a new decision finds: no value, the same value, or the other one.
unfoldable pub add_at :
    Option Bool → DecisionTracker → Decision → ℕ → Option (Bool × DecisionTracker)
add_at none t d l = some (
  true,
  record t { map = DecisionMap.set_decision t.map d.variable d.value l; stack = d ∷ t.stack },
)
add_at (some value) t d l = if bool_eq value d.value then some (false, t) else none

-- `none` is `Err(())`.
unfoldable pub try_add_decision : DecisionTracker → Decision → ℕ → Option (Bool × DecisionTracker)
unfolding assigned_value add_at
try_add_decision t d l = add_at (assigned_value t d.variable) t d l

-- `pop`, and the level of what is then the last decision; both `unwrap`s panic on an empty stack.
unfoldable pub undo_at : List Decision → DecisionTracker → Run ((Decision × ℕ) × DecisionTracker)
undo_at [] t = panic
undo_at (d ∷ []) t = panic
undo_at (d ∷ top ∷ rest) t =
    let map' = DecisionMap.reset t.map d.variable in
    ok (
      (d, DecisionMap.level map' top.variable),
      record {
        map = map';
        stack = top ∷ rest;
        propagate_index = length (top ∷ rest);
        sync_floor = min t.sync_floor (length (top ∷ rest));
      },
    )

unfoldable pub undo_last : DecisionTracker → Run ((Decision × ℕ) × DecisionTracker)
unfolding undo_at
undo_last t = undo_at t.stack t

-- The condition under which the loop of `undo_until` goes on.
unfoldable pub above_level : ℕ → DecisionTracker → List Decision → Bool
above_level l t [] = false
above_level l t (d ∷ ds) = ltb l (level t d.variable)

unfoldable pub undo_loop : ℕ → ℕ → DecisionTracker → Run DecisionTracker
undo_loop zero l t = out_of_fuel
undo_loop (suc fuel) l t = elim (above_level l t t.stack) [
  | true ↦ undo_last t >>= λ r. undo_loop fuel l r.1
  | false ↦ ok t
]

unfoldable pub undo_until : ℕ → DecisionTracker → Run DecisionTracker
undo_until l t = if l == 0 then ok clear else undo_loop (suc (length t.stack)) l t

-- `stack[i]`, counted from the oldest decision.
abbrev pub nth_decision : List Decision → ℕ → Option Decision
nth_decision [] i = none
nth_decision (d ∷ ds) i = if length ds == i then some d else nth_decision ds i

-- The slice `stack[propagate_index..]` panics where the index is past the end.
unfoldable pub next_unpropagated : DecisionTracker → Run (Option Decision × DecisionTracker)
next_unpropagated t =
    if ltb (length t.stack) t.propagate_index
    then panic
    else elim (nth_decision t.stack t.propagate_index) [
      | none ↦ ok (none, t)
      | some d ↦ ok (some d, record t { propagate_index = t.propagate_index + 1 })
    ]
