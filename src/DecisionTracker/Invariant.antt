-- ===== src/DecisionTracker/Invariant.antt =====
-- The invariant of the trail of src/solver/decision_tracker.rs: the map and the stack agree, no
-- variable is decided twice, and levels never fall from one decision to the next.
use resolvo.Prelude.{
  ℕ, ◌≤◌, ◌≡◌, refl, Bool, Option, none, some, List, [], ◌∷◌, arith, ◌==◌, if◌then◌else◌, length,
}
use resolvo.DecisionMap
use resolvo.DecisionMap.{VariableId, DecisionMap}
use resolvo.DecisionMap.Laws.{IsLevel}
use resolvo.DecisionTracker.{Decision, DecisionTracker, clear, assigned_value, level}

-- The value that the trail gives a variable.
abbrev pub stack_value : List Decision → VariableId → Option Bool
stack_value [] v = none
stack_value (d ∷ ds) v = if d.variable == v then some d.value else stack_value ds v

abbrev pub Distinct : List Decision → Type 0
Distinct [] = Unit
Distinct (d ∷ ds) = (stack_value ds d.variable ≡ none) × Distinct ds

-- Every level is positive, fits an `i32` and is at most the level of the decision after it.
abbrev pub Levelled : (VariableId → ℕ) → List Decision → ℕ → Type 0
Levelled f [] top = Unit
Levelled f (d ∷ ds) top =
    IsLevel (f d.variable) × (f d.variable ≤ top) × Levelled f ds (f d.variable)

abbrev pub last_level : (VariableId → ℕ) → List Decision → ℕ
last_level f [] = 0
last_level f (d ∷ ds) = f d.variable

pub record IsValid (t : DecisionTracker) : Type 0 where
  pub propagated : t.propagate_index ≤ length t.stack
  pub floored : t.sync_floor ≤ length t.stack
  pub agrees : (v : VariableId) → assigned_value t v ≡ stack_value t.stack v
  pub distinct : Distinct t.stack
  pub levelled : Levelled (level t) t.stack (last_level (level t) t.stack)

pub clear-IsValid : IsValid clear
unfolding clear assigned_value DecisionMap.value
clear-IsValid = record {
  propagated = omega arith;
  floored = omega arith;
  agrees = λ v. refl;
  distinct = tt;
  levelled = tt;
}

-- A change of the levels of variables that the trail does not decide.
pub Levelled-frame :
    (f g : VariableId → ℕ) (ds : List Decision) (top : ℕ)
    → ((v : VariableId) (b : Bool) → stack_value ds v ≡ some b → f v ≡ g v)
    → Distinct ds
    → Levelled f ds top
    → Levelled g ds top
Levelled-frame f g [] top same u h = tt
Levelled-frame f g (d ∷ ds) top same u h =
    let e : f d.variable ≡ g d.variable = same d.variable d.value (ground arith) in
    rw (← e)
      (h.0, h.1, Levelled-frame f g ds (f d.variable) (λ v b s. same v b (ground arith)) u.1 h.2)

pub Levelled-weaken :
    (f : VariableId → ℕ) (ds : List Decision) (a b : ℕ) → a ≤ b → Levelled f ds a → Levelled f ds b
Levelled-weaken f [] a b le h = tt
Levelled-weaken f (d ∷ ds) a b le h = (h.0, omega arith, h.2)
