-- ===== src/DecisionTracker/Add.antt =====
-- `try_add_decision` of src/solver/decision_tracker.rs, on each of its branches.
use resolvo.Prelude.{
  ℕ, ◌≤◌, ◌≡◌, refl, sym, ◌∙◌, inl, inr, Bool, true, false, not, Option, none, some, ◌∷◌, arith,
  ◌==◌, if◌then◌else◌, bool_eq, Bool-cases, Option-cases,
}
use resolvo.DecisionMap
use resolvo.DecisionMap.{VariableId, DecisionMap}
use resolvo.DecisionMap.Laws.{IsLevel, set_decision_lem}
use resolvo.DecisionTracker.{Decision, DecisionTracker, assigned_value, level, try_add_decision}
use resolvo.DecisionTracker.Invariant.{
  stack_value, last_level, IsValid, Levelled-frame, Levelled-weaken,
}

-- The state with a decision on top of an undecided variable.
abbrev pub pushed : DecisionTracker → Decision → ℕ → DecisionTracker
pushed t d l = record t {
  map = DecisionMap.set_decision t.map d.variable d.value l;
  stack = d ∷ t.stack;
}

module _ (t : DecisionTracker) (d : Decision) (l : ℕ) (fits : IsLevel l) where
  pub assigned_value-pushed :
      (v : VariableId)
      → assigned_value (pushed t d l) v
        ≡ (if d.variable == v then some d.value else assigned_value t v)
  unfolding assigned_value
  assigned_value-pushed v = (set_decision_lem t.map d.variable d.value l v fits).0

  pub level-pushed :
      (v : VariableId) → level (pushed t d l) v ≡ (if d.variable == v then l else level t v)
  unfolding level
  level-pushed v = (set_decision_lem t.map d.variable d.value l v fits).1

  level-pushed_self : level (pushed t d l) d.variable ≡ l
  level-pushed_self = ground (arith, level-pushed d.variable)

  pub pushed-IsValid :
      IsValid t
      → assigned_value t d.variable ≡ none
      → last_level (level t) t.stack ≤ l
      → IsValid (pushed t d l)
  pushed-IsValid valid free le =
      let unset : stack_value t.stack d.variable ≡ none = sym (valid.agrees d.variable) ∙ free in
      record {
        propagated = omega (arith, valid.propagated);
        floored = omega (arith, valid.floored);
        agrees = λ v. assigned_value-pushed v ∙ ground (arith, valid.agrees v);
        distinct = (unset, valid.distinct);
        levelled = rw level-pushed_self (
          fits,
          omega arith,
          Levelled-frame (level t) (level (pushed t d l)) t.stack l
              (λ v b s. ground (arith, level-pushed v)) valid.distinct
              (Levelled-weaken (level t) t.stack (last_level (level t) t.stack) l le
                valid.levelled),
        );
      }

-- The three outcomes of an attempt to decide `d` at level `l`.
pub data Adds (t : DecisionTracker) (d : Decision) (l : ℕ) (r : Option (Bool × DecisionTracker))
    : Type 0 where
  decided :
      (t' : DecisionTracker)
      → r ≡ some (true, t')
      → assigned_value t d.variable ≡ none
      → t'.stack ≡ d ∷ t.stack
      → ((v : VariableId)
          → assigned_value t' v ≡ (if d.variable == v then some d.value else assigned_value t v))
      → ((v : VariableId) → level t' v ≡ (if d.variable == v then l else level t v))
      → IsValid t'
      → Adds t d l r
  known : r ≡ some (false, t) → assigned_value t d.variable ≡ some d.value → Adds t d l r
  contrary : r ≡ none → assigned_value t d.variable ≡ some (not d.value) → Adds t d l r

-- On a valid trail an undecided variable gets the decision's value and level, is pushed on the stack, and every other
-- variable keeps its own, with the invariant kept; the same value changes nothing; the other value
-- is the error. The level is one that fits and is not below that of the last decision.
pub try_add_decision-Adds :
    (t : DecisionTracker) (d : Decision) (l : ℕ)
    → IsValid t
    → IsLevel l
    → last_level (level t) t.stack ≤ l
    → Adds t d l (try_add_decision t d l)
unfolding try_add_decision
try_add_decision-Adds t d l valid fits le = elim (Option-cases (assigned_value t d.variable)) [
  | inl free ↦
      Adds.decided (pushed t d l) (rw free) free refl (assigned_value-pushed t d l fits)
        (level-pushed t d l fits) (pushed-IsValid t d l fits valid free le)
  | inr (b, e) ↦ elim (Bool-cases (bool_eq b d.value)) [
    | inl same ↦ Adds.known (rw (e, same)) (ground arith)
    | inr other ↦ Adds.contrary (rw (e, other)) (ground arith)
  ]
]
