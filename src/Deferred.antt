-- ===== src/Deferred.antt =====
-- The deferred requirements of `SolverState` in src/solver/mod.rs: conditional requirements that wait
-- for their condition, in a map from conditions to entries. The map is indexmap's; it is an interface
-- here, with the laws that the code relies on.
pub mod Drain
use resolvo.Prelude.{
  ℕ, zero, suc, Bool, true, false, Option, none, some, List, [], ◌∷◌, ◌++◌, map, if◌then◌else◌,
  ◌==◌, ◌≡◌, is_value, Run, ok, panic, ◌>>=◌, any,
}
use mathlib.Core.List.{reverse}
use resolvo.DecisionMap.{VariableId}
use resolvo.DecisionTracker.{DecisionTracker, assigned_value}
use resolvo.Clause.{Requirement}
use resolvo.Conditions.{ConditionId, DeferredConjunct, condition_disjunct_holds}

pub record ConditionalRequirement : Type 0 where
  pub condition : Option ConditionId
  pub requirement : Requirement

-- The solvable is none for the root.
pub record DeferredRequirement (S : Type 0) : Type 0 where
  pub solvable_id : Option S
  pub requirement : ConditionalRequirement
  pub condition : ConditionId
  pub disjunct : List (DeferredConjunct S)

-- What the code calls of indexmap's map: `put` is a write through `get_mut` or `entry`.
pub record IndexMap (V : Type 0) : Type 1 where
  pub Map : Type 0
  pub get : Map → ConditionId → Option V
  pub put : Map → ConditionId → V → Map
  pub swap_remove : Map → ConditionId → Map
  pub get-put :
      (m : Map) (k j : ConditionId) (v : V)
      → get (put m k v) j ≡ (if k == j then some v else get m j)
  pub get-swap_remove :
      (m : Map) (k j : ConditionId) → get (swap_remove m k) j ≡ (if k == j then none else get m j)

-- A solvable with no variable yet is not decided; `lookup_solvable` is the variable map's.
unfoldable pub is_positively_decided :
    {S : Type 0} → (S → Option VariableId) → DecisionTracker → S → Bool
is_positively_decided lookup_solvable t s = elim (lookup_solvable s) [
  | some variable ↦ is_value (assigned_value t variable) true
  | none ↦ false
]

-- Whether the disjunct of an entry holds now.
abbrev pub fires : {S : Type 0} → (S → Bool) → DeferredRequirement S → Bool
fires decided entry = condition_disjunct_holds entry.disjunct decided

-- `Vec::remove`, which panics out of bounds.
abbrev pub remove {ℓ} : {A : Type ℓ} → List A → ℕ → Run (A × List A)
remove [] i = panic
remove (x ∷ xs) zero = ok (x, xs)
remove (x ∷ xs) (suc i) = do r ← remove xs i; ok (r.0, x ∷ r.1)

abbrev pub enumerate : ℕ → List Bool → List (ℕ × Bool)
enumerate i [] = []
enumerate i (b ∷ bs) = (i, b) ∷ enumerate (suc i) bs

-- The loop that removes the entries at the indices whose flag is set, and appends them to `fired`.
abbrev pub remove_fired {ℓ} :
    {A : Type ℓ} → List (ℕ × Bool) → List A → List A → Run (List A × List A)
remove_fired [] fired entries = ok (fired, entries)
remove_fired ((i, false) ∷ rest) fired entries = remove_fired rest fired entries
remove_fired ((i, true) ∷ rest) fired entries = do
  r ← remove entries i
  remove_fired rest (fired ++ (r.0 ∷ [])) r.1

abbrev pub is_empty {ℓ} : {A : Type ℓ} → List A → Bool
is_empty [] = true
is_empty (_ ∷ _) = false

module _ {S : Type 0} (M : IndexMap (List (DeferredRequirement S))) where
  unfoldable pub push_deferred : M.Map → DeferredRequirement S → M.Map
  push_deferred m entry = elim (M.get m entry.condition) [
    | none ↦ M.put m entry.condition (entry ∷ [])
    | some entries ↦ M.put m entry.condition (entries ++ (entry ∷ []))
  ]

  unfoldable pub drain_fired_deferred :
      (S → Bool) → M.Map → ConditionId → Run (List (DeferredRequirement S) × M.Map)
  drain_fired_deferred decided m condition = elim (M.get m condition) [
    | none ↦ ok ([], m)
    | some entries ↦ do
      let fire_mask = map (fires decided) entries
      r ← remove_fired (reverse (enumerate 0 fire_mask)) [] entries
      let m' = M.put m condition r.1
      let m'' = if is_empty r.1 then M.swap_remove m' condition else m'
      ok (reverse r.0, m'')
  ]
