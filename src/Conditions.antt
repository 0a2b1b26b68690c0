-- ===== src/Conditions.antt =====
-- src/solver/conditions.rs and the condition trees of src/conditional_requirement.rs. A condition's
-- parts are named by ids that the interner resolves; the interner is a parameter here. The recursion
-- of the conversion runs on fuel: an interner may hand out ids that lead in a circle.
pub mod Dnf
use resolvo.Prelude.{
  ℕ, zero, suc, Bool, Option, List, [], ◌∷◌, ◌++◌, Run, ok, out_of_fuel, ◌>>=◌, any, all,
}
use resolvo.Clause.{VersionSetId}

abbrev pub ConditionId : Type 0
ConditionId = ℕ

pub data LogicalOperator : Type 0 where
  op_and : LogicalOperator
  op_or : LogicalOperator

pub data Condition : Type 0 where
  binary : LogicalOperator → ConditionId → ConditionId → Condition
  requirement : VersionSetId → Condition

-- The two loops that distribute AND over OR.
abbrev pub merge_each : List VersionSetId → List (List VersionSetId) → List (List VersionSetId)
merge_each l [] = []
merge_each l (r ∷ rs) = (l ++ r) ∷ merge_each l rs

abbrev pub distribute :
    List (List VersionSetId) → List (List VersionSetId) → List (List VersionSetId)
distribute [] rs = []
distribute (l ∷ ls) rs = merge_each l rs ++ distribute ls rs

abbrev pub combine :
    LogicalOperator → List (List VersionSetId) → List (List VersionSetId) → List (List VersionSetId)
combine op_and left_dnf right_dnf = distribute left_dnf right_dnf
combine op_or left_dnf right_dnf = left_dnf ++ right_dnf

unfoldable pub convert_conditions_to_dnf :
    ℕ → (ConditionId → Condition) → ConditionId → Run (List (List VersionSetId))
convert_conditions_to_dnf zero resolve_condition condition = out_of_fuel
convert_conditions_to_dnf (suc fuel) resolve_condition condition =
    elim (resolve_condition condition) [
      | requirement version_set ↦ ok ((version_set ∷ []) ∷ [])
      | binary op lhs rhs ↦ do
        left_dnf ← convert_conditions_to_dnf fuel resolve_condition lhs
        right_dnf ← convert_conditions_to_dnf fuel resolve_condition rhs
        ok (combine op left_dnf right_dnf)
    ]

-- Generic in the solvables, as the source is; both constructors hold the version set first.
pub data DeferredConjunct (S : Type 0) : Type 0 where
  solvables : VersionSetId → List S → DeferredConjunct S
  empty : VersionSetId → List S → DeferredConjunct S

abbrev pub version_set : {S : Type 0} → DeferredConjunct S → VersionSetId
version_set (solvables v _) = v
version_set (empty v _) = v

abbrev pub candidates : {S : Type 0} → DeferredConjunct S → List S
candidates (solvables _ matching) = matching
candidates (empty _ all_candidates) = all_candidates

unfoldable pub condition_disjunct_holds :
    {S : Type 0} → List (DeferredConjunct S) → (S → Bool) → Bool
condition_disjunct_holds disjunct is_positively_decided =
    all (λ conjunct. any is_positively_decided (candidates conjunct)) disjunct
