-- ===== src/VariableMap.antt =====
-- src/solver/variable_map.rs: a variable has one origin, and a solvable at most one variable. The ids
-- of the provider are numbers; its map from them is an interface here, `IdMap` of src/solver_id.rs.
pub mod Laws
use resolvo.Prelude.{
  ℕ, ◌≡◌, ◌==◌, if◌then◌else◌, Option, none, some, List, [], ◌∷◌, ◌++◌, Run, ◌>>=◌, ok, expect,
  length, get_elem?,
}
use resolvo.DecisionMap.{VariableId}
use resolvo.Clause
use resolvo.Clause.{Requirement, NameId, VersionSetId}

abbrev pub SolvableId : Type 0
SolvableId = ℕ

pub data VariableOrigin : Type 0 where
  root : VariableOrigin
  solvable : SolvableId → VariableOrigin
  forbid_multiple : NameId → VariableOrigin
  at_least_one : NameId → VariableOrigin
  constrains_violation : VersionSetId → VariableOrigin
  requires_gate : Requirement → VariableOrigin

-- A map with a default value, as `get` and `set` of the trait document it.
pub record IdMap (V : Type 0) (default_value : V) : Type 1 where
  pub Map : Type 0
  pub default_map : Map
  pub get : Map → SolvableId → V
  pub set : Map → SolvableId → V → Map
  pub get-default_map : (k : SolvableId) → get default_map k ≡ default_value
  pub get-set :
      (m : Map) (k j : SolvableId) (v : V) → get (set m k v) j ≡ (if k == j then v else get m j)

pub data SolvableIdOrRoot : Type 0 where
  the_root : SolvableIdOrRoot
  a_solvable : SolvableId → SolvableIdOrRoot

-- `VariableOrigin::as_solvable` and `VariableOrigin::as_solvable_or_root`
unfoldable pub origin_solvable : VariableOrigin → Option SolvableId
origin_solvable (VariableOrigin.solvable solvable_id) = some solvable_id
origin_solvable _ = none

unfoldable pub origin_solvable_or_root : VariableOrigin → Option SolvableIdOrRoot
origin_solvable_or_root (VariableOrigin.solvable solvable_id) = some (a_solvable solvable_id)
origin_solvable_or_root VariableOrigin.root = some the_root
origin_solvable_or_root _ = none

module _ (ids : IdMap (Option VariableId) none) where
  pub record VariableMap : Type 0 where
    pub solvable_to_variable : ids.Map
    pub origins : List VariableOrigin

  abbrev pub default : VariableMap
  default = record { solvable_to_variable = ids.default_map; origins = VariableOrigin.root ∷ [] }

  unfoldable pub alloc : VariableMap → VariableOrigin → VariableId × VariableMap
  alloc m origin = (length m.origins, record m { origins = m.origins ++ origin ∷ [] })

  -- A solvable that is new gets a variable, which the map then has.
  unfoldable pub intern_solvable : VariableMap → SolvableId → VariableId × VariableMap
  intern_solvable m solvable_id = elim (ids.get m.solvable_to_variable solvable_id) [
    | some variable_id ↦ (variable_id, m)
    | none ↦
        let r = alloc m (VariableOrigin.solvable solvable_id) in
        (
          r.0,
          record r.1 {
            solvable_to_variable = ids.set r.1.solvable_to_variable solvable_id (some r.0);
          },
        )
  ]

  unfoldable pub lookup_solvable : VariableMap → SolvableId → Option VariableId
  lookup_solvable m solvable_id = ids.get m.solvable_to_variable solvable_id

  unfoldable pub intern_solvable_or_root : VariableMap → SolvableIdOrRoot → VariableId × VariableMap
  intern_solvable_or_root m the_root = (Clause.root, m)
  intern_solvable_or_root m (a_solvable solvable_id) = intern_solvable m solvable_id

  abbrev pub alloc_forbid_multiple_variable : VariableMap → NameId → VariableId × VariableMap
  alloc_forbid_multiple_variable m name = alloc m (VariableOrigin.forbid_multiple name)

  abbrev pub alloc_at_least_one_variable : VariableMap → NameId → VariableId × VariableMap
  alloc_at_least_one_variable m name = alloc m (VariableOrigin.at_least_one name)

  abbrev pub alloc_constrains_violation_variable :
      VariableMap → VersionSetId → VariableId × VariableMap
  alloc_constrains_violation_variable m version_set =
      alloc m (VariableOrigin.constrains_violation version_set)

  abbrev pub alloc_requires_gate_variable : VariableMap → Requirement → VariableId × VariableMap
  alloc_requires_gate_variable m requirement = alloc m (VariableOrigin.requires_gate requirement)

  -- The index panics for a variable that was not given out.
  unfoldable pub origin : VariableMap → VariableId → Run VariableOrigin
  origin m variable_id = expect (get_elem? m.origins variable_id)

  unfoldable pub as_solvable : VariableMap → VariableId → Run (Option SolvableId)
  as_solvable m variable = origin m variable >>= λ o. ok (origin_solvable o)

  unfoldable pub as_solvable_or_root : VariableMap → VariableId → Run (Option SolvableIdOrRoot)
  as_solvable_or_root m variable = origin m variable >>= λ o. ok (origin_solvable_or_root o)
