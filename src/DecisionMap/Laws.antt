-- ===== src/DecisionMap/Laws.antt =====
-- The map of src/solver/decision_map.rs behaves as a total function from variables to values and
-- levels, over its packed and growing representation.
use resolvo.Prelude.{
  ℕ, ◌+◌, ◌-◌, ◌^◌, ◌<◌, ◌≡◌, refl, inl, inr, Bool, true, false, none, some, arith, ltb, leb, ◌==◌,
  if◌then◌else◌, Bool-cases, length, get_or, replicate, length-append, length-replicate,
  get_or-append_replicate, get_or-set, get_elem?-get_or, get_or_above,
}
use resolvo.DecisionMap.{
  VariableId, DecisionAndLevel, undecided, decision_value, decision_level, with_value_and_level,
  DecisionMap, empty, resize_with, reset, set_decision, level, value,
}

-- The levels that fit an `i32` above 0.
abbrev pub IsLevel : ℕ → Type 0
IsLevel l = (0 < l) × (l < 2 ^ 31)

-- Packing a value with a level from 1 to 2 ^ 31 - 1 loses neither.
pub with_value_and_level_roundtrip :
    (b : Bool) (l : ℕ)
    → 0 < l
    → l < 2 ^ 31
    → (decision_value (with_value_and_level b l) ≡ some b)
      × (decision_level (with_value_and_level b l) ≡ l)
unfolding with_value_and_level
with_value_and_level_roundtrip true l p q = ground arith
with_value_and_level_roundtrip false l p q = ground arith

abbrev cell : DecisionMap → VariableId → DecisionAndLevel
cell m v = get_or m.map v undecided

value-cell : (m : DecisionMap) (v : VariableId) → value m v ≡ decision_value (cell m v)
unfolding value
value-cell m v = ground (arith, get_elem?-get_or m.map v undecided)

level-cell : (m : DecisionMap) (v : VariableId) → level m v ≡ decision_level (cell m v)
unfolding level
level-cell m v = ground (arith, get_elem?-get_or m.map v undecided)

cell-set :
    (m : DecisionMap) (v : VariableId) (b : Bool) (l : ℕ) (w : VariableId)
    → cell (set_decision m v b l) w ≡ (if v == w then with_value_and_level b l else cell m w)
unfolding set_decision
cell-set m v b l w = elim (Bool-cases (leb (length m.map) v)) [
  | inl grow ↦
      let fits : v < length (resize_with m.map (v + 1)) = ground (
        arith,
        length-append m.map (replicate (v + 1 - length m.map) undecided),
        length-replicate (v + 1 - length m.map) undecided,
      ) in
      rw (
        grow,
        get_or-set (resize_with m.map (v + 1)) v w (with_value_and_level b l) undecided fits,
        get_or-append_replicate m.map (v + 1 - length m.map) w undecided,
      )
  | inr room ↦ rw (room, get_or-set m.map v w (with_value_and_level b l) undecided (ground arith))
]

cell-reset :
    (m : DecisionMap) (v w : VariableId)
    → cell (reset m v) w ≡ (if v == w then undecided else cell m w)
unfolding reset
cell-reset m v w = elim (Bool-cases (ltb v (length m.map))) [
  | inl fits ↦ rw (fits, get_or-set m.map v w undecided undecided (ground arith))
  | inr out ↦ rw out (ground (arith, get_or_above m.map v undecided))
]

-- After `set` with a level from 1 to 2 ^ 31 - 1 the variable has the value and the level given, and every other variable keeps both.
pub set_decision_lem :
    (m : DecisionMap) (v : VariableId) (b : Bool) (l : ℕ) (w : VariableId)
    → IsLevel l
    → (value (set_decision m v b l) w ≡ (if v == w then some b else value m w))
      × (level (set_decision m v b l) w ≡ (if v == w then l else level m w))
set_decision_lem m v b l w (low, high) =
    let (value_ok, level_ok) = with_value_and_level_roundtrip b l low high in
    (
      rw (value-cell, value-cell, cell-set) (ground arith),
      rw (level-cell, level-cell, cell-set) (ground arith),
    )

-- After `reset` the variable is undecided at level 0, and every other variable is as before.
pub reset_lem :
    (m : DecisionMap) (v w : VariableId)
    → (value (reset m v) w ≡ (if v == w then none else value m w))
      × (level (reset m v) w ≡ (if v == w then 0 else level m w))
reset_lem m v w = (
  rw (value-cell, value-cell, cell-reset) (ground arith),
  rw (level-cell, level-cell, cell-reset) (ground arith),
)

pub value-empty : (v : VariableId) → value empty v ≡ none
unfolding value empty
value-empty v = refl

-- An undecided variable has level 0.
pub level_of_none : (m : DecisionMap) (v : VariableId) → value m v ≡ none → level m v ≡ 0
unfolding value level
level_of_none m v h = ground arith
