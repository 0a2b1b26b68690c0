-- ===== src/Literal.antt =====
-- src/solver/clause.rs: literals, with their packed form, and their value under a decision map.
pub mod Laws
use resolvo.Prelude.{
  ℕ, ◌+◌, ◌*◌, ◌/◌, ◌%◌, ◌^◌, Bool, true, false, not, Option, none, some, ltb, ◌==◌, bool_eq,
  if◌then◌else◌,
}
use resolvo.DecisionMap
use resolvo.DecisionMap.{VariableId, DecisionMap}

-- A literal by its index (`to_index`); the number stored is the index and one.
abbrev pub Literal : Type 0
Literal = ℕ

abbrev pub stored : Literal → ℕ
stored l = l + 1

-- `Literal::from_index`: the number stored must fit a `u32`, else it panics, which is `none`.
unfoldable pub from_index : ℕ → Option Literal
from_index x = if ltb (x + 1) (2 ^ 32) then some x else none

-- `variable_idx << 1 | negate as usize`; the low bit is free after the shift.
abbrev pub encoded_literal : VariableId → Bool → ℕ
encoded_literal v negated = v * 2 + (if negated then 1 else 0)

-- `Literal::new`, for a variable whose literals fit.
unfoldable pub new : VariableId → Bool → Literal
new v negated = encoded_literal v negated

-- `(self.0.get() & 1) == 0`
unfoldable pub negate : Literal → Bool
negate l = stored l % 2 == 0

unfoldable pub satisfying_value : Literal → Bool
unfolding negate
satisfying_value l = not (negate l)

-- `self.to_index() >> 1`
unfoldable pub variable : Literal → VariableId
variable l = l / 2

unfoldable pub eval : Literal → DecisionMap → Option Bool
eval l m = elim (DecisionMap.value m (variable l)) [
  | none ↦ none
  | some value ↦ some (not (bool_eq value (negate l)))
]

unfoldable pub positive : VariableId → Literal
positive v = new v false

unfoldable pub negative : VariableId → Literal
negative v = new v true
