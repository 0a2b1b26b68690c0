-- ===== src/DecisionMap.antt =====
-- src/solver/decision_map.rs: the value and the level of every assigned variable, packed into one
-- 32-bit signed number per variable. The child proves the laws of the map.
pub mod Laws
use resolvo.Prelude.{
  ℕ, zero, suc, ◌+◌, ◌-◌, ◌%◌, ◌^◌, Bool, true, false, Option, none, some, List, [], ◌++◌, ltb, leb,
  ◌==◌, if◌then◌else◌, length, get_elem?, set, replicate,
}

-- A variable's id by its index, root being 0.
abbrev pub VariableId : Type 0
VariableId = ℕ

-- `i32`; `negsuc n` is -(n + 1).
pub data ℤ : Type 0 where
  pos : ℕ → ℤ
  negsuc : ℕ → ℤ

-- `level as i32`, with its wrap-around.
abbrev pub as_i32 : ℕ → ℤ
as_i32 n = let m = n % 2 ^ 32 in if ltb m (2 ^ 31) then pos m else negsuc (2 ^ 32 - 1 - m)

-- `-x` on `i32`; the least number is its own negation.
abbrev pub negate_i32 : ℤ → ℤ
negate_i32 (pos zero) = pos zero
negate_i32 (pos (suc n)) = negsuc n
negate_i32 (negsuc n) = if n == 2 ^ 31 - 1 then negsuc n else pos (suc n)

-- `DecisionAndLevel`: 0 is undecided, above 0 true at that level, below 0 false at its negation.
pub record DecisionAndLevel : Type 0 where
  pub raw : ℤ

abbrev pub undecided : DecisionAndLevel
undecided = record { raw = pos 0 }

-- The comparison with 0.
abbrev pub sign_value : ℤ → Option Bool
sign_value (pos zero) = none
sign_value (pos (suc n)) = some true
sign_value (negsuc n) = some false

abbrev pub unsigned_abs : ℤ → ℕ
unsigned_abs (pos n) = n
unsigned_abs (negsuc n) = suc n

abbrev pub decision_value : DecisionAndLevel → Option Bool
decision_value d = sign_value d.raw

abbrev pub decision_level : DecisionAndLevel → ℕ
decision_level d = unsigned_abs d.raw

unfoldable pub with_value_and_level : Bool → ℕ → DecisionAndLevel
with_value_and_level value level = record {
  raw = if value then as_i32 level else negate_i32 (as_i32 level);
}

pub record DecisionMap : Type 0 where
  pub map : List DecisionAndLevel

unfoldable pub empty : DecisionMap
empty = record { map = [] }

-- `resize_with` to a length that is not smaller.
abbrev pub resize_with : List DecisionAndLevel → ℕ → List DecisionAndLevel
resize_with ds n = ds ++ replicate (n - length ds) undecided

unfoldable pub reset : DecisionMap → VariableId → DecisionMap
reset m v = if ltb v (length m.map) then record m { map = set m.map v undecided } else m

unfoldable pub set_decision : DecisionMap → VariableId → Bool → ℕ → DecisionMap
set_decision m v value level =
    let grown = if leb (length m.map) v then resize_with m.map (v + 1) else m.map in
    record m { map = set grown v (with_value_and_level value level) }

unfoldable pub level : DecisionMap → VariableId → ℕ
level m v = elim (get_elem? m.map v) [ none ↦ 0 | some d ↦ decision_level d ]

unfoldable pub value : DecisionMap → VariableId → Option Bool
value m v = elim (get_elem? m.map v) [ none ↦ none | some d ↦ decision_value d ]
