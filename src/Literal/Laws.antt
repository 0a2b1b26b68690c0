-- ===== src/Literal/Laws.antt =====
-- Laws of the literals of src/solver/clause.rs: the packed form loses nothing, and a literal's value
-- is that of its variable, negated if it is negative.
use resolvo.Prelude.{◌-◌, ◌^◌, ◌<◌, ◌≡◌, Bool, true, false, not, Option, none, some, arith, bool_eq}
use resolvo.DecisionMap
use resolvo.DecisionMap.{VariableId, DecisionMap}
use resolvo.Literal.{
  Literal, from_index, new, encoded_literal, negate, satisfying_value, variable, eval, positive,
  negative,
}

pub variable-new : (v : VariableId) (n : Bool) → variable (new v n) ≡ v
unfolding variable new
variable-new v true = omega arith
variable-new v false = omega arith

pub negate-new : (v : VariableId) (n : Bool) → negate (new v n) ≡ n
unfolding negate new
negate-new v true = ground arith
negate-new v false = ground arith

-- Every literal is built from its variable and its sign, and these are given back; the number
-- stored for a variable below 2 ^ 31 - 1 fits 32 bits, so that no conversion panics.
pub new_roundtrip :
    (v : VariableId) (n : Bool) (l : Literal)
    → v < 2 ^ 31 - 1
    → (variable (new v n) ≡ v)
      × (negate (new v n) ≡ n)
      × (new (variable l) (negate l) ≡ l)
      × (from_index (encoded_literal v n) ≡ some (new v n))
unfolding variable new negate from_index
new_roundtrip v n l h = (variable-new v n, negate-new v n, back, fits n)
  where
    back : new (variable l) (negate l) ≡ l
    back = ground arith

    fits : (n : Bool) → from_index (encoded_literal v n) ≡ some (new v n)
    fits true = ground arith
    fits false = ground arith

-- The value of a literal with a sign, from the value of its variable.
abbrev pub signed : Bool → Option Bool → Option Bool
signed n none = none
signed n (some value) = some (not (bool_eq value n))

eval-signed :
    (l : Literal) (m : DecisionMap)
    → eval l m ≡ signed (negate l) (DecisionMap.value m (variable l))
unfolding eval
eval-signed l m = ground arith

pub eval-new :
    (v : VariableId) (n : Bool) (m : DecisionMap)
    → eval (new v n) m ≡ signed n (DecisionMap.value m v)
eval-new v n m = rw (eval-signed, variable-new v n, negate-new v n)

pub eval-positive : (v : VariableId) (m : DecisionMap) → eval (positive v) m ≡ DecisionMap.value m v
unfolding positive
eval-positive v m = rw (eval-new v false m) (ground arith)

pub eval-negative :
    (v : VariableId) (m : DecisionMap) → eval (negative v) m ≡ signed true (DecisionMap.value m v)
unfolding negative
eval-negative v m = rw (eval-new v true m)

-- A literal is true when its variable has the satisfying value.
pub eval-satisfying :
    (l : Literal) (m : DecisionMap)
    → DecisionMap.value m (variable l) ≡ some (satisfying_value l)
    → eval l m ≡ some true
unfolding eval satisfying_value
eval-satisfying l m h = ground arith

pub eval-falsifying :
    (l : Literal) (m : DecisionMap)
    → eval l m ≡ some false
    → DecisionMap.value m (variable l) ≡ some (not (satisfying_value l))
unfolding eval satisfying_value
eval-falsifying l m h = ground arith
