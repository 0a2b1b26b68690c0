-- ===== src/Tests/Maps.antt =====
-- The packed decisions of a map, the literals, and a mapping with two values.
use resolvo.Prelude.{ℕ, ◌<◌, ◌≡◌, ◌↔◌, refl, true, false, none, some, [], arith, Elem}
use resolvo.DecisionMap
use resolvo.DecisionMap.{
  with_value_and_level, decision_value, decision_level, value, level, set_decision,
}
use resolvo.DecisionMap.Laws.{with_value_and_level_roundtrip, set_decision_lem, reset_lem}
use resolvo.Literal.{variable, negate, new, from_index, encoded_literal}
use resolvo.Literal.Laws.{new_roundtrip}
use resolvo.Mapping
use resolvo.Mapping.{Mapping, insert, unset, get, iter}
use resolvo.Mapping.Laws.{IsValid, Updated, new-IsValid, insert-Updated, unset-Updated}
use resolvo.Mapping.Iteration.{mem-iter}

with_value_and_level_roundtrip_example :
    (decision_value (with_value_and_level false 3) ≡ some false)
    × (decision_level (with_value_and_level false 3) ≡ 3)
with_value_and_level_roundtrip_example =
    with_value_and_level_roundtrip false 3 (omega arith) (omega arith)

set_decision_lem_example :
    (value (set_decision DecisionMap.empty 2 true 5) 2 ≡ some true)
    × (level (set_decision DecisionMap.empty 2 true 5) 2 ≡ 5)
set_decision_lem_example = set_decision_lem DecisionMap.empty 2 true 5 2 (omega arith, omega arith)

reset_lem_example :
    (value (DecisionMap.reset (set_decision DecisionMap.empty 2 true 5) 2) 2 ≡ none)
    × (level (DecisionMap.reset (set_decision DecisionMap.empty 2 true 5) 2) 2 ≡ 0)
reset_lem_example = reset_lem (set_decision DecisionMap.empty 2 true 5) 2 2

new_roundtrip_example :
    (variable (new 6 true) ≡ 6)
    × (negate (new 6 true) ≡ true)
    × (new (variable 9) (negate 9) ≡ 9)
    × (from_index (encoded_literal 6 true) ≡ some (new 6 true))
new_roundtrip_example = new_roundtrip 6 true 9 (omega arith)

abbrev nothing : Mapping ℕ
nothing = Mapping.new

nothing-IsValid : IsValid nothing
nothing-IsValid = (new-IsValid nothing refl).0

abbrev one_value : Mapping ℕ
one_value = (insert nothing 200 8).1

insert-Updated_example :
    ((insert nothing 200 8).0 ≡ get nothing 200) × Updated nothing 200 (some 8) one_value
insert-Updated_example = insert-Updated nothing 200 8 nothing-IsValid

one_value-IsValid : IsValid one_value
one_value-IsValid = (insert-Updated nothing 200 8 nothing-IsValid).1.valid

unset-Updated_example :
    ((unset one_value 200).0 ≡ get one_value 200)
    × Updated one_value 200 none (unset one_value 200).1
unset-Updated_example = unset-Updated one_value 200 one_value-IsValid

-- The value at 200 is stored, but the iterator stops at the count, which is 1.
one_value-iter : (get one_value 200 ≡ some 8) × (iter one_value ≡ [])
unfolding get iter insert Mapping.new Mapping.fit Mapping.set_slot Mapping.slot Mapping.empty_chunk
one_value-iter = (refl, refl)

mem-iter_example :
    Elem (200, 8) (iter one_value) ↔ ((200 < one_value.len) × (get one_value 200 ≡ some 8))
mem-iter_example = mem-iter one_value 200 8
