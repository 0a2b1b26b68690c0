-- ===== src/Tests/Variables.antt =====
-- A variable map that is a function from solvables, with solvable 7 as its first variable.
use resolvo.Prelude.{◌≡◌, refl, Option, none, some, [], ◌∷◌, ◌==◌, if◌then◌else◌}
use resolvo.DecisionMap.{VariableId}
use resolvo.VariableMap.{
  SolvableId, VariableOrigin, IdMap, VariableMap, default, alloc, intern_solvable, origin_solvable,
  alloc_at_least_one_variable,
}
use resolvo.VariableMap.Laws.{
  IsValid, default-IsValid, Allocated, Interned, intern_solvable-Interned, alloc-IsValid,
}

abbrev functions : IdMap (Option VariableId) none
functions = record {
  Map = SolvableId → Option VariableId;
  default_map = λ k. none;
  get = λ m k. m k;
  set = λ m k v j. if k == j then v else m j;
  get-default_map = λ k. refl;
  get-set = λ m k j v. refl;
}

abbrev one_solvable : VariableMap functions
one_solvable = record {
  origins = VariableOrigin.root ∷ VariableOrigin.solvable 7 ∷ [];
  solvable_to_variable = λ j. if 7 == j then some 1 else none;
}

one_solvable-run : intern_solvable functions (default functions) 7 ≡ (1, one_solvable)
unfolding intern_solvable alloc
one_solvable-run = refl

one_solvable-IsValid : IsValid functions one_solvable
unfolding intern_solvable alloc
one_solvable-IsValid =
    (intern_solvable-Interned functions (default functions) 7 (default-IsValid functions)).valid

intern_solvable-Interned_example :
    Interned functions one_solvable 9
      (intern_solvable functions one_solvable 9).0
      (intern_solvable functions one_solvable 9).1
intern_solvable-Interned_example =
    intern_solvable-Interned functions one_solvable 9 one_solvable-IsValid

other_origin : origin_solvable (VariableOrigin.at_least_one 3) ≡ none
unfolding origin_solvable
other_origin = refl

alloc-IsValid_example :
    IsValid functions (alloc_at_least_one_variable functions one_solvable 3).1
    × Allocated functions one_solvable
        (VariableOrigin.at_least_one 3)
        (alloc_at_least_one_variable functions one_solvable 3).0
        (alloc_at_least_one_variable functions one_solvable 3).1
alloc-IsValid_example =
    alloc-IsValid functions one_solvable (VariableOrigin.at_least_one 3) other_origin
      one_solvable-IsValid
