-- ===== src/Tests/Assertions.antt =====
-- A problem in which variable 3 is excluded.
use resolvo.Prelude.{refl, none, List, [], ◌∷◌, arith, Returns}
use resolvo.DecisionMap.{VariableId}
use resolvo.DecisionTracker.{ClauseId, clear}
use resolvo.DecisionTracker.Invariant.{clear-IsValid}
use resolvo.Clause.{install_root, excluded, literals}
use resolvo.Propagation.{Problem, decide_assertions}
use resolvo.Propagation.Assertions.{IsAssertion, Asserted, decide_assertions-Asserted}
use resolvo.Propagation.Units.{IsOpen}

abbrev assertions : List (VariableId × ClauseId)
assertions = (3, 1) ∷ []

abbrev problem : Problem
problem = record {
  kinds = install_root ∷ excluded 3 0 ∷ [];
  tables = record {
    learnt_clauses = [];
    requirement_to_sorted_candidates = λ r. none;
    disjunction_to_candidates = [];
  };
  negative_assertions = assertions;
  learnt_clause_ids = [];
}

excluded-IsAssertion : IsAssertion problem (3, 1)
unfolding literals
excluded-IsAssertion = (excluded 3 0, refl, refl)

clear-IsOpen : IsOpen 1 clear
unfolding clear
clear-IsOpen = record {
  trail = clear-IsValid;
  fits = (omega arith, omega arith);
  below = omega arith;
}

decide_assertions-Asserted_example :
    Returns (decide_assertions assertions 1 clear) (Asserted problem 1 clear assertions)
decide_assertions-Asserted_example =
    decide_assertions-Asserted problem 1 clear assertions clear-IsOpen (excluded-IsAssertion, tt)
