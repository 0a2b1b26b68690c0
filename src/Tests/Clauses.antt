-- ===== src/Tests/Clauses.antt =====
-- Clauses of package 3, which requires one of the candidates 4 and 5.
use mathlib.Core.List.{flatten}
use resolvo.Prelude.{◌≡◌, refl, inl, inr, true, false, none, some, [], ◌∷◌, ok, Returns}
use resolvo.DecisionMap
use resolvo.DecisionMap.{VariableId, DecisionMap}
use resolvo.DecisionTracker.{clear}
use resolvo.Literal
use resolvo.Literal.{Literal, positive, negative, eval}
use resolvo.Clause.{
  single, Clause, Tables, index_zero, WatchedLiterals, disjunction_literals, is_binary, literals,
  next_unwatched_literal,
}
use resolvo.Clause.Build
use resolvo.Clause.Build.{condition_literals, both}
use resolvo.Clause.Literals.{
  IsBuilt, Holds, requires-IsBuilt, constrains-IsBuilt, constrains_parent-IsBuilt,
}
use resolvo.Clause.Unwatched.{Scanned, IsWatching, next_unwatched_literal-Scanned}

abbrev tables : Tables
tables = record {
  learnt_clauses = [];
  requirement_to_sorted_candidates = λ r. some ((4 ∷ []) ∷ (5 ∷ []) ∷ []);
  disjunction_to_candidates = (negative 9 ∷ []) ∷ [];
}

tables-Holds : Holds tables (single 1) (4 ∷ 5 ∷ []) (some (0, negative 9 ∷ []))
unfolding flatten disjunction_literals
tables-Holds = record {
  sorted = (4 ∷ []) ∷ (5 ∷ []) ∷ [];
  has_candidates = refl;
  flat = refl;
  has_condition = refl;
}

requires-IsBuilt_example :
    let b = Build.requires 3 (single 1) (4 ∷ 5 ∷ []) (some (0, negative 9 ∷ [])) clear in
    let rest = negative 9 ∷ positive 4 ∷ positive 5 ∷ [] in
    (literals tables b.kind ≡ ok (negative 3 ∷ rest)) × IsBuilt (negative 3) rest clear.map b
requires-IsBuilt_example =
    requires-IsBuilt clear tables 3 (single 1) (4 ∷ 5 ∷ []) (some (0, negative 9 ∷ [])) tables-Holds

constrains-IsBuilt_example :
    let b = Build.constrains 3 6 2 clear in
    (literals tables b.kind ≡ ok (negative 3 ∷ negative 6 ∷ []))
    × IsBuilt (negative 3) (negative 6 ∷ []) clear.map b
constrains-IsBuilt_example = constrains-IsBuilt clear tables 3 6 2

constrains_parent-IsBuilt_example :
    let b = Build.constrains_parent 3 8 2 clear in
    (literals tables b.kind ≡ ok (negative 3 ∷ negative 8 ∷ []))
    × IsBuilt (negative 3) (negative 8 ∷ []) clear.map b
constrains_parent-IsBuilt_example = constrains_parent-IsBuilt clear tables 3 8 2

-- The package is installed.
abbrev installed : DecisionMap
installed = DecisionMap.set_decision DecisionMap.empty 3 true 1

abbrev choice : Clause
choice = Clause.requires 3 none (single 1)

abbrev choice_watches : WatchedLiterals
choice_watches = record {
  watched_literals = both (negative 3) (positive 4);
  next_watches = both none none;
}

choice-literals : literals tables choice ≡ ok (negative 3 ∷ positive 4 ∷ positive 5 ∷ [])
unfolding flatten literals disjunction_literals
choice-literals = refl

choice-IsWatching :
    IsWatching choice_watches.watched_literals choice (negative 3 ∷ positive 4 ∷ positive 5 ∷ [])
unfolding is_binary
choice-IsWatching = record { zero_mem = inl refl; one_mem = inr (inl refl); binary = λ h. cc }

choice-false : eval (negative 3) installed ≡ some false
unfolding negative Literal.new eval Literal.negate Literal.variable DecisionMap.value
    DecisionMap.set_decision DecisionMap.empty DecisionMap.with_value_and_level
choice-false = refl

next_unwatched_literal-Scanned_example :
    Returns
      (next_unwatched_literal choice_watches choice tables installed index_zero)
      (Scanned (negative 3 ∷ positive 4 ∷ positive 5 ∷ []) (positive 4) installed)
next_unwatched_literal-Scanned_example =
    next_unwatched_literal-Scanned choice_watches choice tables installed index_zero
      (negative 3 ∷ positive 4 ∷ positive 5 ∷ []) tt choice-literals choice-IsWatching choice-false
