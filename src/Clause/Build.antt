-- ===== src/Clause/Build.antt =====
-- The constructors of src/solver/clause.rs: each returns a clause with the two literals that it
-- watches at first, if any, and whether it conflicts with the decisions made so far.
use resolvo.Prelude.{
  Bool, true, false, not, ◌&&◌, Option, none, some, List, [], ◌∷◌, ◌++◌, map, is_value, find, Run,
  ok, panic, ◌>>=◌,
}
use resolvo.DecisionMap.{VariableId}
use resolvo.DecisionTracker.{DecisionTracker, assigned_value}
use resolvo.Literal.{Literal, positive, negative, eval}
use resolvo.Clause.{
  Clause, Requirement, DisjunctionId, VersionSetId, StringId, NameId, LearntClauseId, Both, root,
}

abbrev pub both : {A : Type 0} → A → A → Both A
both a b = record { at_zero = a; at_one = b }

-- A clause, its initial watches and whether it conflicts.
pub record Built : Type 0 where
  pub kind : Clause
  pub watches : Option (Both Literal)
  pub conflict : Bool

-- `(DisjunctionId, &[Literal])`
abbrev pub ConditionLiterals : Type 0
ConditionLiterals = DisjunctionId × List Literal

abbrev pub condition_id : Option ConditionLiterals → Option DisjunctionId
condition_id none = none
condition_id (some (d, _)) = some d

abbrev pub condition_literals : Option ConditionLiterals → List Literal
condition_literals none = []
condition_literals (some (_, ls)) = ls

-- The literals of `literals` from the first one that is not false, or the first of all.
unfoldable pub requires_watches :
    Clause → VariableId → List Literal → Bool → DecisionTracker → Built
requires_watches kind parent [] parent_is_false t = record {
  kind = kind;
  watches = none;
  conflict = false;
}
requires_watches kind parent (first_literal ∷ rest) parent_is_false t =
    elim (find (λ c. not (is_value (eval c t.map) false)) (first_literal ∷ rest)) [
      | some watched_candidate ↦ record {
        kind = kind;
        watches = some (both (negative parent) watched_candidate);
        conflict = false;
      }
      | none ↦ record {
        kind = kind;
        watches = some (both (negative parent) first_literal);
        conflict = not parent_is_false;
      }
    ]

unfoldable pub requires :
    VariableId → Requirement → List VariableId → Option ConditionLiterals → DecisionTracker → Built
requires parent requirement candidates condition t =
    requires_watches (Clause.requires parent (condition_id condition) requirement) parent
      (condition_literals condition ++ map positive candidates)
      (is_value (assigned_value t parent) false) t

unfoldable pub constrains : VariableId → VariableId → VersionSetId → DecisionTracker → Built
constrains parent forbidden_solvable via t =
    let parent_is_false = is_value (assigned_value t parent) false in
    record {
      kind = Clause.constrains parent forbidden_solvable via;
      watches = some (both (negative parent) (negative forbidden_solvable));
      conflict = not parent_is_false && is_value (assigned_value t forbidden_solvable) true;
    }

unfoldable pub constrains_excluded :
    VariableId → VariableId → VersionSetId → Clause × Option (Both Literal)
constrains_excluded candidate aux via =
    (Clause.constrains_excluded candidate aux via, some (both (negative candidate) (positive aux)))

unfoldable pub constrains_parent : VariableId → VariableId → VersionSetId → DecisionTracker → Built
constrains_parent parent aux via t =
    let parent_is_false = is_value (assigned_value t parent) false in
    record {
      kind = Clause.constrains_parent parent aux via;
      watches = some (both (negative parent) (negative aux));
      conflict = not parent_is_false && is_value (assigned_value t aux) true;
    }

unfoldable pub forbid_multiple : VariableId → Literal → NameId → Clause × Option (Both Literal)
forbid_multiple candidate constrained_candidate name = (
  Clause.forbid_multiple_instances candidate constrained_candidate name,
  some (both (negative candidate) constrained_candidate),
)

unfoldable pub install_root : Clause × Option (Both Literal)
install_root = (Clause.install_root, none)

unfoldable pub exclude : VariableId → StringId → Clause × Option (Both Literal)
exclude candidate reason = (Clause.excluded candidate reason, none)

unfoldable pub lock : VariableId → VariableId → Clause × Option (Both Literal)
lock locked_candidate other_candidate = (
  Clause.lock locked_candidate other_candidate,
  some (both (negative root) (negative other_candidate)),
)

-- The last element of a list that has a first one.
abbrev pub last_or : Literal → List Literal → Literal
last_or l [] = l
last_or l (x ∷ xs) = last_or x xs

-- With no literal `first().unwrap()` panics.
unfoldable pub learnt_watches : List Literal → Run (Option (Both Literal))
learnt_watches [] = panic
learnt_watches (l ∷ []) = ok none
learnt_watches (l ∷ x ∷ xs) = ok (some (both l (last_or x xs)))

unfoldable pub learnt : LearntClauseId → List Literal → Run (Clause × Option (Both Literal))
unfolding learnt_watches
learnt id literals = learnt_watches literals >>= λ w. ok (Clause.learnt id, w)

unfoldable pub any_of : VariableId → VariableId → Clause × Option (Both Literal)
any_of selected_var other_var =
    (Clause.any_of selected_var other_var, some (both (positive selected_var) (negative other_var)))
