-- ===== src/Clause/Watched.antt =====
-- The constructors of `WatchedLiterals` in src/solver/clause.rs: a clause of `Build`, with the state
-- of its two watches before any list is entered.
use resolvo.Prelude.{Bool, Option, List, Run, ok, ◌>>=◌}
use resolvo.DecisionMap.{VariableId}
use resolvo.DecisionTracker.{DecisionTracker}
use resolvo.Literal.{Literal}
use resolvo.Clause.{
  Clause, Requirement, VersionSetId, StringId, NameId, LearntClauseId, Both, WatchedLiterals,
  from_kind_and_initial_watches,
}
use resolvo.Clause.Build
use resolvo.Clause.Build.{Built, ConditionLiterals}

-- The watches come first, then the conflict, if any can be, and the clause.
abbrev pub with_watches : Clause × Option (Both Literal) → Option WatchedLiterals × Clause
with_watches (kind, watched_literals) = (from_kind_and_initial_watches watched_literals, kind)

abbrev pub with_conflict : Built → Option WatchedLiterals × Bool × Clause
with_conflict b = (from_kind_and_initial_watches b.watches, b.conflict, b.kind)

unfoldable pub root : Option WatchedLiterals × Clause
root = with_watches Build.install_root

unfoldable pub requires :
    VariableId
    → Requirement
    → List VariableId
    → Option ConditionLiterals
    → DecisionTracker
    → Option WatchedLiterals × Bool × Clause
requires candidate requirement matching_candidates condition t =
    with_conflict (Build.requires candidate requirement matching_candidates condition t)

unfoldable pub constrains :
    VariableId
    → VariableId
    → VersionSetId
    → DecisionTracker
    → Option WatchedLiterals × Bool × Clause
constrains candidate constrained_package requirement t =
    with_conflict (Build.constrains candidate constrained_package requirement t)

unfoldable pub constrains_excluded :
    VariableId → VariableId → VersionSetId → Option WatchedLiterals × Clause
constrains_excluded candidate aux requirement =
    with_watches (Build.constrains_excluded candidate aux requirement)

unfoldable pub constrains_parent :
    VariableId
    → VariableId
    → VersionSetId
    → DecisionTracker
    → Option WatchedLiterals × Bool × Clause
constrains_parent parent aux requirement t =
    with_conflict (Build.constrains_parent parent aux requirement t)

unfoldable pub lock : VariableId → VariableId → Option WatchedLiterals × Clause
lock locked_candidate other_candidate = with_watches (Build.lock locked_candidate other_candidate)

unfoldable pub forbid_multiple : VariableId → Literal → NameId → Option WatchedLiterals × Clause
forbid_multiple candidate other_candidate name =
    with_watches (Build.forbid_multiple candidate other_candidate name)

unfoldable pub learnt : LearntClauseId → List Literal → Run (Option WatchedLiterals × Clause)
learnt learnt_clause_id literals =
    Build.learnt learnt_clause_id literals >>= λ r. ok (with_watches r)

unfoldable pub exclude : VariableId → StringId → Option WatchedLiterals × Clause
exclude candidate reason = with_watches (Build.exclude candidate reason)

unfoldable pub any_of : VariableId → VariableId → Option WatchedLiterals × Clause
any_of selected_var other_var = with_watches (Build.any_of selected_var other_var)
