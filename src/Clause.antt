-- ===== src/Clause.antt =====
-- src/solver/clause.rs: the clauses of the SAT problem, their literals, the two literals that a
-- clause watches, and the search for another literal to watch. `Build` has the constructors.
pub mod Build
pub mod Watched
pub mod Literals
pub mod Unwatched
use mathlib.Core.List.{flatten}
use resolvo.Prelude.{
  ℕ, Bool, true, false, not, ◌&&◌, Option, none, some, List, [], ◌∷◌, ◌++◌, map, Run, ok, panic,
  ◌>>=◌, expect, ◌==◌, get_elem?,
}
use resolvo.DecisionMap.{VariableId, DecisionMap}
use resolvo.DecisionTracker.{ClauseId}
use resolvo.Literal.{Literal, positive, negative, eval}

-- The ids of the interned objects are opaque numbers.
abbrev pub VersionSetId : Type 0
VersionSetId = ℕ

abbrev pub NameId : Type 0
NameId = ℕ

abbrev pub StringId : Type 0
StringId = ℕ

abbrev pub DisjunctionId : Type 0
DisjunctionId = ℕ

abbrev pub LearntClauseId : Type 0
LearntClauseId = ℕ

pub data Requirement : Type 0 where
  single : VersionSetId → Requirement
  union : ℕ → Requirement

pub data Clause : Type 0 where
  install_root : Clause
  requires : VariableId → Option DisjunctionId → Requirement → Clause
  forbid_multiple_instances : VariableId → Literal → NameId → Clause
  constrains : VariableId → VariableId → VersionSetId → Clause
  constrains_excluded : VariableId → VariableId → VersionSetId → Clause
  constrains_parent : VariableId → VariableId → VersionSetId → Clause
  lock : VariableId → VariableId → Clause
  learnt : LearntClauseId → Clause
  excluded : VariableId → StringId → Clause
  any_of : VariableId → VariableId → Clause

unfoldable pub is_binary : Clause → Bool
is_binary (constrains _ _ _) = true
is_binary (constrains_excluded _ _ _) = true
is_binary (constrains_parent _ _ _) = true
is_binary (forbid_multiple_instances _ _ _) = true
is_binary (lock _ _) = true
is_binary (any_of _ _) = true
is_binary _ = false

-- The root's variable has index 0.
abbrev pub root : VariableId
root = 0

-- Where the literals of learnt clauses, requirements and disjunctions are kept. A missing entry is
-- an index out of bounds.
pub record Tables : Type 0 where
  pub learnt_clauses : List (List Literal)
  pub requirement_to_sorted_candidates : Requirement → Option (List (List VariableId))
  pub disjunction_to_candidates : List (List Literal)

unfoldable pub disjunction_literals : Tables → Option DisjunctionId → Run (List Literal)
disjunction_literals t none = ok []
disjunction_literals t (some d) = expect (get_elem? t.disjunction_to_candidates d)

-- The literals that `try_fold_literals` folds over, in its order.
unfoldable pub literals : Tables → Clause → Run (List Literal)
literals t install_root = panic
literals t (excluded solvable _) = ok (negative solvable ∷ [])
literals t (learnt id) = expect (get_elem? t.learnt_clauses id)
literals t (requires solvable disjunction requirement) = do
  condition ← disjunction_literals t disjunction
  candidates ← expect (t.requirement_to_sorted_candidates requirement)
  ok (negative solvable ∷ condition ++ map positive (flatten candidates))
literals t (constrains s1 s2 _) = ok (negative s1 ∷ negative s2 ∷ [])
literals t (constrains_excluded candidate aux _) = ok (negative candidate ∷ positive aux ∷ [])
literals t (constrains_parent parent aux _) = ok (negative parent ∷ negative aux ∷ [])
literals t (forbid_multiple_instances s1 s2 _) = ok (negative s1 ∷ s2 ∷ [])
literals t (lock _ s) = ok (negative s ∷ negative root ∷ [])
literals t (any_of selected variable) = ok (positive selected ∷ negative variable ∷ [])

pub data ControlFlow (B C : Type 0) : Type 0 where
  break : B → ControlFlow B C
  continue : C → ControlFlow B C

-- `Iterator::try_fold`
unfoldable pub try_fold :
    {A B C : Type 0} → (C → A → ControlFlow B C) → C → List A → ControlFlow B C
try_fold visit init [] = continue init
try_fold visit init (x ∷ xs) = elim (visit init x) [
  | break b ↦ break b
  | continue c ↦ try_fold visit c xs
]

unfoldable pub try_fold_literals :
    {B C : Type 0} → Tables → Clause → C → (C → Literal → ControlFlow B C) → Run (ControlFlow B C)
try_fold_literals t clause init visit = literals t clause >>= λ ls. ok (try_fold visit init ls)

-- An array of two, and `usize` where it is 0 or 1.
pub record Both (A : Type 0) : Type 0 where
  pub at_zero : A
  pub at_one : A

pub data WatchIndex : Type 0 where
  index_zero index_one : WatchIndex

abbrev pub pick : {A : Type 0} → Both A → WatchIndex → A
pick b index_zero = b.at_zero
pick b index_one = b.at_one

abbrev pub put : {A : Type 0} → Both A → WatchIndex → A → Both A
put b index_zero a = record b { at_zero = a }
put b index_one a = record b { at_one = a }

-- `1 - index`
abbrev pub other_index : WatchIndex → WatchIndex
other_index index_zero = index_one
other_index index_one = index_zero

pub record WatchedLiterals : Type 0 where
  pub watched_literals : Both Literal
  pub next_watches : Both (Option ClauseId)

unfoldable pub from_kind_and_initial_watches : Option (Both Literal) → Option WatchedLiterals
from_kind_and_initial_watches none = none
from_kind_and_initial_watches (some watched) =
    some (record {
      watched_literals = watched;
      next_watches = record { at_zero = none; at_one = none };
    })

-- `lit.eval(decision_map).unwrap_or(true)`
abbrev pub unwrap_or_true : Option Bool → Bool
unwrap_or_true none = true
unwrap_or_true (some b) = b

-- Whether a literal is neither the other watch nor false.
unfoldable pub is_unwatched : Literal → DecisionMap → Literal → Bool
is_unwatched other m lit = not (other == lit) && unwrap_or_true (eval lit m)

-- The closure of the scan.
unfoldable pub visit_unwatched :
    Literal → DecisionMap → Unit {0} → Literal → ControlFlow Literal (Unit {0})
visit_unwatched other m _ lit = elim (is_unwatched other m lit) [
  | true ↦ break lit
  | false ↦ continue tt
]

abbrev pub broken : ControlFlow Literal (Unit {0}) → Option Literal
broken (break lit) = some lit
broken (continue _) = none

-- The scan of a clause that is neither binary nor a single literal by construction.
unfoldable pub scan_unwatched : Tables → Clause → Literal → DecisionMap → Run (Option Literal)
scan_unwatched t clause other m =
    try_fold_literals t clause tt (visit_unwatched other m) >>= λ next. ok (broken next)

unfoldable pub next_unwatched_literal :
    WatchedLiterals → Clause → Tables → DecisionMap → WatchIndex → Run (Option Literal)
next_unwatched_literal w install_root t m i = panic
next_unwatched_literal w (excluded _ _) t m i = panic
next_unwatched_literal w clause t m i = elim (is_binary clause) [
  | true ↦ ok none
  | false ↦ scan_unwatched t clause (pick w.watched_literals (other_index i)) m
]
