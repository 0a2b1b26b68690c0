-- ===== src/Propagation/Invariant.antt =====
-- The invariant of unit propagation in src/solver/mod.rs: valid lists and a valid trail, and each
-- clause with watches watches two of its literals.
use resolvo.Prelude.{
  ℕ, ◌≡◌, ◌≤◌, subst, inl, inr, false, some, List, arith, ok, Elem, get_elem?, Option-cases,
  Bool-cases, ==_iff, ◌==◌, if◌then◌else◌,
}
use resolvo.DecisionMap.Laws.{IsLevel}
use resolvo.DecisionTracker.{ClauseId, level}
use resolvo.DecisionTracker.Invariant
use resolvo.DecisionTracker.Invariant.{last_level}
use resolvo.Literal.{Literal}
use resolvo.Clause.{
  Clause, Both, WatchIndex, index_zero, index_one, WatchedLiterals, literals, is_binary, put,
}
use resolvo.Clause.Unwatched.{IsWatching, IsWatchable}
use resolvo.WatchMap.{Watches, node}
use resolvo.WatchMap.Links
use resolvo.WatchMap.Update.Unlink.{watched_of}
use resolvo.Propagation.{Problem, SolverState}

-- The clause of an id exists, and these are two of its literals.
pub record IsWatched (p : Problem) (id : ClauseId) (w : Both Literal) : Type 0 where
  pub clause : Clause
  pub ls : List Literal
  pub has_clause : get_elem? p.kinds id ≡ some clause
  pub has_literals : literals p.tables clause ≡ ok ls
  pub watchable : IsWatchable clause
  pub watching : IsWatching w clause ls

abbrev pub AllWatched : Problem → Watches → Type 0
AllWatched p ws =
    (id : ClauseId) (w : WatchedLiterals) → node ws id ≡ some w → IsWatched p id w.watched_literals

pub record IsReady (p : Problem) (l : ℕ) (st : SolverState) (chains : Literal → List ClauseId)
    : Type 0 where
  pub lists : Links.IsValid st.watches chains
  pub trail : Invariant.IsValid st.decision_tracker
  pub fits : IsLevel l
  pub below : last_level (level st.decision_tracker) st.decision_tracker.stack ≤ l
  pub watched : AllWatched p st.watches.watches

-- A longer clause watches another of its literals.
pub IsWatching-put :
    (w : Both Literal) (i : WatchIndex) (b : Literal) (clause : Clause) (ls : List Literal)
    → IsWatching w clause ls
    → is_binary clause ≡ false
    → Elem b ls
    → IsWatching (put w i b) clause ls
IsWatching-put w index_zero b clause ls h long m = record {
  zero_mem = m;
  one_mem = h.one_mem;
  binary = λ binary. cc;
}
IsWatching-put w index_one b clause ls h long m = record {
  zero_mem = h.zero_mem;
  one_mem = m;
  binary = λ binary. cc;
}

pub AllWatched-put :
    (p : Problem) (ws ws' : Watches) (id : ClauseId) (w : Both Literal)
    → ((x : ClauseId)
        → watched_of (node ws' x) ≡ (if id == x then some w else watched_of (node ws x)))
    → IsWatched p id w
    → AllWatched p ws
    → AllWatched p ws'
AllWatched-put p ws ws' id w same here all x v has = elim (Bool-cases (id == x)) [
  | inl mine ↦
      let e : id ≡ x = (==_iff id x).0 mine in
      let f : w ≡ v.watched_literals = ground (arith, same x) in
      subst (λ x. IsWatched p x v.watched_literals) e (subst (IsWatched p id) f here)
  | inr other ↦ elim (Option-cases (node ws x)) [
    | inl e ↦ absurd (ground (arith, same x))
    | inr (u, e) ↦
        let f : u.watched_literals ≡ v.watched_literals = ground (arith, same x) in
        subst (IsWatched p x) f (all x u e)
  ]
]
