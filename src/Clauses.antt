-- ===== src/Clauses.antt =====
-- `Clauses` and `add_clause` of src/solver/mod.rs: a clause gets the next id and begins to watch its
-- literals.
pub mod Add
use resolvo.Prelude.{
  Option, none, some, List, [], ◌∷◌, ◌++◌, Run, ok, ◌>>=◌, expect, length, get_elem?, set,
}
use resolvo.DecisionTracker.{ClauseId}
use resolvo.Clause.{Clause, WatchedLiterals}
use resolvo.WatchMap.{WatchMap, start_watching}

pub record Clauses : Type 0 where
  pub kinds : List Clause
  pub watched_literals : List (Option WatchedLiterals)

unfoldable pub alloc : Clauses → Option WatchedLiterals → Clause → ClauseId × Clauses
alloc cs watched_literals kind = (
  length cs.kinds,
  record {
    kinds = cs.kinds ++ kind ∷ [];
    watched_literals = cs.watched_literals ++ watched_literals ∷ [];
  },
)

-- The clause's watches as they are stored decide whether it begins to watch.
unfoldable pub watch_new :
    Option WatchedLiterals → ClauseId → WatchMap → Clauses → ClauseId × WatchMap × Clauses
watch_new none id m cs = (id, m, cs)
watch_new (some wl) id m cs =
    let r = start_watching m wl id in
    (id, r.0, record cs { watched_literals = set cs.watched_literals id (some r.1) })

unfoldable pub add_clause :
    WatchMap → Clauses → Option WatchedLiterals → Clause → Run (ClauseId × WatchMap × Clauses)
add_clause m cs watched_literals kind = do
  let r = alloc cs watched_literals kind
  stored ← expect (get_elem? r.1.watched_literals r.0)
  ok (watch_new stored r.0 m r.1)
