-- ===== src/Tests/Adding.antt =====
-- A learnt clause is added behind the root's.
use resolvo.Prelude.{refl, some, none, [], ◌∷◌, arith, Returns}
use resolvo.Clause.{install_root, learnt}
use resolvo.Clauses.{Clauses, add_clause}
use resolvo.Clauses.Add.{Added, add_clause-Added}
use resolvo.Tests.Watches.{no_watches, no_chains, no_watches-IsValid, older}

abbrev root_clause : Clauses
root_clause = record { kinds = install_root ∷ []; watched_literals = none ∷ [] }

add_clause-Added_example :
    Returns
      (add_clause no_watches.watch_map root_clause (some older) (learnt 0))
      (Added no_watches.watch_map root_clause no_chains (some older) (learnt 0))
add_clause-Added_example =
    add_clause-Added no_watches.watch_map root_clause no_chains (learnt 0) refl no_watches-IsValid
      (some older) (omega arith)
