-- ===== src/Tests/Watches.antt =====
-- Two clauses that begin to watch, and a cursor that moves a watch of the newer one.
use resolvo.Prelude.{zero, suc, ◌≡◌, refl, none, some, List, [], ◌∷◌, arith, Returns}
use resolvo.DecisionTracker.{ClauseId}
use resolvo.Literal.{Literal}
use resolvo.Mapping
use resolvo.Mapping.{Mapping}
use resolvo.Mapping.Laws.{new-IsValid}
use resolvo.Clause.{index_zero, WatchedLiterals}
use resolvo.Clause.Build.{both}
use resolvo.WatchMap.{
  WatchState, WatchMapCursor, node, cursor, next, update, start_watching, start_watching_at,
}
use resolvo.WatchMap.Links.{IsValid, IsApart, next_of}
use resolvo.WatchMap.Start.{started, watched, start_watching-IsValid}
use resolvo.WatchMap.Walk.{Stands, IsAt, cursor-Stands, next-Stands}
use resolvo.WatchMap.Update.Moved.{Updates, update-Updates}

-- No clause; clause 0, the root's, will have no watches.
abbrev pub no_watches : WatchState
no_watches = record { watch_map = record { map = Mapping.new }; watches = none ∷ [] }

abbrev pub no_chains : Literal → List ClauseId
no_chains l = []

no_link : (l : Literal) (x : ClauseId) → next_of no_watches.watches l x ≡ none
unfolding next_of
no_link l zero = refl
no_link l (suc x) = refl

no_watch-IsApart : (x : ClauseId) → IsApart (node no_watches.watches x)
no_watch-IsApart zero = tt
no_watch-IsApart (suc x) = tt

pub no_watches-IsValid : IsValid no_watches no_chains
no_watches-IsValid =
    let (valid, empty) = new-IsValid no_watches.watch_map.map refl in
    record {
      mapped = valid;
      linked = λ l. empty l;
      unique = λ l. tt;
      complete = λ l x o h. let e = no_link l x in cc;
      apart = no_watch-IsApart;
    }

-- Clauses that watch 2 and 4, and 2 and 6.
abbrev pub older : WatchedLiterals
older = record { watched_literals = both 2 4; next_watches = both none none }

abbrev newer : WatchedLiterals
newer = record { watched_literals = both 2 6; next_watches = both none none }

abbrev one_clause : WatchState
one_clause = started no_watches older

abbrev one_chain : Literal → List ClauseId
one_chain = watched no_chains older.watched_literals 1

start_watching-IsValid_example : IsValid one_clause one_chain
start_watching-IsValid_example =
    start_watching-IsValid no_watches no_chains older no_watches-IsValid (omega arith)

one_clause-IsValid : IsValid one_clause one_chain
one_clause-IsValid =
    start_watching-IsValid no_watches no_chains older no_watches-IsValid (omega arith)

abbrev pub two_clauses : WatchState
two_clauses = started one_clause newer

abbrev pub two_chains : Literal → List ClauseId
two_chains = watched one_chain newer.watched_literals 2

pub two_clauses-IsValid : IsValid two_clauses two_chains
two_clauses-IsValid =
    start_watching-IsValid one_clause one_chain newer one_clause-IsValid (omega arith)

cursor-Stands_example : Returns (cursor two_clauses 2) (Stands two_clauses 2 [] (2 ∷ 1 ∷ []))
cursor-Stands_example = cursor-Stands two_clauses two_chains 2 two_clauses-IsValid

abbrev at_newer : WatchMapCursor
at_newer = record {
  literal = 2;
  previous = none;
  current = record { clause_id = 2; watch_index = index_zero };
}

newer-started :
    node two_clauses.watches 2
    ≡ some (record { watched_literals = both 2 6; next_watches = both (some 1) none })
unfolding start_watching start_watching_at Mapping.insert Mapping.get Mapping.new Mapping.fit
    Mapping.set_slot Mapping.slot Mapping.empty_chunk
newer-started = refl

at_newer-IsAt : IsAt two_clauses 2 [] 2 at_newer
at_newer-IsAt = record {
  literal = refl;
  previous = tt;
  current = record {
    clause = refl;
    watches = record { watched_literals = both 2 6; next_watches = both (some 1) none };
    has = newer-started;
    index = refl;
    watching = refl;
  };
}

next-Stands_example : Returns (next two_clauses at_newer) (Stands two_clauses 2 (2 ∷ []) (1 ∷ []))
next-Stands_example =
    next-Stands two_clauses two_chains 2 two_clauses-IsValid [] 2 (1 ∷ []) at_newer refl
      at_newer-IsAt

update-Updates_example :
    Returns
      (update two_clauses at_newer 8)
      (Updates two_clauses two_chains 2 8 [] 2 (1 ∷ []) (both 2 6) index_zero)
update-Updates_example =
    update-Updates two_clauses two_chains 2 8 [] 2 (1 ∷ []) at_newer
      (record { watched_literals = both 2 6; next_watches = both (some 1) none })
      two_clauses-IsValid refl at_newer-IsAt newer-started (omega arith) (omega arith)
