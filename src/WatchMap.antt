-- ===== src/WatchMap.antt =====
-- src/solver/watch_map.rs: for each literal the linked list of the clauses that watch it. A list's
-- head is in a map, its links are in the clauses' `next_watches`. The children prove that the
-- operations act on these lists as on plain lists.
pub mod Chain
pub mod Links
pub mod Start
pub mod Walk
pub mod Update
use resolvo.Prelude.{
  ℕ, Bool, true, false, Option, none, some, List, Run, ok, panic, ◌>>=◌, expect, ◌==◌,
  if◌then◌else◌, get_elem?, set,
}
use resolvo.DecisionTracker.{ClauseId}
use resolvo.Literal.{Literal}
use resolvo.Mapping
use resolvo.Mapping.{Mapping}
use resolvo.Clause.{Both, WatchIndex, index_zero, index_one, pick, put, WatchedLiterals}

pub record WatchMap : Type 0 where
  pub map : Mapping ClauseId

abbrev pub Watches : Type 0
Watches = List (Option WatchedLiterals)

-- The map with the clauses' watches, which a cursor borrows together.
pub record WatchState : Type 0 where
  pub watch_map : WatchMap
  pub watches : Watches

-- One round of the loop in `start_watching`.
unfoldable pub start_watching_at :
    WatchMap → WatchedLiterals → WatchIndex → ClauseId → WatchMap × WatchedLiterals
start_watching_at m clause watch_index clause_id =
    let watched_literal = pick clause.watched_literals watch_index in
    let current_head = Mapping.get m.map watched_literal in
    (
      record m { map = (Mapping.insert m.map watched_literal clause_id).1 },
      record clause { next_watches = put clause.next_watches watch_index current_head },
    )

unfoldable pub start_watching : WatchMap → WatchedLiterals → ClauseId → WatchMap × WatchedLiterals
start_watching m clause clause_id =
    let r = start_watching_at m clause index_zero clause_id in
    start_watching_at r.0 r.1 index_one clause_id

pub record WatchNode : Type 0 where
  pub clause_id : ClauseId
  pub watch_index : WatchIndex

pub record WatchMapCursor : Type 0 where
  pub literal : Literal
  pub previous : Option WatchNode
  pub current : WatchNode

-- The watches of a clause, if it has any.
abbrev pub flat {ℓ} : {A : Type ℓ} → Option (Option A) → Option A
flat none = none
flat (some o) = o

abbrev pub node : Watches → ClauseId → Option WatchedLiterals
node ws id = flat (get_elem? ws id)

-- The index at which a clause watches a literal; 1 is asserted in debug builds only.
abbrev pub index_in : Both Literal → Literal → WatchIndex
index_in watched literal = if watched.at_zero == literal then index_zero else index_one

abbrev pub index_of : WatchedLiterals → Literal → WatchIndex
index_of w literal = index_in w.watched_literals literal

unfoldable pub cursor : WatchState → Literal → Run (Option WatchMapCursor)
cursor s literal = elim (Mapping.get s.watch_map.map literal) [
  | none ↦ ok none
  | some clause_id ↦ do
    watched_literal ← expect (node s.watches clause_id)
    ok (
        some (record {
          literal = literal;
          previous = none;
          current = record {
            clause_id = clause_id;
            watch_index = index_of watched_literal literal;
          };
        }))
]

-- The clause of the cursor; one that watches nothing is undefined behaviour, a panic here.
unfoldable pub watched_literals : WatchState → WatchMapCursor → Run WatchedLiterals
watched_literals s c = expect (node s.watches c.current.clause_id)

-- The node behind a link.
unfoldable pub follow : WatchState → Literal → Option ClauseId → Run (Option WatchNode)
follow s literal none = ok none
follow s literal (some next_clause_id) = do
  next_watch ← expect (node s.watches next_clause_id)
  ok (some (record { clause_id = next_clause_id; watch_index = index_of next_watch literal }))

unfoldable pub next_node : WatchState → WatchMapCursor → Run (Option WatchNode)
unfolding watched_literals
next_node s c = do
  current_watch ← watched_literals s c
  follow s c.literal (pick current_watch.next_watches c.current.watch_index)

-- The cursor moved to a node, if there is one.
abbrev pub moved : WatchMapCursor → Option WatchNode → Option WatchMapCursor
moved c none = none
moved c (some n) = some (record c { previous = some c.current; current = n })

unfoldable pub next : WatchState → WatchMapCursor → Run (Option WatchMapCursor)
next s c = do n ← next_node s c; ok (moved c n)

abbrev pub node_clause : Option WatchNode → Option ClauseId
node_clause none = none
node_clause (some n) = some n.clause_id

-- The list of a literal starts at a clause, or is empty.
abbrev pub set_head : WatchMap → Literal → Option ClauseId → WatchMap
set_head m literal none = record m { map = (Mapping.unset m.map literal).1 }
set_head m literal (some id) = record m { map = (Mapping.insert m.map literal id).1 }

-- The current clause leaves the list: the link to it, or the head, goes to the next one.
unfoldable pub unlink : WatchState → WatchMapCursor → Option ClauseId → Run WatchState
unlink s c next_clause = elim c.previous [
  | none ↦ ok (record s { watch_map = set_head s.watch_map c.literal next_clause })
  | some previous ↦ do
    w ← expect (node s.watches previous.clause_id)
    let w' = record w { next_watches = put w.next_watches previous.watch_index next_clause }
    ok (record s { watches = set s.watches previous.clause_id (some w') })
]

-- The current clause becomes the head of the list of the new literal.
unfoldable pub relink : WatchState → WatchMapCursor → Literal → Run WatchState
relink s c new_watch = do
  w ← expect (node s.watches c.current.clause_id)
  let r = Mapping.insert s.watch_map.map new_watch c.current.clause_id
  let w' = record w {
    watched_literals = put w.watched_literals c.current.watch_index new_watch;
    next_watches = put w.next_watches c.current.watch_index r.0;
  }
  ok (record {
    watch_map = record { map = r.1 };
    watches = set s.watches c.current.clause_id (some w');
  })

-- The cursor where it stands after the update: its previous node stays.
abbrev pub replaced : WatchMapCursor → Option WatchNode → Option WatchMapCursor
replaced c none = none
replaced c (some n) = some (record c { current = n })

unfoldable pub update :
    WatchState → WatchMapCursor → Literal → Run (Option WatchMapCursor × WatchState)
update s c new_watch = do
  n ← next_node s c
  s₁ ← unlink s c (node_clause n)
  s₂ ← relink s₁ c new_watch
  ok (replaced c n, s₂)
