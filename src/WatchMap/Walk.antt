-- ===== src/WatchMap/Walk.antt =====
-- A cursor of src/solver/watch_map.rs walks the list of its literal from the front to the end.
use resolvo.Prelude.{
  ◌≡◌, refl, sym, ap, ◌∙◌, Option, none, some, List, [], ◌∷◌, ◌++◌, ◌>>=◌, expect, Returns,
}
use mathlib.Core.List.{append_assoc}
use resolvo.DecisionTracker.{ClauseId}
use resolvo.Literal.{Literal}
use resolvo.Mapping
use resolvo.Clause.{pick, WatchedLiterals}
use resolvo.WatchMap.{
  Watches, WatchState, WatchNode, WatchMapCursor, node, index_of, cursor, next, next_node, follow,
  moved, node_clause,
}
use resolvo.WatchMap.Chain.{Chain, Chain-behind}
use resolvo.WatchMap.Links.{next_of, IsValid, next_of-node}

-- The nodes in front, the last one first, put back in front of a list.
abbrev pub zip_up : List ClauseId → List ClauseId → List ClauseId
zip_up [] xs = xs
zip_up (p ∷ r) xs = zip_up r (p ∷ xs)

-- A node of the list of a literal, at the index at which its clause watches the literal.
pub record IsNode (ws : Watches) (l : Literal) (n : WatchNode) (id : ClauseId) : Type 0 where
  pub clause : n.clause_id ≡ id
  pub watches : WatchedLiterals
  pub has : node ws id ≡ some watches
  pub index : n.watch_index ≡ index_of watches l
  pub watching : pick watches.watched_literals (index_of watches l) ≡ l

abbrev pub IsPrevious : Watches → Literal → Option WatchNode → List ClauseId → Type 0
IsPrevious ws l none [] = Unit
IsPrevious ws l (some n) (p ∷ r) = IsNode ws l n p
IsPrevious ws l _ _ = ⊥

-- The cursor stands at `id`, with the nodes `front` before it, the last one first.
pub record IsAt (s : WatchState) (l : Literal) (front : List ClauseId) (id : ClauseId)
    (c : WatchMapCursor) : Type 0 where
  pub literal : c.literal ≡ l
  pub previous : IsPrevious s.watches l c.previous front
  pub current : IsNode s.watches l c.current id

-- The cursor stands at the first of the nodes that are left, or there is none when none are.
abbrev pub Stands :
    WatchState → Literal → List ClauseId → List ClauseId → Option WatchMapCursor → Type 0
Stands s l front [] r = r ≡ none
Stands s l front (id ∷ _) r = (c : WatchMapCursor) × (r ≡ some c) × IsAt s l front id c

IsNode-of :
    (ws : Watches) (l : Literal) (id : ClauseId) (o : Option ClauseId)
    → next_of ws l id ≡ some o
    → (w : WatchedLiterals) × (node ws id ≡ some w)
      × IsNode ws l (record { clause_id = id; watch_index = index_of w l }) id
IsNode-of ws l id o e =
    let (w, has, at, _) = next_of-node ws l id o e in
    (w, has, record { clause = refl; watches = w; has = has; index = refl; watching = at })

module _ (s : WatchState) (chains : Literal → List ClauseId) (l : Literal)
    (valid : IsValid s chains) where
  cursor-first :
      (ids : List ClauseId)
      → Chain (next_of s.watches l) (Mapping.get s.watch_map.map l) ids
      → Returns (cursor s l) (Stands s l [] ids)
  unfolding cursor
  cursor-first [] h = (none, rw (h, cursor), refl)
  cursor-first (id ∷ ids) h =
      let (w, has, at) = IsNode-of s.watches l id h.1 h.2 in
      (
        some (record {
          literal = l;
          previous = none;
          current = record { clause_id = id; watch_index = index_of w l };
        }),
        rw (h.0, cursor, has),
        (_, refl, record { literal = refl; previous = tt; current = at }),
      )

  -- In a valid state a new cursor does not panic: it stands at the first clause that watches the literal, if there is one.
  pub cursor-Stands : Returns (cursor s l) (Stands s l [] (chains l))
  cursor-Stands = cursor-first (chains l) (valid.linked l)

pub zip_up-append :
    (front : List ClauseId)
    → (pre : List ClauseId) × ((xs : List ClauseId) → zip_up front xs ≡ pre ++ xs)
zip_up-append [] = ([], λ xs. refl)
zip_up-append (p ∷ r) =
    let (pre, e) = zip_up-append r in
    (pre ++ p ∷ [], λ xs. e (p ∷ xs) ∙ sym (append_assoc pre (p ∷ []) xs))

-- The node that a link leads to, by the list behind it.
abbrev pub IsNext : Watches → Literal → List ClauseId → Option WatchNode → Type 0
IsNext ws l [] n = n ≡ none
IsNext ws l (id ∷ _) n = (m : WatchNode) × (n ≡ some m) × IsNode ws l m id

module _ (s : WatchState) (chains : Literal → List ClauseId) (l : Literal)
    (valid : IsValid s chains) (front : List ClauseId) (id : ClauseId) (post : List ClauseId)
    (c : WatchMapCursor) (list : chains l ≡ zip_up front (id ∷ post))
    (at : IsAt s l front id c) where
  -- The link behind the current clause, and the list from there.
  pub behind :
      (o : Option ClauseId) × (next_of s.watches l id ≡ some o) × Chain (next_of s.watches l) o post
  behind =
      let (pre, e) = zip_up-append front in
      Chain-behind (next_of s.watches l) (Mapping.get s.watch_map.map l) pre id post
        (rw (list, e (id ∷ post)) at (valid.linked l))

  follow-IsNext :
      (o : Option ClauseId) (post : List ClauseId)
      → Chain (next_of s.watches l) o post
      → Returns (follow s l o) (λ n. IsNext s.watches l post n × (node_clause n ≡ o))
  unfolding follow
  follow-IsNext o [] h = (none, rw h, (refl, sym h))
  follow-IsNext o (id' ∷ rest) h =
      let (w, has, at') = IsNode-of s.watches l id' h.1 h.2 in
      (
        some (record { clause_id = id'; watch_index = index_of w l }),
        rw (h.0, follow, has),
        ((_, refl, at'), sym h.0),
      )

  next_node-follow :
      (w : WatchedLiterals) (o : Option ClauseId)
      → node s.watches id ≡ some w
      → pick w.next_watches (index_of w l) ≡ o
      → next_node s c ≡ follow s l o
  unfolding next_node
  next_node-follow w o has link_at =
      let here : node s.watches c.current.clause_id ≡ some w =
        ap (node s.watches) at.current.clause ∙ has in
      let same : at.current.watches ≡ w = cc (at.current.has) in
      let index : c.current.watch_index ≡ index_of w l =
        at.current.index ∙ ap (λ v. index_of v l) same in
      ap
        (λ (v : Option WatchedLiterals).
          expect v >>= λ u. follow s c.literal (pick u.next_watches c.current.watch_index))
        here
      ∙ ap (λ k. follow s k (pick w.next_watches c.current.watch_index)) at.literal
      ∙ ap (λ i. follow s l (pick w.next_watches i)) index
      ∙ ap (follow s l) link_at

  -- The node behind the current one.
  pub next_node-IsNext :
      Returns (next_node s c) (λ n. IsNext s.watches l post n × (node_clause n ≡ behind.0))
  next_node-IsNext =
      let (o, e, rest) = behind in
      let (n, run, is) = follow-IsNext o post rest in
      let (w, has, pick_at, link_at) = next_of-node s.watches l id o e in
      (n, next_node-follow w o has link_at ∙ run, is)

  moved-Stands :
      (rest : List ClauseId) (n : Option WatchNode)
      → IsNext s.watches l rest n
      → Stands s l (id ∷ front) rest (moved c n)
  moved-Stands [] n h = rw h
  moved-Stands (id' ∷ rest) n (m, e, is) = rw e (
    record c { previous = some c.current; current = m },
    refl,
    record { literal = at.literal; previous = at.current; current = is },
  )

  -- In a valid state a step of a cursor that stands at a clause of its list does not panic: it goes to the clause behind the current one in the list, or
  -- ends when there is none.
  pub next-Stands : Returns (next s c) (Stands s l (id ∷ front) post)
  unfolding next
  next-Stands = let (n, run, is) = next_node-IsNext in (moved c n, rw run, moved-Stands post n is.0)
