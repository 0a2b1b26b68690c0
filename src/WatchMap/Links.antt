-- ===== src/WatchMap/Links.antt =====
-- The links of the lists of src/solver/watch_map.rs, and the invariant that ties them to plain lists.
use resolvo.Prelude.{
  ℕ, zero, suc, ◌≡◌, ◌≢◌, ap, inl, inr, Option, none, some, List, [], ◌∷◌, arith, Elem, ◌==◌,
  if◌then◌else◌, get_elem?, set, Option-cases,
}
use resolvo.DecisionTracker.{ClauseId}
use resolvo.Literal.{Literal}
use resolvo.Mapping
use resolvo.Mapping.Laws
use resolvo.Clause.{pick, WatchedLiterals}
use resolvo.WatchMap.{Watches, WatchState, node, index_of}
use resolvo.WatchMap.Chain.{Link, Chain, Unique}

-- The link of a clause in the list of a literal, if it watches it.
abbrev pub link : WatchedLiterals → Literal → Option (Option ClauseId)
link w l =
    if w.watched_literals.at_zero == l
    then some w.next_watches.at_zero
    else if w.watched_literals.at_one == l
    then some w.next_watches.at_one
    else none

abbrev pub link? : Option WatchedLiterals → Literal → Option (Option ClauseId)
link? none l = none
link? (some w) l = link w l

unfoldable pub next_of : Watches → Literal → Link
next_of ws l id = link? (node ws id) l

abbrev pub IsApart : Option WatchedLiterals → Type 0
IsApart none = Unit
IsApart (some w) = w.watched_literals.at_zero ≢ w.watched_literals.at_one

-- The list of each literal holds the clauses that watch it, each once, and no clause watches one
-- literal twice.
pub record IsValid (s : WatchState) (chains : Literal → List ClauseId) : Type 0 where
  pub mapped : Laws.IsValid s.watch_map.map
  pub linked :
      (l : Literal) → Chain (next_of s.watches l) (Mapping.get s.watch_map.map l) (chains l)
  pub unique : (l : Literal) → Unique (chains l)
  pub complete :
      (l : Literal) (x : ClauseId) (o : Option ClauseId)
      → next_of s.watches l x ≡ some o
      → Elem x (chains l)
  pub apart : (x : ClauseId) → IsApart (node s.watches x)

-- A clause with a link has watches, and their index for the literal is the one that the code takes.
pub next_of-node :
    (ws : Watches) (l : Literal) (x : ClauseId) (o : Option ClauseId)
    → next_of ws l x ≡ some o
    → (w : WatchedLiterals) × (node ws x ≡ some w)
      × (pick w.watched_literals (index_of w l) ≡ l)
      × (pick w.next_watches (index_of w l) ≡ o)
unfolding next_of
next_of-node ws l x o h = elim (Option-cases (node ws x)) [
  | inl e ↦ let f = rw e at h in cc
  | inr (w, e) ↦ let f = rw e at h in (w, e, ground arith, ground arith)
]

get_elem?-set :
    (ws : Watches) (i j : ℕ) (v old : Option WatchedLiterals)
    → get_elem? ws i ≡ some old
    → get_elem? (set ws i v) j ≡ (if i == j then some v else get_elem? ws j)
get_elem?-set [] i j v old h = cc
get_elem?-set (x ∷ xs) zero zero v old h = ground arith
get_elem?-set (x ∷ xs) zero (suc j) v old h = ground arith
get_elem?-set (x ∷ xs) (suc i) zero v old h = ground arith
get_elem?-set (x ∷ xs) (suc i) (suc j) v old h = ground (arith, get_elem?-set xs i j v old h)

pub node-set :
    (ws : Watches) (i j : ClauseId) (w old : WatchedLiterals)
    → node ws i ≡ some old
    → node (set ws i (some w)) j ≡ (if i == j then some w else node ws j)
node-set ws i j w old h = elim (Option-cases (get_elem? ws i)) [
  | inl e ↦ let f = rw e at h in cc
  | inr (o, e) ↦ ground (arith, get_elem?-set ws i j (some w) o e)
]

pub next_of-set :
    (ws : Watches) (i j : ClauseId) (w old : WatchedLiterals) (l : Literal)
    → node ws i ≡ some old
    → next_of (set ws i (some w)) l j ≡ (if i == j then link w l else next_of ws l j)
unfolding next_of
next_of-set ws i j w old l h = ground (arith, node-set ws i j w old h)

pub next_of_at :
    (ws : Watches) (k : Literal) (p : ClauseId) (w : WatchedLiterals)
    → node ws p ≡ some w
    → next_of ws k p ≡ link w k
unfolding next_of
next_of_at ws k p w has = ap (λ o. link? o k) has
