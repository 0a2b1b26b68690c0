-- ===== src/WatchMap/Update/Moved.antt =====
-- `update` of src/solver/watch_map.rs takes a clause out of one list and puts it in front of another.
use resolvo.Prelude.{
  ◌≡◌, ◌≢◌, refl, sym, ap, ◌∙◌, inl, inr, Option, none, some, List, [], ◌∷◌, arith, subst, ◌==◌,
  if◌then◌else◌, Returns, Option-cases, Elem, Elem-append_right,
}
use resolvo.DecisionTracker.{ClauseId}
use resolvo.Literal.{Literal}
use resolvo.Clause.{
  Both, WatchIndex, index_zero, index_one, pick, put, other_index, WatchedLiterals,
}
use resolvo.WatchMap.{WatchState, WatchNode, WatchMapCursor, node, update, replaced, node_clause}
use resolvo.WatchMap.Links.{next_of, IsApart, IsValid, next_of_at}
use resolvo.WatchMap.Walk.{
  zip_up, zip_up-append, IsNode, IsPrevious, IsAt, IsNext, Stands, behind, next_node-IsNext,
}
use resolvo.WatchMap.Update.Unlink.{watched_of, unlink-Unlinked}
use resolvo.WatchMap.Update.Relink.{Relinked, relink-Relinked}
use resolvo.WatchMap.Update.Lists.{moved_chains, moved-IsValid, moved-IsNode, before_mem}

-- What an update of the watch of `id` from `l` to `b` leaves: the lists, where the cursor stands,
-- and the literals that each clause watches.
pub record Updates (s : WatchState) (chains : Literal → List ClauseId) (l b : Literal)
    (front : List ClauseId) (id : ClauseId) (post : List ClauseId) (w : Both Literal)
    (i : WatchIndex) (r : Option WatchMapCursor × WatchState) : Type 0 where
  pub valid : IsValid r.1 (moved_chains chains l b id (zip_up front post))
  pub stands : Stands r.1 l front post r.0
  pub watched :
      (x : ClauseId)
      → watched_of (node r.1.watches x)
        ≡ (if id == x then some (put w i b) else watched_of (node s.watches x))

front_mem :
    (front post : List ClauseId) (p : ClauseId) (r : List ClauseId)
    → front ≡ p ∷ r
    → Elem p (zip_up front post)
front_mem front post p r e = rw e (before_mem (p ∷ r) post p (ground arith))

post_mem : (front rest : List ClauseId) (x : ClauseId) → Elem x (zip_up front (x ∷ rest))
post_mem front rest x =
    let (pre, e) = zip_up-append front in
    subst (Elem x) (sym (e (x ∷ rest))) (Elem-append_right x pre (x ∷ rest) (inl refl))

replaced-Stands :
    (s s₂ : WatchState) (l : Literal) (front : List ClauseId) (id : ClauseId) (post : List ClauseId)
    (c : WatchMapCursor) (n : Option WatchNode)
    → IsAt s l front id c
    → ((m : WatchNode) (x : ClauseId)
        → Elem x (zip_up front post)
        → IsNode s.watches l m x
        → IsNode s₂.watches l m x)
    → IsNext s.watches l post n
    → Stands s₂ l front post (replaced c n)
replaced-Stands s s₂ l front id [] c n at keep is = rw is
replaced-Stands s s₂ l front id (x ∷ rest) c n at keep (m, e, is) = rw e (
  record c { current = m },
  refl,
  record {
    literal = at.literal;
    previous =
        previous_kept front c.previous (λ p r f. front_mem front (x ∷ rest) p r f) at.previous;
    current = keep m x (post_mem front rest x) is;
  },
)
  where
    previous_kept :
        (front' : List ClauseId) (o : Option WatchNode)
        → ((p : ClauseId) (r : List ClauseId) → front' ≡ p ∷ r → Elem p (zip_up front (x ∷ rest)))
        → IsPrevious s.watches l o front'
        → IsPrevious s₂.watches l o front'
    previous_kept [] none mem h = h
    previous_kept (p ∷ r) (some m) mem h = keep m p (mem p r refl) h
    previous_kept [] (some m) mem h = h
    previous_kept (p ∷ r) none mem h = h

unwatched_at :
    (s : WatchState) (l b : Literal) (id : ClauseId) (i : WatchIndex) (w : WatchedLiterals)
    → node s.watches id ≡ some w
    → pick w.watched_literals i ≡ l
    → b ≢ l
    → b ≢ pick w.watched_literals (other_index i)
    → next_of s.watches b id ≡ none
unwatched_at s l b id index_zero w has at ne ne' = next_of_at s.watches b id w has ∙ ground arith
unwatched_at s l b id index_one w has at ne ne' = next_of_at s.watches b id w has ∙ ground arith

IsApart-of :
    (w : WatchedLiterals)
    → IsApart (some w)
    → w.watched_literals.at_zero ≢ w.watched_literals.at_one
IsApart-of w h = h

watching_at :
    (s : WatchState) (l : Literal) (id : ClauseId) (n : WatchNode) (w : WatchedLiterals)
    → IsNode s.watches l n id
    → node s.watches id ≡ some w
    → pick w.watched_literals n.watch_index ≡ l
watching_at s l id n w is has =
    let e : is.watches ≡ w = let f = is.has in ground arith in
    subst (λ (w : WatchedLiterals). pick w.watched_literals n.watch_index ≡ l) e
      (subst (λ i. pick is.watches.watched_literals i ≡ l) (sym is.index) is.watching)

kept_watches :
    (s s₁ : WatchState) (id : ClauseId) (w : WatchedLiterals)
    → node s.watches id ≡ some w
    → watched_of (node s₁.watches id) ≡ watched_of (node s.watches id)
    → (w₁ : WatchedLiterals) × (node s₁.watches id ≡ some w₁)
      × (w₁.watched_literals ≡ w.watched_literals)
kept_watches s s₁ id w has same = elim (Option-cases (node s₁.watches id)) [
  | inl e ↦ absurd (ground arith)
  | inr (w₁, e) ↦ (w₁, e, ground arith)
]

-- In a valid state a cursor on a list moves the watch of its clause to a literal that the clause does not watch yet.
-- That does not panic; the clause leaves the list of the old literal, where the cursor then stands at
-- the clause behind it, and comes to the front of the list of the new one. All other lists stay.
pub update-Updates :
    (s : WatchState) (chains : Literal → List ClauseId) (l b : Literal) (front : List ClauseId)
    (id : ClauseId) (post : List ClauseId) (c : WatchMapCursor) (w : WatchedLiterals)
    → IsValid s chains
    → chains l ≡ zip_up front (id ∷ post)
    → IsAt s l front id c
    → node s.watches id ≡ some w
    → b ≢ l
    → b ≢ pick w.watched_literals (other_index c.current.watch_index)
    → Returns
        (update s c b)
        (Updates s chains l b front id post w.watched_literals c.current.watch_index)
unfolding update
update-Updates s chains l b front id post c w valid list at has ne ne' =
    let (n, run, (is, link_eq)) = next_node-IsNext s chains l valid front id post c list at in
    let (o, out, _) = behind s chains l valid front id post c list at in
    let (s₁, run₁, u) = unlink-Unlinked s chains l front id c (node_clause n) valid at in
    let watching : pick w.watched_literals c.current.watch_index ≡ l =
      watching_at s l id c.current w at.current has in
    let (w₁, has₁, same) = kept_watches s s₁ id w has (u.same_watched id) in
    let apart = IsApart-of w (subst IsApart has (valid.apart id)) in
    let (s₂, run₂, r) =
      relink-Relinked s₁ c l b id w₁ u.mapped has₁ at.current.clause
        (subst (λ p. pick p c.current.watch_index ≡ l) (sym same) watching)
        (subst (λ (p : Both Literal). p.at_zero ≢ p.at_one) (sym same) apart) ne
        (subst (λ p. b ≢ pick p (other_index c.current.watch_index)) (sym same) ne') in
    let r' : Relinked s₁ l b id w.watched_literals c.current.watch_index s₂ =
      subst (λ p. Relinked s₁ l b id p c.current.watch_index s₂) same r in
    let out' : next_of s.watches l id ≡ some (node_clause n) = out ∙ ap some (sym link_eq) in
    let free = unwatched_at s l b id c.current.watch_index w has watching ne ne' in
    let valid' =
      moved-IsValid s chains l b front id post (node_clause n) c.current.watch_index
        w.watched_literals s₁ s₂ valid list out' ne free u r' in
    let keep =
      moved-IsNode s chains l b front id post (node_clause n) c.current.watch_index
        w.watched_literals s₁ s₂ valid list out' ne free u r' in
    (
      (replaced c n, s₂),
      rw (run, run₁, run₂),
      record {
        valid = valid';
        stands = replaced-Stands s s₂ l front id post c n at keep is;
        watched = λ x. ground (arith, r'.new_watched x, u.same_watched x);
      },
    )
