-- ===== src/WatchMap/Update/Relink.antt =====
-- The second half of `update` of src/solver/watch_map.rs: the current clause enters another list.
use resolvo.Prelude.{
  ◌≡◌, ◌≢◌, sym, ap, ◌∙◌, inl, inr, Option, none, some, arith, ◌==◌, if◌then◌else◌, ok, Returns,
  Bool-cases, set, ==_iff,
}
use resolvo.DecisionTracker.{ClauseId}
use resolvo.Literal.{Literal}
use resolvo.Mapping
use resolvo.Mapping.Laws
use resolvo.Mapping.Laws.{insert-Updated}
use resolvo.Clause.{
  Both, WatchIndex, index_zero, index_one, pick, put, other_index, WatchedLiterals,
}
use resolvo.WatchMap.{WatchState, WatchMapCursor, node, relink}
use resolvo.WatchMap.Links.{link, next_of, IsApart, next_of-set, next_of_at, node-set}
use resolvo.WatchMap.Update.Unlink.{watched_of}

-- A watch moved from `l` to `b`, with its link.
link-put_both :
    (w : WatchedLiterals) (i : WatchIndex) (l b k : Literal) (h : Option ClauseId)
    → pick w.watched_literals i ≡ l
    → w.watched_literals.at_zero ≢ w.watched_literals.at_one
    → b ≢ l
    → b ≢ pick w.watched_literals (other_index i)
    → link
        (record w {
          watched_literals = put w.watched_literals i b;
          next_watches = put w.next_watches i h;
        })
        k
      ≡ (if b == k then some h else if l == k then none else link w k)
link-put_both w index_zero l b k h at apart ne ne' = ground arith
link-put_both w index_one l b k h at apart ne ne' = ground arith

apart-put :
    (w : Both Literal) (i : WatchIndex) (b : Literal)
    → b ≢ pick w (other_index i)
    → (put w i b).at_zero ≢ (put w i b).at_one
apart-put w index_zero b ne = ne
apart-put w index_one b ne = λ e. ne (sym e)

-- The state in which the clause `id` has moved its watch at `i` from `l` to `b`.
pub record Relinked (s : WatchState) (l b : Literal) (id : ClauseId) (w : Both Literal)
    (i : WatchIndex) (s' : WatchState) : Type 0 where
  pub mapped : Laws.IsValid s'.watch_map.map
  pub heads :
      (k : Literal)
      → Mapping.get s'.watch_map.map k ≡ (if b == k then some id else Mapping.get s.watch_map.map k)
  pub links :
      (k : Literal) (x : ClauseId)
      → next_of s'.watches k x ≡ (
          if id == x
          then if b == k
            then some (Mapping.get s.watch_map.map b)
            else if l == k
            then none
            else next_of s.watches k x
          else next_of s.watches k x)
  pub new_watched :
      (x : ClauseId)
      → watched_of (node s'.watches x)
        ≡ (if id == x then some (put w i b) else watched_of (node s.watches x))
  pub apart : (x : ClauseId) → IsApart (node s.watches x) → IsApart (node s'.watches x)

module _ (s : WatchState) (c : WatchMapCursor) (l b : Literal) (id : ClauseId) (w : WatchedLiterals)
    (mapped : Laws.IsValid s.watch_map.map) (has : node s.watches id ≡ some w) where
  abbrev relinked : WatchState
  relinked = record {
    watch_map = record { map = (Mapping.insert s.watch_map.map b id).1 };
    watches = set s.watches id (
        some (record w {
          watched_literals = put w.watched_literals c.current.watch_index b;
          next_watches =
              put w.next_watches c.current.watch_index (Mapping.insert s.watch_map.map b id).0;
        }));
  }

  relink-ok : c.current.clause_id ≡ id → relink s c b ≡ ok relinked
  unfolding relink
  relink-ok at =
      ap
        (λ (x : ClauseId).
          relink s
            (record c { current = record { clause_id = x; watch_index = c.current.watch_index } })
            b)
        at
      ∙ rw (has, relink)

  -- The current clause becomes the head of the list of the new literal, its watch moves there, and
  -- no other link changes.
  pub relink-Relinked :
      c.current.clause_id ≡ id
      → pick w.watched_literals c.current.watch_index ≡ l
      → w.watched_literals.at_zero ≢ w.watched_literals.at_one
      → b ≢ l
      → b ≢ pick w.watched_literals (other_index c.current.watch_index)
      → Returns (relink s c b) (Relinked s l b id w.watched_literals c.current.watch_index)
  relink-Relinked at watching apart ne ne' =
      let u = insert-Updated s.watch_map.map b id mapped in
      let i = c.current.watch_index in
      let w' : WatchedLiterals = record w {
        watched_literals = put w.watched_literals i b;
        next_watches = put w.next_watches i (Mapping.insert s.watch_map.map b id).0;
      } in
      (
        relinked,
        relink-ok at,
        record {
          mapped = u.1.valid;
          heads = u.1.values;
          links = λ k x.
              next_of-set s.watches id x w' w k has
              ∙ ground (
                arith,
                link-put_both w i l b k (Mapping.insert s.watch_map.map b id).0 watching apart ne
                    ne',
                next_of_at s.watches k x w,
                (==_iff id x).0,
                u.0,
              );
          new_watched = λ x. ground (arith, node-set s.watches id x w' w has);
          apart = λ x h. elim (Bool-cases (id == x)) [
            | inl same ↦
                rw (node-set s.watches id x w' w has, same) (apart-put w.watched_literals i b ne')
            | inr other ↦ rw (node-set s.watches id x w' w has, other) h
          ];
        },
      )
