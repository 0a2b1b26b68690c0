-- ===== src/WatchMap/Update/Unlink.antt =====
-- The first half of `update` of src/solver/watch_map.rs: the current clause leaves the list.
use resolvo.Prelude.{
  ◌≡◌, ◌≢◌, refl, ap, ◌∙◌, Bool, true, false, Option, none, some, List, [], ◌∷◌, arith, ◌==◌, ◌&&◌,
  if◌then◌else◌, ok, Returns, set, ==_iff,
}
use resolvo.DecisionTracker.{ClauseId}
use resolvo.Literal.{Literal}
use resolvo.Mapping
use resolvo.Mapping.Laws
use resolvo.Mapping.Laws.{insert-Updated, unset-Updated}
use resolvo.Clause.{Both, WatchIndex, index_zero, index_one, pick, put, WatchedLiterals}
use resolvo.WatchMap.{
  Watches, WatchState, WatchNode, WatchMapCursor, node, index_of, set_head, unlink,
}
use resolvo.WatchMap.Links.{link, next_of, IsApart, IsValid, next_of-set, next_of_at, node-set}
use resolvo.WatchMap.Walk.{IsNode, IsPrevious, IsAt}

-- A link written at the index of a literal.
link-put :
    (w : WatchedLiterals) (i : WatchIndex) (l k : Literal) (o : Option ClauseId)
    → pick w.watched_literals i ≡ l
    → w.watched_literals.at_zero ≢ w.watched_literals.at_one
    → link (record w { next_watches = put w.next_watches i o }) k
      ≡ (if l == k then some o else link w k)
link-put w index_zero l k o at apart = ground arith
link-put w index_one l k o at apart = ground arith

-- Whether a node is the last one in front of the cursor.
abbrev pub is_before : List ClauseId → ClauseId → Bool
is_before [] x = false
is_before (p ∷ _) x = p == x

abbrev pub is_front : List ClauseId → Bool
is_front [] = true
is_front (_ ∷ _) = false

abbrev pub watched_of : Option WatchedLiterals → Option (Both Literal)
watched_of none = none
watched_of (some w) = some w.watched_literals

-- The state in which the list of `l` goes on with `o` where the cursor's clause was.
pub record Unlinked (s : WatchState) (l : Literal) (front : List ClauseId) (o : Option ClauseId)
    (s₁ : WatchState) : Type 0 where
  pub mapped : Laws.IsValid s₁.watch_map.map
  pub heads :
      (k : Literal)
      → Mapping.get s₁.watch_map.map k
        ≡ (if (l == k) && is_front front then o else Mapping.get s.watch_map.map k)
  pub links :
      (k : Literal) (x : ClauseId)
      → next_of s₁.watches k x
        ≡ (if (l == k) && is_before front x then some o else next_of s.watches k x)
  pub same_watched : (x : ClauseId) → watched_of (node s₁.watches x) ≡ watched_of (node s.watches x)

module _ (s : WatchState) (l : Literal) (o : Option ClauseId)
    (mapped : Laws.IsValid s.watch_map.map) where
  Unlinked-head : Unlinked s l [] o (record s { watch_map = set_head s.watch_map l o })
  Unlinked-head = go o
    where
      go :
          (o : Option ClauseId)
          → Unlinked s l [] o (record s { watch_map = set_head s.watch_map l o })
      go none =
          let u = unset-Updated s.watch_map.map l mapped in
          record {
            mapped = u.1.valid;
            heads = λ k. ground (arith, u.1.values k);
            links = λ k x. ground arith;
            same_watched = λ x. refl;
          }
      go (some id) =
          let u = insert-Updated s.watch_map.map l id mapped in
          record {
            mapped = u.1.valid;
            heads = λ k. ground (arith, u.1.values k);
            links = λ k x. ground arith;
            same_watched = λ x. refl;
          }

  Unlinked-link :
      (p : ClauseId) (r : List ClauseId) (w : WatchedLiterals)
      → node s.watches p ≡ some w
      → pick w.watched_literals (index_of w l) ≡ l
      → w.watched_literals.at_zero ≢ w.watched_literals.at_one
      → Unlinked s l (p ∷ r) o (record s {
        watches =
            set s.watches p
              (some (record w { next_watches = put w.next_watches (index_of w l) o }));
      })
  Unlinked-link p r w has at apart =
      let w' : WatchedLiterals = record w { next_watches = put w.next_watches (index_of w l) o } in
      record {
        mapped = mapped;
        heads = λ k. ground arith;
        links = λ k x.
            next_of-set s.watches p x w' w k has
            ∙ ground (
              arith,
              link-put w (index_of w l) l k o at apart,
              next_of_at s.watches k x w,
              (==_iff p x).0,
            );
        same_watched = λ x. ground (arith, node-set s.watches p x w' w has, (==_iff p x).0);
      }

module _ (s : WatchState) (c : WatchMapCursor) (l : Literal) (o : Option ClauseId) where
  unlink_first :
      c.previous ≡ none
      → c.literal ≡ l
      → unlink s c o ≡ ok (record s { watch_map = set_head s.watch_map l o })
  unfolding unlink
  unlink_first e at =
      rw (e, unlink) (ap (λ k. ok (record s { watch_map = set_head s.watch_map k o })) at)

  unlink_later :
      (n : WatchNode) (p : ClauseId) (is : IsNode s.watches l n p)
      → c.previous ≡ some n
      → unlink s c o
        ≡ ok (record s {
          watches = set s.watches p (
              some (record is.watches {
                next_watches = put is.watches.next_watches (index_of is.watches l) o;
              }));
        })
  unfolding unlink
  unlink_later n p is e =
      let here : node s.watches n.clause_id ≡ some is.watches =
        ap (node s.watches) is.clause ∙ is.has in
      let f = λ (x : ClauseId) (i : WatchIndex). ok (record s {
        watches =
            set s.watches x
              (some (record is.watches { next_watches = put is.watches.next_watches i o }));
      }) in
      rw (e, unlink, here) (ap (λ x. f x n.watch_index) is.clause ∙ ap (f p) is.index)

pub IsApart-at :
    (ws : Watches) (x : ClauseId) (w : WatchedLiterals)
    → node ws x ≡ some w
    → IsApart (node ws x)
    → w.watched_literals.at_zero ≢ w.watched_literals.at_one
IsApart-at ws x w has h = rw has at h

-- The current clause leaves the list of the literal: what was before it, a clause or the head, now
-- leads to what was behind it, and no other list changes.
pub unlink-Unlinked :
    (s : WatchState) (chains : Literal → List ClauseId) (l : Literal) (front : List ClauseId)
    (id : ClauseId) (c : WatchMapCursor) (o : Option ClauseId)
    → IsValid s chains
    → IsAt s l front id c
    → Returns (unlink s c o) (Unlinked s l front o)
unlink-Unlinked s chains l front id c o valid at = go front c.previous refl at.previous
  where
    go :
        (front : List ClauseId) (q : Option WatchNode)
        → c.previous ≡ q
        → IsPrevious s.watches l q front
        → Returns (unlink s c o) (Unlinked s l front o)
    go [] none e h = (_, unlink_first s c l o e at.literal, Unlinked-head s l o valid.mapped)
    go (p ∷ r) (some n) e h = (
      _,
      unlink_later s c l o n p h e,
      Unlinked-link s l o valid.mapped p r h.watches h.has h.watching
          (IsApart-at s.watches p h.watches h.has (valid.apart p)),
    )
    go [] (some n) e h = elim h [ ]
    go (p ∷ r) none e h = elim h [ ]
