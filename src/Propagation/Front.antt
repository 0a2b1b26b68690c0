-- ===== src/Propagation/Front.antt =====
-- The nodes in front of a cursor of src/solver/watch_map.rs, and the index at which it stands.
use resolvo.Prelude.{◌≡◌, ap, ◌∙◌, subst, inl, inr, some, List, [], ◌∷◌, arith, Elem}
use resolvo.DecisionTracker.{ClauseId}
use resolvo.Literal.{Literal}
use resolvo.Clause.{WatchedLiterals, pick}
use resolvo.WatchMap.{WatchNode, Watches, node, index_of}
use resolvo.WatchMap.Chain.{Unique, Unique-middle}
use resolvo.WatchMap.Walk.{zip_up, zip_up-append, IsNode}

pub index_at :
    (ws : Watches) (l : Literal) (id : ClauseId) (n : WatchNode) (w : WatchedLiterals)
    → IsNode ws l n id
    → node ws id ≡ some w
    → (n.watch_index ≡ index_of w l) × (pick w.watched_literals (index_of w l) ≡ l)
index_at ws l id n w is has =
    let e : is.watches ≡ w = let f = is.has in ground arith in
    (
      is.index ∙ ap (λ w. index_of w l) e,
      subst (λ (w : WatchedLiterals). pick w.watched_literals (index_of w l) ≡ l) e is.watching,
    )

Elem-zip_up_rest : (x : ClauseId) (front xs : List ClauseId) → Elem x xs → Elem x (zip_up front xs)
Elem-zip_up_rest x [] xs m = m
Elem-zip_up_rest x (q ∷ r) xs m = Elem-zip_up_rest x r (q ∷ xs) (inr m)

Elem-zip_up : (x : ClauseId) (front xs : List ClauseId) → Elem x front → Elem x (zip_up front xs)
Elem-zip_up x [] xs m = elim m [ ]
Elem-zip_up x (q ∷ r) xs (inl e) = Elem-zip_up_rest x r (q ∷ xs) (inl e)
Elem-zip_up x (q ∷ r) xs (inr m) = Elem-zip_up x r (q ∷ xs) m

-- The cursor's clause is not among those in front of it.
pub not-Elem_front :
    (front : List ClauseId) (id : ClauseId) (post : List ClauseId)
    → Unique (zip_up front (id ∷ post))
    → ¬ Elem id front
not-Elem_front front id post once m =
    let (pre, e) = zip_up-append front in
    (Unique-middle pre id post (subst Unique (e (id ∷ post)) once)).0
      (subst (Elem id) (e post) (Elem-zip_up id front post m))
