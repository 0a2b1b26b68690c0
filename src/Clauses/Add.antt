-- ===== src/Clauses/Add.antt =====
-- `add_clause` of src/solver/mod.rs keeps the lists of the watch map.
use resolvo.Prelude.{
  zero, suc, ◌≡◌, refl, sym, ap, ◌∙◌, subst, Option, none, some, List, [], ◌∷◌, ◌++◌, arith, ok,
  ◌>>=◌, expect, Returns, length, length-append, length-set, get_elem?, get_elem?-last, set,
}
use resolvo.DecisionTracker.{ClauseId}
use resolvo.Literal.{Literal}
use resolvo.Mapping
use resolvo.Clause.{Clause, WatchedLiterals}
use resolvo.WatchMap.{WatchMap, WatchState, Watches, node, start_watching}
use resolvo.WatchMap.Chain.{Chain-frame}
use resolvo.WatchMap.Links.{IsValid, IsApart, next_of}
use resolvo.WatchMap.Start.{watched, start_watching-IsValid}
use resolvo.Clauses.{Clauses, alloc, watch_new, add_clause}

-- The watches and the map that borrows them.
abbrev pub watch_state : WatchMap → Clauses → WatchState
watch_state m cs = record { watch_map = m; watches = cs.watched_literals }

-- The lists once a clause with these watches is added.
abbrev pub chains_with :
    (Literal → List ClauseId) → Option WatchedLiterals → ClauseId → Literal → List ClauseId
chains_with chains none id = chains
chains_with chains (some w) id = watched chains w.watched_literals id

set_last : {A : Type 0} (xs : List A) (a b : A) → set (xs ++ a ∷ []) (length xs) b ≡ xs ++ b ∷ []
set_last [] a b = refl
set_last (x ∷ xs) a b = ap (λ ys. x ∷ ys) (set_last xs a b)

node-append_none : (ws : Watches) (x : ClauseId) → node (ws ++ none ∷ []) x ≡ node ws x
node-append_none [] zero = refl
node-append_none [] (suc x) = refl
node-append_none (w ∷ ws) zero = refl
node-append_none (w ∷ ws) (suc x) = node-append_none ws x

next_of-append_none :
    (ws : Watches) (l : Literal) (x : ClauseId) → next_of (ws ++ none ∷ []) l x ≡ next_of ws l x
unfolding next_of
next_of-append_none ws l x = rw (node-append_none ws x)

-- A clause that watches nothing changes no list.
unwatched-IsValid :
    (m : WatchMap) (cs : Clauses) (ws : Watches) (chains : Literal → List ClauseId)
    → IsValid (record { watch_map = m; watches = ws }) chains
    → IsValid (record { watch_map = m; watches = ws ++ none ∷ [] }) chains
unwatched-IsValid m cs ws chains valid = record {
  mapped = valid.mapped;
  linked = λ l.
      Chain-frame (next_of ws l) (next_of (ws ++ none ∷ []) l) (Mapping.get m.map l) (chains l)
        (λ x mem. next_of-append_none ws l x) (valid.linked l);
  unique = valid.unique;
  complete = λ l x o h. valid.complete l x o (sym (next_of-append_none ws l x) ∙ h);
  apart = λ x. subst IsApart (sym (node-append_none ws x)) (valid.apart x);
}

-- The state after a clause was added.
pub record Added (m : WatchMap) (cs : Clauses) (chains : Literal → List ClauseId)
    (w : Option WatchedLiterals) (kind : Clause) (r : ClauseId × WatchMap × Clauses) : Type 0 where
  pub id : r.0 ≡ length cs.kinds
  pub kinds : r.2.kinds ≡ cs.kinds ++ kind ∷ []
  pub lengths : length r.2.watched_literals ≡ length r.2.kinds
  pub lists : IsValid (watch_state r.1 r.2) (chains_with chains w (length cs.kinds))

module _ (m : WatchMap) (cs : Clauses) (chains : Literal → List ClauseId) (kind : Clause)
    (lengths : length cs.watched_literals ≡ length cs.kinds)
    (valid : IsValid (watch_state m cs) chains) where
  add_clause-run :
      (w : Option WatchedLiterals)
      → add_clause m cs w kind ≡ ok (watch_new w (length cs.kinds) m (alloc cs w kind).1)
  unfolding add_clause alloc
  add_clause-run w =
      ap (λ o. expect o >>= λ stored. ok (watch_new stored (length cs.kinds) m (alloc cs w kind).1))
        (subst (λ n. get_elem? (cs.watched_literals ++ w ∷ []) n ≡ some w) lengths
          (get_elem?-last cs.watched_literals w))

  -- In a state with valid lists and as many watches as kinds, adding a clause does not panic: it gets
  -- the next id, and if it watches two different literals it comes to stand at the front of their
  -- lists; otherwise no list changes. The lists stay valid.
  pub add_clause-Added :
      (w : Option WatchedLiterals)
      → IsApart w
      → Returns (add_clause m cs w kind) (Added m cs chains w kind)
  unfolding watch_new alloc
  add_clause-Added none apart = (
    _,
    add_clause-run none,
    record {
      id = refl;
      kinds = refl;
      lengths = omega (
        arith,
        length-append cs.watched_literals (none ∷ []),
        length-append cs.kinds (kind ∷ []),
        lengths,
      );
      lists = unwatched-IsValid m cs cs.watched_literals chains valid;
    },
  )
  add_clause-Added (some w) apart = (
    _,
    add_clause-run (some w),
    record {
      id = refl;
      kinds = refl;
      lengths = omega (
        arith,
        length-set (cs.watched_literals ++ some w ∷ []) (length cs.kinds)
            (some (start_watching m w (length cs.kinds)).1),
        length-append cs.watched_literals (some w ∷ []),
        length-append cs.kinds (kind ∷ []),
        lengths,
      );
      lists =
          subst
            (λ n.
              IsValid
                (record {
                  watch_map = (start_watching m w n).0;
                  watches =
                      set (cs.watched_literals ++ some w ∷ []) n (some (start_watching m w n).1);
                })
                (watched chains w.watched_literals n))
            lengths
            (subst
              (λ ws.
                IsValid
                  (record {
                    watch_map = (start_watching m w (length cs.watched_literals)).0;
                    watches = ws;
                  })
                  (watched chains w.watched_literals (length cs.watched_literals)))
              (sym (
                set_last cs.watched_literals (some w)
                  (some (start_watching m w (length cs.watched_literals)).1)))
              (start_watching-IsValid (watch_state m cs) chains w valid apart));
    },
  )
