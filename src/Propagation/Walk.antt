-- ===== src/Propagation/Walk.antt =====
-- The inner loop of `propagate_impl` in src/solver/mod.rs: the walk over the clauses that watch a
-- literal which has turned false.
use resolvo.Prelude.{
  ℕ, zero, suc, ◌≡◌, ◌⊎◌, ◌≤◌, refl, sym, ap, ◌∙◌, subst, inl, inr, Bool, true, false, Option, none,
  some, List, [], ◌∷◌, arith, ok, Returns, Elem, is_value, Bool-cases, length,
}
use resolvo.DecisionTracker.{ClauseId, DecisionTracker}
use resolvo.Literal.{Literal, eval}
use resolvo.Clause.{Clause, WatchedLiterals, is_binary, next_unwatched_literal, pick, other_index}
use resolvo.Clause.Unwatched.{
  Scanned, next_unwatched_literal-binary, next_unwatched_literal-Scanned,
}
use resolvo.WatchMap.{WatchMapCursor}
use resolvo.WatchMap.Walk.{zip_up, IsAt, Stands, cursor-Stands}
use resolvo.Propagation.{
  Problem, SolverState, PropagationError, Outcome, success, failure, search, visit, walk,
  propagate_literal,
}
use resolvo.Propagation.Models.{eval-Extends}
use resolvo.Propagation.Invariant.{IsReady}
use resolvo.Propagation.Progress.{
  IsSatisfied, Progress, IsRefuted, Visited, same-Progress, Moves, same-Moves, trans-Moves,
}
use resolvo.Propagation.Visit.{visit-satisfied, visit-moved, visit-unit, visit-false, watching_now}

-- Skipping the search is what the search would come to.
search-next_unwatched_literal :
    (p : Problem) (st : SolverState) (c : WatchMapCursor) (clause : Clause) (w : WatchedLiterals)
    → search p st c clause w
      ≡ next_unwatched_literal w clause p.tables st.decision_tracker.map c.current.watch_index
unfolding search
search-next_unwatched_literal p st c clause w = elim (Bool-cases (is_binary clause)) [
  | inl binary ↦
      rw (binary, search)
        (sym (
          next_unwatched_literal-binary w clause p.tables st.decision_tracker.map
            c.current.watch_index binary))
  | inr long ↦ rw (long, search)
]

pub is_value-eq : (o : Option Bool) → is_value o true ≡ true → o ≡ some true
is_value-eq (some true) h = refl
is_value-eq (some false) h = cc
is_value-eq none h = cc

-- A round at a clause of the list of a false literal does not panic.
visit-Visited :
    (p : Problem) (lv : ℕ) (st : SolverState) (chains : Literal → List ClauseId) (l : Literal)
    (front : List ClauseId) (id : ClauseId) (post : List ClauseId) (c : WatchMapCursor)
    → IsReady p lv st chains
    → chains l ≡ zip_up front (id ∷ post)
    → IsAt st.watches l front id c
    → eval l st.decision_tracker.map ≡ some false
    → ((x : ClauseId) → Elem x front → IsSatisfied st l x)
    → Returns (visit p lv st c) (Visited p lv st l post)
visit-Visited p lv st chains l front id post c ready list at l_false before =
    let w = at.current.watches in
    let has = at.current.has in
    let is = ready.watched id w has in
    let i = c.current.watch_index in
    let m = st.decision_tracker.map in
    let other = pick w.watched_literals (other_index i) in
    elim (Bool-cases (is_value (eval other m) true)) [
      | inl hit ↦
          visit-satisfied p lv st chains l front id post c ready list at l_false before w has is
            (is_value-eq _ hit)
      | inr miss ↦
          let step =
            visit-false p lv st chains l front id post c ready list at l_false before w has is
              miss in
          let at_l =
            watching_now p lv st chains l front id post c ready list at l_false before w has is in
          let (found, run, scanned) =
            next_unwatched_literal-Scanned w is.clause p.tables m i is.ls is.watchable
              is.has_literals is.watching (subst (λ x. eval x m ≡ some false) (sym at_l) l_false) in
          let searched = search-next_unwatched_literal p st c is.clause w ∙ run in
          elim scanned [
            | Scanned.found b e mem apart live ↦ elim (Bool-cases (is_binary is.clause)) [
              | inl binary ↦
                  let none_found = next_unwatched_literal-binary w is.clause p.tables m i binary in
                  absurd (cc)
              | inr long ↦
                  let (r, run', v) =
                    visit-moved p lv st chains l front id post c ready list at l_false before w has
                      is b long mem apart live in
                  (r, step ∙ rw (searched, e) run', v)
            ]
            | Scanned.exhausted e unit ↦
                let (r, run', v) =
                  visit-unit p lv st chains l front id post c ready list at l_false before w has is
                    unit in
                (r, step ∙ rw (searched, e) run', v)
          ]
    ]

-- What a walk over the list of a false literal comes to.
pub data Walked (p : Problem) (lv : ℕ) (st : SolverState) (l : Literal)
    (r : Outcome (Unit {0}) × SolverState) : Type 0 where
  finished :
      (st' : SolverState) (chains' : Literal → List ClauseId)
      → r ≡ (success tt, st')
      → IsReady p lv st' chains'
      → Progress p st.decision_tracker st'.decision_tracker
      → ((x : ClauseId) → Elem x (chains' l) → IsSatisfied st' l x)
      → Moves st st' l
      → Walked p lv st l r
  conflicted :
      (e : PropagationError) (st' : SolverState) (chains' : Literal → List ClauseId)
      → r ≡ (failure e, st')
      → IsReady p lv st' chains'
      → Progress p st.decision_tracker st'.decision_tracker
      → IsRefuted p st.decision_tracker
      → Walked p lv st l r

pub trans-Progress :
    (p : Problem) (t u v : DecisionTracker) → Progress p t u → Progress p u v → Progress p t v
trans-Progress p t u v a b = record {
  extends = λ x y h. b.extends x y (a.extends x y h);
  sound = λ σ m agrees. b.sound σ m (a.sound σ m agrees);
  index = b.index ∙ a.index;
  kept = λ k d h. b.kept k d (a.kept k d h);
  fresh = λ x y h. elim (b.fresh x y h) [ inl e ↦ a.fresh x y e | inr m ↦ inr m ];
}

-- A walk that goes on from a later state.
Walked-after :
    (p : Problem) (lv : ℕ) (st st' : SolverState) (l : Literal)
    (r : Outcome (Unit {0}) × SolverState)
    → Progress p st.decision_tracker st'.decision_tracker
    → Moves st st' l
    → Walked p lv st' l r
    → Walked p lv st l r
Walked-after p lv st st' l r a moves (Walked.finished s ch e ready b all moves') =
    Walked.finished s ch e ready (trans-Progress p _ _ _ a b) all
      (trans-Moves st st' s l a.extends moves moves')
Walked-after p lv st st' l r a moves (Walked.conflicted err s ch e ready b refuted) =
    Walked.conflicted err s ch e ready (trans-Progress p _ _ _ a b)
      (λ σ m agrees. refuted σ m (a.sound σ m agrees))

Elem-zip_up_inv :
    (x : ClauseId) (front xs : List ClauseId) → Elem x (zip_up front xs) → Elem x front ⊎ Elem x xs
Elem-zip_up_inv x [] xs m = inr m
Elem-zip_up_inv x (q ∷ r) xs m = elim (Elem-zip_up_inv x r (q ∷ xs) m) [
  | inl a ↦ inl (inr a)
  | inr (inl e) ↦ inl (inl e)
  | inr (inr b) ↦ inr b
]

walk-success :
    (fuel : ℕ) (p : Problem) (lv : ℕ) (st st' : SolverState) (o o' : Option WatchMapCursor)
    (c : WatchMapCursor)
    → o ≡ some c
    → visit p lv st c ≡ ok (success o', st')
    → walk (suc fuel) p lv st o ≡ walk fuel p lv st' o'
unfolding walk
walk-success fuel p lv st st' o o' c e run = rw (e, walk, run)

walk-failure :
    (fuel : ℕ) (p : Problem) (lv : ℕ) (st st' : SolverState) (o : Option WatchMapCursor)
    (c : WatchMapCursor) (err : PropagationError)
    → o ≡ some c
    → visit p lv st c ≡ ok (failure err, st')
    → walk (suc fuel) p lv st o ≡ ok (failure err, st')
unfolding walk
walk-failure fuel p lv st st' o c err e run = rw (e, walk, run)

walk-none :
    (fuel : ℕ) (p : Problem) (lv : ℕ) (st : SolverState)
    → walk fuel p lv st none ≡ ok (success tt, st)
unfolding walk
walk-none zero p lv st = refl
walk-none (suc fuel) p lv st = refl

walk-Walked :
    (fuel : ℕ) (p : Problem) (lv : ℕ) (st : SolverState) (chains : Literal → List ClauseId)
    (l : Literal) (front post : List ClauseId) (o : Option WatchMapCursor)
    → IsReady p lv st chains
    → chains l ≡ zip_up front post
    → Stands st.watches l front post o
    → eval l st.decision_tracker.map ≡ some false
    → ((x : ClauseId) → Elem x front → IsSatisfied st l x)
    → length post ≤ fuel
    → Returns (walk fuel p lv st o) (Walked p lv st l)
walk-Walked fuel p lv st chains l front [] o ready list stands l_false before enough = (
  (success tt, st),
  rw stands (walk-none fuel p lv st),
  Walked.finished st chains refl ready (same-Progress p st.decision_tracker)
      (λ x m. elim (Elem-zip_up_inv x front [] (subst (Elem x) list m)) [
        | inl a ↦ before x a
        | inr b ↦ elim b [ ]
      ])
      (same-Moves st st l refl),
)
walk-Walked zero p lv st chains l front (id ∷ post) o ready list stands l_false before enough =
    absurd (omega arith)
walk-Walked (suc fuel) p lv st chains l front (id ∷ post) o ready list (c, is, at) l_false before
      enough =
    let (r, run, v) = visit-Visited p lv st chains l front id post c ready list at l_false before in
    elim v [
      | Visited.went o' st' chains' front' e ready' list' stands' more before' moves ↦
          let (s, run', walked) =
            walk-Walked fuel p lv st' chains' l front' post o' ready' list' stands'
              (eval-Extends l st.decision_tracker st'.decision_tracker false more.extends l_false)
              before' (omega arith) in
          (
            s,
            walk-success fuel p lv st st' o o' c is (run ∙ ap ok e) ∙ run',
            Walked-after p lv st st' l s more moves walked,
          )
      | Visited.failed err e refuted ↦ (
        (failure err, st),
        walk-failure fuel p lv st st o c err is (run ∙ ap ok e),
        Walked.conflicted err st chains refl ready (same-Progress p st.decision_tracker) refuted,
      )
    ]

-- In a ready state, in which the given literal is false, and with fuel for each clause that watches
-- it, propagating the literal does not panic and ends. Either it finishes: then every clause that
-- still watches the literal watches another one that is true, and every model of the clauses that
-- agrees with the trail before agrees with it after; a watch that has moved was on this literal, and
-- moved to one that was not false. Or it reports a conflict: then no model of the clauses agrees
-- with the trail. In both cases the state is ready again, and what was decided stays.
pub propagate_literal-Walked :
    (fuel : ℕ) (p : Problem) (lv : ℕ) (st : SolverState) (chains : Literal → List ClauseId)
    (l : Literal)
    → IsReady p lv st chains
    → eval l st.decision_tracker.map ≡ some false
    → length (chains l) ≤ fuel
    → Returns (propagate_literal fuel p lv st l) (Walked p lv st l)
unfolding propagate_literal
propagate_literal-Walked fuel p lv st chains l ready l_false enough =
    let (o, run, stands) = cursor-Stands st.watches chains l ready.lists in
    let (r, run', walked) =
      walk-Walked fuel p lv st chains l [] (chains l) o ready refl stands l_false
        (λ x m. elim m [ ]) enough in
    (r, rw run run', walked)
