-- ===== src/Propagation/Visit.antt =====
-- One round of the inner loop of `propagate_impl` in src/solver/mod.rs.
use resolvo.Prelude.{
  ℕ, ◌≡◌, ◌≢◌, ◌⊎◌, ◌≤◌, refl, sym, ap, ◌∙◌, subst, inl, inr, Bool, true, false, not, Option, none,
  some, List, ◌∷◌, arith, ok, ◌>>=◌, expect, Returns, Elem, All, get_elem?, is_value, ==_refl,
  ==_false, ◌==◌, ==_iff, if◌then◌else◌, Bool-cases,
}
use resolvo.DecisionMap.{VariableId}
use resolvo.DecisionTracker.{
  ClauseId, Decision, DecisionTracker, assigned_value, level, try_add_decision, nth_decision,
}
use resolvo.DecisionTracker.Invariant
use resolvo.DecisionTracker.Invariant.{last_level}
use resolvo.DecisionTracker.Add.{Adds, try_add_decision-Adds}
use resolvo.Literal.{Literal, eval, variable, satisfying_value}
use resolvo.Clause.{
  WatchedLiterals, is_binary, pick, put, other_index, WatchIndex, index_zero, index_one,
}
use resolvo.WatchMap.{WatchMapCursor, node, index_of, watched_literals, next}
use resolvo.WatchMap.Chain.{Unique}
use resolvo.WatchMap.Update.Lists.{moved_chains}
use resolvo.WatchMap.Update.Moved.{update-Updates}
use resolvo.WatchMap.Walk.{zip_up, IsAt, next-Stands}
use resolvo.Propagation.{
  Problem, SolverState, conflict, success, failure, propagate_unit, unit_decided, visit_with,
  search, visit, visit_clause,
}
use resolvo.Propagation.Models.{assigned-eval, holds-Agrees, holds-unit, Mentions, not-value}
use resolvo.Propagation.Invariant.{IsWatched, IsReady, IsWatching-put, AllWatched-put}
use resolvo.Propagation.Progress.{
  IsSatisfied, Progress, try_add_decision-index, IsRefuted, Visited, same-Progress,
  IsSatisfied-frame, same-Moves,
}
use resolvo.Propagation.Bounds.{nth_decision-cons}
use resolvo.Propagation.Moved.{moved-Moves}
use resolvo.Propagation.Front.{index_at, not-Elem_front}

module _ (p : Problem) (lv : ℕ) (st : SolverState) (chains : Literal → List ClauseId) (l : Literal)
    (front : List ClauseId) (id : ClauseId) (post : List ClauseId) (c : WatchMapCursor)
    (ready : IsReady p lv st chains) (list : chains l ≡ zip_up front (id ∷ post))
    (at : IsAt st.watches l front id c) (l_false : eval l st.decision_tracker.map ≡ some false)
    (before : (x : ClauseId) → Elem x front → IsSatisfied st l x) (w : WatchedLiterals)
    (has : node st.watches.watches id ≡ some w) (is : IsWatched p id w.watched_literals) where
  abbrev other : Literal
  other = pick w.watched_literals (other_index c.current.watch_index)

  has_current : watched_literals st.watches c ≡ ok w
  unfolding watched_literals
  has_current = ap expect (ap (node st.watches.watches) at.current.clause ∙ has)

  has_kind : get_elem? p.kinds c.current.clause_id ≡ some is.clause
  has_kind = ap (get_elem? p.kinds) at.current.clause ∙ is.has_clause

  visit-visit_clause : visit p lv st c ≡ visit_clause p lv st c is.clause w
  unfolding visit
  visit-visit_clause =
      ap (λ o. expect o >>= λ k. watched_literals st.watches c >>= λ w. visit_clause p lv st c k w)
        has_kind
      ∙ ap (λ r. r >>= λ w. visit_clause p lv st c is.clause w) has_current

  visit-true :
      is_value (eval other st.decision_tracker.map) true ≡ true
      → visit p lv st c ≡ (next st.watches c >>= λ n. ok (success n, st))
  unfolding visit_clause
  visit-true h = visit-visit_clause ∙ rw (h, visit_clause)

  pub visit-false :
      is_value (eval other st.decision_tracker.map) true ≡ false
      → visit p lv st c ≡ (search p st c is.clause w >>= λ found. visit_with found lv st c other)
  unfolding visit_clause
  visit-false h = visit-visit_clause ∙ rw (h, visit_clause)

  -- The clause itself is satisfied once its other watch is true.
  id-IsSatisfied :
      (st' : SolverState)
      → node st'.watches.watches id ≡ some w
      → eval other st'.decision_tracker.map ≡ some true
      → IsSatisfied st' l id
  id-IsSatisfied st' has' h v e =
      let f : w ≡ v = ground arith in
      subst
        (λ v.
          eval (pick v.watched_literals (other_index (index_of v l))) st'.decision_tracker.map
          ≡ some true)
        f
        (subst
          (λ i. eval (pick w.watched_literals (other_index i)) st'.decision_tracker.map ≡ some true)
          (index_at st.watches.watches l id c.current w at.current has).0 h)

  behind_front :
      (st' : SolverState)
      → IsSatisfied st' l id
      → ((x : ClauseId) → Elem x front → IsSatisfied st' l x)
      → (x : ClauseId) → Elem x (id ∷ front)
      → IsSatisfied st' l x
  behind_front st' here rest x (inl e) = subst (IsSatisfied st' l) (sym e) here
  behind_front st' here rest x (inr m) = rest x m

  -- The other watch is true: the cursor goes on.
  pub visit-satisfied :
      eval other st.decision_tracker.map ≡ some true
      → Returns (visit p lv st c) (Visited p lv st l post)
  visit-satisfied h =
      let (o, run, stands) = next-Stands st.watches chains l ready.lists front id post c list at in
      (
        (success o, st),
        visit-true (rw h) ∙ rw run,
        Visited.went o st chains (id ∷ front) refl ready list stands
            (same-Progress p st.decision_tracker) (behind_front st (id-IsSatisfied st has h) before)
            (same-Moves st st l refl),
      )

  index_now : c.current.watch_index ≡ index_of w l
  index_now = (index_at st.watches.watches l id c.current w at.current has).0

  pub watching_now : pick w.watched_literals c.current.watch_index ≡ l
  watching_now =
      subst (λ i. pick w.watched_literals i ≡ l) (sym index_now)
        (index_at st.watches.watches l id c.current w at.current has).1

  -- A literal to watch was found: the clause moves to its list.
  pub visit-moved :
      (b : Literal)
      → is_binary is.clause ≡ false
      → Elem b is.ls
      → other ≢ b
      → eval b st.decision_tracker.map ≢ some false
      → Returns (visit_with (some b) lv st c other) (Visited p lv st l post)
  unfolding visit_with
  visit-moved b long m apart live =
      let once = subst Unique list (ready.lists.unique l) in
      let ne : b ≢ l =
        λ e. live (subst (λ x. eval x st.decision_tracker.map ≡ some false) (sym e) l_false) in
      let (r, run, u) =
        update-Updates st.watches chains l b front id post c w ready.lists list at has ne
          (λ e. apart (sym e)) in
      let st' : SolverState = record st { watches = r.1 } in
      let put_watched : IsWatched p id (put w.watched_literals c.current.watch_index b) = record {
        clause = is.clause;
        ls = is.ls;
        has_clause = is.has_clause;
        has_literals = is.has_literals;
        watchable = is.watchable;
        watching =
            IsWatching-put w.watched_literals c.current.watch_index b is.clause is.ls is.watching
              long m;
      } in
      (
        (success r.0, st'),
        rw run,
        Visited.went r.0 st' (moved_chains chains l b id (zip_up front post)) front refl
            (record {
              lists = u.valid;
              trail = ready.trail;
              fits = ready.fits;
              below = ready.below;
              watched =
                  AllWatched-put p st.watches.watches r.1.watches id _ u.watched put_watched
                    ready.watched;
            })
            (rw (==_refl l)) u.stands (same-Progress p st.decision_tracker)
            (λ x mem.
              IsSatisfied-frame st st' l x
                (u.watched x
                  ∙ rw (
                      ==_false id x (λ e.
                        not-Elem_front front id post once (subst (λ y. Elem y front) (sym e) mem))))
                (λ v b h. h) (before x mem))
            (moved-Moves st l id w c.current.watch_index has watching_now b r.1 live u.watched),
      )

  abbrev decision : Decision
  decision = record {
    variable = variable other;
    value = satisfying_value other;
    derived_from = c.current.clause_id;
  }

  unit-run :
      (r : Option (Bool × DecisionTracker))
      → try_add_decision st.decision_tracker decision lv ≡ r
      → visit_with none lv st c other ≡ unit_decided r st c other
  unfolding visit_with propagate_unit
  unit-run r e = ap (λ r. unit_decided r st c other) e

  -- The state after the clause has decided its other watch.
  decided-IsReady :
      (t' : DecisionTracker)
      → Invariant.IsValid t'
      → t'.stack ≡ decision ∷ st.decision_tracker.stack
      → ((v : VariableId)
          → level t' v ≡ (if variable other == v then lv else level st.decision_tracker v))
      → IsReady p lv (record st { decision_tracker = t' }) chains
  decided-IsReady t' valid stack levels = record {
    lists = ready.lists;
    trail = valid;
    fits = ready.fits;
    below =
        let e : level t' (variable other) ≡ lv =
          levels (variable other) ∙ rw (==_refl (variable other)) in
        subst (λ s. last_level (level t') s ≤ lv) (sym stack) (omega (arith, e));
    watched = ready.watched;
  }

  other_mem : (i : WatchIndex) → Elem (pick w.watched_literals (other_index i)) is.ls
  other_mem index_zero = is.watching.one_mem
  other_mem index_one = is.watching.zero_mem

  other-Mentions : (v : VariableId) → variable other ≡ v → Mentions p v
  other-Mentions v e = record {
    id = id;
    clause = is.clause;
    ls = is.ls;
    lit = other;
    has_clause = is.has_clause;
    has_literals = is.has_literals;
    mem = other_mem c.current.watch_index;
    of_lit = e;
  }

  module _
      (unit : All (λ x. (other ≡ x) ⊎ (eval x st.decision_tracker.map ≡ some false)) is.ls) where
    decided-Progress :
        (t' : DecisionTracker)
        → t'.propagate_index ≡ st.decision_tracker.propagate_index
        → t'.stack ≡ decision ∷ st.decision_tracker.stack
        → assigned_value st.decision_tracker (variable other) ≡ none
        → ((v : VariableId)
            → assigned_value t' v ≡ (
                if variable other == v
                then some (satisfying_value other)
                else assigned_value st.decision_tracker v))
        → Progress p st.decision_tracker t'
    decided-Progress t' index stack free values = record {
      extends = λ v b h. ground (arith, values v);
      sound = λ σ model agrees v b h.
          let sat =
            holds-unit σ st.decision_tracker other is.ls agrees unit
              (model id is.clause is.ls is.has_clause is.has_literals) in
          ground (arith, values v, agrees v b);
      index = index;
      kept = λ k d h.
          subst (λ s. nth_decision s k ≡ some d) (sym stack)
            (nth_decision-cons st.decision_tracker.stack decision k d h);
      fresh = λ v b h. elim (Bool-cases (variable other == v)) [
        | inl mine ↦ inr (other-Mentions v ((==_iff (variable other) v).0 mine))
        | inr not_mine ↦ inl (ground (arith, values v))
      ];
    }

    contrary-IsRefuted :
        assigned_value st.decision_tracker (variable other) ≡ some (not (satisfying_value other))
        → IsRefuted p st.decision_tracker
    contrary-IsRefuted e σ model agrees =
        let sat =
          holds-unit σ st.decision_tracker other is.ls agrees unit
            (model id is.clause is.ls is.has_clause is.has_literals) in
        let wrong = holds-Agrees σ st.decision_tracker other false agrees (
          assigned-eval other st.decision_tracker false
            (e ∙ ap some (not-value (satisfying_value other)))) in
        cc

    -- No other literal can be watched: the other watch is decided, or there is a conflict.
    pub visit-unit : Returns (visit_with none lv st c other) (Visited p lv st l post)
    unfolding unit_decided
    visit-unit =
        let (o, run, stands) =
          next-Stands st.watches chains l ready.lists front id post c list at in
        elim (try_add_decision-Adds st.decision_tracker decision lv ready.trail ready.fits
          ready.below) [
            | Adds.decided t' added free stack values levels valid ↦
                let st' : SolverState = record st { decision_tracker = t' } in
                let more =
                  decided-Progress t'
                    (try_add_decision-index st.decision_tracker t' decision lv true added) stack
                    free values in
                let here : eval other t'.map ≡ some true =
                  assigned-eval other t' true
                    (values (variable other) ∙ rw (==_refl (variable other))) in
                (
                  (success o, st'),
                  unit-run _ added ∙ rw run,
                  Visited.went o st' chains (id ∷ front) refl
                      (decided-IsReady t' valid stack levels) list stands more
                      (behind_front st' (id-IsSatisfied st' has here)
                        (λ x m. IsSatisfied-frame st st' l x refl more.extends (before x m)))
                      (same-Moves st st' l refl),
                )
            | Adds.known added e ↦
                let here = assigned-eval other st.decision_tracker true e in
                (
                  (success o, st),
                  unit-run _ added ∙ rw run,
                  Visited.went o st chains (id ∷ front) refl ready list stands
                      (same-Progress p st.decision_tracker)
                      (behind_front st (id-IsSatisfied st has here) before)
                      (same-Moves st st l refl),
                )
            | Adds.contrary added e ↦ (
              (failure (conflict (variable other) true c.current.clause_id), st),
              unit-run _ added,
              Visited.failed _ refl (contrary-IsRefuted e),
            )
          ]
