-- ===== src/Propagation/Whole.antt =====
-- `propagate_impl` of src/solver/mod.rs as a whole: the assertions, the learnt assertions, and the
-- decisions.
use resolvo.Prelude.{
  ℕ, ◌+◌, ◌≡◌, ◌≤◌, ◌<◌, refl, sym, ap, ◌∙◌, subst, false, some, List, arith, Run, ok, Returns, All,
  All-map, length, inl, inr,
}
use resolvo.DecisionMap.{VariableId}
use resolvo.DecisionTracker.{DecisionTracker, assigned_value}
use resolvo.Literal.{Literal, variable, satisfying_value}
use resolvo.DecisionTracker.{ClauseId}
use resolvo.Propagation.{
  Problem, SolverState, Outcome, success, failure, decide_assertions, decide_learned,
  propagate_decisions, then_decide, propagate_impl,
}
use resolvo.Propagation.Models.{Mentions}
use resolvo.Propagation.Invariant.{IsReady}
use resolvo.Propagation.Progress.{Progress}
use resolvo.Propagation.Bounds.{InBounds}
use resolvo.Propagation.Units.{IsOpen, Decided}
use resolvo.Propagation.Assertions.{IsAssertion, decide_assertions-Asserted}
use resolvo.Propagation.Learned.{IsLearned, HoldsUnit, decide_learned-Decided}
use resolvo.Propagation.Passed.{AllPassed-start}
use resolvo.Propagation.Outer.{Grows, Propagated, Propagated-after, propagate_decisions-Propagated}

abbrev with_tracker : SolverState → DecisionTracker → SolverState
with_tracker st t = record st { decision_tracker = t }

module _ (p : Problem) (lv : ℕ) (st : SolverState) (chains : Literal → List ClauseId)
    (ready : IsReady p lv st chains) where
  ready-IsOpen : IsOpen lv st.decision_tracker
  ready-IsOpen = record { trail = ready.trail; fits = ready.fits; below = ready.below }

  open-IsReady : (t : DecisionTracker) → IsOpen lv t → IsReady p lv (with_tracker st t) chains
  open-IsReady t is = record {
    lists = ready.lists;
    trail = is.trail;
    fits = is.fits;
    below = is.below;
    watched = ready.watched;
  }

Progress-Grows : (p : Problem) (t t' : DecisionTracker) → Progress p t t' → Grows p t t'
Progress-Grows p t t' more = (more.extends, more.sound)

Progress-InBounds :
    (p : Problem) (n : ℕ) (t t' : DecisionTracker)
    → ((v : VariableId) → Mentions p v → v < n)
    → Progress p t t'
    → InBounds n t
    → InBounds n t'
Progress-InBounds p n t t' low more bound v b h = elim (more.fresh v b h) [
  | inl e ↦ bound v b e
  | inr m ↦ low v m
]

Propagated-Grows :
    (p : Problem) (lv from : ℕ) (st : SolverState) (r : Outcome (Unit {0}) × SolverState)
    → Propagated p lv from st r
    → Grows p st.decision_tracker r.1.decision_tracker
Propagated-Grows p lv from st r (Propagated.settled st' ch e ready all grows passed) =
    subst (λ x. Grows p st.decision_tracker x.1.decision_tracker) (sym e) grows
Propagated-Grows p lv from st r (Propagated.conflicted err st' ch e ready grows refuted) =
    subst (λ x. Grows p st.decision_tracker x.1.decision_tracker) (sym e) grows

-- A step on the tracker, and what follows when it succeeds.
module _ (p : Problem) (lv from : ℕ) (st : SolverState) (chains : Literal → List ClauseId)
    (ready : IsReady p lv st chains) (step : Run (Outcome (Unit {0}) × DecisionTracker))
    (Q R : DecisionTracker → Type 0) (rest : SolverState → Run (Outcome (Unit {0}) × SolverState))
    (keep : (t t' : DecisionTracker) → Grows p t t' → Q t → Q t')
    (go : (t : DecisionTracker)
      → IsReady p lv (with_tracker st t) chains
      → Progress p st.decision_tracker t
      → Returns (rest (with_tracker st t)) (λ r.
        Propagated p lv from (with_tracker st t) r
        × (r.0 ≡ success tt → R r.1.decision_tracker))) where
  then_decide-Propagated :
      Returns step (Decided p lv st.decision_tracker Q)
      → Returns (then_decide st step rest) (λ r.
        Propagated p lv from st r
        × (r.0 ≡ success tt → Q r.1.decision_tracker × R r.1.decision_tracker))
  then_decide-Propagated ((o, t), run, Decided.refuted err e is more none_left) = (
    (failure err, with_tracker st t),
    ap (λ x. then_decide st x rest) (run ∙ ap (λ o. ok (o, t)) e),
    (
      Propagated.conflicted err (with_tracker st t) chains refl
          (open-IsReady p lv st chains ready t is) (Progress-Grows p st.decision_tracker t more)
          none_left,
      λ s. cc,
    ),
  )
  then_decide-Propagated ((o, t), run, Decided.asserted e is more all) =
      let (r, run', (done, also)) = go t (open-IsReady p lv st chains ready t is) more in
      (
        r,
        ap (λ x. then_decide st x rest) (run ∙ ap (λ o. ok (o, t)) e) ∙ run',
        (
          Propagated-after p lv from st (with_tracker st t) r
              (Progress-Grows p st.decision_tracker t more) done,
          λ s. (
            keep t r.1.decision_tracker (Propagated-Grows p lv from (with_tracker st t) r done) all,
            also s,
          ),
        ),
      )

-- No decision is left to propagate.
abbrev pub IsSettled : DecisionTracker → Type 0
IsSettled t = t.propagate_index ≡ length t.stack

Propagated-IsSettled :
    (p : Problem) (lv from : ℕ) (st : SolverState) (r : Outcome (Unit {0}) × SolverState)
    → Propagated p lv from st r
    → r.0 ≡ success tt
    → IsSettled r.1.decision_tracker
Propagated-IsSettled p lv from st r (Propagated.settled st' ch e ready all grows passed) s =
    subst (λ x. IsSettled x.1.decision_tracker) (sym e) all
Propagated-IsSettled p lv from st r (Propagated.conflicted err st' ch e ready grows refuted) s =
    let o : r.0 ≡ failure err = ap (λ x. x.0) e in cc

-- The assertions and the learnt assertions are true.
abbrev pub AllAsserted : Problem → DecisionTracker → Type 0
AllAsserted p t = All (λ a. assigned_value t a.0 ≡ some false) p.negative_assertions

abbrev pub AllLearned : Problem → DecisionTracker → Type 0
AllLearned p t = All (HoldsUnit p t) p.learnt_clause_ids

abbrev pub IsPropagated : Problem → DecisionTracker → Type 0
IsPropagated p t = AllLearned p t × IsSettled t

AllAsserted-Grows :
    (p : Problem) (t t' : DecisionTracker) → Grows p t t' → AllAsserted p t → AllAsserted p t'
AllAsserted-Grows p t t' grows all =
    All-map _ (λ a. assigned_value t' a.0 ≡ some false) p.negative_assertions
      (λ a h. grows.0 a.0 false h) all

AllLearned-Grows :
    (p : Problem) (t t' : DecisionTracker) → Grows p t t' → AllLearned p t → AllLearned p t'
AllLearned-Grows p t t' grows all =
    All-map _ (HoldsUnit p t') p.learnt_clause_ids
      (λ id h learnt_id l has ls. grows.0 (variable l) (satisfying_value l) (h learnt_id l has ls))
      all

-- In a ready state, where each assertion's clause is its negative literal and the learnt clauses
-- are not empty, the variables of the clauses and of the trail are below `n`, `inner` is at least
-- the number of clauses and `fuel` one unit more than `n` less the decisions that are propagated
-- already, and without a wish to cancel, a whole propagation does not panic and ends. Either it
-- succeeds: then the assertions and the learnt clauses of one literal are true, no decision is
-- left to propagate, and every clause one of whose watches was turned false by a decision that was
-- not propagated before watches another literal that is true. Or it reports a conflict: then no model of the clauses agrees with the trail.
-- In both cases the state is ready again, what was decided stays, and every model that agreed with
-- the trail still does.
pub propagate_impl-Propagated :
    (fuel inner : ℕ) (p : Problem) (lv n : ℕ) (st : SolverState) (chains : Literal → List ClauseId)
    → IsReady p lv st chains
    → All (IsAssertion p) p.negative_assertions
    → All (IsLearned p) p.learnt_clause_ids
    → ((v : VariableId) → Mentions p v → v < n)
    → InBounds n st.decision_tracker
    → length p.kinds ≤ inner
    → n < fuel + st.decision_tracker.propagate_index
    → Returns (propagate_impl fuel inner p false lv st) (λ r.
      Propagated p lv st.decision_tracker.propagate_index st r
      × (r.0 ≡ success tt
          → AllAsserted p r.1.decision_tracker × IsPropagated p r.1.decision_tracker))
unfolding propagate_impl
propagate_impl-Propagated fuel inner p lv n st chains ready assertions learned low bound wide
      enough =
    then_decide-Propagated p lv st.decision_tracker.propagate_index st chains ready
      (decide_assertions p.negative_assertions lv st.decision_tracker) (AllAsserted p)
      (IsPropagated p)
      (λ st'.
        then_decide st' (decide_learned p p.learnt_clause_ids lv st'.decision_tracker)
          (λ st''. propagate_decisions fuel inner p lv st''))
      (AllAsserted-Grows p)
      (λ t ready' more.
        then_decide-Propagated p lv st.decision_tracker.propagate_index (with_tracker st t) chains
          ready' (decide_learned p p.learnt_clause_ids lv t) (AllLearned p) IsSettled
          (λ st''. propagate_decisions fuel inner p lv st'') (AllLearned-Grows p)
          (λ t' ready'' more'.
            let bound' =
              Progress-InBounds p n t t' low more'
                (Progress-InBounds p n st.decision_tracker t low more bound) in
            let i = more.index in
            let i' = more'.index in
            let (r, run, done) =
              propagate_decisions-Propagated fuel inner p lv n t'.propagate_index
                (with_tracker st t') chains ready'' (AllPassed-start (with_tracker st t')) low
                bound' wide (omega arith) in
            let from : t'.propagate_index ≡ st.decision_tracker.propagate_index = i' ∙ i in
            let done' = subst (λ k. Propagated p lv k (with_tracker st t') r) from done in
            (
              r,
              run,
              (
                done',
                Propagated-IsSettled p lv st.decision_tracker.propagate_index (with_tracker st t') r
                    done',
              ),
            ))
          (decide_learned-Decided p lv t p.learnt_clause_ids
            (ready-IsOpen p lv (with_tracker st t) chains ready') learned))
      (decide_assertions-Asserted p lv st.decision_tracker p.negative_assertions
        (ready-IsOpen p lv st chains ready) assertions)
