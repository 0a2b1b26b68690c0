-- ===== src/Propagation/Passed.antt =====
-- The invariant of two watched literals of src/solver/mod.rs: where a decision that was propagated
-- turned one watch of a clause false, the other watch is true.
use resolvo.Prelude.{
  ℕ, ◌+◌, ◌≤◌, ◌<◌, ◌≡◌, ◌≢◌, ◌⊎◌, refl, sym, ap, ◌∙◌, subst, inl, inr, true, false, some, arith,
  length, Elem, Option-cases, Bool-cases, ==_iff, List, ◌==◌, ==_refl, ==_false,
}
use resolvo.DecisionTracker.{ClauseId, Decision, DecisionTracker, assigned_value, nth_decision}
use resolvo.DecisionTracker.Invariant
use resolvo.Literal.{Literal, new, eval}
use resolvo.Literal.Laws.{eval-new}
use resolvo.Clause.{Both, WatchIndex, index_zero, index_one, WatchedLiterals, pick, other_index}
use resolvo.WatchMap.{node, index_of}
use resolvo.WatchMap.Links.{next_of}
use resolvo.WatchMap.Update.Unlink.{watched_of}
use resolvo.Propagation.{Problem, SolverState}
use resolvo.Propagation.Models.{eval-Extends}
use resolvo.Propagation.Invariant.{IsReady}
use resolvo.Propagation.Progress.{IsSatisfied, Progress, Moves}
use resolvo.Propagation.Bounds.{nth_decision-below, stack_value-nth}

-- The trail with one more decision marked as propagated.
abbrev pub marked : DecisionTracker → DecisionTracker
marked t = record t { propagate_index = t.propagate_index + 1 }

abbrev pub marked_state : SolverState → SolverState
marked_state st = record st { decision_tracker = marked st.decision_tracker }

-- The literal was turned false by a decision, at `from` or behind, that is marked as propagated.
pub record Passed (from : ℕ) (t : DecisionTracker) (l : Literal) : Type 0 where
  pub at : ℕ
  pub decision : Decision
  pub behind : from ≤ at
  pub before : at < t.propagate_index
  pub stands : nth_decision t.stack at ≡ some decision
  pub literal : l ≡ new decision.variable decision.value

-- Every clause that watches such a literal watches one that is true.
abbrev pub AllPassed : ℕ → SolverState → Type 0
AllPassed from st =
    (x : ClauseId) (q : Both Literal) (i : WatchIndex)
    → watched_of (node st.watches.watches x) ≡ some q
    → Passed from st.decision_tracker (pick q i)
    → eval (pick q (other_index i)) st.decision_tracker.map ≡ some true

-- The literal that the decision turns false.
pub decided_literal-false :
    (t : DecisionTracker) (d : Decision)
    → assigned_value t d.variable ≡ some d.value
    → eval (new d.variable d.value) t.map ≡ some false
unfolding assigned_value
decided_literal-false t d h = eval-new d.variable d.value t.map ∙ ground arith

pub nth-false :
    (t : DecisionTracker) (k : ℕ) (d : Decision)
    → Invariant.IsValid t
    → nth_decision t.stack k ≡ some d
    → eval (new d.variable d.value) t.map ≡ some false
nth-false t k d valid e =
    decided_literal-false t d
      (valid.agrees d.variable ∙ stack_value-nth t.stack k d e valid.distinct)

-- Nothing was propagated from the index on.
pub AllPassed-start : (st : SolverState) → AllPassed st.decision_tracker.propagate_index st
AllPassed-start st x q i h p = let a = p.behind in let b = p.before in absurd (omega arith)

-- A clause that watches a literal is in its list, and satisfied when all of the list are.
module _ (p : Problem) (lv : ℕ) (st : SolverState) (chains : Literal → List ClauseId)
    (ready : IsReady p lv st chains) where
  listed :
      (x : ClauseId) (w : WatchedLiterals) (i : WatchIndex)
      → node st.watches.watches x ≡ some w
      → Elem x (chains (pick w.watched_literals i))
  unfolding next_of
  listed x w index_zero has =
      ready.lists.complete w.watched_literals.at_zero x w.next_watches.at_zero
        (rw (has, ==_refl w.watched_literals.at_zero) refl)
  listed x w index_one has =
      let apart = rw has at (ready.lists.apart x) in
      ready.lists.complete w.watched_literals.at_one x w.next_watches.at_one
        (rw (has, ==_false _ _ apart, ==_refl w.watched_literals.at_one) refl)

  index-here :
      (x : ClauseId) (w : WatchedLiterals) (i : WatchIndex)
      → node st.watches.watches x ≡ some w
      → index_of w (pick w.watched_literals i) ≡ i
  index-here x w index_zero has = rw (==_refl w.watched_literals.at_zero) refl
  index-here x w index_one has =
      let apart = rw has at (ready.lists.apart x) in rw (==_false _ _ apart) refl

  satisfied-other :
      (l : Literal)
      → ((x : ClauseId) → Elem x (chains l) → IsSatisfied st l x)
      → (x : ClauseId) (q : Both Literal) (i : WatchIndex)
      → watched_of (node st.watches.watches x) ≡ some q
      → pick q i ≡ l
      → eval (pick q (other_index i)) st.decision_tracker.map ≡ some true
  satisfied-other l all x q i h e = elim (Option-cases (node st.watches.watches x)) [
    | inl gone ↦ absurd (let f = rw gone at h in cc)
    | inr (w, has) ↦
        let f : w.watched_literals ≡ q = let g = rw has at h in ground arith in
        let e' : pick w.watched_literals i ≡ l = ap (λ q. pick q i) f ∙ e in
        let s = all x (subst (λ l. Elem x (chains l)) e' (listed x w i has)) w has in
        let at_i : index_of w l ≡ i = ap (index_of w) (sym e') ∙ index-here x w i has in
        subst (λ q. eval (pick q (other_index i)) st.decision_tracker.map ≡ some true) f
          (subst
            (λ j.
              eval (pick w.watched_literals (other_index j)) st.decision_tracker.map ≡ some true)
            at_i s)
  ]

-- A walk over the list of the next literal keeps the invariant, now with this literal.
module _ (p : Problem) (lv from : ℕ) (st st' : SolverState) (d : Decision)
    (chains chains' : Literal → List ClauseId) (ready : IsReady p lv st chains)
    (ready' : IsReady p lv st' chains')
    (next : st.decision_tracker.propagate_index < length st.decision_tracker.stack)
    (stands : nth_decision st.decision_tracker.stack st.decision_tracker.propagate_index ≡ some d)
    (more : Progress p (marked st.decision_tracker) st'.decision_tracker)
    (all : (x : ClauseId)
      → Elem x (chains' (new d.variable d.value))
      → IsSatisfied st' (new d.variable d.value) x)
    (moves : Moves (marked_state st) st' (new d.variable d.value)) where
  abbrev l : Literal
  l = new d.variable d.value

  -- A literal that was passed is that of this decision, or was passed before.
  Passed-cases :
      (a : Literal)
      → Passed from st'.decision_tracker a
      → (a ≡ l) ⊎ Passed from st.decision_tracker a
  Passed-cases a q =
      let i = more.index in
      let m = q.before in
      let (d', e) = nth_decision-below st.decision_tracker.stack q.at (omega arith) in
      let kept = more.kept q.at d' e in
      let h = q.stands in
      let same : d' ≡ q.decision = ground arith in
      let e' : nth_decision st.decision_tracker.stack q.at ≡ some q.decision = e ∙ ap some same in
      elim (Bool-cases (q.at == st.decision_tracker.propagate_index)) [
        | inl here ↦
            let k = (==_iff q.at st.decision_tracker.propagate_index).0 here in
            let z : some q.decision ≡ some d =
              sym e' ∙ ap (nth_decision st.decision_tracker.stack) k ∙ stands in
            let y : q.decision ≡ d = ground arith in
            inl (q.literal ∙ ap (λ (d : Decision). new d.variable d.value) y)
        | inr before ↦ inr (record {
          at = q.at;
          decision = q.decision;
          behind = q.behind;
          before =
              let n : q.at ≢ st.decision_tracker.propagate_index =
                λ k. let y = (==_iff q.at st.decision_tracker.propagate_index).1 k in cc in
              omega arith;
          stands = e';
          literal = q.literal;
        })
      ]

  Passed-false :
      (a : Literal)
      → Passed from st.decision_tracker a
      → eval a st.decision_tracker.map ≡ some false
  Passed-false a q =
      subst (λ a. eval a st.decision_tracker.map ≡ some false) (sym q.literal)
        (nth-false st.decision_tracker q.at q.decision ready.trail q.stands)

  not_satisfied : eval l st.decision_tracker.map ≡ some false
  not_satisfied =
      nth-false st.decision_tracker st.decision_tracker.propagate_index d ready.trail stands

  pub AllPassed-step : AllPassed from st → AllPassed from st'
  unfolding assigned_value
  AllPassed-step old x q' i h passed = elim (Passed-cases (pick q' i) passed) [
    | inl e ↦ satisfied-other p lv st' chains' ready' l all x q' i h e
    | inr before ↦
        let (q, h0, slots) = moves x q' h in
        let same : pick q' i ≡ pick q i = elim (slots i) [
          | inl e ↦ e
          | inr (_, live) ↦ absurd (live (Passed-false (pick q' i) before))
        ] in
        let held = old x q i h0 (subst (Passed from st.decision_tracker) same before) in
        elim (slots (other_index i)) [
          | inl e ↦
              eval-Extends (pick q' (other_index i)) st.decision_tracker st'.decision_tracker true
                more.extends (ap (λ a. eval a st.decision_tracker.map) e ∙ held)
          | inr (at, _) ↦
              let f = ap (λ a. eval a st.decision_tracker.map) at ∙ not_satisfied in absurd (cc)
        ]
  ]
