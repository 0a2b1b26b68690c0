-- ===== src/Propagation/Outer.antt =====
-- The outer loop of `propagate_impl` in src/solver/mod.rs: it ends, since every round marks one more
-- decision as propagated and there are no more decisions than variables.
use resolvo.Prelude.{
  ℕ, zero, suc, ◌+◌, ◌≡◌, ◌≤◌, ◌<◌, refl, sym, ap, ◌∙◌, inl, inr, Bool, false, none, some, List,
  arith, ok, Returns, length, Bool-cases, ltb,
}
use resolvo.DecisionMap.{VariableId}
use resolvo.DecisionTracker.{
  ClauseId, Decision, DecisionTracker, assigned_value, level, nth_decision, next_unpropagated,
}
use resolvo.Literal.{Literal, new}
use resolvo.Propagation.{
  Problem, SolverState, PropagationError, Outcome, success, failure, propagate_literal,
  propagate_decisions,
}
use resolvo.Propagation.Models.{IsModel, Agrees, Extends, Mentions}
use resolvo.Propagation.Invariant.{IsReady}
use resolvo.Propagation.Progress.{Progress, IsRefuted}
use resolvo.Propagation.Walk.{Walked, propagate_literal-Walked}
use resolvo.Propagation.Passed.{marked, marked_state, AllPassed, AllPassed-step, nth-false}
use resolvo.Propagation.Bounds.{
  InBounds, length-chains, length-stack, nth_decision-below, nth_decision-above,
}

-- Decisions are only added, and only such as all models of the clauses make.
abbrev pub Grows : Problem → DecisionTracker → DecisionTracker → Type 0
Grows p t t' = Extends t t' × ((σ : VariableId → Bool) → IsModel p σ → Agrees σ t → Agrees σ t')

marked-IsReady :
    (p : Problem) (lv : ℕ) (st : SolverState) (chains : Literal → List ClauseId)
    → IsReady p lv st chains
    → st.decision_tracker.propagate_index < length st.decision_tracker.stack
    → IsReady p lv (marked_state st) chains
unfolding assigned_value level
marked-IsReady p lv st chains ready more = record {
  lists = ready.lists;
  trail = record {
    propagated = omega arith;
    floored = ready.trail.floored;
    agrees = ready.trail.agrees;
    distinct = ready.trail.distinct;
    levelled = ready.trail.levelled;
  };
  fits = ready.fits;
  below = ready.below;
  watched = ready.watched;
}

marked-assigned :
    (t : DecisionTracker) (v : VariableId) → assigned_value (marked t) v ≡ assigned_value t v
unfolding assigned_value
marked-assigned t v = refl

next_unpropagated-some :
    (t : DecisionTracker) (d : Decision)
    → t.propagate_index < length t.stack
    → nth_decision t.stack t.propagate_index ≡ some d
    → next_unpropagated t ≡ ok (some d, marked t)
unfolding next_unpropagated
next_unpropagated-some t d h e =
    let f : ltb (length t.stack) t.propagate_index ≡ false = ground arith in
    rw (f, next_unpropagated, e)

next_unpropagated-none :
    (t : DecisionTracker) → t.propagate_index ≡ length t.stack → next_unpropagated t ≡ ok (none, t)
unfolding next_unpropagated
next_unpropagated-none t h =
    let f : ltb (length t.stack) t.propagate_index ≡ false = ground arith in
    let e = nth_decision-above t.stack t.propagate_index (omega arith) in
    rw (f, next_unpropagated, e)

-- What the outer loop comes to, where the decisions from `from` on were to be propagated.
pub data Propagated (p : Problem) (lv from : ℕ) (st : SolverState)
    (r : Outcome (Unit {0}) × SolverState) : Type 0 where
  settled :
      (st' : SolverState) (chains' : Literal → List ClauseId)
      → r ≡ (success tt, st')
      → IsReady p lv st' chains'
      → st'.decision_tracker.propagate_index ≡ length st'.decision_tracker.stack
      → Grows p st.decision_tracker st'.decision_tracker
      → AllPassed from st'
      → Propagated p lv from st r
  conflicted :
      (e : PropagationError) (st' : SolverState) (chains' : Literal → List ClauseId)
      → r ≡ (failure e, st')
      → IsReady p lv st' chains'
      → Grows p st.decision_tracker st'.decision_tracker
      → IsRefuted p st.decision_tracker
      → Propagated p lv from st r

pub Propagated-after :
    (p : Problem) (lv from : ℕ) (st st' : SolverState) (r : Outcome (Unit {0}) × SolverState)
    → Grows p st.decision_tracker st'.decision_tracker
    → Propagated p lv from st' r
    → Propagated p lv from st r
Propagated-after p lv from st st' r a (Propagated.settled s ch e ready all b passed) =
    Propagated.settled s ch e ready all
      ((λ v x h. b.0 v x (a.0 v x h)), λ σ m agrees. b.1 σ m (a.1 σ m agrees)) passed
Propagated-after p lv from st st' r a (Propagated.conflicted err s ch e ready b refuted) =
    Propagated.conflicted err s ch e ready
      ((λ v x h. b.0 v x (a.0 v x h)), λ σ m agrees. b.1 σ m (a.1 σ m agrees))
      (λ σ m agrees. refuted σ m (a.1 σ m agrees))

module _ (p : Problem) (lv inner : ℕ) (st : SolverState) (d : Decision)
    (next : next_unpropagated st.decision_tracker ≡ ok (some d, marked st.decision_tracker)) where
  propagate_decisions-success :
      (fuel : ℕ) (st₁ : SolverState)
      → propagate_literal inner p lv (marked_state st) (new d.variable d.value)
        ≡ ok (success tt, st₁)
      → propagate_decisions (suc fuel) inner p lv st ≡ propagate_decisions fuel inner p lv st₁
  unfolding propagate_decisions
  propagate_decisions-success fuel st₁ run = rw (next, propagate_decisions, run)

  propagate_decisions-failure :
      (fuel : ℕ) (st₁ : SolverState) (e : PropagationError)
      → propagate_literal inner p lv (marked_state st) (new d.variable d.value)
        ≡ ok (failure e, st₁)
      → propagate_decisions (suc fuel) inner p lv st ≡ ok (failure e, st₁)
  unfolding propagate_decisions
  propagate_decisions-failure fuel st₁ e run = rw (next, propagate_decisions, run)

propagate_decisions-end :
    (p : Problem) (lv inner fuel : ℕ) (st : SolverState)
    → next_unpropagated st.decision_tracker ≡ ok (none, st.decision_tracker)
    → propagate_decisions (suc fuel) inner p lv st ≡ ok (success tt, st)
unfolding propagate_decisions
propagate_decisions-end p lv inner fuel st next = rw (next, propagate_decisions)

InBounds-Progress :
    (p : Problem) (n : ℕ) (t t' : DecisionTracker)
    → ((v : VariableId) → Mentions p v → v < n)
    → Progress p (marked t) t'
    → InBounds n t
    → InBounds n t'
InBounds-Progress p n t t' low more bound v b h = elim (more.fresh v b h) [
  | inl e ↦ bound v b (sym (marked-assigned t v) ∙ e)
  | inr m ↦ low v m
]

marked-Grows : (p : Problem) (t t' : DecisionTracker) → Progress p (marked t) t' → Grows p t t'
marked-Grows p t t' more = (
  λ v b h. more.extends v b (marked-assigned t v ∙ h),
  λ σ m agrees. more.sound σ m (λ v b h. agrees v b (sym (marked-assigned t v) ∙ h)),
)

-- In a ready state, where every clause one of whose watches was turned false by a propagated
-- decision, at `from` or later, watches another literal that is true, the variables of the clauses
-- and of the trail are below `n`, `inner` is at least the number of clauses and `fuel` one unit more
-- than `n` less the decisions that are propagated already, propagation does not panic and ends.
-- Either it succeeds: then all decisions are propagated, of every clause one of whose watches was
-- turned false by any decision, at `from` or later, another watch is true, and every model of the
-- clauses that agrees with the trail before agrees with it after. Or it reports a conflict: then no
-- model of the clauses agrees with the trail. In both cases the state is ready again, and what was
-- decided stays.
pub propagate_decisions-Propagated :
    (fuel inner : ℕ) (p : Problem) (lv n from : ℕ) (st : SolverState)
    (chains : Literal → List ClauseId)
    → IsReady p lv st chains
    → AllPassed from st
    → ((v : VariableId) → Mentions p v → v < n)
    → InBounds n st.decision_tracker
    → length p.kinds ≤ inner
    → n < fuel + st.decision_tracker.propagate_index
    → Returns (propagate_decisions fuel inner p lv st) (Propagated p lv from st)
propagate_decisions-Propagated zero inner p lv n from st chains ready passed low bound wide enough =
    let a = length-stack n st.decision_tracker ready.trail bound in
    let b = ready.trail.propagated in absurd (omega arith)
propagate_decisions-Propagated (suc fuel) inner p lv n from st chains ready passed low bound wide
      enough =
    let t = st.decision_tracker in
    elim (Bool-cases (ltb t.propagate_index (length t.stack))) [
      | inr done ↦
          let at_end : t.propagate_index ≡ length t.stack =
            let b = ready.trail.propagated in ground arith in
          (
            (success tt, st),
            propagate_decisions-end p lv inner fuel st (next_unpropagated-none t at_end),
            Propagated.settled st chains refl ready at_end ((λ v b h. h), λ σ m agrees. agrees)
                passed,
          )
      | inl more ↦
          let less : t.propagate_index < length t.stack = ground arith in
          let (d, e) = nth_decision-below t.stack t.propagate_index less in
          let next = next_unpropagated-some t d less e in
          let l = new d.variable d.value in
          let ready' = marked-IsReady p lv st chains ready less in
          let (r, run, walked) =
            propagate_literal-Walked inner p lv (marked_state st) chains l ready'
              (nth-false t t.propagate_index d ready.trail e)
              (let a = length-chains p lv st chains l ready in omega arith) in
          elim walked [
            | Walked.finished st₁ chains₁ e₁ ready₁ grown all moves ↦
                let i = grown.index in
                let passed₁ =
                  AllPassed-step p lv from st st₁ d chains chains₁ ready ready₁ less e grown all
                    moves passed in
                let (s, run', rest) =
                  propagate_decisions-Propagated fuel inner p lv n from st₁ chains₁ ready₁ passed₁
                    low (InBounds-Progress p n t st₁.decision_tracker low grown bound) wide
                    (omega arith) in
                (
                  s,
                  propagate_decisions-success p lv inner st d next fuel st₁ (run ∙ ap ok e₁) ∙ run',
                  Propagated-after p lv from st st₁ s (marked-Grows p t st₁.decision_tracker grown)
                      rest,
                )
            | Walked.conflicted err st₁ chains₁ e₁ ready₁ grown refuted ↦ (
              (failure err, st₁),
              propagate_decisions-failure p lv inner st d next fuel st₁ err (run ∙ ap ok e₁),
              Propagated.conflicted err st₁ chains₁ refl ready₁
                  (marked-Grows p t st₁.decision_tracker grown)
                  (λ σ m agrees. refuted σ m (λ v b h. agrees v b (sym (marked-assigned t v) ∙ h))),
            )
          ]
    ]
