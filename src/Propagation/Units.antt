-- ===== src/Propagation/Units.antt =====
-- Clauses of one literal, which `decide_assertions` and `decide_learned` of src/solver/mod.rs decide.
use resolvo.Prelude.{
  ℕ, ◌≡◌, ◌≤◌, refl, sym, ◌∙◌, subst, Bool, true, false, not, none, some, ◌∷◌, arith, Run, ok,
  Returns, ◌==◌, ==_iff, Bool-cases, ==_refl, if◌then◌else◌, inl, inr,
}
use resolvo.DecisionMap.{VariableId}
use resolvo.DecisionMap.Laws.{IsLevel}
use resolvo.DecisionTracker.{
  ClauseId, Decision, DecisionTracker, assigned_value, level, try_add_decision, nth_decision,
}
use resolvo.DecisionTracker.Invariant
use resolvo.DecisionTracker.Invariant.{last_level}
use resolvo.DecisionTracker.Add.{Adds, try_add_decision-Adds}
use resolvo.Propagation.{Problem, PropagationError, conflict, Outcome, success, failure, decide_one}
use resolvo.Propagation.Models.{IsModel, Mentions}
use resolvo.Propagation.Progress.{Progress, IsRefuted, same-Progress, try_add_decision-index}
use resolvo.Propagation.Bounds.{nth_decision-cons}
use resolvo.Propagation.Walk.{trans-Progress}

-- A trail on which decisions at the level can be made.
pub record IsOpen (lv : ℕ) (t : DecisionTracker) : Type 0 where
  pub trail : Invariant.IsValid t
  pub fits : IsLevel lv
  pub below : last_level (level t) t.stack ≤ lv

-- What a run over such clauses comes to.
pub data Decided (p : Problem) (lv : ℕ) (t : DecisionTracker) (All_hold : DecisionTracker → Type 0)
    (r : Outcome (Unit {0}) × DecisionTracker) : Type 0 where
  asserted :
      r.0 ≡ success tt → IsOpen lv r.1 → Progress p t r.1 → All_hold r.1 → Decided p lv t All_hold r
  refuted :
      (e : PropagationError)
      → r.0 ≡ failure e
      → IsOpen lv r.1
      → Progress p t r.1
      → IsRefuted p t
      → Decided p lv t All_hold r

pub Decided-weaken :
    (p : Problem) (lv : ℕ) (t : DecisionTracker) (Q R : DecisionTracker → Type 0)
    (r : Outcome (Unit {0}) × DecisionTracker)
    → ((k : DecisionTracker) → Q k → R k)
    → Decided p lv t Q r
    → Decided p lv t R r
Decided-weaken p lv t Q R r f (Decided.asserted e ready more all) =
    Decided.asserted e ready more (f r.1 all)
Decided-weaken p lv t Q R r f (Decided.refuted err e ready more none_left) =
    Decided.refuted err e ready more none_left

-- A variable that every model gives one value.
module _ (p : Problem) (lv : ℕ) (t : DecisionTracker) (v : VariableId) (b : Bool) (id : ClauseId)
    (forced : (σ : VariableId → Bool) → IsModel p σ → σ v ≡ b) (mentions : Mentions p v) where
  abbrev decision : Decision
  decision = record { variable = v; value = b; derived_from = id }

  decide_one-some :
      (c : Bool) (t' : DecisionTracker)
      (rest : DecisionTracker → Run (Outcome (Unit {0}) × DecisionTracker))
      → try_add_decision t decision lv ≡ some (c, t')
      → decide_one v b id lv t rest ≡ rest t'
  unfolding decide_one
  decide_one-some c t' rest e = rw (e, decide_one)

  decide_one-none :
      (rest : DecisionTracker → Run (Outcome (Unit {0}) × DecisionTracker))
      → try_add_decision t decision lv ≡ none
      → decide_one v b id lv t rest ≡ ok (failure (conflict v b id), t)
  unfolding decide_one
  decide_one-none rest e = rw (e, decide_one)

  decided-Progress :
      (t' : DecisionTracker)
      → t'.propagate_index ≡ t.propagate_index
      → t'.stack ≡ decision ∷ t.stack
      → assigned_value t v ≡ none
      → ((x : VariableId) → assigned_value t' x ≡ (if v == x then some b else assigned_value t x))
      → Progress p t t'
  decided-Progress t' index stack free values = record {
    extends = λ x b h. ground (arith, values x);
    sound = λ σ model agrees x c h. elim (Bool-cases (v == x)) [
      | inl mine ↦
          let e = (==_iff v x).0 mine in
          let same : some b ≡ some c = sym (values x ∙ rw mine refl) ∙ h in
          let is = forced σ model in subst (λ y. σ y ≡ c) e (is ∙ ground arith)
      | inr other ↦ agrees x c (sym (values x ∙ rw other refl) ∙ h)
    ];
    index = index;
    kept = λ k d h.
        subst (λ s. nth_decision s k ≡ some d) (sym stack)
          (nth_decision-cons t.stack decision k d h);
    fresh = λ x b h. elim (Bool-cases (v == x)) [
      | inl mine ↦ inr (subst (Mentions p) ((==_iff v x).0 mine) mentions)
      | inr not_mine ↦ inl (ground (arith, values x))
    ];
  }

  decided-IsOpen :
      (t' : DecisionTracker)
      → IsLevel lv
      → Invariant.IsValid t'
      → t'.stack ≡ decision ∷ t.stack
      → ((x : VariableId) → level t' x ≡ (if v == x then lv else level t x))
      → IsOpen lv t'
  decided-IsOpen t' fits valid stack levels = record {
    trail = valid;
    fits = fits;
    below =
        let e : level t' v ≡ lv = levels v ∙ rw (==_refl v) in
        subst (λ s. last_level (level t') s ≤ lv) (sym stack) (omega (arith, e));
  }

  -- The rest, after this variable is decided.
  Decided-cons :
      (t' : DecisionTracker) (All_hold : DecisionTracker → Type 0)
      (r : Outcome (Unit {0}) × DecisionTracker)
      → Progress p t t'
      → assigned_value t' v ≡ some b
      → Decided p lv t' All_hold r
      → Decided p lv t (λ k. (assigned_value k v ≡ some b) × All_hold k) r
  Decided-cons t' All_hold r more here (Decided.asserted e ready more' all) =
      Decided.asserted e ready (trans-Progress p t t' r.1 more more') (more'.extends v b here, all)
  Decided-cons t' All_hold r more here (Decided.refuted err e ready more' none_left) =
      Decided.refuted err e ready (trans-Progress p t t' r.1 more more')
        (λ σ m agrees. none_left σ m (more.sound σ m agrees))

  -- One such clause, when the rest is known.
  pub decide_one-Decided :
      (rest : DecisionTracker → Run (Outcome (Unit {0}) × DecisionTracker))
      (All_hold : DecisionTracker → Type 0)
      → ((t' : DecisionTracker) → IsOpen lv t' → Returns (rest t') (Decided p lv t' All_hold))
      → IsOpen lv t
      → Returns
          (decide_one v b id lv t rest)
          (Decided p lv t (λ k. (assigned_value k v ≡ some b) × All_hold k))
  decide_one-Decided rest All_hold go ready =
      elim (try_add_decision-Adds t decision lv ready.trail ready.fits ready.below) [
        | Adds.decided t' added free stack values levels valid ↦
            let (r, run, done) = go t' (decided-IsOpen t' ready.fits valid stack levels) in
            (
              r,
              decide_one-some true t' rest added ∙ run,
              Decided-cons t' All_hold r
                  (decided-Progress t' (try_add_decision-index t t' decision lv true added) stack
                    free values)
                  (values v ∙ rw (==_refl v)) done,
            )
        | Adds.known added e ↦
            let (r, run, done) = go t ready in
            (
              r,
              decide_one-some false t rest added ∙ run,
              Decided-cons t All_hold r (same-Progress p t) e done,
            )
        | Adds.contrary added e ↦ (
          (failure (conflict v b id), t),
          decide_one-none rest added,
          Decided.refuted (conflict v b id) refl ready (same-Progress p t) (λ σ model agrees.
              let is = forced σ model in let h = agrees v (not b) e in ground arith),
        )
      ]
