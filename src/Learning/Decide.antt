-- ===== src/Learning/Decide.antt =====
-- `learn_from_conflict` of src/solver/mod.rs above the first level decides the learnt literal.
use resolvo.Prelude.{
  ℕ, ◌<◌, ◌^◌, ◌≡◌, ◌↔◌, refl, sym, ap, ◌∙◌, subst, inl, inr, Bool, List, [], ◌∷◌, ◌++◌, arith,
  Returns, Elem, Elem-All, some, none, false, leb, ◌==◌, if◌then◌else◌, Elem-append, length,
  ==_refl, ==_false,
}
use resolvo.DecisionMap.{VariableId}
use resolvo.DecisionTracker.{ClauseId, Decision, assigned_value, level}
use resolvo.DecisionTracker.Invariant
use resolvo.DecisionTracker.Invariant.{last_level}
use resolvo.DecisionTracker.Add.{Adds, try_add_decision-Adds}
use resolvo.Literal.{Literal, eval, variable, satisfying_value}
use resolvo.Clause.{Clause}
use resolvo.Propagation.Models.{IsModel, eval-Extends}
use resolvo.Analysis.Trail.{IsReason}
use resolvo.Analysis.Pending.{assigned_value-false}
use resolvo.Learning.{Solver, Learnt, learned, decide_last, learn_from_conflict}
use resolvo.Learning.Valid.{IsValid, Extended, tracked-IsValid, kinds-new, literals-new}
use resolvo.Learning.Analyze.{IsConflict, Learns, analyze-Learns}

-- What `learn_from_conflict` leaves: one clause more, on the old trail without the decisions above
-- the level, where its last literal is decided and the others are false.
pub record Redecided (s : Solver) (lv l : ℕ) (s' : Solver) : Type 0 where
  pub positive : 0 < l
  pub lower : l < lv
  pub valid : (chains : Literal → List ClauseId) × IsValid s' chains
  pub same_models : (σ : VariableId → Bool) → IsModel s.problem σ ↔ IsModel s'.problem σ
  pub trail : Invariant.IsValid s'.state.decision_tracker
  pub others : List Literal
  pub last_literal : Literal
  pub extended : Extended s.problem (others ++ last_literal ∷ []) s'.problem
  pub ids :
      s'.problem.learnt_clause_ids ≡ s.problem.learnt_clause_ids ++ length s.problem.kinds ∷ []
  pub last : Decision
  pub below : List Decision
  pub stack : s'.state.decision_tracker.stack ≡ last ∷ below
  pub last_variable : last.variable ≡ variable last_literal
  pub last_value : last.value ≡ satisfying_value last_literal
  pub last_clause : last.derived_from ≡ length s.problem.kinds
  pub values :
      (v : VariableId)
      → assigned_value s'.state.decision_tracker v ≡ (
          if variable last_literal == v
          then some (satisfying_value last_literal)
          else if leb (level s.state.decision_tracker v) l
          then assigned_value s.state.decision_tracker v
          else none)
  pub falsified : (k : Literal) → Elem k others → eval k s'.state.decision_tracker.map ≡ some false
  pub last_level : level s'.state.decision_tracker last.variable ≡ l
  pub reason : IsReason s'.problem last below

module _ (s : Solver) (lv : ℕ) (r : Learnt) (s' : Solver) (learns : Learns s lv r s')
    (valid : (chains : Literal → List ClauseId) × IsValid s chains) where
  abbrev asserted : Decision
  asserted = record {
    variable = variable r.last_literal;
    value = satisfying_value r.last_literal;
    derived_from = r.clause_id;
  }

  asserted-IsReason : IsReason s'.problem asserted s'.state.decision_tracker.stack
  asserted-IsReason = record {
    clause = Clause.learnt (length s.problem.tables.learnt_clauses);
    ls = learns.others ++ r.last_literal ∷ [];
    has_clause = rw learns.same_id (
        kinds-new s.problem (learns.others ++ r.last_literal ∷ []) s'.problem learns.extended
          valid.1.stored);
    has_literals =
        literals-new s.problem (learns.others ++ r.last_literal ∷ []) s'.problem learns.extended
          valid.1.stored;
    forces = Elem-All _ (learns.others ++ r.last_literal ∷ []) (λ l m.
        elim (Elem-append l learns.others (r.last_literal ∷ []) m) [
          | inl old ↦ inr (
              sym (learns.trail.agrees (variable l))
              ∙ assigned_value-false s'.state.decision_tracker l (learns.falsified l old))
          | inr (inl e) ↦ inl (ap variable e, ap satisfying_value e)
          | inr (inr none_left) ↦ elim none_left [ ]
        ]);
  }

  decide_last-Redecided :
      lv < 2 ^ 31
      → Returns
          (decide_last (r, s'))
          (λ o. (l : ℕ) × (s'' : Solver) × (o ≡ learned l s'') × Redecided s lv l s'')
  unfolding decide_last
  decide_last-Redecided fits =
      let t = s'.state.decision_tracker in
      let free = learns.free in
      let low = learns.lower in
      let adds =
        try_add_decision-Adds t asserted r.target_level learns.trail (learns.positive, omega arith)
          learns.below in
      elim adds [
        | Adds.known run is ↦ cc
        | Adds.contrary run is ↦ cc
        | Adds.decided t' run undecided stack values levels trail ↦ (
          _,
          rw run refl,
          (
            r.target_level,
            record s' { state = record s'.state { decision_tracker = t' } },
            refl,
            record {
              positive = learns.positive;
              lower = learns.lower;
              valid = (learns.valid.0, tracked-IsValid s' learns.valid.0 t' learns.valid.1);
              same_models = learns.same_models;
              trail = trail;
              others = learns.others;
              last_literal = r.last_literal;
              extended = learns.extended;
              ids = learns.ids ∙ ap (λ i. s.problem.learnt_clause_ids ++ i ∷ []) learns.same_id;
              last_variable = refl;
              last_value = refl;
              last_clause = learns.same_id;
              values = λ v.
                  values v
                  ∙ ap (λ o. if asserted.variable == v then some asserted.value else o)
                      (learns.values v);
              falsified = λ k m.
                  eval-Extends k t t' false
                    (λ v b h.
                      values v
                      ∙ rw
                          (==_false asserted.variable v
                            (λ e. let n = subst (λ x. assigned_value t x ≡ none) e free in cc))
                          h)
                    (learns.falsified k m);
              last = asserted;
              below = t.stack;
              stack = stack;
              last_level = levels asserted.variable ∙ rw (==_refl asserted.variable) refl;
              reason = asserted-IsReason;
            },
          ),
        )
      ]

-- In a valid state, on a trail where every decision has a reason or begins a level, at a level
-- above the first and below 2 ^ 31 that no decision exceeds, for a false clause with a literal of
-- that level, `learn_from_conflict` ends without a panic. It adds one clause, which changes no models
-- and whose id is noted behind the ids of the learnt clauses, and goes back to a lower level, at
-- least the first. The trail is the old one without the decisions above that level, and with the
-- last literal of the new clause decided at that level, for which the clause is the reason: its
-- other literals are false. The state and the trail are valid again.
pub learn_from_conflict-Redecided :
    (s : Solver) (chains : Literal → List ClauseId) (lv : ℕ) (v : VariableId) (id : ClauseId)
    → IsValid s chains
    → IsConflict s lv id
    → Returns
        (learn_from_conflict s lv v id)
        (λ o. (l : ℕ) × (s' : Solver) × (o ≡ learned l s') × Redecided s lv l s')
unfolding learn_from_conflict
learn_from_conflict-Redecided s chains lv v id valid con =
    let high = con.conflicting.high in
    let ((r, s'), run, learns) = analyze-Learns s chains lv v id valid con in
    let (o, run', done) = decide_last-Redecided s lv r s' learns (chains, valid) con.fits in
    (o, rw (==_false lv 1 (λ e. omega arith), run) run', done)
