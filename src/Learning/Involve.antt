-- ===== src/Learning/Involve.antt =====
-- The decisions that are involved in a conflict of the first level, in `analyze_unsolvable` of
-- src/solver/mod.rs.
use resolvo.Prelude.{
  ◌≡◌, ◌≢◌, ◌⊎◌, refl, ap, ◌∙◌, subst, inl, inr, Bool, true, false, not, none, some, List, [], ◌∷◌,
  arith, ok, Returns, Elem, All, get_elem?, ==_refl, ==_false,
}
use resolvo.DecisionMap.{VariableId}
use resolvo.DecisionTracker.{ClauseId, Decision, DecisionTracker, assigned_value}
use resolvo.DecisionTracker.Invariant
use resolvo.DecisionTracker.Invariant.{stack_value, Distinct}
use resolvo.Literal.{Literal, eval, variable, satisfying_value}
use resolvo.Clause.{Clause, root, literals}
use resolvo.Propagation.{Problem}
use resolvo.Propagation.Models.{HoldsAll, assigned-eval, not-value}
use resolvo.Analysis.Trail.{IsOwn, IsFalseIn, IsReason}
use resolvo.Learning.{Solver, Conflict, involve}

-- Every decision but the root's has a reason.
abbrev pub RootReasons : Problem → List Decision → Type 0
RootReasons p [] = Unit
RootReasons p (d ∷ ds) = ((d.variable ≡ root) ⊎ IsReason p d ds) × RootReasons p ds

-- A conflict of the first level. Its clause is false.
pub record IsRootConflict (s : Solver) (id : ClauseId) : Type 0 where
  pub trail : Invariant.IsValid s.state.decision_tracker
  pub reasons : RootReasons s.problem s.state.decision_tracker.stack
  pub installed : assigned_value s.state.decision_tracker root ≡ some true
  pub install_root : get_elem? s.problem.kinds 0 ≡ some Clause.install_root
  pub clause : Clause
  pub ls : List Literal
  pub has_clause : get_elem? s.problem.kinds id ≡ some clause
  pub has_literals : literals s.problem.tables clause ≡ ok ls
  pub falsified : All (λ l. eval l s.state.decision_tracker.map ≡ some false) ls

-- Of the decisions, one that is involved is not as decided.
pub record Witness (ds : List Decision) (involved : List VariableId) (σ : VariableId → Bool)
    : Type 0 where
  pub var : VariableId
  pub value : Bool
  pub in_involved : Elem var involved
  pub no_root : var ≢ root
  pub decided : stack_value ds var ≡ some value
  pub differs : σ var ≡ not value

-- An assignment that satisfies the conflict so far has a witness among the decisions that are left.
abbrev pub HasWitness : Problem → Conflict → List Decision → List VariableId → Type 0
HasWitness p conflict ds involved =
    (σ : VariableId → Bool) → σ root ≡ true → HoldsAll p σ conflict → Witness ds involved σ

-- The part of the trail that is left.
abbrev pub IsPart : DecisionTracker → List Decision → Type 0
IsPart t ds = (v : VariableId) (b : Bool) → stack_value ds v ≡ some b → assigned_value t v ≡ some b

-- A witness that is not of the last decision is among the others.
pub skip-Witness :
    (d : Decision) (ds : List Decision) (involved involved' : List VariableId)
    (σ : VariableId → Bool)
    → ((v : VariableId) → Elem v involved → Elem v involved')
    → (w : Witness (d ∷ ds) involved σ) → d.variable ≢ w.var
    → Witness ds involved' σ
skip-Witness d ds involved involved' σ grown w ne = record {
  var = w.var;
  value = w.value;
  in_involved = grown w.var w.in_involved;
  no_root = w.no_root;
  decided = let e = ==_false d.variable w.var ne in let h = w.decided in ground arith;
  differs = w.differs;
}

module _ (t : DecisionTracker) (d : Decision) (ds : List Decision) (part : IsPart t (d ∷ ds))
    (u : Distinct (d ∷ ds)) where
  pub IsPart-below : IsPart t ds
  IsPart-below v b h =
      part v b (
        rw (==_false d.variable v (λ e. let z = subst (λ x. stack_value ds x ≡ none) e u.0 in cc))
          h)

  pub own-true : (l : Literal) → IsOwn d l → eval l t.map ≡ some true
  own-true l (same, is) =
      assigned-eval l t true
        (rw (same, is) (part d.variable d.value (rw (==_refl d.variable) refl)))

  own-no_false : (l : Literal) → IsOwn d l → IsFalseIn ds l → ⊥
  own-no_false l (same, is) f =
      let z = subst (λ v. stack_value ds v ≡ some (not (satisfying_value l))) same f in
      let h = u.0 in cc

  part-false : (l : Literal) → IsFalseIn ds l → eval l t.map ≡ some false
  part-false l f =
      assigned-eval l t false
        (IsPart-below (variable l) _ f ∙ ap some (not-value (satisfying_value l)))

  -- The asserted literal is the only true one, and the variables of the others become involved.
  pub involve-Involved :
      (ls : List Literal) (involved : List VariableId)
      → All (λ l. IsOwn d l ⊎ IsFalseIn ds l) ls
      → Returns (involve t d ls involved) (λ involved'.
        ((v : VariableId) → Elem v involved → Elem v involved')
        × ((l : Literal) → Elem l ls → IsFalseIn ds l → Elem (variable l) involved'))
  unfolding involve
  involve-Involved [] involved h = (involved, refl, ((λ v m. m), (λ l m f. elim m [ ])))
  involve-Involved (l ∷ ls) involved (inl own, rest) =
      let (involved', run, (grown, all)) = involve-Involved ls involved rest in
      (
        involved',
        rw (own-true l own, own.0, ==_refl d.variable) run,
        (
          grown,
          (λ k m g. elim m [
            | inl e ↦ absurd (own-no_false l own (subst (IsFalseIn ds) e g))
            | inr m ↦ all k m g
          ]),
        ),
      )
  involve-Involved (l ∷ ls) involved (inr f, rest) =
      let (involved', run, (grown, all)) = involve-Involved ls (variable l ∷ involved) rest in
      (
        involved',
        rw (part-false l f) run,
        (
          (λ v m. grown v (inr m)),
          (λ k m g. elim m [ inl e ↦ grown _ (inl (ap variable e)) | inr m ↦ all k m g ]),
        ),
      )
