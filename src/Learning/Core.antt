-- ===== src/Learning/Core.antt =====
-- `analyze_unsolvable` of src/solver/mod.rs: the clauses of the conflict cannot hold together once the
-- root is to be installed.
use resolvo.Prelude.{
  suc, ◌≡◌, ◌≢◌, ◌⊎◌, refl, sym, ◌∙◌, subst, inl, inr, Bool, true, false, not, some, List, [], ◌∷◌,
  map, arith, ok, Returns, any-Elem, Elem-any, Elem-map, Elem, All-Elem, get_elem?, get_elem?-less,
  ◌==◌, ==_iff, ==_refl, ==_false, Bool-cases,
}
use resolvo.DecisionMap.{VariableId}
use resolvo.DecisionTracker.{ClauseId, Decision, DecisionTracker, assigned_value}
use resolvo.DecisionTracker.Invariant.{Distinct, stack_value}
use resolvo.Literal.{Literal, variable, satisfying_value}
use resolvo.Clause.{Clause, root, literals}
use resolvo.Propagation.Models.{holds, HoldsAll}
use resolvo.Analysis.{contains}
use resolvo.Analysis.Trail.{IsOwn, IsFalseIn, IsReason}
use resolvo.Analysis.Pending.{assigned_value-false}
use resolvo.Analysis.Round.{holds-value}
use resolvo.Learning.{
  Solver, Gathered, last_decision, explain, explain_decisions, analyze_unsolvable,
}
use resolvo.Learning.Valid.{IsValid}
use resolvo.Learning.Gather.{Explains, IsGathered, AllGiven, analyze_unsolvable_clause-Gathers}
use resolvo.Learning.Involve.{
  RootReasons, IsRootConflict, Witness, HasWitness, IsPart, skip-Witness, IsPart-below,
  involve-Involved,
}

-- An asserted literal that holds gives the decision's value.
own-differs :
    (d : Decision) (ds : List Decision) (involved : List VariableId) (σ : VariableId → Bool)
    → (w : Witness (d ∷ ds) involved σ) → d.variable ≡ w.var
    → (l : Literal) → IsOwn d l
    → holds σ l ≡ true
    → ⊥
own-differs d ds involved σ w same l own h =
    let e = holds-value σ l h in
    let is : σ d.variable ≡ d.value = subst (λ v. σ v ≡ d.value) own.0 (e ∙ own.1) in
    let is' : σ w.var ≡ d.value = subst (λ v. σ v ≡ d.value) same is in
    let q = (==_iff d.variable w.var).1 same in
    let value : some d.value ≡ some w.value = sym (rw q refl) ∙ w.decided in
    let n = w.differs in ground arith

-- The clause of the conflict, or of a reason, follows from the conflict gathered.
module _ (s : Solver) (chains : Literal → List ClauseId) (valid : IsValid s chains) (id : ClauseId)
    (con : IsRootConflict s id) where
  abbrev t : DecisionTracker
  t = s.state.decision_tracker

  -- The root is installed by the clause 0 without literals, which is no reason.
  reason-positive :
      (d : Decision) (ds : List Decision) → IsReason s.problem d ds → d.derived_from ≢ 0
  unfolding literals
  reason-positive d ds reason e =
      let h = reason.has_clause in
      let l = reason.has_literals in
      let i = con.install_root in
      let h' : get_elem? s.problem.kinds 0 ≡ some reason.clause =
        subst (λ x. get_elem? s.problem.kinds x ≡ some reason.clause) e h in
      let same : Clause.install_root ≡ reason.clause = cc in
      let l' : literals s.problem.tables Clause.install_root ≡ ok reason.ls =
        subst (λ c. literals s.problem.tables c ≡ ok reason.ls) (sym same) l in
      cc

  -- A literal that is false on the trail but holds is on a variable that differs, and is not the
  -- root's.
  false-Witness :
      (ds : List Decision) (involved : List VariableId) (σ : VariableId → Bool) (l : Literal)
      → IsPart t ds
      → σ root ≡ true
      → IsFalseIn ds l
      → holds σ l ≡ true
      → Elem (variable l) involved
      → Witness ds involved σ
  false-Witness ds involved σ l part is f h m =
      let e = holds-value σ l h in
      record {
        var = variable l;
        value = not (satisfying_value l);
        in_involved = m;
        no_root = λ q.
            let a = part (variable l) _ f in
            let a' : assigned_value t root ≡ some (not (satisfying_value l)) =
              subst (λ v. assigned_value t v ≡ some (not (satisfying_value l))) q a in
            let b : σ root ≡ satisfying_value l = subst (λ v. σ v ≡ satisfying_value l) q e in
            let i = con.installed in ground arith;
        decided = f;
        differs = e ∙ ground arith;
      }

  module _ (d : Decision) (ds : List Decision) (part : IsPart t (d ∷ ds)) (u : Distinct (d ∷ ds))
      (involved : List VariableId) (g : Gathered) (inv : IsGathered s.problem [] g)
      (has : HasWitness s.problem g.0 (d ∷ ds) involved) where
    -- The root's decision, and one that is not involved, is no witness.
    skip-HasWitness :
        (d.variable ≡ root) ⊎ (contains involved d.variable ≡ false)
        → HasWitness s.problem g.0 ds involved
    skip-HasWitness why σ is all =
        let w = has σ is all in
        skip-Witness d ds involved involved σ (λ v m. m) w
          (λ e. elim why [
            | inl r ↦ w.no_root (sym e ∙ r)
            | inr not_in ↦
                let m =
                  Elem-any (λ x. x == d.variable) d.variable involved
                    (subst (λ v. Elem v involved) (sym e) w.in_involved) (==_refl d.variable) in
                cc
          ])

    -- The reason of one that is involved follows from the conflict, and has another witness.
    explain-HasWitness :
        IsReason s.problem d ds
        → Returns
            (explain s d involved g)
            (λ r. IsGathered s.problem [] r.1 × HasWitness s.problem r.1.0 ds r.0)
    unfolding explain
    explain-HasWitness reason =
        let id = d.derived_from in
        let (g', run, (gathers, exp)) =
          analyze_unsolvable_clause-Gathers s.problem s.learnt_why valid.causes (suc id) id [] g
            (omega arith)
            (get_elem?-less s.problem.kinds id reason.clause reason.has_clause, λ o m. elim m [ ])
            inv in
        let (involved', run', (grown, mine)) =
          involve-Involved t d ds part u reason.ls involved reason.forces in
        (
          (involved', g'),
          rw
              (
                ==_false id 0 (reason-positive d ds reason),
                run,
                reason.has_clause,
                reason.has_literals,
                run',
              )
              refl,
          (
            gathers.inv,
            λ σ is all.
                let w = has σ is (λ x m. all x (gathers.grown x m)) in
                elim (Bool-cases (d.variable == w.var)) [
                  | inr other ↦
                      skip-Witness d ds involved involved' σ grown w
                        (λ e. let z = (==_iff d.variable w.var).1 e in cc)
                  | inl same ↦
                      let (l, m, h) =
                        any-Elem (holds σ) reason.ls (
                          exp σ all reason.clause reason.ls reason.has_clause
                            reason.has_literals) in
                      elim (All-Elem _ l reason.ls reason.forces m) [
                        | inr f ↦
                            false-Witness ds involved' σ l (IsPart-below t d ds part u) is f h
                              (mine l m f)
                        | inl own ↦ absurd (
                            own-differs d ds involved σ w ((==_iff d.variable w.var).0 same) l own
                              h)
                      ]
                ],
          ),
        )

  -- The loop over the decisions that are left ends without a panic, with a conflict that has no
  -- witness left.
  explain_decisions-Core :
      (ds : List Decision) (involved : List VariableId) (g : Gathered)
      → IsPart t ds
      → Distinct ds
      → RootReasons s.problem ds
      → IsGathered s.problem [] g
      → HasWitness s.problem g.0 ds involved
      → Returns (explain_decisions s ds involved g) (λ g'.
        AllGiven s.problem g'.0
        × ((σ : VariableId → Bool) → HoldsAll s.problem σ g'.0 → σ root ≡ false))
  unfolding explain_decisions
  explain_decisions-Core [] involved g part u reasons inv has = (
    g,
    refl,
    (
      inv.given,
      λ σ all. elim (Bool-cases (σ root)) [
        | inr off ↦ off
        | inl on ↦ let w = has σ on all in let h = w.decided in cc
      ],
    ),
  )
  explain_decisions-Core (d ∷ ds) involved g part u reasons inv has =
      let below = IsPart-below t d ds part u in
      elim (Bool-cases (d.variable == root)) [
        | inl is_root ↦
            let skipped =
              skip-HasWitness d ds part u involved g inv has
                (inl ((==_iff d.variable root).0 is_root)) in
            let (g', run, done) =
              explain_decisions-Core ds involved g below u.1 reasons.1 inv skipped in
            (g', rw is_root run, done)
        | inr other ↦ elim (Bool-cases (contains involved d.variable)) [
          | inr apart ↦
              let skipped = skip-HasWitness d ds part u involved g inv has (inr apart) in
              let (g', run, done) =
                explain_decisions-Core ds involved g below u.1 reasons.1 inv skipped in
              (g', rw (other, apart) run, done)
          | inl hit ↦
              let reason : IsReason s.problem d ds = elim reasons.0 [
                | inl r ↦ absurd (let z = (==_iff d.variable root).1 r in cc)
                | inr r ↦ r
              ] in
              let (r, run, (inv', has')) =
                explain-HasWitness d ds part u involved g inv has reason in
              let (g', run', done) =
                explain_decisions-Core ds r.0 r.1 below u.1 reasons.1 inv' has' in
              (g', rw (other, hit, run) run', done)
        ]
      ]

  start-HasWitness :
      (g : Gathered)
      → Explains s.problem g.0 id
      → HasWitness s.problem g.0 t.stack (map variable con.ls)
  start-HasWitness g exp σ is all =
      let (l, m, h) =
        any-Elem (holds σ) con.ls (exp σ all con.clause con.ls con.has_clause con.has_literals) in
      let f = assigned_value-false t l (All-Elem _ l con.ls con.falsified m) in
      false-Witness t.stack (map variable con.ls) σ l (λ v b h. con.trail.agrees v ∙ h) is
        (sym (con.trail.agrees (variable l)) ∙ f) h (Elem-map variable l con.ls m)

-- The root is on the trail, which is therefore not empty.
installed-last :
    (s : Solver) (id : ClauseId)
    → IsRootConflict s id
    → (d : Decision) × (last_decision s.state.decision_tracker.stack ≡ some d)
installed-last s id con = not_empty s.state.decision_tracker.stack refl
  where
    not_empty :
        (ds : List Decision)
        → s.state.decision_tracker.stack ≡ ds
        → (d : Decision) × (last_decision ds ≡ some d)
    not_empty [] e =
        let on = sym (con.trail.agrees root) ∙ con.installed in
        absurd (let h = subst (λ ds. stack_value ds root ≡ some true) e on in cc)
    not_empty (d ∷ ds) e = (d, refl)

-- In a valid state whose trail has the root installed, and a reason for every other decision, and
-- whose clause 0 is the root's, `analyze_unsolvable` of a clause that is false on the trail ends
-- without a panic. The conflict consists of given clauses, none of them learnt, and an assignment
-- that satisfies them all does not install the root.
pub analyze_unsolvable-Core :
    (s : Solver) (chains : Literal → List ClauseId) (id : ClauseId)
    → IsValid s chains
    → IsRootConflict s id
    → Returns (analyze_unsolvable s id) (λ conflict.
      AllGiven s.problem conflict
      × ((σ : VariableId → Bool) → HoldsAll s.problem σ conflict → σ root ≡ false))
unfolding analyze_unsolvable
analyze_unsolvable-Core s chains id valid con =
    let (g, run, (gathers, exp)) =
      analyze_unsolvable_clause-Gathers s.problem s.learnt_why valid.causes (suc id) id [] ([], [])
        (omega arith)
        (get_elem?-less s.problem.kinds id con.clause con.has_clause, λ o m. elim m [ ])
        (record { given = λ x m. elim m [ ]; explained = λ x m. elim m [ ] }) in
    let (g', run', done) =
      explain_decisions-Core s chains valid id con s.state.decision_tracker.stack
        (map variable con.ls) g (λ v b h. con.trail.agrees v ∙ h) con.trail.distinct con.reasons
        gathers.inv (start-HasWitness s chains valid id con g exp) in
    (g'.0, rw ((installed-last s id con).1, con.has_clause, con.has_literals, run, run') refl, done)
