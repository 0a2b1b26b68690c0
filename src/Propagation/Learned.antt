-- ===== src/Propagation/Learned.antt =====
-- `decide_learned` of src/solver/mod.rs: the learnt clauses of one literal.
use resolvo.Prelude.{
  ℕ, ◌≡◌, refl, ap, ◌∙◌, subst, Bool, some, List, [], ◌∷◌, arith, Run, ok, expect, Returns, All,
  get_elem?, inl,
}
use resolvo.DecisionMap.{VariableId}
use resolvo.DecisionTracker.{ClauseId, DecisionTracker, assigned_value}
use resolvo.Literal.{Literal, variable, satisfying_value}
use resolvo.Clause.{Clause, LearntClauseId, literals}
use resolvo.Propagation.{Problem, Outcome, success, decide_learnt_clause, decide_learned}
use resolvo.Propagation.Models.{IsModel, Mentions}
use resolvo.Propagation.Progress.{same-Progress}
use resolvo.Propagation.Units.{IsOpen, Decided, Decided-weaken, decide_one-Decided}

-- A learnt clause with its literals, of which there is one at least.
pub record IsLearned (p : Problem) (id : ClauseId) : Type 0 where
  pub learnt_id : LearntClauseId
  pub first : Literal
  pub others : List Literal
  pub has_clause : get_elem? p.kinds id ≡ some (Clause.learnt learnt_id)
  pub has_literals : get_elem? p.tables.learnt_clauses learnt_id ≡ some (first ∷ others)

-- Where it has one literal, that one is true.
abbrev pub HoldsUnit : (p : Problem) → DecisionTracker → ClauseId → Type 0
HoldsUnit p t id =
    (learnt_id : LearntClauseId) (l : Literal)
    → get_elem? p.kinds id ≡ some (Clause.learnt learnt_id)
    → get_elem? p.tables.learnt_clauses learnt_id ≡ some (l ∷ [])
    → assigned_value t (variable l) ≡ some (satisfying_value l)

module _ (p : Problem) (id : ClauseId) (learnt_id : LearntClauseId) (l : Literal)
    (has : get_elem? p.kinds id ≡ some (Clause.learnt learnt_id))
    (is : get_elem? p.tables.learnt_clauses learnt_id ≡ some (l ∷ [])) where
  unit-literals : literals p.tables (Clause.learnt learnt_id) ≡ ok (l ∷ [])
  unfolding literals
  unit-literals = ap expect is

  unit-forced : (σ : VariableId → Bool) → IsModel p σ → σ (variable l) ≡ satisfying_value l
  unit-forced σ model = let sat = model id _ (l ∷ []) has unit-literals in ground arith

  unit-Mentions : Mentions p (variable l)
  unit-Mentions = record {
    id = id;
    clause = Clause.learnt learnt_id;
    ls = l ∷ [];
    lit = l;
    has_clause = has;
    has_literals = unit-literals;
    mem = inl refl;
    of_lit = refl;
  }

module _ (p : Problem) (lv : ℕ) (id : ClauseId) (is : IsLearned p id) where
  -- The clause has the literals that it is stored with.
  same_literals :
      (learnt_id : LearntClauseId) (l : Literal)
      → get_elem? p.kinds id ≡ some (Clause.learnt learnt_id)
      → get_elem? p.tables.learnt_clauses learnt_id ≡ some (l ∷ [])
      → is.first ∷ is.others ≡ l ∷ []
  same_literals learnt_id l has h =
      let known = is.has_clause in
      let stored = is.has_literals in
      let same : is.learnt_id ≡ learnt_id = cc in
      let stored' =
        subst (λ n. get_elem? p.tables.learnt_clauses n ≡ some (is.first ∷ is.others)) same
          stored in
      cc

  decide_learned-step :
      (ids : List ClauseId) (t : DecisionTracker)
      → decide_learned p (id ∷ ids) lv t
        ≡ decide_learnt_clause (is.first ∷ is.others) id lv t (λ t'. decide_learned p ids lv t')
  unfolding decide_learned
  decide_learned-step ids t = rw (is.has_clause, is.has_literals) refl

  -- One clause, when the rest is known.
  decide_learnt_clause-Decided :
      (others : List Literal)
      → is.others ≡ others
      → (rest : DecisionTracker → Run (Outcome (Unit {0}) × DecisionTracker))
        (All_hold : DecisionTracker → Type 0)
      → ((t' : DecisionTracker) → IsOpen lv t' → Returns (rest t') (Decided p lv t' All_hold))
      → (t : DecisionTracker) → IsOpen lv t
      → Returns
          (decide_learnt_clause (is.first ∷ others) id lv t rest)
          (Decided p lv t (λ k. HoldsUnit p k id × All_hold k))
  unfolding decide_learnt_clause
  decide_learnt_clause-Decided [] e rest All_hold go t ready =
      let stored : get_elem? p.tables.learnt_clauses is.learnt_id ≡ some (is.first ∷ []) =
        is.has_literals ∙ ap (λ ls. some (is.first ∷ ls)) e in
      let (r, run, done) =
        decide_one-Decided p lv t (variable is.first) (satisfying_value is.first) id
          (unit-forced p id is.learnt_id is.first is.has_clause stored)
          (unit-Mentions p id is.learnt_id is.first is.has_clause stored) rest All_hold go ready in
      (
        r,
        run,
        Decided-weaken p lv t _ (λ k. HoldsUnit p k id × All_hold k) r
            (λ k h. (
              (λ learnt_id l has ls.
                  let q = same_literals learnt_id l has ls in
                  let first : is.first ≡ l = cc in
                  subst (λ x. assigned_value k (variable x) ≡ some (satisfying_value x)) first h.0),
              h.1,
            ))
            done,
      )
  decide_learnt_clause-Decided (x ∷ xs) e rest All_hold go t ready =
      let (r, run, done) = go t ready in
      (
        r,
        run,
        Decided-weaken p lv t All_hold (λ k. HoldsUnit p k id × All_hold k) r
            (λ k h. (
              (λ learnt_id l has ls.
                  let q = same_literals learnt_id l has ls in let o : is.others ≡ [] = cc in cc),
              h,
            ))
            done,
      )

-- On an open trail, and where the ids are those of learnt clauses that are not empty, deciding the
-- learnt clauses of one literal does not panic. Either these literals are true after it, and every
-- model of the clauses that agreed with the trail still does; or it reports a conflict, and no model
-- agrees with the trail.
pub decide_learned-Decided :
    (p : Problem) (lv : ℕ) (t : DecisionTracker) (ids : List ClauseId)
    → IsOpen lv t
    → All (IsLearned p) ids
    → Returns (decide_learned p ids lv t) (Decided p lv t (λ k. All (HoldsUnit p k) ids))
unfolding decide_learned
decide_learned-Decided p lv t [] ready all =
    ((success tt, t), refl, Decided.asserted refl ready (same-Progress p t) tt)
decide_learned-Decided p lv t (id ∷ ids) ready (is, all) =
    let (r, run, done) =
      decide_learnt_clause-Decided p lv id is is.others refl (λ t'. decide_learned p ids lv t')
        (λ k. All (HoldsUnit p k) ids) (λ t' ready'. decide_learned-Decided p lv t' ids ready' all)
        t ready in
    (r, decide_learned-step p lv id is ids t ∙ run, done)
