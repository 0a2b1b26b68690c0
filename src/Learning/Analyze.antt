-- ===== src/Learning/Analyze.antt =====
-- `analyze` of src/solver/mod.rs above the first level.
use resolvo.Prelude.{
  ℕ, suc, ◌≤◌, ◌<◌, ◌^◌, max, ◌≡◌, ◌≢◌, ◌⊎◌, ◌↔◌, refl, sym, ap, ◌∙◌, subst, inl, inr, Bool, true,
  false, none, some, List, [], ◌∷◌, ◌++◌, arith, ok, Returns, any, Elem, Bool-cases, Option-cases,
  if◌then◌else◌, All, All-map, All-Elem, get_elem?, length, leb,
}
use resolvo.DecisionMap.{VariableId}
use resolvo.DecisionTracker.{ClauseId, Decision, DecisionTracker, assigned_value, level}
use resolvo.DecisionTracker.Invariant
use resolvo.DecisionTracker.Invariant.{last_level}
use resolvo.DecisionTracker.Undo.{Undone, undo_until-Undone}
use resolvo.Literal.{Literal, new, eval, variable, satisfying_value}
use resolvo.Literal.Laws.{variable-new}
use resolvo.Clause.{Clause, literals}
use resolvo.Propagation.{Problem}
use resolvo.Propagation.Models.{holds, HoldsAll, IsModel, assigned-eval, not-value}
use resolvo.Analysis.{Resolved, nothing_seen, resolve_loop}
use resolvo.Analysis.Pending.{IsConflicting, assigned_value-false}
use resolvo.Analysis.Round.{IsResolving}
use resolvo.Analysis.Loop.{IsResolved, resolve_loop-IsResolved}
use resolvo.Analysis.Learnt.{IsLearnt, learnt_clause-IsLearnt}
use resolvo.Learning.{Solver, Learnt, add_learnt, analyze}
use resolvo.Learning.Valid.{IsValid, Extended, IsModel-Extended, tracked-IsValid}
use resolvo.Learning.Add.{add_learnt-AddedLearnt}

-- A conflict of the level: all literals of the clause are false, and the last decision's level is
-- that of one of them.
pub record IsConflict (s : Solver) (lv : ℕ) (id : ClauseId) : Type 0 where
  pub conflicting : IsConflicting s.problem lv s.state.decision_tracker
  pub fits : lv < 2 ^ 31
  pub clause : Clause
  pub ls : List Literal
  pub has_clause : get_elem? s.problem.kinds id ≡ some clause
  pub has_literals : literals s.problem.tables clause ≡ ok ls
  pub falsified : All (λ l. eval l s.state.decision_tracker.map ≡ some false) ls
  pub top : Literal
  pub top_in : Elem top ls
  pub at_level : level s.state.decision_tracker (variable top) ≡ lv

-- What `analyze` returns and leaves.
pub record Learns (s : Solver) (lv : ℕ) (r : Learnt) (s' : Solver) : Type 0 where
  pub positive : 0 < r.target_level
  pub lower : r.target_level < lv
  pub same_id : r.clause_id ≡ length s.problem.kinds
  pub valid : (chains : Literal → List ClauseId) × IsValid s' chains
  pub others : List Literal
  pub ids : s'.problem.learnt_clause_ids ≡ s.problem.learnt_clause_ids ++ r.clause_id ∷ []
  pub extended : Extended s.problem (others ++ r.last_literal ∷ []) s'.problem
  pub same_models : (σ : VariableId → Bool) → IsModel s.problem σ ↔ IsModel s'.problem σ
  pub trail : Invariant.IsValid s'.state.decision_tracker
  pub below :
      last_level (level s'.state.decision_tracker) s'.state.decision_tracker.stack ≤ r.target_level
  pub values :
      (v : VariableId)
      → assigned_value s'.state.decision_tracker v ≡ (
          if leb (level s.state.decision_tracker v) r.target_level
          then assigned_value s.state.decision_tracker v
          else none)
  pub falsified : (l : Literal) → Elem l others → eval l s'.state.decision_tracker.map ≡ some false
  pub free : assigned_value s'.state.decision_tracker (variable r.last_literal) ≡ none

-- The first round resolves with the clause of the conflict.
module _ (s : Solver) (lv : ℕ) (v : VariableId) (id : ClauseId) (con : IsConflict s lv id) where
  abbrev first_cause : Decision
  first_cause = record { variable = v; value = true; derived_from = id }

  start-IsResolving :
      IsResolving s.problem lv true first_cause s.state.decision_tracker nothing_seen [] con.ls []
  start-IsResolving = record {
    conflicting = con.conflicting;
    inv = record {
      unique = tt;
      counted = refl;
      waiting = λ v m. elim m [ ];
      covered = λ v b h e. cc;
      learnt = λ l m. elim m [ ];
      back = let h = con.conflicting.high in omega arith;
      index = inl (refl, refl, refl);
    };
    cause = record {
      clause = con.clause;
      has_clause = con.has_clause;
      has_literals = con.has_literals;
      visited =
          All-map _ (λ l. _ ⊎ (eval l s.state.decision_tracker.map ≡ some false)) con.ls
            (λ l f. inr f) con.falsified;
    };
    known = λ c m. elim m [ ];
    gone = inl refl;
    left =
        inl (con.top, con.top_in, All-Elem _ con.top con.ls con.falsified con.top_in, con.at_level);
    explained = λ σ h. inl (inl refl);
  }

  loop-IsResolved :
      Returns
        (resolve_loop
          (suc (length s.state.decision_tracker.stack))
          s.problem
          true
          v
          lv
          id
          s.state.decision_tracker
          nothing_seen
          [])
        (IsResolved s.problem lv s.state.decision_tracker)
  loop-IsResolved =
      resolve_loop-IsResolved (suc (length s.state.decision_tracker.stack)) s.problem lv true
        first_cause s.state.decision_tracker nothing_seen [] con.ls [] start-IsResolving
        (omega arith)

others_apart :
    (p : Problem) (lv : ℕ) (t : DecisionTracker) (r : Resolved) (ls : List Literal)
    → IsResolved p lv t r
    → (learnt : IsLearnt p r ls) → (l : Literal) (rest : List Literal) → learnt.others ≡ l ∷ rest
    → l ≢ new r.last.variable r.last.value
others_apart p lv t r ls res learnt l rest e q =
    let (f, _) = learnt.false_others l (subst (Elem l) (sym e) (inl refl)) in
    let is = assigned_value-false r.tracker l f in
    let same : variable l ≡ r.last.variable =
      ap variable q ∙ variable-new r.last.variable r.last.value in
    let gone = subst (λ v. assigned_value r.tracker v ≡ none) (sym same) res.gone in cc

-- Backtracking to the level of the learnt clause keeps its other literals false, and its last one
-- undecided.
module _ (p : Problem) (lv : ℕ) (t : DecisionTracker) (r : Resolved) (res : IsResolved p lv t r)
    (ls : List Literal) (learnt : IsLearnt p r ls) (t' : DecisionTracker)
    (u : Undone r.tracker (max r.analysis.back_track_to 1) t') where
  still-false : (l : Literal) → Elem l learnt.others → eval l t'.map ≡ some false
  still-false l m =
      let (f, le) = learnt.false_others l m in
      let low : leb (level r.tracker (variable l)) (max r.analysis.back_track_to 1) ≡ true =
        ground arith in
      assigned-eval l t' false (
        u.values (variable l)
        ∙ rw low (assigned_value-false r.tracker l f ∙ ap some (not-value (satisfying_value l))))

  -- Exactly the decisions above that level are taken back.
  kept_values :
      1 < lv
      → (v : VariableId)
      → assigned_value t' v
        ≡ (if leb (level t v) (max r.analysis.back_track_to 1) then assigned_value t v else none)
  kept_values high v = elim (Option-cases (assigned_value r.tracker v)) [
    | inr (b, e) ↦ let (e', l) = res.kept v b e in u.values v ∙ rw (l, e, e') refl
    | inl e ↦ elim (Option-cases (assigned_value t v)) [
      | inl f ↦ u.values v ∙ rw (e, f) (ground arith)
      | inr (b, f) ↦ elim (Bool-cases (leb (level t v) (max r.analysis.back_track_to 1))) [
        | inr above ↦ u.values v ∙ rw (e, above) (ground arith)
        | inl low ↦ let back = res.back in let (e', _) = res.same_below v b f (ground arith) in cc
      ]
    ]
  ]

  still-free : assigned_value t' (variable (new r.last.variable r.last.value)) ≡ none
  still-free =
      let gone = res.gone in
      ap (assigned_value t') (variable-new r.last.variable r.last.value)
      ∙ u.values r.last.variable
      ∙ ground arith

-- In a valid state, on a trail where every decision has a reason or begins a level, at a level
-- above the first and below 2 ^ 31 that no decision exceeds, for a false clause with a literal of
-- that level, `analyze` ends without a panic. It adds a clause that changes no models, with the
-- next id, which is noted behind the ids of the learnt clauses, and goes back to a level below, at
-- least the first: exactly the decisions above that level are taken back. There the literals of the
-- clause are false but the last, whose variable is undecided; the state and the trail are valid
-- again.
pub analyze-Learns :
    (s : Solver) (chains : Literal → List ClauseId) (lv : ℕ) (v : VariableId) (id : ClauseId)
    → IsValid s chains
    → IsConflict s lv id
    → Returns (analyze s lv v id) (λ r. Learns s lv r.0 r.1)
unfolding analyze
analyze-Learns s chains lv v id valid con =
    let t = s.state.decision_tracker in
    let (r, run, res) = loop-IsResolved s lv v id con in
    let (ls, run', learnt) = learnt_clause-IsLearnt s.problem lv t r res in
    let a = new r.last.variable r.last.value in
    let follows : (σ : VariableId → Bool)
        → HoldsAll s.problem σ r.learnt_why
        → any (holds σ) (learnt.others ++ a ∷ []) ≡ true =
      λ σ h. subst (λ k. any (holds σ) k ≡ true) learnt.shape (learnt.follows σ h) in
    let (c, run'', added) =
      add_learnt-AddedLearnt s chains valid learnt.others a r.learnt_why
        (others_apart s.problem lv t r ls res learnt) res.known follows in
    let add_shape : add_learnt s ls r.learnt_why ≡ ok c =
      subst (λ k. add_learnt s k r.learnt_why ≡ ok c) (sym learnt.shape) run'' in
    let root = res.root in
    let (t', run''', u) =
      undo_until-Undone (max r.analysis.back_track_to 1) r.tracker res.trail (ground arith)
        (ground arith) in
    let high = con.conflicting.high in
    let back = res.back in
    (
      (
        record { target_level = max r.analysis.back_track_to 1; clause_id = c.0; last_literal = a },
        record c.1 { state = record c.1.state { decision_tracker = t' } },
      ),
      rw (run, run', add_shape, run''') refl,
      record {
        positive = ground arith;
        lower = ground arith;
        same_id = added.same_id;
        valid = (added.valid.0, tracked-IsValid c.1 added.valid.0 t' added.valid.1);
        others = learnt.others;
        ids = added.ids;
        extended = added.extended;
        same_models = λ σ.
            IsModel-Extended s.problem (learnt.others ++ a ∷ []) c.1.problem added.extended
              valid.stored (λ τ m. follows τ (λ x _. m x)) σ;
        trail = u.valid;
        below = u.below;
        values = kept_values s.problem lv t r res ls learnt t' u high;
        falsified = still-false s.problem lv t r res ls learnt t' u;
        free = still-free s.problem lv t r res ls learnt t' u;
      },
    )
