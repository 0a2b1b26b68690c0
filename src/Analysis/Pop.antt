-- ===== src/Analysis/Pop.antt =====
-- One decision is taken back in the inner loop of `analyze` in src/solver/mod.rs.
use resolvo.Prelude.{
  ℕ, ◌≤◌, ◌<◌, ◌≡◌, ◌≢◌, ◌⊎◌, refl, sym, ap, ◌∙◌, subst, inl, inr, Bool, false, none, some, List,
  [], ◌∷◌, arith, Returns, Elem, get_elem?-Elem, length, ◌==◌, ==_refl, ==_false, if◌then◌else◌,
  Bool-cases,
}
use resolvo.DecisionMap.{VariableId}
use resolvo.DecisionTracker.{Decision, DecisionTracker, assigned_value, level, undo_last}
use resolvo.DecisionTracker.Invariant.{last_level, stack_value, Levelled, Distinct}
use resolvo.DecisionTracker.Undo.{first_level, first_level_frame, undo_last-UndoneLast}
use resolvo.Literal.{Literal, variable, satisfying_value}
use resolvo.WatchMap.Chain.{Unique}
use resolvo.Propagation.{Problem}
use resolvo.Propagation.Models.{assigned-eval, not-value}
use resolvo.Analysis.{Analysis}
use resolvo.Analysis.Trail.{HasReasons, HasReasons-frame, IsReason, level-last_level, two_or_more}
use resolvo.Analysis.Pending.{IsConflicting, IsPending, assigned_value-false}

-- The trail after the last decision `d`, of the conflict's level, was taken back.
pub record Popped (p : Problem) (lv : ℕ) (t : DecisionTracker) (d : Decision) (new_level : ℕ)
    (t' : DecisionTracker) : Type 0 where
  pub conflicting : IsConflicting p lv t'
  pub stack : t.stack ≡ d ∷ t'.stack
  pub value : assigned_value t d.variable ≡ some d.value
  pub at_level : level t d.variable ≡ lv
  pub top : new_level ≡ last_level (level t') t'.stack
  pub values :
      (v : VariableId)
      → assigned_value t' v ≡ (if d.variable == v then none else assigned_value t v)
  pub levels : (v : VariableId) → level t' v ≡ (if d.variable == v then 0 else level t v)
  pub reason : IsReason p d t'.stack ⊎ (last_level (level t') t'.stack < lv)

module _ (p : Problem) (lv : ℕ) (t : DecisionTracker) (con : IsConflicting p lv t) (v : VariableId)
    (b : Bool) (is : assigned_value t v ≡ some b) (at : level t v ≡ lv) where
  first_of_one : (d : Decision) → t.stack ≡ d ∷ [] → level t d.variable ≤ 1
  first_of_one d e = subst (λ s. first_level (level t) s ≤ 1) e con.root

  top-level : (d : Decision) (ds : List Decision) → t.stack ≡ d ∷ ds → level t d.variable ≡ lv
  top-level d ds e =
      let a = level-last_level t v b con.trail is in
      let c : last_level (level t) t.stack ≡ level t d.variable = ap (last_level (level t)) e in
      let h = con.below in omega arith

  pub undo_last-Popped : Returns (undo_last t) (λ r. Popped p lv t r.0.0 r.0.1 r.1)
  undo_last-Popped = let (d, ds, e) = two_or_more t v b con.trail is in go d ds e
    where
      go :
          (d : Decision) (ds : List Decision)
          → t.stack ≡ d ∷ ds
          → Returns (undo_last t) (λ r. Popped p lv t r.0.0 r.0.1 r.1)
      go d [] e =
          let a = first_of_one d e in
          let c = top-level d [] e in let h = con.high in absurd (omega arith)
      go d (x ∷ ds) e =
          let (r, run, u) = undo_last-UndoneLast t d x ds con.trail e in
          let distinct : Distinct (d ∷ x ∷ ds) = subst Distinct e con.trail.distinct in
          let reasons : HasReasons p (level t) (d ∷ x ∷ ds) =
            subst (HasReasons p (level t)) e con.reasons in
          let same : (y : VariableId) (c : Bool)
              → stack_value (x ∷ ds) y ≡ some c
              → level t y ≡ level r.1 y =
            λ y c s. sym (
              u.levels y
              ∙ rw (
                  ==_false d.variable y (λ q.
                    let z = subst (λ k. stack_value (x ∷ ds) k ≡ none) q distinct.0 in cc))) in
          let x_level = same x.variable x.value (rw (==_refl x.variable)) in
          let levelled : Levelled (level t) (d ∷ x ∷ ds) (last_level (level t) t.stack) =
            subst (λ s. Levelled (level t) s (last_level (level t) t.stack)) e con.trail.levelled in
          let d_level = top-level d (x ∷ ds) e in
          let x_low : level t x.variable ≤ level t d.variable = levelled.2.1 in
          let top : last_level (level r.1) r.1.stack ≡ level t x.variable =
            ap (last_level (level r.1)) u.stack ∙ sym x_level in
          let root : first_level (level t) (d ∷ x ∷ ds) ≤ 1 =
            subst (λ s. first_level (level t) s ≤ 1) e con.root in
          (
            r,
            run,
            rw (u.decision) (record {
              conflicting = record {
                trail = u.valid;
                reasons =
                    subst (HasReasons p (level r.1)) (sym u.stack)
                      (HasReasons-frame p (level t) (level r.1) (x ∷ ds) same distinct.1 reasons.1);
                root =
                    subst (λ s. first_level (level r.1) s ≤ 1) (sym u.stack)
                      (subst (λ n. n ≤ 1)
                        (first_level_frame (level t) (level r.1) x ds same distinct.1) root);
                high = con.high;
                below = omega arith;
              };
              stack = e ∙ ap (λ s. d ∷ s) (sym u.stack);
              value =
                  con.trail.agrees d.variable
                  ∙ ap (λ s. stack_value s d.variable) e
                  ∙ rw (==_refl d.variable) refl;
              at_level = d_level;
              top = u.new_level ∙ sym top;
              values = u.values;
              levels = u.levels;
              reason = elim reasons.0 [
                | inl q ↦ inl (subst (IsReason p d) (sym u.stack) q)
                | inr less ↦ inr (omega arith)
              ];
            }),
          )

-- The invariant after the last decision was taken back, for the causes that are left.
module _ (p : Problem) (lv : ℕ) (t t' : DecisionTracker) (d : Decision) (k : ℕ) (a : Analysis)
    (pop : Popped p lv t d k t') where
  pub value_kept : (v : VariableId) → d.variable ≢ v → assigned_value t' v ≡ assigned_value t v
  value_kept v ne = pop.values v ∙ rw (==_false d.variable v ne) refl

  pub level_kept : (v : VariableId) → d.variable ≢ v → level t' v ≡ level t v
  level_kept v ne = pop.levels v ∙ rw (==_false d.variable v ne) refl

  pub value_before :
      (v : VariableId) (b : Bool)
      → assigned_value t' v ≡ some b
      → (d.variable ≢ v) × (assigned_value t v ≡ some b)
  value_before v b h = elim (Bool-cases (d.variable == v)) [
    | inl mine ↦ absurd (ground (arith, pop.values v))
    | inr other ↦ (λ e. ground arith, ground (arith, pop.values v))
  ]

  -- What was learnt is of lower levels.
  pub learnt_kept :
      {pending : List VariableId}
      → IsPending lv t a pending
      → (l : Literal) → Elem l a.learnt
      → d.variable ≢ variable l
  learnt_kept inv l m q =
      let (_, le) = inv.learnt l m in
      let h = inv.back in
      let at = pop.at_level in let z = subst (λ x. level t x ≡ lv) q at in omega arith

  pub Pending-popped :
      (pending pending' : List VariableId) (causes : ℕ)
      → IsPending lv t a pending
      → Unique pending'
      → length pending' ≡ causes
      → ((v : VariableId) → Elem v pending' → Elem v pending × (d.variable ≢ v))
      → ((v : VariableId) → Elem v pending → d.variable ≢ v → Elem v pending')
      → IsPending lv t' (record a { causes_at_current_level = causes }) pending'
  Pending-popped pending pending' causes inv unique counted sub sup = record {
    unique = unique;
    counted = counted;
    waiting = λ v m.
        let (old, ne) = sub v m in
        let (s, at, (b, e)) = inv.waiting v old in
        (s, level_kept v ne ∙ at, (b, value_kept v ne ∙ e));
    covered = λ v b s e.
        let (ne, e') = value_before v b e in
        elim (inv.covered v b s e') [
          | inl m ↦ inl (sup v m ne)
          | inr (m, low) ↦ inr (m, subst (λ n. n < lv) (sym (level_kept v ne)) low)
        ];
    learnt = λ l m.
        let (f, le) = inv.learnt l m in
        let ne = learnt_kept inv l m in
        (
          assigned-eval l t' false (
              value_kept (variable l) ne
              ∙ assigned_value-false t l f
              ∙ ap some (not-value (satisfying_value l))),
          subst (λ n. n ≤ a.back_track_to) (sym (level_kept (variable l) ne)) le,
        );
    back = inv.back;
    index = elim inv.index [
      | inl first ↦ inl first
      | inr (l, g, at) ↦ inr (
        l,
        g,
        level_kept (variable l)
              (learnt_kept inv l (get_elem?-Elem a.learnt a.highest_level_idx l g))
            ∙ at,
      )
    ];
  }
