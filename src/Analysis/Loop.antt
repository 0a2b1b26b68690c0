-- ===== src/Analysis/Loop.antt =====
-- The outer loop of `analyze` in src/solver/mod.rs ends with one decision of the conflict's level.
use resolvo.Prelude.{
  ℕ, zero, suc, ◌≤◌, ◌<◌, ◌≡◌, ◌⊎◌, sym, ap, ◌∙◌, subst, inl, inr, Bool, true, false, not, none,
  some, List, [], ◌∷◌, ◌++◌, arith, Run, ok, Returns, Elem, get_elem?, length, length-zero,
  not-length_zero, ◌==◌, ==_iff, Bool-cases,
}
use resolvo.DecisionMap.{VariableId}
use resolvo.DecisionTracker.{ClauseId, Decision, DecisionTracker, assigned_value, level}
use resolvo.DecisionTracker.Invariant
use resolvo.DecisionTracker.Undo.{first_level}
use resolvo.Literal.{Literal, eval, variable}
use resolvo.Propagation.{Problem}
use resolvo.Propagation.Models.{holds, HoldsAll}
use resolvo.Analysis.{Analysis, Resolved, resolve_clause, resolve_loop}
use resolvo.Analysis.Round.{IsResolving, Round, resolve_clause-Round}

-- What the loop leaves, from the trail `t` of the conflict at level `lv`: the last decision is one of
-- level `lv`, and the learnt literals are false and of lower levels. If the clauses resolved hold
-- then one of them holds, or the last decision is not the case.
pub record IsResolved (p : Problem) (lv : ℕ) (t : DecisionTracker) (r : Resolved) : Type 0 where
  pub trail : Invariant.IsValid r.tracker
  pub value : assigned_value t r.last.variable ≡ some r.last.value
  pub at_level : level t r.last.variable ≡ lv
  pub gone : assigned_value r.tracker r.last.variable ≡ none
  pub learnt :
      (l : Literal)
      → Elem l r.analysis.learnt
      → (eval l r.tracker.map ≡ some false)
        × (level r.tracker (variable l) ≤ r.analysis.back_track_to)
  pub back : r.analysis.back_track_to < lv
  pub root : first_level (level r.tracker) r.tracker.stack ≤ 1
  pub index :
      ((r.analysis.learnt ≡ [])
        × (r.analysis.highest_level_idx ≡ 0)
        × (r.analysis.back_track_to ≡ 0))
      ⊎ ((l : Literal) × (get_elem? r.analysis.learnt r.analysis.highest_level_idx ≡ some l)
          × (level r.tracker (variable l) ≡ r.analysis.back_track_to))
  pub same_below :
      (v : VariableId) (b : Bool)
      → assigned_value t v ≡ some b
      → level t v < lv
      → (assigned_value r.tracker v ≡ some b) × (level r.tracker v ≡ level t v)
  pub kept :
      (v : VariableId) (b : Bool)
      → assigned_value r.tracker v ≡ some b
      → (assigned_value t v ≡ some b) × (level r.tracker v ≡ level t v)
  pub known : (id : ClauseId) → Elem id r.learnt_why → id < length p.kinds
  pub explained :
      (σ : VariableId → Bool)
      → HoldsAll p σ r.learnt_why
      → (σ r.last.variable ≡ not r.last.value)
        ⊎ ((l : Literal) × Elem l r.analysis.learnt × (holds σ l ≡ true))

module _ (p : Problem) (lv : ℕ) (t : DecisionTracker) (d : Decision) (k : ℕ) (t' : DecisionTracker)
    (a : Analysis) (pending : List VariableId) (why : List ClauseId)
    (round : Round p lv t d k t' a pending why) where
  -- No cause is left.
  stop-IsResolved :
      a.causes_at_current_level ≡ 0
      → IsResolved p lv t (record { analysis = a; last = d; tracker = t'; learnt_why = why })
  stop-IsResolved none_left =
      let empty : pending ≡ [] = length-zero pending (round.inv.counted ∙ none_left) in
      record {
        trail = round.conflicting.trail;
        value = round.value;
        at_level = round.at_level;
        gone = round.gone;
        learnt = round.inv.learnt;
        back = round.inv.back;
        root = round.conflicting.root;
        index = round.inv.index;
        same_below = round.same_below;
        kept = round.kept;
        known = round.known;
        explained = λ σ model. elim (round.explained σ model) [
          | inl n ↦ inl n
          | inr (inr old) ↦ inr old
          | inr (inl (v, b, m, _, _)) ↦ elim (subst (Elem v) empty m) [ ]
        ];
      }

  -- A cause is left, and with it the level and the reason to go on with.
  next-IsResolving :
      (v : VariableId)
      → Elem v pending
      → (k ≡ lv) × ((ls : List Literal) × IsResolving p lv false d t' a pending ls why)
  next-IsResolving v m =
      let (at, (ls, cause)) = round.next v m in
      (
        at,
        (
          ls,
          record {
            conflicting = round.conflicting;
            inv = round.inv;
            cause = cause;
            known = round.known;
            gone = inr round.gone;
            left = inr (v, m);
            explained = λ σ model. elim (round.explained σ model) [
              | inl n ↦ inl (inr n)
              | inr old ↦ inr old
            ];
          },
        ),
      )

  after-IsResolved : (r : Resolved) → IsResolved p lv t' r → IsResolved p lv t r
  after-IsResolved r s =
      let (value, same) = round.kept r.last.variable r.last.value s.value in
      record {
        trail = s.trail;
        value = value;
        at_level = sym same ∙ s.at_level;
        gone = s.gone;
        learnt = s.learnt;
        back = s.back;
        root = s.root;
        index = s.index;
        same_below = λ v b e low.
            let (e', l) = round.same_below v b e low in
            let (e'', l') = s.same_below v b e' (subst (λ n. n < lv) (sym l) low) in (e'', l' ∙ l);
        kept = λ v b e.
            let (e', l) = s.kept v b e in let (e'', l') = round.kept v b e' in (e'', l ∙ l');
        known = s.known;
        explained = s.explained;
      }

module _ (p : Problem) (fuel : ℕ) (first : Bool) (d : Decision) (lv : ℕ) (t : DecisionTracker)
    (a : Analysis) (why : List ClauseId) (r : Analysis × (Decision × ℕ) × DecisionTracker)
    (run : resolve_clause p first d.variable lv d.derived_from t a ≡ ok r) where
  abbrev go_on : Bool → Run Resolved
  go_on b = elim b [
    | true ↦ ok (record {
      analysis = r.0;
      last = r.1.0;
      tracker = r.2;
      learnt_why = why ++ d.derived_from ∷ [];
    })
    | false ↦
        resolve_loop fuel p false r.1.0.variable r.1.1 r.1.0.derived_from r.2 r.0
          (why ++ d.derived_from ∷ [])
  ]

  resolve_loop-step :
      (b : Bool)
      → (r.0.causes_at_current_level == 0) ≡ b
      → resolve_loop (suc fuel) p first d.variable lv d.derived_from t a why ≡ go_on b
  unfolding resolve_loop
  resolve_loop-step b h = rw run (ap go_on h)

-- With as much fuel as the trail is long, the loop ends without a panic.
pub resolve_loop-IsResolved :
    (fuel : ℕ) (p : Problem) (lv : ℕ) (first : Bool) (d : Decision) (t : DecisionTracker)
    (a : Analysis) (pending : List VariableId) (ls : List Literal) (why : List ClauseId)
    → IsResolving p lv first d t a pending ls why
    → length t.stack < fuel
    → Returns (resolve_loop fuel p first d.variable lv d.derived_from t a why) (IsResolved p lv t)
resolve_loop-IsResolved zero p lv first d t a pending ls why res enough = absurd (omega arith)
resolve_loop-IsResolved (suc fuel) p lv first d t a pending ls why res enough =
    let (r, run, (rest, round)) = resolve_clause-Round p lv first d t a pending ls why res in
    elim (Bool-cases (r.0.causes_at_current_level == 0)) [
      | inl done ↦ (
        _,
        resolve_loop-step p fuel first d lv t a why r run true done,
        stop-IsResolved p lv t r.1.0 r.1.1 r.2 r.0 rest (why ++ d.derived_from ∷ []) round
            ((==_iff _ _).0 done),
      )
      | inr more ↦
          let (v, m) = not-length_zero rest (λ e.
            let h = round.inv.counted in
            let z = (==_iff r.0.causes_at_current_level 0).1 (sym h ∙ e) in cc) in
          let (at, (ls', res')) =
            next-IsResolving p lv t r.1.0 r.1.1 r.2 r.0 rest (why ++ d.derived_from ∷ []) round v
              m in
          let short = round.shorter in
          let (s, run', resolved) =
            resolve_loop-IsResolved fuel p lv false r.1.0 r.2 r.0 rest ls'
              (why ++ d.derived_from ∷ []) res' (omega arith) in
          (
            s,
            resolve_loop-step p fuel first d lv t a why r run false more
                ∙ subst
                    (λ k.
                      resolve_loop fuel p false r.1.0.variable k r.1.0.derived_from r.2 r.0
                        (why ++ d.derived_from ∷ [])
                      ≡ ok s)
                    (sym at) run',
            after-IsResolved p lv t r.1.0 r.1.1 r.2 r.0 rest (why ++ d.derived_from ∷ []) round s
                resolved,
          )
    ]
