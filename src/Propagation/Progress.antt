-- ===== src/Propagation/Progress.antt =====
-- What one round of `propagate_impl` in src/solver/mod.rs comes to: the next clause of the list, with
-- more decisions, or a conflict.
use resolvo.Prelude.{
  false, ℕ, ◌≡◌, ◌≢◌, ◌⊎◌, sym, ◌∙◌, refl, subst, inl, inr, Bool, true, Option, some, List, arith,
  Elem, Option-cases,
}
use resolvo.DecisionMap.{VariableId}
use resolvo.DecisionTracker.{
  ClauseId, Decision, DecisionTracker, assigned_value, try_add_decision, add_at, nth_decision,
}
use resolvo.Literal.{Literal, eval}
use resolvo.Clause.{Both, WatchIndex, WatchedLiterals, pick, other_index}
use resolvo.WatchMap.{WatchMapCursor, node, index_in, index_of}
use resolvo.WatchMap.Update.Unlink.{watched_of}
use resolvo.WatchMap.Walk.{zip_up, Stands}
use resolvo.Propagation.{Problem, SolverState, PropagationError, Outcome, success, failure}
use resolvo.Propagation.Models.{IsModel, Agrees, Extends, eval-Extends, Mentions}
use resolvo.Propagation.Invariant.{IsReady}

-- A clause in the list of `l` whose other watch is true.
abbrev pub IsSatisfied : SolverState → Literal → ClauseId → Type 0
IsSatisfied st l x =
    (w : WatchedLiterals)
    → node st.watches.watches x ≡ some w
    → eval (pick w.watched_literals (other_index (index_of w l))) st.decision_tracker.map
      ≡ some true

-- Decisions are only added, none is marked as propagated, and they are on variables of the clauses and
-- such as all models of the clauses make.
pub record Progress (p : Problem) (t t' : DecisionTracker) : Type 0 where
  pub extends : Extends t t'
  pub sound : (σ : VariableId → Bool) → IsModel p σ → Agrees σ t → Agrees σ t'
  pub index : t'.propagate_index ≡ t.propagate_index
  pub kept :
      (k : ℕ) (d : Decision) → nth_decision t.stack k ≡ some d → nth_decision t'.stack k ≡ some d
  pub fresh :
      (v : VariableId) (b : Bool)
      → assigned_value t' v ≡ some b
      → (assigned_value t v ≡ some b) ⊎ Mentions p v

pub try_add_decision-index :
    (t t' : DecisionTracker) (d : Decision) (l : ℕ) (b : Bool)
    → try_add_decision t d l ≡ some (b, t')
    → t'.propagate_index ≡ t.propagate_index
unfolding try_add_decision add_at
try_add_decision-index t t' d l b h = ground arith

abbrev pub IsRefuted : Problem → DecisionTracker → Type 0
IsRefuted p t = (σ : VariableId → Bool) → IsModel p σ → ¬ Agrees σ t

-- A clause only stops to watch the literal, and for one that was not false.
abbrev pub Moves : SolverState → SolverState → Literal → Type 0
Moves st st' l =
    (x : ClauseId) (q' : Both Literal)
    → watched_of (node st'.watches.watches x) ≡ some q'
    → (q : Both Literal) × (watched_of (node st.watches.watches x) ≡ some q)
      × ((i : WatchIndex)
          → (pick q' i ≡ pick q i)
            ⊎ ((pick q i ≡ l) × (eval (pick q' i) st.decision_tracker.map ≢ some false)))

pub same-Moves : (st st' : SolverState) (l : Literal) → st'.watches ≡ st.watches → Moves st st' l
same-Moves st st' l e x q' h =
    (q', subst (λ w. watched_of (node w.watches x) ≡ some q') e h, λ i. inl refl)

pub trans-Moves :
    (st u st' : SolverState) (l : Literal)
    → Extends st.decision_tracker u.decision_tracker
    → Moves st u l
    → Moves u st' l
    → Moves st st' l
trans-Moves st u st' l ext a b x q'' h =
    let (q', h', late) = b x q'' h in
    let (q, h0, early) = a x q' h' in
    (
      q,
      h0,
      λ i. elim (late i) [
        | inl same ↦ elim (early i) [
          | inl e ↦ inl (same ∙ e)
          | inr (at, live) ↦
              inr (at, λ f. live (subst (λ y. eval y st.decision_tracker.map ≡ some false) same f))
        ]
        | inr (at, live) ↦
            let live' : eval (pick q'' i) st.decision_tracker.map ≢ some false = λ f.
              live (eval-Extends (pick q'' i) st.decision_tracker u.decision_tracker false ext f) in
            elim (early i) [ inl e ↦ inr (sym e ∙ at, live') | inr (at', _) ↦ inr (at', live') ]
      ],
    )

-- A round ends at the next clause of the list, with the clauses in front satisfied, or with a
-- conflict that no model of the clauses escapes.
pub data Visited (p : Problem) (lv : ℕ) (st : SolverState) (l : Literal) (post : List ClauseId)
    (r : Outcome (Option WatchMapCursor) × SolverState) : Type 0 where
  went :
      (o : Option WatchMapCursor) (st' : SolverState) (chains' : Literal → List ClauseId)
      (front' : List ClauseId)
      → r ≡ (success o, st')
      → IsReady p lv st' chains'
      → chains' l ≡ zip_up front' post
      → Stands st'.watches l front' post o
      → Progress p st.decision_tracker st'.decision_tracker
      → ((x : ClauseId) → Elem x front' → IsSatisfied st' l x)
      → Moves st st' l
      → Visited p lv st l post r
  failed :
      (e : PropagationError)
      → r ≡ (failure e, st)
      → IsRefuted p st.decision_tracker
      → Visited p lv st l post r

pub same-Progress : (p : Problem) (t : DecisionTracker) → Progress p t t
same-Progress p t = record {
  extends = λ v b h. h;
  sound = λ σ m a. a;
  index = refl;
  kept = λ k d h. h;
  fresh = λ v b h. inl h;
}

-- A satisfied clause stays so where its watches do and the trail only grows.
pub IsSatisfied-frame :
    (st st' : SolverState) (l : Literal) (x : ClauseId)
    → watched_of (node st'.watches.watches x) ≡ watched_of (node st.watches.watches x)
    → Extends st.decision_tracker st'.decision_tracker
    → IsSatisfied st l x
    → IsSatisfied st' l x
IsSatisfied-frame st st' l x same ext h w' has' = elim (Option-cases (node st.watches.watches x)) [
  | inl e ↦ absurd (ground arith)
  | inr (v, e) ↦
      let f : v.watched_literals ≡ w'.watched_literals = ground arith in
      eval-Extends _ st.decision_tracker st'.decision_tracker true ext (
        subst (λ q. eval (pick q (other_index (index_in q l))) st.decision_tracker.map ≡ some true)
          f (h v e))
]
