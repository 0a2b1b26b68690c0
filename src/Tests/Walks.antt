-- ===== src/Tests/Walks.antt =====
-- Propagation of a literal that two learnt clauses watch, one of two literals and one of three.
use resolvo.Propagation.Passed.{AllPassed-start}
use resolvo.Propagation.Outer.{Propagated, propagate_decisions-Propagated}
use resolvo.Propagation.Bounds.{InBounds}
use resolvo.Propagation.Models.{Mentions}
use resolvo.Prelude.{
  zero, suc, ◌≡◌, refl, subst, inl, inr, false, none, some, [], ◌∷◌, arith, Returns, All, Elem, sym,
  get_elem?, ◌<◌, List, ℕ, ok,
}
use resolvo.DecisionMap
use resolvo.DecisionTracker.{Decision, clear, assigned_value, level}
use resolvo.DecisionTracker.Invariant
use resolvo.DecisionTracker.Invariant.{clear-IsValid}
use resolvo.DecisionTracker.Add.{pushed, pushed-IsValid}
use resolvo.Literal
use resolvo.Literal.{Literal, eval, negative}
use resolvo.Mapping
use resolvo.Clause.{install_root, learnt, excluded, is_binary, literals, Clause}
use resolvo.Clause.Build.{both}
use resolvo.WatchMap.{start_watching, start_watching_at}
use resolvo.Propagation.{
  Problem, SolverState, propagate_literal, propagate_decisions, success, decide_learned,
  propagate_impl,
}
use resolvo.Propagation.Units.{IsOpen, Decided}
use resolvo.Propagation.Assertions.{IsAssertion}
use resolvo.Propagation.Learned.{IsLearned, HoldsUnit, decide_learned-Decided}
use resolvo.Propagation.Whole.{AllAsserted, IsPropagated, propagate_impl-Propagated}
use resolvo.Propagation.Invariant.{IsWatched, AllWatched, IsReady}
use resolvo.Propagation.Walk.{Walked, propagate_literal-Walked}
use resolvo.Tests.Watches.{two_clauses, two_chains, two_clauses-IsValid}

abbrev problem : Problem
problem = record {
  kinds = install_root ∷ learnt 0 ∷ learnt 1 ∷ learnt 2 ∷ excluded 4 0 ∷ [];
  tables = record {
    learnt_clauses = (2 ∷ 4 ∷ []) ∷ (2 ∷ 6 ∷ 8 ∷ []) ∷ (10 ∷ []) ∷ [];
    requirement_to_sorted_candidates = λ r. none;
    disjunction_to_candidates = [];
  };
  negative_assertions = (4, 4) ∷ [];
  learnt_clause_ids = 1 ∷ 2 ∷ 3 ∷ [];
}

-- Variable 1 is false, so that the literal 2 is.
abbrev first : Decision
first = record { variable = 1; value = false; derived_from = 0 }

abbrev state : SolverState
state = record { decision_tracker = pushed clear first 1; watches = two_clauses }

state-values :
    (assigned_value clear 1 ≡ none)
    × (level state.decision_tracker 1 ≡ 1)
    × (eval 2 state.decision_tracker.map ≡ some false)
unfolding clear assigned_value level eval Literal.variable Literal.negate DecisionMap.value
    DecisionMap.level DecisionMap.set_decision DecisionMap.empty DecisionMap.with_value_and_level
state-values = (refl, refl, refl)

state-IsValid : Invariant.IsValid state.decision_tracker
unfolding clear
state-IsValid =
    pushed-IsValid clear first 1 (omega arith, omega arith) clear-IsValid state-values.0
      (omega arith)

older-IsWatched : IsWatched problem 1 (both 2 4)
unfolding literals is_binary
older-IsWatched = record {
  clause = learnt 0;
  ls = 2 ∷ 4 ∷ [];
  has_clause = refl;
  has_literals = refl;
  watchable = tt;
  watching = record { zero_mem = inl refl; one_mem = inr (inl refl); binary = λ h. cc };
}

newer-IsWatched : IsWatched problem 2 (both 2 6)
unfolding literals is_binary
newer-IsWatched = record {
  clause = learnt 1;
  ls = 2 ∷ 6 ∷ 8 ∷ [];
  has_clause = refl;
  has_literals = refl;
  watchable = tt;
  watching = record { zero_mem = inl refl; one_mem = inr (inl refl); binary = λ h. cc };
}

state-AllWatched : AllWatched problem two_clauses.watches
unfolding start_watching start_watching_at Mapping.insert Mapping.get Mapping.new Mapping.fit
    Mapping.set_slot Mapping.slot Mapping.empty_chunk
state-AllWatched zero w h = cc
state-AllWatched (suc zero) w h =
    let e : both 2 4 ≡ w.watched_literals = ground arith in
    subst (IsWatched problem 1) e older-IsWatched
state-AllWatched (suc (suc zero)) w h =
    let e : both 2 6 ≡ w.watched_literals = ground arith in
    subst (IsWatched problem 2) e newer-IsWatched
state-AllWatched (suc (suc (suc x))) w h = cc

state-IsReady : IsReady problem 1 state two_chains
unfolding clear
state-IsReady = record {
  lists = two_clauses-IsValid;
  trail = state-IsValid;
  fits = (omega arith, omega arith);
  below = omega (arith, state-values.1);
  watched = state-AllWatched;
}

propagate_literal-Walked_example :
    Returns (propagate_literal 2 problem 1 state 2) (Walked problem 1 state 2)
propagate_literal-Walked_example =
    propagate_literal-Walked 2 problem 1 state two_chains 2 state-IsReady state-values.2
      (omega arith)

learnt_literals-below :
    (ls : List Literal) (k : Literal) (v : ℕ)
    → All (λ x. x < 12) ls
    → Elem k ls
    → Literal.variable k ≡ v
    → v < 6
unfolding Literal.variable
learnt_literals-below [] k v h m e = elim m [ ]
learnt_literals-below (x ∷ xs) k v h (inl q) e = let a = h.0 in ground arith
learnt_literals-below (x ∷ xs) k v h (inr m) e = learnt_literals-below xs k v h.1 m e

problem-below : (v : ℕ) → Mentions problem v → v < 6
unfolding literals negative Literal.new
problem-below v m = go m.id m.clause m.has_clause m.has_literals
  where
    go :
        (id : ℕ) (clause : Clause)
        → get_elem? problem.kinds id ≡ some clause
        → literals problem.tables clause ≡ ok m.ls
        → v < 6
    go zero clause h h' =
        let e : install_root ≡ clause = ground arith in
        let f = subst (λ c. literals problem.tables c ≡ ok m.ls) (sym e) h' in cc
    go (suc zero) clause h h' =
        let e : learnt 0 ≡ clause = ground arith in
        let f : m.ls ≡ 2 ∷ 4 ∷ [] =
          let g = subst (λ c. literals problem.tables c ≡ ok m.ls) (sym e) h' in ground arith in
        learnt_literals-below (2 ∷ 4 ∷ []) m.lit v (omega arith, (omega arith, tt))
          (subst (Elem m.lit) f m.mem) m.of_lit
    go (suc (suc zero)) clause h h' =
        let e : learnt 1 ≡ clause = ground arith in
        let f : m.ls ≡ 2 ∷ 6 ∷ 8 ∷ [] =
          let g = subst (λ c. literals problem.tables c ≡ ok m.ls) (sym e) h' in ground arith in
        learnt_literals-below (2 ∷ 6 ∷ 8 ∷ []) m.lit v
          (omega arith, (omega arith, (omega arith, tt))) (subst (Elem m.lit) f m.mem) m.of_lit
    go (suc (suc (suc zero))) clause h h' =
        let e : learnt 2 ≡ clause = ground arith in
        let f : m.ls ≡ 10 ∷ [] =
          let g = subst (λ c. literals problem.tables c ≡ ok m.ls) (sym e) h' in ground arith in
        learnt_literals-below (10 ∷ []) m.lit v (omega arith, tt) (subst (Elem m.lit) f m.mem)
          m.of_lit
    go (suc (suc (suc (suc zero)))) clause h h' =
        let e : excluded 4 0 ≡ clause = ground arith in
        let f : m.ls ≡ 9 ∷ [] =
          let g = subst (λ c. literals problem.tables c ≡ ok m.ls) (sym e) h' in ground arith in
        learnt_literals-below (9 ∷ []) m.lit v (omega arith, tt) (subst (Elem m.lit) f m.mem)
          m.of_lit
    go (suc (suc (suc (suc (suc x))))) clause h h' = cc

state-InBounds : InBounds 6 state.decision_tracker
unfolding clear assigned_value DecisionMap.value DecisionMap.set_decision DecisionMap.empty
    DecisionMap.with_value_and_level
state-InBounds zero b h = omega arith
state-InBounds (suc zero) b h = omega arith
state-InBounds (suc (suc v)) b h = cc

propagate_decisions-Propagated_example :
    Returns (propagate_decisions 7 5 problem 1 state) (Propagated problem 1 0 state)
unfolding clear
propagate_decisions-Propagated_example =
    propagate_decisions-Propagated 7 5 problem 1 6 0 state two_chains state-IsReady
      (AllPassed-start state) problem-below state-InBounds (omega arith) (omega arith)

four-IsAssertion : IsAssertion problem (4, 4)
unfolding literals
four-IsAssertion = (excluded 4 0, refl, refl)

problem-IsLearned : All (IsLearned problem) problem.learnt_clause_ids
problem-IsLearned = (
  record { learnt_id = 0; first = 2; others = 4 ∷ []; has_clause = refl; has_literals = refl },
  (
    record {
      learnt_id = 1;
      first = 2;
      others = 6 ∷ 8 ∷ [];
      has_clause = refl;
      has_literals = refl;
    },
    (record { learnt_id = 2; first = 10; others = []; has_clause = refl; has_literals = refl }, tt),
  ),
)

state-IsOpen : IsOpen 1 state.decision_tracker
state-IsOpen = record {
  trail = state-IsReady.trail;
  fits = state-IsReady.fits;
  below = state-IsReady.below;
}

decide_learned-Decided_example :
    Returns
      (decide_learned problem (1 ∷ 2 ∷ 3 ∷ []) 1 state.decision_tracker)
      (Decided problem 1 state.decision_tracker (λ k. All (HoldsUnit problem k) (1 ∷ 2 ∷ 3 ∷ [])))
decide_learned-Decided_example =
    decide_learned-Decided problem 1 state.decision_tracker (1 ∷ 2 ∷ 3 ∷ []) state-IsOpen
      problem-IsLearned

propagate_impl-Propagated_example : Returns (propagate_impl 7 5 problem false 1 state) (λ r.
    Propagated problem 1 state.decision_tracker.propagate_index state r
    × (r.0 ≡ success tt
        → AllAsserted problem r.1.decision_tracker × IsPropagated problem r.1.decision_tracker))
unfolding clear
propagate_impl-Propagated_example =
    propagate_impl-Propagated 7 5 problem 1 6 state two_chains state-IsReady (four-IsAssertion, tt)
      problem-IsLearned problem-below state-InBounds (omega arith) (omega arith)
