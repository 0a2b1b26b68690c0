-- ===== src/Tests/Conflicts.antt =====
-- The root requires variable 1, variable 1 selects variable 2, and the two exclude each other.
use mathlib.Core.List.{flatten}
use resolvo.Prelude.{
  ℕ, zero, suc, ◌<◌, ◌≡◌, refl, subst, inl, inr, Bool, true, false, none, some, List, [], ◌∷◌,
  arith, Returns, get_elem?,
}
use resolvo.DecisionMap
use resolvo.DecisionMap.{VariableId}
use resolvo.DecisionTracker.{ClauseId, Decision, DecisionTracker, clear, assigned_value, level}
use resolvo.DecisionTracker.Invariant
use resolvo.DecisionTracker.Invariant.{clear-IsValid, last_level}
use resolvo.DecisionTracker.Add.{pushed, pushed-IsValid}
use resolvo.Literal
use resolvo.Literal.{Literal, eval, variable, negative, positive, satisfying_value}
use resolvo.Mapping
use resolvo.Mapping.Laws.{new-IsValid}
use resolvo.Clause.{Clause, single, WatchedLiterals, literals, disjunction_literals, root}
use resolvo.Clause.Build.{both}
use resolvo.WatchMap.{WatchState}
use resolvo.WatchMap.Links
use resolvo.WatchMap.Start.{started, watched, start_watching-IsValid}
use resolvo.Propagation.{Problem}
use resolvo.Propagation.Models.{HoldsAll}
use resolvo.Analysis.Trail.{IsReason}
use resolvo.Learning.{Solver, learned, analyze, learn_from_conflict, analyze_unsolvable}
use resolvo.Learning.Valid.{IsValid, IsStored}
use resolvo.Learning.Analyze.{IsConflict, Learns, analyze-Learns}
use resolvo.Learning.Decide.{Redecided, learn_from_conflict-Redecided}
use resolvo.Learning.Gather.{AllGiven, IsGiven}
use resolvo.Learning.Involve.{IsRootConflict}
use resolvo.Learning.Core.{analyze_unsolvable-Core}
use resolvo.Tests.Watches.{no_watches, no_chains, no_watches-IsValid}

abbrev problem : Problem
problem = record {
  kinds =
      Clause.install_root
      ∷ Clause.requires 0 none (single 0)
      ∷ Clause.any_of 2 1
      ∷ Clause.constrains 1 2 0
      ∷ [];
  tables = record {
    learnt_clauses = [];
    requirement_to_sorted_candidates = λ r. some ((1 ∷ []) ∷ []);
    disjunction_to_candidates = [];
  };
  negative_assertions = [];
  learnt_clause_ids = [];
}

abbrev watching : Literal → Literal → WatchedLiterals
watching a b = record { watched_literals = both a b; next_watches = both none none }

abbrev watches : WatchState
watches = started (started (started no_watches (watching 1 2)) (watching 4 3)) (watching 3 5)

abbrev chains : Literal → List ClauseId
chains = watched (watched (watched no_chains (both 1 2) 1) (both 4 3) 2) (both 3 5) 3

watches-IsValid : Links.IsValid watches chains
watches-IsValid =
    start_watching-IsValid _ _ (watching 3 5)
      (start_watching-IsValid _ _ (watching 4 3)
        (start_watching-IsValid no_watches no_chains (watching 1 2) no_watches-IsValid
          (omega arith))
        (omega arith))
      (omega arith)

abbrev decision : ℕ → ℕ → Decision
decision v id = record { variable = v; value = true; derived_from = id }

-- The decisions of variables 1 and 2 are of this level.
abbrev trail : ℕ → DecisionTracker
trail l = pushed (pushed (pushed clear (decision 0 0) 1) (decision 1 1) l) (decision 2 2) l

abbrev solver : ℕ → Solver
solver l = record {
  problem = problem;
  state = record { decision_tracker = trail l; watches = watches };
  learnt_why = Mapping.new;
}

record IsTrail (l : ℕ) : Type 0 where
  free_root : assigned_value clear 0 ≡ none
  free_one : assigned_value (pushed clear (decision 0 0) 1) 1 ≡ none
  free_two : assigned_value (pushed (pushed clear (decision 0 0) 1) (decision 1 1) l) 2 ≡ none
  root_level : level (pushed clear (decision 0 0) 1) 0 ≡ 1
  one_level : level (pushed (pushed clear (decision 0 0) 1) (decision 1 1) l) 1 ≡ l
  levels : (level (trail l) 0 ≡ 1) × (level (trail l) 1 ≡ l) × (level (trail l) 2 ≡ l)
  not_one : eval 3 (trail l).map ≡ some false
  not_two : eval 5 (trail l).map ≡ some false
  root_true : assigned_value (trail l) root ≡ some true

first-IsTrail : IsTrail 1
unfolding clear assigned_value level eval Literal.variable Literal.negate DecisionMap.value
    DecisionMap.level DecisionMap.set_decision DecisionMap.empty DecisionMap.with_value_and_level
first-IsTrail = record {
  free_root = refl;
  free_one = refl;
  free_two = refl;
  root_level = refl;
  one_level = refl;
  levels = (refl, refl, refl);
  not_one = refl;
  not_two = refl;
  root_true = refl;
}

second-IsTrail : IsTrail 2
unfolding clear assigned_value level eval Literal.variable Literal.negate DecisionMap.value
    DecisionMap.level DecisionMap.set_decision DecisionMap.empty DecisionMap.with_value_and_level
second-IsTrail = record {
  free_root = refl;
  free_one = refl;
  free_two = refl;
  root_level = refl;
  one_level = refl;
  levels = (refl, refl, refl);
  not_one = refl;
  not_two = refl;
  root_true = refl;
}

trail-IsValid : (l : ℕ) → 0 < l → l < 3 → IsTrail l → Invariant.IsValid (trail l)
unfolding clear
trail-IsValid l pos small is =
    pushed-IsValid _ (decision 2 2) l (pos, omega arith)
      (pushed-IsValid _ (decision 1 1) l (pos, omega arith)
        (pushed-IsValid clear (decision 0 0) 1 (omega arith, omega arith) clear-IsValid is.free_root
          (omega arith))
        is.free_one (let h = is.root_level in omega arith))
      is.free_two (let h = is.one_level in omega arith)

two-IsReason : IsReason problem (decision 2 2) (decision 1 1 ∷ decision 0 0 ∷ [])
unfolding literals positive negative Literal.new variable satisfying_value Literal.negate
two-IsReason = record {
  clause = Clause.any_of 2 1;
  ls = 4 ∷ 3 ∷ [];
  has_clause = refl;
  has_literals = refl;
  forces = (inl (refl, refl), (inr refl, tt));
}

one-IsReason : IsReason problem (decision 1 1) (decision 0 0 ∷ [])
unfolding literals positive negative Literal.new variable satisfying_value Literal.negate
    disjunction_literals flatten
one-IsReason = record {
  clause = Clause.requires 0 none (single 0);
  ls = 1 ∷ 2 ∷ [];
  has_clause = refl;
  has_literals = refl;
  forces = (inr refl, (inl (refl, refl), tt));
}

-- No clause is learnt yet.
none_learnt : (id : ClauseId) (c : Clause) → get_elem? problem.kinds id ≡ some c → IsGiven c
none_learnt zero c h = let q : Clause.install_root ≡ c = cc in subst IsGiven q tt
none_learnt (suc zero) c h =
    let q : Clause.requires 0 none (single 0) ≡ c = cc in subst IsGiven q tt
none_learnt (suc (suc zero)) c h = let q : Clause.any_of 2 1 ≡ c = cc in subst IsGiven q tt
none_learnt (suc (suc (suc zero))) c h =
    let q : Clause.constrains 1 2 0 ≡ c = cc in subst IsGiven q tt
none_learnt (suc (suc (suc (suc id)))) c h = cc

given_stored : (c : Clause) → IsGiven c → IsStored problem c
given_stored Clause.install_root h = tt
given_stored (Clause.requires s d r) h = tt
given_stored (Clause.forbid_multiple_instances a b n) h = tt
given_stored (Clause.constrains a b v) h = tt
given_stored (Clause.constrains_excluded a b v) h = tt
given_stored (Clause.constrains_parent a b v) h = tt
given_stored (Clause.lock a b) h = tt
given_stored (Clause.learnt id) h = elim h [ ]
given_stored (Clause.excluded a r) h = tt
given_stored (Clause.any_of a b) h = tt

solver-IsValid : (l : ℕ) → IsValid (solver l) chains
solver-IsValid l = record {
  lengths = refl;
  lists = watches-IsValid;
  mapped = (new-IsValid Mapping.new refl).0;
  stored = λ id c h. given_stored c (none_learnt id c h);
  causes = λ id k h. elim (none_learnt id (Clause.learnt k) h) [ ];
}

second-IsConflict : IsConflict (solver 2) 2 3
unfolding clear literals negative Literal.new variable
second-IsConflict =
    let is = second-IsTrail in
    record {
      conflicting = record {
        trail = trail-IsValid 2 (omega arith) (omega arith) is;
        reasons = (
          inl two-IsReason,
          (inr (let h = is.levels in omega arith), (inr (let h = is.levels in omega arith), tt)),
        );
        root = let h = is.levels in omega arith;
        high = omega arith;
        below = let h = is.levels in omega arith;
      };
      fits = omega arith;
      clause = Clause.constrains 1 2 0;
      ls = 3 ∷ 5 ∷ [];
      has_clause = refl;
      has_literals = refl;
      falsified = (is.not_one, (is.not_two, tt));
      top = 3;
      top_in = inl refl;
      at_level = is.levels.1;
    }

first-IsRootConflict : IsRootConflict (solver 1) 3
unfolding clear literals negative Literal.new
first-IsRootConflict =
    let is = first-IsTrail in
    record {
      trail = trail-IsValid 1 (omega arith) (omega arith) is;
      reasons = (inr two-IsReason, (inr one-IsReason, (inl refl, tt)));
      installed = is.root_true;
      install_root = refl;
      clause = Clause.constrains 1 2 0;
      ls = 3 ∷ 5 ∷ [];
      has_clause = refl;
      has_literals = refl;
      falsified = (is.not_one, (is.not_two, tt));
    }

learn_from_conflict-Redecided_example :
    Returns
      (learn_from_conflict (solver 2) 2 2 3)
      (λ o. (l : ℕ) × (s' : Solver) × (o ≡ learned l s') × Redecided (solver 2) 2 l s')
learn_from_conflict-Redecided_example =
    learn_from_conflict-Redecided (solver 2) chains 2 2 3 (solver-IsValid 2) second-IsConflict

analyze-Learns_example : Returns (analyze (solver 2) 2 2 3) (λ r. Learns (solver 2) 2 r.0 r.1)
analyze-Learns_example = analyze-Learns (solver 2) chains 2 2 3 (solver-IsValid 2) second-IsConflict

analyze_unsolvable-Core_example : Returns (analyze_unsolvable (solver 1) 3) (λ conflict.
    AllGiven problem conflict
    × ((σ : VariableId → Bool) → HoldsAll problem σ conflict → σ root ≡ false))
analyze_unsolvable-Core_example =
    analyze_unsolvable-Core (solver 1) chains 3 (solver-IsValid 1) first-IsRootConflict
