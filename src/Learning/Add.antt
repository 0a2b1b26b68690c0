-- ===== src/Learning/Add.antt =====
-- A learnt clause of src/solver/mod.rs is added with its causes.
use resolvo.Prelude.{
  ℕ, ◌<◌, ◌≡◌, ◌≢◌, refl, sym, ap, ◌∙◌, subst, inl, inr, Bool, true, Option, some, List, [], ◌∷◌,
  ◌++◌, arith, Returns, any, Elem, get_elem?, get_elem?-less, length, ==_refl, ==_false,
}
use resolvo.DecisionMap.{VariableId}
use resolvo.DecisionTracker.{ClauseId}
use resolvo.Literal.{Literal}
use resolvo.Mapping
use resolvo.Mapping.Laws.{Updated, insert-Updated}
use resolvo.Clause.{Clause, WatchedLiterals}
use resolvo.Clause.{from_kind_and_initial_watches}
use resolvo.Clause.Build
use resolvo.Clause.Build.{last_or}
use resolvo.Clause.Watched
use resolvo.Clauses.Add.{Added, add_clause-Added, chains_with}
use resolvo.WatchMap.{WatchMap}
use resolvo.Clauses.{Clauses}
use resolvo.WatchMap.Links.{IsApart}
use resolvo.Propagation.Models.{holds, HoldsAll}
use resolvo.Learning.{Solver, clauses_of, with_learnt, add_learnt}
use resolvo.Learning.Valid.{
  IsValid, IsStored, HasCauses, Extended, HoldsAt-Extended, HoldsAt-new, old_clause, learnt_length,
  IsStored-grown,
}

last_or-append : (l : Literal) (xs : List Literal) (a : Literal) → last_or l (xs ++ a ∷ []) ≡ a
last_or-append l [] a = refl
last_or-append l (x ∷ xs) a = last_or-append x xs a

-- The first literal and the last are watched, when there are two.
learnt-IsApart :
    (id : ℕ) (others : List Literal) (a : Literal)
    → ((l : Literal) (rest : List Literal) → others ≡ l ∷ rest → l ≢ a)
    → Returns (Watched.learnt id (others ++ a ∷ [])) (λ w. (w.1 ≡ Clause.learnt id) × IsApart w.0)
unfolding Watched.learnt Build.learnt Build.learnt_watches from_kind_and_initial_watches
learnt-IsApart id [] a apart = (_, refl, (refl, tt))
learnt-IsApart id (l ∷ []) a apart = (_, refl, (refl, apart l [] refl))
learnt-IsApart id (l ∷ x ∷ xs) a apart =
    (_, refl, (refl, λ e. apart l (x ∷ xs) refl (e ∙ last_or-append x xs a)))

-- What `add_learnt` leaves of the clauses and the problem.
pub record AddedLearnt (s : Solver) (ls : List Literal) (id : ClauseId) (s' : Solver) : Type 0 where
  pub same_id : id ≡ length s.problem.kinds
  pub valid : (chains : Literal → List ClauseId) × IsValid s' chains
  pub extended : Extended s.problem ls s'.problem
  pub ids : s'.problem.learnt_clause_ids ≡ s.problem.learnt_clause_ids ++ id ∷ []
  pub same_tracker : s'.state.decision_tracker ≡ s.state.decision_tracker

module _ (s : Solver) (chains : Literal → List ClauseId) (valid : IsValid s chains)
    (others : List Literal) (a : Literal) (why : List ClauseId)
    (apart : (l : Literal) (rest : List Literal) → others ≡ l ∷ rest → l ≢ a)
    (known : (c : ClauseId) → Elem c why → c < length s.problem.kinds)
    (follows : (σ : VariableId → Bool)
      → HoldsAll s.problem σ why
      → any (holds σ) (others ++ a ∷ []) ≡ true) where
  abbrev ls : List Literal
  ls = others ++ a ∷ []

  module _ (s' : Solver) (ext : Extended s.problem ls s'.problem)
      (why' : s'.learnt_why
        ≡ (Mapping.insert s.learnt_why (length s.problem.tables.learnt_clauses) why).1) where
    HoldsAll-back :
        (σ : VariableId → Bool) (cs : List ClauseId)
        → ((c : ClauseId) → Elem c cs → c < length s.problem.kinds)
        → HoldsAll s'.problem σ cs
        → HoldsAll s.problem σ cs
    HoldsAll-back σ cs less h c m =
        (HoldsAt-Extended s.problem ls s'.problem ext valid.stored σ c (less c m)).1 (h c m)

    updated : Updated s.learnt_why (length s.problem.tables.learnt_clauses) (some why) s'.learnt_why
    updated =
        subst (Updated s.learnt_why (length s.problem.tables.learnt_clauses) (some why)) (sym why')
          (insert-Updated s.learnt_why (length s.problem.tables.learnt_clauses) why valid.mapped).1

    stored_new :
        (id : ClauseId) (c : Clause)
        → get_elem? s'.problem.kinds id ≡ some c
        → IsStored s'.problem c
    stored_new id c h = elim (old_clause s.problem ls s'.problem ext valid.stored id c h) [
      | inl old ↦ IsStored-grown s.problem ls s'.problem ext valid.stored c (valid.stored id c old)
      | inr (_, q) ↦
          subst (IsStored s'.problem) q
            (let l = learnt_length s.problem ls s'.problem ext valid.stored in omega arith)
    ]

    new-HasCauses :
        HasCauses s'.problem s'.learnt_why
          (length s.problem.kinds)
          (length s.problem.tables.learnt_clauses)
    new-HasCauses = record {
      causes = why;
      stored = updated.values _ ∙ rw (==_refl (length s.problem.tables.learnt_clauses)) refl;
      before = known;
      follows = λ σ h.
          (HoldsAt-new s.problem ls s'.problem ext valid.stored σ).0
            (follows σ (HoldsAll-back σ why known h));
    }

    old-HasCauses :
        (id learnt_id : ℕ)
        → get_elem? s.problem.kinds id ≡ some (Clause.learnt learnt_id)
        → HasCauses s'.problem s'.learnt_why id learnt_id
    old-HasCauses id learnt_id h =
        let old = valid.causes id learnt_id h in
        let less = get_elem?-less s.problem.kinds id _ h in
        let l : learnt_id < length s.problem.tables.learnt_clauses = valid.stored id _ h in
        record {
          causes = old.causes;
          stored =
              updated.values learnt_id
              ∙ rw (==_false (length s.problem.tables.learnt_clauses) learnt_id (λ e. omega arith))
                  old.stored;
          before = old.before;
          follows = λ σ k. (HoldsAt-Extended s.problem ls s'.problem ext valid.stored σ id less).0 (
              old.follows σ
                (HoldsAll-back σ old.causes (λ c m. let b = old.before c m in omega arith) k));
        }

    causes_new :
        (id learnt_id : ℕ)
        → get_elem? s'.problem.kinds id ≡ some (Clause.learnt learnt_id)
        → HasCauses s'.problem s'.learnt_why id learnt_id
    causes_new id learnt_id h = elim (old_clause s.problem ls s'.problem ext valid.stored id _ h) [
      | inl old ↦ old-HasCauses id learnt_id old
      | inr (e, q) ↦
          let same : length s.problem.tables.learnt_clauses ≡ learnt_id = cc in
          subst (λ x. HasCauses s'.problem s'.learnt_why x learnt_id) (sym e)
            (subst (HasCauses s'.problem s'.learnt_why (length s.problem.kinds)) same new-HasCauses)
    ]

  with_learnt-AddedLearnt :
      (w : Option WatchedLiterals) (kind : Clause) (r : ClauseId × WatchMap × Clauses)
      → kind ≡ Clause.learnt (length s.problem.tables.learnt_clauses)
      → Added s.state.watches.watch_map (clauses_of s) chains w kind r
      → AddedLearnt s ls r.0 (with_learnt s ls why r)
  with_learnt-AddedLearnt w kind r is added =
      let s' = with_learnt s ls why r in
      let ext : Extended s.problem ls s'.problem = record {
        kinds = added.kinds ∙ ap (λ k. s.problem.kinds ++ k ∷ []) is;
        learnt_clauses = refl;
        sorted = refl;
        disjunctions = refl;
      } in
      record {
        same_id = added.id;
        valid = (
          chains_with chains w (length s.problem.kinds),
          record {
            lengths = added.lengths;
            lists = added.lists;
            mapped = (updated s' ext refl).valid;
            stored = stored_new s' ext refl;
            causes = causes_new s' ext refl;
          },
        );
        extended = ext;
        ids = refl;
        same_tracker = refl;
      }

  -- The clause gets the next id, and the invariant holds.
  pub add_learnt-AddedLearnt : Returns (add_learnt s ls why) (λ r. AddedLearnt s ls r.0 r.1)
  unfolding add_learnt
  add_learnt-AddedLearnt =
      let (w, run, (kind, w_apart)) =
        learnt-IsApart (length s.problem.tables.learnt_clauses) others a apart in
      let (r, run', added) =
        add_clause-Added s.state.watches.watch_map (clauses_of s) chains w.1 valid.lengths
          valid.lists w.0 w_apart in
      (
        (r.0, with_learnt s ls why r),
        rw (run, run') refl,
        with_learnt-AddedLearnt w.0 w.1 r kind added,
      )
