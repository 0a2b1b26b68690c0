-- ===== src/Learning/Valid.antt =====
-- The clauses of src/solver/mod.rs with their learnt ones: which clauses each was learnt from.
use resolvo.Prelude.{
  ℕ, zero, suc, ◌<◌, ◌≡◌, ◌⊎◌, ◌↔◌, refl, sym, ap, ◌∙◌, subst, inl, inr, Bool, true, some, List, [],
  ◌∷◌, ◌++◌, arith, ok, expect, any, Elem, get_elem?, get_elem?-less, get_elem?-last,
  get_elem?-append_left, get_elem?-append_one, length, length-append,
}
use resolvo.DecisionMap.{VariableId}
use resolvo.DecisionTracker.{ClauseId, DecisionTracker}
use resolvo.Literal.{Literal}
use resolvo.Mapping
use resolvo.Mapping.{Mapping}
use resolvo.Mapping.Laws
use resolvo.Clause.{Clause, LearntClauseId, literals, disjunction_literals}
use resolvo.WatchMap.Links
use resolvo.Propagation.{Problem}
use resolvo.Propagation.Models.{holds, HoldsAt, HoldsAll, IsModel}
use resolvo.Learning.{Solver}

-- The literals of a learnt clause are stored.
abbrev pub IsStored : Problem → Clause → Type 0
IsStored p (Clause.learnt id) = id < length p.tables.learnt_clauses
IsStored p _ = Unit

-- The causes of a learnt clause are clauses before it, and it follows from them.
pub record HasCauses (p : Problem) (learnt_why : Mapping (List ClauseId)) (id : ClauseId)
    (learnt_id : LearntClauseId) : Type 0 where
  pub causes : List ClauseId
  pub stored : Mapping.get learnt_why learnt_id ≡ some causes
  pub before : (c : ClauseId) → Elem c causes → c < id
  pub follows : (σ : VariableId → Bool) → HoldsAll p σ causes → HoldsAt p σ id

pub record IsValid (s : Solver) (chains : Literal → List ClauseId) : Type 0 where
  pub lengths : length s.state.watches.watches ≡ length s.problem.kinds
  pub lists : Links.IsValid s.state.watches chains
  pub mapped : Laws.IsValid s.learnt_why
  pub stored :
      (id : ClauseId) (c : Clause) → get_elem? s.problem.kinds id ≡ some c → IsStored s.problem c
  pub causes :
      (id : ClauseId) (learnt_id : LearntClauseId)
      → get_elem? s.problem.kinds id ≡ some (Clause.learnt learnt_id)
      → HasCauses s.problem s.learnt_why id learnt_id

-- The problem `p'` has one more clause, a learnt one.
pub record Extended (p : Problem) (ls : List Literal) (p' : Problem) : Type 0 where
  pub kinds : p'.kinds ≡ p.kinds ++ Clause.learnt (length p.tables.learnt_clauses) ∷ []
  pub learnt_clauses : p'.tables.learnt_clauses ≡ p.tables.learnt_clauses ++ ls ∷ []
  pub sorted :
      p'.tables.requirement_to_sorted_candidates ≡ p.tables.requirement_to_sorted_candidates
  pub disjunctions : p'.tables.disjunction_to_candidates ≡ p.tables.disjunction_to_candidates

expect-get_elem?_append :
    (xs : List (List Literal)) (ys : List Literal) (i : ℕ)
    → i < length xs
    → get_elem? (xs ++ ys ∷ []) i ≡ get_elem? xs i
expect-get_elem?_append [] ys i h = absurd (omega arith)
expect-get_elem?_append (x ∷ xs) ys zero h = refl
expect-get_elem?_append (x ∷ xs) ys (suc i) h = expect-get_elem?_append xs ys i (omega arith)

module _ (p : Problem) (ls : List Literal) (p' : Problem) (ext : Extended p ls p')
    (stored : (id : ClauseId) (c : Clause) → get_elem? p.kinds id ≡ some c → IsStored p c) where
  pub learnt_length : length p'.tables.learnt_clauses ≡ suc (length p.tables.learnt_clauses)
  learnt_length =
      ap length ext.learnt_clauses ∙ length-append p.tables.learnt_clauses (ls ∷ []) ∙ omega arith

  literals-Extended : (c : Clause) → IsStored p c → literals p'.tables c ≡ literals p.tables c
  unfolding literals disjunction_literals
  literals-Extended Clause.install_root h = refl
  literals-Extended (Clause.requires s d r) h = rw (ext.sorted, ext.disjunctions) refl
  literals-Extended (Clause.forbid_multiple_instances a b n) h = refl
  literals-Extended (Clause.constrains a b v) h = refl
  literals-Extended (Clause.constrains_excluded a b v) h = refl
  literals-Extended (Clause.constrains_parent a b v) h = refl
  literals-Extended (Clause.lock a b) h = refl
  literals-Extended (Clause.learnt id) h = ap expect (
      ap (λ xs. get_elem? xs id) ext.learnt_clauses
      ∙ expect-get_elem?_append p.tables.learnt_clauses ls id h)
  literals-Extended (Clause.excluded a r) h = refl
  literals-Extended (Clause.any_of a b) h = refl

  pub IsStored-grown : (c : Clause) → IsStored p c → IsStored p' c
  IsStored-grown Clause.install_root h = h
  IsStored-grown (Clause.requires s d r) h = h
  IsStored-grown (Clause.forbid_multiple_instances a b n) h = h
  IsStored-grown (Clause.constrains a b v) h = h
  IsStored-grown (Clause.constrains_excluded a b v) h = h
  IsStored-grown (Clause.constrains_parent a b v) h = h
  IsStored-grown (Clause.lock a b) h = h
  IsStored-grown (Clause.learnt id) h = let l = learnt_length in omega arith
  IsStored-grown (Clause.excluded a r) h = h
  IsStored-grown (Clause.any_of a b) h = h

  pub literals-new : literals p'.tables (Clause.learnt (length p.tables.learnt_clauses)) ≡ ok ls
  unfolding literals
  literals-new = ap expect (
      ap (λ xs. get_elem? xs (length p.tables.learnt_clauses)) ext.learnt_clauses
      ∙ get_elem?-last p.tables.learnt_clauses ls)

  pub kinds-new :
      get_elem? p'.kinds (length p.kinds) ≡ some (Clause.learnt (length p.tables.learnt_clauses))
  kinds-new = ap (λ ks. get_elem? ks (length p.kinds)) ext.kinds ∙ get_elem?-last p.kinds _

  pub old_clause :
      (id : ClauseId) (c : Clause)
      → get_elem? p'.kinds id ≡ some c
      → (get_elem? p.kinds id ≡ some c)
        ⊎ ((id ≡ length p.kinds) × (Clause.learnt (length p.tables.learnt_clauses) ≡ c))
  old_clause id c h =
      get_elem?-append_one p.kinds _ id c (subst (λ ks. get_elem? ks id ≡ some c) ext.kinds h)

  -- The clauses before it hold as they did.
  pub HoldsAt-Extended :
      (σ : VariableId → Bool) (id : ClauseId)
      → id < length p.kinds
      → HoldsAt p σ id ↔ HoldsAt p' σ id
  HoldsAt-Extended σ id less = (
    (λ h c ks e l. elim (old_clause id c e) [
      | inl old ↦ h c ks old (sym (literals-Extended c (stored id c old)) ∙ l)
      | inr (same, _) ↦ absurd (omega arith)
    ]),
    (λ h c ks e l.
        h c ks
          (subst (λ kinds. get_elem? kinds id ≡ some c) (sym ext.kinds)
            (get_elem?-append_left p.kinds _ id c e))
          (literals-Extended c (stored id c e) ∙ l)),
  )

  -- The new clause has the literals `ls`.
  pub HoldsAt-new :
      (σ : VariableId → Bool) → (any (holds σ) ls ≡ true) ↔ HoldsAt p' σ (length p.kinds)
  HoldsAt-new σ = (
    (λ h c ks e l. elim (old_clause (length p.kinds) c e) [
      | inl old ↦ let less = get_elem?-less p.kinds (length p.kinds) c old in absurd (omega arith)
      | inr (_, q) ↦
          let l' : literals p'.tables (Clause.learnt (length p.tables.learnt_clauses)) ≡ ok ks =
            subst (λ x. literals p'.tables x ≡ ok ks) (sym q) l in
          let n = literals-new in
          let same : ls ≡ ks = cc in subst (λ x. any (holds σ) x ≡ true) same h
    ]),
    (λ h. h _ ls kinds-new literals-new),
  )

  pub IsModel-Extended :
      ((σ : VariableId → Bool) → IsModel p σ → any (holds σ) ls ≡ true)
      → (σ : VariableId → Bool) → IsModel p σ ↔ IsModel p' σ
  IsModel-Extended follows σ = (
    (λ model id c ks e l. elim (old_clause id c e) [
      | inl old ↦ (HoldsAt-Extended σ id (get_elem?-less p.kinds id c old)).0 (model id) c ks e l
      | inr (same, _) ↦
          subst (HoldsAt p' σ) (sym same) ((HoldsAt-new σ).0 (follows σ model)) c ks e l
    ]),
    (λ model id c ks e l.
        (HoldsAt-Extended σ id (get_elem?-less p.kinds id c e)).1 (model id) c ks e l),
  )

-- No field of the invariant reads the trail.
pub tracked-IsValid :
    (s : Solver) (chains : Literal → List ClauseId) (t : DecisionTracker)
    → IsValid s chains
    → IsValid (record s { state = record s.state { decision_tracker = t } }) chains
tracked-IsValid s chains t valid = record {
  lengths = valid.lengths;
  lists = valid.lists;
  mapped = valid.mapped;
  stored = valid.stored;
  causes = valid.causes;
}
