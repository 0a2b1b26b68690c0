-- ===== src/Propagation/Assertions.antt =====
-- `decide_assertions` of src/solver/mod.rs: the assertions are clauses of one negative literal.
use resolvo.Prelude.{
  ℕ, ◌≡◌, refl, Bool, true, false, some, List, [], ◌∷◌, arith, ok, Returns, All, get_elem?, inl,
}
use resolvo.DecisionMap.{VariableId}
use resolvo.DecisionTracker.{ClauseId, DecisionTracker, assigned_value}
use resolvo.Literal.{negative, satisfying_value}
use resolvo.Literal.Laws.{variable-new, negate-new}
use resolvo.Clause.{Clause, literals}
use resolvo.Propagation.{Problem, Outcome, success, decide_assertions}
use resolvo.Propagation.Units.{IsOpen, Decided, decide_one-Decided}
use resolvo.Propagation.Models.{IsModel, Mentions}
use resolvo.Propagation.Progress.{same-Progress}

-- The clause of an assertion is the negative literal of its variable.
abbrev pub IsAssertion : Problem → VariableId × ClauseId → Type 0
IsAssertion p (v, id) =
    (clause : Clause) × (get_elem? p.kinds id ≡ some clause)
    × (literals p.tables clause ≡ ok (negative v ∷ []))

-- All the variables are false afterwards.
abbrev pub Asserted :
    Problem
    → ℕ
    → DecisionTracker
    → List (VariableId × ClauseId)
    → Outcome (Unit {0}) × DecisionTracker
    → Type 0
Asserted p lv t list = Decided p lv t (λ k. All (λ a. assigned_value k a.0 ≡ some false) list)

model-false :
    (p : Problem) (σ : VariableId → Bool) (v : VariableId) (id : ClauseId)
    → IsModel p σ
    → IsAssertion p (v, id)
    → σ v ≡ false
unfolding negative satisfying_value
model-false p σ v id model (clause, has, is) =
    let sat = model id clause (negative v ∷ []) has is in
    ground (arith, variable-new v true, negate-new v true)

assertion-Mentions :
    (p : Problem) (v : VariableId) (id : ClauseId) → IsAssertion p (v, id) → Mentions p v
unfolding negative
assertion-Mentions p v id is = record {
  id = id;
  clause = is.0;
  ls = negative v ∷ [];
  lit = negative v;
  has_clause = is.1;
  has_literals = is.2;
  mem = inl refl;
  of_lit = variable-new v true;
}

-- On an open trail, and where each assertion's clause is its negative literal, deciding the
-- assertions does not panic. Either all their variables are false after it, and every model of the
-- clauses that agreed with the trail still does; or it reports a conflict, and no model agrees with
-- the trail. In both cases the trail is open again, and what was decided stays.
pub decide_assertions-Asserted :
    (p : Problem) (lv : ℕ) (t : DecisionTracker) (list : List (VariableId × ClauseId))
    → IsOpen lv t
    → All (IsAssertion p) list
    → Returns (decide_assertions list lv t) (Asserted p lv t list)
unfolding decide_assertions
decide_assertions-Asserted p lv t [] ready all =
    ((success tt, t), refl, Decided.asserted refl ready (same-Progress p t) tt)
decide_assertions-Asserted p lv t ((v, id) ∷ rest) ready (is, all) =
    decide_one-Decided p lv t v false id (λ σ model. model-false p σ v id model is)
      (assertion-Mentions p v id is) (λ t'. decide_assertions rest lv t')
      (λ k. All (λ a. assigned_value k a.0 ≡ some false) rest)
      (λ t' ready'. decide_assertions-Asserted p lv t' rest ready' all) ready
