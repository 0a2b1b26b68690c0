-- ===== src/Propagation/Models.antt =====
-- Assignments of all variables, and what the trail of src/solver/decision_tracker.rs says of them.
use resolvo.Prelude.{
  ℕ, ◌≡◌, ◌⊎◌, sym, subst, inl, inr, Bool, true, false, some, List, [], ◌∷◌, arith, ok, bool_eq,
  any, get_elem?, All, Bool-cases, Elem, not, refl,
}
use resolvo.DecisionMap.{VariableId}
use resolvo.DecisionTracker.{ClauseId, DecisionTracker, assigned_value}
use resolvo.Literal.{Literal, variable, satisfying_value, eval}
use resolvo.Clause.{Clause, literals}
use resolvo.Propagation.{Problem}

-- Whether a total assignment satisfies a literal.
abbrev pub holds : (VariableId → Bool) → Literal → Bool
holds σ l = bool_eq (σ (variable l)) (satisfying_value l)

-- It satisfies the clause with this id.
abbrev pub HoldsAt : Problem → (VariableId → Bool) → ClauseId → Type 0
HoldsAt p σ id =
    (clause : Clause) (ls : List Literal)
    → get_elem? p.kinds id ≡ some clause
    → literals p.tables clause ≡ ok ls
    → any (holds σ) ls ≡ true

-- It satisfies these clauses, and every clause of the problem.
abbrev pub HoldsAll : Problem → (VariableId → Bool) → List ClauseId → Type 0
HoldsAll p σ ids = (id : ClauseId) → Elem id ids → HoldsAt p σ id

abbrev pub IsModel : Problem → (VariableId → Bool) → Type 0
IsModel p σ = (id : ClauseId) → HoldsAt p σ id

-- It gives every decided variable its value.
abbrev pub Agrees : (VariableId → Bool) → DecisionTracker → Type 0
Agrees σ t = (v : VariableId) (b : Bool) → assigned_value t v ≡ some b → σ v ≡ b

-- What was decided stays decided.
abbrev pub Extends : DecisionTracker → DecisionTracker → Type 0
Extends t t' =
    (v : VariableId) (b : Bool) → assigned_value t v ≡ some b → assigned_value t' v ≡ some b

pub eval-assigned :
    (l : Literal) (t : DecisionTracker) (b : Bool)
    → eval l t.map ≡ some b
    → assigned_value t (variable l) ≡ some (bool_eq b (satisfying_value l))
unfolding eval assigned_value satisfying_value
eval-assigned l t b h = ground arith

pub assigned-eval :
    (l : Literal) (t : DecisionTracker) (b : Bool)
    → assigned_value t (variable l) ≡ some (bool_eq b (satisfying_value l))
    → eval l t.map ≡ some b
unfolding eval assigned_value satisfying_value
assigned-eval l t b h = ground arith

-- A literal that is true or false stays so.
pub eval-Extends :
    (l : Literal) (t t' : DecisionTracker) (b : Bool)
    → Extends t t'
    → eval l t.map ≡ some b
    → eval l t'.map ≡ some b
eval-Extends l t t' b ext h = assigned-eval l t' b (ext _ _ (eval-assigned l t b h))

-- An assignment that agrees with the trail gives a decided literal its value.
pub holds-Agrees :
    (σ : VariableId → Bool) (t : DecisionTracker) (l : Literal) (b : Bool)
    → Agrees σ t
    → eval l t.map ≡ some b
    → holds σ l ≡ b
holds-Agrees σ t l b agrees h =
    let e = agrees (variable l) _ (eval-assigned l t b h) in ground arith

-- Of a clause that holds, all of whose literals but one are false, that one holds.
pub holds-unit :
    (σ : VariableId → Bool) (t : DecisionTracker) (other : Literal) (ls : List Literal)
    → Agrees σ t
    → All (λ l. (other ≡ l) ⊎ (eval l t.map ≡ some false)) ls
    → any (holds σ) ls ≡ true
    → holds σ other ≡ true
holds-unit σ t other [] agrees h sat = cc
holds-unit σ t other (l ∷ ls) agrees (inl e, rest) sat = elim (Bool-cases (holds σ l)) [
  | inl hit ↦ subst (λ l. holds σ l ≡ true) (sym e) hit
  | inr miss ↦ holds-unit σ t other ls agrees rest (ground arith)
]
holds-unit σ t other (l ∷ ls) agrees (inr e, rest) sat =
    let no = holds-Agrees σ t l false agrees e in holds-unit σ t other ls agrees rest (ground arith)

-- The variable of a literal of one of the clauses.
pub record Mentions (p : Problem) (v : VariableId) : Type 0 where
  pub id : ℕ
  pub clause : Clause
  pub ls : List Literal
  pub lit : Literal
  pub has_clause : get_elem? p.kinds id ≡ some clause
  pub has_literals : literals p.tables clause ≡ ok ls
  pub mem : Elem lit ls
  pub of_lit : variable lit ≡ v

pub not-value : (s : Bool) → not s ≡ bool_eq false s
not-value true = refl
not-value false = refl
