-- ===== src/Analysis/Trail.antt =====
-- The reasons on the trail of src/solver/decision_tracker.rs, which conflict analysis in
-- src/solver/mod.rs resolves with.
use resolvo.Prelude.{
  ℕ, ◌≤◌, ◌<◌, ◌≡◌, ◌⊎◌, refl, sym, ◌∙◌, subst, inl, inr, Bool, not, none, some, List, [], ◌∷◌,
  arith, ok, All, get_elem?, ◌==◌, ==_refl, ==_false, Bool-cases,
}
use resolvo.DecisionMap.{VariableId}
use resolvo.DecisionTracker.{Decision, DecisionTracker, assigned_value, level}
use resolvo.DecisionTracker.Invariant.{IsValid, stack_value, Distinct, Levelled, last_level}
use resolvo.Literal.{Literal, variable, satisfying_value}
use resolvo.Clause.{Clause, literals}
use resolvo.Propagation.{Problem}

-- A literal that decides `d`, or that the decisions below make false.
abbrev pub IsOwn : Decision → Literal → Type 0
IsOwn d l = (variable l ≡ d.variable) × (satisfying_value l ≡ d.value)

abbrev pub IsFalseIn : List Decision → Literal → Type 0
IsFalseIn ds l = stack_value ds (variable l) ≡ some (not (satisfying_value l))

-- The clause from which a decision was derived leaves no other value, by the decisions below it.
pub record IsReason (p : Problem) (d : Decision) (ds : List Decision) : Type 0 where
  pub clause : Clause
  pub ls : List Literal
  pub has_clause : get_elem? p.kinds d.derived_from ≡ some clause
  pub has_literals : literals p.tables clause ≡ ok ls
  pub forces : All (λ l. IsOwn d l ⊎ IsFalseIn ds l) ls

-- Every decision has its reason, or begins a level.
abbrev pub HasReasons : Problem → (VariableId → ℕ) → List Decision → Type 0
HasReasons p f [] = Unit
HasReasons p f (d ∷ ds) = (IsReason p d ds ⊎ (last_level f ds < f d.variable)) × HasReasons p f ds

last_level_frame :
    (f g : VariableId → ℕ) (ds : List Decision)
    → ((v : VariableId) (b : Bool) → stack_value ds v ≡ some b → f v ≡ g v)
    → last_level f ds ≡ last_level g ds
last_level_frame f g [] same = refl
last_level_frame f g (d ∷ ds) same = same d.variable d.value (rw (==_refl d.variable))

pub HasReasons-frame :
    (p : Problem) (f g : VariableId → ℕ) (ds : List Decision)
    → ((v : VariableId) (b : Bool) → stack_value ds v ≡ some b → f v ≡ g v)
    → Distinct ds
    → HasReasons p f ds
    → HasReasons p g ds
HasReasons-frame p f g [] same u h = tt
HasReasons-frame p f g (d ∷ ds) same u h =
    let below : (v : VariableId) (b : Bool) → stack_value ds v ≡ some b → f v ≡ g v = λ v b s.
      same v b (
        rw (==_false d.variable v (λ q. let z = subst (λ x. stack_value ds x ≡ none) q u.0 in cc))
          s) in
    (
      elim h.0 [
        | inl r ↦ inl r
        | inr less ↦
            let a = last_level_frame f g ds below in
            let b = same d.variable d.value (rw (==_refl d.variable)) in inr (omega arith)
      ],
      HasReasons-frame p f g ds below u.1 h.1,
    )

-- No decision lies above the level of the last one.
Levelled-top :
    (f : VariableId → ℕ) (ds : List Decision) (top : ℕ) (v : VariableId) (b : Bool)
    → Levelled f ds top
    → stack_value ds v ≡ some b
    → f v ≤ top
Levelled-top f [] top v b h e = cc
Levelled-top f (d ∷ ds) top v b h e = elim (Bool-cases (d.variable == v)) [
  | inl mine ↦ ground arith
  | inr other ↦ let r = Levelled-top f ds (f d.variable) v b h.2 (ground arith) in omega arith
]

pub level-last_level :
    (t : DecisionTracker) (v : VariableId) (b : Bool)
    → IsValid t
    → assigned_value t v ≡ some b
    → level t v ≤ last_level (level t) t.stack
level-last_level t v b valid e =
    Levelled-top (level t) t.stack (last_level (level t) t.stack) v b valid.levelled
      (sym (valid.agrees v) ∙ e)

-- The trail of two decisions or more that `undo_last` takes the last one of.
pub two_or_more :
    (t : DecisionTracker) (v : VariableId) (b : Bool)
    → IsValid t
    → assigned_value t v ≡ some b
    → (d : Decision) × (ds : List Decision) × (t.stack ≡ d ∷ ds)
two_or_more t v b valid e = go t.stack (sym (valid.agrees v) ∙ e)
  where
    go :
        (s : List Decision)
        → stack_value s v ≡ some b
        → (d : Decision) × (ds : List Decision) × (s ≡ d ∷ ds)
    go [] h = cc
    go (d ∷ ds) h = (d, ds, refl)
