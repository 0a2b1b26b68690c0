-- ===== src/Clause/Literals.antt =====
-- What the constructors of src/solver/clause.rs promise of the literals of a clause, its watches, and
-- the conflict that they report.
use mathlib.Core.List.{flatten}
use resolvo.Prelude.{
  ◌≡◌, ◌≢◌, ◌↔◌, ◌⊎◌, refl, inl, inr, Bool, true, false, not, ◌&&◌, Option, none, some, List, [],
  ◌∷◌, ◌++◌, map, ok, arith, is_value, Option-cases, Elem, All, find, find-Elem, find-All, All-map,
  All-Elem,
}
use resolvo.DecisionMap.{VariableId, DecisionMap}
use resolvo.DecisionTracker.{DecisionTracker, assigned_value}
use resolvo.Literal.{Literal, positive, negative, eval}
use resolvo.Literal.Laws.{eval-negative}
use resolvo.Clause.{Clause, Requirement, VersionSetId, Tables, Both, literals, disjunction_literals}
use resolvo.Clause.Build
use resolvo.Clause.Build.{
  Built, both, ConditionLiterals, condition_id, condition_literals, requires_watches,
}

abbrev pub IsFalse : DecisionMap → Literal → Type 0
IsFalse m l = eval l m ≡ some false

-- What a constructor returns for a clause with the first literal `l` and the others `rest`. A single
-- literal is not watched. Of more literals two are, the first one among them, and unless there is a
-- conflict or the first literal is true, the other watch is not false.
pub data IsBuilt (l : Literal) (rest : List Literal) (m : DecisionMap) (b : Built) : Type 0 where
  assertion : rest ≡ [] → b.watches ≡ none → b.conflict ≡ false → IsBuilt l rest m b
  watching :
      (w : Both Literal)
      → b.watches ≡ some w
      → w.at_zero ≡ l
      → Elem w.at_one rest
      → (b.conflict ≡ true) ↔ ((eval l m ≢ some true) × All (IsFalse m) rest)
      → (b.conflict ≡ true) ⊎ (eval w.at_one m ≢ some false) ⊎ (eval l m ≡ some true)
      → IsBuilt l rest m b

not-false :
    (l : Literal) (m : DecisionMap) → not (is_value (eval l m) false) ≡ true → eval l m ≢ some false
not-false l m h = ground arith

is_false :
    (l : Literal) (m : DecisionMap)
    → not (is_value (eval l m) false) ≡ false
    → eval l m ≡ some false
is_false l m h = ground arith

parent_false :
    (t : DecisionTracker) (v : VariableId)
    → eval (negative v) t.map ≡ elim (assigned_value t v) [ none ↦ none | some b ↦ some (not b) ]
unfolding assigned_value
parent_false t v = rw (eval-negative v t.map) (ground arith)

-- The parent's literal is true exactly when the parent is false.
parent_is_false :
    (t : DecisionTracker) (v : VariableId)
    → (is_value (assigned_value t v) false ≡ true) ↔ (eval (negative v) t.map ≡ some true)
parent_is_false t v = let h = parent_false t v in (λ e. ground arith, λ e. ground arith)

conflict_split :
    (b : Bool) (l : Literal) (m : DecisionMap)
    → (b ≡ true) ↔ (eval l m ≡ some true)
    → ((not b ≡ true) ↔ (eval l m ≢ some true)) × ((not b ≡ true) ⊎ (eval l m ≡ some true))
conflict_split true l m h = ((λ e. cc, λ e. absurd (e (h.0 refl))), inr (h.0 refl))
conflict_split false l m h = ((λ e t. let k : false ≡ true = h.1 t in cc, λ e. refl), inl refl)

requires_watches-IsBuilt :
    (kind : Clause) (parent : VariableId) (rest : List Literal) (t : DecisionTracker)
    → IsBuilt
        (negative parent)
        rest
        t.map
        (requires_watches kind parent rest (is_value (assigned_value t parent) false) t)
unfolding requires_watches
requires_watches-IsBuilt kind parent [] t = IsBuilt.assertion refl refl refl
requires_watches-IsBuilt kind parent (first ∷ rest) t =
    let test = λ (c : Literal). not (is_value (eval c t.map) false) in
    elim (Option-cases (find test (first ∷ rest))) [
      | inr (c, e) ↦
          let (mem, live) = find-Elem test (first ∷ rest) c e in
          let alive : eval c t.map ≢ some false = not-false c t.map live in
          rw (e, requires_watches)
            (IsBuilt.watching (both (negative parent) c) refl refl mem
              (λ h. cc, λ all. absurd (alive (All-Elem (IsFalse t.map) c (first ∷ rest) all.1 mem)))
              (inr (inl alive)))
      | inl e ↦
          let all =
            All-map (λ c. test c ≡ false) (IsFalse t.map) (first ∷ rest) (λ c h. is_false c t.map h)
              (find-All test (first ∷ rest) e) in
          let (iff, split) =
            conflict_split (is_value (assigned_value t parent) false) (negative parent) t.map
              (parent_is_false t parent) in
          rw (e, requires_watches)
            (IsBuilt.watching (both (negative parent) first) refl refl (inl refl)
              (λ h. (iff.0 h, all), λ all. iff.1 all.0)
              (elim split [ inl h ↦ inl h | inr h ↦ inr (inr h) ]))
    ]

requires_watches-kind :
    (kind : Clause) (parent : VariableId) (rest : List Literal) (b : Bool) (t : DecisionTracker)
    → (requires_watches kind parent rest b t).kind ≡ kind
unfolding requires_watches
requires_watches-kind kind parent [] b t = refl
requires_watches-kind kind parent (first ∷ rest) b t =
    elim (Option-cases (find (λ c. not (is_value (eval c t.map) false)) (first ∷ rest))) [
      | inl e ↦ rw (e, requires_watches)
      | inr (c, e) ↦ rw (e, requires_watches)
    ]

-- The tables hold what a requires clause was built from.
pub record Holds (t : Tables) (requirement : Requirement) (candidates : List VariableId)
    (condition : Option ConditionLiterals) : Type 0 where
  pub sorted : List (List VariableId)
  pub has_candidates : t.requirement_to_sorted_candidates requirement ≡ some sorted
  pub flat : candidates ≡ flatten sorted
  pub has_condition :
      disjunction_literals t (condition_id condition) ≡ ok (condition_literals condition)

-- Where the tables hold what it is built from, a requires clause is the negated parent, the literals of the condition and the candidates. It is
-- an assertion if there are none of the two latter. Else it watches two of its literals, and it reports
-- a conflict exactly when the parent is not false and every other literal is.
pub requires-IsBuilt :
    (t : DecisionTracker) (tables : Tables) (parent : VariableId) (requirement : Requirement)
    (candidates : List VariableId) (condition : Option ConditionLiterals)
    → Holds tables requirement candidates condition
    → let b = Build.requires parent requirement candidates condition t in
      let rest = condition_literals condition ++ map positive candidates in
      (literals tables b.kind ≡ ok (negative parent ∷ rest))
      × IsBuilt (negative parent) rest t.map b
unfolding Build.requires
requires-IsBuilt t tables parent requirement candidates condition h = (
  rw (requires_watches-kind _ parent _ _ t)
      (rw (h.flat) (unfold literals in rw (h.has_condition, h.has_candidates))),
  requires_watches-IsBuilt _ parent _ t,
)

-- A clause with two negated literals, and the conflict that `constrains` and `constrains_parent` see.
pair-IsBuilt :
    (t : DecisionTracker) (parent other : VariableId) (kind : Clause)
    → IsBuilt (negative parent) (negative other ∷ []) t.map (record {
      kind = kind;
      watches = some (both (negative parent) (negative other));
      conflict =
          not (is_value (assigned_value t parent) false) && is_value (assigned_value t other) true;
    })
pair-IsBuilt t parent other kind =
    let p = parent_false t parent in
    let o = parent_false t other in
    IsBuilt.watching (both (negative parent) (negative other)) refl refl (inl refl)
      (
        λ h. (ground arith, (ground arith, tt)),
        λ all. let a = all.0 in let b = all.1.0 in ground arith,
      )
      (ground arith)

-- A constrains clause watches its two literals, and it reports a conflict exactly when the parent is
-- not false and the forbidden solvable is true.
pub constrains-IsBuilt :
    (t : DecisionTracker) (tables : Tables) (parent forbidden : VariableId) (via : VersionSetId)
    → let b = Build.constrains parent forbidden via t in
      (literals tables b.kind ≡ ok (negative parent ∷ negative forbidden ∷ []))
      × IsBuilt (negative parent) (negative forbidden ∷ []) t.map b
unfolding Build.constrains literals
constrains-IsBuilt t tables parent forbidden via =
    (refl, pair-IsBuilt t parent forbidden (Clause.constrains parent forbidden via))

-- A clause that links a parent to the auxiliary variable of a constraint watches its two literals,
-- and it reports a conflict exactly when the parent is not false and the auxiliary variable is true.
pub constrains_parent-IsBuilt :
    (t : DecisionTracker) (tables : Tables) (parent aux : VariableId) (via : VersionSetId)
    → let b = Build.constrains_parent parent aux via t in
      (literals tables b.kind ≡ ok (negative parent ∷ negative aux ∷ []))
      × IsBuilt (negative parent) (negative aux ∷ []) t.map b
unfolding Build.constrains_parent literals
constrains_parent-IsBuilt t tables parent aux via =
    (refl, pair-IsBuilt t parent aux (Clause.constrains_parent parent aux via))
