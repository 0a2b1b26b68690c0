-- ===== src/Propagation/Bounds.antt =====
-- Bounds for the loops of `propagate_impl` in src/solver/mod.rs: a list of watches holds no more
-- clauses than the problem, and the trail no more decisions than there are variables.
use resolvo.Prelude.{
  ℕ, zero, suc, ◌≡◌, ◌≢◌, ◌≤◌, ◌<◌, refl, sym, ap, ◌∙◌, subst, inl, inr, Bool, none, some, List, [],
  ◌∷◌, arith, Elem, get_elem?, length, ◌==◌, if◌then◌else◌, Bool-cases, ==_iff, ==_false, ==_refl,
}
use resolvo.DecisionMap.{VariableId}
use resolvo.DecisionTracker.{ClauseId, Decision, DecisionTracker, assigned_value, nth_decision}
use resolvo.DecisionTracker.Invariant
use resolvo.DecisionTracker.Invariant.{stack_value, Distinct}
use resolvo.Literal.{Literal}
use resolvo.WatchMap.Chain.{Unique, Chain-mem}
use resolvo.WatchMap.Links.{next_of, next_of-node}
use resolvo.Mapping
use resolvo.Propagation.{Problem, SolverState}
use resolvo.Propagation.Invariant.{IsReady}

-- The list without one number.
abbrev pub without : ℕ → List ℕ → List ℕ
without n [] = []
without n (x ∷ xs) = if n == x then xs else x ∷ without n xs

length-without : (n : ℕ) (xs : List ℕ) → length xs ≤ suc (length (without n xs))
length-without n [] = omega arith
length-without n (x ∷ xs) = ground (arith, length-without n xs)

pub Elem-without_one : (n y : ℕ) (xs : List ℕ) → Elem y (without n xs) → Elem y xs
Elem-without_one n y [] m = elim m [ ]
Elem-without_one n y (x ∷ xs) m = elim (Bool-cases (n == x)) [
  | inl mine ↦ inr (rw mine at m)
  | inr other ↦ elim (rw other at m) [ inl e ↦ inl e | inr r ↦ inr (Elem-without_one n y xs r) ]
]

pub Unique-without : (n : ℕ) (xs : List ℕ) → Unique xs → Unique (without n xs)
Unique-without n [] u = tt
Unique-without n (x ∷ xs) u = elim (Bool-cases (n == x)) [
  | inl mine ↦ rw mine u.1
  | inr other ↦ rw other ((λ m. u.0 (Elem-without_one n x xs m)), Unique-without n xs u.1)
]

pub Elem-without_ne : (n y : ℕ) (xs : List ℕ) → Elem y xs → n ≢ y → Elem y (without n xs)
Elem-without_ne n y [] m ne = elim m [ ]
Elem-without_ne n y (x ∷ xs) m ne = elim (Bool-cases (n == x)) [
  | inl mine ↦ rw mine (elim m [ inl e ↦ absurd (ground arith) | inr r ↦ r ])
  | inr other ↦ rw other (elim m [ inl e ↦ inl e | inr r ↦ inr (Elem-without_ne n y xs r ne) ])
]

pub not-Elem-without : (n : ℕ) (xs : List ℕ) → Unique xs → ¬ Elem n (without n xs)
not-Elem-without n [] u m = elim m [ ]
not-Elem-without n (x ∷ xs) u m = elim (Bool-cases (n == x)) [
  | inl mine ↦ u.0 (subst (λ z. Elem z xs) ((==_iff n x).0 mine) (rw mine at m))
  | inr other ↦ elim (rw other at m) [
    | inl e ↦ absurd (ground arith)
    | inr r ↦ not-Elem-without n xs u.1 r
  ]
]

pub length-without-Elem :
    (n : ℕ) (xs : List ℕ) → Elem n xs → length xs ≡ suc (length (without n xs))
length-without-Elem n [] m = elim m [ ]
length-without-Elem n (x ∷ xs) m = elim (Bool-cases (n == x)) [
  | inl mine ↦ rw mine refl
  | inr other ↦
      rw other
        (elim m [ inl e ↦ absurd (ground arith) | inr r ↦ ap suc (length-without-Elem n xs r) ])
]

below-without :
    (n : ℕ) (xs : List ℕ)
    → Unique xs
    → ((y : ℕ) → Elem y xs → y < suc n)
    → (y : ℕ) → Elem y (without n xs)
    → y < n
below-without n [] u low y m = elim m [ ]
below-without n (x ∷ xs) u low y m = elim (Bool-cases (n == x)) [
  | inl mine ↦
      let m' : Elem y xs = rw mine at m in
      let ne : n ≢ y = λ e. u.0 (subst (λ z. Elem z xs) (sym e ∙ (==_iff n x).0 mine) m') in
      let h = low y (inr m') in omega arith
  | inr other ↦ elim (rw other at m) [
    | inl e ↦ let h = low x (inl refl) in ground arith
    | inr r ↦ below-without n xs u.1 (λ z q. low z (inr q)) y r
  ]
]

-- Different numbers below a bound are no more than the bound.
length_below : (n : ℕ) (xs : List ℕ) → Unique xs → ((y : ℕ) → Elem y xs → y < n) → length xs ≤ n
length_below zero [] u low = omega arith
length_below zero (x ∷ xs) u low = let h = low x (inl refl) in absurd (omega arith)
length_below (suc n) xs u low =
    let h = length_below n (without n xs) (Unique-without n xs u) (below-without n xs u low) in
    omega (arith, length-without n xs)

get_elem?-below :
    {A : Type 0} (xs : List A) (i : ℕ) (a : A) → get_elem? xs i ≡ some a → i < length xs
get_elem?-below [] i a h = cc
get_elem?-below (x ∷ xs) zero a h = omega arith
get_elem?-below (x ∷ xs) (suc i) a h = let r = get_elem?-below xs i a h in omega arith

-- A list of watches holds no more clauses than the problem.
pub length-chains :
    (p : Problem) (lv : ℕ) (st : SolverState) (chains : Literal → List ClauseId) (l : Literal)
    → IsReady p lv st chains
    → length (chains l) ≤ length p.kinds
length-chains p lv st chains l ready =
    length_below (length p.kinds) (chains l) (ready.lists.unique l) (λ y m.
      let (q, e) =
        Chain-mem (next_of st.watches.watches l) (Mapping.get st.watches.watch_map.map l) (chains l)
          y (ready.lists.linked l) m in
      let (w, has, _, _) = next_of-node st.watches.watches l y q e in
      let is = ready.watched y w has in get_elem?-below p.kinds y is.clause is.has_clause)

abbrev variables : List Decision → List VariableId
variables [] = []
variables (d ∷ ds) = d.variable ∷ variables ds

length-variables : (ds : List Decision) → length (variables ds) ≡ length ds
length-variables [] = refl
length-variables (d ∷ ds) = ap suc (length-variables ds)

Elem-variables :
    (v : VariableId) (ds : List Decision)
    → Elem v (variables ds)
    → (b : Bool) × (stack_value ds v ≡ some b)
Elem-variables v [] m = elim m [ ]
Elem-variables v (d ∷ ds) (inl e) = (d.value, rw e (rw (==_refl d.variable)))
Elem-variables v (d ∷ ds) (inr m) = elim (Bool-cases (d.variable == v)) [
  | inl mine ↦ (d.value, rw mine)
  | inr other ↦ let (b, e) = Elem-variables v ds m in (b, rw other e)
]

Unique-variables : (ds : List Decision) → Distinct ds → Unique (variables ds)
Unique-variables [] u = tt
Unique-variables (d ∷ ds) u =
    (λ m. let (b, e) = Elem-variables d.variable ds m in cc, Unique-variables ds u.1)

-- Every decided variable is below the bound.
abbrev pub InBounds : ℕ → DecisionTracker → Type 0
InBounds n t = (v : VariableId) (b : Bool) → assigned_value t v ≡ some b → v < n

pub length-stack :
    (n : ℕ) (t : DecisionTracker) → Invariant.IsValid t → InBounds n t → length t.stack ≤ n
length-stack n t valid bound =
    let h =
      length_below n (variables t.stack) (Unique-variables t.stack valid.distinct)
        (λ y m. let (b, e) = Elem-variables y t.stack m in bound y b (valid.agrees y ∙ e)) in
    omega (arith, length-variables t.stack)

pub stack_value-nth :
    (ds : List Decision) (i : ℕ) (d : Decision)
    → nth_decision ds i ≡ some d
    → Distinct ds
    → stack_value ds d.variable ≡ some d.value
stack_value-nth [] i d h u = cc
stack_value-nth (x ∷ ds) i d h u = elim (Bool-cases (length ds == i)) [
  | inl here ↦
      let e : x ≡ d = ground arith in
      subst (λ d. stack_value (x ∷ ds) d.variable ≡ some d.value) e (rw (==_refl x.variable))
  | inr later ↦
      let e : nth_decision ds i ≡ some d = ground arith in
      let r = stack_value-nth ds i d e u.1 in
      rw
        (==_false x.variable d.variable
          (λ q. let f = subst (λ v. stack_value ds v ≡ none) q u.0 in cc))
        r
]

pub nth_decision-below :
    (ds : List Decision) (i : ℕ) → i < length ds → (d : Decision) × (nth_decision ds i ≡ some d)
nth_decision-below [] i h = absurd (omega arith)
nth_decision-below (x ∷ ds) i h = elim (Bool-cases (length ds == i)) [
  | inl here ↦ (x, rw here)
  | inr later ↦ let (d, e) = nth_decision-below ds i (ground arith) in (d, rw later e)
]

pub nth_decision-above : (ds : List Decision) (i : ℕ) → length ds ≤ i → nth_decision ds i ≡ none
nth_decision-above [] i h = refl
nth_decision-above (x ∷ ds) i h = let r = nth_decision-above ds i (omega arith) in ground arith

-- A decision keeps its place when another one is pushed.
pub nth_decision-cons :
    (ds : List Decision) (x : Decision) (i : ℕ) (d : Decision)
    → nth_decision ds i ≡ some d
    → nth_decision (x ∷ ds) i ≡ some d
nth_decision-cons ds x i d h = elim (Bool-cases (length ds == i)) [
  | inl here ↦
      let e = (==_iff (length ds) i).0 here in let out = nth_decision-above ds i (omega arith) in cc
  | inr later ↦ rw later h
]
