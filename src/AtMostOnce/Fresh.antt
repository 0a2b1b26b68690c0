-- ===== src/AtMostOnce/Fresh.antt =====
-- The clauses of src/solver/binary_encoding.rs exclude no choice of at most one variable: the helpers
-- that `add` allocates are different from each other and from the variables of the set.
use resolvo.Prelude.{
  ℕ, zero, suc, ◌-◌, ◌^◌, ◌≤◌, ◌<◌, ◌≡◌, refl, sym, ap, ◌∙◌, subst, inl, inr, Bool, true, false,
  some, List, [], ◌∷◌, ◌++◌, arith, ok, >>=-eq-ok, Returns, Elem, Elem-append, any, any-Elem,
  Elem-any, ◌==◌, ltb, length, get_elem?, get_elem?-Elem, Elem-get_elem?, Bool-cases,
}
use resolvo.DecisionMap.{VariableId}
use resolvo.WatchMap.Chain.{Unique}
use resolvo.AtMostOnce.{
  AtMostOnceTracker, Allocated, default, add_helper, add_helpers, add_new, add, add_all,
}
use resolvo.AtMostOnce.Encoding.{satisfied, spelled, spelled-extends}
use resolvo.AtMostOnce.Clauses.{Unique-append_one}
use resolvo.AtMostOnce.Add.{add-step, add_helpers-step, add_all-IsEncoded, default-IsEncoded}

index-Unique :
    (xs : List VariableId) (i j : ℕ) (x : VariableId)
    → Unique xs
    → get_elem? xs i ≡ some x
    → get_elem? xs j ≡ some x
    → i ≡ j
index-Unique [] i j x u at bt = cc
index-Unique (y ∷ xs) zero zero x u at bt = refl
index-Unique (y ∷ xs) zero (suc j) x u at bt =
    let e : y ≡ x = ground arith in
    absurd (u.0 (subst (λ z. Elem z xs) (sym e) (get_elem?-Elem xs j x bt)))
index-Unique (y ∷ xs) (suc i) zero x u at bt =
    let e : y ≡ x = ground arith in
    absurd (u.0 (subst (λ z. Elem z xs) (sym e) (get_elem?-Elem xs i x at)))
index-Unique (y ∷ xs) (suc i) (suc j) x u at bt = ap suc (index-Unique xs i j x u.1 at bt)

-- A supply whose variables ascend, as those of the variable map do: `bound` is above all that were
-- given out.
module _ {S : Type 0} (alloc_var : S → VariableId × S) (bound : S → ℕ)
    (ascends : (s : S) → (bound s ≤ (alloc_var s).0) × ((alloc_var s).0 < bound (alloc_var s).1))
    (first : ℕ) (vs : List VariableId) where
  -- The helpers were given out after `first`, each once, and the variables are of the set.
  record IsFresh (t : AtMostOnceTracker) (s : S) : Type 0 where
    unique : Unique t.helpers
    low : (h : VariableId) → Elem h t.helpers → first ≤ h
    high : (h : VariableId) → Elem h t.helpers → h < bound s
    start : first ≤ bound s
    of_set : (v : VariableId) → Elem v t.variables → Elem v vs

  add_helper-IsFresh :
      (t : AtMostOnceTracker) (s : S)
      → IsFresh t s
      → IsFresh (add_helper alloc_var t s).0 (add_helper alloc_var t s).2
  add_helper-IsFresh t s f =
      let a = ascends s in
      let h = (alloc_var s).0 in
      record {
        unique = Unique-append_one t.helpers h f.unique (λ m. let l = f.high h m in omega arith);
        low = λ k m. elim (Elem-append k t.helpers (h ∷ []) m) [
          | inl old ↦ f.low k old
          | inr (inl e) ↦ let b = f.start in omega arith
          | inr (inr none_left) ↦ elim none_left [ ]
        ];
        high = λ k m. elim (Elem-append k t.helpers (h ∷ []) m) [
          | inl old ↦ let b = f.high k old in omega arith
          | inr (inl e) ↦ omega arith
          | inr (inr none_left) ↦ elim none_left [ ]
        ];
        start = let b = f.start in omega arith;
        of_set = f.of_set;
      }

  add_helpers-IsFresh :
      (fuel : ℕ) (t : AtMostOnceTracker) (s : S) (clauses : List Allocated)
      (r : AtMostOnceTracker × List Allocated × S)
      → IsFresh t s
      → add_helpers alloc_var fuel t s clauses ≡ ok r
      → IsFresh r.0 r.2
  unfolding add_helpers
  add_helpers-IsFresh zero t s clauses r f run = cc
  add_helpers-IsFresh (suc fuel) t s clauses r f run =
      elim (Bool-cases (ltb (2 ^ length t.helpers - 1) (length t.variables))) [
        | inr fits ↦
            let e = sym (add_helpers-step alloc_var fuel t s clauses false fits) ∙ run in
            let t_is : t ≡ r.0 = cc in
            let s_is : s ≡ r.2 = cc in subst (IsFresh r.0) s_is (subst (λ t. IsFresh t s) t_is f)
        | inl full ↦
            let h = add_helper alloc_var t s in
            add_helpers-IsFresh fuel h.0 h.2 (clauses ++ h.1) r (add_helper-IsFresh t s f)
              (sym (add_helpers-step alloc_var fuel t s clauses true full) ∙ run)
      ]

  -- One variable of the set more.
  tracked-IsFresh :
      (t : AtMostOnceTracker) (s : S) (v : VariableId) (xs : List VariableId)
      → Elem v vs
      → ((x : VariableId) → Elem x xs → Elem x vs)
      → IsFresh t s
      → IsFresh (record t { variables = xs ++ v ∷ [] }) s
  tracked-IsFresh t s v xs of_v of_xs f = record {
    unique = f.unique;
    low = f.low;
    high = f.high;
    start = f.start;
    of_set = λ x m. elim (Elem-append x xs (v ∷ []) m) [
      | inl old ↦ of_xs x old
      | inr (inl e) ↦ subst (λ y. Elem y vs) (sym e) of_v
      | inr (inr none_left) ↦ elim none_left [ ]
    ];
  }

  add_new-IsFresh :
      (xs : List VariableId) (t : AtMostOnceTracker) (v : VariableId) (s : S)
      (clauses : List Allocated) (r : AtMostOnceTracker × List Allocated × S)
      → Elem v vs
      → IsFresh t s
      → add_new alloc_var xs t v s clauses ≡ ok r
      → IsFresh r.0 r.2
  unfolding add_new
  add_new-IsFresh [] t v s clauses r of_v f run =
      let t_is : record t { variables = v ∷ [] } ≡ r.0 = cc in
      let s_is : s ≡ r.2 = cc in
      subst (IsFresh r.0) s_is
        (subst (λ t. IsFresh t s) t_is (tracked-IsFresh t s v [] of_v (λ x m. elim m [ ]) f))
  add_new-IsFresh (x ∷ xs) t v s clauses r of_v f run =
      let (u, run', rest) =
        >>=-eq-ok (add_helpers alloc_var (suc (length t.variables)) t s clauses) _ run in
      let g = add_helpers-IsFresh (suc (length t.variables)) t s clauses u f run' in
      let t_is : record u.0 { variables = u.0.variables ++ v ∷ [] } ≡ r.0 = cc in
      let s_is : u.2 ≡ r.2 = cc in
      subst (IsFresh r.0) s_is
        (subst (λ t. IsFresh t u.2) t_is (tracked-IsFresh u.0 u.2 v u.0.variables of_v g.of_set g))

  add-IsFresh :
      (t : AtMostOnceTracker) (v : VariableId) (s : S) (clauses : List Allocated)
      (r : Bool × AtMostOnceTracker × List Allocated × S)
      → Elem v vs
      → IsFresh t s
      → add alloc_var t v s clauses ≡ ok r
      → IsFresh r.1 r.3
  add-IsFresh t v s clauses r of_v f run = elim (Bool-cases (any (λ x. x == v) t.variables)) [
    | inl known ↦
        let e = sym (add-step alloc_var t v s clauses true known) ∙ run in
        let t_is : t ≡ r.1 = cc in
        let s_is : s ≡ r.3 = cc in subst (IsFresh r.1) s_is (subst (λ t. IsFresh t s) t_is f)
    | inr new ↦
        let e = sym (add-step alloc_var t v s clauses false new) ∙ run in
        let (u, run', rest) = >>=-eq-ok (add_new alloc_var t.variables t v s clauses) _ e in
        let g = add_new-IsFresh t.variables t v s clauses u of_v f run' in
        let t_is : u.0 ≡ r.1 = cc in
        let s_is : u.2 ≡ r.3 = cc in subst (IsFresh r.1) s_is (subst (λ t. IsFresh t u.2) t_is g)
  ]

  add_all-IsFresh :
      (xs : List VariableId) (t : AtMostOnceTracker) (s : S) (clauses : List Allocated)
      (r : AtMostOnceTracker × List Allocated × S)
      → ((x : VariableId) → Elem x xs → Elem x vs)
      → IsFresh t s
      → add_all alloc_var xs t s clauses ≡ ok r
      → IsFresh r.0 r.2
  unfolding add_all
  add_all-IsFresh [] t s clauses r of_xs f run =
      let t_is : t ≡ r.0 = cc in
      let s_is : s ≡ r.2 = cc in subst (IsFresh r.0) s_is (subst (λ t. IsFresh t s) t_is f)
  add_all-IsFresh (v ∷ xs) t s clauses r of_xs f run =
      let (u, run', rest) = >>=-eq-ok (add alloc_var t v s clauses) _ run in
      add_all-IsFresh xs u.1 u.3 u.2 r (λ x m. of_xs x (inr m))
        (add-IsFresh t v s clauses u (of_xs v (inl refl)) f run') rest

-- The index of a variable that is true, or any where none is.
true_index :
    (σ : VariableId → Bool) (xs : List VariableId)
    → Unique xs
    → ((x y : VariableId) → Elem x xs → Elem y xs → σ x ≡ true → σ y ≡ true → x ≡ y)
    → (i : ℕ) × ((j : ℕ) (y : VariableId) → get_elem? xs j ≡ some y → σ y ≡ true → i ≡ j)
true_index σ xs u one = elim (Bool-cases (any σ xs)) [
  | inr none_true ↦ (0, λ j y at on. let h = Elem-any σ y xs (get_elem?-Elem xs j y at) on in cc)
  | inl some_true ↦
      let (x, m, on) = any-Elem σ xs some_true in
      let (i, at) = Elem-get_elem? xs x m in
      (
        i,
        λ j y bt on'.
            let same = one x y m (get_elem?-Elem xs j y bt) on on' in
            index-Unique xs i j x u at (bt ∙ ap some (sym same)),
      )
]

module _ {S : Type 0} (alloc_var : S → VariableId × S) (bound : S → ℕ)
    (ascends : (s : S)
      → (bound s ≤ (alloc_var s).0) × ((alloc_var s).0 < bound (alloc_var s).1)) where
  default-IsFresh :
      (vs : List VariableId) (s : S) → IsFresh alloc_var bound ascends (bound s) vs default s
  default-IsFresh vs s = record {
    unique = tt;
    low = λ h m. elim m [ ];
    high = λ h m. elim m [ ];
    start = omega arith;
    of_set = λ v m. elim m [ ];
  }

  -- Where the supply of helpers ascends, and the variables lie below it, adding the variables one
  -- after another to an empty tracker ends, and an assignment that makes at most one of them true can
  -- be changed, on variables given out since alone, so that all clauses hold.
  pub add_all-extends :
      (vs : List VariableId) (s : S)
      → ((v : VariableId) → Elem v vs → v < bound s)
      → Returns (add_all alloc_var vs default s []) (λ r.
        (σ : VariableId → Bool)
        → ((x y : VariableId) → Elem x vs → Elem y vs → σ x ≡ true → σ y ≡ true → x ≡ y)
        → (τ : VariableId → Bool) × ((v : VariableId) → v < bound s → τ v ≡ σ v)
          × ((c : Allocated) → Elem c r.1 → satisfied τ c ≡ true))
  add_all-extends vs s below =
      let (r, run, (enc, all)) =
        add_all-IsEncoded alloc_var vs default s [] (default-IsEncoded alloc_var) in
      let f =
        add_all-IsFresh alloc_var bound ascends (bound s) vs vs default s [] r (λ x m. m)
          (default-IsFresh vs s) run in
      (
        r,
        run,
        λ σ one.
            let (i, is) =
              true_index σ r.0.variables enc.numbered.unique
                (λ x y m n. one x y (f.of_set x m) (f.of_set y n)) in
            let (same, hold) =
              spelled-extends r.0 r.1 σ i enc f.unique
                (λ v m n. let a = below v (f.of_set v m) in let b = f.low v n in omega arith) is in
            (
              spelled σ i 0 r.0.helpers,
              (λ v less. same v (λ m. let b = f.low v m in omega arith)),
              hold,
            ),
      )
