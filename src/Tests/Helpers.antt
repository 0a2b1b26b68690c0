-- ===== src/Tests/Helpers.antt =====
-- Four variables of which at most one is true, with the helper variables from 10 on.
use resolvo.Prelude.{
  ℕ, ◌+◌, ◌*◌, ◌^◌, ◌<◌, ◌≤◌, max, ◌≡◌, refl, subst, inl, inr, Bool, true, false, List, [], ◌∷◌,
  arith, ok, Returns, Elem, length,
}
use resolvo.DecisionMap.{VariableId}
use resolvo.AtMostOnce.{
  AtMostOnceTracker, Allocated, default, shift_right, helper_clauses, variable_clauses, add_helpers,
  add_new, add, add_all,
}
use resolvo.AtMostOnce.Encoding.{IsEncoded, satisfied}
use resolvo.AtMostOnce.Fresh.{add_all-extends}
use resolvo.AtMostOnce.Add.{
  Tracked, add-IsEncoded, add_all-IsEncoded, default-IsEncoded, add_all-at_most_one,
}

abbrev next_helper : ℕ → VariableId × ℕ
next_helper n = (n, n + 1)

abbrev clause : VariableId → VariableId → Bool → Allocated
clause x h positive = record { variable = x; helper = h; positive = positive }

abbrev two : AtMostOnceTracker
two = record { variables = 1 ∷ 2 ∷ []; helpers = 10 ∷ [] }

abbrev two_clauses : List Allocated
two_clauses = clause 1 10 false ∷ clause 2 10 true ∷ []

two-run : add_all next_helper (1 ∷ 2 ∷ []) default 10 [] ≡ ok (two, two_clauses, 11)
unfolding add_all add add_new add_helpers helper_clauses variable_clauses shift_right
two-run = refl

-- The clauses of the unit test of the source.
four-run :
    add_all next_helper (1 ∷ 2 ∷ 3 ∷ 4 ∷ []) default 10 []
    ≡ ok (
      record { variables = 1 ∷ 2 ∷ 3 ∷ 4 ∷ []; helpers = 10 ∷ 11 ∷ [] },
      clause 1 10 false
          ∷ clause 2 10 true
          ∷ clause 1 11 false
          ∷ clause 2 11 false
          ∷ clause 3 10 false
          ∷ clause 3 11 true
          ∷ clause 4 10 true
          ∷ clause 4 11 true
          ∷ [],
      12,
    )
unfolding add_all add add_new add_helpers helper_clauses variable_clauses shift_right
four-run = refl

two-IsEncoded : IsEncoded two two_clauses
two-IsEncoded =
    let (r, run, (enc, _)) =
      add_all-IsEncoded next_helper (1 ∷ 2 ∷ []) default 10 [] (default-IsEncoded next_helper) in
    let h = two-run in
    let e : r.0 ≡ two = cc in
    let e' : r.1 ≡ two_clauses = cc in subst (IsEncoded two) e' (subst (λ t. IsEncoded t r.1) e enc)

add-IsEncoded_example :
    Returns
      (add next_helper two 3 11 two_clauses)
      (λ r. IsEncoded r.1 r.2 × Tracked next_helper two 3 r.1)
add-IsEncoded_example = add-IsEncoded next_helper two 3 11 two_clauses two-IsEncoded

add_all-at_most_one_example : Returns (add_all next_helper (1 ∷ 2 ∷ 3 ∷ 4 ∷ []) default 10 []) (λ r.
    (2 ^ length r.0.helpers < max 2 (2 * length r.0.variables))
    × ((σ : VariableId → Bool) (x y : VariableId)
        → ((c : Allocated) → Elem c r.1 → satisfied σ c ≡ true)
        → Elem x (1 ∷ 2 ∷ 3 ∷ 4 ∷ [])
        → Elem y (1 ∷ 2 ∷ 3 ∷ 4 ∷ [])
        → σ x ≡ true
        → σ y ≡ true
        → x ≡ y))
add_all-at_most_one_example = add_all-at_most_one next_helper (1 ∷ 2 ∷ 3 ∷ 4 ∷ []) 10

next_helper_ascends : (n : ℕ) → (n ≤ (next_helper n).0) × ((next_helper n).0 < (next_helper n).1)
next_helper_ascends n = (omega arith, omega arith)

small : (v : VariableId) → Elem v (1 ∷ 2 ∷ 3 ∷ 4 ∷ []) → v < 10
small v (inl e) = omega arith
small v (inr (inl e)) = omega arith
small v (inr (inr (inl e))) = omega arith
small v (inr (inr (inr (inl e)))) = omega arith
small v (inr (inr (inr (inr m)))) = elim m [ ]

add_all-extends_example : Returns (add_all next_helper (1 ∷ 2 ∷ 3 ∷ 4 ∷ []) default 10 []) (λ r.
    (σ : VariableId → Bool)
    → ((x y : VariableId)
        → Elem x (1 ∷ 2 ∷ 3 ∷ 4 ∷ [])
        → Elem y (1 ∷ 2 ∷ 3 ∷ 4 ∷ [])
        → σ x ≡ true
        → σ y ≡ true
        → x ≡ y)
    → (τ : VariableId → Bool) × ((v : VariableId) → v < 10 → τ v ≡ σ v)
      × ((c : Allocated) → Elem c r.1 → satisfied τ c ≡ true))
add_all-extends_example =
    add_all-extends next_helper (λ n. n) next_helper_ascends (1 ∷ 2 ∷ 3 ∷ 4 ∷ []) 10 small
