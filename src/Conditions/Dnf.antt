-- ===== src/Conditions/Dnf.antt =====
-- `convert_conditions_to_dnf` of src/solver/conditions.rs keeps the meaning of the condition.
use resolvo.Prelude.{
  ℕ, zero, suc, ◌≤◌, max, ◌≡◌, refl, ◌∙◌, Bool, ◌&&◌, ◌||◌, List, [], ◌∷◌, ◌++◌, arith, Returns,
  any, all,
}
use resolvo.Clause.{VersionSetId}
use resolvo.Conditions.{
  ConditionId, LogicalOperator, op_and, op_or, Condition, requirement, binary, merge_each,
  distribute, combine, convert_conditions_to_dnf,
}

-- A condition written out as a tree.
pub data Formula : Type 0 where
  leaf : VersionSetId → Formula
  branch : LogicalOperator → Formula → Formula → Formula

-- The interner's ids from `id` on spell this tree.
abbrev pub Spells : (ConditionId → Condition) → ConditionId → Formula → Type 0
Spells resolve id (leaf v) = resolve id ≡ requirement v
Spells resolve id (branch op a b) =
    (lhs : ConditionId) × (rhs : ConditionId) × (resolve id ≡ binary op lhs rhs)
    × Spells resolve lhs a
    × Spells resolve rhs b

abbrev pub height : Formula → ℕ
height (leaf v) = 1
height (branch op a b) = suc (max (height a) (height b))

abbrev pub connect : LogicalOperator → Bool → Bool → Bool
connect op_and a b = a && b
connect op_or a b = a || b

-- What a tree says when `v` tells which version sets are matched.
abbrev pub eval : (VersionSetId → Bool) → Formula → Bool
eval v (leaf s) = v s
eval v (branch op a b) = connect op (eval v a) (eval v b)

-- What a disjunction of conjunctions says.
abbrev pub eval_dnf : (VersionSetId → Bool) → List (List VersionSetId) → Bool
eval_dnf v dnf = any (all v) dnf

module _ (v : VersionSetId → Bool) where
  all-append : (xs ys : List VersionSetId) → all v (xs ++ ys) ≡ all v xs && all v ys
  all-append [] ys = refl
  all-append (x ∷ xs) ys = ground (arith, all-append xs ys)

  any-append :
      (xs ys : List (List VersionSetId)) → eval_dnf v (xs ++ ys) ≡ eval_dnf v xs || eval_dnf v ys
  any-append [] ys = refl
  any-append (x ∷ xs) ys = ground (arith, any-append xs ys)

  eval_dnf-merge_each :
      (l : List VersionSetId) (rs : List (List VersionSetId))
      → eval_dnf v (merge_each l rs) ≡ all v l && eval_dnf v rs
  eval_dnf-merge_each l [] = ground arith
  eval_dnf-merge_each l (r ∷ rs) = ground (arith, all-append l r, eval_dnf-merge_each l rs)

  eval_dnf-distribute :
      (ls rs : List (List VersionSetId))
      → eval_dnf v (distribute ls rs) ≡ eval_dnf v ls && eval_dnf v rs
  eval_dnf-distribute [] rs = refl
  eval_dnf-distribute (l ∷ ls) rs = ground (
    arith,
    any-append (merge_each l rs) (distribute ls rs),
    eval_dnf-merge_each l rs,
    eval_dnf-distribute ls rs,
  )

  eval_dnf-combine :
      (op : LogicalOperator) (ls rs : List (List VersionSetId))
      → eval_dnf v (combine op ls rs) ≡ connect op (eval_dnf v ls) (eval_dnf v rs)
  eval_dnf-combine op_and ls rs = eval_dnf-distribute ls rs
  eval_dnf-combine op_or ls rs = any-append ls rs

-- For a condition whose ids spell a tree, and fuel of at least the tree's height, the conversion
-- returns a disjunction of conjunctions that is true for exactly the same version sets as the tree.
pub convert_conditions_to_dnf-eval :
    (resolve : ConditionId → Condition) (fuel : ℕ) (id : ConditionId) (tree : Formula)
    → Spells resolve id tree
    → height tree ≤ fuel
    → Returns
        (convert_conditions_to_dnf fuel resolve id)
        (λ dnf. (v : VersionSetId → Bool) → eval_dnf v dnf ≡ eval v tree)
unfolding convert_conditions_to_dnf
convert_conditions_to_dnf-eval resolve zero id (leaf s) h enough = absurd (omega arith)
convert_conditions_to_dnf-eval resolve zero id (branch op a b) h enough = absurd (omega arith)
convert_conditions_to_dnf-eval resolve (suc fuel) id (leaf s) h enough =
    ((s ∷ []) ∷ [], rw (h, convert_conditions_to_dnf), λ v. ground arith)
convert_conditions_to_dnf-eval resolve (suc fuel) id (branch op a b) (lhs, rhs, e, left, right)
      enough =
    let (dnf_l, run_l, is_l) =
      convert_conditions_to_dnf-eval resolve fuel lhs a left (omega arith) in
    let (dnf_r, run_r, is_r) =
      convert_conditions_to_dnf-eval resolve fuel rhs b right (omega arith) in
    (
      combine op dnf_l dnf_r,
      rw (e, convert_conditions_to_dnf, run_l, run_r),
      λ v. eval_dnf-combine v op dnf_l dnf_r ∙ rw (is_l v, is_r v),
    )
