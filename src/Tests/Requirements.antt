-- ===== src/Tests/Requirements.antt =====
-- A condition of three version sets, and two deferred requirements of which one fires.
use resolvo.Prelude.{
  ℕ, ◌≡◌, refl, Bool, Option, none, some, List, [], ◌∷◌, ◌++◌, arith, ok, Returns, ◌==◌,
  if◌then◌else◌,
}
use resolvo.Clause.{single}
use resolvo.Conditions.{
  ConditionId, Condition, requirement, binary, op_and, op_or, solvables, convert_conditions_to_dnf,
}
use resolvo.Conditions.Dnf.{Formula, leaf, branch, eval, eval_dnf, convert_conditions_to_dnf-eval}
use resolvo.Deferred.{DeferredRequirement, IndexMap, drain_fired_deferred, push_deferred, fires}
use resolvo.Deferred.Drain.{
  kept, Drained, drain_fired_deferred-Drained, drain_fired_deferred-push_deferred,
}

-- Condition 0 is (10 or 11) and 12.
abbrev resolve : ConditionId → Condition
resolve id =
    if id == 0
    then binary op_and 1 2
    else if id == 1
    then binary op_or 3 4
    else if id == 2
    then requirement 12
    else if id == 3
    then requirement 10
    else requirement 11

abbrev tree : Formula
tree = branch op_and (branch op_or (leaf 10) (leaf 11)) (leaf 12)

convert_conditions_to_dnf-eval_example :
    Returns
      (convert_conditions_to_dnf 3 resolve 0)
      (λ dnf. (v : ℕ → Bool) → eval_dnf v dnf ≡ eval v tree)
convert_conditions_to_dnf-eval_example =
    convert_conditions_to_dnf-eval resolve 3 0 tree (1, 2, refl, (3, 4, refl, refl, refl), refl)
      (omega arith)

convert_conditions_to_dnf-run :
    convert_conditions_to_dnf 3 resolve 0 ≡ ok ((10 ∷ 12 ∷ []) ∷ (11 ∷ 12 ∷ []) ∷ [])
unfolding convert_conditions_to_dnf
convert_conditions_to_dnf-run = refl

-- A map as a function.
abbrev table {ℓ} :
    {V : Type ℓ} → (ConditionId → Option V) → ConditionId → Option V → ConditionId → Option V
table m k o j = if k == j then o else m j

abbrev functions : {V : Type 0} → IndexMap V
functions {V} = record {
  Map = ConditionId → Option V;
  get = λ m k. m k;
  put = λ m k v. table m k (some v);
  swap_remove = λ m k. table m k none;
  get-put = λ m k j v. refl;
  get-swap_remove = λ m k j. refl;
}

-- Solvable `s` wants a package once `trigger` is selected.
abbrev waiting : ℕ → ℕ → DeferredRequirement ℕ
waiting s trigger = record {
  solvable_id = some s;
  requirement = record { condition = some 2; requirement = single 7 };
  condition = 2;
  disjunct = solvables 12 (trigger ∷ []) ∷ [];
}

abbrev two_waiting : ConditionId → Option (List (DeferredRequirement ℕ))
two_waiting k = if 2 == k then some (waiting 1 5 ∷ waiting 2 6 ∷ []) else none

drain_fired_deferred-Drained_example :
    Returns
      (drain_fired_deferred functions (λ s. s == 6) two_waiting 2)
      (Drained functions (λ s. s == 6) two_waiting 2 (waiting 1 5 ∷ waiting 2 6 ∷ []))
drain_fired_deferred-Drained_example =
    drain_fired_deferred-Drained functions (λ s. s == 6) two_waiting 2
      (waiting 1 5 ∷ waiting 2 6 ∷ []) refl

-- No requirement waits for condition 3 before.
abbrev first_deferred : DeferredRequirement ℕ
first_deferred = record {
  solvable_id = some 4;
  requirement = record { condition = some 3; requirement = single 8 };
  condition = 3;
  disjunct = solvables 12 (6 ∷ []) ∷ [];
}

drain_fired_deferred-push_deferred_example :
    Returns
      (drain_fired_deferred functions
        (λ s. s == 6)
        (push_deferred functions two_waiting first_deferred)
        3)
      (λ r.
        Drained functions (λ s. s == 6) two_waiting 3 (first_deferred ∷ []) r
        × (r.0
            ≡ kept (fires (λ s. s == 6)) []
              ++ (if fires (λ s. s == 6) first_deferred then first_deferred ∷ [] else [])))
drain_fired_deferred-push_deferred_example =
    drain_fired_deferred-push_deferred functions (λ s. s == 6) two_waiting first_deferred
