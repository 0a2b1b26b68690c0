-- ===== src/AtMostOnce.antt =====
-- src/solver/binary_encoding.rs: clauses over helper variables that number the variables of a set, so
-- that at most one of them can be true. The index set is the list of its elements; `1 << n` is a
-- power of two. The closures are the output, a list of the clauses, and a state that gives out helper
-- variables.
pub mod Bits
pub mod Encoding
pub mod Clauses
pub mod Add
pub mod Fresh
use Prim.Native.Nat.{bit_and}
use resolvo.Prelude.{
  ℕ, zero, suc, ◌+◌, ◌-◌, ◌/◌, ◌^◌, Bool, true, false, List, [], ◌∷◌, ◌++◌, Run, ok, out_of_fuel,
  ◌>>=◌, ltb, ◌==◌, any, length,
}
use resolvo.DecisionMap.{VariableId}

pub record AtMostOnceTracker : Type 0 where
  pub variables : List VariableId
  pub helpers : List VariableId

abbrev pub default : AtMostOnceTracker
default = record { variables = []; helpers = [] }

-- What `alloc_clause` is called with: the first variable excludes the other, or requires it.
pub record Allocated : Type 0 where
  pub variable : VariableId
  pub helper : VariableId
  pub positive : Bool

-- `idx >> bits`
unfoldable pub shift_right : ℕ → ℕ → ℕ
shift_right idx zero = idx
shift_right idx (suc bits) = shift_right (idx / 2) bits

-- The clauses of the variables from `idx` on and a new helper.
unfoldable pub helper_clauses : ℕ → VariableId → ℕ → List VariableId → List Allocated
helper_clauses mask helper_var idx [] = []
helper_clauses mask helper_var idx (var ∷ vars) =
    record { variable = var; helper = helper_var; positive = bit_and idx mask == mask }
    ∷ helper_clauses mask helper_var (idx + 1) vars

-- The clauses of a new variable and the helpers from `bit_idx` on.
unfoldable pub variable_clauses : VariableId → ℕ → ℕ → List VariableId → List Allocated
variable_clauses variable var_idx bit_idx [] = []
variable_clauses variable var_idx bit_idx (helper_var ∷ helpers) =
    record {
      variable = variable;
      helper = helper_var;
      positive = bit_and (shift_right var_idx bit_idx) 1 == 1;
    }
    ∷ variable_clauses variable var_idx (bit_idx + 1) helpers

module _ {S : Type 0} (alloc_var : S → VariableId × S) where
  -- One round of the loop that allocates helpers.
  abbrev pub add_helper : AtMostOnceTracker → S → AtMostOnceTracker × List Allocated × S
  add_helper t s =
      let r = alloc_var s in
      (
        record t { helpers = t.helpers ++ r.0 ∷ [] },
        helper_clauses (2 ^ length t.helpers) r.0 0 t.variables,
        r.1,
      )

  unfoldable pub add_helpers :
      ℕ → AtMostOnceTracker → S → List Allocated → Run (AtMostOnceTracker × List Allocated × S)
  add_helpers zero t s clauses = out_of_fuel
  add_helpers (suc fuel) t s clauses = elim (ltb (2 ^ length t.helpers - 1) (length t.variables)) [
    | true ↦ let r = add_helper t s in add_helpers fuel r.0 r.2 (clauses ++ r.1)
    | false ↦ ok (t, clauses, s)
  ]

  -- A variable that is not tracked yet; the first one needs no clauses.
  unfoldable pub add_new :
      List VariableId
      → AtMostOnceTracker
      → VariableId
      → S
      → List Allocated
      → Run (AtMostOnceTracker × List Allocated × S)
  add_new [] t variable s clauses = ok (record t { variables = variable ∷ [] }, clauses, s)
  add_new (_ ∷ _) t variable s clauses = do
    r ← add_helpers (suc (length t.variables)) t s clauses
    ok (
      record r.0 { variables = r.0.variables ++ variable ∷ [] },
      r.1 ++ variable_clauses variable (length r.0.variables) 0 r.0.helpers,
      r.2,
    )

  -- Whether the variable is new, the tracker, the clauses allocated before and now, and the state.
  unfoldable pub add :
      AtMostOnceTracker
      → VariableId
      → S
      → List Allocated
      → Run (Bool × AtMostOnceTracker × List Allocated × S)
  add t variable s clauses = elim (any (λ v. v == variable) t.variables) [
    | true ↦ ok (false, t, clauses, s)
    | false ↦ add_new t.variables t variable s clauses >>= λ r. ok (true, r.0, r.1, r.2)
  ]

  -- Calls of `add` for one variable after another, from which the theorems on a whole set start.
  unfoldable pub add_all :
      List VariableId
      → AtMostOnceTracker
      → S
      → List Allocated
      → Run (AtMostOnceTracker × List Allocated × S)
  add_all [] t s clauses = ok (t, clauses, s)
  add_all (v ∷ vs) t s clauses = add t v s clauses >>= λ r. add_all vs r.1 r.3 r.2
