-- ===== src/AtMostOnce/Clauses.antt =====
-- The clauses that `add` of src/solver/binary_encoding.rs allocates number the variables.
use resolvo.Prelude.{
  ℕ, zero, suc, ◌+◌, ◌^◌, ◌≡◌, refl, sym, ap, ◌∙◌, subst, inl, inr, some, List, [], ◌∷◌, ◌++◌,
  arith, Elem, Elem-append, Elem-append_left, Elem-append_right, length, get_elem?,
  get_elem?-append_one, get_elem?-append_left, get_elem?-last,
}
use resolvo.DecisionMap.{VariableId}
use resolvo.WatchMap.Chain.{Unique}
use resolvo.AtMostOnce.{AtMostOnceTracker, Allocated, helper_clauses, variable_clauses}
use resolvo.AtMostOnce.Bits.{bit, mask_bit}
use resolvo.AtMostOnce.Encoding.{numbering, IsNumbered}

helper_clause :
    (h : VariableId) (b idx : ℕ) (x : VariableId) (xs : List VariableId)
    → helper_clauses (2 ^ b) h idx (x ∷ xs)
      ≡ numbering x h idx b ∷ helper_clauses (2 ^ b) h (idx + 1) xs
unfolding helper_clauses
helper_clause h b idx x xs =
    ap
      (λ p.
        record { variable = x; helper = h; positive = p } ∷ helper_clauses (2 ^ b) h (idx + 1) xs)
      (mask_bit idx b)

-- The clauses of a new helper number every variable.
helper_clauses-Elem :
    (h : VariableId) (b idx i : ℕ) (xs : List VariableId) (x : VariableId)
    → get_elem? xs i ≡ some x
    → Elem (numbering x h (idx + i) b) (helper_clauses (2 ^ b) h idx xs)
helper_clauses-Elem h b idx i [] x at = cc
helper_clauses-Elem h b idx zero (y ∷ xs) x at =
    let same : y ≡ x = ground arith in
    rw (helper_clause h b idx y xs) (inl (rw same (ap (λ n. numbering x h n b) (omega arith))))
helper_clauses-Elem h b idx (suc i) (y ∷ xs) x at = rw (helper_clause h b idx y xs) (
    inr (
      subst (λ n. Elem (numbering x h n b) (helper_clauses (2 ^ b) h (idx + 1) xs)) (omega arith)
        (helper_clauses-Elem h b (idx + 1) i xs x at)))

Elem-helper_clauses :
    (h : VariableId) (b idx : ℕ) (xs : List VariableId) (c : Allocated)
    → Elem c (helper_clauses (2 ^ b) h idx xs)
    → (i : ℕ) × (x : VariableId) × (get_elem? xs i ≡ some x) × (c ≡ numbering x h (idx + i) b)
unfolding helper_clauses
Elem-helper_clauses h b idx [] c m = elim m [ ]
Elem-helper_clauses h b idx (y ∷ xs) c m = elim (subst (Elem c) (helper_clause h b idx y xs) m) [
  | inl e ↦ (0, y, refl, e ∙ ap (λ n. numbering y h n b) (omega arith))
  | inr m ↦
      let (i, x, at, e) = Elem-helper_clauses h b (idx + 1) xs c m in
      (suc i, x, at, e ∙ ap (λ n. numbering x h n b) (omega arith))
]

-- The clauses of a new variable number it with every helper.
variable_clauses-Elem :
    (x : VariableId) (i b k : ℕ) (hs : List VariableId) (h : VariableId)
    → get_elem? hs k ≡ some h
    → Elem (numbering x h i (b + k)) (variable_clauses x i b hs)
unfolding variable_clauses bit
variable_clauses-Elem x i b k [] h at = cc
variable_clauses-Elem x i b zero (y ∷ hs) h at =
    let same : y ≡ h = ground arith in inl (rw same (ap (numbering x h i) (omega arith)))
variable_clauses-Elem x i b (suc k) (y ∷ hs) h at = inr (
    subst (λ n. Elem (numbering x h i n) (variable_clauses x i (b + 1) hs)) (omega arith)
      (variable_clauses-Elem x i (b + 1) k hs h at))

Elem-variable_clauses :
    (x : VariableId) (i b : ℕ) (hs : List VariableId) (c : Allocated)
    → Elem c (variable_clauses x i b hs)
    → (k : ℕ) × (h : VariableId) × (get_elem? hs k ≡ some h) × (c ≡ numbering x h i (b + k))
unfolding variable_clauses bit
Elem-variable_clauses x i b [] c m = elim m [ ]
Elem-variable_clauses x i b (y ∷ hs) c (inl e) =
    (0, y, refl, e ∙ ap (numbering x y i) (omega arith))
Elem-variable_clauses x i b (y ∷ hs) c (inr m) =
    let (k, h, at, e) = Elem-variable_clauses x i (b + 1) hs c m in
    (suc k, h, at, e ∙ ap (numbering x h i) (omega arith))

-- With a helper and its clauses the variables are still numbered.
pub helper-IsNumbered :
    (t : AtMostOnceTracker) (clauses : List Allocated) (h : VariableId)
    → IsNumbered t clauses
    → IsNumbered
        (record t { helpers = t.helpers ++ h ∷ [] })
        (clauses ++ helper_clauses (2 ^ length t.helpers) h 0 t.variables)
helper-IsNumbered t clauses h num =
    let new = helper_clauses (2 ^ length t.helpers) h 0 t.variables in
    record {
      all = λ i b x k at bt. elim (get_elem?-append_one t.helpers h b k bt) [
        | inl old ↦ Elem-append_left _ clauses new (num.all i b x k at old)
        | inr (e, q) ↦ Elem-append_right _ clauses new (
            subst (λ y. Elem (numbering x y i b) new) q
              (subst (λ n. Elem (numbering x h i n) new) (sym e)
                (let z : 0 + i ≡ i = omega arith in
                  subst (λ n. Elem (numbering x h n (length t.helpers)) new) z
                    (helper_clauses-Elem h (length t.helpers) 0 i t.variables x at))))
      ];
      only = λ c m. elim (Elem-append c clauses new m) [
        | inl old ↦
            let (i, b, x, k, at, bt, e) = num.only c old in
            (i, b, x, k, at, get_elem?-append_left t.helpers (h ∷ []) b k bt, e)
        | inr m ↦
            let (i, x, at, e) = Elem-helper_clauses h (length t.helpers) 0 t.variables c m in
            (
              i,
              length t.helpers,
              x,
              h,
              at,
              get_elem?-last t.helpers h,
              e ∙ ap (λ n. numbering x h n (length t.helpers)) (omega arith),
            )
      ];
      unique = num.unique;
    }

pub Unique-append_one :
    (xs : List VariableId) (x : VariableId) → Unique xs → ¬ Elem x xs → Unique (xs ++ x ∷ [])
Unique-append_one [] x u out = ((λ m. m), tt)
Unique-append_one (y ∷ xs) x u out = (
  (λ m. elim (Elem-append y xs (x ∷ []) m) [
    | inl old ↦ u.0 old
    | inr (inl e) ↦ out (inl (sym e))
    | inr (inr none_left) ↦ elim none_left [ ]
  ]),
  Unique-append_one xs x u.1 (λ m. out (inr m)),
)

pub variable-IsNumbered :
    (t : AtMostOnceTracker) (clauses : List Allocated) (x : VariableId)
    → ¬ Elem x t.variables
    → IsNumbered t clauses
    → IsNumbered
        (record t { variables = t.variables ++ x ∷ [] })
        (clauses ++ variable_clauses x (length t.variables) 0 t.helpers)
variable-IsNumbered t clauses x out num =
    let new = variable_clauses x (length t.variables) 0 t.helpers in
    record {
      all = λ i b y h at bt. elim (get_elem?-append_one t.variables x i y at) [
        | inl old ↦ Elem-append_left _ clauses new (num.all i b y h old bt)
        | inr (e, q) ↦ Elem-append_right _ clauses new (
            subst (λ z. Elem (numbering z h i b) new) q
              (subst (λ n. Elem (numbering x h n b) new) (sym e)
                (let z : 0 + b ≡ b = omega arith in
                  subst (λ n. Elem (numbering x h (length t.variables) n) new) z
                    (variable_clauses-Elem x (length t.variables) 0 b t.helpers h bt))))
      ];
      only = λ c m. elim (Elem-append c clauses new m) [
        | inl old ↦
            let (i, b, y, k, at, bt, e) = num.only c old in
            (i, b, y, k, get_elem?-append_left t.variables (x ∷ []) i y at, bt, e)
        | inr m ↦
            let (b, h, bt, e) = Elem-variable_clauses x (length t.variables) 0 t.helpers c m in
            (
              length t.variables,
              b,
              x,
              h,
              get_elem?-last t.variables x,
              bt,
              e ∙ ap (numbering x h (length t.variables)) (omega arith),
            )
      ];
      unique = Unique-append_one t.variables x num.unique out;
    }
