-- ===== src/AtMostOnce/Encoding.antt =====
-- What the clauses of src/solver/binary_encoding.rs say: the variable with index `i` requires the
-- helpers to spell `i`.
use resolvo.Prelude.{
  ℕ, zero, suc, ◌+◌, ◌*◌, ◌^◌, ◌≤◌, ◌<◌, max, ◌≡◌, refl, sym, ap, ◌∙◌, subst, inl, inr, Bool, true,
  false, not, ◌||◌, some, List, [], ◌∷◌, arith, Elem, bool_eq, length, get_elem?, get_elem?-Elem,
  get_elem?-less, less-get_elem?, if◌then◌else◌, ◌==◌, ==_iff, ==_false, Bool-cases,
}
use resolvo.DecisionMap.{VariableId}
use resolvo.WatchMap.Chain.{Unique}
use resolvo.AtMostOnce.{AtMostOnceTracker, Allocated}
use resolvo.AtMostOnce.Bits.{bit, same_bits}

-- The clause of the variable `x` with index `i` and the helper `h` of the bit `b`.
abbrev pub numbering : VariableId → VariableId → ℕ → ℕ → Allocated
numbering x h i b = record { variable = x; helper = h; positive = bit i b }

-- The clauses are those of every variable and every helper.
pub record IsNumbered (t : AtMostOnceTracker) (clauses : List Allocated) : Type 0 where
  pub all :
      (i b : ℕ) (x h : VariableId)
      → get_elem? t.variables i ≡ some x
      → get_elem? t.helpers b ≡ some h
      → Elem (numbering x h i b) clauses
  pub only :
      (c : Allocated)
      → Elem c clauses
      → (i : ℕ) × (b : ℕ) × (x : VariableId) × (h : VariableId) × (get_elem? t.variables i ≡ some x)
        × (get_elem? t.helpers b ≡ some h)
        × (c ≡ numbering x h i b)
  pub unique : Unique t.variables

-- The helpers are as few as can number the variables.
pub record IsEncoded (t : AtMostOnceTracker) (clauses : List Allocated) : Type 0 where
  pub numbered : IsNumbered t clauses
  pub enough : length t.variables ≤ 2 ^ length t.helpers
  pub least : 2 ^ length t.helpers < max 2 (2 * length t.variables)

-- ¬A ∨ B or ¬A ∨ ¬B
abbrev pub satisfied : (VariableId → Bool) → Allocated → Bool
satisfied σ c = not (σ c.variable) || bool_eq (σ c.helper) c.positive

bool_eq_self : (b : Bool) → bool_eq b b ≡ true
bool_eq_self true = refl
bool_eq_self false = refl

module _ (t : AtMostOnceTracker) (clauses : List Allocated) (enc : IsEncoded t clauses)
    (σ : VariableId → Bool) where
  module _ (sat : (c : Allocated) → Elem c clauses → satisfied σ c ≡ true) where
    -- A variable that is true makes the helpers spell its index.
    helper_value :
        (i b : ℕ) (x h : VariableId)
        → get_elem? t.variables i ≡ some x
        → get_elem? t.helpers b ≡ some h
        → σ x ≡ true
        → σ h ≡ bit i b
    helper_value i b x h at bt on = let s = sat _ (enc.numbered.all i b x h at bt) in ground arith

    -- Of the variables at most one is true.
    pub at_most_one :
        (i j : ℕ) (x y : VariableId)
        → get_elem? t.variables i ≡ some x
        → get_elem? t.variables j ≡ some y
        → σ x ≡ true
        → σ y ≡ true
        → i ≡ j
    at_most_one i j x y at bt on on' =
        let e = enc.enough in
        let p = get_elem?-less t.variables i x at in
        let q = get_elem?-less t.variables j y bt in
        same_bits (length t.helpers) i j (omega arith) (omega arith) (λ b less.
          let (h, ht) = less-get_elem? t.helpers b less in
          sym (helper_value i b x h at ht on) ∙ helper_value j b y h bt ht on')

  -- When the helpers spell the index of the one variable that is true, all clauses hold.
  pub spelled-satisfied :
      (i : ℕ)
      → ((j : ℕ) (y : VariableId) → get_elem? t.variables j ≡ some y → σ y ≡ true → i ≡ j)
      → ((b : ℕ) (h : VariableId) → get_elem? t.helpers b ≡ some h → σ h ≡ bit i b)
      → (c : Allocated) → Elem c clauses
      → satisfied σ c ≡ true
  spelled-satisfied i one spells c m =
      let (j, b, x, h, at, bt, e) = enc.numbered.only c m in
      rw e (elim (Bool-cases (σ x)) [
        | inr off ↦ ground arith
        | inl on ↦
            let same = one j x at on in
            let s = spells b h bt in rw (on, s, same) (bool_eq_self (bit j b))
      ])

-- The assignment that spells `i` with the helpers of the bits from `b` on.
abbrev pub spelled : (VariableId → Bool) → ℕ → ℕ → List VariableId → VariableId → Bool
spelled σ i b [] v = σ v
spelled σ i b (h ∷ hs) v = if h == v then bit i b else spelled σ i (b + 1) hs v

spelled-other :
    (σ : VariableId → Bool) (i b : ℕ) (hs : List VariableId) (v : VariableId)
    → ¬ Elem v hs
    → spelled σ i b hs v ≡ σ v
spelled-other σ i b [] v out = refl
spelled-other σ i b (h ∷ hs) v out =
    rw (==_false h v (λ e. out (inl (sym e)))) (spelled-other σ i (b + 1) hs v (λ m. out (inr m)))

spelled-bit :
    (σ : VariableId → Bool) (i b k : ℕ) (hs : List VariableId) (h : VariableId)
    → Unique hs
    → get_elem? hs k ≡ some h
    → spelled σ i b hs h ≡ bit i (b + k)
spelled-bit σ i b k [] h u at = cc
spelled-bit σ i b zero (x ∷ hs) h u at =
    let same : x ≡ h = ground arith in rw ((==_iff x h).1 same) (ap (bit i) (omega arith))
spelled-bit σ i b (suc k) (x ∷ hs) h u at =
    let m = get_elem?-Elem hs k h at in
    rw (==_false x h (λ e. u.0 (subst (λ y. Elem y hs) (sym e) m)))
      (spelled-bit σ i (b + 1) k hs h u.1 at ∙ ap (bit i) (omega arith))

-- Where the clauses number the variables, and the helpers are different and no variables of the
-- set, an assignment that makes at most the variable with index `i` true can be changed on the
-- helpers alone so that all clauses hold.
pub spelled-extends :
    (t : AtMostOnceTracker) (clauses : List Allocated) (σ : VariableId → Bool) (i : ℕ)
    → IsEncoded t clauses
    → Unique t.helpers
    → ((v : VariableId) → Elem v t.variables → ¬ Elem v t.helpers)
    → ((j : ℕ) (y : VariableId) → get_elem? t.variables j ≡ some y → σ y ≡ true → i ≡ j)
    → ((v : VariableId) → ¬ Elem v t.helpers → spelled σ i 0 t.helpers v ≡ σ v)
      × ((c : Allocated) → Elem c clauses → satisfied (spelled σ i 0 t.helpers) c ≡ true)
spelled-extends t clauses σ i enc unique apart one = (
  spelled-other σ i 0 t.helpers,
  spelled-satisfied t clauses enc (spelled σ i 0 t.helpers) i
      (λ j y at on.
        one j y at (
          sym (spelled-other σ i 0 t.helpers y (apart y (get_elem?-Elem t.variables j y at))) ∙ on))
      (λ b h at. spelled-bit σ i 0 b t.helpers h unique at ∙ ap (bit i) (omega arith)),
)
