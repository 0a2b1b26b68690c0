-- ===== src/VariableMap/Laws.antt =====
-- The variable map of src/solver/variable_map.rs: solvables and their variables correspond.
use resolvo.Prelude.{
  zero, suc, ◌≡◌, ◌≢◌, ◌⊎◌, refl, sym, ap, ◌∙◌, subst, inl, inr, Option, none, some, [], ◌∷◌, ◌++◌,
  arith, ok, expect, length, get_elem?, get_elem?-less, get_elem?-last, get_elem?-length,
  get_elem?-append_left, get_elem?-append_one, ◌==◌, ==_iff, ==_refl, ==_false, if◌then◌else◌,
  Bool-cases, Option-cases,
}
use resolvo.DecisionMap.{VariableId}
use resolvo.Clause.{root}
use resolvo.VariableMap.{
  SolvableId, VariableOrigin, IdMap, VariableMap, default, alloc, intern_solvable, lookup_solvable,
  origin, origin_solvable, as_solvable,
}

solvable-injective :
    (s x : SolvableId) → VariableOrigin.solvable s ≡ VariableOrigin.solvable x → s ≡ x
solvable-injective s x e = cc

module _ (ids : IdMap (Option VariableId) none) where
  -- The root comes first, and a solvable's variable is the one whose origin is that solvable.
  pub record IsValid (m : VariableMap ids) : Type 0 where
    pub rooted : get_elem? m.origins root ≡ some VariableOrigin.root
    pub origins :
        (s : SolvableId) (v : VariableId)
        → lookup_solvable ids m s ≡ some v
        → get_elem? m.origins v ≡ some (VariableOrigin.solvable s)
    pub variables :
        (s : SolvableId) (v : VariableId)
        → get_elem? m.origins v ≡ some (VariableOrigin.solvable s)
        → lookup_solvable ids m s ≡ some v

  pub default-IsValid : IsValid (default ids)
  unfolding lookup_solvable
  default-IsValid = record {
    rooted = refl;
    origins = λ s v h. let e = ids.get-default_map s in cc;
    variables = λ s v. go s v;
  }
    where
      go :
          (s : SolvableId) (v : VariableId)
          → get_elem? (VariableOrigin.root ∷ []) v ≡ some (VariableOrigin.solvable s)
          → lookup_solvable ids (default ids) s ≡ some v
      go s zero h = cc
      go s (suc v) h = cc

  -- A variable that is allocated is a new one, with this origin, and the others keep theirs.
  pub record Allocated (m : VariableMap ids) (o : VariableOrigin) (v : VariableId)
      (m' : VariableMap ids) : Type 0 where
    pub fresh : get_elem? m.origins v ≡ none
    pub no_root : v ≢ root
    pub is : origin ids m' v ≡ ok o
    pub kept :
        (x : VariableId) (k : VariableOrigin) → origin ids m x ≡ ok k → origin ids m' x ≡ ok k

  origin-get_elem? :
      (m : VariableMap ids) (v : VariableId) (o : VariableOrigin)
      → origin ids m v ≡ ok o
      → get_elem? m.origins v ≡ some o
  unfolding origin
  origin-get_elem? m v o h = elim (Option-cases (get_elem? m.origins v)) [
    | inl e ↦ let z = rw e at h in cc
    | inr (k, e) ↦ let z = rw e at h in let same : k ≡ o = cc in e ∙ ap some same
  ]

  pub alloc-Allocated :
      (m : VariableMap ids) (o : VariableOrigin)
      → IsValid m
      → Allocated m o (alloc ids m o).0 (alloc ids m o).1
  unfolding alloc origin
  alloc-Allocated m o valid =
      let first = get_elem?-less m.origins root VariableOrigin.root valid.rooted in
      record {
        fresh = get_elem?-length m.origins;
        no_root = λ e. omega arith;
        is = ap expect (get_elem?-last m.origins o);
        kept = λ x k h.
            ap expect (get_elem?-append_left m.origins (o ∷ []) x k (origin-get_elem? m x k h));
      }

  -- What interning a solvable returns and leaves.
  pub record Interned (m : VariableMap ids) (s : SolvableId) (v : VariableId) (m' : VariableMap ids)
      : Type 0 where
    pub valid : IsValid m'
    pub before :
        ((lookup_solvable ids m s ≡ some v) × (m' ≡ m))
        ⊎ ((lookup_solvable ids m s ≡ none) × (get_elem? m.origins v ≡ none))
    pub known : lookup_solvable ids m' s ≡ some v
    pub back : as_solvable ids m' v ≡ ok (some s)
    pub no_root : v ≢ root
    pub others : (x : SolvableId) → s ≢ x → lookup_solvable ids m' x ≡ lookup_solvable ids m x
    pub kept :
        (x : VariableId) (k : VariableOrigin) → origin ids m x ≡ ok k → origin ids m' x ≡ ok k

  -- Interning a solvable that has a variable returns it.
  known-Interned :
      (m : VariableMap ids) (s : SolvableId) (v : VariableId)
      → IsValid m
      → lookup_solvable ids m s ≡ some v
      → Interned m s v m
  unfolding as_solvable origin origin_solvable
  known-Interned m s v valid h =
      let o = valid.origins s v h in
      let first = valid.rooted in
      record {
        valid = valid;
        before = inl (h, refl);
        known = h;
        back = rw o refl;
        no_root = λ e.
            let o' : get_elem? m.origins root ≡ some (VariableOrigin.solvable s) =
              subst (λ x. get_elem? m.origins x ≡ some (VariableOrigin.solvable s)) e o in
            cc;
        others = λ x ne. refl;
        kept = λ x k h. h;
      }

  module _ (m : VariableMap ids) (s : SolvableId) (valid : IsValid m)
      (unknown : lookup_solvable ids m s ≡ none) where
    abbrev new_map : VariableMap ids
    new_map = record {
      origins = m.origins ++ VariableOrigin.solvable s ∷ [];
      solvable_to_variable = ids.set m.solvable_to_variable s (some (length m.origins));
    }

    new-lookup :
        (x : SolvableId)
        → lookup_solvable ids new_map x
          ≡ (if s == x then some (length m.origins) else lookup_solvable ids m x)
    unfolding lookup_solvable
    new-lookup x = ids.get-set m.solvable_to_variable s x (some (length m.origins))

    new-IsValid : IsValid new_map
    new-IsValid = record {
      rooted = get_elem?-append_left m.origins _ root VariableOrigin.root valid.rooted;
      origins = λ x v h. elim (Bool-cases (s == x)) [
        | inl same ↦
            let e : some (length m.origins) ≡ some v = sym (new-lookup x ∙ rw same refl) ∙ h in
            let e' : length m.origins ≡ v = cc in
            let q = (==_iff s x).0 same in
            subst (λ n. get_elem? new_map.origins n ≡ some (VariableOrigin.solvable x)) e'
              (get_elem?-last m.origins (VariableOrigin.solvable s)
                ∙ ap (λ y. some (VariableOrigin.solvable y)) q)
        | inr other ↦
            let old : lookup_solvable ids m x ≡ some v = sym (new-lookup x ∙ rw other refl) ∙ h in
            get_elem?-append_left m.origins _ v _ (valid.origins x v old)
      ];
      variables = λ x v h. elim (get_elem?-append_one m.origins (VariableOrigin.solvable s) v _ h) [
        | inl old ↦
            let known = valid.variables x v old in
            let ne : s ≢ x =
              λ e. let k = subst (λ y. lookup_solvable ids m y ≡ none) e unknown in cc in
            new-lookup x ∙ rw (==_false s x ne) known
        | inr (e, q) ↦
            let same : s ≡ x = solvable-injective s x q in
            new-lookup x ∙ rw ((==_iff s x).1 same) (ap some (sym e))
      ];
    }

    new-Interned : Interned m s (length m.origins) new_map
    unfolding as_solvable origin origin_solvable
    new-Interned =
        let first = get_elem?-less m.origins root VariableOrigin.root valid.rooted in
        record {
          valid = new-IsValid;
          before = inr (unknown, get_elem?-length m.origins);
          known = new-lookup s ∙ rw (==_refl s) refl;
          back = let e = get_elem?-last m.origins (VariableOrigin.solvable s) in rw e refl;
          no_root = λ e. omega arith;
          others = λ x ne. new-lookup x ∙ rw (==_false s x ne) refl;
          kept =
              λ x k h. ap expect (get_elem?-append_left m.origins _ x k (origin-get_elem? m x k h));
        }

  abbrev branch : VariableMap ids → SolvableId → Option VariableId → VariableId × VariableMap ids
  branch m s o = elim o [
    | some v ↦ (v, m)
    | none ↦
        let r = alloc ids m (VariableOrigin.solvable s) in
        (r.0, record r.1 { solvable_to_variable = ids.set r.1.solvable_to_variable s (some r.0) })
  ]

  intern_solvable-branch :
      (m : VariableMap ids) (s : SolvableId) (o : Option VariableId)
      → lookup_solvable ids m s ≡ o
      → intern_solvable ids m s ≡ branch m s o
  unfolding intern_solvable lookup_solvable
  intern_solvable-branch m s o h = ap (branch m s) h

  -- On a valid map, interning a solvable returns its variable, which is not the root's and has
  -- that solvable as its origin, gives out a new one only if it had none, and keeps the variables
  -- of the other solvables and all origins; the map is valid again.
  pub intern_solvable-Interned :
      (m : VariableMap ids) (s : SolvableId)
      → IsValid m
      → Interned m s (intern_solvable ids m s).0 (intern_solvable ids m s).1
  unfolding alloc
  intern_solvable-Interned m s valid = elim (Option-cases (lookup_solvable ids m s)) [
    | inl unknown ↦
        subst (λ r. Interned m s r.0 r.1) (sym (intern_solvable-branch m s none unknown))
          (new-Interned m s valid unknown)
    | inr (v, h) ↦
        subst (λ r. Interned m s r.0 r.1) (sym (intern_solvable-branch m s (some v) h))
          (known-Interned m s v valid h)
  ]

  -- On a valid map, allocating a variable with any origin but a solvable gives out a new one, not
  -- the root's, with that origin, and keeps all other origins; the map is valid again.
  pub alloc-IsValid :
      (m : VariableMap ids) (o : VariableOrigin)
      → origin_solvable o ≡ none
      → IsValid m
      → IsValid (alloc ids m o).1 × Allocated m o (alloc ids m o).0 (alloc ids m o).1
  unfolding alloc lookup_solvable origin_solvable
  alloc-IsValid m o other valid = (
    record {
      rooted = get_elem?-append_left m.origins _ root VariableOrigin.root valid.rooted;
      origins = λ s v h. get_elem?-append_left m.origins _ v _ (valid.origins s v h);
      variables = λ s v h. elim (get_elem?-append_one m.origins o v _ h) [
        | inl old ↦ valid.variables s v old
        | inr (_, e) ↦
            let z : origin_solvable (VariableOrigin.solvable s) ≡ none =
              subst (λ k. origin_solvable k ≡ none) e other in
            cc
      ];
    },
    alloc-Allocated m o valid,
  )
