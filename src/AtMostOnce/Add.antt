-- ===== src/AtMostOnce/Add.antt =====
-- `add` of src/solver/binary_encoding.rs keeps the encoding.
use resolvo.Prelude.{
  ℕ, zero, suc, ◌-◌, ◌*◌, ◌^◌, ◌≤◌, ◌<◌, max, ◌≡◌, ◌⊎◌, refl, sym, ap, ◌∙◌, subst, inl, inr, Bool,
  true, false, some, List, [], ◌∷◌, ◌++◌, arith, Run, ok, ◌>>=◌, Returns, Elem, Elem-append_left,
  Elem-append_right, Elem-any, any, ltb, length, length-append, get_elem?, get_elem?-less,
  Elem-get_elem?, any-Elem, ==_iff, ◌==◌, ==_refl, Bool-cases,
}
use resolvo.DecisionMap.{VariableId}
use resolvo.AtMostOnce.{
  AtMostOnceTracker, Allocated, default, variable_clauses, add_helper, add_helpers, add_new, add,
  add_all,
}
use resolvo.AtMostOnce.Bits.{power_suc, power-positive}
use resolvo.AtMostOnce.Encoding.{satisfied, IsNumbered, IsEncoded, at_most_one}
use resolvo.AtMostOnce.Clauses.{helper-IsNumbered, variable-IsNumbered}

power_below_two : (n : ℕ) → 2 ^ n < 2 → n ≡ 0
power_below_two zero h = refl
power_below_two (suc n) h = let e = power_suc n in let p = power-positive n in absurd (omega arith)

-- What the loop leaves: room for one variable more.
record HasRoom (t t' : AtMostOnceTracker) (clauses : List Allocated) : Type 0 where
  numbered : IsNumbered t' clauses
  same_variables : t'.variables ≡ t.variables
  room : length t.variables < 2 ^ length t'.helpers
  least : 2 ^ length t'.helpers < 2 * suc (length t.variables)

module _ {S : Type 0} (alloc_var : S → VariableId × S) where
  abbrev go_on :
      ℕ
      → AtMostOnceTracker
      → S
      → List Allocated
      → Bool
      → Run (AtMostOnceTracker × List Allocated × S)
  go_on fuel t s clauses b = elim b [
    | true ↦ let r = add_helper alloc_var t s in add_helpers alloc_var fuel r.0 r.2 (clauses ++ r.1)
    | false ↦ ok (t, clauses, s)
  ]

  pub add_helpers-step :
      (fuel : ℕ) (t : AtMostOnceTracker) (s : S) (clauses : List Allocated) (b : Bool)
      → ltb (2 ^ length t.helpers - 1) (length t.variables) ≡ b
      → add_helpers alloc_var (suc fuel) t s clauses ≡ go_on fuel t s clauses b
  unfolding add_helpers
  add_helpers-step fuel t s clauses b h = ap (go_on fuel t s clauses) h

  -- At most one helper is needed for the next variable.
  add_helpers-HasRoom :
      (fuel : ℕ) (t : AtMostOnceTracker) (s : S) (clauses : List Allocated)
      → IsEncoded t clauses
      → 0 < length t.variables
      → Returns (add_helpers alloc_var (suc (suc fuel)) t s clauses) (λ r. HasRoom t r.0 r.1)
  add_helpers-HasRoom fuel t s clauses enc some_left =
      elim (Bool-cases (ltb (2 ^ length t.helpers - 1) (length t.variables))) [
        | inr fits ↦ (
          (t, clauses, s),
          add_helpers-step (suc fuel) t s clauses false fits,
          record {
            numbered = enc.numbered;
            same_variables = refl;
            room = let p = power-positive (length t.helpers) in ground arith;
            least = let l = enc.least in ground arith;
          },
        )
        | inl full ↦
            let r = add_helper alloc_var t s in
            let l = length-append t.helpers ((alloc_var s).0 ∷ []) in
            let count : length r.0.helpers ≡ suc (length t.helpers) = l ∙ omega arith in
            let double : 2 ^ length r.0.helpers ≡ 2 * 2 ^ length t.helpers =
              ap (λ n. 2 ^ n) count ∙ power_suc (length t.helpers) in
            let enough = enc.enough in
            let p = power-positive (length t.helpers) in
            let least : 2 ^ length t.helpers ≤ length t.variables = ground arith in
            let stop : ltb (2 ^ length r.0.helpers - 1) (length t.variables) ≡ false =
              ground arith in
            (
              (r.0, clauses ++ r.1, r.2),
              add_helpers-step (suc fuel) t s clauses true full
                  ∙ add_helpers-step fuel r.0 r.2 (clauses ++ r.1) false stop,
              record {
                numbered = helper-IsNumbered t clauses (alloc_var s).0 enc.numbered;
                same_variables = refl;
                room = omega arith;
                least = omega arith;
              },
            )
      ]

  -- The first variable needs no helper.
  first-IsEncoded :
      (t : AtMostOnceTracker) (v : VariableId) (clauses : List Allocated)
      → t.variables ≡ []
      → IsEncoded t clauses
      → IsEncoded (record t { variables = v ∷ [] }) clauses
  first-IsEncoded t v clauses e enc =
      let l = enc.least in
      let count : length t.variables ≡ 0 = ap length e in
      let few : length t.helpers ≡ 0 = power_below_two (length t.helpers) (ground arith) in
      let p = power-positive (length t.helpers) in
      record {
        numbered = record {
          all = λ i b x h at bt. let less = get_elem?-less t.helpers b h bt in absurd (omega arith);
          only = λ c m.
              let (i, b, x, h, at, _, _) = enc.numbered.only c m in
              let less = get_elem?-less t.variables i x at in absurd (omega arith);
          unique = ((λ m. m), tt);
        };
        enough = omega arith;
        least = ground arith;
      }

  next-IsEncoded :
      (t t' : AtMostOnceTracker) (v : VariableId) (clauses : List Allocated)
      → ¬ Elem v t.variables
      → HasRoom t t' clauses
      → IsEncoded
          (record t' { variables = t'.variables ++ v ∷ [] })
          (clauses ++ variable_clauses v (length t'.variables) 0 t'.helpers)
  next-IsEncoded t t' v clauses out room =
      let l = length-append t'.variables (v ∷ []) in
      let same : length t'.variables ≡ length t.variables = ap length room.same_variables in
      let r = room.room in
      let least = room.least in
      record {
        numbered =
            variable-IsNumbered t' clauses v (λ m. out (subst (Elem v) room.same_variables m))
              room.numbered;
        enough = omega arith;
        least = ground arith;
      }

  -- What a variable adds: it is in the set, and the others stay.
  record Added (t : AtMostOnceTracker) (v : VariableId) (t' : AtMostOnceTracker)
      (clauses : List Allocated) : Type 0 where
    encoded : IsEncoded t' clauses
    variables : t'.variables ≡ t.variables ++ v ∷ []

  add_new-Added :
      (vs : List VariableId) (t : AtMostOnceTracker) (v : VariableId) (s : S)
      (clauses : List Allocated)
      → t.variables ≡ vs
      → IsEncoded t clauses
      → ¬ Elem v t.variables
      → Returns (add_new alloc_var vs t v s clauses) (λ r. Added t v r.0 r.1)
  unfolding add_new
  add_new-Added [] t v s clauses e enc out = (
    _,
    refl,
    record {
      encoded = first-IsEncoded t v clauses e enc;
      variables = ap (λ xs. xs ++ v ∷ []) (sym e);
    },
  )
  add_new-Added (x ∷ xs) t v s clauses e enc out =
      let count : length t.variables ≡ suc (length xs) = ap length e in
      let (r, run, room) = add_helpers-HasRoom (length xs) t s clauses enc (omega arith) in
      let run' : add_helpers alloc_var (suc (length t.variables)) t s clauses ≡ ok r =
        ap (λ n. add_helpers alloc_var (suc n) t s clauses) count ∙ run in
      (
        (
          record r.0 { variables = r.0.variables ++ v ∷ [] },
          r.1 ++ variable_clauses v (length r.0.variables) 0 r.0.helpers,
          r.2,
        ),
        rw run' refl,
        record {
          encoded = next-IsEncoded t r.0 v r.1 out room;
          variables = ap (λ xs. xs ++ v ∷ []) room.same_variables;
        },
      )

  -- The variable is in the set afterwards, once, with those that were there.
  abbrev pub Tracked : AtMostOnceTracker → VariableId → AtMostOnceTracker → Type 0
  Tracked t v t' = (x : VariableId) → (Elem x t.variables ⊎ (x ≡ v)) → Elem x t'.variables

  added-Tracked :
      (t : AtMostOnceTracker) (v : VariableId) (t' : AtMostOnceTracker)
      → t'.variables ≡ t.variables ++ v ∷ []
      → Tracked t v t'
  added-Tracked t v t' e x m = subst (Elem x) (sym e) (elim m [
    | inl old ↦ Elem-append_left x t.variables (v ∷ []) old
    | inr same ↦ Elem-append_right x t.variables (v ∷ []) (inl same)
  ])

  abbrev go_add :
      AtMostOnceTracker
      → VariableId
      → S
      → List Allocated
      → Bool
      → Run (Bool × AtMostOnceTracker × List Allocated × S)
  go_add t v s clauses b = elim b [
    | true ↦ ok (false, t, clauses, s)
    | false ↦ add_new alloc_var t.variables t v s clauses >>= λ r. ok (true, r.0, r.1, r.2)
  ]

  pub add-step :
      (t : AtMostOnceTracker) (v : VariableId) (s : S) (clauses : List Allocated) (b : Bool)
      → any (λ x. x == v) t.variables ≡ b
      → add alloc_var t v s clauses ≡ go_add t v s clauses b
  unfolding add
  add-step t v s clauses b h = ap (go_add t v s clauses) h

  -- Where the clauses number the variables with as few helpers as can, adding a variable ends,
  -- this stays so, and the variable is in the set, with those that were there.
  pub add-IsEncoded :
      (t : AtMostOnceTracker) (v : VariableId) (s : S) (clauses : List Allocated)
      → IsEncoded t clauses
      → Returns (add alloc_var t v s clauses) (λ r. IsEncoded r.1 r.2 × Tracked t v r.1)
  add-IsEncoded t v s clauses enc = elim (Bool-cases (any (λ x. x == v) t.variables)) [
    | inl known ↦
        let (x, m, e) = any-Elem (λ x. x == v) t.variables known in
        let here : Elem v t.variables = subst (λ y. Elem y t.variables) ((==_iff x v).0 e) m in
        (
          (false, t, clauses, s),
          add-step t v s clauses true known,
          (
            enc,
            λ y m. elim m [
              | inl old ↦ old
              | inr same ↦ subst (λ z. Elem z t.variables) (sym same) here
            ],
          ),
        )
    | inr new ↦
        let out : ¬ Elem v t.variables =
          λ m. let h = Elem-any (λ x. x == v) v t.variables m (==_refl v) in cc in
        let (r, run, added) = add_new-Added t.variables t v s clauses refl enc out in
        (
          (true, r.0, r.1, r.2),
          add-step t v s clauses false new ∙ ap (λ o. o >>= λ r. ok (true, r.0, r.1, r.2)) run,
          (added.encoded, added-Tracked t v r.0 added.variables),
        )
  ]

  pub add_all-IsEncoded :
      (vs : List VariableId) (t : AtMostOnceTracker) (s : S) (clauses : List Allocated)
      → IsEncoded t clauses
      → Returns (add_all alloc_var vs t s clauses) (λ r.
        IsEncoded r.0 r.1
        × ((x : VariableId) → Elem x t.variables ⊎ Elem x vs → Elem x r.0.variables))
  unfolding add_all
  add_all-IsEncoded [] t s clauses enc = (
    (t, clauses, s),
    refl,
    (enc, λ x m. elim m [ inl old ↦ old | inr none_left ↦ elim none_left [ ] ]),
  )
  add_all-IsEncoded (v ∷ vs) t s clauses enc =
      let (r, run, (enc', tracked)) = add-IsEncoded t v s clauses enc in
      let (r', run', (enc'', all)) = add_all-IsEncoded vs r.1 r.3 r.2 enc' in
      (
        r',
        rw run run',
        (
          enc'',
          λ x m. all x (elim m [
            | inl old ↦ inl (tracked x (inl old))
            | inr (inl e) ↦ inl (tracked x (inr e))
            | inr (inr rest) ↦ inr rest
          ]),
        ),
      )

  pub default-IsEncoded : IsEncoded default []
  default-IsEncoded = record {
    numbered = record { all = λ i b x h at. cc; only = λ c m. elim m [ ]; unique = tt };
    enough = omega arith;
    least = omega arith;
  }

  -- Adding variables one after another to an empty tracker ends. The helpers number fewer than
  -- twice as many variables, or than two, and an assignment that satisfies all clauses makes at
  -- most one of the variables true.
  pub add_all-at_most_one :
      (vs : List VariableId) (s : S)
      → Returns (add_all alloc_var vs default s []) (λ r.
        (2 ^ length r.0.helpers < max 2 (2 * length r.0.variables))
        × ((σ : VariableId → Bool) (x y : VariableId)
            → ((c : Allocated) → Elem c r.1 → satisfied σ c ≡ true)
            → Elem x vs
            → Elem y vs
            → σ x ≡ true
            → σ y ≡ true
            → x ≡ y))
  add_all-at_most_one vs s =
      let (r, run, (enc, all)) = add_all-IsEncoded vs default s [] default-IsEncoded in
      (
        r,
        run,
        (
          enc.least,
          λ σ x y sat mx my on on'.
              let (i, at) = Elem-get_elem? r.0.variables x (all x (inr mx)) in
              let (j, bt) = Elem-get_elem? r.0.variables y (all y (inr my)) in
              let same = at_most_one r.0 r.1 enc σ sat i j x y at bt on on' in
              let bt' : get_elem? r.0.variables i ≡ some y =
                subst (λ n. get_elem? r.0.variables n ≡ some y) (sym same) bt in
              cc,
        ),
      )
