-- ===== src/Learning/Gather.antt =====
-- `analyze_unsolvable_clause` of src/solver/mod.rs: a learnt clause stands for the given clauses that it
-- was learnt from.
use resolvo.Prelude.{
  ℕ, zero, suc, ◌<◌, ◌≡◌, ◌⊎◌, refl, sym, ap, ◌∙◌, subst, inl, inr, Bool, true, false, some, List,
  [], ◌∷◌, arith, Run, ok, Returns, any, any-Elem, Elem, Elem-append, Elem-append_left,
  Elem-append_right, get_elem?, length, less-get_elem?, ◌==◌, ==_iff, Bool-cases,
}
use resolvo.DecisionMap.{VariableId}
use resolvo.DecisionTracker.{ClauseId}
use resolvo.Mapping.{Mapping}
use resolvo.Clause.{Clause}
use resolvo.Propagation.{Problem}
use resolvo.Propagation.Models.{HoldsAt, HoldsAll}
use resolvo.Learning.{
  Conflict, Gathered, add_to_conflict, for_each, gather, analyze_unsolvable_clause,
}
use resolvo.Learning.Valid.{HasCauses}

-- A clause that was not learnt.
abbrev pub IsGiven : Clause → Type 0
IsGiven (Clause.learnt _) = ⊥
IsGiven _ = Unit

Clause-cases : (c : Clause) → IsGiven c ⊎ ((id : ℕ) × (c ≡ Clause.learnt id))
Clause-cases Clause.install_root = inl tt
Clause-cases (Clause.requires s d r) = inl tt
Clause-cases (Clause.forbid_multiple_instances a b n) = inl tt
Clause-cases (Clause.constrains a b v) = inl tt
Clause-cases (Clause.constrains_excluded a b v) = inl tt
Clause-cases (Clause.constrains_parent a b v) = inl tt
Clause-cases (Clause.lock a b) = inl tt
Clause-cases (Clause.learnt id) = inr (id, refl)
Clause-cases (Clause.excluded a r) = inl tt
Clause-cases (Clause.any_of a b) = inl tt

gather-given :
    (visit : ClauseId → Gathered → Run Gathered) (why : Mapping (List ClauseId)) (id : ClauseId)
    (c : Clause) (g : Gathered)
    → IsGiven c
    → gather visit why id c g ≡ ok (add_to_conflict g.0 id, g.1)
unfolding gather
gather-given visit why id Clause.install_root g h = refl
gather-given visit why id (Clause.requires s d r) g h = refl
gather-given visit why id (Clause.forbid_multiple_instances a b n) g h = refl
gather-given visit why id (Clause.constrains a b v) g h = refl
gather-given visit why id (Clause.constrains_excluded a b v) g h = refl
gather-given visit why id (Clause.constrains_parent a b v) g h = refl
gather-given visit why id (Clause.lock a b) g h = refl
gather-given visit why id (Clause.learnt l) g h = elim h [ ]
gather-given visit why id (Clause.excluded a r) g h = refl
gather-given visit why id (Clause.any_of a b) g h = refl

-- The clauses of the conflict are given ones.
abbrev pub AllGiven : Problem → Conflict → Type 0
AllGiven p conflict =
    (id : ClauseId) → Elem id conflict → (c : Clause) × (get_elem? p.kinds id ≡ some c) × IsGiven c

abbrev pub Explains : Problem → Conflict → ClauseId → Type 0
Explains p conflict id = (σ : VariableId → Bool) → HoldsAll p σ conflict → HoldsAt p σ id

-- What was seen follows from the conflict, or is still being visited.
pub record IsGathered (p : Problem) (open_ids : List ClauseId) (g : Gathered) : Type 0 where
  pub given : AllGiven p g.0
  pub explained : (id : ClauseId) → Elem id g.1 → Elem id open_ids ⊎ Explains p g.0 id

pub record Gathers (p : Problem) (open_ids : List ClauseId) (g g' : Gathered) : Type 0 where
  pub inv : IsGathered p open_ids g'
  pub grown : (id : ClauseId) → Elem id g.0 → Elem id g'.0

add_to_conflict-Elem : (cs : Conflict) (id : ClauseId) → Elem id (add_to_conflict cs id)
unfolding add_to_conflict
add_to_conflict-Elem cs id = elim (Bool-cases (any (λ x. x == id) cs)) [
  | inl hit ↦
      let (x, m, e) = any-Elem (λ x. x == id) cs hit in
      rw hit (subst (λ x. Elem x cs) ((==_iff x id).0 e) m)
  | inr miss ↦ rw miss (Elem-append_right id cs (id ∷ []) (inl refl))
]

Elem-add_to_conflict :
    (cs : Conflict) (id x : ClauseId)
    → (Elem x cs → Elem x (add_to_conflict cs id))
      × (Elem x (add_to_conflict cs id) → Elem x cs ⊎ (x ≡ id))
unfolding add_to_conflict
Elem-add_to_conflict cs id x = elim (Bool-cases (any (λ x. x == id) cs)) [
  | inl hit ↦ rw hit ((λ m. m), (λ m. inl m))
  | inr miss ↦ rw miss (
    (λ m. Elem-append_left x cs (id ∷ []) m),
    (λ m. elim (Elem-append x cs (id ∷ []) m) [
      | inl old ↦ inl old
      | inr (inl e) ↦ inr e
      | inr (inr none_left) ↦ elim none_left [ ]
    ]),
  )
]

Explains-grown :
    (p : Problem) (cs cs' : Conflict) (id : ClauseId)
    → ((x : ClauseId) → Elem x cs → Elem x cs')
    → Explains p cs id
    → Explains p cs' id
Explains-grown p cs cs' id grown h σ all = h σ (λ x m. all x (grown x m))

module _ (p : Problem) (why : Mapping (List ClauseId))
    (causes : (id learnt_id : ℕ)
      → get_elem? p.kinds id ≡ some (Clause.learnt learnt_id)
      → HasCauses p why id learnt_id) where
  -- The outcome of a visit of `id`.
  abbrev pub Visited : ℕ → ClauseId → List ClauseId → Gathered → Type 0
  Visited fuel id open_ids g =
      Returns (analyze_unsolvable_clause fuel p.kinds why id g)
        (λ g'. Gathers p open_ids g g' × Explains p g'.0 id)

  -- Clauses that are visited are before those that are being visited.
  abbrev IsBefore : ClauseId → List ClauseId → Type 0
  IsBefore id open_ids = (id < length p.kinds) × ((o : ClauseId) → Elem o open_ids → id < o)

  given-Gathers :
      (id : ClauseId) (c : Clause) (open_ids : List ClauseId) (g : Gathered)
      → get_elem? p.kinds id ≡ some c
      → IsGiven c
      → IsGathered p open_ids g
      → Gathers p open_ids g (add_to_conflict g.0 id, g.1) × Explains p (add_to_conflict g.0 id) id
  given-Gathers id c open_ids g h is inv = (
    record {
      inv = record {
        given = λ x m. elim ((Elem-add_to_conflict g.0 id x).1 m) [
          | inl old ↦ inv.given x old
          | inr e ↦ (c, subst (λ y. get_elem? p.kinds y ≡ some c) (sym e) h, is)
        ];
        explained = λ x m. elim (inv.explained x m) [
          | inl o ↦ inl o
          | inr k ↦ inr (
              Explains-grown p g.0 (add_to_conflict g.0 id) x
                (λ y. (Elem-add_to_conflict g.0 id y).0) k)
        ];
      };
      grown = λ x. (Elem-add_to_conflict g.0 id x).0;
    },
    λ σ all. all id (add_to_conflict-Elem g.0 id),
  )

  module _ (fuel : ℕ)
      (visited : (id : ClauseId) (open_ids : List ClauseId) (g : Gathered)
        → id < fuel
        → IsBefore id open_ids
        → IsGathered p open_ids g
        → Visited fuel id open_ids g) where
    for_each-Gathers :
        (cs : List ClauseId) (open_ids : List ClauseId) (g : Gathered)
        → ((c : ClauseId) → Elem c cs → (c < fuel) × IsBefore c open_ids)
        → IsGathered p open_ids g
        → Returns
            (for_each (analyze_unsolvable_clause fuel p.kinds why) cs g)
            (λ g'. Gathers p open_ids g g' × ((c : ClauseId) → Elem c cs → Explains p g'.0 c))
    unfolding for_each
    for_each-Gathers [] open_ids g small inv =
        (g, refl, (record { inv = inv; grown = λ x m. m }, λ c m. elim m [ ]))
    for_each-Gathers (c ∷ cs) open_ids g small inv =
        let (less, before) = small c (inl refl) in
        let (g', run, (first, exp)) = visited c open_ids g less before inv in
        let (g'', run', (others, all)) =
          for_each-Gathers cs open_ids g' (λ x m. small x (inr m)) first.inv in
        (
          g'',
          rw run run',
          (
            record { inv = others.inv; grown = λ x m. others.grown x (first.grown x m) },
            λ x m. elim m [
              | inl e ↦
                  subst (Explains p g''.0) (sym e) (Explains-grown p g'.0 g''.0 c others.grown exp)
              | inr m ↦ all x m
            ],
          ),
        )

    -- The causes of a learnt clause are visited while it is being visited.
    learnt-Gathers :
        (id learnt_id : ℕ) (open_ids : List ClauseId) (g : Gathered)
        → get_elem? p.kinds id ≡ some (Clause.learnt learnt_id)
        → id < suc fuel
        → IsBefore id open_ids
        → IsGathered p open_ids g
        → any (λ x. x == id) g.1 ≡ false
        → Returns
            (gather (analyze_unsolvable_clause fuel p.kinds why) why id (Clause.learnt learnt_id) g)
            (λ g'. Gathers p open_ids g g' × Explains p g'.0 id)
    unfolding gather
    learnt-Gathers id learnt_id open_ids g h less (known, before) inv unseen =
        let c = causes id learnt_id h in
        let inv' : IsGathered p (id ∷ open_ids) (g.0, id ∷ g.1) = record {
          given = inv.given;
          explained = λ x m. elim m [
            | inl e ↦ inl (inl e)
            | inr m ↦ elim (inv.explained x m) [ inl o ↦ inl (inr o) | inr k ↦ inr k ]
          ];
        } in
        let small : (x : ClauseId) → Elem x c.causes → (x < fuel) × IsBefore x (id ∷ open_ids) =
          λ x m.
            let b = c.before x m in
            (
              omega arith,
              (
                omega arith,
                λ o mo. elim mo [ inl e ↦ rw e b | inr mo ↦ let l = before o mo in omega arith ],
              ),
            ) in
        let (g', run, (all, exp)) =
          for_each-Gathers c.causes (id ∷ open_ids) (g.0, id ∷ g.1) small inv' in
        let now : Explains p g'.0 id = λ σ k. c.follows σ (λ x m. exp x m σ k) in
        (
          g',
          rw (unseen, c.stored) run,
          (
            record {
              inv = record {
                given = all.inv.given;
                explained = λ x m. elim (all.inv.explained x m) [
                  | inl (inl e) ↦ inr (subst (Explains p g'.0) (sym e) now)
                  | inl (inr o) ↦ inl o
                  | inr k ↦ inr k
                ];
              };
              grown = all.grown;
            },
            now,
          ),
        )

  seen-Explains :
      (id : ClauseId) (open_ids : List ClauseId) (g : Gathered)
      → IsBefore id open_ids
      → IsGathered p open_ids g
      → any (λ x. x == id) g.1 ≡ true
      → Explains p g.0 id
  seen-Explains id open_ids g (known, before) inv hit =
      let (x, m, e) = any-Elem (λ x. x == id) g.1 hit in
      elim (inv.explained id (subst (λ y. Elem y g.1) ((==_iff x id).0 e) m)) [
        | inl o ↦ let l = before id o in absurd (omega arith)
        | inr k ↦ k
      ]

  visit_clause :
      (fuel : ℕ) (id : ClauseId) (c : Clause) (g : Gathered)
      → get_elem? p.kinds id ≡ some c
      → analyze_unsolvable_clause (suc fuel) p.kinds why id g
        ≡ gather (analyze_unsolvable_clause fuel p.kinds why) why id c g
  unfolding analyze_unsolvable_clause
  visit_clause fuel id c g h = rw h refl

  visit_seen :
      (visit : ClauseId → Gathered → Run Gathered) (id learnt_id : ℕ) (g : Gathered)
      → any (λ x. x == id) g.1 ≡ true
      → gather visit why id (Clause.learnt learnt_id) g ≡ ok g
  unfolding gather
  visit_seen visit id learnt_id g hit = rw hit refl

  -- Fuel above the id is enough, for a clause's causes have lower ids. What is gathered are given clauses, which the
  -- clause follows from.
  pub analyze_unsolvable_clause-Gathers :
      (fuel : ℕ) (id : ClauseId) (open_ids : List ClauseId) (g : Gathered)
      → id < fuel
      → IsBefore id open_ids
      → IsGathered p open_ids g
      → Visited fuel id open_ids g
  analyze_unsolvable_clause-Gathers zero id open_ids g less before inv = absurd (omega arith)
  analyze_unsolvable_clause-Gathers (suc fuel) id open_ids g less before inv =
      let (c, h) = less-get_elem? p.kinds id before.0 in
      elim (Clause-cases c) [
        | inl is ↦ (
          (add_to_conflict g.0 id, g.1),
          visit_clause fuel id c g h
              ∙ gather-given (analyze_unsolvable_clause fuel p.kinds why) why id c g is,
          given-Gathers id c open_ids g h is inv,
        )
        | inr (learnt_id, e) ↦
            let h' : get_elem? p.kinds id ≡ some (Clause.learnt learnt_id) = h ∙ ap some e in
            elim (Bool-cases (any (λ x. x == id) g.1)) [
              | inl hit ↦ (
                g,
                visit_clause fuel id _ g h'
                    ∙ visit_seen (analyze_unsolvable_clause fuel p.kinds why) id learnt_id g hit,
                (
                  record { inv = inv; grown = λ x m. m },
                  seen-Explains id open_ids g before inv hit,
                ),
              )
              | inr unseen ↦
                  let (g', run, done) =
                    learnt-Gathers fuel (analyze_unsolvable_clause-Gathers fuel) id learnt_id
                      open_ids g h' less before inv unseen in
                  (g', visit_clause fuel id _ g h' ∙ run, done)
            ]
      ]
