-- ===== src/Analysis/See.antt =====
-- The closure of `analyze` in src/solver/mod.rs that visits the literals of a clause.
use resolvo.Prelude.{
  ℕ, ◌+◌, ◌<◌, ◌≡◌, ◌⊎◌, refl, sym, ap, subst, inl, inr, Bool, true, false, not, ◌&&◌, some, List,
  [], ◌∷◌, ◌++◌, arith, Returns, Elem, Elem-append, Elem-append_left, Elem-append_right, All,
  get_elem?, get_elem?-last, get_elem?-append_left, ltb, ◌==◌, ==_iff, ==_refl, Bool-cases,
}
use resolvo.DecisionMap.{VariableId}
use resolvo.DecisionTracker.{DecisionTracker, assigned_value, level}
use resolvo.Literal.{Literal, new, eval, variable}
use resolvo.Literal.Laws.{variable-new}
use resolvo.Propagation.{Problem}
use resolvo.Analysis.{Analysis, contains, learn_literal, count_or_learn, see_literal, see_literals}
use resolvo.Analysis.Trail.{level-last_level}
use resolvo.Analysis.Pending.{IsConflicting, IsPending, assigned_value-false, new-false}

-- The state after literals were visited, all of `ls` but those on the variable skipped.
pub record Seen (lv : ℕ) (t : DecisionTracker) (a : Analysis) (pending : List VariableId)
    (a' : Analysis) (pending' : List VariableId) : Type 0 where
  pub inv : IsPending lv t a' pending'
  pub grown_seen : (v : VariableId) → contains a.seen v ≡ true → contains a'.seen v ≡ true
  pub grown_pending : (v : VariableId) → Elem v pending → Elem v pending'
  pub grown_learnt : (l : Literal) → Elem l a.learnt → Elem l a'.learnt

same-Seen :
    (lv : ℕ) (t : DecisionTracker) (a : Analysis) (pending : List VariableId)
    → IsPending lv t a pending
    → Seen lv t a pending a pending
same-Seen lv t a pending inv = record {
  inv = inv;
  grown_seen = λ v h. h;
  grown_pending = λ v h. h;
  grown_learnt = λ l h. h;
}

module _ (p : Problem) (lv : ℕ) (t : DecisionTracker) (trail : IsConflicting p lv t) (a : Analysis)
    (pending : List VariableId) (inv : IsPending lv t a pending) (v : VariableId) (b : Bool)
    (is : assigned_value t v ≡ some b) (unseen : contains a.seen v ≡ false) where
  abbrev with_seen : Analysis
  with_seen = record a { seen = v ∷ a.seen }

  seen_cons :
      (x : VariableId) → contains (v ∷ a.seen) x ≡ true → (v ≡ x) ⊎ (contains a.seen x ≡ true)
  seen_cons x h = ground arith

  grown : (x : VariableId) → contains a.seen x ≡ true → contains (v ∷ a.seen) x ≡ true
  grown x h = ground arith

  -- A variable of the conflict's level is counted.
  counted-Seen :
      level t v ≡ lv
      → Seen lv t a pending
          (record with_seen { causes_at_current_level = a.causes_at_current_level + 1 })
          (v ∷ pending)
  counted-Seen at = record {
    inv = record {
      unique = ((λ m. let h = (inv.waiting v m).0 in cc), inv.unique);
      counted = omega (arith, inv.counted);
      waiting = λ x m. elim m [
        | inl e ↦
            subst
              (λ x.
                (contains (v ∷ a.seen) x ≡ true)
                × (level t x ≡ lv)
                × ((b : Bool) × (assigned_value t x ≡ some b)))
              (sym e) (rw (==_refl v) refl, at, (b, is))
        | inr m ↦ let (h, l, c) = inv.waiting x m in (grown x h, l, c)
      ];
      covered = λ x c h e. elim (seen_cons x h) [
        | inl q ↦ inl (inl (sym q))
        | inr h ↦ elim (inv.covered x c h e) [ inl m ↦ inl (inr m) | inr m ↦ inr m ]
      ];
      learnt = inv.learnt;
      back = inv.back;
      index = inv.index;
    };
    grown_seen = grown;
    grown_pending = λ x m. inr m;
    grown_learnt = λ l m. m;
  }

  highest :
      let a' = learn_literal (level t v) (new v b) with_seen in
      (l : Literal) × (get_elem? a'.learnt a'.highest_level_idx ≡ some l)
      × (level t (variable l) ≡ a'.back_track_to)
  highest = elim (Bool-cases (ltb a.back_track_to (level t v))) [
    | inl up ↦ (new v b, rw up (get_elem?-last a.learnt (new v b)), rw (up, variable-new v b) refl)
    | inr stay ↦ elim inv.index [
      | inl (e, z, bz) ↦ (new v b, rw (stay, z, e) refl, rw (stay, variable-new v b) (ground arith))
      | inr (l, g, at) ↦ (
        l,
        rw stay (get_elem?-append_left a.learnt (new v b ∷ []) a.highest_level_idx l g),
        rw stay at,
      )
    ]
  ]

  -- One of a lower level is learnt.
  learnt-Seen :
      level t v < lv → Seen lv t a pending (learn_literal (level t v) (new v b) with_seen) pending
  learnt-Seen low = record {
    inv = record {
      unique = inv.unique;
      counted = inv.counted;
      waiting = λ x m. let (h, l, c) = inv.waiting x m in (grown x h, l, c);
      covered = λ x c h e. elim (seen_cons x h) [
        | inl q ↦ inr (
            subst
              (λ x.
                (c : Bool)
                → assigned_value t x ≡ some c
                → Elem (new x c) (a.learnt ++ new v b ∷ []) × (level t x < lv))
              q
              (λ c e'.
                let same : b ≡ c = ground arith in
                (
                  (Elem-append_right (new v c) a.learnt (new v b ∷ [])
                      (inl (ap (new v) (sym same)))),
                  low,
                ))
              c e)
        | inr h ↦ elim (inv.covered x c h e) [
          | inl m ↦ inl m
          | inr m ↦ inr (Elem-append_left (new x c) a.learnt (new v b ∷ []) m.0, m.1)
        ]
      ];
      learnt = λ l m. elim (Elem-append l a.learnt (new v b ∷ []) m) [
        | inl old ↦ let (f, le) = inv.learnt l old in (f, ground arith)
        | inr (inl e) ↦ rw e (new-false t v b is, rw (variable-new v b) (ground arith))
        | inr (inr none_left) ↦ elim none_left [ ]
      ];
      back = let h = inv.back in ground arith;
      index = inr highest;
    };
    grown_seen = grown;
    grown_pending = λ x m. m;
    grown_learnt = λ l m. Elem-append_left l a.learnt (new v b ∷ []) m;
  }

module _ (p : Problem) (lv : ℕ) (t : DecisionTracker) (trail : IsConflicting p lv t) (first : Bool)
    (conflicting : VariableId) where
  -- A literal that is visited is skipped, or false.
  abbrev pub IsVisited : Literal → Type 0
  IsVisited l = ((first ≡ false) × (variable l ≡ conflicting)) ⊎ (eval l t.map ≡ some false)

  -- The variable of a literal that is false is seen afterwards, unless it is skipped.
  abbrev pub IsSeen : Analysis → Literal → Type 0
  IsSeen a l =
      ((first ≡ false) × (variable l ≡ conflicting)) ⊎ (contains a.seen (variable l) ≡ true)

  see_new :
      (a : Analysis) (pending : List VariableId) (l : Literal)
      → IsPending lv t a pending
      → eval l t.map ≡ some false
      → contains a.seen (variable l) ≡ false
      → Returns (count_or_learn lv t l (record a { seen = variable l ∷ a.seen })) (λ a'.
        (pending' : List VariableId) × Seen lv t a pending a' pending'
        × (contains a'.seen (variable l) ≡ true))
  unfolding count_or_learn
  see_new a pending l inv f unseen =
      let is = assigned_value-false t l f in
      let le = level-last_level t (variable l) _ trail.trail is in
      let now : contains (variable l ∷ a.seen) (variable l) ≡ true =
        rw (==_refl (variable l)) refl in
      elim (Bool-cases (level t (variable l) == lv)) [
        | inl at ↦ (
          _,
          rw at refl,
          (
            variable l ∷ pending,
            counted-Seen p lv t trail a pending inv (variable l) _ is unseen ((==_iff _ _).0 at),
            now,
          ),
        )
        | inr other ↦
            let low : level t (variable l) < lv = let h = trail.below in ground arith in
            let high : ltb 1 lv ≡ true = let h = trail.high in ground arith in
            (
              _,
              rw (other, high, is) refl,
              (pending, learnt-Seen p lv t trail a pending inv (variable l) _ is unseen low, now),
            )
      ]

  abbrev pub SeenOf : Analysis → List VariableId → Literal → Analysis → Type 0
  SeenOf a pending l a' =
      (pending' : List VariableId) × Seen lv t a pending a' pending' × IsSeen a' l

  see_literal-Seen :
      (a : Analysis) (pending : List VariableId) (l : Literal)
      → IsPending lv t a pending
      → IsVisited l
      → Returns (see_literal first conflicting lv t l a) (SeenOf a pending l)
  unfolding see_literal
  see_literal-Seen a pending l inv h =
      elim (Bool-cases (not first && (variable l == conflicting))) [
        | inl skip ↦ (a, rw skip refl, (pending, same-Seen lv t a pending inv, inl (ground arith)))
        | inr visit ↦ elim (Bool-cases (contains a.seen (variable l))) [
          | inl known ↦
              (a, rw (visit, known) refl, (pending, same-Seen lv t a pending inv, inr known))
          | inr unseen ↦ elim h [
            | inl own ↦ absurd (ground arith)
            | inr f ↦
                let (a', run, (pending', s, now)) = see_new a pending l inv f unseen in
                (a', rw (visit, unseen) run, (pending', s, inr now))
          ]
        ]
      ]

  -- What visiting a list of literals leaves.
  abbrev pub AllSeenOf : Analysis → List VariableId → List Literal → Analysis → Type 0
  AllSeenOf a pending ls a' =
      (pending' : List VariableId) × Seen lv t a pending a' pending'
      × ((l : Literal) → Elem l ls → IsSeen a' l)

  trans-Seen :
      (a b c : Analysis) (x y z : List VariableId)
      → Seen lv t a x b y
      → Seen lv t b y c z
      → Seen lv t a x c z
  trans-Seen a b c x y z f g = record {
    inv = g.inv;
    grown_seen = λ v h. g.grown_seen v (f.grown_seen v h);
    grown_pending = λ v h. g.grown_pending v (f.grown_pending v h);
    grown_learnt = λ l h. g.grown_learnt l (f.grown_learnt l h);
  }

  pub see_literals-Seen :
      (ls : List Literal) (a : Analysis) (pending : List VariableId)
      → IsPending lv t a pending
      → All IsVisited ls
      → Returns (see_literals first conflicting lv t ls a) (AllSeenOf a pending ls)
  unfolding see_literals
  see_literals-Seen [] a pending inv h =
      (a, refl, (pending, same-Seen lv t a pending inv, λ l m. elim m [ ]))
  see_literals-Seen (l ∷ ls) a pending inv h =
      let (b, run, (x, s, now)) = see_literal-Seen a pending l inv h.0 in
      let (c, run', (y, s', all)) = see_literals-Seen ls b x s.inv h.1 in
      (
        c,
        rw run run',
        (
          y,
          trans-Seen a b c pending x y s s',
          λ k m. elim m [
            | inl e ↦
                subst (IsSeen c) (sym e)
                  (elim now [ inl own ↦ inl own | inr q ↦ inr (s'.grown_seen _ q) ])
            | inr m ↦ all k m
          ],
        ),
      )
