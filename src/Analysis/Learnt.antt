-- ===== src/Analysis/Learnt.antt =====
-- The learnt clause of `analyze` in src/solver/mod.rs follows from the clauses it was resolved from.
use resolvo.Prelude.{
  ℕ, zero, suc, ◌≤◌, ◌≡◌, ◌⊎◌, refl, sym, ap, ◌∙◌, subst, inl, inr, Bool, true, false, some, List,
  [], ◌∷◌, ◌++◌, arith, ok, ◌>>=◌, Returns, Elem, Elem-append_left, Elem-append_right, any,
  Elem-any, get_elem?, get_elem?-Elem, set,
}
use resolvo.DecisionMap.{VariableId}
use resolvo.DecisionTracker.{DecisionTracker, level}
use resolvo.Literal.{Literal, new, eval, variable}
use resolvo.Propagation.{Problem}
use resolvo.Propagation.Models.{holds, HoldsAll}
use resolvo.Analysis.{Resolved, swap_first, learnt_clause}
use resolvo.Analysis.Round.{holds-new}
use resolvo.Analysis.Loop.{IsResolved}

module _ {A : Type 0} where
  set-Elem : (xs : List A) (i : ℕ) (x k : A) → Elem k (set xs i x) → (k ≡ x) ⊎ Elem k xs
  set-Elem [] i x k m = elim m [ ]
  set-Elem (y ∷ ys) zero x k (inl e) = inl e
  set-Elem (y ∷ ys) zero x k (inr m) = inr (inr m)
  set-Elem (y ∷ ys) (suc i) x k (inl e) = inr (inl e)
  set-Elem (y ∷ ys) (suc i) x k (inr m) = elim (set-Elem ys i x k m) [
    | inl e ↦ inl e
    | inr m ↦ inr (inr m)
  ]

  Elem-set :
      (xs : List A) (i : ℕ) (x y k : A)
      → get_elem? xs i ≡ some y
      → (k ≡ x) ⊎ Elem k xs
      → (k ≡ y) ⊎ Elem k (set xs i x)
  Elem-set [] i x y k h m = cc
  Elem-set (z ∷ zs) zero x y k h (inl e) = inr (inl e)
  Elem-set (z ∷ zs) zero x y k h (inr (inl e)) = inl (e ∙ ground arith)
  Elem-set (z ∷ zs) zero x y k h (inr (inr m)) = inr (inr m)
  Elem-set (z ∷ zs) (suc i) x y k h (inl e) = elim (Elem-set zs i x y k h (inl e)) [
    | inl e ↦ inl e
    | inr m ↦ inr (inr m)
  ]
  Elem-set (z ∷ zs) (suc i) x y k h (inr (inl e)) = inr (inl e)
  Elem-set (z ∷ zs) (suc i) x y k h (inr (inr m)) = elim (Elem-set zs i x y k h (inr m)) [
    | inl e ↦ inl e
    | inr m ↦ inr (inr m)
  ]

-- The literals are the same ones, and `l` comes first.
pub record Swapped (xs : List Literal) (l : Literal) (ys : List Literal) : Type 0 where
  pub others : List Literal
  pub first : ys ≡ l ∷ others
  pub from : (k : Literal) → Elem k ys → Elem k xs
  pub into : (k : Literal) → Elem k xs → Elem k ys

pub swap_first-Swapped :
    (xs : List Literal) (idx : ℕ) (l : Literal)
    → get_elem? xs idx ≡ some l
    → Returns (swap_first xs idx) (Swapped xs l)
unfolding swap_first
swap_first-Swapped [] idx l h = cc
swap_first-Swapped (x ∷ xs) zero l h = (
  x ∷ xs,
  refl,
  record {
    others = xs;
    first = let e : x ≡ l = ground arith in ap (λ y. y ∷ xs) e;
    from = λ k m. m;
    into = λ k m. m;
  },
)
swap_first-Swapped (x ∷ xs) (suc i) l h = (
  l ∷ set xs i x,
  let h' : get_elem? xs i ≡ some l = h in rw h' refl,
  record {
    others = set xs i x;
    first = refl;
    from = λ k m. elim m [
      | inl e ↦ inr (subst (λ y. Elem y xs) (sym e) (get_elem?-Elem xs i l h))
      | inr m ↦ set-Elem xs i x k m
    ];
    into = λ k m. Elem-set xs i x l k h m;
  },
)

-- The clause that is learnt from the trail `t` of the loop's end: the literal of the last decision
-- comes last, the others are false and of levels up to `back_track_to`, with one of that level in front.
pub record IsLearnt (p : Problem) (r : Resolved) (ls : List Literal) : Type 0 where
  pub others : List Literal
  pub shape : ls ≡ others ++ new r.last.variable r.last.value ∷ []
  pub false_others :
      (l : Literal)
      → Elem l others
      → (eval l r.tracker.map ≡ some false)
        × (level r.tracker (variable l) ≤ r.analysis.back_track_to)
  pub front :
      ((others ≡ []) × (r.analysis.back_track_to ≡ 0))
      ⊎ ((l : Literal) × (rest : List Literal) × (others ≡ l ∷ rest)
          × (level r.tracker (variable l) ≡ r.analysis.back_track_to))
  pub follows : (σ : VariableId → Bool) → HoldsAll p σ r.learnt_why → any (holds σ) ls ≡ true

module _ (p : Problem) (lv : ℕ) (t : DecisionTracker) (r : Resolved)
    (res : IsResolved p lv t r) where
  abbrev asserting : Literal
  asserting = new r.last.variable r.last.value

  follows_of :
      (others : List Literal)
      → ((k : Literal) → Elem k r.analysis.learnt → Elem k others)
      → (σ : VariableId → Bool) → HoldsAll p σ r.learnt_why
      → any (holds σ) (others ++ asserting ∷ []) ≡ true
  follows_of others into σ model = elim (res.explained σ model) [
    | inl n ↦
        Elem-any (holds σ) asserting (others ++ asserting ∷ [])
          (Elem-append_right asserting others (asserting ∷ []) (inl refl))
          (holds-new σ r.last.variable r.last.value n)
    | inr (l, m, h) ↦
        Elem-any (holds σ) l (others ++ asserting ∷ [])
          (Elem-append_left l others (asserting ∷ []) (into l m)) h
  ]

  -- The swap stays in bounds, and the clause that is left follows from the clauses resolved.
  pub learnt_clause-IsLearnt : Returns (learnt_clause r) (IsLearnt p r)
  unfolding learnt_clause swap_first
  learnt_clause-IsLearnt = elim res.index [
    | inl (empty, _, bottom) ↦ (
      [] ++ asserting ∷ [],
      rw empty refl,
      record {
        others = [];
        shape = refl;
        false_others = λ l m. elim m [ ];
        front = inl (refl, bottom);
        follows = follows_of [] (λ k m. subst (Elem k) empty m);
      },
    )
    | inr (l, g, at) ↦
        let (ys, run, s) = swap_first-Swapped r.analysis.learnt r.analysis.highest_level_idx l g in
        (
          ys ++ asserting ∷ [],
          ap (λ o. o >>= λ ls. ok (ls ++ asserting ∷ [])) run,
          record {
            others = ys;
            shape = refl;
            false_others = λ l m. res.learnt l (s.from l m);
            front = inr (l, s.others, s.first, at);
            follows = follows_of ys s.into;
          },
        )
  ]
