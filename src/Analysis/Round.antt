-- ===== src/Analysis/Round.antt =====
-- A round of the outer loop of `analyze` in src/solver/mod.rs resolves with one clause: what follows
-- from the problem's clauses stays, on fewer decisions.
use resolvo.Prelude.{
  ℕ, suc, ◌-◌, ◌<◌, ◌≡◌, ◌⊎◌, refl, sym, ap, ◌∙◌, subst, inl, inr, Bool, true, false, not, none,
  some, List, [], ◌∷◌, ◌++◌, Elem-append, Elem-append_left, get_elem?-less, Elem-append_right,
  arith, ok, Returns, Elem, All, All-map, All-Elem, any-Elem, get_elem?, length, Bool-cases, ◌==◌,
  ==_iff,
}
use resolvo.DecisionMap.{VariableId}
use resolvo.DecisionTracker.{ClauseId, Decision, DecisionTracker, assigned_value, level}
use resolvo.DecisionTracker.Invariant
use resolvo.Literal.{Literal, new, eval, variable, satisfying_value}
use resolvo.Literal.Laws.{variable-new, negate-new}
use resolvo.Clause.{Clause, literals}
use resolvo.Propagation.{Problem}
use resolvo.Propagation.Models.{holds, HoldsAll, assigned-eval, not-value}
use resolvo.Propagation.Bounds.{without, Elem-without_ne}
use resolvo.Analysis.{Analysis, contains, resolve_clause}
use resolvo.Analysis.Trail.{IsOwn, IsReason}
use resolvo.Analysis.Pending.{IsConflicting, IsPending, assigned_value-false}
use resolvo.Analysis.See.{Seen, IsVisited, IsSeen, see_literals-Seen}
use resolvo.Analysis.Undo.{UndoneTo, undo_to_seen-UndoneTo}

-- A cause that is still counted, or a learnt literal, is not as the trail has it.
abbrev pub Differs : (VariableId → Bool) → DecisionTracker → Analysis → List VariableId → Type 0
Differs σ t a pending =
    ((v : VariableId) × (b : Bool) × Elem v pending × (assigned_value t v ≡ some b) × (σ v ≡ not b))
    ⊎ ((l : Literal) × Elem l a.learnt × (holds σ l ≡ true))

-- The clause to resolve with. All its literals are false, but the one for the decision that was taken
-- back.
pub record IsCause (p : Problem) (first : Bool) (d : Decision) (t : DecisionTracker)
    (ls : List Literal) : Type 0 where
  pub clause : Clause
  pub has_clause : get_elem? p.kinds d.derived_from ≡ some clause
  pub has_literals : literals p.tables clause ≡ ok ls
  pub visited : All (λ l. ((first ≡ false) × IsOwn d l) ⊎ (eval l t.map ≡ some false)) ls

-- The state before a round.
pub record IsResolving (p : Problem) (lv : ℕ) (first : Bool) (d : Decision) (t : DecisionTracker)
    (a : Analysis) (pending : List VariableId) (ls : List Literal) (why : List ClauseId)
    : Type 0 where
  pub conflicting : IsConflicting p lv t
  pub inv : IsPending lv t a pending
  pub cause : IsCause p first d t ls
  pub known : (id : ClauseId) → Elem id why → id < length p.kinds
  pub gone : (first ≡ true) ⊎ (assigned_value t d.variable ≡ none)
  pub left :
      ((l : Literal) × Elem l ls × (eval l t.map ≡ some false) × (level t (variable l) ≡ lv))
      ⊎ ((v : VariableId) × Elem v pending)
  pub explained :
      (σ : VariableId → Bool)
      → HoldsAll p σ why
      → ((first ≡ true) ⊎ (σ d.variable ≡ not d.value)) ⊎ Differs σ t a pending

satisfying_value-new : (v : VariableId) (b : Bool) → satisfying_value (new v b) ≡ not b
unfolding satisfying_value
satisfying_value-new v b = rw (negate-new v b)

pub holds-new :
    (σ : VariableId → Bool) (v : VariableId) (b : Bool) → σ v ≡ not b → holds σ (new v b) ≡ true
holds-new σ v b h = rw (variable-new v b, satisfying_value-new v b) (ground arith)

-- A literal holds when its variable has the satisfying value.
pub holds-value :
    (σ : VariableId → Bool) (l : Literal) → holds σ l ≡ true → σ (variable l) ≡ satisfying_value l
holds-value σ l h = ground arith

pub falsified-differs :
    (σ : VariableId → Bool) (t : DecisionTracker) (l : Literal)
    → eval l t.map ≡ some false
    → holds σ l ≡ true
    → (b : Bool) × (assigned_value t (variable l) ≡ some b) × (σ (variable l) ≡ not b)
falsified-differs σ t l f h = (
  not (satisfying_value l),
  assigned_value-false t l f,
  let e = holds-value σ l h in ground arith,
)

module _ (p : Problem) (lv : ℕ) (first : Bool) (d : Decision) (t : DecisionTracker) (a : Analysis)
    (pending : List VariableId) (ls : List Literal) (why : List ClauseId)
    (res : IsResolving p lv first d t a pending ls why) (a' : Analysis) (pending' : List VariableId)
    (s : Seen lv t a pending a' pending')
    (all : (l : Literal) → Elem l ls → IsSeen p lv t res.conflicting first d.variable a' l) where
  -- A literal that is false was not skipped.
  false-seen :
      (l : Literal) → Elem l ls → eval l t.map ≡ some false → contains a'.seen (variable l) ≡ true
  false-seen l m f = elim (all l m) [
    | inr seen ↦ seen
    | inl (later, own) ↦
        let is = assigned_value-false t l f in
        absurd (elim res.gone [
          | inl now ↦ cc
          | inr gone ↦ let h = subst (λ v. assigned_value t v ≡ none) (sym own) gone in cc
        ])
  ]

  some_pending : (v : VariableId) × Elem v pending'
  some_pending = elim res.left [
    | inr (v, m) ↦ (v, s.grown_pending v m)
    | inl (l, m, f, at) ↦
        elim (s.inv.covered (variable l) _ (false-seen l m f) (assigned_value-false t l f)) [
          | inl m ↦ (variable l, m)
          | inr (_, low) ↦ absurd (omega arith)
        ]
  ]

  grown-Differs : (σ : VariableId → Bool) → Differs σ t a pending → Differs σ t a' pending'
  grown-Differs σ (inl (v, b, m, is, n)) = inl (v, b, s.grown_pending v m, is, n)
  grown-Differs σ (inr (l, m, h)) = inr (l, s.grown_learnt l m, h)

  false-Differs :
      (σ : VariableId → Bool) (l : Literal)
      → Elem l ls
      → eval l t.map ≡ some false
      → holds σ l ≡ true
      → Differs σ t a' pending'
  false-Differs σ l m f h =
      let (b, is, n) = falsified-differs σ t l f h in
      elim (s.inv.covered (variable l) b (false-seen l m f) is) [
        | inl m ↦ inl (variable l, b, m, is, n)
        | inr (m, _) ↦ inr (new (variable l) b, m, holds-new σ (variable l) b n)
      ]

  seen-Differs :
      (σ : VariableId → Bool) → HoldsAll p σ (why ++ d.derived_from ∷ []) → Differs σ t a' pending'
  seen-Differs σ model =
      let c = res.cause in
      elim (res.explained σ (λ id m. model id (Elem-append_left id why (d.derived_from ∷ []) m))) [
        | inr old ↦ grown-Differs σ old
        | inl other ↦
            let (l, m, h) = any-Elem (holds σ) ls (
              model d.derived_from
                (Elem-append_right d.derived_from why (d.derived_from ∷ []) (inl refl)) c.clause ls
                c.has_clause c.has_literals) in
            elim (All-Elem _ l ls c.visited m) [
              | inr f ↦ false-Differs σ l m f h
              | inl (later, own) ↦ absurd (elim other [
                | inl now ↦ cc
                | inr n ↦
                    let e = holds-value σ l h in
                    let e' : σ d.variable ≡ d.value =
                      subst (λ v. σ v ≡ d.value) own.0 (e ∙ own.1) in
                    ground arith
              ])
            ]
      ]

-- What a round leaves of the state `IsResolving`, `lv` still being the level when a cause is left.
pub record Round (p : Problem) (lv : ℕ) (t : DecisionTracker) (d : Decision) (k : ℕ)
    (t' : DecisionTracker) (a' : Analysis) (pending : List VariableId) (why : List ClauseId)
    : Type 0 where
  pub conflicting : IsConflicting p lv t'
  pub inv : IsPending lv t' a' pending
  pub value : assigned_value t d.variable ≡ some d.value
  pub at_level : level t d.variable ≡ lv
  pub gone : assigned_value t' d.variable ≡ none
  pub kept :
      (v : VariableId) (b : Bool)
      → assigned_value t' v ≡ some b
      → (assigned_value t v ≡ some b) × (level t' v ≡ level t v)
  pub same_below :
      (v : VariableId) (b : Bool)
      → assigned_value t v ≡ some b
      → level t v < lv
      → (assigned_value t' v ≡ some b) × (level t' v ≡ level t v)
  pub shorter : length t'.stack < length t.stack
  pub next :
      (v : VariableId) → Elem v pending → (k ≡ lv) × ((ls : List Literal) × IsCause p false d t' ls)
  pub known : (id : ClauseId) → Elem id why → id < length p.kinds
  pub explained :
      (σ : VariableId → Bool)
      → HoldsAll p σ why
      → (σ d.variable ≡ not d.value) ⊎ Differs σ t' a' pending

reason-IsCause :
    (p : Problem) (d : Decision) (t : DecisionTracker)
    → Invariant.IsValid t
    → (reason : IsReason p d t.stack) → IsCause p false d t reason.ls
reason-IsCause p d t valid reason = record {
  clause = reason.clause;
  has_clause = reason.has_clause;
  has_literals = reason.has_literals;
  visited =
      All-map _ (λ l. ((false ≡ false) × IsOwn d l) ⊎ (eval l t.map ≡ some false)) reason.ls
        (λ l h. elim h [
          | inl own ↦ inl (refl, own)
          | inr f ↦ inr (
              assigned-eval l t false
                (valid.agrees (variable l) ∙ f ∙ ap some (not-value (satisfying_value l))))
        ])
        reason.forces;
}

module _ (p : Problem) (lv : ℕ) (t : DecisionTracker) (a : Analysis) (pending : List VariableId)
    (r : (Decision × ℕ) × DecisionTracker) (u : UndoneTo p lv t a pending r) where
  abbrev rest : List VariableId
  rest = without r.0.0.variable pending

  -- The cause that was taken back is the one that differs, or another one does.
  undone-Differs :
      (σ : VariableId → Bool)
      → Differs σ t a pending
      → (σ r.0.0.variable ≡ not r.0.0.value)
        ⊎ Differs σ r.1 (record a { causes_at_current_level = a.causes_at_current_level - 1 }) rest
  undone-Differs σ (inr old) = inr (inr old)
  undone-Differs σ (inl (v, b, m, is, n)) = elim (Bool-cases (r.0.0.variable == v)) [
    | inl mine ↦
        let e = (==_iff r.0.0.variable v).0 mine in
        let is' : assigned_value t r.0.0.variable ≡ some b =
          subst (λ x. assigned_value t x ≡ some b) (sym e) is in
        let same : r.0.0.value ≡ b = let h = u.value in cc in inl (ap σ e ∙ n ∙ ap not (sym same))
    | inr other ↦
        let m' =
          Elem-without_ne r.0.0.variable v pending m
            (λ e. let z = (==_iff r.0.0.variable v).1 e in cc) in
        let (_, _, (c, is')) = u.inv.waiting v m' in
        let (old, _) = u.kept v c is' in
        let same : b ≡ c = cc in inr (inl (v, c, m', is', n ∙ ap not same))
  ]

  undone-Round :
      (why : List ClauseId)
      → ((id : ClauseId) → Elem id why → id < length p.kinds)
      → ((σ : VariableId → Bool) → HoldsAll p σ why → Differs σ t a pending)
      → Round p lv t r.0.0 r.0.1 r.1
          (record a { causes_at_current_level = a.causes_at_current_level - 1 })
          rest
          why
  undone-Round why known explained = record {
    known = known;
    conflicting = u.conflicting;
    inv = u.inv;
    value = u.value;
    at_level = u.at_level;
    gone = u.gone;
    kept = u.kept;
    same_below = u.same_below;
    shorter = u.shorter;
    next = λ v m.
        let (at, reason) = u.next v m in
        (at, (reason.ls, reason-IsCause p r.0.0 r.1 u.conflicting.trail reason));
    explained = λ σ model. undone-Differs σ (explained σ model);
  }

pub resolve_clause-Round :
    (p : Problem) (lv : ℕ) (first : Bool) (d : Decision) (t : DecisionTracker) (a : Analysis)
    (pending : List VariableId) (ls : List Literal) (why : List ClauseId)
    → IsResolving p lv first d t a pending ls why
    → Returns (resolve_clause p first d.variable lv d.derived_from t a) (λ r.
      (rest : List VariableId) × Round p lv t r.1.0 r.1.1 r.2 r.0 rest (why ++ d.derived_from ∷ []))
unfolding resolve_clause
resolve_clause-Round p lv first d t a pending ls why res =
    let c = res.cause in
    let visited : All (IsVisited p lv t res.conflicting first d.variable) ls =
      All-map _ (IsVisited p lv t res.conflicting first d.variable) ls
        (λ l h. elim h [ inl (e, own) ↦ inl (e, own.0) | inr f ↦ inr f ]) c.visited in
    let (a', run, (pending', s, all)) =
      see_literals-Seen p lv t res.conflicting first d.variable ls a pending res.inv visited in
    let (v, m) = some_pending p lv first d t a pending ls why res a' pending' s all in
    let (r, run', u) =
      undo_to_seen-UndoneTo (suc (length t.stack)) p lv t a' pending' v res.conflicting s.inv m
        (omega arith) in
    (
      (record a' { causes_at_current_level = a'.causes_at_current_level - 1 }, r.0, r.1),
      rw (c.has_clause, c.has_literals, run, run') refl,
      (
        rest p lv t a' pending' r u,
        undone-Round p lv t a' pending' r u (why ++ d.derived_from ∷ [])
            (λ id m. elim (Elem-append id why (d.derived_from ∷ []) m) [
              | inl old ↦ res.known id old
              | inr (inl e) ↦
                  subst (λ x. x < length p.kinds) (sym e)
                    (get_elem?-less p.kinds d.derived_from c.clause c.has_clause)
              | inr (inr none_left) ↦ elim none_left [ ]
            ])
            (seen-Differs p lv first d t a pending ls why res a' pending' s all),
      ),
    )
