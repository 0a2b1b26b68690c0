-- ===== src/Gates/Forced.antt =====
-- About `force_stuck_gates` of src/solver/mod.rs: the trail before and after a gate is visited.
use resolvo.Prelude.{
  ℕ, ◌+◌, ◌≡◌, ◌≢◌, ◌⊎◌, inl, inr, ap, ◌++◌, ◌||◌, ltb, length, length-append, find-Elem,
  Elem-append, ◌==◌, refl, sym, ◌∙◌, subst, Bool, true, false, Option, none, some, List, [], ◌∷◌,
  arith, Returns, Elem, All, All-map, find-All, is_value, ==_refl, ==_false, if◌then◌else◌,
  All-Elem, ◌≤◌,
}
use resolvo.DecisionMap.{VariableId}
use resolvo.DecisionTracker.{ClauseId, Decision, DecisionTracker, assigned_value, level}
use resolvo.DecisionTracker.Invariant
use resolvo.DecisionTracker.Invariant.{last_level}
use mathlib.Core.List.{append_assoc}
use resolvo.Propagation.Walk.{is_value-eq}
use resolvo.DecisionTracker.Add.{Adds, try_add_decision-Adds}
use resolvo.Propagation.Models.{Extends}
use resolvo.Propagation.Units.{IsOpen}
use resolvo.Gates.{installed_requirer, force_gate, visit_gate, force_stuck_gates}

-- A gate with an installed requirer is true, where it was not false already.
abbrev pub IsForced :
    DecisionTracker → DecisionTracker → VariableId × List (VariableId × ClauseId) → Type 0
IsForced t t' g =
    (r : VariableId × ClauseId)
    → Elem r g.1
    → assigned_value t r.0 ≡ some true
    → (assigned_value t' g.0 ≡ some true) ⊎ (assigned_value t g.0 ≡ some false)

-- The decision makes one of the gates true, for the clause of a requirer that is installed.
pub record IsRequired (gates : List (VariableId × List (VariableId × ClauseId)))
    (t : DecisionTracker) (d : Decision) : Type 0 where
  pub value : d.value ≡ true
  pub requirers : List (VariableId × ClauseId)
  pub gate : Elem (d.variable, requirers) gates
  pub requirer : VariableId
  pub clause : Elem (requirer, d.derived_from) requirers
  pub installed : assigned_value t requirer ≡ some true

-- What is decided on a trail, the flag that tells whether anything was, and the trail after it.
pub record Forced (lv : ℕ) (gates : List (VariableId × List (VariableId × ClauseId)))
    (forced_any : Bool) (t : DecisionTracker) (r : Bool × DecisionTracker) : Type 0 where
  pub ready : IsOpen lv r.1
  pub extends : Extends t r.1
  pub only_true :
      (x : VariableId) → assigned_value r.1 x ≡ some false → assigned_value t x ≡ some false
  pub forced : All (IsForced t r.1) gates
  pub new : List Decision
  pub stack : r.1.stack ≡ new ++ t.stack
  pub required : (d : Decision) → Elem d new → IsRequired gates r.1 d
  pub flag : r.0 ≡ forced_any || ltb 0 (length new)

none_installed :
    (t : DecisionTracker) (requirers : List (VariableId × ClauseId)) (r : VariableId × ClauseId)
    → installed_requirer t requirers ≡ none
    → Elem r requirers
    → assigned_value t r.0 ≢ some true
unfolding installed_requirer
none_installed t requirers r h m e =
    let all = find-All (λ r. is_value (assigned_value t r.0) true) requirers h in
    let miss : is_value (assigned_value t r.0) true ≡ false = All-Elem _ r requirers all m in
    ground arith

is_installed :
    (t : DecisionTracker) (requirers : List (VariableId × ClauseId)) (r : VariableId × ClauseId)
    → installed_requirer t requirers ≡ some r
    → Elem r requirers × (assigned_value t r.0 ≡ some true)
unfolding installed_requirer
is_installed t requirers r h =
    let (m, e) = find-Elem (λ r. is_value (assigned_value t r.0) true) requirers r h in
    (m, is_value-eq (assigned_value t r.0) e)

-- Nothing is decided where the gate has a value, or no requirer is installed.
skipped-Forced :
    (lv : ℕ) (t : DecisionTracker) (g : VariableId × List (VariableId × ClauseId))
    → IsOpen lv t
    → IsForced t t g
    → Forced lv (g ∷ []) false t (false, t)
skipped-Forced lv t g ready is = record {
  ready = ready;
  extends = λ v b e. e;
  only_true = λ x e. e;
  forced = (is, tt);
  new = [];
  stack = refl;
  required = λ d m. elim m [ ];
  flag = refl;
}

module _ (lv : ℕ) (t : DecisionTracker) (ready : IsOpen lv t) (gate : VariableId)
    (requirers : List (VariableId × ClauseId)) where
  decided-Forced :
      (r : VariableId × ClauseId) (t' : DecisionTracker)
      → installed_requirer t requirers ≡ some r
      → assigned_value t gate ≡ none
      → t'.stack ≡ record { variable = gate; value = true; derived_from = r.1 } ∷ t.stack
      → ((v : VariableId)
          → assigned_value t' v ≡ (if gate == v then some true else assigned_value t v))
      → ((v : VariableId) → level t' v ≡ (if gate == v then lv else level t v))
      → Invariant.IsValid t'
      → Forced lv ((gate, requirers) ∷ []) false t (true, t')
  decided-Forced r t' found free stack values levels valid =
      let (m, on) = is_installed t requirers r found in
      let now : assigned_value t' gate ≡ some true = values gate ∙ rw (==_refl gate) refl in
      let extends : Extends t t' = λ v b e.
        values v
        ∙ rw (==_false gate v (λ q. let z = subst (λ x. assigned_value t x ≡ none) q free in cc))
            e in
      record {
        ready = record {
          trail = valid;
          fits = ready.fits;
          below =
              let e : level t' gate ≡ lv = levels gate ∙ rw (==_refl gate) refl in
              subst (λ s. last_level (level t') s ≤ lv) (sym stack) (omega (arith, e));
        };
        extends = extends;
        only_true = λ x e. ground (arith, values x);
        forced = ((λ k m on. inl now), tt);
        new = record { variable = gate; value = true; derived_from = r.1 } ∷ [];
        stack = stack;
        required = λ d own. elim own [
          | inl e ↦ subst (IsRequired ((gate, requirers) ∷ []) t') (sym e) (record {
            value = refl;
            requirers = requirers;
            gate = inl refl;
            requirer = r.0;
            clause = m;
            installed = extends r.0 true on;
          })
          | inr none_left ↦ elim none_left [ ]
        ];
        flag = refl;
      }

  force_gate-Forced :
      (o : Option (VariableId × ClauseId))
      → assigned_value t gate ≡ none
      → installed_requirer t requirers ≡ o
      → Returns (force_gate gate o lv t) (Forced lv ((gate, requirers) ∷ []) false t)
  unfolding force_gate
  force_gate-Forced none free h = (
    (false, t),
    refl,
    skipped-Forced lv t (gate, requirers) ready
        (λ r m on. absurd (none_installed t requirers r h m on)),
  )
  force_gate-Forced (some r) free h =
      elim (try_add_decision-Adds t (record { variable = gate; value = true; derived_from = r.1 })
        lv ready.trail ready.fits ready.below) [
          | Adds.known run is ↦ cc
          | Adds.contrary run is ↦ cc
          | Adds.decided t' run undecided stack values levels valid ↦
              ((true, t'), rw run refl, decided-Forced r t' h free stack values levels valid)
        ]

  visit_gate-Forced :
      (o : Option Bool)
      → assigned_value t gate ≡ o
      → Returns (visit_gate o gate requirers lv t) (Forced lv ((gate, requirers) ∷ []) false t)
  unfolding visit_gate
  visit_gate-Forced (some true) is =
      ((false, t), refl, skipped-Forced lv t (gate, requirers) ready (λ r m on. inl is))
  visit_gate-Forced (some false) is =
      ((false, t), refl, skipped-Forced lv t (gate, requirers) ready (λ r m on. inr is))
  visit_gate-Forced none free = force_gate-Forced (installed_requirer t requirers) free refl

flag_joined :
    (any_before now after : Bool) (late early both : ℕ)
    → both ≡ late + early
    → now ≡ ltb 0 early
    → after ≡ (if now then true else any_before) || ltb 0 late
    → after ≡ any_before || ltb 0 both
flag_joined any_before now after late early both n f h = ground arith

-- The first gate, and then the others.
Forced-then :
    (lv : ℕ) (g : VariableId × List (VariableId × ClauseId))
    (gates : List (VariableId × List (VariableId × ClauseId))) (forced_any : Bool)
    (t : DecisionTracker) (r r' : Bool × DecisionTracker)
    → Forced lv (g ∷ []) false t r
    → Forced lv gates (if r.0 then true else forced_any) r.1 r'
    → Forced lv (g ∷ gates) forced_any t r'
Forced-then lv g gates forced_any t r r' a b = record {
  ready = b.ready;
  extends = λ x v e. b.extends x v (a.extends x v e);
  only_true = λ x e. a.only_true x (b.only_true x e);
  forced = (
    (λ k m on. elim (a.forced.0 k m on) [ inl e ↦ inl (b.extends g.0 true e) | inr e ↦ inr e ]),
    All-map (IsForced r.1 r'.1) (IsForced t r'.1) gates
        (λ q h k m on. elim (h k m (a.extends k.0 true on)) [
          | inl e ↦ inl e
          | inr e ↦ inr (a.only_true q.0 e)
        ])
        b.forced,
  );
  new = b.new ++ a.new;
  stack = b.stack ∙ ap (λ s. b.new ++ s) a.stack ∙ sym (append_assoc b.new a.new t.stack);
  required = λ d m. elim (Elem-append d b.new a.new m) [
    | inl late ↦
        let q = b.required d late in
        record {
          value = q.value;
          requirers = q.requirers;
          gate = inr q.gate;
          requirer = q.requirer;
          clause = q.clause;
          installed = q.installed;
        }
    | inr early ↦
        let q = a.required d early in
        record {
          value = q.value;
          requirers = q.requirers;
          gate = elim q.gate [ inl e ↦ inl e | inr none_left ↦ elim none_left [ ] ];
          requirer = q.requirer;
          clause = q.clause;
          installed = b.extends q.requirer true q.installed;
        }
  ];
  flag =
      let n = length-append b.new a.new in
      let f = a.flag in
      let h = b.flag in
      flag_joined forced_any r.0 r'.0 (length b.new) (length a.new) (length (b.new ++ a.new)) n f h;
}

-- On an open trail, forcing the gates does not panic. Each gate that had an installed requirer is
-- true afterwards, unless it was false before. The trail is the old one and new decisions in front,
-- each of which makes one of the gates true, with the clause of a requirer that is installed as the
-- reason; the flag tells whether there are any, or was set already. The trail is open again.
pub force_stuck_gates-IsForced :
    (gates : List (VariableId × List (VariableId × ClauseId))) (lv : ℕ) (forced_any : Bool)
    (t : DecisionTracker)
    → IsOpen lv t
    → Returns (force_stuck_gates gates lv forced_any t) (Forced lv gates forced_any t)
unfolding force_stuck_gates
force_stuck_gates-IsForced [] lv forced_any t ready = (
  (forced_any, t),
  refl,
  record {
    ready = ready;
    extends = λ v b e. e;
    only_true = λ x e. e;
    forced = tt;
    new = [];
    stack = refl;
    required = λ d m. elim m [ ];
    flag = ground arith;
  },
)
force_stuck_gates-IsForced ((gate, requirers) ∷ gates) lv forced_any t ready =
    let (r, run, v) = visit_gate-Forced lv t ready gate requirers (assigned_value t gate) refl in
    let (r', run', done) =
      force_stuck_gates-IsForced gates lv (if r.0 then true else forced_any) r.1 v.ready in
    (r', rw run run', Forced-then lv (gate, requirers) gates forced_any t r r' v done)
