-- ===== src/DecisionTracker/Undo.antt =====
-- Backtracking in src/solver/decision_tracker.rs: `undo_last` and `undo_until`.
use resolvo.Prelude.{
  ℕ, zero, suc, ◌≤◌, ◌<◌, ◌≡◌, refl, sym, ap, ◌∙◌, inl, inr, Bool, true, false, none, some, List,
  [], ◌∷◌, arith, leb, ◌==◌, if◌then◌else◌, Bool-cases, Option-cases, length, ok, Returns, min,
  ==_false,
}
use resolvo.DecisionMap
use resolvo.DecisionMap.{VariableId, DecisionMap}
use resolvo.DecisionMap.Laws.{reset_lem, level_of_none}
use resolvo.DecisionTracker.{
  Decision, DecisionTracker, assigned_value, level, undo_last, above_level, undo_loop, undo_until,
}
use resolvo.DecisionTracker.Invariant.{
  stack_value, Distinct, Levelled, last_level, IsValid, Levelled-frame,
}

-- The state without the decision `d`, above which `ds` was the stack.
abbrev pub popped : DecisionTracker → Decision → List Decision → DecisionTracker
popped t d ds = record {
  map = DecisionMap.reset t.map d.variable;
  stack = ds;
  propagate_index = length ds;
  sync_floor = min t.sync_floor (length ds);
}

module _ (t : DecisionTracker) (d : Decision) (ds : List Decision) (top : t.stack ≡ d ∷ ds)
    (valid : IsValid t) where
  assigned_value-popped :
      (v : VariableId)
      → assigned_value (popped t d ds) v ≡ (if d.variable == v then none else assigned_value t v)
  unfolding assigned_value
  assigned_value-popped v = (reset_lem t.map d.variable v).0

  level-popped :
      (v : VariableId) → level (popped t d ds) v ≡ (if d.variable == v then 0 else level t v)
  unfolding level
  level-popped v = (reset_lem t.map d.variable v).1

  Distinct-at : Distinct (d ∷ ds)
  Distinct-at = rw top at valid.distinct

  Levelled-at : Levelled (level t) (d ∷ ds) (level t d.variable)
  unfolding level
  Levelled-at = rw top at valid.levelled

  agrees_at : (v : VariableId) → assigned_value t v ≡ stack_value (d ∷ ds) v
  unfolding assigned_value
  agrees_at v = rw top at (valid.agrees v)

  level_kept :
      (v : VariableId) (b : Bool) → stack_value ds v ≡ some b → level t v ≡ level (popped t d ds) v
  level_kept v b s = ground (arith, level-popped v, Distinct-at.0)

  Levelled-popped : (top : ℕ) → Levelled (level t) ds top → Levelled (level (popped t d ds)) ds top
  Levelled-popped top h =
      Levelled-frame (level t) (level (popped t d ds)) ds top level_kept Distinct-at.1 h

  retop :
      (f : VariableId → ℕ) (es : List Decision) (a : ℕ)
      → Levelled f es a
      → Levelled f es (last_level f es)
  retop f [] a h = tt
  retop f (e ∷ es) a h = (h.0, omega arith, h.2)

  popped-IsValid : IsValid (popped t d ds)
  popped-IsValid = record {
    propagated = omega arith;
    floored = omega arith;
    agrees = λ v. assigned_value-popped v ∙ ground (arith, agrees_at v, Distinct-at.0);
    distinct = Distinct-at.1;
    levelled =
        retop (level (popped t d ds)) ds (level t d.variable)
          (Levelled-popped (level t d.variable) Levelled-at.2);
  }

undo_last-popped :
    (t : DecisionTracker) (d e : Decision) (ds : List Decision)
    → t.stack ≡ d ∷ e ∷ ds
    → undo_last t ≡ ok ((d, level (popped t d (e ∷ ds)) e.variable), popped t d (e ∷ ds))
unfolding undo_last level
undo_last-popped t d e ds top = rw top

-- What is left after the last of two or more decisions is taken back.
pub record UndoneLast (t : DecisionTracker) (d e : Decision) (ds : List Decision)
    (r : (Decision × ℕ) × DecisionTracker) : Type 0 where
  pub decision : r.0.0 ≡ d
  pub new_level : r.0.1 ≡ level t e.variable
  pub stack : r.1.stack ≡ e ∷ ds
  pub values :
      (v : VariableId)
      → assigned_value r.1 v ≡ (if d.variable == v then none else assigned_value t v)
  pub levels : (v : VariableId) → level r.1 v ≡ (if d.variable == v then 0 else level t v)
  pub valid : IsValid r.1

-- On a valid trail `undo_last` does not panic with two or more decisions on the stack: it returns the last one with
-- the level of the one before it, unassigns its variable alone, and keeps the invariant.
pub undo_last-UndoneLast :
    (t : DecisionTracker) (d e : Decision) (ds : List Decision)
    → IsValid t
    → t.stack ≡ d ∷ e ∷ ds
    → Returns (undo_last t) (UndoneLast t d e ds)
undo_last-UndoneLast t d e ds valid top = (
  ((d, level (popped t d (e ∷ ds)) e.variable), popped t d (e ∷ ds)),
  undo_last-popped t d e ds top,
  record {
    decision = refl;
    new_level = sym (level_kept t d (e ∷ ds) top valid e.variable e.value (ground arith));
    stack = refl;
    values = assigned_value-popped t d (e ∷ ds) top valid;
    levels = level-popped t d (e ∷ ds) top valid;
    valid = popped-IsValid t d (e ∷ ds) top valid;
  },
)

-- The level of the oldest decision.
abbrev pub first_level : (VariableId → ℕ) → List Decision → ℕ
first_level f [] = 0
first_level f (d ∷ []) = f d.variable
first_level f (d ∷ e ∷ ds) = first_level f (e ∷ ds)

pub first_level_frame :
    (f g : VariableId → ℕ) (e : Decision) (ds : List Decision)
    → ((v : VariableId) (b : Bool) → stack_value (e ∷ ds) v ≡ some b → f v ≡ g v)
    → Distinct (e ∷ ds)
    → first_level f (e ∷ ds) ≡ first_level g (e ∷ ds)
first_level_frame f g e [] same u = same e.variable e.value (ground arith)
first_level_frame f g e (d ∷ ds) same u =
    first_level_frame f g d ds (λ v b s. same v b (ground arith)) u.1

-- The state `t'` after every decision above level `l` is taken back.
pub record Undone (t : DecisionTracker) (l : ℕ) (t' : DecisionTracker) : Type 0 where
  pub valid : IsValid t'
  pub values :
      (v : VariableId)
      → assigned_value t' v ≡ (if leb (level t v) l then assigned_value t v else none)
  pub levels : (v : VariableId) → level t' v ≡ (if leb (level t v) l then level t v else 0)
  pub below : last_level (level t') t'.stack ≤ l

level_le :
    (f : VariableId → ℕ) (ds : List Decision) (top : ℕ) (v : VariableId) (b : Bool)
    → Levelled f ds top
    → stack_value ds v ≡ some b
    → f v ≤ top
level_le f [] top v b h s = cc
level_le f (d ∷ ds) top v b h s = elim (Bool-cases (d.variable == v)) [
  | inl e ↦ let same : d.variable ≡ v = ground arith in rw (← same) h.1
  | inr e ↦
      let below : f v ≤ f d.variable = level_le f ds (f d.variable) v b h.2 (ground arith) in
      omega arith
]

undecided_level : (t : DecisionTracker) (v : VariableId) → assigned_value t v ≡ none → level t v ≡ 0
unfolding assigned_value level
undecided_level t v e = level_of_none t.map v e

Undone-self :
    (t : DecisionTracker) (l : ℕ) → IsValid t → last_level (level t) t.stack ≤ l → Undone t l t
Undone-self t l valid le = record {
  valid = valid;
  values = λ v. elim (Option-cases (assigned_value t v)) [
    | inl e ↦ ground arith
    | inr (b, e) ↦ let le' = known v b e in ground arith
  ];
  levels = λ v. elim (Option-cases (assigned_value t v)) [
    | inl e ↦ let zero_level = undecided_level t v e in ground arith
    | inr (b, e) ↦ let le' = known v b e in ground arith
  ];
  below = le;
}
  where
    known : (v : VariableId) (b : Bool) → assigned_value t v ≡ some b → level t v ≤ l
    known v b e =
        let le' =
          level_le (level t) t.stack (last_level (level t) t.stack) v b valid.levelled
            (sym (valid.agrees v) ∙ e) in
        omega arith

-- One round of the loop in front of the rest.
Undone-popped :
    (t : DecisionTracker) (d e : Decision) (ds : List Decision) (l : ℕ)
    (r : (Decision × ℕ) × DecisionTracker) (t' : DecisionTracker)
    → l < level t d.variable
    → UndoneLast t d e ds r
    → Undone r.1 l t'
    → Undone t l t'
Undone-popped t d e ds l r t' above u w = record {
  valid = w.valid;
  values = λ v. w.values v ∙ ground (arith, u.values v, u.levels v);
  levels = λ v. w.levels v ∙ ground (arith, u.values v, u.levels v);
  below = w.below;
}

first_level_popped :
    (t : DecisionTracker) (d e : Decision) (ds : List Decision) (l : ℕ)
    (r : (Decision × ℕ) × DecisionTracker)
    → IsValid t
    → t.stack ≡ d ∷ e ∷ ds
    → UndoneLast t d e ds r
    → first_level (level t) t.stack ≤ l
    → first_level (level r.1) r.1.stack ≤ l
first_level_popped t d e ds l r valid top u low =
    let unset : stack_value (e ∷ ds) d.variable ≡ none = (Distinct-at t d (e ∷ ds) top valid).0 in
    let same : first_level (level t) (e ∷ ds) ≡ first_level (level r.1) (e ∷ ds) =
      first_level_frame (level t) (level r.1) e ds (λ v b s. ground (arith, u.levels v))
        (Distinct-at t d (e ∷ ds) top valid).1 in
    let a = ap (first_level (level t)) top in
    let b = ap (first_level (level r.1)) u.stack in omega arith

undo_loop_stop :
    (fuel l : ℕ) (t : DecisionTracker)
    → above_level l t t.stack ≡ false
    → undo_loop (suc fuel) l t ≡ ok t
unfolding undo_loop
undo_loop_stop fuel l t h = rw (h, undo_loop)

undo_loop_more :
    (fuel l : ℕ) (t : DecisionTracker) (r : (Decision × ℕ) × DecisionTracker)
    → above_level l t t.stack ≡ true
    → undo_last t ≡ ok r
    → undo_loop (suc fuel) l t ≡ undo_loop fuel l r.1
unfolding undo_loop
undo_loop_more fuel l t r h run = rw (h, undo_loop, run)

last_level_stop :
    (l : ℕ) (t : DecisionTracker) (ds : List Decision)
    → t.stack ≡ ds
    → above_level l t ds ≡ false
    → last_level (level t) t.stack ≤ l
unfolding above_level
last_level_stop l t [] top h = let e = ap (last_level (level t)) top in omega arith
last_level_stop l t (d ∷ ds) top h = let e = ap (last_level (level t)) top in ground arith

-- The last of the decisions that a bound on the oldest one allows to be taken back.
above_level_pair :
    (l : ℕ) (t : DecisionTracker) (ds : List Decision)
    → above_level l t ds ≡ true
    → first_level (level t) ds ≤ l
    → (d : Decision) × (e : Decision) × (es : List Decision) × (ds ≡ d ∷ e ∷ es)
      × (l < level t d.variable)
unfolding above_level
above_level_pair l t [] h low = cc
above_level_pair l t (d ∷ []) h low = absurd (ground arith)
above_level_pair l t (d ∷ e ∷ es) h low = (d, e, es, refl, ground arith)

undo_loop-Undone :
    (fuel l : ℕ) (t : DecisionTracker)
    → length t.stack < fuel
    → IsValid t
    → first_level (level t) t.stack ≤ l
    → Returns (undo_loop fuel l t) (Undone t l)
undo_loop-Undone zero l t enough valid low = absurd (omega arith)
undo_loop-Undone (suc fuel) l t enough valid low = elim (Bool-cases (above_level l t t.stack)) [
  | inr stop ↦ (
    t,
    undo_loop_stop fuel l t stop,
    Undone-self t l valid (last_level_stop l t t.stack refl stop),
  )
  | inl more ↦
      let (d, e, ds, top, above) = above_level_pair l t t.stack more low in
      let (r, run, u) = undo_last-UndoneLast t d e ds valid top in
      let shorter : length t.stack ≡ suc (length r.1.stack) =
        ap length top ∙ ap (λ s. suc (length s)) (sym u.stack) in
      let (t', rest, w) =
        undo_loop-Undone fuel l r.1 (omega arith) u.valid
          (first_level_popped t d e ds l r valid top u low) in
      (t', undo_loop_more fuel l t r more run ∙ rest, Undone-popped t d e ds l r t' above u w)
]

-- On a valid trail, backtracking to a level of 1 or more, at or above which the oldest decision lies, does not panic
-- and ends: exactly the decisions above that level are taken back, every other variable keeps its
-- value and its level, and the invariant holds.
pub undo_until-Undone :
    (l : ℕ) (t : DecisionTracker)
    → IsValid t
    → 0 < l
    → first_level (level t) t.stack ≤ l
    → Returns (undo_until l t) (Undone t l)
unfolding undo_until
undo_until-Undone l t valid pos low =
    rw (==_false l 0 (omega arith))
      (undo_loop-Undone (suc (length t.stack)) l t (omega arith) valid low)
