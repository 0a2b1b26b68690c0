-- ===== src/Analysis/Undo.antt =====
-- The inner loop of `analyze` in src/solver/mod.rs takes back decisions up to a cause of the conflict.
use resolvo.Prelude.{
  ℕ, zero, suc, ◌-◌, ◌≤◌, ◌<◌, ◌≡◌, ◌≢◌, refl, sym, ap, ◌∙◌, subst, inl, inr, Bool, true, false,
  none, some, List, arith, Run, ok, Returns, Elem, length, ==_refl, Bool-cases,
}
use resolvo.DecisionMap.{VariableId}
use resolvo.DecisionTracker.{Decision, DecisionTracker, assigned_value, level, undo_last}
use resolvo.Propagation.{Problem}
use resolvo.Propagation.Bounds.{
  without, Elem-without_one, Elem-without_ne, not-Elem-without, Unique-without, length-without-Elem,
}
use resolvo.Analysis.{Analysis, contains, undo_to_seen}
use resolvo.Analysis.Trail.{IsReason, level-last_level, two_or_more}
use resolvo.Analysis.Pending.{IsConflicting, IsPending}
use resolvo.Analysis.Pop.{
  Popped, undo_last-Popped, value_kept, level_kept, value_before, Pending-popped,
}

-- What the inner loop leaves: the last decision taken back is a cause, and the others are still on
-- the trail.
pub record UndoneTo (p : Problem) (lv : ℕ) (t : DecisionTracker) (a : Analysis)
    (pending : List VariableId) (r : (Decision × ℕ) × DecisionTracker) : Type 0 where
  pub conflicting : IsConflicting p lv r.1
  pub cause : Elem r.0.0.variable pending
  pub value : assigned_value t r.0.0.variable ≡ some r.0.0.value
  pub at_level : level t r.0.0.variable ≡ lv
  pub gone : assigned_value r.1 r.0.0.variable ≡ none
  pub inv :
      IsPending lv r.1
        (record a { causes_at_current_level = a.causes_at_current_level - 1 })
        (without r.0.0.variable pending)
  pub kept :
      (v : VariableId) (b : Bool)
      → assigned_value r.1 v ≡ some b
      → (assigned_value t v ≡ some b) × (level r.1 v ≡ level t v)
  pub next :
      (v : VariableId)
      → Elem v (without r.0.0.variable pending)
      → (r.0.1 ≡ lv) × IsReason p r.0.0 r.1.stack
  pub shorter : length r.1.stack < length t.stack
  pub same_below :
      (v : VariableId) (b : Bool)
      → assigned_value t v ≡ some b
      → level t v < lv
      → (assigned_value r.1 v ≡ some b) × (level r.1 v ≡ level t v)

length-Popped :
    (p : Problem) (lv : ℕ) (t : DecisionTracker) (d : Decision) (k : ℕ) (t' : DecisionTracker)
    → Popped p lv t d k t'
    → length t.stack ≡ suc (length t'.stack)
length-Popped p lv t d k t' pop = ap length pop.stack

module _ (p : Problem) (lv : ℕ) (t : DecisionTracker) (a : Analysis) (pending : List VariableId)
    (inv : IsPending lv t a pending) (r : (Decision × ℕ) × DecisionTracker)
    (pop : Popped p lv t r.0.0 r.0.1 r.1) where
  below_same :
      (v : VariableId) (b : Bool)
      → assigned_value t v ≡ some b
      → level t v < lv
      → (assigned_value r.1 v ≡ some b) × (level r.1 v ≡ level t v)
  below_same v b e low =
      let at = pop.at_level in
      let ne : r.0.0.variable ≢ v = λ q. let z = subst (λ x. level t x ≡ lv) q at in omega arith in
      (
        value_kept p lv t r.1 r.0.0 r.0.1 a pop v ne ∙ e,
        level_kept p lv t r.1 r.0.0 r.0.1 a pop v ne,
      )

  kept_before :
      (v : VariableId) (b : Bool)
      → assigned_value r.1 v ≡ some b
      → (assigned_value t v ≡ some b) × (level r.1 v ≡ level t v)
  kept_before v b e =
      let (ne, old) = value_before p lv t r.1 r.0.0 r.0.1 a pop v b e in
      (old, level_kept p lv t r.1 r.0.0 r.0.1 a pop v ne)

  -- The loop stops here.
  stop-UndoneTo : contains a.seen r.0.0.variable ≡ true → UndoneTo p lv t a pending r
  stop-UndoneTo seen =
      let d = r.0.0 in
      let cause : Elem d.variable pending = elim (inv.covered d.variable d.value seen pop.value) [
        | inl m ↦ m
        | inr (_, low) ↦ let at = pop.at_level in absurd (omega arith)
      ] in
      let less = length-without-Elem d.variable pending cause in
      let count = inv.counted in
      let inv' =
        Pending-popped p lv t r.1 d r.0.1 a pop pending (without d.variable pending)
          (a.causes_at_current_level - 1) inv (Unique-without d.variable pending inv.unique)
          (omega arith)
          (λ v m. (
            Elem-without_one d.variable v pending m,
            λ e.
                not-Elem-without d.variable pending inv.unique
                  (subst (λ x. Elem x (without d.variable pending)) (sym e) m),
          ))
          (λ v m ne. Elem-without_ne d.variable v pending m ne) in
      record {
        conflicting = pop.conflicting;
        cause = cause;
        value = pop.value;
        at_level = pop.at_level;
        gone = pop.values d.variable ∙ rw (==_refl d.variable) refl;
        inv = inv';
        kept = kept_before;
        next = λ v m.
            let (_, at, (b, e)) = inv'.waiting v m in
            let le = level-last_level r.1 v b pop.conflicting.trail e in
            let top = pop.top in
            let below = pop.conflicting.below in
            (omega arith, elim pop.reason [ inl q ↦ q | inr low ↦ absurd (omega arith) ]);
        shorter = let l = length-Popped p lv t d r.0.1 r.1 pop in omega arith;
        same_below = below_same;
      }

  -- A decision that is not seen changes nothing for the causes.
  unseen-IsPending : contains a.seen r.0.0.variable ≡ false → IsPending lv r.1 a pending
  unseen-IsPending unseen =
      Pending-popped p lv t r.1 r.0.0 r.0.1 a pop pending pending a.causes_at_current_level inv
        inv.unique inv.counted
        (λ v m. (
          m,
          λ e.
              let h = subst (λ x. contains a.seen x ≡ false) e unseen in
              let (s, _, _) = inv.waiting v m in cc,
        ))
        (λ v m ne. m)

  -- The loop goes on, and comes to `s`.
  after-UndoneTo :
      (s : (Decision × ℕ) × DecisionTracker)
      → UndoneTo p lv r.1 a pending s
      → UndoneTo p lv t a pending s
  after-UndoneTo s u =
      let (value, same) = kept_before s.0.0.variable s.0.0.value u.value in
      record {
        conflicting = u.conflicting;
        cause = u.cause;
        value = value;
        at_level = sym same ∙ u.at_level;
        gone = u.gone;
        inv = u.inv;
        kept = λ v b e.
            let (e', l) = u.kept v b e in let (e'', l') = kept_before v b e' in (e'', l ∙ l');
        next = u.next;
        shorter =
            let l = length-Popped p lv t r.0.0 r.0.1 r.1 pop in let h = u.shorter in omega arith;
        same_below = λ v b e low.
            let (e', l) = below_same v b e low in
            let (e'', l') = u.same_below v b e' (subst (λ n. n < lv) (sym l) low) in (e'', l' ∙ l);
      }

undo_to_seen-stop :
    (fuel : ℕ) (seen : List VariableId) (t : DecisionTracker) (r : (Decision × ℕ) × DecisionTracker)
    → undo_last t ≡ ok r
    → contains seen r.0.0.variable ≡ true
    → undo_to_seen (suc fuel) seen t ≡ ok r
unfolding undo_to_seen
undo_to_seen-stop fuel seen t r run h =
    let go_on : Bool → Run ((Decision × ℕ) × DecisionTracker) =
      λ b. elim b [ true ↦ ok r | false ↦ undo_to_seen fuel seen r.1 ] in
    rw run (ap go_on h)

undo_to_seen-next :
    (fuel : ℕ) (seen : List VariableId) (t : DecisionTracker) (r : (Decision × ℕ) × DecisionTracker)
    → undo_last t ≡ ok r
    → contains seen r.0.0.variable ≡ false
    → undo_to_seen (suc fuel) seen t ≡ undo_to_seen fuel seen r.1
unfolding undo_to_seen
undo_to_seen-next fuel seen t r run h =
    let go_on : Bool → Run ((Decision × ℕ) × DecisionTracker) =
      λ b. elim b [ true ↦ ok r | false ↦ undo_to_seen fuel seen r.1 ] in
    rw run (ap go_on h)

-- With a cause left the inner loop ends without a panic, at the last cause on the trail.
pub undo_to_seen-UndoneTo :
    (fuel : ℕ) (p : Problem) (lv : ℕ) (t : DecisionTracker) (a : Analysis)
    (pending : List VariableId) (v : VariableId)
    → IsConflicting p lv t
    → IsPending lv t a pending
    → Elem v pending
    → length t.stack ≤ fuel
    → Returns (undo_to_seen fuel a.seen t) (UndoneTo p lv t a pending)
undo_to_seen-UndoneTo zero p lv t a pending v con inv m enough =
    let (_, at, (b, e)) = inv.waiting v m in
    let (d, ds, top) = two_or_more t v b con.trail e in
    let l : length t.stack ≡ suc (length ds) = ap length top in absurd (omega arith)
undo_to_seen-UndoneTo (suc fuel) p lv t a pending v con inv m enough =
    let (_, at, (b, e)) = inv.waiting v m in
    let (r, run, pop) = undo_last-Popped p lv t con v b e at in
    elim (Bool-cases (contains a.seen r.0.0.variable)) [
      | inl seen ↦ (
        r,
        undo_to_seen-stop fuel a.seen t r run seen,
        stop-UndoneTo p lv t a pending inv r pop seen,
      )
      | inr unseen ↦
          let l = length-Popped p lv t r.0.0 r.0.1 r.1 pop in
          let (s, run', u) =
            undo_to_seen-UndoneTo fuel p lv r.1 a pending v pop.conflicting
              (unseen-IsPending p lv t a pending inv r pop unseen) m (omega arith) in
          (
            s,
            undo_to_seen-next fuel a.seen t r run unseen ∙ run',
            after-UndoneTo p lv t a pending inv r pop s u,
          )
    ]
