-- ===== src/DecisionTracker/Cursors.antt =====
-- The cursors into the trail of src/solver/decision_tracker.rs: the floor that `take_sync_floor`
-- returns, which bounds what may have changed since the last look.
use resolvo.Prelude.{
  ℕ, zero, suc, ◌≤◌, ◌<◌, ◌≡◌, refl, subst, inl, inr, Bool, Option, none, some, List, [], ◌∷◌,
  arith, ◌==◌, min, ap, ◌∙◌, Bool-cases, length, ok, >>=-eq-ok,
}
use resolvo.DecisionTracker.{
  Decision, DecisionTracker, clear, assigned_value, undo_at, undo_last, above_level, undo_loop,
  undo_until, add_at, try_add_decision, nth_decision, next_unpropagated, take_sync_floor,
}
use resolvo.DecisionTracker.Floor.{
  Step, add, undo, until, next, Reach, here, step, SameBelowFloor, SameBelowFloor-Reach,
}

-- The length of the trail after the last operation of a run, or the least one before.
abbrev pub lowest : {s t : DecisionTracker} → Reach s t → ℕ
lowest {s} {t} here = length s.stack
lowest {s} {t} (step r st) = min (lowest r) (length t.stack)

-- The operations lower the floor to the length of the trail, where that is less.
Lowers : DecisionTracker → DecisionTracker → Type 0
Lowers t u = u.sync_floor ≡ min t.sync_floor (length u.stack)

Lowers-add :
    (t : DecisionTracker) (d : Decision) (l : ℕ) (o : Option Bool) (b : Bool) (t' : DecisionTracker)
    → t.sync_floor ≤ length t.stack
    → add_at o t d l ≡ some (b, t')
    → Lowers t t'
unfolding add_at Lowers
Lowers-add t d l none b t' f e = ground arith
Lowers-add t d l (some v) b t' f e =
    let same : t ≡ t' = ground arith in subst (Lowers t) same (ground arith)

Lowers-undo_at :
    (ds : List Decision) (t : DecisionTracker) (d : Decision) (l : ℕ) (t' : DecisionTracker)
    → t.stack ≡ ds
    → undo_at ds t ≡ ok ((d, l), t')
    → Lowers t t' × (length t'.stack ≤ length t.stack)
unfolding undo_at Lowers
Lowers-undo_at [] t d l t' top e = cc
Lowers-undo_at (x ∷ []) t d l t' top e = cc
Lowers-undo_at (x ∷ y ∷ ds) t d l t' top e =
    let n : length t.stack ≡ suc (length (y ∷ ds)) = ap length top in
    (ground arith, ground (arith, n))

Lowers-undo_last :
    (t : DecisionTracker) (r : (Decision × ℕ) × DecisionTracker)
    → undo_last t ≡ ok r
    → Lowers t r.1 × (length r.1.stack ≤ length t.stack)
unfolding undo_last
Lowers-undo_last t ((d, l), t') e = Lowers-undo_at t.stack t d l t' refl e

Lowers-undo_loop :
    (fuel l : ℕ) (t t' : DecisionTracker)
    → t.sync_floor ≤ length t.stack
    → undo_loop fuel l t ≡ ok t'
    → Lowers t t' × (length t'.stack ≤ length t.stack)
unfolding undo_loop Lowers
Lowers-undo_loop zero l t t' f e = cc
Lowers-undo_loop (suc fuel) l t t' f e = elim (Bool-cases (above_level l t t.stack)) [
  | inr stop ↦
      let run = rw (stop, undo_loop) at e in
      let same : t ≡ t' = cc in
      subst (λ u. Lowers t u × (length u.stack ≤ length t.stack)) same (ground arith, ground arith)
  | inl more ↦
      let (r, run, rest) =
        >>=-eq-ok (undo_last t) (λ r. undo_loop fuel l r.1) (rw (more, undo_loop) at e) in
      let (a, short) = Lowers-undo_last t r run in
      let (b, short') = Lowers-undo_loop fuel l r.1 t' (ground (arith, a)) rest in
      (ground (arith, a, b), omega arith)
]

Lowers-Step : {t u : DecisionTracker} → t.sync_floor ≤ length t.stack → Step t u → Lowers t u
unfolding try_add_decision undo_until clear next_unpropagated Lowers
Lowers-Step {t} {u} f (add d l b e) = Lowers-add t d l (assigned_value t d.variable) b u f e
Lowers-Step {t} {u} f (undo d l e) = (Lowers-undo_last t ((d, l), u) e).0
Lowers-Step {t} {u} f (until l e) = elim (Bool-cases (l == 0)) [
  | inl root ↦ let e' = rw root at e in ground arith
  | inr above ↦ (Lowers-undo_loop (suc (length t.stack)) l t u f (rw above at e)).0
]
Lowers-Step {t} {u} f (next o e) = ground arith

floor-lowest :
    {s u : DecisionTracker}
    → SameBelowFloor s s
    → s.sync_floor ≡ length s.stack
    → (r : Reach s u) → u.sync_floor ≡ lowest r
unfolding Lowers
floor-lowest {s} {u} h at_end here = at_end
floor-lowest {s} {u} h at_end (step r st) =
    let within = (SameBelowFloor-Reach s h r).within in
    Lowers-Step within st ∙ ap (λ n. min n (length u.stack)) (floor-lowest h at_end r)

-- Between two calls of `take_sync_floor` with any run of decisions, propagations and backtracks
-- between them, the second call returns the least length that the trail had at the first call or
-- after an operation of the run. The trail below it is the trail of the first call, and both are at
-- least as long. The second call leaves the trail and sets the floor to its length.
pub take_sync_floor-SameBelowFloor :
    (s u : DecisionTracker) (r : Reach (take_sync_floor s).1 u)
    → ((take_sync_floor u).0 ≡ lowest r)
      × ((take_sync_floor u).0 ≤ length s.stack)
      × ((take_sync_floor u).0 ≤ length u.stack)
      × ((i : ℕ) → i < (take_sync_floor u).0 → nth_decision u.stack i ≡ nth_decision s.stack i)
      × ((take_sync_floor u).1.stack ≡ u.stack)
      × ((take_sync_floor u).1.sync_floor ≡ length u.stack)
unfolding take_sync_floor
take_sync_floor-SameBelowFloor s u r =
    let start : SameBelowFloor (take_sync_floor s).1 (take_sync_floor s).1 = record {
      within = omega arith;
      within_old = omega arith;
      same = λ i h. refl;
    } in
    let below = SameBelowFloor-Reach (take_sync_floor s).1 start r in
    (floor-lowest start refl r, below.within_old, below.within, below.same, refl, refl)
