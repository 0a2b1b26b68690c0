-- ===== src/DecisionTracker/Floor.antt =====
-- The sync floor of src/solver/decision_tracker.rs: what the operations on the trail leave below it.
use resolvo.Prelude.{
  ℕ, zero, suc, ◌≤◌, ◌<◌, ◌≡◌, refl, subst, inl, inr, Bool, Option, none, some, List, [], ◌∷◌,
  arith, ◌==◌, Bool-cases, length, ok, >>=-eq-ok,
}
use resolvo.DecisionTracker.{
  Decision, DecisionTracker, clear, assigned_value, undo_at, undo_last, above_level, undo_loop,
  undo_until, add_at, try_add_decision, nth_decision, next_unpropagated,
}

-- One call of an operation that changes the trail.
pub data Step (t t' : DecisionTracker) : Type 0 where
  add : (d : Decision) (l : ℕ) (b : Bool) → try_add_decision t d l ≡ some (b, t') → Step t t'
  undo : (d : Decision) (l : ℕ) → undo_last t ≡ ok ((d, l), t') → Step t t'
  until : (l : ℕ) → undo_until l t ≡ ok t' → Step t t'
  next : (o : Option Decision) → next_unpropagated t ≡ ok (o, t') → Step t t'

pub data Reach (s : DecisionTracker) : DecisionTracker → Type 0 where
  here : Reach s s
  step : {t u : DecisionTracker} → Reach s t → Step t u → Reach s u

-- The floor lies within both trails, and below it they are equal.
pub record SameBelowFloor (s t : DecisionTracker) : Type 0 where
  pub within : t.sync_floor ≤ length t.stack
  pub within_old : t.sync_floor ≤ length s.stack
  pub same : (i : ℕ) → i < t.sync_floor → nth_decision t.stack i ≡ nth_decision s.stack i

module _ (s : DecisionTracker) where
  SameBelowFloor-add :
      (t : DecisionTracker) (d : Decision) (l : ℕ) (o : Option Bool) (b : Bool)
      (t' : DecisionTracker)
      → SameBelowFloor s t
      → add_at o t d l ≡ some (b, t')
      → SameBelowFloor s t'
  unfolding add_at
  SameBelowFloor-add t d l none b t' f e = record {
    within = ground (arith, f.within);
    within_old = ground (arith, f.within_old);
    same = λ i h. ground (arith, f.same i, f.within);
  }
  SameBelowFloor-add t d l (some v) b t' f e =
      let same : t ≡ t' = ground arith in subst (SameBelowFloor s) same f

  SameBelowFloor-undo_at :
      (ds : List Decision) (t : DecisionTracker) (d : Decision) (l : ℕ) (t' : DecisionTracker)
      → t.stack ≡ ds
      → SameBelowFloor s t
      → undo_at ds t ≡ ok ((d, l), t')
      → SameBelowFloor s t'
  unfolding undo_at
  SameBelowFloor-undo_at [] t d l t' top f e = cc
  SameBelowFloor-undo_at (x ∷ []) t d l t' top f e = cc
  SameBelowFloor-undo_at (x ∷ y ∷ ds) t d l t' top f e = record {
    within = ground arith;
    within_old = ground (arith, f.within_old);
    same = λ i h. ground (arith, f.same i);
  }

  SameBelowFloor-undo_last :
      (t : DecisionTracker) (r : (Decision × ℕ) × DecisionTracker)
      → SameBelowFloor s t
      → undo_last t ≡ ok r
      → SameBelowFloor s r.1
  unfolding undo_last
  SameBelowFloor-undo_last t ((d, l), t') f e = SameBelowFloor-undo_at t.stack t d l t' refl f e

  SameBelowFloor-clear : (t : DecisionTracker) → ok clear ≡ ok t → SameBelowFloor s t
  unfolding clear
  SameBelowFloor-clear t e = record {
    within = ground arith;
    within_old = ground arith;
    same = λ i h. absurd (ground arith);
  }

  SameBelowFloor-undo_loop :
      (fuel l : ℕ) (t t' : DecisionTracker)
      → SameBelowFloor s t
      → undo_loop fuel l t ≡ ok t'
      → SameBelowFloor s t'
  unfolding undo_loop
  SameBelowFloor-undo_loop zero l t t' f e = cc
  SameBelowFloor-undo_loop (suc fuel) l t t' f e = elim (Bool-cases (above_level l t t.stack)) [
    | inr stop ↦
        let run = rw (stop, undo_loop) at e in
        let same : t ≡ t' = cc in subst (SameBelowFloor s) same f
    | inl more ↦
        let (r, run, rest) =
          >>=-eq-ok (undo_last t) (λ r. undo_loop fuel l r.1) (rw (more, undo_loop) at e) in
        SameBelowFloor-undo_loop fuel l r.1 t' (SameBelowFloor-undo_last t r f run) rest
  ]

  SameBelowFloor-undo_until :
      (l : ℕ) (t t' : DecisionTracker)
      → SameBelowFloor s t
      → undo_until l t ≡ ok t'
      → SameBelowFloor s t'
  unfolding undo_until
  SameBelowFloor-undo_until l t t' f e = elim (Bool-cases (l == 0)) [
    | inl root ↦ SameBelowFloor-clear t' (rw root at e)
    | inr above ↦ SameBelowFloor-undo_loop (suc (length t.stack)) l t t' f (rw above at e)
  ]

  SameBelowFloor-next :
      (t t' : DecisionTracker) (o : Option Decision)
      → SameBelowFloor s t
      → next_unpropagated t ≡ ok (o, t')
      → SameBelowFloor s t'
  unfolding next_unpropagated
  SameBelowFloor-next t t' o f e = record {
    within = ground (arith, f.within);
    within_old = ground (arith, f.within_old);
    same = λ i h. ground (arith, f.same i);
  }

  SameBelowFloor-Step : {t u : DecisionTracker} → Step t u → SameBelowFloor s t → SameBelowFloor s u
  unfolding try_add_decision
  SameBelowFloor-Step {t} {u} (add d l b e) f =
      SameBelowFloor-add t d l (assigned_value t d.variable) b u f e
  SameBelowFloor-Step {t} {u} (undo d l e) f = SameBelowFloor-undo_last t ((d, l), u) f e
  SameBelowFloor-Step {t} {u} (until l e) f = SameBelowFloor-undo_until l t u f e
  SameBelowFloor-Step {t} {u} (next o e) f = SameBelowFloor-next t u o f e

  pub SameBelowFloor-Reach :
      {u : DecisionTracker} → SameBelowFloor s s → Reach s u → SameBelowFloor s u
  SameBelowFloor-Reach h here = h
  SameBelowFloor-Reach h (step r st) = SameBelowFloor-Step st (SameBelowFloor-Reach h r)
