-- ===== src/Propagation/Moved.antt =====
-- In `propagate_impl` of src/solver/mod.rs, a clause that moves to another list stops to watch one
-- literal alone.
use resolvo.Prelude.{
  ◌≡◌, ◌≢◌, ◌⊎◌, refl, sym, ap, ◌∙◌, subst, inl, inr, Bool-cases, false, some, arith, ◌==◌, ==_iff,
  if◌then◌else◌,
}
use resolvo.DecisionTracker.{ClauseId}
use resolvo.Literal.{Literal, eval}
use resolvo.Clause.{WatchedLiterals, WatchIndex, index_zero, index_one, pick, put}
use resolvo.WatchMap.{WatchState, node}
use resolvo.WatchMap.Update.Unlink.{watched_of}
use resolvo.Propagation.{SolverState}
use resolvo.Propagation.Progress.{Moves}

module _ (st : SolverState) (l : Literal) (id : ClauseId) (w : WatchedLiterals) where
  slots :
      (i j : WatchIndex) (b : Literal)
      → pick w.watched_literals i ≡ l
      → eval b st.decision_tracker.map ≢ some false
      → (pick (put w.watched_literals i b) j ≡ pick w.watched_literals j)
        ⊎ ((pick w.watched_literals j ≡ l)
            × (eval (pick (put w.watched_literals i b) j) st.decision_tracker.map ≢ some false))
  slots index_zero index_zero b e live = inr (e, live)
  slots index_zero index_one b e live = inl refl
  slots index_one index_zero b e live = inl refl
  slots index_one index_one b e live = inr (e, live)

  -- The watch that moved was on `l`, and the other clauses watch what they did.
  pub moved-Moves :
      (i : WatchIndex)
      → node st.watches.watches id ≡ some w
      → pick w.watched_literals i ≡ l
      → (b : Literal) (ws : WatchState) → eval b st.decision_tracker.map ≢ some false
      → ((x : ClauseId)
          → watched_of (node ws.watches x) ≡ (
              if id == x
              then some (put w.watched_literals i b)
              else watched_of (node st.watches.watches x)))
      → Moves st (record st { watches = ws }) l
  moved-Moves i has watching_now b ws live watched x q' h = elim (Bool-cases (id == x)) [
    | inr other_clause ↦ (q', sym (watched x ∙ rw other_clause refl) ∙ h, λ i. inl refl)
    | inl mine ↦
        let q_is : put w.watched_literals i b ≡ q' =
          let e : some (put w.watched_literals i b) ≡ some q' =
            sym (watched x ∙ rw mine refl) ∙ h in
          ground arith in
        (
          w.watched_literals,
          subst (λ y. watched_of (node st.watches.watches y) ≡ some w.watched_literals)
              ((==_iff id x).0 mine) (ap watched_of has),
          λ j.
              subst
                (λ q.
                  (pick q j ≡ pick w.watched_literals j)
                  ⊎ ((pick w.watched_literals j ≡ l)
                      × (eval (pick q j) st.decision_tracker.map ≢ some false)))
                q_is (slots i j b watching_now live),
        )
  ]
