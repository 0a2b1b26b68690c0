-- ===== src/Clause/Unwatched.antt =====
-- `next_unwatched_literal` of src/solver/clause.rs against a description of the literal it looks
-- for, and its shortcut for binary clauses.
use resolvo.Prelude.{
  ◌≡◌, ◌≢◌, ◌⊎◌, refl, ◌∙◌, inl, inr, true, false, Option, none, some, List, [], ◌∷◌, ok, Returns,
  arith, Bool-cases, Elem, All,
}
use resolvo.DecisionMap.{DecisionMap}
use resolvo.Literal.{Literal, eval}
use resolvo.Clause.{
  Clause, install_root, excluded, is_binary, Tables, literals, try_fold, try_fold_literals,
  WatchIndex, index_zero, index_one, pick, other_index, WatchedLiterals, visit_unwatched,
  is_unwatched, Both, broken, scan_unwatched, next_unwatched_literal,
}

-- What a search for a literal to watch beside `other` among `ls` may answer: a literal of the
-- clause that is not `other` and not false, or that there is none.
pub data Scanned (ls : List Literal) (other : Literal) (m : DecisionMap) (r : Option Literal)
    : Type 0 where
  found :
      (lit : Literal)
      → r ≡ some lit
      → Elem lit ls
      → other ≢ lit
      → eval lit m ≢ some false
      → Scanned ls other m r
  exhausted : r ≡ none → All (λ l. (other ≡ l) ⊎ (eval l m ≡ some false)) ls → Scanned ls other m r

Scanned-cons :
    (x : Literal) (ls : List Literal) (other : Literal) (m : DecisionMap) (r : Option Literal)
    → (other ≡ x) ⊎ (eval x m ≡ some false)
    → Scanned ls other m r
    → Scanned (x ∷ ls) other m r
Scanned-cons x ls other m r skip (found lit e mem ne live) = Scanned.found lit e (inr mem) ne live
Scanned-cons x ls other m r skip (exhausted e all) = Scanned.exhausted e (skip, all)

skipped :
    (x other : Literal) (m : DecisionMap)
    → is_unwatched other m x ≡ false
    → (other ≡ x) ⊎ (eval x m ≡ some false)
unfolding is_unwatched
skipped x other m h = ground arith

taken :
    (x other : Literal) (m : DecisionMap)
    → is_unwatched other m x ≡ true
    → (other ≢ x) × (eval x m ≢ some false)
unfolding is_unwatched
taken x other m h = (ground arith, ground arith)

module _ (ls : List Literal) (x other : Literal) (m : DecisionMap) where
  try_fold-break :
      is_unwatched other m x ≡ true
      → broken (try_fold (visit_unwatched other m) tt (x ∷ ls)) ≡ some x
  unfolding try_fold visit_unwatched
  try_fold-break h = ground arith

  try_fold-continue :
      is_unwatched other m x ≡ false
      → broken (try_fold (visit_unwatched other m) tt (x ∷ ls))
        ≡ broken (try_fold (visit_unwatched other m) tt ls)
  unfolding try_fold visit_unwatched
  try_fold-continue h = ground arith

pub try_fold-Scanned :
    (ls : List Literal) (other : Literal) (m : DecisionMap)
    → Scanned ls other m (broken (try_fold (visit_unwatched other m) tt ls))
try_fold-Scanned [] other m = Scanned.exhausted (unfold try_fold in refl) tt
try_fold-Scanned (x ∷ ls) other m = elim (Bool-cases (is_unwatched other m x)) [
  | inl take ↦
      let (ne, live) = taken x other m take in
      Scanned.found x (try_fold-break ls x other m take) (inl refl) ne live
  | inr skip ↦
      rw (try_fold-continue ls x other m skip)
        (Scanned-cons x ls other m _ (skipped x other m skip) (try_fold-Scanned ls other m))
]

-- The two watches of a clause with the literals `ls`: they are among the literals, and of a binary
-- clause they are all of them.
pub record IsWatching (w : Both Literal) (clause : Clause) (ls : List Literal) : Type 0 where
  pub zero_mem : Elem w.at_zero ls
  pub one_mem : Elem w.at_one ls
  pub binary :
      is_binary clause ≡ true → (ls ≡ w.at_zero ∷ w.at_one ∷ []) ⊎ (ls ≡ w.at_one ∷ w.at_zero ∷ [])

-- The clauses that may be given to the search.
abbrev pub IsWatchable : Clause → Type 0
IsWatchable install_root = ⊥
IsWatchable (excluded _ _) = ⊥
IsWatchable _ = Unit

scan_unwatched-literals :
    (t : Tables) (clause : Clause) (ls : List Literal) (other : Literal) (m : DecisionMap)
    → literals t clause ≡ ok ls
    → scan_unwatched t clause other m ≡ ok (broken (try_fold (visit_unwatched other m) tt ls))
unfolding scan_unwatched try_fold_literals
scan_unwatched-literals t clause ls other m e = rw e

next_unwatched_literal-scan :
    (w : WatchedLiterals) (clause : Clause) (t : Tables) (m : DecisionMap) (i : WatchIndex)
    → IsWatchable clause
    → is_binary clause ≡ false
    → next_unwatched_literal w clause t m i
      ≡ scan_unwatched t clause (pick w.watched_literals (other_index i)) m
unfolding next_unwatched_literal is_binary
next_unwatched_literal-scan w install_root t m i ok' h = elim ok' [ ]
next_unwatched_literal-scan w (excluded a b) t m i ok' h = elim ok' [ ]
next_unwatched_literal-scan w clause t m i ok' h = ground arith

pub next_unwatched_literal-binary :
    (w : WatchedLiterals) (clause : Clause) (t : Tables) (m : DecisionMap) (i : WatchIndex)
    → is_binary clause ≡ true
    → next_unwatched_literal w clause t m i ≡ ok none
unfolding next_unwatched_literal is_binary
next_unwatched_literal-binary w install_root t m i h = cc
next_unwatched_literal-binary w clause t m i h = ground arith

binary-exhausted :
    (w : Both Literal) (ls : List Literal) (m : DecisionMap) (i : WatchIndex)
    → (ls ≡ w.at_zero ∷ w.at_one ∷ []) ⊎ (ls ≡ w.at_one ∷ w.at_zero ∷ [])
    → eval (pick w i) m ≡ some false
    → Scanned ls (pick w (other_index i)) m none
binary-exhausted w ls m index_zero (inl e) h = Scanned.exhausted refl (rw e (inr h, (inl refl, tt)))
binary-exhausted w ls m index_zero (inr e) h = Scanned.exhausted refl (rw e (inl refl, (inr h, tt)))
binary-exhausted w ls m index_one (inl e) h = Scanned.exhausted refl (rw e (inl refl, (inr h, tt)))
binary-exhausted w ls m index_one (inr e) h = Scanned.exhausted refl (rw e (inr h, (inl refl, tt)))

-- For a clause that watches two of its literals, one of them false, the search beside the other one
-- ends without a panic. It returns a literal of the clause that is neither the other watch nor
-- false, or nothing, and then all literals but the other watch are false. That holds of the scan
-- and of the shortcut for binary clauses, which does not look at the literals.
pub next_unwatched_literal-Scanned :
    (w : WatchedLiterals) (clause : Clause) (t : Tables) (m : DecisionMap) (i : WatchIndex)
    (ls : List Literal)
    → IsWatchable clause
    → literals t clause ≡ ok ls
    → IsWatching w.watched_literals clause ls
    → eval (pick w.watched_literals i) m ≡ some false
    → Returns
        (next_unwatched_literal w clause t m i)
        (Scanned ls (pick w.watched_literals (other_index i)) m)
next_unwatched_literal-Scanned w clause t m i ls able e watching h =
    let other = pick w.watched_literals (other_index i) in
    elim (Bool-cases (is_binary clause)) [
      | inl binary ↦ (
        none,
        next_unwatched_literal-binary w clause t m i binary,
        binary-exhausted w.watched_literals ls m i (watching.binary binary) h,
      )
      | inr long ↦ (
        broken (try_fold (visit_unwatched other m) tt ls),
        next_unwatched_literal-scan w clause t m i able long
            ∙ scan_unwatched-literals t clause ls other m e,
        try_fold-Scanned ls other m,
      )
    ]
