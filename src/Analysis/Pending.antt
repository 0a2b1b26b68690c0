-- ===== src/Analysis/Pending.antt =====
-- The invariant of `analyze` in src/solver/mod.rs: the causes that are counted are the variables seen
-- at the conflict's level that are still on the trail; those of lower levels are learnt.
use resolvo.Prelude.{
  ℕ, ◌≤◌, ◌<◌, ◌≡◌, ◌⊎◌, ◌∙◌, Bool, true, false, not, some, List, [], arith, Elem, length,
  get_elem?,
}
use resolvo.DecisionMap.{VariableId}
use resolvo.DecisionTracker.{DecisionTracker, assigned_value, level}
use resolvo.DecisionTracker.Invariant
use resolvo.DecisionTracker.Invariant.{last_level}
use resolvo.DecisionTracker.Undo.{first_level}
use resolvo.Literal.{Literal, new, eval, variable, satisfying_value}
use resolvo.Literal.Laws.{eval-new, eval-falsifying}
use resolvo.WatchMap.Chain.{Unique}
use resolvo.Propagation.{Problem}
use resolvo.Analysis.{Analysis, contains}
use resolvo.Analysis.Trail.{HasReasons}

-- The trail of a conflict at a level above the first.
pub record IsConflicting (p : Problem) (lv : ℕ) (t : DecisionTracker) : Type 0 where
  pub trail : Invariant.IsValid t
  pub reasons : HasReasons p (level t) t.stack
  pub root : first_level (level t) t.stack ≤ 1
  pub high : 1 < lv
  pub below : last_level (level t) t.stack ≤ lv

pub record IsPending (lv : ℕ) (t : DecisionTracker) (a : Analysis) (pending : List VariableId)
    : Type 0 where
  pub unique : Unique pending
  pub counted : length pending ≡ a.causes_at_current_level
  pub waiting :
      (v : VariableId)
      → Elem v pending
      → (contains a.seen v ≡ true) × (level t v ≡ lv) × ((b : Bool) × (assigned_value t v ≡ some b))
  pub covered :
      (v : VariableId) (b : Bool)
      → contains a.seen v ≡ true
      → assigned_value t v ≡ some b
      → Elem v pending ⊎ (Elem (new v b) a.learnt × (level t v < lv))
  pub learnt :
      (l : Literal)
      → Elem l a.learnt
      → (eval l t.map ≡ some false) × (level t (variable l) ≤ a.back_track_to)
  pub back : a.back_track_to < lv
  pub index :
      ((a.learnt ≡ []) × (a.highest_level_idx ≡ 0) × (a.back_track_to ≡ 0))
      ⊎ ((l : Literal) × (get_elem? a.learnt a.highest_level_idx ≡ some l)
          × (level t (variable l) ≡ a.back_track_to))

pub assigned_value-false :
    (t : DecisionTracker) (l : Literal)
    → eval l t.map ≡ some false
    → assigned_value t (variable l) ≡ some (not (satisfying_value l))
unfolding assigned_value
assigned_value-false t l h = eval-falsifying l t.map h

-- The literal that a decided variable makes false.
pub new-false :
    (t : DecisionTracker) (v : VariableId) (b : Bool)
    → assigned_value t v ≡ some b
    → eval (new v b) t.map ≡ some false
unfolding assigned_value
new-false t v b h = eval-new v b t.map ∙ ground arith
