-- ===== src/Deferred/Drain.antt =====
-- `drain_fired_deferred` and `push_deferred` of src/solver/mod.rs: the loop over the indices in
-- reverse takes out exactly the entries that fire, and keeps the order of both parts.
use resolvo.Prelude.{
  ℕ, suc, ◌≡◌, refl, sym, ap, ◌∙◌, subst, Bool, true, false, not, Option, none, some, List, [], ◌∷◌,
  ◌++◌, map, arith, length, if◌then◌else◌, ◌==◌, ==_refl, ok, ◌>>=◌, Returns, Bool-cases,
  Option-cases, inl, inr,
}
use mathlib.Core.List.{reverse, reverse_aux, append_assoc, append-nil}
use resolvo.Conditions.{ConditionId}
use resolvo.Deferred.{
  DeferredRequirement, IndexMap, fires, remove, enumerate, remove_fired, is_empty,
  drain_fired_deferred, push_deferred,
}

module _ {A : Type 0} where
  -- The elements with a property, in order.
  abbrev pub kept : (A → Bool) → List A → List A
  kept p [] = []
  kept p (x ∷ xs) = if p x then x ∷ kept p xs else kept p xs

  kept-append : (p : A → Bool) (xs ys : List A) → kept p (xs ++ ys) ≡ kept p xs ++ kept p ys
  kept-append p [] ys = refl
  kept-append p (x ∷ xs) ys = ground (arith, kept-append p xs ys)

  -- The same, the last one first.
  abbrev kept_back : (A → Bool) → List A → List A
  kept_back p [] = []
  kept_back p (x ∷ xs) = if p x then kept_back p xs ++ (x ∷ []) else kept_back p xs

  reverse_aux-append :
      (xs : List A) (x : A) (r : List A) → reverse_aux (xs ++ (x ∷ [])) r ≡ x ∷ reverse_aux xs r
  reverse_aux-append [] x r = refl
  reverse_aux-append (y ∷ ys) x r = reverse_aux-append ys x (y ∷ r)

  reverse-kept_back : (p : A → Bool) (xs : List A) → reverse (kept_back p xs) ≡ kept p xs
  reverse-kept_back p [] = refl
  reverse-kept_back p (x ∷ xs) = elim (Bool-cases (p x)) [
    | inl hit ↦
        rw hit
          (reverse_aux-append (kept_back p xs) x [] ∙ ap (λ ys. x ∷ ys) (reverse-kept_back p xs))
    | inr miss ↦ rw miss (reverse-kept_back p xs)
  ]

  remove-middle :
      (pre : List A) (x : A) (post : List A)
      → remove (pre ++ x ∷ post) (length pre) ≡ ok (x, pre ++ post)
  remove-middle [] x post = refl
  remove-middle (y ∷ ys) x post = rw (remove-middle ys x post)

  length-snoc : (pre : List A) (x : A) → length (pre ++ (x ∷ [])) ≡ suc (length pre)
  length-snoc [] x = refl
  length-snoc (y ∷ ys) x = ap suc (length-snoc ys x)

  remove_fired_lem :
      (p : A → Bool) (xs pre fired : List A) (n : ℕ) (rest : List (ℕ × Bool))
      → length pre ≡ n
      → remove_fired (reverse_aux (enumerate n (map p xs)) rest) fired (pre ++ xs)
        ≡ remove_fired rest (fired ++ kept_back p xs) (pre ++ kept (λ x. not (p x)) xs)
  remove_fired_lem p [] pre fired n rest h =
      ap (λ f. remove_fired rest f (pre ++ [])) (sym (append-nil fired))
  remove_fired_lem p (x ∷ xs) pre fired n rest h =
      let stays = kept (λ x. not (p x)) xs in
      let goes = kept_back p xs in
      let loop = reverse_aux (enumerate (suc n) (map p xs)) ((n, p x) ∷ rest) in
      let back =
        remove_fired_lem p xs (pre ++ (x ∷ [])) fired (suc n) ((n, p x) ∷ rest)
          (length-snoc pre x ∙ ap suc h) in
      let out : remove (pre ++ x ∷ stays) n ≡ ok (x, pre ++ stays) =
        subst (λ n. remove (pre ++ x ∷ stays) n ≡ ok (x, pre ++ stays)) h
          (remove-middle pre x stays) in
      ap (remove_fired loop fired) (sym (append_assoc pre (x ∷ []) xs))
      ∙ back
      ∙ ap (remove_fired ((n, p x) ∷ rest) (fired ++ goes)) (append_assoc pre (x ∷ []) stays)
      ∙ elim (Bool-cases (p x)) [
        | inl hit ↦ rw hit (
            ap (λ r. r >>= λ r. remove_fired rest ((fired ++ goes) ++ (r.0 ∷ [])) r.1) out
            ∙ ap (λ f. remove_fired rest f (pre ++ stays)) (append_assoc fired goes (x ∷ [])))
        | inr miss ↦ rw miss
      ]

-- What a drain leaves: the entries that fire are returned in order, the others stay under their
-- condition in order, or no list does when none are left, and no other condition changes.
pub record Drained {S : Type 0} (M : IndexMap (List (DeferredRequirement S))) (decided : S → Bool)
    (m : M.Map) (condition : ConditionId) (entries : List (DeferredRequirement S))
    (r : List (DeferredRequirement S) × M.Map) : Type 0 where
  pub fired : r.0 ≡ kept (fires decided) entries
  pub stays : M.get r.1 condition ≡ (
      let left = kept (λ e. not (fires decided e)) entries in
      if is_empty left then none else some left)
  pub others : (k : ConditionId) → (condition == k) ≡ false → M.get r.1 k ≡ M.get m k

module _ {S : Type 0} (M : IndexMap (List (DeferredRequirement S))) where
  get-written :
      (m : M.Map) (condition k : ConditionId) (left : List (DeferredRequirement S)) (gone : Bool)
      → M.get
          (if gone
            then M.swap_remove (M.put m condition left) condition
            else M.put m condition left)
          k
        ≡ (if condition == k then if gone then none else some left else M.get m k)
  get-written m condition k left true =
      ground (
        arith,
        M.get-swap_remove (M.put m condition left) condition k,
        M.get-put m condition k left,
      )
  get-written m condition k left false = M.get-put m condition k left

  -- For a condition with entries the drain does not panic; it returns those whose disjunct holds, in
  -- the order in which they were deferred, keeps the others in their order, and drops the key when
  -- none are left. The entries of other conditions stay.
  pub drain_fired_deferred-Drained :
      (decided : S → Bool) (m : M.Map) (condition : ConditionId)
      (entries : List (DeferredRequirement S))
      → M.get m condition ≡ some entries
      → Returns (drain_fired_deferred M decided m condition) (Drained M decided m condition entries)
  unfolding drain_fired_deferred
  drain_fired_deferred-Drained decided m condition entries has =
      let run = remove_fired_lem (fires decided) entries [] [] 0 [] refl in
      let left = kept (λ e. not (fires decided e)) entries in
      let m' = M.put m condition left in
      let m'' = if is_empty left then M.swap_remove m' condition else m' in
      (
        (reverse (kept_back (fires decided) entries), m''),
        rw (has, drain_fired_deferred, run),
        record {
          fired = reverse-kept_back (fires decided) entries;
          stays = get-written m condition condition left (is_empty left) ∙ rw (==_refl condition);
          others = λ k ne. get-written m condition k left (is_empty left) ∙ rw ne;
        },
      )

  abbrev or_default : Option (List (DeferredRequirement S)) → List (DeferredRequirement S)
  or_default none = []
  or_default (some entries) = entries

  -- The entries under a condition, none where the map has no key.
  abbrev pub entries_under : M.Map → ConditionId → List (DeferredRequirement S)
  entries_under m condition = or_default (M.get m condition)

  get-push_deferred :
      (m : M.Map) (entry : DeferredRequirement S) (k : ConditionId)
      → M.get (push_deferred M m entry) k ≡ (
          if entry.condition == k
          then some (entries_under m entry.condition ++ (entry ∷ []))
          else M.get m k)
  unfolding push_deferred
  get-push_deferred m entry k = elim (Option-cases (M.get m entry.condition)) [
    | inl none_yet ↦
        let is : push_deferred M m entry ≡ M.put m entry.condition (entry ∷ []) =
          rw (none_yet, push_deferred) refl in
        ap (λ m. M.get m k) is
        ∙ M.get-put m entry.condition k (entry ∷ [])
        ∙ ap (λ o. if entry.condition == k then some (or_default o ++ (entry ∷ [])) else M.get m k)
            (sym none_yet)
    | inr (entries, has) ↦
        let is : push_deferred M m entry ≡ M.put m entry.condition (entries ++ (entry ∷ [])) =
          rw (has, push_deferred) refl in
        ap (λ m. M.get m k) is
        ∙ M.get-put m entry.condition k (entries ++ (entry ∷ []))
        ∙ ap (λ o. if entry.condition == k then some (or_default o ++ (entry ∷ [])) else M.get m k)
            (sym has)
  ]

  -- A deferred requirement that is pushed comes behind those already under its condition, if there
  -- are any: a drain of that condition then does not panic and returns it last, if it fires, and
  -- otherwise keeps it last; the other entries are returned or kept in order, and the entries of
  -- other conditions are as before the push.
  pub drain_fired_deferred-push_deferred :
      (decided : S → Bool) (m : M.Map) (entry : DeferredRequirement S)
      → Returns (drain_fired_deferred M decided (push_deferred M m entry) entry.condition) (λ r.
        Drained M decided m entry.condition (entries_under m entry.condition ++ (entry ∷ [])) r
        × (r.0
            ≡ kept (fires decided) (entries_under m entry.condition)
              ++ (if fires decided entry then entry ∷ [] else [])))
  drain_fired_deferred-push_deferred decided m entry =
      let entries = entries_under m entry.condition in
      let pushed : M.get (push_deferred M m entry) entry.condition
          ≡ some (entries ++ (entry ∷ [])) =
        get-push_deferred m entry entry.condition ∙ rw (==_refl entry.condition) refl in
      let (r, run, d) =
        drain_fired_deferred-Drained decided (push_deferred M m entry) entry.condition
          (entries ++ (entry ∷ [])) pushed in
      (
        r,
        run,
        (
          record {
            fired = d.fired;
            stays = d.stays;
            others = λ k ne. d.others k ne ∙ get-push_deferred m entry k ∙ rw ne refl;
          },
          d.fired ∙ kept-append (fires decided) entries (entry ∷ []),
        ),
      )
