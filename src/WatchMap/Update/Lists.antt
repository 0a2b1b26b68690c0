-- ===== src/WatchMap/Update/Lists.antt =====
-- The lists after `update` of src/solver/watch_map.rs: each is still a chain of the clauses that it
-- holds.
use resolvo.Prelude.{
  ℕ, ◌≡◌, ◌≢◌, sym, ap, ◌∙◌, inl, inr, true, false, Option, none, some, List, [], ◌∷◌, ◌++◌, arith,
  subst, ◌==◌, ◌&&◌, if◌then◌else◌, Bool-cases, Option-cases, ==_iff, Elem, ==_false, ==_refl,
  Elem-append_right,
}
use resolvo.DecisionTracker.{ClauseId}
use resolvo.Literal.{Literal}
use resolvo.Mapping
use resolvo.Clause.{Both, WatchIndex, pick, WatchedLiterals}
use resolvo.WatchMap.{Watches, WatchState, WatchNode, node, index_in}
use resolvo.WatchMap.Chain.{
  Chain, Unique, Chain-frame, Chain-skip, Chain-behind, Unique-middle, Elem-middle, Elem-without,
  Chain-cons, Chain-mem,
}
use resolvo.WatchMap.Links.{next_of, IsApart, IsValid}
use resolvo.WatchMap.Walk.{zip_up, zip_up-append, IsNode}
use resolvo.WatchMap.Update.Unlink.{watched_of, is_before, is_front, Unlinked}
use resolvo.WatchMap.Update.Relink.{Relinked}

-- A node stays one where its clause's watches do.
IsNode-frame :
    (ws ws' : Watches) (l : Literal) (n : WatchNode) (x : ClauseId)
    → watched_of (node ws' x) ≡ watched_of (node ws x)
    → IsNode ws l n x
    → IsNode ws' l n x
IsNode-frame ws ws' l n x same is = elim (Option-cases (node ws' x)) [
  | inl e ↦ let f = is.has in absurd (ground arith)
  | inr (w, e) ↦
      let f = is.has in
      let g : w.watched_literals ≡ is.watches.watched_literals = ground arith in
      record {
        clause = is.clause;
        watches = w;
        has = e;
        index = is.index ∙ ap (λ p. index_in p l) (sym g);
        watching = subst (λ p. pick p (index_in p l) ≡ l) (sym g) is.watching;
      }
]

-- The lists after a clause has gone from the list of `l`, which leaves `rest`, to that of `b`.
abbrev pub moved_chains :
    (Literal → List ClauseId)
    → Literal
    → Literal
    → ClauseId
    → List ClauseId
    → Literal
    → List ClauseId
moved_chains chains l b id rest k =
    if l == k then rest else if b == k then id ∷ chains b else chains k

IsApart-frame :
    (o o' : Option WatchedLiterals) → watched_of o' ≡ watched_of o → IsApart o → IsApart o'
IsApart-frame o none e h = tt
IsApart-frame none (some w') e h = absurd (ground arith)
IsApart-frame (some w) (some w') e h = ground arith

pub before_mem :
    (front xs : List ClauseId) (x : ClauseId) → is_before front x ≡ true → Elem x (zip_up front xs)
before_mem [] xs x h = cc
before_mem (p ∷ r) xs x h =
    let (pre, e) = zip_up-append r in
    subst (Elem x) (sym (e (p ∷ xs))) (Elem-append_right x pre (p ∷ xs) (inl (ground arith)))

eq_of : {a b : ℕ} → (a == b) ≡ true → a ≡ b
eq_of {a} {b} h = (==_iff a b).0 h

-- The list that the clause leaves, between the two halves of the update.
chain_unlinked :
    (s : WatchState) (chains : Literal → List ClauseId) (l : Literal) (front : List ClauseId)
    (id : ClauseId) (post : List ClauseId) (o : Option ClauseId) (s₁ : WatchState)
    → IsValid s chains
    → chains l ≡ zip_up front (id ∷ post)
    → next_of s.watches l id ≡ some o
    → Unlinked s l front o s₁
    → Chain (next_of s₁.watches l) (Mapping.get s₁.watch_map.map l) (zip_up front post)
chain_unlinked s chains l [] id post o s₁ valid list out u =
    let (q, e, rest) =
      Chain-behind (next_of s.watches l) (Mapping.get s.watch_map.map l) [] id post (
        subst (Chain (next_of s.watches l) (Mapping.get s.watch_map.map l)) list
          (valid.linked l)) in
    let same : q ≡ o = cc in
    let head : Mapping.get s₁.watch_map.map l ≡ q = u.heads l ∙ ground arith in
    subst (λ h. Chain (next_of s₁.watches l) h post) (sym head)
      (Chain-frame (next_of s.watches l) (next_of s₁.watches l) q post
        (λ x m. u.links l x ∙ ground arith) rest)
chain_unlinked s chains l (p ∷ r) id post o s₁ valid list out u =
    let (pre, e) = zip_up-append r in
    let whole = list ∙ e (p ∷ id ∷ post) in
    let old =
      subst (Chain (next_of s.watches l) (Mapping.get s.watch_map.map l)) whole (valid.linked l) in
    let once = subst Unique whole (valid.unique l) in
    let head : Mapping.get s₁.watch_map.map l ≡ Mapping.get s.watch_map.map l =
      u.heads l ∙ ground arith in
    subst (λ h. Chain (next_of s₁.watches l) h (zip_up r (p ∷ post))) (sym head)
      (subst (Chain (next_of s₁.watches l) (Mapping.get s.watch_map.map l)) (sym (e (p ∷ post))) (
        Chain-skip (next_of s.watches l) (next_of s₁.watches l) (Mapping.get s.watch_map.map l) pre
          p id post o out (u.links l p ∙ ground arith)
          (λ x m.
            u.links l x
            ∙ rw (
              ==_refl l,
              ==_false p x (λ h.
                  (Unique-middle pre p (id ∷ post) once).0
                    (subst (λ y. Elem y (pre ++ id ∷ post)) (sym h) (Elem-middle x id pre post m))),
            ))
          old))

module _ (s : WatchState) (chains : Literal → List ClauseId) (l b : Literal) (front : List ClauseId)
    (id : ClauseId) (post : List ClauseId) (o : Option ClauseId) (i : WatchIndex) (w : Both Literal)
    (s₁ s₂ : WatchState) (valid : IsValid s chains) (list : chains l ≡ zip_up front (id ∷ post))
    (out : next_of s.watches l id ≡ some o) (ne : b ≢ l) (unwatched : next_of s.watches b id ≡ none)
    (u : Unlinked s l front o s₁) (r : Relinked s₁ l b id w i s₂) where
  links_of :
      (k : Literal) (x : ClauseId)
      → next_of s₂.watches k x ≡ (
          if id == x
          then if b == k
            then some (Mapping.get s.watch_map.map b)
            else if l == k
            then none
            else next_of s.watches k x
          else if (l == k) && is_before front x
          then some o
          else next_of s.watches k x)
  links_of k x = ground (arith, r.links k x, u.links k x, u.heads b)

  heads_of :
      (k : Literal)
      → Mapping.get s₂.watch_map.map k ≡ (
          if b == k
          then some id
          else if (l == k) && is_front front
          then o
          else Mapping.get s.watch_map.map k)
  heads_of k = ground (arith, r.heads k, u.heads k)

  Unique-at : (¬ Elem id (zip_up front post)) × Unique (zip_up front post)
  Unique-at =
      let (pre, e) = zip_up-append front in
      let at : Unique (pre ++ id ∷ post) = subst Unique (list ∙ e (id ∷ post)) (valid.unique l) in
      rw (e post) (Unique-middle pre id post at)

  not_in_b : ¬ Elem id (chains b)
  not_in_b m =
      let (q, e) =
        Chain-mem (next_of s.watches b) (Mapping.get s.watch_map.map b) (chains b) id
          (valid.linked b) m in
      cc

  ne_of_mem : (xs : List ClauseId) (x : ClauseId) → ¬ Elem id xs → Elem x xs → (id == x) ≡ false
  ne_of_mem xs x h m = ==_false id x (λ e. h (subst (λ y. Elem y xs) (sym e) m))

  chain_other :
      (k : Literal)
      → (l == k) ≡ false
      → (b == k) ≡ false
      → Chain (next_of s₂.watches k) (Mapping.get s₂.watch_map.map k) (chains k)
  chain_other k h h' =
      rw (heads_of k, h, h')
        (Chain-frame (next_of s.watches k) (next_of s₂.watches k) (Mapping.get s.watch_map.map k)
          (chains k) (λ x m. ground (arith, links_of k x)) (valid.linked k))

  chain_new :
      (k : Literal)
      → b ≡ k
      → Chain (next_of s₂.watches k) (Mapping.get s₂.watch_map.map k) (id ∷ chains b)
  chain_new k e =
      subst (λ k. Chain (next_of s₂.watches k) (Mapping.get s₂.watch_map.map k) (id ∷ chains b)) e
        (subst (λ q. Chain (next_of s₂.watches b) q (id ∷ chains b))
          (sym (heads_of b ∙ rw (==_refl b)))
          (Chain-cons (next_of s.watches b) (next_of s₂.watches b) (Mapping.get s.watch_map.map b)
            (chains b) id (links_of b id ∙ rw (==_refl b, ==_refl id))
            (λ x m.
              links_of b x
              ∙ (rw (ne_of_mem (chains b) x not_in_b m, ==_false l b (λ h. ne (sym h)))))
            (valid.linked b)))

  chain_left : Chain (next_of s₂.watches l) (Mapping.get s₂.watch_map.map l) (zip_up front post)
  chain_left =
      let head : Mapping.get s₂.watch_map.map l ≡ Mapping.get s₁.watch_map.map l =
        r.heads l ∙ rw (==_false b l ne) in
      subst (λ h. Chain (next_of s₂.watches l) h (zip_up front post)) (sym head)
        (Chain-frame (next_of s₁.watches l) (next_of s₂.watches l) (Mapping.get s₁.watch_map.map l)
          (zip_up front post)
          (λ x m. r.links l x ∙ rw (ne_of_mem (zip_up front post) x Unique-at.0 m))
          (chain_unlinked s chains l front id post o s₁ valid list out u))

  in_left :
      (x : ClauseId) (q : Option ClauseId)
      → next_of s₂.watches l x ≡ some q
      → Elem x (zip_up front post)
  in_left x q h = elim (Bool-cases (id == x)) [
    | inl same ↦ let f = ==_false b l ne in absurd (ground (arith, links_of l x))
    | inr other ↦
        let (pre, e) = zip_up-append front in
        let ne' : id ≢ x = ground arith in
        let old : Elem x (zip_up front (id ∷ post)) = elim (Bool-cases (is_before front x)) [
          | inl before ↦ before_mem front (id ∷ post) x before
          | inr not_before ↦
              subst (Elem x) list (valid.complete l x q (ground (arith, links_of l x)))
        ] in
        subst (Elem x) (sym (e post))
          (Elem-without x id pre post ne' (subst (Elem x) (e (id ∷ post)) old))
  ]

  in_new :
      (x : ClauseId) (q : Option ClauseId)
      → next_of s₂.watches b x ≡ some q
      → Elem x (id ∷ chains b)
  in_new x q h = elim (Bool-cases (id == x)) [
    | inl same ↦ inl (ground arith)
    | inr other ↦
        inr (valid.complete b x q (ground (arith, links_of b x, ==_false l b (λ h. ne (sym h)))))
  ]

  complete_of :
      (k : Literal) (x : ClauseId) (q : Option ClauseId)
      → next_of s₂.watches k x ≡ some q
      → Elem x (moved_chains chains l b id (zip_up front post) k)
  complete_of k x q h = elim (Bool-cases (l == k)) [
    | inl mine ↦
        rw mine (in_left x q (subst (λ k. next_of s₂.watches k x ≡ some q) (sym (eq_of mine)) h))
    | inr not_mine ↦ elim (Bool-cases (b == k)) [
      | inl new ↦
          rw (not_mine, new)
            (in_new x q (subst (λ k. next_of s₂.watches k x ≡ some q) (sym (eq_of new)) h))
      | inr other ↦ rw (not_mine, other) (valid.complete k x q (ground (arith, links_of k x)))
    ]
  ]

  pub moved-IsValid : IsValid s₂ (moved_chains chains l b id (zip_up front post))
  moved-IsValid = record {
    mapped = r.mapped;
    linked = λ k. elim (Bool-cases (l == k)) [
      | inl mine ↦
          let e : l ≡ k = ground arith in
          rw mine (
            subst
              (λ k.
                Chain (next_of s₂.watches k) (Mapping.get s₂.watch_map.map k) (zip_up front post))
              e chain_left)
      | inr not_mine ↦ elim (Bool-cases (b == k)) [
        | inl new ↦ rw (not_mine, new) (chain_new k (ground arith))
        | inr other ↦ rw (not_mine, other) (chain_other k not_mine other)
      ]
    ];
    unique = λ k. elim (Bool-cases (l == k)) [
      | inl mine ↦ rw mine Unique-at.1
      | inr not_mine ↦ elim (Bool-cases (b == k)) [
        | inl new ↦ rw (not_mine, new) (not_in_b, valid.unique b)
        | inr other ↦ rw (not_mine, other) (valid.unique k)
      ]
    ];
    complete = complete_of;
    apart = λ x.
        r.apart x
          (IsApart-frame (node s.watches x) (node s₁.watches x) (u.same_watched x) (valid.apart x));
  }

  old_nodes :
      (x : ClauseId)
      → (id == x) ≡ false
      → watched_of (node s₂.watches x) ≡ watched_of (node s.watches x)
  old_nodes x h = r.new_watched x ∙ rw h (u.same_watched x)

  pub moved-IsNode :
      (n : WatchNode) (x : ClauseId)
      → Elem x (zip_up front post)
      → IsNode s.watches l n x
      → IsNode s₂.watches l n x
  moved-IsNode n x m is =
      IsNode-frame s.watches s₂.watches l n x
        (old_nodes x (ne_of_mem (zip_up front post) x Unique-at.0 m)) is
