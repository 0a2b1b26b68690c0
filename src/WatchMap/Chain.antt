-- ===== src/WatchMap/Chain.antt =====
-- Linked lists over a function that gives the next link of a node, for src/solver/watch_map.rs.
use resolvo.Prelude.{
  ◌≡◌, ◌≢◌, refl, sym, ap, ◌∙◌, inl, inr, Option, none, some, List, [], ◌∷◌, ◌++◌, Elem,
  Elem-append_right,
}
use resolvo.DecisionTracker.{ClauseId}

-- The link behind a node of the list, if it is one.
abbrev pub Link : Type 0
Link = ClauseId → Option (Option ClauseId)

-- From `start` the links lead through the nodes `ids` to the end.
abbrev pub Chain : Link → Option ClauseId → List ClauseId → Type 0
Chain nx start [] = start ≡ none
Chain nx start (id ∷ ids) =
    (start ≡ some id) × (s : Option ClauseId) × (nx id ≡ some s) × Chain nx s ids

abbrev pub Unique : List ClauseId → Type 0
Unique [] = Unit
Unique (x ∷ xs) = (¬ Elem x xs) × Unique xs

pub Chain-frame :
    (nx nx' : Link) (start : Option ClauseId) (ids : List ClauseId)
    → ((x : ClauseId) → Elem x ids → nx' x ≡ nx x)
    → Chain nx start ids
    → Chain nx' start ids
Chain-frame nx nx' start [] same c = c
Chain-frame nx nx' start (id ∷ ids) same c =
    (c.0, c.1, same id (inl refl) ∙ c.2, Chain-frame nx nx' c.1 ids (λ x m. same x (inr m)) c.3)

-- A node of the list has a link.
pub Chain-mem :
    (nx : Link) (start : Option ClauseId) (ids : List ClauseId) (x : ClauseId)
    → Chain nx start ids
    → Elem x ids
    → (s : Option ClauseId) × (nx x ≡ some s)
Chain-mem nx start [] x c m = elim m [ ]
Chain-mem nx start (id ∷ ids) x c (inl e) = (c.1, ap nx e ∙ c.2)
Chain-mem nx start (id ∷ ids) x c (inr m) = Chain-mem nx c.1 ids x c.3 m

-- A new node in front.
pub Chain-cons :
    (nx nx' : Link) (start : Option ClauseId) (ids : List ClauseId) (id : ClauseId)
    → nx' id ≡ some start
    → ((x : ClauseId) → Elem x ids → nx' x ≡ nx x)
    → Chain nx start ids
    → Chain nx' (some id) (id ∷ ids)
Chain-cons nx nx' start ids id e same c = (refl, start, e, Chain-frame nx nx' start ids same c)

-- The rest of the list behind a node.
pub Chain-behind :
    (nx : Link) (start : Option ClauseId) (pre : List ClauseId) (id : ClauseId)
    (post : List ClauseId)
    → Chain nx start (pre ++ id ∷ post)
    → (s : Option ClauseId) × (nx id ≡ some s) × Chain nx s post
Chain-behind nx start [] id post c = (c.1, c.2, c.3)
Chain-behind nx start (x ∷ pre) id post c = Chain-behind nx c.1 pre id post c.3

-- The node behind `p` taken out.
pub Chain-skip :
    (nx nx' : Link) (start : Option ClauseId) (pre : List ClauseId) (p id : ClauseId)
    (post : List ClauseId) (s : Option ClauseId)
    → nx id ≡ some s
    → nx' p ≡ some s
    → ((x : ClauseId) → Elem x (pre ++ post) → nx' x ≡ nx x)
    → Chain nx start (pre ++ p ∷ id ∷ post)
    → Chain nx' start (pre ++ p ∷ post)
Chain-skip nx nx' start [] p id post s e e' same c =
    let f : s ≡ c.3.1 = cc (c.3.2) in (c.0, s, e', Chain-frame nx nx' s post same (rw f c.3.3))
Chain-skip nx nx' start (x ∷ pre) p id post s e e' same c = (
  c.0,
  c.1,
  same x (inl refl) ∙ c.2,
  Chain-skip nx nx' c.1 pre p id post s e e' (λ y m. same y (inr m)) c.3,
)

pub Elem-middle :
    (x id : ClauseId) (pre post : List ClauseId) → Elem x (pre ++ post) → Elem x (pre ++ id ∷ post)
Elem-middle x id [] post m = inr m
Elem-middle x id (y ∷ ys) post (inl e) = inl e
Elem-middle x id (y ∷ ys) post (inr m) = inr (Elem-middle x id ys post m)

pub Unique-middle :
    (pre : List ClauseId) (id : ClauseId) (post : List ClauseId)
    → Unique (pre ++ id ∷ post)
    → (¬ Elem id (pre ++ post)) × Unique (pre ++ post)
Unique-middle [] id post u = u
Unique-middle (x ∷ pre) id post u =
    let (out, rest) = Unique-middle pre id post u.1 in
    (
      λ m. elim m [
        | inl e ↦ u.0 (Elem-append_right x pre (id ∷ post) (inl (sym e)))
        | inr r ↦ out r
      ],
      (λ m. u.0 (Elem-middle x id pre post m), rest),
    )

pub Elem-without :
    (x id : ClauseId) (pre post : List ClauseId)
    → id ≢ x
    → Elem x (pre ++ id ∷ post)
    → Elem x (pre ++ post)
Elem-without x id [] post ne (inl e) = absurd (ne (sym e))
Elem-without x id [] post ne (inr m) = m
Elem-without x id (y ∷ ys) post ne (inl e) = inl e
Elem-without x id (y ∷ ys) post ne (inr m) = inr (Elem-without x id ys post ne m)
