-- ===== src/WatchMap/Start.antt =====
-- `start_watching` of src/solver/watch_map.rs for the newest clause.
use resolvo.Prelude.{
  zero, suc, ◌≡◌, ◌≢◌, refl, ap, ◌∙◌, inl, inr, Option, none, some, List, [], ◌∷◌, ◌++◌, arith,
  Elem, ◌==◌, ◌||◌, if◌then◌else◌, length, Bool-cases, ==_iff,
}
use resolvo.DecisionTracker.{ClauseId}
use resolvo.Literal.{Literal}
use resolvo.Mapping
use resolvo.Mapping.{Mapping}
use resolvo.Mapping.Laws
use resolvo.Mapping.Laws.{insert-Updated}
use resolvo.Clause.{Both, WatchedLiterals}
use resolvo.WatchMap.{Watches, WatchState, node, start_watching_at, start_watching}
use resolvo.WatchMap.Chain.{Chain, Unique, Chain-cons, Chain-frame, Chain-mem}
use resolvo.WatchMap.Links.{next_of, IsApart, IsValid, next_of-node}

-- The lists with a clause in front of those of two literals.
abbrev pub watched : (Literal → List ClauseId) → Both Literal → ClauseId → Literal → List ClauseId
watched chains w id l = if (w.at_zero == l) || (w.at_one == l) then id ∷ chains l else chains l

-- The state with a clause behind all others that has just begun to watch its literals.
abbrev pub started : WatchState → WatchedLiterals → WatchState
started s w =
    let r = start_watching s.watch_map w (length s.watches) in
    record { watch_map = r.0; watches = s.watches ++ some r.1 ∷ [] }

node-append :
    (ws : Watches) (w : WatchedLiterals) (x : ClauseId)
    → node (ws ++ some w ∷ []) x ≡ (if length ws == x then some w else node ws x)
node-append [] w zero = ground arith
node-append [] w (suc x) = ground arith
node-append (y ∷ ws) w zero = ground arith
node-append (y ∷ ws) w (suc x) = ground (arith, node-append ws w x)

node_last : (ws : Watches) → node ws (length ws) ≡ none
node_last [] = refl
node_last (w ∷ ws) = node_last ws

module _ (s : WatchState) (chains : Literal → List ClauseId) (w : WatchedLiterals)
    (valid : IsValid s chains)
    (apart : w.watched_literals.at_zero ≢ w.watched_literals.at_one) where
  heads :
      (l : Literal)
      → Mapping.get (started s w).watch_map.map l ≡ (
          if (w.watched_literals.at_zero == l) || (w.watched_literals.at_one == l)
          then some (length s.watches)
          else Mapping.get s.watch_map.map l)
  unfolding start_watching start_watching_at
  heads l =
      let first =
        insert-Updated s.watch_map.map w.watched_literals.at_zero (length s.watches) valid.mapped in
      let second =
        insert-Updated
          (Mapping.insert s.watch_map.map w.watched_literals.at_zero (length s.watches)).1
          w.watched_literals.at_one (length s.watches) first.1.valid in
      ground (arith, first.1.values l, second.1.values l)

  links :
      (l : Literal) (x : ClauseId)
      → next_of (started s w).watches l x ≡ (
          if length s.watches == x
          then if w.watched_literals.at_zero == l
            then some (Mapping.get s.watch_map.map l)
            else if w.watched_literals.at_one == l
            then some (Mapping.get s.watch_map.map l)
            else none
          else next_of s.watches l x)
  unfolding next_of start_watching start_watching_at
  links l x =
      let first =
        insert-Updated s.watch_map.map w.watched_literals.at_zero (length s.watches) valid.mapped in
      ground (
        arith,
        node-append s.watches (start_watching s.watch_map w (length s.watches)).1 x,
        first.1.values w.watched_literals.at_one,
        (==_iff w.watched_literals.at_zero l).0,
        (==_iff w.watched_literals.at_one l).0,
      )

  old_links :
      (l : Literal) (x : ClauseId)
      → Elem x (chains l)
      → next_of (started s w).watches l x ≡ next_of s.watches l x
  old_links l x m =
      let (o, e) =
        Chain-mem (next_of s.watches l) (Mapping.get s.watch_map.map l) (chains l) x
          (valid.linked l) m in
      let (v, f, _, _) = next_of-node s.watches l x o e in
      let g = node_last s.watches in
      elim (Bool-cases (length s.watches == x)) [
        | inl same ↦
            let p : length s.watches ≡ x = ground arith in let q = ap (node s.watches) p in cc
        | inr other ↦ links l x ∙ (rw other)
      ]

  fresh : (l : Literal) → ¬ Elem (length s.watches) (chains l)
  fresh l m =
      let (o, e) =
        Chain-mem (next_of s.watches l) (Mapping.get s.watch_map.map l) (chains l)
          (length s.watches) (valid.linked l) m in
      let (v, f, _, _) = next_of-node s.watches l (length s.watches) o e in
      let g = node_last s.watches in cc

  chain_of :
      (l : Literal)
      → Chain
          (next_of (started s w).watches l)
          (Mapping.get (started s w).watch_map.map l)
          (watched chains w.watched_literals (length s.watches) l)
  chain_of l =
      elim (Bool-cases ((w.watched_literals.at_zero == l) || (w.watched_literals.at_one == l))) [
        | inl mine ↦
            rw (heads l, mine)
              (Chain-cons (next_of s.watches l) (next_of (started s w).watches l)
                (Mapping.get s.watch_map.map l) (chains l) (length s.watches)
                (links l (length s.watches) ∙ ground arith) (old_links l) (valid.linked l))
        | inr not_mine ↦
            rw (heads l, not_mine)
              (Chain-frame (next_of s.watches l) (next_of (started s w).watches l)
                (Mapping.get s.watch_map.map l) (chains l) (old_links l) (valid.linked l))
      ]

  complete_of :
      (l : Literal) (x : ClauseId) (o : Option ClauseId)
      → next_of (started s w).watches l x ≡ some o
      → Elem x (watched chains w.watched_literals (length s.watches) l)
  complete_of l x o e =
      elim (Bool-cases ((w.watched_literals.at_zero == l) || (w.watched_literals.at_one == l))) [
        | inl mine ↦ rw mine (elim (Bool-cases (length s.watches == x)) [
          | inl same ↦ inl (ground arith)
          | inr other ↦ inr (valid.complete l x o (ground (arith, links l x)))
        ])
        | inr not_mine ↦ rw not_mine (valid.complete l x o (ground (arith, links l x)))
      ]

  Unique-of : (l : Literal) → Unique (watched chains w.watched_literals (length s.watches) l)
  Unique-of l =
      elim (Bool-cases ((w.watched_literals.at_zero == l) || (w.watched_literals.at_one == l))) [
        | inl mine ↦ rw mine (fresh l, valid.unique l)
        | inr not_mine ↦ rw not_mine (valid.unique l)
      ]

  IsApart-of : (x : ClauseId) → IsApart (node (started s w).watches x)
  unfolding start_watching start_watching_at
  IsApart-of x =
      rw (node-append s.watches (start_watching s.watch_map w (length s.watches)).1 x)
        (elim (Bool-cases (length s.watches == x)) [
          | inl same ↦ rw same apart
          | inr other ↦ rw other (valid.apart x)
        ])

  mapped_of : Laws.IsValid (started s w).watch_map.map
  unfolding start_watching start_watching_at
  mapped_of =
      let first =
        insert-Updated s.watch_map.map w.watched_literals.at_zero (length s.watches) valid.mapped in
      (insert-Updated
        (Mapping.insert s.watch_map.map w.watched_literals.at_zero (length s.watches)).1
        w.watched_literals.at_one (length s.watches) first.1.valid).1.valid

-- In a valid state the newest clause, watching two different literals, comes to stand at the front of the lists of
-- these two and nowhere else; all other lists and all links stay as they are.
pub start_watching-IsValid :
    (s : WatchState) (chains : Literal → List ClauseId) (w : WatchedLiterals)
    → IsValid s chains
    → w.watched_literals.at_zero ≢ w.watched_literals.at_one
    → IsValid (started s w) (watched chains w.watched_literals (length s.watches))
start_watching-IsValid s chains w valid apart = record {
  mapped = mapped_of s chains w valid apart;
  linked = chain_of s chains w valid apart;
  unique = Unique-of s chains w valid apart;
  complete = complete_of s chains w valid apart;
  apart = IsApart-of s chains w valid apart;
}
