-- ===== src/Mapping/Laws.antt =====
-- src/utils/mapping.rs behaves as a finite map from ids to values, whatever the chunks.
use resolvo.Prelude.{
  ℕ, zero, suc, ◌+◌, ◌-◌, ◌/◌, ◌≤◌, ◌<◌, ◌≡◌, refl, sym, ◌∙◌, inl, inr, Option, none, some, [],
  arith, leb, ◌==◌, if◌then◌else◌, is_some, length, Bool-cases, max,
}
use resolvo.Mapping.{Mapping, slot, fit, new, insert, unset, get}
use resolvo.Mapping.Chunks.{
  IsChunked, fit-IsChunked, length-fit, set_slot-IsChunked, slot-set_slot, slot-fit, slot_above,
}

module _ {V : Type 0} where
  -- A read past the last chunk finds nothing, so that bounds do not matter.
  pub get-slot : (m : Mapping V) (i : ℕ) → get m i ≡ slot m.chunks i
  unfolding get
  get-slot m i = ground (arith, slot_above m.chunks i)

  -- The values with ids below `n`.
  abbrev pub count_below : (ℕ → Option V) → ℕ → ℕ
  count_below f zero = 0
  count_below f (suc n) = (if is_some (f n) then 1 else 0) + count_below f n

  -- `len` counts the values, all of which have ids up to `max`.
  pub record IsValid (m : Mapping V) : Type 0 where
    pub chunked : IsChunked m.chunks
    pub bounded : (i : ℕ) → m.max_id < i → get m i ≡ none
    pub counted : m.len ≡ count_below (get m) (m.max_id + 1)

  count_below-update :
      (f g : ℕ → Option V) (i : ℕ) (o : Option V) (n : ℕ)
      → ((j : ℕ) → g j ≡ (if i == j then o else f j))
      → count_below g n + (if leb n i then 0 else if is_some (f i) then 1 else 0)
        ≡ count_below f n + (if leb n i then 0 else if is_some o then 1 else 0)
  count_below-update f g i o zero h = ground arith
  count_below-update f g i o (suc n) h = ground (arith, count_below-update f g i o n h, h n, h i)

  count_below-extend :
      (f : ℕ → Option V) (n k : ℕ)
      → ((i : ℕ) → n ≤ i → f i ≡ none)
      → count_below f (n + k) ≡ count_below f n
  count_below-extend f n zero h = let e : n + 0 ≡ n = omega arith in rw e
  count_below-extend f n (suc k) h =
      let e : n + suc k ≡ suc (n + k) = omega arith in
      rw e (ground (arith, count_below-extend f n k h, h (n + k)))

  count_below-none : (f : ℕ → Option V) (n : ℕ) → ((i : ℕ) → f i ≡ none) → count_below f n ≡ 0
  count_below-none f zero h = refl
  count_below-none f (suc n) h = ground (arith, h n, count_below-none f n h)

  -- The state after an operation, whose values are those of `m` but for `o` at `i`.
  pub record Updated (m : Mapping V) (i : ℕ) (o : Option V) (m' : Mapping V) : Type 0 where
    pub valid : IsValid m'
    pub values : (j : ℕ) → get m' j ≡ (if i == j then o else get m j)

  module _ (m : Mapping V) (i : ℕ) (v : V) (valid : IsValid m) where
    inserted_values : (j : ℕ) → get (insert m i v).1 j ≡ (if i == j then some v else get m j)
    unfolding insert
    inserted_values j =
        get-slot (insert m i v).1 j
        ∙ slot-set_slot (fit m.chunks i) i j (some v) (fit-IsChunked m.chunks i valid.chunked)
            (length-fit m.chunks i)
        ∙ ground (arith, slot-fit m.chunks i j, get-slot m j)

    inserted_counted :
        (insert m i v).1.len ≡ count_below (get (insert m i v).1) ((insert m i v).1.max_id + 1)
    unfolding insert
    inserted_counted =
        let f = get m in
        let g = get (insert m i v).1 in
        let top = max m.max_id i in
        let step = count_below-update f g i (some v) (top + 1) inserted_values in
        let more =
          count_below-extend f (m.max_id + 1) (top - m.max_id)
            (λ j h. valid.bounded j (omega arith)) in
        let e : m.max_id + 1 + (top - m.max_id) ≡ top + 1 = omega arith in
        let more' = rw e at more in
        ground (arith, slot-fit m.chunks i i, get-slot m i, valid.counted)

    inserted_bounded : (j : ℕ) → (insert m i v).1.max_id < j → get (insert m i v).1 j ≡ none
    unfolding insert
    inserted_bounded j h = ground (arith, inserted_values j, valid.bounded j)

    inserted-IsChunked : IsChunked (insert m i v).1.chunks
    unfolding insert
    inserted-IsChunked =
        set_slot-IsChunked (fit m.chunks i) i (some v) (fit-IsChunked m.chunks i valid.chunked)
          (length-fit m.chunks i)

    -- On a valid mapping `insert` returns the previous value, stores the new one under its id alone, grows as needed,
    -- and keeps the count of the values.
    pub insert-Updated : ((insert m i v).0 ≡ get m i) × Updated m i (some v) (insert m i v).1
    unfolding insert
    insert-Updated = (
      slot-fit m.chunks i i ∙ sym (get-slot m i),
      record {
        valid = record {
          chunked = inserted-IsChunked;
          bounded = inserted_bounded;
          counted = inserted_counted;
        };
        values = inserted_values;
      },
    )

  module _ (m : Mapping V) (i : ℕ) (valid : IsValid m) where
    unset_values : (j : ℕ) → get (unset m i).1 j ≡ (if i == j then none else get m j)
    unfolding unset
    unset_values j = elim (Bool-cases (leb (length m.chunks) (i / 128))) [
      | inl out ↦ rw out (ground (arith, slot_above m.chunks i, get-slot m i))
      | inr fits ↦ rw fits (
          get-slot _ j
          ∙ slot-set_slot m.chunks i j none valid.chunked (ground arith)
          ∙ ground (arith, get-slot m j))
    ]

    unset_counted : (unset m i).1.len ≡ count_below (get (unset m i).1) ((unset m i).1.max_id + 1)
    unfolding unset
    unset_counted =
        let step =
          count_below-update (get m) (get (unset m i).1) i none (m.max_id + 1) unset_values in
        ground (arith, get-slot m i, valid.counted, valid.bounded i, slot_above m.chunks i)

    -- On a valid mapping `unset` returns the previous value, removes it, and keeps every other one and the count.
    pub unset-Updated : ((unset m i).0 ≡ get m i) × Updated m i none (unset m i).1
    unfolding unset
    unset-Updated = (
      ground (arith, get-slot m i, slot_above m.chunks i),
      record {
        valid = record {
          chunked = elim (Bool-cases (leb (length m.chunks) (i / 128))) [
            | inl out ↦ rw out valid.chunked
            | inr fits ↦ rw fits (set_slot-IsChunked m.chunks i none valid.chunked (ground arith))
          ];
          bounded = λ j h. ground (arith, unset_values j, valid.bounded j);
          counted = unset_counted;
        };
        values = unset_values;
      },
    )

  pub new-IsValid : (m : Mapping V) → m ≡ new → IsValid m × ((i : ℕ) → get m i ≡ none)
  unfolding new fit
  new-IsValid m e = rw e (
    record {
      chunked = fit-IsChunked [] 0 tt;
      bounded = λ i h. empty i;
      counted = sym (count_below-none (get new) 1 empty);
    },
    empty,
  )
    where
      empty : (i : ℕ) → get {V = V} new i ≡ none
      empty i = get-slot new i ∙ slot-fit [] 0 i ∙ slot_above [] i (omega arith)
