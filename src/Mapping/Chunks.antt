-- ===== src/Mapping/Chunks.antt =====
-- Reading and writing the chunks of src/utils/mapping.rs.
use resolvo.Prelude.{
  ℕ, zero, suc, ◌+◌, ◌-◌, ◌/◌, ◌%◌, ◌≤◌, ◌<◌, ◌≡◌, refl, ◌∙◌, inl, inr, Option, none, List, [], ◌∷◌,
  ◌++◌, arith, leb, ◌==◌, if◌then◌else◌, length, get_or, set, replicate, All, Bool-cases,
  get_or-set, get_or_above, length-append, length-replicate, length-set, get_or-append_replicate,
}
use resolvo.Mapping.{empty_chunk, chunk_of, offset_of, slot, set_slot, fit}

module _ {V : Type 0} where
  -- Every chunk has its 128 slots.
  abbrev pub IsChunked : List (List (Option V)) → Type 0
  IsChunked chunks = All (λ c. length c ≡ 128) chunks

  length-empty_chunk : (c : List (Option V)) → c ≡ empty_chunk → length c ≡ 128
  unfolding empty_chunk
  length-empty_chunk c e = rw e (length-replicate {A = Option V} 128 none)

  IsChunked-replicate : (n : ℕ) (c : List (Option V)) → length c ≡ 128 → IsChunked (replicate n c)
  IsChunked-replicate zero c h = tt
  IsChunked-replicate (suc n) c h = (h, IsChunked-replicate n c h)

  IsChunked-get_or :
      (chunks : List (List (Option V))) (i : ℕ)
      → IsChunked chunks
      → i < length chunks
      → length (get_or chunks i []) ≡ 128
  IsChunked-get_or [] i h lt = absurd (omega arith)
  IsChunked-get_or (c ∷ cs) zero h lt = h.0
  IsChunked-get_or (c ∷ cs) (suc i) h lt = IsChunked-get_or cs i h.1 (omega arith)

  IsChunked-set :
      (chunks : List (List (Option V))) (i : ℕ) (c : List (Option V))
      → IsChunked chunks
      → length c ≡ 128
      → IsChunked (set chunks i c)
  IsChunked-set [] i c h e = tt
  IsChunked-set (d ∷ ds) zero c h e = (e, h.1)
  IsChunked-set (d ∷ ds) (suc i) c h e = (h.0, IsChunked-set ds i c h.1 e)

  IsChunked-append :
      (xs ys : List (List (Option V))) → IsChunked xs → IsChunked ys → IsChunked (xs ++ ys)
  IsChunked-append [] ys hx hy = hy
  IsChunked-append (x ∷ xs) ys hx hy = (hx.0, IsChunked-append xs ys hx.1 hy)

  pub fit-IsChunked :
      (chunks : List (List (Option V))) (id : ℕ) → IsChunked chunks → IsChunked (fit chunks id)
  unfolding fit
  fit-IsChunked chunks id h = elim (Bool-cases (leb (length chunks) (chunk_of id))) [
    | inl e ↦ rw e (
        IsChunked-append chunks _ h
          (IsChunked-replicate _ empty_chunk (length-empty_chunk empty_chunk refl)))
    | inr e ↦ rw e h
  ]

  pub length-fit : (chunks : List (List (Option V))) (id : ℕ) → chunk_of id < length (fit chunks id)
  unfolding fit
  length-fit chunks id = ground (
    arith,
    length-append chunks (replicate (id / 128 + 1 - length chunks) empty_chunk),
    length-replicate (id / 128 + 1 - length chunks) (empty_chunk {V = V}),
  )

  pub set_slot-IsChunked :
      (chunks : List (List (Option V))) (id : ℕ) (o : Option V)
      → IsChunked chunks
      → id / 128 < length chunks
      → IsChunked (set_slot chunks id o)
  unfolding set_slot
  set_slot-IsChunked chunks id o h lt =
      IsChunked-set chunks _ _ h (length-set _ _ o ∙ IsChunked-get_or chunks _ h lt)

  pub slot-set_slot :
      (chunks : List (List (Option V))) (i j : ℕ) (o : Option V)
      → IsChunked chunks
      → i / 128 < length chunks
      → slot (set_slot chunks i o) j ≡ (if i == j then o else slot chunks j)
  unfolding slot set_slot
  slot-set_slot chunks i j o h lt =
      let old = get_or chunks (i / 128) [] in
      let full : length old ≡ 128 = IsChunked-get_or chunks (i / 128) h lt in
      ground (
        arith,
        get_or-set chunks (i / 128) (j / 128) (set old (i % 128) o) [],
        get_or-set old (i % 128) (j % 128) o none,
      )

  get_or-empty_chunk : (j : ℕ) → get_or (empty_chunk {V = V}) j none ≡ none
  unfolding empty_chunk
  get_or-empty_chunk j = get_or-append_replicate {A = Option V} [] 128 j none

  slot-append_empty :
      (chunks : List (List (Option V))) (n i j : ℕ)
      → get_or (get_or (chunks ++ replicate n empty_chunk) i []) j none
        ≡ get_or (get_or chunks i []) j none
  slot-append_empty [] zero i j = refl
  slot-append_empty [] (suc n) zero j = get_or-empty_chunk j
  slot-append_empty [] (suc n) (suc i) j = slot-append_empty [] n i j
  slot-append_empty (c ∷ cs) n zero j = refl
  slot-append_empty (c ∷ cs) n (suc i) j = slot-append_empty cs n i j

  pub slot-fit :
      (chunks : List (List (Option V))) (id j : ℕ) → slot (fit chunks id) j ≡ slot chunks j
  unfolding fit slot
  slot-fit chunks id j = elim (Bool-cases (leb (length chunks) (chunk_of id))) [
    | inl e ↦ rw e (slot-append_empty chunks _ (chunk_of j) (offset_of j))
    | inr e ↦ rw e
  ]

  pub slot_above :
      (chunks : List (List (Option V))) (i : ℕ) → length chunks ≤ i / 128 → slot chunks i ≡ none
  unfolding slot
  slot_above chunks i h = rw (get_or_above chunks (i / 128) [] h)
