-- ===== src/Mapping/Iteration.antt =====
-- The iterator of src/utils/mapping.rs. It stops at the offset `len`, the count of the values, and
-- so it misses a value whose id is not below that count.
use resolvo.Prelude.{
  ℕ, zero, suc, ◌+◌, ◌≤◌, ◌<◌, ◌≡◌, ◌↔◌, sym, ap, ◌∙◌, inl, inr, none, some, ◌∷◌, arith, Elem,
  Option-cases,
}
use native.Mathlib.Decide.{dec_le}
use resolvo.Mapping.{Mapping, slot, get, iter_from, iter}
use resolvo.Mapping.Laws.{get-slot}

module _ {V : Type 0} (m : Mapping V) where
  iter_from-some :
      (fuel offset : ℕ) (v : V)
      → slot m.chunks offset ≡ some v
      → iter_from m (suc fuel) offset ≡ (offset, v) ∷ iter_from m fuel (offset + 1)
  unfolding iter_from
  iter_from-some fuel offset v e = rw (e, iter_from)

  iter_from-none :
      (fuel offset : ℕ)
      → slot m.chunks offset ≡ none
      → iter_from m (suc fuel) offset ≡ iter_from m fuel (offset + 1)
  unfolding iter_from
  iter_from-none fuel offset e = rw (e, iter_from)

  iter_from_sound :
      (fuel offset i : ℕ) (v : V)
      → Elem (i, v) (iter_from m fuel offset)
      → (offset ≤ i) × (i < offset + fuel) × (slot m.chunks i ≡ some v)
  iter_from_sound zero offset i v mem = absurd (unfold iter_from in mem)
  iter_from_sound (suc fuel) offset i v mem = elim (Option-cases (slot m.chunks offset)) [
    | inl e ↦
        let (a, b, c) =
          iter_from_sound fuel (offset + 1) i v (rw (iter_from-none fuel offset e) at mem) in
        (omega arith, omega arith, c)
    | inr (w, e) ↦ elim (rw (iter_from-some fuel offset w e) at mem) [
      | inl h ↦
          let p : i ≡ offset = ap (λ (p : ℕ × V). p.0) h in
          let q : v ≡ w = ap (λ (p : ℕ × V). p.1) h in
          (omega arith, omega arith, ap (slot m.chunks) p ∙ e ∙ ap some (sym q))
      | inr rest ↦
          let (a, b, c) = iter_from_sound fuel (offset + 1) i v rest in
          (omega arith, omega arith, c)
    ]
  ]

  iter_from_complete :
      (fuel offset i : ℕ) (v : V)
      → offset ≤ i
      → i < offset + fuel
      → slot m.chunks i ≡ some v
      → Elem (i, v) (iter_from m fuel offset)
  iter_from_complete zero offset i v a b e = absurd (omega arith)
  iter_from_complete (suc fuel) offset i v a b e = elim (dec_le (offset + 1) i) [
    | yes later ↦
        let rest = iter_from_complete fuel (offset + 1) i v later (omega arith) e in
        elim (Option-cases (slot m.chunks offset)) [
          | inl none_here ↦ rw (iter_from-none fuel offset none_here) rest
          | inr (w, here) ↦ rw (iter_from-some fuel offset w here) (inr rest)
        ]
    | no now ↦
        let p : i ≡ offset = omega arith in
        rw (iter_from-some fuel offset v (ap (slot m.chunks) (sym p) ∙ e))
          (inl (ap (λ (n : ℕ). (n, v)) p))
  ]

  -- The iterator yields an id with a value exactly when the id has that value and lies below the
  -- count of the values.
  pub mem-iter : (i : ℕ) (v : V) → Elem (i, v) (iter m) ↔ ((i < m.len) × (get m i ≡ some v))
  unfolding iter
  mem-iter i v = (
    λ mem. let (a, b, c) = iter_from_sound m.len 0 i v mem in (omega arith, get-slot m i ∙ c),
    λ h. iter_from_complete m.len 0 i v (omega arith) (omega arith) (sym (get-slot m i) ∙ h.1),
  )
