-- ===== src/Mapping.antt =====
-- src/utils/mapping.rs: a map from dense ids to values, kept in chunks of 128 optional values that
-- are added as ids grow. An id is its index. The children prove its laws and those of its iterator.
pub mod Chunks
pub mod Laws
pub mod Iteration
use resolvo.Prelude.{
  ℕ, zero, suc, ◌+◌, ◌-◌, ◌*◌, ◌/◌, ◌%◌, max, Bool, true, false, Option, none, some, List, [], ◌∷◌,
  ◌++◌, leb, ◌==◌, if◌then◌else◌, is_some, length, get_or, set, replicate,
}

abbrev pub values_per_chunk : ℕ
values_per_chunk = 128

-- `std::array::from_fn(|_| None)`
unfoldable pub empty_chunk {ℓ} : {V : Type ℓ} → List (Option V)
empty_chunk = replicate values_per_chunk none

pub record Mapping {ℓ} (V : Type ℓ) : Type ℓ where
  pub chunks : List (List (Option V))
  pub len : ℕ
  pub max_id : ℕ

abbrev pub chunk_of : ℕ → ℕ
chunk_of id = id / values_per_chunk

abbrev pub offset_of : ℕ → ℕ
offset_of id = id % values_per_chunk

module _ {ℓ} {V : Type ℓ} where
  -- `resize_with` to a length that is not smaller.
  abbrev pub resize_with : List (List (Option V)) → ℕ → List (List (Option V))
  resize_with chunks n = chunks ++ replicate (n - length chunks) empty_chunk

  unfoldable pub with_capacity : ℕ → Mapping V
  with_capacity n = record {
    chunks = resize_with [] ((max 1 n - 1) / values_per_chunk + 1);
    len = 0;
    max_id = 0;
  }

  unfoldable pub new : Mapping V
  unfolding with_capacity
  new = with_capacity 1

  -- The slot `chunks[chunk][offset]`, read and written.
  unfoldable pub slot : List (List (Option V)) → ℕ → Option V
  slot chunks id = get_or (get_or chunks (chunk_of id) []) (offset_of id) none

  unfoldable pub set_slot : List (List (Option V)) → ℕ → Option V → List (List (Option V))
  set_slot chunks id o =
      set chunks (chunk_of id) (set (get_or chunks (chunk_of id) []) (offset_of id) o)

  -- The chunks after the resize that makes room for `id`.
  unfoldable pub fit : List (List (Option V)) → ℕ → List (List (Option V))
  fit chunks id =
      if leb (length chunks) (chunk_of id) then resize_with chunks (chunk_of id + 1) else chunks

  -- The previous value comes first.
  unfoldable pub insert : Mapping V → ℕ → V → Option V × Mapping V
  insert m id value =
      let chunks = fit m.chunks id in
      let previous_value = slot chunks id in
      (
        previous_value,
        record {
          chunks = set_slot chunks id (some value);
          len = if is_some previous_value then m.len else m.len + 1;
          max_id = max m.max_id id;
        },
      )

  -- The state, and the value that the returned reference points to.
  unfoldable pub get_or_insert_with : Mapping V → ℕ → V → V × Mapping V
  get_or_insert_with m id default =
      let chunks = fit m.chunks id in
      elim (slot chunks id) [
        | some value ↦ (value, record m { chunks = chunks })
        | none ↦ (
          default,
          record {
            chunks = set_slot chunks id (some default);
            len = m.len + 1;
            max_id = max m.max_id id;
          },
        )
      ]

  unfoldable pub unset : Mapping V → ℕ → Option V × Mapping V
  unset m id =
      if leb (length m.chunks) (chunk_of id)
      then (none, m)
      else let previous_value = slot m.chunks id in
        (
          previous_value,
          record m {
            chunks = set_slot m.chunks id none;
            len = if is_some previous_value then m.len - 1 else m.len;
          },
        )

  unfoldable pub get : Mapping V → ℕ → Option V
  get m id = if leb (length m.chunks) (chunk_of id) then none else slot m.chunks id

  unfoldable pub slots : Mapping V → ℕ
  slots m = length m.chunks * values_per_chunk

  -- What the iterator yields from `offset` on, with `fuel` offsets left before it reaches `len`.
  unfoldable pub iter_from : Mapping V → ℕ → ℕ → List (ℕ × V)
  iter_from m zero offset = []
  iter_from m (suc fuel) offset = elim (slot m.chunks offset) [
    | some value ↦ (offset, value) ∷ iter_from m fuel (offset + 1)
    | none ↦ iter_from m fuel (offset + 1)
  ]

  -- The iterator runs while its offset is below `len`.
  unfoldable pub iter : Mapping V → List (ℕ × V)
  unfolding iter_from
  iter m = iter_from m m.len 0
