-- ===== src/AtMostOnce/Bits.antt =====
-- The binary digits of src/solver/binary_encoding.rs: the two tests of a bit agree, and they tell
-- numbers apart.
use Prim.Native.Nat.{bit_and, digits, bit_and-bitwise}
use resolvo.Prelude.{
  ℕ, zero, suc, ◌+◌, ◌*◌, ◌/◌, ◌%◌, ◌^◌, ◌≤◌, ◌<◌, min, ◌≡◌, refl, sym, ap, ◌∙◌, Bool, arith, ◌==◌,
}
use resolvo.AtMostOnce.{shift_right}

-- Conjunction digit by digit, for as many digits as there is fuel.
abbrev conjunction : (fuel idx mask : ℕ) → ℕ
conjunction fuel idx mask = digits (λ rest. 0) min fuel idx mask

-- More fuel than digits changes nothing.
fuel_irrelevant :
    (mask idx fuel more : ℕ)
    → idx ≤ more
    → idx ≤ fuel
    → conjunction more idx mask ≡ conjunction fuel idx mask
fuel_irrelevant mask (suc idx) (suc fuel) (suc more) le le' =
    let halves = fuel_irrelevant (mask / 2) (suc idx / 2) fuel more (omega arith) (omega arith) in
    omega arith
fuel_irrelevant mask (suc idx) fuel zero le le' = absurd (omega arith)
fuel_irrelevant mask (suc idx) zero (suc more) le le' = absurd (omega arith)
fuel_irrelevant mask zero (suc fuel) (suc more) le le' = refl
fuel_irrelevant mask zero zero (suc more) le le' = refl
fuel_irrelevant mask zero (suc fuel) zero le le' = refl
fuel_irrelevant mask zero zero zero le le' = refl

-- The lowest digit, and the others.
bit_and-halves :
    (mask idx : ℕ) → bit_and idx mask ≡ min (idx % 2) (mask % 2) + 2 * bit_and (idx / 2) (mask / 2)
bit_and-halves mask zero =
    let whole = bit_and-bitwise zero mask in
    let half = bit_and-bitwise zero (mask / 2) in omega arith
bit_and-halves mask (suc idx) =
    let whole = bit_and-bitwise (suc idx) mask in
    let half = bit_and-bitwise (suc idx / 2) (mask / 2) in
    let fuel =
      fuel_irrelevant (mask / 2) (suc idx / 2) (suc idx / 2) idx (omega arith) (omega arith) in
    omega arith

no_mask : (bound idx : ℕ) → idx ≤ bound → bit_and idx 0 ≡ 0
no_mask (suc bound) (suc idx) le =
    let half = no_mask bound (suc idx / 2) (omega arith) in
    let e = bit_and-halves 0 (suc idx) in omega arith
no_mask zero (suc idx) le = absurd (omega arith)
no_mask bound zero le = bit_and-bitwise zero 0

lowest_bit : (idx : ℕ) → bit_and idx 1 ≡ idx % 2
lowest_bit idx =
    let e = bit_and-halves 1 idx in
    let none_left = no_mask idx (idx / 2) (omega arith) in omega arith

pub power_suc : (n : ℕ) → 2 ^ suc n ≡ 2 * 2 ^ n
power_suc n = omega arith

pub power-positive : (n : ℕ) → 0 < 2 ^ n
power-positive zero = omega arith
power-positive (suc n) = let h = power-positive n in let e = power_suc n in omega arith

-- The bit of a number.
unfoldable pub bit : ℕ → ℕ → Bool
bit i b = bit_and (shift_right i b) 1 == 1

pub bit_zero : (i : ℕ) → bit i 0 ≡ (i % 2 == 1)
unfolding bit shift_right
bit_zero i = ap (λ x. x == 1) (lowest_bit i)

pub bit-suc : (i b : ℕ) → bit i (suc b) ≡ bit (i / 2) b
unfolding bit shift_right
bit-suc i b = refl

-- The test with a mask is the test of the bit.
pub mask_bit : (i b : ℕ) → (bit_and i (2 ^ b) == 2 ^ b) ≡ bit i b
mask_bit i zero = ap (λ x. x == 1) (lowest_bit i) ∙ sym (bit_zero i)
mask_bit i (suc b) =
    let e = power_suc b in
    let d : 2 ^ suc b / 2 ≡ 2 ^ b = omega arith in
    let r : bit_and i (2 ^ suc b) ≡ 2 * bit_and (i / 2) (2 ^ b) =
      let h = bit_and-halves (2 ^ suc b) i in h ∙ rw d (omega arith) in
    let same : (bit_and i (2 ^ suc b) == 2 ^ suc b) ≡ (bit_and (i / 2) (2 ^ b) == 2 ^ b) =
      ground arith in
    same ∙ mask_bit (i / 2) b ∙ sym (bit-suc i b)

-- Numbers below a power of two with the same bits are equal.
pub same_bits : (n i j : ℕ) → i < 2 ^ n → j < 2 ^ n → ((b : ℕ) → b < n → bit i b ≡ bit j b) → i ≡ j
same_bits zero i j p q h = omega arith
same_bits (suc n) i j p q h =
    let e = power_suc n in
    let halves =
      same_bits n (i / 2) (j / 2) (omega arith) (omega arith)
        (λ b less. sym (bit-suc i b) ∙ h (suc b) (omega arith) ∙ bit-suc j b) in
    let odd : (i % 2 == 1) ≡ (j % 2 == 1) = sym (bit_zero i) ∙ h 0 (omega arith) ∙ bit_zero j in
    ground arith
