-- ===== src/Prelude/Outcome.antt =====
-- The outcome of code that may panic, and of a loop that is given fuel.
use mathlib.Core.Path.{◌≡◌, refl}
use mathlib.Core.Option.{Option, none, some}

infixl 5 ◌>>=◌
-- `panic` is a failed `unwrap`, `expect`, index or assertion.
pub data Run {ℓ} (T : Type ℓ) : Type ℓ where
  panic : Run T
  out_of_fuel : Run T
  ok : T → Run T

-- The run ends, without a panic, in a value that satisfies `P`.
abbrev pub Returns {ℓ κ} : {T : Type ℓ} → Run T → (T → Type κ) → Type (ℓ ⊔ κ)
Returns {T} run P = (t : T) × (run ≡ ok t) × P t

abbrev pub ◌>>=◌ {κ ℓ} : {S : Type κ} {T : Type ℓ} → Run S → (S → Run T) → Run T
panic >>= next = panic
out_of_fuel >>= next = out_of_fuel
ok s >>= next = next s

-- `unwrap`, `expect` and indexing.
abbrev pub expect {ℓ} : {T : Type ℓ} → Option T → Run T
expect none = panic
expect (some t) = ok t

-- Inversion of a successful bind.
pub >>=-eq-ok {κ ℓ} :
    {S : Type κ} {T : Type ℓ} (m : Run S) (f : S → Run T) {t : T}
    → (m >>= f) ≡ ok t
    → (s : S) × (m ≡ ok s) × (f s ≡ ok t)
>>=-eq-ok (ok s) f h = (s, refl, h)
>>=-eq-ok panic f h = cc
>>=-eq-ok out_of_fuel f h = cc
