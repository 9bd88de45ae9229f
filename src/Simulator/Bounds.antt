-- ===== src/Simulator/Bounds.antt =====
-- Every operation of the interpreter leaves a 32-bit word.
use native.Mathlib.Nat.{div-le_self, mod-le}
use zircon_sim.Prelude.{
  ℕ, zero, suc, ◌-◌, ◌/◌, ◌^◌, ◌<◌, Bool, List, [], ◌∷◌, All, get_or, set, bit_and, arith,
}
use zircon_sim.Word.Xor.{bit_xor-lt, bit_or-lt, bit_and-lt}
use zircon_sim.Simulator.Alu.{
  Effect, undefined, nothing, value, magnitude, shift_arithmetic, divide_signed, remainder_signed,
  base_effect, alternate_effect, multiply_effect, immediate_effect,
}

pub get_or-lt : (xs : List ℕ) (i : ℕ) → All (λ w. w < 2 ^ 32) xs → get_or xs i 0 < 2 ^ 32
get_or-lt [] i h = omega arith
get_or-lt (x ∷ xs) zero h = h.0
get_or-lt (x ∷ xs) (suc i) h = get_or-lt xs i h.1

pub set-All :
    (xs : List ℕ) (i v : ℕ)
    → v < 2 ^ 32
    → All (λ w. w < 2 ^ 32) xs
    → All (λ w. w < 2 ^ 32) (set xs i v)
set-All [] i v hv h = tt
set-All (x ∷ xs) zero v hv h = (hv, h.1)
set-All (x ∷ xs) (suc i) v hv h = (h.0, set-All xs i v hv h.1)

-- Effects that fit a register.
unfoldable pub Fits : Effect → Type 0
Fits undefined = Unit
Fits nothing = Unit
Fits (value v) = v < 2 ^ 32

pub base_effect-Fits : (f a b : ℕ) → a < 2 ^ 32 → b < 2 ^ 32 → Fits (base_effect f a b)
unfolding base_effect Fits
base_effect-Fits f a b ha hb = ground (
  arith,
  bit_xor-lt 32 a b ha hb,
  bit_or-lt 32 a b ha hb,
  bit_and-lt 32 a b hb,
  div-le_self a (2 ^ b),
)

shift_arithmetic-lt : (a n : ℕ) → a < 2 ^ 32 → shift_arithmetic a n < 2 ^ 32
unfolding shift_arithmetic
shift_arithmetic-lt a n h =
    ground
      (arith, bit_or-lt 32 (a / 2 ^ n) (2 ^ 32 - 1 - 0xffffffff / 2 ^ n), div-le_self a (2 ^ n))

pub alternate_effect-Fits : (f a b : ℕ) → a < 2 ^ 32 → b < 2 ^ 32 → Fits (alternate_effect f a b)
unfolding alternate_effect Fits
alternate_effect-Fits f a b ha hb = ground (arith, shift_arithmetic-lt a b ha)

divide_signed-lt : (a b : ℕ) → a < 2 ^ 32 → b < 2 ^ 32 → divide_signed a b < 2 ^ 32
unfolding divide_signed
divide_signed-lt a b ha hb = ground (arith, div-le_self (magnitude a) (magnitude b))

remainder_signed-lt : (a b : ℕ) → a < 2 ^ 32 → b < 2 ^ 32 → remainder_signed a b < 2 ^ 32
unfolding remainder_signed
remainder_signed-lt a b ha hb = ground (arith, mod-le (magnitude a) (magnitude b))

pub multiply_effect-Fits : (f a b : ℕ) → a < 2 ^ 32 → b < 2 ^ 32 → Fits (multiply_effect f a b)
unfolding multiply_effect Fits
multiply_effect-Fits f a b ha hb =
    ground (
      arith,
      divide_signed-lt a b ha hb,
      remainder_signed-lt a b ha hb,
      div-le_self a b,
      mod-le a b,
    )

pub immediate_effect-Fits :
    (f : ℕ) (arithmetic : Bool) (a b : ℕ)
    → a < 2 ^ 32
    → b < 2 ^ 32
    → Fits (immediate_effect f arithmetic a b)
unfolding immediate_effect Fits
immediate_effect-Fits f arithmetic a b ha hb = ground (
  arith,
  bit_xor-lt 32 a b ha hb,
  bit_or-lt 32 a b ha hb,
  bit_and-lt 32 a b hb,
  div-le_self a (2 ^ bit_and b 0x1f),
  shift_arithmetic-lt a (bit_and b 0x1f) ha,
)
