-- ===== src/Word/Step.antt =====
-- The native bit operations read digit by digit: one equation for the lowest binary digit of each,
-- from `bitwise`, the recursion on fuel that they stand for.
use Prim.Native.Nat.{digits, bitwise, bit_and-bitwise, bit_or-bitwise, bit_xor-bitwise, differ}
use native.Mathlib.Nat.{le_refl}
use zircon_sim.Prelude.{
  ℕ, zero, suc, ◌+◌, ◌*◌, ◌/◌, ◌%◌, ◌≤◌, min, max, bit_and, bit_or, bit_xor, ◌≡◌, refl, arith,
}

module _ (rest : ℕ → ℕ) (digit : ℕ → ℕ → ℕ) where
  -- Any fuel that covers the first operand gives the same digits.
  enough_fuel : (f g a b : ℕ) → a ≤ f → a ≤ g → digits rest digit f a b ≡ digits rest digit g a b
  enough_fuel zero zero a b p q = refl
  enough_fuel zero (suc g) zero b p q = refl
  enough_fuel (suc f) zero zero b p q = refl
  enough_fuel (suc f) (suc g) zero b p q = refl
  enough_fuel zero (suc g) (suc a) b p q = absurd (omega arith)
  enough_fuel (suc f) zero (suc a) b p q = absurd (omega arith)
  enough_fuel (suc f) (suc g) (suc a) b p q =
      rw (enough_fuel f g (suc a / 2) (b / 2) (omega arith) (omega arith))

  bitwise-suc :
      (a b : ℕ)
      → bitwise rest digit (suc a) b
        ≡ bitwise rest digit (suc a / 2) (b / 2) * 2 + digit (suc a % 2) (b % 2)
  bitwise-suc a b =
      omega (arith, enough_fuel a (suc a / 2) (suc a / 2) (b / 2) (omega arith) (le_refl _))

pub bit_and_digit : (a b : ℕ) → bit_and a b ≡ bit_and (a / 2) (b / 2) * 2 + min (a % 2) (b % 2)
bit_and_digit zero b = simp bit_and-bitwise (omega arith)
bit_and_digit (suc a) b = simp bit_and-bitwise (bitwise-suc (λ t. 0) min a b)

pub bit_or_digit : (a b : ℕ) → bit_or a b ≡ bit_or (a / 2) (b / 2) * 2 + max (a % 2) (b % 2)
bit_or_digit zero b = simp bit_or-bitwise (omega arith)
bit_or_digit (suc a) b = simp bit_or-bitwise (bitwise-suc (λ t. t) max a b)

pub bit_xor_digit : (a b : ℕ) → bit_xor a b ≡ bit_xor (a / 2) (b / 2) * 2 + differ (a % 2) (b % 2)
bit_xor_digit zero b = simp bit_xor-bitwise (omega arith)
bit_xor_digit (suc a) b = simp bit_xor-bitwise (bitwise-suc (λ t. t) differ a b)
