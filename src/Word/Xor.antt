-- ===== src/Word/Xor.antt =====
-- `^` on words: it stays in range, and is zero on equal operands only.
use Prim.Native.Nat.{differ}
use native.Mathlib.Nat.{pow-suc}
use zircon_sim.Prelude.{
  ℕ, zero, suc, ◌/◌, ◌%◌, ◌^◌, ◌≤◌, ◌<◌, max, bit_and, bit_or, bit_xor, ◌≡◌, ◌≢◌, refl, ap, arith,
}
use zircon_sim.Word.Step.{bit_xor_digit, bit_or_digit, bit_and_digit}
use zircon_sim.Word.Field.{bit_and-zero}
use zircon_sim.Word.Table.{lt_two_pow}

differ_zero : (x y : ℕ) → differ x y ≡ 0 → x ≡ y
differ_zero zero y h = omega arith
differ_zero (suc x) zero h = h
differ_zero (suc x) (suc y) h = ap suc (differ_zero x y h)

differ-le-max : (x y : ℕ) → differ x y ≤ max x y
differ-le-max zero y = omega arith
differ-le-max (suc x) zero = omega arith
differ-le-max (suc x) (suc y) = omega (arith, differ-le-max x y)

pub bit_xor-lt : (k a b : ℕ) → a < 2 ^ k → b < 2 ^ k → bit_xor a b < 2 ^ k
bit_xor-lt zero zero zero ha hb = omega arith
bit_xor-lt zero zero (suc b) ha hb = absurd (omega arith)
bit_xor-lt zero (suc a) b ha hb = absurd (omega arith)
bit_xor-lt (suc k) a b ha hb = omega (
  arith,
  pow-suc 2 k,
  bit_xor_digit a b,
  differ-le-max (a % 2) (b % 2),
  bit_xor-lt k (a / 2) (b / 2) (omega (arith, pow-suc 2 k)) (omega (arith, pow-suc 2 k)),
)

pub bit_or-lt : (k a b : ℕ) → a < 2 ^ k → b < 2 ^ k → bit_or a b < 2 ^ k
bit_or-lt zero zero zero ha hb = omega arith
bit_or-lt zero zero (suc b) ha hb = absurd (omega arith)
bit_or-lt zero (suc a) b ha hb = absurd (omega arith)
bit_or-lt (suc k) a b ha hb = omega (
  arith,
  pow-suc 2 k,
  bit_or_digit a b,
  bit_or-lt k (a / 2) (b / 2) (omega (arith, pow-suc 2 k)) (omega (arith, pow-suc 2 k)),
)

pub bit_and-lt : (k a b : ℕ) → b < 2 ^ k → bit_and a b < 2 ^ k
bit_and-lt zero a zero h = omega (arith, bit_and-zero a a (lt_two_pow a))
bit_and-lt zero a (suc b) h = absurd (omega arith)
bit_and-lt (suc k) a b h = omega (
  arith,
  pow-suc 2 k,
  bit_and_digit a b,
  bit_and-lt k (a / 2) (b / 2) (omega (arith, pow-suc 2 k)),
)

pub bit_xor_zero : (k a b : ℕ) → a < 2 ^ k → b < 2 ^ k → bit_xor a b ≡ 0 → a ≡ b
bit_xor_zero zero zero zero ha hb h = refl
bit_xor_zero zero zero (suc b) ha hb h = absurd (omega arith)
bit_xor_zero zero (suc a) b ha hb h = absurd (omega arith)
bit_xor_zero (suc k) a b ha hb h = omega (
  arith,
  differ_zero (a % 2) (b % 2) (omega (arith, bit_xor_digit a b)),
  bit_xor_zero k (a / 2) (b / 2) (omega (arith, pow-suc 2 k)) (omega (arith, pow-suc 2 k))
      (omega (arith, bit_xor_digit a b)),
)

pub bit_xor_pos : (k a b : ℕ) → a < 2 ^ k → b < 2 ^ k → a ≢ b → 0 < bit_xor a b
bit_xor_pos k a b ha hb ne = ground (arith, bit_xor_zero k a b)
