-- ===== src/Word/Field.antt =====
-- Masks of adjacent bits, and the store of one byte into a word, as arithmetic.
use native.Mathlib.Nat.{pow-suc, one-le-pow}
use zircon_sim.Prelude.{
  ℕ, zero, suc, ◌+◌, ◌-◌, ◌*◌, ◌/◌, ◌^◌, ◌<◌, bit_and, bit_or, ◌≡◌, refl, ap, arith,
}
use zircon_sim.Word.Step.{bit_and_digit, bit_or_digit}

pub bit_and-zero : (k a : ℕ) → a < 2 ^ k → bit_and a 0 ≡ 0
bit_and-zero zero zero h = refl
bit_and-zero zero (suc a) h = absurd (omega arith)
bit_and-zero (suc k) a h =
    omega
      (arith, pow-suc 2 k, bit_and_digit a 0, bit_and-zero k (a / 2) (omega (arith, pow-suc 2 k)))

pub bit_or-zero : (k a : ℕ) → a < 2 ^ k → bit_or a 0 ≡ a
bit_or-zero zero zero h = refl
bit_or-zero zero (suc a) h = absurd (omega arith)
bit_or-zero (suc k) a h =
    omega (arith, pow-suc 2 k, bit_or_digit a 0, bit_or-zero k (a / 2) (omega (arith, pow-suc 2 k)))

-- A mask of `k` ones keeps a number below `2 ^ k`.
pub bit_and_ones : (k a : ℕ) → a < 2 ^ k → bit_and a (2 ^ k - 1) ≡ a
bit_and_ones zero zero h = refl
bit_and_ones zero (suc a) h = absurd (omega arith)
bit_and_ones (suc k) a h = ground (
  arith,
  pow-suc 2 k,
  one-le-pow k 2,
  bit_and_digit a (2 ^ suc k - 1),
  bit_and_ones k (a / 2) (omega (arith, pow-suc 2 k)),
)

double : (q k : ℕ) → q * 2 ^ suc k ≡ 2 * (q * 2 ^ k)
double q k = omega (arith, ap (λ (t : ℕ). q * t) (pow-suc 2 k))

-- Both operations act on the high and on the low bits alone.
pub bit_and_split :
    (k q n r m : ℕ)
    → r < 2 ^ k
    → m < 2 ^ k
    → bit_and (q * 2 ^ k + r) (n * 2 ^ k + m) ≡ bit_and q n * 2 ^ k + bit_and r m
bit_and_split zero q n zero zero hr hm = ground arith
bit_and_split zero q n zero (suc m) hr hm = absurd (omega arith)
bit_and_split zero q n (suc r) m hr hm = absurd (omega arith)
bit_and_split (suc k) q n r m hr hm = ground (
  arith,
  pow-suc 2 k,
  double q k,
  double n k,
  double (bit_and q n) k,
  bit_and_digit (q * 2 ^ suc k + r) (n * 2 ^ suc k + m),
  bit_and_digit r m,
  bit_and_split k q n (r / 2) (m / 2) (omega (arith, pow-suc 2 k)) (omega (arith, pow-suc 2 k)),
)

pub bit_or_split :
    (k q n r m : ℕ)
    → r < 2 ^ k
    → m < 2 ^ k
    → bit_or (q * 2 ^ k + r) (n * 2 ^ k + m) ≡ bit_or q n * 2 ^ k + bit_or r m
bit_or_split zero q n zero zero hr hm = ground arith
bit_or_split zero q n zero (suc m) hr hm = absurd (omega arith)
bit_or_split zero q n (suc r) m hr hm = absurd (omega arith)
bit_or_split (suc k) q n r m hr hm = ground (
  arith,
  pow-suc 2 k,
  double q k,
  double n k,
  double (bit_or q n) k,
  bit_or_digit (q * 2 ^ suc k + r) (n * 2 ^ suc k + m),
  bit_or_digit r m,
  bit_or_split k q n (r / 2) (m / 2) (omega (arith, pow-suc 2 k)) (omega (arith, pow-suc 2 k)),
)
