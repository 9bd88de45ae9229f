-- ===== src/Word/Table.antt =====
-- The masks that the source writes, at a variable operand: low masks, one bit, and a byte store.
use Prim.Native.Nat.{bit_or-bitwise}
use native.Mathlib.Nat.{one-le-pow, pow-suc}
use zircon_sim.Prelude.{
  ℕ, zero, suc, ◌+◌, ◌-◌, ◌*◌, ◌/◌, ◌%◌, ◌^◌, ◌<◌, bit_and, bit_or, ◌≡◌, refl, ◌∙◌, arith,
}
use zircon_sim.Word.Field.{bit_and-zero, bit_or-zero, bit_and_ones, bit_and_split, bit_or_split}

pub zero-bit_or : (b : ℕ) → bit_or 0 b ≡ b
zero-bit_or b = bit_or-bitwise 0 b

clear_low : (t q b : ℕ) → q < 2 ^ t → b < 256 → bit_and (q * 256 + b) ((2 ^ t - 1) * 256) ≡ q * 256
clear_low t q b hq hb = ground (
  arith,
  bit_and_split 8 q (2 ^ t - 1) b 0 hb (omega arith),
  bit_and_ones t q hq,
  bit_and-zero 8 b hb,
)

-- The byte at bit `s` is cleared; what lies above and below it is kept.
clear_byte :
    (s t q b r : ℕ)
    → q < 2 ^ t
    → b < 256
    → r < 2 ^ s
    → bit_and ((q * 256 + b) * 2 ^ s + r) ((2 ^ t - 1) * 256 * 2 ^ s + (2 ^ s - 1))
      ≡ q * 256 * 2 ^ s + r
clear_byte s t q b r hq hb hr =
    bit_and_split s (q * 256 + b) ((2 ^ t - 1) * 256) r (2 ^ s - 1) hr
      (omega (arith, one-le-pow s 2))
    ∙ rw (clear_low t q b hq hb, bit_and_ones s r hr) refl

fill_low : (t q v : ℕ) → q < 2 ^ t → v < 256 → bit_or (q * 256) v ≡ q * 256 + v
fill_low t q v hq hv =
    ground (arith, bit_or_split 8 q 0 0 v (omega arith) hv, bit_or-zero t q hq, zero-bit_or v)

fill_byte :
    (s t q v r : ℕ)
    → q < 2 ^ t
    → v < 256
    → r < 2 ^ s
    → bit_or (q * 256 * 2 ^ s + r) (v * 2 ^ s) ≡ (q * 256 + v) * 2 ^ s + r
fill_byte s t q v r hq hv hr = ground (
  arith,
  bit_or_split s (q * 256) v r 0 hr (omega (arith, one-le-pow s 2)),
  fill_low t q v hq hv,
  bit_or-zero s r hr,
)

-- The two together: the byte at bit `s` of a word is replaced.
pub replace_byte :
    (s t q b v r : ℕ)
    → q < 2 ^ t
    → b < 256
    → v < 256
    → r < 2 ^ s
    → bit_or
        (bit_and ((q * 256 + b) * 2 ^ s + r) ((2 ^ t - 1) * 256 * 2 ^ s + (2 ^ s - 1)))
        (v * 2 ^ s)
      ≡ (q * 256 + v) * 2 ^ s + r
replace_byte s t q b v r hq hb hv hr =
    rw (clear_byte s t q b r hq hb hr) (fill_byte s t q v r hq hv hr)

pub lt_two_pow : (a : ℕ) → a < 2 ^ a
lt_two_pow zero = omega arith
lt_two_pow (suc a) = omega (arith, pow-suc 2 a, lt_two_pow a)

-- A low mask is the remainder.
pub bit_and_low : (k a : ℕ) → bit_and a (2 ^ k - 1) ≡ a % 2 ^ k
bit_and_low k a = ground (
  arith,
  one-le-pow k 2,
  bit_and_split k (a / 2 ^ k) 0 (a % 2 ^ k) (2 ^ k - 1),
  bit_and-zero (a / 2 ^ k) (a / 2 ^ k) (lt_two_pow (a / 2 ^ k)),
  bit_and_ones k (a % 2 ^ k),
)

-- One bit.
pub bit_and_bit : (k a : ℕ) → bit_and a (2 ^ k) ≡ a / 2 ^ k % 2 * 2 ^ k
bit_and_bit k a = ground (
  arith,
  one-le-pow k 2,
  bit_and_split k (a / 2 ^ k) 1 (a % 2 ^ k) 0,
  bit_and_low 1 (a / 2 ^ k),
  bit_and-zero k (a % 2 ^ k),
)

-- Bits above a value add to it.
pub bit_or_add : (k v q : ℕ) → v < 2 ^ k → bit_or v (q * 2 ^ k) ≡ v + q * 2 ^ k
bit_or_add k v q h =
    ground (arith, one-le-pow k 2, bit_or_split k 0 q v 0, zero-bit_or q, bit_or-zero k v h)
