-- ===== src/Simulator/Immediates.antt =====
-- The decoding of fields and immediates as arithmetic on the instruction word.
use native.Mathlib.Nat.{one-le-pow, pow-suc, div-lt_iff_lt-mul, pow-le-pow_right}
use zircon_sim.Prelude.{
  ℕ, suc, ◌+◌, ◌-◌, ◌*◌, ◌/◌, ◌%◌, ◌^◌, ◌<◌, ◌≤◌, ◌≡◌, ◌∙◌, refl, ap, bit_and, bit_or, ltb,
  if◌then◌else◌, arith,
}
use zircon_sim.Word.{◌<<<◌, ◌>>>◌, bit_not}
use zircon_sim.Word.Field.{bit_and_ones, bit_or-zero, bit_or_split}
use zircon_sim.Word.Table.{zero-bit_or, bit_and_low, bit_or_add, lt_two_pow}
use zircon_sim.Word.Xor.{bit_or-lt, bit_and-lt}
use zircon_sim.Simulator.Decode.{
  ones_above, bits, sign_extend, zero_extend, imm_i, imm_s, imm_b, imm_u, imm_j,
}

-- The mask that `bits` and `zeroExtend` build holds the low bits.
low_mask : (n : ℕ) → n ≤ 32 → bit_not 32 (ones_above n) ≡ 2 ^ n - 1
low_mask n h =
    omega (arith, one-le-pow n 2, pow-le-pow_right {n = 2} (omega arith) {i = n} {j = 32} h)

pub bits_lem :
    (value hi lo : ℕ) → hi - lo < 32 → bits value hi lo ≡ value / 2 ^ lo % 2 ^ (hi - lo + 1)
unfolding bits
bits_lem value hi lo h =
    ap (λ mask. bit_and (value >>> lo) mask) (low_mask (hi - lo + 1) (omega arith))
    ∙ bit_and_low (hi - lo + 1) (value >>> lo)

pub zero_extend_lem : (value width : ℕ) → width ≤ 32 → zero_extend value width ≡ value % 2 ^ width
unfolding zero_extend
zero_extend_lem value width h =
    ap (λ mask. bit_and value mask) (low_mask width h) ∙ bit_and_low width value

-- The two's complement word of a `width`-bit value.
abbrev pub extended : ℕ → ℕ → ℕ
extended width value = if ltb value (2 ^ (width - 1)) then value else value + (2 ^ 32 - 2 ^ width)

high_mask : (n : ℕ) → n ≤ 32 → ones_above n ≡ 2 ^ 32 - 2 ^ n
high_mask n h =
    omega (arith, one-le-pow n 2, pow-le-pow_right {n = 2} (omega arith) {i = n} {j = 32} h)

-- The fields of an immediate stand beside each other.
pub join : (k q r : ℕ) → r < 2 ^ k → bit_or (q * 2 ^ k) r ≡ q * 2 ^ k + r
join k q r h =
    ground
      (arith, one-le-pow k 2, bit_or_split k q 0 0 r, bit_or-zero q q (lt_two_pow q), zero-bit_or r)

-- The bit that `signExtend` tests.
sign_bit : (k value : ℕ) → k < 32 → value < 2 ^ suc k → bits value k k ≡ value / 2 ^ k
sign_bit k value hk h = ground (
  arith,
  bits_lem value k k (omega arith),
  pow-suc 2 k,
  one-le-pow k 2,
  ap (λ n. 2 ^ n) one,
  div-lt_iff_lt-mul {k = 2 ^ k} {x = value} {y = 2},
)
  where
    one : k - k + 1 ≡ 1
    one = omega arith

-- `signExtend` of a value of `k + 1` bits; `above` is the mask of the bits over it.
pub sign_extend_lem :
    (k above value : ℕ)
    → k < 32
    → above * 2 ^ suc k ≡ 2 ^ 32 - 2 ^ suc k
    → value < 2 ^ suc k
    → sign_extend value (suc k) ≡ extended (suc k) value
unfolding sign_extend
sign_extend_lem k above value hk e h = ground (
  arith,
  pow-suc 2 k,
  one-le-pow k 2,
  sign_bit k value hk h,
  div-lt_iff_lt-mul {k = 2 ^ k} {x = value} {y = 1},
  div-lt_iff_lt-mul {k = 2 ^ k} {x = value} {y = 2},
  bit_or_add (suc k) value above h,
  high_mask (suc k) (omega arith),
  zero_extend_mask,
)
  where
    zero_extend_mask : bit_and value (bit_not 32 (ones_above (suc k))) ≡ value
    zero_extend_mask =
        ap (λ mask. bit_and value mask) (low_mask (suc k) (omega arith))
        ∙ bit_and_ones (suc k) value h

pub imm_i_lem :
    (imm rest : ℕ) → imm < 2 ^ 12 → rest < 2 ^ 20 → imm_i (imm * 2 ^ 20 + rest) ≡ extended 12 imm
unfolding imm_i
imm_i_lem imm rest h hr =
    ap (λ f. sign_extend f 12) (bits_lem (imm * 2 ^ 20 + rest) 31 20 (omega arith) ∙ omega arith)
    ∙ sign_extend_lem 11 (2 ^ 20 - 1) imm (omega arith) refl h

-- The S immediate is the two's complement value of the fields that the instruction set lays out:
-- bits 11 to 5 at bit 25, bits 4 to 0 at bit 7.
pub imm_s_lem :
    (b11_5 b4_0 upper opcode : ℕ)
    → b11_5 < 2 ^ 7
    → b4_0 < 2 ^ 5
    → upper < 2 ^ 13
    → opcode < 2 ^ 7
    → imm_s (b11_5 * 2 ^ 25 + upper * 2 ^ 12 + b4_0 * 2 ^ 7 + opcode)
      ≡ extended 12 (b11_5 * 2 ^ 5 + b4_0)
unfolding imm_s
imm_s_lem b11_5 b4_0 upper opcode h11 h4 hu ho =
    let inst = b11_5 * 2 ^ 25 + upper * 2 ^ 12 + b4_0 * 2 ^ 7 + opcode in
    let high : bits inst 31 25 ≡ b11_5 = bits_lem inst 31 25 (omega arith) ∙ omega arith in
    let low : bits inst 11 7 ≡ b4_0 = bits_lem inst 11 7 (omega arith) ∙ omega arith in
    ap (λ f. sign_extend f 12) (rw (high, low) (join 5 b11_5 b4_0 h4))
    ∙ sign_extend_lem 11 (2 ^ 20 - 1) (b11_5 * 2 ^ 5 + b4_0) (omega arith) refl (omega arith)

join_b :
    (b12 b11 b10_5 b4_1 : ℕ)
    → b11 < 2
    → b10_5 < 2 ^ 6
    → b4_1 < 2 ^ 4
    → bit_or (bit_or (bit_or (b12 <<< 12) (b11 <<< 11)) (b10_5 <<< 5)) (b4_1 <<< 1)
      ≡ b12 * 2 ^ 12 + b11 * 2 ^ 11 + b10_5 * 2 ^ 5 + b4_1 * 2
join_b b12 b11 b10_5 b4_1 h11 h10 h4 = ground (
  arith,
  join 12 b12 (b11 * 2 ^ 11) (omega arith),
  join 11 (b12 * 2 + b11) (b10_5 * 2 ^ 5) (omega arith),
  join 5 ((b12 * 2 + b11) * 2 ^ 6 + b10_5) (b4_1 * 2) (omega arith),
)

-- The B immediate is the even two's complement value of its fields: bit 12 at bit 31, bits 10 to 5 at
-- bit 25, bits 4 to 1 at bit 8, bit 11 at bit 7.
pub imm_b_lem :
    (b12 b11 b10_5 b4_1 upper opcode : ℕ)
    → b12 < 2
    → b11 < 2
    → b10_5 < 2 ^ 6
    → b4_1 < 2 ^ 4
    → upper < 2 ^ 13
    → opcode < 2 ^ 7
    → imm_b (b12 * 2 ^ 31 + b10_5 * 2 ^ 25 + upper * 2 ^ 12 + b4_1 * 2 ^ 8 + b11 * 2 ^ 7 + opcode)
      ≡ extended 13 (b12 * 2 ^ 12 + b11 * 2 ^ 11 + b10_5 * 2 ^ 5 + b4_1 * 2)
unfolding imm_b
imm_b_lem b12 b11 b10_5 b4_1 upper opcode h12 h11 h10 h4 hu ho =
    let inst =
      b12 * 2 ^ 31 + b10_5 * 2 ^ 25 + upper * 2 ^ 12 + b4_1 * 2 ^ 8 + b11 * 2 ^ 7 + opcode in
    let f12 : bits inst 31 31 ≡ b12 = bits_lem inst 31 31 (omega arith) ∙ omega arith in
    let f11 : bits inst 7 7 ≡ b11 = bits_lem inst 7 7 (omega arith) ∙ omega arith in
    let f10 : bits inst 30 25 ≡ b10_5 = bits_lem inst 30 25 (omega arith) ∙ omega arith in
    let f4 : bits inst 11 8 ≡ b4_1 = bits_lem inst 11 8 (omega arith) ∙ omega arith in
    ap (λ f. sign_extend f 13) (rw (f12, f11, f10, f4) (join_b b12 b11 b10_5 b4_1 h11 h10 h4))
    ∙ sign_extend_lem 12 (2 ^ 19 - 1) (b12 * 2 ^ 12 + b11 * 2 ^ 11 + b10_5 * 2 ^ 5 + b4_1 * 2)
        (omega arith) refl (omega arith)

join_j :
    (b20 b19_12 b11 b10_1 : ℕ)
    → b19_12 < 2 ^ 8
    → b11 < 2
    → b10_1 < 2 ^ 10
    → bit_or (bit_or (bit_or (b20 <<< 20) (b19_12 <<< 12)) (b11 <<< 11)) (b10_1 <<< 1)
      ≡ b20 * 2 ^ 20 + b19_12 * 2 ^ 12 + b11 * 2 ^ 11 + b10_1 * 2
join_j b20 b19_12 b11 b10_1 h19 h11 h10 = ground (
  arith,
  join 20 b20 (b19_12 * 2 ^ 12) (omega arith),
  join 12 (b20 * 2 ^ 8 + b19_12) (b11 * 2 ^ 11) (omega arith),
  join 11 ((b20 * 2 ^ 8 + b19_12) * 2 + b11) (b10_1 * 2) (omega arith),
)

-- The J immediate likewise: bit 20 at bit 31, bits 10 to 1 at bit 21, bit 11 at bit 20, bits 19 to 12
-- at bit 12.
pub imm_j_lem :
    (b20 b19_12 b11 b10_1 lower : ℕ)
    → b20 < 2
    → b19_12 < 2 ^ 8
    → b11 < 2
    → b10_1 < 2 ^ 10
    → lower < 2 ^ 12
    → imm_j (b20 * 2 ^ 31 + b10_1 * 2 ^ 21 + b11 * 2 ^ 20 + b19_12 * 2 ^ 12 + lower)
      ≡ extended 21 (b20 * 2 ^ 20 + b19_12 * 2 ^ 12 + b11 * 2 ^ 11 + b10_1 * 2)
unfolding imm_j
imm_j_lem b20 b19_12 b11 b10_1 lower h20 h19 h11 h10 hl =
    let inst = b20 * 2 ^ 31 + b10_1 * 2 ^ 21 + b11 * 2 ^ 20 + b19_12 * 2 ^ 12 + lower in
    let f20 : bits inst 31 31 ≡ b20 = bits_lem inst 31 31 (omega arith) ∙ omega arith in
    let f19 : bits inst 19 12 ≡ b19_12 = bits_lem inst 19 12 (omega arith) ∙ omega arith in
    let f11 : bits inst 20 20 ≡ b11 = bits_lem inst 20 20 (omega arith) ∙ omega arith in
    let f10 : bits inst 30 21 ≡ b10_1 = bits_lem inst 30 21 (omega arith) ∙ omega arith in
    ap (λ f. sign_extend f 21) (rw (f20, f19, f11, f10) (join_j b20 b19_12 b11 b10_1 h19 h11 h10))
    ∙ sign_extend_lem 20 (2 ^ 11 - 1) (b20 * 2 ^ 20 + b19_12 * 2 ^ 12 + b11 * 2 ^ 11 + b10_1 * 2)
        (omega arith) refl (omega arith)

bits-lt : (value hi lo : ℕ) → bits value hi lo < 2 ^ 32
unfolding bits
bits-lt value hi lo =
    bit_and-lt 32 (value >>> lo) (bit_not 32 (ones_above (hi - lo + 1))) (omega arith)

pub sign_extend-lt : (w width : ℕ) → w < 2 ^ 32 → sign_extend w width < 2 ^ 32
unfolding sign_extend
sign_extend-lt w width h =
    ground
      (arith, bit_or-lt 32 w (ones_above width), bit_and-lt 32 w (2 ^ 32 - 1 - ones_above width))

-- The immediates are words.
pub imm_i-lt : (inst : ℕ) → imm_i inst < 2 ^ 32
unfolding imm_i
imm_i-lt inst = sign_extend-lt (bits inst 31 20) 12 (bits-lt inst 31 20)

pub imm_u-lt : (inst : ℕ) → imm_u inst < 2 ^ 32
unfolding imm_u
imm_u-lt inst = omega arith
