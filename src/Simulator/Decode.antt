-- ===== src/Simulator/Decode.antt =====
-- The fields and immediates of an instruction.
use zircon_sim.Prelude.{ℕ, ◌+◌, ◌-◌, bit_and, bit_or, ◌==◌, if◌then◌else◌}
use zircon_sim.Word.{u8, u32, ◌<<<◌, ◌>>>◌, bit_not}

-- `(-1) << width`, as a `uint32_t`
abbrev pub ones_above : ℕ → ℕ
ones_above width = u32 (0xffffffff <<< width)

unfoldable pub bits : ℕ → ℕ → ℕ → ℕ
bits value hi lo = bit_and (value >>> lo) (bit_not 32 (ones_above (hi - lo + 1)))

unfoldable pub sign_extend : ℕ → ℕ → ℕ
unfolding bits
sign_extend value width =
    if bits value (width - 1) (width - 1) == 1
    then bit_or value (ones_above width)
    else bit_and value (bit_not 32 (ones_above width))

unfoldable pub zero_extend : ℕ → ℕ → ℕ
zero_extend value width = bit_and value (bit_not 32 (ones_above width))

abbrev pub opcode : ℕ → ℕ
opcode inst = u8 (bits inst 6 0)

abbrev pub rd : ℕ → ℕ
rd inst = u8 (bits inst 11 7)

abbrev pub rs1 : ℕ → ℕ
rs1 inst = u8 (bits inst 19 15)

abbrev pub rs2 : ℕ → ℕ
rs2 inst = u8 (bits inst 24 20)

abbrev pub funct3 : ℕ → ℕ
funct3 inst = u8 (bits inst 14 12)

abbrev pub funct7 : ℕ → ℕ
funct7 inst = u8 (bits inst 31 25)

-- The immediates of the six formats.
unfoldable pub imm_i : ℕ → ℕ
unfolding bits sign_extend
imm_i inst = sign_extend (bits inst 31 20) 12

unfoldable pub imm_s : ℕ → ℕ
unfolding bits sign_extend
imm_s inst = sign_extend (bit_or (bits inst 31 25 <<< 5) (bits inst 11 7)) 12

unfoldable pub imm_b : ℕ → ℕ
unfolding bits sign_extend
imm_b inst =
    sign_extend
      (bit_or
        (bit_or (bit_or (bits inst 31 31 <<< 12) (bits inst 7 7 <<< 11)) (bits inst 30 25 <<< 5))
        (bits inst 11 8 <<< 1))
      13

unfoldable pub imm_u : ℕ → ℕ
unfolding bits
imm_u inst = u32 (bits inst 31 12 <<< 12)

unfoldable pub imm_j : ℕ → ℕ
unfolding bits sign_extend
imm_j inst =
    sign_extend
      (bit_or
        (bit_or (bit_or (bits inst 31 31 <<< 20) (bits inst 19 12 <<< 12)) (bits inst 20 20 <<< 11))
        (bits inst 30 21 <<< 1))
      21
