-- ===== src/Simulator/Alu.antt =====
-- The arithmetic of `executeRType` and `executeIType`, on 32-bit registers.
use zircon_sim.Prelude.{
  ℕ, ◌+◌, ◌-◌, ◌*◌, ◌/◌, ◌%◌, ◌^◌, bit_and, bit_or, bit_xor, Bool, not, ◌&&◌, ltb, ◌==◌,
  if◌then◌else◌,
}
use zircon_sim.Word.{u32, u64, ◌<<<◌, ◌>>>◌, bit_not}

-- What an operation leaves in `rf[rd]`. C++ leaves the shift of a 32-bit value by 32 or more, and
-- the quotient that does not fit, undefined.
pub data Effect : Type 0 where
  undefined : Effect
  nothing : Effect
  value : ℕ → Effect

-- `(int32_t)a < (int32_t)b`: the order of two's complement words, the sign bit flipped.
abbrev pub less_signed : ℕ → ℕ → Bool
less_signed a b = ltb (u32 (a + 2 ^ 31)) (u32 (b + 2 ^ 31))

-- `bool` to `uint32_t`
abbrev pub of_bool : Bool → ℕ
of_bool b = if b then 1 else 0

-- `a - b` on `uint32_t`
abbrev pub subtract : ℕ → ℕ → ℕ
subtract a b = u32 (a + (2 ^ 32 - b))

-- `(int32_t)a >> n`, for `n` below 32: the vacated bits copy the sign.
unfoldable pub shift_arithmetic : ℕ → ℕ → ℕ
shift_arithmetic a n =
    if ltb a (2 ^ 31) then a >>> n else bit_or (a >>> n) (bit_not 32 (0xffffffff >>> n))

-- A shift by an unmasked register.
abbrev pub shifted : ℕ → ℕ → Effect
shifted n result = if ltb n 32 then value result else undefined

-- `(int64_t)(int32_t)a`, as its 64 bits
abbrev pub extend64 : ℕ → ℕ
extend64 a = if ltb a (2 ^ 31) then a else a + (2 ^ 64 - 2 ^ 32)

-- The magnitude and the negation of a two's complement word.
abbrev pub magnitude : ℕ → ℕ
magnitude a = if ltb a (2 ^ 31) then a else 2 ^ 32 - a

abbrev pub negate : ℕ → ℕ
negate a = u32 (2 ^ 32 - a)

abbrev pub same_sign : ℕ → ℕ → Bool
same_sign a b = if ltb a (2 ^ 31) then ltb b (2 ^ 31) else not (ltb b (2 ^ 31))

-- `(int32_t)a / (int32_t)b`, towards zero
unfoldable pub divide_signed : ℕ → ℕ → ℕ
divide_signed a b =
    if same_sign a b then magnitude a / magnitude b else negate (magnitude a / magnitude b)

-- `(int32_t)a % (int32_t)b`, with the sign of `a`
unfoldable pub remainder_signed : ℕ → ℕ → ℕ
remainder_signed a b =
    if ltb a (2 ^ 31) then magnitude a % magnitude b else negate (magnitude a % magnitude b)

-- The one quotient of nonzero divisor that an `int32_t` cannot hold.
abbrev pub overflows : ℕ → ℕ → Bool
overflows a b = (a == 2 ^ 31) && (b == 0xffffffff)

-- `case 0x0` of `funct7`.
unfoldable pub base_effect : ℕ → ℕ → ℕ → Effect
base_effect funct3 a b =
    if funct3 == 0
    then value (u32 (a + b))
    else if funct3 == 1
    then shifted b (u32 (a <<< b))
    else if funct3 == 2
    then value (of_bool (less_signed a b))
    else if funct3 == 3
    then value (of_bool (ltb a b))
    else if funct3 == 4
    then value (bit_xor a b)
    else if funct3 == 5
    then shifted b (a >>> b)
    else if funct3 == 6
    then value (bit_or a b)
    else if funct3 == 7
    then value (bit_and a b)
    else nothing

-- `case 0x20` of `funct7`.
unfoldable pub alternate_effect : ℕ → ℕ → ℕ → Effect
alternate_effect funct3 a b =
    if funct3 == 0
    then value (subtract a b)
    else if funct3 == 5
    then shifted b (shift_arithmetic a b)
    else nothing

-- `case 0x01` of `funct7`.
unfoldable pub multiply_effect : ℕ → ℕ → ℕ → Effect
multiply_effect funct3 a b =
    if funct3 == 0
    then value (u32 (a * b))
    else if funct3 == 1
    then value (u32 (u64 (extend64 a * extend64 b) >>> 32))
    else if funct3 == 2
    then value (u32 (u64 (extend64 a * b) >>> 32))
    else if funct3 == 3
    then value (u32 (u64 (a * b) >>> 32))
    else if funct3 == 4
    then (if b == 0
        then value 0xffffffff
        else if overflows a b
        then undefined
        else value (divide_signed a b))
    else if funct3 == 5
    then (if b == 0 then value 0xffffffff else value (a / b))
    else if funct3 == 6
    then (if b == 0
        then value a
        else if overflows a b
        then undefined
        else value (remainder_signed a b))
    else if funct3 == 7
    then (if b == 0 then value a else value (a % b))
    else nothing

-- `case 0x13` of `executeIType`; `arithmetic` is `inst & 0x40000000`.
unfoldable pub immediate_effect : ℕ → Bool → ℕ → ℕ → Effect
immediate_effect funct3 arithmetic a imm =
    if funct3 == 0
    then value (u32 (a + imm))
    else if funct3 == 1
    then value (u32 (a <<< bit_and imm 0x1f))
    else if funct3 == 2
    then value (of_bool (less_signed a imm))
    else if funct3 == 3
    then value (of_bool (ltb a imm))
    else if funct3 == 4
    then value (bit_xor a imm)
    else if funct3 == 5
    then (if arithmetic
        then value (shift_arithmetic a (bit_and imm 0x1f))
        else value (a >>> bit_and imm 0x1f))
    else if funct3 == 6
    then value (bit_or a imm)
    else if funct3 == 7
    then value (bit_and a imm)
    else nothing
