-- ===== src/RetiredStore/Laws.antt =====
-- The fields of a retired store are those that the reference interpreter decodes.
use zircon_sim.Prelude.{
  ℕ, zero, suc, ◌&&◌, leb, ◌+◌, ◌-◌, ◌*◌, ◌/◌, ◌%◌, ◌^◌, ◌<◌, ◌≤◌, ◌≡◌, ◌∙◌, sym, ap, bit_and,
  bit_or, List, none, some, ◌==◌, if◌then◌else◌, get_or, arith,
}
use zircon_sim.Word.{u32, ◌<<<◌, ◌>>>◌}
use zircon_sim.Word.Table.{bit_and_low, bit_or_add}
use zircon_sim.Simulator.Alu.{shift_arithmetic}
use zircon_sim.Simulator.Decode.{imm_s, opcode, funct3, rs1, rs2}
use zircon_sim.Simulator.Immediates.{extended, imm_s_lem, join, bits_lem}
use zircon_sim.RetiredStore.{signed_immediate, decode_retired_store}

-- The arithmetic shift of an immediate moved to the top copies its sign.
shift_extends : (imm : ℕ) → imm < 2 ^ 12 → shift_arithmetic (u32 (imm <<< 20)) 20 ≡ extended 12 imm
unfolding shift_arithmetic
shift_extends imm h = ground (arith, bit_or_add 12 imm (2 ^ 20 - 1) h)

immediate_fields :
    (b11_5 b4_0 upper opcode : ℕ)
    → b11_5 < 2 ^ 7
    → b4_0 < 2 ^ 5
    → upper < 2 ^ 13
    → opcode < 2 ^ 7
    → signed_immediate (b11_5 * 2 ^ 25 + upper * 2 ^ 12 + b4_0 * 2 ^ 7 + opcode)
      ≡ imm_s (b11_5 * 2 ^ 25 + upper * 2 ^ 12 + b4_0 * 2 ^ 7 + opcode)
immediate_fields b11_5 b4_0 upper opcode h11 h4 hu ho =
    let inst = b11_5 * 2 ^ 25 + upper * 2 ^ 12 + b4_0 * 2 ^ 7 + opcode in
    let high : u32 (inst >>> 25 <<< 5) ≡ b11_5 * 2 ^ 5 = omega arith in
    let low : bit_and (inst >>> 7) 0x1f ≡ b4_0 = bit_and_low 5 (inst >>> 7) ∙ omega arith in
    let joined : bit_or (u32 (inst >>> 25 <<< 5)) (bit_and (inst >>> 7) 0x1f)
        ≡ b11_5 * 2 ^ 5 + b4_0 =
      rw (high, low) (join 5 b11_5 b4_0 h4) in
    ap (λ i. shift_arithmetic (u32 (i <<< 20)) 20) joined
    ∙ shift_extends (b11_5 * 2 ^ 5 + b4_0) (omega arith)
    ∙ sym (imm_s_lem b11_5 b4_0 upper opcode h11 h4 hu ho)

signed_immediate-imm_s : (inst : ℕ) → inst < 2 ^ 32 → signed_immediate inst ≡ imm_s inst
signed_immediate-imm_s inst h =
    let fields : inst / 2 ^ 25 * 2 ^ 25
          + inst / 2 ^ 12 % 2 ^ 13 * 2 ^ 12
          + inst / 2 ^ 7 % 2 ^ 5 * 2 ^ 7
          + inst % 2 ^ 7
        ≡ inst =
      omega arith in
    ap signed_immediate (sym fields)
    ∙ immediate_fields (inst / 2 ^ 25) (inst / 2 ^ 7 % 2 ^ 5) (inst / 2 ^ 12 % 2 ^ 13)
        (inst % 2 ^ 7) (omega arith) (omega arith) (omega arith) (omega arith)
    ∙ ap imm_s fields

small_power : (n : ℕ) → n ≤ 2 → 2 ^ n ≤ 4
small_power zero h = omega arith
small_power (suc zero) h = omega arith
small_power (suc (suc zero)) h = omega arith
small_power (suc (suc (suc n))) h = absurd (omega arith)

-- For a store instruction of a byte, a halfword or a word the main program decodes the interpreter's fields
-- of it, the sum of base and immediate, the source register and the size; for any other it decodes nothing.
pub decode_retired_store_lem :
    (inst : ℕ) (registers : List ℕ)
    → inst < 2 ^ 32
    → decode_retired_store inst registers ≡ (
        if (opcode inst == 0x23) && leb (funct3 inst) 2
        then some (record {
          address = u32 (get_or registers (rs1 inst) 0 + imm_s inst);
          value = get_or registers (rs2 inst) 0;
          size = 2 ^ funct3 inst;
        })
        else none)
unfolding decode_retired_store
decode_retired_store_lem inst registers h = ground (
  arith,
  bit_and_low 7 inst,
  bit_and_low 3 (inst >>> 12),
  bit_and_low 5 (inst >>> 15),
  bit_and_low 5 (inst >>> 20),
  bits_lem inst 6 0 (omega arith),
  bits_lem inst 14 12 (omega arith),
  bits_lem inst 19 15 (omega arith),
  bits_lem inst 24 20 (omega arith),
  signed_immediate-imm_s inst h,
  small_power (funct3 inst),
)
