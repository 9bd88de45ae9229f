-- ===== src/Statistic.antt =====
-- `zircon::sim::Statistic` (include/Statistic.h, src/Statistic.cc): the retired instructions counted
-- by class. The Markdown report is output only.
pub mod Laws
pub mod Snapshot
pub mod Restore
use zircon_sim.Prelude.{ℕ, ◌+◌, bit_and, ◌&&◌, ◌||◌, ltb, ◌==◌, if◌then◌else◌}
use zircon_sim.Word.{u64, ◌>>>◌}

pub record InstructionStatistic : Type 0 where
  pub alu : ℕ
  pub branch : ℕ
  pub jump : ℕ
  pub load : ℕ
  pub store : ℕ
  pub multiply : ℕ
  pub divide : ℕ
  pub floating : ℕ
  pub system : ℕ
  pub other : ℕ
  pub conditional_branch : ℕ
  pub call : ℕ
  pub ret : ℕ
  pub indirect_jump : ℕ

abbrev pub no_instructions : InstructionStatistic
no_instructions = record {
  alu = 0;
  branch = 0;
  jump = 0;
  load = 0;
  store = 0;
  multiply = 0;
  divide = 0;
  floating = 0;
  system = 0;
  other = 0;
  conditional_branch = 0;
  call = 0;
  ret = 0;
  indirect_jump = 0;
}

-- `++counter` on a `uint64_t`
abbrev pub increment : ℕ → ℕ
increment count = u64 (count + 1)

-- `case 0x6f`: JAL.
unfoldable pub observe_jal : ℕ → InstructionStatistic → InstructionStatistic
observe_jal rd s =
    if rd == 1 || rd == 5
    then record s { jump = increment s.jump; call = increment s.call }
    else record s { jump = increment s.jump }

-- `case 0x67`: JALR.
unfoldable pub observe_jalr : ℕ → ℕ → InstructionStatistic → InstructionStatistic
observe_jalr rd rs1 s =
    if (rd == 0) && (rs1 == 1 || rs1 == 5)
    then record s { jump = increment s.jump; ret = increment s.ret }
    else if rd == 1 || rd == 5
    then record s { jump = increment s.jump; call = increment s.call }
    else record s { jump = increment s.jump; indirect_jump = increment s.indirect_jump }

-- `case 0x33`: the register arithmetic and the M extension.
unfoldable pub observe_op : ℕ → ℕ → InstructionStatistic → InstructionStatistic
observe_op funct3 funct7 s =
    if funct7 == 1
    then (if ltb funct3 4
        then record s { multiply = increment s.multiply }
        else record s { divide = increment s.divide })
    else record s { alu = increment s.alu }

unfoldable pub observe_instruction : InstructionStatistic → ℕ → InstructionStatistic
observe_instruction s instruction =
    let opcode = bit_and instruction 0x7f in
    let rd = bit_and (instruction >>> 7) 0x1f in
    let funct3 = bit_and (instruction >>> 12) 0x7 in
    let rs1 = bit_and (instruction >>> 15) 0x1f in
    let funct7 = instruction >>> 25 in
    if opcode == 0x03 || opcode == 0x07
    then record s { load = increment s.load }
    else if opcode == 0x23 || opcode == 0x27
    then record s { store = increment s.store }
    else if opcode == 0x63
    then record s {
      branch = increment s.branch;
      conditional_branch = increment s.conditional_branch;
    }
    else if opcode == 0x6f
    then observe_jal rd s
    else if opcode == 0x67
    then observe_jalr rd rs1 s
    else if opcode == 0x33
    then observe_op funct3 funct7 s
    else if opcode == 0x53 || opcode == 0x43 || opcode == 0x47 || opcode == 0x4b || opcode == 0x4f
    then record s { floating = increment s.floating }
    else if opcode == 0x0f || opcode == 0x73
    then record s { system = increment s.system }
    else if opcode == 0x13 || opcode == 0x17 || opcode == 0x37
    then record s { alu = increment s.alu }
    else record s { other = increment s.other }
