-- ===== src/Simulator/Step.antt =====
-- The state of the interpreter, the handlers of the six formats and `step`. `refMemoryRead` and
-- `refMemoryWrite` are not declared by the `AXIMemory` of the repository: they are parameters, on a
-- memory `M` of their own.
use zircon_sim.Prelude.{
  ℕ, ◌+◌, bit_and, Bool, true, false, not, ◌||◌, List, Option, none, some, ltb, leb, ◌==◌,
  if◌then◌else◌, get_or, set, replicate,
}
use zircon_sim.Word.{u32}
use zircon_sim.Simulator.Alu.{
  Effect, undefined, nothing, value, less_signed, base_effect, alternate_effect, multiply_effect,
  immediate_effect,
}
use zircon_sim.Simulator.Decode.{
  sign_extend, zero_extend, opcode, rd, rs1, rs2, funct3, funct7, imm_i, imm_s, imm_b, imm_u, imm_j,
}

pub record InstStatistic : Type 0 where
  pub alu_insts : ℕ
  pub branch_insts : ℕ
  pub load_insts : ℕ
  pub store_insts : ℕ
  pub mul_insts : ℕ
  pub div_insts : ℕ

abbrev pub no_insts : InstStatistic
no_insts = record {
  alu_insts = 0;
  branch_insts = 0;
  load_insts = 0;
  store_insts = 0;
  mul_insts = 0;
  div_insts = 0;
}

-- `memory` is a pointer in the source; the interpreter is its only user here.
pub record Simulator (M : Type 0) : Type 0 where
  pub pc : ℕ
  pub rf : List ℕ
  pub memory : M
  pub inst_stat : InstStatistic

abbrev pub count_alu : InstStatistic → InstStatistic
count_alu s = record s { alu_insts = u32 (s.alu_insts + 1) }

abbrev pub count_branch : InstStatistic → InstStatistic
count_branch s = record s { branch_insts = u32 (s.branch_insts + 1) }

abbrev pub count_load : InstStatistic → InstStatistic
count_load s = record s { load_insts = u32 (s.load_insts + 1) }

abbrev pub count_store : InstStatistic → InstStatistic
count_store s = record s { store_insts = u32 (s.store_insts + 1) }

abbrev pub count_mul : InstStatistic → InstStatistic
count_mul s = record s { mul_insts = u32 (s.mul_insts + 1) }

abbrev pub count_div : InstStatistic → InstStatistic
count_div s = record s { div_insts = u32 (s.div_insts + 1) }

-- The condition of a branch; `funct3` 2 and 3 are no branches.
unfoldable pub taken : ℕ → ℕ → ℕ → Option Bool
taken funct3 a b =
    if funct3 == 0
    then some (a == b)
    else if funct3 == 1
    then some (not (a == b))
    else if funct3 == 4
    then some (less_signed a b)
    else if funct3 == 5
    then some (not (less_signed a b))
    else if funct3 == 6
    then some (ltb a b)
    else if funct3 == 7
    then some (leb b a)
    else none

module _ {M : Type 0} (ref_memory_read : M → ℕ → ℕ) (ref_memory_write : M → ℕ → ℕ → ℕ → M) where
  -- The constructor.
  abbrev pub init : M → Simulator M
  init memory = record {
    pc = 0x80000000;
    rf = replicate 32 0;
    memory = memory;
    inst_stat = no_insts;
  }

  abbrev pub register : Simulator M → ℕ → ℕ
  register s r = get_or s.rf r 0

  -- `rf[rd] = …` by the effect of the operation, then `pc += 4`.
  unfoldable pub finish : Simulator M → ℕ → InstStatistic → Effect → Option (Simulator M)
  finish s r stat undefined = none
  finish s r stat nothing = some (record s { pc = u32 (s.pc + 4); inst_stat = stat })
  finish s r stat (value v) =
      some (record s { pc = u32 (s.pc + 4); rf = set s.rf r v; inst_stat = stat })

  unfoldable pub execute_r_type : Simulator M → ℕ → Option (Simulator M)
  unfolding finish
  execute_r_type s inst =
      let a = register s (rs1 inst) in
      let b = register s (rs2 inst) in
      if not (opcode inst == 0x33)
      then finish s (rd inst) s.inst_stat nothing
      else if funct7 inst == 0
      then finish s (rd inst) (count_alu s.inst_stat) (base_effect (funct3 inst) a b)
      else if funct7 inst == 0x20
      then finish s (rd inst) (count_alu s.inst_stat) (alternate_effect (funct3 inst) a b)
      else if funct7 inst == 1
      then finish s (rd inst)
          (if ltb (funct3 inst) 4 then count_mul s.inst_stat else count_div s.inst_stat)
          (multiply_effect (funct3 inst) a b)
      else finish s (rd inst) s.inst_stat nothing

  -- `case 0x03`: the loads.
  unfoldable pub load_effect : ℕ → ℕ → Effect
  load_effect funct3 word =
      if funct3 == 0
      then value (sign_extend word 8)
      else if funct3 == 1
      then value (sign_extend word 16)
      else if funct3 == 2
      then value word
      else if funct3 == 4
      then value (zero_extend word 8)
      else if funct3 == 5
      then value (zero_extend word 16)
      else nothing

  unfoldable pub execute_i_type : Simulator M → ℕ → Option (Simulator M)
  unfolding finish load_effect
  execute_i_type s inst =
      let a = register s (rs1 inst) in
      let imm = imm_i inst in
      if opcode inst == 0x13
      then finish s (rd inst) (count_alu s.inst_stat)
          (immediate_effect (funct3 inst) (not (bit_and inst 0x40000000 == 0)) a imm)
      else if opcode inst == 0x03
      then finish s (rd inst) (count_load s.inst_stat)
          (load_effect (funct3 inst) (ref_memory_read s.memory (u32 (a + imm))))
      else if opcode inst == 0x67
      then some (record s {
        pc = u32 (a + imm);
        rf = set s.rf (rd inst) (u32 (s.pc + 4));
        inst_stat = count_branch s.inst_stat;
      })
      else some s

  -- The program counter after a branch.
  unfoldable pub branch_target : ℕ → ℕ → Option Bool → ℕ
  branch_target pc imm none = pc
  branch_target pc imm (some true) = u32 (pc + imm)
  branch_target pc imm (some false) = u32 (pc + 4)

  unfoldable pub execute_b_type : Simulator M → ℕ → Option (Simulator M)
  unfolding branch_target
  execute_b_type s inst =
      let condition = taken (funct3 inst) (register s (rs1 inst)) (register s (rs2 inst)) in
      if opcode inst == 0x63
      then some (record s {
        pc = branch_target s.pc (imm_b inst) condition;
        inst_stat = count_branch s.inst_stat;
      })
      else some s

  -- The memory after a store.
  unfoldable pub store : M → ℕ → ℕ → ℕ → M
  store memory funct3 address word =
      if funct3 == 0
      then ref_memory_write memory address word 0x1
      else if funct3 == 1
      then ref_memory_write memory address word 0x3
      else if funct3 == 2
      then ref_memory_write memory address word 0xf
      else memory

  unfoldable pub execute_s_type : Simulator M → ℕ → Option (Simulator M)
  unfolding store finish
  execute_s_type s inst =
      let address = u32 (register s (rs1 inst) + imm_s inst) in
      if opcode inst == 0x23
      then some (record s {
        pc = u32 (s.pc + 4);
        memory = store s.memory (funct3 inst) address (register s (rs2 inst));
        inst_stat = count_store s.inst_stat;
      })
      else finish s (rd inst) s.inst_stat nothing

  unfoldable pub execute_u_type : Simulator M → ℕ → Option (Simulator M)
  unfolding finish
  execute_u_type s inst =
      if opcode inst == 0x37
      then finish s (rd inst) (count_alu s.inst_stat) (value (imm_u inst))
      else if opcode inst == 0x17
      then finish s (rd inst) (count_alu s.inst_stat) (value (u32 (s.pc + imm_u inst)))
      else finish s (rd inst) s.inst_stat nothing

  unfoldable pub execute_j_type : Simulator M → ℕ → Option (Simulator M)
  execute_j_type s inst =
      if opcode inst == 0x6f
      then some (record s {
        pc = u32 (s.pc + imm_j inst);
        rf = set s.rf (rd inst) (u32 (s.pc + 4));
        inst_stat = count_branch s.inst_stat;
      })
      else some s

  -- The handler that `step` calls; another opcode leaves the state alone.
  unfoldable pub execute : Simulator M → ℕ → Option (Simulator M)
  unfolding execute_r_type execute_i_type execute_b_type execute_s_type execute_u_type
      execute_j_type
  execute s inst =
      if opcode inst == 0x37 || opcode inst == 0x17
      then execute_u_type s inst
      else if opcode inst == 0x6f
      then execute_j_type s inst
      else if opcode inst == 0x67 || opcode inst == 0x03 || opcode inst == 0x13
      then execute_i_type s inst
      else if opcode inst == 0x63
      then execute_b_type s inst
      else if opcode inst == 0x23
      then execute_s_type s inst
      else if opcode inst == 0x33
      then execute_r_type s inst
      else some s

  -- `rf[0] = 0` after the instruction.
  unfoldable pub clear_zero : Option (Simulator M) → Option (Simulator M)
  clear_zero none = none
  clear_zero (some s) = some (record s { rf = set s.rf 0 0 })

  -- One instruction, `none` where C++ leaves its result undefined.
  unfoldable pub step : Simulator M → Option (Simulator M)
  unfolding execute clear_zero
  step s = clear_zero (execute s (ref_memory_read s.memory s.pc))
