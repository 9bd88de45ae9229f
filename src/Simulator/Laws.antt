-- ===== src/Simulator/Laws.antt =====
-- What every step of the interpreter keeps, and where it leaves the program counter.
use zircon_sim.Prelude.{
  ℕ, ◌+◌, ◌-◌, ◌^◌, ◌<◌, ◌≡◌, refl, ◌∙◌, sym, Bool, true, false, not, ◌||◌, Option, none, some, All,
  length, set, length-set, get_or-set_self, bit_and, ◌==◌, arith,
}
use mathlib.Core.Option.{some-injective}
use zircon_sim.Word.{u32}
use zircon_sim.Word.Xor.{bit_and-lt}
use zircon_sim.Simulator.Alu.{
  Effect, undefined, nothing, value, base_effect, alternate_effect, multiply_effect,
  immediate_effect,
}
use zircon_sim.Simulator.Bounds.{
  get_or-lt, set-All, Fits, base_effect-Fits, alternate_effect-Fits, multiply_effect-Fits,
  immediate_effect-Fits,
}
use zircon_sim.Simulator.Immediates.{sign_extend-lt, imm_i-lt, imm_u-lt}
use zircon_sim.Simulator.Decode.{
  imm_u, zero_extend, ones_above, opcode, rd, rs1, rs2, funct3, imm_b, imm_i,
}
use zircon_sim.Simulator.Step.{
  clear_zero, Simulator, InstStatistic, count_alu, count_branch, count_load, count_mul, count_div,
  finish, register, load_effect, branch_target, taken, execute_r_type, execute_i_type,
  execute_b_type, execute_s_type, execute_u_type, execute_j_type, execute, step,
}

module _ {M : Type 0} (read : M → ℕ → ℕ) (write : M → ℕ → ℕ → ℕ → M) where
  -- The program counter of an instruction that neither branches nor jumps goes to the next one.
  abbrev pub is_sequential : ℕ → Bool
  is_sequential opcode =
      opcode == 0x37
      || opcode == 0x17
      || opcode == 0x03
      || opcode == 0x13
      || opcode == 0x23
      || opcode == 0x33

  -- The jumps and the branches.
  abbrev pub is_transfer : ℕ → Bool
  is_transfer opcode = opcode == 0x6f || opcode == 0x67 || opcode == 0x63

  -- A property of the state that a handler leaves; C++ promises nothing after undefined behaviour.
  unfoldable pub Holds : (Simulator M → Type 0) → Option (Simulator M) → Type 0
  Holds P none = Unit
  Holds P (some t) = P t

  finish_pc :
      (s : Simulator M) (r : ℕ) (stat : InstStatistic) (effect : Effect)
      → Holds (λ t. t.pc ≡ u32 (s.pc + 4)) (finish read write s r stat effect)
  unfolding finish Holds
  finish_pc s r stat undefined = tt
  finish_pc s r stat nothing = refl
  finish_pc s r stat (value v) = refl

  execute_pc :
      (s : Simulator M) (inst : ℕ)
      → is_sequential (opcode inst) ≡ true
      → Holds (λ t. t.pc ≡ u32 (s.pc + 4)) (execute read write s inst)
  unfolding execute execute_r_type execute_i_type execute_s_type execute_u_type Holds
  execute_pc s inst e = ground (arith, e, finish_pc s (rd inst))

  -- No handler takes another opcode.
  execute_stays :
      (s : Simulator M) (inst : ℕ)
      → is_sequential (opcode inst) ≡ false
      → is_transfer (opcode inst) ≡ false
      → Holds (λ t. t.pc ≡ s.pc) (execute read write s inst)
  unfolding execute Holds
  execute_stays s inst e f = ground (arith, e, f)

  -- A memory of 32-bit words.
  abbrev pub ReadsWords : Type 0
  ReadsWords = (memory : M) (address : ℕ) → read memory address < 2 ^ 32

  load_effect-Fits : (f w : ℕ) → w < 2 ^ 32 → Fits (load_effect read write f w)
  unfolding load_effect Fits zero_extend
  load_effect-Fits f w h = ground (
    arith,
    sign_extend-lt w 8 h,
    sign_extend-lt w 16 h,
    bit_and-lt 32 w (2 ^ 32 - 1 - ones_above 8),
    bit_and-lt 32 w (2 ^ 32 - 1 - ones_above 16),
  )

  -- The registers and the program counter hold 32-bit words.
  pub record IsWordState (s : Simulator M) : Type 0 where
    pub count : length s.rf ≡ 32
    pub words : All (λ w. w < 2 ^ 32) s.rf
    pub pc : s.pc < 2 ^ 32

  finish-IsWordState :
      (s : Simulator M) (r : ℕ) (stat : InstStatistic) (effect : Effect)
      → IsWordState s
      → Fits effect
      → Holds IsWordState (finish read write s r stat effect)
  unfolding finish Holds Fits
  finish-IsWordState s r stat undefined h e = tt
  finish-IsWordState s r stat nothing h e = record {
    count = h.count;
    words = h.words;
    pc = omega arith;
  }
  finish-IsWordState s r stat (value v) h e = record {
    count = length-set s.rf r v ∙ h.count;
    words = set-All s.rf r v e h.words;
    pc = omega arith;
  }

  execute_r_type-IsWordState :
      (s : Simulator M) (inst : ℕ)
      → IsWordState s
      → Holds IsWordState (execute_r_type read write s inst)
  unfolding execute_r_type Fits
  execute_r_type-IsWordState s inst h =
      let a = register read write s (rs1 inst) in
      let b = register read write s (rs2 inst) in
      let f = funct3 inst in
      let ha : a < 2 ^ 32 = get_or-lt s.rf (rs1 inst) h.words in
      let hb : b < 2 ^ 32 = get_or-lt s.rf (rs2 inst) h.words in
      let finished = finish-IsWordState s (rd inst) in
      ground (
        arith,
        finished s.inst_stat nothing h tt,
        finished (count_alu s.inst_stat) (base_effect f a b) h (base_effect-Fits f a b ha hb),
        finished (count_alu s.inst_stat) (alternate_effect f a b) h
            (alternate_effect-Fits f a b ha hb),
        finished (count_mul s.inst_stat) (multiply_effect f a b) h
            (multiply_effect-Fits f a b ha hb),
        finished (count_div s.inst_stat) (multiply_effect f a b) h
            (multiply_effect-Fits f a b ha hb),
      )

  execute_i_type-IsWordState :
      (s : Simulator M) (inst : ℕ)
      → ReadsWords
      → IsWordState s
      → Holds IsWordState (execute_i_type read write s inst)
  unfolding execute_i_type Holds
  execute_i_type-IsWordState s inst reads h =
      let a = register read write s (rs1 inst) in
      let f = funct3 inst in
      let m = not (bit_and inst 0x40000000 == 0) in
      let word = read s.memory (u32 (a + imm_i inst)) in
      let ha : a < 2 ^ 32 = get_or-lt s.rf (rs1 inst) h.words in
      let hm = imm_i-lt inst in
      let finished = finish-IsWordState s (rd inst) in
      let jump : IsWordState (record s {
        pc = u32 (a + imm_i inst);
        rf = set s.rf (rd inst) (u32 (s.pc + 4));
        inst_stat = count_branch s.inst_stat;
      }) =
        record {
          count = length-set s.rf (rd inst) (u32 (s.pc + 4)) ∙ h.count;
          words = set-All s.rf (rd inst) (u32 (s.pc + 4)) (omega arith) h.words;
          pc = omega arith;
        } in
      ground (
        arith,
        h,
        jump,
        finished (count_alu s.inst_stat) (immediate_effect f m a (imm_i inst)) h
            (immediate_effect-Fits f m a (imm_i inst) ha hm),
        finished (count_load s.inst_stat) (load_effect read write f word) h
            (load_effect-Fits f word (reads s.memory (u32 (a + imm_i inst)))),
      )

  branch_target-lt :
      (pc imm : ℕ) (condition : Option Bool)
      → pc < 2 ^ 32
      → branch_target read write pc imm condition < 2 ^ 32
  unfolding branch_target
  branch_target-lt pc imm none h = h
  branch_target-lt pc imm (some true) h = omega arith
  branch_target-lt pc imm (some false) h = omega arith

  execute_b_type-IsWordState :
      (s : Simulator M) (inst : ℕ)
      → IsWordState s
      → Holds IsWordState (execute_b_type read write s inst)
  unfolding execute_b_type branch_target Holds
  execute_b_type-IsWordState s inst h =
      let condition =
        taken (funct3 inst) (register read write s (rs1 inst)) (register read write s (rs2 inst)) in
      let target = branch_target-lt s.pc (imm_b inst) condition h.pc in ground (arith, h, target)

  execute_s_type-IsWordState :
      (s : Simulator M) (inst : ℕ)
      → IsWordState s
      → Holds IsWordState (execute_s_type read write s inst)
  unfolding execute_s_type Holds Fits
  execute_s_type-IsWordState s inst h =
      ground (arith, h, finish-IsWordState s (rd inst) s.inst_stat nothing h tt)

  execute_u_type-IsWordState :
      (s : Simulator M) (inst : ℕ)
      → IsWordState s
      → Holds IsWordState (execute_u_type read write s inst)
  unfolding execute_u_type Fits
  execute_u_type-IsWordState s inst h =
      let finished = finish-IsWordState s (rd inst) in
      ground (
        arith,
        finished s.inst_stat nothing h tt,
        finished (count_alu s.inst_stat) (value (imm_u inst)) h (imm_u-lt inst),
        finished (count_alu s.inst_stat) (value (u32 (s.pc + imm_u inst))) h (omega arith),
      )

  execute_j_type-IsWordState :
      (s : Simulator M) (inst : ℕ)
      → IsWordState s
      → Holds IsWordState (execute_j_type read write s inst)
  unfolding execute_j_type Holds
  execute_j_type-IsWordState s inst h =
      let link = u32 (s.pc + 4) in
      ground (
        arith,
        h,
        length-set s.rf (rd inst) link,
        set-All s.rf (rd inst) link (omega arith) h.words,
      )

  execute-IsWordState :
      (s : Simulator M) (inst : ℕ)
      → ReadsWords
      → IsWordState s
      → Holds IsWordState (execute read write s inst)
  unfolding execute Holds
  execute-IsWordState s inst reads h = ground (
    arith,
    h,
    execute_u_type-IsWordState s inst h,
    execute_j_type-IsWordState s inst h,
    execute_i_type-IsWordState s inst reads h,
    execute_b_type-IsWordState s inst h,
    execute_s_type-IsWordState s inst h,
    execute_r_type-IsWordState s inst h,
  )

  clear_zero-IsWordState :
      (o : Option (Simulator M)) (t : Simulator M)
      → Holds IsWordState o
      → clear_zero read write o ≡ some t
      → IsWordState t × (register read write t 0 ≡ 0)
  unfolding clear_zero Holds
  clear_zero-IsWordState none t h e = cc
  clear_zero-IsWordState (some s) t h e =
      let cleared : IsWordState (record s { rf = set s.rf 0 0 }) = record {
        count = length-set s.rf 0 0 ∙ h.count;
        words = set-All s.rf 0 0 (omega arith) h.words;
        pc = h.pc;
      } in
      rw (sym (some-injective _ _ e)) (cleared, get_or-set_self s.rf 0 0 0 (omega (arith, h.count)))

  clear_zero_pc :
      (o : Option (Simulator M)) (t : Simulator M) (pc : ℕ)
      → Holds (λ s. s.pc ≡ pc) o
      → clear_zero read write o ≡ some t
      → t.pc ≡ pc
  unfolding clear_zero Holds
  clear_zero_pc none t pc h e = cc
  clear_zero_pc (some s) t pc h e = rw (sym (some-injective _ _ e)) h

  -- A step keeps 32 registers of 32 bits and a 32-bit program counter, and leaves `x0` at zero.
  pub step-IsWordState :
      (s t : Simulator M)
      → ReadsWords
      → IsWordState s
      → step read write s ≡ some t
      → IsWordState t × (register read write t 0 ≡ 0)
  unfolding step
  step-IsWordState s t reads h e =
      clear_zero-IsWordState (execute read write s (read s.memory s.pc)) t
        (execute-IsWordState s (read s.memory s.pc) reads h) e

  -- After a step over an instruction of the upper-immediate, load, store or arithmetic opcodes the program
  -- counter is at the next one, modulo 2 ^ 32; after a step over one that is neither of these nor a jump or
  -- branch (a fence, a system instruction, an unknown opcode) it stands where it was.
  pub step_pc :
      (s t : Simulator M)
      → step read write s ≡ some t
      → (is_sequential (opcode (read s.memory s.pc)) ≡ true → t.pc ≡ u32 (s.pc + 4))
        × (is_sequential (opcode (read s.memory s.pc)) ≡ false
            → is_transfer (opcode (read s.memory s.pc)) ≡ false
            → t.pc ≡ s.pc)
  unfolding step
  step_pc s t e = (
    λ h.
        clear_zero_pc (execute read write s (read s.memory s.pc)) t (u32 (s.pc + 4))
          (execute_pc s (read s.memory s.pc) h) e,
    λ h f.
        clear_zero_pc (execute read write s (read s.memory s.pc)) t s.pc
          (execute_stays s (read s.memory s.pc) h f) e,
  )
