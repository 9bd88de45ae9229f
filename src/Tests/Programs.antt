-- ===== src/Tests/Programs.antt =====
-- The interpreter, the statistics and the image loader at concrete inputs.
use zircon_sim.Prelude.{
  true, false, ℕ, ◌+◌, ◌*◌, ◌^◌, ◌<◌, ◌≤◌, ◌≡◌, ◌⊎◌, refl, List, [], ◌∷◌, length, get_or, replicate,
  some, ltb, if◌then◌else◌, arith,
}
use zircon_sim.Word.{u32}
use zircon_sim.Result.{ok, err, runtime_error}
use zircon_sim.Memory.{SparseMemory, empty, read8}
use zircon_sim.Memory.Bytes.{IsMemory}
use zircon_sim.Memory.Access.{distance}
use zircon_sim.ElfImage.Format.{Elf32ProgramHeader, object_at}
use zircon_sim.ElfImage.Load.{load_segment}
use zircon_sim.ElfImage.Laws.{object_at_lem, load_segment_lem}
use zircon_sim.Statistic.{no_instructions}
use zircon_sim.Statistic.Laws.{AreCounted, observe_all, observe_all_lem}
use zircon_sim.Simulator.Decode.{imm_s, opcode, bits, imm_i, imm_b}
use zircon_sim.Simulator.Immediates.{extended, imm_b_lem}
use zircon_sim.Simulator.Alu.{immediate_effect}
use zircon_sim.RetiredStore.{decode_retired_store}
use zircon_sim.RetiredStore.Retired.{after_store, step-decode_retired_store}
use zircon_sim.Simulator.Step.{Simulator, no_insts, register, step}
use zircon_sim.Simulator.Laws.{IsWordState, is_sequential, is_transfer, step-IsWordState, step_pc}

-- ADDI x5, x5, -1 at every address; stores are ignored.
abbrev read_addi : Unit {0} → ℕ → ℕ
read_addi memory address = 0xfff28293

abbrev ignore_write : Unit {0} → ℕ → ℕ → ℕ → Unit {0}
ignore_write memory address word strobe = memory

abbrev before : Simulator (Unit {0})
before = record {
  pc = 0x80000000;
  rf = 0 ∷ 0 ∷ 0 ∷ 0 ∷ 0 ∷ 9 ∷ replicate 26 0;
  memory = tt;
  inst_stat = no_insts;
}

abbrev after : Simulator (Unit {0})
after = record before {
  pc = 0x80000004;
  rf = 0 ∷ 0 ∷ 0 ∷ 0 ∷ 0 ∷ 8 ∷ replicate 26 0;
  inst_stat = record no_insts { alu_insts = 1 };
}

before_words : IsWordState read_addi ignore_write before
before_words = record { count = refl; words = ground arith; pc = omega arith }

before_steps : step read_addi ignore_write before ≡ some after
unfolding step bits immediate_effect imm_i
before_steps = refl

step-IsWordState_example :
    IsWordState read_addi ignore_write after × (register read_addi ignore_write after 0 ≡ 0)
step-IsWordState_example =
    step-IsWordState read_addi ignore_write before after (λ memory address. omega arith)
      before_words before_steps

step_pc_example :
    (is_sequential read_addi ignore_write (opcode (read_addi before.memory before.pc)) ≡ true
      → after.pc ≡ u32 (before.pc + 4))
    × (is_sequential read_addi ignore_write (opcode (read_addi before.memory before.pc)) ≡ false
        → is_transfer read_addi ignore_write (opcode (read_addi before.memory before.pc)) ≡ false
        → after.pc ≡ before.pc)
unfolding bits
step_pc_example = step_pc read_addi ignore_write before after before_steps

-- BNE with offset -8, JAL with offset 2048, SW with offset -4.
imm_b_lem_example :
    imm_b (1 * 2 ^ 31 + 63 * 2 ^ 25 + 0x29 * 2 ^ 12 + 12 * 2 ^ 8 + 1 * 2 ^ 7 + 0x63)
    ≡ extended 13 (1 * 2 ^ 12 + 1 * 2 ^ 11 + 63 * 2 ^ 5 + 12 * 2)
imm_b_lem_example =
    imm_b_lem 1 1 63 12 0x29 0x63 (omega arith) (omega arith) (omega arith) (omega arith)
      (omega arith) (omega arith)

-- A load, a call, a return and an unknown instruction.
abbrev retired : List ℕ
retired = 0x00052583 ∷ 0x008000ef ∷ 0x00008067 ∷ 0x0000007f ∷ []

observe_all_lem_example : AreCounted no_instructions (observe_all no_instructions retired) retired
observe_all_lem_example =
    observe_all_lem no_instructions retired (omega arith)
      (record { branches = omega arith; jumps = omega arith })

-- SW x5, -4(x2) at every address; the memory is the list of the writes.
abbrev read_store : List (ℕ × ℕ × ℕ) → ℕ → ℕ
read_store memory address = 0xfe512e23

abbrev note_write : List (ℕ × ℕ × ℕ) → ℕ → ℕ → ℕ → List (ℕ × ℕ × ℕ)
note_write memory address word strobe = (address, word, strobe) ∷ memory

abbrev storing : Simulator (List (ℕ × ℕ × ℕ))
storing = record {
  pc = 0x80000000;
  rf = 0 ∷ 0 ∷ 0x80002000 ∷ 0 ∷ 0 ∷ 7 ∷ replicate 26 0;
  memory = [];
  inst_stat = no_insts;
}

abbrev stored_word : Simulator (List (ℕ × ℕ × ℕ))
stored_word = record storing {
  pc = 0x80000004;
  memory = (0x80001ffc, 7, 0xf) ∷ [];
  inst_stat = record no_insts { store_insts = 1 };
}

step-decode_retired_store_example :
    stored_word.memory
    ≡ after_store read_store note_write []
        (decode_retired_store (read_store [] 0x80000000) storing.rf)
unfolding step bits imm_s
step-decode_retired_store_example =
    step-decode_retired_store read_store note_write storing stored_word
      (λ memory address. omega arith) refl

-- A file of six bytes with a segment of four of them, and two bytes beyond.
abbrev file : List ℕ
file = 1 ∷ 2 ∷ 3 ∷ 4 ∷ 5 ∷ 6 ∷ []

abbrev segment : Elf32ProgramHeader
segment = record {
  type = 1;
  offset = 2;
  virtual_address = 0xc0000000;
  physical_address = 0x80000000;
  file_size = 4;
  memory_size = 6;
}

load_segment_lem_example :
    (m' : SparseMemory) × (load_segment file segment empty ≡ ok m')
    × IsMemory m'
    × (read8 m' 0x80000003 ≡ (
        if ltb (distance 0x80000000 0x80000003) 4
        then get_or file (2 + distance 0x80000000 0x80000003) 0
        else if ltb (distance 0x80000000 0x80000003) 6
        then 0
        else read8 empty 0x80000003))
unfolding empty
load_segment_lem_example =
    load_segment_lem file segment empty 0x80000003 tt (ground arith) refl (omega arith)
      (omega arith) (omega arith) (omega arith) (omega arith)

object_at_lem_example :
    ((4 + 2 ≤ length file)
      × (object : List ℕ) × (object_at file 4 2 ≡ ok object)
      × (length object ≡ 2)
      × ((i : ℕ) → i < 2 → get_or object i 0 ≡ get_or file (4 + i) 0))
    ⊎ ((length file < 4 + 2) × (object_at file 4 2 ≡ err (runtime_error "truncated ELF structure")))
object_at_lem_example = object_at_lem file 4 2
