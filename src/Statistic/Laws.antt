-- ===== src/Statistic/Laws.antt =====
-- Each retired instruction is counted once.
use zircon_sim.Word.{◌>>>◌}
use zircon_sim.Prelude.{
  bit_and, Bool, not, ◌&&◌, ◌||◌, ◌==◌, if◌then◌else◌, ℕ, ◌+◌, ◌<◌, ◌≤◌, ◌^◌, ◌≡◌, List, [], ◌∷◌,
  length, arith,
}
use zircon_sim.Statistic.{
  InstructionStatistic, observe_jal, observe_jalr, observe_op, observe_instruction,
}

-- The classes that the report divides the retired instructions into.
abbrev pub total : InstructionStatistic → ℕ
total s =
    s.alu + s.branch + s.jump + s.load + s.store + s.multiply + s.divide + s.floating + s.system
    + s.other

-- The fields of an instruction that tell the jumps apart; `x1` and `x5` are the link registers.
abbrev pub has_opcode : ℕ → ℕ → Bool
has_opcode code i = bit_and i 0x7f == code

abbrev pub is_link : ℕ → Bool
is_link register = register == 1 || register == 5

abbrev pub destination : ℕ → ℕ
destination i = bit_and (i >>> 7) 0x1f

abbrev pub base : ℕ → ℕ
base i = bit_and (i >>> 15) 0x1f

-- A jump that links is a call; a jump through a link register that stores no address is a return; any
-- other jump through a register is indirect.
abbrev pub is_jump : ℕ → Bool
is_jump i = has_opcode 0x6f i || has_opcode 0x67 i

abbrev pub is_call : ℕ → Bool
is_call i = is_jump i && is_link (destination i)

abbrev pub is_return : ℕ → Bool
is_return i = has_opcode 0x67 i && (destination i == 0) && is_link (base i)

abbrev pub is_indirect : ℕ → Bool
is_indirect i = has_opcode 0x67 i && not (is_call i) && not (is_return i)

-- How many instructions of a run are of a kind.
abbrev pub count : (ℕ → Bool) → List ℕ → ℕ
count kind [] = 0
count kind (i ∷ instructions) = (if kind i then 1 else 0) + count kind instructions

-- The counters of the branches and jumps do not exceed the report's classes, which they refine.
pub record IsBalanced (s : InstructionStatistic) : Type 0 where
  pub branches : s.conditional_branch ≤ s.branch
  pub jumps : s.call + s.ret + s.indirect_jump ≤ s.jump

-- The counters of a run after these instructions.
pub record AreCounted (s t : InstructionStatistic) (instructions : List ℕ) : Type 0 where
  pub all : total t ≡ total s + length instructions
  pub branch : t.branch ≡ s.branch + count (has_opcode 0x63) instructions
  pub conditional_branch :
      t.conditional_branch ≡ s.conditional_branch + count (has_opcode 0x63) instructions
  pub jump : t.jump ≡ s.jump + count is_jump instructions
  pub call : t.call ≡ s.call + count is_call instructions
  pub ret : t.ret ≡ s.ret + count is_return instructions
  pub indirect_jump : t.indirect_jump ≡ s.indirect_jump + count is_indirect instructions

-- The counters of the report's classes count each instruction once.
total-observe_instruction :
    (s : InstructionStatistic) (i : ℕ)
    → total s + 1 < 2 ^ 64
    → total (observe_instruction s i) ≡ total s + 1
unfolding observe_instruction observe_jal observe_jalr observe_op
total-observe_instruction s i h = ground (arith, h)

observe_instruction-AreCounted :
    (s : InstructionStatistic) (i : ℕ)
    → total s + 1 < 2 ^ 64
    → IsBalanced s
    → AreCounted s (observe_instruction s i) (i ∷ []) × IsBalanced (observe_instruction s i)
unfolding observe_instruction observe_jal observe_jalr observe_op
observe_instruction-AreCounted s i h b = ground (arith, h, b)

-- The instructions of a run, in the order they retired.
unfoldable pub observe_all : InstructionStatistic → List ℕ → InstructionStatistic
observe_all s [] = s
observe_all s (i ∷ instructions) = observe_all (observe_instruction s i) instructions

-- Over a run, while the counters do not overflow and those of the branches and jumps are within their
-- classes, the counters of the report's classes add up to the instructions that retired, and the counters
-- of branches, jumps, calls, returns and indirect jumps each count the instructions of their kind.
pub observe_all_lem :
    (s : InstructionStatistic) (instructions : List ℕ)
    → total s + length instructions < 2 ^ 64
    → IsBalanced s
    → AreCounted s (observe_all s instructions) instructions
unfolding observe_all
observe_all_lem s [] h b = record {
  all = omega arith;
  branch = omega arith;
  conditional_branch = omega arith;
  jump = omega arith;
  call = omega arith;
  ret = omega arith;
  indirect_jump = omega arith;
}
observe_all_lem s (i ∷ instructions) h b =
    let step = observe_instruction-AreCounted s i (omega arith) b in
    then_counted step.0
      (observe_all_lem (observe_instruction s i) instructions (omega (arith, step.0.all)) step.1)
  where
    then_counted :
        {s t u : InstructionStatistic} {i : ℕ} {instructions : List ℕ}
        → AreCounted s t (i ∷ [])
        → AreCounted t u instructions
        → AreCounted s u (i ∷ instructions)
    then_counted first rest = record {
      all = omega (arith, first.all, rest.all);
      branch = omega (arith, first.branch, rest.branch);
      conditional_branch = omega (arith, first.conditional_branch, rest.conditional_branch);
      jump = omega (arith, first.jump, rest.jump);
      call = omega (arith, first.call, rest.call);
      ret = omega (arith, first.ret, rest.ret);
      indirect_jump = omega (arith, first.indirect_jump, rest.indirect_jump);
    }
