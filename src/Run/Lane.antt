-- ===== src/Run/Lane.antt =====
-- One retirement lane of the loop in `main` (src/main.cc): the profiles, the comparison with the
-- reference's commit, the measurement of the program's end and the architectural registers.
use text.Mathlib.Text.{◌==◌ as same_text}
use zircon_sim.Prelude.{
  ℕ, ◌+◌, ◌%◌, bit_and, Bool, true, false, not, ◌&&◌, ◌||◌, List, Option, none, some, ◌==◌,
  if◌then◌else◌, set,
}
use zircon_sim.Word.{u32, u64}
use zircon_sim.Result.{Result, ok, ◌>>=◌}
use zircon_sim.Options.{Options}
use zircon_sim.Statistic.Snapshot.{observe}
use zircon_sim.RetiredStore.{decode_retired_store, store_covers_address}
use zircon_sim.Spike.{Encoding, SpikeCommit, SpikeArchitecturalState, requires_synchronization}
use zircon_sim.Run.{BranchProfileEntry, RecentCommit, SimulationState, Retire, Reference, Machine}
use zircon_sim.Run.Table.{update_entry}

abbrev pub bit_of : Bool → ℕ
bit_of b = if b then 1 else 0

abbrev pub differ : Bool → Bool → Bool
differ a b = if a then not b else b

abbrev pub no_branch : BranchProfileEntry
no_branch = record { instruction = 0; executions = 0; mispredictions = 0; taken = 0 }

-- The branch before this instruction is counted as taken if the program counter jumped.
unfoldable pub resolve_branch : SimulationState → ℕ → SimulationState
unfolding update_entry
resolve_branch s pc = elim s.pending_branch [
  | none ↦ s
  | some branch ↦ record s {
    branch_profile =
        update_entry no_branch branch.pc
          (λ e. record e { taken = u64 (e.taken + bit_of (not (pc == u32 (branch.pc + 4)))) })
          s.branch_profile;
    pending_branch = none;
  }
]

unfoldable pub count_conditional : SimulationState → Retire → SimulationState
unfolding update_entry
count_conditional s r =
    if bit_and r.instruction 0x7f == 0x63
    then record s {
      branch_profile =
          update_entry no_branch r.pc
            (λ e. record e {
              instruction = r.instruction;
              executions = u64 (e.executions + 1);
              mispredictions = u64 (e.mispredictions + bit_of r.mispredicted);
            })
            s.branch_profile;
      pending_branch = some (record { pc = r.pc });
    }
    else s

unfoldable pub profile_branch : Bool → SimulationState → Retire → SimulationState
unfolding resolve_branch count_conditional
profile_branch enabled s r = if enabled then count_conditional (resolve_branch s r.pc) r else s

-- `recent_commits` is a ring of 16.
unfoldable pub remember : SimulationState → RecentCommit → SimulationState
remember s commit = record s {
  recent_commits = set s.recent_commits (s.recent_commit_count % 16) commit;
  recent_commit_count = u64 (s.recent_commit_count + 1);
}

-- `destinationMismatch`
unfoldable pub destination_mismatch : SpikeCommit → Retire → Bool
destination_mismatch expected r =
    differ expected.write_valid r.write_valid
    || (expected.write_valid
        && (differ expected.is_fp r.is_fp
            || not (expected.rd == r.rd)
            || not (expected.value == r.value)))

-- The test of a commit that fails the run.
unfoldable pub commit_mismatch : Encoding → SpikeCommit → Retire → Bool
unfolding destination_mismatch
commit_mismatch e expected r =
    not (expected.pc == r.pc)
    || not (expected.instruction == r.instruction)
    || (not (requires_synchronization e r.instruction) && destination_mismatch expected r)

-- `registers[retire_rd] = retire_value` in the file that `isFp` names.
abbrev pub write_register : SpikeArchitecturalState → Retire → SpikeArchitecturalState
write_register s r =
    if r.is_fp
    then record s { floating = set s.floating r.rd r.value }
    else record s { integer = set s.integer r.rd r.value }

-- The write of a commit that agrees with the reference.
unfoldable pub commit_register : SpikeArchitecturalState → Retire → SpikeArchitecturalState
commit_register s r = if r.write_valid && not (r.rd == 0) then write_register s r else s

-- The write at the end of every lane.
unfoldable pub retire_register : SpikeArchitecturalState → Retire → SpikeArchitecturalState
retire_register s r =
    if r.write_valid && not r.is_fp && not (r.rd == 0)
    then write_register s r
    else if r.write_valid && r.is_fp
    then write_register s r
    else s

-- Whether the retired store covers `tohost`.
unfoldable pub stores_tohost : Option ℕ → ℕ → List ℕ → Bool
stores_tohost none instruction registers = false
stores_tohost (some tohost) instruction registers =
    elim (decode_retired_store instruction registers) as (λ _. Bool) [
      | none ↦ false
      | some store ↦ store_covers_address store tohost
    ]

-- What a lane comes to.
pub data LaneEnd (M : Type 0) : Type 0 where
  goes_on : M → LaneEnd M
  disagrees : M → LaneEnd M

module _ {D R : Type 0} (reference : Reference R) (e : Encoding) (options : Options) where
  -- The counters of every retired instruction.
  unfoldable pub count_instruction : Machine D R → Retire → Machine D R
  unfolding profile_branch update_entry
  count_instruction m r =
      let s = profile_branch options.branch_profile m.state r in
      record m {
        state = record s {
          retired_instructions = u64 (s.retired_instructions + 1);
          last_retire_pc = r.pc;
        };
        instruction_profile =
            if same_text options.instruction_profile ""
            then m.instruction_profile
            else update_entry {V = ℕ × ℕ} (0, 0) r.pc
                (λ counted. (r.instruction, u64 (counted.1 + 1))) m.instruction_profile;
        statistic =
            if s.measured_cycles == 0 then observe m.statistic r.instruction else m.statistic;
      }

  -- The cycle of the first store to `tohost`, then the register write.
  unfoldable pub measure : Option ℕ → ℕ → Machine D R → Retire → Machine D R
  unfolding stores_tohost retire_register
  measure tohost cycle m r =
      let s = m.state in
      let reached =
        (s.measured_cycles == 0)
        && stores_tohost tohost r.instruction s.architectural_state.integer in
      let written = retire_register s.architectural_state r in
      record m {
        state =
            if reached
            then record s {
              measured_cycles = u64 (cycle + 1);
              measured_instructions = s.retired_instructions;
              capture_measured_performance = true;
              architectural_state = written;
            }
            else record s { architectural_state = written };
      }

  -- A commit that agrees.
  unfoldable pub accept_commit : Machine D R → R → Retire → Machine D R
  unfolding commit_register
  accept_commit m peer r =
      let written = commit_register m.state.architectural_state r in
      record m {
        state = record m.state { architectural_state = written };
        reference = some (
            if requires_synchronization e r.instruction
            then reference.synchronize peer written
            else peer);
      }

  -- The ring's entry_of of a comparison.
  unfoldable pub note_commit : ℕ → ℕ → Machine D R → R → Retire → SpikeCommit → Machine D R
  unfolding remember
  note_commit cycle lane m peer r expected = record m {
    state = remember m.state (record {
      cycle = u64 (cycle + 1);
      dut_pc = r.pc;
      dut_instruction = r.instruction;
      spike_pc = expected.pc;
      spike_instruction = expected.instruction;
      spike_next_pc = expected.next_pc;
      lane = lane;
    });
    reference = some peer;
  }

  unfoldable pub compare_commit :
      Option ℕ → ℕ → ℕ → Machine D R → R → Retire → SpikeCommit → LaneEnd (Machine D R)
  unfolding note_commit commit_mismatch accept_commit measure
  compare_commit tohost cycle lane m peer r expected =
      let noted = note_commit cycle lane m peer r expected in
      if commit_mismatch e expected r
      then disagrees noted
      else goes_on (measure tohost cycle (accept_commit noted peer r) r)

  -- The reference has no further commit: the rest of the lane is skipped.
  unfoldable pub compare_next :
      Option ℕ → ℕ → ℕ → Machine D R → Retire → R × Option SpikeCommit → LaneEnd (Machine D R)
  unfolding compare_commit
  compare_next tohost cycle lane m r (peer, none) =
      goes_on
        (record m { reference = some peer; state = record m.state { reference_complete = true } })
  compare_next tohost cycle lane m r (peer, some expected) =
      compare_commit tohost cycle lane m peer r expected

  unfoldable pub compare_lane :
      Option ℕ → ℕ → ℕ → Machine D R → Retire → Option R → Result (LaneEnd (Machine D R))
  unfolding compare_next measure
  compare_lane tohost cycle lane m r none = ok (goes_on (measure tohost cycle m r))
  compare_lane tohost cycle lane m r (some peer) =
      if m.state.reference_complete
      then ok (goes_on (measure tohost cycle m r))
      else reference.next peer >>= λ next. ok (compare_next tohost cycle lane m r next)

  -- A lane whose instruction is valid.
  unfoldable pub retire_lane :
      Option ℕ → ℕ → ℕ → Machine D R → Retire → Result (LaneEnd (Machine D R))
  unfolding count_instruction compare_lane
  retire_lane tohost cycle lane m r =
      compare_lane tohost cycle lane (count_instruction m r) r m.reference
