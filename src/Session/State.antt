-- ===== src/Session/State.antt =====
-- The loop's state in a checkpoint (src/main.cc). Structures are written as they stand in memory: the
-- bytes that the compiler leaves between their members are parameters.
use zircon_sim.Prelude.{
  ℕ, zero, suc, ◌^◌, Bool, false, ◌||◌, List, [], ◌∷◌, ◌++◌, length, ◌==◌, if◌then◌else◌,
}
use zircon_sim.Checkpoint.{
  ◌>>=◌, Reader, pure, write_u8, write_u32, write_u64, write_bool, read_u8, read_u32, read_u64,
  read_bool, read_bytes, read_count,
}
use zircon_sim.Statistic.Snapshot.{
  PerformanceSnapshot, performance_groups, flatten, write_all, group_sizes, read_groups,
  performance_of,
}
use zircon_sim.Spike.{SpikeArchitecturalState}
use zircon_sim.Run.{BranchProfileEntry, PendingBranch, RecentCommit, SimulationState}
use zircon_sim.Session.Codec.{write_list, read_list, write_option, read_option}

unfoldable pub write_performance : PerformanceSnapshot → List ℕ
unfolding performance_groups flatten write_all
write_performance p = write_all (flatten (performance_groups p))

unfoldable pub read_performance : Reader PerformanceSnapshot
unfolding read_groups performance_of
read_performance = do groups ← read_groups group_sizes; pure (performance_of groups)

unfoldable pub write_registers : SpikeArchitecturalState → List ℕ
unfolding write_list
write_registers s = write_list write_u32 s.integer ++ write_list write_u32 s.floating

unfoldable pub read_registers : Reader SpikeArchitecturalState
unfolding read_list
read_registers = do
  integer ← read_list read_u32 32
  floating ← read_list read_u32 32
  pure (record { integer = integer; floating = floating })

abbrev pub has_key : ℕ → List (ℕ × BranchProfileEntry) → Bool
has_key key [] = false
has_key key ((k, v) ∷ table) = (k == key) || has_key key table

-- `emplace` leaves an entry that is there.
unfoldable pub emplace :
    ℕ → BranchProfileEntry → List (ℕ × BranchProfileEntry) → List (ℕ × BranchProfileEntry)
emplace key v table = if has_key key table then table else table ++ (key, v) ∷ []

unfoldable pub write_pending : PendingBranch → List ℕ
write_pending p = write_u32 p.pc

unfoldable pub read_pending : Reader PendingBranch
read_pending = do pc ← read_u32; pure (record { pc = pc })

-- `gap` lies behind the instruction word of an entry, `tail` behind the lane of a commit.
module _ (gap tail : List ℕ) where
  unfoldable pub write_entry : BranchProfileEntry → List ℕ
  write_entry e =
      write_u32 e.instruction
      ++ (gap ++ (write_u64 e.executions ++ (write_u64 e.mispredictions ++ write_u64 e.taken)))

  unfoldable pub write_commit : RecentCommit → List ℕ
  write_commit c =
      write_u64 c.cycle
      ++ (write_u32 c.dut_pc
          ++ (write_u32 c.dut_instruction
              ++ (write_u32 c.spike_pc
                  ++ (write_u32 c.spike_instruction
                      ++ (write_u32 c.spike_next_pc ++ (write_u8 c.lane ++ tail))))))

  unfoldable pub write_branch : ℕ × BranchProfileEntry → List ℕ
  unfolding write_entry
  write_branch (pc, e) = write_u32 pc ++ write_entry e

  -- From `next_cycle` to the registers.
  unfoldable pub write_counters : SimulationState → List ℕ
  unfolding write_registers
  write_counters s =
      write_u64 s.next_cycle
      ++ (write_u64 s.cycles_without_retirement
          ++ (write_u64 s.retired_instructions
              ++ (write_u64 s.measured_cycles
                  ++ (write_u64 s.measured_instructions ++ write_registers s.architectural_state))))

  -- From the measured performance to the simulation time.
  unfoldable pub write_measured : SimulationState → List ℕ
  unfolding write_option write_performance
  write_measured s =
      write_option write_performance s.measured_performance
      ++ (write_bool s.capture_measured_performance
          ++ (write_bool s.reference_complete
              ++ (write_u32 s.last_retire_pc ++ write_u64 s.simulation_time)))

  -- From the branch profile to the end.
  unfoldable pub write_profiles : SimulationState → List ℕ
  unfolding write_list write_branch write_option write_pending write_commit
  write_profiles s =
      write_u64 (length s.branch_profile)
      ++ (write_list write_branch s.branch_profile
          ++ (write_option write_pending s.pending_branch
              ++ (write_list write_commit s.recent_commits
                  ++ (write_u64 s.recent_commit_count
                      ++ (write_bool s.checkpoint_marker_seen ++ write_bool s.waiting_after_wfi)))))

  unfoldable pub save_state : SimulationState → List ℕ
  unfolding write_counters write_measured write_profiles
  save_state s = write_counters s ++ (write_measured s ++ write_profiles s)

unfoldable pub read_entry : Reader BranchProfileEntry
read_entry = do
  instruction ← read_u32
  gap ← read_bytes 4
  executions ← read_u64
  mispredictions ← read_u64
  taken ← read_u64
  pure (record {
    instruction = instruction;
    executions = executions;
    mispredictions = mispredictions;
    taken = taken;
  })

unfoldable pub read_commit : Reader RecentCommit
read_commit = do
  cycle ← read_u64
  dut_pc ← read_u32
  dut_instruction ← read_u32
  spike_pc ← read_u32
  spike_instruction ← read_u32
  spike_next_pc ← read_u32
  lane ← read_u8
  tail ← read_bytes 3
  pure (record {
    cycle = cycle;
    dut_pc = dut_pc;
    dut_instruction = dut_instruction;
    spike_pc = spike_pc;
    spike_instruction = spike_instruction;
    spike_next_pc = spike_next_pc;
    lane = lane;
  })

unfoldable pub read_branches :
    ℕ → List (ℕ × BranchProfileEntry) → Reader (List (ℕ × BranchProfileEntry))
unfolding read_entry emplace
read_branches zero table = pure table
read_branches (suc left) table = do
  pc ← read_u32
  entry ← read_entry
  read_branches left (emplace pc entry table)

unfoldable pub restore_counters : SimulationState → Reader SimulationState
unfolding read_registers
restore_counters s = do
  next_cycle ← read_u64
  cycles_without_retirement ← read_u64
  retired_instructions ← read_u64
  measured_cycles ← read_u64
  measured_instructions ← read_u64
  architectural_state ← read_registers
  pure (record s {
    next_cycle = next_cycle;
    cycles_without_retirement = cycles_without_retirement;
    retired_instructions = retired_instructions;
    measured_cycles = measured_cycles;
    measured_instructions = measured_instructions;
    architectural_state = architectural_state;
  })

unfoldable pub restore_measured : SimulationState → Reader SimulationState
unfolding read_option read_performance
restore_measured s = do
  measured_performance ← read_option read_performance
  capture_measured_performance ← read_bool
  reference_complete ← read_bool
  last_retire_pc ← read_u32
  simulation_time ← read_u64
  pure (record s {
    measured_performance = measured_performance;
    capture_measured_performance = capture_measured_performance;
    reference_complete = reference_complete;
    last_retire_pc = last_retire_pc;
    simulation_time = simulation_time;
  })

unfoldable pub restore_profiles : SimulationState → Reader SimulationState
unfolding read_branches read_option read_pending read_list read_commit
restore_profiles s = do
  branch_count ← read_count (2 ^ 24) "branch profile"
  branch_profile ← read_branches branch_count []
  pending_branch ← read_option read_pending
  recent_commits ← read_list read_commit 16
  recent_commit_count ← read_u64
  checkpoint_marker_seen ← read_bool
  waiting_after_wfi ← read_bool
  pure (record s {
    branch_profile = branch_profile;
    pending_branch = pending_branch;
    recent_commits = recent_commits;
    recent_commit_count = recent_commit_count;
    checkpoint_marker_seen = checkpoint_marker_seen;
    waiting_after_wfi = waiting_after_wfi;
  })

unfoldable pub restore_state : SimulationState → Reader SimulationState
unfolding restore_counters restore_measured restore_profiles
restore_state s = do
  counted ← restore_counters s
  measured ← restore_measured counted
  restore_profiles measured
