-- ===== src/Session/StateLaws.antt =====
-- The loop's state is read back from a checkpoint.
use mathlib.Core.List.{append-nil, append_assoc}
use zircon_sim.Prelude.{
  ℕ, ◌^◌, ◌<◌, ◌≤◌, ◌≡◌, refl, ap, ◌∙◌, false, List, [], ◌∷◌, ◌++◌, arith, All, length, ◌==◌,
}
use zircon_sim.Result.{ok}
use zircon_sim.Checkpoint.{◌>>=◌, write_u32, write_u64, read_u32, read_count}
use zircon_sim.Checkpoint.Laws.{read_count-write_u64}
use zircon_sim.Statistic.Snapshot.{PerformanceSnapshot}
use zircon_sim.Statistic.Restore.{performance_lem, performance_of-performance_groups}
use zircon_sim.Spike.{SpikeArchitecturalState}
use zircon_sim.Run.{BranchProfileEntry, PendingBranch, RecentCommit, SimulationState}
use zircon_sim.Session.Codec.{
  write_list, read_list, Reads, then-Reads, last-Reads, le-Reads, bool-Reads, bytes-Reads,
  array-Reads, option-Reads,
}
use zircon_sim.Session.State.{
  write_performance, read_performance, write_registers, read_registers, has_key, emplace,
  write_pending, read_pending, write_entry, write_commit, write_branch, write_counters,
  write_measured, write_profiles, save_state, read_entry, read_commit, read_branches,
  restore_counters, restore_measured, restore_profiles, restore_state,
}
use zircon_sim.Session.Valid.{IsPerformance, AreRegisters, IsEntry, IsCommit, AreDistinct, IsState}

performance-Reads :
    (p : PerformanceSnapshot) → IsPerformance p → Reads read_performance (write_performance p) p
unfolding read_performance write_performance
performance-Reads p h = record {
  back = λ rest.
      rw (performance_lem p rest h.sizes h.words, ◌>>=◌, performance_of-performance_groups p) refl;
}

words-Reads :
    (l : List ℕ)
    → length l ≡ 32
    → All (λ w. w < 256 ^ 4) l
    → Reads (read_list read_u32 32) (write_list write_u32 l) l
words-Reads l e h = array-Reads read_u32 write_u32 32 l e (each l h)
  where
    each : (l : List ℕ) → All (λ w. w < 256 ^ 4) l → All (λ w. Reads read_u32 (write_u32 w) w) l
    each [] h = tt
    each (w ∷ l) (hw, h) = (le-Reads 4 w hw, each l h)

registers-Reads :
    (s : SpikeArchitecturalState) → AreRegisters s → Reads read_registers (write_registers s) s
unfolding read_registers write_registers
registers-Reads s h =
    then-Reads _ (words-Reads s.integer h.integer h.integer_words)
      (last-Reads _ (words-Reads s.floating h.floating h.floating_words))

pending-Reads : (p : PendingBranch) → p.pc < 256 ^ 4 → Reads read_pending (write_pending p) p
unfolding read_pending write_pending
pending-Reads p h = last-Reads _ (le-Reads 4 p.pc h)

-- A state with the counters, and with the measured part, of another.
abbrev with_counters : SimulationState → SimulationState → SimulationState
with_counters s q = record q {
  next_cycle = s.next_cycle;
  cycles_without_retirement = s.cycles_without_retirement;
  retired_instructions = s.retired_instructions;
  measured_cycles = s.measured_cycles;
  measured_instructions = s.measured_instructions;
  architectural_state = s.architectural_state;
}

abbrev with_measured : SimulationState → SimulationState → SimulationState
with_measured s q = record q {
  measured_performance = s.measured_performance;
  capture_measured_performance = s.capture_measured_performance;
  reference_complete = s.reference_complete;
  last_retire_pc = s.last_retire_pc;
  simulation_time = s.simulation_time;
}

module _ (gap tail : List ℕ) (gap_size : length gap ≡ 4) (tail_size : length tail ≡ 3) where
  entry-Reads : (b : BranchProfileEntry) → IsEntry b → Reads read_entry (write_entry gap tail b) b
  unfolding read_entry write_entry
  entry-Reads b h = then-Reads _ (le-Reads 4 b.instruction h.instruction) (
      then-Reads _ (bytes-Reads 4 gap gap_size) (
        then-Reads _ (le-Reads 8 b.executions h.executions) (
          then-Reads _ (le-Reads 8 b.mispredictions h.mispredictions)
            (last-Reads _ (le-Reads 8 b.taken h.taken)))))

  commit-Reads : (c : RecentCommit) → IsCommit c → Reads read_commit (write_commit gap tail c) c
  unfolding read_commit write_commit
  commit-Reads c h = then-Reads _ (le-Reads 8 c.cycle h.cycle) (
      then-Reads _ (le-Reads 4 c.dut_pc h.dut_pc) (
        then-Reads _ (le-Reads 4 c.dut_instruction h.dut_instruction) (
          then-Reads _ (le-Reads 4 c.spike_pc h.spike_pc) (
            then-Reads _ (le-Reads 4 c.spike_instruction h.spike_instruction) (
              then-Reads _ (le-Reads 4 c.spike_next_pc h.spike_next_pc) (
                then-Reads _ (le-Reads 1 c.lane h.lane)
                  (last-Reads _ (bytes-Reads 3 tail tail_size))))))))

  has_key_middle :
      (k pc : ℕ) (b : BranchProfileEntry) (front table : List (ℕ × BranchProfileEntry))
      → has_key k (front ++ (pc, b) ∷ table) ≡ false
      → (k == pc) ≡ false
  has_key_middle k pc b [] table h = ground (arith, h)
  has_key_middle k pc b ((j, v) ∷ front) table h =
      ground (arith, h, has_key_middle k pc b front table)

  has_key_front :
      (pc : ℕ) (b : BranchProfileEntry) (front table : List (ℕ × BranchProfileEntry))
      → AreDistinct (front ++ (pc, b) ∷ table)
      → has_key pc front ≡ false
  has_key_front pc b [] table h = refl
  has_key_front pc b ((k, v) ∷ front) table h =
      ground (arith, has_key_middle k pc b front table h.0, has_key_front pc b front table h.1)

  branch_bytes :
      (pc : ℕ) (b : BranchProfileEntry) (rest : List ℕ)
      → write_branch gap tail (pc, b) ++ rest ≡ write_u32 pc ++ (write_entry gap tail b ++ rest)
  unfolding write_branch
  branch_bytes pc b rest = append_assoc (write_u32 pc) (write_entry gap tail b) rest

  emplace_fresh :
      (pc : ℕ) (b : BranchProfileEntry) (table : List (ℕ × BranchProfileEntry))
      → has_key pc table ≡ false
      → emplace pc b table ≡ table ++ (pc, b) ∷ []
  unfolding emplace
  emplace_fresh pc b table fresh = rw fresh refl

  branches-Reads :
      (front table : List (ℕ × BranchProfileEntry))
      → AreDistinct (front ++ table)
      → All (λ b. b.0 < 256 ^ 4) table
      → All (λ b. IsEntry b.1) table
      → Reads
          (read_branches (length table) front)
          (write_list (write_branch gap tail) table)
          (front ++ table)
  unfolding read_branches write_list
  branches-Reads front [] d ks es = record { back = λ rest. rw (append-nil front) refl }
  branches-Reads front ((pc, b) ∷ table) d ks es = record {
    back = λ rest.
        let others = write_list (write_branch gap tail) table in
        rw
          (
            append_assoc (write_branch gap tail (pc, b)) others rest,
            branch_bytes pc b (others ++ rest),
            (le-Reads 4 pc ks.0).back (write_entry gap tail b ++ (others ++ rest)),
            ◌>>=◌,
            (entry-Reads b es.0).back (others ++ rest),
            ◌>>=◌,
            emplace_fresh pc b front (has_key_front pc b front table d),
          )
          ((branches-Reads (front ++ (pc, b) ∷ []) table
                (rw (append_assoc front ((pc, b) ∷ []) table) d) ks.1 es.1).back
              rest
            ∙ ap (λ l. ok (l, rest)) (append_assoc front ((pc, b) ∷ []) table));
  }

  counters-Reads :
      (s q : SimulationState)
      → IsState s
      → Reads (restore_counters q) (write_counters gap tail s) (with_counters s q)
  unfolding restore_counters write_counters
  counters-Reads s q h = then-Reads _ (le-Reads 8 s.next_cycle h.next_cycle) (
      then-Reads _ (le-Reads 8 s.cycles_without_retirement h.cycles) (
        then-Reads _ (le-Reads 8 s.retired_instructions h.retired) (
          then-Reads _ (le-Reads 8 s.measured_cycles h.measured_cycles) (
            then-Reads _ (le-Reads 8 s.measured_instructions h.measured_instructions)
              (last-Reads _ (registers-Reads s.architectural_state h.registers))))))

  measured-Reads :
      (s q : SimulationState)
      → IsState s
      → Reads (restore_measured q) (write_measured gap tail s) (with_measured s q)
  unfolding restore_measured write_measured
  measured-Reads s q h =
      then-Reads _
        (option-Reads read_performance write_performance s.measured_performance
          (λ p e. performance-Reads p (h.performance p e)))
        (then-Reads _ (bool-Reads s.capture_measured_performance) (
          then-Reads _ (bool-Reads s.reference_complete) (
            then-Reads _ (le-Reads 4 s.last_retire_pc h.last_retire_pc)
              (last-Reads _ (le-Reads 8 s.simulation_time h.simulation_time)))))

  commits-Reads :
      (l : List RecentCommit)
      → All IsCommit l
      → All (λ c. Reads read_commit (write_commit gap tail c) c) l
  commits-Reads [] h = tt
  commits-Reads (c ∷ l) (hc, h) = (commit-Reads c hc, commits-Reads l h)

  count-Reads :
      (count : ℕ)
      → count ≤ 2 ^ 24
      → Reads (read_count (2 ^ 24) "branch profile") (write_u64 count) count
  count-Reads count h = record {
    back = λ rest. read_count-write_u64 (2 ^ 24) count "branch profile" rest (omega (arith, h)) h;
  }

  profiles-Reads :
      (s q : SimulationState)
      → IsState s
      → Reads (restore_profiles q) (write_profiles gap tail s) (record q {
        branch_profile = s.branch_profile;
        pending_branch = s.pending_branch;
        recent_commits = s.recent_commits;
        recent_commit_count = s.recent_commit_count;
        checkpoint_marker_seen = s.checkpoint_marker_seen;
        waiting_after_wfi = s.waiting_after_wfi;
      })
  unfolding restore_profiles write_profiles
  profiles-Reads s q h = then-Reads _ (count-Reads (length s.branch_profile) h.branches) (
      then-Reads _ (branches-Reads [] s.branch_profile h.distinct h.keys h.entries) (
        then-Reads _
          (option-Reads read_pending write_pending s.pending_branch
            (λ p e. pending-Reads p (h.pending p e)))
          (then-Reads _
            (array-Reads read_commit (write_commit gap tail) 16 s.recent_commits h.ring
              (commits-Reads s.recent_commits h.commits))
            (then-Reads _ (le-Reads 8 s.recent_commit_count h.count) (
              then-Reads _ (bool-Reads s.checkpoint_marker_seen)
                (last-Reads _ (bool-Reads s.waiting_after_wfi)))))))

  -- The loop's state is restored whole, whatever it was before.
  pub state-Reads :
      (s q : SimulationState) → IsState s → Reads (restore_state q) (save_state gap tail s) s
  unfolding restore_state save_state
  state-Reads s q h =
      then-Reads (λ counted. restore_measured counted >>= restore_profiles) (counters-Reads s q h)
        (then-Reads restore_profiles (measured-Reads s (with_counters s q) h)
          (profiles-Reads s (with_measured s (with_counters s q)) h))
