-- ===== src/Session/Valid.antt =====
-- What the types of the loop's state and the program's limits say of it (src/main.cc).
use zircon_sim.Prelude.{ℕ, ◌^◌, ◌<◌, ◌≤◌, ◌≡◌, false, List, [], ◌∷◌, some, All, length, map}
use zircon_sim.Statistic.Snapshot.{PerformanceSnapshot, performance_groups, group_sizes}
use zircon_sim.Statistic.Restore.{AreWords}
use zircon_sim.Spike.{SpikeArchitecturalState}
use zircon_sim.Run.{BranchProfileEntry, PendingBranch, RecentCommit, SimulationState}
use zircon_sim.Session.State.{has_key}

-- What the types of the fields say.
pub record IsPerformance (p : PerformanceSnapshot) : Type 0 where
  pub sizes : map length (performance_groups p) ≡ group_sizes
  pub words : All (λ words. AreWords words) (performance_groups p)

pub record AreRegisters (s : SpikeArchitecturalState) : Type 0 where
  pub integer : length s.integer ≡ 32
  pub floating : length s.floating ≡ 32
  pub integer_words : All (λ w. w < 256 ^ 4) s.integer
  pub floating_words : All (λ w. w < 256 ^ 4) s.floating

pub record IsEntry (e : BranchProfileEntry) : Type 0 where
  pub instruction : e.instruction < 256 ^ 4
  pub executions : e.executions < 256 ^ 8
  pub mispredictions : e.mispredictions < 256 ^ 8
  pub taken : e.taken < 256 ^ 8

pub record IsCommit (c : RecentCommit) : Type 0 where
  pub cycle : c.cycle < 256 ^ 8
  pub dut_pc : c.dut_pc < 256 ^ 4
  pub dut_instruction : c.dut_instruction < 256 ^ 4
  pub spike_pc : c.spike_pc < 256 ^ 4
  pub spike_instruction : c.spike_instruction < 256 ^ 4
  pub spike_next_pc : c.spike_next_pc < 256 ^ 4
  pub lane : c.lane < 256

-- No address stands in the profile twice.
abbrev pub AreDistinct : List (ℕ × BranchProfileEntry) → Type 0
AreDistinct [] = Unit
AreDistinct ((pc, e) ∷ table) = (has_key pc table ≡ false) × AreDistinct table

-- What the types of the fields and the program's limit say of the state.
pub record IsState (s : SimulationState) : Type 0 where
  pub next_cycle : s.next_cycle < 256 ^ 8
  pub cycles : s.cycles_without_retirement < 256 ^ 8
  pub retired : s.retired_instructions < 256 ^ 8
  pub measured_cycles : s.measured_cycles < 256 ^ 8
  pub measured_instructions : s.measured_instructions < 256 ^ 8
  pub registers : AreRegisters s.architectural_state
  pub performance : (p : PerformanceSnapshot) → s.measured_performance ≡ some p → IsPerformance p
  pub last_retire_pc : s.last_retire_pc < 256 ^ 4
  pub simulation_time : s.simulation_time < 256 ^ 8
  pub branches : length s.branch_profile ≤ 2 ^ 24
  pub distinct : AreDistinct s.branch_profile
  pub keys : All (λ b. b.0 < 256 ^ 4) s.branch_profile
  pub entries : All (λ b. IsEntry b.1) s.branch_profile
  pub pending : (p : PendingBranch) → s.pending_branch ≡ some p → p.pc < 256 ^ 4
  pub ring : length s.recent_commits ≡ 16
  pub commits : All IsCommit s.recent_commits
  pub count : s.recent_commit_count < 256 ^ 8
