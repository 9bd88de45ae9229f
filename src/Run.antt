-- ===== src/Run.antt =====
-- The simulation loop of `main` (src/main.cc): the variables of the run, and the interfaces to the
-- generated core, to the reference model and to the host.
pub mod Table
pub mod Lane
pub mod Outcome
pub mod Cycle
pub mod Loop
pub mod Agreement
pub mod Kept
pub mod History
pub mod Branches
pub mod Profile
pub mod Compare
pub mod Lockstep
pub mod Silent
pub mod Stall
pub mod Closing
pub mod Ends
use Prim.Native.String.{String}
use zircon_sim.Prelude.{ℕ, Bool, false, List, [], Option, none, replicate}
use zircon_sim.Result.{Result}
use zircon_sim.Axi.Defs.{Ports, AxiMemory}
use zircon_sim.Statistic.Snapshot.{PerformanceSnapshot, Statistic}
use zircon_sim.Spike.{SpikeCommit, SpikeArchitecturalState, SpikeTrap}

pub record BranchProfileEntry : Type 0 where
  pub instruction : ℕ
  pub executions : ℕ
  pub mispredictions : ℕ
  pub taken : ℕ

pub record PendingBranch : Type 0 where
  pub pc : ℕ

pub record RecentCommit : Type 0 where
  pub cycle : ℕ
  pub dut_pc : ℕ
  pub dut_instruction : ℕ
  pub spike_pc : ℕ
  pub spike_instruction : ℕ
  pub spike_next_pc : ℕ
  pub lane : ℕ

abbrev pub no_commit : RecentCommit
no_commit = record {
  cycle = 0;
  dut_pc = 0;
  dut_instruction = 0;
  spike_pc = 0;
  spike_instruction = 0;
  spike_next_pc = 0;
  lane = 0;
}

-- The map of branches is an association list; its order is not observed by the loop.
pub record SimulationState : Type 0 where
  pub next_cycle : ℕ
  pub cycles_without_retirement : ℕ
  pub retired_instructions : ℕ
  pub measured_cycles : ℕ
  pub measured_instructions : ℕ
  pub architectural_state : SpikeArchitecturalState
  pub measured_performance : Option PerformanceSnapshot
  pub capture_measured_performance : Bool
  pub reference_complete : Bool
  pub last_retire_pc : ℕ
  pub simulation_time : ℕ
  pub branch_profile : List (ℕ × BranchProfileEntry)
  pub pending_branch : Option PendingBranch
  pub recent_commits : List RecentCommit
  pub recent_commit_count : ℕ
  pub checkpoint_marker_seen : Bool
  pub waiting_after_wfi : Bool

-- The initial state, with `last_retire_pc` set to the program's entry.
abbrev pub initial : ℕ → SimulationState
initial entry = record {
  next_cycle = 0;
  cycles_without_retirement = 0;
  retired_instructions = 0;
  measured_cycles = 0;
  measured_instructions = 0;
  architectural_state = record { integer = replicate 32 0; floating = replicate 32 0 };
  measured_performance = none;
  capture_measured_performance = false;
  reference_complete = false;
  last_retire_pc = entry;
  simulation_time = 0;
  branch_profile = [];
  pending_branch = none;
  recent_commits = replicate 16 no_commit;
  recent_commit_count = 0;
  checkpoint_marker_seen = false;
  waiting_after_wfi = false;
}

-- The ports `io_debug_retire_<lane>_…`.
pub record Retire : Type 0 where
  pub valid : Bool
  pub pc : ℕ
  pub instruction : ℕ
  pub mispredicted : Bool
  pub rd : ℕ
  pub is_fp : Bool
  pub write_valid : Bool
  pub value : ℕ

-- `VZirconCore`, which Verilator generates: its state, seen through the ports that `main` uses.
-- `trap` is `io_debug_trap_…`; `performance` is `io_debug_performance_…` as `readPerformance` reads it.
pub record Core (D : Type 0) : Type 0 where
  pub axi : D → Ports
  pub set_axi : D → Ports → D
  pub set_meip : D → Bool → D
  pub set_msip : D → Bool → D
  pub set_mtip : D → Bool → D
  pub set_seip : D → Bool → D
  pub set_clock : D → Bool → D
  pub set_reset : D → Bool → D
  pub eval : D → D
  pub retire_0 : D → Retire
  pub retire_1 : D → Retire
  pub retire_2 : D → Retire
  pub trap : D → Option SpikeTrap
  pub performance : D → PerformanceSnapshot

-- `SpikeReference`, as the loop calls it.
pub record Reference (R : Type 0) : Type 0 where
  pub next : R → Result (R × Option SpikeCommit)
  pub synchronize : R → SpikeArchitecturalState → R
  pub set_time : R → ℕ → R
  pub append_uart_input : R → List ℕ → R
  pub inject_interrupt : R → SpikeTrap → Result R
  pub inject_page_fault : R → SpikeTrap → Result R

-- What the loop works on. The reference is there if the difference test is on; `instruction_profile`
-- and `saved`, the cycles at which a checkpoint was written, are kept for the output.
pub record Machine (D R : Type 0) : Type 0 where
  pub dut : D
  pub memory : AxiMemory
  pub reference : Option R
  pub statistic : Statistic
  pub state : SimulationState
  pub instruction_profile : List (ℕ × (ℕ × ℕ))
  pub saved : List ℕ

-- What the loop asks of the host: the bytes of a text, the terminal's input at a cycle, and the
-- writing of a checkpoint, which fails by an exception.
pub record Host (D R : Type 0) : Type 0 where
  pub bytes : String → List ℕ
  pub poll : ℕ → List ℕ
  pub save_checkpoint : Machine D R → Result (Unit {0})
