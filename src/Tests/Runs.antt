-- ===== src/Tests/Runs.antt =====
-- The simulation loop at concrete inputs: a core that retires nothing, and a reference that is a list of
-- commits.
use zircon_sim.Prelude.{
  ℕ, ◌+◌, ◌≡◌, refl, true, false, List, [], ◌∷◌, Option, none, some, arith, drop,
}
use zircon_sim.Result.{Error, Result, ok}
use zircon_sim.Result.Laws.{Gives}
use zircon_sim.Options.{default_options}
use zircon_sim.Memory.{empty}
use zircon_sim.Axi.Defs.{Ports, AxiMemory, idle_read}
use zircon_sim.Statistic.Snapshot.{no_performance}
use zircon_sim.Statistic.Snapshot
use zircon_sim.Spike.{SpikeCommit}
use zircon_sim.Tests.Registers.{encoding}
use zircon_sim.Run.{RecentCommit, no_commit, initial, Retire, Core, Reference, Machine, Host}
use zircon_sim.Run.Outcome.{stalled, stall_reached}
use zircon_sim.Run.Cycle.{retire_lanes}
use zircon_sim.Run.Loop.{run}
use zircon_sim.Run.Agreement.{Compared}
use zircon_sim.Run.Lockstep.{retire_lanes_lem}
use zircon_sim.Run.Ends.{EndsAt, run-EndsAt}
use zircon_sim.Run.Silent.{IsSilent}
use zircon_sim.Run.Stall.{run-StallsAt}
use zircon_sim.Run.History.{recent_history, remember_all, remember_all-recent_history}
use zircon_sim.Run.Profile.{entry_at, profile_all}
use zircon_sim.Run.Branches.{IsProfile, profile_all-IsProfile}

abbrev quiet_ports : Ports
quiet_ports = record {
  ar_valid = false;
  ar_ready = false;
  ar_id = 0;
  ar_addr = 0;
  ar_len = 0;
  ar_size = 3;
  r_valid = false;
  r_ready = true;
  r_id = 0;
  r_data = [];
  r_resp = 0;
  r_last = false;
  aw_valid = false;
  aw_ready = false;
  aw_id = 0;
  aw_addr = 0;
  aw_len = 0;
  aw_size = 0;
  w_valid = false;
  w_ready = false;
  w_strb = 0;
  w_data = [];
  w_last = false;
  b_valid = false;
  b_ready = true;
  b_id = 0;
  b_resp = 0;
}

abbrev quiet_bus : AxiMemory
quiet_bus = record {
  memory = empty;
  exit = none;
  rng = record { state = 0x20250726 };
  platform = none;
  demand = idle_read;
  prefetch = idle_read;
  read_data_valid = false;
  read_data = 0 ∷ 0 ∷ [];
  read_selected_id = 0;
  read_response = 0;
  write_active = false;
  write_response_valid = false;
  write_address = 0;
  write_size = 8;
  write_length = 0;
  write_beat = 0;
  write_id = 0;
  write_response = 0;
  console = [];
}

abbrev invalid : Retire
invalid = record {
  valid = false;
  pc = 0;
  instruction = 0;
  mispredicted = false;
  rd = 0;
  is_fp = false;
  write_valid = false;
  value = 0;
}

-- `addi x5, x0, 7`, and a taken branch to it.
abbrev load_seven : Retire
load_seven = record {
  valid = true;
  pc = 0x80000000;
  instruction = 0x00700293;
  mispredicted = false;
  rd = 5;
  is_fp = false;
  write_valid = true;
  value = 7;
}

abbrev branch_back : Retire
branch_back = record invalid {
  valid = true;
  pc = 0x80000004;
  instruction = 0xfe029ee3;
  mispredicted = true;
}

abbrev commit_seven : SpikeCommit
commit_seven = record {
  pc = 0x80000000;
  instruction = 0x00700293;
  next_pc = 0x80000004;
  write_valid = true;
  is_fp = false;
  rd = 5;
  value = 7;
  vector = none;
}

abbrev commit_branch : SpikeCommit
commit_branch = record {
  pc = 0x80000004;
  instruction = 0xfe029ee3;
  next_pc = 0x80000000;
  write_valid = false;
  is_fp = false;
  rd = 0;
  value = 0;
  vector = none;
}

-- The state of the core is the number of its evaluations.
abbrev idle_core : Core ℕ
idle_core = record {
  axi = λ dut. quiet_ports;
  set_axi = λ dut ports. dut;
  set_meip = λ dut pending. dut;
  set_msip = λ dut pending. dut;
  set_mtip = λ dut pending. dut;
  set_seip = λ dut pending. dut;
  set_clock = λ dut high. dut;
  set_reset = λ dut high. dut;
  eval = λ dut. dut + 1;
  retire_0 = λ dut. invalid;
  retire_1 = λ dut. invalid;
  retire_2 = λ dut. invalid;
  trap = λ dut. none;
  performance = λ dut. no_performance;
}

abbrev next_commit : List SpikeCommit → Result (List SpikeCommit × Option SpikeCommit)
next_commit [] = ok ([], none)
next_commit (commit ∷ commits) = ok (commits, some commit)

abbrev listed : Reference (List SpikeCommit)
listed = record {
  next = next_commit;
  synchronize = λ commits state. commits;
  set_time = λ commits value. commits;
  append_uart_input = λ commits input. commits;
  inject_interrupt = λ commits trap. ok commits;
  inject_page_fault = λ commits trap. ok commits;
}

abbrev silent_host : Host ℕ (List SpikeCommit)
silent_host = record { bytes = λ text. []; poll = λ cycle. []; save_checkpoint = λ m. ok tt }

abbrev machine : Machine ℕ (List SpikeCommit)
machine = record {
  dut = 0;
  memory = quiet_bus;
  reference = some (commit_seven ∷ commit_branch ∷ []);
  statistic = Snapshot.init;
  state = initial 0x80000000;
  instruction_profile = [];
  saved = [];
}

abbrev lanes : List Retire
lanes = load_seven ∷ branch_back ∷ invalid ∷ []

retire_lanes_lem_example :
    Compared listed encoding
      (commit_seven ∷ commit_branch ∷ [])
      lanes
      (retire_lanes 2 idle_core listed encoding silent_host default_options none 41 0 lanes machine)
retire_lanes_lem_example =
    retire_lanes_lem 2 idle_core listed encoding silent_host default_options none 41 0 lanes machine
      (commit_seven ∷ commit_branch ∷ []) refl refl

abbrev Never : Error → Type 0
Never thrown = ⊥

next-Never : (commits : List SpikeCommit) → Gives Never (λ next. Unit {0}) (next_commit commits)
unfolding Gives
next-Never [] = tt
next-Never (commit ∷ commits) = tt

save-Never :
    (m : Machine ℕ (List SpikeCommit))
    → Gives Never (λ done. Unit {0}) (silent_host.save_checkpoint m)
unfolding Gives
save-Never m = tt

run-EndsAt_example :
    Gives Never
      (λ returned. EndsAt default_options returned.0 returned.1.state)
      (run 2 idle_core listed encoding silent_host default_options none machine)
unfolding stall_reached
run-EndsAt_example =
    run-EndsAt 2 idle_core listed encoding silent_host default_options none Never next-Never
      save-Never machine (omega arith) (omega arith) refl

idle_core-IsSilent : IsSilent idle_core
idle_core-IsSilent = record {
  retire_0 = λ dut. refl;
  retire_1 = λ dut. refl;
  retire_2 = λ dut. refl;
  trap = λ dut. refl;
  write = λ dut. refl;
}

run-StallsAt_example :
    Gives Never
      (λ returned. (returned.0 ≡ stalled) × (returned.1.state.next_cycle ≡ 10000))
      (run 2 idle_core listed encoding silent_host default_options none machine)
run-StallsAt_example =
    run-StallsAt 2 idle_core listed encoding silent_host default_options none Never next-Never
      save-Never idle_core-IsSilent refl machine refl (omega arith) (omega arith) (omega arith)
      (omega arith)

abbrev at_cycle : ℕ → RecentCommit
at_cycle cycle = record no_commit { cycle = cycle }

abbrev eighteen : List RecentCommit
eighteen =
    at_cycle 1
    ∷ at_cycle 2
    ∷ at_cycle 3
    ∷ at_cycle 4
    ∷ at_cycle 5
    ∷ at_cycle 6
    ∷ at_cycle 7
    ∷ at_cycle 8
    ∷ at_cycle 9
    ∷ at_cycle 10
    ∷ at_cycle 11
    ∷ at_cycle 12
    ∷ at_cycle 13
    ∷ at_cycle 14
    ∷ at_cycle 15
    ∷ at_cycle 16
    ∷ at_cycle 17
    ∷ at_cycle 18
    ∷ []

remember_all-recent_history_example :
    recent_history (remember_all (initial 0) eighteen) ≡ drop 2 eighteen
remember_all-recent_history_example = remember_all-recent_history 0 eighteen (omega arith)

profile_all-IsProfile_example :
    IsProfile
      (entry_at (profile_all (initial 0) (branch_back ∷ load_seven ∷ branch_back ∷ [])) 0x80000004)
      0x80000004
      (branch_back ∷ load_seven ∷ branch_back ∷ [])
profile_all-IsProfile_example =
    profile_all-IsProfile 0 0x80000004 (branch_back ∷ load_seven ∷ branch_back ∷ []) (omega arith)
