-- ===== src/Tests/Sessions.antt =====
-- A checkpoint of a run on devices, with a branch under way, restored by a run that has just begun.
use zircon_sim.Prelude.{
  ◌-◌, ℕ, zero, suc, ◌^◌, ◌<◌, ◌≡◌, refl, Bool, true, false, [], ◌∷◌, none, some, arith, All,
  replicate,
}
use zircon_sim.Result.{ok}
use zircon_sim.Checkpoint.{write_bool, read_bool}
use zircon_sim.Memory.{SparseMemory, empty}
use zircon_sim.Platform.Defs.{PlatformDevices}
use zircon_sim.Options.{linux}
use zircon_sim.Axi.Defs.{AxiMemory, idle_read}
use zircon_sim.Statistic.Snapshot.{no_performance}
use zircon_sim.Statistic.Snapshot
use zircon_sim.Memory
use zircon_sim.Axi
use zircon_sim.Platform
use zircon_sim.Memory.Table.{find}
use zircon_sim.Statistic.Snapshot.{instruction_words, performance_groups}
use zircon_sim.Statistic.Restore.{IsStatistic}
use zircon_sim.Session.Valid.{IsState, IsCommit}
use zircon_sim.Run.{PendingBranch, no_commit, initial}
use zircon_sim.Session.Host.{Header, Session, Saved, save_session, restore_session}
use zircon_sim.Session.Restore.{resumed, restore_session-save_session}

-- The reference is a Boolean value.
abbrev flag : Saved Bool
flag = record { save = write_bool; restore = λ q. read_bool }

abbrev head : Header
head = record {
  build_identity = 0x72 ∷ 0x76 ∷ [];
  image_fingerprint = 14695981039346656037;
  rtl_fingerprint = 12;
  platform = linux;
  difftest = false;
  seed = 0x20250726;
}

abbrev devices : PlatformDevices
devices = record {
  mtime = 41;
  mtimecmp = 2 ^ 64 - 1;
  timer_subcycle = 3;
  uart_ier = 1;
  uart_lcr = 3;
  uart_mcr = 0;
  uart_dll = 27;
  uart_dlm = 0;
  uart_input = [];
  uart_output = 0x6f ∷ 0x6b ∷ [];
  emit_uart = true;
  console = 0x6f ∷ [];
}

abbrev bus : AxiMemory
bus = record {
  memory = record { words = (0x20000000, 0x11223344) ∷ [] };
  exit = none;
  rng = record { state = 0x20250726 };
  platform = some devices;
  demand = record { active = true; address = 0x80000008; size = 8; length = 3; beat = 1 };
  prefetch = idle_read;
  read_data_valid = true;
  read_data = 0x13 ∷ 0x93 ∷ [];
  read_selected_id = 0;
  read_response = 0;
  write_active = false;
  write_response_valid = false;
  write_address = 0;
  write_size = 8;
  write_length = 0;
  write_beat = 0;
  write_id = 1;
  write_response = 0;
  console = 0x6f ∷ [];
}

abbrev saved_run : Session Bool
saved_run = record {
  state = record (initial 0x80000000) {
    next_cycle = 7;
    retired_instructions = 3;
    branch_profile =
        (
          0x80000004,
          record { instruction = 0xfe029ee3; executions = 2; mispredictions = 1; taken = 1 },
        )
        ∷ [];
    pending_branch = some (record { pc = 0x80000004 });
    waiting_after_wfi = true;
  };
  statistic = Snapshot.init;
  bus = bus;
  reference = none;
}

abbrev new_run : Session Bool
new_run = record {
  state = initial 0x80000000;
  statistic = Snapshot.init;
  bus = record bus { memory = empty; platform = some (record devices { mtime = 0; console = [] }) };
  reference = none;
}

All-replicate : {A : Type 0} (P : A → Type 0) (n : ℕ) (a : A) → P a → All P (replicate n a)
All-replicate P zero a h = tt
All-replicate P (suc n) a h = (h, All-replicate P n a h)

numbers : All (λ w. w < 256 ^ 4) (replicate 32 0)
numbers = All-replicate (λ w. w < 256 ^ 4) 32 0 (omega arith)

zeros : (n : ℕ) → All (λ w. w < 2 ^ 64) (replicate n 0)
zeros n = All-replicate (λ w. w < 2 ^ 64) n 0 (omega arith)

saved_state-IsState : IsState saved_run.state
saved_state-IsState = record {
  next_cycle = omega arith;
  cycles = omega arith;
  retired = omega arith;
  measured_cycles = omega arith;
  measured_instructions = omega arith;
  registers = record {
    integer = refl;
    floating = refl;
    integer_words = numbers;
    floating_words = numbers;
  };
  performance = λ p e. absurd (none≢some e);
  last_retire_pc = omega arith;
  simulation_time = omega arith;
  branches = omega arith;
  distinct = (refl, tt);
  keys = (omega arith, tt);
  entries = (
    record {
      instruction = omega arith;
      executions = omega arith;
      mispredictions = omega arith;
      taken = omega arith;
    },
    tt,
  );
  pending = λ p e. small p e;
  ring = refl;
  commits = All-replicate IsCommit 16 no_commit (record {
    cycle = omega arith;
    dut_pc = omega arith;
    dut_instruction = omega arith;
    spike_pc = omega arith;
    spike_instruction = omega arith;
    spike_next_pc = omega arith;
    lane = omega arith;
  });
  count = omega arith;
}
  where
    none≢some : {A : Type 0} {a : A} → ¬ (none ≡ some a)
    none≢some = cc

    same_pending :
        (p : PendingBranch)
        → some (record { pc = 0x80000004 }) ≡ some p
        → record { pc = 0x80000004 } ≡ p
    same_pending p e = cc

    small : (p : PendingBranch) → some (record { pc = 0x80000004 }) ≡ some p → p.pc < 256 ^ 4
    small p e = rw (← same_pending p e) (omega arith)

init-IsStatistic : IsStatistic Snapshot.init
unfolding instruction_words performance_groups
init-IsStatistic = record {
  sizes = refl;
  instructions = zeros 14;
  performance = (
    zeros 25,
    (
      zeros 6,
      (
        zeros 6,
        (
          zeros 6,
          (
            zeros 6,
            (
              zeros 6,
              (
                zeros 1,
                (
                  zeros 2,
                  (
                    zeros 2,
                    (
                      zeros 2,
                      (
                        zeros 2,
                        (
                          zeros 2,
                          (
                            zeros 2,
                            (zeros 2, (zeros 2, (zeros 2, (zeros 2, (zeros 2, (zeros 15, tt)))))),
                          ),
                        ),
                      ),
                    ),
                  ),
                ),
              ),
            ),
          ),
        ),
      ),
    ),
  );
}

saved_bus-IsValid : Axi.Restore.IsValid 2 bus
saved_bus-IsValid = record {
  exit = omega arith;
  rng = omega arith;
  live = λ e. absurd (omega (arith, e));
  words = refl;
  read_data = (omega arith, (omega arith, tt));
  read_selected_id = omega arith;
  read_response = omega arith;
  demand = record {
    address = omega arith;
    size = omega arith;
    length = omega arith;
    beat = omega arith;
  };
  prefetch = record {
    address = omega arith;
    size = omega arith;
    length = omega arith;
    beat = omega arith;
  };
  write_address = omega arith;
  write_size = omega arith;
  write_length = omega arith;
  write_beat = omega arith;
  write_id = omega arith;
  write_response = omega arith;
}

devices-IsValid : Platform.Restore.IsValid devices
devices-IsValid = record {
  mtime = omega arith;
  mtimecmp = omega arith;
  subcycle = omega arith;
  ier = omega arith;
  lcr = omega arith;
  mcr = omega arith;
  dll = omega arith;
  dlm = omega arith;
  input_bytes = tt;
  input_size = omega arith;
  output_size = omega arith;
}

saved_memory-IsValid : Memory.State.IsValid bus.memory
unfolding Memory.State.IsDistinct find
saved_memory-IsValid = record {
  distinct = (refl, tt);
  keys = (omega arith, tt);
  values = (omega arith, tt);
  size = omega arith;
}

same_devices : (p : PlatformDevices) → some devices ≡ some p → devices ≡ p
same_devices p e = cc

restore_session-save_session_example :
    restore_session flag 2 head new_run
      (save_session flag (1 ∷ 2 ∷ 3 ∷ 4 ∷ []) (5 ∷ 6 ∷ 7 ∷ []) head saved_run)
    ≡ ok (resumed flag 2 saved_run new_run, [])
restore_session-save_session_example =
    restore_session-save_session flag 2 (1 ∷ 2 ∷ 3 ∷ 4 ∷ []) (5 ∷ 6 ∷ 7 ∷ []) head saved_run new_run
      refl refl
      (record {
        build_identity = omega arith;
        image = omega arith;
        rtl = omega arith;
        seed = omega arith;
      })
      (record {
        state = saved_state-IsState;
        statistic = init-IsStatistic;
        memory = saved_memory-IsValid;
        bus = saved_bus-IsValid;
        platform = λ p e. rw (← same_devices p e) devices-IsValid;
        reference = refl;
      })
      (record { exit = refl; platform = refl; reference = refl })
