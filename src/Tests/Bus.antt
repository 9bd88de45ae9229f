-- ===== src/Tests/Bus.antt =====
-- The bus model at concrete inputs.
use zircon_sim.Axi.Bursts.{beats, beats_lem}
use zircon_sim.Word.{u64}
use zircon_sim.Prelude.{◌+◌, ◌*◌, ◌≡◌, refl, true, false, [], ◌∷◌, ◌++◌, none, some, arith}
use zircon_sim.Result.{ok}
use zircon_sim.Memory.{empty}
use zircon_sim.ExitMonitor.{set_value}
use zircon_sim.Axi.Defs.{ReadTransaction, Ports, AxiMemory, idle_read}
use zircon_sim.Axi.Drive.{drive}
use zircon_sim.Axi.Update.{update}
use zircon_sim.Axi.State
use zircon_sim.Axi.State.{exit_value}
use zircon_sim.Axi.Restore.{restore-save_bus}
use zircon_sim.Axi.Protocol.{IsConsistent}
use zircon_sim.Axi.Handshakes.{start, cycle, Reaches-IsConsistent}

-- A burst of four beats is read, its second beat waiting; a write of two beats is under way.
abbrev busy : AxiMemory
busy = record {
  memory = empty;
  exit = some (record { tohost_address = 0x80001000; value = 2 });
  rng = record { state = 0x20250726 };
  platform = none;
  demand = record { active = true; address = 0x80000008; size = 8; length = 3; beat = 1 };
  prefetch = idle_read;
  read_data_valid = true;
  read_data = 0x13 ∷ 0x93 ∷ [];
  read_selected_id = 0;
  read_response = 0;
  write_active = true;
  write_response_valid = false;
  write_address = 0x80001000;
  write_size = 8;
  write_length = 1;
  write_beat = 0;
  write_id = 1;
  write_response = 0;
  console = [];
}

abbrev requests : Ports
requests = record {
  ar_valid = true;
  ar_ready = false;
  ar_id = 1;
  ar_addr = 0x80000040;
  ar_len = 7;
  ar_size = 3;
  r_valid = false;
  r_ready = true;
  r_id = 0;
  r_data = [];
  r_resp = 0;
  r_last = false;
  aw_valid = false;
  aw_ready = false;
  aw_id = 0;
  aw_addr = 0;
  aw_len = 0;
  aw_size = 0;
  w_valid = true;
  w_ready = false;
  w_strb = 0xff;
  w_data = 1 ∷ 0 ∷ [];
  w_last = false;
  b_valid = false;
  b_ready = true;
  b_id = 0;
  b_resp = 0;
}

-- The core raises the last-beat mark when it is evaluated.
abbrev answered : Ports
answered = record (drive 2 busy requests).1 { w_last = true }

abbrev after_cycle : AxiMemory
after_cycle = (update 2 (drive 2 busy requests).0 answered).0

Reaches-IsConsistent_example : IsConsistent after_cycle
unfolding drive
Reaches-IsConsistent_example =
    Reaches-IsConsistent 2 busy after_cycle
      (record {
        demand = record { bounded = omega arith; within = omega arith };
        prefetch = record { bounded = omega arith; within = omega arith };
        selected = omega arith;
        supplied = λ e. refl;
        write_bounded = omega arith;
        write_within = omega arith;
        exclusive = refl;
      })
      (cycle requests answered start (record {
        ar_ready = refl;
        ar_id = refl;
        r_valid = refl;
        r_last = refl;
        aw_ready = refl;
        w_ready = refl;
        b_valid = refl;
        ar_len = omega arith;
        aw_len = omega arith;
      }))

-- The model that the checkpoint is restored into.
abbrev reopened : AxiMemory
reopened = record busy {
  exit = some (record { tohost_address = 0x80001000; value = 0 });
  rng = record { state = 1 };
  demand = idle_read;
  read_data_valid = false;
}

restore-save_bus_example :
    State.restore 2 reopened (State.save busy ++ 1 ∷ [])
    ≡ ok (
      record busy {
        exit =
            some (set_value (record { tohost_address = 0x80001000; value = 0 }) (exit_value busy));
      },
      1 ∷ [],
    )
restore-save_bus_example =
    restore-save_bus 2 busy reopened (1 ∷ [])
      (record {
        exit = omega arith;
        rng = omega arith;
        live = λ e. absurd (omega (arith, e));
        words = refl;
        read_data = (omega arith, (omega arith, tt));
        read_selected_id = omega arith;
        read_response = omega arith;
        demand = record {
          address = omega arith;
          size = omega arith;
          length = omega arith;
          beat = omega arith;
        };
        prefetch = record {
          address = omega arith;
          size = omega arith;
          length = omega arith;
          beat = omega arith;
        };
        write_address = omega arith;
        write_size = omega arith;
        write_length = omega arith;
        write_beat = omega arith;
        write_id = omega arith;
        write_response = omega arith;
      })
      refl

-- A burst of four beats.
abbrev burst : ReadTransaction
burst = record { active = true; address = 0x80000040; size = 8; length = 3; beat = 0 }

beats_lem_example :
    (beats 2 burst ≡ record burst { beat = 2; address = u64 (0x80000040 + 2 * 8) })
    × ((beats 2 burst).active ≡ true)
    × ((beats 4 burst).active ≡ false)
beats_lem_example = beats_lem 2 burst refl refl (omega arith) (omega arith) (omega arith)
