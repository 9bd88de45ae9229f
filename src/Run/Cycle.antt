-- ===== src/Run/Cycle.antt =====
-- One clock cycle of the loop in `main` (src/main.cc).
use text.Mathlib.Text.{◌==◌ as same_text}
use zircon_sim.Prelude.{
  ℕ, ◌+◌, bit_and, Bool, true, false, not, ◌&&◌, ◌||◌, List, [], ◌∷◌, ◌++◌, Option, none, some,
  ◌==◌, if◌then◌else◌,
}
use zircon_sim.Word.{u64}
use zircon_sim.Result.{Result, ok, err, ◌>>=◌, ◌>>◌}
use zircon_sim.Options.{Options}
use zircon_sim.Axi.Defs.{timer_pending, platform_time, tick_platform, append_input, output_has}
use zircon_sim.Axi.Drive.{drive}
use zircon_sim.Axi.Update
use zircon_sim.Spike.{Encoding, SpikeTrap}
use zircon_sim.Run.{Retire, Core, Reference, Machine, Host}
use zircon_sim.Run.Lane.{LaneEnd, goes_on, disagrees, retire_lane}
use zircon_sim.Run.Outcome.{
  CycleEnd, checkpoint_triggered, commit_differs, continues, count_stall, ends, exited, is_empty,
  is_some, marker_observed, stall_reached, stalled, trap_differs,
}

module _ {D R : Type 0} (bus_words : ℕ) (core : Core D) (reference : Reference R) (e : Encoding)
    (host : Host D R) (options : Options) (tohost : Option ℕ) where
  abbrev pub lanes_of : D → List Retire
  lanes_of dut = core.retire_0 dut ∷ core.retire_1 dut ∷ core.retire_2 dut ∷ []

  unfoldable pub drive_interrupts : D → Bool → D
  drive_interrupts dut timer =
      core.set_seip (core.set_mtip (core.set_msip (core.set_meip dut false) false) timer) false

  -- The terminal's input reaches the devices of both sides.
  unfoldable pub poll_input : ℕ → Machine D R → Machine D R
  poll_input cycle m =
      if options.uart_stdio && (bit_and cycle 0x3ff == 0) && not (is_empty (host.poll cycle))
      then record m {
        memory = append_input m.memory (host.poll cycle);
        reference = elim m.reference [
          | none ↦ none
          | some peer ↦ some (reference.append_uart_input peer (host.poll cycle))
        ];
      }
      else m

  -- The low phase of the clock: the bus is driven, the core evaluated, the bus updated.
  unfoldable pub low_phase : Machine D R → Machine D R × Option ℕ
  unfolding drive_interrupts
  low_phase m =
      let (driven, ports) =
        drive bus_words m.memory (core.axi (drive_interrupts m.dut (timer_pending m.memory))) in
      let dut = core.eval (
        core.set_clock (core.set_axi (drive_interrupts m.dut (timer_pending m.memory)) ports)
          false) in
      let (memory, result) = Update.update bus_words driven (core.axi dut) in
      (
        record m {
          dut = dut;
          memory = memory;
          reference = elim m.reference [
            | none ↦ none
            | some peer ↦ some (reference.set_time peer (platform_time memory))
          ];
          state = record m.state { simulation_time = u64 (m.state.simulation_time + 1) };
        },
        result,
      )

  -- `pending_trap`: looked at if there is a reference.
  unfoldable pub pending_trap : Machine D R → Option SpikeTrap
  pending_trap m = elim m.reference [ none ↦ none | some peer ↦ core.trap m.dut ]

  -- A lane that agreed is followed by the other lanes.
  abbrev pub then_lanes :
      (Machine D R → Result (LaneEnd (Machine D R)))
      → LaneEnd (Machine D R)
      → Result (LaneEnd (Machine D R))
  then_lanes others (goes_on next) = others next
  then_lanes others (disagrees failed) = ok (disagrees failed)

  -- The lanes from `lane` on.
  unfoldable pub retire_lanes : ℕ → ℕ → List Retire → Machine D R → Result (LaneEnd (Machine D R))
  unfolding retire_lane
  retire_lanes cycle lane [] m = ok (goes_on m)
  retire_lanes cycle lane (r ∷ lanes) m =
      let others = retire_lanes cycle (lane + 1) lanes in
      if r.valid
      then retire_lane reference e options tohost cycle lane m r >>= then_lanes others
      else others m

  -- The trap of the core is taken by the reference; an exception there fails the run.
  unfoldable pub inject_trap : Option SpikeTrap → R → Result R
  inject_trap none peer = ok peer
  inject_trap (some trap) peer =
      if not (bit_and trap.cause 0x80000000 == 0)
      then reference.inject_interrupt peer trap
      else if (trap.cause == 12) || (trap.cause == 13) || (trap.cause == 15)
      then reference.inject_page_fault peer trap
      else ok peer

  unfoldable pub trap_taken : Machine D R → Result R → CycleEnd (Machine D R)
  trap_taken m (err thrown) = ends trap_differs m
  trap_taken m (ok next) = continues (record m { reference = some next })

  unfoldable pub take_trap : Option SpikeTrap → Machine D R → Option R → CycleEnd (Machine D R)
  unfolding inject_trap trap_taken
  take_trap trap m none = continues m
  take_trap trap m (some peer) = trap_taken m (inject_trap trap peer)

  -- The high phase of the clock, after which the measured counters are read.
  unfoldable pub high_phase : ℕ → Machine D R → Machine D R
  high_phase cycle m =
      let dut = core.eval (core.set_clock m.dut true) in
      let s = m.state in
      record m {
        dut = dut;
        memory = tick_platform m.memory;
        state = record s {
          measured_performance =
              if s.capture_measured_performance
              then some (core.performance dut)
              else s.measured_performance;
          capture_measured_performance = false;
          simulation_time = u64 (s.simulation_time + 1);
          next_cycle = u64 (cycle + 1);
        };
      }

  abbrev pub marker_seen : Machine D R → Bool
  marker_seen m = output_has m.memory (host.bytes options.pass_marker)

  abbrev pub checkpoint_marker_found : Machine D R → Bool
  checkpoint_marker_found m =
      not (same_text options.checkpoint_marker "")
      && output_has m.memory (host.bytes options.checkpoint_marker)

  abbrev pub note_marker : Machine D R → Machine D R
  note_marker m =
      if checkpoint_marker_found m
      then record m { state = record m.state { checkpoint_marker_seen = true } }
      else m

  unfoldable pub save_machine : ℕ → Machine D R → Result (Machine D R)
  save_machine cycle m =
      host.save_checkpoint m >> ok (record m { saved = m.saved ++ u64 (cycle + 1) ∷ [] })

  unfoldable pub checkpoint : ℕ → Option ℕ → Machine D R → Result (Machine D R)
  unfolding checkpoint_triggered save_machine
  checkpoint cycle result m =
      if checkpoint_triggered options cycle (is_some result) (marker_seen m)
        (checkpoint_marker_found m) m.state.checkpoint_marker_seen
      then save_machine cycle (note_marker m)
      else ok (note_marker m)

  -- How the cycle ends: the pass marker, the program's exit code, a stall, or not at all.
  unfoldable pub close_cycle : Option ℕ → Machine D R → CycleEnd (Machine D R)
  unfolding stall_reached
  close_cycle result m =
      if marker_seen m
      then ends marker_observed m
      else elim result as (λ _. CycleEnd (Machine D R)) [
        | some code ↦ ends (exited code) m
        | none ↦ if stall_reached options m.state then ends stalled m else continues m
      ]

  -- The part of a cycle after the trap.
  unfoldable pub finish_cycle :
      ℕ → Option ℕ → List Retire → Bool → CycleEnd (Machine D R) → Result (CycleEnd (Machine D R))
  unfolding count_stall high_phase checkpoint close_cycle
  finish_cycle cycle result lanes trapped (ends ending m) = ok (ends ending m)
  finish_cycle cycle result lanes trapped (continues m) =
      checkpoint cycle result
        (high_phase cycle (record m { state = count_stall lanes trapped m.state }))
      >>= λ next. ok (close_cycle result next)

  abbrev pub is_trap : Option SpikeTrap → Bool
  is_trap none = false
  is_trap (some trap) = true

  unfoldable pub after_lanes :
      ℕ
      → Option ℕ
      → List Retire
      → Option SpikeTrap
      → LaneEnd (Machine D R)
      → Result (CycleEnd (Machine D R))
  unfolding take_trap finish_cycle
  after_lanes cycle result lanes trap (disagrees m) = ok (ends commit_differs m)
  after_lanes cycle result lanes trap (goes_on m) =
      finish_cycle cycle result lanes (is_trap trap) (take_trap trap m m.reference)

  -- The rest of a cycle, on what the low phase comes to.
  unfoldable pub run_lanes : ℕ → Machine D R × Option ℕ → Result (CycleEnd (Machine D R))
  unfolding pending_trap retire_lanes after_lanes
  run_lanes cycle (m, result) =
      let lanes = lanes_of m.dut in
      retire_lanes cycle 0 lanes m >>= after_lanes cycle result lanes (pending_trap m)

  -- The body of the loop.
  unfoldable pub run_cycle : ℕ → Machine D R → Result (CycleEnd (Machine D R))
  unfolding poll_input low_phase run_lanes
  run_cycle cycle m = run_lanes cycle (low_phase (poll_input cycle m))
