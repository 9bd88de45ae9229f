-- ===== src/Run/Loop.antt =====
-- The reset, the loop of `main` (src/main.cc) over its cycles, and what it reports.
use zircon_sim.Prelude.{
  ℕ, zero, suc, ◌+◌, ◌-◌, true, false, Option, none, some, ltb, ◌==◌, if◌then◌else◌,
}
use zircon_sim.Word.{u64}
use zircon_sim.Result.{Result, ok, ◌>>=◌, ◌>>◌, throw_if, invalid_argument}
use zircon_sim.Options.{Options}
use zircon_sim.Axi.Defs.{timer_pending}
use zircon_sim.Axi.Drive.{drive}
use zircon_sim.Spike.{Encoding}
use zircon_sim.Run.{Core, Reference, Machine, Host}
use zircon_sim.Run.Outcome.{Ending, timed_out, CycleEnd, continues, ends, Report}
use zircon_sim.Run.Cycle.{drive_interrupts, run_cycle}

module _ {D R : Type 0} (bus_words : ℕ) (core : Core D) (reference : Reference R) (e : Encoding)
    (host : Host D R) (options : Options) (tohost : Option ℕ) where
  abbrev pub then_cycle :
      (Machine D R → Result (Ending × Machine D R))
      → CycleEnd (Machine D R)
      → Result (Ending × Machine D R)
  then_cycle others (ends ending last) = ok (ending, last)
  then_cycle others (continues next) = others next

  -- The rounds left are `max_cycles - cycle`, so the recursion is the loop's own.
  unfoldable pub run_loop : ℕ → ℕ → Machine D R → Result (Ending × Machine D R)
  unfolding run_cycle
  run_loop cycle zero m = ok (timed_out, m)
  run_loop cycle (suc left) m =
      run_cycle bus_words core reference e host options tohost cycle m
      >>= then_cycle (run_loop (cycle + 1) left)

  -- From the first cycle to the end; a restored cycle beyond the limit is refused.
  unfoldable pub run : Machine D R → Result (Ending × Machine D R)
  unfolding run_loop
  run m =
      throw_if (ltb options.max_cycles m.state.next_cycle)
        (invalid_argument "--max-cycles is below the restored checkpoint cycle")
      >> run_loop m.state.next_cycle (options.max_cycles - m.state.next_cycle) m

  -- The figures of the report: the measured ones if the program's end was seen.
  unfoldable pub report : Ending × Machine D R → Report
  report (ending, m) =
      let s = m.state in
      let unmeasured = s.measured_cycles == 0 in
      record {
        ending = ending;
        cycles = if unmeasured then s.next_cycle else s.measured_cycles;
        instructions = if unmeasured then s.retired_instructions else s.measured_instructions;
        performance = elim s.measured_performance [
          | none ↦ core.performance m.dut
          | some measured ↦ measured
        ];
      }

  -- The four cycles of reset before a run that restores no checkpoint.
  unfoldable pub reset_loop : ℕ → Machine D R → Machine D R
  reset_loop zero m = m
  reset_loop (suc left) m =
      let (memory, ports) = drive bus_words m.memory (core.axi m.dut) in
      let low = core.eval (core.set_clock (core.set_axi m.dut ports) false) in
      reset_loop left (record m {
        dut = core.eval (core.set_clock low true);
        memory = memory;
        state =
            if options.wave
            then record m.state { simulation_time = u64 (m.state.simulation_time + 2) }
            else m.state;
      })

  unfoldable pub reset : Machine D R → Machine D R
  unfolding drive_interrupts reset_loop
  reset m =
      let held =
        core.set_reset
          (drive_interrupts bus_words core reference e host options tohost m.dut
            (timer_pending m.memory))
          true in
      let done = reset_loop 4 (record m { dut = held }) in
      record done { dut = core.set_reset done.dut false }
