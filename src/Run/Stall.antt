-- ===== src/Run/Stall.antt =====
-- The stall detector of the loop: a core that retires nothing is stopped.
use zircon_sim.Prelude.{
  ℕ, zero, suc, ◌+◌, ◌-◌, ◌^◌, ◌≤◌, ◌<◌, ◌≡◌, refl, true, false, [], Option, arith, ltb, ◌⊎◌,
}
use zircon_sim.Result.{Error, Result}
use zircon_sim.Result.Laws.{Gives, bind-Gives}
use zircon_sim.Options.{Options}
use zircon_sim.Spike.{Encoding}
use zircon_sim.Run.{SimulationState, Core, Reference, Machine, Host}
use zircon_sim.Run.Outcome.{
  Ending, marker_observed, exited, stalled, timed_out, commit_differs, trap_differs, CycleEnd,
  continues, ends, stall_reached,
}
use zircon_sim.Run.Cycle.{run_cycle}
use zircon_sim.Run.Loop.{then_cycle, run_loop, run}
use zircon_sim.Run.Silent.{IsSilent, Waits, run_cycle-Waits}

module _ {D R : Type 0} (bus_words : ℕ) (core : Core D) (reference : Reference R) (e : Encoding)
    (host : Host D R) (options : Options) (tohost : Option ℕ) (T : Error → Type 0)
    (next_throws : (peer : R) → Gives T (λ next. Unit {0}) (reference.next peer))
    (save_throws : (m : Machine D R) → Gives T (λ done. Unit {0}) (host.save_checkpoint m))
    (silent : IsSilent core) (unmarked : host.bytes options.pass_marker ≡ []) where
  stall_reached_lem :
      (s : SimulationState)
      → (stall_reached options s ≡ false
          → (options.stall_cycles ≡ 0) ⊎ (s.cycles_without_retirement < options.stall_cycles))
        × (stall_reached options s ≡ true → options.stall_cycles ≤ s.cycles_without_retirement)
  unfolding stall_reached
  stall_reached_lem s = ground arith

  abbrev loop : ℕ → ℕ → Machine D R → Result (Ending × Machine D R)
  loop = run_loop bus_words core reference e host options tohost

  abbrev StallsAt : ℕ → Ending × Machine D R → Type 0
  StallsAt last (ending, m) = (ending ≡ stalled) × (m.state.next_cycle ≡ last)

  then_StallsAt :
      (cycle left count : ℕ) (cycle_end : CycleEnd (Machine D R))
      → count < options.stall_cycles
      → options.stall_cycles < 2 ^ 64
      → cycle < options.max_cycles
      → options.max_cycles < 2 ^ 64
      → ((next : Machine D R)
          → next.state.waiting_after_wfi ≡ false
          → next.state.cycles_without_retirement ≡ count + 1
          → count + 1 < options.stall_cycles
          → Gives T
              (StallsAt (cycle + (options.stall_cycles - count)))
              (loop (cycle + 1) left next))
      → Waits options cycle count cycle_end
      → Gives T (StallsAt (cycle + (options.stall_cycles - count))) (
          then_cycle bus_words core reference e host options tohost
            (loop (cycle + 1) left)
            cycle_end)
  unfolding Waits Gives
  then_StallsAt cycle left count (continues next) short small below bound rest
        (counted, waiting, more, quiet) =
      let known = stall_reached_lem next.state in
      rest next waiting (omega (arith, more, short, small))
        (ground (arith, known.0 quiet, more, short, small))
  then_StallsAt cycle left count (ends stalled m) short small below bound rest
        (counted, more, reached) =
      let known = stall_reached_lem m.state in
      (refl, omega (arith, known.1 reached, more, counted, short, small, below, bound))
  then_StallsAt cycle left count (ends marker_observed m) short small below bound rest never =
      absurd never
  then_StallsAt cycle left count (ends (exited code) m) short small below bound rest never =
      absurd never
  then_StallsAt cycle left count (ends timed_out m) short small below bound rest never =
      absurd never
  then_StallsAt cycle left count (ends commit_differs m) short small below bound rest never =
      absurd never
  then_StallsAt cycle left count (ends trap_differs m) short small below bound rest never =
      absurd never

  loop-StallsAt :
      (cycle left count : ℕ) (m : Machine D R)
      → cycle + left ≡ options.max_cycles
      → options.max_cycles < 2 ^ 64
      → m.state.waiting_after_wfi ≡ false
      → m.state.cycles_without_retirement ≡ count
      → count < options.stall_cycles
      → options.stall_cycles < 2 ^ 64
      → options.stall_cycles - count ≤ left
      → Gives T (StallsAt (cycle + (options.stall_cycles - count))) (loop cycle left m)
  unfolding run_loop
  loop-StallsAt cycle zero count m limit bound waiting counted short small room =
      absurd (omega arith)
  loop-StallsAt cycle (suc left) count m limit bound waiting counted short small room =
      bind-Gives T (Waits options cycle count) (StallsAt (cycle + (options.stall_cycles - count)))
        (run_cycle bus_words core reference e host options tohost cycle m)
        (then_cycle bus_words core reference e host options tohost (loop (cycle + 1) left))
        (run_cycle-Waits bus_words core reference e host options tohost T next_throws save_throws
          silent unmarked cycle count m waiting counted)
        (λ cycle_end.
          then_StallsAt cycle left count cycle_end short small (omega (arith, limit)) bound
            (λ next still more within. rw⁻¹ (later cycle count short) (
              loop-StallsAt (cycle + 1) left (count + 1) next (omega (arith, limit)) bound still
                more within small (omega (arith, room)))))
    where
      later :
          (cycle count : ℕ)
          → count < options.stall_cycles
          → cycle + 1 + (options.stall_cycles - (count + 1))
            ≡ cycle + (options.stall_cycles - count)
      later cycle count h = omega (arith, h)

  -- A core that retires, traps and writes nothing is stopped as stalled after exactly the cycles of the
  -- stall window that are left, if it does not wait after a WFI, the count of cycles without a retirement is
  -- still below the window, what is left of the window lies within the limit of cycles, and no pass marker is
  -- set; only an exception of the reference or of the writing of a checkpoint ends the run before.
  pub run-StallsAt :
      (m : Machine D R)
      → m.state.waiting_after_wfi ≡ false
      → m.state.cycles_without_retirement < options.stall_cycles
      → options.stall_cycles < 2 ^ 64
      → options.max_cycles < 2 ^ 64
      → m.state.next_cycle + (options.stall_cycles - m.state.cycles_without_retirement)
        ≤ options.max_cycles
      → Gives T
          (StallsAt
            (m.state.next_cycle + (options.stall_cycles - m.state.cycles_without_retirement)))
          (run bus_words core reference e host options tohost m)
  unfolding run
  run-StallsAt m waiting short small bound room = rw within (
      loop-StallsAt m.state.next_cycle (options.max_cycles - m.state.next_cycle)
        m.state.cycles_without_retirement m (omega (arith, room)) bound waiting refl short small
        (omega (arith, room)))
    where
      within : ltb options.max_cycles m.state.next_cycle ≡ false
      within = ground (arith, room)
