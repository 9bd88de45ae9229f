-- ===== src/Run/Ends.antt =====
-- How the loop ends, and when.
use zircon_sim.Prelude.{
  ℕ, zero, suc, ◌+◌, ◌-◌, ◌^◌, ◌≤◌, ◌<◌, ◌≡◌, refl, true, false, Option, arith, ltb,
}
use zircon_sim.Result.{Error, Result}
use zircon_sim.Result.Laws.{Gives, bind-Gives}
use zircon_sim.Options.{Options}
use zircon_sim.Spike.{Encoding}
use zircon_sim.Run.{SimulationState, Core, Reference, Machine, Host}
use zircon_sim.Run.Outcome.{
  Ending, marker_observed, exited, stalled, timed_out, commit_differs, trap_differs, CycleEnd,
  continues, ends, stall_reached,
}
use zircon_sim.Run.Cycle.{run_cycle}
use zircon_sim.Run.Loop.{then_cycle, run_loop, run}
use zircon_sim.Run.Closing.{CycleOk, run_cycle-CycleOk}

module _ (options : Options) where
  -- A run reaches the limit of cycles exactly if nothing else ends it, and then without a stall.
  unfoldable pub EndsAt : Ending → SimulationState → Type 0
  EndsAt timed_out s = (s.next_cycle ≡ options.max_cycles) × (stall_reached options s ≡ false)
  EndsAt stalled s = (s.next_cycle ≤ options.max_cycles) × (stall_reached options s ≡ true)
  EndsAt _ s = s.next_cycle ≤ options.max_cycles

module _ {D R : Type 0} (bus_words : ℕ) (core : Core D) (reference : Reference R) (e : Encoding)
    (host : Host D R) (options : Options) (tohost : Option ℕ) where
  module _ (T : Error → Type 0)
      (next_throws : (peer : R) → Gives T (λ next. Unit {0}) (reference.next peer))
      (save_throws : (m : Machine D R) → Gives T (λ done. Unit {0}) (host.save_checkpoint m)) where
    abbrev loop : ℕ → ℕ → Machine D R → Result (Ending × Machine D R)
    loop = run_loop bus_words core reference e host options tohost

    abbrev Ended : Ending × Machine D R → Type 0
    Ended (ending, last) = EndsAt options ending last.state

    then_cycle-Ended :
        (cycle left : ℕ) (cycle_end : CycleEnd (Machine D R))
        → cycle < options.max_cycles
        → options.max_cycles < 2 ^ 64
        → ((next : Machine D R)
            → next.state.next_cycle ≡ cycle + 1
            → stall_reached options next.state ≡ false
            → Gives T Ended (loop (cycle + 1) left next))
        → CycleOk options cycle cycle_end
        → Gives T Ended (
            then_cycle bus_words core reference e host options tohost
              (loop (cycle + 1) left)
              cycle_end)
    unfolding CycleOk EndsAt Gives
    then_cycle-Ended cycle left (continues next) below bound rest (counted, quiet) =
        rest next (omega (arith, counted, below, bound)) quiet
    then_cycle-Ended cycle left (ends marker_observed m) below bound rest counted =
        omega (arith, counted, below, bound)
    then_cycle-Ended cycle left (ends (exited code) m) below bound rest counted =
        omega (arith, counted, below, bound)
    then_cycle-Ended cycle left (ends stalled m) below bound rest (counted, reached) =
        (omega (arith, counted, below, bound), reached)
    then_cycle-Ended cycle left (ends timed_out m) below bound rest never = absurd never
    then_cycle-Ended cycle left (ends commit_differs m) below bound rest same =
        omega (arith, same, below)
    then_cycle-Ended cycle left (ends trap_differs m) below bound rest same =
        omega (arith, same, below)

    run_loop-Ended :
        (cycle left : ℕ) (m : Machine D R)
        → m.state.next_cycle ≡ cycle
        → cycle + left ≡ options.max_cycles
        → options.max_cycles < 2 ^ 64
        → stall_reached options m.state ≡ false
        → Gives T Ended (loop cycle left m)
    unfolding run_loop Gives EndsAt
    run_loop-Ended cycle zero m h limit bound quiet = (omega (arith, h, limit), quiet)
    run_loop-Ended cycle (suc left) m h limit bound quiet =
        bind-Gives T (CycleOk options cycle) Ended
          (run_cycle bus_words core reference e host options tohost cycle m)
          (then_cycle bus_words core reference e host options tohost (loop (cycle + 1) left))
          (run_cycle-CycleOk bus_words core reference e host options tohost T next_throws
            save_throws cycle m h)
          (λ cycle_end.
            then_cycle-Ended cycle left cycle_end (omega (arith, limit)) bound
              (λ next counted still.
                run_loop-Ended (cycle + 1) left next counted (omega (arith, limit)) bound still))

    -- the loop returns, if it starts within the limit of cycles and without a stall: it throws only what
    -- the reference or the writing of a checkpoint throws, never simulates more cycles than the limit,
    -- has simulated all of them without a stall if it times out, and has the count of a stall if it stalls
    pub run-EndsAt :
        (m : Machine D R)
        → m.state.next_cycle ≤ options.max_cycles
        → options.max_cycles < 2 ^ 64
        → stall_reached options m.state ≡ false
        → Gives T
            (λ returned. EndsAt options returned.0 returned.1.state)
            (run bus_words core reference e host options tohost m)
    unfolding run
    run-EndsAt m below bound quiet = rw within (
        run_loop-Ended m.state.next_cycle (options.max_cycles - m.state.next_cycle) m refl
          (omega (arith, below)) bound quiet)
      where
        within : ltb options.max_cycles m.state.next_cycle ≡ false
        within = ground (arith, below)
