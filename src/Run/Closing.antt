-- ===== src/Run/Closing.antt =====
-- How a cycle of the loop ends.
use zircon_sim.Prelude.{
  ℕ, ◌+◌, ◌≡◌, refl, ◌∙◌, Bool, true, false, List, [], ◌∷◌, ◌++◌, Option, none, some, arith,
  if◌then◌else◌, Bool-cases, inl, inr,
}
use zircon_sim.Word.{u64}
use zircon_sim.Result.{Error, Result, ok, err}
use zircon_sim.Result.Laws.{Gives, bind-Gives, if_Gives}
use zircon_sim.Options.{Options}
use zircon_sim.Spike.{Encoding, SpikeTrap}
use zircon_sim.Run.{Retire, Core, Reference, Machine, Host}
use zircon_sim.Run.Lane.{LaneEnd, goes_on, disagrees}
use zircon_sim.Run.Kept.{Kept, machine_of, LaneKeeps, retire_lanes-LaneKeeps}
use zircon_sim.Run.Outcome.{
  marker_observed, exited, stalled, timed_out, commit_differs, trap_differs, CycleEnd, continues,
  ends, stall_reached, count_stall, checkpoint_triggered, is_some,
}
use zircon_sim.Run.Cycle.{
  lanes_of, poll_input, low_phase, pending_trap, retire_lanes, take_trap, high_phase, checkpoint,
  close_cycle, marker_seen, note_marker, save_machine, checkpoint_marker_found, inject_trap,
  trap_taken, is_trap, finish_cycle, after_lanes, run_lanes, run_cycle,
}

module _ (options : Options) where
  -- A cycle that goes on has counted itself and found no stall; a stall is the count of the options.
  unfoldable pub CycleOk : {D R : Type 0} → ℕ → CycleEnd (Machine D R) → Type 0
  CycleOk cycle (continues m) =
      (m.state.next_cycle ≡ u64 (cycle + 1)) × (stall_reached options m.state ≡ false)
  CycleOk cycle (ends marker_observed m) = m.state.next_cycle ≡ u64 (cycle + 1)
  CycleOk cycle (ends (exited code) m) = m.state.next_cycle ≡ u64 (cycle + 1)
  CycleOk cycle (ends stalled m) =
      (m.state.next_cycle ≡ u64 (cycle + 1)) × (stall_reached options m.state ≡ true)
  CycleOk cycle (ends timed_out m) = ⊥
  CycleOk cycle (ends commit_differs m) = m.state.next_cycle ≡ cycle
  CycleOk cycle (ends trap_differs m) = m.state.next_cycle ≡ cycle

module _ {D R : Type 0} (bus_words : ℕ) (core : Core D) (reference : Reference R) (e : Encoding)
    (host : Host D R) (options : Options) (tohost : Option ℕ) where
  pub poll_input-Kept :
      (cycle : ℕ) (m : Machine D R)
      → Kept m.state (poll_input bus_words core reference e host options tohost cycle m).state
  unfolding poll_input
  poll_input-Kept cycle m = ground arith

  pub low_phase-Kept :
      (m : Machine D R)
      → Kept m.state (low_phase bus_words core reference e host options tohost m).0.state
  unfolding low_phase
  low_phase-Kept m = record { next_cycle = refl; cycles = refl; waiting = refl }

  abbrev close : Option ℕ → Machine D R → CycleEnd (Machine D R)
  close = close_cycle bus_words core reference e host options tohost

  quiet_CycleOk :
      (cycle : ℕ) (m : Machine D R) (reached : Bool)
      → m.state.next_cycle ≡ u64 (cycle + 1)
      → stall_reached options m.state ≡ reached
      → CycleOk options cycle (if reached then ends stalled m else continues m)
  unfolding CycleOk
  quiet_CycleOk cycle m true h same = (h, same)
  quiet_CycleOk cycle m false h same = (h, same)

  close_cycle-CycleOk :
      (cycle : ℕ) (result : Option ℕ) (m : Machine D R)
      → m.state.next_cycle ≡ u64 (cycle + 1)
      → CycleOk options cycle (close result m)
  unfolding close_cycle CycleOk
  close_cycle-CycleOk cycle result m h =
      elim (Bool-cases (marker_seen bus_words core reference e host options tohost m)) [
        | inl found ↦ rw found h
        | inr missing ↦ rw missing (by_result result)
      ]
    where
      by_result :
          (result : Option ℕ)
          → CycleOk options cycle (elim result as (λ _. CycleEnd (Machine D R)) [
            | some code ↦ ends (exited code) m
            | none ↦ if stall_reached options m.state then ends stalled m else continues m
          ])
      by_result (some code) = h
      by_result none = quiet_CycleOk cycle m (stall_reached options m.state) h refl

  module _ (T : Error → Type 0)
      (next_throws : (peer : R) → Gives T (λ next. Unit {0}) (reference.next peer))
      (save_throws : (m : Machine D R) → Gives T (λ done. Unit {0}) (host.save_checkpoint m)) where
    abbrev note : Machine D R → Machine D R
    note = note_marker bus_words core reference e host options tohost

    note_marker-Kept : (m : Machine D R) → Kept m.state (note m).state
    note_marker-Kept m = ground arith

    pub checkpoint-Kept :
        (cycle : ℕ) (result : Option ℕ) (m : Machine D R)
        → Gives T
            (λ next. Kept m.state next.state)
            (checkpoint bus_words core reference e host options tohost cycle result m)
    unfolding checkpoint save_machine Gives
    checkpoint-Kept cycle result m =
        let noted = note_marker-Kept m in
        if_Gives T (λ next. Kept m.state next.state)
          (checkpoint_triggered options cycle (is_some result)
            (marker_seen bus_words core reference e host options tohost m)
            (checkpoint_marker_found bus_words core reference e host options tohost m)
            m.state.checkpoint_marker_seen)
          (save_machine bus_words core reference e host options tohost cycle (note m)) (ok (note m))
          (bind-Gives T (λ done. Unit) (λ next. Kept m.state next.state)
            (host.save_checkpoint (note m))
            (λ done. ok (record (note m) { saved = (note m).saved ++ u64 (cycle + 1) ∷ [] }))
            (save_throws (note m)) (λ done known. noted))
          noted

    finish_cycle-CycleOk :
        (cycle : ℕ) (result : Option ℕ) (lanes : List Retire) (trapped : Bool) (m : Machine D R)
        → Gives T (CycleOk options cycle) (
            finish_cycle bus_words core reference e host options tohost cycle result lanes trapped
              (continues m))
    unfolding finish_cycle Gives
    finish_cycle-CycleOk cycle result lanes trapped m =
        let last =
          high_phase bus_words core reference e host options tohost cycle
            (record m { state = count_stall lanes trapped m.state }) in
        bind-Gives T (λ next. Kept last.state next.state) (CycleOk options cycle)
          (checkpoint bus_words core reference e host options tohost cycle result last)
          (λ next. ok (close result next)) (checkpoint-Kept cycle result last)
          (λ next kept.
            close_cycle-CycleOk cycle result next (kept.next_cycle ∙ (unfold high_phase in refl)))

    abbrev finished :
        ℕ → Option ℕ → List Retire → Bool → CycleEnd (Machine D R) → Result (CycleEnd (Machine D R))
    finished = finish_cycle bus_words core reference e host options tohost

    taken-CycleOk :
        (cycle : ℕ) (result : Option ℕ) (lanes : List Retire) (trapped : Bool) (m : Machine D R)
        (returned : Result R)
        → m.state.next_cycle ≡ cycle
        → Gives T (CycleOk options cycle) (
            finished cycle result lanes trapped
              (trap_taken bus_words core reference e host options tohost m returned))
    unfolding trap_taken finish_cycle CycleOk Gives
    taken-CycleOk cycle result lanes trapped m (err thrown) h = h
    taken-CycleOk cycle result lanes trapped m (ok next) h =
        finish_cycle-CycleOk cycle result lanes trapped (record m { reference = some next })

    take_trap-CycleOk :
        (cycle : ℕ) (result : Option ℕ) (lanes : List Retire) (trapped : Bool) (m : Machine D R)
        (trap : Option SpikeTrap) (peer : Option R)
        → m.state.next_cycle ≡ cycle
        → Gives T (CycleOk options cycle) (
            finished cycle result lanes trapped
              (take_trap bus_words core reference e host options tohost trap m peer))
    unfolding take_trap
    take_trap-CycleOk cycle result lanes trapped m trap none h =
        finish_cycle-CycleOk cycle result lanes trapped m
    take_trap-CycleOk cycle result lanes trapped m trap (some peer) h =
        taken-CycleOk cycle result lanes trapped m
          (inject_trap bus_words core reference e host options tohost trap peer) h

    after_lanes-CycleOk :
        (cycle : ℕ) (result : Option ℕ) (lanes : List Retire) (trap : Option SpikeTrap)
        (lane_end : LaneEnd (Machine D R))
        → (machine_of lane_end).state.next_cycle ≡ cycle
        → Gives T (CycleOk options cycle) (
            after_lanes bus_words core reference e host options tohost cycle result lanes trap
              lane_end)
    unfolding after_lanes CycleOk Gives
    after_lanes-CycleOk cycle result lanes trap (disagrees m) h = h
    after_lanes-CycleOk cycle result lanes trap (goes_on m) h =
        take_trap-CycleOk cycle result lanes
          (is_trap bus_words core reference e host options tohost trap) m trap m.reference h

    pub run_cycle-CycleOk :
        (cycle : ℕ) (m : Machine D R)
        → m.state.next_cycle ≡ cycle
        → Gives T
            (CycleOk options cycle)
            (run_cycle bus_words core reference e host options tohost cycle m)
    unfolding run_cycle run_lanes
    run_cycle-CycleOk cycle m h =
        let polled = poll_input bus_words core reference e host options tohost cycle m in
        let low = low_phase bus_words core reference e host options tohost polled in
        let lanes = lanes_of bus_words core reference e host options tohost low.0.dut in
        let trap = pending_trap bus_words core reference e host options tohost low.0 in
        bind-Gives T (LaneKeeps low.0.state) (CycleOk options cycle)
          (retire_lanes bus_words core reference e host options tohost cycle 0 lanes low.0)
          (after_lanes bus_words core reference e host options tohost cycle low.1 lanes trap)
          (retire_lanes-LaneKeeps bus_words core reference e host options tohost T next_throws cycle
            0 lanes low.0)
          (λ lane_end kept. after_lanes-CycleOk cycle low.1 lanes trap lane_end (
            kept.next_cycle
            ∙ (low_phase-Kept polled).next_cycle
            ∙ (poll_input-Kept cycle m).next_cycle
            ∙ h))
