-- ===== src/Run/Silent.antt =====
-- A cycle of the loop with a core that retires nothing.
use zircon_sim.Prelude.{
  ℕ, ◌+◌, ◌≡◌, refl, ap, ◌∙◌, Bool, true, false, List, [], Option, none, some, if◌then◌else◌,
}
use zircon_sim.Word.{u64}
use zircon_sim.Result.{Error, ok}
use zircon_sim.Result.Laws.{Gives, bind-Gives}
use zircon_sim.Options.{Options}
use zircon_sim.Platform.Bus.{output_contains}
use zircon_sim.Axi.Defs.{AxiMemory, Ports, output_has}
use zircon_sim.Axi.Update.{accept_ar, accept_r, accept_aw, accept_w, end_cycle, update}
use zircon_sim.Spike.{Encoding, SpikeTrap}
use zircon_sim.Run.{SimulationState, Retire, Core, Reference, Machine, Host}
use zircon_sim.Run.Lane.{goes_on}
use zircon_sim.Run.Kept.{Kept}
use zircon_sim.Run.Closing.{poll_input-Kept, low_phase-Kept, checkpoint-Kept}
use zircon_sim.Run.Outcome.{
  stalled, CycleEnd, continues, ends, any_retired, stall_reached, count_stall,
}
use zircon_sim.Run.Cycle.{
  lanes_of, poll_input, low_phase, pending_trap, retire_lanes, inject_trap, trap_taken, take_trap,
  high_phase, checkpoint, marker_seen, close_cycle, finish_cycle, after_lanes, run_lanes, run_cycle,
}

-- The core retires nothing, traps nothing and sends no data to the bus.
pub record IsSilent {D : Type 0} (core : Core D) : Type 0 where
  pub retire_0 : (dut : D) → (core.retire_0 dut).valid ≡ false
  pub retire_1 : (dut : D) → (core.retire_1 dut).valid ≡ false
  pub retire_2 : (dut : D) → (core.retire_2 dut).valid ≡ false
  pub trap : (dut : D) → core.trap dut ≡ none
  pub write : (dut : D) → (core.axi dut).w_valid ≡ false

accept_w_silent :
    (bus_words : ℕ) (s : AxiMemory) (cpu : Ports)
    → cpu.w_valid ≡ false
    → (accept_w bus_words s cpu).1 ≡ none
unfolding accept_w
accept_w_silent bus_words s cpu silent = rw silent refl

end_cycle_silent :
    (bus_words : ℕ) (s : AxiMemory) (cpu : Ports) (result : Option ℕ)
    → result ≡ none
    → (end_cycle bus_words s cpu result).1 ≡ none
unfolding end_cycle
end_cycle_silent bus_words s cpu none h = refl
end_cycle_silent bus_words s cpu (some code) h = h

update_silent :
    (bus_words : ℕ) (s : AxiMemory) (cpu : Ports)
    → cpu.w_valid ≡ false
    → (update bus_words s cpu).1 ≡ none
unfolding update
update_silent bus_words s cpu silent =
    let asked = accept_aw (accept_r (accept_ar s cpu) cpu) cpu in
    let step = accept_w bus_words asked cpu in
    end_cycle_silent bus_words step.0 cpu step.1 (accept_w_silent bus_words asked cpu silent)

output_empty : (s : AxiMemory) → output_has s [] ≡ false
unfolding output_has output_contains
output_empty s =
    elim s.platform
      as (λ p. elim p as (λ _. Bool) [ none ↦ false | some q ↦ output_contains q [] ] ≡ false) [
        | none ↦ refl
        | some p ↦ refl
      ]

module _ (options : Options) where
  -- A silent cycle adds one to the count, until it is a stall.
  unfoldable pub Waits : {D R : Type 0} → ℕ → ℕ → CycleEnd (Machine D R) → Type 0
  Waits cycle count (continues m) =
      (m.state.next_cycle ≡ u64 (cycle + 1))
      × (m.state.waiting_after_wfi ≡ false)
      × (m.state.cycles_without_retirement ≡ u64 (count + 1))
      × (stall_reached options m.state ≡ false)
  Waits cycle count (ends stalled m) =
      (m.state.next_cycle ≡ u64 (cycle + 1))
      × (m.state.cycles_without_retirement ≡ u64 (count + 1))
      × (stall_reached options m.state ≡ true)
  Waits cycle count (ends _ m) = ⊥

module _ {D R : Type 0} (bus_words : ℕ) (core : Core D) (reference : Reference R) (e : Encoding)
    (host : Host D R) (options : Options) (tohost : Option ℕ) (T : Error → Type 0)
    (next_throws : (peer : R) → Gives T (λ next. Unit {0}) (reference.next peer))
    (save_throws : (m : Machine D R) → Gives T (λ done. Unit {0}) (host.save_checkpoint m))
    (silent : IsSilent core) (unmarked : host.bytes options.pass_marker ≡ []) where
  low_phase_silent :
      (m : Machine D R) → (low_phase bus_words core reference e host options tohost m).1 ≡ none
  unfolding low_phase
  low_phase_silent m = update_silent bus_words _ _ (silent.write _)

  marker_unseen :
      (m : Machine D R) → marker_seen bus_words core reference e host options tohost m ≡ false
  marker_unseen m = rw unmarked (output_empty m.memory)

  lanes_silent :
      (cycle : ℕ) (m : Machine D R) (dut : D)
      → retire_lanes bus_words core reference e host options tohost cycle 0
          (lanes_of bus_words core reference e host options tohost dut)
          m
        ≡ ok (goes_on m)
  unfolding retire_lanes
  lanes_silent cycle m dut = rw (silent.retire_0 dut, silent.retire_1 dut, silent.retire_2 dut) refl

  none_retired :
      (dut : D) → any_retired (lanes_of bus_words core reference e host options tohost dut) ≡ false
  none_retired dut = rw (silent.retire_0 dut, silent.retire_1 dut, silent.retire_2 dut) refl

  abbrev close : Option ℕ → Machine D R → CycleEnd (Machine D R)
  close = close_cycle bus_words core reference e host options tohost

  close-Waits :
      (cycle count : ℕ) (m : Machine D R)
      → m.state.next_cycle ≡ u64 (cycle + 1)
      → m.state.waiting_after_wfi ≡ false
      → m.state.cycles_without_retirement ≡ u64 (count + 1)
      → Waits options cycle count (close none m)
  unfolding close_cycle Waits
  close-Waits cycle count m next waiting counted =
      rw (marker_unseen m) (by_stall (stall_reached options m.state) refl)
    where
      by_stall :
          (reached : Bool)
          → stall_reached options m.state ≡ reached
          → Waits options cycle count (if reached then ends stalled m else continues m)
      by_stall true same = (next, counted, same)
      by_stall false same = (next, waiting, counted, same)

  count_stall_silent :
      (lanes : List Retire) (s : SimulationState)
      → any_retired lanes ≡ false
      → s.waiting_after_wfi ≡ false
      → ((count_stall lanes false s).waiting_after_wfi ≡ false)
        × ((count_stall lanes false s).cycles_without_retirement
            ≡ u64 (s.cycles_without_retirement + 1))
  unfolding count_stall
  count_stall_silent lanes s quiet waiting = rw (quiet, waiting) (refl, refl)

  finish_Waits :
      (cycle count : ℕ) (lanes : List Retire) (m : Machine D R)
      → any_retired lanes ≡ false
      → m.state.waiting_after_wfi ≡ false
      → m.state.cycles_without_retirement ≡ count
      → Gives T (Waits options cycle count) (
          finish_cycle bus_words core reference e host options tohost cycle none lanes false
            (continues m))
  unfolding finish_cycle
  finish_Waits cycle count lanes m quiet waiting counted =
      let last =
        high_phase bus_words core reference e host options tohost cycle
          (record m { state = count_stall lanes false m.state }) in
      let (still, more) = count_stall_silent lanes m.state quiet waiting in
      bind-Gives T (λ next. Kept last.state next.state) (Waits options cycle count)
        (checkpoint bus_words core reference e host options tohost cycle none last)
        (λ next. ok (close none next))
        (checkpoint-Kept bus_words core reference e host options tohost T next_throws save_throws
          cycle none last)
        (λ next kept.
          unfold Gives in
          close-Waits cycle count next (kept.next_cycle ∙ (unfold high_phase in refl))
            (kept.waiting ∙ (unfold high_phase in still))
            (kept.cycles ∙ (unfold high_phase in more) ∙ ap (λ n. u64 (n + 1)) counted))

  no_trap : (m : Machine D R) → pending_trap bus_words core reference e host options tohost m ≡ none
  unfolding pending_trap
  no_trap m = by_reference m.reference
    where
      by_reference :
          (peer : Option R)
          → elim peer as (λ _. Option SpikeTrap) [ none ↦ none | some p ↦ core.trap m.dut ] ≡ none
      by_reference none = refl
      by_reference (some p) = silent.trap m.dut

  untrapped_Waits :
      (cycle count : ℕ) (lanes : List Retire) (m : Machine D R) (peer : Option R)
      → any_retired lanes ≡ false
      → m.state.waiting_after_wfi ≡ false
      → m.state.cycles_without_retirement ≡ count
      → Gives T (Waits options cycle count) (
          finish_cycle bus_words core reference e host options tohost cycle none lanes false
            (take_trap bus_words core reference e host options tohost none m peer))
  unfolding take_trap inject_trap trap_taken
  untrapped_Waits cycle count lanes m none quiet waiting counted =
      finish_Waits cycle count lanes m quiet waiting counted
  untrapped_Waits cycle count lanes m (some p) quiet waiting counted =
      finish_Waits cycle count lanes (record m { reference = some p }) quiet waiting counted

  run_lanes-Waits :
      (cycle count : ℕ) (low : Machine D R × Option ℕ)
      → low.1 ≡ none
      → low.0.state.waiting_after_wfi ≡ false
      → low.0.state.cycles_without_retirement ≡ count
      → Gives T
          (Waits options cycle count)
          (run_lanes bus_words core reference e host options tohost cycle low)
  unfolding run_lanes after_lanes
  run_lanes-Waits cycle count (m, some code) silent_bus waiting counted =
      absurd (some≢none silent_bus)
    where
      some≢none : ¬ (some code ≡ none)
      some≢none = cc
  run_lanes-Waits cycle count (m, none) silent_bus waiting counted =
      rw (lanes_silent cycle m m.dut, no_trap m)
        (untrapped_Waits cycle count (lanes_of bus_words core reference e host options tohost m.dut)
          m m.reference (none_retired m.dut) waiting counted)

  pub run_cycle-Waits :
      (cycle count : ℕ) (m : Machine D R)
      → m.state.waiting_after_wfi ≡ false
      → m.state.cycles_without_retirement ≡ count
      → Gives T
          (Waits options cycle count)
          (run_cycle bus_words core reference e host options tohost cycle m)
  unfolding run_cycle
  run_cycle-Waits cycle count m waiting counted =
      let polled = poll_input bus_words core reference e host options tohost cycle m in
      let first = poll_input-Kept bus_words core reference e host options tohost cycle m in
      let second = low_phase-Kept bus_words core reference e host options tohost polled in
      run_lanes-Waits cycle count (low_phase bus_words core reference e host options tohost polled)
        (low_phase_silent polled) (second.waiting ∙ first.waiting ∙ waiting)
        (second.cycles ∙ first.cycles ∙ counted)
