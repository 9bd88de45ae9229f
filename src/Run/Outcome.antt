-- ===== src/Run/Outcome.antt =====
-- The endings of the loop in `main` (src/main.cc), and its tests that need no core: the stall counter
-- and the trigger of a checkpoint.
use text.Mathlib.Text.{◌==◌ as same_text}
use zircon_sim.Prelude.{
  ℕ, ◌+◌, ◌%◌, Bool, true, false, not, ◌&&◌, ◌||◌, List, [], ◌∷◌, Option, none, some, leb, ◌==◌,
  if◌then◌else◌,
}
use zircon_sim.Word.{u64}
use zircon_sim.Options.{Options}
use zircon_sim.Statistic.Snapshot.{PerformanceSnapshot}
use zircon_sim.Run.{SimulationState, Retire}

-- Why the loop ends, with the exit code of a program that wrote one.
pub data Ending : Type 0 where
  marker_observed : Ending
  exited : ℕ → Ending
  stalled : Ending
  timed_out : Ending
  commit_differs : Ending
  trap_differs : Ending

pub data CycleEnd (M : Type 0) : Type 0 where
  continues : M → CycleEnd M
  ends : Ending → M → CycleEnd M

-- What is reported of a run that ended; the wall-clock rates are left out.
pub record Report : Type 0 where
  pub ending : Ending
  pub cycles : ℕ
  pub instructions : ℕ
  pub performance : PerformanceSnapshot

-- The value that `main` returns for an ending; an exception returns 2.
unfoldable pub exit_status : Bool → Ending → ℕ
exit_status allow_timeout marker_observed = 0
exit_status allow_timeout (exited code) = code
exit_status allow_timeout stalled = 125
exit_status allow_timeout timed_out = if allow_timeout then 0 else 124
exit_status allow_timeout commit_differs = 126
exit_status allow_timeout trap_differs = 126

abbrev pub wfi : ℕ
wfi = 0x10500073

-- `retired` and `lastRetiredWasWfi` after the lanes.
abbrev pub any_retired : List Retire → Bool
any_retired [] = false
any_retired (r ∷ lanes) = r.valid || any_retired lanes

abbrev pub last_wfi : List Retire → Bool → Bool
last_wfi [] last = last
last_wfi (r ∷ lanes) last = last_wfi lanes (if r.valid then r.instruction == wfi else last)

-- The wait after a `wfi` and the count of cycles without a retirement.
unfoldable pub count_stall : List Retire → Bool → SimulationState → SimulationState
count_stall lanes trapped s =
    let waiting =
      not trapped && (if any_retired lanes then last_wfi lanes false else s.waiting_after_wfi) in
    record s {
      waiting_after_wfi = waiting;
      cycles_without_retirement =
          if any_retired lanes || waiting then 0 else u64 (s.cycles_without_retirement + 1);
    }

unfoldable pub stall_reached : Options → SimulationState → Bool
stall_reached options s =
    not (options.stall_cycles == 0) && leb options.stall_cycles s.cycles_without_retirement

abbrev pub is_empty : List ℕ → Bool
is_empty [] = true
is_empty (c ∷ text) = false

abbrev pub is_some : Option ℕ → Bool
is_some none = false
is_some (some code) = true

-- When a checkpoint is written at the end of a cycle. `seen` is whether the marker of the options is
-- in the output, `before` whether an earlier cycle saw it.
unfoldable pub checkpoint_triggered : Options → ℕ → Bool → Bool → Bool → Bool → Bool
checkpoint_triggered options cycle has_result marker seen before =
    let saves = not (same_text options.checkpoint_save "") in
    not has_result
    && not marker
    && ((saves && options.checkpoint_cycle == u64 (cycle + 1))
        || (saves
            && not (options.checkpoint_interval == 0)
            && u64 (cycle + 1) % options.checkpoint_interval == 0)
        || (seen && not before))
