-- ===== src/Options/Laws.antt =====
-- What a command line that is accepted promises to the rest of the program.
use zircon_sim.Prelude.{ℕ, ◌+◌, ◌<◌, ◌≤◌, ◌≡◌, ◌⊎◌, ◌↔◌, Bool, true, false, not, arith}
use zircon_sim.Result.{ok}
use zircon_sim.Options.{Options, is_empty, is_linux, has_trigger, check_options, wave_enabled}

-- What `parseOptions` asks of the options together. It asks nothing of the seed: zero, which the
-- generator refuses, passes.
pub record IsChecked (checkpoints vcd : Bool) (o : Options) : Type 0 where
  pub elf : is_empty o.elf ≡ false
  pub uart :
      is_linux o.platform ≡ false
      → (is_empty o.uart_input ≡ true) × (o.uart_stdio ≡ false) × (is_empty o.pass_marker ≡ true)
  pub wave : o.wave ≡ true → (0 < o.wave_cycles) ⊎ (o.max_cycles ≤ 100000)
  pub trigger : has_trigger o ≡ not (is_empty o.checkpoint_save)
  pub checkpoint_build :
      checkpoints ≡ false
      → (is_empty o.checkpoint_save ≡ true) × (is_empty o.checkpoint_load ≡ true)
  pub vcd_build : vcd ≡ false → o.wave ≡ false

-- The checks across options return the options as they are exactly when these conditions hold.
pub check_options_lem :
    (checkpoints vcd : Bool) (o : Options)
    → (check_options checkpoints vcd o ≡ ok o) ↔ IsChecked checkpoints vcd o
unfolding check_options
check_options_lem checkpoints vcd o = (λ h. ground arith, λ h. ground (arith, h))

-- A cycle is traced exactly if tracing is on and the cycle lies in the window, which is open at its
-- end if no length was given.
pub wave_enabled_lem :
    (o : Options) (cycle : ℕ)
    → (wave_enabled o cycle ≡ true) ↔ (
        (o.wave ≡ true)
        × (o.wave_start ≤ cycle)
        × ((o.wave_cycles ≡ 0) ⊎ (cycle < o.wave_start + o.wave_cycles)))
unfolding wave_enabled
wave_enabled_lem o cycle = ground arith
