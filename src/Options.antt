-- ===== src/Options.antt =====
-- The command line of the simulator (src/main.cc): `Options`, `parseUnsigned` and `parseOptions`.
-- `strtoull` is the C library's and a parameter: the value of a text, with base 0, and what is left of
-- the text. The two build switches are parameters as well.
pub mod Laws
pub mod Accepted
use Prim.Native.String.{String}
use Prim.Native.String.{◌++◌ as str_append}
use text.Mathlib.Text.{◌==◌ as same_text}
use zircon_sim.Prelude.{
  ℕ, ◌-◌, Bool, true, false, not, ◌&&◌, ◌||◌, List, [], ◌∷◌, ltb, ◌==◌, if◌then◌else◌,
}
use zircon_sim.Result.{Result, ok, err, ◌>>=◌, ◌>>◌, throw_if, invalid_argument}

pub data PlatformMode : Type 0 where
  baremetal : PlatformMode
  linux : PlatformMode

pub record Options : Type 0 where
  pub elf : String
  pub instruction_profile : String
  pub uart_input : String
  pub pass_marker : String
  pub checkpoint_save : String
  pub checkpoint_load : String
  pub checkpoint_marker : String
  pub seed : ℕ
  pub max_cycles : ℕ
  pub stall_cycles : ℕ
  pub wave_start : ℕ
  pub wave_cycles : ℕ
  pub progress_interval_seconds : ℕ
  pub checkpoint_cycle : ℕ
  pub checkpoint_interval : ℕ
  pub allow_timeout : Bool
  pub wave : Bool
  pub difftest : Bool
  pub progress : Bool
  pub json : Bool
  pub color : Bool
  pub branch_profile : Bool
  pub uart_stdio : Bool
  pub platform : PlatformMode

abbrev pub default_options : Options
default_options = record {
  elf = "";
  instruction_profile = "";
  uart_input = "";
  pass_marker = "";
  checkpoint_save = "";
  checkpoint_load = "";
  checkpoint_marker = "";
  seed = 1;
  max_cycles = 1000000;
  stall_cycles = 10000;
  wave_start = 0;
  wave_cycles = 0;
  progress_interval_seconds = 30;
  checkpoint_cycle = 0;
  checkpoint_interval = 0;
  allow_timeout = false;
  wave = false;
  difftest = true;
  progress = true;
  json = false;
  color = true;
  branch_profile = false;
  uart_stdio = false;
  platform = baremetal;
}

abbrev pub is_empty : String → Bool
is_empty text = same_text text ""

abbrev pub is_linux : PlatformMode → Bool
is_linux baremetal = false
is_linux linux = true

-- The options that take the next argument as their value.
unfoldable pub takes_value : String → Bool
takes_value argument =
    same_text argument "--elf"
    || same_text argument "--seed"
    || same_text argument "--max-cycles"
    || same_text argument "--stall-cycles"
    || same_text argument "--wave-start"
    || same_text argument "--wave-cycles"
    || same_text argument "--platform"
    || same_text argument "--uart-input"
    || same_text argument "--pass-marker"
    || same_text argument "--progress-interval"
    || same_text argument "--checkpoint-save"
    || same_text argument "--checkpoint-load"
    || same_text argument "--checkpoint-cycle"
    || same_text argument "--checkpoint-interval"
    || same_text argument "--checkpoint-marker"
    || same_text argument "--instruction-profile"

abbrev pub unknown_option : String → Result Options
unknown_option argument = err (invalid_argument (str_append "unknown option: " argument))

-- The options without a value.
unfoldable pub set_flag : Options → String → Result Options
set_flag o argument =
    if same_text argument "--allow-timeout"
    then ok (record o { allow_timeout = true })
    else if same_text argument "--wave"
    then ok (record o { wave = true })
    else if same_text argument "--no-difftest"
    then ok (record o { difftest = false })
    else if same_text argument "--no-progress"
    then ok (record o { progress = false })
    else if same_text argument "--json"
    then ok (record o { json = true })
    else if same_text argument "--no-color"
    then ok (record o { color = false })
    else if same_text argument "--branch-profile"
    then ok (record o { branch_profile = true })
    else if same_text argument "--uart-stdio"
    then ok (record o { uart_stdio = true })
    else unknown_option argument

module _ (strtoull : String → ℕ × String) where
  unfoldable pub parse_unsigned : String → String → Result ℕ
  parse_unsigned text option =
      let (parsed, rest) = strtoull text in
      if is_empty text || not (is_empty rest)
      then err (invalid_argument (str_append "invalid value for " option))
      else ok parsed

  -- A number that must not be zero.
  unfoldable pub parse_positive : String → String → Result ℕ
  unfolding parse_unsigned
  parse_positive text option = do
    parsed ← parse_unsigned text option
    throw_if (parsed == 0) (invalid_argument (str_append option " must be greater than zero"))
    ok parsed

  unfoldable pub set_platform : Options → String → Result Options
  set_platform o text =
      if same_text text "baremetal"
      then ok (record o { platform = baremetal })
      else if same_text text "linux"
      then ok (record o { platform = linux })
      else err (invalid_argument "--platform must be baremetal or linux")

  -- The numbers.
  unfoldable pub set_number : Options → String → String → Result Options
  unfolding parse_unsigned parse_positive
  set_number o argument text =
      if same_text argument "--seed"
      then (do parsed ← parse_unsigned text "--seed"; ok (record o { seed = parsed }))
      else if same_text argument "--max-cycles"
      then (do parsed ← parse_unsigned text "--max-cycles"; ok (record o { max_cycles = parsed }))
      else if same_text argument "--stall-cycles"
      then (do
        parsed ← parse_unsigned text "--stall-cycles"
        ok (record o { stall_cycles = parsed }))
      else if same_text argument "--wave-start"
      then (do parsed ← parse_unsigned text "--wave-start"; ok (record o { wave_start = parsed }))
      else if same_text argument "--wave-cycles"
      then (do parsed ← parse_unsigned text "--wave-cycles"; ok (record o { wave_cycles = parsed }))
      else if same_text argument "--progress-interval"
      then (do
        parsed ← parse_positive text "--progress-interval"
        ok (record o { progress_interval_seconds = parsed }))
      else if same_text argument "--checkpoint-cycle"
      then (do
        parsed ← parse_positive text "--checkpoint-cycle"
        ok (record o { checkpoint_cycle = parsed }))
      else if same_text argument "--checkpoint-interval"
      then (do
        parsed ← parse_positive text "--checkpoint-interval"
        ok (record o { checkpoint_interval = parsed }))
      else unknown_option argument

  -- An option with its value.
  unfoldable pub set_value : Options → String → String → Result Options
  unfolding set_platform set_number
  set_value o argument text =
      if same_text argument "--elf"
      then ok (record o { elf = text })
      else if same_text argument "--instruction-profile"
      then ok (record o { instruction_profile = text })
      else if same_text argument "--platform"
      then set_platform o text
      else if same_text argument "--uart-input"
      then ok (record o { uart_input = text })
      else if same_text argument "--pass-marker"
      then ok (record o { pass_marker = text })
      else if same_text argument "--checkpoint-save"
      then ok (record o { checkpoint_save = text })
      else if same_text argument "--checkpoint-load"
      then ok (record o { checkpoint_load = text })
      else if same_text argument "--checkpoint-marker"
      then (if is_empty text
          then err (invalid_argument "--checkpoint-marker must not be empty")
          else ok (record o { checkpoint_marker = text }))
      else set_number o argument text

  -- The loop over the arguments after the program's name.
  unfoldable pub parse_arguments : Options → List String → Result Options
  unfolding takes_value set_value set_flag
  parse_arguments o [] = ok o
  parse_arguments o (argument ∷ []) =
      if takes_value argument
      then err (invalid_argument (str_append "missing value for " argument))
      else set_flag o argument
  parse_arguments o (argument ∷ text ∷ arguments) =
      if takes_value argument
      then (do next ← set_value o argument text; parse_arguments next arguments)
      else (do next ← set_flag o argument; parse_arguments next (text ∷ arguments))

-- The triggers of a checkpoint.
abbrev pub has_trigger : Options → Bool
has_trigger o =
    not (o.checkpoint_cycle == 0)
    || not (o.checkpoint_interval == 0)
    || not (is_empty o.checkpoint_marker)

-- The checks across options, by the switches `ZIRCON_ENABLE_CHECKPOINTS` and `ZIRCON_ENABLE_VCD`.
unfoldable pub check_options : Bool → Bool → Options → Result Options
check_options checkpoints vcd o = do
  throw_if (is_empty o.elf) (invalid_argument "--elf is required")
  throw_if
      (not (is_linux o.platform)
        && (not (is_empty o.uart_input) || o.uart_stdio || not (is_empty o.pass_marker)))
      (invalid_argument "UART input and pass markers require --platform linux")
  throw_if (o.wave && (o.wave_cycles == 0) && ltb 100000 o.max_cycles)
      (invalid_argument "long simulations require a bounded --wave-cycles window")
  throw_if (has_trigger o && is_empty o.checkpoint_save)
      (invalid_argument "checkpoint triggers require --checkpoint-save")
  throw_if (not (is_empty o.checkpoint_save) && not (has_trigger o))
      (invalid_argument "--checkpoint-save requires a cycle, interval, or marker trigger")
  throw_if
      (not checkpoints && (not (is_empty o.checkpoint_save) || not (is_empty o.checkpoint_load)))
      (invalid_argument
        "checkpoint options require a build configured with -DZIRCON_SIM_ENABLE_CHECKPOINTS=ON")
  throw_if (not vcd && o.wave)
      (invalid_argument "--wave requires a build configured with -DZIRCON_SIM_ENABLE_VCD=ON")
  ok o

unfoldable pub parse_options : Bool → Bool → (String → ℕ × String) → List String → Result Options
unfolding parse_arguments check_options
parse_options checkpoints vcd strtoull arguments = do
  o ← parse_arguments strtoull default_options arguments
  check_options checkpoints vcd o

-- `waveEnabled`
unfoldable pub wave_enabled : Options → ℕ → Bool
wave_enabled o cycle =
    if not o.wave || ltb cycle o.wave_start
    then false
    else (o.wave_cycles == 0) || ltb (cycle - o.wave_start) o.wave_cycles
