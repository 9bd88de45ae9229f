-- ===== src/Tests/Commands.antt =====
-- The options and the retired stores at concrete inputs.
use Prim.Native.String.{String}
use zircon_sim.Prelude.{ℕ, true, false, refl, List, [], ◌∷◌}
use zircon_sim.Options.{
  Options, default_options, takes_value, set_flag, set_value, set_number, parse_unsigned,
  parse_positive, parse_arguments, check_options, parse_options,
}
use zircon_sim.Options.Laws.{IsChecked}
use zircon_sim.Options.Accepted.{Reports, parse_options_lem}

-- A number parser that knows one number.
abbrev five : String → ℕ × String
five text = (5, "")

abbrev saving : List String
saving =
    "--elf" ∷ "a.elf" ∷ "--checkpoint-save" ∷ "state" ∷ "--checkpoint-cycle" ∷ "5" ∷ "--json" ∷ []

abbrev saved : Options
saved = record default_options {
  elf = "a.elf";
  checkpoint_save = "state";
  checkpoint_cycle = 5;
  json = true;
}

parse_options_lem_example : IsChecked true false saved × Reports saved
unfolding parse_options parse_arguments takes_value set_flag set_value set_number parse_unsigned
    parse_positive check_options
parse_options_lem_example = parse_options_lem five true false saving saved refl
