-- ===== src/Options/Accepted.antt =====
-- What `parseOptions` promises of the options that it returns.
use Prim.Native.String.{String}
use zircon_sim.Prelude.{ℕ, ◌<◌, ◌≡◌, ◌∙◌, sym, ap, Bool, List, [], ◌∷◌, arith, Bool-cases, inl, inr}
use zircon_sim.Result.{Result, ok, err, ◌>>=◌}
use zircon_sim.Result.Laws.{Returns, bind-Returns}
use zircon_sim.Options.{
  Options, default_options, takes_value, set_flag, parse_unsigned, parse_positive, set_platform,
  set_number, set_value, parse_arguments, check_options, parse_options,
}
use zircon_sim.Options.Laws.{IsChecked, check_options_lem}

-- The progress reporter's interval is not zero.
abbrev pub Reports : Options → Type 0
Reports o = 0 < o.progress_interval_seconds

set_flag-Returns : (o : Options) (a : String) → Reports o → Returns Reports (set_flag o a)
unfolding set_flag Returns
set_flag-Returns o a h = ground (arith, h)

module _ (strtoull : String → ℕ × String) where
  set_number-Returns :
      (o : Options) (a text : String) → Reports o → Returns Reports (set_number strtoull o a text)
  unfolding set_number parse_unsigned parse_positive Returns
  set_number-Returns o a text h = ground (arith, h)

  set_value-Returns :
      (o : Options) (a text : String) → Reports o → Returns Reports (set_value strtoull o a text)
  unfolding set_value set_platform Returns
  set_value-Returns o a text h = ground (arith, h, set_number-Returns o a text h)

  parse_arguments-Returns :
      (o : Options) (arguments : List String)
      → Reports o
      → Returns Reports (parse_arguments strtoull o arguments)
  unfolding parse_arguments Returns
  parse_arguments-Returns o [] h = h
  parse_arguments-Returns o (a ∷ []) h = elim (Bool-cases (takes_value a)) [
    | inl e ↦ rw e tt
    | inr e ↦ rw e (set_flag-Returns o a h)
  ]
  parse_arguments-Returns o (a ∷ text ∷ arguments) h =
      let valued =
        bind-Returns Reports Reports (set_value strtoull o a text)
          (λ next. parse_arguments strtoull next arguments) (set_value-Returns o a text h)
          (λ next k. parse_arguments-Returns next arguments k) in
      let flagged =
        bind-Returns Reports Reports (set_flag o a)
          (λ next. parse_arguments strtoull next (text ∷ arguments)) (set_flag-Returns o a h)
          (λ next k. parse_arguments-Returns next (text ∷ arguments) k) in
      elim (Bool-cases (takes_value a)) [ inl e ↦ rw e valued | inr e ↦ rw e flagged ]

  check_options_same :
      (checkpoints vcd : Bool) (o o' : Options) → check_options checkpoints vcd o ≡ ok o' → o ≡ o'
  unfolding check_options
  check_options_same checkpoints vcd o o' h = ground (arith, h)

  accepted :
      (checkpoints vcd : Bool) (parsed : Result Options) (o : Options)
      → Returns Reports parsed
      → (parsed >>= check_options checkpoints vcd) ≡ ok o
      → IsChecked checkpoints vcd o × Reports o
  unfolding Returns
  accepted checkpoints vcd (err e) o k h = cc
  accepted checkpoints vcd (ok parsed) o k h =
      let same = check_options_same checkpoints vcd parsed o h in
      rw (sym same) ((check_options_lem checkpoints vcd parsed).0 (h ∙ ap ok (sym same)), k)

  -- Whatever the arguments, the options that `parseOptions` returns name an image; they take UART input and
  -- a pass marker only on Linux, trace waves only in a window or under a limit of 100000 cycles and in a
  -- build that can, give a trigger exactly if they save a checkpoint, use checkpoints only in a build that
  -- can, and report progress at a positive interval.
  pub parse_options_lem :
      (checkpoints vcd : Bool) (arguments : List String) (o : Options)
      → parse_options checkpoints vcd strtoull arguments ≡ ok o
      → IsChecked checkpoints vcd o × Reports o
  unfolding parse_options
  parse_options_lem checkpoints vcd arguments o h =
      accepted checkpoints vcd (parse_arguments strtoull default_options arguments) o
        (parse_arguments-Returns default_options arguments (omega arith)) h
