-- ===== src/Result.antt =====
-- Exceptions as values. The code throws standard exception types with a message; `main` catches
-- them all, prints the message and exits with status 2.
pub mod Laws
use Prim.Native.String.{String}
use zircon_sim.Prelude.{Bool, if◌then◌else◌}

pub data Error : Type 0 where
  runtime_error : String → Error
  invalid_argument : String → Error
  out_of_range : String → Error

pub data Result {ℓ} (V : Type ℓ) : Type ℓ where
  err : Error → Result V
  ok : V → Result V

infixl 5 ◌>>◌ ◌>>=◌
abbrev pub ◌>>=◌ {ℓ κ} : {V : Type ℓ} {W : Type κ} → Result V → (V → Result W) → Result W
returned >>= rest = elim returned [ err thrown ↦ err thrown | ok v ↦ rest v ]

abbrev pub ◌>>◌ {ℓ} : {W : Type ℓ} → Result (Unit {0}) → Result W → Result W
returned >> rest = returned >>= λ done. rest

-- `if (test) throw e;`
abbrev pub throw_if : Bool → Error → Result (Unit {0})
throw_if test thrown = if test then err thrown else ok tt
