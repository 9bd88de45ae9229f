-- ===== src/Rng.antt =====
-- `zircon::sim::DeterministicRng` (include/DeterministicRng.h), an xorshift64* generator. Each
-- method returns the new generator with its result.
pub mod Laws
use zircon_sim.Prelude.{ℕ, ◌*◌, ◌%◌, ◌^◌, bit_xor, Bool, ◌||◌, ltb, ◌==◌, if◌then◌else◌}
use zircon_sim.Word.{u32, u64, ◌<<<◌, ◌>>>◌}
use zircon_sim.Result.{Result, ok, err, invalid_argument}

pub record DeterministicRng : Type 0 where
  pub state : ℕ

-- The constructor.
unfoldable pub init : ℕ → Result DeterministicRng
init seed =
    if seed == 0
    then err (invalid_argument "simulation seed must be non-zero")
    else ok (record { state = seed })

-- The three steps that replace the state.
unfoldable pub shift_12 : ℕ → ℕ
shift_12 value = bit_xor value (value >>> 12)

unfoldable pub shift_25 : ℕ → ℕ
shift_25 value = bit_xor value (u64 (value <<< 25))

unfoldable pub shift_27 : ℕ → ℕ
shift_27 value = bit_xor value (value >>> 27)

unfoldable pub next64 : DeterministicRng → DeterministicRng × ℕ
next64 rng =
    let value = shift_27 (shift_25 (shift_12 rng.state)) in
    (record { state = value }, u64 (value * 2685821657736338717))

unfoldable pub next32 : DeterministicRng → DeterministicRng × ℕ
next32 rng = let (rng', value) = next64 rng in (rng', u32 (value >>> 32))

unfoldable pub set_state : DeterministicRng → ℕ → Result DeterministicRng
set_state rng state =
    if state == 0
    then err (invalid_argument "simulation RNG state must be non-zero")
    else ok (record { state = state })

unfoldable pub chance : DeterministicRng → ℕ → ℕ → Result (DeterministicRng × Bool)
chance rng numerator denominator =
    if denominator == 0 || ltb denominator numerator
    then err (invalid_argument "invalid deterministic probability")
    else let (rng', value) = next32 rng in ok (rng', ltb (value % denominator) numerator)
