-- ===== src/Rng/Laws.antt =====
-- What the generator keeps and what `chance` answers.
use zircon_sim.Prelude.{
  ℕ, zero, suc, ◌*◌, ◌/◌, ◌%◌, ◌^◌, ◌<◌, ◌≡◌, refl, Bool, true, false, ◌⊎◌, inl, inr, Bool-cases,
  ◌||◌, ltb, ◌==◌, arith,
}
use zircon_sim.Word.Xor.{bit_xor-lt, bit_xor_pos}
use zircon_sim.Result.{ok, err, invalid_argument}
use zircon_sim.Rng.{DeterministicRng, init, shift_12, shift_25, shift_27, next64, next32, chance}

-- A state that the generator can leave: a non-zero `uint64_t`.
abbrev pub IsLive : ℕ → Type 0
IsLive s = (0 < s) × (s < 2 ^ 64)

shift_12-IsLive : (s : ℕ) → IsLive s → IsLive (shift_12 s)
unfolding shift_12
shift_12-IsLive s h = omega (arith, bit_xor-lt 64 s (s / 2 ^ 12), bit_xor_pos 64 s (s / 2 ^ 12))

shift_25-IsLive : (s : ℕ) → IsLive s → IsLive (shift_25 s)
unfolding shift_25
shift_25-IsLive s h =
    omega (arith, bit_xor-lt 64 s (s * 2 ^ 25 % 2 ^ 64), bit_xor_pos 64 s (s * 2 ^ 25 % 2 ^ 64))

shift_27-IsLive : (s : ℕ) → IsLive s → IsLive (shift_27 s)
unfolding shift_27
shift_27-IsLive s h = omega (arith, bit_xor-lt 64 s (s / 2 ^ 27), bit_xor_pos 64 s (s / 2 ^ 27))

-- Drawing a number keeps the state a non-zero uint64_t, and the number drawn is a uint64_t.
pub next64-IsLive :
    (rng : DeterministicRng)
    → IsLive rng.state
    → IsLive (next64 rng).0.state × ((next64 rng).1 < 2 ^ 64)
unfolding next64
next64-IsLive rng h = (shift_27-IsLive _ (shift_25-IsLive _ (shift_12-IsLive _ h)), omega arith)

pub next32-IsLive :
    (rng : DeterministicRng)
    → IsLive rng.state
    → IsLive (next32 rng).0.state × ((next32 rng).1 < 2 ^ 32)
unfolding next32
next32-IsLive rng h = ((next64-IsLive rng h).0, omega arith)

-- A zero seed and a zero state are refused; any other `uint64_t` starts a live generator.
pub init-IsLive :
    (seed : ℕ)
    → seed < 2 ^ 64
    → ((seed ≡ 0) × (init seed ≡ err (invalid_argument "simulation seed must be non-zero")))
      ⊎ ((rng : DeterministicRng) × (init seed ≡ ok rng) × IsLive rng.state)
unfolding init
init-IsLive zero h = inl (refl, refl)
init-IsLive (suc s) h = inr (record { state = suc s }, ground arith, omega arith)

-- `chance` fails exactly on a zero denominator or a numerator above it; it always answers yes at
-- numerator = denominator and no at numerator 0, and it draws one number.
pub chance_lem :
    (rng : DeterministicRng) (numerator denominator : ℕ)
    → (((denominator ≡ 0) ⊎ (denominator < numerator))
        × (chance rng numerator denominator
            ≡ err (invalid_argument "invalid deterministic probability")))
      ⊎ ((b : Bool) × (chance rng numerator denominator ≡ ok ((next32 rng).0, b))
          × (numerator ≡ denominator → b ≡ true)
          × (numerator ≡ 0 → b ≡ false))
unfolding chance
chance_lem rng n d = elim (Bool-cases (d == 0 || ltb d n)) [
  | inl bad ↦ inl (ground arith, rw bad)
  | inr good ↦ inr (ltb ((next32 rng).1 % d) n, rw good, ground arith, ground arith)
]
