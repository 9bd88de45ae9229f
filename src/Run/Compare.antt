-- ===== src/Run/Compare.antt =====
-- What a retired lane calls of the reference.
use zircon_sim.Prelude.{ℕ, ◌≡◌, refl, true, false, Option, some, arith}
use zircon_sim.Result.{ok, ◌>>=◌}
use zircon_sim.Options.{Options}
use zircon_sim.Spike.{Encoding}
use zircon_sim.Run.{Retire, Reference, Machine}
use zircon_sim.Run.Lane.{
  goes_on, profile_branch, resolve_branch, count_conditional, count_instruction, measure,
  compare_next, compare_lane, retire_lane,
}

-- The profiles, the counters and the measurement leave the reference alone.
module _ {D R : Type 0} (reference : Reference R) (e : Encoding) (options : Options) where
  pub count_instruction_complete :
      (m : Machine D R) (r : Retire)
      → (count_instruction reference e options m r).state.reference_complete
        ≡ m.state.reference_complete
  unfolding count_instruction profile_branch resolve_branch count_conditional
  count_instruction_complete m r = ground arith

  pub measure_complete :
      (tohost : Option ℕ) (cycle : ℕ) (m : Machine D R) (r : Retire)
      → (measure reference e options tohost cycle m r).state.reference_complete
        ≡ m.state.reference_complete
  unfolding measure
  measure_complete tohost cycle m r = ground arith

  pub retire_lane_active :
      (tohost : Option ℕ) (cycle lane : ℕ) (m : Machine D R) (r : Retire) {peer : R}
      → m.reference ≡ some peer
      → m.state.reference_complete ≡ false
      → retire_lane reference e options tohost cycle lane m r ≡ (
          reference.next peer >>= λ next. ok (
            compare_next reference e options tohost cycle lane
              (count_instruction reference e options m r)
              r
              next))
  unfolding retire_lane compare_lane
  retire_lane_active tohost cycle lane m r h c = rw (h, count_instruction_complete m r, c) refl

  -- Once the reference has no further commit, a lane is never compared.
  pub retire_lane_complete :
      (tohost : Option ℕ) (cycle lane : ℕ) (m : Machine D R) (r : Retire) {peer : R}
      → m.reference ≡ some peer
      → m.state.reference_complete ≡ true
      → retire_lane reference e options tohost cycle lane m r
        ≡ ok (
            goes_on (
              measure reference e options tohost cycle
                (count_instruction reference e options m r)
                r))
  unfolding retire_lane compare_lane
  retire_lane_complete tohost cycle lane m r h c = rw (h, count_instruction_complete m r, c) refl
