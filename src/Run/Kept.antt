-- ===== src/Run/Kept.antt =====
-- What the steps inside a cycle of the loop leave alone.
use zircon_sim.Prelude.{
  ℕ, ◌+◌, ◌≡◌, refl, ◌∙◌, List, [], ◌∷◌, Option, none, some, arith, Bool-cases, inl, inr,
}
use zircon_sim.Result.{Error, Result, ok, ◌>>=◌}
use zircon_sim.Result.Laws.{Gives, bind-Gives, map_Gives, if_Gives}
use zircon_sim.Options.{Options}
use zircon_sim.Spike.{Encoding, SpikeCommit}
use zircon_sim.Run.{SimulationState, Retire, Core, Reference, Machine, Host}
use zircon_sim.Run.Lane.{
  LaneEnd, goes_on, disagrees, resolve_branch, count_conditional, profile_branch, count_instruction,
  measure, note_commit, accept_commit, remember, commit_mismatch, compare_commit, compare_next,
  compare_lane, retire_lane,
}
use zircon_sim.Run.Cycle.{then_lanes, retire_lanes}

-- The fields that only the end of a cycle writes.
pub record Kept (s t : SimulationState) : Type 0 where
  pub next_cycle : t.next_cycle ≡ s.next_cycle
  pub cycles : t.cycles_without_retirement ≡ s.cycles_without_retirement
  pub waiting : t.waiting_after_wfi ≡ s.waiting_after_wfi

pub same_Kept : {s : SimulationState} → Kept s s
same_Kept = record { next_cycle = refl; cycles = refl; waiting = refl }

pub trans_Kept : {s t u : SimulationState} → Kept s t → Kept t u → Kept s u
trans_Kept a b = record {
  next_cycle = b.next_cycle ∙ a.next_cycle;
  cycles = b.cycles ∙ a.cycles;
  waiting = b.waiting ∙ a.waiting;
}

-- The machine that a lane comes to, whether it agrees or not.
abbrev pub machine_of : {M : Type 0} → LaneEnd M → M
machine_of (goes_on m) = m
machine_of (disagrees m) = m

abbrev pub LaneKeeps : {D R : Type 0} → SimulationState → LaneEnd (Machine D R) → Type 0
LaneKeeps s lane_end = Kept s (machine_of lane_end).state

module _ {D R : Type 0} (reference : Reference R) (e : Encoding) (options : Options) where
  count_instruction-Kept :
      (m : Machine D R) (r : Retire)
      → Kept m.state (count_instruction reference e options m r).state
  unfolding count_instruction profile_branch resolve_branch count_conditional
  count_instruction-Kept m r = ground arith

  measure-Kept :
      (tohost : Option ℕ) (cycle : ℕ) (m : Machine D R) (r : Retire)
      → Kept m.state (measure reference e options tohost cycle m r).state
  unfolding measure
  measure-Kept tohost cycle m r = ground arith

  note_commit-Kept :
      (cycle lane : ℕ) (m : Machine D R) (peer : R) (r : Retire) (expected : SpikeCommit)
      → Kept m.state (note_commit reference e options cycle lane m peer r expected).state
  unfolding note_commit remember
  note_commit-Kept cycle lane m peer r expected = record {
    next_cycle = refl;
    cycles = refl;
    waiting = refl;
  }

  accept_commit-Kept :
      (m : Machine D R) (peer : R) (r : Retire)
      → Kept m.state (accept_commit reference e options m peer r).state
  unfolding accept_commit
  accept_commit-Kept m peer r = record { next_cycle = refl; cycles = refl; waiting = refl }

  compare_commit-LaneKeeps :
      (tohost : Option ℕ) (cycle lane : ℕ) (m : Machine D R) (peer : R) (r : Retire)
      (expected : SpikeCommit)
      → LaneKeeps m.state (compare_commit reference e options tohost cycle lane m peer r expected)
  unfolding compare_commit
  compare_commit-LaneKeeps tohost cycle lane m peer r expected =
      let noted = note_commit reference e options cycle lane m peer r expected in
      let first = note_commit-Kept cycle lane m peer r expected in
      elim (Bool-cases (commit_mismatch e expected r)) [
        | inl mismatch ↦ rw mismatch first
        | inr agrees ↦ rw agrees (
            trans_Kept first (
              trans_Kept (accept_commit-Kept noted peer r)
                (measure-Kept tohost cycle (accept_commit reference e options noted peer r) r)))
      ]

  compare_next-LaneKeeps :
      (tohost : Option ℕ) (cycle lane : ℕ) (m : Machine D R) (r : Retire)
      (next : R × Option SpikeCommit)
      → LaneKeeps m.state (compare_next reference e options tohost cycle lane m r next)
  unfolding compare_next
  compare_next-LaneKeeps tohost cycle lane m r (peer, none) = record {
    next_cycle = refl;
    cycles = refl;
    waiting = refl;
  }
  compare_next-LaneKeeps tohost cycle lane m r (peer, some expected) =
      compare_commit-LaneKeeps tohost cycle lane m peer r expected

module _ {D R : Type 0} (reference : Reference R) (e : Encoding) (options : Options)
    (T : Error → Type 0)
    (next_throws : (peer : R) → Gives T (λ next. Unit {0}) (reference.next peer)) where
  compare_lane-LaneKeeps :
      (tohost : Option ℕ) (cycle lane : ℕ) (m : Machine D R) (r : Retire) (peer : Option R)
      → Gives T (LaneKeeps m.state) (compare_lane reference e options tohost cycle lane m r peer)
  unfolding compare_lane Gives
  compare_lane-LaneKeeps tohost cycle lane m r none =
      measure-Kept reference e options tohost cycle m r
  compare_lane-LaneKeeps tohost cycle lane m r (some peer) =
      if_Gives T (LaneKeeps m.state) m.state.reference_complete
        (ok (goes_on (measure reference e options tohost cycle m r)))
        (reference.next peer >>= λ next.
          ok (compare_next reference e options tohost cycle lane m r next))
        (measure-Kept reference e options tohost cycle m r)
        (bind-Gives T (λ next. Unit) (LaneKeeps m.state) (reference.next peer)
          (λ next. ok (compare_next reference e options tohost cycle lane m r next))
          (next_throws peer)
          (λ next known. compare_next-LaneKeeps reference e options tohost cycle lane m r next))

  retire_lane-LaneKeeps :
      (tohost : Option ℕ) (cycle lane : ℕ) (m : Machine D R) (r : Retire)
      → Gives T (LaneKeeps m.state) (retire_lane reference e options tohost cycle lane m r)
  unfolding retire_lane
  retire_lane-LaneKeeps tohost cycle lane m r =
      let counted = count_instruction reference e options m r in
      map_Gives T (LaneKeeps counted.state) (LaneKeeps m.state)
        (compare_lane reference e options tohost cycle lane counted r m.reference)
        (λ lane_end kept. trans_Kept (count_instruction-Kept reference e options m r) kept)
        (compare_lane-LaneKeeps tohost cycle lane counted r m.reference)

module _ {D R : Type 0} (bus_words : ℕ) (core : Core D) (reference : Reference R) (e : Encoding)
    (host : Host D R) (options : Options) (tohost : Option ℕ) (T : Error → Type 0)
    (next_throws : (peer : R) → Gives T (λ next. Unit {0}) (reference.next peer)) where
  abbrev lanes_from : ℕ → ℕ → List Retire → Machine D R → Result (LaneEnd (Machine D R))
  lanes_from = retire_lanes bus_words core reference e host options tohost

  then_lanes-LaneKeeps :
      (s : SimulationState) (others : Machine D R → Result (LaneEnd (Machine D R)))
      (lane_end : LaneEnd (Machine D R))
      → ((m : Machine D R) → Gives T (LaneKeeps m.state) (others m))
      → LaneKeeps s lane_end
      → Gives T
          (LaneKeeps s)
          (then_lanes bus_words core reference e host options tohost others lane_end)
  unfolding Gives
  then_lanes-LaneKeeps s others (disagrees m) rest kept = kept
  then_lanes-LaneKeeps s others (goes_on m) rest kept =
      map_Gives T (LaneKeeps m.state) (LaneKeeps s) (others m)
        (λ lane_end after. trans_Kept kept after) (rest m)

  pub retire_lanes-LaneKeeps :
      (cycle lane : ℕ) (lanes : List Retire) (m : Machine D R)
      → Gives T (LaneKeeps m.state) (lanes_from cycle lane lanes m)
  unfolding retire_lanes Gives
  retire_lanes-LaneKeeps cycle lane [] m = same_Kept
  retire_lanes-LaneKeeps cycle lane (r ∷ lanes) m =
      let others = lanes_from cycle (lane + 1) lanes in
      if_Gives T (LaneKeeps m.state) r.valid
        (retire_lane reference e options tohost cycle lane m r
          >>= then_lanes bus_words core reference e host options tohost others)
        (others m)
        (bind-Gives T (LaneKeeps m.state) (LaneKeeps m.state)
          (retire_lane reference e options tohost cycle lane m r)
          (then_lanes bus_words core reference e host options tohost others)
          (retire_lane-LaneKeeps reference e options T next_throws tohost cycle lane m r)
          (λ lane_end kept.
            then_lanes-LaneKeeps m.state others lane_end
              (retire_lanes-LaneKeeps cycle (lane + 1) lanes) kept))
        (retire_lanes-LaneKeeps cycle (lane + 1) lanes m)
