-- ===== src/Run/Lockstep.antt =====
-- What the comparison of retired instructions with the reference's commits establishes.
use zircon_sim.Prelude.{
  ℕ, ◌+◌, ◌≡◌, refl, inl, inr, true, false, List, [], ◌∷◌, Option, none, some, Bool-cases, ◌∙◌,
}
use zircon_sim.Result.{Result, ok, err, ◌>>=◌}
use zircon_sim.Options.{Options}
use zircon_sim.Spike.{Encoding, SpikeCommit, requires_synchronization}
use zircon_sim.Run.{Retire, Core, Reference, Machine, Host}
use zircon_sim.Run.Lane.{
  LaneEnd, goes_on, disagrees, commit_register, commit_mismatch, count_instruction, measure,
  accept_commit, note_commit, remember, compare_commit, compare_next, retire_lane,
}
use zircon_sim.Run.Cycle.{then_lanes, retire_lanes}
use zircon_sim.Run.Agreement.{
  Agrees, commit_mismatch_lem, mismatch_refutes, Synchronized, told, untold, all_done, skipped,
  agreed, completed, here, past_skipped, past_agreed, Compared,
}
use zircon_sim.Run.Compare.{
  count_instruction_complete, measure_complete, retire_lane_active, retire_lane_complete,
}

module _ {D R : Type 0} (bus_words : ℕ) (core : Core D) (reference : Reference R) (e : Encoding)
    (host : Host D R) (options : Options) (tohost : Option ℕ) where
  abbrev lanes_from : ℕ → ℕ → List Retire → Machine D R → Result (LaneEnd (Machine D R))
  lanes_from = retire_lanes bus_words core reference e host options tohost

  abbrev next_lanes : ℕ → ℕ → List Retire → LaneEnd (Machine D R) → Result (LaneEnd (Machine D R))
  next_lanes cycle lane lanes =
      then_lanes bus_words core reference e host options tohost (lanes_from cycle (lane + 1) lanes)

  lanes_skip :
      (cycle lane : ℕ) (r : Retire) (lanes : List Retire) (m : Machine D R)
      → r.valid ≡ false
      → lanes_from cycle lane (r ∷ lanes) m ≡ lanes_from cycle (lane + 1) lanes m
  unfolding retire_lanes
  lanes_skip cycle lane r lanes m invalid = rw invalid refl

  lanes_valid :
      (cycle lane : ℕ) (r : Retire) (lanes : List Retire) (m : Machine D R)
      {returned : Result (LaneEnd (Machine D R))}
      → r.valid ≡ true
      → retire_lane reference e options tohost cycle lane m r ≡ returned
      → lanes_from cycle lane (r ∷ lanes) m ≡ (returned >>= next_lanes cycle lane lanes)
  unfolding retire_lanes
  lanes_valid cycle lane r lanes m valid same = rw (← same, valid) refl

  -- Lanes after the reference's last commit.
  lanes_complete :
      (cycle lane : ℕ) (lanes : List Retire) (m : Machine D R) {peer : R}
      → m.reference ≡ some peer
      → m.state.reference_complete ≡ true
      → (last : Machine D R) × (lanes_from cycle lane lanes m ≡ ok (goes_on last))
        × (last.reference ≡ some peer)
  unfolding retire_lanes
  lanes_complete cycle lane [] m h c = (m, refl, h)
  lanes_complete cycle lane (r ∷ lanes) m h c = elim (Bool-cases r.valid) [
    | inr invalid ↦
        let (last, same, kept) = lanes_complete cycle (lane + 1) lanes m h c in
        (last, lanes_skip cycle lane r lanes m invalid ∙ same, kept)
    | inl valid ↦
        let counted = count_instruction reference e options m r in
        let next = measure reference e options tohost cycle counted r in
        let (last, same, kept) =
          lanes_complete cycle (lane + 1) lanes next (unfold measure count_instruction in h) (
            measure_complete reference e options tohost cycle counted r
            ∙ count_instruction_complete reference e options m r
            ∙ c) in
        (
          last,
          lanes_valid cycle lane r lanes m valid
                (retire_lane_complete reference e options tohost cycle lane m r h c)
              ∙ same,
          kept,
        )
  ]

  accept_lem :
      (m : Machine D R) (peer : R) (r : Retire)
      → (started : R) × ((accept_commit reference e options m peer r).reference ≡ some started)
        × Synchronized reference e r.instruction peer started
  unfolding accept_commit
  accept_lem m peer r = elim (Bool-cases (requires_synchronization e r.instruction)) [
    | inl needed ↦ (
      reference.synchronize peer (commit_register m.state.architectural_state r),
      rw needed refl,
      told (commit_register m.state.architectural_state r) needed,
    )
    | inr free ↦ (peer, rw free refl, untold free)
  ]

  compare_commit_disagrees :
      (cycle lane : ℕ) (m : Machine D R) (peer : R) (r : Retire) (expected : SpikeCommit)
      → commit_mismatch e expected r ≡ true
      → compare_commit reference e options tohost cycle lane m peer r expected
        ≡ disagrees (note_commit reference e options cycle lane m peer r expected)
  unfolding compare_commit
  compare_commit_disagrees cycle lane m peer r expected mismatch = rw mismatch refl

  -- A commit that agrees leaves the reference synchronized.
  compare_commit_agrees :
      (cycle lane : ℕ) (m : Machine D R) (peer : R) (r : Retire) (expected : SpikeCommit)
      → m.state.reference_complete ≡ false
      → commit_mismatch e expected r ≡ false
      → (next : Machine D R) × (compare_commit reference e options tohost cycle lane m peer r
            expected
          ≡ goes_on next)
        × (next.state.reference_complete ≡ false)
        × (started : R) × (next.reference ≡ some started)
        × Synchronized reference e r.instruction peer started
  unfolding compare_commit
  compare_commit_agrees cycle lane m peer r expected c agrees =
      let noted = note_commit reference e options cycle lane m peer r expected in
      let accepted = accept_commit reference e options noted peer r in
      let (started, known, synchronized) = accept_lem noted peer r in
      (
        measure reference e options tohost cycle accepted r,
        rw agrees refl,
        measure_complete reference e options tohost cycle accepted r
            ∙ (unfold accept_commit note_commit remember in c),
        started,
        unfold measure in known,
        synchronized,
      )

  -- The outcome of the lanes after one that is skipped, and after one that agrees.
  skip_Compared :
      (peer : R) (r : Retire) (lanes : List Retire) (returned : Result (LaneEnd (Machine D R)))
      → r.valid ≡ false
      → Compared reference e peer lanes returned
      → Compared reference e peer (r ∷ lanes) returned
  unfolding Compared
  skip_Compared peer r lanes (err thrown) invalid c = past_skipped invalid c
  skip_Compared peer r lanes (ok (disagrees m)) invalid c = past_skipped invalid c
  skip_Compared peer r lanes (ok (goes_on m)) invalid (last, known, c) =
      (last, known, skipped invalid c)

  agree_Compared :
      {peer next started : R} (r : Retire) (lanes : List Retire) {expected : SpikeCommit}
      (returned : Result (LaneEnd (Machine D R)))
      → r.valid ≡ true
      → reference.next peer ≡ ok (next, some expected)
      → Agrees e expected r
      → Synchronized reference e r.instruction next started
      → Compared reference e started lanes returned
      → Compared reference e peer (r ∷ lanes) returned
  unfolding Compared
  agree_Compared r lanes (err thrown) valid got agrees s c = past_agreed valid got agrees s c
  agree_Compared r lanes (ok (disagrees m)) valid got agrees s c = past_agreed valid got agrees s c
  agree_Compared r lanes (ok (goes_on m)) valid got agrees s (last, known, c) =
      (last, known, agreed valid got agrees s c)

  abbrev counted_lane : Machine D R → Retire → Machine D R
  counted_lane = count_instruction reference e options

  -- The call of the reference, and what the lane comes to by it.
  lane_next :
      (cycle lane : ℕ) (m : Machine D R) (r : Retire) {peer : R}
      {returned : Result (R × Option SpikeCommit)}
      → m.reference ≡ some peer
      → m.state.reference_complete ≡ false
      → reference.next peer ≡ returned
      → retire_lane reference e options tohost cycle lane m r ≡ (
          returned >>= λ next.
          ok (compare_next reference e options tohost cycle lane (counted_lane m r) r next))
  lane_next cycle lane m r h c got =
      rw (← got) (retire_lane_active reference e options tohost cycle lane m r h c)

  -- What is known of the lanes after a lane.
  abbrev Rest : ℕ → ℕ → List Retire → Type 0
  Rest cycle lane lanes =
      (m : Machine D R) (peer : R)
      → m.reference ≡ some peer
      → m.state.reference_complete ≡ false
      → Compared reference e peer lanes (lanes_from cycle lane lanes m)

  -- A lane with a commit to compare.
  commit_Compared :
      (cycle lane : ℕ) (r : Retire) (lanes : List Retire) (m : Machine D R) {peer next : R}
      {expected : SpikeCommit}
      → m.reference ≡ some peer
      → m.state.reference_complete ≡ false
      → r.valid ≡ true
      → reference.next peer ≡ ok (next, some expected)
      → Rest cycle (lane + 1) lanes
      → Compared reference e peer (r ∷ lanes) (lanes_from cycle lane (r ∷ lanes) m)
  unfolding Compared compare_next
  commit_Compared cycle lane r lanes m {next = next} {expected = expected} h c valid got rest =
      let counted = counted_lane m r in
      let step = lanes_valid cycle lane r lanes m valid (lane_next cycle lane m r h c got) in
      elim (Bool-cases (commit_mismatch e expected r)) [
        | inl mismatch ↦
            rw (step, compare_commit_disagrees cycle lane counted next r expected mismatch)
              (here valid got (mismatch_refutes e expected r mismatch))
        | inr agrees ↦
            let (after, same, active, started, known, synchronized) =
              compare_commit_agrees cycle lane counted next r expected
                (count_instruction_complete reference e options m r ∙ c) agrees in
            rw (step, same)
              (agree_Compared r lanes (lanes_from cycle (lane + 1) lanes after) valid got
                ((commit_mismatch_lem e expected r).0 agrees) synchronized
                (rest after started known active))
      ]

  next_Compared :
      (cycle lane : ℕ) (r : Retire) (lanes : List Retire) (m : Machine D R) {peer : R}
      (returned : Result (R × Option SpikeCommit))
      → m.reference ≡ some peer
      → m.state.reference_complete ≡ false
      → r.valid ≡ true
      → reference.next peer ≡ returned
      → Rest cycle (lane + 1) lanes
      → Compared reference e peer (r ∷ lanes) (lanes_from cycle lane (r ∷ lanes) m)
  unfolding Compared compare_next
  next_Compared cycle lane r lanes m (ok (next, some expected)) h c valid got rest =
      commit_Compared cycle lane r lanes m h c valid got rest
  next_Compared cycle lane r lanes m (ok (next, none)) h c valid got rest =
      let counted = counted_lane m r in
      let (last, same, kept) =
        lanes_complete cycle (lane + 1) lanes
          (record counted {
            reference = some next;
            state = record counted.state { reference_complete = true };
          })
          refl refl in
      rw (lanes_valid cycle lane r lanes m valid (lane_next cycle lane m r h c got), same)
        (next, kept, completed valid got)
  next_Compared cycle lane r lanes m (err thrown) h c valid got rest =
      rw (lanes_valid cycle lane r lanes m valid (lane_next cycle lane m r h c got))
        (here valid got)

  skipped_lane :
      (cycle lane : ℕ) (r : Retire) (lanes : List Retire) (m : Machine D R) (peer : R)
      → r.valid ≡ false
      → Compared reference e peer lanes (lanes_from cycle (lane + 1) lanes m)
      → Compared reference e peer (r ∷ lanes) (lanes_from cycle lane (r ∷ lanes) m)
  skipped_lane cycle lane r lanes m peer invalid c =
      rw (lanes_skip cycle lane r lanes m invalid)
        (skip_Compared peer r lanes (lanes_from cycle (lane + 1) lanes m) invalid c)

  -- if the reference has a commit to come, the lanes of a cycle go on exactly as they agree with its
  -- commits one for one and in order, fail at the first that does not agree, and throw where it throws
  pub retire_lanes_lem :
      (cycle lane : ℕ) (lanes : List Retire) (m : Machine D R) (peer : R)
      → m.reference ≡ some peer
      → m.state.reference_complete ≡ false
      → Compared reference e peer lanes (lanes_from cycle lane lanes m)
  unfolding Compared retire_lanes
  retire_lanes_lem cycle lane [] m peer h c = (peer, h, all_done)
  retire_lanes_lem cycle lane (r ∷ lanes) m peer h c = elim (Bool-cases r.valid) [
    | inr invalid ↦
        skipped_lane cycle lane r lanes m peer invalid
          (retire_lanes_lem cycle (lane + 1) lanes m peer h c)
    | inl valid ↦
        next_Compared cycle lane r lanes m (reference.next peer) h c valid refl
          (λ after started. retire_lanes_lem cycle (lane + 1) lanes after started)
  ]
