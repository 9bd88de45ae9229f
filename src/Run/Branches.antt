-- ===== src/Run/Branches.antt =====
-- The branch profile of the loop in `main` (src/main.cc) against the sequence of retired instructions.
use zircon_sim.Prelude.{
  ℕ, ◌+◌, ◌^◌, ◌≤◌, ◌<◌, ◌≡◌, refl, ap, Bool, true, ◌&&◌, List, [], ◌∷◌, Option, none, some, arith,
  length, if◌then◌else◌,
}
use zircon_sim.Run.{BranchProfileEntry, PendingBranch, SimulationState, Retire, initial}
use zircon_sim.Run.Table.{entry_of}
use zircon_sim.Run.Lane.{bit_of, profile_branch}
use zircon_sim.Run.Profile.{
  profile_all, entry_at, is_branch_at, executed, mispredicted, jumped, pending_jump, IsSmall,
  profile_branch-Counted,
}

-- The counts of the instructions still to come, the branch that waits included.
record Totals (s t : SimulationState) (pc : ℕ) (retired : List Retire) : Type 0 where
  executions : (entry_at t pc).executions ≡ (entry_at s pc).executions + executed pc retired
  mispredictions :
      (entry_at t pc).mispredictions ≡ (entry_at s pc).mispredictions + mispredicted pc retired
  taken :
      (entry_at t pc).taken
      ≡ (entry_at s pc).taken + pending_jump pc s.pending_branch retired + jumped pc retired

jumped-cons :
    (pc : ℕ) (r : Retire) (retired : List Retire)
    → jumped pc (r ∷ retired)
      ≡ (if is_branch_at pc r then pending_jump pc (some (record { pc = pc })) retired else 0)
        + jumped pc retired
jumped-cons pc r [] = ground arith
jumped-cons pc r (q ∷ retired) = ground arith

pending_nil : (pc : ℕ) (pending : Option PendingBranch) → pending_jump pc pending [] ≡ 0
pending_nil pc none = refl
pending_nil pc (some branch) = refl

bit_of_le : (b : Bool) → bit_of b ≤ 1
bit_of_le b = ground arith

pending_head :
    (pc : ℕ) (pending : Option PendingBranch) (r : Retire) (retired : List Retire)
    → (pending_jump pc pending (r ∷ retired) ≡ pending_jump pc pending (r ∷ []))
      × (pending_jump pc pending (r ∷ []) ≤ 1)
pending_head pc none r retired = (refl, omega arith)
pending_head pc (some branch) r retired = (refl, ground arith)

profile_all-Totals :
    (s : SimulationState) (pc : ℕ) (retired : List Retire)
    → IsSmall s pc (length retired)
    → Totals s (profile_all s retired) pc retired
unfolding profile_all
profile_all-Totals s pc [] small = record {
  executions = omega arith;
  mispredictions = omega arith;
  taken = omega (arith, pending_nil pc s.pending_branch);
}
profile_all-Totals s pc (r ∷ retired) small =
    let step = profile_branch-Counted s pc r (ground (arith, small)) in
    let first = pending_head pc s.pending_branch r retired in
    let rest = profile_all-Totals (profile_branch true s r) pc retired (record {
      executions = omega (arith, step.executions, small.executions, bit_of_le (is_branch_at pc r));
      mispredictions = omega (
        arith,
        step.mispredictions,
        small.mispredictions,
        bit_of_le (is_branch_at pc r && r.mispredicted),
      );
      taken = omega (arith, step.taken, small.taken, first.1);
    }) in
    record {
      executions = omega (arith, rest.executions, step.executions);
      mispredictions = omega (arith, rest.mispredictions, step.mispredictions);
      taken =
          omega (
            arith,
            rest.taken,
            step.taken,
            step.pending retired,
            jumped-cons pc r retired,
            first.0,
          );
    }

-- Nothing is counted at first.
record IsFresh (s : SimulationState) (pc : ℕ) : Type 0 where
  executions : (entry_at s pc).executions ≡ 0
  mispredictions : (entry_at s pc).mispredictions ≡ 0
  taken : (entry_at s pc).taken ≡ 0
  pending : s.pending_branch ≡ none

initial-IsFresh : (start pc : ℕ) → IsFresh (initial start) pc
unfolding entry_of
initial-IsFresh start pc = record {
  executions = refl;
  mispredictions = refl;
  taken = refl;
  pending = refl;
}

-- What the profile holds of an address, against the instructions that retired.
pub record IsProfile (profile : BranchProfileEntry) (pc : ℕ) (retired : List Retire) : Type 0 where
  pub executions : profile.executions ≡ executed pc retired
  pub mispredictions : profile.mispredictions ≡ mispredicted pc retired
  pub taken : profile.taken ≡ jumped pc retired

fresh-IsProfile :
    (s : SimulationState) (pc : ℕ) (retired : List Retire)
    → IsFresh s pc
    → length retired < 2 ^ 64
    → IsProfile (entry_at (profile_all s retired) pc) pc retired
fresh-IsProfile s pc retired fresh small =
    let t = profile_all-Totals s pc retired (record {
      executions = omega (arith, fresh.executions);
      mispredictions = omega (arith, fresh.mispredictions);
      taken = omega (arith, fresh.taken);
    }) in
    record {
      executions = omega (arith, t.executions, fresh.executions);
      mispredictions = omega (arith, t.mispredictions, fresh.mispredictions);
      taken = omega (
        arith,
        t.taken,
        fresh.taken,
        ap (λ pending. pending_jump pc pending retired) fresh.pending,
      );
    }

-- for fewer than 2 ^ 64 retired instructions, the profile holds for every address how often the branch
-- there retired, how often it was mispredicted and how often it jumped
pub profile_all-IsProfile :
    (start pc : ℕ) (retired : List Retire)
    → length retired < 2 ^ 64
    → IsProfile (entry_at (profile_all (initial start) retired) pc) pc retired
profile_all-IsProfile start pc retired small =
    fresh-IsProfile (initial start) pc retired (initial-IsFresh start pc) small
