-- ===== src/Run/Profile.antt =====
-- What one retired instruction adds to the branch profile of the loop in `main` (src/main.cc).
use zircon_sim.Prelude.{
  ℕ, ◌+◌, ◌^◌, ◌<◌, bit_and, ◌≡◌, refl, ◌∙◌, Bool, true, not, ◌&&◌, List, [], ◌∷◌, Option, none,
  some, arith, ◌==◌, if◌then◌else◌, Option-cases, inl, inr, Option-cases, inl, inr,
}
use zircon_sim.Word.{u32, u64}
use zircon_sim.Run.{BranchProfileEntry, PendingBranch, SimulationState, Retire}
use zircon_sim.Run.Table.{entry_of, entry_of-update_entry}
use zircon_sim.Run.Lane.{bit_of, no_branch, resolve_branch, count_conditional, profile_branch}

-- The retired instructions of a run, one after the other.
unfoldable pub profile_all : SimulationState → List Retire → SimulationState
profile_all s [] = s
profile_all s (r ∷ retired) = profile_all (profile_branch true s r) retired

abbrev pub entry_at : SimulationState → ℕ → BranchProfileEntry
entry_at s pc = entry_of no_branch pc s.branch_profile

abbrev pub is_branch_at : ℕ → Retire → Bool
is_branch_at pc r = (bit_and r.instruction 0x7f == 0x63) && (r.pc == pc)

-- How often the branch at an address retired, and how often mispredicted.
abbrev pub executed : ℕ → List Retire → ℕ
executed pc [] = 0
executed pc (r ∷ retired) = bit_of (is_branch_at pc r) + executed pc retired

abbrev pub mispredicted : ℕ → List Retire → ℕ
mispredicted pc [] = 0
mispredicted pc (r ∷ retired) =
    bit_of (is_branch_at pc r && r.mispredicted) + mispredicted pc retired

-- How often the instruction after it was not the next one in memory.
abbrev pub jumped : ℕ → List Retire → ℕ
jumped pc [] = 0
jumped pc (r ∷ []) = 0
jumped pc (r ∷ (q ∷ retired)) =
    bit_of (is_branch_at pc r && not (q.pc == u32 (r.pc + 4))) + jumped pc (q ∷ retired)

-- What the branch that waits for its successor adds.
abbrev pub pending_jump : ℕ → Option PendingBranch → List Retire → ℕ
pending_jump pc none retired = 0
pending_jump pc (some branch) [] = 0
pending_jump pc (some branch) (q ∷ retired) =
    bit_of ((branch.pc == pc) && not (q.pc == u32 (branch.pc + 4)))

-- One instruction, in the counts of one address that are small enough.
pub record Counted (s t : SimulationState) (pc : ℕ) (r : Retire) : Type 0 where
  pub executions :
      (entry_at t pc).executions ≡ (entry_at s pc).executions + bit_of (is_branch_at pc r)
  pub mispredictions :
      (entry_at t pc).mispredictions
      ≡ (entry_at s pc).mispredictions + bit_of (is_branch_at pc r && r.mispredicted)
  pub taken :
      (entry_at t pc).taken ≡ (entry_at s pc).taken + pending_jump pc s.pending_branch (r ∷ [])
  pub pending :
      (retired : List Retire)
      → pending_jump pc t.pending_branch retired
        ≡ (if is_branch_at pc r then pending_jump pc (some (record { pc = pc })) retired else 0)

pub record IsSmall (s : SimulationState) (pc left : ℕ) : Type 0 where
  pub executions : (entry_at s pc).executions + left < 2 ^ 64
  pub mispredictions : (entry_at s pc).mispredictions + left < 2 ^ 64
  pub taken : (entry_at s pc).taken + left < 2 ^ 64

-- The resolution of the branch before, in the entry_of of one address.
record Resolved (s t : SimulationState) (pc : ℕ) (r : Retire) : Type 0 where
  pub executions : (entry_at t pc).executions ≡ (entry_at s pc).executions
  pub mispredictions : (entry_at t pc).mispredictions ≡ (entry_at s pc).mispredictions
  pub taken :
      (entry_at t pc).taken ≡ (entry_at s pc).taken + pending_jump pc s.pending_branch (r ∷ [])
  pub pending : t.pending_branch ≡ none

resolve_pending :
    (s : SimulationState) (pc : ℕ) (r : Retire) (branch : PendingBranch)
    → s.pending_branch ≡ some branch
    → (entry_at s pc).taken + 1 < 2 ^ 64
    → Resolved s (resolve_branch s r.pc) pc r
unfolding resolve_branch
resolve_pending s pc r branch e small =
    let known =
      entry_of-update_entry no_branch branch.pc pc
        (λ old. record old { taken = u64 (old.taken + bit_of (not (r.pc == u32 (branch.pc + 4)))) })
        s.branch_profile in
    ground (arith, e, known, small)

resolve_nothing :
    (s : SimulationState) (pc : ℕ) (r : Retire)
    → s.pending_branch ≡ none
    → Resolved s (resolve_branch s r.pc) pc r
unfolding resolve_branch
resolve_nothing s pc r e = ground (arith, e)

-- The count of the instruction itself, when no branch waits.
record Added (s t : SimulationState) (pc : ℕ) (r : Retire) : Type 0 where
  pub executions :
      (entry_at t pc).executions ≡ (entry_at s pc).executions + bit_of (is_branch_at pc r)
  pub mispredictions :
      (entry_at t pc).mispredictions
      ≡ (entry_at s pc).mispredictions + bit_of (is_branch_at pc r && r.mispredicted)
  pub taken : (entry_at t pc).taken ≡ (entry_at s pc).taken
  pub pending :
      (retired : List Retire)
      → pending_jump pc t.pending_branch retired
        ≡ (if is_branch_at pc r then pending_jump pc (some (record { pc = pc })) retired else 0)

pending_other :
    (pc other : ℕ) (retired : List Retire)
    → pending_jump pc (some (record { pc = other })) retired
      ≡ (if other == pc then pending_jump pc (some (record { pc = pc })) retired else 0)
pending_other pc other [] = ground arith
pending_other pc other (q ∷ retired) = ground arith

count_conditional-Added :
    (s : SimulationState) (pc : ℕ) (r : Retire)
    → s.pending_branch ≡ none
    → (entry_at s pc).executions + 1 < 2 ^ 64
    → (entry_at s pc).mispredictions + 1 < 2 ^ 64
    → Added s (count_conditional s r) pc r
unfolding count_conditional
count_conditional-Added s pc r e few fewer =
    let known =
      entry_of-update_entry no_branch r.pc pc
        (λ old. record old {
          instruction = r.instruction;
          executions = u64 (old.executions + 1);
          mispredictions = u64 (old.mispredictions + bit_of r.mispredicted);
        })
        s.branch_profile in
    record {
      executions = ground (arith, known, few);
      mispredictions = ground (arith, known, fewer);
      taken = ground (arith, known);
      pending = λ retired. ground (arith, e, pending_other pc r.pc retired);
    }

resolve_branch-Resolved :
    (s : SimulationState) (pc : ℕ) (r : Retire)
    → (entry_at s pc).taken + 1 < 2 ^ 64
    → Resolved s (resolve_branch s r.pc) pc r
resolve_branch-Resolved s pc r small = elim (Option-cases s.pending_branch) [
  | inl e ↦ resolve_nothing s pc r e
  | inr (branch, e) ↦ resolve_pending s pc r branch e small
]

pub profile_branch-Counted :
    (s : SimulationState) (pc : ℕ) (r : Retire)
    → IsSmall s pc 1
    → Counted s (profile_branch true s r) pc r
unfolding profile_branch
profile_branch-Counted s pc r small =
    let resolved = resolve_branch-Resolved s pc r small.taken in
    let t = resolve_branch s r.pc in
    let added =
      count_conditional-Added t pc r resolved.pending (rw resolved.executions small.executions)
        (rw resolved.mispredictions small.mispredictions) in
    record {
      executions = added.executions ∙ rw resolved.executions refl;
      mispredictions = added.mispredictions ∙ rw resolved.mispredictions refl;
      taken = added.taken ∙ resolved.taken;
      pending = added.pending;
    }
