-- ===== src/Run/Agreement.antt =====
-- When retired instructions agree with the reference's commits, for one commit and for the lanes of a
-- cycle.
use zircon_sim.Prelude.{ℕ, ◌≡◌, sym, ◌↔◌, true, false, List, [], ◌∷◌, none, some, arith, ◌∙◌}
use zircon_sim.Result.{Error, Result, ok, err}
use zircon_sim.Spike.{Encoding, SpikeCommit, SpikeArchitecturalState, requires_synchronization}
use zircon_sim.Run.{Retire, Reference, Machine}
use zircon_sim.Run.Lane.{LaneEnd, goes_on, disagrees, destination_mismatch, commit_mismatch}

-- The core wrote what the reference wrote.
pub record SameWrite (expected : SpikeCommit) (r : Retire) : Type 0 where
  pub write_valid : expected.write_valid ≡ r.write_valid
  pub is_fp : expected.write_valid ≡ true → expected.is_fp ≡ r.is_fp
  pub rd : expected.write_valid ≡ true → expected.rd ≡ r.rd
  pub value : expected.write_valid ≡ true → expected.value ≡ r.value

-- A retired instruction agrees with a commit; the write of an instruction that reads a counter or an
-- identification register may differ.
pub record Agrees (e : Encoding) (expected : SpikeCommit) (r : Retire) : Type 0 where
  pub pc : expected.pc ≡ r.pc
  pub instruction : expected.instruction ≡ r.instruction
  pub write : requires_synchronization e r.instruction ≡ false → SameWrite expected r

destination_mismatch_lem :
    (expected : SpikeCommit) (r : Retire)
    → (destination_mismatch expected r ≡ false) ↔ SameWrite expected r
unfolding destination_mismatch
destination_mismatch_lem expected r = ground arith

-- the test of a commit passes exactly if the instruction agrees with it
pub commit_mismatch_lem :
    (e : Encoding) (expected : SpikeCommit) (r : Retire)
    → (commit_mismatch e expected r ≡ false) ↔ Agrees e expected r
unfolding commit_mismatch
commit_mismatch_lem e expected r = ground (arith, destination_mismatch_lem expected r)

pub mismatch_refutes :
    (e : Encoding) (expected : SpikeCommit) (r : Retire)
    → commit_mismatch e expected r ≡ true
    → ¬ Agrees e expected r
mismatch_refutes e expected r mismatch agrees =
    absurd (true≢false (sym mismatch ∙ (commit_mismatch_lem e expected r).1 agrees))
  where
    true≢false : ¬ (true ≡ false)
    true≢false = cc

module _ {R : Type 0} (reference : Reference R) (e : Encoding) where
  -- The reference after a commit, told of some architectural state if the instruction needs it.
  pub data Synchronized : ℕ → R → R → Type 0 where
    told :
        {instruction : ℕ} {peer : R} (s : SpikeArchitecturalState)
        → requires_synchronization e instruction ≡ true
        → Synchronized instruction peer (reference.synchronize peer s)
    untold :
        {instruction : ℕ} {peer : R}
        → requires_synchronization e instruction ≡ false
        → Synchronized instruction peer peer

  -- The valid lanes agree with the reference's commits, one for one and in order, until it has none.
  pub data Follows : R → List Retire → R → Type 0 where
    all_done : {peer : R} → Follows peer [] peer
    skipped :
        {peer last : R} {r : Retire} {lanes : List Retire}
        → r.valid ≡ false
        → Follows peer lanes last
        → Follows peer (r ∷ lanes) last
    agreed :
        {peer next started last : R} {r : Retire} {lanes : List Retire} {expected : SpikeCommit}
        → r.valid ≡ true
        → reference.next peer ≡ ok (next, some expected)
        → Agrees e expected r
        → Synchronized r.instruction next started
        → Follows started lanes last
        → Follows peer (r ∷ lanes) last
    completed :
        {peer last : R} {r : Retire} {lanes : List Retire}
        → r.valid ≡ true
        → reference.next peer ≡ ok (last, none)
        → Follows peer (r ∷ lanes) last

  -- Some valid lane is the first that does not agree.
  pub data Diverges : R → List Retire → Type 0 where
    here :
        {peer next : R} {r : Retire} {lanes : List Retire} {expected : SpikeCommit}
        → r.valid ≡ true
        → reference.next peer ≡ ok (next, some expected)
        → ¬ Agrees e expected r
        → Diverges peer (r ∷ lanes)
    past_skipped :
        {peer : R} {r : Retire} {lanes : List Retire}
        → r.valid ≡ false
        → Diverges peer lanes
        → Diverges peer (r ∷ lanes)
    past_agreed :
        {peer next started : R} {r : Retire} {lanes : List Retire} {expected : SpikeCommit}
        → r.valid ≡ true
        → reference.next peer ≡ ok (next, some expected)
        → Agrees e expected r
        → Synchronized r.instruction next started
        → Diverges started lanes
        → Diverges peer (r ∷ lanes)

  -- Some valid lane finds the reference throwing.
  pub data Throws : R → List Retire → Error → Type 0 where
    here :
        {peer : R} {r : Retire} {lanes : List Retire} {thrown : Error}
        → r.valid ≡ true
        → reference.next peer ≡ err thrown
        → Throws peer (r ∷ lanes) thrown
    past_skipped :
        {peer : R} {r : Retire} {lanes : List Retire} {thrown : Error}
        → r.valid ≡ false
        → Throws peer lanes thrown
        → Throws peer (r ∷ lanes) thrown
    past_agreed :
        {peer next started : R} {r : Retire} {lanes : List Retire} {expected : SpikeCommit}
        {thrown : Error}
        → r.valid ≡ true
        → reference.next peer ≡ ok (next, some expected)
        → Agrees e expected r
        → Synchronized r.instruction next started
        → Throws started lanes thrown
        → Throws peer (r ∷ lanes) thrown

  -- What the comparison of a list of lanes may come to, from a reference's state.
  unfoldable pub Compared : {D : Type 0} → R → List Retire → Result (LaneEnd (Machine D R)) → Type 0
  Compared peer lanes (err thrown) = Throws peer lanes thrown
  Compared peer lanes (ok (disagrees m)) = Diverges peer lanes
  Compared {D} peer lanes (ok (goes_on m)) =
      (last : R) × (m.reference ≡ some last) × Follows peer lanes last
