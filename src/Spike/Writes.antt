-- ===== src/Spike/Writes.antt =====
-- What a commit of the reference says of the processor's log, and when `next` returns.
use zircon_sim.Prelude.{
  ℕ, zero, suc, ◌<◌, bit_and, ◌≡◌, ◌↔◌, ◌≢◌, refl, ◌⊎◌, inl, inr, Bool, true, false, List, [], ◌∷◌,
  Option, none, some, arith, All, ◌==◌,
}
use zircon_sim.Word.{u32, ◌>>>◌}
use zircon_sim.Result.{Error, Result, ok, err}
use zircon_sim.Result.Laws.{Returns, bind-Returns, map_Returns}
use zircon_sim.Spike.{Encoding, SpikeCommit}
use zircon_sim.Spike.Commit.{
  Processor, SpikeReference, is_architectural, log_write, log_writes, next_step, then_next, next,
}

-- An entry of the log that a commit does not show: another kind of register, or `x0`.
abbrev pub IsIgnored : ℕ × ℕ → Type 0
IsIgnored (encoded, value) =
    (is_architectural encoded ≡ false) ⊎ ((bit_and encoded 0xf ≡ 0) × (encoded >>> 4 ≡ 0))

abbrev pub IsOther : ℕ × ℕ → Type 0
IsOther (encoded, value) = is_architectural encoded ≡ false

-- The entry that a commit shows.
pub record IsShown (encoded value : ℕ) (commit : SpikeCommit) : Type 0 where
  pub kind : is_architectural encoded ≡ true
  pub is_fp : commit.is_fp ≡ (bit_and encoded 0xf == 1)
  pub rd : commit.rd ≡ encoded >>> 4
  pub file : commit.rd < 32
  pub not_x0 : commit.is_fp ≡ false → commit.rd ≢ 0
  pub value_low : commit.value ≡ u32 value

-- One entry is shown, after ignored ones, and no other write follows it.
unfoldable pub Shows : List (ℕ × ℕ) → SpikeCommit → Type 0
Shows [] commit = ⊥
Shows ((encoded, value) ∷ log) commit =
    (IsIgnored (encoded, value) × Shows log commit)
    ⊎ (IsShown encoded value commit × All IsOther log)

-- The commit that the log comes to.
pub record IsLogged (before commit : SpikeCommit) (log : List (ℕ × ℕ)) : Type 0 where
  pub pc : commit.pc ≡ before.pc
  pub instruction : commit.instruction ≡ before.instruction
  pub next_pc : commit.next_pc ≡ before.next_pc
  pub nothing : commit.write_valid ≡ false → All IsIgnored log
  pub one : commit.write_valid ≡ true → Shows log commit

log_write_after :
    (before : SpikeCommit) (encoded value : ℕ)
    → before.write_valid ≡ true
    → Returns
        (λ commit. (commit ≡ before) × IsOther (encoded, value))
        (log_write before encoded value)
unfolding log_write Returns
log_write_after before encoded value h = ground (arith, h)

-- What one entry does to a commit that shows nothing yet.
record IsWritten (before commit : SpikeCommit) (encoded value : ℕ) : Type 0 where
  valid : commit.write_valid ≡ true
  shown : IsShown encoded value commit
  pc : commit.pc ≡ before.pc
  instruction : commit.instruction ≡ before.instruction
  next_pc : commit.next_pc ≡ before.next_pc

abbrev FirstWrite : SpikeCommit → ℕ → ℕ → SpikeCommit → Type 0
FirstWrite before encoded value commit =
    ((commit ≡ before) × IsIgnored (encoded, value)) ⊎ IsWritten before commit encoded value

log_write_first :
    (before : SpikeCommit) (encoded value : ℕ)
    → before.write_valid ≡ false
    → Returns (FirstWrite before encoded value) (log_write before encoded value)
unfolding log_write Returns
log_write_first before encoded value h = ground (arith, h)

-- After a write, only other kinds may follow.
written_lem :
    (before : SpikeCommit) (log : List (ℕ × ℕ))
    → before.write_valid ≡ true
    → Returns (λ commit. (commit ≡ before) × All IsOther log) (log_writes before log)
unfolding log_writes Returns
written_lem before [] h = (refl, tt)
written_lem before ((encoded, value) ∷ log) h =
    bind-Returns (λ commit. (commit ≡ before) × IsOther (encoded, value))
      (λ commit. (commit ≡ before) × All IsOther ((encoded, value) ∷ log))
      (log_write before encoded value) (λ next. log_writes next log)
      (log_write_after before encoded value h)
      (λ next (same, other).
        rw same (others other (log_writes before log) (written_lem before log h)))
  where
    others :
        IsOther (encoded, value)
        → (returned : Result SpikeCommit)
        → Returns (λ commit. (commit ≡ before) × All IsOther log) returned
        → Returns (λ commit. (commit ≡ before) × All IsOther ((encoded, value) ∷ log)) returned
    others other (ok commit) (same, rest) = (same, (other, rest))
    others other (err thrown) known = tt

true≢false : {b : Bool} → b ≡ false → ¬ (b ≡ true)
true≢false low high = cc

-- the log of a step's register writes gives the commit its one write, a floating register or an integer
-- register that is not `x0`, or none; more than one write is not returned
pub log_writes-IsLogged :
    (before : SpikeCommit) (log : List (ℕ × ℕ))
    → before.write_valid ≡ false
    → Returns (λ commit. IsLogged before commit log) (log_writes before log)
unfolding log_writes Returns Shows
log_writes-IsLogged before [] h = record {
  pc = refl;
  instruction = refl;
  next_pc = refl;
  nothing = λ none_valid. tt;
  one = λ valid. absurd (true≢false h valid);
}
log_writes-IsLogged before ((encoded, value) ∷ log) h =
    bind-Returns (FirstWrite before encoded value)
      (λ commit. IsLogged before commit ((encoded, value) ∷ log)) (log_write before encoded value)
      (λ next. log_writes next log) (log_write_first before encoded value h)
      (by_first (log_writes-IsLogged before log h))
  where
    by_first :
        Returns (λ commit. IsLogged before commit log) (log_writes before log)
        → (next : SpikeCommit) → FirstWrite before encoded value next
        → Returns (λ commit. IsLogged before commit ((encoded, value) ∷ log)) (log_writes next log)
    by_first rest next (inl (same, ignored)) = rw same (
        map_Returns (λ commit. IsLogged before commit log)
          (λ commit. IsLogged before commit ((encoded, value) ∷ log)) (log_writes before log)
          (λ commit logged. record {
            pc = logged.pc;
            instruction = logged.instruction;
            next_pc = logged.next_pc;
            nothing = λ none_valid. (ignored, logged.nothing none_valid);
            one = λ valid. inl (ignored, logged.one valid);
          })
          rest)
    by_first rest next (inr written) =
        map_Returns (λ commit. (commit ≡ next) × All IsOther log)
          (λ commit. IsLogged before commit ((encoded, value) ∷ log)) (log_writes next log)
          (λ commit (same, others). rw same (record {
            pc = written.pc;
            instruction = written.instruction;
            next_pc = written.next_pc;
            nothing = λ none_valid. absurd (true≢false none_valid written.valid);
            one = λ valid. inr (written.shown, others);
          }))
          (written_lem next log written.valid)

module _ {P : Type 0} (cpu : Processor P) (e : Encoding) where
  -- The loop of `next` after some number of steps that trapped.
  pub data Commits : ℕ → SpikeReference P → Result (SpikeReference P × SpikeCommit) → Type 0 where
    commits :
        {s t : SpikeReference P} {commit : SpikeCommit}
        → next_step cpu e s ≡ ok (t, some commit)
        → Commits 0 s (ok (t, commit))
    throws :
        {s : SpikeReference P} {thrown : Error}
        → next_step cpu e s ≡ err thrown
        → Commits 0 s (err thrown)
    traps :
        {traps' : ℕ} {s t : SpikeReference P} {returned : Result (SpikeReference P × SpikeCommit)}
        → next_step cpu e s ≡ ok (t, none)
        → Commits traps' t returned
        → Commits (suc traps') s returned

  some_inj : {A : Type 0} (a b : A) → some a ≡ some b → a ≡ b
  some_inj a b h = cc

  next_sound :
      (fuel : ℕ) (s : SpikeReference P) (returned : Result (SpikeReference P × SpikeCommit))
      → next cpu e fuel s ≡ some returned
      → (traps' : ℕ) × (traps' < fuel) × Commits traps' s returned
  unfolding next
  next_sound zero s returned h = absurd (none≢some h)
    where
      none≢some : ¬ (none ≡ some returned)
      none≢some = cc
  next_sound (suc fuel) s returned h = by_step (next_step cpu e s) refl h (next_sound fuel)
    where
      by_step :
          (step : Result (SpikeReference P × Option SpikeCommit))
          → next_step cpu e s ≡ step
          → then_next cpu e (next cpu e fuel) step ≡ some returned
          → ((t : SpikeReference P) (r : Result (SpikeReference P × SpikeCommit))
              → next cpu e fuel t ≡ some r
              → (traps' : ℕ) × (traps' < fuel) × Commits traps' t r)
          → (traps' : ℕ) × (traps' < suc fuel) × Commits traps' s returned
      by_step (err thrown) same h rest =
          (0, omega arith, rw⁻¹ (some_inj (err thrown) returned h) (throws same))
      by_step (ok (t, some commit)) same h rest =
          (0, omega arith, rw⁻¹ (some_inj (ok (t, commit)) returned h) (commits same))
      by_step (ok (t, none)) same h rest =
          let (n, below, later) = rest t returned h in
          (suc n, omega (arith, below), traps same later)

  next_complete :
      (fuel : ℕ) {n : ℕ} {s : SpikeReference P} {returned : Result (SpikeReference P × SpikeCommit)}
      → Commits n s returned
      → n < fuel
      → next cpu e fuel s ≡ some returned
  unfolding next
  next_complete zero c below = absurd (omega (arith, below))
  next_complete (suc fuel) (commits same) below = rw same refl
  next_complete (suc fuel) (throws same) below = rw same refl
  next_complete (suc fuel) (traps same later) below =
      rw same (next_complete fuel later (omega (arith, below)))

  -- the loop returns what it comes to after its traps, with any fuel above their number, and returns
  -- nothing else
  pub next-Commits :
      (fuel : ℕ) (s : SpikeReference P) (returned : Result (SpikeReference P × SpikeCommit))
      → (next cpu e fuel s ≡ some returned)
        ↔ ((traps' : ℕ) × (traps' < fuel) × Commits traps' s returned)
  next-Commits fuel s returned =
      (next_sound fuel s returned, λ (n, below, c). next_complete fuel c below)
