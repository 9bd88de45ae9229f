-- ===== src/Spike/Commit.antt =====
-- `Impl::next` (src/SpikeReference.cc) in the build without vectors: one step of the processor model
-- and the commit that is read off it. The processor is Spike's `processor_t` and a parameter.
use zircon_sim.Prelude.{
  ℕ, zero, suc, ◌+◌, ◌-◌, ◌^◌, bit_and, Bool, true, false, not, ◌&&◌, ◌||◌, List, [], ◌∷◌, Option,
  none, some, leb, ◌==◌, if◌then◌else◌,
}
use zircon_sim.Word.{u8, u32, bit_not, ◌>>>◌}
use zircon_sim.Result.{Result, ok, err, ◌>>=◌, runtime_error}
use zircon_sim.Spike.{Encoding, SpikeCommit, accesses_interrupt_enable_csr}
use zircon_sim.Spike.Simif.{SpikeBus}

-- What `next` uses of the processor. A step and a fetch go through the memory of the reference; a fetch
-- that traps has no bits, and is made at the processor's own `pc`. A logged write is its encoded register and the low half of its value.
pub record Processor (P : Type 0) : Type 0 where
  pub pc : P → ℕ
  pub set_pc : P → ℕ → P
  pub load_insn : P × SpikeBus → (P × SpikeBus) × Option ℕ
  pub step : P × SpikeBus → P × SpikeBus
  pub clear_waiting_for_interrupt : P → P
  pub mie : P → ℕ
  pub mie_write_with_mask : P → ℕ → ℕ → P
  pub mtvec : P → ℕ
  pub stvec : P → ℕ
  pub mepc : P → ℕ
  pub sepc : P → ℕ
  pub log_reg_write : P → List (ℕ × ℕ)
  pub log_mem_read : P → List ℕ

pub record SpikeReference (P : Type 0) : Type 0 where
  pub processor : P
  pub bus : SpikeBus
  pub reservation_address : Option ℕ

abbrev pub fresh_commit : ℕ → SpikeCommit
fresh_commit pc = record {
  pc = pc;
  instruction = 0;
  next_pc = 0;
  write_valid = false;
  is_fp = false;
  rd = 0;
  value = 0;
  vector = none;
}

-- Kind 0 is an integer register and kind 1 a floating one.
abbrev pub is_architectural : ℕ → Bool
is_architectural encoded = (bit_and encoded 0xf == 0) || (bit_and encoded 0xf == 1)

-- One entry of the log of register writes.
unfoldable pub log_write : SpikeCommit → ℕ → ℕ → Result SpikeCommit
log_write commit encoded value =
    if not (is_architectural encoded)
    then ok commit
    else if commit.write_valid
    then err (runtime_error "Spike instruction wrote multiple architectural registers")
    else if leb 32 (encoded >>> 4)
    then err (runtime_error "Spike register index is outside the architectural file")
    else if (bit_and encoded 0xf == 0) && (encoded >>> 4 == 0)
    then ok commit
    else ok (record commit {
      write_valid = true;
      is_fp = bit_and encoded 0xf == 1;
      rd = u8 (encoded >>> 4);
      value = u32 value;
    })

unfoldable pub log_writes : SpikeCommit → List (ℕ × ℕ) → Result SpikeCommit
unfolding log_write
log_writes commit [] = ok commit
log_writes commit ((encoded, value) ∷ log) =
    log_write commit encoded value >>= λ next. log_writes next log

abbrev pub first_address : List ℕ → Option ℕ
first_address [] = none
first_address (address ∷ addresses) = some (u32 address)

-- The reservation after an instruction: a store drops it, and so does an atomic one but a load-reserved
-- that read.
unfoldable pub reserve : ℕ → List ℕ → Option ℕ → Option ℕ
reserve instruction reads reservation =
    if bit_and instruction 0x7f == 0x23
    then none
    else if (bit_and instruction 0x7f == 0x2f) && (bit_and (instruction >>> 12) 0x7 == 2)
    then if instruction >>> 27 == 2 then first_address reads else none
    else reservation

abbrev pub vector_of : ℕ → ℕ
vector_of vector = bit_and (u32 vector) (bit_not 32 3)

abbrev pub wfi : ℕ
wfi = 0x10500073

abbrev pub is_fetched : Option ℕ → ℕ → Bool
is_fetched none instruction = false
is_fetched (some fetched) instruction = fetched == instruction

-- Interrupts are held back unless the instruction accesses the enable register itself.
abbrev pub suppresses : Encoding → Option ℕ → Bool
suppresses e none = true
suppresses e (some fetched) = not (accesses_interrupt_enable_csr e fetched)

module _ {P : Type 0} (cpu : Processor P) (e : Encoding) where
  -- The step with the interrupts held back, and the enable register written back after it.
  unfoldable pub guarded_step : Option ℕ → P × SpikeBus → P × SpikeBus
  guarded_step fetched (p, bus) =
      if suppresses e fetched
      then (let (q, after) = cpu.step (cpu.mie_write_with_mask p (2 ^ 64 - 1) 0, bus) in
          (cpu.mie_write_with_mask q (2 ^ 64 - 1) (cpu.mie p), after))
      else cpu.step (p, bus)

  -- A wait for an interrupt is left at once.
  unfoldable pub resume_wfi : Option ℕ → ℕ → P → P
  resume_wfi fetched pc p =
      if is_fetched fetched wfi
      then cpu.set_pc (cpu.clear_waiting_for_interrupt p) (u32 (pc + 4))
      else p

  -- The step was a trap into the machine's or the supervisor's handler.
  unfoldable pub has_trapped : ℕ → P → Bool
  has_trapped pc p =
      ((u32 (cpu.mepc p) == pc) && (u32 (cpu.pc p) == vector_of (cpu.mtvec p)))
      || ((u32 (cpu.sepc p) == pc) && (u32 (cpu.pc p) == vector_of (cpu.stvec p)))

  -- The commit of a step that was no trap.
  unfoldable pub commit_step :
      ℕ → Option ℕ → P → SpikeBus → Option ℕ → Result (SpikeReference P × Option SpikeCommit)
  unfolding log_writes reserve
  commit_step pc none p bus reservation =
      err (runtime_error "Spike retired an instruction that could not be fetched")
  commit_step pc (some instruction) p bus reservation =
      log_writes (record (fresh_commit pc) { instruction = instruction; next_pc = u32 (cpu.pc p) })
        (cpu.log_reg_write p)
      >>= λ commit. ok (
        record {
          processor = p;
          bus = bus;
          reservation_address = reserve instruction (cpu.log_mem_read p) reservation;
        },
        some commit,
      )

  -- The loop's body; it goes on, without a commit, after a trap.
  unfoldable pub next_step : SpikeReference P → Result (SpikeReference P × Option SpikeCommit)
  unfolding guarded_step resume_wfi has_trapped commit_step
  next_step s =
      let pc = u32 (cpu.pc s.processor) in
      let (loaded, bits) = cpu.load_insn (s.processor, s.bus) in
      let fetched = elim bits as (λ _. Option ℕ) [ none ↦ none | some b ↦ some (u32 b) ] in
      let (stepped, bus) = guarded_step fetched loaded in
      let p = resume_wfi fetched pc stepped in
      if has_trapped pc p
      then ok (record s { processor = p; bus = bus }, none)
      else commit_step pc fetched p bus s.reservation_address

  -- The loop; without fuel it has not returned yet.
  abbrev pub then_next :
      (SpikeReference P → Option (Result (SpikeReference P × SpikeCommit)))
      → Result (SpikeReference P × Option SpikeCommit)
      → Option (Result (SpikeReference P × SpikeCommit))
  then_next others (err thrown) = some (err thrown)
  then_next others (ok (s, none)) = others s
  then_next others (ok (s, some commit)) = some (ok (s, commit))

  unfoldable pub next : ℕ → SpikeReference P → Option (Result (SpikeReference P × SpikeCommit))
  unfolding next_step
  next zero s = none
  next (suc fuel) s = then_next (next fuel) (next_step s)
