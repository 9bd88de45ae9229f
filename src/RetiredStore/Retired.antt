-- ===== src/RetiredStore/Retired.antt =====
-- The store that the main program decodes from a retired instruction is the one that the reference
-- interpreter makes when it steps over it.
use mathlib.Core.Option.{some-injective}
use zircon_sim.Prelude.{
  ℕ, zero, suc, ◌+◌, Bool-cases, inl, inr, true, false, leb, ◌-◌, ◌^◌, ◌<◌, ◌≡◌, refl, sym, ap, ◌∙◌,
  List, Option, none, some, ◌==◌, if◌then◌else◌, get_or, arith,
}
use zircon_sim.Word.{u32}
use zircon_sim.Simulator.Alu.{Effect, undefined, nothing, value}
use zircon_sim.Simulator.Decode.{imm_s, opcode, funct3, rd, rs1, rs2}
use zircon_sim.Simulator.Step.{
  Simulator, InstStatistic, finish, execute_r_type, execute_i_type, execute_b_type, store,
  execute_s_type, execute_u_type, execute_j_type, execute, clear_zero, step,
}
use zircon_sim.Simulator.Laws.{Holds}
use zircon_sim.RetiredStore.{RetiredStore, decode_retired_store}
use zircon_sim.RetiredStore.Laws.{decode_retired_store_lem}

module _ {M : Type 0} (read : M → ℕ → ℕ) (write : M → ℕ → ℕ → ℕ → M) where
  -- The memory after a store has its value written at its address, under the mask of its bytes; without a
  -- store it is the same.
  abbrev pub after_store : M → Option RetiredStore → M
  after_store memory none = memory
  after_store memory (some s) = write memory s.address s.value (2 ^ s.size - 1)

  finish_memory :
      (s : Simulator M) (r : ℕ) (stat : InstStatistic) (effect : Effect)
      → Holds read write (λ t. t.memory ≡ s.memory) (finish read write s r stat effect)
  unfolding finish Holds
  finish_memory s r stat undefined = tt
  finish_memory s r stat nothing = refl
  finish_memory s r stat (value v) = refl

  -- An instruction of another opcode than the stores' leaves the memory alone.
  execute_others :
      (s : Simulator M) (inst : ℕ)
      → (opcode inst == 0x23) ≡ false
      → Holds read write (λ t. t.memory ≡ s.memory) (execute read write s inst)
  unfolding execute execute_r_type execute_i_type execute_b_type execute_s_type execute_u_type
      execute_j_type Holds
  execute_others s inst e = ground (arith, e, finish_memory s (rd inst))

  store_lem :
      (memory : M) (size address word : ℕ)
      → store read write memory size address word
        ≡ after_store memory (
            if leb size 2
            then some (record { address = address; value = word; size = 2 ^ size })
            else none)
  unfolding store
  store_lem memory zero address word = refl
  store_lem memory (suc zero) address word = refl
  store_lem memory (suc (suc zero)) address word = refl
  store_lem memory (suc (suc (suc size))) address word = ground arith

  execute-execute_s_type :
      (s : Simulator M) (inst : ℕ)
      → (opcode inst == 0x23) ≡ true
      → execute read write s inst ≡ execute_s_type read write s inst
  unfolding execute
  execute-execute_s_type s inst e = ground (arith, e)

  decoded :
      (memory : M) (inst : ℕ) (registers : List ℕ)
      → (opcode inst == 0x23) ≡ true
      → inst < 2 ^ 32
      → store read write memory
          (funct3 inst)
          (u32 (get_or registers (rs1 inst) 0 + imm_s inst))
          (get_or registers (rs2 inst) 0)
        ≡ after_store memory (decode_retired_store inst registers)
  decoded memory inst registers e h =
      store_lem memory (funct3 inst) (u32 (get_or registers (rs1 inst) 0 + imm_s inst))
        (get_or registers (rs2 inst) 0)
      ∙ ap (after_store memory) (sym (rw (decode_retired_store_lem inst registers h, e) refl))

  execute_store :
      (s : Simulator M) (inst : ℕ)
      → (opcode inst == 0x23) ≡ true
      → inst < 2 ^ 32
      → Holds read write
          (λ t. t.memory ≡ after_store s.memory (decode_retired_store inst s.rf))
          (execute read write s inst)
  unfolding execute_s_type Holds
  execute_store s inst e h =
      rw (execute-execute_s_type s inst e, e) (decoded s.memory inst s.rf e h)

  execute_retired :
      (s : Simulator M) (inst : ℕ)
      → inst < 2 ^ 32
      → Holds read write
          (λ t. t.memory ≡ after_store s.memory (decode_retired_store inst s.rf))
          (execute read write s inst)
  execute_retired s inst h = elim (Bool-cases (opcode inst == 0x23)) [
    | inl e ↦ execute_store s inst e h
    | inr e ↦ rw (decode_retired_store_lem inst s.rf h, e) (execute_others s inst e)
  ]

  clear_zero_memory :
      (o : Option (Simulator M)) (t : Simulator M) (memory : M)
      → Holds read write (λ s. s.memory ≡ memory) o
      → clear_zero read write o ≡ some t
      → t.memory ≡ memory
  unfolding clear_zero Holds
  clear_zero_memory none t memory h e = cc
  clear_zero_memory (some s) t memory h e = rw (sym (some-injective _ _ e)) h

  -- If the memory gives 32-bit words, a step of the reference interpreter that the source defines writes to
  -- the memory what the main program decodes from the instruction and the registers before it: the value
  -- at the address, under the mask of the bytes of its size, for a store of a byte, halfword or word, and
  -- nothing for any other instruction.
  pub step-decode_retired_store :
      (s t : Simulator M)
      → ((memory : M) (address : ℕ) → read memory address < 2 ^ 32)
      → step read write s ≡ some t
      → t.memory ≡ after_store s.memory (decode_retired_store (read s.memory s.pc) s.rf)
  unfolding step
  step-decode_retired_store s t words e =
      clear_zero_memory (execute read write s (read s.memory s.pc)) t _
        (execute_retired s (read s.memory s.pc) (words s.memory s.pc)) e
