-- ===== src/Spike/Traps.antt =====
-- `injectInterrupt` and `injectPageFault` (src/SpikeReference.cc): the core's traps, taken by the
-- reference. The registers, their fields and the privilege levels are Spike's and parameters.
use zircon_sim.Prelude.{ℕ, ◌-◌, ◌^◌, bit_and, Bool, not, ◌&&◌, ◌||◌, ◌==◌, if◌then◌else◌}
use zircon_sim.Word.{u32, bit_not, ◌<<<◌, ◌>>>◌}
use zircon_sim.Result.{Result, ok, err, runtime_error}
use zircon_sim.Spike.{SpikeTrap}

-- The control registers that a trap goes through; each is read and written by its own methods.
pub data Csr : Type 0 where
  mstatus medeleg mtvec mepc mcause mtval stvec sepc scause stval : Csr

-- The fields of the status register.
pub data Field : Type 0 where
  field_sie field_spie field_spp field_mie field_mpie field_mpp field_mprv : Field

-- What the two functions use of the processor; `step` is `step(1)`, and the interrupt registers are
-- written under a mask, `mip` through its back door.
pub record TrapProcessor (P : Type 0) : Type 0 where
  pub pc : P → ℕ
  pub set_pc : P → ℕ → P
  pub prv : P → ℕ
  pub set_privilege : P → ℕ → P
  pub read : P → Csr → ℕ
  pub write : P → Csr → ℕ → P
  pub mie : P → ℕ
  pub mie_write_with_mask : P → ℕ → ℕ → P
  pub mip : P → ℕ
  pub mip_backdoor_write_with_mask : P → ℕ → ℕ → P
  pub step : P → P
  pub get_field : ℕ → Field → ℕ
  pub set_field : ℕ → Field → ℕ → ℕ
  pub prv_s : ℕ
  pub prv_m : ℕ
  pub fetch_page_fault : ℕ
  pub load_page_fault : ℕ
  pub store_page_fault : ℕ

module _ {P : Type 0} (cpu : TrapProcessor P) where
  -- The state after an accepted interrupt is not the core's.
  unfoldable pub interrupt_differs : P → SpikeTrap → Bool
  interrupt_differs p trap =
      let supervisor = trap.target_privilege == 1 in
      not (cpu.prv p == trap.target_privilege)
      || not (u32 (cpu.read p (if supervisor then scause else mcause)) == trap.cause)
      || not (u32 (cpu.read p (if supervisor then sepc else mepc)) == trap.epc)
      || not (u32 (cpu.read p (if supervisor then stval else mtval)) == trap.tval)

  -- One step with only this interrupt enabled and pending; both registers are written back after it.
  unfoldable pub interrupt_step : P → ℕ → P
  interrupt_step p mask =
      let enabled = cpu.mie_write_with_mask p (2 ^ 64 - 1) mask in
      let stepped = cpu.step (cpu.mip_backdoor_write_with_mask enabled mask mask) in
      cpu.mie_write_with_mask
        (cpu.mip_backdoor_write_with_mask stepped mask (bit_and (cpu.mip p) mask)) (2 ^ 64 - 1)
        (cpu.mie p)

  unfoldable pub inject_interrupt : P → SpikeTrap → Result P
  unfolding interrupt_step interrupt_differs
  inject_interrupt p trap =
      if bit_and trap.cause 0x80000000 == 0
      then err (runtime_error "attempted to inject a synchronous trap into Spike")
      else if not (u32 (cpu.pc p) == trap.epc)
      then err (runtime_error "Spike interrupt PC does not match the DUT trap PC")
      else (let q = interrupt_step p (1 <<< bit_and trap.cause 0x1f) in
          if interrupt_differs q trap
          then err (
              runtime_error
                "Spike accepted an interrupt with architectural state different from the DUT")
          else ok q)

  abbrev pub is_page_fault : ℕ → Bool
  is_page_fault cause =
      (cause == cpu.fetch_page_fault)
      || (cause == cpu.load_page_fault)
      || (cause == cpu.store_page_fault)

  unfoldable pub is_delegated : P → ℕ → Bool
  is_delegated p cause =
      not (cpu.prv p == cpu.prv_m) && not (bit_and (cpu.read p medeleg >>> cause) 1 == 0)

  -- A fault taken by the supervisor.
  unfoldable pub supervisor_fault : P → SpikeTrap → P
  supervisor_fault p trap =
      let status = cpu.read p mstatus in
      let saved = cpu.set_field status field_spie (cpu.get_field status field_sie) in
      let masked = cpu.set_field saved field_sie 0 in
      let p₁ = cpu.write p mstatus (cpu.set_field masked field_spp (cpu.prv p)) in
      let p₂ =
        cpu.write (cpu.write (cpu.write p₁ sepc trap.epc) scause trap.cause) stval trap.tval in
      cpu.set_privilege (cpu.set_pc p₂ (bit_and (cpu.read p₂ stvec) (bit_not 64 3))) cpu.prv_s

  -- A fault taken by the machine, which also drops the modified privilege of a lower level.
  unfoldable pub machine_fault : P → SpikeTrap → P
  machine_fault p trap =
      let status = cpu.read p mstatus in
      let saved = cpu.set_field status field_mpie (cpu.get_field status field_mie) in
      let masked = cpu.set_field saved field_mie 0 in
      let previous = cpu.set_field masked field_mpp (cpu.prv p) in
      let p₁ =
        cpu.write p mstatus
          (if cpu.prv p == cpu.prv_m then previous else cpu.set_field previous field_mprv 0) in
      let p₂ =
        cpu.write (cpu.write (cpu.write p₁ mepc trap.epc) mcause trap.cause) mtval trap.tval in
      cpu.set_privilege (cpu.set_pc p₂ (bit_and (cpu.read p₂ mtvec) (bit_not 64 3))) cpu.prv_m

  unfoldable pub inject_page_fault : P → SpikeTrap → Result P
  unfolding is_delegated supervisor_fault machine_fault
  inject_page_fault p trap =
      let delegated = is_delegated p trap.cause in
      if not (is_page_fault trap.cause)
      then err (runtime_error "attempted to inject a non-page-fault exception into Spike")
      else if not (u32 (cpu.pc p) == trap.epc)
      then err (runtime_error "Spike page-fault PC does not match the DUT trap PC")
      else if not (trap.target_privilege == (if delegated then cpu.prv_s else cpu.prv_m))
      then err (runtime_error "Spike page-fault delegation does not match the DUT target privilege")
      else if delegated
      then ok (supervisor_fault p trap)
      else ok (machine_fault p trap)
