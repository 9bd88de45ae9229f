-- ===== src/Spike/PageFault.antt =====
-- The page faults that the reference accepts, and what they do to it.
use zircon_sim.Prelude.{◌==◌, if◌then◌else◌, ℕ, bit_and, ◌≡◌, ◌≢◌, ◌⊎◌, ◌==◌, if◌then◌else◌}
use zircon_sim.Word.{u32, ◌>>>◌}
use zircon_sim.Result.{Result, ok, err}
use zircon_sim.Spike.{SpikeTrap}
use zircon_sim.Spike.Traps.{
  TrapProcessor, Csr, mstatus, medeleg, mtvec, mepc, mcause, mtval, stvec, sepc, scause, stval,
  Field, field_sie, field_spie, field_spp, field_mie, field_mpie, field_mpp, field_mprv,
}
use zircon_sim.Spike.TrapLaws.{TrapLaws}
use zircon_sim.Spike.Faults.{Enters, SavesSupervisor, SavesMachine, saved}

module _ {P : Type 0} (cpu : TrapProcessor P) {legal : Csr → ℕ → Type 0} {fits : Field → ℕ → Type 0}
    (laws : TrapLaws cpu legal fits) where
  abbrev supervisor_status : P → ℕ
  supervisor_status p =
      saved cpu laws field_spie field_sie field_spp (cpu.read p mstatus) (cpu.prv p)

  abbrev machine_saved : P → ℕ
  machine_saved p = saved cpu laws field_mpie field_mie field_mpp (cpu.read p mstatus) (cpu.prv p)

  abbrev machine_status : P → ℕ
  machine_status p =
      if cpu.prv p == cpu.prv_m
      then machine_saved p
      else cpu.set_field (machine_saved p) field_mprv 0

  -- The registers hold the values that a handler writes, and the fields the privilege.
  pub record AreLegal (trap : SpikeTrap) (p : P) : Type 0 where
    pub sepc : legal sepc trap.epc
    pub scause : legal scause trap.cause
    pub stval : legal stval trap.tval
    pub mepc : legal mepc trap.epc
    pub mcause : legal mcause trap.cause
    pub mtval : legal mtval trap.tval
    pub supervisor : legal mstatus (supervisor_status p)
    pub machine : legal mstatus (machine_status p)
    pub spp : cpu.prv p ≢ cpu.prv_m → fits field_spp (cpu.prv p)
    pub mpp : fits field_mpp (cpu.prv p)

  -- The reference is below the machine, which delegates the cause.
  pub record IsDelegated (trap : SpikeTrap) (p : P) : Type 0 where
    pub below : cpu.prv p ≢ cpu.prv_m
    pub bit : bit_and (cpu.read p medeleg >>> trap.cause) 1 ≢ 0

  -- What makes a page fault of the core acceptable.
  pub record IsAcceptable (trap : SpikeTrap) (p : P) : Type 0 where
    pub cause :
        (trap.cause ≡ cpu.fetch_page_fault)
        ⊎ (trap.cause ≡ cpu.load_page_fault)
        ⊎ (trap.cause ≡ cpu.store_page_fault)
    pub at_epc : u32 (cpu.pc p) ≡ trap.epc
    pub supervisor : IsDelegated trap p → trap.target_privilege ≡ cpu.prv_s
    pub machine : ¬ IsDelegated trap p → trap.target_privilege ≡ cpu.prv_m

  pub record TakesFault (trap : SpikeTrap) (p q : P) : Type 0 where
    pub supervisor :
        IsDelegated trap p
        → Enters cpu sepc scause stval stvec cpu.prv_s trap p q × SavesSupervisor cpu p q
    pub machine :
        ¬ IsDelegated trap p
        → Enters cpu mepc mcause mtval mtvec cpu.prv_m trap p q × SavesMachine cpu p q

  unfoldable pub Decides : SpikeTrap → P → Result P → Type 0
  Decides trap p (err thrown) = ¬ IsAcceptable trap p
  Decides trap p (ok q) = IsAcceptable trap p × TakesFault trap p q
