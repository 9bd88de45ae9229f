-- ===== src/Spike/Faults.antt =====
-- How a handler of the reference enters a trap, and what it saves.
use zircon_sim.Prelude.{ℕ, bit_and, ◌≡◌, ◌≢◌, ◌⊎◌, ap, ◌∙◌}
use zircon_sim.Word.{bit_not}
use zircon_sim.Spike.{SpikeTrap}
use zircon_sim.Spike.Traps.{
  TrapProcessor, Csr, mstatus, mtvec, mepc, mcause, mtval, stvec, sepc, scause, stval, Field,
  field_sie, field_spie, field_spp, field_mie, field_mpie, field_mpp, field_mprv,
}
use zircon_sim.Spike.TrapLaws.{TrapLaws}

module _ {P : Type 0} (cpu : TrapProcessor P) where
  -- A trap is entered through these registers, at this level.
  pub record Enters (epc_csr cause_csr tval_csr vector : Csr) (level : ℕ) (trap : SpikeTrap)
      (p q : P) : Type 0 where
    pub privilege : cpu.prv q ≡ level
    pub pc : cpu.pc q ≡ bit_and (cpu.read p vector) (bit_not 64 3)
    pub epc : cpu.read q epc_csr ≡ trap.epc
    pub cause : cpu.read q cause_csr ≡ trap.cause
    pub tval : cpu.read q tval_csr ≡ trap.tval
    pub others :
        (c : Csr)
        → c ≢ mstatus
        → c ≢ epc_csr
        → c ≢ cause_csr
        → c ≢ tval_csr
        → cpu.read q c ≡ cpu.read p c

  -- A field of the status register.
  abbrev pub field : P → Field → ℕ
  field p f = cpu.get_field (cpu.read p mstatus) f

  -- The supervisor's interrupts are saved and disabled, and the privilege is saved.
  pub record SavesSupervisor (p q : P) : Type 0 where
    pub spie : field q field_spie ≡ field p field_sie
    pub sie : field q field_sie ≡ 0
    pub spp : field q field_spp ≡ cpu.prv p
    pub others :
        (f : Field) → f ≢ field_spie → f ≢ field_sie → f ≢ field_spp → field q f ≡ field p f

  -- The machine's likewise, and the modified privilege is dropped unless the machine itself is trapped.
  pub record SavesMachine (p q : P) : Type 0 where
    pub mpie : field q field_mpie ≡ field p field_mie
    pub mie : field q field_mie ≡ 0
    pub mpp : field q field_mpp ≡ cpu.prv p
    pub mprv : cpu.prv p ≢ cpu.prv_m → field q field_mprv ≡ 0
    pub kept : cpu.prv p ≡ cpu.prv_m → field q field_mprv ≡ field p field_mprv
    pub others :
        (f : Field)
        → f ≢ field_mpie
        → f ≢ field_mie
        → f ≢ field_mpp
        → f ≢ field_mprv
        → field q f ≡ field p f

  module _ {legal : Csr → ℕ → Type 0} {fits : Field → ℕ → Type 0}
      (laws : TrapLaws cpu legal fits) where
    -- Both handlers write the status, the three registers of the trap, the program counter and the level.
    abbrev pub enter : Csr → Csr → Csr → Csr → ℕ → SpikeTrap → ℕ → P → P
    enter epc cause tval vector level trap status p =
        let written =
          cpu.write
            (cpu.write (cpu.write (cpu.write p mstatus status) epc trap.epc) cause trap.cause) tval
            trap.tval in
        cpu.set_privilege (cpu.set_pc written (bit_and (cpu.read written vector) (bit_not 64 3)))
          level

    -- The registers of a handler are different ones.
    pub record AreApart (epc cause tval vector : Csr) : Type 0 where
      pub status_epc : mstatus ≢ epc
      pub status_cause : mstatus ≢ cause
      pub status_tval : mstatus ≢ tval
      pub epc_cause : epc ≢ cause
      pub epc_tval : epc ≢ tval
      pub cause_tval : cause ≢ tval
      pub vector_status : vector ≢ mstatus
      pub vector_epc : vector ≢ epc
      pub vector_cause : vector ≢ cause
      pub vector_tval : vector ≢ tval

    module _ (epc cause tval vector : Csr) (apart : AreApart epc cause tval vector)
        (level status : ℕ) (trap : SpikeTrap) (p : P) where
      pub enter-mstatus :
          legal mstatus status
          → cpu.read (enter epc cause tval vector level trap status p) mstatus ≡ status
      enter-mstatus h =
          laws.read_set_privilege _ level mstatus
          ∙ laws.read_set_pc _ _ mstatus
          ∙ laws.read_write_other _ mstatus tval trap.tval apart.status_tval
          ∙ laws.read_write_other _ mstatus cause trap.cause apart.status_cause
          ∙ laws.read_write_other _ mstatus epc trap.epc apart.status_epc
          ∙ laws.read_write _ mstatus status h

      enter-vector :
          cpu.read
            (cpu.write
              (cpu.write (cpu.write (cpu.write p mstatus status) epc trap.epc) cause trap.cause)
              tval
              trap.tval)
            vector
          ≡ cpu.read p vector
      enter-vector =
          laws.read_write_other _ vector tval trap.tval apart.vector_tval
          ∙ laws.read_write_other _ vector cause trap.cause apart.vector_cause
          ∙ laws.read_write_other _ vector epc trap.epc apart.vector_epc
          ∙ laws.read_write_other _ vector mstatus status apart.vector_status

      pub enter-Enters :
          (level ≡ cpu.prv_s) ⊎ (level ≡ cpu.prv_m)
          → legal epc trap.epc
          → legal cause trap.cause
          → legal tval trap.tval
          → Enters epc cause tval vector level trap p
              (enter epc cause tval vector level trap status p)
      enter-Enters known hepc hcause htval = record {
        privilege = laws.prv_set_privilege _ level known;
        pc =
            laws.pc_set_privilege _ level
            ∙ laws.pc_set_pc _ _
            ∙ ap (λ v. bit_and v (bit_not 64 3)) enter-vector;
        epc =
            laws.read_set_privilege _ level epc
            ∙ laws.read_set_pc _ _ epc
            ∙ laws.read_write_other _ epc tval trap.tval apart.epc_tval
            ∙ laws.read_write_other _ epc cause trap.cause apart.epc_cause
            ∙ laws.read_write _ epc trap.epc hepc;
        cause =
            laws.read_set_privilege _ level cause
            ∙ laws.read_set_pc _ _ cause
            ∙ laws.read_write_other _ cause tval trap.tval apart.cause_tval
            ∙ laws.read_write _ cause trap.cause hcause;
        tval =
            laws.read_set_privilege _ level tval
            ∙ laws.read_set_pc _ _ tval
            ∙ laws.read_write _ tval trap.tval htval;
        others = λ c a b d e.
            laws.read_set_privilege _ level c
            ∙ laws.read_set_pc _ _ c
            ∙ laws.read_write_other _ c tval trap.tval e
            ∙ laws.read_write_other _ c cause trap.cause d
            ∙ laws.read_write_other _ c epc trap.epc b
            ∙ laws.read_write_other _ c mstatus status a;
      }

    pub supervisor_apart : AreApart sepc scause stval stvec
    supervisor_apart = record {
      status_epc = cc;
      status_cause = cc;
      status_tval = cc;
      epc_cause = cc;
      epc_tval = cc;
      cause_tval = cc;
      vector_status = cc;
      vector_epc = cc;
      vector_cause = cc;
      vector_tval = cc;
    }

    pub machine_apart : AreApart mepc mcause mtval mtvec
    machine_apart = record {
      status_epc = cc;
      status_cause = cc;
      status_tval = cc;
      epc_cause = cc;
      epc_tval = cc;
      cause_tval = cc;
      vector_status = cc;
      vector_epc = cc;
      vector_cause = cc;
      vector_tval = cc;
    }

    -- The status after the fields of one level are saved in it.
    abbrev pub saved : Field → Field → Field → ℕ → ℕ → ℕ
    saved previous enable privilege status level =
        cpu.set_field
          (cpu.set_field (cpu.set_field status previous (cpu.get_field status enable)) enable 0)
          privilege level

    pub saved_previous :
        (previous enable privilege : Field) (status level : ℕ)
        → previous ≢ enable
        → previous ≢ privilege
        → fits previous (cpu.get_field status enable)
        → cpu.get_field (saved previous enable privilege status level) previous
          ≡ cpu.get_field status enable
    saved_previous previous enable privilege status level a b h =
        laws.get_set_other _ previous privilege level b
        ∙ laws.get_set_other _ previous enable 0 a
        ∙ laws.get_set _ previous _ h

    pub saved_enable :
        (previous enable privilege : Field) (status level : ℕ)
        → enable ≢ privilege
        → cpu.get_field (saved previous enable privilege status level) enable ≡ 0
    saved_enable previous enable privilege status level a =
        laws.get_set_other _ enable privilege level a
        ∙ laws.get_set _ enable 0 (laws.zero_fits enable)

    pub saved_others :
        (previous enable privilege : Field) (status level : ℕ) (f : Field)
        → f ≢ previous
        → f ≢ enable
        → f ≢ privilege
        → cpu.get_field (saved previous enable privilege status level) f ≡ cpu.get_field status f
    saved_others previous enable privilege status level f a b c =
        laws.get_set_other _ f privilege level c
        ∙ laws.get_set_other _ f enable 0 b
        ∙ laws.get_set_other _ f previous _ a
