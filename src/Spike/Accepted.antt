-- ===== src/Spike/Accepted.antt =====
-- When the reference accepts an interrupt of the core, and in which state.
use native.Mathlib.Nat.{pow-le-pow_right}
use zircon_sim.Word.Table.{bit_and_low}
use zircon_sim.Prelude.{
  ◌%◌, ◌≤◌, ℕ, ◌-◌, ◌^◌, bit_and, bit_or, ◌<◌, ◌≡◌, ◌≢◌, refl, Bool, true, false, not, arith, ◌==◌,
  if◌then◌else◌,
}
use zircon_sim.Word.{u32, bit_not, ◌<<<◌}
use zircon_sim.Result.{Error, ok, err}
use zircon_sim.Result.Laws.{Returns}
use zircon_sim.Spike.{SpikeTrap}
use zircon_sim.Spike.Traps.{
  TrapProcessor, Csr, Field, mcause, mepc, mtval, scause, sepc, stval, interrupt_differs,
  interrupt_step, inject_interrupt,
}
use zircon_sim.Spike.TrapLaws.{TrapLaws}

module _ {P : Type 0} (cpu : TrapProcessor P) where
  -- Two states have the same program counter, privilege and control registers.
  pub record AreSame (p q : P) : Type 0 where
    pub pc : cpu.pc p ≡ cpu.pc q
    pub privilege : cpu.prv p ≡ cpu.prv q
    pub registers : (c : Csr) → cpu.read p c ≡ cpu.read q c

  -- Only the interrupts of the mask are enabled, and they are pending beside those that were.
  pub record IsArmed (mask : ℕ) (p armed : P) : Type 0 where
    pub same : AreSame armed p
    pub enabled : cpu.mie armed ≡ mask
    pub pending : cpu.mip armed ≡ bit_or (bit_and (cpu.mip p) (bit_not 64 mask)) (bit_and mask mask)

  -- The state has the core's privilege, cause, program counter and value of the trap.
  pub record Shows (trap : SpikeTrap) (q : P) : Type 0 where
    pub privilege : cpu.prv q ≡ trap.target_privilege
    pub cause :
        u32 (cpu.read q (if trap.target_privilege == 1 then scause else mcause)) ≡ trap.cause
    pub epc : u32 (cpu.read q (if trap.target_privilege == 1 then sepc else mepc)) ≡ trap.epc
    pub tval : u32 (cpu.read q (if trap.target_privilege == 1 then stval else mtval)) ≡ trap.tval

  -- The reference before and after one step with the interrupt armed.
  pub record Steps (mask : ℕ) (p q : P) : Type 0 where
    pub armed : P
    pub is_armed : IsArmed mask p armed
    pub stepped : AreSame q (cpu.step armed)
    pub enabled : cpu.mie q ≡ cpu.mie p
    pub pending :
        cpu.mip q
        ≡ bit_or
            (bit_and (cpu.mip (cpu.step armed)) (bit_not 64 mask))
            (bit_and (bit_and (cpu.mip p) mask) mask)

  -- The reference before and after an interrupt of the core.
  pub record TakesInterrupt (trap : SpikeTrap) (p q : P) : Type 0 where
    pub asynchronous : bit_and trap.cause 0x80000000 ≢ 0
    pub at_epc : u32 (cpu.pc p) ≡ trap.epc
    pub steps : Steps (1 <<< bit_and trap.cause 0x1f) p q
    pub shows : Shows trap q

  shows_lem : (q : P) (trap : SpikeTrap) → interrupt_differs cpu q trap ≡ false → Shows trap q
  unfolding interrupt_differs
  shows_lem q trap same = ground (arith, same)

  guards_lem :
      (a b c : Bool) (x y z : Error) (q : P) (Q : P → Type 0)
      → (a ≡ false → b ≡ false → c ≡ false → Q q)
      → Returns Q (if a then err x else if b then err y else if c then err z else ok q)
  unfolding Returns
  guards_lem true b c x y z q Q h = tt
  guards_lem false true c x y z q Q h = tt
  guards_lem false false true x y z q Q h = tt
  guards_lem false false false x y z q Q h = h refl refl refl

  module _ {legal : Csr → ℕ → Type 0} {fits : Field → ℕ → Type 0} (laws : TrapLaws cpu legal fits)
      (p : P) (enabled_word : cpu.mie p < 2 ^ 64) where
    interrupt_step-Steps : (mask : ℕ) → mask < 2 ^ 64 → Steps mask p (interrupt_step cpu p mask)
    unfolding interrupt_step
    interrupt_step-Steps mask small =
        let enabled = cpu.mie_write_with_mask p (2 ^ 64 - 1) mask in
        let ready = cpu.mip_backdoor_write_with_mask enabled mask mask in
        let stepped = cpu.step ready in
        let back = cpu.mip_backdoor_write_with_mask stepped mask (bit_and (cpu.mip p) mask) in
        record {
          armed = ready;
          is_armed = record {
            same = record {
              pc = rw (laws.pc_mip enabled mask mask, laws.pc_mie p (2 ^ 64 - 1) mask) refl;
              privilege =
                  rw (laws.prv_mip enabled mask mask, laws.prv_mie p (2 ^ 64 - 1) mask) refl;
              registers = λ c.
                  rw (laws.read_mip enabled mask mask c, laws.read_mie p (2 ^ 64 - 1) mask c) refl;
            };
            enabled = rw (laws.mie_mip enabled mask mask, laws.mie_mie p mask small) refl;
            pending = rw (laws.mip_mip enabled mask mask, laws.mip_mie p (2 ^ 64 - 1) mask) refl;
          };
          stepped = record {
            pc =
                rw
                  (
                    laws.pc_mie back (2 ^ 64 - 1) (cpu.mie p),
                    laws.pc_mip stepped mask (bit_and (cpu.mip p) mask),
                  )
                  refl;
            privilege =
                rw
                  (
                    laws.prv_mie back (2 ^ 64 - 1) (cpu.mie p),
                    laws.prv_mip stepped mask (bit_and (cpu.mip p) mask),
                  )
                  refl;
            registers = λ c.
                rw
                  (
                    laws.read_mie back (2 ^ 64 - 1) (cpu.mie p) c,
                    laws.read_mip stepped mask (bit_and (cpu.mip p) mask) c,
                  )
                  refl;
          };
          enabled = laws.mie_mie back (cpu.mie p) enabled_word;
          pending =
              rw
                (
                  laws.mip_mie back (2 ^ 64 - 1) (cpu.mie p),
                  laws.mip_mip stepped mask (bit_and (cpu.mip p) mask),
                )
                refl;
        }

    mask-lt : (cause : ℕ) → 1 <<< bit_and cause 0x1f < 2 ^ 64
    mask-lt cause =
        let small : cause % 2 ^ 5 ≤ 31 = omega arith in
        let under : 2 ^ (cause % 2 ^ 5) ≤ 2 ^ 31 = pow-le-pow_right {n = 2} (omega arith) small in
        rw (bit_and_low 5 cause) (omega (arith, under))

    -- If Spike's registers behave as documented and the enable register holds a 64-bit word, an interrupt
    -- that is accepted is asynchronous and comes at the core's program counter. The reference is left as one
    -- step of Spike leaves it from a state that differs in nothing but the interrupt registers, in which
    -- only this interrupt is enabled and it is pending, and that state shows the core's privilege, cause,
    -- program counter and value. The interrupts that were enabled are enabled again, and this one is
    -- pending again exactly if it was.
    pub inject_interrupt-TakesInterrupt :
        (trap : SpikeTrap) → Returns (TakesInterrupt trap p) (inject_interrupt cpu p trap)
    unfolding inject_interrupt
    inject_interrupt-TakesInterrupt trap =
        let mask = 1 <<< bit_and trap.cause 0x1f in
        let q = interrupt_step cpu p mask in
        guards_lem (bit_and trap.cause 0x80000000 == 0) (not (u32 (cpu.pc p) == trap.epc))
          (interrupt_differs cpu q trap) _ _ _ q (TakesInterrupt trap p)
          (λ a b c. record {
            asynchronous = ground (arith, a);
            at_epc = ground (arith, b);
            steps = interrupt_step-Steps mask (mask-lt trap.cause);
            shows = shows_lem q trap c;
          })
