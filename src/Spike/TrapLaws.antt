-- ===== src/Spike/TrapLaws.antt =====
-- What the traps of the reference rely on of Spike's processor.
use zircon_sim.Prelude.{ℕ, ◌-◌, ◌^◌, bit_and, bit_or, ◌<◌, ◌≡◌, ◌≢◌, ◌⊎◌}
use zircon_sim.Word.{bit_not}
use zircon_sim.Spike.Traps.{TrapProcessor, Csr, Field, field_sie, field_spie, field_mie, field_mpie}

-- A register keeps a legal value that is written to it, and a field one that fits it. Writing one register,
-- field, privilege level or program counter leaves the others; the interrupt registers take the bits
-- under the mask.
pub record TrapLaws {P : Type 0} (cpu : TrapProcessor P) (legal : Csr → ℕ → Type 0)
    (fits : Field → ℕ → Type 0) : Type 0 where
  pub read_write : (p : P) (c : Csr) (v : ℕ) → legal c v → cpu.read (cpu.write p c v) c ≡ v
  pub read_write_other :
      (p : P) (c d : Csr) (v : ℕ) → c ≢ d → cpu.read (cpu.write p d v) c ≡ cpu.read p c
  pub read_set_pc : (p : P) (v : ℕ) (c : Csr) → cpu.read (cpu.set_pc p v) c ≡ cpu.read p c
  pub read_set_privilege :
      (p : P) (level : ℕ) (c : Csr) → cpu.read (cpu.set_privilege p level) c ≡ cpu.read p c
  pub pc_set_pc : (p : P) (v : ℕ) → cpu.pc (cpu.set_pc p v) ≡ v
  pub pc_set_privilege : (p : P) (level : ℕ) → cpu.pc (cpu.set_privilege p level) ≡ cpu.pc p
  pub prv_set_privilege :
      (p : P) (level : ℕ)
      → (level ≡ cpu.prv_s) ⊎ (level ≡ cpu.prv_m)
      → cpu.prv (cpu.set_privilege p level) ≡ level
  pub get_set : (s : ℕ) (f : Field) (v : ℕ) → fits f v → cpu.get_field (cpu.set_field s f v) f ≡ v
  pub get_set_other :
      (s : ℕ) (f g : Field) (v : ℕ)
      → f ≢ g
      → cpu.get_field (cpu.set_field s g v) f ≡ cpu.get_field s f
  pub zero_fits : (f : Field) → fits f 0
  pub sie_fits : (s : ℕ) → fits field_spie (cpu.get_field s field_sie)
  pub mie_fits : (s : ℕ) → fits field_mpie (cpu.get_field s field_mie)
  pub mie_mie :
      (p : P) (v : ℕ) → v < 2 ^ 64 → cpu.mie (cpu.mie_write_with_mask p (2 ^ 64 - 1) v) ≡ v
  pub mip_mie : (p : P) (m v : ℕ) → cpu.mip (cpu.mie_write_with_mask p m v) ≡ cpu.mip p
  pub mip_mip :
      (p : P) (m v : ℕ)
      → cpu.mip (cpu.mip_backdoor_write_with_mask p m v)
        ≡ bit_or (bit_and (cpu.mip p) (bit_not 64 m)) (bit_and v m)
  pub mie_mip : (p : P) (m v : ℕ) → cpu.mie (cpu.mip_backdoor_write_with_mask p m v) ≡ cpu.mie p
  pub pc_mie : (p : P) (m v : ℕ) → cpu.pc (cpu.mie_write_with_mask p m v) ≡ cpu.pc p
  pub pc_mip : (p : P) (m v : ℕ) → cpu.pc (cpu.mip_backdoor_write_with_mask p m v) ≡ cpu.pc p
  pub prv_mie : (p : P) (m v : ℕ) → cpu.prv (cpu.mie_write_with_mask p m v) ≡ cpu.prv p
  pub prv_mip : (p : P) (m v : ℕ) → cpu.prv (cpu.mip_backdoor_write_with_mask p m v) ≡ cpu.prv p
  pub read_mie :
      (p : P) (m v : ℕ) (c : Csr) → cpu.read (cpu.mie_write_with_mask p m v) c ≡ cpu.read p c
  pub read_mip :
      (p : P) (m v : ℕ) (c : Csr)
      → cpu.read (cpu.mip_backdoor_write_with_mask p m v) c ≡ cpu.read p c
