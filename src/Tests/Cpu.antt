-- ===== src/Tests/Cpu.antt =====
-- A processor on which Spike's registers can be run: ten control registers, a status register of seven fields
-- and the two interrupt registers.
use zircon_sim.Prelude.{
  ℕ, zero, suc, ◌+◌, ◌-◌, ◌*◌, ◌/◌, ◌%◌, ◌^◌, ◌<◌, ◌≡◌, ◌≢◌, refl, sym, ap, ◌∙◌, bit_and, bit_or,
  false, arith, ◌==◌, if◌then◌else◌,
}
use zircon_sim.Word.{bit_not}
use zircon_sim.Word.Field.{bit_and-zero, bit_and_ones}
use zircon_sim.Word.Table.{zero-bit_or, lt_two_pow}
use zircon_sim.Spike.Traps.{
  TrapProcessor, Csr, mstatus, medeleg, mtvec, mepc, mcause, mtval, stvec, sepc, scause, stval,
  Field, field_sie, field_spie, field_spp, field_mie, field_mpie, field_mpp, field_mprv,
}
use zircon_sim.Spike.TrapLaws.{TrapLaws}

abbrev number : Csr → ℕ
number mstatus = 0
number medeleg = 1
number mtvec = 2
number mepc = 3
number mcause = 4
number mtval = 5
number stvec = 6
number sepc = 7
number scause = 8
number stval = 9

abbrev register_at : ℕ → Csr
register_at n =
    if n == 0
    then mstatus
    else if n == 1
    then medeleg
    else if n == 2
    then mtvec
    else if n == 3
    then mepc
    else if n == 4
    then mcause
    else if n == 5
    then mtval
    else if n == 6
    then stvec
    else if n == 7
    then sepc
    else if n == 8
    then scause
    else stval

register_at-number : (c : Csr) → register_at (number c) ≡ c
register_at-number mstatus = refl
register_at-number medeleg = refl
register_at-number mtvec = refl
register_at-number mepc = refl
register_at-number mcause = refl
register_at-number mtval = refl
register_at-number stvec = refl
register_at-number sepc = refl
register_at-number scause = refl
register_at-number stval = refl

abbrev place : Field → ℕ
place field_sie = 0
place field_spie = 1
place field_spp = 2
place field_mie = 3
place field_mpie = 4
place field_mpp = 5
place field_mprv = 6

abbrev field_at : ℕ → Field
field_at n =
    if n == 0
    then field_sie
    else if n == 1
    then field_spie
    else if n == 2
    then field_spp
    else if n == 3
    then field_mie
    else if n == 4
    then field_mpie
    else if n == 5
    then field_mpp
    else field_mprv

field_at-place : (f : Field) → field_at (place f) ≡ f
field_at-place field_sie = refl
field_at-place field_spie = refl
field_at-place field_spp = refl
field_at-place field_mie = refl
field_at-place field_mpie = refl
field_at-place field_mpp = refl
field_at-place field_mprv = refl

-- A digit to base 4.
abbrev digit : ℕ → ℕ → ℕ
digit s zero = s % 4
digit s (suc k) = digit (s / 4) k

abbrev with_digit : ℕ → ℕ → ℕ → ℕ
with_digit s zero v = s / 4 * 4 + v % 4
with_digit s (suc k) v = with_digit (s / 4) k v * 4 + s % 4

digit-with_digit : (s k v : ℕ) → v < 4 → digit (with_digit s k v) k ≡ v
digit-with_digit s zero v h = omega (arith, h)
digit-with_digit s (suc k) v h =
    ap (λ t. digit t k) (above (with_digit (s / 4) k v)) ∙ digit-with_digit (s / 4) k v h
  where
    above : (x : ℕ) → (x * 4 + s % 4) / 4 ≡ x
    above x = omega arith

digit-with_digit_other : (s j k v : ℕ) → j ≢ k → digit (with_digit s k v) j ≡ digit s j
digit-with_digit_other s zero zero v h = absurd (h refl)
digit-with_digit_other s zero (suc k) v h = omega arith
digit-with_digit_other s (suc j) zero v h = ap (λ t. digit t j) above
  where
    above : (s / 4 * 4 + v % 4) / 4 ≡ s / 4
    above = omega arith
digit-with_digit_other s (suc j) (suc k) v h =
    ap (λ t. digit t j) (above (with_digit (s / 4) k v))
    ∙ digit-with_digit_other (s / 4) j k v (λ e. h (ap suc e))
  where
    above : (x : ℕ) → (x * 4 + s % 4) / 4 ≡ x
    above x = omega arith

digit-lt : (s k : ℕ) → digit s k < 4
digit-lt s zero = omega arith
digit-lt s (suc k) = digit-lt (s / 4) k

pub record Cpu : Type 0 where
  pub at : ℕ
  pub level : ℕ
  pub registers : Csr → ℕ
  pub enabled : ℕ
  pub pending : ℕ

abbrev put : (Csr → ℕ) → Csr → ℕ → Csr → ℕ
put registers c v d = if number d == number c then v else registers d

abbrev masked : ℕ → ℕ → ℕ → ℕ
masked old mask value = bit_or (bit_and old (bit_not 64 mask)) (bit_and value mask)

-- A step takes the supervisor's timer interrupt if it is enabled and pending, and else goes on.
abbrev take_timer : Cpu → Cpu
take_timer p = if bit_and p.enabled p.pending == 0 then record p { at = p.at + 4 } else record p {
  at = p.registers stvec;
  level = 1;
  registers = put (put (put p.registers scause 0x80000005) sepc p.at) stval 0;
}

abbrev pub cpu : TrapProcessor Cpu
cpu = record {
  pc = λ p. p.at;
  set_pc = λ p v. record p { at = v };
  prv = λ p. p.level;
  set_privilege = λ p v. record p { level = v };
  read = λ p c. p.registers c;
  write = λ p c v. record p { registers = put p.registers c v };
  mie = λ p. p.enabled;
  mie_write_with_mask = λ p m v. record p { enabled = masked p.enabled m v };
  mip = λ p. p.pending;
  mip_backdoor_write_with_mask = λ p m v. record p { pending = masked p.pending m v };
  step = take_timer;
  get_field = λ s f. digit s (place f);
  set_field = λ s f v. with_digit s (place f) v;
  prv_s = 1;
  prv_m = 3;
  fetch_page_fault = 12;
  load_page_fault = 13;
  store_page_fault = 15;
}

put_same : (registers : Csr → ℕ) (c : Csr) (v : ℕ) → put registers c v c ≡ v
put_same registers c v = ground arith

number_injective : (c d : Csr) → number c ≡ number d → c ≡ d
number_injective c d e = sym (register_at-number c) ∙ ap register_at e ∙ register_at-number d

apart_lem : (a b : ℕ) → a ≢ b → (a == b) ≡ false
apart_lem a b h = ground (arith, h)

put_other : (registers : Csr → ℕ) (c d : Csr) (v : ℕ) → c ≢ d → put registers d v c ≡ registers c
put_other registers c d v h =
    rw (apart_lem (number c) (number d) (λ e. h (number_injective c d e))) refl

-- The full mask replaces the value.
masked_lem : (old value : ℕ) → value < 2 ^ 64 → masked old (2 ^ 64 - 1) value ≡ value
masked_lem old value h =
    rw (bit_and-zero old old (lt_two_pow old), bit_and_ones 64 value h) (zero-bit_or value)

abbrev pub AnyValue : Csr → ℕ → Type 0
AnyValue c v = Unit

abbrev pub TwoBits : Field → ℕ → Type 0
TwoBits f v = v < 4

pub cpu_laws : TrapLaws cpu AnyValue TwoBits
cpu_laws = record {
  read_write = λ p c v h. put_same p.registers c v;
  read_write_other = λ p c d v h. put_other p.registers c d v h;
  read_set_pc = λ p v c. refl;
  read_set_privilege = λ p level c. refl;
  pc_set_pc = λ p v. refl;
  pc_set_privilege = λ p level. refl;
  prv_set_privilege = λ p level h. refl;
  get_set = λ s f v h. digit-with_digit s (place f) v h;
  get_set_other = λ s f g v h.
      digit-with_digit_other s (place f) (place g) v
        (λ e. h (sym (field_at-place f) ∙ ap field_at e ∙ field_at-place g));
  zero_fits = λ f. omega arith;
  sie_fits = λ s. digit-lt s 0;
  mie_fits = λ s. digit-lt s 3;
  mie_mie = λ p v h. masked_lem p.enabled v h;
  mip_mie = λ p m v. refl;
  mip_mip = λ p m v. refl;
  mie_mip = λ p m v. refl;
  pc_mie = λ p m v. refl;
  pc_mip = λ p m v. refl;
  prv_mie = λ p m v. refl;
  prv_mip = λ p m v. refl;
  read_mie = λ p m v c. refl;
  read_mip = λ p m v c. refl;
}
