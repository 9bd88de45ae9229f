-- ===== src/Platform/Timer.antt =====
-- The clock divider and the timer registers.
use zircon_sim.Prelude.{
  ℕ, zero, suc, ◌+◌, ◌-◌, ◌*◌, ◌/◌, ◌%◌, ◌^◌, ◌<◌, ◌≤◌, ◌↔◌, ◌≡◌, ◌∙◌, ap, true, arith, min,
}
use zircon_sim.Word.{put_byte}
use zircon_sim.Word.Bytes.{put_byte_64, byte_of}
use zircon_sim.Platform.Defs.{PlatformDevices, timer_divider, clint_base, write_byte}
use zircon_sim.Platform.Bus.{tick, write_bus, write_bus_loop, timer_interrupt}

abbrev pub ticks : ℕ → PlatformDevices → PlatformDevices
ticks zero p = p
ticks (suc n) p = ticks n (tick p)

-- `n` CPU cycles advance the subcycle counter by `n` modulo the divider, and the time by the
-- number of wraps, saturating at the largest `uint64_t`; nothing else changes.
pub ticks_lem :
    (n : ℕ) (p : PlatformDevices)
    → p.timer_subcycle < timer_divider
    → p.mtime < 2 ^ 64
    → ticks n p ≡ record p {
      timer_subcycle = (p.timer_subcycle + n) % timer_divider;
      mtime = min (2 ^ 64 - 1) (p.mtime + (p.timer_subcycle + n) / timer_divider);
    }
unfolding tick
ticks_lem zero p hs hm = ground arith
ticks_lem (suc n) p hs hm = ground (arith, ticks_lem n (tick p))

low_half :
    (word lo : ℕ)
    → word < 2 ^ 64
    → lo < 2 ^ 32
    → put_byte 64 24 (byte_of 3 lo) (
        put_byte 64 16
          (byte_of 2 lo)
          (put_byte 64 8 (byte_of 1 lo) (put_byte 64 0 (byte_of 0 lo) word)))
      ≡ word / 2 ^ 32 * 2 ^ 32 + lo
low_half word lo hw hl =
    let w0 = word / 2 ^ 8 * 2 ^ 8 + lo % 2 ^ 8 in
    let w1 = word / 2 ^ 16 * 2 ^ 16 + lo % 2 ^ 16 in
    let w2 = word / 2 ^ 24 * 2 ^ 24 + lo % 2 ^ 24 in
    let e0 : put_byte 64 0 (byte_of 0 lo) word ≡ w0 =
      put_byte_64 0 (byte_of 0 lo) word (omega arith) (omega arith) hw ∙ omega arith in
    let e1 : put_byte 64 8 (byte_of 1 lo) w0 ≡ w1 =
      put_byte_64 1 (byte_of 1 lo) w0 (omega arith) (omega arith) (omega arith) ∙ omega arith in
    let e2 : put_byte 64 16 (byte_of 2 lo) w1 ≡ w2 =
      put_byte_64 2 (byte_of 2 lo) w1 (omega arith) (omega arith) (omega arith) ∙ omega arith in
    rw (e0, e1, e2)
      (put_byte_64 3 (byte_of 3 lo) w2 (omega arith) (omega arith) (omega arith) ∙ omega arith)

high_half :
    (word hi : ℕ)
    → word < 2 ^ 64
    → hi < 2 ^ 32
    → put_byte 64 56 (byte_of 3 hi) (
        put_byte 64 48
          (byte_of 2 hi)
          (put_byte 64 40 (byte_of 1 hi) (put_byte 64 32 (byte_of 0 hi) word)))
      ≡ word % 2 ^ 32 + hi * 2 ^ 32
high_half word hi hw hl =
    let w0 = word / 2 ^ 40 * 2 ^ 40 + hi % 2 ^ 8 * 2 ^ 32 + word % 2 ^ 32 in
    let w1 = word / 2 ^ 48 * 2 ^ 48 + hi % 2 ^ 16 * 2 ^ 32 + word % 2 ^ 32 in
    let w2 = word / 2 ^ 56 * 2 ^ 56 + hi % 2 ^ 24 * 2 ^ 32 + word % 2 ^ 32 in
    let e0 : put_byte 64 32 (byte_of 0 hi) word ≡ w0 =
      put_byte_64 4 (byte_of 0 hi) word (omega arith) (omega arith) hw ∙ omega arith in
    let e1 : put_byte 64 40 (byte_of 1 hi) w0 ≡ w1 =
      put_byte_64 5 (byte_of 1 hi) w0 (omega arith) (omega arith) (omega arith) ∙ omega arith in
    let e2 : put_byte 64 48 (byte_of 2 hi) w1 ≡ w2 =
      put_byte_64 6 (byte_of 2 hi) w1 (omega arith) (omega arith) (omega arith) ∙ omega arith in
    rw (e0, e1, e2)
      (put_byte_64 7 (byte_of 3 hi) w2 (omega arith) (omega arith) (omega arith) ∙ omega arith)

abbrev pub timer_compare : ℕ
timer_compare = clint_base + 0x4000

set_low :
    (p : PlatformDevices) (lo : ℕ)
    → p.mtimecmp < 2 ^ 64
    → lo < 2 ^ 32
    → write_bus timer_compare lo 0xf p
      ≡ (record p { mtimecmp = p.mtimecmp / 2 ^ 32 * 2 ^ 32 + lo }, true)
unfolding write_bus write_bus_loop write_byte
set_low p lo hp hl = ap (λ t. (record p { mtimecmp = t }, true)) (low_half p.mtimecmp lo hp hl)

set_high :
    (p : PlatformDevices) (hi : ℕ)
    → p.mtimecmp < 2 ^ 64
    → hi < 2 ^ 32
    → write_bus (timer_compare + 4) hi 0xf p
      ≡ (record p { mtimecmp = p.mtimecmp % 2 ^ 32 + hi * 2 ^ 32 }, true)
unfolding write_bus write_bus_loop write_byte
set_high p hi hp hl = ap (λ t. (record p { mtimecmp = t }, true)) (high_half p.mtimecmp hi hp hl)

-- Two word stores to the compare register set all 64 bits of it, whatever it held, and nothing
-- else; the timer interrupt is then pending exactly when the time has reached that value.
pub set_timer_compare :
    (p : PlatformDevices) (lo hi : ℕ)
    → p.mtimecmp < 2 ^ 64
    → lo < 2 ^ 32
    → hi < 2 ^ 32
    → let q = (write_bus (timer_compare + 4) hi 0xf (write_bus timer_compare lo 0xf p).0).0 in
      (q ≡ record p { mtimecmp = lo + hi * 2 ^ 32 })
      × ((timer_interrupt q ≡ true) ↔ (lo + hi * 2 ^ 32 ≤ p.mtime))
unfolding timer_interrupt
set_timer_compare p lo hi hp hl hh = (both, rw both (ground arith))
  where
    once : PlatformDevices
    once = record p { mtimecmp = p.mtimecmp / 2 ^ 32 * 2 ^ 32 + lo }

    merged : (p.mtimecmp / 2 ^ 32 * 2 ^ 32 + lo) % 2 ^ 32 + hi * 2 ^ 32 ≡ lo + hi * 2 ^ 32
    merged = omega arith

    both :
        (write_bus (timer_compare + 4) hi 0xf (write_bus timer_compare lo 0xf p).0).0
        ≡ record p { mtimecmp = lo + hi * 2 ^ 32 }
    both =
        rw (set_low p lo hp hl, set_high once hi (omega arith) hh)
          (ap (λ t. record p { mtimecmp = t }) merged)
