-- ===== src/Platform/Bus.antt =====
-- The multi-byte accesses `read`, `write`, `readBus` and `writeBus`, and the clock. A failure in
-- the middle keeps the effects of the bytes before it.
use zircon_sim.Prelude.{
  ℕ, zero, suc, ◌+◌, ◌-◌, ◌*◌, ◌^◌, bit_and, bit_or, Bool, true, false, not, ◌&&◌, ◌||◌, List, [],
  ◌∷◌, Option, none, some, ltb, leb, ◌==◌, if◌then◌else◌,
}
use zircon_sim.Word.{u8, u32, bit_not, ◌<<<◌, ◌>>>◌}
use zircon_sim.Platform.Defs.{
  PlatformDevices, is_device, read_byte, write_byte, is_empty, timer_divider,
}

-- A device access: the devices after it, and its value unless it returned `false`.
abbrev pub Access {ℓ} : Type ℓ → Type ℓ
Access A = PlatformDevices → PlatformDevices × Option A

abbrev pub and_then {ℓ κ} :
    {A : Type ℓ} {B : Type κ}
    → PlatformDevices × Option A
    → (A → Access B)
    → PlatformDevices × Option B
and_then (p, none) k = (p, none)
and_then (p, some a) k = k a p

abbrev pub accept : PlatformDevices × Bool → PlatformDevices × Option (Unit {0})
accept (p, true) = (p, some tt)
accept (p, false) = (p, none)

unfoldable pub read_loop : ℕ → ℕ → ℕ → Access (List ℕ)
read_loop address zero index p = (p, some [])
read_loop address (suc left) index p =
    and_then (read_byte p (u32 (address + u32 index))) (λ value q.
      and_then (read_loop address left (index + 1) q) (λ bytes r. (r, some (value ∷ bytes))))

-- `read`, into a buffer that may be null.
unfoldable pub read : Bool → ℕ → ℕ → Access (List ℕ)
read null address size p =
    if null || not (is_device address size) then (p, none) else read_loop address size 0 p

unfoldable pub write_loop : ℕ → List ℕ → ℕ → Access (Unit {0})
write_loop address [] index p = (p, some tt)
write_loop address (b ∷ bytes) index p =
    and_then (accept (write_byte p (u32 (address + u32 index)) b))
      (λ _ q. write_loop address bytes (index + 1) q)

-- `write` of a buffer of `size` bytes, given as those bytes, that may be null.
unfoldable pub write : Bool → ℕ → ℕ → List ℕ → Access (Unit {0})
write null address size bytes p =
    if null || not (is_device address size) then (p, none) else write_loop address bytes 0 p

unfoldable pub read_bus_loop : ℕ → ℕ → ℕ → ℕ → Access ℕ
read_bus_loop address zero index data' p = (p, some data')
read_bus_loop address (suc left) index data' p =
    and_then (read_byte p (u32 (address + u32 index))) (λ value q.
      read_bus_loop address left (index + 1)
        (bit_or data' (u32 (value <<< (bit_and (u32 (address + u32 index)) 3 * 8)))) q)

unfoldable pub read_bus : ℕ → ℕ → Access ℕ
read_bus address size p =
    if (size == 0)
      || ltb 4 size
      || not (bit_and address (size - 1) == 0)
      || not (is_device address size)
    then (p, none)
    else read_bus_loop address size 0 0 p

-- The lanes of `writeBus` from `lane` on; the value is `wrote`.
unfoldable pub write_bus_loop : ℕ → ℕ → ℕ → ℕ → ℕ → Bool → PlatformDevices → PlatformDevices × Bool
write_bus_loop aligned data' strobe zero lane wrote p = (p, wrote)
write_bus_loop aligned data' strobe (suc left) lane wrote p =
    let skipped = write_bus_loop aligned data' strobe left (lane + 1) wrote p in
    let step = write_byte p (u32 (aligned + lane)) (u8 (data' >>> (lane * 8))) in
    let written = write_bus_loop aligned data' strobe left (lane + 1) true step.0 in
    if bit_and strobe (1 <<< lane) == 0
    then skipped
    else if step.1
    then written
    else (step.0, false)

unfoldable pub write_bus : ℕ → ℕ → ℕ → PlatformDevices → PlatformDevices × Bool
write_bus address data' strobe p =
    write_bus_loop (bit_and address (bit_not 32 3)) data' strobe 4 0 false p

unfoldable pub timer_interrupt : PlatformDevices → Bool
timer_interrupt p = leb p.mtimecmp p.mtime

unfoldable pub time : PlatformDevices → ℕ
time p = p.mtime

unfoldable pub set_time : PlatformDevices → ℕ → PlatformDevices
set_time p value = record p { mtime = value }

unfoldable pub tick : PlatformDevices → PlatformDevices
tick p =
    if u32 (p.timer_subcycle + 1) == timer_divider
    then record p {
      timer_subcycle = 0;
      mtime = if p.mtime == 2 ^ 64 - 1 then p.mtime else p.mtime + 1;
    }
    else record p { timer_subcycle = u32 (p.timer_subcycle + 1) }

-- `find(marker) != npos`: the marker starts somewhere in the output.
unfoldable pub is_prefix : List ℕ → List ℕ → Bool
is_prefix [] output = true
is_prefix (c ∷ marker) [] = false
is_prefix (c ∷ marker) (d ∷ output) = (c == d) && is_prefix marker output

unfoldable pub occurs : List ℕ → List ℕ → Bool
unfolding is_prefix
occurs marker [] = is_prefix marker []
occurs marker (c ∷ output) = is_prefix marker (c ∷ output) || occurs marker output

unfoldable pub output_contains : PlatformDevices → List ℕ → Bool
unfolding occurs
output_contains p marker = not (is_empty marker) && occurs marker p.uart_output
