-- ===== src/Platform/Defs.antt =====
-- The address map, the devices' state, and the two byte accessors.
use zircon_sim.Prelude.{
  ℕ, ◌+◌, ◌-◌, ◌*◌, ◌/◌, ◌^◌, bit_and, bit_or, Bool, true, false, not, ◌&&◌, ◌||◌, List, [], ◌∷◌,
  ◌++◌, Option, none, some, ltb, leb, ◌==◌, if◌then◌else◌,
}
use zircon_sim.Word.{u8, u64, ◌>>>◌, put_byte}

abbrev pub ram_base : ℕ
ram_base = 0x80000000

abbrev pub ram_size : ℕ
ram_size = 64 * 1024 * 1024

abbrev pub clint_base : ℕ
clint_base = 0xa0000000

abbrev pub clint_size : ℕ
clint_size = 0x00010000

abbrev pub uart_base : ℕ
uart_base = 0xa1000000

abbrev pub uart_size : ℕ
uart_size = 0x00001000

abbrev pub write_combine_base : ℕ
write_combine_base = 0xa2000000

abbrev pub write_combine_size : ℕ
write_combine_size = 0x01000000

abbrev pub cpu_frequency_hz : ℕ
cpu_frequency_hz = 100000000

abbrev pub timebase_frequency_hz : ℕ
timebase_frequency_hz = 10000000

abbrev pub timer_divider : ℕ
timer_divider = cpu_frequency_hz / timebase_frequency_hz

-- `console` is what `std::cout` was sent.
pub record PlatformDevices : Type 0 where
  pub emit_uart : Bool
  pub mtime : ℕ
  pub mtimecmp : ℕ
  pub timer_subcycle : ℕ
  pub uart_ier : ℕ
  pub uart_lcr : ℕ
  pub uart_mcr : ℕ
  pub uart_dll : ℕ
  pub uart_dlm : ℕ
  pub uart_input : List ℕ
  pub uart_output : List ℕ
  pub console : List ℕ

unfoldable pub append_uart_input : PlatformDevices → List ℕ → PlatformDevices
append_uart_input p input = record p { uart_input = p.uart_input ++ input }

-- The constructor.
unfoldable pub init : Bool → List ℕ → PlatformDevices
unfolding append_uart_input
init emit_uart input =
    append_uart_input
      (record {
        emit_uart = emit_uart;
        mtime = 0;
        mtimecmp = 2 ^ 64 - 1;
        timer_subcycle = 0;
        uart_ier = 0;
        uart_lcr = 0;
        uart_mcr = 0;
        uart_dll = 1;
        uart_dlm = 0;
        uart_input = [];
        uart_output = [];
        console = [];
      })
      input

-- An access of `size` bytes lies in a region; the sums are `uint64_t`.
unfoldable pub contains : ℕ → ℕ → ℕ → ℕ → Bool
contains address size base length =
    not (size == 0)
    && leb base address
    && leb (u64 (address + size)) (base + length)
    && leb (u64 (address + size)) (2 ^ 32)

unfoldable pub is_ram : ℕ → ℕ → Bool
is_ram address size = contains address size ram_base ram_size

unfoldable pub is_write_combine : ℕ → ℕ → Bool
is_write_combine address size = contains address size write_combine_base write_combine_size

unfoldable pub is_device : ℕ → ℕ → Bool
is_device address size =
    (contains address size clint_base clint_size || contains address size uart_base uart_size)
    && not (is_write_combine address size)

-- `(uartLcr_ & 0x80u) != 0`: the divisor latch is selected.
abbrev pub dlab : PlatformDevices → Bool
dlab p = not (bit_and p.uart_lcr 0x80 == 0)

-- The UART's receive register, on the input that is waiting.
unfoldable pub receive : PlatformDevices → List ℕ → PlatformDevices × ℕ
receive p [] = (p, 0)
receive p (c ∷ rest) = (record p { uart_input = rest }, c)

abbrev pub is_empty : List ℕ → Bool
is_empty [] = true
is_empty (c ∷ rest) = false

-- The UART's registers, by offset.
unfoldable pub read_uart : PlatformDevices → ℕ → PlatformDevices × ℕ
read_uart p offset =
    if offset == 0
    then (if dlab p then (p, p.uart_dll) else receive p p.uart_input)
    else if offset == 1
    then (p, if dlab p then p.uart_dlm else p.uart_ier)
    else if offset == 2
    then (p, 0x01)
    else if offset == 3
    then (p, p.uart_lcr)
    else if offset == 4
    then (p, p.uart_mcr)
    else if offset == 5
    then (p, bit_or 0x60 (if is_empty p.uart_input then 0 else 1))
    else (p, 0)

abbrev pub answer : PlatformDevices × ℕ → PlatformDevices × Option ℕ
answer (p, value) = (p, some value)

-- `readByte`; `none` is the return value `false`.
unfoldable pub read_byte : PlatformDevices → ℕ → PlatformDevices × Option ℕ
read_byte p address =
    if leb clint_base address && ltb address (clint_base + clint_size)
    then (let offset = address - clint_base in
        if leb 0x4000 offset && ltb offset 0x4008
        then (p, some (u8 (p.mtimecmp >>> ((offset - 0x4000) * 8))))
        else if leb 0xbff8 offset && ltb offset 0xc000
        then (p, some (u8 (p.mtime >>> ((offset - 0xbff8) * 8))))
        else (p, none))
    else if ltb address uart_base || leb (uart_base + uart_size) address
    then (p, none)
    else answer (read_uart p (address - uart_base))

unfoldable pub transmit : PlatformDevices → ℕ → PlatformDevices
transmit p value = record p {
  uart_output = p.uart_output ++ value ∷ [];
  console = if p.emit_uart then p.console ++ value ∷ [] else p.console;
}

unfoldable pub write_uart : PlatformDevices → ℕ → ℕ → PlatformDevices
write_uart p offset value =
    if offset == 0
    then (if dlab p then record p { uart_dll = value } else transmit p value)
    else if offset == 1
    then (if dlab p then record p { uart_dlm = value } else record p { uart_ier = value })
    else if offset == 2
    then p
    else if offset == 3
    then record p { uart_lcr = value }
    else if offset == 4
    then record p { uart_mcr = value }
    else p

-- `writeByte`
unfoldable pub write_byte : PlatformDevices → ℕ → ℕ → PlatformDevices × Bool
write_byte p address value =
    if leb clint_base address && ltb address (clint_base + clint_size)
    then (let offset = address - clint_base in
        if leb 0x4000 offset && ltb offset 0x4008
        then (record p { mtimecmp = put_byte 64 ((offset - 0x4000) * 8) value p.mtimecmp }, true)
        else if leb 0xbff8 offset && ltb offset 0xc000
        then (record p { mtime = put_byte 64 ((offset - 0xbff8) * 8) value p.mtime }, true)
        else (p, false))
    else if ltb address uart_base || leb (uart_base + uart_size) address
    then (p, false)
    else (write_uart p (address - uart_base) value, true)
