-- ===== src/Platform/Uart.antt =====
-- The UART as two queues of characters.
use mathlib.Core.List.{append-nil, append_assoc}
use zircon_sim.Prelude.{
  ℕ, ◌+◌, ◌*◌, ◌/◌, ◌%◌, ◌^◌, ◌<◌, ◌≡◌, refl, sym, ap, Bool-cases, inl, inr, true, false, arith,
  List, [], ◌∷◌, ◌++◌, All, Option, some, none, if◌then◌else◌, ◌==◌,
}
use zircon_sim.Word.Table.{zero-bit_or}
use zircon_sim.Platform.Defs.{
  PlatformDevices, is_empty, uart_base, dlab, receive, read_uart, read_byte, contains, is_device,
  is_write_combine, append_uart_input, transmit, write_uart, write_byte,
}
use zircon_sim.Platform.Bus.{read_bus, read_bus_loop, write_bus, write_bus_loop}

-- A one-byte bus read of the receive register takes the oldest character.
receive_one :
    (p : PlatformDevices) (c : ℕ) (rest : List ℕ)
    → dlab p ≡ false
    → c < 256
    → p.uart_input ≡ c ∷ rest
    → read_bus uart_base 1 p ≡ (record p { uart_input = rest }, some c)
unfolding read_bus read_bus_loop is_device is_write_combine contains read_byte read_uart receive
receive_one p c rest hd hc e = rw (hd, e, receive) (rw (zero-bit_or (c * 2 ^ 0 % 2 ^ 32)) (rw low))
  where
    low : c * 2 ^ 0 % 2 ^ 32 ≡ c
    low = omega arith

-- The program reads the receive register once for each character that it expects: the devices
-- after that, if each read gave the expected character.
abbrev pub after_reads : List ℕ → PlatformDevices → Option PlatformDevices
after_reads [] p = some p
after_reads (c ∷ expected) p =
    let step = read_bus uart_base 1 p in
    let rest = after_reads expected step.0 in
    elim step.1 [ none ↦ none | some v ↦ if v == c then rest else none ]

read_in_order :
    (xs ys : List ℕ) (p : PlatformDevices)
    → dlab p ≡ false
    → All (λ c. c < 256) xs
    → p.uart_input ≡ xs ++ ys
    → after_reads xs p ≡ some (record p { uart_input = ys })
read_in_order [] ys p hd hx e = ap (λ t. some (record p { uart_input = t })) e
read_in_order (c ∷ xs) ys p hd hx e = ground (
  arith,
  receive_one p c (xs ++ ys) hd hx.0 e,
  read_in_order xs ys (record p { uart_input = xs ++ ys }) hd hx.1 refl,
)

-- While the divisor latch is closed, the characters that wait and then those that are appended are read
-- back through the bus, byte by byte and in order; once the queue is empty a read gives zero and changes
-- nothing. The reads take the characters and leave the rest of the devices as it was.
pub reads-append :
    (p : PlatformDevices) (input : List ℕ)
    → dlab p ≡ false
    → All (λ c. c < 256) (p.uart_input ++ input)
    → (after_reads (p.uart_input ++ input) (append_uart_input p input)
        ≡ some (record p { uart_input = [] }))
      × (read_bus uart_base 1 (record p { uart_input = [] })
          ≡ (record p { uart_input = [] }, some 0))
unfolding append_uart_input
reads-append p input hd h = (
  read_in_order (p.uart_input ++ input) [] (append_uart_input p input) hd h
      (sym (append-nil (p.uart_input ++ input))),
  nothing,
)
  where
    nothing :
        read_bus uart_base 1 (record p { uart_input = [] }) ≡ (record p { uart_input = [] }, some 0)
    nothing =
        unfold read_bus read_bus_loop is_device is_write_combine contains read_byte read_uart
          receive in
        rw (hd, receive) refl

-- The line status register has its data-ready bit exactly when a character waits; both of its
-- transmitter bits are always set.
pub line_status :
    (p : PlatformDevices)
    → read_bus (uart_base + 5) 1 p
      ≡ (p, some ((if is_empty p.uart_input then 0x60 else 0x61) * 2 ^ 8))
unfolding read_bus read_bus_loop is_device is_write_combine contains read_byte read_uart
line_status p = elim (Bool-cases (is_empty p.uart_input)) [ inl e ↦ rw e | inr e ↦ rw e ]

-- Characters sent to the transmit register, one bus write each.
abbrev pub send : List ℕ → PlatformDevices → PlatformDevices
send [] p = p
send (c ∷ text) p = send text (write_bus uart_base c 1 p).0

send_one :
    (p : PlatformDevices) (c : ℕ)
    → dlab p ≡ false
    → c < 256
    → write_bus uart_base c 1 p ≡ (transmit p c, true)
unfolding write_bus write_bus_loop write_byte write_uart
send_one p c hd hc = rw (hd, low)
  where
    low : c / 2 ^ 0 % 2 ^ 8 ≡ c
    low = omega arith

-- Sent while the divisor latch is closed, they are appended to the output in order, and to the
-- console if output is emitted; nothing else changes.
pub send_lem :
    (text : List ℕ) (p : PlatformDevices)
    → dlab p ≡ false
    → All (λ c. c < 256) text
    → send text p ≡ record p {
      uart_output = p.uart_output ++ text;
      console = if p.emit_uart then p.console ++ text else p.console;
    }
unfolding transmit
send_lem [] p hd h = ground (arith, append-nil p.uart_output, append-nil p.console)
send_lem (c ∷ text) p hd h = rw (send_one p c hd h.0) (
    ground (
      arith,
      send_lem text (transmit p c) hd h.1,
      append_assoc p.uart_output (c ∷ []) text,
      append_assoc p.console (c ∷ []) text,
    ))
