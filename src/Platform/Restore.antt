-- ===== src/Platform/Restore.antt =====
-- A checkpoint of the devices restores them.
use mathlib.Core.List.{append_assoc}
use zircon_sim.Prelude.{
  ℕ, ◌*◌, ◌^◌, ◌<◌, ◌≤◌, ◌≡◌, refl, false, List, [], ◌∷◌, ◌++◌, All, length, leb, arith,
}
use zircon_sim.Result.{ok}
use zircon_sim.Checkpoint.{◌>>=◌, write_string}
use zircon_sim.Checkpoint.Laws.{read_le_then, read_count_then, read_string-write_string}
use zircon_sim.Platform.Defs.{PlatformDevices, timer_divider}
use zircon_sim.Platform.State.{write_each, read_each, save, restore}

-- What the types of the fields and the program's limits say.
pub record IsValid (p : PlatformDevices) : Type 0 where
  pub mtime : p.mtime < 256 ^ 8
  pub mtimecmp : p.mtimecmp < 256 ^ 8
  pub subcycle : p.timer_subcycle < timer_divider
  pub ier : p.uart_ier < 256
  pub lcr : p.uart_lcr < 256
  pub mcr : p.uart_mcr < 256
  pub dll : p.uart_dll < 256
  pub dlm : p.uart_dlm < 256
  pub input_bytes : All (λ b. b < 256) p.uart_input
  pub input_size : length p.uart_input ≤ 2 ^ 20
  pub output_size : length p.uart_output ≤ 64 * 2 ^ 20

read_each-write_each :
    (values rest : List ℕ)
    → All (λ b. b < 256) values
    → read_each (length values) (write_each values ++ rest) ≡ ok (values, rest)
unfolding read_each write_each
read_each-write_each [] rest h = refl
read_each-write_each (v ∷ values) rest h =
    rw (read_le_then (write_each values) rest 1 v h.0, read_each-write_each values rest h.1, ◌>>=◌)

read_each_then :
    (values tail rest : List ℕ)
    → All (λ b. b < 256) values
    → read_each (length values) ((write_each values ++ tail) ++ rest) ≡ ok (values, tail ++ rest)
read_each_then values tail rest h =
    rw (append_assoc (write_each values) tail rest) (read_each-write_each values (tail ++ rest) h)

-- If the fields fit their types, the input has at most 2 ^ 20 characters and the output at most 64 * 2 ^ 20
-- (`save` writes more, `restore` throws), restoring what was saved gives the saved devices, with the output switch and the console of the
-- devices restored into, and leaves whatever follows in the file.
pub restore-save :
    (p q : PlatformDevices) (rest : List ℕ)
    → IsValid p
    → restore q (save p ++ rest)
      ≡ ok (record p { emit_uart = q.emit_uart; console = q.console }, rest)
unfolding restore save
restore-save p q rest v = rw (
  read_le_then _ rest 8 p.mtime v.mtime,
  read_le_then _ rest 8 p.mtimecmp v.mtimecmp,
  read_le_then _ rest 4 p.timer_subcycle (omega (arith, v.subcycle)),
  in_range,
  read_le_then _ rest 1 p.uart_ier v.ier,
  read_le_then _ rest 1 p.uart_lcr v.lcr,
  read_le_then _ rest 1 p.uart_mcr v.mcr,
  read_le_then _ rest 1 p.uart_dll v.dll,
  read_le_then _ rest 1 p.uart_dlm v.dlm,
  read_count_then _ rest (2 ^ 20) (length p.uart_input) "UART input" (omega arith) v.input_size,
  read_each_then p.uart_input (write_string p.uart_output) rest v.input_bytes,
  read_string-write_string (64 * 2 ^ 20) p.uart_output rest (omega arith) v.output_size,
  ◌>>=◌,
)
  where
    in_range : leb timer_divider p.timer_subcycle ≡ false
    in_range = ground (arith, v.subcycle)
