-- ===== src/Platform/State.antt =====
-- `save` and `restore` of the devices.
use zircon_sim.Prelude.{ℕ, zero, suc, ◌*◌, ◌^◌, List, [], ◌∷◌, ◌++◌, length, leb}
use zircon_sim.Result.{runtime_error}
use zircon_sim.Checkpoint.{
  Reader, ◌>>=◌, ◌>>◌, pure, throw_if, write_u8, write_u32, write_u64, write_string, read_u8,
  read_u32, read_u64, read_count, read_string,
}
use zircon_sim.Platform.Defs.{PlatformDevices, timer_divider}

-- A byte sequence, one `write` to each.
unfoldable pub write_each : List ℕ → List ℕ
write_each [] = []
write_each (value ∷ values) = write_u8 value ++ write_each values

unfoldable pub read_each : ℕ → Reader (List ℕ)
read_each zero = pure []
read_each (suc left) = do value ← read_u8; values ← read_each left; pure (value ∷ values)

unfoldable pub save : PlatformDevices → List ℕ
unfolding write_each
save p =
    write_u64 p.mtime
    ++ (write_u64 p.mtimecmp
        ++ (write_u32 p.timer_subcycle
            ++ (write_u8 p.uart_ier
                ++ (write_u8 p.uart_lcr
                    ++ (write_u8 p.uart_mcr
                        ++ (write_u8 p.uart_dll
                            ++ (write_u8 p.uart_dlm
                                ++ (write_u64 (length p.uart_input)
                                    ++ (write_each p.uart_input
                                        ++ write_string p.uart_output)))))))))

unfoldable pub restore : PlatformDevices → Reader PlatformDevices
unfolding read_each
restore p = do
  mtime ← read_u64
  mtimecmp ← read_u64
  timer_subcycle ← read_u32
  throw_if (leb timer_divider timer_subcycle) (runtime_error "checkpoint timer subcycle is invalid")
  uart_ier ← read_u8
  uart_lcr ← read_u8
  uart_mcr ← read_u8
  uart_dll ← read_u8
  uart_dlm ← read_u8
  input_size ← read_count (1 * 2 ^ 20) "UART input"
  uart_input ← read_each input_size
  uart_output ← read_string (64 * 2 ^ 20)
  pure (record p {
    mtime = mtime;
    mtimecmp = mtimecmp;
    timer_subcycle = timer_subcycle;
    uart_ier = uart_ier;
    uart_lcr = uart_lcr;
    uart_mcr = uart_mcr;
    uart_dll = uart_dll;
    uart_dlm = uart_dlm;
    uart_input = uart_input;
    uart_output = uart_output;
  })
