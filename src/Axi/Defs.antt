-- ===== src/Axi/Defs.antt =====
-- The ports of the generated core that the bus model reads and drives, and the model's state. The
-- bus data is its list of 32-bit words; `bus_words` is `kBusBytes / 4`, 2 in the 64-bit build and
-- 8 in the 256-bit one.
use zircon_sim.Prelude.{
  ℕ, bit_and, Bool, false, not, List, [], Option, none, some, ◌==◌, if◌then◌else◌, replicate,
}
use zircon_sim.Result.{Result, ok, ◌>>=◌}
use zircon_sim.Memory.{SparseMemory}
use zircon_sim.ExitMonitor.{TestExitMonitor}
use zircon_sim.ExitMonitor
use zircon_sim.Rng.{DeterministicRng, next32}
use zircon_sim.Rng
use zircon_sim.Platform.Defs.{PlatformDevices, append_uart_input}
use zircon_sim.Platform.Bus.{timer_interrupt, time, tick, output_contains}

-- The `io_axi_…` ports of `VZirconCore`.
pub record Ports : Type 0 where
  pub ar_valid : Bool
  pub ar_ready : Bool
  pub ar_id : ℕ
  pub ar_addr : ℕ
  pub ar_len : ℕ
  pub ar_size : ℕ
  pub r_valid : Bool
  pub r_ready : Bool
  pub r_id : ℕ
  pub r_data : List ℕ
  pub r_resp : ℕ
  pub r_last : Bool
  pub aw_valid : Bool
  pub aw_ready : Bool
  pub aw_id : ℕ
  pub aw_addr : ℕ
  pub aw_len : ℕ
  pub aw_size : ℕ
  pub w_valid : Bool
  pub w_ready : Bool
  pub w_strb : ℕ
  pub w_data : List ℕ
  pub w_last : Bool
  pub b_valid : Bool
  pub b_ready : Bool
  pub b_id : ℕ
  pub b_resp : ℕ

pub record ReadTransaction : Type 0 where
  pub active : Bool
  pub address : ℕ
  pub size : ℕ
  pub length : ℕ
  pub beat : ℕ

abbrev pub idle_read : ReadTransaction
idle_read = record { active = false; address = 0; size = 4; length = 0; beat = 0 }

-- `reads_[0]` and `reads_[1]` are `demand` and `prefetch`; `console` is what `std::cout` was sent.
pub record AxiMemory : Type 0 where
  pub memory : SparseMemory
  pub exit : Option TestExitMonitor
  pub rng : DeterministicRng
  pub platform : Option PlatformDevices
  pub demand : ReadTransaction
  pub prefetch : ReadTransaction
  pub read_data_valid : Bool
  pub read_data : List ℕ
  pub read_selected_id : ℕ
  pub read_response : ℕ
  pub write_active : Bool
  pub write_response_valid : Bool
  pub write_address : ℕ
  pub write_size : ℕ
  pub write_length : ℕ
  pub write_beat : ℕ
  pub write_id : ℕ
  pub write_response : ℕ
  pub console : List ℕ

-- The constructor.
unfoldable pub init : ℕ → SparseMemory → Option ℕ → ℕ → Option PlatformDevices → Result AxiMemory
init bus_words memory tohost seed platform = do
  rng ← Rng.init seed
  ok (record {
    memory = memory;
    exit = elim tohost [ none ↦ none | some address ↦ some (ExitMonitor.init address) ];
    rng = rng;
    platform = platform;
    demand = idle_read;
    prefetch = idle_read;
    read_data_valid = false;
    read_data = replicate bus_words 0;
    read_selected_id = 0;
    read_response = 0;
    write_active = false;
    write_response_valid = false;
    write_address = 0;
    write_size = 4;
    write_length = 0;
    write_beat = 0;
    write_id = 0;
    write_response = 0;
    console = [];
  })

-- `reads_[id]`; a handshake is only offered to the identifiers 0 and 1.
abbrev pub read_of : AxiMemory → ℕ → ReadTransaction
read_of s id = if id == 0 then s.demand else s.prefetch

abbrev pub set_read : AxiMemory → ℕ → ReadTransaction → AxiMemory
set_read s id r = if id == 0 then record s { demand = r } else record s { prefetch = r }

-- `randomReady` and `randomValid`, which have one body.
unfoldable pub random_ready : AxiMemory → AxiMemory × Bool
random_ready s =
    let (rng, value) = next32 s.rng in (record s { rng = rng }, not (bit_and value 15 == 0))

-- `test && randomReady()`: no number is drawn if the test fails.
unfoldable pub ready_if : Bool → AxiMemory → AxiMemory × Bool
unfolding random_ready
ready_if test s = if test then random_ready s else (s, false)

-- The calls that are passed on to the devices.
unfoldable pub timer_pending : AxiMemory → Bool
timer_pending s = elim s.platform [ none ↦ false | some p ↦ timer_interrupt p ]

unfoldable pub platform_time : AxiMemory → ℕ
platform_time s = elim s.platform [ none ↦ 0 | some p ↦ time p ]

unfoldable pub tick_platform : AxiMemory → AxiMemory
tick_platform s = elim s.platform [ none ↦ s | some p ↦ record s { platform = some (tick p) } ]

unfoldable pub append_input : AxiMemory → List ℕ → AxiMemory
append_input s input = elim s.platform [
  | none ↦ s
  | some p ↦ record s { platform = some (append_uart_input p input) }
]

unfoldable pub output_has : AxiMemory → List ℕ → Bool
output_has s marker = elim s.platform [ none ↦ false | some p ↦ output_contains p marker ]
