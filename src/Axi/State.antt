-- ===== src/Axi/State.antt =====
-- `AXIMemory::save` and `restore`.
use zircon_sim.Prelude.{
  ℕ, zero, suc, Bool, true, false, not, if◌then◌else◌, List, [], ◌∷◌, ◌++◌, none, some,
}
use zircon_sim.Result.{Result, ok, err, runtime_error}
use zircon_sim.Checkpoint.{
  Reader, ◌>>=◌, ◌>>◌, pure, throw_if, write_bool, write_u8, write_u32, write_u64, read_bool,
  read_u8, read_u32, read_u64,
}
use zircon_sim.ExitMonitor.{set_value}
use zircon_sim.Rng.{set_state}
use zircon_sim.Axi.Defs.{ReadTransaction, AxiMemory}

-- `writer.write(readData_)`: the words of the bus data.
unfoldable pub write_words : List ℕ → List ℕ
write_words [] = []
write_words (word ∷ words) = write_u32 word ++ write_words words

unfoldable pub read_words : ℕ → Reader (List ℕ)
read_words zero = pure []
read_words (suc left) = do word ← read_u32; words ← read_words left; pure (word ∷ words)

-- The fields of one read transaction.
unfoldable pub save_read : ReadTransaction → List ℕ
save_read read =
    write_bool read.active
    ++ (write_u64 read.address
        ++ (write_u64 read.size ++ (write_u8 read.length ++ write_u8 read.beat)))

unfoldable pub restore_read : Reader ReadTransaction
restore_read = do
  active ← read_bool
  address ← read_u64
  size ← read_u64
  length ← read_u8
  beat ← read_u8
  pure (record { active = active; address = address; size = size; length = length; beat = beat })

abbrev pub has_exit : AxiMemory → Bool
has_exit s = elim s.exit [ none ↦ false | some monitor ↦ true ]

abbrev pub exit_value : AxiMemory → ℕ
exit_value s = elim s.exit [ none ↦ 0 | some monitor ↦ monitor.value ]

unfoldable pub save : AxiMemory → List ℕ
unfolding write_words save_read
save s =
    write_bool (has_exit s)
    ++ (write_u32 (exit_value s)
        ++ (write_u64 s.rng.state
            ++ (write_bool s.read_data_valid
                ++ (write_words s.read_data
                    ++ (write_u8 s.read_selected_id
                        ++ (write_u8 s.read_response
                            ++ (save_read s.demand
                                ++ (save_read s.prefetch
                                    ++ (write_bool s.write_active
                                        ++ (write_bool s.write_response_valid
                                            ++ (write_u64 s.write_address
                                                ++ (write_u64 s.write_size
                                                    ++ (write_u8 s.write_length
                                                        ++ (write_u8 s.write_beat
                                                            ++ (write_u8 s.write_id
                                                            ++ write_u8
                                                            s.write_response)))))))))))))))

-- `rng_.setState`, whose exception goes through.
unfoldable pub lift : {A : Type 0} → Result A → Reader A
lift (ok a) bytes = ok (a, bytes)
lift (err e) bytes = err e

-- `hasExit != exit_.has_value()`
abbrev pub differs : Bool → Bool → Bool
differs a b = if a then not b else b

unfoldable pub restore : ℕ → AxiMemory → Reader AxiMemory
unfolding read_words restore_read
restore bus_words s = do
  had_exit ← read_bool
  value ← read_u32
  throw_if (differs had_exit (has_exit s))
      (runtime_error "checkpoint tohost configuration does not match the image")
  state ← read_u64
  rng ← lift (set_state s.rng state)
  read_data_valid ← read_bool
  read_data ← read_words bus_words
  read_selected_id ← read_u8
  read_response ← read_u8
  demand ← restore_read
  prefetch ← restore_read
  write_active ← read_bool
  write_response_valid ← read_bool
  write_address ← read_u64
  write_size ← read_u64
  write_length ← read_u8
  write_beat ← read_u8
  write_id ← read_u8
  write_response ← read_u8
  pure (record s {
    exit = elim s.exit [ none ↦ none | some monitor ↦ some (set_value monitor value) ];
    rng = rng;
    read_data_valid = read_data_valid;
    read_data = read_data;
    read_selected_id = read_selected_id;
    read_response = read_response;
    demand = demand;
    prefetch = prefetch;
    write_active = write_active;
    write_response_valid = write_response_valid;
    write_address = write_address;
    write_size = write_size;
    write_length = write_length;
    write_beat = write_beat;
    write_id = write_id;
    write_response = write_response;
  })
