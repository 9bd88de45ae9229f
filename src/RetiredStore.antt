-- ===== src/RetiredStore.antt =====
-- `RetiredStore`, `decodeRetiredStore` and `storeCoversAddress` of src/main.cc: the store that a retired
-- instruction made, by which the exit code of a run is recognised.
pub mod Laws
pub mod Retired
use zircon_sim.Prelude.{
  ℕ, ◌+◌, ◌-◌, ◌^◌, bit_and, bit_or, Bool, not, List, Option, none, some, ltb, ◌==◌, if◌then◌else◌,
  get_or,
}
use zircon_sim.Word.{u8, u32, ◌<<<◌, ◌>>>◌}
use zircon_sim.Simulator.Alu.{shift_arithmetic}

pub record RetiredStore : Type 0 where
  pub address : ℕ
  pub value : ℕ
  pub size : ℕ

-- `static_cast<int32_t>(immediate << 20) >> 20`, as a word
abbrev pub signed_immediate : ℕ → ℕ
signed_immediate instruction =
    shift_arithmetic
      (u32 (bit_or (u32 (instruction >>> 25 <<< 5)) (bit_and (instruction >>> 7) 0x1f) <<< 20)) 20

unfoldable pub decode_retired_store : ℕ → List ℕ → Option RetiredStore
unfolding shift_arithmetic
decode_retired_store instruction registers =
    let funct3 = bit_and (instruction >>> 12) 0x7 in
    let rs1 = bit_and (instruction >>> 15) 0x1f in
    let rs2 = bit_and (instruction >>> 20) 0x1f in
    if not (bit_and instruction 0x7f == 0x23)
    then none
    else if ltb 2 funct3
    then none
    else some (record {
      address = u32 (get_or registers rs1 0 + signed_immediate instruction);
      value = get_or registers rs2 0;
      size = u8 (1 <<< funct3);
    })

unfoldable pub store_covers_address : RetiredStore → ℕ → Bool
store_covers_address store address = ltb (u32 (address + (2 ^ 32 - store.address))) store.size
