-- ===== src/Word/Bytes.antt =====
-- `put_byte` at the shifts that the source uses.
use zircon_sim.Prelude.{
  ℕ, zero, suc, ◌+◌, ◌*◌, ◌/◌, ◌%◌, ◌^◌, ◌<◌, bit_and, bit_or, ◌≡◌, arith, ◌==◌, if◌then◌else◌,
}
use native.Mathlib.Nat.{one-le-pow}
use zircon_sim.Word.{put_byte, u8, bit_not, ◌<<<◌}
use zircon_sim.Word.Field.{bit_and_split, bit_and-zero}
use zircon_sim.Word.Table.{replace_byte, bit_and_low}

-- A word with the byte at bit `s` replaced.
abbrev pub replaced : ℕ → ℕ → ℕ → ℕ
replaced s v word = (word / 2 ^ s / 256 * 256 + v) * 2 ^ s + word % 2 ^ s

-- The four byte lanes of a 32-bit word.
pub put_byte_32 :
    (lane v word : ℕ)
    → lane < 4
    → v < 256
    → word < 2 ^ 32
    → put_byte 32 (lane * 8) v word ≡ replaced (lane * 8) v word
unfolding put_byte
put_byte_32 zero v word h hv hw =
    ground (arith, replace_byte 0 24 (word / 2 ^ 8) (word / 2 ^ 0 % 256) v (word % 2 ^ 0))
put_byte_32 (suc zero) v word h hv hw =
    ground (arith, replace_byte 8 16 (word / 2 ^ 16) (word / 2 ^ 8 % 256) v (word % 2 ^ 8))
put_byte_32 (suc (suc zero)) v word h hv hw =
    ground (arith, replace_byte 16 8 (word / 2 ^ 24) (word / 2 ^ 16 % 256) v (word % 2 ^ 16))
put_byte_32 (suc (suc (suc zero))) v word h hv hw =
    ground (arith, replace_byte 24 0 (word / 2 ^ 32) (word / 2 ^ 24 % 256) v (word % 2 ^ 24))
put_byte_32 (suc (suc (suc (suc lane)))) v word h hv hw = absurd (omega arith)

-- The eight byte lanes of a 64-bit word.
pub put_byte_64 :
    (lane v word : ℕ)
    → lane < 8
    → v < 256
    → word < 2 ^ 64
    → put_byte 64 (lane * 8) v word ≡ replaced (lane * 8) v word
unfolding put_byte
put_byte_64 zero v word h hv hw =
    ground (arith, replace_byte 0 56 (word / 2 ^ 8) (word / 2 ^ 0 % 256) v (word % 2 ^ 0))
put_byte_64 (suc zero) v word h hv hw =
    ground (arith, replace_byte 8 48 (word / 2 ^ 16) (word / 2 ^ 8 % 256) v (word % 2 ^ 8))
put_byte_64 (suc (suc zero)) v word h hv hw =
    ground (arith, replace_byte 16 40 (word / 2 ^ 24) (word / 2 ^ 16 % 256) v (word % 2 ^ 16))
put_byte_64 (suc (suc (suc zero))) v word h hv hw =
    ground (arith, replace_byte 24 32 (word / 2 ^ 32) (word / 2 ^ 24 % 256) v (word % 2 ^ 24))
put_byte_64 (suc (suc (suc (suc zero)))) v word h hv hw =
    ground (arith, replace_byte 32 24 (word / 2 ^ 40) (word / 2 ^ 32 % 256) v (word % 2 ^ 32))
put_byte_64 (suc (suc (suc (suc (suc zero))))) v word h hv hw =
    ground (arith, replace_byte 40 16 (word / 2 ^ 48) (word / 2 ^ 40 % 256) v (word % 2 ^ 40))
put_byte_64 (suc (suc (suc (suc (suc (suc zero)))))) v word h hv hw =
    ground (arith, replace_byte 48 8 (word / 2 ^ 56) (word / 2 ^ 48 % 256) v (word % 2 ^ 48))
put_byte_64 (suc (suc (suc (suc (suc (suc (suc zero))))))) v word h hv hw =
    ground (arith, replace_byte 56 0 (word / 2 ^ 64) (word / 2 ^ 56 % 256) v (word % 2 ^ 56))
put_byte_64 (suc (suc (suc (suc (suc (suc (suc (suc lane)))))))) v word h hv hw =
    absurd (omega arith)

-- The byte in lane `j` of a word.
abbrev pub byte_of : ℕ → ℕ → ℕ
byte_of j word = u8 (word / 2 ^ (j * 8))

replaced_byte :
    (i j v word : ℕ)
    → i < 4
    → j < 4
    → v < 256
    → byte_of j (replaced (i * 8) v word) ≡ (if i == j then v else byte_of j word)
replaced_byte zero zero v word hi hj hv = omega arith
replaced_byte zero (suc zero) v word hi hj hv = omega arith
replaced_byte zero (suc (suc zero)) v word hi hj hv = omega arith
replaced_byte zero (suc (suc (suc zero))) v word hi hj hv = omega arith
replaced_byte (suc zero) zero v word hi hj hv = omega arith
replaced_byte (suc zero) (suc zero) v word hi hj hv = omega arith
replaced_byte (suc zero) (suc (suc zero)) v word hi hj hv = omega arith
replaced_byte (suc zero) (suc (suc (suc zero))) v word hi hj hv = omega arith
replaced_byte (suc (suc zero)) zero v word hi hj hv = omega arith
replaced_byte (suc (suc zero)) (suc zero) v word hi hj hv = omega arith
replaced_byte (suc (suc zero)) (suc (suc zero)) v word hi hj hv = omega arith
replaced_byte (suc (suc zero)) (suc (suc (suc zero))) v word hi hj hv = omega arith
replaced_byte (suc (suc (suc zero))) zero v word hi hj hv = omega arith
replaced_byte (suc (suc (suc zero))) (suc zero) v word hi hj hv = omega arith
replaced_byte (suc (suc (suc zero))) (suc (suc zero)) v word hi hj hv = omega arith
replaced_byte (suc (suc (suc zero))) (suc (suc (suc zero))) v word hi hj hv = omega arith
replaced_byte zero (suc (suc (suc (suc j)))) v word hi hj hv = absurd (omega arith)
replaced_byte (suc zero) (suc (suc (suc (suc j)))) v word hi hj hv = absurd (omega arith)
replaced_byte (suc (suc zero)) (suc (suc (suc (suc j)))) v word hi hj hv = absurd (omega arith)
replaced_byte (suc (suc (suc zero))) (suc (suc (suc (suc j)))) v word hi hj hv =
    absurd (omega arith)
replaced_byte (suc (suc (suc (suc i)))) j v word hi hj hv = absurd (omega arith)

-- A byte that is put reads back from its lane, and the other lanes keep theirs.
pub byte_of-put_byte :
    (i j v word : ℕ)
    → i < 4
    → j < 4
    → v < 256
    → word < 2 ^ 32
    → byte_of j (put_byte 32 (i * 8) v word) ≡ (if i == j then v else byte_of j word)
byte_of-put_byte i j v word hi hj hv hw =
    rw (put_byte_32 i v word hi hv hw) (replaced_byte i j v word hi hj hv)

replaced-lt :
    (lane v word : ℕ) → lane < 4 → v < 256 → word < 2 ^ 32 → replaced (lane * 8) v word < 2 ^ 32
replaced-lt zero v word h hv hw = omega arith
replaced-lt (suc zero) v word h hv hw = omega arith
replaced-lt (suc (suc zero)) v word h hv hw = omega arith
replaced-lt (suc (suc (suc zero))) v word h hv hw = omega arith
replaced-lt (suc (suc (suc (suc n)))) v word h hv hw = absurd (omega arith)

pub put_byte-lt :
    (lane v word : ℕ) → lane < 4 → v < 256 → word < 2 ^ 32 → put_byte 32 (lane * 8) v word < 2 ^ 32
put_byte-lt lane v word h hv hw =
    rw (put_byte_32 lane v word h hv hw) (replaced-lt lane v word h hv hw)

pub mask_lane : (s value : ℕ) → bit_and value (0xff * 2 ^ s) ≡ value / 2 ^ s % 256 * 2 ^ s
mask_lane s value = ground (
  arith,
  one-le-pow s 2,
  bit_and_split s (value / 2 ^ s) 0xff (value % 2 ^ s) 0,
  bit_and_low 8 (value / 2 ^ s),
  bit_and-zero s (value % 2 ^ s),
)

-- `(word & ~mask) | (value & mask)` at a byte lane puts that byte of `value`.
pub merge_lane :
    (lane value word : ℕ)
    → lane < 4
    → bit_or (bit_and word (bit_not 32 (0xff <<< (lane * 8)))) (bit_and value (0xff <<< (lane * 8)))
      ≡ put_byte 32 (lane * 8) (byte_of lane value) word
unfolding put_byte
merge_lane zero value word h = ground (arith, mask_lane 0 value)
merge_lane (suc zero) value word h = ground (arith, mask_lane 8 value)
merge_lane (suc (suc zero)) value word h = ground (arith, mask_lane 16 value)
merge_lane (suc (suc (suc zero))) value word h = ground (arith, mask_lane 24 value)
merge_lane (suc (suc (suc (suc n)))) value word h = absurd (omega arith)
