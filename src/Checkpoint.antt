-- ===== src/Checkpoint.antt =====
-- `CheckpointWriter`, `CheckpointReader` and `fileFingerprint` (include/Checkpoint.h,
-- src/Checkpoint.cc). A file is its bytes: each `write_…` gives the bytes that it appends, and a
-- reader holds the bytes that are left. `write<T>` copies the object; the host is little-endian.
pub mod Laws
use Prim.Native.String.{String}
use Prim.Native.String.{◌++◌ as str_append}
use zircon_sim.Prelude.{
  ℕ, zero, suc, ◌+◌, ◌*◌, ◌/◌, ◌%◌, ◌^◌, ◌≤◌, bit_xor, Bool, true, false, not, List, [], ◌∷◌, ◌++◌,
  length, ltb, ◌==◌, if◌then◌else◌,
}
use zircon_sim.Word.{u64}
use zircon_sim.Result.{Result, ok, err, Error, runtime_error}

-- The bytes of a little-endian object of `size` bytes.
unfoldable pub write_le : ℕ → ℕ → List ℕ
write_le zero value = []
write_le (suc size) value = (value % 256) ∷ write_le size (value / 256)

abbrev pub write_u8 : ℕ → List ℕ
write_u8 = write_le 1

abbrev pub write_u32 : ℕ → List ℕ
write_u32 = write_le 4

abbrev pub write_u64 : ℕ → List ℕ
write_u64 = write_le 8

abbrev pub write_bool : Bool → List ℕ
write_bool b = write_u8 (if b then 1 else 0)

-- `writeString`: the size, then the characters.
unfoldable pub write_string : List ℕ → List ℕ
write_string value = write_u64 (length value) ++ value

-- A read that throws leaves no state behind: the error goes up to `main`.
abbrev pub Reader {ℓ} : Type ℓ → Type ℓ
Reader A = List ℕ → Result (A × List ℕ)

infixl 5 ◌>>=◌ ◌>>◌
abbrev pub ◌>>=◌ {ℓ κ} : {A : Type ℓ} {B : Type κ} → Reader A → (A → Reader B) → Reader B
◌>>=◌ m f bytes = elim (m bytes) [ ok (a, rest) ↦ f a rest | err e ↦ err e ]

abbrev pub ◌>>◌ {ℓ} : {B : Type ℓ} → Reader (Unit {0}) → Reader B → Reader B
m >> k = m >>= λ _. k

abbrev pub pure {ℓ} : {A : Type ℓ} → A → Reader A
pure a bytes = ok (a, bytes)

abbrev pub throw {ℓ} : {A : Type ℓ} → Error → Reader A
throw e bytes = err e

abbrev pub throw_if : Bool → Error → Reader (Unit {0})
throw_if test e = if test then throw e else pure tt

-- `requireGood` after a read that met the end of the file.
abbrev pub truncated : Error
truncated = runtime_error "truncated checkpoint state"

-- `readBytes`: exactly `size` bytes, or the stream fails.
unfoldable pub read_bytes : ℕ → Reader (List ℕ)
read_bytes zero bytes = ok ([], bytes)
read_bytes (suc size) [] = err truncated
read_bytes (suc size) (b ∷ bytes) = elim (read_bytes size bytes) [
  | ok (bs, rest) ↦ ok (b ∷ bs, rest)
  | err e ↦ err e
]

-- The object that little-endian bytes stand for.
unfoldable pub of_le : List ℕ → ℕ
of_le [] = 0
of_le (b ∷ bytes) = b + of_le bytes * 256

unfoldable pub read_le : ℕ → Reader ℕ
read_le size = do bytes ← read_bytes size; pure (of_le bytes)

abbrev pub read_u8 : Reader ℕ
read_u8 = read_le 1

abbrev pub read_u32 : Reader ℕ
read_u32 = read_le 4

abbrev pub read_u64 : Reader ℕ
read_u64 = read_le 8

-- A stored `bool` is the byte 0 or 1.
unfoldable pub read_bool : Reader Bool
read_bool = do value ← read_u8; pure (not (value == 0))

unfoldable pub read_count : ℕ → String → Reader ℕ
read_count maximum name = do
  value ← read_u64
  throw_if (ltb maximum value)
      (runtime_error (str_append (str_append "checkpoint " name) " count exceeds its limit"))
  pure value

unfoldable pub read_string : ℕ → Reader (List ℕ)
read_string maximum_size = do size ← read_count maximum_size "string"; read_bytes size

unfoldable pub require_end : Reader (Unit {0})
require_end [] = ok (tt, [])
require_end (b ∷ bytes) = err (runtime_error "checkpoint state contains trailing data")

-- `fileFingerprint`, over the bytes of the file: FNV-1a on 64 bits.
unfoldable pub fingerprint_loop : ℕ → List ℕ → ℕ
fingerprint_loop hash [] = hash
fingerprint_loop hash (b ∷ bytes) = fingerprint_loop (u64 (bit_xor hash b * 1099511628211)) bytes

unfoldable pub file_fingerprint : List ℕ → ℕ
file_fingerprint = fingerprint_loop 14695981039346656037
