-- ===== src/Checkpoint/Laws.antt =====
-- Each reader takes back what its writer wrote and leaves the rest.
use Prim.Native.String.{String}
use native.Mathlib.Nat.{pow-suc}
use mathlib.Core.List.{append_assoc}
use zircon_sim.Prelude.{
  ℕ, zero, suc, ◌/◌, ◌^◌, ◌<◌, ◌≤◌, ◌≡◌, refl, ap, Bool, true, false, List, [], ◌∷◌, ◌++◌, length,
  arith,
}
use zircon_sim.Result.{ok, err}
use zircon_sim.Checkpoint.{
  ◌>>=◌, write_le, write_u64, write_bool, write_string, truncated, read_bytes, of_le, read_le,
  read_bool, read_count, read_string,
}

-- `size` bytes followed by anything are read back.
pub read_bytes-append :
    (bytes rest : List ℕ) → read_bytes (length bytes) (bytes ++ rest) ≡ ok (bytes, rest)
unfolding read_bytes
read_bytes-append [] rest = refl
read_bytes-append (b ∷ bytes) rest = rw (read_bytes-append bytes rest)

length-write_le : (size value : ℕ) → length (write_le size value) ≡ size
unfolding write_le
length-write_le zero value = refl
length-write_le (suc size) value = ap suc (length-write_le size (value / 256))

of_le-write_le : (size value : ℕ) → value < 256 ^ size → of_le (write_le size value) ≡ value
unfolding write_le of_le
of_le-write_le zero value h = omega arith
of_le-write_le (suc size) value h =
    omega (arith, of_le-write_le size (value / 256) (omega (arith, pow-suc 256 size)))

read_bytes-write_le :
    (size value : ℕ) (rest : List ℕ)
    → read_bytes size (write_le size value ++ rest) ≡ ok (write_le size value, rest)
read_bytes-write_le size value rest =
    rw (length-write_le size value) at (read_bytes-append (write_le size value) rest)

-- An object in its range is read back as it was written.
pub read_le-write_le :
    (size value : ℕ) (rest : List ℕ)
    → value < 256 ^ size
    → read_le size (write_le size value ++ rest) ≡ ok (value, rest)
unfolding read_le
read_le-write_le size value rest h =
    rw (read_bytes-write_le size value rest, of_le-write_le size value h, ◌>>=◌)

pub read_bool-write_bool :
    (b : Bool) (rest : List ℕ) → read_bool (write_bool b ++ rest) ≡ ok (b, rest)
unfolding read_bool
read_bool-write_bool true rest = rw (read_le-write_le 1 1 rest (omega arith), ◌>>=◌)
read_bool-write_bool false rest = rw (read_le-write_le 1 0 rest (omega arith), ◌>>=◌)

pub read_count-write_u64 :
    (maximum value : ℕ) (name : String) (rest : List ℕ)
    → value < 256 ^ 8
    → value ≤ maximum
    → read_count maximum name (write_u64 value ++ rest) ≡ ok (value, rest)
unfolding read_count
read_count-write_u64 maximum value name rest hv hm =
    rw (read_le-write_le 8 value rest hv, ◌>>=◌) (ground arith)

-- A string within the limit is read back, whatever follows it.
pub read_string-write_string :
    (maximum : ℕ) (value rest : List ℕ)
    → length value < 256 ^ 8
    → length value ≤ maximum
    → read_string maximum (write_string value ++ rest) ≡ ok (value, rest)
unfolding read_string write_string
read_string-write_string maximum value rest hv hm =
    rw
      (
        append_assoc (write_u64 (length value)) value rest,
        read_count-write_u64 maximum (length value) "string" (value ++ rest) hv hm,
        ◌>>=◌,
      )
      (read_bytes-append value rest)

-- A file that ends inside an object is refused.
pub read_bytes-truncated :
    (size : ℕ) (bytes : List ℕ) → length bytes < size → read_bytes size bytes ≡ err truncated
unfolding read_bytes
read_bytes-truncated zero bytes h = elim h [ ]
read_bytes-truncated (suc size) [] h = refl
read_bytes-truncated (suc size) (b ∷ bytes) h = rw (read_bytes-truncated size bytes (omega arith))

-- The same with more written behind, bracketed as the `save` functions bracket it.
module _ (tail rest : List ℕ) where
  pub read_le_then :
      (size value : ℕ)
      → value < 256 ^ size
      → read_le size ((write_le size value ++ tail) ++ rest) ≡ ok (value, tail ++ rest)
  read_le_then size value h =
      rw (append_assoc (write_le size value) tail rest)
        (read_le-write_le size value (tail ++ rest) h)

  pub read_bool_then :
      (b : Bool) → read_bool ((write_bool b ++ tail) ++ rest) ≡ ok (b, tail ++ rest)
  read_bool_then b =
      rw (append_assoc (write_bool b) tail rest) (read_bool-write_bool b (tail ++ rest))

  pub read_count_then :
      (maximum value : ℕ) (name : String)
      → value < 256 ^ 8
      → value ≤ maximum
      → read_count maximum name ((write_u64 value ++ tail) ++ rest) ≡ ok (value, tail ++ rest)
  read_count_then maximum value name h k =
      rw (append_assoc (write_u64 value) tail rest)
        (read_count-write_u64 maximum value name (tail ++ rest) h k)
