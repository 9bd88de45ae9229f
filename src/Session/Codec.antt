-- ===== src/Session/Codec.antt =====
-- Lists and optional values in a checkpoint, and readers that take back what a writer wrote.
use mathlib.Core.List.{append_assoc}
use zircon_sim.Prelude.{
  ℕ, zero, suc, ◌^◌, ◌<◌, ◌≡◌, refl, Bool, true, false, List, [], ◌∷◌, ◌++◌, Option, none, some,
  All, length,
}
use zircon_sim.Result.{ok}
use zircon_sim.Checkpoint.{
  ◌>>=◌, Reader, pure, write_le, write_bool, read_le, read_bool, read_bytes,
}
use zircon_sim.Checkpoint.Laws.{read_le-write_le, read_bool-write_bool, read_bytes-append}

module _ {A : Type 0} where
  -- An array, and the body of a loop over a container.
  unfoldable pub write_list : (A → List ℕ) → List A → List ℕ
  write_list write [] = []
  write_list write (a ∷ l) = write a ++ write_list write l

  unfoldable pub read_list : Reader A → ℕ → Reader (List A)
  read_list read zero = pure []
  read_list read (suc left) = do a ← read; l ← read_list read left; pure (a ∷ l)

  -- `has_value()`, then the value if there is one.
  unfoldable pub write_option : (A → List ℕ) → Option A → List ℕ
  write_option write none = write_bool false
  write_option write (some a) = write_bool true ++ write a

  abbrev pub read_if : Reader A → Bool → Reader (Option A)
  read_if read true = do a ← read; pure (some a)
  read_if read false = pure none

  unfoldable pub read_option : Reader A → Reader (Option A)
  read_option read = do present ← read_bool; read_if read present

-- The reader takes the bytes as the value and leaves what follows.
pub record Reads {A : Type 0} (read : Reader A) (bytes : List ℕ) (a : A) : Type 0 where
  pub back : (rest : List ℕ) → read (bytes ++ rest) ≡ ok (a, rest)

pub then-Reads :
    {A B : Type 0} {read : Reader A} {bytes tail : List ℕ} {a : A} (next : A → Reader B) {b : B}
    → Reads read bytes a
    → Reads (next a) tail b
    → Reads (read >>= next) (bytes ++ tail) b
then-Reads {bytes = bytes} {tail = tail} next h k = record {
  back = λ rest. rw (append_assoc bytes tail rest, h.back (tail ++ rest), ◌>>=◌) (k.back rest);
}

pub last-Reads :
    {A B : Type 0} {read : Reader A} {bytes : List ℕ} {a : A} (done : A → B)
    → Reads read bytes a
    → Reads (read >>= λ value. pure (done value)) bytes (done a)
last-Reads done h = record { back = λ rest. rw (h.back rest, ◌>>=◌) refl }

pub le-Reads :
    (size value : ℕ) → value < 256 ^ size → Reads (read_le size) (write_le size value) value
le-Reads size value h = record { back = λ rest. read_le-write_le size value rest h }

pub bool-Reads : (b : Bool) → Reads read_bool (write_bool b) b
bool-Reads b = record { back = λ rest. read_bool-write_bool b rest }

pub bytes-Reads :
    (size : ℕ) (bytes : List ℕ) → length bytes ≡ size → Reads (read_bytes size) bytes bytes
bytes-Reads size bytes e = record { back = λ rest. rw (← e) (read_bytes-append bytes rest) }

module _ {A : Type 0} (read : Reader A) (write : A → List ℕ) where
  pub list-Reads :
      (l : List A)
      → All (λ a. Reads read (write a) a) l
      → Reads (read_list read (length l)) (write_list write l) l
  unfolding read_list write_list
  list-Reads [] h = record { back = λ rest. refl }
  list-Reads (a ∷ l) (ha, h) =
      then-Reads (λ first. read_list read (length l) >>= λ others. pure (first ∷ others)) ha
        (last-Reads (λ others. a ∷ others) (list-Reads l h))

  pub array-Reads :
      (size : ℕ) (l : List A)
      → length l ≡ size
      → All (λ a. Reads read (write a) a) l
      → Reads (read_list read size) (write_list write l) l
  array-Reads size l e h = record { back = λ rest. rw (← e) ((list-Reads l h).back rest) }

  pub option-Reads :
      (o : Option A)
      → ((a : A) → o ≡ some a → Reads read (write a) a)
      → Reads (read_option read) (write_option write o) o
  unfolding read_option write_option
  option-Reads none h = record { back = λ rest. rw (read_bool-write_bool false rest, ◌>>=◌) refl }
  option-Reads (some a) h =
      then-Reads (read_if read) (bool-Reads true) (last-Reads (λ value. some value) (h a refl))
