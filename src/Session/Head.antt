-- ===== src/Session/Head.antt =====
-- The head of the host file is taken by a run that matches it.
use zircon_sim.Prelude.{
  ℕ, ◌^◌, ◌<◌, ◌≤◌, ◌≡◌, refl, ap, Bool, true, false, not, List, [], ◌∷◌, arith, length, ◌==◌,
  if◌then◌else◌,
}
use zircon_sim.Result.{Error, runtime_error}
use zircon_sim.Checkpoint.{◌>>=◌, ◌>>◌, Reader, throw_if, write_string, read_string}
use zircon_sim.Checkpoint.Laws.{read_string-write_string}
use zircon_sim.Options.{PlatformMode, baremetal, linux}
use zircon_sim.Session.Codec.{Reads, then-Reads, le-Reads, bool-Reads}
use zircon_sim.Session.Host.{Header, platform_value, same_bytes, save_header, restore_header}

-- What the types of the fields and the limit of the identity say of the head.
pub record IsHeader (h : Header) : Type 0 where
  pub build_identity : length h.build_identity ≤ 4096
  pub image : h.image_fingerprint < 256 ^ 8
  pub rtl : h.rtl_fingerprint < 256 ^ 8
  pub seed : h.seed < 256 ^ 8

pub check-Reads :
    {A : Type 0} {test : Bool} (e : Error) {k : Reader A} {bytes : List ℕ} {a : A}
    → test ≡ false
    → Reads k bytes a
    → Reads (throw_if test e >> k) bytes a
check-Reads e passed h = record { back = λ rest. rw passed (h.back rest) }

differs_lem : (value : ℕ) → not (value == value) ≡ false
differs_lem value = ground arith

same_bytes_lem : (l : List ℕ) → same_bytes l l ≡ true
same_bytes_lem [] = refl
same_bytes_lem (x ∷ l) = ground (arith, same_bytes_lem l)

same_mode : (b : Bool) → (if b then not b else b) ≡ false
same_mode true = refl
same_mode false = refl

platform-Reads : (p : PlatformMode) → platform_value p < 256 ^ 1
platform-Reads baremetal = omega arith
platform-Reads linux = omega arith

string-Reads :
    (value : List ℕ) → length value ≤ 4096 → Reads (read_string 4096) (write_string value) value
string-Reads value h = record {
  back = λ rest. read_string-write_string 4096 value rest (omega (arith, h)) h;
}

last_check-Reads :
    {A : Type 0} {read : Reader A} {bytes : List ℕ} {a : A} (test : A → Bool) (e : Error)
    → Reads read bytes a
    → test a ≡ false
    → Reads (read >>= λ value. throw_if (test value) e) bytes tt
last_check-Reads test e h passed = record { back = λ rest. rw (h.back rest, ◌>>=◌, passed) refl }

pub header-Reads : (h : Header) → IsHeader h → Reads (restore_header h) (save_header h) tt
unfolding restore_header save_header
header-Reads h fits = then-Reads _ (le-Reads 8 _ (omega arith)) (
    check-Reads (runtime_error "checkpoint host state has an invalid magic value") refl (
      then-Reads _ (le-Reads 4 _ (omega arith)) (
        check-Reads (runtime_error "checkpoint host state uses an unsupported version") refl (
          then-Reads _ (string-Reads h.build_identity fits.build_identity) (
            check-Reads _ (ap not (same_bytes_lem h.build_identity)) (
              then-Reads _ (le-Reads 8 h.image_fingerprint fits.image) (
                check-Reads _ (differs_lem h.image_fingerprint) (
                  then-Reads _ (le-Reads 8 h.rtl_fingerprint fits.rtl) (
                    check-Reads _ (differs_lem h.rtl_fingerprint) (
                      then-Reads _
                        (le-Reads 1 (platform_value h.platform) (platform-Reads h.platform))
                        (check-Reads _ (differs_lem (platform_value h.platform)) (
                          then-Reads _ (bool-Reads h.difftest) (
                            check-Reads _ (same_mode h.difftest) (
                              last_check-Reads _ _ (le-Reads 8 h.seed fits.seed)
                                (differs_lem h.seed)))))))))))))))
