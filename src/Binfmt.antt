-- ===== src/Binfmt.antt =====
-- irida-core/core/binfmt/src/strings.cpp: printable strings in a buffer.
pub mod Binary
pub mod Lief
pub mod Runs
pub mod Complete
mod Tests
use irida.Common.{
  Bool, List, Text, [], drop, false, if◌then◌else◌, leb, length, suc, true, zero, ℕ, ◌%◌, ◌&&◌, ◌*◌,
  ◌++◌, ◌+◌, ◌==◌, ◌^◌, ◌∷◌,
}
use irida.Base.{Bytes}

pub record FoundString : Type 0 where
  pub addr : ℕ
  pub text : Text
  pub utf16 : Bool

-- The default of `min_len`.
abbrev pub default_min_len : ℕ
default_min_len = 4

abbrev pub is_printable : ℕ → Bool
is_printable c = leb 0x20 c && leb c 0x7E

-- The characters of the first loop's run.
unfoldable pub narrow_run : Bytes → Text
narrow_run [] = []
narrow_run (c ∷ data') = let more = narrow_run data' in if is_printable c then c ∷ more else []

-- The characters of the second loop's run: each is followed by a 0.
unfoldable pub wide_run : Bytes → Text
wide_run [] = []
wide_run (lo ∷ []) = []
wide_run (lo ∷ hi ∷ data') =
    let more = wide_run data' in if hi == 0 && is_printable lo then lo ∷ more else []

-- `out.push_back` if the run is long enough.
abbrev pub emit : ℕ → FoundString → List FoundString → List FoundString
emit min_len found out = if leb min_len (length found.text) then found ∷ out else out

-- The ASCII pass, from the position `i` on with the bytes that are left. A round takes a byte at
-- least, so as many rounds as bytes are enough.
unfoldable pub ascii_pass : ℕ → ℕ → ℕ → ℕ → Bytes → List FoundString
ascii_pass zero base_addr min_len i data' = []
ascii_pass (suc fuel) base_addr min_len i [] = []
ascii_pass (suc fuel) base_addr min_len i (c ∷ data') =
    let run = narrow_run (c ∷ data') in
    let out =
      ascii_pass fuel base_addr min_len (i + (length run + 1))
        (drop (length run + 1) (c ∷ data')) in
    emit min_len (record { addr = (base_addr + i) % 2 ^ 64; text = run; utf16 = false }) out

-- `(j > i) ? j : i + 1`, as the distance from `i`.
abbrev pub stride : Text → ℕ
stride [] = 1
stride (c ∷ run) = 2 * length (c ∷ run)

-- The UTF-16LE pass, in the same way.
unfoldable pub utf16_pass : ℕ → ℕ → ℕ → ℕ → Bytes → List FoundString
utf16_pass zero base_addr min_len i data' = []
utf16_pass (suc fuel) base_addr min_len i [] = []
utf16_pass (suc fuel) base_addr min_len i (c ∷ []) = []
utf16_pass (suc fuel) base_addr min_len i (lo ∷ hi ∷ data') =
    let run = wide_run (lo ∷ hi ∷ data') in
    let out =
      utf16_pass fuel base_addr min_len (i + stride run) (drop (stride run) (lo ∷ hi ∷ data')) in
    emit min_len (record { addr = (base_addr + i) % 2 ^ 64; text = run; utf16 = true }) out

unfoldable pub scan_strings : Bytes → ℕ → ℕ → List FoundString
scan_strings data' base_addr min_len =
    ascii_pass (length data') base_addr min_len 0 data'
    ++ utf16_pass (length data') base_addr min_len 0 data'
