-- ===== src/Target/RegisterSet/Layout.antt =====
-- irida-core/core/target/src/register_set.cpp against the profile of gdb_backend.cpp.
use native.Mathlib.Numerals.{towards_suc}
use irida.Common.{
  List, Text, [], ap, arith, false, leb, length, lt→ltb, map, min, suc, ℕ, ◌*◌, ◌++◌, ◌+◌, ◌-◌, ◌^◌,
  ◌∷◌, ◌≡◌, ◌≤◌,
}
use irida.Base.{Bytes, ok}
use irida.Backend.{RegisterField}
use irida.Backend.Gdb as Gdb
use irida.Backend.Gdb.{lay_out, make_x86_64_gdb_profile}
use irida.Target.RegisterSet.{qword_regs, decode_le_from, decode_le, decode_qwords, decode, subspan}

-- The number that bytes stand for, lowest byte first.
abbrev pub little_endian : Bytes → ℕ
little_endian [] = 0
little_endian (b ∷ bytes) = b + 256 * little_endian bytes

next_byte : (i : ℕ) → 2 ^ (8 * suc i) ≡ 256 * 2 ^ (8 * i)
next_byte i = let e : 8 * suc i ≡ 8 * i + 8 = omega arith in rw e (simp towards_suc (omega arith))

decode_le_from-little_endian :
    (i value : ℕ) (bytes : Bytes)
    → decode_le_from i value bytes ≡ value + 2 ^ (8 * i) * little_endian bytes
unfolding decode_le_from
decode_le_from-little_endian i value [] = omega arith
decode_le_from-little_endian i value (b ∷ bytes) = omega (
  arith,
  decode_le_from-little_endian (suc i) (value + b * 2 ^ (8 * i)) bytes,
  ap (λ (t : ℕ). t * little_endian bytes) (next_byte i),
)

pub decode_le-little_endian : (bytes : Bytes) → decode_le bytes ≡ little_endian bytes
unfolding decode_le
decode_le-little_endian bytes = omega (arith, decode_le_from-little_endian 0 0 bytes)

-- What a profile says of a block: each field's name, and the number in its bytes.
abbrev pub read_field : Bytes → RegisterField → Text × ℕ
read_field block f = (f.name, little_endian (subspan block f.offset f.size))

module _ (block : Bytes) where
  decode_qwords-lay_out :
      (names : List Text) (offset : ℕ)
      → offset + 8 * length names + 4 ≤ length block
      → ((decode_qwords names block offset).1 ≡ offset + 8 * length names)
        × ((decode_qwords names block offset).0
              ++ ((Gdb.eflags_name, little_endian (subspan block (offset + 8 * length names) 4))
                  ∷ [])
            ≡ map (read_field block) (lay_out names offset).fields)
  unfolding decode_qwords lay_out
  decode_qwords-lay_out [] offset h =
      (omega arith, let e : offset + 0 ≡ offset = omega arith in rw e)
  decode_qwords-lay_out (name ∷ names) offset h =
      let (end, same) = decode_qwords-lay_out names (offset + 8) (omega arith) in
      let size : min 8 (length block - offset) ≡ 8 = omega arith in
      let inside : leb (length block) offset ≡ false = ground arith in
      rw (size, inside, end, decode_le-little_endian)
        (
          omega arith,
          let e : offset + 8 * suc (length names) ≡ offset + 8 + 8 * length names = omega arith in
              rw e (ap (λ t. (name, little_endian (subspan block offset 8)) ∷ t) same),
        )

-- Of a block as long as the gdb profile says, `decode` gives every field of that profile under its
-- name, in order: the two tables that are kept in sync by hand agree.
pub decode-make_x86_64_gdb_profile :
    (block : Bytes)
    → make_x86_64_gdb_profile.block_size ≤ length block
    → decode block ≡ ok (map (read_field block) make_x86_64_gdb_profile.fields)
unfolding decode make_x86_64_gdb_profile
decode-make_x86_64_gdb_profile block h =
    let (end, same) = decode_qwords-lay_out block qword_regs 0 (omega arith) in
    let size : min 4 (length block - 136) ≡ 4 = omega arith in
    rw (end, lt→ltb 136 (length block) (omega arith), size, decode_le-little_endian) (ap ok same)
