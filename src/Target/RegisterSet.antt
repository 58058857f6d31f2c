-- ===== src/Target/RegisterSet.antt =====
-- irida-core/core/target/src/register_set.cpp: the registers decoded from a raw block.
pub mod Layout
use irida.Common.{
  List, Option, Text, [], codes, drop, if◌then◌else◌, leb, length, ltb, map, min, none, some, suc,
  take, text_eq, ℕ, ◌*◌, ◌++◌, ◌+◌, ◌-◌, ◌^◌, ◌∷◌,
}
use irida.Base.{Bytes, Result, ok}

abbrev pub qword_regs : List Text
qword_regs = map codes (
    "rax" ∷ "rbx" ∷ "rcx" ∷ "rdx" ∷ "rsi" ∷ "rdi" ∷ "rbp" ∷ "rsp" ∷ "r8" ∷ "r9" ∷ "r10" ∷ "r11"
    ∷ "r12" ∷ "r13" ∷ "r14" ∷ "r15" ∷ "rip" ∷ [])

abbrev pub eflags_name : Text
eflags_name = codes "eflags"

-- `value |= byte << (8 * i)`: the bytes do not overlap, so `|` is `+`. There are at most 8 of them.
unfoldable pub decode_le_from : ℕ → ℕ → Bytes → ℕ
decode_le_from i value [] = value
decode_le_from i value (b ∷ bytes) = decode_le_from (suc i) (value + b * 2 ^ (8 * i)) bytes

unfoldable pub decode_le : Bytes → ℕ
unfolding decode_le_from
decode_le bytes = decode_le_from 0 0 bytes

abbrev pub RegisterSet : Type 0
RegisterSet = List (Text × ℕ)

-- `subspan(offset, size)`
abbrev pub subspan : Bytes → ℕ → ℕ → Bytes
subspan block offset size = take size (drop offset block)

-- The loop over the names, with the registers that it adds and the offset where it ends.
unfoldable pub decode_qwords : List Text → Bytes → ℕ → RegisterSet × ℕ
decode_qwords [] block offset = ([], offset)
decode_qwords (name ∷ names) block offset =
    let size = min 8 (length block - offset) in
    let rest = decode_qwords names block (offset + size) in
    if leb (length block) offset
    then ([], offset)
    else ((name, decode_le (subspan block offset size)) ∷ rest.0, rest.1)

unfoldable pub decode : Bytes → Result RegisterSet
decode block =
    let (regs, offset) = decode_qwords qword_regs block 0 in
    ok (
      if ltb offset (length block)
      then regs
        ++ ((eflags_name, decode_le (subspan block offset (min 4 (length block - offset)))) ∷ [])
      else regs)

unfoldable pub get : RegisterSet → Text → Option ℕ
get [] name = none
get ((reg_name, value) ∷ regs) name = if text_eq reg_name name then some value else get regs name
