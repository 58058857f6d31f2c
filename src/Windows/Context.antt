-- ===== src/Windows/Context.antt =====
-- The register block and the debug registers of irida-core/libs/host/src/native_debuggee.cpp.
pub mod RoundTrip
pub mod Slots
use irida.Common.{
  List, [], drop, if◌then◌else◌, replicate, take, ℕ, ◌%◌, ◌*◌, ◌++◌, ◌+◌, ◌-◌, ◌/◌, ◌==◌, ◌^◌, ◌∷◌,
}
use irida.Base.{Bytes}
use irida.Target.RegisterSet.{decode_le}
use irida.Backend.Native.{le_bytes}
use irida.Windows.{ThreadContext}

abbrev pub num_slots : ℕ
num_slots = 32

abbrev pub reg_block_size : ℕ
reg_block_size = num_slots * 8

-- `memcpy` of the number over the slot's bytes.
unfoldable pub put_slot : Bytes → ℕ → ℕ → Bytes
put_slot block slot_index v =
    take (slot_index * 8) block ++ (le_bytes 8 v ++ drop (slot_index * 8 + 8) block)

unfoldable pub get_slot : Bytes → ℕ → ℕ
get_slot block slot_index = decode_le (take 8 (drop (slot_index * 8) block))

-- The slots in their order; the last two are reserved.
abbrev pub slot_values : ThreadContext → List ℕ
slot_values ctx =
    ctx.rax ∷ ctx.rbx ∷ ctx.rcx ∷ ctx.rdx ∷ ctx.rsi ∷ ctx.rdi ∷ ctx.rbp ∷ ctx.rsp ∷ ctx.r8 ∷ ctx.r9
    ∷ ctx.r10 ∷ ctx.r11 ∷ ctx.r12 ∷ ctx.r13 ∷ ctx.r14 ∷ ctx.r15 ∷ ctx.rip ∷ ctx.eflags ∷ ctx.seg_cs
    ∷ ctx.seg_ss ∷ ctx.seg_ds ∷ ctx.seg_es ∷ ctx.seg_fs ∷ ctx.seg_gs ∷ ctx.dr0 ∷ ctx.dr1 ∷ ctx.dr2
    ∷ ctx.dr3 ∷ ctx.dr6 ∷ ctx.dr7 ∷ 0 ∷ 0 ∷ []

-- The calls of `put_slot`, one slot behind the other.
unfoldable pub put_slots : Bytes → ℕ → List ℕ → Bytes
put_slots block i [] = block
put_slots block i (v ∷ vs) = put_slots (put_slot block i v) (i + 1) vs

unfoldable pub context_to_block : ThreadContext → Bytes
context_to_block ctx = put_slots (replicate reg_block_size 0) 0 (slot_values ctx)

-- `eflags` is a DWORD, and a segment register a WORD.
unfoldable pub block_to_context : Bytes → ThreadContext → ThreadContext
block_to_context block ctx = record ctx {
  rax = get_slot block 0;
  rbx = get_slot block 1;
  rcx = get_slot block 2;
  rdx = get_slot block 3;
  rsi = get_slot block 4;
  rdi = get_slot block 5;
  rbp = get_slot block 6;
  rsp = get_slot block 7;
  r8 = get_slot block 8;
  r9 = get_slot block 9;
  r10 = get_slot block 10;
  r11 = get_slot block 11;
  r12 = get_slot block 12;
  r13 = get_slot block 13;
  r14 = get_slot block 14;
  r15 = get_slot block 15;
  rip = get_slot block 16;
  eflags = get_slot block 17 % 2 ^ 32;
  seg_cs = get_slot block 18 % 2 ^ 16;
  seg_ss = get_slot block 19 % 2 ^ 16;
  seg_ds = get_slot block 20 % 2 ^ 16;
  seg_es = get_slot block 21 % 2 ^ 16;
  seg_fs = get_slot block 22 % 2 ^ 16;
  seg_gs = get_slot block 23 % 2 ^ 16;
  dr0 = get_slot block 24;
  dr1 = get_slot block 25;
  dr2 = get_slot block 26;
  dr3 = get_slot block 27;
  dr6 = get_slot block 28;
  dr7 = get_slot block 29;
}

-- The field of `width` bits at `shift`, cleared: `v & ~(mask << shift)`.
unfoldable pub clear_bits : ℕ → ℕ → ℕ → ℕ
clear_bits shift width v = v - v / 2 ^ shift % 2 ^ width * 2 ^ shift

-- `v | (1 << bit)`
unfoldable pub set_bit : ℕ → ℕ → ℕ
set_bit bit v = if v / 2 ^ bit % 2 == 0 then v + 2 ^ bit else v

-- The local enable bit of a slot, and its condition and length.
unfoldable pub enable_slot : ℕ → ℕ → ℕ
enable_slot slot dr7 = set_bit (2 * slot) (clear_bits (16 + 4 * slot) 4 dr7)

unfoldable pub disable_slot : ℕ → ℕ → ℕ
disable_slot slot dr7 = clear_bits (2 * slot) 1 dr7

-- The switch over the slot.
unfoldable pub set_address : ℕ → ℕ → ThreadContext → ThreadContext
set_address slot addr ctx =
    if slot == 0
    then record ctx { dr0 = addr }
    else if slot == 1
    then record ctx { dr1 = addr }
    else if slot == 2
    then record ctx { dr2 = addr }
    else if slot == 3
    then record ctx { dr3 = addr }
    else ctx
