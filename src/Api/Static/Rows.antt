-- ===== src/Api/Static/Rows.antt =====
-- `static_disasm` of irida-api/src/capi_static.cpp: the bytes that a row shows.
use irida.Common.{
  All-map, Option, Text, ap, arith, drop, leb, length, lookup, map, map_congr, none, refl, some,
  sym, take, true, ℕ, ◌%◌, ◌+◌, ◌-◌, ◌<◌, ◌^◌, ◌∙◌, ◌≡◌, ◌≤◌,
}
use irida.Common as Common
use irida.Disasm.{Instruction, Disassembler, decode_linear}
use irida.Disasm.Linear.{Decodes, Within, decode_from-Within}
use irida.Api.{InsnRow}
use irida.Api.Views.Targets.{referred, operand_target-referred}
use irida.Api.Views.{room_for, insn_row, format_bytes}
use irida.Api.Static.{resolve_symbol, StaticCtx, read_at, annotation_of, disasm_rows}
use irida.Api.Static.Reads.{IsLayout, read_at-drop, read_at-take, read_at-bounds}

-- The symbol at the address that an instruction's operands name.
abbrev pub named : StaticCtx → Instruction → Option Text
named c insn = elim (referred insn) [ none ↦ none | some addr ↦ lookup addr c.symbol_map ]

abbrev row_with : StaticCtx → Instruction → Option Text → InsnRow
row_with c insn annotation = record {
  address = insn.address;
  text = insn.text;
  annotation = annotation;
  bytes = format_bytes (read_at insn.address insn.length c);
}

-- The row of an instruction, with its bytes read at its own address.
abbrev pub row_of : StaticCtx → Instruction → InsnRow
row_of c insn = row_with c insn (named c insn)

annotation_of-named : (c : StaticCtx) (insn : Instruction) → annotation_of c insn ≡ named c insn
unfolding resolve_symbol
annotation_of-named c insn =
    ap (λ o. elim o [ none ↦ none | some addr ↦ lookup addr c.symbol_map ])
      (operand_target-referred insn)

-- The bytes of a read between two positions are what a read from the first gives.
read_at-between :
    (vaddr k n m : ℕ) (c : StaticCtx)
    → IsLayout c.bin.sections
    → k < length (read_at vaddr m c)
    → k + n ≤ m
    → take n (drop k (read_at vaddr m c)) ≡ read_at (vaddr + k) n c
read_at-between vaddr k n m c layout room h =
    let all : k + (m - k) ≡ m = omega arith in
    let tail = read_at-drop vaddr k (m - k) c layout (rw all room) in
    rw (sym (rw all at tail)) (read_at-take (vaddr + k) n (m - k) c layout (omega arith))

insn_row-row_with :
    (addr m : ℕ) (c : StaticCtx) (insn : Instruction)
    → IsLayout c.bin.sections
    → addr < 2 ^ 64
    → Within (read_at addr m c) addr insn
    → insn_row (annotation_of c insn) addr (read_at addr m c) insn
      ≡ row_with c insn (annotation_of c insn)
unfolding insn_row
insn_row-row_with addr m c insn layout h w =
    let (below, few) = read_at-bounds addr w.offset m c layout w.starts in
    let same : insn.address ≡ addr + w.offset = omega (arith, w.located) in
    let back : (addr + w.offset + (2 ^ 64 - addr)) % 2 ^ 64 ≡ w.offset = omega arith in
    let fits : leb (w.offset + insn.length) (Common.length (read_at addr m c)) ≡ true =
      ground (arith, w.ends) in
    let between =
      read_at-between addr w.offset insn.length m c layout w.starts (omega (arith, w.ends)) in
    rw (same, back, fits, between) refl

insn_row-row_of :
    (addr m : ℕ) (c : StaticCtx) (insn : Instruction)
    → IsLayout c.bin.sections
    → addr < 2 ^ 64
    → Within (read_at addr m c) addr insn
    → insn_row (annotation_of c insn) addr (read_at addr m c) insn ≡ row_of c insn
insn_row-row_of addr m c insn layout h w =
    insn_row-row_with addr m c insn layout h w ∙ ap (row_with c insn) (annotation_of-named c insn)

-- If the sections lie apart, below 2 ^ 64 and with no more file data than memory, and the decoder
-- stays in the bytes it is given, then the rows are the instructions decoded from what is read at the
-- address, each with the bytes that a read at its own address gives, and with the symbol, if there is one, at
-- the address that its operands name: the first immediate or pointer value other than 0, as it stands
-- in the operand, or else the address of the first memory operand relative to the next instruction.
pub disasm_rows-row_of :
    (D : Disassembler) (addr count : ℕ) (c : StaticCtx)
    → Decodes D
    → IsLayout c.bin.sections
    → addr < 2 ^ 64
    → disasm_rows D addr count c
      ≡ map (row_of c) (decode_linear D (read_at addr (room_for count) c) addr count)
unfolding disasm_rows decode_linear
disasm_rows-row_of D addr count c sound layout h = map_congr _ (row_of c) _ (
    All-map _ _ _ (λ insn w. insn_row-row_of addr (room_for count) c insn layout h w)
      (decode_from-Within D sound (read_at addr (room_for count) c) addr 0 count))
