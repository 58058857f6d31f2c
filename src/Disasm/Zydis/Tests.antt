-- ===== src/Disasm/Zydis/Tests.antt =====
-- The disassembler over a decoder of two instructions: a jump with a distance of one byte, and nop.
use irida.Common.{
  List, Option, [], arith, codes, if◌then◌else◌, length, none, refl, some, true, ℕ, ◌%◌, ◌+◌, ◌<◌,
  ◌==◌, ◌^◌, ◌↔◌, ◌∷◌, ◌≡◌, ◌≤◌,
}
use irida.Base.{Bytes}
use irida.Disasm.{Instruction}
use irida.Disasm.Zydis.{
  Zydis, ZydisOperand, register_operand, memory_operand, immediate_operand, pointer_operand,
  unused_operand, category_uncond_br, category_other, decode_one, instruction_of,
}
use irida.Disasm.Zydis.Decoded.{IsDirect, IsSound, decode_one-IsDirect}

-- The first byte and the length.
abbrev pub Insn : Type 0
Insn = ℕ × ℕ

abbrev decode_full : Bytes → Option (Insn × List ZydisOperand)
decode_full [] = none
decode_full (b ∷ []) = if b == 0x90 then some ((b, 1), []) else none
decode_full (b ∷ c ∷ bytes) =
    if b == 0xEB
    then some ((b, 2), immediate_operand c true ∷ register_operand 2 ∷ [])
    else if b == 0x90
    then some ((b, 1), [])
    else none

abbrev absolute : Insn → ZydisOperand → ℕ → Option ℕ
absolute (b, n) (register_operand value) address = none
absolute (b, n) (memory_operand base index scale has_displacement displacement) address = none
absolute (b, n) (immediate_operand value is_relative) address =
    if is_relative then some ((address + n + value) % 2 ^ 64) else some value
absolute (b, n) (pointer_operand segment offset) address = none
absolute (b, n) unused_operand address = none

abbrev pub two_forms : Zydis Insn
two_forms = record {
  register_none = 0;
  register_rip = 1;
  register_get_string = λ r. none;
  mnemonic_get_string = λ i. if i.0 == 0xEB then some (codes "jmp") else some (codes "nop");
  length = λ i. i.1;
  category = λ i. if i.0 == 0xEB then category_uncond_br else category_other;
  operand_count_visible = λ i. if i.0 == 0xEB then 1 else 0;
  decode_full = decode_full;
  format_instruction = λ i ops address. none;
  calc_absolute_address = absolute;
}

pub two_forms-IsSound : IsSound two_forms
two_forms-IsSound = record { decoded = by_bytes }
  where
    by_bytes :
        (bytes : Bytes) (insn : Insn) (ops : List ZydisOperand)
        → decode_full bytes ≡ some (insn, ops)
        → (0 < insn.1) × (insn.1 ≤ length bytes)
    by_bytes [] insn ops h = absurd (cc)
    by_bytes (b ∷ []) insn ops h = grind arith
    by_bytes (b ∷ c ∷ bytes) insn ops h = grind arith

abbrev jump_ahead : Instruction
jump_ahead = instruction_of two_forms (0xEB, 2) (immediate_operand 16 true ∷ []) 4096

decode_one-IsDirect_example :
    (jump_ahead.branch_target ≡ 4114)
    ↔ IsDirect two_forms (0xEB, 2) (immediate_operand 16 true ∷ []) 4096 4114
unfolding decode_one
decode_one-IsDirect_example =
    decode_one-IsDirect two_forms (0xEB ∷ 16 ∷ []) 4096 4114 (0xEB, 2)
      (immediate_operand 16 true ∷ register_operand 2 ∷ []) jump_ahead refl refl (omega arith)
