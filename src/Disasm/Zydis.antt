-- ===== src/Disasm/Zydis.antt =====
-- irida-core/core/disasm/src/zydis_disassembler.cpp: what the decoder and the formatter of Zydis
-- return, in the types of instruction.hpp. Zydis itself is a parameter.
pub mod Decoded
pub mod Tests
use irida.Common.{
  Bool, List, Option, Text, [], codes, false, if◌then◌else◌, map, none, pos, some, take, true, ℕ, ℤ,
  ◌*◌, ◌+◌, ◌==◌, ◌^◌, ◌∷◌,
}
use irida.Base.{Bytes, Result, ok, err}
use irida.Disasm.{
  Flow, Instruction, MemoryOperand, Operand, Disassembler, register, memory, immediate, pointer,
  unknown, sequential, jump, cond_jump, call, return,
}

-- `ZydisDecodedOperand`: the operand's type and the member of the union that goes with it. The
-- registers are Zydis's numbers for them; `is_relative` is read by Zydis only.
pub data ZydisOperand : Type 0 where
  register_operand : (value : ℕ) → ZydisOperand
  memory_operand :
      (base index scale : ℕ) (has_displacement : Bool) (displacement : ℤ) → ZydisOperand
  immediate_operand : (value : ℕ) (is_relative : Bool) → ZydisOperand
  pointer_operand : (segment offset : ℕ) → ZydisOperand
  unused_operand : ZydisOperand

-- `insn.meta.category`, as far as the source tells the categories apart.
pub data ZydisCategory : Type 0 where
  category_call category_ret category_uncond_br category_cond_br category_other : ZydisCategory

-- The calls of Zydis, with `Insn` for `ZydisDecodedInstruction`. `none` is a status that is not a
-- success, or a null pointer.
pub record Zydis (Insn : Type 0) : Type 0 where
  pub register_none : ℕ
  pub register_rip : ℕ
  pub register_get_string : ℕ → Option Text
  pub mnemonic_get_string : Insn → Option Text
  pub length : Insn → ℕ
  pub category : Insn → ZydisCategory
  pub operand_count_visible : Insn → ℕ
  pub decode_full : Bytes → Option (Insn × List ZydisOperand)
  pub format_instruction : Insn → List ZydisOperand → ℕ → Option Text
  pub calc_absolute_address : Insn → ZydisOperand → ℕ → Option ℕ

abbrev pub no_memory : MemoryOperand
no_memory = record { base = []; index = []; scale = 1; disp = pos 0; rip_relative = false }

-- `Operand out;`
abbrev pub blank : Operand
blank = record { kind = unknown; reg = []; mem = no_memory; imm = 0; text = [] }

abbrev pub text_or_empty : Option Text → Text
text_or_empty none = []
text_or_empty (some name) = name

abbrev pub target_or_zero : Option ℕ → ℕ
target_or_zero none = 0
target_or_zero (some target) = target

-- `Flow::Jump`, `Flow::CondJump` and `Flow::Call`.
abbrev pub transfers : Flow → Bool
transfers sequential = false
transfers jump = true
transfers cond_jump = true
transfers call = true
transfers return = false

abbrev pub is_immediate_operand : ZydisOperand → Bool
is_immediate_operand (register_operand value) = false
is_immediate_operand (memory_operand base index scale has_displacement displacement) = false
is_immediate_operand (immediate_operand value is_relative) = true
is_immediate_operand (pointer_operand segment offset) = false
is_immediate_operand unused_operand = false

abbrev pub flow_of : ZydisCategory → Flow
flow_of category_call = call
flow_of category_ret = return
flow_of category_uncond_br = jump
flow_of category_cond_br = cond_jump
flow_of category_other = sequential

module _ {Insn : Type 0} (Z : Zydis Insn) where
  abbrev pub register_name : ℕ → Text
  register_name reg = text_or_empty (Z.register_get_string reg)

  -- A segment has 16 bits and an offset 32, so the bits of the two do not meet.
  unfoldable pub map_operand : ZydisOperand → Operand
  map_operand (register_operand value) = record blank { kind = register; reg = register_name value }
  map_operand (memory_operand base index scale has_displacement displacement) = record blank {
    kind = memory;
    mem = record {
      base = if base == Z.register_none then [] else register_name base;
      index = if index == Z.register_none then [] else register_name index;
      scale = if index == Z.register_none then 1 else scale;
      disp = if has_displacement then displacement else pos 0;
      rip_relative = base == Z.register_rip;
    };
  }
  map_operand (immediate_operand value is_relative) = record blank { kind = immediate; imm = value }
  map_operand (pointer_operand segment offset) = record blank {
    kind = pointer;
    imm = segment * 2 ^ 32 + offset;
  }
  map_operand unused_operand = blank

  unfoldable pub classify_flow : Insn → Flow
  classify_flow insn = flow_of (Z.category insn)

  -- The loop that looks for the first immediate operand.
  unfoldable pub branch_target : Insn → ℕ → List ZydisOperand → ℕ
  branch_target insn address [] = 0
  branch_target insn address (op ∷ ops) =
      if is_immediate_operand op
      then target_or_zero (Z.calc_absolute_address insn op address)
      else branch_target insn address ops

  -- What `decode_one` makes of a decoded instruction and its visible operands.
  unfoldable pub instruction_of : Insn → List ZydisOperand → ℕ → Instruction
  instruction_of insn visible address =
      let flow : Flow = classify_flow insn in
      record {
        address = address;
        length = Z.length insn;
        mnemonic = text_or_empty (Z.mnemonic_get_string insn);
        text = text_or_empty (Z.format_instruction insn visible address);
        operands = map map_operand visible;
        flow = flow;
        branch_target = if transfers flow then branch_target insn address visible else 0;
      }

  unfoldable pub decode_one : Bytes → ℕ → Result Instruction
  decode_one bytes address = elim (Z.decode_full bytes) [
    | none ↦ err (codes "failed to decode instruction")
    | some (insn, operands) ↦
        ok (instruction_of insn (take (Z.operand_count_visible insn) operands) address)
  ]

  abbrev pub make_x86_64_disassembler : Disassembler
  make_x86_64_disassembler = record { decode_one = decode_one }
