-- ===== src/Disasm.antt =====
-- irida-core/core/disasm: the instruction types of instruction.hpp, the interface of
-- disassembler.hpp, and the linear decoder of zydis_disassembler.cpp over one decoding step.
pub mod Linear
pub mod Tests
pub mod Zydis
use irida.Common.{Bool, List, Text, [], drop, false, ltb, suc, true, zero, ℕ, ℤ, ◌%◌, ◌+◌, ◌^◌, ◌∷◌}
use irida.Common as Common
use irida.Base.{Bytes, Result, ok, err}

pub data OperandKind : Type 0 where
  register memory immediate pointer unknown : OperandKind

pub data Flow : Type 0 where
  sequential jump cond_jump call return : Flow

-- `[base + index*scale + disp]`; an empty name stands for no register.
pub record MemoryOperand : Type 0 where
  pub base : Text
  pub index : Text
  pub scale : ℕ
  pub disp : ℤ
  pub rip_relative : Bool

pub record Operand : Type 0 where
  pub kind : OperandKind
  pub reg : Text
  pub mem : MemoryOperand
  pub imm : ℕ
  pub text : Text

pub record Instruction : Type 0 where
  pub address : ℕ
  pub length : ℕ
  pub mnemonic : Text
  pub text : Text
  pub operands : List Operand
  pub flow : Flow
  pub branch_target : ℕ

-- `Disassembler::decode_one`, which Zydis implements: it is a parameter of what is built on it.
pub record Disassembler : Type 0 where
  pub decode_one : Bytes → ℕ → Result Instruction

module _ (D : Disassembler) where
  -- The loop of `decode_linear`. Each round adds an instruction, so the recursion is on how many more
  -- are wanted.
  unfoldable pub decode_from : Bytes → ℕ → ℕ → ℕ → List Instruction
  decode_from bytes address offset zero = []
  decode_from bytes address offset (suc max) = elim (ltb offset (Common.length bytes)) [
    | false ↦ []
    | true ↦ elim (D.decode_one (drop offset bytes) ((address + offset) % 2 ^ 64)) [
      | err e ↦ []
      | ok insn ↦ insn ∷ decode_from bytes address (offset + insn.length) max
    ]
  ]

  unfoldable pub decode_linear : Bytes → ℕ → ℕ → List Instruction
  decode_linear bytes address max = decode_from bytes address 0 max
