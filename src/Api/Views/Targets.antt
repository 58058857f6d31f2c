-- ===== src/Api/Views/Targets.antt =====
-- `operand_target` of irida-api/src/capi_target.cpp and irida-api/src/capi_static.cpp against what an
-- instruction's operands name.
use irida.Common.{
  Bool, List, Option, [], ap, arith, false, if◌then◌else◌, none, not, refl, some, suc, true, zero,
  ℕ, ◌&&◌, ◌+◌, ◌==◌, ◌∙◌, ◌∷◌, ◌≡◌,
}
use irida.Disasm.{Instruction, Operand, OperandKind, register, memory, immediate, pointer, unknown}
use irida.Api.Views.{
  add_signed, immediate_target, relative_target, operand_target, is_immediate, is_memory,
}

-- The first of a list's elements for which there is an answer.
abbrev pub first_of : {A : Type 0} → (A → Option ℕ) → List A → Option ℕ
first_of f [] = none
first_of f (x ∷ xs) = elim (f x) [ some a ↦ some a | none ↦ first_of f xs ]

-- The value of an immediate or pointer operand, unless it is 0.
abbrev pub value_at : OperandKind → ℕ → Option ℕ
value_at immediate zero = none
value_at immediate (suc n) = some (suc n)
value_at pointer zero = none
value_at pointer (suc n) = some (suc n)
value_at register imm = none
value_at memory imm = none
value_at unknown imm = none

-- The address of a memory operand that is relative to the next instruction.
abbrev pub relative_at : OperandKind → Bool → ℕ → Option ℕ
relative_at memory true addr = some addr
relative_at memory false addr = none
relative_at immediate relative addr = none
relative_at pointer relative addr = none
relative_at register relative addr = none
relative_at unknown relative addr = none

-- What an instruction's operands name: a value, or else a relative address.
abbrev pub referred : Instruction → Option ℕ
referred insn = elim (first_of (λ op. value_at op.kind op.imm) insn.operands) [
  | some a ↦ some a
  | none ↦
      first_of
        (λ op.
          relative_at op.kind op.mem.rip_relative
            (add_signed (insn.address + insn.length) op.mem.disp))
        insn.operands
]

abbrev or_else : Option ℕ → Option ℕ → Option ℕ
or_else o rest = elim o [ some a ↦ some a | none ↦ rest ]

one_value :
    (kind : OperandKind) (imm : ℕ) (rest : Option ℕ)
    → (if is_immediate kind && not (imm == 0) then some imm else rest)
      ≡ or_else (value_at kind imm) rest
one_value immediate zero rest = refl
one_value immediate (suc n) rest = let e : (suc n == 0) ≡ false = ground arith in rw e refl
one_value pointer zero rest = refl
one_value pointer (suc n) rest = let e : (suc n == 0) ≡ false = ground arith in rw e refl
one_value register imm rest = refl
one_value memory imm rest = refl
one_value unknown imm rest = refl

one_relative :
    (kind : OperandKind) (relative : Bool) (addr : ℕ) (rest : Option ℕ)
    → (if is_memory kind && relative then some addr else rest)
      ≡ or_else (relative_at kind relative addr) rest
one_relative memory true addr rest = refl
one_relative memory false addr rest = refl
one_relative immediate relative addr rest = refl
one_relative pointer relative addr rest = refl
one_relative register relative addr rest = refl
one_relative unknown relative addr rest = refl

immediate_target-first_of :
    (ops : List Operand) → immediate_target ops ≡ first_of (λ op. value_at op.kind op.imm) ops
unfolding immediate_target
immediate_target-first_of [] = refl
immediate_target-first_of (op ∷ ops) =
    rw (immediate_target-first_of ops) (one_value op.kind op.imm _)

relative_target-first_of :
    (insn : Instruction) (ops : List Operand)
    → relative_target insn ops
      ≡ first_of
          (λ op.
            relative_at op.kind op.mem.rip_relative
              (add_signed (insn.address + insn.length) op.mem.disp))
          ops
unfolding relative_target
relative_target-first_of insn [] = refl
relative_target-first_of insn (op ∷ ops) =
    rw (relative_target-first_of insn ops) (one_relative op.kind op.mem.rip_relative _ _)

pub operand_target-referred : (insn : Instruction) → operand_target insn ≡ referred insn
unfolding operand_target
operand_target-referred insn =
    ap (λ o. or_else o (relative_target insn insn.operands))
      (immediate_target-first_of insn.operands)
    ∙ ap (or_else (first_of (λ op. value_at op.kind op.imm) insn.operands))
        (relative_target-first_of insn insn.operands)
