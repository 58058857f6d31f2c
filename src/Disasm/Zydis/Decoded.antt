-- ===== src/Disasm/Zydis/Decoded.antt =====
-- `ZydisDisassembler::decode_one`: the instruction it returns against what Zydis decoded.
use irida.Common.{
  All, Bool, Bool-cases, List, Option-cases, [], ap, arith, codes, false, inl, inr, length, refl,
  some, sym, take, true, ℕ, ◌++◌, ◌<◌, ◌↔◌, ◌∙◌, ◌∷◌, ◌≡◌, ◌≤◌, ◌⊎◌,
}
use irida.Base.{Bytes, ok, err}
use irida.Disasm.{Instruction}
use irida.Disasm.Linear.{Decodes}
use irida.Disasm.Zydis.{
  category_call, category_ret, category_uncond_br, category_cond_br, category_other, flow_of,
  register_operand, memory_operand, immediate_operand, pointer_operand, unused_operand,
  ZydisCategory, Zydis, ZydisOperand, transfers, is_immediate_operand, classify_flow, branch_target,
  instruction_of, decode_one, make_x86_64_disassembler, target_or_zero,
}

-- A call, a jump or a conditional jump, in the categories of Zydis.
abbrev pub IsTransfer : ZydisCategory → Type 0
IsTransfer c = (c ≡ category_call) ⊎ (c ≡ category_uncond_br) ⊎ (c ≡ category_cond_br)

abbrev pub IsImmediate : ZydisOperand → Type 0
IsImmediate op = (value : ℕ) × (is_relative : Bool) × (op ≡ immediate_operand value is_relative)

transfers-IsTransfer : (c : ZydisCategory) → transfers (flow_of c) ≡ true → IsTransfer c
transfers-IsTransfer category_call e = inl refl
transfers-IsTransfer category_ret e = absurd (cc)
transfers-IsTransfer category_uncond_br e = inr (inl refl)
transfers-IsTransfer category_cond_br e = inr (inr refl)
transfers-IsTransfer category_other e = absurd (cc)

IsTransfer-transfers : (c : ZydisCategory) → IsTransfer c → transfers (flow_of c) ≡ true
IsTransfer-transfers c (inl e) = rw e refl
IsTransfer-transfers c (inr (inl e)) = rw e refl
IsTransfer-transfers c (inr (inr e)) = rw e refl

immediate_IsImmediate : (op : ZydisOperand) → is_immediate_operand op ≡ true → IsImmediate op
immediate_IsImmediate (register_operand value) e = absurd (cc)
immediate_IsImmediate (memory_operand base index scale has displacement) e = absurd (cc)
immediate_IsImmediate (immediate_operand value is_relative) e = (value, is_relative, refl)
immediate_IsImmediate (pointer_operand segment offset) e = absurd (cc)
immediate_IsImmediate unused_operand e = absurd (cc)

IsImmediate-immediate : (op : ZydisOperand) → IsImmediate op → is_immediate_operand op ≡ true
IsImmediate-immediate op (value, is_relative, e) = rw e refl

not_IsImmediate : (op : ZydisOperand) → is_immediate_operand op ≡ false → ¬ IsImmediate op
not_IsImmediate op e i = absurd (cc (sym e ∙ IsImmediate-immediate op i))

not_immediate : (op : ZydisOperand) → ¬ IsImmediate op → is_immediate_operand op ≡ false
not_immediate op n = elim (Bool-cases (is_immediate_operand op)) [
  | inl e ↦ absurd (n (immediate_IsImmediate op e))
  | inr e ↦ e
]

-- The visible operands up to the first immediate one.
pub record FirstImmediate (ops : List ZydisOperand) (op : ZydisOperand) : Type 0 where
  pub before : List ZydisOperand
  pub after : List ZydisOperand
  pub stands : ops ≡ before ++ (op ∷ after)
  pub none_before : All (λ o. ¬ IsImmediate o) before
  pub is_immediate : IsImmediate op

module _ {Insn : Type 0} (Z : Zydis Insn) where
  -- A direct transfer: a call, a jump or a conditional jump, whose first immediate operand is the one given, and
  -- Zydis computes the target from it.
  pub record IsDirect (insn : Insn) (visible : List ZydisOperand) (address target : ℕ)
      : Type 0 where
    pub transfer : IsTransfer (Z.category insn)
    pub op : ZydisOperand
    pub first : FirstImmediate visible op
    pub computed : Z.calc_absolute_address insn op address ≡ some target

  -- What Zydis promises of a success: the instruction has a byte at least, and the bytes of it are there.
  pub record IsSound : Type 0 where
    pub decoded :
        (bytes : Bytes) (insn : Insn) (ops : List ZydisOperand)
        → Z.decode_full bytes ≡ some (insn, ops)
        → (0 < Z.length insn) × (Z.length insn ≤ length bytes)

  FirstImmediate-skip :
      (o op : ZydisOperand) (ops : List ZydisOperand)
      → is_immediate_operand o ≡ false
      → FirstImmediate ops op
      → FirstImmediate (o ∷ ops) op
  FirstImmediate-skip o op ops e f = record {
    before = o ∷ f.before;
    after = f.after;
    stands = ap (λ t. o ∷ t) f.stands;
    none_before = (not_IsImmediate o e, f.none_before);
    is_immediate = f.is_immediate;
  }

  FirstImmediate-head :
      (op : ZydisOperand) (ops : List ZydisOperand)
      → is_immediate_operand op ≡ true
      → FirstImmediate (op ∷ ops) op
  FirstImmediate-head op ops e = record {
    before = [];
    after = ops;
    stands = refl;
    none_before = tt;
    is_immediate = immediate_IsImmediate op e;
  }

  -- The target found is not 0 only if Zydis computed it from the first immediate operand.
  branch_target-first :
      (insn : Insn) (address target : ℕ) (ops : List ZydisOperand)
      → branch_target Z insn address ops ≡ target
      → 0 < target
      → (op : ZydisOperand) × FirstImmediate ops op
        × (Z.calc_absolute_address insn op address ≡ some target)
  unfolding branch_target
  branch_target-first insn address target [] e h = absurd (omega arith)
  branch_target-first insn address target (o ∷ ops) e h =
      elim (Bool-cases (is_immediate_operand o)) [
        | inr i ↦
            let (op, f, c) = branch_target-first insn address target ops (rw i at e) h in
            (op, FirstImmediate-skip o op ops i f, c)
        | inl i ↦ elim (Option-cases (Z.calc_absolute_address insn o address)) [
          | inl c ↦ absurd (omega (arith, rw (i, c) at e))
          | inr (t, c) ↦
              let same : t ≡ target = rw (i, c) at e in
              (o, FirstImmediate-head o ops i, rw (c, same) refl)
        ]
      ]

  IsDirect-target :
      (insn : Insn) (visible : List ZydisOperand) (address : ℕ)
      → 0 < (instruction_of Z insn visible address).branch_target
      → IsDirect insn visible address (instruction_of Z insn visible address).branch_target
  unfolding instruction_of classify_flow
  IsDirect-target insn visible address h = elim (Bool-cases (transfers (classify_flow Z insn))) [
    | inr e ↦ absurd (omega (arith, rw e at h))
    | inl e ↦
        let (op, f, c) = branch_target-first insn address _ visible refl (rw e at h) in
        rw e (record {
          transfer = transfers-IsTransfer (Z.category insn) e;
          op = op;
          first = f;
          computed = c;
        })
  ]

  branch_target-found :
      (insn : Insn) (address : ℕ) (op : ZydisOperand) (before after : List ZydisOperand)
      → All (λ o. ¬ IsImmediate o) before
      → IsImmediate op
      → branch_target Z insn address (before ++ (op ∷ after))
        ≡ target_or_zero (Z.calc_absolute_address insn op address)
  unfolding branch_target
  branch_target-found insn address op [] after n i = rw (IsImmediate-immediate op i) refl
  branch_target-found insn address op (o ∷ before) after (e, n) i =
      rw (not_immediate o e) (branch_target-found insn address op before after n i)

  target-IsDirect :
      (insn : Insn) (visible : List ZydisOperand) (address target : ℕ)
      → IsDirect insn visible address target
      → (instruction_of Z insn visible address).branch_target ≡ target
  unfolding instruction_of classify_flow
  target-IsDirect insn visible address target d =
      let f = d.first in
      rw
        (
          IsTransfer-transfers (Z.category insn) d.transfer,
          f.stands,
          branch_target-found insn address d.op f.before f.after f.none_before f.is_immediate,
          d.computed,
        )
        refl

  -- The instruction that `decode_one` returns has a target other than 0 exactly if it is a direct
  -- transfer: Zydis decoded a jump, a conditional jump or a call, and computed that target from the
  -- first of its visible operands that is an immediate one.
  pub decode_one-IsDirect :
      (bytes : Bytes) (address target : ℕ) (insn : Insn) (ops : List ZydisOperand)
      (out : Instruction)
      → Z.decode_full bytes ≡ some (insn, ops)
      → decode_one Z bytes address ≡ ok out
      → 0 < target
      → (out.branch_target ≡ target)
        ↔ IsDirect insn (take (Z.operand_count_visible insn) ops) address target
  unfolding decode_one
  decode_one-IsDirect bytes address target insn ops out d e h =
      let visible = take (Z.operand_count_visible insn) ops in
      let e' : ok (instruction_of Z insn visible address) ≡ ok out = rw (d, decode_one) at e in
      let same : instruction_of Z insn visible address ≡ out = cc in
      rw (sym same) (
        (λ t. rw t at (IsDirect-target insn visible address (rw (sym t) at h))),
        target-IsDirect insn visible address target,
      )

  -- If Zydis is sound, an instruction is at the address it was asked for, takes a byte at least, and is
  -- no longer than the bytes given.
  pub decode_one-located :
      IsSound
      → (bytes : Bytes) (address : ℕ) (out : Instruction) → decode_one Z bytes address ≡ ok out
      → (out.address ≡ address) × (0 < out.length) × (out.length ≤ length bytes)
  unfolding decode_one instruction_of
  decode_one-located sound bytes address out e = elim (Option-cases (Z.decode_full bytes)) [
    | inl n ↦
        let e' : err (codes "failed to decode instruction") ≡ ok out = rw (n, decode_one) at e in
        absurd (cc)
    | inr ((insn, ops), d) ↦
        let visible = take (Z.operand_count_visible insn) ops in
        let e' : ok (instruction_of Z insn visible address) ≡ ok out = rw (d, decode_one) at e in
        let same : instruction_of Z insn visible address ≡ out = cc in
        let (some_bytes, fits) = sound.decoded bytes insn ops d in
        rw (sym same) (refl, some_bytes, fits)
  ]

  -- A sound Zydis decodes as the linear decoder asks of its step.
  pub make_x86_64_disassembler-Decodes : IsSound → Decodes (make_x86_64_disassembler Z)
  make_x86_64_disassembler-Decodes sound = record {
    located = λ bytes address out e.
        let (at, some_bytes, fits) = decode_one-located sound bytes address out e in (at, fits);
  }
