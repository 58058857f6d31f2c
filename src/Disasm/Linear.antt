-- ===== src/Disasm/Linear.antt =====
-- `decode_linear` of irida-core/core/disasm/src/zydis_disassembler.cpp over a sound decoding step.
use irida.Common.{
  All, Bool-cases, List, [], arith, drop, inl, inr, length, length-drop, ltb, ltb→lt, suc, zero, ℕ,
  ◌%◌, ◌+◌, ◌-◌, ◌<◌, ◌^◌, ◌∷◌, ◌≡◌, ◌≤◌,
}
use irida.Base.{Bytes, ok, Result-cases}
use irida.Disasm.{Instruction, Disassembler, decode_from, decode_linear}

-- The instructions lie one behind the other, from an address on (modulo 2 ^ 64).
abbrev pub Chained : ℕ → List Instruction → Type 0
Chained address [] = Unit {0}
Chained address (insn ∷ insns) =
    (insn.address ≡ address % 2 ^ 64) × Chained (address + insn.length) insns

-- The bytes that instructions take.
abbrev pub total : List Instruction → ℕ
total [] = 0
total (insn ∷ insns) = insn.length + total insns

-- A decoded instruction is at the address it was asked for, and no longer than the bytes given.
pub record Decodes (D : Disassembler) : Type 0 where
  pub located :
      (bytes : Bytes) (address : ℕ) (insn : Instruction)
      → D.decode_one bytes address ≡ ok insn
      → (insn.address ≡ address) × (insn.length ≤ length bytes)

-- An instruction that was decoded from the bytes at an offset, and lies inside them.
pub record Within (bytes : Bytes) (address : ℕ) (insn : Instruction) : Type 0 where
  pub offset : ℕ
  pub located : insn.address ≡ (address + offset) % 2 ^ 64
  pub starts : offset < length bytes
  pub ends : offset + insn.length ≤ length bytes

module _ (D : Disassembler) (sound : Decodes D) where
  record IsRun (room address max : ℕ) (insns : List Instruction) : Type 0 where
    chained : Chained address insns
    few : length insns ≤ max
    inside : total insns ≤ room

  nothing : (room address max : ℕ) → IsRun room address max []
  nothing room address max = record { chained = tt; few = omega arith; inside = omega arith }

  one_more :
      (room address offset max : ℕ) (insn : Instruction) (insns : List Instruction)
      → insn.address ≡ (address + offset) % 2 ^ 64
      → insn.length ≤ room
      → IsRun (room - insn.length) (address + (offset + insn.length)) max insns
      → IsRun room (address + offset) (suc max) (insn ∷ insns)
  one_more room address offset max insn insns at fits more =
      let e : address + (offset + insn.length) ≡ address + offset + insn.length = omega arith in
      record {
        chained = (at, rw e at more.chained);
        few = omega (arith, more.few);
        inside = omega (arith, more.inside);
      }

  decode_from-IsRun :
      (bytes : Bytes) (address offset max : ℕ)
      → IsRun
          (length bytes - offset)
          (address + offset)
          max
          (decode_from D bytes address offset max)
  unfolding decode_from
  decode_from-IsRun bytes address offset zero = nothing _ _ _
  decode_from-IsRun bytes address offset (suc max) = elim (Bool-cases (ltb offset (length bytes))) [
    | inr e ↦ rw (e, decode_from) (nothing _ _ _)
    | inl e ↦ elim (Result-cases (D.decode_one (drop offset bytes) ((address + offset) % 2 ^ 64))) [
      | inr (msg, d) ↦ rw (e, d, decode_from) (nothing _ _ _)
      | inl (insn, d) ↦
          let (at, fits) = sound.located (drop offset bytes) ((address + offset) % 2 ^ 64) insn d in
          let more = decode_from-IsRun bytes address (offset + insn.length) max in
          let left : length bytes - (offset + insn.length) ≡ length bytes - offset - insn.length =
            omega arith in
          rw (e, d, decode_from)
            (one_more (length bytes - offset) address offset max insn _ at
              (rw (length-drop) at fits) (rw left at more))
    ]
  ]

  -- If every decoded instruction is where it was asked for and inside the bytes that were given,
  -- `decode_linear` returns at most `max` instructions, each starting where the one before it ends,
  -- and together no longer than the bytes.
  pub decode_linear-Chained :
      (bytes : Bytes) (address max : ℕ)
      → Chained address (decode_linear D bytes address max)
        × (length (decode_linear D bytes address max) ≤ max)
        × (total (decode_linear D bytes address max) ≤ length bytes)
  unfolding decode_linear
  decode_linear-Chained bytes address max =
      let r = decode_from-IsRun bytes address 0 max in
      let e : address + 0 ≡ address = omega arith in
      (rw e at r.chained, r.few, omega (arith, r.inside))

  pub decode_from-Within :
      (bytes : Bytes) (address offset max : ℕ)
      → All (Within bytes address) (decode_from D bytes address offset max)
  unfolding decode_from
  decode_from-Within bytes address offset zero = tt
  decode_from-Within bytes address offset (suc max) =
      elim (Bool-cases (ltb offset (length bytes))) [
        | inr e ↦ rw (e, decode_from) tt
        | inl e ↦
            elim (Result-cases (D.decode_one (drop offset bytes) ((address + offset) % 2 ^ 64))) [
              | inr (msg, d) ↦ rw (e, d, decode_from) tt
              | inl (insn, d) ↦
                  let (at, fits) =
                    sound.located (drop offset bytes) ((address + offset) % 2 ^ 64) insn d in
                  let more = decode_from-Within bytes address (offset + insn.length) max in
                  let room = ltb→lt _ _ e in
                  let inside : insn.length ≤ length bytes - offset = rw (length-drop) at fits in
                  rw (e, d, decode_from)
                    (
                      record { offset = offset; located = at; starts = room; ends = omega arith },
                      more,
                    )
            ]
      ]
