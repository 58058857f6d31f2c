-- ===== src/Analysis/Builder/Ends.antt =====
-- `trace_block` of irida-core/core/analysis/src/analysis.cpp ends on an image of bounded size.
use irida.Common.{
  Bool-cases, Option, [], arith, inl, inr, length, length-append, not, refl, some, suc, zero, ℕ,
  ◌%◌, ◌&&◌, ◌*◌, ◌++◌, ◌+◌, ◌-◌, ◌<◌, ◌==◌, ◌^◌, ◌∙◌, ◌∷◌, ◌≡◌, ◌≤◌,
}
use irida.Base.{Bytes, ok, Result-cases}
use irida.Disasm.{Instruction, Disassembler, Flow}
use irida.Analysis.{BasicBlock, ByteReader, read_window}
use irida.Analysis.Builder.{
  contains, Trace, Traced, ended, goes_on, on_flow, on_instruction, on_bytes, trace_round,
  trace_from, trace_block,
}

-- How many instructions and call targets were collected.
abbrev pub collected : BasicBlock → Trace → ℕ
collected bb t = length bb.instr_addrs + length t.callees

-- What tracing one instruction leaves of the block that has the instruction in it.
abbrev SameBlock : BasicBlock → Trace → ℕ → Traced → Type 0
SameBlock bb t next (ended bb' t') = (bb'.addr ≡ bb.addr) × (collected bb' t' ≤ collected bb t + 1)
SameBlock bb t next (goes_on bb' t' next') =
    (bb'.addr ≡ bb.addr) × (collected bb' t' ≤ collected bb t + 1) × (next' ≡ next)

on_flow-SameBlock :
    (flow : Flow) (insn : Instruction) (next : ℕ) (bb : BasicBlock) (t : Trace)
    → SameBlock bb t next (on_flow flow insn next bb t)
unfolding on_flow
on_flow-SameBlock Flow.jump insn next bb t = elim (Bool-cases (insn.branch_target == 0)) [
  | inl e ↦ rw (e, on_flow) (refl, omega arith)
  | inr e ↦ rw (e, on_flow) (refl, omega arith)
]
on_flow-SameBlock Flow.cond_jump insn next bb t = elim (Bool-cases (insn.branch_target == 0)) [
  | inl e ↦ rw (e, on_flow) (refl, omega arith)
  | inr e ↦ rw (e, on_flow) (refl, omega arith)
]
on_flow-SameBlock Flow.call insn next bb t = elim (Bool-cases (insn.branch_target == 0)) [
  | inl e ↦ rw (e, on_flow) (refl, omega arith, refl)
  | inr e ↦
      rw (e, on_flow) (refl, omega (arith, length-append t.callees (insn.branch_target ∷ [])), refl)
]
on_flow-SameBlock Flow.return insn next bb t = (refl, omega arith)
on_flow-SameBlock Flow.sequential insn next bb t = (refl, omega arith, refl)

-- How a round ends.
data Ending (w : Traced) : Type 0 where
  stops : (bb : BasicBlock) (t : Trace) → w ≡ ended bb t → Ending w
  continues : (bb : BasicBlock) (t : Trace) (next : ℕ) → w ≡ goes_on bb t next → Ending w

Traced-Ending : (w : Traced) → Ending w
Traced-Ending (ended bb t) = stops bb t refl
Traced-Ending (goes_on bb t next) = continues bb t next refl

module _ (D : Disassembler) {S : Type 0} (reader : ByteReader S) (limit : ℕ) where
  -- Nothing is read at the limit or behind it, and a decoded instruction is where it was asked for,
  -- takes a byte at least, and no more than the bytes given.
  pub record IsBounded : Type 0 where
    pub small : limit < 2 ^ 64
    pub inside : (pc : ℕ) (s : S) → length (reader pc read_window s).0 ≤ limit - pc
    pub decoded :
        (bytes : Bytes) (pc : ℕ) (insn : Instruction)
        → D.decode_one bytes pc ≡ ok insn
        → (insn.address ≡ pc) × (0 < insn.length) × (insn.length ≤ length bytes)

  -- A round adds an instruction and a call target at most, and goes on behind it.
  abbrev Advances : ℕ → BasicBlock → Trace → Traced → Type 0
  Advances pc bb t (ended bb' t') =
      (bb'.addr ≡ bb.addr) × (collected bb' t' ≤ collected bb t + 2 * (limit - pc))
  Advances pc bb t (goes_on bb' t' next) =
      (bb'.addr ≡ bb.addr) × (collected bb' t' ≤ collected bb t + 2) × (pc < next) × (next ≤ limit)

  -- The block that tracing returns, if it does: at the address it began with, and with no more
  -- instructions and call targets collected than there is room up to the limit.
  pub record Returns (addr room : ℕ) (o : Option (BasicBlock × Trace × S)) : Type 0 where
    pub result : BasicBlock × Trace × S
    pub returned : o ≡ some result
    pub same : result.0.addr ≡ addr
    pub few : collected result.0 result.1 ≤ room

  module _ (bounded : IsBounded) where
    weaken :
        (w : Traced) (pc next : ℕ) (bb bb1 : BasicBlock) (t : Trace)
        → SameBlock bb1 t next w
        → bb1.addr ≡ bb.addr
        → length bb1.instr_addrs ≡ length bb.instr_addrs + 1
        → pc < next
        → next ≤ limit
        → Advances pc bb t w
    weaken (ended bb' t') pc next bb bb1 t (a, l) e n lo hi = (a ∙ e, omega arith)
    weaken (goes_on bb' t' next') pc next bb bb1 t (a, l, m) e n lo hi =
        (a ∙ e, omega arith, omega arith, omega arith)

    on_instruction-Advances :
        (insn : Instruction) (bb : BasicBlock) (t : Trace) (pc : ℕ)
        → insn.address ≡ pc
        → 0 < insn.length
        → pc + insn.length ≤ limit
        → Advances pc bb t (on_instruction insn bb t)
    unfolding on_instruction
    on_instruction-Advances insn bb t pc at some_bytes fits =
        let small = bounded.small in
        let next : ℕ = (insn.address + insn.length) % 2 ^ 64 in
        let e : next ≡ pc + insn.length = omega arith in
        let bb1 : BasicBlock = record bb {
          instr_addrs = bb.instr_addrs ++ (insn.address ∷ []);
          size = (bb.size + insn.length) % 2 ^ 64;
        } in
        weaken _ pc next bb bb1 t (on_flow-SameBlock insn.flow insn next bb1 t) refl
          (length-append bb.instr_addrs (insn.address ∷ [])) (omega arith) (omega arith)

    on_bytes-Advances :
        (bytes : Bytes) (pc : ℕ) (bb : BasicBlock) (t : Trace)
        → length bytes ≤ limit - pc
        → Advances pc bb t (on_bytes D reader bytes pc bb t)
    unfolding on_bytes
    on_bytes-Advances [] pc bb t h = (refl, omega arith)
    on_bytes-Advances (b ∷ bytes) pc bb t h = elim (Result-cases (D.decode_one (b ∷ bytes) pc)) [
      | inr (msg, d) ↦ rw (d, on_bytes) (refl, omega arith)
      | inl (insn, d) ↦
          let (at, some_bytes, fits) = bounded.decoded (b ∷ bytes) pc insn d in
          rw (d, on_bytes) (on_instruction-Advances insn bb t pc at some_bytes (omega arith))
    ]

    trace_round-Advances :
        (start pc : ℕ) (bb : BasicBlock) (t : Trace) (s : S)
        → Advances pc bb t (trace_round D reader start pc bb t s).0
    unfolding trace_round
    trace_round-Advances start pc bb t s =
        elim (Bool-cases (not (pc == start) && contains pc t.leaders)) [
          | inl e ↦ rw (e, trace_round) (refl, omega arith)
          | inr e ↦
              rw (e, trace_round)
                (on_bytes-Advances (reader pc read_window s).0 pc bb t (bounded.inside pc s))
        ]

    trace_from-Returns :
        (fuel start pc : ℕ) (bb : BasicBlock) (t : Trace) (s : S)
        → limit - pc < fuel
        → Returns bb.addr
            (collected bb t + 2 * (limit - pc))
            (trace_from D reader fuel start pc bb t s)
    unfolding trace_from
    trace_from-Returns zero start pc bb t s h = absurd (omega arith)
    trace_from-Returns (suc fuel) start pc bb t s h =
        let s' : S = (trace_round D reader start pc bb t s).1 in
        let advances = trace_round-Advances start pc bb t s in
        elim (Traced-Ending (trace_round D reader start pc bb t s).0) [
          | stops bb' t' e ↦
              let (a, l) = rw e at advances in
              record {
                result = (bb', t', s');
                returned = rw (e, trace_from) refl;
                same = a;
                few = l;
              }
          | continues bb' t' next e ↦
              let (a, l, lo, hi) = rw e at advances in
              let more = trace_from-Returns fuel start next bb' t' s' (omega arith) in
              record {
                result = more.result;
                returned = rw (e, trace_from) more.returned;
                same = more.same ∙ a;
                few = omega (arith, more.few);
              }
        ]

    pub trace_block-Returns :
        (fuel start : ℕ) (t : Trace) (s : S)
        → limit - start < fuel
        → Returns start
            (length t.callees + 2 * (limit - start))
            (trace_block D reader fuel start t s)
    unfolding trace_block
    trace_block-Returns fuel start t s h =
        let r =
          trace_from-Returns fuel start start
            (record { addr = start; size = 0; jump = 0; fail = 0; instr_addrs = [] }) t s h in
        record {
          result = r.result;
          returned = r.returned;
          same = r.same;
          few = omega (arith, r.few);
        }
