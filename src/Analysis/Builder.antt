-- ===== src/Analysis/Builder.antt =====
-- `FunctionBuilder` of irida-core/core/analysis/src/analysis.cpp: the blocks of one function.
pub mod Split
pub mod Leaders
pub mod Ends
pub mod Finite
use irida.Common.{
  Bool, List, Option, [], false, if◌then◌else◌, leb, ltb, none, not, some, suc, true, zero, ℕ, ◌%◌,
  ◌&&◌, ◌++◌, ◌+◌, ◌-◌, ◌==◌, ◌^◌, ◌||◌, ◌∷◌,
}
use irida.Base.{Bytes, ok, err}
use irida.Disasm.{Instruction, Disassembler, Flow}
use irida.Analysis.{BasicBlock, Function, Xref, XrefKind, ByteReader, read_window, default_name}

abbrev pub contains : ℕ → List ℕ → Bool
contains x [] = false
contains x (y ∷ ys) = if x == y then true else contains x ys

-- `std::set::insert`: the set is kept in ascending order.
abbrev pub insert : ℕ → List ℕ → List ℕ
insert x [] = x ∷ []
insert x (y ∷ ys) = if x == y then y ∷ ys else if ltb x y then x ∷ (y ∷ ys) else y ∷ insert x ys

-- `std::map::emplace` on the blocks, in ascending order of their address: a key that is there stays.
unfoldable pub emplace : BasicBlock → List BasicBlock → List BasicBlock
emplace b [] = b ∷ []
emplace b (c ∷ cs) =
    if b.addr == c.addr
    then c ∷ cs
    else if ltb b.addr c.addr
    then b ∷ (c ∷ cs)
    else c ∷ emplace b cs

abbrev pub has_block : ℕ → List BasicBlock → Bool
has_block addr [] = false
has_block addr (b ∷ bs) = if addr == b.addr then true else has_block addr bs

-- What tracing adds to: `leaders_`, `out_callees` and `out_xrefs`.
pub record Trace : Type 0 where
  pub leaders : List ℕ
  pub callees : List ℕ
  pub xrefs : List Xref

-- The block is finished, or it goes on at the next instruction.
pub data Traced : Type 0 where
  ended : BasicBlock → Trace → Traced
  goes_on : BasicBlock → Trace → ℕ → Traced

abbrev add_jump : Instruction → Trace → Trace
add_jump insn t = record t {
  xrefs =
      t.xrefs
      ++ (record { from = insn.address; to = insn.branch_target; kind = XrefKind.jump } ∷ []);
  leaders = insert insn.branch_target t.leaders;
}

abbrev add_call : Instruction → Trace → Trace
add_call insn t = record t {
  xrefs =
      t.xrefs
      ++ (record { from = insn.address; to = insn.branch_target; kind = XrefKind.call } ∷ []);
  callees = t.callees ++ (insn.branch_target ∷ []);
}

-- The switch over the flow. The target 0 stands for an indirect transfer.
unfoldable pub on_flow : Flow → Instruction → ℕ → BasicBlock → Trace → Traced
on_flow Flow.jump insn next bb t =
    if insn.branch_target == 0
    then ended bb t
    else ended (record bb { jump = insn.branch_target }) (add_jump insn t)
on_flow Flow.cond_jump insn next bb t =
    let fall : Trace → Trace = λ u. record u { leaders = insert next u.leaders } in
    if insn.branch_target == 0
    then ended (record bb { fail = next }) (fall t)
    else ended (record bb { jump = insn.branch_target; fail = next }) (fall (add_jump insn t))
on_flow Flow.call insn next bb t =
    if insn.branch_target == 0 then goes_on bb t next else goes_on bb (add_call insn t) next
on_flow Flow.return insn next bb t = ended bb t
on_flow Flow.sequential insn next bb t = goes_on bb t next

unfoldable pub on_instruction : Instruction → BasicBlock → Trace → Traced
on_instruction insn bb t =
    on_flow insn.flow insn ((insn.address + insn.length) % 2 ^ 64)
      (record bb {
        instr_addrs = bb.instr_addrs ++ (insn.address ∷ []);
        size = (bb.size + insn.length) % 2 ^ 64;
      })
      t

-- The head keeps what lies before the leader and falls through to the tail.
unfoldable pub instrs_below : ℕ → List ℕ → List ℕ
instrs_below leader [] = []
instrs_below leader (ia ∷ ias) =
    let rest = instrs_below leader ias in if ltb ia leader then ia ∷ rest else rest

unfoldable pub instrs_from : ℕ → List ℕ → List ℕ
instrs_from leader [] = []
instrs_from leader (ia ∷ ias) =
    let rest = instrs_from leader ias in if ltb ia leader then rest else ia ∷ rest

-- `split_block`, as the new `bb` and `tail`; the caller emplaces the tail.
unfoldable pub split_block : BasicBlock → ℕ → BasicBlock × BasicBlock
split_block bb leader = (
  record {
    addr = bb.addr;
    size = leader - bb.addr;
    jump = 0;
    fail = leader;
    instr_addrs = instrs_below leader bb.instr_addrs;
  },
  record {
    addr = leader;
    size = bb.size - (leader - bb.addr);
    jump = bb.jump;
    fail = bb.fail;
    instr_addrs = instrs_from leader bb.instr_addrs;
  },
)

-- The first leader, in ascending order, that lies strictly inside a block at an instruction.
unfoldable pub find_cut : List ℕ → BasicBlock → Option ℕ
find_cut [] bb = none
find_cut (leader ∷ leaders) bb =
    if leb leader bb.addr
      || leb ((bb.addr + bb.size) % 2 ^ 64) leader
      || not (contains leader bb.instr_addrs)
    then find_cut leaders bb
    else some leader

-- One pass over the blocks: the first block that a leader cuts, cut, and its tail.
unfoldable pub cut_first : List ℕ → List BasicBlock → Option (List BasicBlock × BasicBlock)
cut_first leaders [] = none
cut_first leaders (bb ∷ bbs) = elim (find_cut leaders bb) [
  | some leader ↦ some ((split_block bb leader).0 ∷ bbs, (split_block bb leader).1)
  | none ↦ elim (cut_first leaders bbs) [ none ↦ none | some (cut, tail) ↦ some (bb ∷ cut, tail) ]
]

-- The loop `while (changed)`; `none` means that the fuel ran out.
unfoldable pub split_all : ℕ → List ℕ → List BasicBlock → Option (List BasicBlock)
split_all zero leaders blocks = none
split_all (suc fuel) leaders blocks = elim (cut_first leaders blocks) [
  | none ↦ some blocks
  | some (cut, tail) ↦ split_all fuel leaders (emplace tail cut)
]

abbrev pub sum_sizes : List BasicBlock → ℕ
sum_sizes [] = 0
sum_sizes (b ∷ bs) = (b.size + sum_sizes bs) % 2 ^ 64

-- The blocks are in order of their address already, so the sort changes nothing.
unfoldable pub finalize : ℕ → ℕ → List ℕ → List BasicBlock → Option Function
finalize fuel entry leaders blocks = elim (split_all fuel leaders blocks) [
  | none ↦ none
  | some bs ↦ some (record {
    addr = entry;
    size = sum_sizes bs;
    name = default_name entry;
    blocks = bs;
    callees = [];
  })
]

-- `enqueue`: the work list and what was ever put on it.
abbrev pub enqueue : ℕ → List ℕ × List ℕ → List ℕ × List ℕ
enqueue succ (work, queued) =
    if succ == 0 || contains succ queued
    then (work, queued)
    else (work ++ (succ ∷ []), succ ∷ queued)

module _ (D : Disassembler) {S : Type 0} (reader : ByteReader S) where
  -- What was read at `pc`: nothing, or bytes that start with an instruction or with none.
  unfoldable pub on_bytes : Bytes → ℕ → BasicBlock → Trace → Traced
  on_bytes [] pc bb t = ended bb t
  on_bytes (b ∷ bytes) pc bb t = elim (D.decode_one (b ∷ bytes) pc) [
    | err e ↦ ended bb t
    | ok insn ↦ on_instruction insn bb t
  ]

  -- One round of the loop of `trace_block` at `pc`.
  unfoldable pub trace_round : ℕ → ℕ → BasicBlock → Trace → S → Traced × S
  trace_round start pc bb t s =
      if not (pc == start) && contains pc t.leaders
      then (ended (record bb { fail = pc }) t, s)
      else (on_bytes (reader pc read_window s).0 pc bb t, (reader pc read_window s).1)

  -- The loop has no bound of its own; `none` means that the fuel ran out.
  unfoldable pub trace_from : ℕ → ℕ → ℕ → BasicBlock → Trace → S → Option (BasicBlock × Trace × S)
  trace_from zero start pc bb t s = none
  trace_from (suc fuel) start pc bb t s =
      let s' : S = (trace_round start pc bb t s).1 in
      elim (trace_round start pc bb t s).0 [
        | ended bb' t' ↦ some (bb', t', s')
        | goes_on bb' t' next ↦ trace_from fuel start next bb' t' s'
      ]

  unfoldable pub trace_block : ℕ → ℕ → Trace → S → Option (BasicBlock × Trace × S)
  trace_block fuel start t s =
      trace_from fuel start start
        (record { addr = start; size = 0; jump = 0; fail = 0; instr_addrs = [] }) t s

  -- The work loop of `build`; `none` means that the fuel, of this loop or of a block, ran out.
  unfoldable pub build_loop :
      ℕ → List ℕ × List ℕ → List BasicBlock → Trace → S → Option (List BasicBlock × Trace × S)
  build_loop zero queue blocks t s = none
  build_loop (suc fuel) ([], queued) blocks t s = some (blocks, t, s)
  build_loop (suc fuel) (start ∷ work, queued) blocks t s = elim (has_block start blocks) [
    | true ↦ build_loop fuel (work, queued) blocks t s
    | false ↦ elim (trace_block fuel start t s) [
      | none ↦ none
      | some (bb, t', s') ↦
          build_loop fuel (enqueue bb.fail (enqueue bb.jump (work, queued))) (emplace bb blocks) t'
            s'
    ]
  ]

  -- `build` of a new builder: the function, its direct call targets, and the references.
  unfoldable pub build : ℕ → ℕ → List Xref → S → Option (Function × Trace × S)
  build fuel entry xrefs s =
      elim (build_loop fuel (entry ∷ [], entry ∷ []) []
        (record { leaders = entry ∷ []; callees = []; xrefs = xrefs }) s) [
          | none ↦ none
          | some (blocks, t, s') ↦ elim (finalize fuel entry t.leaders blocks) [
            | none ↦ none
            | some fn ↦ some (fn, t, s')
          ]
        ]
