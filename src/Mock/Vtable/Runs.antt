-- ===== src/Mock/Vtable/Runs.antt =====
-- Sequences of calls on a session of irida-ui/mock/src/mock_backend.cpp.
use irida.Common.{
  Bool-cases, List, Option-cases, [], arith, get_or, inl, inr, length-set, ltb, refl, some, ℕ, ◌%◌,
  ◌&&◌, ◌+◌, ◌<◌, ◌==◌, ◌^◌, ◌∙◌, ◌∷◌, ◌≡◌,
}
use irida.Common as Common
use irida.Analysis.Keeps.{Leaves}
use irida.Api.{stopped, Session}
use irida.Api.Dispatch.{session_create}
use irida.Api.Calls.{Call, run}
use irida.Api.Calls.Keeps.{Keeps, Holds, run-Holds}
use irida.Mock.{
  MockState, Insn, stream, index_of, find_index, move_on, advance_one, mock_step_into,
  mock_step_over, mock_step_out, mock_cont, mock_brk, mock_restart, mock_stop, mock_read_memory,
  has_breakpoint, mock_bp_toggle, mock_bp_set_enabled, add_to, last_address, next_epoch,
  stream_is_call, stream_len, stream_address, rax, rcx,
}
use irida.Mock.Listings.{
  mock_registers, mock_modules, mock_maps, mock_threads, mock_disasm, mock_breakpoints,
  mock_backtrace, mock_sections, mock_imports, mock_exports, mock_symbols, mock_strings,
  mock_functions, mock_function_blocks, mock_xrefs_to,
}
use irida.Mock.Breakpoints.{IsDistinct, erase-IsDistinct, append-IsDistinct, enable-IsDistinct}
use irida.Mock.Vtable.{mock_vtable, mock_create}

-- The state is at a stop, its index lies in the stream, its registers are all there, and no address
-- has two breakpoints.
pub record IsSound (s : MockState) : Type 0 where
  pub stops : s.run_state ≡ stopped
  pub inside : s.ip_index < 8
  pub regs : Common.length s.regs ≡ 11
  pub distinct : IsDistinct s.bps

index_of-bound :
    (addr i k : ℕ) (insns : List Insn)
    → index_of addr i insns ≡ some k
    → k < i + Common.length insns
unfolding index_of
index_of-bound addr i k [] h = absurd (cc)
index_of-bound addr i k (insn ∷ insns) h = elim (Bool-cases (insn.address == addr)) [
  | inl e ↦ let same : some i ≡ some k = rw e at h in ground arith
  | inr e ↦ let more = index_of-bound addr (i + 1) k insns (rw e at h) in omega (arith, more)
]

find_index-IsSound : (s : MockState) → IsSound s → IsSound (find_index s)
unfolding find_index
find_index-IsSound s h = elim (Option-cases (index_of s.pc 0 stream)) [
  | inl e ↦ rw (e, find_index) h
  | inr (k, e) ↦
      let inside : k < 8 = omega (arith, index_of-bound s.pc 0 k stream e) in
      rw (e, find_index)
        (record { stops = h.stops; inside = inside; regs = h.regs; distinct = h.distinct })
]

-- The parts that `IsSound` reads, where the registers are as many.
add_to-IsSound : (reg n : ℕ) (s : MockState) → IsSound s → IsSound (add_to reg n s)
add_to-IsSound reg n s h = record {
  stops = h.stops;
  inside = h.inside;
  regs = length-set s.regs reg ((get_or s.regs reg 0 + n) % 2 ^ 64) ∙ h.regs;
  distinct = h.distinct;
}

moved-IsSound : (pc : ℕ) (s : MockState) → IsSound s → IsSound (next_epoch (record s { pc = pc }))
moved-IsSound pc s h = record {
  stops = h.stops;
  inside = h.inside;
  regs = h.regs;
  distinct = h.distinct;
}

move_on-IsSound : (s : MockState) → IsSound s → IsSound (next_epoch (move_on s))
move_on-IsSound s h = elim (Bool-cases (ltb (s.ip_index + 1) stream_len)) [
  | inl e ↦ rw (e, move_on) (moved-IsSound (stream_address (s.ip_index + 1)) s h)
  | inr e ↦ rw (e, move_on) (moved-IsSound s.pc s h)
]

advance_one-IsSound : (s : MockState) → IsSound s → IsSound (advance_one s)
unfolding advance_one
advance_one-IsSound s h = move_on-IsSound (add_to rcx 1 (add_to rax 0x10 (find_index s))) (
    add_to-IsSound rcx 1 (add_to rax 0x10 (find_index s))
      (add_to-IsSound rax 0x10 (find_index s) (find_index-IsSound s h)))

step_over-IsSound : (s : MockState) → IsSound s → IsSound (mock_step_over s)
unfolding mock_step_over
step_over-IsSound s h =
    let found = find_index s in
    let k = find_index-IsSound s h in
    elim (Bool-cases (stream_is_call found.ip_index && ltb (found.ip_index + 1) stream_len)) [
      | inl e ↦
          rw (e, mock_step_over)
            (moved-IsSound (stream_address (found.ip_index + 1)) (add_to rax 0x10 found)
              (add_to-IsSound rax 0x10 found k))
      | inr e ↦ rw (e, mock_step_over) (advance_one-IsSound found k)
    ]

toggle-IsSound : (addr : ℕ) (s : MockState) → IsSound s → IsSound (mock_bp_toggle addr s)
unfolding mock_bp_toggle
toggle-IsSound addr s h = elim (Bool-cases (has_breakpoint addr s.bps)) [
  | inl e ↦
      rw (e, mock_bp_toggle)
        (record {
          stops = h.stops;
          inside = h.inside;
          regs = h.regs;
          distinct = erase-IsDistinct addr s.bps h.distinct;
        })
  | inr e ↦
      rw (e, mock_bp_toggle)
        (record {
          stops = h.stops;
          inside = h.inside;
          regs = h.regs;
          distinct = append-IsDistinct s.bps _ h.distinct e;
        })
]

mock_function_blocks-IsSound :
    (addr : ℕ) (s : MockState) → IsSound s → IsSound (mock_function_blocks addr s).1
unfolding mock_function_blocks
mock_function_blocks-IsSound addr s h = elim (Bool-cases (addr == 0x7FF751FA2440)) [
  | inl e ↦ rw e h
  | inr e ↦ elim (Bool-cases (addr == 0x7FF751FA2500)) [ inl f ↦ rw (e, f) h | inr f ↦ rw (e, f) h ]
]

mock_xrefs_to-IsSound : (addr : ℕ) (s : MockState) → IsSound s → IsSound (mock_xrefs_to addr s).1
unfolding mock_xrefs_to
mock_xrefs_to-IsSound addr s h = elim (Bool-cases (addr == 0x7FF751FA2500)) [
  | inl f ↦ rw f h
  | inr f ↦ rw f h
]

restarted : (s : MockState) → IsSound s → IsSound (mock_restart s)
unfolding mock_restart
restarted s h = record { stops = refl; inside = h.inside; regs = refl; distinct = h.distinct }

mock_vtable-Keeps : Keeps mock_vtable IsSound
unfolding mock_vtable mock_step_into mock_step_out mock_cont mock_brk mock_restart mock_stop
    mock_read_memory mock_bp_set_enabled mock_registers mock_modules mock_maps mock_threads
    mock_disasm mock_breakpoints mock_backtrace mock_sections mock_imports mock_exports mock_symbols
    mock_strings mock_functions
mock_vtable-Keeps = record {
  registers = λ s h. h;
  modules = λ s h. h;
  maps = λ s h. h;
  threads = λ s h. h;
  breakpoints = λ s h. h;
  backtrace = λ s h. h;
  sections = λ s h. h;
  imports = λ s h. h;
  exports = λ s h. h;
  symbols = λ s h. h;
  strings = λ s h. h;
  functions = λ s h. h;
  disasm = λ addr count s h. h;
  function_blocks = mock_function_blocks-IsSound;
  xrefs_to = mock_xrefs_to-IsSound;
  read_memory = λ addr len s h. h;
  analyze = λ s h. h;
  bp_toggle = toggle-IsSound;
  bp_set_enabled = λ addr enabled s h. record {
    stops = h.stops;
    inside = h.inside;
    regs = h.regs;
    distinct = enable-IsDistinct addr enabled s.bps h.distinct;
  };
  step_into = advance_one-IsSound;
  step_over = step_over-IsSound;
  step_out = λ s h. moved-IsSound last_address s h;
  continue = λ s h. moved-IsSound _ s h;
  break = λ s h. record { stops = refl; inside = h.inside; regs = h.regs; distinct = h.distinct };
  restart = restarted;
  stop = restarted;
}

created-IsSound : (s : MockState) → IsSound s → Holds mock_vtable IsSound (mock_create s)
unfolding mock_create session_create
created-IsSound s h =
    (refl, record { stops = h.stops; inside = h.inside; regs = refl; distinct = tt })

-- A session that is created over a sound state stays sound under any calls: it is at a stop, its index
-- lies in the stream, its registers are all there, and no address gets a second breakpoint.
pub run-IsSound :
    (s : MockState) (session : Session MockState) (calls : List Call)
    → IsSound s
    → mock_create s ≡ some session
    → Leaves (Holds mock_vtable IsSound) (λ s'. s') (run calls (some session))
run-IsSound s session calls h e =
    run-Holds mock_vtable IsSound calls session mock_vtable-Keeps (rw e at (created-IsSound s h))
