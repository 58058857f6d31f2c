-- ===== src/Api/Dispatch.antt =====
-- irida-api/src/capi.cpp: every call of the C interface, guarded against null pointers. A session
-- that is null is `none`; the first argument of a listing tells whether `out` was given.
use irida.Common.{Bool, Option, [], false, none, some, true, ℕ}
use irida.Base.{Bytes}
use irida.Api.{
  Register, Module, MemMap, Thread, InsnRow, Frame, Section, Import, Export, Symbol, String,
  Function, BasicBlock, Xref, RunState, stopped, Breakpoint, untouched, Listing, no_rows,
  BackendVTable, Session,
}

-- A member of the vtable that takes arguments, with them.
abbrev pub with : {A B : Type 0} → A → Option (A → B) → Option B
with a none = none
with a (some f) = some (f a)

module _ {C : Type 0} where
  -- `irida_session_create`, where the allocation succeeds.
  unfoldable pub session_create : Option (BackendVTable C) → C → Option (Session C)
  session_create none ctx = none
  session_create (some vt) ctx = some (record { vt = vt; ctx = ctx })

  -- The call of a member, which may be null.
  abbrev pub call_listing :
      {R : Type 0} → Option (C → Listing R × C) → Session C → Listing R × Option (Session C)
  call_listing none s = (no_rows, some s)
  call_listing (some call) s = ((call s.ctx).0, some (record s { ctx = (call s.ctx).1 }))

  abbrev pub call_void : Option (C → C) → Session C → Option (Session C)
  call_void none s = some s
  call_void (some call) s = some (record s { ctx = call s.ctx })

  abbrev pub call_read : Option (C → Bytes × C) → Session C → Bytes × Option (Session C)
  call_read none s = ([], some s)
  call_read (some call) s = ((call s.ctx).0, some (record s { ctx = (call s.ctx).1 }))

  -- `none` stands for a call that does not end.
  abbrev pub call_analyze : Option (C → Option C) → Session C → Option (Option (Session C))
  call_analyze none s = some (some s)
  call_analyze (some call) s = elim (call s.ctx) [
    | none ↦ none
    | some ctx' ↦ some (some (record s { ctx = ctx' }))
  ]

  -- The body that the listing calls share: `f` is the member of the vtable with its arguments.
  unfoldable pub guard_listing :
      {R : Type 0}
      → (BackendVTable C → Option (C → Listing R × C))
      → Bool
      → Option (Session C)
      → Listing R × Option (Session C)
  guard_listing f false s = ((0, untouched), s)
  guard_listing f true none = (no_rows, none)
  guard_listing f true (some s) = call_listing (f s.vt) s

  -- `if (s && s->vt.f) s->vt.f(s->ctx);`
  unfoldable pub guard_void :
      (BackendVTable C → Option (C → C)) → Option (Session C) → Option (Session C)
  guard_void f none = none
  guard_void f (some s) = call_void (f s.vt) s

  -- `if (!s || !s->vt.f) return otherwise; return s->vt.f(s->ctx);`
  unfoldable pub guard_value :
      {A : Type 0} → (BackendVTable C → Option (C → A)) → A → Option (Session C) → A
  guard_value f otherwise none = otherwise
  guard_value f otherwise (some s) = elim (f s.vt) [ none ↦ otherwise | some call ↦ call s.ctx ]

  unfoldable pub registers : Bool → Option (Session C) → Listing Register × Option (Session C)
  registers = guard_listing (λ vt. vt.registers)

  unfoldable pub modules : Bool → Option (Session C) → Listing Module × Option (Session C)
  modules = guard_listing (λ vt. vt.modules)

  unfoldable pub maps : Bool → Option (Session C) → Listing MemMap × Option (Session C)
  maps = guard_listing (λ vt. vt.maps)

  unfoldable pub threads : Bool → Option (Session C) → Listing Thread × Option (Session C)
  threads = guard_listing (λ vt. vt.threads)

  unfoldable pub breakpoints : Bool → Option (Session C) → Listing Breakpoint × Option (Session C)
  breakpoints = guard_listing (λ vt. vt.breakpoints)

  unfoldable pub backtrace : Bool → Option (Session C) → Listing Frame × Option (Session C)
  backtrace = guard_listing (λ vt. vt.backtrace)

  unfoldable pub sections : Bool → Option (Session C) → Listing Section × Option (Session C)
  sections = guard_listing (λ vt. vt.sections)

  unfoldable pub imports : Bool → Option (Session C) → Listing Import × Option (Session C)
  imports = guard_listing (λ vt. vt.imports)

  unfoldable pub exports : Bool → Option (Session C) → Listing Export × Option (Session C)
  exports = guard_listing (λ vt. vt.get_exports)

  unfoldable pub symbols : Bool → Option (Session C) → Listing Symbol × Option (Session C)
  symbols = guard_listing (λ vt. vt.symbols)

  unfoldable pub strings : Bool → Option (Session C) → Listing String × Option (Session C)
  strings = guard_listing (λ vt. vt.strings)

  unfoldable pub functions : Bool → Option (Session C) → Listing Function × Option (Session C)
  functions = guard_listing (λ vt. vt.functions)

  unfoldable pub disasm : ℕ → ℕ → Bool → Option (Session C) → Listing InsnRow × Option (Session C)
  disasm addr count = guard_listing (λ vt. with count (with addr vt.disasm))

  unfoldable pub function_blocks :
      ℕ → Bool → Option (Session C) → Listing BasicBlock × Option (Session C)
  function_blocks fn_addr = guard_listing (λ vt. with fn_addr vt.function_blocks)

  unfoldable pub xrefs_to : ℕ → Bool → Option (Session C) → Listing Xref × Option (Session C)
  xrefs_to addr = guard_listing (λ vt. with addr vt.xrefs_to)

  unfoldable pub run_state : Option (Session C) → RunState
  run_state = guard_value (λ vt. vt.run_state) stopped

  unfoldable pub pc : Option (Session C) → ℕ
  pc = guard_value (λ vt. vt.pc) 0

  unfoldable pub state_epoch : Option (Session C) → ℕ
  state_epoch = guard_value (λ vt. vt.state_epoch) 0

  unfoldable pub step_into : Option (Session C) → Option (Session C)
  step_into = guard_void (λ vt. vt.step_into)

  unfoldable pub step_over : Option (Session C) → Option (Session C)
  step_over = guard_void (λ vt. vt.step_over)

  unfoldable pub step_out : Option (Session C) → Option (Session C)
  step_out = guard_void (λ vt. vt.step_out)

  unfoldable pub continue : Option (Session C) → Option (Session C)
  continue = guard_void (λ vt. vt.cont)

  unfoldable pub break : Option (Session C) → Option (Session C)
  break = guard_void (λ vt. vt.brk)

  unfoldable pub restart : Option (Session C) → Option (Session C)
  restart = guard_void (λ vt. vt.restart)

  unfoldable pub stop : Option (Session C) → Option (Session C)
  stop = guard_void (λ vt. vt.stop)

  unfoldable pub analyze : Option (Session C) → Option (Option (Session C))
  analyze none = some none
  analyze (some s) = call_analyze s.vt.analyze s

  unfoldable pub bp_toggle : ℕ → Option (Session C) → Option (Session C)
  bp_toggle addr = guard_void (λ vt. with addr vt.bp_toggle)

  unfoldable pub bp_set_enabled : ℕ → Bool → Option (Session C) → Option (Session C)
  bp_set_enabled addr enabled = guard_void (λ vt. with enabled (with addr vt.bp_set_enabled))

  -- The bytes put into `buf`, whose number is the result; `buf_given` tells whether `buf` is not null.
  unfoldable pub read_memory : ℕ → Bool → ℕ → Option (Session C) → Bytes × Option (Session C)
  read_memory addr buf_given len none = ([], none)
  read_memory addr false len (some s) = ([], some s)
  read_memory addr true len (some s) = call_read (with len (with addr s.vt.read_memory)) s
