-- ===== src/Api/Calls.antt =====
-- Sequences of calls of the C interface of irida-api/src/capi.cpp on one session.
pub mod Keeps
use irida.Common.{Bool, List, Option, [], none, some, ℕ, ◌∷◌}
use irida.Api.{Session}
use irida.Api.Dispatch as Dispatch

-- The calls that may change a session; `given` tells whether `out` or `buf` is not null.
pub data Call : Type 0 where
  registers modules maps threads breakpoints backtrace sections imports exports symbols strings
        functions :
      (given : Bool) → Call
  disasm : (addr count : ℕ) (given : Bool) → Call
  function_blocks xrefs_to : (addr : ℕ) (given : Bool) → Call
  read_memory : (addr len : ℕ) (given : Bool) → Call
  step_into step_over step_out continue break restart stop analyze : Call
  bp_toggle : (addr : ℕ) → Call
  bp_set_enabled : (addr : ℕ) (enabled : Bool) → Call

module _ {C : Type 0} where
  -- The session behind a call; `none` where the call does not end.
  unfoldable pub perform : Call → Option (Session C) → Option (Option (Session C))
  perform (registers given) s = some (Dispatch.registers given s).1
  perform (modules given) s = some (Dispatch.modules given s).1
  perform (maps given) s = some (Dispatch.maps given s).1
  perform (threads given) s = some (Dispatch.threads given s).1
  perform (breakpoints given) s = some (Dispatch.breakpoints given s).1
  perform (backtrace given) s = some (Dispatch.backtrace given s).1
  perform (sections given) s = some (Dispatch.sections given s).1
  perform (imports given) s = some (Dispatch.imports given s).1
  perform (exports given) s = some (Dispatch.exports given s).1
  perform (symbols given) s = some (Dispatch.symbols given s).1
  perform (strings given) s = some (Dispatch.strings given s).1
  perform (functions given) s = some (Dispatch.functions given s).1
  perform (disasm addr count given) s = some (Dispatch.disasm addr count given s).1
  perform (function_blocks addr given) s = some (Dispatch.function_blocks addr given s).1
  perform (xrefs_to addr given) s = some (Dispatch.xrefs_to addr given s).1
  perform (read_memory addr len given) s = some (Dispatch.read_memory addr given len s).1
  perform step_into s = some (Dispatch.step_into s)
  perform step_over s = some (Dispatch.step_over s)
  perform step_out s = some (Dispatch.step_out s)
  perform continue s = some (Dispatch.continue s)
  perform break s = some (Dispatch.break s)
  perform restart s = some (Dispatch.restart s)
  perform stop s = some (Dispatch.stop s)
  perform analyze s = Dispatch.analyze s
  perform (bp_toggle addr) s = some (Dispatch.bp_toggle addr s)
  perform (bp_set_enabled addr enabled) s = some (Dispatch.bp_set_enabled addr enabled s)

  unfoldable pub run : List Call → Option (Session C) → Option (Option (Session C))
  run [] s = some s
  run (call ∷ calls) s = elim (perform call s) [ none ↦ none | some s' ↦ run calls s' ]
