-- ===== src/Windows/Debuggee.antt =====
-- `NativeDebuggee` of irida-core/libs/host/src/native_debuggee.cpp over the Windows calls: the debug
-- events, the registers, the memory and the hardware breakpoints.
use irida.Common.{
  Bool, Option, Text, codes, false, if◌then◌else◌, ltb, negsuc, none, pos, some, true, ℕ, ℤ, ◌%◌,
  ◌++◌, ◌-◌, ◌==◌, ◌^◌, ◌||◌,
}
use irida.Common as Common
use irida.Base.{Bytes, Result, ok, err}
use irida.Base.Action.{Action, ◌>>=◌, ◌>>◌, pure, fail}
use irida.Proto.Packets.Numbers.{to_string}
use irida.Backend.Native.Host as Host
use irida.Backend.Native.Host.{DbgEvent, DbgEventKind}
use irida.Windows.{
  Windows, ThreadContext, DebugInfo, exception, exit_process, load_dll, other, DebugEvent,
  dbg_continue, dbg_exception_not_handled, ContinueStatus, get_context, get_and_set_context,
  ContextFlags, full_and_debug_registers, debug_registers,
}
use irida.Windows.Context.{
  reg_block_size, context_to_block, block_to_context, set_bit, enable_slot, disable_slot,
  set_address,
}

-- `DEBUG_EVENT pending{};`
abbrev pub no_event : DebugEvent
no_event = record { process_id = 0; thread_id = 0; info = other }

module _ (W : Windows) where
  -- `NativeDebuggee::Impl`, with the operating system behind it. The pending event is kept when it is
  -- no longer pending.
  pub record Impl : Type 0 where
    pub pid : ℕ
    pub process : ℕ
    pub attached : Bool
    pub has_pending : Bool
    pub pending : DebugEvent
    pub primary_tid : ℕ
    pub os : W.State

  unfoldable pub format_last_error : Text → W.State → Text
  format_last_error what os =
      what ++ codes " failed (GetLastError=" ++ to_string (pos (W.get_last_error os)) ++ codes ")"

  -- A call that fails with `format_last_error(what)`.
  unfoldable pub call_for : {A : Type 0} → Text → (W.State → Option A × W.State) → Action Impl A
  call_for what f d =
      let d' : Impl = record d { os = (f d.os).1 } in
      elim (f d.os).0 [ some a ↦ (ok a, d') | none ↦ (err (format_last_error what d'.os), d') ]

  abbrev pub tested : (W.State → Bool × W.State) → W.State → Option (Unit {0}) × W.State
  tested f os = (if (f os).0 then some tt else none, (f os).1)

  unfoldable pub close : ℕ → Action Impl (Unit {0})
  close handle d = (ok tt, record d { os = W.close_handle handle d.os })

  -- A call that closes the handle before it formats its failure.
  unfoldable pub call_closing :
      {A : Type 0} → ℕ → Text → (W.State → Option A × W.State) → Action Impl A
  call_closing handle what f d =
      let os' : W.State = (f d.os).1 in
      let closed : Impl = record d { os = W.close_handle handle os' } in
      elim (f d.os).0 [
        | some a ↦ (ok a, record d { os = os' })
        | none ↦ (err (format_last_error what closed.os), closed)
      ]

  unfoldable pub require_attached : Text → Action Impl (Unit {0})
  require_attached what d =
      if d.attached then (ok tt, d) else (err (what ++ codes ": not attached"), d)

  unfoldable pub require_pending : Text → Action Impl DebugEvent
  require_pending what d =
      if d.has_pending
      then (ok d.pending, d)
      else (err (what ++ codes ": no pending debug event"), d)

  -- `attach`: the process is let go again if it cannot be opened.
  unfoldable pub attach : ℕ → W.State → Result Impl × W.State
  attach pid os =
      let debugged = W.debug_active_process pid os in
      let opened = W.open_process pid (W.debug_set_process_kill_on_exit false debugged.1) in
      let stopped : W.State = (W.debug_active_process_stop pid opened.1).1 in
      if debugged.0
      then elim opened.0 [
        | none ↦ (err (format_last_error (codes "OpenProcess") stopped), stopped)
        | some process ↦ (
          ok (record {
            pid = pid;
            process = process;
            attached = true;
            has_pending = false;
            pending = no_event;
            primary_tid = 0;
            os = opened.1;
          }),
          opened.1,
        )
      ]
      else (err (format_last_error (codes "DebugActiveProcess") debugged.1), debugged.1)

  unfoldable pub detach : Action Impl (Unit {0})
  detach = do
    require_attached (codes "detach")
    λ d. call_for (codes "DebugActiveProcessStop") (tested (W.debug_active_process_stop d.pid)) d
    λ d. (ok tt, record d { attached = false })

  -- The switch over the event's code.
  unfoldable pub translate_event : DebugEvent → DbgEvent
  translate_event de = elim de.info [
    | exception code address ↦ record {
      kind =
          if code == W.exception_breakpoint
          then Host.breakpoint
          else if code == W.exception_single_step
          then Host.single_step
          else Host.exception;
      thread_id = de.thread_id;
      address = address;
      code = code;
    }
    | exit_process exit_code ↦ record {
      kind = Host.exit_process;
      thread_id = de.thread_id;
      address = 0;
      code = exit_code;
    }
    | load_dll base ↦ record {
      kind = Host.load_module;
      thread_id = de.thread_id;
      address = base;
      code = 0;
    }
    | other ↦ record { kind = Host.other; thread_id = de.thread_id; address = 0; code = 0 }
  ]

  -- `static_cast<DWORD>(timeout_ms)`
  unfoldable pub as_dword : ℤ → ℕ
  as_dword (pos n) = n % 2 ^ 32
  as_dword (negsuc n) = 2 ^ 32 - 1 - n % 2 ^ 32

  unfoldable pub wait_event : ℤ → Action Impl DbgEvent
  wait_event timeout_ms = do
    require_attached (codes "wait_event")
    de ← call_for (codes "WaitForDebugEvent") (W.wait_for_debug_event (as_dword timeout_ms))
    λ d. (
      ok (translate_event de),
      record d { has_pending = true; pending = de; primary_tid = de.thread_id },
    )

  -- An exception that is not the debugger's own is passed on to the debuggee.
  unfoldable pub status_of : DebugInfo → ContinueStatus
  status_of (exception code address) =
      if code == W.exception_breakpoint || code == W.exception_single_step
      then dbg_continue
      else dbg_exception_not_handled
  status_of (exit_process exit_code) = dbg_continue
  status_of (load_dll base) = dbg_continue
  status_of other = dbg_continue

  unfoldable pub continue_pending : DebugEvent → ContinueStatus → Action Impl (Unit {0})
  continue_pending de status = do
    call_for (codes "ContinueDebugEvent")
        (tested (W.continue_debug_event de.process_id de.thread_id status))
    λ d. (ok tt, record d { has_pending = false })

  unfoldable pub resume : Action Impl (Unit {0})
  resume = do de ← require_pending (codes "resume"); continue_pending de (status_of de.info)

  -- A thread's context, changed: the thread is opened, and closed again on every path.
  unfoldable pub change_context :
      ContextFlags → ℕ → (ThreadContext → ThreadContext) → Action Impl (Unit {0})
  change_context flags tid change = do
    thread ← call_for (codes "OpenThread") (W.open_thread get_and_set_context tid)
    ctx ← call_closing thread (codes "GetThreadContext") (W.get_thread_context flags thread)
    call_closing thread (codes "SetThreadContext")
        (tested (W.set_thread_context flags thread (change ctx)))
    close thread

  -- `kEflagsTrapFlag`
  abbrev pub trap_bit : ℕ
  trap_bit = 8

  unfoldable pub resume_single_step : Action Impl (Unit {0})
  resume_single_step = do
    de ← require_pending (codes "resume_single_step")
    change_context full_and_debug_registers de.thread_id
        (λ ctx. record ctx { eflags = set_bit trap_bit ctx.eflags })
    continue_pending de dbg_continue

  unfoldable pub request_stop : Action Impl (Unit {0})
  request_stop = do
    require_attached (codes "request_stop")
    λ d. call_for (codes "DebugBreakProcess") (tested (W.debug_break_process d.process)) d

  unfoldable pub read_registers : ℕ → Action Impl Bytes
  read_registers thread_id = do
    thread ← call_for (codes "OpenThread") (W.open_thread get_context thread_id)
    ctx ←
        call_closing thread (codes "GetThreadContext")
          (W.get_thread_context full_and_debug_registers thread)
    close thread
    pure (context_to_block ctx)

  unfoldable pub write_registers : ℕ → Bytes → Action Impl (Unit {0})
  write_registers thread_id block =
      if ltb (Common.length block) reg_block_size
      then fail (codes "write_registers: block too small")
      else change_context full_and_debug_registers thread_id (block_to_context block)

  -- `some` bytes are those that were read.
  unfoldable pub read_memory : ℕ → ℕ → Action Impl Bytes
  read_memory addr len = do
    require_attached (codes "read_memory")
    bytes ← λ d. call_for (codes "ReadProcessMemory") (W.read_process_memory d.process addr len) d
    if Common.length bytes == len then pure bytes else fail (codes "read_memory: partial read")

  unfoldable pub write_memory : ℕ → Bytes → Action Impl (Unit {0})
  write_memory addr data' = do
    require_attached (codes "write_memory")
    written ←
        λ d. call_for (codes "WriteProcessMemory") (W.write_process_memory d.process addr data') d
    if written == Common.length data' then pure tt else fail (codes "write_memory: partial write")
    λ d.
        call_for (codes "FlushInstructionCache")
          (tested (W.flush_instruction_cache d.process addr (Common.length data'))) d

  unfoldable pub set_hw_exec_bp : ℕ → ℕ → Action Impl (Unit {0})
  set_hw_exec_bp slot addr =
      if ltb 3 slot then fail (codes "set_hw_exec_bp: slot out of range (0-3)") else do
        require_attached (codes "set_hw_exec_bp")
        λ d.
            change_context debug_registers d.primary_tid
              (λ ctx. record (set_address slot addr ctx) { dr7 = enable_slot slot ctx.dr7 }) d

  unfoldable pub clear_hw_bp : ℕ → Action Impl (Unit {0})
  clear_hw_bp slot = if ltb 3 slot then fail (codes "clear_hw_bp: slot out of range (0-3)") else do
    require_attached (codes "clear_hw_bp")
    λ d.
        change_context debug_registers d.primary_tid
          (λ ctx. record (set_address slot 0 ctx) { dr7 = disable_slot slot ctx.dr7 }) d
