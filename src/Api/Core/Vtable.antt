-- ===== src/Api/Core/Vtable.antt =====
-- `kCoreVTable`, `irida_session_create_native` and `irida_session_destroy_native` of
-- irida-api/src/capi_target.cpp.
use irida.Common.{Assoc, List, Option, Text, [], none, some, ℕ}
use irida.Base.{ok, err}
use irida.Disasm.{Disassembler}
use irida.Binfmt.Binary.{BinaryParser}
use irida.Backend.{Backend, AttachSpec, native_process}
use irida.Target as Target
use irida.Api.{BackendVTable, Session}
use irida.Api.Dispatch.{session_create}
use irida.Api.Core.{
  CoreCtx, core_ctx, core_registers, core_modules, core_maps, core_threads, core_run_state, core_pc,
  core_state_epoch, core_step, core_cont, core_noop, core_read_memory, core_breakpoints,
  core_backtrace, core_strings, core_functions, core_function_blocks, core_xrefs_to,
}
use irida.Api.Core.Main.{
  core_disasm, core_sections, core_imports, core_exports, core_symbols, run_analysis,
}

abbrev pub native_spec : ℕ → AttachSpec
native_spec pid = record { method = native_process; host = []; port = 0; pid = pid }

module _ (B : Backend) (parser : BinaryParser) (D : Disassembler) (keys : Assoc Text → List ℕ)
    (fuel : ℕ) where
  unfoldable pub core_vtable : BackendVTable (CoreCtx B)
  core_vtable = record {
    registers = some (core_registers B);
    modules = some (core_modules B);
    maps = some (core_maps B);
    threads = some (core_threads B);
    disasm = some (core_disasm B parser D);
    run_state = some (core_run_state B);
    pc = some (core_pc B);
    state_epoch = some (core_state_epoch B);
    step_into = some (core_step B);
    step_over = some (core_step B);
    step_out = some (core_step B);
    cont = some (core_cont B);
    brk = some (core_noop B);
    restart = some (core_noop B);
    stop = some (core_noop B);
    read_memory = some (core_read_memory B);
    breakpoints = some (core_breakpoints B);
    bp_toggle = some (λ addr. core_noop B);
    bp_set_enabled = some (λ addr enabled. core_noop B);
    backtrace = some (core_backtrace B);
    sections = some (core_sections B parser);
    imports = some (core_imports B parser);
    get_exports = some (core_exports B parser);
    symbols = some (core_symbols B parser);
    strings = some (core_strings B);
    analyze = some (run_analysis B parser D keys fuel);
    functions = some (core_functions B);
    function_blocks = some (core_function_blocks B);
    xrefs_to = some (core_xrefs_to B);
  }

  -- The new backend attaches to the process, and the target to the backend; the allocations succeed.
  unfoldable pub session_create_native : ℕ → B.State → Option (Session (CoreCtx B))
  session_create_native pid new_backend =
      let connected = B.attach (native_spec pid) new_backend in
      elim connected.0 [
        | err e ↦ none
        | ok done ↦
            let attached = Target.attach B connected.1 in
            elim attached.0 [
              | err e ↦ none
              | ok done' ↦ session_create (some core_vtable) (core_ctx B attached.1)
            ]
      ]
