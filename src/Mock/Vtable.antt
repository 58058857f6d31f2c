-- ===== src/Mock/Vtable.antt =====
-- The vtable and the creation of a session of irida-ui/mock/src/mock_backend.cpp.
pub mod Runs
use irida.Common.{Option, [], some}
use irida.Api.{BackendVTable, Session}
use irida.Api.Dispatch.{session_create}
use irida.Mock.{
  MockState, mock_step_into, mock_step_over, mock_step_out, mock_cont, mock_brk, mock_restart,
  mock_stop, mock_read_memory, mock_bp_toggle, mock_bp_set_enabled, first_address, reset_regs,
}
use irida.Mock.Listings.{
  mock_registers, mock_modules, mock_maps, mock_threads, mock_disasm, mock_breakpoints,
  mock_backtrace, mock_sections, mock_imports, mock_exports, mock_symbols, mock_strings,
  mock_functions, mock_function_blocks, mock_xrefs_to,
}

unfoldable pub mock_vtable : BackendVTable MockState
mock_vtable = record {
  registers = some mock_registers;
  modules = some mock_modules;
  maps = some mock_maps;
  threads = some mock_threads;
  disasm = some mock_disasm;
  run_state = some (λ s. s.run_state);
  pc = some (λ s. s.pc);
  state_epoch = some (λ s. s.epoch);
  step_into = some mock_step_into;
  step_over = some mock_step_over;
  step_out = some mock_step_out;
  cont = some mock_cont;
  brk = some mock_brk;
  restart = some mock_restart;
  stop = some mock_stop;
  read_memory = some mock_read_memory;
  breakpoints = some mock_breakpoints;
  bp_toggle = some mock_bp_toggle;
  bp_set_enabled = some mock_bp_set_enabled;
  backtrace = some mock_backtrace;
  sections = some mock_sections;
  imports = some mock_imports;
  get_exports = some mock_exports;
  symbols = some mock_symbols;
  strings = some mock_strings;
  analyze = some (λ s. some s);
  functions = some mock_functions;
  function_blocks = some mock_function_blocks;
  xrefs_to = some mock_xrefs_to;
}

-- `irida_mock_create`, from what earlier sessions left in the static state.
unfoldable pub mock_create : MockState → Option (Session MockState)
mock_create s =
    session_create (some mock_vtable)
      (record s { pc = first_address; regs = reset_regs; epoch = 1; bps = [] })
