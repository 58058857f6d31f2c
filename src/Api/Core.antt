-- ===== src/Api/Core.antt =====
-- irida-api/src/capi_target.cpp: a session on a live target. The vectors that back borrowed pointers
-- are left out: a listing is the rows themselves.
pub mod Main
pub mod Quiet
pub mod Vtable
pub mod Sessions
pub mod Names
pub mod Backtrace
use irida.Common.{
  Assoc, Bool, List, Option, Text, [], codes, drop, false, if◌then◌else◌, leb, ltb, map, min, none,
  some, suc, take, zero, ℕ, ◌%◌, ◌*◌, ◌+◌, ◌-◌, ◌==◌, ◌^◌, ◌||◌, ◌∷◌,
}
use irida.Common as Common
use irida.Base.{Bytes, Result, ok, err}
use irida.Analysis.{AnalysisResult}
use irida.Binfmt.{scan_strings, default_min_len}
use irida.Binfmt.Binary.{BinaryInfo}
use irida.Backend as Backend
use irida.Target as Target
use irida.Target.{Target}
use irida.Target.RegisterSet.{RegisterSet, get, decode_le}
use irida.Api as Api
use irida.Api.{
  Register, Thread, Frame, String, Function, BasicBlock, Xref, Breakpoint, Listing, listing,
  no_rows, RunState, stopped,
}
use irida.Api.Views.{fill_symbol_map, string_rows, function_rows, block_rows, xref_rows}

abbrev pub max_backtrace_frames : ℕ
max_backtrace_frames = 64

abbrev pub strings_scan_cap : ℕ
strings_scan_cap = 1024 * 1024

-- `module_base + (file_addr - file_base)`, for addresses below 2 ^ 64.
unfoldable pub rebase : ℕ → ℕ → ℕ → ℕ
rebase module_base file_base file_addr = (module_base + (file_addr + (2 ^ 64 - file_base))) % 2 ^ 64

unfoldable pub build_symbol_map : BinaryInfo → ℕ → ℕ → Assoc Text
build_symbol_map bin module_base file_base = fill_symbol_map (rebase module_base file_base) bin

-- `BinaryInfo main_bin;`
abbrev pub no_binary : BinaryInfo
no_binary = record {
  path = [];
  format = [];
  entry_point = 0;
  image_base = 0;
  is_64bit = false;
  sections = [];
  imports = [];
  exports = [];
  symbols = [];
}

-- The sum of the sizes, not 0.
abbrev pub has_content : BinaryInfo → Bool
has_content bin = ltb 0 (
    Common.length bin.sections
    + Common.length bin.imports
    + Common.length bin.exports
    + Common.length bin.symbols)

abbrev pub module_row : Backend.Module → Api.Module
module_row m = record { name = m.name; base = m.base; size = m.size }

abbrev pub map_row : Backend.MemMap → Api.MemMap
map_row m = record { start = m.start; end = m.end; perms = m.perms; name = m.name }

abbrev pub thread_row : Backend.ThreadInfo → Thread
thread_row t = record { tid = t.tid; pc = t.pc; current = if t.current then 1 else 0 }

module _ (B : Backend.Backend) where
  pub record CoreCtx : Type 0 where
    pub target : Target B
    pub main_bin : BinaryInfo
    pub binary_parsed : Bool
    pub symbol_map : Assoc Text
    pub analysis : AnalysisResult
    pub bp_rows : List Breakpoint

  -- `IridaCoreCtx(Target t)`
  unfoldable pub core_ctx : Target B → CoreCtx
  core_ctx t = record {
    target = t;
    main_bin = no_binary;
    binary_parsed = false;
    symbol_map = [];
    analysis = record { functions = []; xrefs = [] };
    bp_rows = [];
  }

  -- `target.registers()`: a session's target has been attached, so there is a state.
  unfoldable pub registers_of : CoreCtx → RegisterSet
  registers_of c = elim (Target.registers B c.target) [ none ↦ [] | some regs ↦ regs ]

  -- `get(name).value_or(0)`
  unfoldable pub register_or_zero : Text → CoreCtx → ℕ
  register_or_zero name c = elim (get (registers_of c) name) [ none ↦ 0 | some v ↦ v ]

  -- A call of the target, for a value: `none` where it fails.
  abbrev pub ask : {A : Type 0} → (Target B → Result A × Target B) → CoreCtx → Option A × CoreCtx
  ask call c =
      let c' : CoreCtx = record c { target = (call c.target).1 } in
      elim (call c.target).0 [ ok a ↦ (some a, c') | err e ↦ (none, c') ]

  -- A call of the target for a list of things, shown as rows.
  abbrev pub show_all :
      {A R : Type 0}
      → (Target B → Result (List A) × Target B)
      → (A → R)
      → CoreCtx
      → Listing R × CoreCtx
  show_all call row c =
      let asked = ask call c in
      elim asked.0 [ none ↦ (no_rows, asked.1) | some all ↦ (listing (map row all), asked.1) ]

  unfoldable pub core_modules : CoreCtx → Listing Api.Module × CoreCtx
  core_modules = show_all (Target.modules B) module_row

  unfoldable pub core_maps : CoreCtx → Listing Api.MemMap × CoreCtx
  core_maps = show_all (Target.maps B) map_row

  unfoldable pub core_threads : CoreCtx → Listing Thread × CoreCtx
  core_threads = show_all (Target.threads B) thread_row

  unfoldable pub core_registers : CoreCtx → Listing Register × CoreCtx
  core_registers c =
      (listing (map (λ r. record { name = r.0; value = r.1; hint = none }) (registers_of c)), c)

  unfoldable pub core_run_state : CoreCtx → RunState
  core_run_state c = stopped

  unfoldable pub core_pc : CoreCtx → ℕ
  core_pc = register_or_zero (codes "rip")

  unfoldable pub core_state_epoch : CoreCtx → ℕ
  core_state_epoch c = c.target.epoch

  unfoldable pub core_step : CoreCtx → CoreCtx
  core_step c = record c { target = (Target.step B c.target).1 }

  unfoldable pub core_cont : CoreCtx → CoreCtx
  core_cont c = record c { target = (Target.cont B c.target).1 }

  abbrev pub core_noop : CoreCtx → CoreCtx
  core_noop c = c

  unfoldable pub core_read_memory : ℕ → ℕ → CoreCtx → Bytes × CoreCtx
  core_read_memory addr len c =
      let asked = ask (Target.read_memory B addr len) c in
      elim asked.0 [ none ↦ ([], asked.1) | some bytes ↦ (take len bytes, asked.1) ]

  unfoldable pub core_breakpoints : CoreCtx → Listing Breakpoint × CoreCtx
  core_breakpoints c = (listing c.bp_rows, c)

  -- What the saved frame at `fp` says: the frame that called it, or that the walk ends.
  unfoldable pub caller_of : ℕ → Option Bytes → Option Frame
  caller_of fp none = none
  caller_of fp (some mem) =
      let saved_rbp : ℕ = decode_le (take 8 mem) in
      let ret_addr : ℕ = decode_le (take 8 (drop 8 mem)) in
      if ltb (Common.length mem) 16
      then none
      else if leb saved_rbp fp || ret_addr == 0
      then none
      else some (record { pc = ret_addr; frame_ptr = saved_rbp })

  -- The loop over at most so many frames.
  unfoldable pub walk : ℕ → ℕ → CoreCtx → List Frame × CoreCtx
  walk zero fp c = ([], c)
  walk (suc left) fp c =
      let asked = ask (Target.read_memory B fp 16) c in
      elim (caller_of fp asked.0) [
        | none ↦ ([], asked.1)
        | some frame ↦ let more = walk left frame.frame_ptr asked.1 in (frame ∷ more.0, more.1)
      ]

  unfoldable pub core_backtrace : CoreCtx → Listing Frame × CoreCtx
  core_backtrace c =
      let pc : ℕ = register_or_zero (codes "rip") c in
      let fp : ℕ = register_or_zero (codes "rbp") c in
      let frames = walk max_backtrace_frames fp c in
      (listing (record { pc = pc; frame_ptr = fp } ∷ frames.0), frames.1)

  -- The first module's bytes are scanned, as far as the cap.
  unfoldable pub core_strings : CoreCtx → Listing String × CoreCtx
  core_strings c =
      let asked = ask (Target.modules B) c in
      elim asked.0 [
        | none ↦ (no_rows, asked.1)
        | some [] ↦ (no_rows, asked.1)
        | some (main ∷ others) ↦
            let len : ℕ = min main.size strings_scan_cap in
            let read = ask (Target.read_memory B main.base len) asked.1 in
            if len == 0 then (no_rows, asked.1) else elim read.0 [
              | none ↦ (no_rows, read.1)
              | some bytes ↦
                  (listing (string_rows (scan_strings bytes main.base default_min_len)), read.1)
            ]
      ]

  unfoldable pub core_functions : CoreCtx → Listing Function × CoreCtx
  core_functions c = (listing (function_rows c.analysis), c)

  unfoldable pub core_function_blocks : ℕ → CoreCtx → Listing BasicBlock × CoreCtx
  core_function_blocks fn_addr c = (listing (block_rows fn_addr c.analysis.functions), c)

  unfoldable pub core_xrefs_to : ℕ → CoreCtx → Listing Xref × CoreCtx
  core_xrefs_to addr c = (listing (xref_rows addr c.analysis.xrefs), c)
