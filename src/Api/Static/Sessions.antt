-- ===== src/Api/Static/Sessions.antt =====
-- Sequences of calls on a session of irida-api/src/capi_static.cpp.
use irida.Common.{Assoc, List, Option-cases, Text, arith, inl, inr, refl, some, ℕ, ◌++◌, ◌≡◌}
use irida.Disasm.{Disassembler}
use irida.Analysis.Analyzer as Analyzer
use irida.Analysis.Keeps.{Leaves, analyze-keeps}
use irida.Api.Calls.{Call, run}
use irida.Api.Calls.Keeps.{Keeps, Holds, run-Holds}
use irida.Api.Static.{
  StaticCtx, reader, resolve_symbol, entry_of, static_disasm, static_analyze, static_vtable,
  static_modules, static_sections, static_imports, static_exports, static_symbols, static_strings,
  static_functions, static_function_blocks, static_xrefs_to, static_read_memory,
}

-- The same file, as it was loaded: only the analysis may differ.
pub record SameFile (c d : StaticCtx) : Type 0 where
  pub bin : d.bin ≡ c.bin
  pub image : d.image ≡ c.image
  pub symbol_map : d.symbol_map ≡ c.symbol_map

same_file : (c : StaticCtx) → SameFile c c
same_file c = record { bin = refl; image = refl; symbol_map = refl }

module _ (D : Disassembler) (keys : Assoc Text → List ℕ) (fuel : ℕ) where
  static_analyze-SameFile :
      (c d : StaticCtx) → SameFile c d → Leaves (SameFile c) (λ e. e) (static_analyze D keys fuel d)
  unfolding static_analyze
  static_analyze-SameFile c d h =
      let entries = entry_of d.bin ++ keys d.symbol_map in
      let kept =
        analyze-keeps D reader (SameFile c) (λ addr len e k. k) (resolve_symbol d) fuel entries d
          h in
      elim (Option-cases (Analyzer.analyze D reader (resolve_symbol d) fuel entries d)) [
        | inl n ↦ rw (n, static_analyze) tt
        | inr ((analysis, e), n) ↦
            let k = rw n at kept in
            rw (n, static_analyze)
              (record { bin = k.bin; image = k.image; symbol_map = k.symbol_map })
      ]

  static_vtable-Keeps : (c : StaticCtx) → Keeps (static_vtable D keys fuel) (SameFile c)
  unfolding static_vtable static_modules static_sections static_imports static_exports
      static_symbols static_strings static_functions static_function_blocks static_xrefs_to
      static_read_memory static_disasm
  static_vtable-Keeps c = record {
    registers = λ d h. h;
    modules = λ d h. h;
    maps = λ d h. h;
    threads = λ d h. h;
    breakpoints = λ d h. h;
    backtrace = λ d h. h;
    sections = λ d h. h;
    imports = λ d h. h;
    exports = λ d h. h;
    symbols = λ d h. h;
    strings = λ d h. h;
    functions = λ d h. h;
    disasm = disasm-SameFile;
    function_blocks = λ addr d h. h;
    xrefs_to = λ addr d h. h;
    read_memory = λ addr len d h. h;
    analyze = static_analyze-SameFile c;
    bp_toggle = λ addr d h. h;
    bp_set_enabled = λ addr enabled d h. h;
    step_into = λ d h. h;
    step_over = λ d h. h;
    step_out = λ d h. h;
    continue = λ d h. h;
    break = λ d h. h;
    restart = λ d h. h;
    stop = λ d h. h;
  }
    where
      disasm-SameFile :
          (addr count : ℕ) (d : StaticCtx)
          → SameFile c d
          → SameFile c (static_disasm D addr count d).1
      disasm-SameFile addr count d h = ground arith

  -- After any sequence of calls that ends, a session on a file is still there, with its vtable, its
  -- file's contents and its names: reads and disassembly answer as before.
  pub run-SameFile :
      (calls : List Call) (c : StaticCtx)
      → Leaves
          (Holds (static_vtable D keys fuel) (SameFile c))
          (λ s. s)
          (run calls (some (record { vt = static_vtable D keys fuel; ctx = c })))
  run-SameFile calls c =
      run-Holds (static_vtable D keys fuel) (SameFile c) calls _ (static_vtable-Keeps c)
        (refl, same_file c)
