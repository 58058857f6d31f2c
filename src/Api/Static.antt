-- ===== src/Api/Static.antt =====
-- irida-api/src/capi_static.cpp: a session on a file. The vectors that back borrowed pointers are
-- left out: a listing is the rows themselves.
pub mod Reads
pub mod Rows
pub mod Sessions
pub mod Names
use irida.Common.{
  Assoc, Bool, List, Option, Text, [], drop, if◌then◌else◌, leb, length, lookup, ltb, map, min,
  none, not, some, take, ℕ, ◌%◌, ◌++◌, ◌+◌, ◌-◌, ◌==◌, ◌^◌, ◌||◌, ◌∷◌,
}
use irida.Base.{Bytes, ok, err}
use irida.Disasm.{Instruction, Disassembler, decode_linear}
use irida.Analysis.{AnalysisResult, ByteReader}
use irida.Analysis.Analyzer as Analyzer
use irida.Binfmt.{scan_strings, default_min_len}
use irida.Binfmt.Binary.{Section, BinaryInfo, BinaryParser}
use irida.Api as Api
use irida.Api.{Listing, listing, no_rows, RunState, stopped, BackendVTable, Session}
use irida.Api.Dispatch.{session_create}
use irida.Api.Views.{
  room_for, fill_symbol_map, insn_row, section_rows, import_rows, export_rows, symbol_rows,
  operand_target, string_rows, function_rows, block_rows, xref_rows,
}

pub record StaticCtx : Type 0 where
  pub bin : BinaryInfo
  pub image : Bytes
  pub symbol_map : Assoc Text
  pub analysis : AnalysisResult

-- `sec.vaddr + sec.vsize`
abbrev pub section_end : Section → ℕ
section_end sec = (sec.vaddr + sec.vsize) % 2 ^ 64

abbrev pub contains : Section → ℕ → Bool
contains sec vaddr = not (ltb vaddr sec.vaddr || leb (section_end sec) vaddr)

-- What the section that holds the address gives, for `len` bytes of room.
unfoldable pub read_section : Bytes → ℕ → ℕ → Section → Bytes
read_section image vaddr len sec =
    let within : ℕ = vaddr - sec.vaddr in
    let file_off : ℕ = (sec.offset + within) % 2 ^ 64 in
    if leb sec.size within
    then []
    else if leb (length image) file_off
    then []
    else take (min (min len (length image - file_off)) (sec.size - within)) (drop file_off image)

-- The loop over the sections.
unfoldable pub read_sections : Bytes → ℕ → ℕ → List Section → Bytes
read_sections image vaddr len [] = []
read_sections image vaddr len (sec ∷ secs) =
    if contains sec vaddr
    then read_section image vaddr len sec
    else read_sections image vaddr len secs

unfoldable pub read_at : ℕ → ℕ → StaticCtx → Bytes
read_at vaddr len c = read_sections c.image vaddr len c.bin.sections

unfoldable pub resolve_symbol : StaticCtx → ℕ → Option Text
resolve_symbol c addr = lookup addr c.symbol_map

-- The name of what an instruction refers to.
abbrev pub annotation_of : StaticCtx → Instruction → Option Text
annotation_of c insn = elim (operand_target insn) [ none ↦ none | some tgt ↦ resolve_symbol c tgt ]

-- `load`: the file's bytes are what could be read of the path. An empty file is refused.
unfoldable pub load : (Text → Option Bytes) → BinaryParser → Text → Option StaticCtx
load read_file parser path = elim (read_file path) [
  | none ↦ none
  | some [] ↦ none
  | some (b ∷ bytes) ↦ elim (parser.parse_file path) [
    | err e ↦ none
    | ok bin ↦ some (record {
      bin = bin;
      image = b ∷ bytes;
      symbol_map = fill_symbol_map (λ addr. addr) bin;
      analysis = record { functions = []; xrefs = [] };
    })
  ]
]

abbrev pub entry_of : BinaryInfo → List ℕ
entry_of bin = if bin.entry_point == 0 then [] else bin.entry_point ∷ []

-- The largest `span` of the loop over the sections.
unfoldable pub span_from : ℕ → List Section → ℕ
span_from span [] = span
span_from span (sec ∷ secs) =
    span_from (if ltb span (section_end sec) then section_end sec else span) secs

unfoldable pub static_modules : StaticCtx → Listing Api.Module × StaticCtx
static_modules c =
    let span : ℕ = span_from 0 c.bin.sections in
    let size : ℕ = if ltb c.bin.image_base span then span - c.bin.image_base else span in
    (listing (record { name = c.bin.path; base = c.bin.image_base; size = size } ∷ []), c)

unfoldable pub static_sections : StaticCtx → Listing Api.Section × StaticCtx
static_sections c = (listing (section_rows c.bin), c)

unfoldable pub static_imports : StaticCtx → Listing Api.Import × StaticCtx
static_imports c = (listing (import_rows c.bin), c)

unfoldable pub static_exports : StaticCtx → Listing Api.Export × StaticCtx
static_exports c = (listing (export_rows c.bin), c)

unfoldable pub static_symbols : StaticCtx → Listing Api.Symbol × StaticCtx
static_symbols c = (listing (symbol_rows c.bin), c)

-- The scan is over the image of the file.
unfoldable pub static_strings : StaticCtx → Listing Api.String × StaticCtx
static_strings c =
    (listing (string_rows (scan_strings c.image c.bin.image_base default_min_len)), c)

unfoldable pub static_functions : StaticCtx → Listing Api.Function × StaticCtx
static_functions c = (listing (function_rows c.analysis), c)

unfoldable pub static_function_blocks : ℕ → StaticCtx → Listing Api.BasicBlock × StaticCtx
static_function_blocks fn_addr c = (listing (block_rows fn_addr c.analysis.functions), c)

unfoldable pub static_xrefs_to : ℕ → StaticCtx → Listing Api.Xref × StaticCtx
static_xrefs_to addr c = (listing (xref_rows addr c.analysis.xrefs), c)

-- The operations of a live session, inert.
abbrev pub static_empty : {R : Type 0} → StaticCtx → Listing R × StaticCtx
static_empty c = (no_rows, c)

abbrev pub static_noop : StaticCtx → StaticCtx
static_noop c = c

abbrev pub static_run_state : StaticCtx → RunState
static_run_state c = stopped

abbrev pub static_pc : StaticCtx → ℕ
static_pc c = c.bin.entry_point

abbrev pub static_epoch : StaticCtx → ℕ
static_epoch c = 1

unfoldable pub static_read_memory : ℕ → ℕ → StaticCtx → Bytes × StaticCtx
static_read_memory addr len c = (read_at addr len c, c)

module _ (D : Disassembler) where
  -- The bytes that were read, decoded.
  unfoldable pub disasm_rows : ℕ → ℕ → StaticCtx → List Api.InsnRow
  disasm_rows addr count c =
      let bytes : Bytes = read_at addr (room_for count) c in
      map (λ insn. insn_row (annotation_of c insn) addr bytes insn)
        (decode_linear D bytes addr count)

  -- With no count, or nothing read, there is nothing to decode.
  unfoldable pub static_disasm : ℕ → ℕ → StaticCtx → Listing Api.InsnRow × StaticCtx
  static_disasm addr count c =
      if count == 0
      then (no_rows, c)
      else if length (read_at addr (room_for count) c) == 0
      then (no_rows, c)
      else (listing (disasm_rows addr count c), c)

abbrev reader : ByteReader StaticCtx
reader addr len c = (read_at addr len c, c)

-- A hash table is walked in the order that its implementation chooses: `keys`.
module _ (D : Disassembler) (keys : Assoc Text → List ℕ) (fuel : ℕ) where
  -- `analyze`; `none` means that the fuel ran out.
  unfoldable pub static_analyze : StaticCtx → Option StaticCtx
  static_analyze c =
      elim (Analyzer.analyze D reader (resolve_symbol c) fuel (entry_of c.bin ++ keys c.symbol_map)
        c) [ none ↦ none | some (analysis, c') ↦ some (record c' { analysis = analysis }) ]

  unfoldable pub static_vtable : BackendVTable StaticCtx
  static_vtable = record {
    registers = some static_empty;
    modules = some static_modules;
    maps = some static_empty;
    threads = some static_empty;
    disasm = some (static_disasm D);
    run_state = some static_run_state;
    pc = some static_pc;
    state_epoch = some static_epoch;
    step_into = some static_noop;
    step_over = some static_noop;
    step_out = some static_noop;
    cont = some static_noop;
    brk = some static_noop;
    restart = some static_noop;
    stop = some static_noop;
    read_memory = some static_read_memory;
    breakpoints = some static_empty;
    bp_toggle = some (λ addr. static_noop);
    bp_set_enabled = some (λ addr enabled. static_noop);
    backtrace = some static_empty;
    sections = some static_sections;
    imports = some static_imports;
    get_exports = some static_exports;
    symbols = some static_symbols;
    strings = some static_strings;
    analyze = some static_analyze;
    functions = some static_functions;
    function_blocks = some static_function_blocks;
    xrefs_to = some static_xrefs_to;
  }

  -- `irida_session_create_file`, where the allocations succeed; `none` is a null path.
  unfoldable pub session_create_file :
      (Text → Option Bytes) → BinaryParser → Option Text → Option (Session StaticCtx)
  session_create_file read_file parser none = none
  session_create_file read_file parser (some path) = elim (load read_file parser path) [
    | none ↦ none
    | some c ↦ session_create (some static_vtable) c
  ]
