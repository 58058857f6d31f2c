-- ===== src/Mock/Listings.antt =====
-- The listings of irida-ui/mock/src/mock_backend.cpp.
use irida.Common.{
  List, Option, Text, [], codes, drop, get_or, if◌then◌else◌, map, none, some, take, ℕ, ◌%◌, ◌+◌,
  ◌==◌, ◌^◌, ◌∷◌,
}
use irida.Api.{
  Register, Module, MemMap, Thread, InsnRow, Frame, Section, Import, Export, Symbol, String,
  Function, BasicBlock, Xref, Breakpoint, Listing, listing, no_rows,
}
use irida.Mock.{MockState, Insn, stream, first_address, stream_address, reg_names, rbp, index_of}

-- The rows of the registers, of which the first has a hint.
unfoldable pub register_rows : Option Text → List Text → List ℕ → List Register
register_rows hint [] values = []
register_rows hint (name ∷ names) values =
    record { name = name; value = get_or values 0 0; hint = hint }
    ∷ register_rows none names (drop 1 values)

unfoldable pub mock_registers : MockState → Listing Register × MockState
mock_registers s =
    (listing (register_rows (some (codes "-> module base (ntdll.dll)")) reg_names s.regs), s)

unfoldable pub mock_modules : MockState → Listing Module × MockState
mock_modules s = (
  listing (
      record { name = codes "ntdll.dll"; base = 0x7ff6abcd0000; size = 0x1f0000 }
      ∷ record { name = codes "kernel32.dll"; base = 0x7ff6aa000000; size = 0x0d0000 }
      ∷ []),
  s,
)

unfoldable pub mock_maps : MockState → Listing MemMap × MockState
mock_maps s = (
  listing (
      record { start = 0x7ff6abcd0000; end = 0x7ff6abec0000; perms = 5; name = codes "ntdll.dll" }
      ∷ record {
        start = 0x7ff6aa000000;
        end = 0x7ff6aa0d0000;
        perms = 5;
        name = codes "kernel32.dll";
      }
      ∷ record { start = 0x14f000; end = 0x150000; perms = 6; name = [] }
      ∷ []),
  s,
)

unfoldable pub mock_threads : MockState → Listing Thread × MockState
mock_threads s = (
  listing (
      record { tid = 1001; pc = first_address; current = 1 }
      ∷ record { tid = 1002; pc = 0; current = 0 }
      ∷ []),
  s,
)

abbrev insn_row : Insn → InsnRow
insn_row insn = record {
  address = insn.address;
  text = insn.text;
  annotation = insn.annotation;
  bytes = insn.bytes;
}

-- The rows from the instruction at the address on; an address that is not in the stream has none.
unfoldable pub disasm_rows : ℕ → ℕ → List InsnRow
disasm_rows addr count = elim (index_of addr 0 stream) [
  | none ↦ []
  | some start ↦ map insn_row (take count (drop start stream))
]

unfoldable pub mock_disasm : ℕ → ℕ → MockState → Listing InsnRow × MockState
mock_disasm addr count s = (listing (disasm_rows addr count), s)

unfoldable pub mock_breakpoints : MockState → Listing Breakpoint × MockState
mock_breakpoints s = (listing s.bps, s)

unfoldable pub mock_backtrace : MockState → Listing Frame × MockState
mock_backtrace s =
    let base : ℕ = get_or s.regs rbp 0 in
    (
      listing (
          record { pc = s.pc; frame_ptr = base }
          ∷ record { pc = stream_address 6; frame_ptr = (base + 0x30) % 2 ^ 64 }
          ∷ record { pc = 0x7FF6AA012000; frame_ptr = (base + 0x70) % 2 ^ 64 }
          ∷ []),
      s,
    )

unfoldable pub mock_sections : MockState → Listing Section × MockState
mock_sections s = (
  listing (
      record { name = codes ".text"; vaddr = 0x1000; vsize = 0x2000; perms = 5 }
      ∷ record { name = codes ".data"; vaddr = 0x3000; vsize = 0x1000; perms = 6 }
      ∷ []),
  s,
)

unfoldable pub mock_imports : MockState → Listing Import × MockState
mock_imports s = (
  listing (
      record { name = codes "CreateFileW"; library = codes "kernel32.dll"; addr = 0x7ff6aa010000 }
      ∷ record { name = codes "NtClose"; library = codes "ntdll.dll"; addr = 0x7ff6abcd1000 }
      ∷ []),
  s,
)

unfoldable pub mock_exports : MockState → Listing Export × MockState
mock_exports s = (
  listing (
      record { name = codes "DllMain"; addr = 0x7ff751fa1000; ordinal = 1 }
      ∷ record { name = codes "ProcessData"; addr = 0x7ff751fa1200; ordinal = 2 }
      ∷ []),
  s,
)

unfoldable pub mock_symbols : MockState → Listing Symbol × MockState
mock_symbols s = (
  listing (record { name = codes "main"; addr = 0x7ff751fa2440; kind = codes "function" } ∷ []),
  s,
)

unfoldable pub mock_strings : MockState → Listing String × MockState
mock_strings s = (
  listing (
      record { addr = 0x7ff6abcd0020; text = codes "ntdll.dll" }
      ∷ record { addr = 0x7ff6abcd0100; text = codes "CreateFileW" }
      ∷ record { addr = 0x7ff6abcd0200; text = codes "Invalid parameter" }
      ∷ []),
  s,
)

unfoldable pub mock_functions : MockState → Listing Function × MockState
mock_functions s = (
  listing (
      record { addr = 0x7FF751FA2440; size = 0x1A; name = codes "main"; block_count = 2 }
      ∷ record { addr = 0x7FF751FA2500; size = 0x08; name = codes "sym.helper"; block_count = 1 }
      ∷ []),
  s,
)

abbrev main_blocks : List BasicBlock
main_blocks =
    record { addr = 0x7FF751FA2440; size = 0x19; jump = 0x7FF751FA2460; fail = 0x7FF751FA2459 }
    ∷ record { addr = 0x7FF751FA2459; size = 0x01; jump = 0; fail = 0 }
    ∷ []

abbrev helper_blocks : List BasicBlock
helper_blocks = record { addr = 0x7FF751FA2500; size = 0x08; jump = 0; fail = 0 } ∷ []

unfoldable pub mock_function_blocks : ℕ → MockState → Listing BasicBlock × MockState
mock_function_blocks fn_addr s =
    if fn_addr == 0x7FF751FA2440
    then (listing main_blocks, s)
    else if fn_addr == 0x7FF751FA2500
    then (listing helper_blocks, s)
    else (no_rows, s)

unfoldable pub mock_xrefs_to : ℕ → MockState → Listing Xref × MockState
mock_xrefs_to addr s =
    if addr == 0x7FF751FA2500
    then (listing (record { from = 0x7FF751FA244F; to = 0x7FF751FA2500; kind = 0 } ∷ []), s)
    else (no_rows, s)
