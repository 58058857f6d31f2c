-- ===== src/Api/Views.antt =====
-- What capi_static.cpp and capi_target.cpp of irida-api/src both have: the text of an instruction's
-- bytes, the target of its operands, the symbol map, and the rows of the listings.
pub mod Names
pub mod Targets
pub mod Digits
use irida.Common.{
  Assoc, Bool, List, Option, Text, [], assign, codes, drop, false, get_or, if◌then◌else◌, leb, map,
  negsuc, none, not, pos, some, sym, take, true, ℕ, ℤ, ◌%◌, ◌&&◌, ◌*◌, ◌++◌, ◌+◌, ◌-◌, ◌/◌, ◌==◌,
  ◌^◌, ◌∷◌,
}
use irida.Common as Common
use irida.Base.{Bytes}
use irida.Disasm.{Instruction, Operand, OperandKind, immediate, pointer, memory}
use irida.Analysis as Analysis
use irida.Analysis.{call, jump, data_ref, AnalysisResult}
use irida.Binfmt as Binfmt
use irida.Binfmt.Binary as Binary
use irida.Binfmt.Binary.{BinaryInfo}
use irida.Api.{InsnRow, Section, Import, Export, Symbol, String, Function, BasicBlock, Xref}

abbrev max_insn_bytes : ℕ
max_insn_bytes = 15

-- `count * kMaxInsnBytes`
abbrev pub room_for : ℕ → ℕ
room_for count = count * max_insn_bytes % 2 ^ 64

abbrev pub digits : Text
digits = codes "0123456789ABCDEF"

abbrev pub upper_byte : ℕ → Text
upper_byte v = get_or digits (v / 16 % 16) 0 ∷ get_or digits (v % 16) 0 ∷ []

-- The bytes behind the first, each with a space before it.
unfoldable pub format_rest : Bytes → Text
format_rest [] = []
format_rest (v ∷ bytes) = b' ' ∷ upper_byte v ++ format_rest bytes

unfoldable pub format_bytes : Bytes → Text
format_bytes [] = []
format_bytes (v ∷ bytes) = upper_byte v ++ format_rest bytes

abbrev is_immediate : OperandKind → Bool
is_immediate immediate = true
is_immediate pointer = true
is_immediate _ = false

abbrev is_memory : OperandKind → Bool
is_memory memory = true
is_memory _ = false

-- A signed 64-bit number added to an unsigned one.
abbrev pub add_signed : ℕ → ℤ → ℕ
add_signed a (pos n) = (a + n) % 2 ^ 64
add_signed a (negsuc n) = (a + (2 ^ 64 - 1 - n % 2 ^ 64)) % 2 ^ 64

-- The first loop of `operand_target`.
unfoldable pub immediate_target : List Operand → Option ℕ
immediate_target [] = none
immediate_target (op ∷ ops) =
    if is_immediate op.kind && not (op.imm == 0) then some op.imm else immediate_target ops

-- The second loop.
unfoldable pub relative_target : Instruction → List Operand → Option ℕ
relative_target insn [] = none
relative_target insn (op ∷ ops) =
    if is_memory op.kind && op.mem.rip_relative
    then some (add_signed (insn.address + insn.length) op.mem.disp)
    else relative_target insn ops

unfoldable pub operand_target : Instruction → Option ℕ
operand_target insn = elim (immediate_target insn.operands) [
  | some imm ↦ some imm
  | none ↦ relative_target insn insn.operands
]

-- `for (x : xs) map[key(x)] = name(x);`
unfoldable pub assign_all : {A : Type 0} → (A → ℕ) → (A → Text) → List A → Assoc Text → Assoc Text
assign_all key name [] m = m
assign_all key name (x ∷ xs) m = assign_all key name xs (assign (key x) (name x) m)

-- The three loops, with what is done to an address on its way into the map.
unfoldable pub fill_symbol_map : (ℕ → ℕ) → BinaryInfo → Assoc Text
fill_symbol_map place bin =
    assign_all (λ imp. place imp.iat_addr) (λ imp. codes "sym.imp." ++ imp.name) bin.imports
      (assign_all (λ exp. place exp.addr) (λ exp. codes "sym." ++ exp.name) bin.exports
        (assign_all (λ sym. place sym.addr) (λ sym. sym.name) bin.symbols []))

-- The row of one instruction among the bytes that were read at `addr`.
unfoldable pub insn_row : Option Text → ℕ → Bytes → Instruction → InsnRow
insn_row annotation addr bytes insn =
    let offset : ℕ = (insn.address + (2 ^ 64 - addr)) % 2 ^ 64 in
    let got : ℕ = Common.length bytes in
    let len : ℕ = if leb (offset + insn.length) got then insn.length else got - offset in
    record {
      address = insn.address;
      text = insn.text;
      annotation = annotation;
      bytes = format_bytes (take len (drop offset bytes));
    }

abbrev pub section_rows : BinaryInfo → List Section
section_rows bin =
    map
      (λ (sec : Binary.Section). record {
        name = sec.name;
        vaddr = sec.vaddr;
        vsize = sec.vsize;
        perms = sec.perms;
      })
      bin.sections

abbrev pub import_rows : BinaryInfo → List Import
import_rows bin =
    map
      (λ (imp : Binary.Import). record {
        name = imp.name;
        library = imp.library;
        addr = imp.iat_addr;
      })
      bin.imports

abbrev pub export_rows : BinaryInfo → List Export
export_rows bin =
    map
      (λ (exp : Binary.Export). record { name = exp.name; addr = exp.addr; ordinal = exp.ordinal })
      bin.exports

abbrev pub symbol_rows : BinaryInfo → List Symbol
symbol_rows bin =
    map (λ (sym : Binary.Symbol). record { name = sym.name; addr = sym.addr; kind = sym.kind })
      bin.symbols

abbrev pub string_rows : List Binfmt.FoundString → List String
string_rows found = map (λ (s : Binfmt.FoundString). record { addr = s.addr; text = s.text }) found

abbrev pub function_rows : AnalysisResult → List Function
function_rows analysis =
    map
      (λ (fn : Analysis.Function). record {
        addr = fn.addr;
        size = fn.size;
        name = fn.name;
        block_count = Common.length fn.blocks;
      })
      analysis.functions

abbrev block_row : Analysis.BasicBlock → BasicBlock
block_row bb = record { addr = bb.addr; size = bb.size; jump = bb.jump; fail = bb.fail }

-- The blocks of the first function at the address.
unfoldable pub block_rows : ℕ → List Analysis.Function → List BasicBlock
block_rows fn_addr [] = []
block_rows fn_addr (fn ∷ fns) =
    if fn.addr == fn_addr then map block_row fn.blocks else block_rows fn_addr fns

abbrev pub kind_code : Analysis.XrefKind → ℕ
kind_code call = 0
kind_code jump = 1
kind_code data_ref = 2

unfoldable pub xref_rows : ℕ → List Analysis.Xref → List Xref
xref_rows addr [] = []
xref_rows addr (x ∷ xs) =
    let more = xref_rows addr xs in
    if x.to == addr
    then record { from = x.from; to = x.to; kind = kind_code x.kind } ∷ more
    else more
