-- ===== src/Api/Tests.antt =====
-- A small executable, opened as a file and behind a guest that stands still.
use irida.Common.{
  Assoc, List, Text, [], arith, codes, drop, inl, map, refl, some, true, ℕ, ◌+◌, ◌∷◌, ◌≡◌, ◌≤◌,
}
use irida.Common as Common
use irida.Base.{Bytes, ok}
use irida.Analysis.Keeps.{Leaves}
use irida.Disasm.{decode_linear}
use irida.Disasm.Tests.{nops, nops-Decodes}
use irida.Target.Tests.{still}
use irida.Binfmt.Binary.{BinaryInfo, BinaryParser}
use irida.Backend.{Backend, Module}
use irida.Target as Target
use irida.Target.RegisterSet
use irida.Api.{Frame, Session, listing}
use irida.Api.Calls as Calls
use irida.Api.Calls.{run}
use irida.Api.Calls.Keeps.{Holds}
use irida.Api.Dispatch.{session_create}
use irida.Api.Views.{fill_symbol_map, room_for}
use irida.Api.Views.Names.{Fits64, display_name}
use irida.Api.Static.{StaticCtx, read_at, load, disasm_rows, static_vtable}
use irida.Api.Static as Static
use irida.Api.Static.Reads.{IsLayout, read_at-drop}
use irida.Api.Static.Rows.{row_of, disasm_rows-row_of}
use irida.Api.Static.Sessions.{SameFile, run-SameFile}
use irida.Api.Static.Names.{resolve_symbol-load}
use irida.Api.Core.{CoreCtx, core_ctx, register_or_zero, core_backtrace}
use irida.Api.Core.Main.{resolve_symbol}
use irida.Api.Core.Names.{resolve_symbol-display_name}
use irida.Api.Core.Backtrace.{Ascends, core_backtrace-Ascends}
use irida.Api.Core.Vtable.{core_vtable, session_create_native}
use irida.Api.Core.Sessions.{IsAttached, IsQuiet, core-IsQuiet, run-IsAttached}

abbrev program : BinaryInfo
program = record {
  path = codes "a.exe";
  format = codes "PE";
  entry_point = 4196;
  image_base = 4096;
  is_64bit = true;
  sections =
      record { name = codes ".text"; vaddr = 4100; vsize = 16; offset = 2; size = 8; perms = 5 }
      ∷ record { name = codes ".data"; vaddr = 4200; vsize = 8; offset = 10; size = 4; perms = 6 }
      ∷ [];
  imports = record { name = codes "read"; library = codes "k"; iat_addr = 4202 } ∷ [];
  exports = record { name = codes "main"; addr = 4100; ordinal = 1 } ∷ [];
  symbols =
      record { name = codes "start"; addr = 4100; kind = codes "func" }
      ∷ record { name = codes "tail"; addr = 4104; kind = codes "func" }
      ∷ [];
}

abbrev file_bytes : Bytes
file_bytes = 1 ∷ 2 ∷ 144 ∷ 144 ∷ 195 ∷ 0 ∷ 7 ∷ 8 ∷ 9 ∷ 10 ∷ 11 ∷ 12 ∷ 13 ∷ 14 ∷ []

abbrev opened : StaticCtx
opened = record {
  bin = program;
  image = file_bytes;
  symbol_map = [];
  analysis = record { functions = []; xrefs = [] };
}

opened-IsLayout : IsLayout opened.bin.sections
opened-IsLayout = (
  (omega arith, omega arith, omega arith),
  (inl (omega arith), tt),
  ((omega arith, omega arith, omega arith), tt, tt),
)

read_at-drop_example : read_at (4100 + 2) 3 opened ≡ drop 2 (read_at 4100 (2 + 3) opened)
unfolding Static.read_sections Static.read_section
read_at-drop_example = read_at-drop 4100 2 3 opened opened-IsLayout (unfold read_at in omega arith)

disasm_rows-row_of_example :
    disasm_rows nops 4100 4 opened
    ≡ map (row_of opened) (decode_linear nops (read_at 4100 (room_for 4) opened) 4100 4)
disasm_rows-row_of_example =
    disasm_rows-row_of nops 4100 4 opened nops-Decodes opened-IsLayout (omega arith)

abbrev parses : BinaryParser
parses = record { parse_file = λ path. ok program }

program-Fits64 : Fits64 program
program-Fits64 = ((omega arith, tt), (omega arith, tt), (omega arith, (omega arith, tt)))

-- As `load` leaves it.
abbrev loaded : StaticCtx
loaded = record opened { symbol_map = fill_symbol_map (λ addr. addr) program }

resolve_symbol-load_example : Static.resolve_symbol loaded 4100 ≡ display_name program 4100
resolve_symbol-load_example =
    resolve_symbol-load (λ path. some file_bytes) parses (codes "a.exe") loaded 4100
      (unfold load in refl) program-Fits64 (omega arith)

abbrev keys : Assoc Text → List ℕ
keys m = map (λ e. e.0) m

run-SameFile_example :
    Leaves
      (Holds (static_vtable nops keys 100) (SameFile loaded))
      (λ s. s)
      (run
        (Calls.analyze ∷ Calls.functions true ∷ Calls.step_into ∷ [])
        (some (record { vt = static_vtable nops keys 100; ctx = loaded })))
run-SameFile_example =
    run-SameFile nops keys 100 (Calls.analyze ∷ Calls.functions true ∷ Calls.step_into ∷ []) loaded

abbrev main_module : Module
main_module = record { base = 8192; size = 64; name = codes "a.exe" }

-- A guest that stands still, with a module.
abbrev guest : Backend
guest = record still { modules = λ s. (ok (main_module ∷ []), s) }

abbrev attached : CoreCtx guest
attached = core_ctx guest (Target.attach guest tt).1

resolve_symbol-display_name_example :
    (resolve_symbol guest parses 8298 attached).0 ≡ display_name program 4202
resolve_symbol-display_name_example =
    resolve_symbol-display_name guest parses attached main_module [] program 4202 8298
      (unfold core_ctx in refl) (unfold core_ctx Target.modules Target.attach in refl) refl
      (omega arith) (omega arith) program-Fits64 (omega arith) (omega arith) refl

core_backtrace-Ascends_example :
    (frames : List Frame) × ((core_backtrace guest attached).0
      ≡ listing (
          record {
            pc = register_or_zero guest (codes "rip") attached;
            frame_ptr = register_or_zero guest (codes "rbp") attached;
          }
          ∷ frames))
    × Ascends (register_or_zero guest (codes "rbp") attached) frames
    × (Common.length frames ≤ 64)
core_backtrace-Ascends_example = core_backtrace-Ascends guest attached

core-IsQuiet_example : IsQuiet guest parses nops keys 100 attached
core-IsQuiet_example = core-IsQuiet guest parses nops keys 100 attached

abbrev created : Session (CoreCtx guest)
created = record { vt = core_vtable guest parses nops keys 100; ctx = attached }

run-IsAttached_example :
    Leaves
      (Holds (core_vtable guest parses nops keys 100) (IsAttached guest))
      (λ s. s)
      (run (Calls.continue ∷ Calls.disasm 4096 8 true ∷ Calls.step_over ∷ []) (some created))
unfolding RegisterSet.decode
run-IsAttached_example =
    run-IsAttached guest parses nops keys 100 7 tt created
      (Calls.continue ∷ Calls.disasm 4096 8 true ∷ Calls.step_over ∷ [])
      (unfold session_create_native session_create core_ctx Target.attach Target.refresh_state in
        refl)
