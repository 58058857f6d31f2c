-- ===== src/Api/Core/Main.antt =====
-- The static binary of irida-api/src/capi_target.cpp: the main module's file, parsed once, with the
-- listings, names, disassembly and analysis that use it.
use irida.Common.{
  Assoc, Bool, List, Option, Text, [], false, if◌then◌else◌, lookup, none, some, take, true, ℕ,
  ◌==◌, ◌∷◌,
}
use irida.Base.{Bytes, ok, err}
use irida.Disasm.{Instruction, Disassembler, decode_linear}
use irida.Analysis.{ByteReader}
use irida.Analysis.Analyzer as Analyzer
use irida.Binfmt.Binary.{BinaryInfo, BinaryParser}
use irida.Backend.{Backend}
use irida.Target as Target
use irida.Target.{Target}
use irida.Api.{InsnRow, Section, Import, Export, Symbol, Listing, listing, no_rows}
use irida.Api.Views.{
  room_for, insn_row, operand_target, section_rows, import_rows, export_rows, symbol_rows,
}
use irida.Api.Core.{CoreCtx, ask, build_symbol_map, has_content, core_pc}

module _ (B : Backend) (parser : BinaryParser) where
  -- The first call parses the first module's file; it answers whether that could be parsed. The
  -- later ones answer whether there is anything in it.
  unfoldable pub ensure_binary_parsed : CoreCtx B → Bool × CoreCtx B
  ensure_binary_parsed c =
      let asked = ask B (Target.modules B) (record c { binary_parsed = true }) in
      if c.binary_parsed then (has_content c.main_bin, c) else elim asked.0 [
        | none ↦ (false, asked.1)
        | some [] ↦ (false, asked.1)
        | some (main ∷ others) ↦ elim (parser.parse_file main.name) [
          | err e ↦ (false, asked.1)
          | ok bin ↦ (
            true,
            record (asked.1) {
              main_bin = bin;
              symbol_map = build_symbol_map bin main.base bin.image_base;
            },
          )
        ]
      ]

  -- The rows of the binary, once it is parsed.
  unfoldable pub binary_rows :
      {R : Type 0} → (BinaryInfo → List R) → CoreCtx B → Listing R × CoreCtx B
  binary_rows rows c =
      let (parsed, c') = ensure_binary_parsed c in
      if parsed then (listing (rows c'.main_bin), c') else (no_rows, c')

  unfoldable pub core_sections : CoreCtx B → Listing Section × CoreCtx B
  core_sections = binary_rows section_rows

  unfoldable pub core_imports : CoreCtx B → Listing Import × CoreCtx B
  core_imports = binary_rows import_rows

  unfoldable pub core_exports : CoreCtx B → Listing Export × CoreCtx B
  core_exports = binary_rows export_rows

  unfoldable pub core_symbols : CoreCtx B → Listing Symbol × CoreCtx B
  core_symbols = binary_rows symbol_rows

  unfoldable pub resolve_symbol : ℕ → CoreCtx B → Option Text × CoreCtx B
  resolve_symbol addr c =
      let (parsed, c') = ensure_binary_parsed c in
      if parsed then (lookup addr c'.symbol_map, c') else (none, c')

  -- `annot` of one instruction: only an instruction with a target asks for a name.
  abbrev pub annotate : Instruction → CoreCtx B → Option Text × CoreCtx B
  annotate insn c = elim (operand_target insn) [
    | none ↦ (none, c)
    | some tgt ↦ resolve_symbol tgt c
  ]

  -- The loop over the instructions.
  unfoldable pub insn_rows : ℕ → Bytes → List Instruction → CoreCtx B → List InsnRow × CoreCtx B
  insn_rows addr bytes [] c = ([], c)
  insn_rows addr bytes (insn ∷ insns) c =
      let annotated = annotate insn c in
      let more = insn_rows addr bytes insns annotated.1 in
      (insn_row annotated.0 addr bytes insn ∷ more.0, more.1)

  module _ (D : Disassembler) where
    unfoldable pub core_disasm : ℕ → ℕ → CoreCtx B → Listing InsnRow × CoreCtx B
    core_disasm addr count c =
        let asked = ask B (Target.read_memory B addr (room_for count)) c in
        if count == 0 then (no_rows, c) else elim asked.0 [
          | none ↦ (no_rows, asked.1)
          | some bytes ↦
              let rows = insn_rows addr bytes (decode_linear D bytes addr count) asked.1 in
              (listing rows.0, rows.1)
        ]

    -- The analyzer's reader: a read that fails fills nothing.
    unfoldable pub target_reader : ByteReader (Target B)
    target_reader addr len t =
        let read = Target.read_memory B addr len t in
        elim read.0 [ ok bytes ↦ (take len bytes, read.1) | err e ↦ ([], read.1) ]

    -- A hash table is walked in the order that its implementation chooses: `keys`.
    module _ (keys : Assoc Text → List ℕ) (fuel : ℕ) where
      -- Names are resolved after the binary was parsed, which leaves the session as it is. `none`
      -- means that the fuel ran out.
      unfoldable pub run_analysis : CoreCtx B → Option (CoreCtx B)
      run_analysis c =
          let (parsed, c') = ensure_binary_parsed c in
          let entries : List ℕ = core_pc B c ∷ (if parsed then keys c'.symbol_map else []) in
          elim (Analyzer.analyze D target_reader (λ addr. (resolve_symbol addr c').0) fuel entries
            c'.target) [
              | none ↦ none
              | some (analysis, t) ↦ some (record c' { target = t; analysis = analysis })
            ]
