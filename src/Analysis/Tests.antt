-- ===== src/Analysis/Tests.antt =====
-- The analysis of four bytes, by a decoder of two instructions.
use irida.Common.{
  All, [], arith, drop, length, length-drop, length-take, none, some, take, ℕ, ◌*◌, ◌-◌, ◌∷◌, ◌≡◌,
  ◌≤◌,
}
use irida.Base.{Bytes}
use irida.Disasm.{Disassembler}
use irida.Disasm.Zydis.{make_x86_64_disassembler}
use irida.Disasm.Zydis.Decoded.{decode_one-located}
use irida.Disasm.Zydis.Tests.{two_forms, two_forms-IsSound}
use irida.Analysis.Analyzer.{analyze}
use irida.Analysis.Analyzer.Finite.{analyze-ends}
use irida.Analysis.{AnalysisResult, ByteReader, Function, read_window}
use irida.Analysis.Builder.{Trace, build}
use irida.Analysis.Builder.Leaders.{Outside}
use irida.Analysis.Builder.Ends.{IsBounded}
use irida.Analysis.Builder.Finite.{build-Outside}

-- A nop, a jump to what is behind it, and a nop.
abbrev image : Bytes
image = 0x90 ∷ 0xEB ∷ 0 ∷ 0x90 ∷ []

abbrev image_reader : ByteReader (Unit {0})
image_reader pc n s = (take n (drop pc image), s)

abbrev decoder : Disassembler
decoder = make_x86_64_disassembler two_forms

image-IsBounded : IsBounded decoder image_reader 4
image-IsBounded = record {
  small = omega arith;
  inside = by_length;
  decoded = decode_one-located two_forms two_forms-IsSound;
}
  where
    by_length : (pc : ℕ) (s : Unit {0}) → length (image_reader pc read_window s).0 ≤ 4 - pc
    by_length pc s = omega (arith, length-take read_window (drop pc image), length-drop pc image)

build-Outside_example :
    (result : Function × Trace × Unit {0}) × (build decoder image_reader 46 0 [] tt ≡ some result)
    × (result.0.addr ≡ 0)
    × (length result.1.callees ≤ 4 * (2 * 4))
    × All (λ bb. All (Outside bb) result.1.leaders) result.0.blocks
build-Outside_example =
    build-Outside decoder image_reader 4 image-IsBounded 46 0 [] tt (omega arith)

-- Two entry points, of which the second lies behind the image.
analyze-ends_example :
    (result : AnalysisResult × Unit {0}) × (analyze decoder image_reader
        (λ addr. none)
        176
        (0 ∷ 9 ∷ [])
        tt
      ≡ some result)
analyze-ends_example =
    analyze-ends decoder image_reader (λ addr. none) 4 image-IsBounded 176 (0 ∷ 9 ∷ []) tt
      (omega arith)
