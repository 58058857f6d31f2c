-- ===== src/Disasm/Tests.antt =====
-- The linear decoder over instructions of one byte.
use irida.Common.{[], arith, codes, if◌then◌else◌, length, ℕ, ◌==◌, ◌∷◌, ◌≡◌, ◌≤◌}
use irida.Common as Common
use irida.Base.{Bytes, Result, ok, err}
use irida.Disasm.{Instruction, Disassembler, sequential, decode_linear}
use irida.Disasm.Linear.{Chained, total, Decodes, decode_linear-Chained}

-- Every byte but 0 is an instruction of length 1.
abbrev one_byte : Bytes → ℕ → Result Instruction
one_byte [] address = err (codes "failed to decode instruction")
one_byte (b ∷ bytes) address =
    if b == 0
    then err (codes "failed to decode instruction")
    else ok (record {
      address = address;
      length = 1;
      mnemonic = codes "nop";
      text = codes "nop";
      operands = [];
      flow = sequential;
      branch_target = 0;
    })

abbrev pub nops : Disassembler
nops = record { decode_one = one_byte }

pub nops-Decodes : Decodes nops
nops-Decodes = record { located = by_bytes }
  where
    by_bytes :
        (bytes : Bytes) (address : ℕ) (insn : Instruction)
        → one_byte bytes address ≡ ok insn
        → (insn.address ≡ address) × (insn.length ≤ Common.length bytes)
    by_bytes [] address insn h = absurd (cc)
    by_bytes (b ∷ bytes) address insn h = ground arith

abbrev two_nops : Bytes
two_nops = 144 ∷ 144 ∷ 0 ∷ []

decode_linear-Chained_example :
    Chained 4096 (decode_linear nops two_nops 4096 8)
    × (Common.length (decode_linear nops two_nops 4096 8) ≤ 8)
    × (total (decode_linear nops two_nops 4096 8) ≤ Common.length two_nops)
decode_linear-Chained_example = decode_linear-Chained nops nops-Decodes two_nops 4096 8
