-- ===== src/Binfmt/Lief/Tests.antt =====
-- A parser that finds one small file.
use irida.Common.{Text, [], arith, codes, false, refl, some, true, ◌∷◌, ◌≡◌}
use irida.Base.{ok}
use irida.Binfmt.Binary.{BinaryInfo}
use irida.Binfmt.Lief.{PeBinary, Parsed, parsed, parse_file}
use irida.Binfmt.Lief.Rebase.{Fits, IsImage, parse_file-IsImage}

abbrev small : PeBinary
small = record {
  entrypoint = 0x140001000;
  imagebase = 0x140000000;
  is_pe32_plus = true;
  sections =
      record {
        name = codes ".text";
        virtual_address = 0x1000;
        virtual_size = 0x200;
        pointerto_raw_data = 0x400;
        sizeof_raw_data = 0x200;
        mem_read = true;
        mem_write = false;
        mem_execute = true;
      }
      ∷ [];
  imports =
      record {
        name = codes "KERNEL32.dll";
        entries = record { name = codes "ExitProcess"; iat_address = 0x2000 } ∷ [];
      }
      ∷ [];
  has_exports = true;
  get_export = some (record { name = codes "main"; address = 0x1000; ordinal = 1 } ∷ []);
  symbols = [];
}

abbrev finds_small : Text → Parsed
finds_small path = parsed small

small-Fits : Fits small
small-Fits = record {
  base = omega arith;
  sections = (omega arith, tt);
  imports = (omega arith, tt);
  exports = (omega arith, tt);
  symbols = tt;
  exporting = λ h. absurd (cc);
}

parse_file-IsImage_example :
    (info : BinaryInfo) × (parse_file finds_small (codes "a.exe") ≡ ok info) × IsImage small info
parse_file-IsImage_example = parse_file-IsImage finds_small (codes "a.exe") small refl small-Fits
