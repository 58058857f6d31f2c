-- ===== src/Binfmt/Tests.antt =====
-- The scanner on a buffer with a string of each kind.
use irida.Common.{All, [], arith, codes, false, refl, ◌++◌, ◌∷◌}
use irida.Base.{Bytes}
use irida.Binfmt.{scan_strings}
use irida.Binfmt.Complete.{Has, start, segment, scan_strings-Has}
use irida.Binfmt.Runs.{IsFound, scan_strings-IsFound}

abbrev buffer : Bytes
buffer = codes "abcd" ++ (0 ∷ 1 ∷ b'h' ∷ 0 ∷ b'i' ∷ 0 ∷ [])

scan_strings-IsFound_example : All (IsFound buffer 4096 2) (scan_strings buffer 4096 2)
scan_strings-IsFound_example = scan_strings-IsFound buffer 4096 2

scan_strings-Has_example :
    Has
      (record { addr = 4097; text = codes "ab"; utf16 = false })
      (scan_strings ([] ++ (0 ∷ []) ++ (codes "ab" ++ [])) 4096 2)
scan_strings-Has_example =
    scan_strings-Has 4096 2 (0 ∷ []) (codes "ab") [] (segment [] 0 [] tt refl start)
      (refl, (refl, tt)) tt (omega arith) (omega arith)
