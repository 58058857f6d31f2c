-- ===== src/Api/Static/Names.antt =====
-- The names that `resolve_symbol` of irida-api/src/capi_static.cpp gives to addresses.
use irida.Common.{Option, Option-cases, Text, [], inl, inr, refl, some, ℕ, ◌<◌, ◌^◌, ◌∷◌, ◌≡◌}
use irida.Base.{Bytes, Result-cases}
use irida.Analysis.Keeps.{Leaves}
use irida.Binfmt.Binary.{BinaryParser}
use irida.Api.Views.{fill_symbol_map}
use irida.Api.Views.Names.{Fits64, display_name, lookup-fill_symbol_map}
use irida.Api.Static.{StaticCtx, load, resolve_symbol}

loaded :
    (read_file : Text → Option Bytes) (parser : BinaryParser) (path : Text)
    → Leaves
        (λ m. m.symbol_map ≡ fill_symbol_map (λ addr. addr) m.bin)
        (λ (c : StaticCtx). c)
        (load read_file parser path)
unfolding load
loaded read_file parser path = elim (Option-cases (read_file path)) [
  | inl n ↦ rw (n, load) tt
  | inr ([], n) ↦ rw (n, load) tt
  | inr (b ∷ bytes, n) ↦ elim (Result-cases (parser.parse_file path)) [
    | inl (bin, p) ↦ rw (n, p, load) refl
    | inr (msg, p) ↦ rw (n, p, load) tt
  ]
]

-- After a file was loaded, an address that fits in 64 bits has the name that its binary gives to it.
pub resolve_symbol-load :
    (read_file : Text → Option Bytes) (parser : BinaryParser) (path : Text) (c : StaticCtx)
    (addr : ℕ)
    → load read_file parser path ≡ some c
    → Fits64 c.bin
    → addr < 2 ^ 64
    → resolve_symbol c addr ≡ display_name c.bin addr
unfolding resolve_symbol
resolve_symbol-load read_file parser path c addr e fits h =
    let filled : c.symbol_map ≡ fill_symbol_map (λ a. a) c.bin =
      rw e at (loaded read_file parser path) in
    rw filled (lookup-fill_symbol_map (λ a. a) c.bin addr (λ a b ha hb same. same) fits h)
