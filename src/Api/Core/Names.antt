-- ===== src/Api/Core/Names.antt =====
-- The names that `resolve_symbol` of irida-api/src/capi_target.cpp gives to addresses.
use irida.Common.{List, arith, false, ℕ, ◌%◌, ◌+◌, ◌<◌, ◌^◌, ◌∷◌, ◌≡◌}
use irida.Base.{ok}
use irida.Backend.{Backend, Module}
use irida.Binfmt.Binary.{BinaryInfo, BinaryParser}
use irida.Target as Target
use irida.Api.Views.Names.{Separates, Fits64, display_name, lookup-fill_symbol_map}
use irida.Api.Core.{CoreCtx, rebase, build_symbol_map}
use irida.Api.Core.Main.{ensure_binary_parsed, resolve_symbol}

rebase-Separates :
    (module_base file_base : ℕ)
    → module_base < 2 ^ 64
    → file_base < 2 ^ 64
    → Separates (rebase module_base file_base)
unfolding rebase
rebase-Separates module_base file_base m f a b ha hb e = omega (arith, e)

rebase-runtime :
    (module_base file_base addr runtime : ℕ)
    → module_base < 2 ^ 64
    → file_base < 2 ^ 64
    → addr < 2 ^ 64
    → runtime < 2 ^ 64
    → (runtime + file_base) % 2 ^ 64 ≡ (addr + module_base) % 2 ^ 64
    → runtime ≡ rebase module_base file_base addr
unfolding rebase
rebase-runtime module_base file_base addr runtime m f h hr at = omega (arith, at)

module _ (B : Backend) (parser : BinaryParser) where
  -- The first time a name is asked for, with a first module whose file can be parsed, and with
  -- addresses that fit in 64 bits: an address that lies as far from the module's base as a file address
  -- lies from the image base (modulo 2 ^ 64) has the name that the binary gives to the file address.
  pub resolve_symbol-display_name :
      (c : CoreCtx B) (main : Module) (others : List Module) (bin : BinaryInfo) (addr runtime : ℕ)
      → c.binary_parsed ≡ false
      → (Target.modules B c.target).0 ≡ ok (main ∷ others)
      → parser.parse_file main.name ≡ ok bin
      → main.base < 2 ^ 64
      → bin.image_base < 2 ^ 64
      → Fits64 bin
      → addr < 2 ^ 64
      → runtime < 2 ^ 64
      → (runtime + bin.image_base) % 2 ^ 64 ≡ (addr + main.base) % 2 ^ 64
      → (resolve_symbol B parser runtime c).0 ≡ display_name bin addr
  unfolding resolve_symbol ensure_binary_parsed build_symbol_map
  resolve_symbol-display_name c main others bin addr runtime first mods parsed hm hf fits h hr at =
      rw (rebase-runtime main.base bin.image_base addr runtime hm hf h hr at, first, mods, parsed)
        (lookup-fill_symbol_map (rebase main.base bin.image_base) bin addr
          (rebase-Separates main.base bin.image_base hm hf) fits h)
