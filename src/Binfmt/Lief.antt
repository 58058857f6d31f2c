-- ===== src/Binfmt/Lief.antt =====
-- irida-core/core/binfmt/src/lief_parser.cpp: what LIEF parsed of a PE file, in the types of
-- binary.hpp. LIEF itself is a parameter.
pub mod Rebase
mod Tests
use irida.Common.{
  Bool, List, Option, Text, [], codes, if◌then◌else◌, map, none, some, ℕ, ◌%◌, ◌++◌, ◌+◌, ◌^◌, ◌∷◌,
}
use irida.Base.{Result, ok, err}
use irida.Binfmt.Binary.{Section, Import, Export, Symbol, BinaryInfo, BinaryParser}

-- `LIEF::PE::Section`, with the characteristics that are asked for.
pub record PeSection : Type 0 where
  pub name : Text
  pub virtual_address : ℕ
  pub virtual_size : ℕ
  pub pointerto_raw_data : ℕ
  pub sizeof_raw_data : ℕ
  pub mem_read : Bool
  pub mem_write : Bool
  pub mem_execute : Bool

pub record PeImportEntry : Type 0 where
  pub name : Text
  pub iat_address : ℕ

pub record PeImport : Type 0 where
  pub name : Text
  pub entries : List PeImportEntry

pub record PeExportEntry : Type 0 where
  pub name : Text
  pub address : ℕ
  pub ordinal : ℕ

pub record PeSymbol : Type 0 where
  pub name : Text
  pub value : ℕ

-- `LIEF::PE::Binary`, with the calls that are made of it; `none` is a null pointer.
pub record PeBinary : Type 0 where
  pub entrypoint : ℕ
  pub imagebase : ℕ
  pub is_pe32_plus : Bool
  pub sections : List PeSection
  pub imports : List PeImport
  pub has_exports : Bool
  pub get_export : Option (List PeExportEntry)
  pub symbols : List PeSymbol

-- How the block under `try` ends: with a binary, a null pointer, a `std::exception` or another one.
pub data Parsed : Type 0 where
  parsed : (binary : PeBinary) → Parsed
  null : Parsed
  threw : (what : Text) → Parsed
  threw_unknown : Parsed

-- The bits of a permission: 4 is read, 2 write and 1 execute, and each is set once at most.
unfoldable pub map_perms : PeSection → ℕ
map_perms section =
    (if section.mem_read then 4 else 0)
    + (if section.mem_write then 2 else 0)
    + (if section.mem_execute then 1 else 0)

abbrev pub map_section : PeSection → Section
map_section section = record {
  name = section.name;
  vaddr = section.virtual_address;
  vsize = section.virtual_size;
  offset = section.pointerto_raw_data;
  size = section.sizeof_raw_data;
  perms = map_perms section;
}

abbrev pub map_entry : Text → PeImportEntry → Import
map_entry library entry = record {
  name = entry.name;
  library = library;
  iat_addr = entry.iat_address;
}

unfoldable pub collect_imports : List PeImport → List Import
collect_imports [] = []
collect_imports (i ∷ imports) = map (map_entry i.name) i.entries ++ collect_imports imports

abbrev pub map_export : PeExportEntry → Export
map_export entry = record { name = entry.name; addr = entry.address; ordinal = entry.ordinal }

unfoldable pub collect_exports : PeBinary → List Export
collect_exports binary =
    if binary.has_exports
    then elim binary.get_export [ none ↦ [] | some entries ↦ map map_export entries ]
    else []

abbrev pub map_symbol : PeSymbol → Symbol
map_symbol symbol = record { name = symbol.name; addr = symbol.value; kind = codes "coff" }

abbrev pub rebase : ℕ → ℕ → ℕ
rebase base addr = (addr + base) % 2 ^ 64

-- The four loops that rebase.
abbrev pub rebase_section : ℕ → Section → Section
rebase_section base sec = record sec { vaddr = rebase base sec.vaddr }

abbrev pub rebase_import : ℕ → Import → Import
rebase_import base imp = record imp { iat_addr = rebase base imp.iat_addr }

abbrev pub rebase_export : ℕ → Export → Export
rebase_export base exp = record exp { addr = rebase base exp.addr }

abbrev pub rebase_symbol : ℕ → Symbol → Symbol
rebase_symbol base symbol = record symbol { addr = rebase base symbol.addr }

-- What is made of a binary: the addresses relative to the image base are made absolute.
unfoldable pub info_of : Text → PeBinary → BinaryInfo
info_of path binary =
    let base : ℕ = binary.imagebase in
    record {
      path = path;
      format = codes "PE";
      entry_point = binary.entrypoint;
      image_base = base;
      is_64bit = binary.is_pe32_plus;
      sections = map (rebase_section base) (map map_section binary.sections);
      imports = map (rebase_import base) (collect_imports binary.imports);
      exports = map (rebase_export base) (collect_exports binary);
      symbols = map (rebase_symbol base) (map map_symbol binary.symbols);
    }

-- `parse` is `LIEF::PE::Parser::parse`, with what it or a call after it raises.
module _ (parse : Text → Parsed) where
  unfoldable pub parse_file : Text → Result BinaryInfo
  parse_file path = elim (parse path) [
    | parsed binary ↦ ok (info_of path binary)
    | null ↦ err (codes "failed to parse PE file: " ++ path)
    | threw what ↦ err (codes "LIEF exception: " ++ what)
    | threw_unknown ↦ err (codes "LIEF exception: unknown error parsing " ++ path)
  ]

  abbrev pub make_lief_parser : BinaryParser
  make_lief_parser = record { parse_file = parse_file }
