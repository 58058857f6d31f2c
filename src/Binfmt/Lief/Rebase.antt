-- ===== src/Binfmt/Lief/Rebase.antt =====
-- `LiefParser::parse_file`: the addresses and the permissions it returns against those of the file.
use irida.Common.{
  All, Bool, Bool-cases, List, Option-cases, Text, [], ap, arith, false, if◌then◌else◌, inl, inr,
  map, none, refl, some, true, ℕ, ◌%◌, ◌++◌, ◌+◌, ◌-◌, ◌/◌, ◌<◌, ◌==◌, ◌^◌, ◌∙◌, ◌∷◌, ◌≡◌,
}
use irida.Base.{ok}
use irida.Binfmt.Binary.{BinaryInfo}
use irida.Binfmt.Lief.{
  PeSection, PeImport, PeExportEntry, PeBinary, Parsed, parsed, map_perms, map_section, map_entry,
  collect_imports, map_export, collect_exports, map_symbol, rebase, rebase_section, rebase_import,
  rebase_export, rebase_symbol, info_of, parse_file,
}

-- An absolute address as an offset from the image base.
abbrev pub rva : ℕ → ℕ → ℕ
rva base addr = (addr + (2 ^ 64 - base)) % 2 ^ 64

-- The offsets of the file's import entries, in the order of its directory.
abbrev pub entry_addresses : List PeImport → List ℕ
entry_addresses [] = []
entry_addresses (i ∷ imports) = map (λ e. e.iat_address) i.entries ++ entry_addresses imports

abbrev pub export_entries : PeBinary → List PeExportEntry
export_entries binary = elim binary.get_export [ none ↦ [] | some entries ↦ entries ]

abbrev pub Below64 : ℕ → Type 0
Below64 addr = addr < 2 ^ 64

-- The base and the offsets that LIEF reports are 64-bit numbers, and a file without an export
-- directory says so.
pub record Fits (binary : PeBinary) : Type 0 where
  pub base : Below64 binary.imagebase
  pub sections : All Below64 (map (λ s. s.virtual_address) binary.sections)
  pub imports : All Below64 (entry_addresses binary.imports)
  pub exports : All Below64 (map (λ e. e.address) (export_entries binary))
  pub symbols : All Below64 (map (λ s. s.value) binary.symbols)
  pub exporting : binary.has_exports ≡ false → binary.get_export ≡ none

-- The three bits of a permission: read, write and execute.
abbrev pub bits : ℕ → Bool × Bool × Bool
bits perms = (perms / 4 % 2 == 1, perms / 2 % 2 == 1, perms % 2 == 1)

abbrev pub characteristics : PeSection → Bool × Bool × Bool
characteristics s = (s.mem_read, s.mem_write, s.mem_execute)

-- The addresses are those of the file, in its order, moved by the image base; the permissions are
-- the sections' characteristics.
pub record IsImage (binary : PeBinary) (info : BinaryInfo) : Type 0 where
  pub entry : info.entry_point ≡ binary.entrypoint
  pub base : info.image_base ≡ binary.imagebase
  pub sections :
      map (λ s. rva info.image_base s.vaddr) info.sections
      ≡ map (λ s. s.virtual_address) binary.sections
  pub permissions : map (λ s. bits s.perms) info.sections ≡ map characteristics binary.sections
  pub imports :
      map (λ i. rva info.image_base i.iat_addr) info.imports ≡ entry_addresses binary.imports
  pub exports :
      map (λ e. rva info.image_base e.addr) info.exports
      ≡ map (λ e. e.address) (export_entries binary)
  pub symbols :
      map (λ s. rva info.image_base s.addr) info.symbols ≡ map (λ s. s.value) binary.symbols

rva-rebase : (base addr : ℕ) → base < 2 ^ 64 → addr < 2 ^ 64 → rva base (rebase base addr) ≡ addr
rva-rebase base addr b a = omega arith

map-map :
    {A B C : Type 0} (g : B → C) (f : A → B) (xs : List A)
    → map g (map f xs) ≡ map (λ x. g (f x)) xs
map-map g f [] = refl
map-map g f (x ∷ xs) = ap (λ t. g (f x) ∷ t) (map-map g f xs)

-- A list that is rebased has the offsets it had.
map-rebase :
    {B : Type 0} (base : ℕ) (g : B → B) (addr : B → ℕ)
    → base < 2 ^ 64
    → ((b : B) → addr (g b) ≡ rebase base (addr b))
    → (ys : List B) → All Below64 (map addr ys)
    → map (λ b. rva base (addr b)) (map g ys) ≡ map addr ys
map-rebase base g addr b e [] h = refl
map-rebase base g addr b e (y ∷ ys) (h, hs) =
    rw (e y, rva-rebase base (addr y) b h, map-rebase base g addr b e ys hs) refl

-- The same, with the offsets given.
rebased :
    {B : Type 0} (base : ℕ) (g : B → B) (addr : B → ℕ)
    → base < 2 ^ 64
    → ((b : B) → addr (g b) ≡ rebase base (addr b))
    → (ys : List B) (offsets : List ℕ) → map addr ys ≡ offsets
    → All Below64 offsets
    → map (λ b. rva base (addr b)) (map g ys) ≡ offsets
rebased base g addr b e ys offsets o h = map-rebase base g addr b e ys (rw o h) ∙ o

map-append : {A B : Type 0} (f : A → B) (xs ys : List A) → map f (xs ++ ys) ≡ map f xs ++ map f ys
map-append f [] ys = refl
map-append f (x ∷ xs) ys = ap (λ t. f x ∷ t) (map-append f xs ys)

collect_imports-addresses :
    (imports : List PeImport)
    → map (λ i. i.iat_addr) (collect_imports imports) ≡ entry_addresses imports
unfolding collect_imports
collect_imports-addresses [] = refl
collect_imports-addresses (i ∷ imports) =
    rw
      (
        map-append (λ i. i.iat_addr) (map (map_entry i.name) i.entries) (collect_imports imports),
        map-map (λ i. i.iat_addr) (map_entry i.name) i.entries,
        collect_imports-addresses imports,
      )
      refl

collect_exports-addresses :
    (binary : PeBinary)
    → (binary.has_exports ≡ false → binary.get_export ≡ none)
    → map (λ e. e.addr) (collect_exports binary) ≡ map (λ e. e.address) (export_entries binary)
unfolding collect_exports
collect_exports-addresses binary h = elim (Bool-cases binary.has_exports) [
  | inr e ↦ rw (e, h e, collect_exports) refl
  | inl e ↦ elim (Option-cases binary.get_export) [
    | inl n ↦ rw (e, n, collect_exports) refl
    | inr (entries, n) ↦ rw (e, n, collect_exports) (map-map _ map_export entries)
  ]
]

bits-map_perms : (s : PeSection) → bits (map_perms s) ≡ characteristics s
unfolding map_perms
bits-map_perms s = by_bits s.mem_read s.mem_write s.mem_execute
  where
    by_bits :
        (r w x : Bool)
        → bits ((if r then 4 else 0) + (if w then 2 else 0) + (if x then 1 else 0)) ≡ (r, w, x)
    by_bits true true true = refl
    by_bits true true false = refl
    by_bits true false true = refl
    by_bits true false false = refl
    by_bits false true true = refl
    by_bits false true false = refl
    by_bits false false true = refl
    by_bits false false false = refl

permissions-sections :
    (base : ℕ) (sections : List PeSection)
    → map (λ s. bits s.perms) (map (rebase_section base) (map map_section sections))
      ≡ map characteristics sections
permissions-sections base [] = refl
permissions-sections base (s ∷ sections) =
    rw (bits-map_perms s, permissions-sections base sections) refl

-- What a file that LIEF parses is turned into: the entry point and the base are the file's, every
-- section, import, export and symbol of it is there in its order at the offset that LIEF reports, once
-- the base is taken off again, and each section has the permissions of its characteristics. The base
-- and the offsets are 64-bit numbers, and a file without an export directory says so.
pub parse_file-IsImage :
    (parse : Text → Parsed) (path : Text) (binary : PeBinary)
    → parse path ≡ parsed binary
    → Fits binary
    → (info : BinaryInfo) × (parse_file parse path ≡ ok info) × IsImage binary info
unfolding parse_file info_of
parse_file-IsImage parse path binary e fits =
    let b = fits.base in
    let base = binary.imagebase in
    (
      info_of path binary,
      rw (e, parse_file) refl,
      record {
        entry = refl;
        base = refl;
        sections =
            rebased base (rebase_section base) (λ s. s.vaddr) b (λ s. refl)
              (map map_section binary.sections) _ (map-map _ map_section binary.sections)
              fits.sections;
        permissions = permissions-sections base binary.sections;
        imports =
            rebased base (rebase_import base) (λ i. i.iat_addr) b (λ i. refl)
              (collect_imports binary.imports) _ (collect_imports-addresses binary.imports)
              fits.imports;
        exports =
            rebased base (rebase_export base) (λ e. e.addr) b (λ e. refl) (collect_exports binary) _
              (collect_exports-addresses binary fits.exporting) fits.exports;
        symbols =
            rebased base (rebase_symbol base) (λ s. s.addr) b (λ s. refl)
              (map map_symbol binary.symbols) _ (map-map _ map_symbol binary.symbols) fits.symbols;
      },
    )
