-- ===== src/Api/Views/Names.antt =====
-- The symbol map of irida-api/src: which name an address has, before and after rebasing.
use irida.Common.{
  ==_iff, ==_refl, All, Assoc, Bool-cases, List, Option, Option-cases, Text, [], arith, assign,
  codes, if◌then◌else◌, inl, inr, lookup, lookup-assign, none, refl, some, sym, ℕ, ◌++◌, ◌<◌, ◌==◌,
  ◌^◌, ◌∙◌, ◌∷◌, ◌≡◌,
}
use irida.Binfmt.Binary.{Import, Export, Symbol, BinaryInfo}
use irida.Api.Views.{assign_all, fill_symbol_map}

-- The name of the last entry with the key.
abbrev pub last_named : {A : Type 0} → (A → ℕ) → (A → Text) → ℕ → List A → Option Text
last_named key name addr [] = none
last_named key name addr (x ∷ xs) = elim (last_named key name addr xs) [
  | some found ↦ some found
  | none ↦ if key x == addr then some (name x) else none
]

abbrev pub or_else : Option Text → Option Text → Option Text
or_else (some found) o = some found
or_else none o = o

-- What a binary calls an address: the last import there, else the last export, else the last symbol.
abbrev pub display_name : BinaryInfo → ℕ → Option Text
display_name bin addr =
    or_else
      (last_named (λ imp. imp.iat_addr) (λ imp. codes "sym.imp." ++ imp.name) addr bin.imports)
      (or_else (last_named (λ exp. exp.addr) (λ exp. codes "sym." ++ exp.name) addr bin.exports)
        (last_named (λ sym. sym.addr) (λ sym. sym.name) addr bin.symbols))

or_else-none : (o : Option Text) → or_else o none ≡ o
or_else-none none = refl
or_else-none (some found) = refl

lookup-assign_all :
    {A : Type 0} (key : A → ℕ) (name : A → Text) (addr : ℕ) (xs : List A) (m : Assoc Text)
    → lookup addr (assign_all key name xs m) ≡ or_else (last_named key name addr xs) (lookup addr m)
unfolding assign_all
lookup-assign_all key name addr [] m = refl
lookup-assign_all key name addr (x ∷ xs) m =
    let more = lookup-assign_all key name addr xs (assign (key x) (name x) m) in
    elim (Option-cases (last_named key name addr xs)) [
      | inl e ↦ more ∙ rw (e, lookup-assign) (ground arith)
      | inr (found, e) ↦ more ∙ rw e refl
    ]

-- Addresses that fit in 64 bits.
abbrev pub Fits64 : BinaryInfo → Type 0
Fits64 bin =
    All (λ (imp : Import). imp.iat_addr < 2 ^ 64) bin.imports
    × All (λ (exp : Export). exp.addr < 2 ^ 64) bin.exports
    × All (λ (sym : Symbol). sym.addr < 2 ^ 64) bin.symbols

-- A placement keeps different 64-bit addresses apart.
abbrev pub Separates : (ℕ → ℕ) → Type 0
Separates place = (a b : ℕ) → a < 2 ^ 64 → b < 2 ^ 64 → place a ≡ place b → a ≡ b

same_test :
    (place : ℕ → ℕ)
    → Separates place
    → (a b : ℕ) → a < 2 ^ 64
    → b < 2 ^ 64
    → (place a == place b) ≡ (a == b)
same_test place sep a b ha hb = elim (Bool-cases (a == b)) [
  | inl e ↦ rw ((==_iff a b).0 e) (==_refl (place b) ∙ sym (==_refl b))
  | inr e ↦ elim (Bool-cases (place a == place b)) [
    | inl p ↦ absurd (let q = sep a b ha hb ((==_iff _ _).0 p) in ground arith)
    | inr p ↦ p ∙ sym e
  ]
]

last_named-place :
    {A : Type 0} (place : ℕ → ℕ) (key : A → ℕ) (name : A → Text) (addr : ℕ) (xs : List A)
    → Separates place
    → addr < 2 ^ 64
    → All (λ x. key x < 2 ^ 64) xs
    → last_named (λ x. place (key x)) name (place addr) xs ≡ last_named key name addr xs
last_named-place place key name addr [] sep h all = refl
last_named-place place key name addr (x ∷ xs) sep h all =
    let more = last_named-place place key name addr xs sep h all.1 in
    elim (Option-cases (last_named key name addr xs)) [
      | inl e ↦ rw (more, e, same_test place sep (key x) addr all.0 h) refl
      | inr (found, e) ↦ rw (more, e) refl
    ]

-- With a placement that keeps addresses apart, an address that fits in 64 bits is found, where it was
-- placed, under the binary's name for it: imports come before exports, exports before symbols, and
-- among several of one kind the last counts.
pub lookup-fill_symbol_map :
    (place : ℕ → ℕ) (bin : BinaryInfo) (addr : ℕ)
    → Separates place
    → Fits64 bin
    → addr < 2 ^ 64
    → lookup (place addr) (fill_symbol_map place bin) ≡ display_name bin addr
unfolding fill_symbol_map lookup
lookup-fill_symbol_map place bin addr sep (imps, exps, syms) h =
    rw
      (
        lookup-assign_all,
        last_named-place place (λ imp. imp.iat_addr) _ addr bin.imports sep h imps,
        lookup-assign_all,
        last_named-place place (λ exp. exp.addr) _ addr bin.exports sep h exps,
        lookup-assign_all,
        last_named-place place (λ sym. sym.addr) _ addr bin.symbols sep h syms,
        or_else-none,
      )
      refl
