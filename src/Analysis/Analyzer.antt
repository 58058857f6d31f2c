-- ===== src/Analysis/Analyzer.antt =====
-- `Analyzer` of irida-core/core/analysis/src/analysis.cpp: the work loop over functions.
pub mod Finite
use irida.Common.{
  List, Option, Text, [], false, if◌then◌else◌, leb, none, some, suc, true, zero, ℕ, ◌++◌, ◌==◌,
  ◌||◌, ◌∷◌,
}
use irida.Disasm.{Disassembler}
use irida.Analysis.{Function, Xref, ByteReader, AnalysisResult}
use irida.Analysis.Builder.{Trace, contains, insert, build}

-- `std::sort`, `std::unique` and `erase`.
abbrev sort_unique : List ℕ → List ℕ
sort_unique [] = []
sort_unique (x ∷ xs) = insert x (sort_unique xs)

-- The callees that were never queued join the work list.
unfoldable pub enqueue_all : List ℕ → List ℕ × List ℕ → List ℕ × List ℕ
enqueue_all [] (work, queued) = (work, queued)
enqueue_all (callee ∷ callees) (work, queued) =
    let more = enqueue_all callees (work ++ (callee ∷ []), callee ∷ queued) in
    let same = enqueue_all callees (work, queued) in if contains callee queued then same else more

abbrev insert_function : Function → List Function → List Function
insert_function fn [] = fn ∷ []
insert_function fn (g ∷ gs) =
    if leb fn.addr g.addr then fn ∷ (g ∷ gs) else g ∷ insert_function fn gs

-- The sort by address; no two functions have the same one.
abbrev sort_functions : List Function → List Function
sort_functions [] = []
sort_functions (fn ∷ fns) = insert_function fn (sort_functions fns)

-- `symbol_lookup_`: a known name replaces the default one.
abbrev named : (ℕ → Option Text) → ℕ → Function → Function
named symbol_lookup entry fn = elim (symbol_lookup entry) [
  | none ↦ fn
  | some name ↦ record fn { name = name }
]

-- The state of the loop of `analyze`.
pub record Progress : Type 0 where
  pub functions : List Function
  pub xrefs : List Xref
  pub analyzed : List ℕ

module _ (D : Disassembler) {S : Type 0} (reader : ByteReader S)
    (symbol_lookup : ℕ → Option Text) where
  -- What becomes of the entry's function, and of its callees.
  unfoldable pub add_function :
      ℕ → Function → Trace → List ℕ × List ℕ → Progress → (List ℕ × List ℕ) × Progress
  add_function entry fn t queue p = elim fn.blocks [
    | [] ↦ (queue, record p { xrefs = t.xrefs })
    | (_ ∷ _) ↦ (
      enqueue_all (sort_unique t.callees) queue,
      record p {
        functions =
            p.functions
            ++ (named symbol_lookup entry (record fn { callees = sort_unique t.callees }) ∷ []);
        xrefs = t.xrefs;
      },
    )
  ]

  -- The work loop; `none` means that the fuel ran out.
  unfoldable pub analyze_loop : ℕ → List ℕ × List ℕ → Progress → S → Option (Progress × S)
  analyze_loop zero queue p s = none
  analyze_loop (suc fuel) ([], queued) p s = some (p, s)
  analyze_loop (suc fuel) (entry ∷ work, queued) p s =
      elim (entry == 0 || contains entry p.analyzed) [
        | true ↦ analyze_loop fuel (work, queued) p s
        | false ↦ elim (build D reader fuel entry p.xrefs s) [
          | none ↦ none
          | some (fn, t, s') ↦
              let next =
                add_function entry fn t (work, queued)
                  (record p { analyzed = entry ∷ p.analyzed }) in
              analyze_loop fuel next.0 next.1 s'
        ]
      ]

  unfoldable pub analyze : ℕ → List ℕ → S → Option (AnalysisResult × S)
  analyze fuel entry_points s =
      elim (analyze_loop fuel (entry_points, entry_points)
        (record { functions = []; xrefs = []; analyzed = [] }) s) [
          | none ↦ none
          | some (p, s') ↦
              some (record { functions = sort_functions p.functions; xrefs = p.xrefs }, s')
        ]
