-- ===== src/Analysis/Analyzer/Finite.antt =====
-- `Analyzer::analyze` of irida-core/core/analysis/src/analysis.cpp ends on an image of bounded size.
use irida.Common.{
  Bool-cases, List, Option, Text, [], arith, false, if◌then◌else◌, inl, inr, length, length-append,
  ltb, ltb→lt, refl, some, suc, zero, ℕ, ◌*◌, ◌++◌, ◌+◌, ◌-◌, ◌<◌, ◌==◌, ◌||◌, ◌∷◌, ◌≡◌, ◌≤◌, ◌⊎◌,
}
use irida.Disasm.{Disassembler}
use irida.Analysis.{Function, ByteReader, AnalysisResult, BasicBlock}
use irida.Analysis.Builder.{Trace, contains, insert}
use irida.Analysis.Builder.Ends.{IsBounded}
use irida.Analysis.Builder.Finite.{mul_room, mul_le, build-Outside, build-behind}
use irida.Analysis.Analyzer.{
  sort_functions, sort_unique, enqueue_all, Progress, add_function, analyze_loop, analyze,
}

-- How many addresses below the limit were not analysed.
unfoldable pub unanalyzed : ℕ → List ℕ → ℕ
unanalyzed zero analyzed = 0
unanalyzed (suc n) analyzed =
    let rest = unanalyzed n analyzed in if contains n analyzed then rest else suc rest

unanalyzed_le : (n : ℕ) (analyzed : List ℕ) → unanalyzed n analyzed ≤ n
unfolding unanalyzed
unanalyzed_le zero analyzed = omega arith
unanalyzed_le (suc n) analyzed = ground (arith, unanalyzed_le n analyzed)

unanalyzed-cons_le :
    (n x : ℕ) (analyzed : List ℕ) → unanalyzed n (x ∷ analyzed) ≤ unanalyzed n analyzed
unfolding unanalyzed
unanalyzed-cons_le zero x analyzed = omega arith
unanalyzed-cons_le (suc n) x analyzed = ground (arith, unanalyzed-cons_le n x analyzed)

unanalyzed-cons_lt :
    (n x : ℕ) (analyzed : List ℕ)
    → x < n
    → contains x analyzed ≡ false
    → unanalyzed n (x ∷ analyzed) < unanalyzed n analyzed
unfolding unanalyzed
unanalyzed-cons_lt zero x analyzed h new = absurd (omega arith)
unanalyzed-cons_lt (suc n) x analyzed h new = elim (Bool-cases (n == x)) [
  | inl e ↦
      let same : n ≡ x = ground arith in
      let lost : contains n analyzed ≡ false = rw same new in
      rw (e, lost) (omega (arith, unanalyzed-cons_le n x analyzed))
  | inr e ↦
      let below : x < n = ground arith in
      rw e (ground (arith, unanalyzed-cons_lt n x analyzed below new))
]

length-insert : (x : ℕ) (ys : List ℕ) → length (insert x ys) ≤ length ys + 1
length-insert x [] = omega arith
length-insert x (y ∷ ys) = ground (arith, length-insert x ys)

length-sort_unique : (xs : List ℕ) → length (sort_unique xs) ≤ length xs
length-sort_unique [] = omega arith
length-sort_unique (x ∷ xs) = omega (arith, length-insert x (sort_unique xs), length-sort_unique xs)

length-enqueue_all :
    (callees work queued : List ℕ)
    → length (enqueue_all callees (work, queued)).0 ≤ length work + length callees
unfolding enqueue_all
length-enqueue_all [] work queued = omega arith
length-enqueue_all (callee ∷ callees) work queued = elim (Bool-cases (contains callee queued)) [
  | inl e ↦ rw (e, enqueue_all) (omega (arith, length-enqueue_all callees work queued))
  | inr e ↦
      rw (e, enqueue_all)
        (omega (
          arith,
          length-append work (callee ∷ []),
          length-enqueue_all callees (work ++ (callee ∷ [])) (callee ∷ queued),
        ))
]

List-cases :
    (bs : List BasicBlock) → (bs ≡ []) ⊎ ((b : BasicBlock) × (c : List BasicBlock) × (bs ≡ b ∷ c))
List-cases [] = inl refl
List-cases (b ∷ bs) = inr (b, bs, refl)

module _ (D : Disassembler) {S : Type 0} (reader : ByteReader S) (symbol_lookup : ℕ → Option Text)
    (limit : ℕ) (bounded : IsBounded D reader limit) where
  length-add_function :
      (entry : ℕ) (fn : Function) (t : Trace) (work queued : List ℕ) (p : Progress)
      → (length (add_function D reader symbol_lookup entry fn t (work, queued) p).0.0
          ≤ length work + length t.callees)
        × ((add_function D reader symbol_lookup entry fn t (work, queued) p).1.analyzed
            ≡ p.analyzed)
  unfolding add_function
  length-add_function entry fn t work queued p = elim (List-cases fn.blocks) [
    | inl e ↦ rw (e, add_function) (omega arith, refl)
    | inr (b, bs, e) ↦
        rw (e, add_function)
          (
            omega (
              arith,
              length-enqueue_all (sort_unique t.callees) work queued,
              length-sort_unique t.callees,
            ),
            refl,
          )
  ]

  -- The most call targets of one function.
  abbrev most : ℕ
  most = limit * (2 * limit)

  -- Behind the limit nothing is called, so the loop ends all the same.
  round-pays :
      (fuel entry : ℕ) (work queued : List ℕ) (p : Progress) (fn : Function) (t : Trace)
      → contains entry p.analyzed ≡ false
      → length t.callees ≤ most
      → (limit ≤ entry → length t.callees ≡ 0)
      → length work + unanalyzed limit p.analyzed * most < fuel
      → length
            (add_function D reader symbol_lookup entry fn t
              (work, queued)
              (record p { analyzed = entry ∷ p.analyzed })).0.0
          + unanalyzed limit (entry ∷ p.analyzed) * most
        < fuel
  round-pays fuel entry work queued p fn t new few behind h =
      let (size, same) =
        length-add_function entry fn t work queued (record p { analyzed = entry ∷ p.analyzed }) in
      elim (Bool-cases (ltb entry limit)) [
        | inl b ↦
            let less = unanalyzed-cons_lt limit entry p.analyzed (ltb→lt _ _ b) new in
            omega (arith, mul_room most _ _ less)
        | inr b ↦
            let above : limit ≤ entry = ground arith in
            omega (arith, behind above, mul_le most _ _ (unanalyzed-cons_le limit entry p.analyzed))
      ]

  analyze_loop-ends :
      (fuel : ℕ) (work queued : List ℕ) (p : Progress) (s : S)
      → length work + unanalyzed limit p.analyzed * most + (most + 3 * limit + 1) < fuel
      → (r : Progress × S) × (analyze_loop D reader symbol_lookup fuel (work, queued) p s ≡ some r)
  unfolding analyze_loop
  analyze_loop-ends zero work queued p s h = absurd (omega arith)
  analyze_loop-ends (suc fuel) [] queued p s h = ((p, s), refl)
  analyze_loop-ends (suc fuel) (entry ∷ work) queued p s h =
      elim (Bool-cases (entry == 0 || contains entry p.analyzed)) [
        | inl e ↦
            let (r, d) = analyze_loop-ends fuel work queued p s (omega arith) in
            (r, rw (e, analyze_loop) d)
        | inr e ↦
            let new : contains entry p.analyzed ≡ false = ground arith in
            let (built, d, at, few, out) =
              build-Outside D reader limit bounded fuel entry p.xrefs s (omega arith) in
            let behind : limit ≤ entry → length built.1.callees ≡ 0 = λ above.
              build-behind D reader limit bounded fuel entry p.xrefs s built above (omega arith)
                d in
            let p' : Progress = record p { analyzed = entry ∷ p.analyzed } in
            let next : (List ℕ × List ℕ) × Progress =
              add_function D reader symbol_lookup entry built.0 built.1 (work, queued) p' in
            let room =
              round-pays (fuel - (most + 3 * limit + 1)) entry work queued p built.0 built.1 new few
                behind (omega arith) in
            let kept = (length-add_function entry built.0 built.1 work queued p').1 in
            let (r, more) =
              analyze_loop-ends fuel next.0.0 next.0.1 next.1 built.2 (rw kept (omega arith)) in
            (r, rw (e, d, analyze_loop) more)
      ]

  -- If nothing is read at a limit or behind it, and the decoder is sound and takes a byte at least,
  -- then with as much fuel as asked for the analysis returns a result, whatever the entry points are.
  pub analyze-ends :
      (fuel : ℕ) (entry_points : List ℕ) (s : S)
      → length entry_points + limit * (limit * (2 * limit)) + (limit * (2 * limit) + 3 * limit + 1)
        < fuel
      → (result : AnalysisResult × S) × (analyze D reader symbol_lookup fuel entry_points s
          ≡ some result)
  unfolding analyze
  analyze-ends fuel entry_points s h =
      let start : Progress = record { functions = []; xrefs = []; analyzed = [] } in
      let all = mul_le most _ _ (unanalyzed_le limit []) in
      let (r, e) = analyze_loop-ends fuel entry_points entry_points start s (omega arith) in
      (
        (record { functions = sort_functions r.0.functions; xrefs = r.0.xrefs }, r.1),
        rw (e, analyze) refl,
      )
