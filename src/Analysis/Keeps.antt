-- ===== src/Analysis/Keeps.antt =====
-- The analysis of irida-core/core/analysis and what its reader changes behind the reads.
use irida.Common.{
  Bool-cases, List, Option, Option-cases, Text, [], inl, inr, none, not, refl, some, suc, zero, ℕ,
  ◌&&◌, ◌==◌, ◌||◌, ◌∷◌, ◌≡◌, ◌⊎◌,
}
use irida.Disasm.{Disassembler}
use irida.Analysis.{BasicBlock, Xref, ByteReader, read_window}
use irida.Analysis.Builder.{
  Trace, Traced, ended, goes_on, contains, has_block, emplace, enqueue, finalize, trace_round,
  trace_from, trace_block, build_loop, build,
}
use irida.Analysis.Analyzer.{Progress, analyze_loop, analyze}

Traced-cases :
    (r : Traced)
    → ((bb : BasicBlock) × (t : Trace) × (r ≡ ended bb t))
      ⊎ ((bb : BasicBlock) × (t : Trace) × (next : ℕ) × (r ≡ goes_on bb t next))
Traced-cases (ended bb t) = inl (bb, t, refl)
Traced-cases (goes_on bb t next) = inr (bb, t, next, refl)

-- Where a computation ends, what it leaves behind satisfies the predicate.
abbrev pub Leaves : {A S : Type 0} → (S → Type 0) → (A → S) → Option A → Type 0
Leaves P state_of none = Unit {0}
Leaves P state_of (some a) = P (state_of a)

module _ (D : Disassembler) {S : Type 0} (reader : ByteReader S) (P : S → Type 0)
    (keeps : (addr len : ℕ) (s : S) → P s → P (reader addr len s).1) where
  trace_round-keeps :
      (start pc : ℕ) (bb : BasicBlock) (t : Trace) (s : S)
      → P s
      → P (trace_round D reader start pc bb t s).1
  unfolding trace_round
  trace_round-keeps start pc bb t s h =
      elim (Bool-cases (not (pc == start) && contains pc t.leaders)) [
        | inl e ↦ rw e h
        | inr e ↦ rw e (keeps pc read_window s h)
      ]

  trace_from-keeps :
      (fuel start pc : ℕ) (bb : BasicBlock) (t : Trace) (s : S)
      → P s
      → Leaves P (λ r. r.2) (trace_from D reader fuel start pc bb t s)
  unfolding trace_from
  trace_from-keeps zero start pc bb t s h = tt
  trace_from-keeps (suc fuel) start pc bb t s h =
      let kept = trace_round-keeps start pc bb t s h in
      elim (Traced-cases (trace_round D reader start pc bb t s).0) [
        | inl (bb', t', d) ↦ rw (d, trace_from) kept
        | inr (bb', t', next, d) ↦
            rw (d, trace_from)
              (trace_from-keeps fuel start next bb' t' (trace_round D reader start pc bb t s).1
                kept)
      ]

  trace_block-keeps :
      (fuel start : ℕ) (t : Trace) (s : S)
      → P s
      → Leaves P (λ r. r.2) (trace_block D reader fuel start t s)
  unfolding trace_block
  trace_block-keeps fuel start t s h = trace_from-keeps fuel start start _ t s h

  build_loop-keeps :
      (fuel : ℕ) (queue : List ℕ × List ℕ) (blocks : List BasicBlock) (t : Trace) (s : S)
      → P s
      → Leaves P (λ r. r.2) (build_loop D reader fuel queue blocks t s)
  unfolding build_loop
  build_loop-keeps zero queue blocks t s h = tt
  build_loop-keeps (suc fuel) ([], queued) blocks t s h = h
  build_loop-keeps (suc fuel) (start ∷ work, queued) blocks t s h =
      elim (Bool-cases (has_block start blocks)) [
        | inl e ↦ rw (e, build_loop) (build_loop-keeps fuel (work, queued) blocks t s h)
        | inr e ↦
            let kept = trace_block-keeps fuel start t s h in
            elim (Option-cases (trace_block D reader fuel start t s)) [
              | inl n ↦ rw (e, n, build_loop) tt
              | inr ((bb, t', s'), n) ↦
                  rw (e, n, build_loop)
                    (build_loop-keeps fuel (enqueue bb.fail (enqueue bb.jump (work, queued)))
                      (emplace bb blocks) t' s' (rw n at kept))
            ]
      ]

  build-keeps :
      (fuel entry : ℕ) (xrefs : List Xref) (s : S)
      → P s
      → Leaves P (λ r. r.2) (build D reader fuel entry xrefs s)
  unfolding build
  build-keeps fuel entry xrefs s h =
      let kept =
        build_loop-keeps fuel (entry ∷ [], entry ∷ []) []
          (record { leaders = entry ∷ []; callees = []; xrefs = xrefs }) s h in
      elim (Option-cases (
        build_loop D reader fuel (entry ∷ [], entry ∷ []) []
          (record { leaders = entry ∷ []; callees = []; xrefs = xrefs }) s)) [
            | inl n ↦ rw (n, build) tt
            | inr ((blocks, t, s'), n) ↦
                elim (Option-cases (finalize fuel entry t.leaders blocks)) [
                  | inl f ↦ rw (n, f, build) tt
                  | inr (fn, f) ↦ rw (n, f, build) (rw n at kept)
                ]
          ]

  module _ (symbol_lookup : ℕ → Option Text) where
    analyze_loop-keeps :
        (fuel : ℕ) (queue : List ℕ × List ℕ) (p : Progress) (s : S)
        → P s
        → Leaves P (λ r. r.1) (analyze_loop D reader symbol_lookup fuel queue p s)
    unfolding analyze_loop
    analyze_loop-keeps zero queue p s h = tt
    analyze_loop-keeps (suc fuel) ([], queued) p s h = h
    analyze_loop-keeps (suc fuel) (entry ∷ work, queued) p s h =
        elim (Bool-cases (entry == 0 || contains entry p.analyzed)) [
          | inl e ↦ rw (e, analyze_loop) (analyze_loop-keeps fuel (work, queued) p s h)
          | inr e ↦
              let kept = build-keeps fuel entry p.xrefs s h in
              elim (Option-cases (build D reader fuel entry p.xrefs s)) [
                | inl n ↦ rw (e, n, analyze_loop) tt
                | inr ((fn, t, s'), n) ↦
                    rw (e, n, analyze_loop) (analyze_loop-keeps fuel _ _ s' (rw n at kept))
              ]
        ]

    -- A predicate that the reader keeps holds of what a finished analysis leaves behind.
    pub analyze-keeps :
        (fuel : ℕ) (entries : List ℕ) (s : S)
        → P s
        → Leaves P (λ r. r.1) (analyze D reader symbol_lookup fuel entries s)
    unfolding analyze
    analyze-keeps fuel entries s h =
        let kept =
          analyze_loop-keeps fuel (entries, entries)
            (record { functions = []; xrefs = []; analyzed = [] }) s h in
        elim (Option-cases (
          analyze_loop D reader symbol_lookup fuel (entries, entries)
            (record { functions = []; xrefs = []; analyzed = [] }) s)) [
              | inl n ↦ rw (n, analyze) tt
              | inr ((p, s'), n) ↦ rw (n, analyze) (rw n at kept)
            ]
