-- ===== src/Analysis/Builder/Leaders.antt =====
-- The splitting loop of `finalize` in irida-core/core/analysis/src/analysis.cpp.
use irida.Common.{
  All, List, Option-cases, [], arith, false, if◌then◌else◌, inl, inr, ltb, none, refl, some, suc,
  true, zero, ℕ, ◌%◌, ◌+◌, ◌<◌, ◌^◌, ◌∷◌, ◌≡◌, ◌≤◌,
}
use irida.Analysis.{BasicBlock}
use irida.Analysis.Builder.{
  contains, emplace, instrs_below, instrs_from, split_block, find_cut, cut_first, split_all,
}

-- How many instructions start strictly behind an address.
unfoldable pub inner : ℕ → List ℕ → ℕ
inner lo [] = 0
inner lo (ia ∷ ias) = let rest = inner lo ias in if ltb lo ia then suc rest else rest

-- How many instructions start strictly inside their block: each split makes them fewer.
abbrev pub inner_total : List BasicBlock → ℕ
inner_total [] = 0
inner_total (b ∷ bs) = inner b.addr b.instr_addrs + inner_total bs

inner-split_le :
    (lo leader : ℕ) (ias : List ℕ)
    → lo < leader
    → inner lo (instrs_below leader ias) + inner leader (instrs_from leader ias) ≤ inner lo ias
unfolding inner instrs_below instrs_from
inner-split_le lo leader [] h = omega arith
inner-split_le lo leader (ia ∷ ias) h = ground (arith, inner-split_le lo leader ias h)

inner-split_lt :
    (lo leader : ℕ) (ias : List ℕ)
    → lo < leader
    → contains leader ias ≡ true
    → inner lo (instrs_below leader ias) + inner leader (instrs_from leader ias) < inner lo ias
unfolding inner instrs_below instrs_from
inner-split_lt lo leader [] h c = absurd (cc)
inner-split_lt lo leader (ia ∷ ias) h c =
    ground (arith, inner-split_le lo leader ias h, inner-split_lt lo leader ias h)

-- A leader is no cut of a block.
abbrev pub Outside : BasicBlock → ℕ → Type 0
Outside bb leader =
    bb.addr < leader
    → leader < (bb.addr + bb.size) % 2 ^ 64
    → contains leader bb.instr_addrs ≡ false

find_cut-some :
    (leaders : List ℕ) (bb : BasicBlock) (leader : ℕ)
    → find_cut leaders bb ≡ some leader
    → (bb.addr < leader) × (contains leader bb.instr_addrs ≡ true)
unfolding find_cut
find_cut-some [] bb leader h = absurd (cc)
find_cut-some (x ∷ leaders) bb leader h = ground (arith, find_cut-some leaders bb leader)

find_cut-none :
    (leaders : List ℕ) (bb : BasicBlock) → find_cut leaders bb ≡ none → All (Outside bb) leaders
unfolding find_cut
find_cut-none [] bb h = tt
find_cut-none (x ∷ leaders) bb h = (ground arith, find_cut-none leaders bb (ground arith))

inner-split_block :
    (bb : BasicBlock) (leader : ℕ)
    → bb.addr < leader
    → contains leader bb.instr_addrs ≡ true
    → inner (split_block bb leader).1.addr (split_block bb leader).1.instr_addrs
        + inner (split_block bb leader).0.addr (split_block bb leader).0.instr_addrs
      < inner bb.addr bb.instr_addrs
unfolding split_block
inner-split_block bb leader h c = omega (arith, inner-split_lt bb.addr leader bb.instr_addrs h c)

-- One pass cuts a block, with fewer instructions inside, or nothing is left to cut.
data Pass (leaders : List ℕ) (bbs : List BasicBlock) : Type 0 where
  clean : cut_first leaders bbs ≡ none → All (λ bb. All (Outside bb) leaders) bbs → Pass leaders bbs
  cut_one :
      (cut : List BasicBlock) (tail : BasicBlock)
      → cut_first leaders bbs ≡ some (cut, tail)
      → inner tail.addr tail.instr_addrs + inner_total cut < inner_total bbs
      → Pass leaders bbs

cut_first-Pass : (leaders : List ℕ) (bbs : List BasicBlock) → Pass leaders bbs
unfolding cut_first
cut_first-Pass leaders [] = clean refl tt
cut_first-Pass leaders (bb ∷ bbs) = elim (Option-cases (find_cut leaders bb)) [
  | inr (leader, e) ↦
      let (lo, c) = find_cut-some leaders bb leader e in
      cut_one ((split_block bb leader).0 ∷ bbs) (split_block bb leader).1 (rw (e, cut_first) refl)
        (omega (arith, inner-split_block bb leader lo c))
  | inl e ↦ elim (cut_first-Pass leaders bbs) [
    | clean d all ↦ clean (rw (e, d, cut_first) refl) (find_cut-none leaders bb e, all)
    | cut_one cut tail d less ↦ cut_one (bb ∷ cut) tail (rw (e, d, cut_first) refl) (omega arith)
  ]
]

pub inner_total-emplace :
    (b : BasicBlock) (bs : List BasicBlock)
    → inner_total (emplace b bs) ≤ inner b.addr b.instr_addrs + inner_total bs
unfolding emplace
inner_total-emplace b [] = omega arith
inner_total-emplace b (c ∷ cs) = ground (arith, inner_total-emplace b cs)

-- With more fuel than instructions that start strictly inside their block, the splitting loop ends,
-- and in its result no leader lies strictly inside a block at the start of an instruction.
pub split_all-Outside :
    (fuel : ℕ) (leaders : List ℕ) (blocks : List BasicBlock)
    → inner_total blocks < fuel
    → (result : List BasicBlock) × (split_all fuel leaders blocks ≡ some result)
      × All (λ bb. All (Outside bb) leaders) result
unfolding split_all
split_all-Outside zero leaders blocks h = absurd (omega arith)
split_all-Outside (suc fuel) leaders blocks h = elim (cut_first-Pass leaders blocks) [
  | clean d all ↦ (blocks, rw (d, split_all) refl, all)
  | cut_one cut tail d less ↦
      let (result, e, all) =
        split_all-Outside fuel leaders (emplace tail cut)
          (omega (arith, inner_total-emplace tail cut)) in
      (result, rw (d, split_all) e, all)
]
