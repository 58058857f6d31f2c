-- ===== src/Analysis/Builder/Split.antt =====
-- `split_block` of irida-core/core/analysis/src/analysis.cpp.
use irida.Common.{
  Bool-cases, List, [], ap, arith, false, inl, inr, ltb, refl, ℕ, ◌++◌, ◌+◌, ◌-◌, ◌<◌, ◌∷◌, ◌≡◌,
  ◌≤◌,
}
use irida.Analysis.{BasicBlock}
use irida.Analysis.Builder.{instrs_below, instrs_from, split_block}

-- Addresses in ascending order, from `lo` on and below `hi`.
abbrev pub Ascending : ℕ → ℕ → List ℕ → Type 0
Ascending lo hi [] = lo ≤ hi
Ascending lo hi (x ∷ xs) = (lo ≤ x) × Ascending (x + 1) hi xs

-- The instructions of a block start inside it, in order.
abbrev pub IsRun : BasicBlock → Type 0
IsRun bb = Ascending bb.addr (bb.addr + bb.size) bb.instr_addrs

Ascending-weaken :
    (lo lo' hi : ℕ) (xs : List ℕ) → lo' ≤ lo → Ascending lo hi xs → Ascending lo' hi xs
Ascending-weaken lo lo' hi [] l h = omega arith
Ascending-weaken lo lo' hi (x ∷ xs) l (h, k) = (omega arith, k)

instrs_below-late :
    (leader lo hi : ℕ) (xs : List ℕ)
    → leader ≤ lo
    → Ascending lo hi xs
    → instrs_below leader xs ≡ []
unfolding instrs_below
instrs_below-late leader lo hi [] l h = refl
instrs_below-late leader lo hi (x ∷ xs) l (h, k) =
    let late : ltb x leader ≡ false = ground arith in
    rw (late, instrs_below-late leader (x + 1) hi xs (omega arith) k) refl

instrs_from-late :
    (leader lo hi : ℕ) (xs : List ℕ) → leader ≤ lo → Ascending lo hi xs → instrs_from leader xs ≡ xs
unfolding instrs_from
instrs_from-late leader lo hi [] l h = refl
instrs_from-late leader lo hi (x ∷ xs) l (h, k) =
    let late : ltb x leader ≡ false = ground arith in
    rw (late, instrs_from-late leader (x + 1) hi xs (omega arith) k) refl

-- The parts of a list of instructions, below the leader and from it on.
record Parts (leader lo hi : ℕ) (xs : List ℕ) : Type 0 where
  joined : instrs_below leader xs ++ instrs_from leader xs ≡ xs
  below : Ascending lo leader (instrs_below leader xs)
  above : Ascending leader hi (instrs_from leader xs)

parts :
    (leader lo hi : ℕ) (xs : List ℕ)
    → lo ≤ leader
    → leader ≤ hi
    → Ascending lo hi xs
    → Parts leader lo hi xs
unfolding instrs_below instrs_from
parts leader lo hi [] l m h = record { joined = refl; below = l; above = m }
parts leader lo hi (x ∷ xs) l m (h, k) = elim (Bool-cases (ltb x leader)) [
  | inl e ↦
      let p = parts leader (x + 1) hi xs (ground arith) m k in
      record {
        joined = rw e (ap (λ t. x ∷ t) p.joined);
        below = rw e (h, p.below);
        above = rw e p.above;
      }
  | inr e ↦
      let late : leader ≤ x = ground arith in
      let b = instrs_below-late leader (x + 1) hi xs (omega arith) k in
      let f = instrs_from-late leader (x + 1) hi xs (omega arith) k in
      record { joined = rw (e, b, f) refl; below = rw (e, b) l; above = rw (e, f) (late, k) }
]

-- Cutting a block at a leader strictly inside it: the parts' instructions are the block's, their
-- sizes add up to the block's, both are runs again, the head falls through to the tail, and the tail
-- has the block's successors.
pub split_block-IsRun :
    (bb : BasicBlock) (leader : ℕ)
    → IsRun bb
    → bb.addr < leader
    → leader < bb.addr + bb.size
    → IsRun (split_block bb leader).0
      × IsRun (split_block bb leader).1
      × ((split_block bb leader).0.instr_addrs ++ (split_block bb leader).1.instr_addrs
          ≡ bb.instr_addrs)
      × ((split_block bb leader).0.size + (split_block bb leader).1.size ≡ bb.size)
      × ((split_block bb leader).0.fail ≡ (split_block bb leader).1.addr)
      × ((split_block bb leader).1.jump ≡ bb.jump)
      × ((split_block bb leader).1.fail ≡ bb.fail)
unfolding split_block
split_block-IsRun bb leader h l m =
    let p = parts leader bb.addr (bb.addr + bb.size) bb.instr_addrs (omega arith) (omega arith) h in
    let head_end : bb.addr + (leader - bb.addr) ≡ leader = omega arith in
    let tail_end : leader + (bb.size - (leader - bb.addr)) ≡ bb.addr + bb.size = omega arith in
    (rw head_end p.below, rw tail_end p.above, p.joined, omega arith, refl, refl, refl)
