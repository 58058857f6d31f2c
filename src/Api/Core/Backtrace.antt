-- ===== src/Api/Core/Backtrace.antt =====
-- `core_backtrace` of irida-api/src/capi_target.cpp: the frames that are reported.
use irida.Common.{
  List, Option, Option-cases, [], arith, codes, inl, inr, length, none, refl, some, suc, zero, ℕ,
  ◌<◌, ◌∷◌, ◌≡◌, ◌≤◌,
}
use irida.Base.{Bytes}
use irida.Backend.{Backend}
use irida.Target as Target
use irida.Api.{Frame, listing}
use irida.Api.Core.{
  CoreCtx, ask, caller_of, walk, core_backtrace, register_or_zero, max_backtrace_frames,
}

-- The frame pointers ascend from `fp` on, and no return address is 0.
abbrev pub Ascends : ℕ → List Frame → Type 0
Ascends fp [] = Unit {0}
Ascends fp (frame ∷ frames) =
    (fp < frame.frame_ptr) × (0 < frame.pc) × Ascends frame.frame_ptr frames

module _ (B : Backend) where
  caller_of-above :
      (fp : ℕ) (mem : Option Bytes) (frame : Frame)
      → caller_of B fp mem ≡ some frame
      → (fp < frame.frame_ptr) × (0 < frame.pc)
  unfolding caller_of
  caller_of-above fp none frame e = absurd (cc)
  caller_of-above fp (some mem) frame e = ground arith

  walk-Ascends :
      (left fp : ℕ) (c : CoreCtx B)
      → Ascends fp (walk B left fp c).0 × (length (walk B left fp c).0 ≤ left)
  unfolding walk
  walk-Ascends zero fp c = (tt, omega arith)
  walk-Ascends (suc left) fp c =
      let asked = ask B (Target.read_memory B fp 16) c in
      elim (Option-cases (caller_of B fp asked.0)) [
        | inl e ↦ rw (e, walk) (tt, omega arith)
        | inr (frame, e) ↦
            let (above, back) = caller_of-above fp asked.0 frame e in
            let (more, few) = walk-Ascends left frame.frame_ptr asked.1 in
            rw (e, walk) ((above, back, more), omega (arith, few))
      ]

  -- Whatever the guest's stack holds, a backtrace is the frame of `rip` and `rbp`, followed by at most
  -- 64 frames whose pointers strictly ascend and whose return addresses are not 0.
  pub core_backtrace-Ascends :
      (c : CoreCtx B)
      → (frames : List Frame) × ((core_backtrace B c).0
          ≡ listing (
              record {
                pc = register_or_zero B (codes "rip") c;
                frame_ptr = register_or_zero B (codes "rbp") c;
              }
              ∷ frames))
        × Ascends (register_or_zero B (codes "rbp") c) frames
        × (length frames ≤ 64)
  unfolding core_backtrace
  core_backtrace-Ascends c =
      let fp : ℕ = register_or_zero B (codes "rbp") c in
      let (up, few) = walk-Ascends max_backtrace_frames fp c in
      ((walk B max_backtrace_frames fp c).0, refl, up, few)
