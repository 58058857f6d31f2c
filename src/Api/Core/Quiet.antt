-- ===== src/Api/Core/Quiet.antt =====
-- The calls of irida-api/src/capi_target.cpp that do not resume the guest.
use irida.Common.{
  Assoc, Bool-cases, List, Option, Option-cases, Text, [], codes, if◌then◌else◌, inl, inr, min,
  refl, suc, true, zero, ℕ, ◌==◌, ◌∙◌, ◌∷◌, ◌≡◌,
}
use irida.Base.{Bytes, Result, Result-cases}
use irida.Disasm.{Instruction, Disassembler, decode_linear}
use irida.Analysis.Analyzer as Analyzer
use irida.Analysis.Keeps.{Leaves, analyze-keeps}
use irida.Binfmt.Binary.{BinaryInfo, BinaryParser}
use irida.Backend.{Backend}
use irida.Target as Target
use irida.Target.MemoryCache
use irida.Target.Epochs.{epoch-read_loop}
use irida.Target.{Target}
use irida.Api.Views.{room_for, operand_target}
use irida.Api.Core.{
  CoreCtx, ask, show_all, walk, caller_of, core_strings, core_backtrace, core_read_memory,
  max_backtrace_frames, strings_scan_cap, register_or_zero, core_pc,
}
use irida.Api.Core.Main.{
  ensure_binary_parsed, binary_rows, resolve_symbol, annotate, insn_rows, core_disasm,
  target_reader, run_analysis,
}

module _ {B : Backend} where
  -- Two targets in one epoch, with the same registers, over caches of one epoch.
  pub record SameStop (t u : Target B) : Type 0 where
    pub epoch : u.epoch ≡ t.epoch
    pub state : u.state ≡ t.state
    pub cached : u.memory.cache.epoch ≡ t.memory.cache.epoch

  pub same_stop : (t : Target B) → SameStop t t
  same_stop t = record { epoch = refl; state = refl; cached = refl }

  after : {t u v : Target B} → SameStop t u → SameStop u v → SameStop t v
  after a b = record {
    epoch = b.epoch ∙ a.epoch;
    state = b.state ∙ a.state;
    cached = b.cached ∙ a.cached;
  }

module _ (B : Backend) where
  ask-target :
      {A : Type 0} (call : Target B → Result A × Target B) (c : CoreCtx B)
      → (ask B call c).1 ≡ record c { target = (call c.target).1 }
  ask-target call c = elim (Result-cases (call c.target).0) [
    | inl (a, e) ↦ rw (e, ask) refl
    | inr (msg, e) ↦ rw (e, ask) refl
  ]

  pub ask-SameStop :
      {A : Type 0} (call : Target B → Result A × Target B) (c : CoreCtx B)
      → SameStop c.target (call c.target).1
      → SameStop c.target (ask B call c).1.target
  ask-SameStop call c h = rw (ask-target call c) h

  read_memory-SameStop :
      (addr len : ℕ) (t : Target B) → SameStop t (Target.read_memory B addr len t).1
  unfolding Target.read_memory
  read_memory-SameStop addr len t = record {
    epoch = refl;
    state = refl;
    cached = unfold MemoryCache.read in epoch-read_loop B len addr len [] t.memory;
  }

  pub modules-SameStop : (t : Target B) → SameStop t (Target.modules B t).1
  unfolding Target.modules
  modules-SameStop t = record { epoch = refl; state = refl; cached = refl }

  pub show_all-SameStop :
      {A R : Type 0} (call : Target B → Result (List A) × Target B) (row : A → R) (c : CoreCtx B)
      → SameStop c.target (call c.target).1
      → SameStop c.target (show_all B call row c).1.target
  show_all-SameStop call row c h = elim (Option-cases (ask B call c).0) [
    | inl e ↦ rw (e, show_all) (ask-SameStop call c h)
    | inr (all, e) ↦ rw (e, show_all) (ask-SameStop call c h)
  ]

  walk-SameStop : (left fp : ℕ) (c : CoreCtx B) → SameStop c.target (walk B left fp c).1.target
  unfolding walk
  walk-SameStop zero fp c = same_stop c.target
  walk-SameStop (suc left) fp c =
      let asked = ask B (Target.read_memory B fp 16) c in
      let h = ask-SameStop (Target.read_memory B fp 16) c (read_memory-SameStop fp 16 c.target) in
      elim (Option-cases (caller_of B fp asked.0)) [
        | inl e ↦ rw (e, walk) h
        | inr (frame, e) ↦ rw (e, walk) (after h (walk-SameStop left frame.frame_ptr asked.1))
      ]

  module _ (parser : BinaryParser) where
    ensure-SameStop : (c : CoreCtx B) → SameStop c.target (ensure_binary_parsed B parser c).1.target
    unfolding ensure_binary_parsed
    ensure-SameStop c = elim (Bool-cases c.binary_parsed) [
      | inl e ↦ rw e (same_stop c.target)
      | inr e ↦
          let asked = ask B (Target.modules B) (record c { binary_parsed = true }) in
          let h =
            ask-SameStop (Target.modules B) (record c { binary_parsed = true })
              (modules-SameStop c.target) in
          elim (Option-cases asked.0) [
            | inl n ↦ rw (e, n) h
            | inr ([], n) ↦ rw (e, n) h
            | inr (main ∷ others, n) ↦ elim (Result-cases (parser.parse_file main.name)) [
              | inl (bin, p) ↦ rw (e, n, p) h
              | inr (msg, p) ↦ rw (e, n, p) h
            ]
          ]
    ]

    resolve-SameStop :
        (addr : ℕ) (c : CoreCtx B) → SameStop c.target (resolve_symbol B parser addr c).1.target
    unfolding resolve_symbol
    resolve-SameStop addr c = elim (Bool-cases (ensure_binary_parsed B parser c).0) [
      | inl e ↦ rw e (ensure-SameStop c)
      | inr e ↦ rw e (ensure-SameStop c)
    ]

    pub binary_rows-SameStop :
        {R : Type 0} (rows : BinaryInfo → List R) (c : CoreCtx B)
        → SameStop c.target (binary_rows B parser rows c).1.target
    unfolding binary_rows
    binary_rows-SameStop rows c = elim (Bool-cases (ensure_binary_parsed B parser c).0) [
      | inl e ↦ rw e (ensure-SameStop c)
      | inr e ↦ rw e (ensure-SameStop c)
    ]

    insn_rows-SameStop :
        (addr : ℕ) (bytes : Bytes) (insns : List Instruction) (c : CoreCtx B)
        → SameStop c.target (insn_rows B parser addr bytes insns c).1.target
    unfolding insn_rows
    insn_rows-SameStop addr bytes [] c = same_stop c.target
    insn_rows-SameStop addr bytes (insn ∷ insns) c = elim (Option-cases (operand_target insn)) [
      | inl e ↦ rw (e, annotate, insn_rows) (insn_rows-SameStop addr bytes insns c)
      | inr (tgt, e) ↦
          rw (e, annotate, insn_rows)
            (after (resolve-SameStop tgt c)
              (insn_rows-SameStop addr bytes insns (resolve_symbol B parser tgt c).1))
    ]

    pub core_disasm-SameStop :
        (D : Disassembler) (addr count : ℕ) (c : CoreCtx B)
        → SameStop c.target (core_disasm B parser D addr count c).1.target
    unfolding core_disasm
    core_disasm-SameStop D addr count c =
        let asked = ask B (Target.read_memory B addr (room_for count)) c in
        let h =
          ask-SameStop (Target.read_memory B addr (room_for count)) c
            (read_memory-SameStop addr (room_for count) c.target) in
        elim (Bool-cases (count == 0)) [
          | inl z ↦ rw z (same_stop c.target)
          | inr z ↦ elim (Option-cases asked.0) [
            | inl e ↦ rw (z, e) h
            | inr (bytes, e) ↦
                rw (z, e)
                  (after h
                    (insn_rows-SameStop addr bytes (decode_linear D bytes addr count) asked.1))
          ]
        ]

    target_reader-SameStop :
        (D : Disassembler) (addr len : ℕ) (t : Target B)
        → SameStop t (target_reader B parser D addr len t).1
    unfolding target_reader
    target_reader-SameStop D addr len t = elim (Result-cases (Target.read_memory B addr len t).0) [
      | inl (bytes, e) ↦ rw (e, target_reader) (read_memory-SameStop addr len t)
      | inr (msg, e) ↦ rw (e, target_reader) (read_memory-SameStop addr len t)
    ]

    pub run_analysis-SameStop :
        (D : Disassembler) (keys : Assoc Text → List ℕ) (fuel : ℕ) (c : CoreCtx B)
        → Leaves (SameStop c.target) (λ c'. c'.target) (run_analysis B parser D keys fuel c)
    unfolding run_analysis
    run_analysis-SameStop D keys fuel c =
        let c' = (ensure_binary_parsed B parser c).1 in
        let names : ℕ → Option Text = λ addr. (resolve_symbol B parser addr c').0 in
        let entries =
          core_pc B c ∷ (if (ensure_binary_parsed B parser c).0 then keys c'.symbol_map else []) in
        let kept =
          analyze-keeps D (target_reader B parser D) (SameStop c.target)
            (λ addr len t h. after h (target_reader-SameStop D addr len t)) names fuel entries
            c'.target (ensure-SameStop c) in
        elim (Option-cases
          (Analyzer.analyze D (target_reader B parser D) names fuel entries c'.target)) [
            | inl n ↦ rw (n, run_analysis) tt
            | inr ((analysis, t), n) ↦ rw (n, run_analysis) (rw n at kept)
          ]

  pub core_read_memory-SameStop :
      (addr len : ℕ) (c : CoreCtx B) → SameStop c.target (core_read_memory B addr len c).1.target
  unfolding core_read_memory
  core_read_memory-SameStop addr len c =
      let h =
        ask-SameStop (Target.read_memory B addr len) c (read_memory-SameStop addr len c.target) in
      elim (Option-cases (ask B (Target.read_memory B addr len) c).0) [
        | inl e ↦ rw (e, core_read_memory) h
        | inr (bytes, e) ↦ rw (e, core_read_memory) h
      ]

  pub core_backtrace-SameStop : (c : CoreCtx B) → SameStop c.target (core_backtrace B c).1.target
  unfolding core_backtrace
  core_backtrace-SameStop c =
      walk-SameStop max_backtrace_frames (register_or_zero B (codes "rbp") c) c

  pub core_strings-SameStop : (c : CoreCtx B) → SameStop c.target (core_strings B c).1.target
  unfolding core_strings
  core_strings-SameStop c =
      let asked = ask B (Target.modules B) c in
      let h = ask-SameStop (Target.modules B) c (modules-SameStop c.target) in
      elim (Option-cases asked.0) [
        | inl n ↦ rw (n, core_strings) h
        | inr ([], n) ↦ rw (n, core_strings) h
        | inr (main ∷ others, n) ↦
            let len : ℕ = min main.size strings_scan_cap in
            let read = ask B (Target.read_memory B main.base len) asked.1 in
            let k = after h (
              ask-SameStop (Target.read_memory B main.base len) asked.1
                (read_memory-SameStop main.base len asked.1.target)) in
            elim (Bool-cases (len == 0)) [
              | inl z ↦ rw (n, z, core_strings) h
              | inr z ↦ elim (Option-cases read.0) [
                | inl r ↦ rw (n, z, r, core_strings) k
                | inr (bytes, r) ↦ rw (n, z, r, core_strings) k
              ]
            ]
      ]
