-- ===== src/Api/Core/Sessions.antt =====
-- Sequences of calls on a session of irida-api/src/capi_target.cpp.
use irida.Common.{Assoc, List, Option-cases, Text, ap, inl, inr, none, refl, some, sym, ℕ, ◌∙◌, ◌≡◌}
use irida.Base.{Result, Result-cases}
use irida.Disasm.{Disassembler}
use irida.Analysis.Keeps.{Leaves}
use irida.Binfmt.Binary.{BinaryParser}
use irida.Backend.Unsupported.{unsupported_native_backend}
use irida.Backend.{Backend}
use irida.Target as Target
use irida.Target.{Target}
use irida.Target.Epochs.{
  Outcome, advanced, failed, IsLive, next_epoch-IsLive, cont-Outcome, step-Outcome, attach-IsLive,
}
use irida.Api.{Session}
use irida.Api.Dispatch.{session_create}
use irida.Api.Calls.{Call, run}
use irida.Api.Calls.Keeps.{Keeps, Holds, run-Holds}
use irida.Api.Core.{
  core_ctx, CoreCtx, core_read_memory, core_backtrace, core_strings, core_registers, core_modules,
  core_maps, core_threads, core_step, core_cont, core_breakpoints, core_functions,
  core_function_blocks, core_xrefs_to,
}
use irida.Api.Core.Main.{
  core_disasm, run_analysis, core_sections, core_imports, core_exports, core_symbols,
}
use irida.Api.Core.Quiet.{
  SameStop, show_all-SameStop, binary_rows-SameStop, core_disasm-SameStop,
  core_read_memory-SameStop, core_backtrace-SameStop, core_strings-SameStop, run_analysis-SameStop,
  modules-SameStop,
}
use irida.Api.Core.Vtable.{native_spec, core_vtable, session_create_native}

module _ (B : Backend) where
  -- The context's target has been refreshed, so that it has registers to show.
  abbrev pub IsAttached : CoreCtx B → Type 0
  IsAttached c = IsLive B c.target

  SameStop-IsLive : (t u : Target B) → SameStop t u → IsLive B t → IsLive B u
  SameStop-IsLive t u h l = record {
    guest = l.guest;
    held = h.state ∙ l.held;
    at_epoch = l.at_epoch ∙ sym h.epoch;
    cached = h.cached ∙ l.cached ∙ sym h.epoch;
  }

  resumed-IsLive :
      {A : Type 0} (t : Target B) (r : Result A × Target B)
      → IsLive B t
      → Outcome t r
      → IsLive B r.1
  resumed-IsLive t r l (advanced a raw regs s d e) = rw e (next_epoch-IsLive B regs _)
  resumed-IsLive t r l (failed msg s e) =
      rw e (record { guest = l.guest; held = l.held; at_epoch = l.at_epoch; cached = l.cached })

  module _ (parser : BinaryParser) (D : Disassembler) (keys : Assoc Text → List ℕ) (fuel : ℕ) where
    -- The calls of the vtable that read the target, each from a stop to the same stop.
    pub record IsQuiet (c : CoreCtx B) : Type 0 where
      pub modules : SameStop c.target (core_modules B c).1.target
      pub maps : SameStop c.target (core_maps B c).1.target
      pub threads : SameStop c.target (core_threads B c).1.target
      pub disasm :
          (addr count : ℕ) → SameStop c.target (core_disasm B parser D addr count c).1.target
      pub read_memory : (addr len : ℕ) → SameStop c.target (core_read_memory B addr len c).1.target
      pub backtrace : SameStop c.target (core_backtrace B c).1.target
      pub sections : SameStop c.target (core_sections B parser c).1.target
      pub imports : SameStop c.target (core_imports B parser c).1.target
      pub exports : SameStop c.target (core_exports B parser c).1.target
      pub symbols : SameStop c.target (core_symbols B parser c).1.target
      pub strings : SameStop c.target (core_strings B c).1.target
      pub analyze :
          Leaves (SameStop c.target) (λ c'. c'.target) (run_analysis B parser D keys fuel c)

    -- A listing, a read, a disassembly, a backtrace or an analysis leaves the target's epoch, its
    -- registers and the cache's epoch as they were, whatever fails on the way.
    pub core-IsQuiet : (c : CoreCtx B) → IsQuiet c
    unfolding core_modules core_maps core_threads core_sections core_imports core_exports
        core_symbols Target.maps Target.modules Target.threads
    core-IsQuiet c = record {
      modules = show_all-SameStop B (Target.modules B) _ c (modules-SameStop B c.target);
      maps =
          show_all-SameStop B (Target.maps B) _ c
            (record { epoch = refl; state = refl; cached = refl });
      threads =
          show_all-SameStop B (Target.threads B) _ c
            (record { epoch = refl; state = refl; cached = refl });
      disasm = λ addr count. core_disasm-SameStop B parser D addr count c;
      read_memory = λ addr len. core_read_memory-SameStop B addr len c;
      backtrace = core_backtrace-SameStop B c;
      sections = binary_rows-SameStop B parser _ c;
      imports = binary_rows-SameStop B parser _ c;
      exports = binary_rows-SameStop B parser _ c;
      symbols = binary_rows-SameStop B parser _ c;
      strings = core_strings-SameStop B c;
      analyze = run_analysis-SameStop B parser D keys fuel c;
    }

    analyze-IsAttached :
        (c : CoreCtx B)
        → IsAttached c
        → Leaves IsAttached (λ c'. c') (run_analysis B parser D keys fuel c)
    analyze-IsAttached c h =
        let quiet = (core-IsQuiet c).analyze in
        elim (Option-cases (run_analysis B parser D keys fuel c)) [
          | inl n ↦ rw n tt
          | inr (c', n) ↦ rw n (SameStop-IsLive c.target c'.target (rw n at quiet) h)
        ]

    resume-IsAttached :
        (c : CoreCtx B) → IsAttached c → IsAttached (core_step B c) × IsAttached (core_cont B c)
    unfolding core_step core_cont
    resume-IsAttached c h = (
      resumed-IsLive c.target (Target.step B c.target) h (step-Outcome B c.target),
      resumed-IsLive c.target (Target.cont B c.target) h (cont-Outcome B c.target),
    )

    core_vtable-Keeps : Keeps (core_vtable B parser D keys fuel) IsAttached
    unfolding core_vtable core_registers core_breakpoints core_functions core_function_blocks
        core_xrefs_to
    core_vtable-Keeps = record {
      registers = λ c h. h;
      modules = λ c h. SameStop-IsLive _ _ (core-IsQuiet c).modules h;
      maps = λ c h. SameStop-IsLive _ _ (core-IsQuiet c).maps h;
      threads = λ c h. SameStop-IsLive _ _ (core-IsQuiet c).threads h;
      breakpoints = λ c h. h;
      backtrace = λ c h. SameStop-IsLive _ _ (core-IsQuiet c).backtrace h;
      sections = λ c h. SameStop-IsLive _ _ (core-IsQuiet c).sections h;
      imports = λ c h. SameStop-IsLive _ _ (core-IsQuiet c).imports h;
      exports = λ c h. SameStop-IsLive _ _ (core-IsQuiet c).exports h;
      symbols = λ c h. SameStop-IsLive _ _ (core-IsQuiet c).symbols h;
      strings = λ c h. SameStop-IsLive _ _ (core-IsQuiet c).strings h;
      functions = λ c h. h;
      disasm = λ addr count c h. SameStop-IsLive _ _ ((core-IsQuiet c).disasm addr count) h;
      function_blocks = λ addr c h. h;
      xrefs_to = λ addr c h. h;
      read_memory = λ addr len c h. SameStop-IsLive _ _ ((core-IsQuiet c).read_memory addr len) h;
      analyze = analyze-IsAttached;
      bp_toggle = λ addr c h. h;
      bp_set_enabled = λ addr enabled c h. h;
      step_into = λ c h. (resume-IsAttached c h).0;
      step_over = λ c h. (resume-IsAttached c h).0;
      step_out = λ c h. (resume-IsAttached c h).0;
      continue = λ c h. (resume-IsAttached c h).1;
      break = λ c h. h;
      restart = λ c h. h;
      stop = λ c h. h;
    }

    created-IsAttached :
        (pid : ℕ) (new_backend : B.State)
        → Leaves
            (λ s. Holds (core_vtable B parser D keys fuel) IsAttached (some s))
            (λ s. s)
            (session_create_native B parser D keys fuel pid new_backend)
    unfolding session_create_native session_create core_ctx
    created-IsAttached pid new_backend =
        let connected = B.attach (native_spec pid) new_backend in
        let attached = Target.attach B connected.1 in
        elim (Result-cases connected.0) [
          | inr (msg, e) ↦ rw (e, session_create_native) tt
          | inl (done, e) ↦ elim (Result-cases attached.0) [
            | inr (msg, a) ↦ rw (e, a, session_create_native) tt
            | inl (done', a) ↦
                let live = attach-IsLive B connected.1 attached.1 (ap (λ r. (r, attached.1)) a) in
                rw (e, a, session_create_native) (refl, live.0)
          ]
        ]

    session_create_native-IsAttached :
        (pid : ℕ) (new_backend : B.State) (s : Session (CoreCtx B))
        → session_create_native B parser D keys fuel pid new_backend ≡ some s
        → Holds (core_vtable B parser D keys fuel) IsAttached (some s)
    session_create_native-IsAttached pid new_backend s e =
        rw e at (created-IsAttached pid new_backend)

    -- A native session has registers from its creation on, whatever is called on it and whatever
    -- fails: its target is attached, and the target and the cache are in one epoch. So no call reads
    -- through the null state of a target that was never refreshed.
    pub run-IsAttached :
        (pid : ℕ) (new_backend : B.State) (s : Session (CoreCtx B)) (calls : List Call)
        → session_create_native B parser D keys fuel pid new_backend ≡ some s
        → Leaves
            (Holds (core_vtable B parser D keys fuel) IsAttached)
            (λ s'. s')
            (run calls (some s))
    run-IsAttached pid new_backend s calls e =
        run-Holds (core_vtable B parser D keys fuel) IsAttached calls s core_vtable-Keeps
          (session_create_native-IsAttached pid new_backend s e)

-- Where the platform has no debug interface, no session is created.
pub session_create_native-unsupported :
    (parser : BinaryParser) (D : Disassembler) (keys : Assoc Text → List ℕ) (fuel pid : ℕ)
    → session_create_native unsupported_native_backend parser D keys fuel pid tt ≡ none
unfolding session_create_native
session_create_native-unsupported parser D keys fuel pid = refl
