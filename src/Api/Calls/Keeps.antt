-- ===== src/Api/Calls/Keeps.antt =====
-- Calls of irida-api/src/capi.cpp on a session whose vtable keeps a property of its context.
use irida.Common.{
  Bool, List, Option, Option-cases, [], false, inl, inr, none, some, true, ℕ, ◌∷◌, ◌≡◌,
}
use irida.Analysis.Keeps.{Leaves}
use irida.Base.{Bytes}
use irida.Api.{Listing, BackendVTable, Session}
use irida.Api.Dispatch.{
  guard_listing, guard_void, with, call_listing, call_void, call_read, call_analyze,
}
use irida.Api.Dispatch as Dispatch
use irida.Api.Calls as Calls
use irida.Api.Calls.{Call, perform, run}

module _ {C : Type 0} where
  -- A member of the vtable keeps the property, if it is there.
  abbrev pub ListingKeeps : {R : Type 0} → (C → Type 0) → Option (C → R × C) → Type 0
  ListingKeeps P none = Unit {0}
  ListingKeeps P (some f) = (c : C) → P c → P (f c).1

  abbrev pub VoidKeeps : (C → Type 0) → Option (C → C) → Type 0
  VoidKeeps P none = Unit {0}
  VoidKeeps P (some f) = (c : C) → P c → P (f c)

  abbrev pub AnalyzeKeeps : (C → Type 0) → Option (C → Option C) → Type 0
  AnalyzeKeeps P none = Unit {0}
  AnalyzeKeeps P (some f) = (c : C) → P c → Leaves P (λ d. d) (f c)

  -- Every member keeps the property.
  pub record Keeps (vt : BackendVTable C) (P : C → Type 0) : Type 0 where
    pub registers : ListingKeeps P vt.registers
    pub modules : ListingKeeps P vt.modules
    pub maps : ListingKeeps P vt.maps
    pub threads : ListingKeeps P vt.threads
    pub breakpoints : ListingKeeps P vt.breakpoints
    pub backtrace : ListingKeeps P vt.backtrace
    pub sections : ListingKeeps P vt.sections
    pub imports : ListingKeeps P vt.imports
    pub exports : ListingKeeps P vt.get_exports
    pub symbols : ListingKeeps P vt.symbols
    pub strings : ListingKeeps P vt.strings
    pub functions : ListingKeeps P vt.functions
    pub disasm : (addr count : ℕ) → ListingKeeps P (with count (with addr vt.disasm))
    pub function_blocks : (addr : ℕ) → ListingKeeps P (with addr vt.function_blocks)
    pub xrefs_to : (addr : ℕ) → ListingKeeps P (with addr vt.xrefs_to)
    pub read_memory : (addr len : ℕ) → ListingKeeps P (with len (with addr vt.read_memory))
    pub analyze : AnalyzeKeeps P vt.analyze
    pub bp_toggle : (addr : ℕ) → VoidKeeps P (with addr vt.bp_toggle)
    pub bp_set_enabled :
        (addr : ℕ) (enabled : Bool) → VoidKeeps P (with enabled (with addr vt.bp_set_enabled))
    pub step_into : VoidKeeps P vt.step_into
    pub step_over : VoidKeeps P vt.step_over
    pub step_out : VoidKeeps P vt.step_out
    pub continue : VoidKeeps P vt.cont
    pub break : VoidKeeps P vt.brk
    pub restart : VoidKeeps P vt.restart
    pub stop : VoidKeeps P vt.stop

  -- A session that is there, with the vtable, and with the property.
  abbrev pub Holds : BackendVTable C → (C → Type 0) → Option (Session C) → Type 0
  Holds vt P none = ⊥
  Holds vt P (some s) = (s.vt ≡ vt) × P s.ctx

  guard_listing-Holds :
      {R : Type 0} (vt : BackendVTable C) (P : C → Type 0)
      (f : BackendVTable C → Option (C → Listing R × C)) (given : Bool) (s : Session C)
      → ListingKeeps P (f vt)
      → Holds vt P (some s)
      → Holds vt P (guard_listing f given (some s)).1
  unfolding guard_listing
  guard_listing-Holds vt P f false s k h = h
  guard_listing-Holds {R = R} vt P f true s k h = after (f s.vt) (rw h.0 k)
    where
      after : (m : Option (C → Listing R × C)) → ListingKeeps P m → Holds vt P (call_listing m s).1
      after none k' = h
      after (some call) k' = (h.0, k' s.ctx h.1)

  guard_void-Holds :
      (vt : BackendVTable C) (P : C → Type 0) (f : BackendVTable C → Option (C → C)) (s : Session C)
      → VoidKeeps P (f vt)
      → Holds vt P (some s)
      → Holds vt P (guard_void f (some s))
  unfolding guard_void
  guard_void-Holds vt P f s k h = after (f s.vt) (rw h.0 k)
    where
      after : (m : Option (C → C)) → VoidKeeps P m → Holds vt P (call_void m s)
      after none k' = h
      after (some call) k' = (h.0, k' s.ctx h.1)

  read_memory-Holds :
      (vt : BackendVTable C) (P : C → Type 0) (addr len : ℕ) (given : Bool) (s : Session C)
      → ListingKeeps P (with len (with addr vt.read_memory))
      → Holds vt P (some s)
      → Holds vt P (Dispatch.read_memory addr given len (some s)).1
  unfolding Dispatch.read_memory
  read_memory-Holds vt P addr len false s k h = h
  read_memory-Holds vt P addr len true s k h =
      after (with len (with addr s.vt.read_memory)) (rw h.0 k)
    where
      after : (m : Option (C → Bytes × C)) → ListingKeeps P m → Holds vt P (call_read m s).1
      after none k' = h
      after (some call) k' = (h.0, k' s.ctx h.1)

  analyze-Holds :
      (vt : BackendVTable C) (P : C → Type 0) (s : Session C)
      → AnalyzeKeeps P vt.analyze
      → Holds vt P (some s)
      → Leaves (Holds vt P) (λ s'. s') (Dispatch.analyze (some s))
  unfolding Dispatch.analyze
  analyze-Holds vt P s k h = after s.vt.analyze (rw h.0 k)
    where
      after :
          (m : Option (C → Option C))
          → AnalyzeKeeps P m
          → Leaves (Holds vt P) (λ s'. s') (call_analyze m s)
      after none k' = h
      after (some call) k' =
          let kept = k' s.ctx h.1 in
          elim (Option-cases (call s.ctx)) [
            | inl n ↦ rw (n, call_analyze) tt
            | inr (ctx', n) ↦ rw (n, call_analyze) (h.0, rw n at kept)
          ]

  perform-Holds :
      (vt : BackendVTable C) (P : C → Type 0) (call : Call) (s : Session C)
      → Keeps vt P
      → Holds vt P (some s)
      → Leaves (Holds vt P) (λ s'. s') (perform call (some s))
  unfolding perform Dispatch.registers Dispatch.modules Dispatch.maps Dispatch.threads
      Dispatch.breakpoints Dispatch.backtrace Dispatch.sections Dispatch.imports Dispatch.exports
      Dispatch.symbols Dispatch.strings Dispatch.functions Dispatch.disasm Dispatch.function_blocks
      Dispatch.xrefs_to Dispatch.bp_toggle Dispatch.bp_set_enabled Dispatch.step_into
      Dispatch.step_over Dispatch.step_out Dispatch.continue Dispatch.break Dispatch.restart
      Dispatch.stop
  perform-Holds vt P (Calls.registers given) s k h =
      guard_listing-Holds vt P (λ v. v.registers) given s k.registers h
  perform-Holds vt P (Calls.modules given) s k h =
      guard_listing-Holds vt P (λ v. v.modules) given s k.modules h
  perform-Holds vt P (Calls.maps given) s k h =
      guard_listing-Holds vt P (λ v. v.maps) given s k.maps h
  perform-Holds vt P (Calls.threads given) s k h =
      guard_listing-Holds vt P (λ v. v.threads) given s k.threads h
  perform-Holds vt P (Calls.breakpoints given) s k h =
      guard_listing-Holds vt P (λ v. v.breakpoints) given s k.breakpoints h
  perform-Holds vt P (Calls.backtrace given) s k h =
      guard_listing-Holds vt P (λ v. v.backtrace) given s k.backtrace h
  perform-Holds vt P (Calls.sections given) s k h =
      guard_listing-Holds vt P (λ v. v.sections) given s k.sections h
  perform-Holds vt P (Calls.imports given) s k h =
      guard_listing-Holds vt P (λ v. v.imports) given s k.imports h
  perform-Holds vt P (Calls.exports given) s k h =
      guard_listing-Holds vt P (λ v. v.get_exports) given s k.exports h
  perform-Holds vt P (Calls.symbols given) s k h =
      guard_listing-Holds vt P (λ v. v.symbols) given s k.symbols h
  perform-Holds vt P (Calls.strings given) s k h =
      guard_listing-Holds vt P (λ v. v.strings) given s k.strings h
  perform-Holds vt P (Calls.functions given) s k h =
      guard_listing-Holds vt P (λ v. v.functions) given s k.functions h
  perform-Holds vt P (Calls.disasm addr count given) s k h =
      guard_listing-Holds vt P (λ v. with count (with addr v.disasm)) given s (k.disasm addr count)
        h
  perform-Holds vt P (Calls.function_blocks addr given) s k h =
      guard_listing-Holds vt P (λ v. with addr v.function_blocks) given s (k.function_blocks addr) h
  perform-Holds vt P (Calls.xrefs_to addr given) s k h =
      guard_listing-Holds vt P (λ v. with addr v.xrefs_to) given s (k.xrefs_to addr) h
  perform-Holds vt P (Calls.read_memory addr len given) s k h =
      read_memory-Holds vt P addr len given s (k.read_memory addr len) h
  perform-Holds vt P Calls.step_into s k h =
      guard_void-Holds vt P (λ v. v.step_into) s k.step_into h
  perform-Holds vt P Calls.step_over s k h =
      guard_void-Holds vt P (λ v. v.step_over) s k.step_over h
  perform-Holds vt P Calls.step_out s k h = guard_void-Holds vt P (λ v. v.step_out) s k.step_out h
  perform-Holds vt P Calls.continue s k h = guard_void-Holds vt P (λ v. v.cont) s k.continue h
  perform-Holds vt P Calls.break s k h = guard_void-Holds vt P (λ v. v.brk) s k.break h
  perform-Holds vt P Calls.restart s k h = guard_void-Holds vt P (λ v. v.restart) s k.restart h
  perform-Holds vt P Calls.stop s k h = guard_void-Holds vt P (λ v. v.stop) s k.stop h
  perform-Holds vt P Calls.analyze s k h = analyze-Holds vt P s k.analyze h
  perform-Holds vt P (Calls.bp_toggle addr) s k h =
      guard_void-Holds vt P (λ v. with addr v.bp_toggle) s (k.bp_toggle addr) h
  perform-Holds vt P (Calls.bp_set_enabled addr enabled) s k h =
      guard_void-Holds vt P (λ v. with enabled (with addr v.bp_set_enabled)) s
        (k.bp_set_enabled addr enabled) h

  -- If every member of the vtable keeps a property, then so does every sequence of calls that ends,
  -- and the session is still there.
  pub run-Holds :
      (vt : BackendVTable C) (P : C → Type 0) (calls : List Call) (s : Session C)
      → Keeps vt P
      → Holds vt P (some s)
      → Leaves (Holds vt P) (λ s'. s') (run calls (some s))
  unfolding run
  run-Holds vt P [] s k h = h
  run-Holds vt P (call ∷ calls) s k h =
      let kept = perform-Holds vt P call s k h in
      elim (Option-cases (perform call (some s))) [
        | inl e ↦ rw (e, run) tt
        | inr (none, e) ↦ absurd (rw e at kept)
        | inr (some s', e) ↦ rw (e, run) (run-Holds vt P calls s' k (rw e at kept))
      ]
