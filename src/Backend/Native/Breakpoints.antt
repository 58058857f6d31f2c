-- ===== src/Backend/Native/Breakpoints.antt =====
-- Software breakpoints of irida-core/core/backend/src/native_backend.cpp, on the debuggee's
-- memory.
use irida.Common.{
  Assoc, Text, [], ap, arith, assign, if◌then◌else◌, inl, inr, lookup, lookup-assign, lookup-remove,
  negsuc, none, refl, remove, some, true, ℕ, ℤ, ◌==◌, ◌∙◌, ◌∷◌, ◌≡◌,
}
use irida.Base.{Bytes, Result, ok, err, has_value, Result-cases}
use irida.Base.Action.{Action, ◌>>=◌}
use irida.Backend.{software_exec, StopKind}
use irida.Backend.Native.Host
use irida.Backend.Native.Host.{Debuggee, DbgEvent}
use irida.Backend.Native.{
  NativeBackend, software_bp_opcode, write_rip, reply_of, translate_kind, on_dbg, rearm, planted,
  translate_stop_and_rearm, set_software, remove_software, set_breakpoint, remove_breakpoint,
}

-- The debuggee's memory behind the facade, where it is accessible: there a byte read is the byte that is
-- there, and a byte write succeeds. A write that succeeds changes that byte alone.
pub record ByteMemory (D : Debuggee) : Type 1 where
  pub peek : D.State → ℕ → ℕ
  pub Accessible : D.State → ℕ → Type 0
  pub reads :
      (d : D.State) (addr : ℕ)
      → Accessible d addr
      → ((D.read_memory addr 1 d).0 ≡ ok (peek d addr ∷ []))
        × Accessible (D.read_memory addr 1 d).1 addr
        × ((x : ℕ) → peek (D.read_memory addr 1 d).1 x ≡ peek d x)
  pub writes :
      (d : D.State) (addr v : ℕ)
      → Accessible d addr
      → ((D.write_memory addr (v ∷ []) d).0 ≡ ok tt)
        × Accessible (D.write_memory addr (v ∷ []) d).1 addr
  pub written :
      (d : D.State) (addr v : ℕ)
      → (D.write_memory addr (v ∷ []) d).0 ≡ ok tt
      → (x : ℕ) → peek (D.write_memory addr (v ∷ []) d).1 x ≡ (if addr == x then v else peek d x)

module _ (D : Debuggee) where
  -- A backend that is attached.
  abbrev pub attached : D.State → Assoc ℕ → ℕ → Assoc ℕ → NativeBackend D
  attached d table next slots' = record {
    dbg = some d;
    sw_bp_orig = table;
    next_hw_slot = next;
    hw_bp_slot = slots';
  }

  abbrev pub poke : ℕ → ℕ → D.State → D.State
  poke addr v d = (D.write_memory addr (v ∷ []) d).1

module _ (D : Debuggee) (M : ByteMemory D) (table : Assoc ℕ) (next : ℕ) (slots' : Assoc ℕ)
    (size : ℤ) where
  -- The debuggee after a breakpoint is set.
  abbrev planted_at : ℕ → D.State → D.State
  planted_at addr d = poke D addr software_bp_opcode (D.read_memory addr 1 d).1

  set_software-attached :
      (d : D.State) (addr : ℕ)
      → M.Accessible d addr
      → set_breakpoint D software_exec addr size (attached D d table next slots')
        ≡ (ok tt, attached D (planted_at addr d) (assign addr (M.peek d addr) table) next slots')
  unfolding set_breakpoint set_software
  set_software-attached d addr acc =
      let (is_read, acc', same) = M.reads d addr acc in
      rw (is_read, (M.writes (D.read_memory addr 1 d).1 addr software_bp_opcode acc').0)

  remove_software-attached :
      (d : D.State) (table : Assoc ℕ) (addr original : ℕ)
      → M.Accessible d addr
      → lookup addr table ≡ some original
      → remove_breakpoint D software_exec addr size (attached D d table next slots')
        ≡ (ok tt, attached D (poke D addr original d) (remove addr table) next slots')
  unfolding remove_breakpoint remove_software lookup remove
  remove_software-attached d table addr original acc h = rw (h, (M.writes d addr original acc).0)

  -- On an attached debuggee, at an accessible address, where byte reads and writes act as a memory:
  -- setting a software breakpoint succeeds and plants the opcode, removing it succeeds and leaves every
  -- byte of memory as it was, and takes this address, and no other, out of the table.
  pub remove_breakpoint-set_breakpoint :
      (d : D.State) (addr : ℕ)
      → M.Accessible d addr
      → (armed after : D.State) × (table₁ table₂ : Assoc ℕ) × (set_breakpoint D software_exec addr
            size
            (attached D d table next slots')
          ≡ (ok tt, attached D armed table₁ next slots'))
        × (M.peek armed addr ≡ software_bp_opcode)
        × (remove_breakpoint D software_exec addr size (attached D armed table₁ next slots')
            ≡ (ok tt, attached D after table₂ next slots'))
        × ((x : ℕ) → M.peek after x ≡ M.peek d x)
        × ((j : ℕ) → lookup j table₂ ≡ (if addr == j then none else lookup j table))
  remove_breakpoint-set_breakpoint d addr acc =
      let (is_read, acc₁, same) = M.reads d addr acc in
      let d₁ : D.State = (D.read_memory addr 1 d).1 in
      let (planted_ok, acc₂) = M.writes d₁ addr software_bp_opcode acc₁ in
      let armed : D.State = planted_at addr d in
      let table₁ : Assoc ℕ = assign addr (M.peek d addr) table in
      let restored = (M.writes armed addr (M.peek d addr) acc₂).0 in
      let planted_bytes = M.written d₁ addr software_bp_opcode planted_ok in
      (
        armed,
        poke D addr (M.peek d addr) armed,
        table₁,
        remove addr table₁,
        set_software-attached d addr acc,
        planted_bytes addr ∙ ground arith,
        remove_software-attached armed table₁ addr (M.peek d addr) acc₂
            (lookup-assign addr addr (M.peek d addr) table ∙ ground arith),
        λ x.
            M.written armed addr (M.peek d addr) restored x
            ∙ ground (arith, planted_bytes x, same x),
        λ j.
            lookup-remove addr j table₁
            ∙ ground (arith, lookup-assign addr j (M.peek d addr) table),
      )

-- After a stop at one of our breakpoints.
module _ (D : Debuggee) (M : ByteMemory D) (table : Assoc ℕ) (next : ℕ) (slots' : Assoc ℕ)
    (addr : ℕ) where
  -- The way over the breakpoint, from a debuggee stopped behind it: the program counter is set back to
  -- the breakpoint, the original byte is in its place for one step, and the opcode is put back after it.
  pub record Rearmed (original : ℕ) (d after : D.State) : Type 0 where
    pub regs : Bytes
    pub event : DbgEvent
    pub d₁ : D.State
    pub d₂ : D.State
    pub d₃ : D.State
    pub d₄ : D.State
    pub d₅ : D.State
    pub registers : D.read_registers (D.primary_thread d) d ≡ (ok regs, d₁)
    pub rewound : D.write_registers (D.primary_thread d₁) (write_rip regs addr) d₁ ≡ (ok tt, d₂)
    pub restored : D.write_memory addr (original ∷ []) d₂ ≡ (ok tt, d₃)
    pub original_there : M.peek d₃ addr ≡ original
    pub stepped : D.resume_single_step d₃ ≡ (ok tt, d₄)
    pub waited : D.wait_event (negsuc 0) d₄ ≡ (ok event, d₅)
    pub armed : D.write_memory addr (software_bp_opcode ∷ []) d₅ ≡ (ok tt, after)
    pub opcode_there : M.peek after addr ≡ software_bp_opcode

  data Ends {A : Type 0} (P : D.State → Type 0) (r : Result A × NativeBackend D) : Type 0 where
    succeeds :
        (a : A) (after : D.State)
        → r ≡ (ok a, attached D after table next slots')
        → P after
        → Ends P r
    fails : (e : Text) → r.0 ≡ err e → Ends P r

  Ends-last :
      {A : Type 0} (P : D.State → Type 0) (what : Text) (m : Action D.State A) (d : D.State)
      → ((a : A) (d' : D.State) → m d ≡ (ok a, d') → P d')
      → Ends P (on_dbg D what m (attached D d table next slots'))
  Ends-last P what m d h = elim (Result-cases (m d).0) [
    | inl (a, e) ↦
        succeeds a (m d).1 (ap (λ r. (r, attached D (m d).1 table next slots')) e)
          (h a (m d).1 (ap (λ r. (r, (m d).1)) e))
    | inr (msg, e) ↦ fails msg e
  ]

  Ends-bind :
      {A B : Type 0} (P : D.State → Type 0) (what : Text) (m : Action D.State A)
      (f : A → Action (NativeBackend D) B) (d : D.State)
      → ((a : A) (d' : D.State) → m d ≡ (ok a, d') → Ends P (f a (attached D d' table next slots')))
      → Ends P ((on_dbg D what m >>= f) (attached D d table next slots'))
  Ends-bind P what m f d h = elim (Result-cases (m d).0) [
    | inl (a, e) ↦ rw e (h a (m d).1 (ap (λ r. (r, (m d).1)) e))
    | inr (msg, e) ↦ fails msg (rw e)
  ]

  poked :
      (v : ℕ) (d d' : D.State) → D.write_memory addr (v ∷ []) d ≡ (ok tt, d') → M.peek d' addr ≡ v
  poked v d d' e =
      let there : M.peek (D.write_memory addr (v ∷ []) d).1 addr ≡ v =
        M.written d addr v (ap (λ r. r.0) e) addr ∙ ground arith in
      rw (ap (λ r. r.1) e) at there

  rearm-Rearmed :
      (what : Text) (original : ℕ) (d : D.State)
      → Ends (Rearmed original d) (rearm D what addr original (attached D d table next slots'))
  unfolding rearm
  rearm-Rearmed what original d =
      let P : D.State → Type 0 = Rearmed original d in
      Ends-bind P what (λ d. D.read_registers (D.primary_thread d) d) _ d
        λ regs d₁ e₁.
          Ends-bind P what (λ d. D.write_registers (D.primary_thread d) (write_rip regs addr) d) _
            d₁
            λ _ d₂ e₂. Ends-bind P what (D.write_memory addr (original ∷ [])) _ d₂ λ _ d₃ e₃.
              Ends-bind P what D.resume_single_step _ d₃ λ _ d₄ e₄.
                Ends-bind P what (D.wait_event (negsuc 0)) _ d₄ λ event d₅ e₅.
                  Ends-last P what (D.write_memory addr (software_bp_opcode ∷ [])) d₅ λ _ after e₆.
                    record {
                      regs = regs;
                      event = event;
                      d₁ = d₁;
                      d₂ = d₂;
                      d₃ = d₃;
                      d₄ = d₄;
                      d₅ = d₅;
                      registers = e₁;
                      rewound = e₂;
                      restored = e₃;
                      original_there = poked original d₂ d₃ e₃;
                      stepped = e₄;
                      waited = e₅;
                      armed = e₆;
                      opcode_there = poked software_bp_opcode d₅ after e₆;
                    }

  planted_here :
      (event : DbgEvent) (original : ℕ)
      → event.kind ≡ Host.breakpoint
      → event.address ≡ addr
      → lookup addr table ≡ some original
      → planted D event table ≡ some original
  planted_here event original k a h = rw (k, a) h

  reply_or_error :
      (what : Text) (event : DbgEvent) (original : ℕ) (d : D.State)
      → planted D event table ≡ some original
      → event.address ≡ addr
      → Ends (Rearmed original d) (rearm D what addr original (attached D d table next slots'))
      → has_value (translate_stop_and_rearm D what event (attached D d table next slots')).0 ≡ true
      → (after : D.State) × (translate_stop_and_rearm D what event (attached D d table next slots')
          ≡ (ok (reply_of event), attached D after table next slots'))
        × Rearmed original d after
  unfolding translate_stop_and_rearm
  reply_or_error what event original d k a (succeeds _ after e p) v = (after, rw (k, a, e), p)
  reply_or_error what event original d k a (fails msg e) v =
      absurd (ground (arith, rw (k, a, e) at v))

  -- Where a byte write that succeeds acts as one on a memory, a stop at a planted breakpoint that is
  -- reported without an error is reported as a breakpoint at its address, the table is unchanged, and
  -- on the way the program counter was set back, one step was made with the original byte in its
  -- place, and the opcode was put back.
  pub translate_stop_and_rearm-armed :
      (what : Text) (event : DbgEvent) (original : ℕ) (d : D.State)
      → event.kind ≡ Host.breakpoint
      → event.address ≡ addr
      → lookup addr table ≡ some original
      → has_value (translate_stop_and_rearm D what event (attached D d table next slots')).0 ≡ true
      → (after : D.State) × (translate_stop_and_rearm D what event (attached D d table next slots')
          ≡ (ok (reply_of event), attached D after table next slots'))
        × Rearmed original d after
        × ((reply_of event).kind ≡ StopKind.breakpoint)
        × ((reply_of event).pc ≡ addr)
  unfolding translate_kind
  translate_stop_and_rearm-armed what event original d k a h v =
      let (after, e, p) =
        reply_or_error what event original d (planted_here event original k a h) a
          (rearm-Rearmed what original d) v in
      (after, e, p, rw k refl, a)
