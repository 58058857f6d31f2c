-- ===== src/Backend/Native.antt =====
-- irida-core/core/backend/src/native_backend.cpp: the backend over the host's debug facade.
pub mod Host
pub mod Breakpoints
pub mod Slots
pub mod Interface
use irida.Common.{
  Assoc, List, Option, Text, [], assign, codes, drop, false, get_or, if◌then◌else◌, leb, length,
  lookup, ltb, map, negsuc, none, pos, remove, some, suc, take, true, zero, ℕ, ℤ, ◌%◌, ◌*◌, ◌++◌,
  ◌+◌, ◌-◌, ◌/◌, ◌==◌, ◌^◌, ◌∷◌,
}
use irida.Base.{Bytes, Result, ok, err}
use irida.Base.Action.{Action, pure, fail, ◌>>=◌, ◌>>◌}
use irida.Backend.{
  AttachSpec, BpKind, software_exec, hardware_exec, write_watch, read_watch, access_watch, MemMap,
  Module, StopKind, StopReply, ThreadInfo, BackendCaps, RegisterProfile,
}
use Host
use Host.{Debuggee, DbgEvent, DbgEventKind, HostThread}

abbrev pub software_bp_opcode : ℕ
software_bp_opcode = 0xCC

-- Slot 16: rax to r15 precede rip.
abbrev pub rip_offset : ℕ
rip_offset = 16 * 8

abbrev attach_drain_timeout_ms : ℤ
attach_drain_timeout_ms = pos 300

abbrev slot_size : ℕ
slot_size = 8

abbrev pub slots : List Text
slots = map codes (
    "rax" ∷ "rbx" ∷ "rcx" ∷ "rdx" ∷ "rsi" ∷ "rdi" ∷ "rbp" ∷ "rsp" ∷ "r8" ∷ "r9" ∷ "r10" ∷ "r11"
    ∷ "r12" ∷ "r13" ∷ "r14" ∷ "r15" ∷ "rip" ∷ "rflags" ∷ "cs" ∷ "ss" ∷ "ds" ∷ "es" ∷ "fs" ∷ "gs"
    ∷ "dr0" ∷ "dr1" ∷ "dr2" ∷ "dr3" ∷ "dr6" ∷ "dr7" ∷ "reserved0" ∷ "reserved1" ∷ [])

unfoldable pub lay_out : List Text → ℕ → RegisterProfile
lay_out [] offset = record { fields = []; block_size = offset }
lay_out (name ∷ names) offset =
    let rest = lay_out names (offset + slot_size) in
    record {
      fields = record { name = name; offset = offset; size = slot_size } ∷ rest.fields;
      block_size = rest.block_size;
    }

unfoldable pub make_native_x86_64_profile : RegisterProfile
unfolding lay_out
make_native_x86_64_profile = lay_out slots 0

-- The 8 bytes of a `uint64_t` on a little-endian host.
unfoldable pub le_bytes : ℕ → ℕ → Bytes
le_bytes zero v = []
le_bytes (suc n) v = (v % 256) ∷ le_bytes n (v / 256)

-- `memcpy` into the block, if the slot lies inside it.
unfoldable pub write_rip : Bytes → ℕ → Bytes
unfolding le_bytes
write_rip block rip =
    if leb (rip_offset + 8) (length block)
    then take rip_offset block ++ (le_bytes 8 rip ++ drop (rip_offset + 8) block)
    else block

-- `memcpy` of the rip slot into `info.pc`: the number that its 8 bytes stand for. The facade's blocks
-- have all the slots; a byte that a shorter block does not have counts as 0 here.
unfoldable pub slot_value : Bytes → ℕ → ℕ → ℕ
slot_value block offset zero = 0
slot_value block offset (suc n) = get_or block offset 0 + 256 * slot_value block (offset + 1) n

abbrev pc_of : Result Bytes → ℕ
pc_of (ok block) = slot_value block rip_offset 8
pc_of (err e) = 0

unfoldable pub translate_kind : DbgEventKind → StopKind
translate_kind Host.breakpoint = StopKind.breakpoint
translate_kind Host.single_step = StopKind.single_step
translate_kind Host.exception = StopKind.signal
translate_kind Host.exit_process = StopKind.exited
translate_kind Host.load_module = StopKind.unknown
translate_kind Host.other = StopKind.unknown

-- `static_cast<int>` of a `uint32_t`.
abbrev pub to_int : ℕ → ℤ
to_int w = if ltb w (2 ^ 31) then pos w else negsuc (2 ^ 32 - w - 1)

abbrev pub reply_of : DbgEvent → StopReply
reply_of event = record {
  kind = translate_kind event.kind;
  signal = to_int event.code;
  pc = event.address;
  detail = [];
}

module _ (D : Debuggee) where
  pub record NativeBackend : Type 0 where
    pub dbg : Option D.State
    pub sw_bp_orig : Assoc ℕ
    pub next_hw_slot : ℕ
    pub hw_bp_slot : Assoc ℕ

abbrev pub not_attached : Text → Text
not_attached what = codes "NativeBackend: " ++ (what ++ codes " called without an attached target")

module _ (D : Debuggee) where
  unfoldable pub empty : NativeBackend D
  empty = record { dbg = none; sw_bp_orig = []; next_hw_slot = 0; hw_bp_slot = [] }

  -- A call on `dbg_` by the member function `what`, which returns an error when there is none.
  abbrev pub on_dbg : {A : Type 0} → Text → Action D.State A → Action (NativeBackend D) A
  on_dbg what m b = elim b.dbg [
    | none ↦ (err (not_attached what), b)
    | some d ↦ ((m d).0, record b { dbg = some (m d).1 })
  ]

  abbrev pub modify : (NativeBackend D → NativeBackend D) → Action (NativeBackend D) (Unit {0})
  modify f b = (ok tt, f b)

  -- The loop that continues synthetic events until none arrives in time. `none` means that the fuel
  -- ran out: the loop has no bound of its own.
  unfoldable pub drain : ℕ → D.State → Option (Result (Unit {0}) × D.State)
  drain zero d = none
  drain (suc fuel) d = elim (D.wait_event attach_drain_timeout_ms d).0 [
    | err e ↦ some (ok tt, (D.wait_event attach_drain_timeout_ms d).1)
    | ok event ↦ elim (D.resume (D.wait_event attach_drain_timeout_ms d).1).0 [
      | err e ↦ some (err e, (D.resume (D.wait_event attach_drain_timeout_ms d).1).1)
      | ok _ ↦ drain fuel (D.resume (D.wait_event attach_drain_timeout_ms d).1).1
    ]
  ]

  -- What follows the loop: a forced stop, and the event that reports it.
  abbrev settle : Result (Unit {0}) → Action D.State (Unit {0})
  settle (err e) = fail e
  settle (ok _) = do D.request_stop; _ ← D.wait_event (negsuc 0); pure tt

  unfoldable pub attach :
      ℕ → AttachSpec → NativeBackend D → Option (Result (Unit {0}) × NativeBackend D)
  attach fuel spec b = elim (D.attach spec.pid) [
    | err e ↦ some (err e, b)
    | ok d ↦ elim (drain fuel d) [
      | none ↦ none
      | some (r, d') ↦ some ((settle r d').0, record b { dbg = some (settle r d').1 })
    ]
  ]

  -- `dbg_.reset()` whether the facade's detach succeeded or not.
  unfoldable pub detach : Action (NativeBackend D) (Unit {0})
  detach b = elim b.dbg [
    | none ↦ (err (codes "NativeBackend: detach called without an attached target"), b)
    | some d ↦ ((D.detach d).0, record b { dbg = none })
  ]

  -- Rewind rip past the opcode, restore the original byte, step over the real instruction, and arm
  -- the breakpoint again.
  unfoldable pub rearm : Text → ℕ → ℕ → Action (NativeBackend D) (Unit {0})
  rearm what address original = do
    regs ← on_dbg what (λ d. D.read_registers (D.primary_thread d) d)
    on_dbg what (λ d. D.write_registers (D.primary_thread d) (write_rip regs address) d)
    on_dbg what (D.write_memory address (original ∷ []))
    on_dbg what D.resume_single_step
    _ ← on_dbg what (D.wait_event (negsuc 0))
    on_dbg what (D.write_memory address (software_bp_opcode ∷ []))

  -- The breakpoint is one of ours if its address is in the table.
  abbrev pub planted : DbgEvent → Assoc ℕ → Option ℕ
  planted event table = elim event.kind [ Host.breakpoint ↦ lookup event.address table | _ ↦ none ]

  abbrev pub on_planted : Text → DbgEvent → Option ℕ → Action (NativeBackend D) StopReply
  on_planted what event none b = (ok (reply_of event), b)
  on_planted what event (some original) b =
      (do rearm what event.address original; pure (reply_of event)) b

  unfoldable pub translate_stop_and_rearm : Text → DbgEvent → Action (NativeBackend D) StopReply
  translate_stop_and_rearm what event b = on_planted what event (planted event b.sw_bp_orig) b

  unfoldable pub cont : Action (NativeBackend D) StopReply
  cont = do
    on_dbg (codes "cont") D.resume
    event ← on_dbg (codes "cont") (D.wait_event (negsuc 0))
    translate_stop_and_rearm (codes "cont") event

  unfoldable pub step : Action (NativeBackend D) StopReply
  step = do
    on_dbg (codes "step") D.resume_single_step
    event ← on_dbg (codes "step") (D.wait_event (negsuc 0))
    pure (record { kind = StopKind.single_step; signal = pos 0; pc = event.address; detail = [] })

  unfoldable pub request_stop : Action (NativeBackend D) (Unit {0})
  request_stop = on_dbg (codes "request_stop") D.request_stop

  unfoldable pub read_registers : Action (NativeBackend D) Bytes
  read_registers = on_dbg (codes "read_registers") (λ d. D.read_registers (D.primary_thread d) d)

  unfoldable pub write_registers : Bytes → Action (NativeBackend D) (Unit {0})
  write_registers block =
      on_dbg (codes "write_registers") (λ d. D.write_registers (D.primary_thread d) block d)

  unfoldable pub read_memory : ℕ → ℕ → Action (NativeBackend D) Bytes
  read_memory addr len = on_dbg (codes "read_memory") (D.read_memory addr len)

  unfoldable pub write_memory : ℕ → Bytes → Action (NativeBackend D) (Unit {0})
  write_memory addr bytes = on_dbg (codes "write_memory") (D.write_memory addr bytes)

  unfoldable pub maps : Action (NativeBackend D) (List MemMap)
  maps = do
    host_maps ← on_dbg (codes "maps") D.maps
    pure (
        map (λ m. record { start = m.start; end = m.end; perms = m.perms; name = m.name })
          host_maps)

  unfoldable pub modules : Action (NativeBackend D) (List Module)
  modules = do
    host_modules ← on_dbg (codes "modules") D.modules
    pure (map (λ m. record { base = m.base; size = m.size; name = m.name }) host_modules)

  -- One round of the loop of `threads`: the pc is read for the primary thread alone, and stays 0
  -- when its registers cannot be read.
  abbrev thread_info : ℕ → HostThread → D.State → ThreadInfo × D.State
  thread_info primary t d =
      if t.tid == primary
      then (
        record { tid = t.tid; pc = pc_of (D.read_registers t.tid d).0; current = true },
        (D.read_registers t.tid d).1,
      )
      else (record { tid = t.tid; pc = 0; current = false }, d)

  unfoldable pub thread_infos : ℕ → List HostThread → D.State → List ThreadInfo × D.State
  thread_infos primary [] d = ([], d)
  thread_infos primary (t ∷ ts) d =
      let (info, d') = thread_info primary t d in
      let (infos, d'') = thread_infos primary ts d' in (info ∷ infos, d'')

  unfoldable pub threads : Action (NativeBackend D) (List ThreadInfo)
  threads = do
    host_threads ← on_dbg (codes "threads") D.threads
    on_dbg (codes "threads") (λ d. (
      ok (thread_infos (D.primary_thread d) host_threads d).0,
      (thread_infos (D.primary_thread d) host_threads d).1,
    ))

  -- `set_breakpoint` with `BpKind::SoftwareExec`: the table is written before the opcode is.
  unfoldable pub set_software : ℕ → Action (NativeBackend D) (Unit {0})
  set_software addr = do
    original ← on_dbg (codes "set_breakpoint") (D.read_memory addr 1)
    modify (λ b. record b { sw_bp_orig = assign addr (get_or original 0 0) b.sw_bp_orig })
    on_dbg (codes "set_breakpoint") (D.write_memory addr (software_bp_opcode ∷ []))

  -- The slot is taken before the facade is asked.
  unfoldable pub set_hardware : ℕ → Action (NativeBackend D) (Unit {0})
  set_hardware addr b =
      let slot : ℕ = b.next_hw_slot in
      if ltb 3 slot
      then (err (codes "NativeBackend: no free hardware breakpoint slot"), b)
      else (do
        on_dbg (codes "set_breakpoint") (D.set_hw_exec_bp slot addr)
        modify (λ c. record c { hw_bp_slot = assign addr slot c.hw_bp_slot }))
          (record b { next_hw_slot = slot + 1 })

  unfoldable pub remove_software : ℕ → Action (NativeBackend D) (Unit {0})
  remove_software addr b = elim (lookup addr b.sw_bp_orig) [
    | none ↦ (err (codes "NativeBackend: no software breakpoint planted at address"), b)
    | some original ↦
        (do
          on_dbg (codes "remove_breakpoint") (D.write_memory addr (original ∷ []))
          modify (λ c. record c { sw_bp_orig = remove addr c.sw_bp_orig }))
          b
  ]

  unfoldable pub remove_hardware : ℕ → Action (NativeBackend D) (Unit {0})
  remove_hardware addr b = elim (lookup addr b.hw_bp_slot) [
    | none ↦ (err (codes "NativeBackend: no hardware breakpoint at address"), b)
    | some slot ↦
        (do
          on_dbg (codes "remove_breakpoint") (D.clear_hw_bp slot)
          modify (λ c. record c { hw_bp_slot = remove addr c.hw_bp_slot }))
          b
  ]

  abbrev by_kind :
      BpKind
      → Action (NativeBackend D) (Unit {0})
      → Action (NativeBackend D) (Unit {0})
      → Action (NativeBackend D) (Unit {0})
  by_kind software_exec software hardware = software
  by_kind hardware_exec software hardware = hardware
  by_kind write_watch software hardware = fail (codes "watchpoint not implemented")
  by_kind read_watch software hardware = fail (codes "watchpoint not implemented")
  by_kind access_watch software hardware = fail (codes "watchpoint not implemented")

  unfoldable pub set_breakpoint : BpKind → ℕ → ℤ → Action (NativeBackend D) (Unit {0})
  set_breakpoint kind addr size = do
    on_dbg (codes "set_breakpoint") (pure tt)
    by_kind kind (set_software addr) (set_hardware addr)

  unfoldable pub remove_breakpoint : BpKind → ℕ → ℤ → Action (NativeBackend D) (Unit {0})
  remove_breakpoint kind addr size = do
    on_dbg (codes "remove_breakpoint") (pure tt)
    by_kind kind (remove_software addr) (remove_hardware addr)

  unfoldable pub caps : BackendCaps
  caps = record {
    can_step = true;
    has_hw_bp = true;
    clean_dr = false;
    thread_aware = true;
    modules_native = true;
  }
