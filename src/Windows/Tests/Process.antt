-- ===== src/Windows/Tests/Process.antt =====
-- The native backend, its breakpoints and the cache over a system with one process, whose memory is
-- below 65536.
use irida.Common.{
  Assoc, Bool-cases, [], ap, arith, false, if◌then◌else◌, inl, inr, length, lookup, ltb, lt→ltb,
  none, pos, refl, some, true, ℕ, ◌+◌, ◌<◌, ◌==◌, ◌∷◌, ◌≡◌,
}
use irida.Base.{Bytes, ok}
use irida.Backend.{software_exec}
use irida.Backend.Native.{software_bp_opcode, set_breakpoint, remove_breakpoint}
use irida.Backend.Native.Breakpoints.{ByteMemory, attached, remove_breakpoint-set_breakpoint}
use irida.Windows.Queries.{native_debuggee}
use irida.Windows.Memory.{ProcessMemory, Reach, native_debuggee-ByteMemory}
use irida.Backend.{Backend}
use irida.Backend.Native.Interface.{native_backend}
use irida.Target.MemoryCache.{Memory, page_size, read}
use irida.Target.MemoryCache.Image.{window, Frozen, Coherent, read-window}
use irida.Windows.Pages.{StillProcess, Stopped, native_backend-Frozen}
use irida.Backend.Native.Host.{Debuggee}
use irida.Windows.{Windows}
use irida.Windows.Debuggee.{Impl, no_event}
use irida.Windows.Tests.{stopped_thread}

abbrev put : ℕ → Bytes → (ℕ → ℕ) → ℕ → ℕ
put addr [] os = os
put addr (v ∷ bytes) os = put (addr + 1) bytes (λ x. if addr == x then v else os x)

-- The state is the memory of one process, which has addresses below 65536 only.
abbrev one_process : Windows
one_process = record {
  State = ℕ → ℕ;
  get_last_error = λ os. 5;
  debug_active_process = λ pid os. (true, os);
  debug_set_process_kill_on_exit = λ kill os. os;
  open_process = λ pid os. (some 1, os);
  debug_active_process_stop = λ pid os. (true, os);
  wait_for_debug_event = λ timeout os. (some no_event, os);
  continue_debug_event = λ pid tid status os. (true, os);
  debug_break_process = λ process os. (true, os);
  open_thread = λ access tid os. (some 2, os);
  get_thread_context = λ flags handle os. (some stopped_thread, os);
  set_thread_context = λ flags handle ctx os. (false, os);
  close_handle = λ handle os. os;
  read_process_memory =
      λ process addr len os. (if ltb addr 65536 then some (window os addr len) else none, os);
  write_process_memory = λ process addr data' os.
      if ltb addr 65536 then (some (length data'), put addr data' os) else (none, os);
  flush_instruction_cache = λ process addr len os. (true, os);
  virtual_query = λ process addr os. (
    some (record { base_address = 4096; region_size = 8192; committed = true; protect = 4 }),
    os,
  );
  enum_process_modules = λ process room os. (none, os);
  get_module_information = λ process handle os. (none, os);
  get_module_file_name = λ process handle os. ([], os);
  create_snapshot = λ os. (none, os);
  thread_entries = λ snapshot os. ([], os);
  exception_breakpoint = 1;
  exception_single_step = 2;
  page_readonly = 2;
  page_readwrite = 4;
  page_writecopy = 8;
  page_execute = 16;
  page_execute_read = 32;
  page_execute_readwrite = 64;
  page_execute_writecopy = 128;
}

read-below :
    (os : ℕ → ℕ) (addr : ℕ)
    → addr < 65536
    → ((one_process.read_process_memory 1 addr 1 os).0 ≡ some (os addr ∷ []))
unfolding window
read-below os addr h = rw (lt→ltb addr 65536 h) refl

write-below :
    (os : ℕ → ℕ) (addr v : ℕ)
    → addr < 65536
    → ((one_process.write_process_memory 1 addr (v ∷ []) os).0 ≡ some 1)
write-below os addr v h = rw (lt→ltb addr 65536 h) refl

write-put :
    (os : ℕ → ℕ) (process addr v : ℕ)
    → (one_process.write_process_memory process addr (v ∷ []) os).0 ≡ some 1
    → (x : ℕ)
    → (one_process.write_process_memory process addr (v ∷ []) os).1 x
      ≡ (if addr == x then v else os x)
write-put os process addr v h x = elim (Bool-cases (ltb addr 65536)) [
  | inl e ↦ rw e refl
  | inr e ↦ absurd (cc (rw e at h))
]

abbrev one_process_memory : ProcessMemory one_process
one_process_memory = record {
  peek = λ os process addr. os addr;
  Accessible = λ os process addr. addr < 65536;
  reads = λ os process addr h. (read-below os addr h, h, λ x. refl);
  writes = λ os process addr v h. (write-below os addr v h, h);
  written = write-put;
  flushes = λ os process addr h. (refl, h);
  flushed = λ os process addr x. refl;
}

abbrev nops : ℕ → ℕ
nops x = 144

abbrev stopped : Impl one_process
stopped = record {
  pid = 7;
  process = 1;
  attached = true;
  has_pending = false;
  pending = no_event;
  primary_tid = 9;
  os = nops;
}

abbrev facade : Debuggee
facade = native_debuggee one_process nops

abbrev facade_memory : ByteMemory facade
facade_memory = native_debuggee-ByteMemory one_process one_process_memory nops

abbrev facade_stopped : facade.State
unfolding native_debuggee
facade_stopped = stopped

facade_reaches : facade_memory.Accessible facade_stopped 4096
unfolding native_debuggee native_debuggee-ByteMemory Reach
facade_reaches = (refl, omega arith)

remove_breakpoint-set_breakpoint_example :
    (armed after : facade.State) × (table₁ table₂ : Assoc ℕ) × (set_breakpoint facade software_exec
        4096
        (pos 1)
        (attached facade facade_stopped [] 0 [])
      ≡ (ok tt, attached facade armed table₁ 0 []))
    × (facade_memory.peek armed 4096 ≡ software_bp_opcode)
    × (remove_breakpoint facade software_exec 4096 (pos 1) (attached facade armed table₁ 0 [])
        ≡ (ok tt, attached facade after table₂ 0 []))
    × ((x : ℕ) → facade_memory.peek after x ≡ facade_memory.peek facade_stopped x)
    × ((j : ℕ) → lookup j table₂ ≡ (if 4096 == j then none else lookup j []))
remove_breakpoint-set_breakpoint_example =
    remove_breakpoint-set_breakpoint facade facade_memory [] 0 [] (pos 1) facade_stopped 4096
      facade_reaches

page-below :
    (os : ℕ → ℕ) (process page : ℕ)
    → os ≡ nops
    → page < 65536
    → ((one_process.read_process_memory process page page_size os).0
        ≡ some (window nops page page_size))
      × ((one_process.read_process_memory process page page_size os).1 ≡ nops)
page-below os process page e h =
    rw (lt→ltb page 65536 h) (ap (λ o. some (window o page page_size)) e, e)

abbrev one_process_stands : StillProcess one_process nops
one_process_stands = record {
  Stands = λ os process. os ≡ nops;
  Mapped = λ page. page < 65536;
  serves = page-below;
}

-- The native backend over that system, with any way to attach.
abbrev native : Backend
native = native_backend facade (λ spec b. (ok tt, b))

abbrev native_frozen : Frozen native nops
native_frozen =
    native_backend-Frozen one_process nops one_process_stands nops (λ spec b. (ok tt, b))

abbrev native_memory : Memory native
native_memory = record {
  cache = record { epoch = 1; cur = []; prev = [] };
  backend = attached facade facade_stopped [] 0 [];
}

native_stopped : native_frozen.Stopped native_memory.backend
unfolding native_debuggee Stopped
native_stopped = (stopped, refl, (refl, refl))

native-Coherent : Coherent native nops native_frozen native_memory
unfolding lookup
native-Coherent = record { stopped = native_stopped; pages = λ q bytes h. cc }

read-window_example :
    ((read native 4090 12 native_memory).0 ≡ ok (window nops 4090 12))
    × Coherent native nops native_frozen (read native 4090 12 native_memory).1
read-window_example =
    read-window native nops native_frozen 4090 12 native_memory (omega arith)
      (λ a from to. omega (arith, from, to)) native-Coherent
