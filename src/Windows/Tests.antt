-- ===== src/Windows/Tests.antt =====
-- A small operating system that counts the handles it gave away.
mod Process
use irida.Common.{
  Bool-cases, List, [], arith, false, if◌then◌else◌, inl, inr, length, none, refl, some, suc, sym,
  true, ℕ, ◌+◌, ◌-◌, ◌==◌, ◌^◌, ◌∙◌, ◌∷◌, ◌≡◌, ◌⊎◌,
}
use irida.Backend.Native.Breakpoints.{attached}
use irida.Backend.Native.Host.{HostMemMap}
use irida.Windows.{Windows, ThreadContext, other, debug_registers}
use irida.Windows.Context.{context_to_block, block_to_context, enable_slot, disable_slot}
use irida.Windows.Context.RoundTrip.{Fits, SameRegisters, block_to_context-context_to_block}
use irida.Windows.Context.Slots.{Switches, condition, slot2, slots-Switches}
use irida.Windows.Debuggee.{Impl, change_context, read_registers, no_event}
use irida.Windows.Queries.{maps_loop}
use irida.Windows.Queries.Regions.{maps_loop-ends}
use irida.Windows.Handles.{Counted, contexts-close}

abbrev stopped_thread : ThreadContext
stopped_thread = record {
  rax = 11;
  rbx = 22;
  rcx = 33;
  rdx = 44;
  rsi = 55;
  rdi = 66;
  rbp = 77;
  rsp = 88;
  r8 = 99;
  r9 = 110;
  r10 = 121;
  r11 = 132;
  r12 = 143;
  r13 = 154;
  r14 = 165;
  r15 = 176;
  rip = 187;
  eflags = 198;
  seg_cs = 209;
  seg_ss = 220;
  seg_ds = 231;
  seg_es = 242;
  seg_fs = 253;
  seg_gs = 264;
  dr0 = 275;
  dr1 = 286;
  dr2 = 297;
  dr3 = 308;
  dr6 = 319;
  dr7 = 330;
  unlisted = 7 ∷ [];
}

stopped_thread-Fits : Fits stopped_thread
stopped_thread-Fits = record {
  rax = omega arith;
  rbx = omega arith;
  rcx = omega arith;
  rdx = omega arith;
  rsi = omega arith;
  rdi = omega arith;
  rbp = omega arith;
  rsp = omega arith;
  r8 = omega arith;
  r9 = omega arith;
  r10 = omega arith;
  r11 = omega arith;
  r12 = omega arith;
  r13 = omega arith;
  r14 = omega arith;
  r15 = omega arith;
  rip = omega arith;
  eflags = omega arith;
  seg_cs = omega arith;
  seg_ss = omega arith;
  seg_ds = omega arith;
  seg_es = omega arith;
  seg_fs = omega arith;
  seg_gs = omega arith;
  dr0 = omega arith;
  dr1 = omega arith;
  dr2 = omega arith;
  dr3 = omega arith;
  dr6 = omega arith;
  dr7 = omega arith;
}

block_to_context-context_to_block_example :
    SameRegisters stopped_thread (block_to_context (context_to_block stopped_thread) stopped_thread)
    × ((block_to_context (context_to_block stopped_thread) stopped_thread).unlisted ≡ 7 ∷ [])
block_to_context-context_to_block_example =
    block_to_context-context_to_block stopped_thread stopped_thread stopped_thread-Fits

slots-Switches_example :
    Switches 2 1 1024 (enable_slot 2 1024)
    × (condition 2 (enable_slot 2 1024) ≡ 0)
    × Switches 2 0 1024 (disable_slot 2 1024)
slots-Switches_example = slots-Switches slot2 1024

abbrev erase : ℕ → List ℕ → List ℕ
erase x [] = []
erase x (y ∷ ys) = if x == y then ys else y ∷ erase x ys

abbrev Has : ℕ → List ℕ → Type 0
Has x [] = ⊥
Has x (y ∷ ys) = ((x == y) ≡ true) ⊎ Has x ys

-- The state is the list of the open handles. There is one region of memory, and a thread's context can
-- not be written.
abbrev counting : Windows
counting = record {
  State = List ℕ;
  get_last_error = λ os. 5;
  debug_active_process = λ pid os. (true, os);
  debug_set_process_kill_on_exit = λ kill os. os;
  open_process = λ pid os. (some 1, 1 ∷ os);
  debug_active_process_stop = λ pid os. (true, os);
  wait_for_debug_event = λ timeout os. (some no_event, os);
  continue_debug_event = λ pid tid status os. (true, os);
  debug_break_process = λ process os. (true, os);
  open_thread = λ access tid os. (some 2, 2 ∷ os);
  get_thread_context = λ flags handle os. (some stopped_thread, os);
  set_thread_context = λ flags handle ctx os. (false, os);
  close_handle = λ handle os. erase handle os;
  read_process_memory = λ process addr len os. (none, os);
  write_process_memory = λ process addr data' os. (none, os);
  flush_instruction_cache = λ process addr len os. (true, os);
  virtual_query = λ process addr os. (
    some (record { base_address = 4096; region_size = 8192; committed = true; protect = 4 }),
    os,
  );
  enum_process_modules = λ process room os. (none, os);
  get_module_information = λ process handle os. (none, os);
  get_module_file_name = λ process handle os. ([], os);
  create_snapshot = λ os. (none, os);
  thread_entries = λ snapshot os. ([], os);
  exception_breakpoint = 1;
  exception_single_step = 2;
  page_readonly = 2;
  page_readwrite = 4;
  page_writecopy = 8;
  page_execute = 16;
  page_execute_read = 32;
  page_execute_readwrite = 64;
  page_execute_writecopy = 128;
}

always_opened : (n handle : ℕ) → some handle ≡ none → suc n ≡ n
always_opened n handle e = absurd (cc)

it_is_two :
    (handle : ℕ) (os : List ℕ)
    → some 2 ≡ some handle
    → (length (2 ∷ os) ≡ length os + 1) × Has handle (2 ∷ os)
it_is_two handle os e = let same : 2 ≡ handle = cc in rw (← same) (omega arith, inl refl)

length-erase : (x : ℕ) (ys : List ℕ) → Has x ys → length (erase x ys) ≡ length ys - 1
length-erase x [] h = absurd h
length-erase x (y ∷ ys) h = elim (Bool-cases (x == y)) [
  | inl e ↦ rw e (omega arith)
  | inr e ↦ elim h [
    | inl t ↦ absurd (cc (sym t ∙ e))
    | inr later ↦ rw e (more ys later (length-erase x ys later))
  ]
]
  where
    more :
        (ys : List ℕ)
        → Has x ys
        → length (erase x ys) ≡ length ys - 1
        → suc (length (erase x ys)) ≡ suc (length ys) - 1
    more [] later e = absurd later
    more (z ∷ zs) later e = omega (arith, e)

abbrev counting_handles : Counted counting
counting_handles = record {
  handles = λ os. length os;
  Open = λ os handle. Has handle os;
  opened = λ access tid handle os e. it_is_two handle os e;
  not_opened = λ access tid os e. always_opened (length os) 2 e;
  closed = λ handle os h. length-erase handle os h;
  got = λ flags handle os. (refl, λ h o. o);
  put = λ flags handle ctx os. (refl, λ h o. o);
}

abbrev debugged : Impl counting
debugged = record {
  pid = 7;
  process = 1;
  attached = true;
  has_pending = false;
  pending = record { process_id = 7; thread_id = 9; info = other };
  primary_tid = 9;
  os = 1 ∷ [];
}

contexts-close_example :
    (length (change_context counting debug_registers 9 (λ ctx. ctx) debugged).1.os ≡ 1)
    × (length (read_registers counting 9 debugged).1.os ≡ 1)
unfolding change_context read_registers
contexts-close_example =
    contexts-close counting counting_handles debug_registers 9 (λ ctx. ctx) debugged

maps_loop-ends_example :
    (r : List HostMemMap × List ℕ) × (maps_loop counting (2 ^ 64 + 1) 1 0 [] [] ≡ some r)
maps_loop-ends_example = maps_loop-ends counting (2 ^ 64 + 1) 1 0 [] [] (omega arith) (omega arith)
