-- ===== src/Windows.antt =====
-- The Windows calls that irida-core/libs/host/src/native_debuggee.cpp makes. The operating system is
-- a record of operations on its own state: what it does is not under the repository.
pub mod Context
pub mod Debuggee
pub mod Queries
pub mod Handles
pub mod Memory
pub mod Pages
mod Tests
use irida.Common.{Bool, List, Option, Text, ℕ}
use irida.Base.{Bytes}

-- `CONTEXT`: the fields that the register block carries; `unlisted` stands for the others.
pub record ThreadContext : Type 0 where
  pub rax : ℕ
  pub rbx : ℕ
  pub rcx : ℕ
  pub rdx : ℕ
  pub rsi : ℕ
  pub rdi : ℕ
  pub rbp : ℕ
  pub rsp : ℕ
  pub r8 : ℕ
  pub r9 : ℕ
  pub r10 : ℕ
  pub r11 : ℕ
  pub r12 : ℕ
  pub r13 : ℕ
  pub r14 : ℕ
  pub r15 : ℕ
  pub rip : ℕ
  pub eflags : ℕ
  pub seg_cs : ℕ
  pub seg_ss : ℕ
  pub seg_ds : ℕ
  pub seg_es : ℕ
  pub seg_fs : ℕ
  pub seg_gs : ℕ
  pub dr0 : ℕ
  pub dr1 : ℕ
  pub dr2 : ℕ
  pub dr3 : ℕ
  pub dr6 : ℕ
  pub dr7 : ℕ
  pub unlisted : Bytes

-- `DEBUG_EVENT`'s code with its part of the union `u`.
pub data DebugInfo : Type 0 where
  exception : (code address : ℕ) → DebugInfo
  exit_process : (exit_code : ℕ) → DebugInfo
  load_dll : (base_of_dll : ℕ) → DebugInfo
  other : DebugInfo

pub record DebugEvent : Type 0 where
  pub process_id : ℕ
  pub thread_id : ℕ
  pub info : DebugInfo

pub data ContinueStatus : Type 0 where
  dbg_continue dbg_exception_not_handled : ContinueStatus

-- What a thread is opened for, and which parts of a context are asked for.
pub data ThreadAccess : Type 0 where
  get_context get_and_set_context : ThreadAccess

pub data ContextFlags : Type 0 where
  full_and_debug_registers debug_registers : ContextFlags

-- `MEMORY_BASIC_INFORMATION`; `committed` is `State == MEM_COMMIT`.
pub record MemoryRegion : Type 0 where
  pub base_address : ℕ
  pub region_size : ℕ
  pub committed : Bool
  pub protect : ℕ

pub record ModuleInfo : Type 0 where
  pub base_of_dll : ℕ
  pub size_of_image : ℕ

pub record ThreadEntry : Type 0 where
  pub owner_process_id : ℕ
  pub thread_id : ℕ

-- Each call with what it returns, and `none` or `false` for a failure; and the constants of the
-- headers. `enum_process_modules` gives the handles that fit, and how many there are. The entries of a
-- snapshot are those of `Thread32First` and then `Thread32Next`.
pub record Windows : Type 1 where
  pub State : Type 0
  pub get_last_error : State → ℕ
  pub debug_active_process : ℕ → State → Bool × State
  pub debug_set_process_kill_on_exit : Bool → State → State
  pub open_process : ℕ → State → Option ℕ × State
  pub debug_active_process_stop : ℕ → State → Bool × State
  pub wait_for_debug_event : ℕ → State → Option DebugEvent × State
  pub continue_debug_event : ℕ → ℕ → ContinueStatus → State → Bool × State
  pub debug_break_process : ℕ → State → Bool × State
  pub open_thread : ThreadAccess → ℕ → State → Option ℕ × State
  pub get_thread_context : ContextFlags → ℕ → State → Option ThreadContext × State
  pub set_thread_context : ContextFlags → ℕ → ThreadContext → State → Bool × State
  pub close_handle : ℕ → State → State
  pub read_process_memory : ℕ → ℕ → ℕ → State → Option Bytes × State
  pub write_process_memory : ℕ → ℕ → Bytes → State → Option ℕ × State
  pub flush_instruction_cache : ℕ → ℕ → ℕ → State → Bool × State
  pub virtual_query : ℕ → ℕ → State → Option MemoryRegion × State
  pub enum_process_modules : ℕ → ℕ → State → Option (List ℕ × ℕ) × State
  pub get_module_information : ℕ → ℕ → State → Option ModuleInfo × State
  pub get_module_file_name : ℕ → ℕ → State → Text × State
  pub create_snapshot : State → Option ℕ × State
  pub thread_entries : ℕ → State → List ThreadEntry × State
  pub exception_breakpoint : ℕ
  pub exception_single_step : ℕ
  pub page_readonly : ℕ
  pub page_readwrite : ℕ
  pub page_writecopy : ℕ
  pub page_execute : ℕ
  pub page_execute_read : ℕ
  pub page_execute_readwrite : ℕ
  pub page_execute_writecopy : ℕ
