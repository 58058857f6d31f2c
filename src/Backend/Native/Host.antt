-- ===== src/Backend/Native/Host.antt =====
-- irida-core/libs/host/include/irida/host/native_debuggee.hpp: the facade over the operating
-- system's debug interface, as the native backend uses it.
use irida.Common.{List, Text, ℕ, ℤ}
use irida.Base.{Bytes, Result}
use irida.Base.Action.{Action}

pub data DbgEventKind : Type 0 where
  breakpoint single_step exception exit_process load_module other : DbgEventKind

pub record DbgEvent : Type 0 where
  pub kind : DbgEventKind
  pub thread_id : ℕ
  pub address : ℕ
  pub code : ℕ

pub record HostMemMap : Type 0 where
  pub start : ℕ
  pub end : ℕ
  pub perms : ℕ
  pub name : Text

pub record HostModule : Type 0 where
  pub base : ℕ
  pub size : ℕ
  pub name : Text

pub record HostThread : Type 0 where
  pub tid : ℕ

pub record Debuggee : Type 1 where
  pub State : Type 0
  pub attach : ℕ → Result State
  pub detach : Action State (Unit {0})
  pub wait_event : ℤ → Action State DbgEvent
  pub resume : Action State (Unit {0})
  pub resume_single_step : Action State (Unit {0})
  pub request_stop : Action State (Unit {0})
  pub read_registers : ℕ → Action State Bytes
  pub write_registers : ℕ → Bytes → Action State (Unit {0})
  pub read_memory : ℕ → ℕ → Action State Bytes
  pub write_memory : ℕ → Bytes → Action State (Unit {0})
  pub maps : Action State (List HostMemMap)
  pub modules : Action State (List HostModule)
  pub threads : Action State (List HostThread)
  pub set_hw_exec_bp : ℕ → ℕ → Action State (Unit {0})
  pub clear_hw_bp : ℕ → Action State (Unit {0})
  pub primary_thread : State → ℕ
