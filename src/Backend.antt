-- ===== src/Backend.antt =====
-- irida-core/core/backend: the vocabulary of types.hpp, and the abstract interface of backend.hpp.
pub mod Gdb
pub mod Native
pub mod Unsupported
mod Tests
use irida.Common.{Bool, List, Text, ℕ, ℤ}
use irida.Base.{Bytes}
use irida.Base.Action.{Action}

pub data AttachMethod : Type 0 where
  gdb_remote native_process : AttachMethod

pub record AttachSpec : Type 0 where
  pub method : AttachMethod
  pub host : Text
  pub port : ℕ
  pub pid : ℕ

pub data BpKind : Type 0 where
  software_exec hardware_exec write_watch read_watch access_watch : BpKind

-- `end` is exclusive.
pub record MemMap : Type 0 where
  pub start : ℕ
  pub end : ℕ
  pub perms : ℕ
  pub name : Text

pub record Module : Type 0 where
  pub base : ℕ
  pub size : ℕ
  pub name : Text

pub record ThreadInfo : Type 0 where
  pub tid : ℕ
  pub pc : ℕ
  pub current : Bool

pub data StopKind : Type 0 where
  breakpoint single_step signal exited error unknown : StopKind

pub record StopReply : Type 0 where
  pub kind : StopKind
  pub signal : ℤ
  pub pc : ℕ
  pub detail : Text

pub record BackendCaps : Type 0 where
  pub can_step : Bool
  pub has_hw_bp : Bool
  pub clean_dr : Bool
  pub thread_aware : Bool
  pub modules_native : Bool

pub record RegisterField : Type 0 where
  pub name : Text
  pub offset : ℕ
  pub size : ℕ

pub record RegisterProfile : Type 0 where
  pub fields : List RegisterField
  pub block_size : ℕ

-- The virtual methods of `Backend` over the state of the object that implements them.
pub record Backend : Type 1 where
  pub State : Type 0
  pub attach : AttachSpec → Action State (Unit {0})
  pub detach : Action State (Unit {0})
  pub cont : Action State StopReply
  pub step : Action State StopReply
  pub request_stop : Action State (Unit {0})
  pub read_registers : Action State Bytes
  pub write_registers : Bytes → Action State (Unit {0})
  pub register_profile : State → RegisterProfile
  pub read_memory : ℕ → ℕ → Action State Bytes
  pub write_memory : ℕ → Bytes → Action State (Unit {0})
  pub maps : Action State (List MemMap)
  pub modules : Action State (List Module)
  pub threads : Action State (List ThreadInfo)
  pub set_breakpoint : BpKind → ℕ → ℤ → Action State (Unit {0})
  pub remove_breakpoint : BpKind → ℕ → ℤ → Action State (Unit {0})
  pub caps : State → BackendCaps
