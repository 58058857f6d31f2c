-- ===== src/Target.antt =====
-- irida-core/core/target/src/target.cpp and guest_state.cpp: the orchestrator over a backend.
-- `Target` owns the backend and the cache; `state_` is null until the first refresh.
pub mod RegisterSet
pub mod MemoryCache
pub mod Epochs
pub mod Tests
use irida.Common.{Bool, List, Option, [], none, some, ℕ, ◌%◌, ◌+◌, ◌^◌}
use irida.Base.{Bytes, Result, ok}
use irida.Base.Action.{Action, pure, lift, on, ◌>>=◌, ◌>>◌}
use irida.Proto.Packets.StopReply as Wire
use irida.Backend.{
  MemMap, Module, ThreadInfo, StopKind, StopReply, Backend, breakpoint, single_step, signal, exited,
  error, unknown,
}
use RegisterSet
use MemoryCache
use MemoryCache.{Memory, set_epoch, changed_since_last_epoch}

-- The registers of one stop; memory is served through the shared cache.
pub record GuestState : Type 0 where
  pub epoch : ℕ
  pub registers : RegisterSet.RegisterSet

module _ (B : Backend) where
  pub record Target : Type 0 where
    pub memory : Memory B
    pub epoch : ℕ
    pub state : Option GuestState

-- The normalized reason, mapped back onto the wire shape.
unfoldable pub to_proto_kind : StopKind → Wire.Kind
to_proto_kind breakpoint = Wire.signal
to_proto_kind single_step = Wire.signal
to_proto_kind signal = Wire.signal
to_proto_kind exited = Wire.exited
to_proto_kind error = Wire.unknown
to_proto_kind unknown = Wire.unknown

unfoldable pub to_proto_stop_reply : StopReply → Wire.StopReply
unfolding to_proto_kind
to_proto_stop_reply s = record {
  kind = to_proto_kind s.kind;
  code = s.signal;
  info = [];
  out = s.detail;
}

module _ (B : Backend) where
  abbrev pub on_backend : {A : Type 0} → Action B.State A → Action (Target B) A
  on_backend m =
      on (λ t. t.memory.backend) (λ t s. record t { memory = record (t.memory) { backend = s } }) m

  abbrev pub on_memory : {A : Type 0} → Action (Memory B) A → Action (Target B) A
  on_memory m = on (λ t. t.memory) (λ t n. record t { memory = n }) m

  -- `Target target;` with the backend moved in, and a fresh cache.
  unfoldable pub fresh : B.State → Target B
  fresh s = record {
    memory = record { cache = record { epoch = 0; cur = []; prev = [] }; backend = s };
    epoch = 0;
    state = none;
  }

  -- `++epoch_`, `cache_->set_epoch(epoch_)`, and the new `GuestState`.
  unfoldable pub next_epoch : RegisterSet.RegisterSet → Target B → Target B
  next_epoch regs t =
      let epoch' : ℕ = (t.epoch + 1) % 2 ^ 64 in
      record {
        memory = record (t.memory) { cache = set_epoch epoch' t.memory.cache };
        epoch = epoch';
        state = some (record { epoch = epoch'; registers = regs });
      }

  unfoldable pub refresh_state : Action (Target B) (Unit {0})
  refresh_state = do
    raw_regs ← on_backend B.read_registers
    decoded ← lift (RegisterSet.decode raw_regs)
    λ t. (ok tt, next_epoch decoded t)

  unfoldable pub attach : B.State → Result (Unit {0}) × Target B
  attach new_backend = refresh_state (fresh new_backend)

  unfoldable pub cont : Action (Target B) Wire.StopReply
  cont = do stop ← on_backend B.cont; refresh_state; pure (to_proto_stop_reply stop)

  unfoldable pub step : Action (Target B) Wire.StopReply
  step = do stop ← on_backend B.step; refresh_state; pure (to_proto_stop_reply stop)

  -- `state_->registers()`; `none` stands for the null `state_` of a target that was never attached.
  unfoldable pub registers : Target B → Option RegisterSet.RegisterSet
  registers t = elim t.state [ none ↦ none | some g ↦ some g.registers ]

  unfoldable pub read_memory : ℕ → ℕ → Action (Target B) Bytes
  read_memory addr len = on_memory (MemoryCache.read B addr len)

  unfoldable pub memory_changed : ℕ → ℕ → ℕ → Target B → Option Bool × Target B
  memory_changed fuel addr len t =
      let (answer, m) = changed_since_last_epoch B fuel addr len t.memory in
      (answer, record t { memory = m })

  unfoldable pub maps : Action (Target B) (List MemMap)
  maps = on_backend B.maps

  unfoldable pub modules : Action (Target B) (List Module)
  modules = on_backend B.modules

  unfoldable pub threads : Action (Target B) (List ThreadInfo)
  threads = on_backend B.threads
