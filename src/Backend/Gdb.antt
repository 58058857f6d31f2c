-- ===== src/Backend/Gdb.antt =====
-- irida-core/core/backend/src/gdb_backend.cpp: the backend that speaks to a gdb stub.
pub mod Stops
use irida.Common.{
  Bool, List, Text, [], codes, false, if◌then◌else◌, map, pos, text_eq, true, ℕ, ℤ, ◌+◌, ◌||◌, ◌∷◌,
}
use irida.Base.{ok}
use irida.Base.Action.{Action, pure, fail, ◌>>=◌, ◌>>◌}
use irida.Proto.Packets.StopReply as Wire
use irida.Transport as Client
use irida.Transport.{Socket, GdbClient}
use irida.Backend.{
  AttachSpec, BpKind, software_exec, hardware_exec, write_watch, read_watch, access_watch, StopKind,
  StopReply, RegisterProfile, Backend,
}

abbrev qword_size : ℕ
qword_size = 8

abbrev pub qword_regs : List Text
qword_regs = map codes (
    "rax" ∷ "rbx" ∷ "rcx" ∷ "rdx" ∷ "rsi" ∷ "rdi" ∷ "rbp" ∷ "rsp" ∷ "r8" ∷ "r9" ∷ "r10" ∷ "r11"
    ∷ "r12" ∷ "r13" ∷ "r14" ∷ "r15" ∷ "rip" ∷ [])

abbrev pub eflags_name : Text
eflags_name = codes "eflags"

abbrev eflags_size : ℕ
eflags_size = 4

-- The loop that lays out the fields one behind the other, and the eflags field after it.
unfoldable pub lay_out : List Text → ℕ → RegisterProfile
lay_out [] offset = record {
  fields = record { name = eflags_name; offset = offset; size = eflags_size } ∷ [];
  block_size = offset + eflags_size;
}
lay_out (name ∷ names) offset =
    let rest = lay_out names (offset + qword_size) in
    record {
      fields = record { name = name; offset = offset; size = qword_size } ∷ rest.fields;
      block_size = rest.block_size;
    }

unfoldable pub make_x86_64_gdb_profile : RegisterProfile
unfolding lay_out
make_x86_64_gdb_profile = lay_out qword_regs 0

-- The type numbers of the `Z` and `z` packets.
unfoldable pub to_gdb_type : BpKind → ℤ
to_gdb_type software_exec = pos 0
to_gdb_type hardware_exec = pos 1
to_gdb_type write_watch = pos 2
to_gdb_type read_watch = pos 3
to_gdb_type access_watch = pos 4

-- The search for a marker among the pairs of a `T` reply.
unfoldable pub has_marker : List (Text × Text) → Bool
has_marker [] = false
has_marker ((key, val) ∷ info) =
    text_eq key (codes "swbreak") || text_eq key (codes "hwbreak") || has_marker info

unfoldable pub translate_kind : Wire.Kind → List (Text × Text) → StopKind
unfolding has_marker
translate_kind Wire.signal info = if has_marker info then StopKind.breakpoint else StopKind.signal
translate_kind Wire.exited info = StopKind.exited
translate_kind Wire.terminated info = StopKind.error
translate_kind Wire.output info = StopKind.unknown
translate_kind Wire.unknown info = StopKind.unknown

unfoldable pub translate_stop : Wire.StopReply → StopReply
unfolding translate_kind
translate_stop wire = record {
  kind = translate_kind wire.kind wire.info;
  signal = wire.code;
  pc = 0;
  detail = wire.out;
}

module _ (T : Socket) where
  unfoldable pub attach : AttachSpec → Action (GdbClient T) (Unit {0})
  attach spec = do Client.connect T spec.host spec.port; _ ← Client.halt_reason T; pure tt

  unfoldable pub detach : Action (GdbClient T) (Unit {0})
  detach c = (ok tt, Client.disconnect T c)

  unfoldable pub cont : Action (GdbClient T) StopReply
  cont = do wire ← Client.cont T; pure (translate_stop wire)

  unfoldable pub step : Action (GdbClient T) StopReply
  step = do wire ← Client.step T; pure (translate_stop wire)

  -- `GdbBackend` as a `Backend`; what it does not support returns at once.
  unfoldable pub gdb_backend : Backend
  unfolding attach detach cont step
  gdb_backend = record {
    State = GdbClient T;
    attach = attach;
    detach = detach;
    cont = cont;
    step = step;
    request_stop = pure tt;
    read_registers = Client.read_registers T;
    write_registers =
        λ block. fail (codes "GdbBackend: write_registers not supported by GdbClient");
    register_profile = λ c. make_x86_64_gdb_profile;
    read_memory = Client.read_memory T;
    write_memory = Client.write_memory T;
    maps = pure [];
    modules = pure [];
    threads = pure [];
    set_breakpoint = λ kind addr size. Client.set_breakpoint T (to_gdb_type kind) addr size;
    remove_breakpoint = λ kind addr size. Client.remove_breakpoint T (to_gdb_type kind) addr size;
    caps = λ c. record {
      can_step = true;
      has_hw_bp = true;
      clean_dr = true;
      thread_aware = false;
      modules_native = false;
    };
  }
