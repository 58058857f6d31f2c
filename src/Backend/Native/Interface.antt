-- ===== src/Backend/Native/Interface.antt =====
-- irida-core/core/backend/include/irida/backend/native_backend.hpp: the native backend behind the
-- interface of backend.hpp. The loop of `attach` has no bound, so that a bounded form of it is given.
use irida.Base.Action.{Action}
use irida.Backend.{Backend, AttachSpec}
use irida.Backend.Native as Native
use irida.Backend.Native.{NativeBackend}
use irida.Backend.Native.Host.{Debuggee}

abbrev pub native_backend :
    (D : Debuggee) → (AttachSpec → Action (NativeBackend D) (Unit {0})) → Backend
native_backend D attach = record {
  State = NativeBackend D;
  attach = attach;
  detach = Native.detach D;
  cont = Native.cont D;
  step = Native.step D;
  request_stop = Native.request_stop D;
  read_registers = Native.read_registers D;
  write_registers = Native.write_registers D;
  register_profile = λ b. Native.make_native_x86_64_profile;
  read_memory = Native.read_memory D;
  write_memory = Native.write_memory D;
  maps = Native.maps D;
  modules = Native.modules D;
  threads = Native.threads D;
  set_breakpoint = Native.set_breakpoint D;
  remove_breakpoint = Native.remove_breakpoint D;
  caps = λ b. Native.caps D;
}
