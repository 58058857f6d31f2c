-- ===== src/Backend/Unsupported.antt =====
-- irida-core/core/backend/src/native_backend_factory.cpp where the platform has no debug interface:
-- the backend whose calls all fail. Elsewhere the factory makes the native backend.
use irida.Common.{[], codes, false}
use irida.Base.Action.{Action, fail}
use irida.Backend.{Backend, BackendCaps, RegisterProfile}

abbrev pub no_profile : RegisterProfile
no_profile = record { fields = []; block_size = 0 }

-- `BackendCaps{}`
abbrev pub no_caps : BackendCaps
no_caps = record {
  can_step = false;
  has_hw_bp = false;
  clean_dr = false;
  thread_aware = false;
  modules_native = false;
}

abbrev pub unsupported : {A : Type 0} → Action (Unit {0}) A
unsupported = fail (codes "native backend: unsupported platform")

abbrev pub unsupported_native_backend : Backend
unsupported_native_backend = record {
  State = Unit {0};
  attach = λ spec. unsupported;
  detach = unsupported;
  cont = unsupported;
  step = unsupported;
  request_stop = unsupported;
  read_registers = unsupported;
  write_registers = λ block. unsupported;
  register_profile = λ b. no_profile;
  read_memory = λ addr len. unsupported;
  write_memory = λ addr bytes. unsupported;
  maps = unsupported;
  modules = unsupported;
  threads = unsupported;
  set_breakpoint = λ kind addr size. unsupported;
  remove_breakpoint = λ kind addr size. unsupported;
  caps = λ b. no_caps;
}
