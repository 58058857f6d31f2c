-- ===== src/Windows/Queries.antt =====
-- The memory map, the modules and the threads of irida-core/libs/host/src/native_debuggee.cpp, and
-- the whole of `NativeDebuggee` as the native backend uses it.
pub mod Regions
use irida.Common.{
  List, Option, [], codes, get_or, if◌then◌else◌, leb, ltb, none, replicate, some, suc, take, zero,
  ℕ, ◌%◌, ◌++◌, ◌+◌, ◌-◌, ◌==◌, ◌^◌, ◌||◌, ◌∷◌,
}
use irida.Common as Common
use irida.Base.{ok, err}
use irida.Base.Action.{Action, ◌>>=◌, ◌>>◌, pure}
use irida.Backend.Native.Host.{HostMemMap, HostModule, HostThread, Debuggee}
use irida.Windows.{Windows, MemoryRegion, ModuleInfo, ThreadEntry}
use irida.Windows.Debuggee as Facade
use irida.Windows.Debuggee.{Impl, call_for, require_attached}

module _ (W : Windows) where
  -- The switch over the protection, without its modifier bits: 4 is read, 2 write and 1 execute.
  unfoldable pub perms_of : ℕ → ℕ
  perms_of protect =
      let prot : ℕ = protect % 256 in
      if prot == W.page_readonly
      then 4
      else if prot == W.page_readwrite || prot == W.page_writecopy
      then 6
      else if prot == W.page_execute
      then 1
      else if prot == W.page_execute_read
      then 5
      else if prot == W.page_execute_readwrite || prot == W.page_execute_writecopy
      then 7
      else 0

  -- The address behind a region.
  abbrev pub region_end : MemoryRegion → ℕ
  region_end mbi = (mbi.base_address + mbi.region_size) % 2 ^ 64

  abbrev pub map_of : MemoryRegion → HostMemMap
  map_of mbi = record {
    start = mbi.base_address;
    end = region_end mbi;
    perms = perms_of mbi.protect;
    name = [];
  }

  abbrev pub push_region : MemoryRegion → List HostMemMap → List HostMemMap
  push_region mbi out = if mbi.committed then out ++ (map_of mbi ∷ []) else out

  -- The loop over the regions, which the source does not bound; `none` means that the fuel ran out.
  unfoldable pub maps_loop :
      ℕ → ℕ → ℕ → List HostMemMap → W.State → Option (List HostMemMap × W.State)
  maps_loop zero process addr out os = none
  maps_loop (suc fuel) process addr out os =
      let os' : W.State = (W.virtual_query process addr os).1 in
      elim (W.virtual_query process addr os).0 [
        | none ↦ some (out, os')
        | some mbi ↦
            let next : ℕ = region_end mbi in
            let more = maps_loop fuel process next (push_region mbi out) os' in
            if leb next addr then some (push_region mbi out, os') else more
      ]

  -- A round for each address is enough.
  unfoldable pub maps : Action (Impl W) (List HostMemMap)
  maps = do
    require_attached W (codes "maps")
    λ d. elim (maps_loop (2 ^ 64 + 1) d.process 0 [] d.os) [
      | none ↦ (ok [], d)
      | some (out, os') ↦ (ok out, record d { os = os' })
    ]

  -- The vector behind the call: the handles that fit, and null handles.
  abbrev pub fill_room : ℕ → List ℕ → List ℕ
  fill_room room handles = take room handles ++ replicate (room - Common.length handles) 0

  -- One module; a module that cannot be asked is left out.
  unfoldable pub module_of : ℕ → ℕ → W.State → Option HostModule × W.State
  module_of process h os =
      let asked = W.get_module_information process h os in
      let named = W.get_module_file_name process h asked.1 in
      elim asked.0 [
        | none ↦ (none, asked.1)
        | some info ↦ (
          some (record { base = info.base_of_dll; size = info.size_of_image; name = named.0 }),
          named.1,
        )
      ]

  abbrev pub push_module : Option HostModule → List HostModule → List HostModule
  push_module none rest = rest
  push_module (some m) rest = m ∷ rest

  -- The loop over the first `count` places. A place past the end of the vector, which the source reads
  -- as well, counts as a null handle.
  unfoldable pub modules_loop : ℕ → ℕ → ℕ → List ℕ → W.State → List HostModule × W.State
  modules_loop process idx zero mods os = ([], os)
  modules_loop process idx (suc count) mods os =
      let one = module_of process (get_or mods idx 0) os in
      let rest = modules_loop process (idx + 1) count mods one.1 in
      (push_module one.0 rest.0, rest.1)

  abbrev first_room : ℕ
  first_room = 256

  abbrev enumerate : ℕ → Action (Impl W) (List ℕ × ℕ)
  enumerate room d =
      call_for W (codes "EnumProcessModulesEx") (W.enum_process_modules d.process room) d

  -- The modules are enumerated again, with room for them, if there were more than fit.
  unfoldable pub enumerate_again : List ℕ × ℕ → Action (Impl W) (List ℕ × ℕ)
  enumerate_again first =
      if ltb first_room first.1
      then (enumerate first.1 >>= λ again. pure (fill_room first.1 again.0, again.1))
      else pure (fill_room first_room first.0, first.1)

  unfoldable pub modules : Action (Impl W) (List HostModule)
  modules = do
    require_attached W (codes "modules")
    first ← enumerate first_room
    found ← enumerate_again first
    λ d.
        let all = modules_loop d.process 0 found.1 found.0 d.os in
        (ok all.0, record d { os = all.1 })

  -- The threads of the process among those of the snapshot.
  unfoldable pub own_threads : ℕ → List ThreadEntry → List HostThread
  own_threads pid [] = []
  own_threads pid (te ∷ entries) =
      let rest = own_threads pid entries in
      if te.owner_process_id == pid then record { tid = te.thread_id } ∷ rest else rest

  unfoldable pub threads : Action (Impl W) (List HostThread)
  threads = do
    require_attached W (codes "threads")
    snapshot ← call_for W (codes "CreateToolhelp32Snapshot") W.create_snapshot
    entries ←
        λ d. let found = W.thread_entries snapshot d.os in (ok found.0, record d { os = found.1 })
    Facade.close W snapshot
    λ d. (ok (own_threads d.pid entries), d)

  -- The facade, over an operating system in the state `os`.
  unfoldable pub native_debuggee : W.State → Debuggee
  native_debuggee os = record {
    State = Impl W;
    attach = λ pid. (Facade.attach W pid os).0;
    detach = Facade.detach W;
    wait_event = Facade.wait_event W;
    resume = Facade.resume W;
    resume_single_step = Facade.resume_single_step W;
    request_stop = Facade.request_stop W;
    read_registers = Facade.read_registers W;
    write_registers = Facade.write_registers W;
    read_memory = Facade.read_memory W;
    write_memory = Facade.write_memory W;
    maps = maps;
    modules = modules;
    threads = threads;
    set_hw_exec_bp = Facade.set_hw_exec_bp W;
    clear_hw_bp = Facade.clear_hw_bp W;
    primary_thread = λ d. d.primary_tid;
  }
