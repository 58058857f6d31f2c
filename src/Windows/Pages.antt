-- ===== src/Windows/Pages.antt =====
-- irida-core/libs/host/src/native_debuggee.cpp, under the native backend, as the stopped guest whose
-- pages the cache of irida-core/core/target keeps.
use irida.Common.{ap, length, refl, some, suc, true, zero, ℕ, ◌+◌, ◌==◌, ◌≡◌}
use irida.Base.{ok}
use irida.Base.Action.{Action}
use irida.Backend.{AttachSpec}
use irida.Backend.Native.{NativeBackend}
use irida.Backend.Native.Interface.{native_backend}
use irida.Backend.Native as Native
use irida.Target.MemoryCache.{page_size}
use irida.Target.MemoryCache.Image.{window, Frozen}
use irida.Windows.{Windows}
use irida.Windows.Debuggee.{Impl, call_for, require_attached, read_memory}
use irida.Windows.Queries.{native_debuggee}

-- A process that stands still: in these states of the system, a page that it has is read whole, with
-- the bytes of an image, and the process stands still after the read.
pub record StillProcess (W : Windows) (image : ℕ → ℕ) : Type 1 where
  pub Stands : W.State → ℕ → Type 0
  pub Mapped : ℕ → Type 0
  pub serves :
      (os : W.State) (process page : ℕ)
      → Stands os process
      → Mapped page
      → ((W.read_process_memory process page page_size os).0 ≡ some (window image page page_size))
        × Stands (W.read_process_memory process page page_size os).1 process

length-window : (image : ℕ → ℕ) (addr n : ℕ) → length (window image addr n) ≡ n
unfolding window
length-window image addr zero = refl
length-window image addr (suc n) = ap suc (length-window image (addr + 1) n)

module _ (W : Windows) (image : ℕ → ℕ) (P : StillProcess W image) where
  abbrev pub StandsStill : Impl W → Type 0
  StandsStill d = (d.attached ≡ true) × P.Stands d.os d.process

  facade_page :
      (d : Impl W) (page : ℕ)
      → StandsStill d
      → P.Mapped page
      → ((read_memory W page page_size d).0 ≡ ok (window image page page_size))
        × StandsStill (read_memory W page page_size d).1
  unfolding read_memory require_attached call_for
  facade_page d page (on, still) mapped =
      let (e, still') = P.serves d.os d.process page still mapped in
      let whole : (length (window image page page_size) == page_size) ≡ true =
        rw (length-window image page page_size) refl in
      rw (on, e, whole, read_memory, require_attached, call_for) (refl, (refl, still'))

  -- The native backend has a debuggee, and the process of it stands still.
  unfoldable pub Stopped : (os : W.State) → NativeBackend (native_debuggee W os) → Type 0
  unfolding native_debuggee
  Stopped os b = (d : Impl W) × (b.dbg ≡ some d) × StandsStill d

  pub served :
      (os : W.State) (b : NativeBackend (native_debuggee W os)) (page : ℕ)
      → Stopped os b
      → P.Mapped page
      → ((Native.read_memory (native_debuggee W os) page page_size b).0
          ≡ ok (window image page page_size))
        × Stopped os (Native.read_memory (native_debuggee W os) page page_size b).1
  unfolding native_debuggee Stopped Native.read_memory
  served os b page (d, held, still) mapped =
      let (e, still') = facade_page d page still mapped in
      rw (held, Native.read_memory) (e, ((read_memory W page page_size d).1, refl, still'))

  -- Over a process that stands still, the native backend is a stopped guest.
  abbrev pub native_backend-Frozen :
      (os : W.State)
      (attach : AttachSpec → Action (NativeBackend (native_debuggee W os)) (Unit {0}))
      → Frozen (native_backend (native_debuggee W os) attach) image
  native_backend-Frozen os attach = record {
    Stopped = Stopped os;
    Mapped = P.Mapped;
    serves = served os;
  }
