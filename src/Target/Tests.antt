-- ===== src/Target/Tests.antt =====
-- The target and its cache over a guest that stands still.
use irida.Common.{
  List, [], arith, assign, codes, false, if◌then◌else◌, lookup, ltb, lt→ltb, map, pos, refl, suc,
  true, zero, ℕ, ◌%◌, ◌+◌, ◌<◌, ◌^◌, ◌∷◌, ◌≡◌,
}
use irida.Base.{Bytes, ok, err}
use irida.Backend.{Backend, breakpoint}
use irida.Backend.Gdb.{make_x86_64_gdb_profile, lay_out}
use irida.Target.RegisterSet.{decode}
use irida.Target.RegisterSet.Layout.{read_field, decode-make_x86_64_gdb_profile}
use irida.Target.MemoryCache.{Memory, page_size, slice, read_page, read_loop, read}
use irida.Target.MemoryCache.Image.{window, Frozen}
use irida.Target.{fresh, refresh_state, attach, cont, step}
use irida.Target.Epochs.{
  Resumed, cont-Resumed, IsLive, Op, do_cont, do_step, do_read, do_maps, run, run-epoch,
  attach-IsLive,
}

abbrev zeros : ℕ → Bytes
zeros zero = []
zeros (suc n) = 0 ∷ zeros n

abbrev pub serving : (ℕ → ℕ → Bytes) → Backend
serving page = record {
  State = Unit {0};
  attach = λ spec s. (ok tt, s);
  detach = λ s. (ok tt, s);
  cont = λ s. (ok (record { kind = breakpoint; signal = pos 5; pc = 4096; detail = [] }), s);
  step = λ s. (err (codes "step refused"), s);
  request_stop = λ s. (ok tt, s);
  read_registers = λ s. (ok (1 ∷ zeros 7), s);
  write_registers = λ block s. (ok tt, s);
  register_profile = λ s. make_x86_64_gdb_profile;
  read_memory = λ addr len s. (ok (page addr len), s);
  write_memory = λ addr bytes s. (ok tt, s);
  maps = λ s. (ok [], s);
  modules = λ s. (ok [], s);
  threads = λ s. (ok [], s);
  set_breakpoint = λ kind addr size s. (ok tt, s);
  remove_breakpoint = λ kind addr size s. (ok tt, s);
  caps = λ s. record {
    can_step = true;
    has_hw_bp = false;
    clean_dr = true;
    thread_aware = false;
    modules_native = false;
  };
}

abbrev image : ℕ → ℕ
image a = a % 256

abbrev pub still : Backend
still = serving (window image)

-- A backend whose pages have two bytes.
abbrev short : Backend
short = serving (λ addr len. 144 ∷ 204 ∷ [])

abbrev empty_memory : (B : Backend) → B.State → Memory B
empty_memory B s = record { cache = record { epoch = 1; cur = []; prev = [] }; backend = s }

-- A guest that has memory below 65536 only.
abbrev small : Backend
small = record still {
  read_memory =
      λ addr len s. (if ltb addr 65536 then ok (window image addr len) else err (codes "E14"), s);
}

below-served :
    (page : ℕ)
    → page < 65536
    → (small.read_memory page page_size tt).0 ≡ ok (window image page page_size)
below-served page h = rw (lt→ltb page 65536 h) refl

abbrev small-Frozen : Frozen small image
small-Frozen = record {
  Stopped = λ s. Unit {0};
  Mapped = λ page. page < 65536;
  serves = λ s page stopped h. (below-served page h, tt);
}

decode-make_x86_64_gdb_profile_example :
    decode (zeros 140) ≡ ok (map (read_field (zeros 140)) make_x86_64_gdb_profile.fields)
unfolding make_x86_64_gdb_profile lay_out
decode-make_x86_64_gdb_profile_example = decode-make_x86_64_gdb_profile (zeros 140) (omega arith)

abbrev one_page : Memory short
one_page = record {
  cache = record { epoch = 1; cur = assign 0 (144 ∷ 204 ∷ []) []; prev = [] };
  backend = tt;
}

one_page_served : read short 1 2 (empty_memory short tt) ≡ (ok (204 ∷ 0 ∷ []), one_page)
unfolding read read_loop read_page slice lookup assign
one_page_served = refl

cont-Resumed_example :
    Resumed still still.cont (fresh still tt) (cont still (fresh still tt))
    × Resumed still still.step (fresh still tt) (step still (fresh still tt))
cont-Resumed_example = cont-Resumed still (fresh still tt)

attached_ok : attach still tt ≡ (ok tt, (attach still tt).1)
unfolding attach refresh_state decode
attached_ok = refl

still-IsLive : IsLive still (attach still tt).1 × ((attach still tt).1.epoch ≡ 1)
still-IsLive = attach-IsLive still tt (attach still tt).1 attached_ok

abbrev some_ops : List (Op still)
some_ops = do_cont ∷ do_read 0 3 ∷ do_maps ∷ do_step ∷ do_cont ∷ []

run-epoch_example :
    IsLive still (run still some_ops (attach still tt).1).1
    × ((run still some_ops (attach still tt).1).1.epoch
        ≡ ((attach still tt).1.epoch + (run still some_ops (attach still tt).1).0) % 2 ^ 64)
run-epoch_example =
    run-epoch still some_ops (attach still tt).1 still-IsLive.0 (omega (arith, still-IsLive.1))
