-- ===== src/Target/MemoryCache.antt =====
-- irida-core/core/target/src/memory_cache.cpp: pages of guest memory, kept for one stop-epoch.
-- The cache points at the target's backend, so its member functions act on both.
pub mod Read
pub mod Image
pub mod Changed
use irida.Common.{
  Assoc, Bool, Option, [], assign, false, get_or, if◌then◌else◌, leb, lookup, min, none, some, suc,
  text_eq, true, zero, ℕ, ◌%◌, ◌*◌, ◌++◌, ◌+◌, ◌-◌, ◌/◌, ◌==◌, ◌^◌, ◌∷◌,
}
use irida.Base.{Bytes, Result, ok, err}
use irida.Base.Action.{Action, ◌>>=◌, ◌>>◌}
use irida.Backend.{Backend}

abbrev pub page_size : ℕ
page_size = 4096

pub record MemoryCache : Type 0 where
  pub epoch : ℕ
  pub cur : Assoc Bytes
  pub prev : Assoc Bytes

-- `cur_` moves to `prev_`, and the current generation starts empty.
unfoldable pub set_epoch : ℕ → MemoryCache → MemoryCache
set_epoch epoch c = record { epoch = epoch; cur = []; prev = c.cur }

-- `(pos / kPageSize) * kPageSize`
abbrev pub page_of : ℕ → ℕ
page_of addr = addr / page_size * page_size

-- `take` bytes from `page_off` on; a byte that the page does not have reads as 0.
unfoldable pub slice : Bytes → ℕ → ℕ → Bytes
slice bytes page_off zero = []
slice bytes page_off (suc take') = get_or bytes page_off 0 ∷ slice bytes (page_off + 1) take'

-- One page of the comparison: `some` is a return, `none` goes on with the next page.
unfoldable pub compare_page : Result Bytes → Option Bytes → Option Bool
compare_page (err e) prev = some false
compare_page (ok cur) none = none
compare_page (ok cur) (some prev) = if text_eq cur prev then none else some true

module _ (B : Backend) where
  pub record Memory : Type 0 where
    pub cache : MemoryCache
    pub backend : B.State

  unfoldable pub read_page : ℕ → Action Memory Bytes
  read_page page_addr m = elim (lookup page_addr m.cache.cur) [
    | some bytes ↦ (ok bytes, m)
    | none ↦ elim (B.read_memory page_addr page_size m.backend).0 [
      | ok bytes ↦ (
        ok bytes,
        record {
          cache = record (m.cache) { cur = assign page_addr bytes m.cache.cur };
          backend = (B.read_memory page_addr page_size m.backend).1;
        },
      )
      | err e ↦ (err e, record m { backend = (B.read_memory page_addr page_size m.backend).1 })
    ]
  ]

  -- The loop over `pos`, here `here`, and `remaining`. A round takes a byte at least, so
  -- `remaining` rounds are enough, and the fuel is 0 only when `remaining` is.
  unfoldable pub read_loop : ℕ → ℕ → ℕ → Bytes → Action Memory Bytes
  read_loop zero here remaining out m = (ok out, m)
  read_loop (suc fuel) here zero out m = (ok out, m)
  read_loop (suc fuel) here (suc left) out m =
      let page_addr : ℕ = page_of here in
      let page_off : ℕ = here - page_addr in
      let take' : ℕ = min (page_size - page_off) (suc left) in
      (do
        page ← read_page page_addr
        read_loop fuel ((here + take') % 2 ^ 64) (suc left - take')
            (out ++ slice page page_off take'))
        m

  unfoldable pub read : ℕ → ℕ → Action Memory Bytes
  read addr len = read_loop len addr len []

  -- The loop over `page_addr`, which wraps at 2 ^ 64. `none` means that the fuel ran out.
  unfoldable pub changed_loop : ℕ → ℕ → ℕ → Memory → Option Bool × Memory
  changed_loop zero page_addr last_page m = (none, m)
  changed_loop (suc fuel) page_addr last_page m = elim (leb page_addr last_page) [
    | false ↦ (some false, m)
    | true ↦ elim (compare_page (read_page page_addr m).0 (lookup page_addr m.cache.prev)) [
      | some result ↦ (some result, (read_page page_addr m).1)
      | none ↦
          changed_loop fuel ((page_addr + page_size) % 2 ^ 64) last_page (read_page page_addr m).1
    ]
  ]

  unfoldable pub changed_since_last_epoch : ℕ → ℕ → ℕ → Memory → Option Bool × Memory
  changed_since_last_epoch fuel addr len m =
      if len == 0
      then (some false, m)
      else changed_loop fuel (page_of addr) (page_of ((addr + len - 1) % 2 ^ 64)) m
