-- ===== src/Target/MemoryCache/Changed.antt =====
-- `changed_since_last_epoch` of irida-core/core/target/src/memory_cache.cpp.
use irida.Common.{
  Assoc, Bool, Option, false, if◌then◌else◌, lookup, none, not, some, suc, text_eq, true, zero, ℕ,
  ◌+◌,
}
use irida.Base.{Bytes}
use irida.Backend.{Backend}
use irida.Target.MemoryCache.{page_size}
use irida.Target.MemoryCache.Image.{window}

-- A page of the image against what the previous epoch kept of it; a page it did not keep is equal.
abbrev differs : (ℕ → ℕ) → ℕ → Option Bytes → Bool
differs image page none = false
differs image page (some old) = not (text_eq (window image page page_size) old)

-- Is one of `n` pages, from `page` on, another than in the previous epoch?
unfoldable pub any_differs : (ℕ → ℕ) → Assoc Bytes → ℕ → ℕ → Bool
any_differs image prev zero page = false
any_differs image prev (suc n) page =
    let rest = any_differs image prev n (page + page_size) in
    if differs image page (lookup page prev) then true else rest
