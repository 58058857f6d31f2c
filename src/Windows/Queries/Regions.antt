-- ===== src/Windows/Queries/Regions.antt =====
-- The walk over the regions of memory of irida-core/libs/host/src/native_debuggee.cpp.
use irida.Common.{
  Bool-cases, List, Option-cases, arith, inl, inr, leb, refl, some, suc, zero, ℕ, ◌+◌, ◌<◌, ◌^◌,
  ◌≡◌,
}
use irida.Backend.Native.Host.{HostMemMap}
use irida.Windows.{Windows}
use irida.Windows.Queries.{maps_loop, region_end, push_region}

-- Whatever the system answers to the queries, the walk from an address ends, if it has a round for
-- each address from there on and one more: the address of a query is below 2 ^ 64 and grows.
pub maps_loop-ends :
    (W : Windows) (fuel process addr : ℕ) (out : List HostMemMap) (os : W.State)
    → addr < 2 ^ 64
    → 2 ^ 64 < fuel + addr
    → (r : List HostMemMap × W.State) × (maps_loop W fuel process addr out os ≡ some r)
unfolding maps_loop
maps_loop-ends W zero process addr out os h enough = absurd (omega arith)
maps_loop-ends W (suc fuel) process addr out os h enough =
    let os' = (W.virtual_query process addr os).1 in
    elim (Option-cases (W.virtual_query process addr os).0) [
      | inl e ↦ ((out, os'), rw (e, maps_loop) refl)
      | inr (mbi, e) ↦ elim (Bool-cases (leb (region_end W mbi) addr)) [
        | inl stuck ↦ ((push_region W mbi out, os'), rw (e, stuck, maps_loop) refl)
        | inr grows ↦
            let (r, more) =
              maps_loop-ends W fuel process (region_end W mbi) (push_region W mbi out) os'
                (omega arith) (ground arith) in
            (r, rw (e, grows, maps_loop) more)
      ]
    ]
