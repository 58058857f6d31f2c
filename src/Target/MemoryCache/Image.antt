-- ===== src/Target/MemoryCache/Image.antt =====
-- The cache of irida-core/core/target/src/memory_cache.cpp over a guest that is stopped.
use irida.Common.{
  Option-cases, [], ap, append-nil, append_assoc, arith, get_or, inl, inr, lookup, lookup-assign,
  refl, some, suc, sym, zero, ℕ, ◌%◌, ◌++◌, ◌+◌, ◌-◌, ◌<◌, ◌^◌, ◌∙◌, ◌∷◌, ◌≡◌, ◌≤◌,
}
use irida.Base.{Bytes, ok}
use irida.Backend.{Backend}
use irida.Target.MemoryCache.{Memory, page_size, page_of, slice, read_page, read_loop, read}
use irida.Target.MemoryCache.Read.{
  taken, taken_bounds, taken_in_page, round_ok, read_page-hit, read_page-miss_ok,
}

-- `n` bytes of an image, from an address on.
unfoldable pub window : (ℕ → ℕ) → ℕ → ℕ → Bytes
window image addr zero = []
window image addr (suc n) = image addr ∷ window image (addr + 1) n

get_or-window :
    (image : ℕ → ℕ) (addr n i : ℕ) → i < n → get_or (window image addr n) i 0 ≡ image (addr + i)
unfolding window
get_or-window image addr zero i h = absurd (omega arith)
get_or-window image addr (suc n) zero h = ap image (omega arith)
get_or-window image addr (suc n) (suc i) h =
    get_or-window image (addr + 1) n i (omega arith) ∙ ap image (omega arith)

window_step :
    (image : ℕ → ℕ) (addr k : ℕ)
    → image addr ∷ window image (addr + 1) k ≡ window image addr (suc k)
unfolding window
window_step image addr k = refl

slice-window :
    (image : ℕ → ℕ) (addr n page_off k : ℕ)
    → page_off + k ≤ n
    → slice (window image addr n) page_off k ≡ window image (addr + page_off) k
unfolding slice
slice-window image addr n page_off zero h = unfold window in refl
slice-window image addr n page_off (suc k) h =
    let e : addr + (page_off + 1) ≡ addr + page_off + 1 = omega arith in
    rw
      (
        get_or-window image addr n page_off (omega arith),
        slice-window image addr n (page_off + 1) k (omega arith),
        e,
      )
      (window_step image (addr + page_off) k)

window-append :
    (image : ℕ → ℕ) (addr k n : ℕ)
    → window image addr k ++ window image (addr + k) n ≡ window image addr (k + n)
window-append image addr zero n =
    let e : addr + 0 ≡ addr = omega arith in
    let f : 0 + n ≡ n = omega arith in rw (e, f) (unfold window in refl)
window-append image addr (suc k) n =
    let e : addr + suc k ≡ addr + 1 + k = omega arith in
    let f : suc k + n ≡ suc (k + n) = omega arith in
    rw (e, f, ← window_step image addr k, ← window_step image addr (k + n))
      (ap (λ t. image addr ∷ t) (window-append image (addr + 1) k n))

-- The position wraps only when nothing is left.
window_wrap :
    (image : ℕ → ℕ) (addr n : ℕ)
    → addr + n ≤ 2 ^ 64
    → window image (addr % 2 ^ 64) n ≡ window image addr n
window_wrap image addr zero h = unfold window in refl
window_wrap image addr (suc n) h = let e : addr % 2 ^ 64 ≡ addr = omega arith in rw e

-- The states in which the guest is attached and stopped, and the pages that it has: there a page read
-- returns the page of the image, and the guest stays stopped.
pub record Frozen (B : Backend) (image : ℕ → ℕ) : Type 1 where
  pub Stopped : B.State → Type 0
  pub Mapped : ℕ → Type 0
  pub serves :
      (s : B.State) (page : ℕ)
      → Stopped s
      → Mapped page
      → ((B.read_memory page page_size s).0 ≡ ok (window image page page_size))
        × Stopped (B.read_memory page page_size s).1

-- The guest is stopped, and every cached page is the page of the image.
pub record Coherent (B : Backend) (image : ℕ → ℕ) (frozen : Frozen B image) (m : Memory B)
    : Type 0 where
  pub stopped : frozen.Stopped m.backend
  pub pages :
      (q : ℕ) (bytes : Bytes) → lookup q m.cache.cur ≡ some bytes → bytes ≡ window image q page_size

module _ (B : Backend) (image : ℕ → ℕ) (frozen : Frozen B image) where
  pub read_page-Coherent :
      (page : ℕ) (m : Memory B)
      → frozen.Mapped page
      → Coherent B image frozen m
      → ((read_page B page m).0 ≡ ok (window image page page_size))
        × Coherent B image frozen (read_page B page m).1
  read_page-Coherent page m mapped c = elim (Option-cases (lookup page m.cache.cur)) [
    | inr (bytes, h) ↦ rw (read_page-hit B page m bytes h) (ap ok (c.pages page bytes h), c)
    | inl h ↦
        rw
          (read_page-miss_ok B page m (window image page page_size) h
            (frozen.serves m.backend page c.stopped mapped).0)
          (
            refl,
            record {
              stopped = (frozen.serves m.backend page c.stopped mapped).1;
              pages = λ q bytes. rw lookup-assign (ground (arith, c.pages q bytes));
            },
          )
  ]

  round_end :
      (here left : ℕ)
      → here + suc left ≤ 2 ^ 64
      → (here + taken here left) % 2 ^ 64 + (suc left - taken here left) ≤ 2 ^ 64
  round_end here left h = omega (arith, taken_bounds here left)

  joined :
      (here left : ℕ) (out : Bytes)
      → here + suc left ≤ 2 ^ 64
      → (out
            ++ slice
                (window image (page_of here) page_size)
                (here - page_of here)
                (taken here left))
          ++ window image ((here + taken here left) % 2 ^ 64) (suc left - taken here left)
        ≡ out ++ window image here (suc left)
  joined here left out h =
      let t = taken here left in
      let b = taken_bounds here left in
      let at : page_of here + (here - page_of here) ≡ here = omega arith in
      let total : t + (suc left - t) ≡ suc left = omega (arith, b) in
      append_assoc out _ _
      ∙ ap (λ s. out ++ s)
          (rw (
            slice-window image (page_of here) page_size (here - page_of here) t
                (taken_in_page here left),
            at,
            window_wrap image (here + t) (suc left - t) (omega (arith, b)),
            window-append image here t (suc left - t),
            total,
          ))

  read_loop-image :
      (fuel here remaining : ℕ) (out : Bytes) (m : Memory B)
      → remaining ≤ fuel
      → here + remaining ≤ 2 ^ 64
      → ((a : ℕ) → here ≤ a → a < here + remaining → frozen.Mapped (page_of a))
      → Coherent B image frozen m
      → ((read_loop B fuel here remaining out m).0 ≡ ok (out ++ window image here remaining))
        × Coherent B image frozen (read_loop B fuel here remaining out m).1
  read_loop-image zero here zero out m hf hw mapped c =
      unfold read_loop window in (ap ok (sym (append-nil out)), c)
  read_loop-image zero here (suc left) out m hf hw mapped c = absurd (omega arith)
  read_loop-image (suc fuel) here zero out m hf hw mapped c =
      unfold read_loop window in (ap ok (sym (append-nil out)), c)
  read_loop-image (suc fuel) here (suc left) out m hf hw mapped c =
      let (served, c') =
        read_page-Coherent (page_of here) m (mapped here (omega arith) (omega arith)) c in
      let page = window image (page_of here) page_size in
      let m' = (read_page B (page_of here) m).1 in
      let t = taken here left in
      let (lo, hi) = taken_bounds here left in
      let (bytes_ok, c'') =
        read_loop-image fuel ((here + t) % 2 ^ 64) (suc left - t)
          (out ++ slice page (here - page_of here) t) m' (omega arith)
          (omega (arith, round_end here left hw))
          (λ a from to. mapped a (omega (arith, from, to)) (omega (arith, from, to))) c' in
      rw (round_ok B fuel here left out m page m' (ap (λ r. (r, m')) served))
        (bytes_ok ∙ ap ok (joined here left out hw), c'')

  -- While the guest is stopped, a read inside the address space whose pages the guest has returns the
  -- guest's bytes, through any coherent cache and across page boundaries, and leaves the guest stopped
  -- and the cache coherent.
  pub read-window :
      (addr len : ℕ) (m : Memory B)
      → addr + len ≤ 2 ^ 64
      → ((a : ℕ) → addr ≤ a → a < addr + len → frozen.Mapped (page_of a))
      → Coherent B image frozen m
      → ((read B addr len m).0 ≡ ok (window image addr len))
        × Coherent B image frozen (read B addr len m).1
  unfolding read
  read-window addr len m h mapped c = read_loop-image len addr len [] m (omega arith) h mapped c
