-- ===== src/Target/MemoryCache/Read.antt =====
-- Reads through the cache of irida-core/core/target/src/memory_cache.cpp.
use irida.Common.{
  ==_refl, Option-cases, Text, [], ap, arith, assign, inl, inr, length, length-append, lookup,
  lookup-assign, min, none, refl, some, suc, sym, zero, ℕ, ◌%◌, ◌++◌, ◌+◌, ◌-◌, ◌^◌, ◌∙◌, ◌≡◌, ◌≤◌,
}
use irida.Base.{Bytes, Result, ok, err, Result-cases}
use irida.Backend.{Backend}
use irida.Target.MemoryCache.{Memory, page_size, page_of, slice, read_page, read_loop, read}

length-slice : (bytes : Bytes) (page_off n : ℕ) → length (slice bytes page_off n) ≡ n
unfolding slice
length-slice bytes page_off zero = refl
length-slice bytes page_off (suc n) = ap suc (length-slice bytes (page_off + 1) n)

module _ (B : Backend) where
  -- Every page of the first cache is in the second, unchanged.
  pub record Extends (m n : Memory B) : Type 0 where
    pub keeps :
        (q : ℕ) (bytes : Bytes)
        → lookup q m.cache.cur ≡ some bytes
        → lookup q n.cache.cur ≡ some bytes

module _ {B : Backend} where
  Extends-refl : (m : Memory B) → Extends B m m
  Extends-refl m = record { keeps = λ q bytes h. h }

  Extends-trans : {a b c : Memory B} → Extends B a b → Extends B b c → Extends B a c
  Extends-trans h k = record { keeps = λ q bytes e. k.keeps q bytes (h.keeps q bytes e) }

module _ (B : Backend) (page : ℕ) (m : Memory B) where
  -- One page: it is in the cache afterwards, or the backend's error is passed on.
  pub data PageRead : Type 0 where
    page_ok :
        (bytes : Bytes) (m' : Memory B)
        → read_page B page m ≡ (ok bytes, m')
        → lookup page m'.cache.cur ≡ some bytes
        → Extends B m m'
        → PageRead
    page_err :
        (e : Text) (m' : Memory B) → read_page B page m ≡ (err e, m') → Extends B m m' → PageRead

  pub read_page-hit :
      (bytes : Bytes) → lookup page m.cache.cur ≡ some bytes → read_page B page m ≡ (ok bytes, m)
  unfolding read_page
  read_page-hit bytes h = rw (h, read_page)

  pub read_page-miss_ok :
      (bytes : Bytes)
      → lookup page m.cache.cur ≡ none
      → (B.read_memory page page_size m.backend).0 ≡ ok bytes
      → read_page B page m ≡ (
        ok bytes,
        record {
          cache = record (m.cache) { cur = assign page bytes m.cache.cur };
          backend = (B.read_memory page page_size m.backend).1;
        },
      )
  unfolding read_page
  read_page-miss_ok bytes h e = rw (h, e, read_page)

  read_page-miss_err :
      (msg : Text)
      → lookup page m.cache.cur ≡ none
      → (B.read_memory page page_size m.backend).0 ≡ err msg
      → read_page B page m
        ≡ (err msg, record m { backend = (B.read_memory page page_size m.backend).1 })
  unfolding read_page
  read_page-miss_err msg h e = rw (h, e, read_page)

  pub read_page-PageRead : PageRead
  read_page-PageRead = elim (Option-cases (lookup page m.cache.cur)) [
    | inr (bytes, h) ↦ page_ok bytes m (read_page-hit bytes h) h (Extends-refl m)
    | inl h ↦ elim (Result-cases (B.read_memory page page_size m.backend).0) [
      | inl (bytes, e) ↦
          page_ok bytes _ (read_page-miss_ok bytes h e) (rw lookup-assign (rw (==_refl page)))
            (record { keeps = λ q c k. rw lookup-assign (ground (arith, h, k)) })
      | inr (msg, e) ↦ page_err msg _ (read_page-miss_err msg h e) (record { keeps = λ q c k. k })
    ]
  ]

-- What one round takes: to the end of the page, or all that remains.
unfoldable pub taken : ℕ → ℕ → ℕ
taken here left = min (page_size - (here - page_of here)) (suc left)

pub taken_bounds : (here left : ℕ) → (1 ≤ taken here left) × (taken here left ≤ suc left)
unfolding taken
taken_bounds here left = (omega arith, omega arith)

pub taken_in_page : (here left : ℕ) → here - page_of here + taken here left ≤ page_size
unfolding taken
taken_in_page here left = omega arith

module _ (B : Backend) (fuel here left : ℕ) (out : Bytes) (m : Memory B) where
  pub round_ok :
      (page : Bytes) (m' : Memory B)
      → read_page B (page_of here) m ≡ (ok page, m')
      → read_loop B (suc fuel) here (suc left) out m
        ≡ read_loop B fuel
            ((here + taken here left) % 2 ^ 64)
            (suc left - taken here left)
            (out ++ slice page (here - page_of here) (taken here left))
            m'
  unfolding read_loop taken
  round_ok page m' e = rw (e, read_loop)

  pub round_err :
      (msg : Text) (m' : Memory B)
      → read_page B (page_of here) m ≡ (err msg, m')
      → read_loop B (suc fuel) here (suc left) out m ≡ (err msg, m')
  unfolding read_loop
  round_err msg m' e = rw (e, read_loop)

-- One round either fails as the page read does, or goes on with the page.
pub data Round (B : Backend) (fuel here left : ℕ) (out : Bytes) (m : Memory B) : Type 0 where
  goes_on :
      (page : Bytes) (m' : Memory B)
      → lookup (page_of here) m'.cache.cur ≡ some page
      → Extends B m m'
      → read_page B (page_of here) m ≡ (ok page, m')
      → read_loop B (suc fuel) here (suc left) out m
        ≡ read_loop B fuel
            ((here + taken here left) % 2 ^ 64)
            (suc left - taken here left)
            (out ++ slice page (here - page_of here) (taken here left))
            m'
      → Round B fuel here left out m
  fails :
      (msg : Text) (m' : Memory B)
      → read_loop B (suc fuel) here (suc left) out m ≡ (err msg, m')
      → Round B fuel here left out m

pub rounds :
    (B : Backend) (fuel here left : ℕ) (out : Bytes) (m : Memory B) → Round B fuel here left out m
rounds B fuel here left out m = elim (read_page-PageRead B (page_of here) m) [
  | page_ok page m' e h x ↦ goes_on page m' h x e (round_ok B fuel here left out m page m' e)
  | page_err msg m' e x ↦ fails msg m' (round_err B fuel here left out m msg m' e)
]

module _ (B : Backend) where
  read_loop-length :
      (fuel here remaining : ℕ) (out : Bytes) (m : Memory B) (bytes : Bytes) (m' : Memory B)
      → remaining ≤ fuel
      → read_loop B fuel here remaining out m ≡ (ok bytes, m')
      → length bytes ≡ length out + remaining
  read_loop-length zero here remaining out m bytes m' h e = unfold read_loop in ground arith
  read_loop-length (suc fuel) here zero out m bytes m' h e = unfold read_loop in ground arith
  read_loop-length (suc fuel) here (suc left) out m bytes m' h e =
      elim (rounds B fuel here left out m) [
        | goes_on page n k x r eq ↦
            let (lo, hi) = taken_bounds here left in
            let more = out ++ slice page (here - page_of here) (taken here left) in
            omega (
              arith,
              read_loop-length fuel ((here + taken here left) % 2 ^ 64) (suc left - taken here left)
                  more n bytes m' (omega arith) (sym eq ∙ e),
              length-append out (slice page (here - page_of here) (taken here left)),
              length-slice page (here - page_of here) (taken here left),
            )
        | fails msg n eq ↦ cc
      ]

  -- A read that succeeds returns exactly as many bytes as were asked for, whatever the backend gave
  -- for the pages.
  pub length-read :
      (addr len : ℕ) (m : Memory B) (bytes : Bytes) (m' : Memory B)
      → read B addr len m ≡ (ok bytes, m')
      → length bytes ≡ len
  unfolding read
  length-read addr len m bytes m' e =
      omega (arith, read_loop-length len addr len [] m bytes m' (omega arith) e)

  stopped :
      (out : Bytes) (m : Memory B) (bytes : Bytes) (m' : Memory B)
      → ◌≡◌ {A = Result Bytes × Memory B} (ok out, m) (ok bytes, m')
      → Extends B m m'
        × ((n : Memory B)
            → Extends B m' n
            → ◌≡◌ {A = Result Bytes × Memory B} (ok out, n) (ok bytes, n))
  stopped out m bytes m' e =
      let same : m ≡ m' = ap (λ q. q.1) e in
      let result : out ≡ bytes = cc (ap (λ q. q.0) e) in
      (rw (← same) (Extends-refl m), λ n en. ap (λ b. (ok b, n)) result)

  read_loop-repeat :
      (fuel here remaining : ℕ) (out : Bytes) (m : Memory B) (bytes : Bytes) (m' : Memory B)
      → read_loop B fuel here remaining out m ≡ (ok bytes, m')
      → Extends B m m'
        × ((n : Memory B) → Extends B m' n → read_loop B fuel here remaining out n ≡ (ok bytes, n))
  read_loop-repeat zero here remaining out m bytes m' e =
      unfold read_loop in stopped out m bytes m' e
  read_loop-repeat (suc fuel) here zero out m bytes m' e =
      unfold read_loop in stopped out m bytes m' e
  read_loop-repeat (suc fuel) here (suc left) out m bytes m' e =
      elim (rounds B fuel here left out m) [
        | goes_on page m₁ k x r eq ↦
            let more = out ++ slice page (here - page_of here) (taken here left) in
            let (ext, again) =
              read_loop-repeat fuel ((here + taken here left) % 2 ^ 64) (suc left - taken here left)
                more m₁ bytes m' (sym eq ∙ e) in
            (
              Extends-trans x ext,
              λ n en.
                  round_ok B fuel here left out n page n
                    (read_page-hit B (page_of here) n page (en.keeps _ page (ext.keeps _ page k)))
                  ∙ again n en,
            )
        | fails msg n eq ↦ absurd (cc)
      ]

  -- A read that succeeded can be repeated: from any state whose cache still has the pages that are
  -- cached after it, it returns the same bytes, and neither the cache nor the backend is touched.
  pub read-repeat :
      (addr len : ℕ) (m : Memory B) (bytes : Bytes) (m' : Memory B)
      → read B addr len m ≡ (ok bytes, m')
      → (n : Memory B) → Extends B m' n
      → read B addr len n ≡ (ok bytes, n)
  unfolding read
  read-repeat addr len m bytes m' e = (read_loop-repeat len addr len [] m bytes m' e).1
