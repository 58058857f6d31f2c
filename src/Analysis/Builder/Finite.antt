-- ===== src/Analysis/Builder/Finite.antt =====
-- `FunctionBuilder::build` of irida-core/core/analysis/src/analysis.cpp ends on an image of bounded size.
use irida.Common.{
  ==_refl, All, Bool-cases, List, Option, Option-cases, [], ap, arith, false, if◌then◌else◌, inl,
  inr, length, length-append, ltb, ltb→lt, none, refl, some, suc, sym, true, zero, ℕ, ◌*◌, ◌+◌, ◌<◌,
  ◌==◌, ◌||◌, ◌∷◌, ◌≡◌, ◌≤◌,
}
use irida.Base.{Bytes}
use irida.Disasm.{Disassembler}
use irida.Analysis.{default_name, BasicBlock, Function, Xref, ByteReader, read_window}
use irida.Analysis.Builder.{
  contains, emplace, has_block, enqueue, Trace, ended, on_bytes, trace_round, trace_from, sum_sizes,
  trace_block, build_loop, finalize, build,
}
use irida.Analysis.Builder.Leaders.{
  Outside, inner, inner_total, inner_total-emplace, split_all-Outside,
}
use irida.Analysis.Builder.Ends.{IsBounded, collected, trace_block-Returns}

-- How many addresses below the limit have no block.
unfoldable pub untraced : ℕ → List BasicBlock → ℕ
untraced zero blocks = 0
untraced (suc n) blocks =
    let rest = untraced n blocks in if has_block n blocks then rest else suc rest

untraced_le : (n : ℕ) (blocks : List BasicBlock) → untraced n blocks ≤ n
unfolding untraced
untraced_le zero blocks = omega arith
untraced_le (suc n) blocks = ground (arith, untraced_le n blocks)

has_block-emplace :
    (x : ℕ) (b : BasicBlock) (bs : List BasicBlock)
    → has_block x (emplace b bs) ≡ (if x == b.addr then true else has_block x bs)
unfolding emplace
has_block-emplace x b [] = refl
has_block-emplace x b (c ∷ cs) = ground (arith, has_block-emplace x b cs)

untraced-emplace_le :
    (n : ℕ) (b : BasicBlock) (bs : List BasicBlock) → untraced n (emplace b bs) ≤ untraced n bs
unfolding untraced
untraced-emplace_le zero b bs = omega arith
untraced-emplace_le (suc n) b bs =
    ground (arith, has_block-emplace n b bs, untraced-emplace_le n b bs)

untraced-emplace_lt :
    (n : ℕ) (b : BasicBlock) (bs : List BasicBlock)
    → b.addr < n
    → has_block b.addr bs ≡ false
    → untraced n (emplace b bs) < untraced n bs
unfolding untraced
untraced-emplace_lt zero b bs h new = absurd (omega arith)
untraced-emplace_lt (suc n) b bs h new = elim (Bool-cases (n == b.addr)) [
  | inl e ↦
      let same : n ≡ b.addr = ground arith in
      let found : has_block n (emplace b bs) ≡ true = rw (has_block-emplace n b bs, e) refl in
      let lost : has_block n bs ≡ false = rw same new in
      rw (found, lost) (omega (arith, untraced-emplace_le n b bs))
  | inr e ↦
      let below : b.addr < n = ground arith in
      let as_before : has_block n (emplace b bs) ≡ has_block n bs =
        rw (has_block-emplace n b bs, e) refl in
      rw as_before (ground (arith, untraced-emplace_lt n b bs below new))
]

inner-length : (lo : ℕ) (ias : List ℕ) → inner lo ias ≤ length ias
unfolding inner
inner-length lo [] = omega arith
inner-length lo (ia ∷ ias) = ground (arith, inner-length lo ias)

pub mul_room : (limit u v : ℕ) → u < v → limit + u * limit ≤ v * limit
mul_room limit u zero h = absurd (omega arith)
mul_room limit zero (suc v) h = omega arith
mul_room limit (suc u) (suc v) h = omega (arith, mul_room limit u v (omega arith))

pub mul_le : (limit u v : ℕ) → u ≤ v → u * limit ≤ v * limit
mul_le limit zero v h = omega arith
mul_le limit (suc u) zero h = absurd (omega arith)
mul_le limit (suc u) (suc v) h = omega (arith, mul_le limit u v (omega arith))

length-enqueue :
    (succ : ℕ) (queue : List ℕ × List ℕ) → length (enqueue succ queue).0 ≤ length queue.0 + 1
length-enqueue succ (work, queued) = elim (Bool-cases (succ == 0 || contains succ queued)) [
  | inl e ↦ rw e (omega arith)
  | inr e ↦ rw e (omega (arith, length-append work (succ ∷ [])))
]

-- The empty block that a trace begins with.
abbrev at_start : ℕ → BasicBlock
at_start start = record { addr = start; size = 0; jump = 0; fail = 0; instr_addrs = [] }

module _ (D : Disassembler) {S : Type 0} (reader : ByteReader S) (limit : ℕ)
    (bounded : IsBounded D reader limit) where
  on_bytes-nothing :
      (bytes : Bytes) (pc : ℕ) (bb : BasicBlock) (t : Trace)
      → length bytes ≤ 0
      → on_bytes D reader bytes pc bb t ≡ ended bb t
  unfolding on_bytes
  on_bytes-nothing [] pc bb t h = refl
  on_bytes-nothing (b ∷ bytes) pc bb t h = absurd (omega arith)

  trace_round-empty :
      (start : ℕ) (t : Trace) (s : S)
      → limit ≤ start
      → trace_round D reader start start (at_start start) t s
        ≡ (ended (at_start start) t, (reader start read_window s).1)
  unfolding trace_round
  trace_round-empty start t s h =
      let nothing : length (reader start read_window s).0 ≤ 0 =
        omega (arith, bounded.inside start s) in
      rw
        (
          trace_round,
          ==_refl start,
          on_bytes-nothing (reader start read_window s).0 start (at_start start) t nothing,
        )
        refl

  -- A block at the limit or behind it is empty, and leads nowhere.
  trace_block-empty :
      (fuel start : ℕ) (t : Trace) (s : S)
      → limit ≤ start
      → trace_block D reader (suc fuel) start t s
        ≡ some (at_start start, t, (reader start read_window s).1)
  unfolding trace_block trace_from
  trace_block-empty fuel start t s h =
      let round = trace_round-empty start t s h in
      rw (trace_block, trace_from, ap (λ r. r.0) round, ap (λ r. r.1) round) refl

  -- What the work loop returns, if it does: no more instructions and call targets than the bound.
  record Built (bound : ℕ) (o : Option (List BasicBlock × Trace × S)) : Type 0 where
    result : List BasicBlock × Trace × S
    returned : o ≡ some result
    few : inner_total result.0 + length result.1.callees ≤ bound

  -- What the work loop can still collect.
  abbrev budget : List BasicBlock → Trace → ℕ
  budget blocks t = inner_total blocks + length t.callees + untraced limit blocks * (2 * limit)

  -- A traced block pays for itself: with the rounds it asks for, and with what it collects.
  emplace-pays :
      (bb : BasicBlock) (t t' : Trace) (blocks : List BasicBlock) (bound : ℕ)
      → bb.addr < limit
      → has_block bb.addr blocks ≡ false
      → collected bb t' ≤ length t.callees + 2 * limit
      → budget blocks t ≤ bound
      → (untraced limit (emplace bb blocks) < untraced limit blocks)
        × (budget (emplace bb blocks) t' ≤ bound)
  emplace-pays bb t t' blocks bound lo new few h =
      let less = untraced-emplace_lt limit bb blocks lo new in
      let room = mul_room (2 * limit) _ _ less in
      (less, omega (arith, inner_total-emplace bb blocks, inner-length bb.addr bb.instr_addrs))

  emplace-free :
      (start : ℕ) (t : Trace) (blocks : List BasicBlock) (bound : ℕ)
      → budget blocks t ≤ bound
      → budget (emplace (at_start start) blocks) t ≤ bound
  unfolding inner
  emplace-free start t blocks bound h =
      let le = untraced-emplace_le limit (at_start start) blocks in
      omega (arith, inner_total-emplace (at_start start) blocks, mul_le (2 * limit) _ _ le)

  -- A round that traces a block.
  Built-traced :
      (fuel start : ℕ) (work queued : List ℕ) (blocks : List BasicBlock) (t : Trace) (s : S)
      (bound : ℕ) (bb : BasicBlock) (t' : Trace) (s' : S)
      → has_block start blocks ≡ false
      → trace_block D reader fuel start t s ≡ some (bb, t', s')
      → Built bound (
          build_loop D reader fuel
            (enqueue bb.fail (enqueue bb.jump (work, queued)))
            (emplace bb blocks)
            t'
            s')
      → Built bound (build_loop D reader (suc fuel) (start ∷ work, queued) blocks t s)
  unfolding build_loop
  Built-traced fuel start work queued blocks t s bound bb t' s' e d more = record {
    result = more.result;
    returned = rw (e, d, build_loop) more.returned;
    few = more.few;
  }

  build_loop-Built :
      (fuel : ℕ) (work queued : List ℕ) (blocks : List BasicBlock) (t : Trace) (s : S) (bound : ℕ)
      → length work + 2 * untraced limit blocks + limit < fuel
      → budget blocks t ≤ bound
      → Built bound (build_loop D reader fuel (work, queued) blocks t s)
  unfolding build_loop
  build_loop-Built zero work queued blocks t s bound h i = absurd (omega arith)
  build_loop-Built (suc fuel) [] queued blocks t s bound h i = record {
    result = (blocks, t, s);
    returned = refl;
    few = omega arith;
  }
  build_loop-Built (suc zero) (start ∷ work) queued blocks t s bound h i = absurd (omega arith)
  build_loop-Built (suc (suc fuel)) (start ∷ work) queued blocks t s bound h i =
      elim (Bool-cases (has_block start blocks)) [
        | inl e ↦
            let more = build_loop-Built (suc fuel) work queued blocks t s bound (omega arith) i in
            record {
              result = more.result;
              returned = rw (e, build_loop) more.returned;
              few = more.few;
            }
        | inr e ↦ elim (Bool-cases (ltb start limit)) [
          | inl b ↦
              let below = ltb→lt _ _ b in
              let traced =
                trace_block-Returns D reader limit bounded (suc fuel) start t s (omega arith) in
              let bb : BasicBlock = traced.result.0 in
              let new : has_block bb.addr blocks ≡ false = rw traced.same e in
              let (less, left) =
                emplace-pays bb t traced.result.1 blocks bound (omega (arith, traced.same)) new
                  (omega (arith, traced.few)) i in
              let queue : List ℕ × List ℕ = enqueue bb.jump (work, queued) in
              let next : List ℕ × List ℕ = enqueue bb.fail queue in
              Built-traced (suc fuel) start work queued blocks t s bound bb traced.result.1
                traced.result.2 e traced.returned
                (build_loop-Built (suc fuel) next.0 next.1 (emplace bb blocks) traced.result.1
                  traced.result.2 bound
                  (omega
                    (arith, length-enqueue bb.fail queue, length-enqueue bb.jump (work, queued)))
                  left)
          | inr b ↦
              let above : limit ≤ start = ground arith in
              let s' : S = (reader start read_window s).1 in
              let le = untraced-emplace_le limit (at_start start) blocks in
              Built-traced (suc fuel) start work queued blocks t s bound (at_start start) t s' e
                (trace_block-empty fuel start t s above)
                (build_loop-Built (suc fuel) work queued (emplace (at_start start) blocks) t s'
                  bound (omega arith) (emplace-free start t blocks bound i))
        ]
      ]

  -- If nothing is read at a limit or behind it, and the decoder is sound and takes a byte at least,
  -- then with as much fuel as asked for the builder returns a function at the entry, with at most twice
  -- the limit's square of call targets, and none of the leaders that it found lies strictly inside a
  -- block at the start of an instruction.
  pub build-Outside :
      (fuel entry : ℕ) (xrefs : List Xref) (s : S)
      → limit * (2 * limit) + 3 * limit + 1 < fuel
      → (result : Function × Trace × S) × (build D reader fuel entry xrefs s ≡ some result)
        × (result.0.addr ≡ entry)
        × (length result.1.callees ≤ limit * (2 * limit))
        × All (λ bb. All (Outside bb) result.1.leaders) result.0.blocks
  unfolding build finalize
  build-Outside fuel entry xrefs s h =
      let start : Trace = record { leaders = entry ∷ []; callees = []; xrefs = xrefs } in
      let few = untraced_le limit [] in
      let built =
        build_loop-Built fuel (entry ∷ []) (entry ∷ []) [] start s (limit * (2 * limit))
          (omega arith) (omega (arith, mul_le (2 * limit) _ _ few)) in
      let (bs, e, all) =
        split_all-Outside fuel built.result.1.leaders built.result.0 (omega (arith, built.few)) in
      (
        (
          record {
            addr = entry;
            size = sum_sizes bs;
            name = default_name entry;
            blocks = bs;
            callees = [];
          },
          built.result.1,
          built.result.2,
        ),
        rw (built.returned, build, finalize, e) refl,
        refl,
        omega (arith, built.few),
        all,
      )

  build_loop-behind :
      (fuel entry : ℕ) (t : Trace) (s : S)
      → limit ≤ entry
      → build_loop D reader (suc (suc fuel)) (entry ∷ [], entry ∷ []) [] t s
        ≡ some (at_start entry ∷ [], t, (reader entry read_window s).1)
  unfolding build_loop emplace
  build_loop-behind fuel entry t s h = rw (build_loop, trace_block-empty fuel entry t s h) refl

  -- A function at the limit or behind it calls nothing.
  pub build-behind :
      (fuel entry : ℕ) (xrefs : List Xref) (s : S) (result : Function × Trace × S)
      → limit ≤ entry
      → 1 < fuel
      → build D reader fuel entry xrefs s ≡ some result
      → length result.1.callees ≡ 0
  unfolding build
  build-behind zero entry xrefs s result h two e = absurd (omega arith)
  build-behind (suc zero) entry xrefs s result h two e = absurd (omega arith)
  build-behind (suc (suc fuel)) entry xrefs s result h two e =
      let start : Trace = record { leaders = entry ∷ []; callees = []; xrefs = xrefs } in
      let loop = build_loop-behind fuel entry start s h in
      elim (Option-cases (finalize (suc (suc fuel)) entry (entry ∷ []) (at_start entry ∷ []))) [
        | inl n ↦ let bad : none ≡ some result = rw (loop, n, build) at e in absurd (cc)
        | inr (fn, d) ↦
            let same : some (fn, start, (reader entry read_window s).1) ≡ some result =
              rw (loop, d, build) at e in
            let eq : (fn, start, (reader entry read_window s).1) ≡ result = cc in
            sym (ap (λ r. length r.1.callees) eq)
      ]
