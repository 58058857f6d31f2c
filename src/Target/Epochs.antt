-- ===== src/Target/Epochs.antt =====
-- The stop-epoch of irida-core/core/target/src/target.cpp under the operations of a client.
use irida.Common.{
  Bool, Bool-cases, List, Text, [], ap, arith, false, if◌then◌else◌, inl, inr, refl, some, suc, sym,
  zero, ℕ, ◌%◌, ◌++◌, ◌+◌, ◌-◌, ◌<◌, ◌==◌, ◌^◌, ◌∙◌, ◌∷◌, ◌≡◌,
}
use irida.Base.{Bytes, Result, ok, err, has_value, Result-cases}
use irida.Base.Action.{Action, pure, ◌>>=◌, ◌>>◌}
use irida.Backend.{Backend, StopReply}
use irida.Proto.Packets.StopReply as Wire
use irida.Target.RegisterSet
use irida.Target.MemoryCache
use irida.Target.MemoryCache.{
  Memory, page_of, slice, set_epoch, changed_since_last_epoch, changed_loop,
}
use irida.Target.MemoryCache.Read.{taken, round_ok, round_err}
use irida.Target.{
  GuestState, Target, on_backend, to_proto_stop_reply, fresh, next_epoch, refresh_state, attach,
  cont, step, read_memory, memory_changed, maps, modules, threads,
}

-- Decoding has no failing branch.
decode-ok :
    (block : Bytes) → (regs : RegisterSet.RegisterSet) × (RegisterSet.decode block ≡ ok regs)
unfolding RegisterSet.decode
decode-ok block = (_, refl)

module _ {B : Backend} where
  abbrev pub with_backend : Target B → B.State → Target B
  with_backend t s = record t { memory = record (t.memory) { backend = s } }

  -- How a call that resumes the guest ends: with the next epoch over some state of the backend, or
  -- with an error and nothing but the backend's state changed.
  pub data Outcome {ℓ} {A : Type ℓ} (t : Target B) (r : Result A × Target B) : Type ℓ where
    advanced :
        (a : A) (raw : Bytes) (regs : RegisterSet.RegisterSet) (s : B.State)
        → RegisterSet.decode raw ≡ ok regs
        → r ≡ (ok a, next_epoch B regs (with_backend t s))
        → Outcome t r
    failed : (e : Text) (s : B.State) → r ≡ (err e, with_backend t s) → Outcome t r

module _ (B : Backend) where
  refresh_state-Outcome : (t : Target B) → Outcome t (refresh_state B t)
  unfolding refresh_state
  refresh_state-Outcome t =
      let s = (B.read_registers t.memory.backend).1 in
      elim (Result-cases (B.read_registers t.memory.backend).0) [
        | inl (raw, e) ↦ let (regs, d) = decode-ok raw in advanced tt raw regs s d (rw (e, d))
        | inr (msg, e) ↦ failed msg s (rw e)
      ]

  -- What `cont` and `step` share: resume, refresh, translate.
  resume-Outcome :
      (go : Action B.State StopReply) (t : Target B)
      → Outcome t ((do stop ← on_backend B go; refresh_state B; pure (to_proto_stop_reply stop)) t)
  resume-Outcome go t =
      let s = (go t.memory.backend).1 in
      elim (Result-cases (go t.memory.backend).0) [
        | inr (msg, e) ↦ failed msg s (rw e)
        | inl (stop, e) ↦ elim (refresh_state-Outcome (with_backend t s)) [
          | advanced _ raw regs s' d r ↦
              advanced (to_proto_stop_reply stop) raw regs s' d (rw (e, r))
          | failed msg s' r ↦ failed msg s' (rw (e, r))
        ]
      ]

  -- On every branch `cont` ends with the next epoch, the registers decoded anew and the cached pages
  -- moved to the previous generation, or with an error that changed the backend's state alone.
  pub cont-Outcome : (t : Target B) → Outcome t (cont B t)
  unfolding cont
  cont-Outcome t = resume-Outcome B.cont t

  -- On every branch `step` ends with the next epoch, the registers decoded anew and the cached pages
  -- moved to the previous generation, or with an error that changed the backend's state alone.
  pub step-Outcome : (t : Target B) → Outcome t (step B t)
  unfolding step
  step-Outcome t = resume-Outcome B.step t

  -- What a call that resumes the guest did. Either the guest stopped and the backend gave its
  -- registers: the caller gets the stop, the epoch is the next one, the cache is empty in that epoch
  -- with its pages moved to the previous generation, and the guest state is that of the registers read
  -- after the stop. Or one of the two failed with the error that is returned, and nothing but the
  -- backend's state has changed.
  pub data Resumed (go : Action B.State StopReply) (t : Target B)
      : Result Wire.StopReply × Target B → Type 0 where
    resumed :
        (stop : StopReply) (stopped read : B.State) (raw : Bytes) (regs : RegisterSet.RegisterSet)
        → go t.memory.backend ≡ (ok stop, stopped)
        → B.read_registers stopped ≡ (ok raw, read)
        → RegisterSet.decode raw ≡ ok regs
        → Resumed go t (
          ok (to_proto_stop_reply stop),
          record {
            memory = record {
              cache = record {
                epoch = (t.epoch + 1) % 2 ^ 64;
                cur = [];
                prev = t.memory.cache.cur;
              };
              backend = read;
            };
            epoch = (t.epoch + 1) % 2 ^ 64;
            state = some (record { epoch = (t.epoch + 1) % 2 ^ 64; registers = regs });
          },
        )
    not_resumed :
        (e : Text) (s : B.State)
        → go t.memory.backend ≡ (err e, s)
        → Resumed go t (err e, with_backend t s)
    not_read :
        (stop : StopReply) (stopped s : B.State) (e : Text)
        → go t.memory.backend ≡ (ok stop, stopped)
        → B.read_registers stopped ≡ (err e, s)
        → Resumed go t (err e, with_backend t s)

  go-Resumed :
      (go : Action B.State StopReply) (t : Target B)
      → Resumed go t
          ((do stop ← on_backend B go; refresh_state B; pure (to_proto_stop_reply stop)) t)
  unfolding refresh_state next_epoch set_epoch
  go-Resumed go t =
      let s = (go t.memory.backend).1 in
      elim (Result-cases (go t.memory.backend).0) [
        | inr (msg, e) ↦ rw e (not_resumed msg s (ap (λ r. (r, s)) e))
        | inl (stop, e) ↦
            let s' = (B.read_registers s).1 in
            elim (Result-cases (B.read_registers s).0) [
              | inr (msg, f) ↦
                  rw (e, f) (not_read stop s s' msg (ap (λ r. (r, s)) e) (ap (λ r. (r, s')) f))
              | inl (raw, f) ↦
                  let (regs, d) = decode-ok raw in
                  rw (e, f, d)
                    (resumed stop s s' raw regs (ap (λ r. (r, s)) e) (ap (λ r. (r, s')) f) d)
            ]
      ]

  -- On every branch `cont` and `step` take in the backend's stop with the registers read after it, in
  -- the next epoch (modulo 2 ^ 64) and with the cached pages moved to the previous generation, or they
  -- return the error of the call that failed and change the backend's state alone.
  pub cont-Resumed : (t : Target B) → Resumed B.cont t (cont B t) × Resumed B.step t (step B t)
  unfolding cont step
  cont-Resumed t = (go-Resumed B.cont t, go-Resumed B.step t)

  -- A guest state is held, and it, the target and the cache are in one epoch.
  pub record IsLive (t : Target B) : Type 0 where
    pub guest : GuestState
    pub held : t.state ≡ some guest
    pub at_epoch : guest.epoch ≡ t.epoch
    pub cached : t.memory.cache.epoch ≡ t.epoch

  pub next_epoch-IsLive :
      (regs : RegisterSet.RegisterSet) (t : Target B) → IsLive (next_epoch B regs t)
  unfolding next_epoch set_epoch
  next_epoch-IsLive regs t = record {
    guest = record { epoch = (t.epoch + 1) % 2 ^ 64; registers = regs };
    held = refl;
    at_epoch = refl;
    cached = refl;
  }

  -- The operations of a client between two stops and across them.
  pub data Op : Type 0 where
    do_cont do_step : Op
    do_read : ℕ → ℕ → Op
    do_changed : ℕ → ℕ → ℕ → Op
    do_maps do_modules do_threads : Op

  pub perform : Op → Target B → Bool × Target B
  perform do_cont t = (has_value (cont B t).0, (cont B t).1)
  perform do_step t = (has_value (step B t).0, (step B t).1)
  perform (do_read addr len) t = (false, (read_memory B addr len t).1)
  perform (do_changed fuel addr len) t = (false, (memory_changed B fuel addr len t).1)
  perform do_maps t = (false, (maps B t).1)
  perform do_modules t = (false, (modules B t).1)
  perform do_threads t = (false, (threads B t).1)

  -- The stops that were taken in, and the target at the end.
  pub run : List Op → Target B → ℕ × Target B
  unfolding perform
  run [] t = (0, t)
  run (op ∷ ops) t =
      let (stopped, t') = perform op t in
      let (stops, u) = run ops t' in (if stopped then stops + 1 else stops, u)

  epoch-read_page :
      (page : ℕ) (m : Memory B) → (MemoryCache.read_page B page m).1.cache.epoch ≡ m.cache.epoch
  unfolding MemoryCache.read_page
  epoch-read_page page m = ground arith

  pub epoch-read_loop :
      (fuel here left : ℕ) (out : Bytes) (m : Memory B)
      → (MemoryCache.read_loop B fuel here left out m).1.cache.epoch ≡ m.cache.epoch
  epoch-read_loop zero here left out m = unfold MemoryCache.read_loop in refl
  epoch-read_loop (suc fuel) here zero out m = unfold MemoryCache.read_loop in refl
  epoch-read_loop (suc fuel) here (suc left) out m =
      let m' = (MemoryCache.read_page B (page_of here) m).1 in
      elim (Result-cases (MemoryCache.read_page B (page_of here) m).0) [
        | inl (page, e) ↦ rw (round_ok B fuel here left out m page m' (ap (λ r. (r, m')) e)) (
            epoch-read_loop fuel _ (suc left - taken here left)
              (out ++ slice page (here - page_of here) (taken here left)) m'
            ∙ epoch-read_page (page_of here) m)
        | inr (msg, e) ↦
            rw (round_err B fuel here left out m msg m' (ap (λ r. (r, m')) e))
              (epoch-read_page (page_of here) m)
      ]

  epoch-changed_loop :
      (fuel page last : ℕ) (m : Memory B)
      → (changed_loop B fuel page last m).1.cache.epoch ≡ m.cache.epoch
  unfolding changed_loop
  epoch-changed_loop zero page last m = refl
  epoch-changed_loop (suc fuel) page last m = ground (
    arith,
    epoch-read_page page m,
    epoch-changed_loop fuel ((page + MemoryCache.page_size) % 2 ^ 64) last
        (MemoryCache.read_page B page m).1,
  )

  epoch-changed :
      (fuel addr len : ℕ) (m : Memory B)
      → (changed_since_last_epoch B fuel addr len m).1.cache.epoch ≡ m.cache.epoch
  unfolding changed_since_last_epoch
  epoch-changed fuel addr len m = elim (Bool-cases (len == 0)) [
    | inl e ↦ rw e refl
    | inr e ↦ rw e (epoch-changed_loop fuel _ _ m)
  ]

  -- What a step of the client does to a live target.
  record Kept (t : Target B) (r : Bool × Target B) : Type 0 where
    live : IsLive r.1
    counted : r.1.epoch ≡ (if r.0 then (t.epoch + 1) % 2 ^ 64 else t.epoch)

  Outcome-Kept :
      {A : Type 0} (t : Target B) (r : Result A × Target B)
      → IsLive t
      → Outcome t r
      → Kept t (has_value r.0, r.1)
  unfolding next_epoch
  Outcome-Kept t r l (advanced a raw regs s d e) =
      rw e (record { live = next_epoch-IsLive regs (with_backend t s); counted = refl })
  Outcome-Kept t r l (failed msg s e) = rw e (record {
    live = record { guest = l.guest; held = l.held; at_epoch = l.at_epoch; cached = l.cached };
    counted = refl;
  })

  memory_only :
      (t : Target B) (n : Memory B)
      → IsLive t
      → n.cache.epoch ≡ t.memory.cache.epoch
      → Kept t (false, record t { memory = n })
  memory_only t n l e = record {
    live = record { guest = l.guest; held = l.held; at_epoch = l.at_epoch; cached = e ∙ l.cached };
    counted = refl;
  }

  backend_only : (t : Target B) (s : B.State) → IsLive t → Kept t (false, with_backend t s)
  backend_only t s l = record {
    live = record { guest = l.guest; held = l.held; at_epoch = l.at_epoch; cached = l.cached };
    counted = refl;
  }

  perform-Kept : (op : Op) (t : Target B) → IsLive t → Kept t (perform op t)
  unfolding perform
  perform-Kept do_cont t l = Outcome-Kept t (cont B t) l (cont-Outcome t)
  perform-Kept do_step t l = Outcome-Kept t (step B t) l (step-Outcome t)
  perform-Kept (do_read addr len) t l =
      unfold read_memory MemoryCache.read in
      memory_only t _ l (epoch-read_loop len addr len [] t.memory)
  perform-Kept (do_changed fuel addr len) t l =
      unfold memory_changed in memory_only t _ l (epoch-changed fuel addr len t.memory)
  perform-Kept do_maps t l = unfold maps in backend_only t _ l
  perform-Kept do_modules t l = unfold modules in backend_only t _ l
  perform-Kept do_threads t l = unfold threads in backend_only t _ l

  -- From a live target with an epoch below 2 ^ 64, whichever of its operations cont, step, read_memory,
  -- memory_changed, maps, modules and threads a client calls, in any order, and whatever fails, the
  -- target stays live, and its epoch has advanced by the number of calls of cont and step that
  -- succeeded (modulo 2 ^ 64).
  pub run-epoch :
      (ops : List Op) (t : Target B)
      → IsLive t
      → t.epoch < 2 ^ 64
      → IsLive (run ops t).1 × ((run ops t).1.epoch ≡ (t.epoch + (run ops t).0) % 2 ^ 64)
  unfolding run
  run-epoch [] t l h = (l, omega arith)
  run-epoch (op ∷ ops) t l h =
      let k = perform-Kept op t l in
      let (l', e) = run-epoch ops (perform op t).1 k.live (ground (arith, k.counted)) in
      (l', ground (arith, k.counted, e))

  -- After a successful attach the target is live, in epoch 1.
  pub attach-IsLive :
      (s : B.State) (t : Target B) → attach B s ≡ (ok tt, t) → IsLive t × (t.epoch ≡ 1)
  unfolding attach
  attach-IsLive s t e = elim (refresh_state-Outcome (fresh B s)) [
    | advanced _ raw regs s' d r ↦
        let same : next_epoch B regs (with_backend (fresh B s) s') ≡ t =
          ap (λ q. q.1) (sym r ∙ e) in
        rw (← same)
          (next_epoch-IsLive regs (with_backend (fresh B s) s'), unfold next_epoch fresh in refl)
    | failed msg s' r ↦ absurd (cc)
  ]
