-- ===== src/Windows/Handles.antt =====
-- The handles that irida-core/libs/host/src/native_debuggee.cpp opens, and closes again.
use irida.Common.{Option, Option-cases, Text, arith, codes, inl, inr, none, some, ℕ, ◌+◌, ◌-◌, ◌≡◌}
use irida.Base.Action.{Action, ◌>>=◌}
use irida.Windows.{
  Windows, ThreadContext, ThreadAccess, ContextFlags, get_context, get_and_set_context,
  full_and_debug_registers,
}
use irida.Windows.Debuggee.{Impl, call_for, call_closing, close, change_context, read_registers}

-- Which handles are open, and how many: opening a thread adds the handle it returns, closing an open
-- handle takes it away, and reading or writing a context leaves them.
pub record Counted (W : Windows) : Type 1 where
  pub handles : W.State → ℕ
  pub Open : W.State → ℕ → Type 0
  pub opened :
      (access : ThreadAccess) (tid handle : ℕ) (os : W.State)
      → (W.open_thread access tid os).0 ≡ some handle
      → (handles (W.open_thread access tid os).1 ≡ handles os + 1)
        × Open (W.open_thread access tid os).1 handle
  pub not_opened :
      (access : ThreadAccess) (tid : ℕ) (os : W.State)
      → (W.open_thread access tid os).0 ≡ none
      → handles (W.open_thread access tid os).1 ≡ handles os
  pub closed :
      (handle : ℕ) (os : W.State)
      → Open os handle
      → handles (W.close_handle handle os) ≡ handles os - 1
  pub got :
      (flags : ContextFlags) (handle : ℕ) (os : W.State)
      → (handles (W.get_thread_context flags handle os).1 ≡ handles os)
        × ((h : ℕ) → Open os h → Open (W.get_thread_context flags handle os).1 h)
  pub put :
      (flags : ContextFlags) (handle : ℕ) (ctx : ThreadContext) (os : W.State)
      → (handles (W.set_thread_context flags handle ctx os).1 ≡ handles os)
        × ((h : ℕ) → Open os h → Open (W.set_thread_context flags handle ctx os).1 h)

module _ (W : Windows) (K : Counted W) where
  -- What follows a call that closes the handle when it fails: one handle is open before, and none of
  -- them after.
  call_closing-closes :
      {A B : Type 0} (handle : ℕ) (what : Text) (f : W.State → Option A × W.State)
      (next : A → Action (Impl W) B) (d : Impl W) (n : ℕ)
      → (K.handles d.os ≡ n + 1) × K.Open d.os handle
      → (K.handles (f d.os).1 ≡ K.handles d.os) × ((h : ℕ) → K.Open d.os h → K.Open (f d.os).1 h)
      → ((a : A) (e : Impl W)
          → (K.handles e.os ≡ n + 1) × K.Open e.os handle
          → K.handles ((next a) e).1.os ≡ n)
      → K.handles ((call_closing W handle what f >>= next) d).1.os ≡ n
  unfolding call_closing
  call_closing-closes handle what f next d n (h, o) (same, kept) k =
      elim (Option-cases (f d.os).0) [
        | inl e ↦ rw (e, call_closing) (omega (arith, K.closed handle (f d.os).1 (kept handle o)))
        | inr (a, e) ↦
            rw (e, call_closing) (k a (record d { os = (f d.os).1 }) (omega arith, kept handle o))
      ]

  -- Opening a thread, and what follows.
  open-closes :
      {B : Type 0} (access : ThreadAccess) (tid : ℕ) (next : ℕ → Action (Impl W) B) (d : Impl W)
      → ((handle : ℕ) (e : Impl W)
          → (K.handles e.os ≡ K.handles d.os + 1) × K.Open e.os handle
          → K.handles ((next handle) e).1.os ≡ K.handles d.os)
      → K.handles ((call_for W (codes "OpenThread") (W.open_thread access tid) >>= next) d).1.os
        ≡ K.handles d.os
  unfolding call_for
  open-closes access tid next d k = elim (Option-cases (W.open_thread access tid d.os).0) [
    | inl e ↦ rw (e, call_for) (K.not_opened access tid d.os e)
    | inr (handle, e) ↦
        rw (e, call_for)
          (k handle (record d { os = (W.open_thread access tid d.os).1 })
            (K.opened access tid handle d.os e))
  ]

  change_context-closes :
      (flags : ContextFlags) (tid : ℕ) (change : ThreadContext → ThreadContext) (d : Impl W)
      → K.handles (change_context W flags tid change d).1.os ≡ K.handles d.os
  unfolding change_context close
  change_context-closes flags tid change d = open-closes get_and_set_context tid _ d λ handle e h.
      call_closing-closes handle _ _ _ e (K.handles d.os) h (K.got flags handle e.os) λ ctx e' h'.
        call_closing-closes handle _ _ _ e' (K.handles d.os) h'
          (K.put flags handle (change ctx) e'.os)
          λ done e'' h''. omega (arith, h''.0, K.closed handle e''.os h''.1)

  read_registers-closes :
      (tid : ℕ) (d : Impl W) → K.handles (read_registers W tid d).1.os ≡ K.handles d.os
  unfolding read_registers close
  read_registers-closes tid d = open-closes get_context tid _ d λ handle e h.
      call_closing-closes handle _ _ _ e (K.handles d.os) h
        (K.got full_and_debug_registers handle e.os)
        λ ctx e' h'. omega (arith, h'.0, K.closed handle e'.os h'.1)

  -- If opening a thread adds an open handle, closing an open handle takes one away, and the calls on
  -- contexts leave the handles: on every path, also where a call fails, a read of a thread's registers and a change of its context
  -- leave as many handles open as there were.
  pub contexts-close :
      (flags : ContextFlags) (tid : ℕ) (change : ThreadContext → ThreadContext) (d : Impl W)
      → (K.handles (change_context W flags tid change d).1.os ≡ K.handles d.os)
        × (K.handles (read_registers W tid d).1.os ≡ K.handles d.os)
  contexts-close flags tid change d =
      (change_context-closes flags tid change d, read_registers-closes tid d)
