-- ===== src/Backend/Native/Slots.antt =====
-- `next_hw_slot_` of irida-core/core/backend/src/native_backend.cpp under any breakpoint calls.
use irida.Common.{
  Bool-cases, List, Option-cases, Text, [], arith, assign, codes, get_or, inl, inr, lookup, ltb,
  min, refl, some, suc, ℕ, ℤ, ◌+◌, ◌∙◌, ◌∷◌, ◌≡◌, ◌≤◌,
}
use irida.Base.{Result, Result-cases}
use irida.Base.Action.{Action, ◌>>=◌}
use irida.Backend.{BpKind, software_exec, hardware_exec, write_watch, read_watch, access_watch}
use irida.Backend.Native.Host.{Debuggee}
use irida.Backend.Native.{
  NativeBackend, software_bp_opcode, on_dbg, set_software, set_hardware, remove_software,
  remove_hardware, set_breakpoint, remove_breakpoint,
}

module _ (D : Debuggee) where
  -- A debuggee is attached, and `n` is the next slot.
  pub record At (n : ℕ) (b : NativeBackend D) : Type 0 where
    pub next : b.next_hw_slot ≡ n
    pub state : D.State
    pub held : b.dbg ≡ some state

  -- A call ends, with or without an error, in such a state.
  pub record Ends {ℓ} {A : Type ℓ} (n : ℕ) (r : Result A × NativeBackend D) : Type ℓ where
    pub at : At n r.1

  on_dbg-Ends :
      {A : Type 0} (n : ℕ) (what : Text) (m : Action D.State A) (b : NativeBackend D)
      → At n b
      → Ends n (on_dbg D what m b)
  on_dbg-Ends n what m b h = record {
    at = rw h.held (record { next = h.next; state = (m h.state).1; held = refl });
  }

  bind-Ends :
      {A B : Type 0} (n : ℕ) (what : Text) (m : Action D.State A)
      (f : A → Action (NativeBackend D) B) (b : NativeBackend D)
      → At n b
      → ((a : A) (c : NativeBackend D) → At n c → Ends n (f a c))
      → Ends n ((on_dbg D what m >>= f) b)
  bind-Ends n what m f b h k = elim (Result-cases (on_dbg D what m b).0) [
    | inl (a, e) ↦ rw e (k a (on_dbg D what m b).1 (on_dbg-Ends n what m b h).at)
    | inr (msg, e) ↦ rw e (record { at = (on_dbg-Ends n what m b h).at })
  ]

  set_software-Ends : (n addr : ℕ) (b : NativeBackend D) → At n b → Ends n (set_software D addr b)
  unfolding set_software
  set_software-Ends n addr b h =
      bind-Ends n (codes "set_breakpoint") (D.read_memory addr 1) _ b h λ original c k.
        on_dbg-Ends n (codes "set_breakpoint") (D.write_memory addr (software_bp_opcode ∷ []))
          (record c { sw_bp_orig = assign addr (get_or original 0 0) c.sw_bp_orig })
          (record { next = k.next; state = k.state; held = k.held })

  remove_software-Ends :
      (n addr : ℕ) (b : NativeBackend D) → At n b → Ends n (remove_software D addr b)
  unfolding remove_software
  remove_software-Ends n addr b h = elim (Option-cases (lookup addr b.sw_bp_orig)) [
    | inl e ↦ rw (e, remove_software) (record { at = h })
    | inr (original, e) ↦
        rw (e, remove_software)
          (bind-Ends n (codes "remove_breakpoint") (D.write_memory addr (original ∷ [])) _ b h
            λ _ c k. record { at = record { next = k.next; state = k.state; held = k.held } })
  ]

  remove_hardware-Ends :
      (n addr : ℕ) (b : NativeBackend D) → At n b → Ends n (remove_hardware D addr b)
  unfolding remove_hardware
  remove_hardware-Ends n addr b h = elim (Option-cases (lookup addr b.hw_bp_slot)) [
    | inl e ↦ rw (e, remove_hardware) (record { at = h })
    | inr (slot, e) ↦
        rw (e, remove_hardware)
          (bind-Ends n (codes "remove_breakpoint") (D.clear_hw_bp slot) _ b h
            λ _ c k. record { at = record { next = k.next; state = k.state; held = k.held } })
  ]

  set_hardware-Ends :
      (n addr : ℕ) (b : NativeBackend D)
      → n ≤ 4
      → At n b
      → Ends (min 4 (n + 1)) (set_hardware D addr b)
  unfolding set_hardware
  set_hardware-Ends n addr b l h = elim (Bool-cases (ltb 3 n)) [
    | inl e ↦
        let full : min 4 (n + 1) ≡ n = ground arith in
        rw (h.next, e, full)
          (record { at = record { next = refl; state = h.state; held = h.held } })
    | inr e ↦
        let free : min 4 (n + 1) ≡ n + 1 = ground arith in
        rw (h.next, e, free)
          (bind-Ends (n + 1) (codes "set_breakpoint") (D.set_hw_exec_bp n addr) _
            (record b { next_hw_slot = n + 1 })
            (record { next = refl; state = h.state; held = h.held })
            λ _ c k. record { at = record { next = k.next; state = k.state; held = k.held } })
  ]

  -- A call from the client, by kind.
  pub data Call : Type 0 where
    set_call remove_call : BpKind → ℕ → ℤ → Call

  pub perform : Call → NativeBackend D → Result (Unit {0}) × NativeBackend D
  perform (set_call kind addr size) b = set_breakpoint D kind addr size b
  perform (remove_call kind addr size) b = remove_breakpoint D kind addr size b

  pub run : List Call → NativeBackend D → NativeBackend D
  unfolding perform
  run [] b = b
  run (call ∷ calls) b = run calls (perform call b).1

  -- How many calls set a hardware breakpoint.
  pub hardware_sets : List Call → ℕ
  hardware_sets [] = 0
  hardware_sets (set_call hardware_exec addr size ∷ calls) = suc (hardware_sets calls)
  hardware_sets (_ ∷ calls) = hardware_sets calls

  next_slot : ℕ → Call → ℕ
  next_slot n (set_call hardware_exec addr size) = min 4 (n + 1)
  next_slot n _ = n

  same_backend : (n : ℕ) (b : NativeBackend D) (h : At n b) → At n (record b { dbg = some h.state })
  same_backend n b h = record { next = h.next; state = h.state; held = refl }

  perform-Ends :
      (n : ℕ) (call : Call) (b : NativeBackend D)
      → n ≤ 4
      → At n b
      → Ends (next_slot n call) (perform call b)
  unfolding perform set_breakpoint remove_breakpoint next_slot
  perform-Ends n (set_call software_exec addr size) b l h =
      rw h.held (set_software-Ends n addr _ (same_backend n b h))
  perform-Ends n (set_call hardware_exec addr size) b l h =
      rw h.held (set_hardware-Ends n addr _ l (same_backend n b h))
  perform-Ends n (set_call write_watch addr size) b l h =
      rw h.held (record { at = same_backend n b h })
  perform-Ends n (set_call read_watch addr size) b l h =
      rw h.held (record { at = same_backend n b h })
  perform-Ends n (set_call access_watch addr size) b l h =
      rw h.held (record { at = same_backend n b h })
  perform-Ends n (remove_call software_exec addr size) b l h =
      rw h.held (remove_software-Ends n addr _ (same_backend n b h))
  perform-Ends n (remove_call hardware_exec addr size) b l h =
      rw h.held (remove_hardware-Ends n addr _ (same_backend n b h))
  perform-Ends n (remove_call write_watch addr size) b l h =
      rw h.held (record { at = same_backend n b h })
  perform-Ends n (remove_call read_watch addr size) b l h =
      rw h.held (record { at = same_backend n b h })
  perform-Ends n (remove_call access_watch addr size) b l h =
      rw h.held (record { at = same_backend n b h })

  count_step :
      (n : ℕ) (call : Call) (calls : List Call)
      → n ≤ 4
      → (next_slot n call ≤ 4)
        × (min 4 (next_slot n call + hardware_sets calls)
            ≡ min 4 (n + hardware_sets (call ∷ calls)))
  unfolding next_slot hardware_sets
  count_step n (set_call software_exec addr size) calls l = (l, refl)
  count_step n (set_call hardware_exec addr size) calls l = (omega arith, omega arith)
  count_step n (set_call write_watch addr size) calls l = (l, refl)
  count_step n (set_call read_watch addr size) calls l = (l, refl)
  count_step n (set_call access_watch addr size) calls l = (l, refl)
  count_step n (remove_call kind addr size) calls l = (l, refl)

  -- Over any breakpoint calls on an attached backend, whether they succeed or fail, the next hardware
  -- slot is what it was plus the number of hardware breakpoints that were asked for, up to 4: no
  -- removal gives a slot back.
  pub run-next_hw_slot :
      (n : ℕ) (calls : List Call) (b : NativeBackend D)
      → n ≤ 4
      → At n b
      → (run calls b).next_hw_slot ≡ min 4 (n + hardware_sets calls)
  run-next_hw_slot n [] b l h = unfold run hardware_sets in h.next ∙ omega arith
  run-next_hw_slot n (call ∷ calls) b l h =
      let (l', e) = count_step n call calls l in
      next (
        run-next_hw_slot (next_slot n call) calls (perform call b).1 l'
          (perform-Ends n call b l h).at
        ∙ e)
    where
      next :
          (run calls (perform call b).1).next_hw_slot ≡ min 4 (n + hardware_sets (call ∷ calls))
          → (run (call ∷ calls) b).next_hw_slot ≡ min 4 (n + hardware_sets (call ∷ calls))
      next e = unfold run in e
