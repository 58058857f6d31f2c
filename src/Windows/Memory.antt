-- ===== src/Windows/Memory.antt =====
-- irida-core/libs/host/src/native_debuggee.cpp as the memory of bytes that the native backend's
-- breakpoints rest on.
use irida.Common.{
  ==_iff, Bool-cases, Option-cases, [], ap, if◌then◌else◌, inl, inr, refl, some, true, ℕ, ◌==◌, ◌∙◌,
  ◌∷◌, ◌≡◌,
}
use irida.Base.{ok}
use irida.Backend.Native.Breakpoints.{ByteMemory}
use irida.Windows.{Windows}
use irida.Windows.Debuggee.{Impl, call_for, require_attached, read_memory, write_memory}
use irida.Windows.Queries.{native_debuggee}

-- A process's memory: where it is accessible through the process's handle, reading and writing a byte
-- succeeds and flushing the instruction cache does too. A write that is reported whole changes that
-- byte alone, and a flush changes nothing.
pub record ProcessMemory (W : Windows) : Type 1 where
  pub peek : W.State → ℕ → ℕ → ℕ
  pub Accessible : W.State → ℕ → ℕ → Type 0
  pub reads :
      (os : W.State) (process addr : ℕ)
      → Accessible os process addr
      → ((W.read_process_memory process addr 1 os).0 ≡ some (peek os process addr ∷ []))
        × Accessible (W.read_process_memory process addr 1 os).1 process addr
        × ((x : ℕ) → peek (W.read_process_memory process addr 1 os).1 process x ≡ peek os process x)
  pub writes :
      (os : W.State) (process addr v : ℕ)
      → Accessible os process addr
      → ((W.write_process_memory process addr (v ∷ []) os).0 ≡ some 1)
        × Accessible (W.write_process_memory process addr (v ∷ []) os).1 process addr
  pub written :
      (os : W.State) (process addr v : ℕ)
      → (W.write_process_memory process addr (v ∷ []) os).0 ≡ some 1
      → (x : ℕ)
      → peek (W.write_process_memory process addr (v ∷ []) os).1 process x
        ≡ (if addr == x then v else peek os process x)
  pub flushes :
      (os : W.State) (process addr : ℕ)
      → Accessible os process addr
      → ((W.flush_instruction_cache process addr 1 os).0 ≡ true)
        × Accessible (W.flush_instruction_cache process addr 1 os).1 process addr
  pub flushed :
      (os : W.State) (process addr x : ℕ)
      → peek (W.flush_instruction_cache process addr 1 os).1 process x ≡ peek os process x

module _ (W : Windows) (P : ProcessMemory W) where
  unfoldable pub Reach : Impl W → ℕ → Type 0
  Reach d addr = (d.attached ≡ true) × P.Accessible d.os d.process addr

  abbrev peek_at : Impl W → ℕ → ℕ
  peek_at d x = P.peek d.os d.process x

  pub read-one :
      (d : Impl W) (addr : ℕ)
      → Reach d addr
      → ((read_memory W addr 1 d).0 ≡ ok (peek_at d addr ∷ []))
        × Reach (read_memory W addr 1 d).1 addr
        × ((x : ℕ) → peek_at (read_memory W addr 1 d).1 x ≡ peek_at d x)
  unfolding Reach read_memory require_attached call_for
  read-one d addr (on, acc) =
      let (e, acc', same) = P.reads d.os d.process addr acc in
      rw (on, e, read_memory, require_attached, call_for) (refl, (refl, acc'), same)

  pub write-one :
      (d : Impl W) (addr v : ℕ)
      → Reach d addr
      → ((write_memory W addr (v ∷ []) d).0 ≡ ok tt) × Reach (write_memory W addr (v ∷ []) d).1 addr
  unfolding Reach write_memory require_attached call_for
  write-one d addr v (on, acc) =
      let (e, acc') = P.writes d.os d.process addr v acc in
      let (f, acc'') = P.flushes _ d.process addr acc' in
      rw (on, e, f, write_memory, require_attached, call_for) (refl, (refl, acc''))

  pub write-changes :
      (d : Impl W) (addr v : ℕ)
      → (write_memory W addr (v ∷ []) d).0 ≡ ok tt
      → (x : ℕ)
      → peek_at (write_memory W addr (v ∷ []) d).1 x ≡ (if addr == x then v else peek_at d x)
  unfolding write_memory require_attached call_for
  write-changes d addr v h x =
      let os' : W.State = (W.write_process_memory d.process addr (v ∷ []) d.os).1 in
      elim (Bool-cases d.attached) [
        | inr e ↦ absurd (cc (rw (e, write_memory, require_attached) at h))
        | inl e ↦ elim (Option-cases (W.write_process_memory d.process addr (v ∷ []) d.os).0) [
          | inl w ↦ absurd (cc (rw (e, w, write_memory, require_attached, call_for) at h))
          | inr (n, w) ↦ elim (Bool-cases (n == 1)) [
            | inr p ↦ absurd (cc (rw (e, w, p, write_memory, require_attached, call_for) at h))
            | inl p ↦
                let whole : (W.write_process_memory d.process addr (v ∷ []) d.os).0 ≡ some 1 =
                  w ∙ ap some ((==_iff n 1).0 p) in
                elim (Bool-cases (W.flush_instruction_cache d.process addr 1 os').0) [
                  | inr f ↦
                      absurd (cc (rw (e, whole, f, write_memory, require_attached, call_for) at h))
                  | inl f ↦
                      rw (e, whole, f, write_memory, require_attached, call_for)
                        (P.flushed os' d.process addr x ∙ P.written d.os d.process addr v whole x)
                ]
          ]
        ]
      ]

  -- Where the memory of the process is accessible, the facade is a memory of bytes.
  unfoldable pub native_debuggee-ByteMemory : (os : W.State) → ByteMemory (native_debuggee W os)
  unfolding native_debuggee
  native_debuggee-ByteMemory os = record {
    peek = peek_at;
    Accessible = Reach;
    reads = read-one;
    writes = write-one;
    written = write-changes;
  }
