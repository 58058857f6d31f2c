-- ===== src/Binfmt/Runs.antt =====
-- irida-core/core/binfmt/src/strings.cpp: the reported strings against the buffer.
use irida.Common.{
  All, All-append, Bool, Bool-cases, List, Text, [], ap, arith, drop, drop-drop, false, inl, inr,
  leb, length, refl, suc, true, zero, ℕ, ◌%◌, ◌&&◌, ◌++◌, ◌+◌, ◌==◌, ◌^◌, ◌∷◌, ◌≡◌, ◌≤◌,
}
use irida.Base.{Bytes}
use irida.Binfmt.{
  FoundString, is_printable, narrow_run, wide_run, emit, ascii_pass, stride, utf16_pass,
  scan_strings,
}

-- A text as the bytes of its encoding.
abbrev pub widen : Text → Bytes
widen [] = []
widen (c ∷ text) = c ∷ 0 ∷ widen text

abbrev pub encoded : Bool → Text → Bytes
encoded false text = text
encoded true text = widen text

-- A string is long enough, is printable, and stands in the buffer at the offset of its address.
pub record IsFound (data' : Bytes) (base_addr min_len : ℕ) (found : FoundString) : Type 0 where
  pub offset : ℕ
  pub at : found.addr ≡ (base_addr + offset) % 2 ^ 64
  pub long : min_len ≤ length found.text
  pub printable : All (λ c. is_printable c ≡ true) found.text
  pub rest : Bytes
  pub stands : drop offset data' ≡ encoded found.utf16 found.text ++ rest

record IsRun (wide : Bool) (run : Text) (data' : Bytes) : Type 0 where
  printable : All (λ c. is_printable c ≡ true) run
  rest : Bytes
  stands : data' ≡ encoded wide run ++ rest

narrow_run-IsRun : (data' : Bytes) → IsRun false (narrow_run data') data'
unfolding narrow_run
narrow_run-IsRun [] = record { printable = tt; rest = []; stands = refl }
narrow_run-IsRun (c ∷ data') = elim (Bool-cases (is_printable c)) [
  | inl e ↦
      let r = narrow_run-IsRun data' in
      rw e
        (record { printable = (e, r.printable); rest = r.rest; stands = ap (λ t. c ∷ t) r.stands })
  | inr e ↦ rw e (record { printable = tt; rest = c ∷ data'; stands = refl })
]

wide_run-IsRun : (data' : Bytes) → IsRun true (wide_run data') data'
unfolding wide_run
wide_run-IsRun [] = record { printable = tt; rest = []; stands = refl }
wide_run-IsRun (lo ∷ []) = record { printable = tt; rest = lo ∷ []; stands = refl }
wide_run-IsRun (lo ∷ hi ∷ data') = elim (Bool-cases (hi == 0 && is_printable lo)) [
  | inl e ↦
      let r = wide_run-IsRun data' in
      let p : is_printable lo ≡ true = ground arith in
      let z : hi ≡ 0 = ground arith in
      rw e (record {
        printable = (p, r.printable);
        rest = r.rest;
        stands = rw z (ap (λ t. lo ∷ 0 ∷ t) r.stands);
      })
  | inr e ↦ rw e (record { printable = tt; rest = lo ∷ hi ∷ data'; stands = refl })
]

module _ (data' : Bytes) (base_addr min_len : ℕ) where
  emit-IsFound :
      (wide : Bool) (i : ℕ) (run : Text) (out : List FoundString)
      → IsRun wide run (drop i data')
      → All (IsFound data' base_addr min_len) out
      → All
          (IsFound data' base_addr min_len)
          (emit min_len (record { addr = (base_addr + i) % 2 ^ 64; text = run; utf16 = wide }) out)
  emit-IsFound wide i run out r h = elim (Bool-cases (leb min_len (length run))) [
    | inr e ↦ rw e h
    | inl e ↦ rw e (
      record {
        offset = i;
        at = refl;
        long = ground arith;
        printable = r.printable;
        rest = r.rest;
        stands = r.stands;
      },
      h,
    )
  ]

  ascii_pass-IsFound :
      (fuel i : ℕ) (left : Bytes)
      → drop i data' ≡ left
      → All (IsFound data' base_addr min_len) (ascii_pass fuel base_addr min_len i left)
  unfolding ascii_pass
  ascii_pass-IsFound zero i left e = tt
  ascii_pass-IsFound (suc fuel) i [] e = tt
  ascii_pass-IsFound (suc fuel) i (c ∷ left) e =
      let run = narrow_run (c ∷ left) in
      emit-IsFound false i run _ (rw e (narrow_run-IsRun (c ∷ left))) (
        ascii_pass-IsFound fuel (i + (length run + 1)) (drop (length run + 1) (c ∷ left))
          (rw (← drop-drop i (length run + 1) data', e) refl))

  utf16_pass-IsFound :
      (fuel i : ℕ) (left : Bytes)
      → drop i data' ≡ left
      → All (IsFound data' base_addr min_len) (utf16_pass fuel base_addr min_len i left)
  unfolding utf16_pass
  utf16_pass-IsFound zero i left e = tt
  utf16_pass-IsFound (suc fuel) i [] e = tt
  utf16_pass-IsFound (suc fuel) i (c ∷ []) e = tt
  utf16_pass-IsFound (suc fuel) i (lo ∷ hi ∷ left) e =
      let run = wide_run (lo ∷ hi ∷ left) in
      emit-IsFound true i run _ (rw e (wide_run-IsRun (lo ∷ hi ∷ left))) (
        utf16_pass-IsFound fuel (i + stride run) (drop (stride run) (lo ∷ hi ∷ left))
          (rw (← drop-drop i (stride run) data', e) refl))

  -- Every string that `scan_strings` reports has at least `min_len` characters, all of them
  -- printable, and the buffer has its bytes, in its encoding, at the offset of its address.
  pub scan_strings-IsFound :
      All (IsFound data' base_addr min_len) (scan_strings data' base_addr min_len)
  unfolding scan_strings
  scan_strings-IsFound =
      All-append (IsFound data' base_addr min_len) _ _
        (ascii_pass-IsFound (length data') 0 data' refl)
        (utf16_pass-IsFound (length data') 0 data' refl)
