-- ===== src/Binfmt/Complete.antt =====
-- irida-core/core/binfmt/src/strings.cpp: the runs of the ASCII pass against what is reported.
use irida.Common.{
  All, Bool-cases, List, Text, [], ap, append_assoc, arith, drop, false, inl, inr, leb, length,
  length-append, refl, suc, true, zero, ℕ, ◌%◌, ◌++◌, ◌+◌, ◌<◌, ◌^◌, ◌∷◌, ◌≡◌, ◌≤◌, ◌⊎◌,
}
use irida.Base.{Bytes}
use irida.Binfmt.{FoundString, is_printable, narrow_run, emit, ascii_pass, scan_strings}

-- A string is among the reported ones.
abbrev pub Has : FoundString → List FoundString → Type 0
Has found [] = ⊥
Has found (f ∷ out) = (f ≡ found) ⊎ Has found out

abbrev pub Printable : Text → Type 0
Printable text = All (λ c. is_printable c ≡ true) text

-- Bytes that are empty or end in one that is not printable, as runs with such a byte behind each.
pub data Gap : Bytes → Type 0 where
  start : Gap []
  segment :
      (run : Text) (c : ℕ) (more : Bytes)
      → Printable run
      → is_printable c ≡ false
      → Gap more
      → Gap (run ++ (c ∷ more))

-- Bytes that are empty or begin with one that is not printable.
abbrev pub Stops : Bytes → Type 0
Stops [] = Unit {0}
Stops (c ∷ post) = is_printable c ≡ false

narrow_run-append : (run post : Bytes) → Printable run → Stops post → narrow_run (run ++ post) ≡ run
unfolding narrow_run
narrow_run-append [] [] p s = refl
narrow_run-append [] (c ∷ post) p s = rw s refl
narrow_run-append (c ∷ run) post (e, p) s = rw e (ap (λ t. c ∷ t) (narrow_run-append run post p s))

drop-segment :
    (run : Text) (c : ℕ) (left : Bytes) → drop (length run + 1) (run ++ (c ∷ left)) ≡ left
drop-segment [] c left = refl
drop-segment (x ∷ run) c left =
    let e : suc (length run) + 1 ≡ suc (length run + 1) = omega arith in
    rw e (drop-segment run c left)

Has-emit :
    (min_len : ℕ) (found f : FoundString) (out : List FoundString)
    → Has found out
    → Has found (emit min_len f out)
Has-emit min_len found f out h = elim (Bool-cases (leb min_len (length f.text))) [
  | inl e ↦ rw e (inr h)
  | inr e ↦ rw e h
]

Has-emit_self :
    (min_len : ℕ) (found : FoundString) (out : List FoundString)
    → min_len ≤ length found.text
    → Has found (emit min_len found out)
Has-emit_self min_len found out h =
    let e : leb min_len (length found.text) ≡ true = ground arith in rw e (inl refl)

module _ (base_addr min_len : ℕ) where
  abbrev at_offset : ℕ → Text → FoundString
  at_offset i text = record { addr = (base_addr + i) % 2 ^ 64; text = text; utf16 = false }

  ascii_round :
      (fuel i : ℕ) (run : Text) (left : Bytes)
      → narrow_run left ≡ run
      → 0 < length left
      → ascii_pass (suc fuel) base_addr min_len i left
        ≡ emit min_len
            (at_offset i run)
            (ascii_pass fuel base_addr min_len (i + (length run + 1)) (drop (length run + 1) left))
  unfolding ascii_pass
  ascii_round fuel i run [] e h = absurd (omega arith)
  ascii_round fuel i run (c ∷ left) e h = rw e refl

  ascii_pass-Has :
      (fuel i : ℕ) (pre run post : Bytes)
      → length (pre ++ (run ++ post)) ≤ fuel
      → Gap pre
      → Printable run
      → Stops post
      → 0 < length run
      → min_len ≤ length run
      → Has
          (at_offset (i + length pre) run)
          (ascii_pass fuel base_addr min_len i (pre ++ (run ++ post)))
  ascii_pass-Has zero i pre run post f g p s l m =
      absurd (omega (arith, length-append pre (run ++ post), length-append run post))
  ascii_pass-Has (suc fuel) i _ run post f start p s l m =
      let e : i + 0 ≡ i = omega arith in
      rw
        (
          ascii_round fuel i run (run ++ post) (narrow_run-append run post p s)
              (omega (arith, length-append run post)),
          e,
        )
        (Has-emit_self min_len (at_offset i run) _ m)
  ascii_pass-Has (suc fuel) i _ run post f (segment r c more q n g) p s l m =
      let left = more ++ (run ++ post) in
      let same : (r ++ (c ∷ more)) ++ (run ++ post) ≡ r ++ (c ∷ left) =
        append_assoc r (c ∷ more) (run ++ post) in
      let size = length-append r (c ∷ left) in
      let room : length left ≤ fuel = omega (arith, size, rw same at f) in
      let at : i + length (r ++ (c ∷ more)) ≡ i + (length r + 1) + length more =
        omega (arith, length-append r (c ∷ more)) in
      rw
        (
          same,
          at,
          ascii_round fuel i r (r ++ (c ∷ left)) (narrow_run-append r (c ∷ left) q n)
              (omega (arith, size)),
          drop-segment r c left,
        )
        (Has-emit min_len _ (at_offset i r) _
          (ascii_pass-Has fuel (i + (length r + 1)) more run post room g p s l m))

Has-append : (found : FoundString) (xs ys : List FoundString) → Has found xs → Has found (xs ++ ys)
Has-append found [] ys h = absurd h
Has-append found (x ∷ xs) ys (inl e) = inl e
Has-append found (x ∷ xs) ys (inr h) = inr (Has-append found xs ys h)

-- A maximal run of printable bytes, with at least `min_len` of them and at least one, is reported as
-- an ASCII string at its address (modulo 2 ^ 64).
pub scan_strings-Has :
    (base_addr min_len : ℕ) (pre run post : Bytes)
    → Gap pre
    → Printable run
    → Stops post
    → 0 < length run
    → min_len ≤ length run
    → Has
        (record { addr = (base_addr + length pre) % 2 ^ 64; text = run; utf16 = false })
        (scan_strings (pre ++ (run ++ post)) base_addr min_len)
unfolding scan_strings
scan_strings-Has base_addr min_len pre run post g p s l m =
    let e : 0 + length pre ≡ length pre = omega arith in
    Has-append _ _ _ (
      rw e at (
        ascii_pass-Has base_addr min_len (length (pre ++ (run ++ post))) 0 pre run post
          (omega arith) g p s l m))
