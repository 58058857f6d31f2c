-- ===== src/Api/Static/Reads.antt =====
-- `read_at` of irida-api/src/capi_static.cpp: reads that overlap agree.
use irida.Common.{
  All, Bool-cases, List, [], arith, drop, drop-drop, drop-past, drop-take, false, inl, inr, leb,
  leb→le, length, length-drop, length-take, min, refl, sym, take, take-min_length, take-nil,
  take-take, true, ℕ, ◌%◌, ◌+◌, ◌-◌, ◌<◌, ◌^◌, ◌∷◌, ◌≡◌, ◌≤◌, ◌⊎◌,
}
use irida.Base.{Bytes}
use irida.Binfmt.Binary.{Section}
use irida.Api.Static.{StaticCtx, contains, read_section, read_sections, read_at}

-- A section lies below 2 ^ 64, in memory and in the file, and has no more file data than memory.
abbrev pub IsPlaced : Section → Type 0
IsPlaced sec =
    (sec.vaddr + sec.vsize < 2 ^ 64) × (sec.offset + sec.size < 2 ^ 64) × (sec.size ≤ sec.vsize)

-- No address lies in both.
abbrev pub Apart : Section → Section → Type 0
Apart s t = (s.vaddr + s.vsize ≤ t.vaddr) ⊎ (t.vaddr + t.vsize ≤ s.vaddr)

-- Every section is placed, and the sections lie apart.
abbrev pub IsLayout : List Section → Type 0
IsLayout [] = Unit {0}
IsLayout (sec ∷ secs) = IsPlaced sec × All (Apart sec) secs × IsLayout secs

contains-bounds :
    (sec : Section) (vaddr : ℕ)
    → IsPlaced sec
    → contains sec vaddr ≡ true
    → (sec.vaddr ≤ vaddr) × (vaddr < sec.vaddr + sec.vsize)
contains-bounds sec vaddr p h = ground arith

bounds-contains :
    (sec : Section) (vaddr : ℕ)
    → IsPlaced sec
    → sec.vaddr ≤ vaddr
    → vaddr < sec.vaddr + sec.vsize
    → contains sec vaddr ≡ true
bounds-contains sec vaddr p h k = ground arith

min-min : (n a b : ℕ) → min (min n a) b ≡ min (min n b) a
min-min n a b = omega arith

-- In a placed section the guards and the image's end are what `take` and `drop` do anyway.
read_section-take :
    (image : Bytes) (vaddr len : ℕ) (sec : Section)
    → IsPlaced sec
    → sec.vaddr ≤ vaddr
    → read_section image vaddr len sec
      ≡ take
          (min len (sec.size - (vaddr - sec.vaddr)))
          (drop (sec.offset + (vaddr - sec.vaddr)) image)
unfolding read_section
read_section-take image vaddr len sec p h = elim (Bool-cases (leb sec.size (vaddr - sec.vaddr))) [
  | inl e ↦
      let none_left : min len (sec.size - (vaddr - sec.vaddr)) ≡ 0 = ground arith in
      rw (e, none_left) refl
  | inr e ↦
      let off : (sec.offset + (vaddr - sec.vaddr)) % 2 ^ 64 ≡ sec.offset + (vaddr - sec.vaddr) =
        ground arith in
      let from : ℕ = sec.offset + (vaddr - sec.vaddr) in
      elim (Bool-cases (leb (length image) from)) [
        | inl past ↦
            let all_past : length image ≤ from = leb→le _ _ past in
            rw (e, off, past, drop-past from image all_past, take-nil) refl
        | inr inside ↦
            rw (e, off, inside, min-min, sym (length-drop from image))
              (take-min_length (min len (sec.size - (vaddr - sec.vaddr))) (drop from image))
      ]
]

read_section-drop :
    (image : Bytes) (vaddr k len : ℕ) (sec : Section)
    → IsPlaced sec
    → sec.vaddr ≤ vaddr
    → read_section image (vaddr + k) len sec ≡ drop k (read_section image vaddr (k + len) sec)
read_section-drop image vaddr k len sec p h =
    let within : ℕ = vaddr - sec.vaddr in
    let further : vaddr + k - sec.vaddr ≡ within + k = omega arith in
    let from : sec.offset + (within + k) ≡ sec.offset + within + k = omega arith in
    let left : min len (sec.size - (within + k)) ≡ min (k + len) (sec.size - within) - k =
      omega arith in
    rw
      (
        read_section-take image (vaddr + k) len sec p (omega arith),
        read_section-take image vaddr (k + len) sec p h,
        further,
        from,
        left,
        drop-take,
        drop-drop,
      )
      refl

read_section-room :
    (image : Bytes) (vaddr k len : ℕ) (sec : Section)
    → IsPlaced sec
    → contains sec vaddr ≡ true
    → k < length (read_section image vaddr len sec)
    → vaddr + k < sec.vaddr + sec.vsize
read_section-room image vaddr k len sec p c room =
    let (low, high) = contains-bounds sec vaddr p c in
    let e = read_section-take image vaddr len sec p low in
    let short =
      length-take (min len (sec.size - (vaddr - sec.vaddr)))
        (drop (sec.offset + (vaddr - sec.vaddr)) image) in
    let room' : k
        < length (
            take (min len (sec.size - (vaddr - sec.vaddr)))
              (drop (sec.offset + (vaddr - sec.vaddr)) image)) =
      rw e at room in
    omega (arith, short, room', p.2)

-- Another section does not hold an address as far as the read goes.
read_sections-elsewhere :
    (image : Bytes) (vaddr k len : ℕ) (other : Section) (secs : List Section)
    → IsPlaced other
    → All (Apart other) secs
    → IsLayout secs
    → k < length (read_sections image vaddr len secs)
    → contains other (vaddr + k) ≡ false
unfolding read_sections
read_sections-elsewhere image vaddr k len other [] p apart layout room = absurd (omega arith)
read_sections-elsewhere image vaddr k len other (sec ∷ secs) p apart layout room =
    elim (Bool-cases (contains sec vaddr)) [
      | inr out ↦
          read_sections-elsewhere image vaddr k len other secs p apart.1 layout.2 (rw out at room)
      | inl here ↦
          let (low, high) = contains-bounds sec vaddr layout.0 here in
          let far = read_section-room image vaddr k len sec layout.0 here (rw here at room) in
          elim apart.0 [ inl before ↦ ground arith | inr behind ↦ ground arith ]
    ]

read_sections-drop :
    (image : Bytes) (vaddr k len : ℕ) (secs : List Section)
    → IsLayout secs
    → k < length (read_sections image vaddr (k + len) secs)
    → read_sections image (vaddr + k) len secs ≡ drop k (read_sections image vaddr (k + len) secs)
unfolding read_sections
read_sections-drop image vaddr k len [] layout room = absurd (omega arith)
read_sections-drop image vaddr k len (sec ∷ secs) layout room =
    elim (Bool-cases (contains sec vaddr)) [
      | inr out ↦
          let room' = rw out at room in
          let out' =
            read_sections-elsewhere image vaddr k (k + len) sec secs layout.0 layout.1 layout.2
              room' in
          rw (out, out') (read_sections-drop image vaddr k len secs layout.2 room')
      | inl here ↦
          let (low, high) = contains-bounds sec vaddr layout.0 here in
          let far = read_section-room image vaddr k (k + len) sec layout.0 here (rw here at room) in
          let here' = bounds-contains sec (vaddr + k) layout.0 (omega arith) far in
          rw (here, here') (read_section-drop image vaddr k len sec layout.0 low)
    ]

-- If the sections lie apart, below 2 ^ 64 and with no more file data than memory, then a read from
-- the middle of what another read returned gives the same bytes, as many as that read had left.
pub read_at-drop :
    (vaddr k len : ℕ) (c : StaticCtx)
    → IsLayout c.bin.sections
    → k < length (read_at vaddr (k + len) c)
    → read_at (vaddr + k) len c ≡ drop k (read_at vaddr (k + len) c)
unfolding read_at
read_at-drop vaddr k len c layout room =
    read_sections-drop c.image vaddr k len c.bin.sections layout room

read_sections-take :
    (image : Bytes) (vaddr n m : ℕ) (secs : List Section)
    → IsLayout secs
    → n ≤ m
    → take n (read_sections image vaddr m secs) ≡ read_sections image vaddr n secs
unfolding read_sections
read_sections-take image vaddr n m [] layout h = take-nil n
read_sections-take image vaddr n m (sec ∷ secs) layout h = elim (Bool-cases (contains sec vaddr)) [
  | inr out ↦ rw out (read_sections-take image vaddr n m secs layout.2 h)
  | inl here ↦
      let (low, high) = contains-bounds sec vaddr layout.0 here in
      let left : min n (min m (sec.size - (vaddr - sec.vaddr)))
          ≡ min n (sec.size - (vaddr - sec.vaddr)) =
        omega arith in
      rw
        (
          here,
          read_section-take image vaddr m sec layout.0 low,
          read_section-take image vaddr n sec layout.0 low,
          take-take,
          left,
        )
        refl
]

-- A shorter read is the start of a longer one.
pub read_at-take :
    (vaddr n m : ℕ) (c : StaticCtx)
    → IsLayout c.bin.sections
    → n ≤ m
    → take n (read_at vaddr m c) ≡ read_at vaddr n c
unfolding read_at
read_at-take vaddr n m c layout h = read_sections-take c.image vaddr n m c.bin.sections layout h

read_sections-bounds :
    (image : Bytes) (vaddr k len : ℕ) (secs : List Section)
    → IsLayout secs
    → k < length (read_sections image vaddr len secs)
    → (vaddr + k < 2 ^ 64) × (length (read_sections image vaddr len secs) ≤ len)
unfolding read_sections
read_sections-bounds image vaddr k len [] layout room = absurd (omega arith)
read_sections-bounds image vaddr k len (sec ∷ secs) layout room =
    elim (Bool-cases (contains sec vaddr)) [
      | inr out ↦ rw out (read_sections-bounds image vaddr k len secs layout.2 (rw out at room))
      | inl here ↦
          let (low, high) = contains-bounds sec vaddr layout.0 here in
          let far = read_section-room image vaddr k len sec layout.0 here (rw here at room) in
          let short =
            length-take (min len (sec.size - (vaddr - sec.vaddr)))
              (drop (sec.offset + (vaddr - sec.vaddr)) image) in
          rw (here, read_section-take image vaddr len sec layout.0 low)
            (omega (arith, layout.0.0), omega (arith, short))
    ]

-- What is read lies below 2 ^ 64, and is no more than was asked for.
pub read_at-bounds :
    (vaddr k len : ℕ) (c : StaticCtx)
    → IsLayout c.bin.sections
    → k < length (read_at vaddr len c)
    → (vaddr + k < 2 ^ 64) × (length (read_at vaddr len c) ≤ len)
unfolding read_at
read_at-bounds vaddr k len c layout room =
    read_sections-bounds c.image vaddr k len c.bin.sections layout room
