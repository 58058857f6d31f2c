-- ===== src/Proto/Hex/RoundTrip.antt =====
-- irida-core/libs/protocol/src/hex.cpp: `hex_encode` against `hex_decode`.
use irida.Common.{
  ==_iff, All, Bool, Bool-cases, IsByte, Option, Option-cases, Text, [], all_below, all_below_sound,
  ap, arith, false, if◌then◌else◌, inl, inr, leb, length, length-map, ltb, map, none, refl, some,
  true, ℕ, ◌%◌, ◌&&◌, ◌*◌, ◌+◌, ◌/◌, ◌<◌, ◌==◌, ◌∷◌, ◌≡◌,
}
use irida.Base.{Bytes, Result, ok, err}
use irida.Proto.Hex.{
  hex_digit, hex_encode, hexval, join_digits, decode_pairs, push_byte, hex_decode,
}

abbrev is_value : ℕ → Option ℕ → Bool
is_value v none = false
is_value v (some x) = x == v

is_value_sound : (v : ℕ) (o : Option ℕ) → is_value v o ≡ true → o ≡ some v
is_value_sound v none h = cc
is_value_sound v (some x) h = ground arith

digit_table : all_below 16 (λ v. is_value v (hexval (hex_digit v))) ≡ true
unfolding all_below hexval hex_digit
digit_table = refl

pub hexval-hex_digit : (v : ℕ) → v < 16 → hexval (hex_digit v) ≡ some v
hexval-hex_digit v h =
    is_value_sound v _ (all_below_sound 16 (λ v. is_value v (hexval (hex_digit v))) v digit_table h)

pub join-hex_byte :
    (v : ℕ)
    → IsByte v
    → join_digits (hexval (hex_digit (v / 16 % 16))) (hexval (hex_digit (v % 16))) ≡ some v
join-hex_byte v h =
    rw (hexval-hex_digit (v / 16 % 16) (omega arith), hexval-hex_digit (v % 16) (omega arith))
      (ap some (omega arith))

decode_pairs-hex_encode :
    (bytes : Bytes) → All IsByte bytes → decode_pairs (hex_encode bytes) ≡ ok bytes
unfolding decode_pairs hex_encode
decode_pairs-hex_encode [] h = refl
decode_pairs-hex_encode (v ∷ bytes) h = rw (join-hex_byte v h.0, decode_pairs-hex_encode bytes h.1)

length-hex_encode : (bytes : Bytes) → length (hex_encode bytes) ≡ 2 * length bytes
unfolding hex_encode
length-hex_encode [] = refl
length-hex_encode (v ∷ bytes) = omega (arith, length-hex_encode bytes)

-- Every list of bytes survives encoding and decoding.
pub hex_decode-hex_encode :
    (bytes : Bytes) → All IsByte bytes → hex_decode (hex_encode bytes) ≡ ok bytes
unfolding hex_decode
hex_decode-hex_encode bytes h =
    rw (decode_pairs-hex_encode bytes h) (ground (arith, length-hex_encode bytes))

-- The other direction. `%x` and `digits` write lower case.
abbrev pub lower : ℕ → ℕ
lower c = if leb b'A' c && leb c b'F' then c + 32 else c

digit_code_table : all_below 16 (λ v. hex_digit v == (if ltb v 10 then v + 48 else v + 87)) ≡ true
unfolding all_below hex_digit
digit_code_table = refl

hex_digit_code : (v : ℕ) → v < 16 → hex_digit v ≡ (if ltb v 10 then v + 48 else v + 87)
hex_digit_code v h = (==_iff _ _).0 (all_below_sound 16 _ v digit_code_table h)

pub hexval-lt : (c : ℕ) {v : ℕ} → hexval c ≡ some v → v < 16
unfolding hexval
hexval-lt c h = ground arith

hex_digit-hexval : (c : ℕ) (v : ℕ) → hexval c ≡ some v → hex_digit v ≡ lower c
unfolding hexval
hex_digit-hexval c v h = ground (arith, hex_digit_code v)

join_digits_inv :
    (h l b : ℕ)
    → join_digits (hexval h) (hexval l) ≡ some b
    → IsByte b × (hex_digit (b / 16 % 16) ≡ lower h) × (hex_digit (b % 16) ≡ lower l)
join_digits_inv h l b e = elim (Option-cases (hexval h)) [
  | inl p ↦ cc (rw p at e)
  | inr (x, p) ↦ elim (Option-cases (hexval l)) [
    | inl q ↦ cc (rw (p, q) at e)
    | inr (y, q) ↦
        let s : x * 16 + y ≡ b = ground arith in
        let hx = hexval-lt h p in
        let hy = hexval-lt l q in
        let ex : b / 16 % 16 ≡ x = omega arith in
        let ey : b % 16 ≡ y = omega arith in
        (omega arith, rw ex (hex_digit-hexval h x p), rw ey (hex_digit-hexval l y q))
  ]
]

push_byte_inv :
    (o : Option ℕ) (r : Result Bytes) (bytes : Bytes)
    → push_byte o r ≡ ok bytes
    → (b : ℕ) × (rest : Bytes) × (o ≡ some b) × (r ≡ ok rest) × (bytes ≡ b ∷ rest)
push_byte_inv none r bytes h = cc
push_byte_inv (some b) (ok rest) bytes h = (b, rest, refl, refl, ground arith)
push_byte_inv (some b) (err e) bytes h = cc

decode_pairs_inv :
    (s : Text) (bytes : Bytes)
    → length s % 2 ≡ 0
    → decode_pairs s ≡ ok bytes
    → All IsByte bytes × (hex_encode bytes ≡ map lower s)
unfolding decode_pairs hex_encode
decode_pairs_inv [] [] e h = (tt, refl)
decode_pairs_inv [] (b ∷ bs) e h = cc
decode_pairs_inv (x ∷ []) bytes e h = absurd (omega arith)
decode_pairs_inv (h ∷ l ∷ s) bytes e d =
    let (b, rest, p, q, eq) =
      push_byte_inv (join_digits (hexval h) (hexval l)) (decode_pairs s) bytes d in
    let (isb, eh, el) = join_digits_inv h l b p in
    let (all, er) = decode_pairs_inv s rest (omega arith) q in rw eq ((isb, all), rw (eh, el, er))

-- Whatever `hex_decode` accepts has two characters for each byte, its result is made of bytes, and
-- encoding the result gives the text again in lower case.
pub hex_encode-hex_decode :
    (s : Text) (bytes : Bytes)
    → hex_decode s ≡ ok bytes
    → All IsByte bytes × (hex_encode bytes ≡ map lower s) × (length s ≡ 2 * length bytes)
unfolding hex_decode
hex_encode-hex_decode s bytes h = elim (Bool-cases (length s % 2 == 0)) [
  | inl e ↦
      let (all, eq) = decode_pairs_inv s bytes ((==_iff _ _).0 e) (ground arith) in
      (all, eq, omega (arith, ap length eq, length-hex_encode bytes, length-map s lower))
  | inr e ↦ absurd (ground arith)
]
