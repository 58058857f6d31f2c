-- ===== src/Proto/Packets/Numbers.antt =====
-- irida-core/libs/protocol/src/packets.cpp: `hexnum` prints with "%llx", `std::to_string` in
-- decimal.
use irida.Common.{
  All, All-append, Bool-cases, Option, Option-cases, Text, [], ap, arith, if◌then◌else◌, inl, inr,
  ltb, ltb→lt, negsuc, none, pos, some, suc, zero, ℕ, ℤ, ◌%◌, ◌*◌, ◌++◌, ◌+◌, ◌/◌, ◌<◌, ◌^◌, ◌∙◌,
  ◌∷◌, ◌≡◌, ◌≢◌,
}
use irida.Proto.Hex.{hex_digit, hexval}
use irida.Proto.Hex.RoundTrip.{hexval-hex_digit}

-- The digits of `v`, last digit first found; 16 digits are enough for a `uint64_t`.
hex_digits : ℕ → ℕ → Text
hex_digits zero v = []
hex_digits (suc fuel) v =
    let front = hex_digits fuel (v / 16) in
    if ltb v 16 then hex_digit v ∷ [] else front ++ (hex_digit (v % 16) ∷ [])

unfoldable pub hexnum : ℕ → Text
unfolding hex_digits
hexnum v = hex_digits 16 v

-- What a reader of the digits makes of them, most significant first.
unfoldable pub read_hex : ℕ → Text → Option ℕ
read_hex acc [] = some acc
read_hex acc (c ∷ s) = elim (hexval c) [ none ↦ none | some d ↦ read_hex (acc * 16 + d) s ]

read_hex-append_digit :
    (s : Text) (acc v d : ℕ)
    → d < 16
    → read_hex acc s ≡ some v
    → read_hex acc (s ++ (hex_digit d ∷ [])) ≡ some (v * 16 + d)
unfolding read_hex
read_hex-append_digit [] acc v d h e = rw (hexval-hex_digit d h, read_hex) (ground arith)
read_hex-append_digit (c ∷ s) acc v d h e = elim (Option-cases (hexval c)) [
  | inl p ↦ ground arith
  | inr (x, p) ↦ rw (p, read_hex) (read_hex-append_digit s (acc * 16 + x) v d h (ground arith))
]

-- 16 to the power of the fuel.
abbrev room : ℕ → ℕ
room zero = 1
room (suc fuel) = 16 * room fuel

digit_of : (v : ℕ) → v < 16 → read_hex 0 (hex_digit v ∷ []) ≡ some v
unfolding read_hex
digit_of v h = rw (hexval-hex_digit v h, read_hex) (ground arith)

read_hex-hex_digits : (fuel v : ℕ) → v < room fuel → read_hex 0 (hex_digits fuel v) ≡ some v
unfolding hex_digits
read_hex-hex_digits zero v h = unfold read_hex in ground arith
read_hex-hex_digits (suc fuel) v h = elim (Bool-cases (ltb v 16)) [
  | inl e ↦ rw e (digit_of v (ltb→lt v 16 e))
  | inr e ↦
      let front = read_hex-hex_digits fuel (v / 16) (omega arith) in
      let last =
        read_hex-append_digit (hex_digits fuel (v / 16)) 0 (v / 16) (v % 16) (omega arith) front in
      rw e (last ∙ ap some (omega arith))
]

-- A printed `uint64_t` reads back.
pub read_hex-hexnum : (v : ℕ) → v < 2 ^ 64 → read_hex 0 (hexnum v) ≡ some v
unfolding hexnum
read_hex-hexnum v h = read_hex-hex_digits 16 v h

-- No digit is a separator: `c` stands for none of the sixteen.
hex_digits-ne :
    (c : ℕ)
    → ((d : ℕ) → d < 16 → hex_digit d ≢ c)
    → (fuel v : ℕ) → All (λ x. x ≢ c) (hex_digits fuel v)
unfolding hex_digits
hex_digits-ne c ne zero v = tt
hex_digits-ne c ne (suc fuel) v = elim (Bool-cases (ltb v 16)) [
  | inl e ↦ rw e (ne v (ltb→lt v 16 e), tt)
  | inr e ↦ rw e (
      All-append (λ x. x ≢ c) (hex_digits fuel (v / 16)) _ (hex_digits-ne c ne fuel (v / 16))
        (ne (v % 16) (omega arith), tt))
]

pub hex_digit-ne : (c d : ℕ) → hexval c ≡ none → d < 16 → hex_digit d ≢ c
hex_digit-ne c d n h e = cc (hexval-hex_digit d h)

pub hexnum-ne : (c v : ℕ) → hexval c ≡ none → All (λ x. x ≢ c) (hexnum v)
unfolding hexnum
hexnum-ne c v n = hex_digits-ne c (λ d h. hex_digit-ne c d n h) 16 v

-- The decimal digits of an `int` magnitude; 10 digits are enough below 2 ^ 32.
dec_digits : ℕ → ℕ → Text
dec_digits zero v = []
dec_digits (suc fuel) v =
    let front = dec_digits fuel (v / 10) in
    if ltb v 10 then (b'0' + v) ∷ [] else front ++ ((b'0' + v % 10) ∷ [])

-- `std::to_string(int)`
unfoldable pub to_string : ℤ → Text
unfolding dec_digits
to_string (pos n) = dec_digits 10 n
to_string (negsuc n) = b'-' ∷ dec_digits 10 (n + 1)
