-- ===== src/Proto/Hex.antt =====
-- irida-core/libs/protocol/src/hex.cpp: bytes as pairs of hexadecimal digits.
-- `hexval` returns an `int` whose only negative value is -1; here that value is `none`. frame.cpp
-- and packets.cpp hold identical copies of it.
pub mod RoundTrip
use irida.Common.{
  Option, Text, [], codes, get_or, if◌then◌else◌, leb, length, none, some, ℕ, ◌%◌, ◌&&◌, ◌*◌, ◌+◌,
  ◌-◌, ◌/◌, ◌==◌, ◌∷◌,
}
use irida.Base.{Bytes, Result, ok, err}

abbrev digits : Text
digits = codes "0123456789abcdef"

unfoldable pub hex_digit : ℕ → ℕ
hex_digit v = get_or digits v 0

-- `digits[(v >> 4) & 0xf]` and `digits[v & 0xf]`
unfoldable pub hex_byte : ℕ → Text
unfolding hex_digit
hex_byte v = hex_digit (v / 16 % 16) ∷ hex_digit (v % 16) ∷ []

unfoldable pub hex_encode : Bytes → Text
unfolding hex_byte
hex_encode [] = []
hex_encode (v ∷ bytes) = hex_digit (v / 16 % 16) ∷ hex_digit (v % 16) ∷ hex_encode bytes

unfoldable pub hexval : ℕ → Option ℕ
hexval c =
    if leb b'0' c && leb c b'9'
    then some (c - b'0')
    else if leb b'a' c && leb c b'f'
    then some (c - b'a' + 10)
    else if leb b'A' c && leb c b'F'
    then some (c - b'A' + 10)
    else none

-- `(hi << 4) | lo` with both digits below 16, where `|` is `+`; `none` stands for a negative digit.
abbrev pub join_digits : Option ℕ → Option ℕ → Option ℕ
join_digits none lo = none
join_digits (some hi) none = none
join_digits (some hi) (some lo) = some (hi * 16 + lo)

abbrev pub push_byte : Option ℕ → Result Bytes → Result Bytes
push_byte none rest = err (codes "hex_decode: invalid digit")
push_byte (some b) (ok out) = ok (b ∷ out)
push_byte (some b) (err e) = err e

-- The loop, two characters a round. A single last character is not met: the length is even.
pub decode_pairs : Text → Result Bytes
unfolding hexval
decode_pairs [] = ok []
decode_pairs (h ∷ []) = ok []
decode_pairs (h ∷ l ∷ hex) = push_byte (join_digits (hexval h) (hexval l)) (decode_pairs hex)

unfoldable pub hex_decode : Text → Result Bytes
unfolding decode_pairs
hex_decode hex =
    if length hex % 2 == 0 then decode_pairs hex else err (codes "hex_decode: odd length")
