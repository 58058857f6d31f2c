-- ===== src/Api/Views/Digits.antt =====
-- `format_bytes` of irida-api/src against `hex_encode` of the protocol.
use irida.Common.{
  ==_iff, Text, [], all_below, all_below_sound, arith, false, get_or, if◌then◌else◌, length, map,
  not, refl, true, ℕ, ◌%◌, ◌*◌, ◌++◌, ◌-◌, ◌/◌, ◌<◌, ◌==◌, ◌∷◌, ◌≡◌,
}
use irida.Base.{Bytes}
use irida.Proto.Hex.{hex_digit, hex_byte, hex_encode}
use irida.Proto.Hex.RoundTrip.{lower}
use irida.Api.Views.{digits, upper_byte, format_rest, format_bytes}

unfoldable pub spaceless : Text → Text
spaceless [] = []
spaceless (c ∷ text) = let more = spaceless text in if c == b' ' then more else c ∷ more

lower_table : all_below 16 (λ v. lower (get_or digits v 0) == hex_digit v) ≡ true
unfolding all_below hex_digit
lower_table = refl

lower-digit : (v : ℕ) → v < 16 → lower (get_or digits v 0) ≡ hex_digit v
lower-digit v h = (==_iff _ _).0 (all_below_sound 16 _ v lower_table h)

space_table : all_below 16 (λ v. not (get_or digits v 0 == b' ')) ≡ true
unfolding all_below
space_table = refl

digit_no_space : (v : ℕ) → v < 16 → (get_or digits v 0 == b' ') ≡ false
digit_no_space v h = let e = all_below_sound 16 _ v space_table h in ground arith

one_more_byte :
    (v : ℕ) (text written : Text)
    → map lower (spaceless text) ≡ written
    → map lower (spaceless (upper_byte v ++ text)) ≡ hex_byte v ++ written
unfolding spaceless hex_byte
one_more_byte v text written h =
    rw
      (
        digit_no_space (v / 16 % 16) (omega arith),
        digit_no_space (v % 16) (omega arith),
        lower-digit (v / 16 % 16) (omega arith),
        lower-digit (v % 16) (omega arith),
        h,
      )
      refl

spaceless-format_rest :
    (bytes : Bytes) → map lower (spaceless (format_rest bytes)) ≡ hex_encode bytes
unfolding format_rest hex_encode hex_byte spaceless
spaceless-format_rest [] = refl
spaceless-format_rest (v ∷ bytes) =
    one_more_byte v (format_rest bytes) (hex_encode bytes) (spaceless-format_rest bytes)

length-format_rest : (bytes : Bytes) → length (format_rest bytes) ≡ 3 * length bytes
unfolding format_rest
length-format_rest [] = refl
length-format_rest (v ∷ bytes) = omega (arith, length-format_rest bytes)

-- Without its spaces, and with its letters in lower case, what `format_bytes` writes is what
-- `hex_encode` writes; and it is one character shorter than three for each byte.
pub format_bytes-hex_encode :
    (bytes : Bytes)
    → (map lower (spaceless (format_bytes bytes)) ≡ hex_encode bytes)
      × (length (format_bytes bytes) ≡ 3 * length bytes - 1)
unfolding format_bytes hex_encode hex_byte spaceless
format_bytes-hex_encode [] = (refl, refl)
format_bytes-hex_encode (v ∷ bytes) = (
  one_more_byte v (format_rest bytes) (hex_encode bytes) (spaceless-format_rest bytes),
  omega (arith, length-format_rest bytes),
)
