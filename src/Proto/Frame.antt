-- ===== src/Proto/Frame.antt =====
-- irida-core/libs/protocol/src/frame.cpp: packets `$payload#cc`, and the incremental decoder.
-- The decoder's state is its buffer `buf_`; `next_payload` returns the payload and the new buffer.
pub mod Search
pub mod Decoder
pub mod Stream
use mathlib.Core.Option
use irida.Common.{
  Bool, Option, Text, [], drop, false, get_or, if◌then◌else◌, leb, length, none, some, suc, take, ℕ,
  ◌%◌, ◌++◌, ◌+◌, ◌-◌, ◌==◌, ◌^◌, ◌||◌, ◌∷◌,
}
use irida.Proto.Hex.{hexval, hex_byte, join_digits}

-- The accumulator is an `unsigned` of 32 bits.
unfoldable pub checksum_loop : ℕ → Text → ℕ
checksum_loop sum [] = sum
checksum_loop sum (c ∷ payload) = checksum_loop ((sum + c) % 2 ^ 32) payload

unfoldable pub checksum : Text → ℕ
unfolding checksum_loop
checksum payload = checksum_loop 0 payload % 256

-- `%02x` of a byte is `hex_byte`.
unfoldable pub frame : Text → Text
frame payload = b'$' ∷ (payload ++ (b'#' ∷ hex_byte (checksum payload)))

unfoldable pub is_ack : ℕ → Bool
is_ack c = c == b'+' || c == b'-'

unfoldable pub feed : Text → Text → Text
feed buf bytes = buf ++ bytes

-- The loop over leading acks, and `erase(0, i)`.
unfoldable pub strip_acks : Text → Text
strip_acks [] = []
strip_acks (c ∷ buf) = let rest = strip_acks buf in if is_ack c then rest else c ∷ buf

-- `buf.find(c)`: the first position of `c`; `none` is `npos`.
unfoldable pub find : ℕ → Text → Option ℕ
find c [] = none
find c (x ∷ s) = if x == c then some 0 else Option.map suc (find c s)

-- `buf.find(c, from)`
unfoldable pub find_from : ℕ → Text → ℕ → Option ℕ
find_from c s from = Option.map (λ i. from + i) (find c (drop from s))

-- The two characters behind '#' say the checksum; `none` stands for a negative digit.
unfoldable pub checksum_matches : Option ℕ → Text → Bool
checksum_matches none payload = false
checksum_matches (some v) payload = v == checksum payload

-- From the first '$' at `start` and the first '#' behind it at `hash`.
unfoldable pub take_packet : Text → ℕ → ℕ → Option Text × Text
take_packet buf start hash =
    let payload = take (hash - start - 1) (drop (start + 1) buf) in
    let hi = hexval (get_or buf (hash + 1) 0) in
    let lo = hexval (get_or buf (hash + 2) 0) in
    let rest = drop (hash + 3) buf in
    if checksum_matches (join_digits hi lo) payload then (some payload, rest) else (none, rest)

unfoldable pub at_hash : Text → ℕ → Option ℕ → Option Text × Text
at_hash buf start none = (none, buf)
at_hash buf start (some hash) =
    if leb (length buf) (hash + 2) then (none, buf) else take_packet buf start hash

unfoldable pub at_start : Text → Option ℕ → Option Text × Text
at_start buf none = (none, [])
at_start buf (some start) = at_hash buf start (find_from b'#' buf start)

unfoldable pub next_payload : Text → Option Text × Text
next_payload buf = let buf' = strip_acks buf in at_start buf' (find b'$' buf')
