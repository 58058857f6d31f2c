-- ===== src/Proto/Packets/Requests.antt =====
-- irida-core/libs/protocol/src/packets.cpp: the requests, and the replies "OK" and "Exx".
use irida.Common.{
  ==_refl, All, Bool, IsByte, Option, Text, [], codes, if◌then◌else◌, length, none, refl, some,
  split_at, split_at-append, text_eq, ℕ, ℤ, ◌++◌, ◌<◌, ◌==◌, ◌^◌, ◌∷◌, ◌≡◌,
}
use irida.Base.{Bytes, Result, ok, err}
use irida.Proto.Hex.{hexval, hex_encode, hex_decode, join_digits, hex_byte}
use irida.Proto.Hex.RoundTrip.{hex_decode-hex_encode, join-hex_byte}
use irida.Proto.Packets.Numbers.{hexnum, to_string, read_hex, read_hex-hexnum, hexnum-ne}

unfoldable pub req_read_registers : Text
req_read_registers = codes "g"

unfoldable pub req_read_memory : ℕ → ℕ → Text
req_read_memory addr len = b'm' ∷ (hexnum addr ++ (b',' ∷ hexnum len))

unfoldable pub req_write_memory : ℕ → Bytes → Text
req_write_memory addr data' =
    b'M' ∷ (hexnum addr ++ (b',' ∷ (hexnum (length data') ++ (b':' ∷ hex_encode data'))))

unfoldable pub req_set_breakpoint : ℤ → ℕ → ℤ → Text
req_set_breakpoint type addr kind =
    b'Z' ∷ (to_string type ++ (b',' ∷ (hexnum addr ++ (b',' ∷ to_string kind))))

unfoldable pub req_remove_breakpoint : ℤ → ℕ → ℤ → Text
req_remove_breakpoint type addr kind =
    b'z' ∷ (to_string type ++ (b',' ∷ (hexnum addr ++ (b',' ∷ to_string kind))))

unfoldable pub req_continue : Text
req_continue = codes "c"

unfoldable pub req_step : Text
req_step = codes "s"

unfoldable pub req_halt_reason : Text
req_halt_reason = codes "?"

unfoldable pub req_qsupported : Text
req_qsupported = codes "qSupported"

unfoldable pub reply_is_ok : Text → Bool
reply_is_ok payload = text_eq payload (codes "OK")

-- `none` is the -1 of the source: fewer than two characters, or one that is no digit.
unfoldable pub parse_hex_byte : Text → Option ℕ
parse_hex_byte (h ∷ l ∷ s) = join_digits (hexval h) (hexval l)
parse_hex_byte s = none

unfoldable pub reply_error_code : Text → Option ℕ
unfolding parse_hex_byte
reply_error_code (c ∷ x ∷ y ∷ s) = if c == b'E' then parse_hex_byte (x ∷ y ∷ s) else none
reply_error_code payload = none

-- What a stub reads out of an `m` request.
abbrev both {ℓ} : {A : Type ℓ} → Option ℕ → Option A → Option (ℕ × A)
both none b = none
both (some a) none = none
both (some a) (some b) = some (a, b)

read_after : Text × Option Text → Option (ℕ × ℕ)
read_after (front, none) = none
read_after (front, some back) = both (read_hex 0 front) (read_hex 0 back)

unfoldable pub stub_read : Text → Option (ℕ × ℕ)
unfolding read_after
stub_read [] = none
stub_read (t ∷ s) = if t == b'm' then read_after (split_at b',' s) else none

-- A stub that reads an `m` request by its grammar gets the address and the length that were asked
-- for.
pub stub_read-req_read_memory :
    (addr len : ℕ)
    → addr < 2 ^ 64
    → len < 2 ^ 64
    → stub_read (req_read_memory addr len) ≡ some (addr, len)
unfolding stub_read req_read_memory
stub_read-req_read_memory addr len ha hl = rw (
  split_at-append b',' (hexnum addr) (hexnum len) (hexnum-ne b',' addr (unfold hexval in refl)),
  read_hex-hexnum addr ha,
  read_hex-hexnum len hl,
)

-- What a stub reads out of an `M` request: the address, and as many bytes as the length says.
stub_payload : ℕ → Option ℕ → Result Bytes → Option (ℕ × Bytes)
stub_payload addr none r = none
stub_payload addr (some len) (err e) = none
stub_payload addr (some len) (ok bytes) = if length bytes == len then some (addr, bytes) else none

stub_length : Option ℕ → Text × Option Text → Option (ℕ × Bytes)
unfolding stub_payload
stub_length none s = none
stub_length (some addr) (front, none) = none
stub_length (some addr) (front, some back) = stub_payload addr (read_hex 0 front) (hex_decode back)

stub_address : Text × Option Text → Option (ℕ × Bytes)
unfolding stub_length
stub_address (front, none) = none
stub_address (front, some back) = stub_length (read_hex 0 front) (split_at b':' back)

unfoldable pub stub_write : Text → Option (ℕ × Bytes)
unfolding stub_address
stub_write [] = none
stub_write (t ∷ s) = if t == b'M' then stub_address (split_at b',' s) else none

-- A stub that reads an `M` request by its grammar gets the address and the bytes that were sent.
pub stub_write-req_write_memory :
    (addr : ℕ) (bytes : Bytes)
    → addr < 2 ^ 64
    → length bytes < 2 ^ 64
    → All IsByte bytes
    → stub_write (req_write_memory addr bytes) ≡ some (addr, bytes)
unfolding stub_write req_write_memory
stub_write-req_write_memory addr bytes ha hl hb = rw (
  split_at-append b',' (hexnum addr) (hexnum (length bytes) ++ (b':' ∷ hex_encode bytes))
      (hexnum-ne b',' addr (unfold hexval in refl)),
  read_hex-hexnum addr ha,
  split_at-append b':' (hexnum (length bytes)) (hex_encode bytes)
      (hexnum-ne b':' (length bytes) (unfold hexval in refl)),
  read_hex-hexnum (length bytes) hl,
  hex_decode-hex_encode bytes hb,
  ==_refl (length bytes),
)

-- An error reply carries its code; the digits may be of either case, and what follows is ignored.
pub reply_error_code-hex_byte :
    (code : ℕ) (s : Text) → IsByte code → reply_error_code (b'E' ∷ (hex_byte code ++ s)) ≡ some code
unfolding reply_error_code hex_byte
reply_error_code-hex_byte code s h = join-hex_byte code h
