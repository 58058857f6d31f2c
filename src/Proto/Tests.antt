-- ===== src/Proto/Tests.antt =====
-- The protocol library on concrete packets and replies.
use irida.Common.{List, Text, [], arith, codes, pos, refl, ◌++◌, ◌∷◌, ◌≡◌}
use irida.Base.{ok}
use irida.Proto.Hex.{hex_encode, hex_decode, hex_byte}
use irida.Proto.Hex.RoundTrip.{hex_decode-hex_encode}
use irida.Proto.Frame.{frame, next_payload, checksum}
use irida.Proto.Frame.Decoder.{wire, decoded, next_payload-wire}
use irida.Proto.Frame.Stream.{Pending, Progress, next_payload-Progress}
use irida.Proto.Packets.StopReply.{signal, render, parse_stop_reply, parse_stop_reply-render}

hex_decode-hex_encode_example :
    hex_decode (hex_encode (0 ∷ 171 ∷ 255 ∷ [])) ≡ ok (0 ∷ 171 ∷ 255 ∷ [])
hex_decode-hex_encode_example =
    hex_decode-hex_encode (0 ∷ 171 ∷ 255 ∷ []) (omega arith, (omega arith, (omega arith, tt)))

-- A wrong checksum: the packet "OK" is dropped, and the next byte stays.
next_payload-wire_example :
    next_payload (codes "+" ++ wire (codes "OK") b'0' b'0' (codes "$"))
    ≡ decoded (codes "OK") b'0' b'0' (codes "$")
next_payload-wire_example =
    next_payload-wire (codes "+") (codes "OK") b'0' b'0' (codes "$")
      ((λ h. absurd (omega arith)), tt)
      ((λ h. absurd (omega arith)), ((λ h. absurd (omega arith)), tt))

ok_Pending : Pending (codes "+$O") (codes "K#9a") (codes "OK") []
ok_Pending = (codes "+", ((λ h. absurd (omega arith)), tt), unfold frame checksum hex_byte in refl)

next_payload-Progress_example : Progress (codes "+$O") (codes "K#9a") (codes "OK") []
next_payload-Progress_example =
    next_payload-Progress (codes "+$O") (codes "K#9a") (codes "OK") []
      ((λ h. absurd (omega arith)), ((λ h. absurd (omega arith)), tt)) ok_Pending

abbrev thread_field : List (Text × Text)
thread_field = (codes "a", codes "1") ∷ []

parse_stop_reply-render_example :
    parse_stop_reply (b'T' ∷ (hex_byte 5 ++ render thread_field))
    ≡ record { kind = signal; code = pos 5; info = thread_field; out = [] }
parse_stop_reply-render_example = parse_stop_reply-render 5 thread_field (omega arith) (
  (
    ((λ h. absurd (omega arith)), tt),
    ((λ h. absurd (omega arith)), tt),
    ((λ h. absurd (omega arith)), tt),
  ),
  tt,
)
