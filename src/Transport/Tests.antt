-- ===== src/Transport/Tests.antt =====
-- The client on a scripted socket.
use irida.Common.{List, Text, [], arith, codes, length, refl, ◌++◌, ◌∷◌, ◌≡◌}
use irida.Base.{Bytes, Result, ok, err}
use irida.Proto.Hex.{hex_encode, hex_byte}
use irida.Proto.Frame.{frame, checksum}
use irida.Proto.Packets.Requests.{req_read_memory}
use irida.Proto.Packets.StopReply.{render}
use irida.Proto.Frame.Search.{Without}
use irida.Proto.Frame.Stream.{Pending}
use irida.Transport.{Socket, GdbClient, receive, read_memory}
use irida.Transport.Receive.{Delivers, drained, chunk, Replied, concat, receive-Delivers}
use irida.Transport.Replies.{Answers, read_memory-bytes}

-- The chunks that are still to be received.
abbrev next_chunk : List Bytes → Result Bytes × List Bytes
next_chunk [] = (err (codes "recv: timeout"), [])
next_chunk (c ∷ cs) = (ok c, cs)

abbrev script : Socket
script = record {
  State = List Bytes;
  connect = λ host port s. (ok tt, s);
  send = λ bytes s. (ok (length bytes), s);
  recv = λ size timeout s. next_chunk s;
  close = λ s. [];
}

-- An ack, then the reply with its first byte apart.
abbrev cut : Text → List Bytes
cut reply = codes "+$" ∷ (reply ++ (b'#' ∷ hex_byte (checksum reply))) ∷ []

abbrev client : Text → GdbClient script
client reply = record { sock = cut reply; decoder = [] }

cut-Pending : (reply : Text) → Pending [] (concat (cut reply)) reply []
unfolding frame
cut-Pending reply = (codes "+", ((λ h. absurd (omega arith)), tt), refl)

cut-Delivers : (reply : Text) → Delivers script (cut reply) (cut reply) []
cut-Delivers reply = chunk _ _ _ refl (chunk _ _ _ refl (drained []))

cut-Answers : (request reply : Text) → Answers script (client reply) request reply
cut-Answers request reply = record {
  sent = length (frame request);
  after = cut reply;
  sends = refl;
  chunks = cut reply;
  last = [];
  few = omega arith;
  delivers = cut-Delivers reply;
  rest = [];
  pending = cut-Pending reply;
}

ok_plain : Without b'#' (codes "OK")
ok_plain = ((λ h. absurd (omega arith)), ((λ h. absurd (omega arith)), tt))

receive-Delivers_example :
    Replied script (receive script 3 (client (codes "OK"))) (codes "OK") [] []
receive-Delivers_example =
    receive-Delivers script 3 (client (codes "OK")) (cut (codes "OK")) [] (codes "OK") []
      (omega arith) ok_plain (cut-Delivers (codes "OK")) (cut-Pending (codes "OK"))

read_memory-bytes_example :
    (read_memory script 4096 2 (client (hex_encode (144 ∷ 204 ∷ [])))).0 ≡ ok (144 ∷ 204 ∷ [])
read_memory-bytes_example =
    read_memory-bytes script (client (hex_encode (144 ∷ 204 ∷ []))) 4096 2 (144 ∷ 204 ∷ [])
      (omega arith, (omega arith, tt))
      (cut-Answers (req_read_memory 4096 2) (hex_encode (144 ∷ 204 ∷ [])))

t05_plain : Without b'#' (b'T' ∷ (hex_byte 5 ++ render []))
unfolding hex_byte render
t05_plain =
    ((λ h. absurd (omega arith)), ((λ h. absurd (omega arith)), ((λ h. absurd (omega arith)), tt)))
