-- ===== src/Transport/Replies.antt =====
-- The calls of irida-core/core/transport/src/gdb_client.cpp for each reply of the stub.
use irida.Common.{
  All, Bool-cases, IsByte, List, Text, [], all_below, all_below_sound, ap, append-nil, arith, codes,
  false, inl, inr, length, none, not, pos, refl, some, text_eq, text_eq_refl, text_eq_sound, true,
  ℕ, ◌%◌, ◌++◌, ◌/◌, ◌<◌, ◌==◌, ◌↔◌, ◌∷◌, ◌≡◌,
}
use irida.Base.{Bytes, ok, err}
use irida.Proto.Hex.{hexval, hex_digit, hex_byte, hex_encode}
use irida.Proto.Hex.RoundTrip.{hex_decode-hex_encode}
use irida.Proto.Frame.{frame}
use irida.Proto.Frame.Search.{Without}
use irida.Proto.Frame.Stream.{Pending}
use irida.Proto.Packets.Numbers.{to_string, hex_digit-ne}
use irida.Proto.Packets.Requests.{
  req_read_memory, req_write_memory, req_continue, reply_error_code, reply_error_code-hex_byte,
  reply_is_ok,
}
use irida.Proto.Packets.StopReply.{signal, IsField, render, parse_stop_reply-render}
use irida.Transport.{Socket, GdbClient, transact, read_memory, write_memory, cont}
use irida.Transport.Receive.{Delivers, concat, receive-Delivers}

hex_encode-Without : (bytes : Bytes) → Without b'#' (hex_encode bytes)
unfolding hex_encode
hex_encode-Without [] = tt
hex_encode-Without (v ∷ bytes) = (
  hex_digit-ne b'#' _ (unfold hexval in refl) (omega arith),
  (hex_digit-ne b'#' _ (unfold hexval in refl) (omega arith), hex_encode-Without bytes),
)

upper_E_table : all_below 16 (λ v. not (hex_digit v == b'E')) ≡ true
unfolding all_below hex_digit
upper_E_table = refl

hex_digit-ne_E : (v : ℕ) → v < 16 → (hex_digit v == b'E') ≡ false
hex_digit-ne_E v h =
    ground (arith, all_below_sound 16 (λ v. not (hex_digit v == b'E')) v upper_E_table h)

-- The lower case of `hex_encode` keeps a reply of bytes apart from an error.
not_an_error : (bytes : Bytes) → reply_error_code (hex_encode bytes) ≡ none
unfolding reply_error_code hex_encode
not_an_error [] = refl
not_an_error (v ∷ []) = refl
not_an_error (v ∷ w ∷ bytes) = rw (hex_digit-ne_E (v / 16 % 16) (omega arith))

E_reply-Without : (e : ℕ) → Without b'#' (b'E' ∷ hex_byte e)
unfolding hex_byte
E_reply-Without e = (
  (λ h. absurd (omega arith)),
  (
    hex_digit-ne b'#' _ (unfold hexval in refl) (omega arith),
    (hex_digit-ne b'#' _ (unfold hexval in refl) (omega arith), tt),
  ),
)

error_code : (e : ℕ) → IsByte e → reply_error_code (b'E' ∷ hex_byte e) ≡ some e
error_code e h = rw (append-nil) at (reply_error_code-hex_byte e [] h)

-- The stub sends one reply behind noise, cut into at most 63 reads.
pub record Answers (T : Socket) (c : GdbClient T) (request reply : Text) : Type 0 where
  pub sent : ℕ
  pub after : T.State
  pub sends : T.send (frame request) c.sock ≡ (ok sent, after)
  pub chunks : List Bytes
  pub last : T.State
  pub few : length chunks < 64
  pub delivers : Delivers T after chunks last
  pub rest : Text
  pub pending : Pending c.decoder (concat chunks) reply rest

module _ (T : Socket) (c : GdbClient T) (request reply : Text) (plain : Without b'#' reply)
    (a : Answers T c request reply) where
  -- `transact` returns the reply's payload, which has no '#', if the stub sends one framed reply
  -- behind noise, cut into at most 63 reads.
  pub transact-Answers : (transact T request c).0 ≡ ok reply
  unfolding transact
  transact-Answers =
      rw a.sends
        (receive-Delivers T 64 (record { sock = a.after; decoder = c.decoder }) a.chunks a.last
          reply a.rest a.few plain a.delivers a.pending).result

module _ (T : Socket) (c : GdbClient T) (addr len : ℕ) where
  -- A memory read that is answered by the hexadecimal text of a list of bytes returns
  -- this list.
  pub read_memory-bytes :
      (bytes : Bytes)
      → All IsByte bytes
      → Answers T c (req_read_memory addr len) (hex_encode bytes)
      → (read_memory T addr len c).0 ≡ ok bytes
  unfolding read_memory
  read_memory-bytes bytes h a = rw (
    transact-Answers T c (req_read_memory addr len) (hex_encode bytes) (hex_encode-Without bytes) a,
    not_an_error bytes,
    hex_decode-hex_encode bytes h,
  )

  -- A memory read answered by `Exx` fails with an error that names the code.
  pub read_memory-error :
      (e : ℕ)
      → IsByte e
      → Answers T c (req_read_memory addr len) (b'E' ∷ hex_byte e)
      → (read_memory T addr len c).0
        ≡ err (codes "read_memory: target error E" ++ to_string (pos e))
  unfolding read_memory
  read_memory-error e h a = rw (
    transact-Answers T c (req_read_memory addr len) (b'E' ∷ hex_byte e) (E_reply-Without e) a,
    error_code e h,
  )

module _ (T : Socket) (c : GdbClient T) (addr : ℕ) (bytes reply : Text)
    (plain : Without b'#' reply) where
  -- A memory write that gets a reply without '#' succeeds exactly if the reply is "OK".
  pub write_memory-reply :
      Answers T c (req_write_memory addr bytes) reply
      → ((write_memory T addr bytes c).0 ≡ ok tt) ↔ (reply ≡ codes "OK")
  unfolding write_memory reply_is_ok
  write_memory-reply a =
      rw (transact-Answers T c (req_write_memory addr bytes) reply plain a)
        (elim (Bool-cases (text_eq reply (codes "OK"))) [
          | inl e ↦ rw e ((λ h. text_eq_sound reply (codes "OK") e), λ h. refl)
          | inr e ↦ rw e (
            (λ h. cc),
            λ h. cc (ap (λ t. text_eq t (codes "OK")) h, e, text_eq_refl (codes "OK")),
          )
        ])

module _ (T : Socket) (c : GdbClient T) (code : ℕ) (fields : List (Text × Text)) where
  -- `cont` that is answered by a `T` reply without '#' returns the signal number and the pairs that
  -- the reply was written from.
  pub cont-render :
      IsByte code
      → All IsField fields
      → Without b'#' (b'T' ∷ (hex_byte code ++ render fields))
      → Answers T c req_continue (b'T' ∷ (hex_byte code ++ render fields))
      → (cont T c).0 ≡ ok (record { kind = signal; code = pos code; info = fields; out = [] })
  unfolding cont
  cont-render hc hf plain a = rw (
    transact-Answers T c req_continue (b'T' ∷ (hex_byte code ++ render fields)) plain a,
    parse_stop_reply-render code fields hc hf,
  )
