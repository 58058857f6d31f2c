-- ===== src/Transport/Receive.antt =====
-- The receiving loop of `transact` in irida-core/core/transport/src/gdb_client.cpp.
use irida.Common.{
  List, Text, [], ap, append_assoc, arith, length, none, refl, some, suc, zero, ℕ, ◌++◌, ◌<◌, ◌∙◌,
  ◌∷◌, ◌≡◌,
}
use irida.Base.{Bytes, Result, ok}
use irida.Proto.Frame.{feed, next_payload}
use irida.Proto.Frame.Search.{Without}
use irida.Proto.Frame.Stream.{Pending, Progress, arrived, waiting, next_payload-Progress}
use irida.Transport.{Socket, GdbClient, timeout_ms, receive}

abbrev pub concat : List Text → Text
concat [] = []
concat (c ∷ chunks) = c ++ concat chunks

module _ (T : Socket) where
  -- Reads from the socket in one state return the chunks in turn, and end in another state.
  pub data Delivers : T.State → List Bytes → T.State → Type 0 where
    drained : (s : T.State) → Delivers s [] s
    chunk :
        (s s' : T.State) (c : Bytes) {chunks : List Bytes} {t : T.State}
        → T.recv 512 timeout_ms s ≡ (ok c, s')
        → Delivers s' chunks t
        → Delivers s (c ∷ chunks) t

  -- A reply came, and the rest of the stream is in the decoder and in the reads not yet made.
  pub record Replied (r : Result Text × GdbClient T) (payload rest : Text) (t : T.State)
      : Type 0 where
    pub result : r.0 ≡ ok payload
    pub unread : List Bytes
    pub still : Delivers r.1.sock unread t
    pub left : r.1.decoder ++ concat unread ≡ rest

  receive-arrived :
      (n : ℕ) (c : GdbClient T) (p left : Text)
      → next_payload c.decoder ≡ (some p, left)
      → receive T (suc n) c ≡ (ok p, record c { decoder = left })
  unfolding receive
  receive-arrived n c p left e =
      rw (e, receive) (ap (λ x. (ok p, record c { decoder = x })) (ap (λ q. q.1) e))

  receive-waiting :
      (n : ℕ) (c : GdbClient T) (kept bytes : Text) (s : T.State)
      → next_payload c.decoder ≡ (none, kept)
      → T.recv 512 timeout_ms c.sock ≡ (ok bytes, s)
      → receive T (suc n) c ≡ receive T n (record { sock = s; decoder = kept ++ bytes })
  unfolding receive feed
  receive-waiting n c kept bytes s e r =
      rw (e, r, receive)
        (ap (λ x. receive T n (record { sock = s; decoder = x ++ bytes })) (ap (λ q. q.1) e))

  -- If the socket delivers chunks that complete a pending packet without '#' in its payload, and the
  -- attempts are more than the chunks, `receive` returns the payload, and the decoder and the chunks
  -- not yet read hold what followed the packet.
  pub receive-Delivers :
      (n : ℕ) (c : GdbClient T) (chunks : List Bytes) (t : T.State) (payload rest : Text)
      → length chunks < n
      → Without b'#' payload
      → Delivers c.sock chunks t
      → Pending c.decoder (concat chunks) payload rest
      → Replied (receive T n c) payload rest t
  receive-Delivers zero c chunks t payload rest h w d p = absurd (omega arith)
  receive-Delivers (suc n) c chunks t payload rest h w d p =
      go chunks d h (next_payload-Progress c.decoder (concat chunks) payload rest w p)
        (λ c' bs h' d' p'. receive-Delivers n c' bs t payload rest h' w d' p')
    where
      go :
          (chunks : List Bytes)
          → Delivers c.sock chunks t
          → length chunks < suc n
          → Progress c.decoder (concat chunks) payload rest
          → ((c' : GdbClient T) (bs : List Bytes)
              → length bs < n
              → Delivers c'.sock bs t
              → Pending c'.decoder (concat bs) payload rest
              → Replied (receive T n c') payload rest t)
          → Replied (receive T (suc n) c) payload rest t
      go chunks d h (arrived left e q) again =
          rw (receive-arrived n c payload left e)
            (record { result = refl; unread = chunks; still = d; left = q })
      go [] d h (waiting kept e more q) again = absurd (more refl)
      go (b ∷ bs) (chunk _ s' _ r d) h (waiting kept e more (noise, wn, q)) again =
          rw (receive-waiting n c kept b s' e r) (
            again (record { sock = s'; decoder = kept ++ b }) bs (omega arith) d
              (noise, wn, append_assoc kept b (concat bs) ∙ q))
