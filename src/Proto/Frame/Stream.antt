-- ===== src/Proto/Frame/Stream.antt =====
-- `FrameDecoder` of irida-core/libs/protocol/src/frame.cpp on a stream that arrives in pieces.
use mathlib.Core.Option
use irida.Common.{
  All-append_left, All-append_right, Option, Text, [], ap, append-nil, append_assoc, append_cuts,
  arith, drop-append_add, inl, inr, length, length-append, none, refl, some, suc, sym, ℕ, ◌++◌, ◌+◌,
  ◌∙◌, ◌∷◌, ◌≡◌, ◌≢◌, ◌≤◌,
}
use irida.Proto.Hex.{hex_byte}
use irida.Proto.Frame.{
  checksum, frame, feed, strip_acks, find, find_from, at_hash, at_start, next_payload,
}
use irida.Proto.Frame.Search.{
  Without, find-append_ne, find-Without, find-append_some, strip_acks-append, strip_acks-Without,
}
use irida.Proto.Frame.Decoder.{next_payload-frame}

-- With no '$' in it the whole buffer is discarded.
next_payload-Without : (buf : Text) → Without b'$' buf → next_payload buf ≡ (none, [])
unfolding next_payload at_start
next_payload-Without buf w = rw (find-Without b'$' (strip_acks buf) (strip_acks-Without b'$' buf w))

-- The body of a packet behind '$'.
abbrev body : Text → Text
body payload = payload ++ (b'#' ∷ hex_byte (checksum payload))

module _ (noise a : Text) (x : ℕ) (e payload : Text) (cut : a ++ (x ∷ e) ≡ body payload) where
  length_cut : length a ≤ length payload + 2
  unfolding hex_byte
  length_cut = omega (
    arith,
    ap length cut,
    length-append a (x ∷ e),
    length-append payload (b'#' ∷ hex_byte (checksum payload)),
  )

  at_hash-cut :
      (o : Option ℕ)
      → Without b'#' payload
      → find b'#' a ≡ o
      → at_hash
          (noise ++ (b'$' ∷ a))
          (length noise)
          (Option.map (λ i. length noise + i) (Option.map suc o))
        ≡ (none, noise ++ (b'$' ∷ a))
  unfolding at_hash
  at_hash-cut none w f = refl
  at_hash-cut (some i) w f =
      let whole : some i ≡ some (length payload) =
        sym (find-append_some b'#' a (x ∷ e) i f)
        ∙ ap (find b'#') cut
        ∙ find-append_ne b'#' payload (hex_byte (checksum payload)) w in
      ground (arith, whole, length_cut, length-append noise (b'$' ∷ a))

  at_start-cut :
      Without b'$' noise
      → Without b'#' payload
      → at_start (noise ++ (b'$' ∷ a)) (find b'$' (noise ++ (b'$' ∷ a)))
        ≡ (none, noise ++ (b'$' ∷ a))
  unfolding at_start find_from
  at_start-cut wn wp =
      rw
        (
          find-append_ne b'$' noise a wn,
          drop-append_add noise (b'$' ∷ a) 0 (length noise) (omega arith),
        )
        (unfold find in at_hash-cut (find b'#' a) wp refl)

-- A proper beginning of a packet is kept, less the acks before it, and yields nothing.
next_payload-cut :
    (noise a : Text) (x : ℕ) (e payload : Text)
    → a ++ (x ∷ e) ≡ body payload
    → Without b'$' noise
    → Without b'#' payload
    → next_payload (noise ++ (b'$' ∷ a)) ≡ (none, strip_acks noise ++ (b'$' ∷ a))
unfolding next_payload
next_payload-cut noise a x e payload cut wn wp =
    rw (strip_acks-append noise a wn)
      (at_start-cut (strip_acks noise) a x e payload cut (strip_acks-Without b'$' noise wn) wp)

-- What is in the buffer and what is still to come hold one packet behind noise.
abbrev pub Pending : Text → Text → Text → Text → Type 0
Pending buf more payload rest =
    (noise : Text) × Without b'$' noise × (buf ++ more ≡ noise ++ (frame payload ++ rest))

-- One call on a pending packet.
pub data Progress (buf more payload rest : Text) : Type 0 where
  arrived :
      (left : Text)
      → next_payload buf ≡ (some payload, left)
      → left ++ more ≡ rest
      → Progress buf more payload rest
  waiting :
      (kept : Text)
      → next_payload buf ≡ (none, kept)
      → more ≢ []
      → Pending kept more payload rest
      → Progress buf more payload rest

module _ (noise payload rest : Text) (wn : Without b'$' noise) (wp : Without b'#' payload) where
  -- The buffer ends inside the packet, or just before it.
  inside :
      (a : Text) (x : ℕ) (e : Text)
      → frame payload ≡ a ++ (x ∷ e)
      → Progress (noise ++ a) (x ∷ (e ++ rest)) payload rest
  unfolding frame
  inside [] x e q =
      waiting [] (rw append-nil (next_payload-Without noise wn)) (λ p. cc)
        ([], tt, ap (λ t. t ++ rest) (sym q))
  inside (y ∷ a) x e q =
      let first : y ≡ b'$' = cc in
      let cut : a ++ (x ∷ e) ≡ body payload = cc in
      rw first (
        waiting (strip_acks noise ++ (b'$' ∷ a)) (next_payload-cut noise a x e payload cut wn wp)
          (λ p. cc)
          (
            strip_acks noise,
            strip_acks-Without b'$' noise wn,
            append_assoc (strip_acks noise) (b'$' ∷ a) (x ∷ (e ++ rest))
                ∙ ap (λ t. strip_acks noise ++ t)
                    (sym (append_assoc (b'$' ∷ a) (x ∷ e) rest) ∙ ap (λ t. b'$' ∷ (t ++ rest)) cut),
          ))

-- With a packet pending whose payload has no '#', behind noise without '$', a call of `next_payload`
-- either returns its payload, and what is left with what is to come is the rest of the stream; or it returns nothing, something is still to come, and
-- the packet is pending on the new buffer.
pub next_payload-Progress :
    (buf more payload rest : Text)
    → Without b'#' payload
    → Pending buf more payload rest
    → Progress buf more payload rest
next_payload-Progress buf more payload rest wp (noise, wn, eq) =
    elim (append_cuts buf more (noise ++ frame payload) rest
      (eq ∙ sym (append_assoc noise (frame payload) rest))) [
        | inl (e, p, q) ↦
            arrived e
              (rw (p, append_assoc noise (frame payload) e)
                (next_payload-frame noise payload e wn wp))
              (sym q)
        | inr (x, e, p, q) ↦ elim (append_cuts buf (x ∷ e) noise (frame payload) (sym p)) [
          | inl (a, p', q') ↦ rw (p', q) (inside noise payload rest wn wp a x e q')
          | inr (y, e', p', q') ↦
              let w : Without b'$' (buf ++ (y ∷ e')) = rw p' at wn in
              waiting [] (next_payload-Without buf (All-append_left _ buf (y ∷ e') w)) (λ n. cc)
                (
                  y ∷ e',
                  All-append_right _ buf (y ∷ e') w,
                  q ∙ ap (λ t. t ++ rest) q' ∙ append_assoc (y ∷ e') (frame payload) rest,
                )
        ]
      ]

-- A packet that is cut anywhere, in two pieces: the first yields nothing, and once the second is
-- fed the payload is returned and the decoder holds what followed the packet.
pub next_payload-feed :
    (noise payload rest a b : Text) (x : ℕ)
    → Without b'$' noise
    → Without b'#' payload
    → a ++ (x ∷ b) ≡ noise ++ frame payload
    → ((next_payload a).0 ≡ none)
      × (next_payload (feed (next_payload a).1 ((x ∷ b) ++ rest)) ≡ (some payload, rest))
unfolding feed
next_payload-feed noise payload rest a b x wn wp eq =
    elim (next_payload-Progress a ((x ∷ b) ++ rest) payload rest wp (
      noise,
      wn,
      sym (append_assoc a (x ∷ b) rest)
          ∙ ap (λ t. t ++ rest) eq
          ∙ append_assoc noise (frame payload) rest,
    )) [
      | arrived left p q ↦ absurd (
          omega
            (arith, ap length q, length-append left ((x ∷ b) ++ rest), length-append (x ∷ b) rest))
      | waiting kept p n (noise', wn', q) ↦
          rw p (refl, rw q (next_payload-frame noise' payload rest wn' wp))
    ]
