-- ===== src/Proto/Frame/Decoder.antt =====
-- `FrameDecoder::next_payload` of irida-core/libs/protocol/src/frame.cpp on whole packets behind
-- noise.
use irida.Common.{
  ==_refl, IsByte, Option, Text, [], ap, append_assoc, arith, drop-append_add, false,
  get_or-append_add, if◌then◌else◌, leb, length, length-append, none, refl, some, suc, sym,
  take-append, true, ℕ, ◌%◌, ◌++◌, ◌+◌, ◌-◌, ◌/◌, ◌==◌, ◌^◌, ◌∙◌, ◌∷◌, ◌≡◌,
}
use irida.Proto.Hex.{hexval, hex_byte, hex_digit, join_digits}
use irida.Proto.Hex.RoundTrip.{join-hex_byte}
use irida.Proto.Frame.{
  checksum, checksum_loop, frame, strip_acks, find, find_from, checksum_matches, take_packet,
  at_hash, at_start, next_payload,
}
use irida.Proto.Frame.Search.{Without, find-append_ne, strip_acks-append, strip_acks-Without}

-- A packet on the wire, with whatever stands where the checksum belongs.
abbrev pub wire : Text → ℕ → ℕ → Text → Text
wire payload h l rest = b'$' ∷ (payload ++ (b'#' ∷ h ∷ l ∷ rest))

abbrev pub sum : Text → ℕ
sum [] = 0
sum (c ∷ payload) = c + sum payload

-- The payload if the two characters are the digits of its sum modulo 256, and the rest of the stream
-- in any case.
abbrev pub decoded : Text → ℕ → ℕ → Text → Option Text × Text
decoded payload h l rest = elim (join_digits (hexval h) (hexval l)) [
  | none ↦ (none, rest)
  | some v ↦ if v == sum payload % 256 then (some payload, rest) else (none, rest)
]

checksum_loop-sum :
    (s : ℕ) (payload : Text) → checksum_loop s payload % 256 ≡ (s + sum payload) % 256
unfolding checksum_loop
checksum_loop-sum s [] = omega arith
checksum_loop-sum s (c ∷ payload) = omega (arith, checksum_loop-sum ((s + c) % 2 ^ 32) payload)

checksum-sum : (payload : Text) → checksum payload ≡ sum payload % 256
unfolding checksum
checksum-sum payload = omega (arith, checksum_loop-sum 0 payload)

matches-decoded :
    (value : Option ℕ) (payload rest : Text)
    → ◌≡◌ {A = Option Text × Text}
        (if checksum_matches value payload then (some payload, rest) else (none, rest))
        (elim value [
          | none ↦ (none, rest)
          | some v ↦ if v == sum payload % 256 then (some payload, rest) else (none, rest)
        ])
unfolding checksum_matches
matches-decoded none payload rest = refl
matches-decoded (some v) payload rest = rw (checksum-sum payload) refl

module _ (noise payload : Text) (h l : ℕ) (rest : Text) where
  take_packet-wire :
      (start hash : ℕ)
      → start ≡ length noise
      → hash ≡ length noise + suc (length payload)
      → take_packet (noise ++ wire payload h l rest) start hash ≡ decoded payload h l rest
  unfolding take_packet
  take_packet-wire start hash es eh =
      rw
        (
          drop-append_add noise (wire payload h l rest) 1 (start + 1) (omega arith),
          take-append payload (b'#' ∷ h ∷ l ∷ rest) (hash - start - 1) (omega arith),
          get_or-append_add noise (wire payload h l rest) (suc (length payload + 1)) (hash + 1) 0
              (omega arith),
          get_or-append_add noise (wire payload h l rest) (suc (length payload + 2)) (hash + 2) 0
              (omega arith),
          get_or-append_add payload (b'#' ∷ h ∷ l ∷ rest) 1 (length payload + 1) 0 refl,
          get_or-append_add payload (b'#' ∷ h ∷ l ∷ rest) 2 (length payload + 2) 0 refl,
          drop-append_add noise (wire payload h l rest) (suc (length payload + 3)) (hash + 3)
              (omega arith),
          drop-append_add payload (b'#' ∷ h ∷ l ∷ rest) 3 (length payload + 3) refl,
        )
        (matches-decoded (join_digits (hexval h) (hexval l)) payload rest)

  find_hash :
      Without b'#' payload
      → find_from b'#' (noise ++ wire payload h l rest) (length noise)
        ≡ some (length noise + suc (length payload))
  unfolding find_from find
  find_hash w = rw (
    drop-append_add noise (wire payload h l rest) 0 (length noise) (omega arith),
    find-append_ne b'#' payload (h ∷ l ∷ rest) w,
  )

  short_of_nothing :
      leb (length (noise ++ wire payload h l rest)) (length noise + suc (length payload) + 2)
      ≡ false
  short_of_nothing = ground (
    arith,
    length-append noise (wire payload h l rest),
    length-append payload (b'#' ∷ h ∷ l ∷ rest),
  )

  at_start-wire :
      Without b'$' noise
      → Without b'#' payload
      → at_start (noise ++ wire payload h l rest) (find b'$' (noise ++ wire payload h l rest))
        ≡ decoded payload h l rest
  unfolding at_start at_hash
  at_start-wire wn wp = rw (
    find-append_ne b'$' noise (payload ++ (b'#' ∷ h ∷ l ∷ rest)) wn,
    find_hash wp,
    short_of_nothing,
    take_packet-wire (length noise) (length noise + suc (length payload)) refl refl,
  )

module _ (noise payload : Text) (h l : ℕ) (rest : Text) where
  -- Behind noise without '$', a packet whose payload has no '#' is consumed whole, and its payload
  -- is returned exactly if the two characters behind '#' are, in hexadecimal, the sum of its characters
  -- modulo 256.
  pub next_payload-wire :
      Without b'$' noise
      → Without b'#' payload
      → next_payload (noise ++ wire payload h l rest) ≡ decoded payload h l rest
  unfolding next_payload
  next_payload-wire wn wp =
      rw (strip_acks-append noise (payload ++ (b'#' ∷ h ∷ l ∷ rest)) wn)
        (at_start-wire (strip_acks noise) payload h l rest (strip_acks-Without b'$' noise wn) wp)

checksum-lt : (payload : Text) → IsByte (checksum payload)
unfolding checksum
checksum-lt payload = omega arith

checksum_matches_self : (payload : Text) → checksum_matches (some (checksum payload)) payload ≡ true
unfolding checksum_matches
checksum_matches_self payload = ==_refl (checksum payload)

-- The text of a frame, with what follows it.
pub frame-append :
    (payload rest : Text)
    → frame payload ++ rest
      ≡ wire payload
          (hex_digit (checksum payload / 16 % 16))
          (hex_digit (checksum payload % 16))
          rest
unfolding frame hex_byte
frame-append payload rest = ap (λ t. b'$' ∷ t) (append_assoc payload _ rest)

-- `next_payload` returns what `frame` packed, past any noise without '$' (acks among it), and leaves
-- the rest of the stream.
pub next_payload-frame :
    (noise payload rest : Text)
    → Without b'$' noise
    → Without b'#' payload
    → next_payload (noise ++ (frame payload ++ rest)) ≡ (some payload, rest)
next_payload-frame noise payload rest wn wp =
    let h : ℕ = hex_digit (checksum payload / 16 % 16) in
    let l : ℕ = hex_digit (checksum payload % 16) in
    rw (frame-append payload rest) (
      next_payload-wire noise payload h l rest wn wp
      ∙ sym (matches-decoded (join_digits (hexval h) (hexval l)) payload rest)
      ∙ rw (join-hex_byte (checksum payload) (checksum-lt payload), checksum_matches_self payload)
          refl)
