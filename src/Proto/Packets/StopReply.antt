-- ===== src/Proto/Packets/StopReply.antt =====
-- `StopReply` of irida/proto/packets.hpp and `parse_stop_reply` of irida-
-- core/libs/protocol/src/packets.cpp.
use irida.Common.{
  All, All-append, IsByte, List, Option, Text, [], arith, drop, if◌then◌else◌, length,
  length-append, none, pos, refl, some, split_at, split_at-append, suc, zero, ℕ, ℤ, ◌++◌, ◌==◌, ◌∷◌,
  ◌≡◌, ◌≢◌, ◌≤◌,
}
use irida.Proto.Hex.{hex_byte}
use irida.Proto.Hex.RoundTrip.{join-hex_byte}
use irida.Proto.Packets.Requests.{parse_hex_byte}

pub data Kind : Type 0 where
  signal exited terminated output unknown : Kind

pub record StopReply : Type 0 where
  pub kind : Kind
  pub code : ℤ
  pub info : List (Text × Text)
  pub out : Text

abbrev default_reply : StopReply
default_reply = record { kind = unknown; code = pos 0; info = []; out = [] }

-- A field with a ':' is a pair; any other field is passed over.
push_field : Text × Option Text → List (Text × Text) → List (Text × Text)
push_field (key, none) more = more
push_field (key, some val) more = (key, val) ∷ more

-- The loop over `rest`. Each round consumes a character, so `length rest` rounds are enough.
parse_fields : ℕ → Text → List (Text × Text)
unfolding push_field
parse_fields zero rest = []
parse_fields (suc fuel) [] = []
parse_fields (suc fuel) (c ∷ s) =
    let (field, after) = split_at b';' (c ∷ s) in
    push_field (split_at b':' field) (elim after [ none ↦ [] | some more ↦ parse_fields fuel more ])

abbrev code_of : Option ℕ → ℤ
code_of none = pos 0
code_of (some v) = pos v

unfoldable pub parse_stop_reply : Text → StopReply
unfolding parse_fields
parse_stop_reply [] = default_reply
parse_stop_reply (t ∷ p) =
    if t == b'O'
    then record default_reply { kind = output; out = p }
    else let r : StopReply = record default_reply { code = code_of (parse_hex_byte p) } in
      if t == b'S'
      then record r { kind = signal }
      else if t == b'T'
      -- `p.size() > 3 ? p.substr(3) : ""`, counted from behind the type character
      then record r { kind = signal; info = parse_fields (length (drop 2 p)) (drop 2 p) }
      else if t == b'W'
      then record r { kind = exited }
      else if t == b'X'
      then record r { kind = terminated }
      else record r { kind = unknown }

-- A stub's rendering of the pairs of a `T` reply.
unfoldable pub render : List (Text × Text) → Text
render [] = []
render ((key, val) ∷ fields) = (key ++ (b':' ∷ val)) ++ (b';' ∷ render fields)

-- A key has no ':' and no ';', a value has no ';'.
abbrev pub IsField : Text × Text → Type 0
IsField (key, val) = All (λ x. x ≢ b':') key × All (λ x. x ≢ b';') key × All (λ x. x ≢ b';') val

parse_fields_step :
    (fuel : ℕ) (field more : Text)
    → All (λ x. x ≢ b';') field
    → parse_fields (suc fuel) (field ++ (b';' ∷ more))
      ≡ push_field (split_at b':' field) (parse_fields fuel more)
unfolding parse_fields
parse_fields_step fuel [] more h = unfold split_at in refl
parse_fields_step fuel (c ∷ field) more h = rw (split_at-append b';' (c ∷ field) more h)

parse_fields_end : (fuel : ℕ) → parse_fields fuel [] ≡ []
unfolding parse_fields
parse_fields_end zero = refl
parse_fields_end (suc fuel) = refl

parse_fields-render :
    (fuel : ℕ) (fields : List (Text × Text))
    → length (render fields) ≤ fuel
    → All IsField fields
    → parse_fields fuel (render fields) ≡ fields
unfolding render
parse_fields-render fuel [] h w = parse_fields_end fuel
parse_fields-render zero ((key, val) ∷ fields) h w =
    absurd (omega (arith, length-append (key ++ (b':' ∷ val)) (b';' ∷ render fields)))
parse_fields-render (suc fuel) ((key, val) ∷ fields) h w =
    rw
      (
        parse_fields_step fuel (key ++ (b':' ∷ val)) (render fields) (
            All-append (λ x. x ≢ b';') key (b':' ∷ val) w.0.1 ((λ e. absurd (omega arith)), w.0.2)),
        split_at-append b':' key val w.0.0,
        parse_fields-render fuel fields
            (omega (arith, length-append (key ++ (b':' ∷ val)) (b';' ∷ render fields))) w.1,
      )
      (unfold push_field in refl)

-- A `T` reply as a stub writes it, with no ':' or ';' in a key and no ';' in a value, is parsed
-- to its signal number and to its pairs, all of them and in order.
pub parse_stop_reply-render :
    (code : ℕ) (fields : List (Text × Text))
    → IsByte code
    → All IsField fields
    → parse_stop_reply (b'T' ∷ (hex_byte code ++ render fields))
      ≡ record { kind = signal; code = pos code; info = fields; out = [] }
unfolding parse_stop_reply parse_hex_byte hex_byte
parse_stop_reply-render code fields hc hf =
    rw (join-hex_byte code hc, parse_fields-render (length (render fields)) fields (omega arith) hf)
