-- ===== src/Proto/Frame/Search.antt =====
-- `find` and the loop over leading acks in irida-core/libs/protocol/src/frame.cpp.
use irida.Common.{
  All, Bool-cases, Option-cases, Text, [], arith, inl, inr, length, none, refl, some, ℕ, ◌++◌, ◌∷◌,
  ◌≡◌, ◌≢◌,
}
use irida.Proto.Frame.{is_ack, strip_acks, find}

-- `c` does not stand in `s`.
abbrev pub Without : ℕ → Text → Type 0
Without c s = All (λ x. x ≢ c) s

pub find-append_ne :
    (c : ℕ) (xs ys : Text) → Without c xs → find c (xs ++ (c ∷ ys)) ≡ some (length xs)
unfolding find
find-append_ne c [] ys h = ground arith
find-append_ne c (x ∷ xs) ys h = ground (arith, find-append_ne c xs ys h.1)

pub find-Without : (c : ℕ) (xs : Text) → Without c xs → find c xs ≡ none
unfolding find
find-Without c [] h = refl
find-Without c (x ∷ xs) h = ground (arith, find-Without c xs h.1)

pub find-append_some :
    (c : ℕ) (xs ys : Text) (i : ℕ) → find c xs ≡ some i → find c (xs ++ ys) ≡ some i
unfolding find
find-append_some c [] ys i h = cc
find-append_some c (x ∷ xs) ys i h = elim (Option-cases (find c xs)) [
  | inl e ↦ ground arith
  | inr (j, e) ↦ ground (arith, find-append_some c xs ys j e)
]

-- Acks are stripped from the noise before a packet, and not from the packet.
pub strip_acks-append :
    (noise s : Text)
    → Without b'$' noise
    → strip_acks (noise ++ (b'$' ∷ s)) ≡ strip_acks noise ++ (b'$' ∷ s)
unfolding strip_acks is_ack
strip_acks-append [] s h = refl
strip_acks-append (x ∷ noise) s h = ground (arith, strip_acks-append noise s h.1)

pub strip_acks-Without : (c : ℕ) (s : Text) → Without c s → Without c (strip_acks s)
unfolding strip_acks
strip_acks-Without c [] h = tt
strip_acks-Without c (x ∷ s) h = elim (Bool-cases (is_ack x)) [
  | inl e ↦ rw e (strip_acks-Without c s h.1)
  | inr e ↦ rw e h
]
