-- ===== src/Backend/Gdb/Stops.antt =====
-- `translate_stop` of irida-core/core/backend/src/gdb_backend.cpp on the replies that a stub writes.
use irida.Common.{
  All, Bool-cases, IsByte, List, Text, [], arith, codes, inl, inr, pos, refl, text_eq, text_eq_refl,
  text_eq_sound, true, ℕ, ◌++◌, ◌↔◌, ◌∷◌, ◌≡◌, ◌⊎◌,
}
use irida.Proto.Hex.{hex_byte}
use irida.Proto.Packets.StopReply as Wire
use irida.Proto.Packets.StopReply.{IsField, render, parse_stop_reply, parse_stop_reply-render}
use irida.Backend.{breakpoint}
use irida.Backend.Gdb.{has_marker, translate_kind, translate_stop}

-- One of the pairs has a breakpoint marker as its key.
pub data Marked : List (Text × Text) → Type 0 where
  here :
      (key val : Text) (info : List (Text × Text))
      → (key ≡ codes "swbreak") ⊎ (key ≡ codes "hwbreak")
      → Marked ((key, val) ∷ info)
  there : (field : Text × Text) (info : List (Text × Text)) → Marked info → Marked (field ∷ info)

has_marker_sound : (info : List (Text × Text)) → has_marker info ≡ true → Marked info
unfolding has_marker
has_marker_sound [] h = absurd (cc)
has_marker_sound ((key, val) ∷ info) h = elim (Bool-cases (text_eq key (codes "swbreak"))) [
  | inl e ↦ here key val info (inl (text_eq_sound key (codes "swbreak") e))
  | inr e ↦ elim (Bool-cases (text_eq key (codes "hwbreak"))) [
    | inl d ↦ here key val info (inr (text_eq_sound key (codes "hwbreak") d))
    | inr d ↦ there (key, val) info (has_marker_sound info (rw (e, d) at h))
  ]
]

has_marker_complete : (info : List (Text × Text)) → Marked info → has_marker info ≡ true
unfolding has_marker
has_marker_complete _ (here key val info (inl e)) = rw (e, text_eq_refl (codes "swbreak")) refl
has_marker_complete _ (here key val info (inr e)) =
    rw (e, text_eq_refl (codes "hwbreak")) (unfold text_eq in refl)
has_marker_complete _ (there field info m) = rw (has_marker_complete info m) (ground arith)

translate_kind-Marked :
    (info : List (Text × Text)) → (translate_kind Wire.signal info ≡ breakpoint) ↔ Marked info
unfolding translate_kind
translate_kind-Marked info = elim (Bool-cases (has_marker info)) [
  | inl e ↦ rw e ((λ h. has_marker_sound info e), λ m. refl)
  | inr e ↦ rw e ((λ h. absurd (cc)), λ m. absurd (ground (arith, has_marker_complete info m)))
]

-- A `T` reply as a stub writes it, with no ':' or ';' in a key and no ';' in a value, is
-- translated to a stop with its signal number, which is a breakpoint exactly if one of its pairs
-- has the key "swbreak" or "hwbreak".
pub translate_stop-Marked :
    (code : ℕ) (fields : List (Text × Text))
    → IsByte code
    → All IsField fields
    → ((translate_stop (parse_stop_reply (b'T' ∷ (hex_byte code ++ render fields)))).signal
        ≡ pos code)
      × (((translate_stop (parse_stop_reply (b'T' ∷ (hex_byte code ++ render fields)))).kind
            ≡ breakpoint)
          ↔ Marked fields)
unfolding translate_stop
translate_stop-Marked code fields h w =
    rw (parse_stop_reply-render code fields h w) (refl, translate_kind-Marked fields)
