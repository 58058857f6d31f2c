-- ===== src/Windows/Context/Slots.antt =====
-- The debug control register of irida-core/libs/host/src/native_debuggee.cpp.
use irida.Common.{arith, refl, ℕ, ◌%◌, ◌*◌, ◌+◌, ◌/◌, ◌^◌, ◌≡◌, ◌≢◌}
use irida.Windows.Context.{clear_bits, set_bit, enable_slot, disable_slot}

-- The local enable bit of a slot, and its condition and length.
abbrev pub enable_bit : ℕ → ℕ → ℕ
enable_bit slot dr7 = dr7 / 2 ^ (2 * slot) % 2

abbrev pub condition : ℕ → ℕ → ℕ
condition slot dr7 = dr7 / 2 ^ (16 + 4 * slot) % 16

-- A slot of the four.
pub data Slot : Type 0 where
  slot0 slot1 slot2 slot3 : Slot

abbrev pub number : Slot → ℕ
number slot0 = 0
number slot1 = 1
number slot2 = 2
number slot3 = 3

-- What a change of the register does to one slot: its enable bit becomes `bit`, and the enable bits of
-- the others stay.
pub record Switches (slot bit dr7 changed : ℕ) : Type 0 where
  pub bit_of : enable_bit slot changed ≡ bit
  pub others :
      (t : Slot) → number t ≢ slot → enable_bit (number t) changed ≡ enable_bit (number t) dr7

enabled :
    (s : Slot) (dr7 : ℕ)
    → Switches (number s) 1 dr7 (enable_slot (number s) dr7)
      × (condition (number s) (enable_slot (number s) dr7) ≡ 0)
unfolding enable_slot disable_slot set_bit clear_bits
enabled slot0 dr7 = (record { bit_of = ground arith; others = others }, ground arith)
  where
    others :
        (t : Slot)
        → number t ≢ 0
        → enable_bit (number t) (enable_slot 0 dr7) ≡ enable_bit (number t) dr7
    others slot0 ne = absurd (ne refl)
    others slot1 ne = ground arith
    others slot2 ne = ground arith
    others slot3 ne = ground arith
enabled slot1 dr7 = (record { bit_of = ground arith; others = others }, ground arith)
  where
    others :
        (t : Slot)
        → number t ≢ 1
        → enable_bit (number t) (enable_slot 1 dr7) ≡ enable_bit (number t) dr7
    others slot0 ne = ground arith
    others slot1 ne = absurd (ne refl)
    others slot2 ne = ground arith
    others slot3 ne = ground arith
enabled slot2 dr7 = (record { bit_of = ground arith; others = others }, ground arith)
  where
    others :
        (t : Slot)
        → number t ≢ 2
        → enable_bit (number t) (enable_slot 2 dr7) ≡ enable_bit (number t) dr7
    others slot0 ne = ground arith
    others slot1 ne = ground arith
    others slot2 ne = absurd (ne refl)
    others slot3 ne = ground arith
enabled slot3 dr7 = (record { bit_of = ground arith; others = others }, ground arith)
  where
    others :
        (t : Slot)
        → number t ≢ 3
        → enable_bit (number t) (enable_slot 3 dr7) ≡ enable_bit (number t) dr7
    others slot0 ne = ground arith
    others slot1 ne = ground arith
    others slot2 ne = ground arith
    others slot3 ne = absurd (ne refl)

disabled : (s : Slot) (dr7 : ℕ) → Switches (number s) 0 dr7 (disable_slot (number s) dr7)
unfolding enable_slot disable_slot set_bit clear_bits
disabled slot0 dr7 = record { bit_of = ground arith; others = others }
  where
    others :
        (t : Slot)
        → number t ≢ 0
        → enable_bit (number t) (disable_slot 0 dr7) ≡ enable_bit (number t) dr7
    others slot0 ne = absurd (ne refl)
    others slot1 ne = ground arith
    others slot2 ne = ground arith
    others slot3 ne = ground arith
disabled slot1 dr7 = record { bit_of = ground arith; others = others }
  where
    others :
        (t : Slot)
        → number t ≢ 1
        → enable_bit (number t) (disable_slot 1 dr7) ≡ enable_bit (number t) dr7
    others slot0 ne = ground arith
    others slot1 ne = absurd (ne refl)
    others slot2 ne = ground arith
    others slot3 ne = ground arith
disabled slot2 dr7 = record { bit_of = ground arith; others = others }
  where
    others :
        (t : Slot)
        → number t ≢ 2
        → enable_bit (number t) (disable_slot 2 dr7) ≡ enable_bit (number t) dr7
    others slot0 ne = ground arith
    others slot1 ne = ground arith
    others slot2 ne = absurd (ne refl)
    others slot3 ne = ground arith
disabled slot3 dr7 = record { bit_of = ground arith; others = others }
  where
    others :
        (t : Slot)
        → number t ≢ 3
        → enable_bit (number t) (disable_slot 3 dr7) ≡ enable_bit (number t) dr7
    others slot0 ne = ground arith
    others slot1 ne = ground arith
    others slot2 ne = ground arith
    others slot3 ne = absurd (ne refl)

-- Setting a hardware breakpoint enables its slot, with the condition and the length 0, and clearing it
-- disables the slot; either leaves the other slots enabled or disabled as they were.
pub slots-Switches :
    (s : Slot) (dr7 : ℕ)
    → Switches (number s) 1 dr7 (enable_slot (number s) dr7)
      × (condition (number s) (enable_slot (number s) dr7) ≡ 0)
      × Switches (number s) 0 dr7 (disable_slot (number s) dr7)
slots-Switches s dr7 = ((enabled s dr7).0, (enabled s dr7).1, disabled s dr7)
