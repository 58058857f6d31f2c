-- ===== src/Mock/Breakpoints.antt =====
-- The breakpoints of irida-ui/mock/src/mock_backend.cpp.
use irida.Common.{
  ==_iff, ==_refl, All, Bool, Bool-cases, List, [], arith, false, inl, inr, ltb, not, refl, sym,
  true, ℕ, ◌&&◌, ◌++◌, ◌<◌, ◌==◌, ◌∙◌, ◌∷◌, ◌≡◌, ◌≢◌, ◌≤◌, ◌⊎◌,
}
use irida.Api.{Breakpoint, software}
use irida.Mock.{
  MockState, has_breakpoint, erase_breakpoint, enable_at, mock_bp_toggle, best_from, uint64_max,
  last_address, mock_cont,
}

-- No address has two breakpoints.
abbrev pub IsDistinct : List Breakpoint → Type 0
IsDistinct [] = Unit {0}
IsDistinct (b ∷ bps) = (has_breakpoint b.address bps ≡ false) × IsDistinct bps

has_breakpoint-erase :
    (addr x : ℕ) (bps : List Breakpoint)
    → has_breakpoint x bps ≡ false
    → has_breakpoint x (erase_breakpoint addr bps) ≡ false
unfolding erase_breakpoint
has_breakpoint-erase addr x [] h = refl
has_breakpoint-erase addr x (b ∷ bps) h = ground (arith, has_breakpoint-erase addr x bps)

pub erase-IsDistinct :
    (addr : ℕ) (bps : List Breakpoint) → IsDistinct bps → IsDistinct (erase_breakpoint addr bps)
unfolding erase_breakpoint
erase-IsDistinct addr [] d = tt
erase-IsDistinct addr (b ∷ bps) d = elim (Bool-cases (b.address == addr)) [
  | inl e ↦ rw e d.1
  | inr e ↦ rw e (has_breakpoint-erase addr b.address bps d.0, erase-IsDistinct addr bps d.1)
]

has_breakpoint-append :
    (x : ℕ) (bps : List Breakpoint) (b : Breakpoint)
    → has_breakpoint x bps ≡ false
    → (b.address == x) ≡ false
    → has_breakpoint x (bps ++ (b ∷ [])) ≡ false
has_breakpoint-append x [] b h e = rw e refl
has_breakpoint-append x (c ∷ bps) b h e = ground (arith, has_breakpoint-append x bps b)

pub append-IsDistinct :
    (bps : List Breakpoint) (b : Breakpoint)
    → IsDistinct bps
    → has_breakpoint b.address bps ≡ false
    → IsDistinct (bps ++ (b ∷ []))
append-IsDistinct [] b d h = (refl, tt)
append-IsDistinct (c ∷ bps) b d h = (
  has_breakpoint-append c.address bps b d.0 (ground arith),
  append-IsDistinct bps b d.1 (ground arith),
)

has_breakpoint-enable :
    (addr x : ℕ) (enabled : Bool) (bps : List Breakpoint)
    → has_breakpoint x (enable_at addr enabled bps) ≡ has_breakpoint x bps
unfolding enable_at
has_breakpoint-enable addr x enabled [] = refl
has_breakpoint-enable addr x enabled (b ∷ bps) =
    let more = has_breakpoint-enable addr x enabled bps in
    elim (Bool-cases (b.address == addr)) [ inl e ↦ rw (e, more) refl | inr e ↦ rw (e, more) refl ]

pub enable-IsDistinct :
    (addr : ℕ) (enabled : Bool) (bps : List Breakpoint)
    → IsDistinct bps
    → IsDistinct (enable_at addr enabled bps)
unfolding enable_at
enable-IsDistinct addr enabled [] d = tt
enable-IsDistinct addr enabled (b ∷ bps) d =
    let more = enable-IsDistinct addr enabled bps d.1 in
    let none_here = has_breakpoint-enable addr b.address enabled bps ∙ d.0 in
    elim (Bool-cases (b.address == addr)) [
      | inl e ↦ rw e (none_here, more)
      | inr e ↦ rw e (none_here, more)
    ]

erase-append :
    (bps : List Breakpoint) (b : Breakpoint)
    → has_breakpoint b.address bps ≡ false
    → erase_breakpoint b.address (bps ++ (b ∷ [])) ≡ bps
unfolding erase_breakpoint
erase-append [] b h = rw (==_refl b.address) refl
erase-append (c ∷ bps) b h =
    let other : (c.address == b.address) ≡ false = ground arith in
    let later : has_breakpoint b.address bps ≡ false = ground arith in
    rw (other, erase-append bps b later) refl

has_breakpoint-last :
    (bps : List Breakpoint) (b : Breakpoint) → has_breakpoint b.address (bps ++ (b ∷ [])) ≡ true
has_breakpoint-last [] b = rw (==_refl b.address) refl
has_breakpoint-last (c ∷ bps) b = ground (arith, has_breakpoint-last bps b)

-- Toggling a breakpoint twice where there was none leaves everything as it was.
pub toggle-toggle :
    (addr : ℕ) (s : MockState)
    → has_breakpoint addr s.bps ≡ false
    → mock_bp_toggle addr (mock_bp_toggle addr s) ≡ s
unfolding mock_bp_toggle
toggle-toggle addr s h =
    let b : Breakpoint = record { address = addr; enabled = 1; type = software } in
    rw (h, has_breakpoint-last s.bps b, erase-append s.bps b h) refl

-- An enabled breakpoint above an address.
abbrev pub Ahead : ℕ → Breakpoint → Type 0
Ahead pc b = (b.enabled ≢ 0) × (pc < b.address)

-- The address of an enabled breakpoint.
abbrev pub HasEnabled : ℕ → List Breakpoint → Type 0
HasEnabled addr [] = ⊥
HasEnabled addr (b ∷ bps) = ((b.enabled ≢ 0) × (b.address ≡ addr)) ⊎ HasEnabled addr bps

-- An address, given with a bound, that is the bound or that of an enabled breakpoint ahead, and is no more than
-- the bound and any breakpoint ahead.
pub record IsLeast (pc best found : ℕ) (bps : List Breakpoint) : Type 0 where
  pub below : found ≤ best
  pub stops : (found ≡ best) ⊎ ((pc < found) × HasEnabled found bps)
  pub least : All (λ b. Ahead pc b → found ≤ b.address) bps

best_from-IsLeast :
    (pc best : ℕ) (bps : List Breakpoint) → IsLeast pc best (best_from pc best bps) bps
unfolding best_from
best_from-IsLeast pc best [] = record { below = omega arith; stops = inl refl; least = tt }
best_from-IsLeast pc best (b ∷ bps) =
    elim (Bool-cases (not (b.enabled == 0) && ltb pc b.address && ltb b.address best)) [
      | inl e ↦
          let r = best_from-IsLeast pc b.address bps in
          let (on, above_pc) : Ahead pc b = (ground arith, ground arith) in
          rw e (record {
            below = ground (arith, r.below);
            stops = elim r.stops [
              | inl s ↦ inr (omega (arith, s, above_pc), inl (on, sym s))
              | inr (above, has) ↦ inr (above, inr has)
            ];
            least = (λ ahead. r.below, r.least);
          })
      | inr e ↦
          let r = best_from-IsLeast pc best bps in
          rw e (record {
            below = r.below;
            stops = elim r.stops [ inl s ↦ inl s | inr (above, has) ↦ inr (above, inr has) ];
            least = (λ ahead. ground (arith, r.below, ahead), r.least);
          })
    ]

-- Continuing stops at an enabled breakpoint above the program counter, with no enabled one between them; where there is none
-- below the last address of all, it stops at the last instruction.
pub mock_cont-IsLeast :
    (s : MockState)
    → ((mock_cont s).pc ≡ last_address × All (λ b. Ahead s.pc b → uint64_max ≤ b.address) s.bps)
      ⊎ ((s.pc < (mock_cont s).pc)
          × HasEnabled (mock_cont s).pc s.bps
          × All (λ b. Ahead s.pc b → (mock_cont s).pc ≤ b.address) s.bps)
unfolding mock_cont
mock_cont-IsLeast s =
    let r = best_from-IsLeast s.pc uint64_max s.bps in
    elim (Bool-cases (best_from s.pc uint64_max s.bps == uint64_max)) [
      | inl e ↦ let top = (==_iff _ _).0 e in rw e (inl (refl, rw top at r.least))
      | inr e ↦ rw e (elim r.stops [
        | inl top ↦ absurd (ground arith)
        | inr (above, has) ↦ inr (above, has, r.least)
      ])
    ]
