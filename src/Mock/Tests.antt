-- ===== src/Mock/Tests.antt =====
-- The mock with two breakpoints.
use irida.Common.{All, List, [], arith, refl, some, ◌<◌, ◌∷◌, ◌≡◌, ◌≤◌, ◌⊎◌}
use irida.Analysis.Keeps.{Leaves}
use irida.Api.{Breakpoint, software, Session}
use irida.Api.Dispatch.{session_create}
use irida.Api.Calls as Calls
use irida.Api.Calls.{run}
use irida.Api.Calls.Keeps.{Holds}
use irida.Mock.{MockState, initial_state, mock_cont, last_address, uint64_max}
use irida.Mock.Breakpoints.{Ahead, HasEnabled, mock_cont-IsLeast}
use irida.Mock.Vtable.{mock_vtable, mock_create}
use irida.Mock.Vtable.Runs.{IsSound, run-IsSound}

abbrev two : List Breakpoint
two =
    record { address = 0x7FF751FA2457; enabled = 1; type = software }
    ∷ record { address = 0x7FF751FA244B; enabled = 1; type = software }
    ∷ []

abbrev broken : MockState
broken = record initial_state { bps = two }

mock_cont-IsLeast_example :
    ((mock_cont broken).pc ≡ last_address
      × All (λ b. Ahead broken.pc b → uint64_max ≤ b.address) two)
    ⊎ ((broken.pc < (mock_cont broken).pc)
        × HasEnabled (mock_cont broken).pc two
        × All (λ b. Ahead broken.pc b → (mock_cont broken).pc ≤ b.address) two)
mock_cont-IsLeast_example = mock_cont-IsLeast broken

initial_state-IsSound : IsSound initial_state
unfolding initial_state
initial_state-IsSound = record { stops = refl; inside = omega arith; regs = refl; distinct = tt }

abbrev fresh : Session MockState
fresh = record { vt = mock_vtable; ctx = initial_state }

run-IsSound_example :
    Leaves
      (Holds mock_vtable IsSound)
      (λ s. s)
      (run (Calls.bp_toggle 4096 ∷ Calls.bp_toggle 4096 ∷ Calls.step_over ∷ []) (some fresh))
run-IsSound_example =
    run-IsSound initial_state fresh
      (Calls.bp_toggle 4096 ∷ Calls.bp_toggle 4096 ∷ Calls.step_over ∷ []) initial_state-IsSound
      (unfold mock_create session_create initial_state in refl)
