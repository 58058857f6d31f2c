-- ===== src/Common/Split.antt =====
-- Cutting a text at the first occurrence of a character: `find` and two `substr`.
use Prim.Native.Nat.{ℕ}
use mathlib.Core.Path.{◌≡◌, refl}
use mathlib.Core.Logic.{◌≢◌}
use mathlib.Core.Option.{Option, none, some}
use mathlib.Core.List.{[], ◌∷◌, ◌++◌}
use native.Mathlib.Omega.{arith}
use irida.Common.Tests.{◌==◌, if◌then◌else◌}
use irida.Common.Strings.{Text}
use irida.Common.Everywhere.{All}

-- The part before the first `c`, and the part behind it, `none` if there is no `c`.
unfoldable pub split_at : ℕ → Text → Text × Option Text
split_at c [] = ([], none)
split_at c (x ∷ s) =
    let rest = split_at c s in if x == c then ([], some s) else (x ∷ rest.0, rest.1)

pub split_at-append :
    (c : ℕ) (xs ys : Text) → All (λ x. x ≢ c) xs → split_at c (xs ++ (c ∷ ys)) ≡ (xs, some ys)
unfolding split_at
split_at-append c [] ys h = ground arith
split_at-append c (x ∷ xs) ys h = ground (arith, split_at-append c xs ys h.1)

pub split_at-none : (c : ℕ) (xs : Text) → All (λ x. x ≢ c) xs → split_at c xs ≡ (xs, none)
unfolding split_at
split_at-none c [] h = refl
split_at-none c (x ∷ xs) h = ground (arith, split_at-none c xs h.1)
