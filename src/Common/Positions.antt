-- ===== src/Common/Positions.antt =====
-- Positions in an appended list, and where two ways to cut one list meet.
use Prim.Native.Nat.{ℕ, zero, suc, ◌+◌, ◌-◌, ◌≤◌, min}
use mathlib.Core.Path.{◌≡◌, refl, sym, ap}
use mathlib.Core.Logic.{◌⊎◌, inl, inr}
use mathlib.Core.List.{List, [], ◌∷◌, ◌++◌}
use native.Mathlib.Omega.{arith}
use irida.Common.Lists.{length, take, drop, get_or}

module _ {ℓ} {A : Type ℓ} where
  pub drop-append_add :
      (xs ys : List A) (k n : ℕ) → n ≡ length xs + k → drop n (xs ++ ys) ≡ drop k ys
  drop-append_add [] ys k n e = let e' : n ≡ k = omega arith in rw e'
  drop-append_add (x ∷ xs) ys k zero e = absurd (omega arith)
  drop-append_add (x ∷ xs) ys k (suc n) e = drop-append_add xs ys k n (omega arith)

  pub take-append : (xs ys : List A) (n : ℕ) → n ≡ length xs → take n (xs ++ ys) ≡ xs
  take-append [] ys n e = rw e
  take-append (x ∷ xs) ys zero e = absurd (omega arith)
  take-append (x ∷ xs) ys (suc n) e = ap (λ t. x ∷ t) (take-append xs ys n (omega arith))

  pub get_or-append_add :
      (xs ys : List A) (k n : ℕ) (d : A) → n ≡ length xs + k → get_or (xs ++ ys) n d ≡ get_or ys k d
  get_or-append_add [] ys k n d e = let e' : n ≡ k = omega arith in rw e'
  get_or-append_add (x ∷ xs) ys k zero d e = absurd (omega arith)
  get_or-append_add (x ∷ xs) ys k (suc n) d e = get_or-append_add xs ys k n d (omega arith)

  -- Two cuts of one list: the first cut stands at or behind the second, or before it.
  pub append_cuts :
      (a b c d : List A)
      → a ++ b ≡ c ++ d
      → ((e : List A) × (a ≡ c ++ e) × (d ≡ e ++ b))
        ⊎ ((x : A) × (e : List A) × (c ≡ a ++ (x ∷ e)) × (b ≡ x ∷ (e ++ d)))
  append_cuts a b [] d h = inl (a, refl, sym h)
  append_cuts [] b (y ∷ c) d h = inr (y, c, refl, h)
  append_cuts (x ∷ a) b (y ∷ c) d h = elim (append_cuts a b c d (cc)) [
    | inl (e, p, q) ↦ inl (e, cc, q)
    | inr (z, e, p, q) ↦ inr (z, e, cc, q)
  ]

  pub drop-nil : (k : ℕ) → drop {A = A} k [] ≡ []
  drop-nil zero = refl
  drop-nil (suc k) = refl

  pub drop-drop : (i k : ℕ) (xs : List A) → drop k (drop i xs) ≡ drop (i + k) xs
  drop-drop zero k xs = let e : 0 + k ≡ k = omega arith in rw e refl
  drop-drop (suc i) k [] = let e : suc i + k ≡ suc (i + k) = omega arith in rw e (drop-nil k)
  drop-drop (suc i) k (x ∷ xs) =
      let e : suc i + k ≡ suc (i + k) = omega arith in rw e (drop-drop i k xs)

  pub take-nil : (n : ℕ) → take {A = A} n [] ≡ []
  take-nil zero = refl
  take-nil (suc n) = refl

  pub drop-take : (k n : ℕ) (xs : List A) → drop k (take n xs) ≡ take (n - k) (drop k xs)
  drop-take zero n xs = let e : n - 0 ≡ n = omega arith in rw e refl
  drop-take (suc k) zero xs = let e : 0 - suc k ≡ 0 = omega arith in rw e refl
  drop-take (suc k) (suc n) [] =
      let e : suc n - suc k ≡ n - k = omega arith in rw e (sym (take-nil (n - k)))
  drop-take (suc k) (suc n) (x ∷ xs) =
      let e : suc n - suc k ≡ n - k = omega arith in rw e (drop-take k n xs)

  pub take-min_length : (n : ℕ) (xs : List A) → take (min n (length xs)) xs ≡ take n xs
  take-min_length zero xs = let e : min 0 (length xs) ≡ 0 = omega arith in rw e refl
  take-min_length (suc n) [] = take-nil (min (suc n) 0)
  take-min_length (suc n) (x ∷ xs) =
      let e : min (suc n) (suc (length xs)) ≡ suc (min n (length xs)) = omega arith in
      rw e (ap (λ t. x ∷ t) (take-min_length n xs))

  pub drop-past : (n : ℕ) (xs : List A) → length xs ≤ n → drop n xs ≡ []
  drop-past n [] h = drop-nil n
  drop-past zero (x ∷ xs) h = absurd (omega arith)
  drop-past (suc n) (x ∷ xs) h = drop-past n xs (omega arith)

  pub take-take : (n m : ℕ) (xs : List A) → take n (take m xs) ≡ take (min n m) xs
  take-take zero m xs = let e : min 0 m ≡ 0 = omega arith in rw e refl
  take-take (suc n) zero xs = let e : min (suc n) 0 ≡ 0 = omega arith in rw e refl
  take-take (suc n) (suc m) [] = sym (take-nil (min (suc n) (suc m)))
  take-take (suc n) (suc m) (x ∷ xs) =
      let e : min (suc n) (suc m) ≡ suc (min n m) = omega arith in
      rw e (ap (λ t. x ∷ t) (take-take n m xs))
