-- ===== src/Base/Action.antt =====
-- A member function that changes its object and may fail. `if (!r.has_value()) return err(r.error())`
-- is the bind; what was written before the failure stays written.
use irida.Common.{Text}
use irida.Base.{Result, ok, err}

abbrev pub Action : Type 0 → Type 0 → Type 0
Action S A = S → Result A × S

module _ {S A B : Type 0} where
  abbrev pub resume : Result A → (A → Action S B) → Action S B
  resume (ok a) f s = f a s
  resume (err e) f s = (err e, s)

  infixl 10 ◌>>=◌ ◌>>◌
  abbrev pub ◌>>=◌ : Action S A → (A → Action S B) → Action S B
  ◌>>=◌ m f s = resume (m s).0 f (m s).1

  abbrev pub ◌>>◌ : Action S A → Action S B → Action S B
  m >> n = m >>= λ _. n

module _ {S A : Type 0} where
  abbrev pub pure : A → Action S A
  pure a s = (ok a, s)

  abbrev pub lift : Result A → Action S A
  lift r s = (r, s)

  abbrev pub fail : Text → Action S A
  fail e s = (err e, s)

  -- `(void)m();`
  abbrev pub ignore : Action S A → Action S (Unit {0})
  ignore m s = (ok tt, (m s).1)

-- An action on a part of the object.
abbrev pub on : {S T A : Type 0} → (S → T) → (S → T → S) → Action T A → Action S A
on get put m s = ((m (get s)).0, put s (m (get s)).1)
