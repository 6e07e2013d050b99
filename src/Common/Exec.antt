-- ===== src/Common/Exec.antt =====
-- Actions: a step on a state that returns a result. `?` in the source is `>>=` here.
use evernode_se.Common.Result.{NodeResult, ok, err, panic}

abbrev pub Exec {ℓ} : Type ℓ → Type ℓ → Type ℓ
Exec S A = S → NodeResult A × S

module _ {ℓ} {S A : Type ℓ} where
  abbrev pub pure : A → Exec S A
  pure value state = (ok value, state)

  abbrev pub lift : NodeResult A → Exec S A
  lift result state = (result, state)

  -- A read of the state.
  abbrev pub gets : (S → A) → Exec S A
  gets field state = (ok (field state), state)

abbrev pub modify {ℓ} : {S : Type ℓ} → (S → S) → Exec S (Unit {ℓ})
modify f s = (ok tt, f s)

module _ {ℓ} {S A B : Type ℓ} where
  abbrev pub continue : NodeResult A → (A → Exec S B) → Exec S B
  continue panic next state = (panic, state)
  continue (err error) next state = (err error, state)
  continue (ok value) next state = next value state

  infixl 5 ◌>>=◌ ◌>>◌
  abbrev pub ◌>>=◌ : Exec S A → (A → Exec S B) → Exec S B
  ◌>>=◌ act next state = let (r, state') = act state in continue r next state'

  abbrev pub ◌>>◌ : Exec S A → Exec S B → Exec S B
  act >> other = act >>= λ _. other
