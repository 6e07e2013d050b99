-- ===== src/Common/Post.antt =====
-- Postconditions of actions: what holds of the result and the state where an action succeeds.
use mathlib.Core.Path.{◌≡◌, refl, subst}
use evernode_se.Common.Result.{NodeResult, ok, err, panic, ok-injective}
use evernode_se.Common.Exec.{Exec, continue, ◌>>=◌}

abbrev pub Post {ℓ κ} : {S A : Type ℓ} → (A → S → Type κ) → NodeResult A × S → Type κ
Post Q (ok a, s) = Q a s
Post Q (err e, s) = Unit
Post Q (panic, s) = Unit

module _ {ℓ κ} {S A : Type ℓ} (Q : A → S → Type κ) where
  -- From what holds on success.
  pub Post-intro : (r : NodeResult A) (s : S) → ((a : A) → r ≡ ok a → Q a s) → Post Q (r, s)
  Post-intro (ok a) s h = h a refl
  Post-intro (err e) s h = tt
  Post-intro panic s h = tt

  pub Post-run : (x : NodeResult A × S) (a : A) → Post Q x → x.0 ≡ ok a → Q a x.1
  Post-run (ok b, s) a h e = subst (λ c. Q c s) (ok-injective e) h
  Post-run (err b, s) a h e = cc
  Post-run (panic, s) a h e = cc

module _ {ℓ κ} {S A B : Type ℓ} (Q : B → S → Type κ) where
  pub Post-bind :
      (x : NodeResult A × S) (f : A → Exec S B)
      → Post (λ a s. Post Q (f a s)) x
      → Post Q (continue x.0 f x.1)
  Post-bind (ok a, s) f h = h
  Post-bind (err e, s) f h = tt
  Post-bind (panic, s) f h = tt

module _ {ℓ κ} {S A B : Type ℓ} (P : A → S → Type κ) (Q : B → S → Type κ) where
  -- What the first action ensures is at hand for the second.
  pub Post-then :
      (x : NodeResult A × S) (f : A → Exec S B)
      → Post P x
      → ((a : A) (s : S) → P a s → Post Q (f a s))
      → Post Q (continue x.0 f x.1)
  Post-then (ok a, s) f p h = h a s p
  Post-then (err e, s) f p h = tt
  Post-then (panic, s) f p h = tt

module _ {ℓ κ} {S A : Type ℓ} (P Q : A → S → Type κ) where
  pub Post-map : (x : NodeResult A × S) → Post P x → ((a : A) (s : S) → P a s → Q a s) → Post Q x
  Post-map (ok a, s) p h = h a s p
  Post-map (err e, s) p h = tt
  Post-map (panic, s) p h = tt

module _ {ℓ κ} {S A B : Type ℓ} (Q : B → S → Type κ) where
  pub Post-lift :
      (r : NodeResult A) (f : A → Exec S B) (s : S)
      → ((a : A) → r ≡ ok a → Post Q (f a s))
      → Post Q (continue r f s)
  Post-lift (ok a) f s h = h a refl
  Post-lift (err e) f s h = tt
  Post-lift panic f s h = tt

module _ {ℓ κ μ} {S A : Type ℓ} {I : Type μ} (P : I → A → S → Type κ) where
  pub Post-all :
      (x : NodeResult A × S) → ((i : I) → Post (P i) x) → Post (λ a s. (i : I) → P i a s) x
  Post-all (ok a, s) h = h
  Post-all (err e, s) h = tt
  Post-all (panic, s) h = tt

module _ {ℓ κ} {S : Type ℓ} {C : Type κ} (field : S → C) (c : C) where
  -- A field of the state that both actions leave alone, also where they fail.
  pub continue-keeps :
      {A B : Type ℓ} (x : NodeResult A × S) (f : A → Exec S B)
      → field x.1 ≡ c
      → ((a : A) (s : S) → field s ≡ c → field (f a s).1 ≡ c)
      → field (continue x.0 f x.1).1 ≡ c
  continue-keeps (ok a, s) f e h = h a s e
  continue-keeps (err b, s) f e h = e
  continue-keeps (panic, s) f e h = e

  pub bind-keeps :
      {A B : Type ℓ} (m : Exec S A) (f : A → Exec S B) (s : S)
      → field (m s).1 ≡ c
      → ((a : A) (s' : S) → field s' ≡ c → field (f a s').1 ≡ c)
      → field ((m >>= f) s).1 ≡ c
  bind-keeps m f s e h = continue-keeps (m s) f e h

module _ {ℓ} {S A B : Type ℓ} where
  -- Where both actions succeed, and what is between them.
  pub continue-eq-ok :
      (x : NodeResult A × S) (f : A → Exec S B) {b : B} {s' : S}
      → continue x.0 f x.1 ≡ (ok b, s')
      → (a : A) × (s : S) × (x ≡ (ok a, s)) × (f a s ≡ (ok b, s'))
  continue-eq-ok (ok a, s) f h = (a, s, refl, h)
  continue-eq-ok (err e, s) f h = cc
  continue-eq-ok (panic, s) f h = cc

  pub bind-eq-ok :
      (m : Exec S A) (f : A → Exec S B) (s : S) {b : B} {s' : S}
      → (m >>= f) s ≡ (ok b, s')
      → (a : A) × (s1 : S) × (m s ≡ (ok a, s1)) × (f a s1 ≡ (ok b, s'))
  bind-eq-ok m f s h = continue-eq-ok (m s) f h
