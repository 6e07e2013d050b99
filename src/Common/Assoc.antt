-- ===== src/Common/Assoc.antt =====
-- `std::collections::HashMap` as an association list. Keys have a Boolean equality test.
use Prim.Native.Nat.{ℕ}
use mathlib.Core.Path.{◌≡◌, refl}
use mathlib.Core.Logic.{◌↔◌}
use mathlib.Core.Bool.{Bool, true}
use mathlib.Core.Option.{Option, none, some}
use mathlib.Core.List.{List, [], ◌∷◌}
use native.Mathlib.Omega.{arith}
use evernode_se.Common.Tests.{◌==◌, ==_iff, if◌then◌else◌}
use evernode_se.Common.Int.{ℤ, ◌==ℤ◌, ==ℤ_iff}

pub record Key (K : Type 0) : Type 0 where
  pub eqb : K → K → Bool
  pub eqb_iff : (a b : K) → (eqb a b ≡ true) ↔ (a ≡ b)

abbrev pub eqb : {K : Type 0} ⦃k : Key K⦄ → K → K → Bool
eqb ⦃k⦄ = k.eqb

pub eqb_iff : {K : Type 0} ⦃k : Key K⦄ (a b : K) → (eqb a b ≡ true) ↔ (a ≡ b)
eqb_iff ⦃k⦄ a b = k.eqb_iff a b

instance abbrev pub ℕ_key : Key ℕ
ℕ_key = record { eqb = ◌==◌; eqb_iff = ==_iff }

instance abbrev pub ℤ_key : Key ℤ
ℤ_key = record { eqb = ◌==ℤ◌; eqb_iff = ==ℤ_iff }

pub eqb_refl : {K : Type 0} ⦃k : Key K⦄ (i : K) → eqb i i ≡ true
eqb_refl ⦃k⦄ i = (k.eqb_iff i i).1 refl

abbrev pub Assoc : Type 0 → Type 0 → Type 0
Assoc K V = List (K × V)

module _ {K V : Type 0} ⦃k : Key K⦄ where
  unfoldable pub get : Assoc K V → K → Option V
  get [] i = none
  get ((j, v) ∷ m) i = if eqb j i then some v else get m i

  unfoldable pub remove : Assoc K V → K → Assoc K V
  remove [] i = []
  remove ((j, v) ∷ m) i = let rest = remove m i in if eqb j i then rest else (j, v) ∷ rest

  -- `insert` replaces the value of a key that is there.
  unfoldable pub insert : Assoc K V → K → V → Assoc K V
  unfolding remove
  insert m i v = (i, v) ∷ remove m i

  pub get-remove :
      (m : Assoc K V) (i j : K) → get (remove m i) j ≡ (if eqb i j then none else get m j)
  unfolding get remove
  get-remove [] i j = ground arith
  get-remove ((l, v) ∷ m) i j =
      ground (arith, get-remove m i j, k.eqb_iff l i, k.eqb_iff l j, k.eqb_iff i j)

  pub get-insert :
      (m : Assoc K V) (i j : K) (v : V)
      → get (insert m i v) j ≡ (if eqb i j then some v else get m j)
  unfolding get insert
  get-insert m i j v = ground (arith, get-remove m i j)

  pub get-insert_self : (m : Assoc K V) (i : K) (v : V) → get (insert m i v) i ≡ some v
  get-insert_self m i v = ground (arith, get-insert m i i v, eqb_refl i)
