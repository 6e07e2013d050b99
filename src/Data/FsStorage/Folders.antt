-- ===== src/Data/FsStorage/Folders.antt =====
-- Storages of different shards have different folders.
use evernode_se.Common.{
  ℕ, zero, suc, ◌+◌, ◌-◌, ◌*◌, ◌/◌, ◌%◌, ◌^◌, ◌<◌, ◌≤◌, ◌≡◌, refl, sym, ap, subst, ◌∙◌, inl, inr,
  Bool, true, false, List, [], ◌∷◌, ◌++◌, map, ltb, arith, length, length-append, Bool-cases,
}
use evernode_se.Common.Int.{ℤ, pos, negsuc, ◌==ℤ◌, ==ℤ_iff}
use evernode_se.Common.Bytes.{digits, of_digits, of_digits-digits}
use evernode_se.Data.Kv.{StorageKey, codes}
use evernode_se.Data.ShardStorage.Keys.{append-injective, append-injective_left}
use evernode_se.Data.FsStorage.{
  decimal_digits, decimal, lower_hex_digit, hex16, workchain_name, shard_name, root_path,
}
use mathlib.Core.List.{reverse, reverse-reverse}

-- What decimal digits stand for.
value_from : ℕ → List ℕ → ℕ
value_from acc [] = acc
value_from acc (c ∷ cs) = value_from (acc * 10 + (c - 48)) cs

value_from-append :
    (acc : ℕ) (xs : List ℕ) (c : ℕ)
    → value_from acc (xs ++ c ∷ []) ≡ value_from acc xs * 10 + (c - 48)
unfolding value_from
value_from-append acc [] c = refl
value_from-append acc (x ∷ xs) c = value_from-append (acc * 10 + (x - 48)) xs c

value_from-decimal_digits : (fuel n : ℕ) → n < fuel → value_from 0 (decimal_digits fuel n) ≡ n
unfolding decimal_digits value_from
value_from-decimal_digits zero n h = absurd (omega (arith, h))
value_from-decimal_digits (suc fuel) n h = ground (
  arith,
  value_from-append 0 (decimal_digits fuel (n / 10)) (n % 10 + 48),
  value_from-decimal_digits fuel (n / 10),
)

-- The first character is a digit.
abbrev StartsWithDigit : List ℕ → Type 0
StartsWithDigit [] = ⊥
StartsWithDigit (c ∷ cs) = 48 ≤ c

StartsWithDigit-append : (xs ys : List ℕ) → StartsWithDigit xs → StartsWithDigit (xs ++ ys)
StartsWithDigit-append [] ys h = elim h [ ]
StartsWithDigit-append (x ∷ xs) ys h = h

decimal_digits-StartsWithDigit : (fuel n : ℕ) → n < fuel → StartsWithDigit (decimal_digits fuel n)
unfolding decimal_digits
decimal_digits-StartsWithDigit zero n h = absurd (omega (arith, h))
decimal_digits-StartsWithDigit (suc fuel) n h = elim (Bool-cases (ltb n 10)) [
  | inl small ↦ rw small (omega arith)
  | inr large ↦ rw large (
      StartsWithDigit-append (decimal_digits fuel (n / 10)) ((n % 10 + 48) ∷ [])
        (decimal_digits-StartsWithDigit fuel (n / 10) (ground arith)))
]

sign-ne-digit :
    (f m g n : ℕ) → m < f → decimal_digits f m ≡ codes "-" ++ decimal_digits g n → 48 ≤ 45
sign-ne-digit f m g n h e = subst StartsWithDigit e (decimal_digits-StartsWithDigit f m h)

decimal-injective : (a b : ℤ) → decimal a ≡ decimal b → a ≡ b
unfolding decimal
decimal-injective (pos m) (pos n) h = ap pos (
    sym (value_from-decimal_digits (suc m) m (omega arith))
    ∙ (ap (value_from 0) h ∙ value_from-decimal_digits (suc n) n (omega arith)))
decimal-injective (pos m) (negsuc n) h =
    absurd (omega (arith, sign-ne-digit (suc m) m (suc (suc n)) (suc n) (omega arith) h))
decimal-injective (negsuc m) (pos n) h =
    absurd (omega (arith, sign-ne-digit (suc n) n (suc (suc m)) (suc m) (omega arith) (sym h)))
decimal-injective (negsuc m) (negsuc n) h =
    let numbers : decimal_digits (suc (suc m)) (suc m) ≡ decimal_digits (suc (suc n)) (suc n) =
      append-injective_left (codes "-") _ _ h in
    let same : suc m ≡ suc n =
      sym (value_from-decimal_digits (suc (suc m)) (suc m) (omega arith))
      ∙ (ap (value_from 0) numbers
          ∙ value_from-decimal_digits (suc (suc n)) (suc n) (omega arith)) in
    ap negsuc (omega (arith, same))

lower_hex_digit-injective : (a b : ℕ) → lower_hex_digit a ≡ lower_hex_digit b → a ≡ b
lower_hex_digit-injective a b h = ground arith

map-injective : (xs ys : List ℕ) → map lower_hex_digit xs ≡ map lower_hex_digit ys → xs ≡ ys
map-injective [] [] h = refl
map-injective [] (y ∷ ys) h = cc
map-injective (x ∷ xs) [] h = cc
map-injective (x ∷ xs) (y ∷ ys) h =
    let heads : x ≡ y = lower_hex_digit-injective x y (cc) in
    let tails : xs ≡ ys = map-injective xs ys (cc) in cc

hex16-injective : (a b : ℕ) → a < 2 ^ 64 → b < 2 ^ 64 → hex16 a ≡ hex16 b → a ≡ b
unfolding hex16
hex16-injective a b ha hb h =
    let same_digits : digits 16 16 a ≡ digits 16 16 b =
      simp reverse-reverse at
        (ap reverse (map-injective (reverse (digits 16 16 a)) (reverse (digits 16 16 b)) h)) in
    sym (of_digits-digits 16 16 a (omega arith) ha)
    ∙ (ap (of_digits 16) same_digits ∙ of_digits-digits 16 16 b (omega arith) hb)

length-shard_name : (a : ℕ) → length (shard_name a) ≡ 22
unfolding shard_name hex16 digits
length-shard_name a = refl

-- A shard is of the masterchain exactly if its workchain is -1.
abbrev pub IsMasterchain : Bool → ℤ → Type 0
IsMasterchain masterchain workchain_id = masterchain ≡ (workchain_id ==ℤ negsuc 0)

abbrev first_code : List ℕ → ℕ
first_code [] = 0
first_code (c ∷ cs) = c

workchain_name-injective :
    (m m' : Bool) (w w' : ℤ)
    → IsMasterchain m w
    → IsMasterchain m' w'
    → workchain_name m w ≡ workchain_name m' w'
    → w ≡ w'
unfolding workchain_name
workchain_name-injective true true w w' e e' h =
    (==ℤ_iff w (negsuc 0)).0 (sym e) ∙ sym ((==ℤ_iff w' (negsuc 0)).0 (sym e'))
workchain_name-injective true false w w' e e' h = absurd (omega (arith, ap first_code h))
workchain_name-injective false true w w' e e' h = absurd (omega (arith, ap first_code h))
workchain_name-injective false false w w' e e' h =
    decimal-injective w w' (append-injective_left (codes "WC") _ _ h)

-- Two shards whose storages have the same folder are the same: they have the same workchain and the
-- same prefix, where prefixes are u64 and the masterchain is workchain -1.
pub root_path-injective :
    (folder : StorageKey) (m m' : Bool) (w w' : ℤ) (p p' : ℕ)
    → IsMasterchain m w
    → IsMasterchain m' w'
    → p < 2 ^ 64
    → p' < 2 ^ 64
    → root_path folder m w p ≡ root_path folder m' w' p'
    → (w ≡ w') × (p ≡ p')
unfolding root_path shard_name
root_path-injective folder m m' w w' p p' e e' hp hp' h =
    let names = append-injective_left (codes "/") _ _ (append-injective_left folder _ _ h) in
    let parts =
      append-injective (workchain_name m w) _ (workchain_name m' w') _
        (omega (
          arith,
          ap length names,
          length-append {0} (workchain_name m w) (codes "/" ++ shard_name p),
          length-append {0} (workchain_name m' w') (codes "/" ++ shard_name p'),
          length-shard_name p,
          length-shard_name p',
        ))
        names in
    let shards = append-injective_left (codes "/shard_") _ _ parts.1 in
    (workchain_name-injective m m' w w' e e' parts.0, hex16-injective p p' hp hp' shards)
