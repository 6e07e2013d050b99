-- ===== src/Common/Bytes.antt =====
-- Byte strings: the little- and big-endian forms of a machine word, and reads from a cursor.
use Prim.Native.Nat.{ℕ, zero, suc, ◌+◌, ◌-◌, ◌*◌, ◌/◌, ◌%◌, ◌^◌, ◌<◌}
use mathlib.Core.Path.{◌≡◌, refl, ap, subst}
use mathlib.Core.Logic.{◌↔◌}
use mathlib.Core.Bool.{Bool, true, false, ◌&&◌}
use mathlib.Core.List.{List, [], ◌∷◌, ◌++◌, reverse, reverse-reverse, reverse-cons, append-nil}
use native.Mathlib.Omega.{arith}
use native.Mathlib.Nat.{div-add-mod, div-lt_iff_lt-mul, pow-suc, pow-zero}
use evernode_se.Common.Tests.{◌==◌, ==_iff, ltb, if◌then◌else◌}
use evernode_se.Common.Lists.{
  length, length-append, take, drop, replicate, take-append, drop-append,
}
use evernode_se.Common.Assoc.{Key}
use evernode_se.Common.Result.{NodeResult, ok, err, ◌>>=◌, io, unexpected_eof}

abbrev pub Bytes : Type 0
Bytes = List ℕ

unfoldable pub bytes_eqb : Bytes → Bytes → Bool
bytes_eqb [] [] = true
bytes_eqb [] (b ∷ bs) = false
bytes_eqb (a ∷ as') [] = false
bytes_eqb (a ∷ as') (b ∷ bs) = a == b && bytes_eqb as' bs

pub bytes_eqb_iff : (a b : Bytes) → (bytes_eqb a b ≡ true) ↔ (a ≡ b)
unfolding bytes_eqb
bytes_eqb_iff [] [] = ground arith
bytes_eqb_iff [] (b ∷ bs) = ground arith
bytes_eqb_iff (a ∷ r) [] = ground arith
bytes_eqb_iff (a ∷ r) (b ∷ bs) = ground (arith, ==_iff a b, bytes_eqb_iff r bs)

instance abbrev pub bytes_key : Key Bytes
bytes_key = record { eqb = bytes_eqb; eqb_iff = bytes_eqb_iff }

-- The k lowest digits of x in base b, the lowest first.
unfoldable pub digits : ℕ → ℕ → ℕ → List ℕ
digits b zero x = []
digits b (suc k) x = (x % b) ∷ digits b k (x / b)

unfoldable pub of_digits : ℕ → List ℕ → ℕ
of_digits b [] = 0
of_digits b (d ∷ ds) = d + b * of_digits b ds

pub length-digits : (b k x : ℕ) → length (digits b k x) ≡ k
unfolding digits
length-digits b zero x = refl
length-digits b (suc k) x = ap suc (length-digits b k (x / b))

pub of_digits-digits : (b k x : ℕ) → 0 < b → x < b ^ k → of_digits b (digits b k x) ≡ x
unfolding digits of_digits
of_digits-digits b zero x p h = let bound : x < 1 = rw (pow-zero b) at h in omega arith
of_digits-digits b (suc k) x p h =
    rw (of_digits-digits b k (x / b) p ((div-lt_iff_lt-mul p).1 (rw pow-suc at h)))
      (omega (arith, div-add-mod x b))

-- `to_le_bytes`, `to_be_bytes` and `as_slice` of a word of k bytes, and the words that they stand for.
unfoldable pub le_bytes : ℕ → ℕ → Bytes
le_bytes = digits 256

unfoldable pub of_le_bytes : Bytes → ℕ
of_le_bytes = of_digits 256

unfoldable pub be_bytes : ℕ → ℕ → Bytes
be_bytes k x = reverse (digits 256 k x)

unfoldable pub of_be_bytes : Bytes → ℕ
of_be_bytes bs = of_digits 256 (reverse bs)

pub of_le_bytes-le_bytes : (k x : ℕ) → x < 256 ^ k → of_le_bytes (le_bytes k x) ≡ x
unfolding le_bytes of_le_bytes
of_le_bytes-le_bytes k x h = of_digits-digits 256 k x (omega arith) h

pub of_be_bytes-be_bytes : (k x : ℕ) → x < 256 ^ k → of_be_bytes (be_bytes k x) ≡ x
unfolding be_bytes of_be_bytes
of_be_bytes-be_bytes k x h =
    rw (reverse-reverse (digits 256 k x)) (of_digits-digits 256 k x (omega arith) h)

pub length-le_bytes : (k x : ℕ) → length (le_bytes k x) ≡ k
unfolding le_bytes
length-le_bytes k x = length-digits 256 k x

length-reverse : (xs : Bytes) → length (reverse xs) ≡ length xs
length-reverse [] = refl
length-reverse (x ∷ xs) = omega (
  arith,
  ap length (reverse-cons x xs),
  length-append {0} (reverse xs) (x ∷ []),
  length-reverse xs,
)

pub length-be_bytes : (k x : ℕ) → length (be_bytes k x) ≡ k
unfolding be_bytes
length-be_bytes k x = omega (arith, length-reverse (digits 256 k x), length-digits 256 k x)

-- `read_exact`: n bytes and what follows them, or the end of the file.
unfoldable pub read_exact : ℕ → Bytes → NodeResult (Bytes × Bytes)
read_exact n bs = if ltb (length bs) n then err (io unexpected_eof) else ok (take n bs, drop n bs)

-- `read` of a cursor into a zeroed buffer of n bytes: a short input leaves zeros at the end.
unfoldable pub read_upto : ℕ → Bytes → Bytes × Bytes
read_upto n bs = (take n bs ++ replicate (n - length bs) 0, drop n bs)

unfoldable pub read_le : ℕ → Bytes → NodeResult (ℕ × Bytes)
read_le k bs = do (w, rest) ← read_exact k bs; ok (of_le_bytes w, rest)

-- `read_u256`: a hash is the number of its 32 bytes, the highest first.
unfoldable pub read_u256 : Bytes → NodeResult (ℕ × Bytes)
read_u256 bs = do (w, rest) ← read_exact 32 bs; ok (of_be_bytes w, rest)

pub read_exact-append : (xs ys : Bytes) → read_exact (length xs) (xs ++ ys) ≡ ok (xs, ys)
unfolding read_exact
read_exact-append xs ys =
    ground (arith, length-append {0} xs ys, take-append xs ys, drop-append xs ys)

pub read_upto-append : (xs ys : Bytes) → read_upto (length xs) (xs ++ ys) ≡ (xs, ys)
unfolding read_upto
read_upto-append xs ys =
    let e : length xs - length (xs ++ ys) ≡ 0 = omega (arith, length-append {0} xs ys) in
    rw (e, take-append xs ys, drop-append xs ys, append-nil xs)

pub read_le-append :
    (k x : ℕ) (ys : Bytes) → x < 256 ^ k → read_le k (le_bytes k x ++ ys) ≡ ok (x, ys)
unfolding read_le
read_le-append k x ys h =
    let e : read_exact k (le_bytes k x ++ ys) ≡ ok (le_bytes k x, ys) =
      subst (λ n. read_exact n (le_bytes k x ++ ys) ≡ ok (le_bytes k x, ys)) (length-le_bytes k x)
        (read_exact-append (le_bytes k x) ys) in
    rw (e, of_le_bytes-le_bytes k x h)

abbrev pub hash_bytes : ℕ → Bytes
hash_bytes = be_bytes 32

pub read_u256-append :
    (x : ℕ) (ys : Bytes) → x < 256 ^ 32 → read_u256 (hash_bytes x ++ ys) ≡ ok (x, ys)
unfolding read_u256
read_u256-append x ys h =
    let e : read_exact 32 (hash_bytes x ++ ys) ≡ ok (hash_bytes x, ys) =
      subst (λ n. read_exact n (hash_bytes x ++ ys) ≡ ok (hash_bytes x, ys)) (length-be_bytes 32 x)
        (read_exact-append (hash_bytes x) ys) in
    rw (e, of_be_bytes-be_bytes 32 x h)
