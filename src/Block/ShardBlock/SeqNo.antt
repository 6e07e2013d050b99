-- ===== src/Block/ShardBlock/SeqNo.antt =====
-- The key of a block's two numbers.
use Prim.Native.Nat.{bit_or, bit_or-bitwise}
use Prim.Native.Nat
use evernode_se.Common.{ℕ, zero, suc, ◌+◌, ◌*◌, ◌/◌, ◌^◌, ◌≤◌, ◌<◌, ◌≡◌, refl, ap, ◌∙◌, arith, max}
use evernode_se.Block.ShardBlock.{key_by_seqno}
use native.Mathlib.Nat.{pow-suc}

-- The digits of `|`, on fuel as the native operation has them.
abbrev or_digits : ℕ → ℕ → ℕ → ℕ
or_digits n a b = Nat.digits (λ b. b) max n a b

or_digits-zero : (n a : ℕ) → a ≤ n → or_digits n a 0 ≡ a
or_digits-zero zero zero h = refl
or_digits-zero zero (suc a) h = absurd (omega arith)
or_digits-zero (suc n) zero h = refl
or_digits-zero (suc n) (suc a) h = omega (arith, or_digits-zero n (suc a / 2) (omega arith))

-- With the k lowest digits of `a` clear and b below 2 ^ k, no digit meets another.
or_digits-add : (k v n a b : ℕ) → a ≤ n → a ≡ v * 2 ^ k → b < 2 ^ k → or_digits n a b ≡ a + b
or_digits-add zero v n a b h e lt =
    let none_left : b ≡ 0 = omega arith in rw none_left (omega (arith, or_digits-zero n a h))
or_digits-add (suc k) v zero zero b h e lt = omega arith
or_digits-add (suc k) v zero (suc a) b h e lt = absurd (omega arith)
or_digits-add (suc k) v (suc n) zero b h e lt = omega arith
or_digits-add (suc k) v (suc n) (suc a) b h e lt =
    let twice : suc a ≡ v * 2 ^ k * 2 = omega (arith, ap (λ (t : ℕ). v * t) (pow-suc 2 k)) in
    let small : b < 2 ^ k * 2 = rw pow-suc at lt in
    omega (arith, or_digits-add k v n (suc a / 2) (b / 2) (omega arith) (omega arith) (omega arith))

-- For a u32 `seq_no` the two numbers stand side by side.
pub key_by_seqno_sum :
    (seq_no vert : ℕ) → seq_no < 2 ^ 32 → key_by_seqno seq_no vert ≡ vert * 2 ^ 32 + seq_no
unfolding key_by_seqno
key_by_seqno_sum seq_no vert h =
    bit_or-bitwise (vert * 2 ^ 32) seq_no
    ∙ or_digits-add 32 vert (vert * 2 ^ 32) (vert * 2 ^ 32) seq_no (omega arith) refl h

-- Blocks with u32 numbers have one key exactly if they have the same numbers, and the key is a u64.
pub key_by_seqno-injective :
    (s v s' v' : ℕ)
    → s < 2 ^ 32
    → v < 2 ^ 32
    → s' < 2 ^ 32
    → v' < 2 ^ 32
    → (key_by_seqno s v < 2 ^ 64) × (key_by_seqno s v ≡ key_by_seqno s' v' → (s ≡ s') × (v ≡ v'))
key_by_seqno-injective s v s' v' hs hv hs' hv' = (
  omega (arith, key_by_seqno_sum s v hs),
  λ same. omega (arith, same, key_by_seqno_sum s v hs, key_by_seqno_sum s' v' hs'),
)
