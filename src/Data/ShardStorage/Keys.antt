-- ===== src/Data/ShardStorage/Keys.antt =====
-- No two items of a shard share a key.
use evernode_se.Common.{
  ℕ, ◌^◌, ◌<◌, ◌≡◌, refl, sym, ap, ◌∙◌, List, [], ◌∷◌, ◌++◌, map, arith, length, get_elem?,
}
use evernode_se.Common.Bytes.{digits, of_digits, of_digits-digits}
use evernode_se.Data.Kv.{StorageKey, codes}
use evernode_se.Data.ShardStorage.{
  blocks_finality_info_key, shard_info_key, shard_state_block_key, zerostate_key, upper_hex_digit,
  hex8, block_key, block_finality_hash_key,
}
use mathlib.Core.Option.{get_or}
use mathlib.Core.List.{reverse, reverse-reverse}

-- The items that a shard's storage holds.
pub data Item : Type 0 where
  finality_info shard_info shard_state zerostate : Item
  block : ℕ → ℕ → Item
  non_finalized : ℕ → Item

-- The numbers of a block are u32.
abbrev pub ItemIsWord : Item → Type 0
ItemIsWord (block s v) = (s < 2 ^ 32) × (v < 2 ^ 32)
ItemIsWord _ = Unit

abbrev pub key_of : (ℕ → StorageKey) → Item → StorageKey
key_of hex finality_info = blocks_finality_info_key
key_of hex shard_info = shard_info_key
key_of hex shard_state = shard_state_block_key
key_of hex zerostate = zerostate_key
key_of hex (block s v) = block_key s v
key_of hex (non_finalized h) = block_finality_hash_key hex h

-- The seventh character tells the kinds of items apart.
abbrev seventh : StorageKey → ℕ
seventh k = get_or (get_elem? k 6) 0

pub append-injective :
    (as' bs cs ds : List ℕ) → length as' ≡ length cs → as' ++ bs ≡ cs ++ ds → (as' ≡ cs) × (bs ≡ ds)
append-injective [] bs [] ds e p = (refl, p)
append-injective [] bs (c ∷ cs) ds e p = absurd (omega arith)
append-injective (a ∷ as') bs [] ds e p = absurd (omega arith)
append-injective (a ∷ as') bs (c ∷ cs) ds e p =
    let rest = append-injective as' bs cs ds (omega arith) (cc) in (cc (rest.0), rest.1)

pub append-injective_left : (xs bs ds : List ℕ) → xs ++ bs ≡ xs ++ ds → bs ≡ ds
append-injective_left xs bs ds p = (append-injective xs bs xs ds refl p).1

upper_hex_digit-injective : (a b : ℕ) → upper_hex_digit a ≡ upper_hex_digit b → a ≡ b
upper_hex_digit-injective a b h = ground arith

map-injective : (xs ys : List ℕ) → map upper_hex_digit xs ≡ map upper_hex_digit ys → xs ≡ ys
map-injective [] [] h = refl
map-injective [] (y ∷ ys) h = cc
map-injective (x ∷ xs) [] h = cc
map-injective (x ∷ xs) (y ∷ ys) h =
    let heads : x ≡ y = upper_hex_digit-injective x y (cc) in
    let tails : xs ≡ ys = map-injective xs ys (cc) in cc

hex8-injective : (a b : ℕ) → a < 2 ^ 32 → b < 2 ^ 32 → hex8 a ≡ hex8 b → a ≡ b
unfolding hex8
hex8-injective a b ha hb h =
    let same_digits : digits 16 8 a ≡ digits 16 8 b =
      simp reverse-reverse at
        (ap reverse (map-injective (reverse (digits 16 8 a)) (reverse (digits 16 8 b)) h)) in
    sym (of_digits-digits 16 8 a (omega arith) ha)
    ∙ ap (of_digits 16) same_digits
    ∙ of_digits-digits 16 8 b (omega arith) hb

length-hex8 : (a : ℕ) → length (hex8 a) ≡ 8
unfolding hex8 digits
length-hex8 a = refl

block_key-injective :
    (s v s' v' : ℕ)
    → s < 2 ^ 32
    → v < 2 ^ 32
    → s' < 2 ^ 32
    → v' < 2 ^ 32
    → block_key s v ≡ block_key s' v'
    → (s ≡ s') × (v ≡ v')
unfolding block_key
block_key-injective s v s' v' hs hv hs' hv' h =
    let numbers =
      append-injective (hex8 s) _ (hex8 s') _ (length-hex8 s ∙ sym (length-hex8 s'))
        (append-injective_left (codes "blocks/block_") _ _ h) in
    let versions =
      append-injective (hex8 v) _ (hex8 v') _ (length-hex8 v ∙ sym (length-hex8 v'))
        (append-injective_left (codes "_") _ _ numbers.1) in
    (hex8-injective s s' hs hs' numbers.0, hex8-injective v v' hv hv' versions.0)

-- If hashes print injectively, then items with one key are one item, where the numbers of blocks are
-- u32.
pub key_of-injective :
    (hex : ℕ → StorageKey)
    → ((a b : ℕ) → hex a ≡ hex b → a ≡ b)
    → (i j : Item) → ItemIsWord i
    → ItemIsWord j
    → key_of hex i ≡ key_of hex j
    → i ≡ j
unfolding block_key block_finality_hash_key
key_of-injective hex inj finality_info finality_info p q h = refl
key_of-injective hex inj shard_info shard_info p q h = refl
key_of-injective hex inj shard_state shard_state p q h = refl
key_of-injective hex inj zerostate zerostate p q h = refl
key_of-injective hex inj (block s v) (block s' v') p q h =
    let same = block_key-injective s v s' v' p.0 p.1 q.0 q.1 h in cc (same.0, same.1)
key_of-injective hex inj (non_finalized a) (non_finalized b) p q h =
    ap non_finalized (inj a b (append-injective_left (codes "block_finality/") _ _ h))
key_of-injective hex inj _ _ p q h = absurd (omega (arith, ap seventh h))
