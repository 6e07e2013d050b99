-- ===== src/Data/Kv/Mem.antt =====
-- node/src/data/mem_storage.rs: the storage in memory.
use evernode_se.Common.{◌≡◌, Bool, true, Option, none, some, [], arith, if◌then◌else◌}
use evernode_se.Common.Assoc.{Assoc, get-insert, get-remove}
use evernode_se.Common.Assoc
use evernode_se.Common.Bytes.{Bytes, bytes_key, bytes_eqb, bytes_eqb_iff}
use evernode_se.Common.Result.{NodeResult, ok, err, not_found, or_err}
use evernode_se.Common.Exec.{Exec}
use evernode_se.Data.Kv.{StorageKey, KvStorage, IsKv, stored}

abbrev pub MemKvStorage : Type 0
MemKvStorage = Assoc StorageKey Bytes

unfoldable pub get : StorageKey → MemKvStorage → NodeResult Bytes
get key s = or_err (Assoc.get s key) not_found

set_over : Option Bytes → StorageKey → Bytes → Bool → MemKvStorage → MemKvStorage
set_over none key d over s = Assoc.insert s key d
set_over (some existing) key d over s = if over then Assoc.insert s key d else s

unfoldable pub set : StorageKey → Bytes → Bool → Exec MemKvStorage (Unit {0})
unfolding set_over
set key d over s = (ok tt, set_over (Assoc.get s key) key d over s)

unfoldable pub remove : StorageKey → Exec MemKvStorage (Unit {0})
remove key s = (ok tt, Assoc.remove s key)

abbrev pub mem_kv : KvStorage MemKvStorage
mem_kv = record { get = get; set = set; remove = remove }

mem-get-set :
    (k j : StorageKey) (d : Bytes) (over : Bool) (s : MemKvStorage)
    → get j (set k d over s).1 ≡ (if bytes_eqb k j then stored over (get j s) d else get j s)
unfolding get set
mem-get-set k j d over s = ground (arith, get-insert s k j d, bytes_eqb_iff k j)

mem-get-remove :
    (k j : StorageKey) (s : MemKvStorage)
    → get j (remove k s).1 ≡ (if bytes_eqb k j then err not_found else get j s)
unfolding get remove
mem-get-remove k j s = ground (arith, get-remove s k j)

-- The storage in memory keeps the laws of a key-value storage.
pub mem_kv-IsKv : IsKv mem_kv
mem_kv-IsKv = record {
  get-set = λ k j d over s done. mem-get-set k j d over s;
  get-remove = λ k j s done. mem-get-remove k j s;
}

-- `MemStorage::shard_storage`: the zerostate is there for the whole shard of workchain 0 only.
unfoldable pub shard_storage {ℓ} :
    {ShardIdent : Type ℓ} → (ShardIdent → Bool) → StorageKey → Bytes → ShardIdent → MemKvStorage
shard_storage is_full_zero zerostate_key zerostate shard =
    if is_full_zero shard then (set zerostate_key zerostate true []).1 else []
