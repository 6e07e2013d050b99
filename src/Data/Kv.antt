-- ===== src/Data/Kv.antt =====
-- `KVStorage` of node/src/data/mod.rs: the trait as a record of operations, and the laws that its
-- users rely on. A key is the list of its character codes.
pub mod Mem
pub mod Fs
mod Examples
use Prim.Native.Char.{code}
use Prim.Native.String
use evernode_se.Common.{ℕ, String, ◌≡◌, Bool, true, false, List, [], ◌∷◌, if◌then◌else◌}
use evernode_se.Common.Bytes.{Bytes, bytes_eqb}
use evernode_se.Common.Result.{NodeResult, ok, err, not_found, panic}
use evernode_se.Common.Exec.{Exec}

abbrev pub StorageKey : Type 0
StorageKey = List ℕ

abbrev pub codes : String → List ℕ
codes String.[] = []
codes (String.◌∷◌ c s) = code c ∷ codes s

pub record KvStorage (S : Type 0) : Type 0 where
  pub get : StorageKey → S → NodeResult Bytes
  pub set : StorageKey → Bytes → Bool → Exec S (Unit {0})
  pub remove : StorageKey → Exec S (Unit {0})

-- What `set` leaves under its key: with `overwrite` the value, and without it only in place of none.
abbrev pub kept : NodeResult Bytes → Bytes → NodeResult Bytes
kept (err not_found) d = ok d
kept r d = r

abbrev pub stored : Bool → NodeResult Bytes → Bytes → NodeResult Bytes
stored true r d = ok d
stored false r d = kept r d

pub record IsKv {S : Type 0} (kv : KvStorage S) : Type 0 where
  pub get-set :
      (k j : StorageKey) (d : Bytes) (over : Bool) (s : S)
      → (kv.set k d over s).0 ≡ ok tt
      → kv.get j (kv.set k d over s).1
        ≡ (if bytes_eqb k j then stored over (kv.get j s) d else kv.get j s)
  pub get-remove :
      (k j : StorageKey) (s : S)
      → (kv.remove k s).0 ≡ ok tt
      → kv.get j (kv.remove k s).1 ≡ (if bytes_eqb k j then err not_found else kv.get j s)
