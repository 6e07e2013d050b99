-- ===== src/Data/Kv/Examples.antt =====
-- Tests of the storages, and the storage in files over a file system held in memory.
use evernode_se.Common.{◌≡◌, refl, Bool, true, false, Option, none, some, [], ◌∷◌, arith}
use evernode_se.Common.Assoc.{Assoc, get-insert, get-remove}
use evernode_se.Common.Assoc
use evernode_se.Common.Bytes.{Bytes, bytes_key, bytes_eqb}
use evernode_se.Common.Result.{ok, err, io, other_kind, not_found, or_err}
use evernode_se.Data.Kv.{StorageKey, IsKv}
use evernode_se.Data.Kv.Mem
use evernode_se.Data.Kv.Fs.{FileSystem, IsFileSystem, fs_kv, fs_kv-IsKv}

-- Without `overwrite` the first value stays.
set_test :
    Mem.get (1 ∷ []) (Mem.set (1 ∷ []) (8 ∷ []) false (Mem.set (1 ∷ []) (7 ∷ []) false []).1).1
    ≡ ok (7 ∷ [])
unfolding Mem.get Mem.set Assoc.get Assoc.insert Assoc.remove bytes_eqb
set_test = refl

abbrev Files : Type 0
Files = Assoc StorageKey Bytes

abbrev is_some : Option Bytes → Bool
is_some none = false
is_some (some d) = true

abbrev memory_fs : FileSystem Files
memory_fs = record {
  exists = λ p f. is_some (Assoc.get f p);
  read_file = λ p f. or_err (Assoc.get f p) (io other_kind);
  write_file = λ p d f. (ok tt, Assoc.insert f p d);
  remove_file = λ p f. (ok tt, Assoc.remove f p);
}

or_err-found : (o : Option Bytes) → or_err o (io other_kind) ≡ err not_found → ⊥
or_err-found none h = cc
or_err-found (some d) h = cc

memory_fs-IsFileSystem : IsFileSystem memory_fs
memory_fs-IsFileSystem = record {
  read_ne_missing = λ p f. or_err-found (Assoc.get f p);
  exists-write = λ p q d f done. ground (arith, get-insert f p q d);
  read-write = λ p q d f done. ground (arith, get-insert f p q d);
  exists-remove = λ p q f done. ground (arith, get-remove f p q);
  read-remove = λ p q f done other. ground (arith, get-remove f p q);
}

fs_kv-IsKv_example : IsKv (fs_kv memory_fs)
fs_kv-IsKv_example = fs_kv-IsKv memory_fs memory_fs-IsFileSystem
