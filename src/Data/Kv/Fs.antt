-- ===== src/Data/Kv/Fs.antt =====
-- node/src/data/fs_storage.rs: the storage in files. The file system is a parameter; a path is
-- relative to the storage's folder.
use evernode_se.Common.{◌≡◌, Bool, true, false, arith, if◌then◌else◌}
use evernode_se.Common.Bytes.{Bytes, bytes_eqb, bytes_eqb_iff}
use evernode_se.Common.Result.{NodeResult, ok, err, not_found}
use evernode_se.Common.Exec.{Exec}
use evernode_se.Data.Kv.{StorageKey, KvStorage, IsKv, stored}

-- `Path::exists`; opening and reading a whole file; creating, writing and flushing a file;
-- `remove_file`.
pub record FileSystem (F : Type 0) : Type 0 where
  pub exists : StorageKey → F → Bool
  pub read_file : StorageKey → F → NodeResult Bytes
  pub write_file : StorageKey → Bytes → Exec F (Unit {0})
  pub remove_file : StorageKey → Exec F (Unit {0})

-- Files that are there can be read, and are other than missing; a completed write or removal shows
-- in the file and in no other.
pub record IsFileSystem {F : Type 0} (fs : FileSystem F) : Type 0 where
  pub read_ne_missing : (p : StorageKey) (f : F) → fs.read_file p f ≡ err not_found → ⊥
  pub exists-write :
      (p q : StorageKey) (d : Bytes) (f : F)
      → (fs.write_file p d f).0 ≡ ok tt
      → fs.exists q (fs.write_file p d f).1 ≡ (if bytes_eqb p q then true else fs.exists q f)
  pub read-write :
      (p q : StorageKey) (d : Bytes) (f : F)
      → (fs.write_file p d f).0 ≡ ok tt
      → fs.read_file q (fs.write_file p d f).1 ≡ (if bytes_eqb p q then ok d else fs.read_file q f)
  pub exists-remove :
      (p q : StorageKey) (f : F)
      → (fs.remove_file p f).0 ≡ ok tt
      → fs.exists q (fs.remove_file p f).1 ≡ (if bytes_eqb p q then false else fs.exists q f)
  pub read-remove :
      (p q : StorageKey) (f : F)
      → (fs.remove_file p f).0 ≡ ok tt
      → bytes_eqb p q ≡ false
      → fs.read_file q (fs.remove_file p f).1 ≡ fs.read_file q f

module _ {F : Type 0} (fs : FileSystem F) where
  unfoldable pub get : StorageKey → F → NodeResult Bytes
  get key f = if fs.exists key f then fs.read_file key f else err not_found

  unfoldable pub set : StorageKey → Bytes → Bool → Exec F (Unit {0})
  set key d over f =
      if over
      then fs.write_file key d f
      else if fs.exists key f
      then (ok tt, f)
      else fs.write_file key d f

  unfoldable pub remove : StorageKey → Exec F (Unit {0})
  remove key f = if fs.exists key f then fs.remove_file key f else (ok tt, f)

  abbrev pub fs_kv : KvStorage F
  fs_kv = record { get = get; set = set; remove = remove }

module _ {F : Type 0} (fs : FileSystem F) (laws : IsFileSystem fs) where
  fs-get-set :
      (k j : StorageKey) (d : Bytes) (over : Bool) (f : F)
      → (set fs k d over f).0 ≡ ok tt
      → get fs j (set fs k d over f).1
        ≡ (if bytes_eqb k j then stored over (get fs j f) d else get fs j f)
  unfolding get set
  fs-get-set k j d over f done = ground (
    arith,
    laws.exists-write k j d f,
    laws.read-write k j d f,
    laws.read_ne_missing j f,
    bytes_eqb_iff k j,
  )

  fs-get-remove :
      (k j : StorageKey) (f : F)
      → (remove fs k f).0 ≡ ok tt
      → get fs j (remove fs k f).1 ≡ (if bytes_eqb k j then err not_found else get fs j f)
  unfolding get remove
  fs-get-remove k j f done =
      ground (arith, laws.exists-remove k j f, laws.read-remove k j f, bytes_eqb_iff k j)

  -- The storage in files keeps the laws of a key-value storage, if the file system keeps its own.
  pub fs_kv-IsKv : IsKv (fs_kv fs)
  fs_kv-IsKv = record { get-set = fs-get-set; get-remove = fs-get-remove }
