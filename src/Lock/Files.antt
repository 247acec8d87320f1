-- ===== src/Lock/Files.antt =====
-- `akua.lock` on disk: `parse`, `to_toml`, `load` and `save`, and the errors of loading. The TOML
-- library and the file system are arguments.
use akua.Base.{
  ◌≡◌, ap, ◌∙◌, Bool, true, false, ◌++◌, Result, ok, err, ◌>>=◌, map_err, arith, inl, inr,
  Result-cases,
}
use akua.Base.Orders.{nat_ord, list_ord, pair_ord}
use akua.Base.Paths.{FilePath, join, Read, content, not_found, io_error}
use akua.Base.Sorting.{HasDistinctKeys}
use akua.Base.Texts.{Text, codes, em_dash}
use akua.Contract.Errors.{StructuredError, new_error, with_path, with_default_docs}
use akua.Lock.{AkuaLock, LockError, parse_error, serialize_error, validate, sort, sort_key}
use akua.Lock.Order.{KnownDigests, sort-validate}

pub data LockLoadError (IoError TomlError : Type 0) : Type 0 where
  missing : FilePath → LockLoadError IoError TomlError
  io : FilePath → IoError → LockLoadError IoError TomlError
  parse : FilePath → LockError TomlError → LockLoadError IoError TomlError

module _ {IoError TomlError : Type 0} where
  module _ (io_text : IoError → Text) (lock_text : LockError TomlError → Text) where
    unfoldable pub to_structured : LockLoadError IoError TomlError → StructuredError
    to_structured (missing path) =
        with_default_docs
          (with_path path (new_error (codes "E_LOCK_MISSING") (codes "akua.lock not found")))
    to_structured (io path source) =
        with_default_docs (with_path path (new_error (codes "E_IO") (io_text source)))
    to_structured (parse path source) =
        with_default_docs (with_path path (new_error (codes "E_LOCK_PARSE") (lock_text source)))

  unfoldable pub is_system : LockLoadError IoError TomlError → Bool
  is_system (io _ _) = true
  is_system _ = false

-- The comment that `save` puts in front.
abbrev pub header : Text
header =
    codes "# akua.lock "
    ++ (em_dash
        ++ codes
            " machine-maintained. Never hand-edit.\n# Regenerated by `akua add`, `akua pull`, `akua publish`, `akua update`.\n\n")

module _ {TomlError : Type 0} (from_str : Text → Result TomlError AkuaLock) where
  unfoldable pub parse_lock : Text → Result (LockError TomlError) AkuaLock
  parse_lock s = do
    lock ← map_err parse_error (from_str s)
    elim (validate lock) [ ok _ ↦ ok lock | err e ↦ err e ]

  load_read :
      {IoError : Type 0}
      → FilePath
      → Read IoError
      → Result (LockLoadError IoError TomlError) AkuaLock
  load_read path (content s) = map_err (parse path) (parse_lock s)
  load_read path not_found = err (missing path)
  load_read path (io_error e) = err (io path e)

  unfoldable pub load :
      {IoError : Type 0}
      → (FilePath → Read IoError)
      → FilePath
      → Result (LockLoadError IoError TomlError) AkuaLock
  unfolding load_read parse_lock
  load read workspace = let path = join workspace (codes "akua.lock") in load_read path (read path)

module _ {TomlError : Type 0} (to_string_pretty : AkuaLock → Result TomlError Text) where
  unfoldable pub to_toml : AkuaLock → Result (LockError TomlError) Text
  to_toml lock = map_err serialize_error (to_string_pretty lock)

  -- `write` is `std::fs::write`, from one state of the file system to the next.
  unfoldable pub save :
      {IoError Disk : Type 0}
      → (FilePath → Text → Disk → Result IoError Disk)
      → FilePath
      → AkuaLock
      → Disk
      → Result (LockLoadError IoError TomlError) Disk
  unfolding to_toml
  save write workspace lock disk = do
    body ← map_err (parse (join workspace (codes "akua.lock"))) (to_toml (sort lock))
    map_err (io (join workspace (codes "akua.lock")))
        (write (join workspace (codes "akua.lock")) (header ++ body) disk)

parse_lock-of :
    {TomlError : Type 0} (from_str : Text → Result TomlError AkuaLock) (s : Text) {lock : AkuaLock}
    → from_str s ≡ ok lock
    → validate {TomlError = TomlError} lock ≡ ok tt
    → parse_lock from_str s ≡ ok lock
unfolding parse_lock
parse_lock-of from_str s e v = ground arith

module _ {IoError TomlError Disk : Type 0} (from_str : Text → Result TomlError AkuaLock)
    (to_string_pretty : AkuaLock → Result TomlError Text) (read : Disk → FilePath → Read IoError)
    (write : FilePath → Text → Disk → Result IoError Disk) where
  load-content :
      (workspace : FilePath) (disk : Disk) (s : Text) {lock : AkuaLock}
      → read disk (join workspace (codes "akua.lock")) ≡ content s
      → parse_lock from_str s ≡ ok lock
      → load from_str (read disk) workspace ≡ ok lock
  unfolding load load_read
  load-content workspace disk s r p =
      let path = join workspace (codes "akua.lock") in
      ap (load_read from_str path) r ∙ ap (map_err (parse path)) p

  save-written :
      (workspace : FilePath) (lock : AkuaLock) (disk : Disk) {after : Disk}
      → save to_string_pretty write workspace lock disk ≡ ok after
      → (body : Text) × (to_string_pretty (sort lock) ≡ ok body)
        × (write (join workspace (codes "akua.lock")) (header ++ body) disk ≡ ok after)
  unfolding save to_toml
  save-written workspace lock disk h = elim (Result-cases (to_string_pretty (sort lock))) [
    | inl (e, k) ↦ ground arith
    | inr (body, k) ↦ (body, k, ground arith)
  ]

  -- Where the TOML library reads back the sorted lock that it wrote, under the header too, and the file
  -- system reads back what was written to the lock's path: a lock of version 1 that has no two entries of one name
  -- and version and whose digests have a known prefix is loaded after `save` as that lock, sorted.
  pub save-load :
      (workspace : FilePath) (lock : AkuaLock) (disk : Disk) {after : Disk}
      → ((body : Text)
          → to_string_pretty (sort lock) ≡ ok body
          → from_str (header ++ body) ≡ ok (sort lock))
      → ((s : Text) (next : Disk)
          → write (join workspace (codes "akua.lock")) s disk ≡ ok next
          → read next (join workspace (codes "akua.lock")) ≡ content s)
      → lock.version ≡ 1
      → HasDistinctKeys sort_key lock.packages
      → KnownDigests lock.packages
      → save to_string_pretty write workspace lock disk ≡ ok after
      → load from_str (read after) workspace ≡ ok (sort lock)
  save-load workspace lock disk {after} decodes reads v h d s =
      let (body, encoded, written) = save-written workspace lock disk s in
      load-content workspace after (header ++ body) (reads (header ++ body) after written)
        (parse_lock-of from_str (header ++ body) (decodes body encoded) (sort-validate lock v h d))
