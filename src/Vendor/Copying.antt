-- ===== src/Vendor/Copying.antt =====
-- `copy_tree` of vendor.rs, and the operations of the file system that the module's writes use. A
-- directory is listed when the copy enters it, so it holds what the copy itself has put there by then; its
-- entries are those of the moment at which it is opened.
pub mod Enough
pub mod Total
use akua.Base.{ℕ, zero, suc, Bool, Option, none, some, List, [], ◌∷◌, Result, ok, err}
use akua.Base.Paths.{FilePath, join}
use akua.Base.Runs.{Run, returns, fails, try_map, ◌>>=◌}
use akua.Base.Texts.{Text}
use akua.Vendor.{VendorError, io}

-- An entry of `read_dir`: one that cannot be read, or a name with its type or the error of reading that.
pub data DirEntry (IoError : Type 0) : Type 0 where
  unreadable : IoError → DirEntry IoError
  untyped : Text → IoError → DirEntry IoError
  is_directory is_regular is_other : Text → DirEntry IoError

-- What the module does to the file system. `parent` is `Path::parent`; no path has more than `path_max` bytes, and
-- `too_long` is the error of one that has.
pub record Store (IoError Disk : Type 0) : Type 0 where
  pub parent : FilePath → Option FilePath
  pub path_max : ℕ
  pub too_long : IoError
  pub read_dir : FilePath → Disk → Result IoError (List (DirEntry IoError))
  pub remove_dir_all : FilePath → Disk → Result IoError Disk
  pub create_dir_all : FilePath → Disk → Result IoError Disk
  pub copy : FilePath → FilePath → Disk → Result IoError Disk
  pub write : FilePath → Text → Disk → Result IoError Disk

module _ {IoError TomlError Disk : Type 0} (store : Store IoError Disk) where
  -- The loop over a directory, with what copies a directory in it. An entry that cannot be read names the target.
  unfoldable pub copy_entries :
      (FilePath → FilePath → Disk → Run (VendorError IoError TomlError) Disk)
      → FilePath
      → FilePath
      → List (DirEntry IoError)
      → Disk
      → Run (VendorError IoError TomlError) Disk
  unfolding join
  copy_entries descend source target [] disk = returns disk
  copy_entries descend source target (unreadable e ∷ rest) disk = fails (io target e)
  copy_entries descend source target (untyped name e ∷ rest) disk = fails (io (join source name) e)
  copy_entries descend source target (is_other _ ∷ rest) disk =
      copy_entries descend source target rest disk
  copy_entries descend source target (is_regular name ∷ rest) disk = do
    copied ← try_map (io (join source name)) (store.copy (join source name) (join target name) disk)
    copy_entries descend source target rest copied
  copy_entries descend source target (is_directory name ∷ rest) disk = do
    copied ← descend (join source name) (join target name) disk
    copy_entries descend source target rest copied

  -- The copy with a bound on the depth; where the bound is spent the target is too long a path.
  unfoldable pub copy_within :
      ℕ → FilePath → FilePath → Disk → Run (VendorError IoError TomlError) Disk
  unfolding copy_entries
  copy_within zero source target disk = fails (io target store.too_long)
  copy_within (suc n) source target disk = do
    created ← try_map (io target) (store.create_dir_all target disk)
    entries ← try_map (io source) (store.read_dir source created)
    copy_entries (copy_within n) source target entries created

  -- Each directory makes the path longer, so the longest path bounds the depth.
  unfoldable pub copy_tree : FilePath → FilePath → Disk → Run (VendorError IoError TomlError) Disk
  unfolding copy_within
  copy_tree source target disk = copy_within (suc store.path_max) source target disk
