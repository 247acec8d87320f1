-- ===== src/Oci/Editing.antt =====
-- `upsert_entry` and `remove_entry` of oci_auth.rs: the entries of `auth.toml` on disk. The file system is an
-- argument, from one state to the next; what a write that fails leaves behind is not told.
pub mod Kept
pub mod Used
use akua.Base.{
  ◌≡◌, Bool, true, false, not, Option, none, some, List, [], ◌∷◌, ◌++◌, Result, ok, err, ◌>>=◌,
  map_err, is_empty, if◌then◌else◌, ◌==◌, list_eq, nat_eq,
}
use akua.Base.Maps.{Map, get, insert, remove}
use akua.Base.Orders.{nat_ord, list_ord}
use akua.Base.Paths.{FilePath, Read, content, not_found, io_error}
use akua.Base.Texts.{Text, codes, rsplit_once}
use akua.Oci.Transport.{Credentials}
use akua.Oci.Store.{AuthLoadError, io, parse, toml, AkuaAuthEntry, AkuaAuthFile, from_credentials}

-- The file system. `missing` is the error of a read that finds no file.
pub record Disk (IoError Files : Type 0) : Type 0 where
  pub exists : FilePath → Files → Bool
  pub read : FilePath → Files → Read IoError
  pub missing : IoError
  pub create_dir_all : FilePath → Files → Result IoError Files
  pub write : FilePath → Text → Files → Result IoError Files
  pub rename : FilePath → FilePath → Files → Result IoError Files

-- The library for TOML. `invalid_data` is the error of the I/O library that has the error's text.
pub record Codec (IoError TomlError : Type 0) : Type 0 where
  pub from_str : Text → Result TomlError AkuaAuthFile
  pub to_string_pretty : AkuaAuthFile → Result TomlError Text
  pub invalid_data : TomlError → IoError

-- `path.parent()` of a path that ends in a file's name, where it is there and not empty.
parent : FilePath → Option FilePath
unfolding rsplit_once
parent path = elim (rsplit_once b'/' path) [
  | none ↦ none
  | some parts ↦ if is_empty parts.0 then some (codes "/") else some parts.0
]

-- A file's name without its extension.
file_stem : Text → Text
unfolding rsplit_once
file_stem name = elim (rsplit_once b'.' name) [
  | none ↦ name
  | some parts ↦ if is_empty parts.0 then name else parts.0
]

-- `path.with_extension(extension)` of a path that ends in a file's name.
with_extension : Text → FilePath → FilePath
unfolding rsplit_once file_stem
with_extension extension path = elim (rsplit_once b'/' path) [
  | none ↦ file_stem path ++ (b'.' ∷ extension)
  | some parts ↦ parts.0 ++ (b'/' ∷ (file_stem parts.1 ++ (b'.' ∷ extension)))
]

module _ {IoError TomlError JsonError Files : Type 0} (disk : Disk IoError Files)
    (codec : Codec IoError TomlError) where
  unfoldable pub read_string :
      FilePath → Files → Result (AuthLoadError IoError TomlError JsonError) Text
  read_string path files = elim (disk.read path files) [
    | content body ↦ ok body
    | not_found ↦ err (io path disk.missing)
    | io_error e ↦ err (io path e)
  ]

  unfoldable pub load_file :
      FilePath → Files → Result (AuthLoadError IoError TomlError JsonError) AkuaAuthFile
  unfolding read_string
  load_file path files =
      if disk.exists path files
      then (read_string path files >>= λ body.
          map_err (λ e. parse path (toml e)) (codec.from_str body))
      else ok (record { registries = [] })

  create_parent : Option FilePath → Files → Result (AuthLoadError IoError TomlError JsonError) Files
  create_parent none files = ok files
  create_parent (some dir) files = map_err (io dir) (disk.create_dir_all dir files)

  unfoldable pub write_file :
      FilePath → AkuaAuthFile → Files → Result (AuthLoadError IoError TomlError JsonError) Files
  unfolding parent create_parent with_extension
  write_file path file files =
      let tmp = with_extension (codes "toml.tmp") path in
      do
        created ← create_parent (parent path) files
        body ← map_err (λ e. io path (codec.invalid_data e)) (codec.to_string_pretty file)
        written ← map_err (io tmp) (disk.write tmp body created)
        map_err (io path) (disk.rename tmp path written)

  unfoldable pub upsert_entry :
      FilePath
      → Text
      → Credentials
      → Files
      → Result (AuthLoadError IoError TomlError JsonError) Files
  unfolding load_file insert from_credentials write_file
  upsert_entry path registry creds files = do
    file ← load_file path files
    write_file path
        (record { registries = insert registry (from_credentials creds) file.registries }) files

  -- The rest of `remove_entry`, once the file is read and the registry looked up in it.
  unfoldable pub remove_from :
      FilePath
      → Text
      → Files
      → AkuaAuthFile
      → Option AkuaAuthEntry
      → Result (AuthLoadError IoError TomlError JsonError) (Bool × Files)
  unfolding write_file
  remove_from path registry files file none = ok (false, files)
  remove_from path registry files file (some _) =
      write_file path (record { registries = remove registry file.registries }) files >>= λ after.
      ok (true, after)

  unfoldable pub remove_entry :
      FilePath → Text → Files → Result (AuthLoadError IoError TomlError JsonError) (Bool × Files)
  unfolding load_file remove_from
  remove_entry path registry files = do
    file ← load_file path files
    remove_from path registry files file (get registry file.registries)
