-- ===== src/Vendor.antt =====
-- crates/akua-core/src/vendor.rs: the vendor directory of a workspace. The outputs, the errors and how they
-- are reported. A panic (`unreachable!`) is `panics`.
pub mod Sources
pub mod Copying
pub mod Inventory
pub mod Drift
pub mod Adding
mod Tests
use akua.Base.{ℕ, Bool, true, false, Option, List, ◌++◌}
use akua.Base.Paths.{FilePath}
use akua.Base.Texts.{Text, codes}
use akua.Contract.Errors.{StructuredError, new_error, with_path, with_suggestion, with_default_docs}
use akua.Contract.Exit.{ExitCode, user_error, system_error}
use akua.Lock.Files.{LockLoadError}
use akua.Lock.Files
use akua.Manifest.Load.{ManifestLoadError}
use akua.Manifest.Load

pub record VendorListEntry : Type 0 where
  pub name : Text
  pub path : FilePath
  pub digest : Text
  pub size_bytes : ℕ
  pub orphan : Bool

pub record VendorListOutput : Type 0 where
  pub entries : List VendorListEntry

pub record VendorCheckEntry : Type 0 where
  pub name : Text
  pub path : FilePath
  pub source_kind : Option Text
  pub source_ref : Option Text
  pub expected_digest : Option Text
  pub actual_digest : Option Text
  pub orphan : Bool
  pub missing_vendor : Bool
  pub missing_source : Bool

pub record VendorCheckOutput : Type 0 where
  pub drift : Bool
  pub entries : List VendorCheckEntry
  pub orphaned : List Text
  pub missing : List Text

pub record VendorAddOutput : Type 0 where
  pub name : Text
  pub source_kind : Text
  pub source_ref : Text
  pub path : FilePath
  pub digest : Text
  pub size_bytes : ℕ
  pub wrote : Bool
  pub replaced : Bool

-- `IoError` stands for the causes: errors of I/O, and those of the fetchers.
pub data VendorError (IoError TomlError : Type 0) : Type 0 where
  manifest_error : ManifestLoadError IoError TomlError → VendorError IoError TomlError
  lock_error : LockLoadError IoError TomlError → VendorError IoError TomlError
  auth_config : Text → VendorError IoError TomlError
  missing_dependency : (name : Text) → VendorError IoError TomlError
  source_missing : FilePath → VendorError IoError TomlError
  absolute_path_rejected : (name : Text) → FilePath → VendorError IoError TomlError
  path_escape :
      (name : Text) (requested resolved workspace_root : FilePath) → VendorError IoError TomlError
  io : FilePath → IoError → VendorError IoError TomlError
  oci_fetch git_fetch : (name : Text) → IoError → VendorError IoError TomlError
  drift_detected : VendorCheckOutput → VendorError IoError TomlError
  unsupported_source : (name kind : Text) → VendorError IoError TomlError

abbrev missing_dependency_suggestion : Text → Text
missing_dependency_suggestion name =
    codes "declare `path = \".akua/vendor/" ++ (name ++ codes "\"` in `akua.toml` first")

abbrev absolute_suggestion : Text
absolute_suggestion =
    codes
      "use a relative path under the workspace, or vendor the dep via `oci = \"...\"` / `git = \"...\"`"

abbrev escape_suggestion : Text
escape_suggestion =
    codes "rewrite the path to stay under the workspace, or move the source into the workspace"

-- The texts of the causes and `Display` of the error itself are derived by a library's macro.
module _ {IoError TomlError : Type 0} (display : VendorError IoError TomlError → Text)
    (io_text : IoError → Text)
    (manifest_json : ManifestLoadError IoError TomlError → StructuredError)
    (lock_json : LockLoadError IoError TomlError → StructuredError) where
  unfoldable pub to_structured : VendorError IoError TomlError → StructuredError
  to_structured (manifest_error e) = manifest_json e
  to_structured (lock_error e) = lock_json e
  to_structured (auth_config detail) = with_default_docs (new_error (codes "E_IO") detail)
  to_structured (missing_dependency name) = with_default_docs (
      with_suggestion (missing_dependency_suggestion name)
        (new_error (codes "E_VENDOR_DEP_MISSING") (display (missing_dependency name))))
  to_structured (source_missing path) =
      with_default_docs (with_path path (new_error (codes "E_IO") (display (source_missing path))))
  to_structured (absolute_path_rejected name path) = with_default_docs (
      with_suggestion absolute_suggestion (
        with_path path
          (new_error (codes "E_PATH_ESCAPE") (display (absolute_path_rejected name path)))))
  to_structured (path_escape name requested resolved root) = with_default_docs (
      with_suggestion escape_suggestion (
        with_path resolved
          (new_error (codes "E_PATH_ESCAPE") (display (path_escape name requested resolved root)))))
  to_structured (io path source) =
      with_default_docs (with_path path (new_error (codes "E_IO") (io_text source)))
  to_structured (oci_fetch name source) =
      with_default_docs (new_error (codes "E_DEP_RESOLVE") (display (oci_fetch name source)))
  to_structured (git_fetch name source) =
      with_default_docs (new_error (codes "E_DEP_RESOLVE") (display (git_fetch name source)))
  to_structured (drift_detected output) =
      with_default_docs (new_error (codes "E_VENDOR_DRIFT") (display (drift_detected output)))
  to_structured (unsupported_source name kind) =
      with_default_docs (new_error (codes "E_DEP_RESOLVE") (display (unsupported_source name kind)))

abbrev exit_of : Bool → ExitCode
exit_of true = system_error
exit_of false = user_error

module _ {IoError TomlError : Type 0} where
  unfoldable pub exit_code : VendorError IoError TomlError → ExitCode
  unfolding Load.is_system Files.is_system
  exit_code (io _ _) = system_error
  exit_code (manifest_error e) = exit_of (Load.is_system e)
  exit_code (lock_error e) = exit_of (Files.is_system e)
  exit_code _ = user_error
