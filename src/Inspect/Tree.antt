-- ===== src/Inspect/Tree.antt =====
-- crates/akua-core/src/tree.rs: the dependencies of a manifest with their entries in the lock.
use akua.Base.{
  ◌≡◌, Option, none, some, List, [], ◌∷◌, Result, ok, ◌>>=◌, map_err, arith, nat_eq, list_eq,
}
use akua.Base.Maps.{Map}
use akua.Base.Texts.{Text, codes}
use akua.Lock.{AkuaLock, LockedPackage, LockError, find_package}
use akua.Lock.Files.{parse_lock}
use akua.Manifest.{
  AkuaManifest, Dependency, DependencySource, oci_source, git_source, path_source, helm_source,
  DependencySpec, path_spec, oci_spec, git_spec, helm_spec, ManifestError, source, spec,
}
use akua.Manifest.Load.{parse_manifest}
use akua.Resolver.Fetching.{unwrap_or}

pub record PackageInfo : Type 0 where
  pub name : Text
  pub version : Text
  pub edition : Text

pub record LockedInfo : Type 0 where
  pub digest : Text
  pub signature : Option Text
  pub replaced_by : Option Text

pub record DepRow : Type 0 where
  pub name : Text
  pub source : Text
  pub source_ref : Text
  pub version : Option Text
  pub locked : Option LockedInfo

pub record TreeOutput : Type 0 where
  pub package_info : PackageInfo
  pub dependencies : List DepRow

source_row : Option DependencySource → Dependency → Text × Text
source_row (some oci_source) d = (codes "oci", unwrap_or [] d.oci)
source_row (some git_source) d = (codes "git", unwrap_or [] d.git)
source_row (some path_source) d = (codes "path", unwrap_or [] d.path)
source_row (some helm_source) d = (codes "helm", unwrap_or [] d.repo)
source_row none d = (codes "unknown", [])

unfoldable pub source_of : Dependency → Text × Text
unfolding source source_row
source_of d = source_row (source d) d

locked_info : LockedPackage → LockedInfo
locked_info p = record {
  digest = p.digest;
  signature = p.signature;
  replaced_by = elim p.replaced [ none ↦ none | some r ↦ some r.path ];
}

locked_row : Text → Option AkuaLock → Option LockedInfo
unfolding find_package locked_info
locked_row name none = none
locked_row name (some lock) = elim (find_package name lock) [
  | none ↦ none
  | some p ↦ some (locked_info p)
]

unfoldable pub dep_rows : Option AkuaLock → Map Text Dependency → List DepRow
unfolding source_of locked_row
dep_rows lock [] = []
dep_rows lock ((name, dep) ∷ deps) =
    record {
      name = name;
      source = (source_of dep).0;
      source_ref = (source_of dep).1;
      version = dep.version;
      locked = locked_row name lock;
    }
    ∷ dep_rows lock deps

unfoldable pub tree_from_parsed : AkuaManifest → Option AkuaLock → TreeOutput
unfolding dep_rows
tree_from_parsed manifest lock = record {
  package_info = record {
    name = manifest.package_section.name;
    version = manifest.package_section.version;
    edition = manifest.package_section.edition;
  };
  dependencies = dep_rows lock manifest.dependencies;
}

pub data TreeSourceError (TomlError : Type 0) : Type 0 where
  manifest_error : ManifestError TomlError → TreeSourceError TomlError
  lock_error : LockError TomlError → TreeSourceError TomlError

module _ {TomlError : Type 0} (manifest_from_str : Text → Result TomlError AkuaManifest)
    (lock_from_str : Text → Result TomlError AkuaLock) where
  parse_optional : Option Text → Result (LockError TomlError) (Option AkuaLock)
  unfolding parse_lock
  parse_optional none = ok none
  parse_optional (some s) = do lock ← parse_lock lock_from_str s; ok (some lock)

  unfoldable pub tree_from_sources :
      Text → Option Text → Result (TreeSourceError TomlError) TreeOutput
  unfolding parse_manifest parse_optional tree_from_parsed
  tree_from_sources manifest lock = do
    parsed ← map_err manifest_error (parse_manifest manifest_from_str manifest)
    locked ← map_err lock_error (parse_optional lock)
    ok (tree_from_parsed parsed locked)

-- The kind and the reference that a typed view has.
abbrev pub spec_row : DependencySpec → Text × Text
spec_row (path_spec declared) = (codes "path", declared)
spec_row (oci_spec oci version) = (codes "oci", oci)
spec_row (git_spec git tag rev) = (codes "git", git)
spec_row (helm_spec repo chart version) = (codes "helm", repo)

-- The row of a dependency with a typed view names the kind and the reference of that view.
pub source_of-spec :
    (d : Dependency) (s : DependencySpec) → spec d ≡ some s → source_of d ≡ spec_row s
unfolding source_of spec source source_row
source_of-spec d (path_spec _) h = ground arith
source_of-spec d (oci_spec _ _) h = ground arith
source_of-spec d (git_spec _ _ _) h = ground arith
source_of-spec d (helm_spec _ _ _) h = ground arith
