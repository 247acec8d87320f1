-- ===== src/Vendor/Sources.antt =====
-- Where the bytes of a vendored dependency come from: `resolve_source` and its arms. The TOML library,
-- SHA-256, the cache roots, the store of credentials, the file system and the fetchers are arguments; a
-- fetch writes to its cache, so it takes the disk and gives another. What a fetch that fails leaves on the
-- disk is not told.
pub mod Total
use akua.Base.{
  ℕ, Bool, true, false, ◌&&◌, Option, none, some, List, ◌∷◌, ◌++◌, Result, ok, err, ◌==◌, nat_eq,
  list_eq, list_beq, map_err, if◌then◌else◌,
}
use akua.Base.Paths.{FilePath, Read}
use akua.Base.Runs.{Run, fails, returns, try, try_map, expect, ◌>>=◌, ◌>>◌}
use akua.Base.Texts.{Text, codes, starts_with, strip_prefix}
use akua.Auth.HostAuth.{HostAuthMap, canonicalize_url}
use akua.Lock.{AkuaLock, LockedPackage, find_package, is_oci, is_path, git_digest_prefix}
use akua.Lock.Files
use akua.Manifest.{
  AkuaManifest, Dependency, DependencySpec, path_spec, oci_spec, git_spec, helm_spec, spec,
}
use akua.Oci.Store.{CredsStore}
use akua.Resolver.Fetching.{FetchedArtifact, FetchedRepo, RefSpec, ref_spec, label}
use akua.Resolver.Resolution.{is_dir_or_false}
use akua.Resolver.Workspace.{
  FileSystem, Canonical, found, missing, failed, WorkspacePathError, absolute_rejected, not_found,
  escape, validate_workspace_path,
}
use akua.Resolver.Workspace
use akua.Vendor.{
  VendorError, auth_config, source_missing, absolute_path_rejected, path_escape, io, oci_fetch,
  git_fetch, unsupported_source,
}

-- `read_dir`: the names of the entries, an entry that cannot be read among them.
pub data Listing (IoError : Type 0) : Type 0 where
  absent : Listing IoError
  unlistable : IoError → Listing IoError
  listed : List (Result IoError Text) → Listing IoError

-- The file system at one moment.
pub record Snapshot (IoError : Type 0) : Type 0 where
  pub fs : FileSystem IoError
  pub read : FilePath → Read IoError
  pub exists : FilePath → Bool
  pub list_dir : FilePath → Listing IoError

-- The libraries and the file system that the module calls. `fetch_oci` and `fetch_git` are given the digest or
-- the commit that is expected.
pub record Tools (IoError TomlError Disk : Type 0) : Type 0 where
  pub manifest_from_str : Text → Result TomlError AkuaManifest
  pub lock_from_str : Text → Result TomlError AkuaLock
  pub lock_to_string : AkuaLock → Result TomlError Text
  pub sha256_hex : Text → Text
  pub default_cache_root : Text → FilePath
  pub load_creds : Disk → Result Text CredsStore
  pub view : Disk → Snapshot IoError
  pub fetch_oci :
      Text
      → Text
      → FilePath
      → Option Text
      → CredsStore
      → Disk
      → Result IoError (FetchedArtifact × Disk)
  pub fetch_git :
      Text
      → RefSpec
      → FilePath
      → Option Text
      → Option HostAuthMap
      → Disk
      → Result IoError (FetchedRepo × Disk)

pub record SourceResolution : Type 0 where
  pub kind : Text
  pub source_ref : Text
  pub root : FilePath
  pub lock_digest : Option Text

unfoldable pub locked_source_meta : LockedPackage → Text × Text
unfolding is_path is_oci
locked_source_meta p =
    if is_path p
    then (codes "path", p.source)
    else if is_oci p
    then (codes "oci", p.source)
    else (codes "git", p.source)

module _ {IoError TomlError Disk : Type 0} (tools : Tools IoError TomlError Disk)
    (disk : Disk) where
  workspace_canonical :
      FilePath → Canonical IoError → Result (VendorError IoError TomlError) FilePath
  workspace_canonical workspace (found canon) = ok canon
  workspace_canonical workspace (missing e) = err (io workspace e)
  workspace_canonical workspace (failed e) = err (io workspace e)

  path_error : Text → FilePath → WorkspacePathError IoError → VendorError IoError TomlError
  path_error name requested (absolute_rejected path) = absolute_path_rejected name path
  path_error name requested (not_found path) = source_missing path
  path_error name requested (Workspace.io path e) = io path e
  path_error name requested (escape resolved root) = path_escape name requested resolved root

  unfoldable pub resolve_path_dep :
      FilePath → Text → FilePath → Run (VendorError IoError TomlError) FilePath
  unfolding validate_workspace_path workspace_canonical path_error
  resolve_path_dep workspace name requested = do
    workspace_canon ←
        try (workspace_canonical workspace ((tools.view disk).fs.canonicalize workspace))
    canon ←
        try_map (path_error name requested)
          (validate_workspace_path (tools.view disk).fs workspace_canon workspace requested)
    if is_dir_or_false ((tools.view disk).fs.is_dir canon)
        then returns canon
        else fails (source_missing canon)

  digest_of_kind : Text → LockedPackage → Option Text
  unfolding is_oci starts_with list_beq
  digest_of_kind kind p =
      if kind == codes "oci" && is_oci p
      then some p.digest
      else if kind == codes "git" && starts_with p.source (codes "git+")
      then some p.digest
      else none

  -- A lock that does not load is no lock.
  unfoldable pub expected_digest_from_lock : FilePath → Text → Text → Option Text
  unfolding Files.load find_package digest_of_kind
  expected_digest_from_lock workspace name kind =
      elim (Files.load tools.lock_from_str (tools.view disk).read workspace) [
        | err _ ↦ none
        | ok lock ↦ elim (find_package name lock) [ none ↦ none | some p ↦ digest_of_kind kind p ]
      ]

  unfoldable pub resolve_oci_source :
      FilePath → Text → Text → Text → Run (VendorError IoError TomlError) (SourceResolution × Disk)
  unfolding expected_digest_from_lock
  resolve_oci_source workspace name oci version = do
    let cache_root = tools.default_cache_root (codes "oci")
    creds ← try_map auth_config (tools.load_creds disk)
    let locked_expected = expected_digest_from_lock workspace name (codes "oci")
    fetched ←
        try_map (oci_fetch name) (tools.fetch_oci oci version cache_root locked_expected creds disk)
    let source : SourceResolution = record {
      kind = codes "oci";
      source_ref = oci ++ (b'@' ∷ version);
      root = fetched.0.root_dir;
      lock_digest = none;
    }
    returns (source, fetched.1)

  abbrev without_prefix : Option Text → Option Text
  unfolding strip_prefix
  without_prefix none = none
  without_prefix (some d) = strip_prefix d git_digest_prefix

  unfoldable pub resolve_git_source :
      FilePath
      → Text
      → Text
      → Option Text
      → Option Text
      → Option HostAuthMap
      → Run (VendorError IoError TomlError) (SourceResolution × Disk)
  unfolding expected_digest_from_lock without_prefix
  resolve_git_source workspace name git tag rev auth = do
    at ← expect (ref_spec tag rev)
    let cache_root = tools.default_cache_root (codes "git")
    let expected_commit = without_prefix (expected_digest_from_lock workspace name (codes "git"))
    fetched ← try_map (git_fetch name) (tools.fetch_git git at cache_root expected_commit auth disk)
    let source : SourceResolution = record {
      kind = codes "git";
      source_ref = canonicalize_url git ++ (b'@' ∷ label at);
      lock_digest = some (git_digest_prefix ++ fetched.0.commit_sha);
      root = fetched.0.chart_dir;
    }
    returns (source, fetched.1)

  source_of :
      FilePath
      → Text
      → DependencySpec
      → Option HostAuthMap
      → Run (VendorError IoError TomlError) (SourceResolution × Disk)
  unfolding resolve_path_dep resolve_oci_source resolve_git_source
  source_of workspace name (path_spec declared) auth = do
    root ← resolve_path_dep workspace name declared
    let source : SourceResolution = record {
      kind = codes "path";
      source_ref = declared;
      root = root;
      lock_digest = none;
    }
    returns (source, disk)
  source_of workspace name (oci_spec oci version) auth =
      resolve_oci_source workspace name oci version
  source_of workspace name (git_spec git tag rev) auth =
      resolve_git_source workspace name git tag rev auth
  source_of workspace name (helm_spec _ _ _) auth = fails (unsupported_source name (codes "helm"))

  unfoldable pub resolve_source :
      FilePath
      → Text
      → Dependency
      → Option HostAuthMap
      → Run (VendorError IoError TomlError) (SourceResolution × Disk)
  unfolding spec source_of
  resolve_source workspace name dep auth = do s ← expect (spec dep); source_of workspace name s auth
