-- ===== src/Vendor/Adding.antt =====
-- `add` and `plan_add`: a dependency's bytes in the vendor directory, and its entry in the lock. The
-- operations of the file system that write are arguments.
pub mod Planned
pub mod Locked
pub mod Total
use akua.Base.{
  ℕ, Bool, true, false, not, Option, none, some, List, [], ◌∷◌, ◌++◌, Result, ok, err, ◌==◌, nat_eq,
  list_eq, list_beq, set, if◌then◌else◌,
}
use akua.Base.Maps.{Map, get}
use akua.Base.Orders.{nat_ord, list_ord}
use akua.Base.Paths.{FilePath, join}
use akua.Base.Runs.{Run, returns, fails, panics, try, try_map, expect, ◌>>=◌, ◌>>◌}
use akua.Base.Texts.{Text, codes, strip_prefix}
use akua.Auth.HostAuth.{HostAuthMap}
use akua.Lock.{AkuaLock, LockedPackage, find_slot, empty, git_digest_prefix, vendored_lock_fallback}
use akua.Lock.Files.{save}
use akua.Lock.Files
use akua.Manifest.{
  Dependency, DependencySpec, path_spec, oci_spec, git_spec, helm_spec, spec, tag_or_rev,
}
use akua.Manifest.Load
use akua.Resolver.{
  ResolvedSource, path, oci, git, to_locked_fields, at_slot, upsert_locked_from_source,
}
use akua.Resolver.Digest.{Entries, no_more, file, directory, symlink, unreadable, hash_dir}
use akua.Resolver.Fetching.{unwrap_or}
use akua.Resolver.Workspace.{FileSystem}
use akua.Vendor.{VendorAddOutput, VendorError, manifest_error, lock_error, missing_dependency, io}
use akua.Vendor.Copying.{Store, copy_tree}
use akua.Vendor.Inventory.{optional_lock, vendor_root}
use akua.Vendor.Sources.{Tools, Snapshot, SourceResolution, resolve_source}

-- The source and the digest of the lock's entry. A helm dependency does not get here.
unfoldable pub vendor_lock_source : {E : Type 0} → Dependency → Text → Run E (ResolvedSource × Text)
unfolding spec tag_or_rev strip_prefix
vendor_lock_source dep lock_digest = do
  s ← expect (spec dep)
  elim s [
    | path_spec declared ↦ returns (path declared, lock_digest)
    | oci_spec url version ↦ returns (oci url version lock_digest, lock_digest)
    | git_spec url tag rev ↦
        let raw = unwrap_or lock_digest (strip_prefix lock_digest git_digest_prefix) in
        returns (
          git url (unwrap_or vendored_lock_fallback (tag_or_rev (git_spec url tag rev))) raw,
          git_digest_prefix ++ raw,
        )
    | helm_spec _ _ _ ↦ panics
  ]

-- `lock.packages[slot].vendor_digest = Some(..)`; a slot is in range.
set_vendor_digest_at : Option ℕ → Option LockedPackage → Text → AkuaLock → AkuaLock
set_vendor_digest_at (some i) (some p) digest lock = record lock {
  packages = set lock.packages i (record p { vendor_digest = some digest });
}
set_vendor_digest_at _ _ digest lock = lock

record_vendor_digest : Text → ResolvedSource → Option Text → AkuaLock → AkuaLock
unfolding set_vendor_digest_at at_slot find_slot to_locked_fields
record_vendor_digest name source none lock = lock
record_vendor_digest name source (some digest) lock =
    let slot = find_slot name (to_locked_fields source).1 lock in
    set_vendor_digest_at slot (at_slot slot lock) digest lock

-- The lock with the vendored entry, in memory.
unfoldable pub vendored_lock :
    {E : Type 0} → Text → Dependency → Text → Option Text → AkuaLock → Run E AkuaLock
unfolding vendor_lock_source upsert_locked_from_source record_vendor_digest
vendored_lock name dep lock_digest vendor_digest lock = do
  entry ← vendor_lock_source dep lock_digest
  returns (
      record_vendor_digest name entry.0 vendor_digest
        (upsert_locked_from_source name entry.0 entry.1 lock))

lock_or_empty : Option AkuaLock → AkuaLock
lock_or_empty none = empty
lock_or_empty (some lock) = lock

-- What was found at the target, and what is done about it.
pub record Target : Type 0 where
  pub existed : Bool
  pub matches : Bool

pub record Plan : Type 0 where
  pub dep : Dependency
  pub source : SourceResolution
  pub target : FilePath
  pub digest : Text
  pub size_bytes : ℕ
  pub found : Target

-- What is told of an addition: whether the tree is written, and whether it replaces another.
unfoldable pub add_output : Text → Plan → Bool × Bool → VendorAddOutput
add_output name plan (wrote, replaced) = record {
  name = name;
  source_kind = plan.source.kind;
  source_ref = plan.source.source_ref;
  path = plan.target;
  digest = plan.digest;
  size_bytes = plan.size_bytes;
  wrote = wrote;
  replaced = replaced;
}

module _ {IoError TomlError Disk : Type 0} (tools : Tools IoError TomlError Disk)
    (store : Store IoError Disk) where
  unfoldable pub upsert_vendor_lock_entry :
      FilePath
      → Text
      → Dependency
      → Text
      → Option Text
      → Disk
      → Run (VendorError IoError TomlError) Disk
  unfolding vendored_lock lock_or_empty optional_lock save Files.load
  upsert_vendor_lock_entry workspace name dep lock_digest vendor_digest disk = do
    lock ← try (optional_lock (Files.load tools.lock_from_str (tools.view disk).read workspace))
    made ← vendored_lock name dep lock_digest vendor_digest (lock_or_empty lock)
    try_map lock_error (save tools.lock_to_string store.write workspace made disk)

  remove_old : Bool → FilePath → Disk → Run (VendorError IoError TomlError) Disk
  remove_old true target disk = try_map (io target) (store.remove_dir_all target disk)
  remove_old false target disk = returns disk

  create_parent : Option FilePath → Disk → Run (VendorError IoError TomlError) Disk
  create_parent none disk = returns disk
  create_parent (some p) disk = try_map (io p) (store.create_dir_all p disk)

  -- The old tree is removed and the new one copied.
  unfoldable pub replace_tree :
      Bool → FilePath → FilePath → Disk → Run (VendorError IoError TomlError) Disk
  unfolding remove_old create_parent copy_tree
  replace_tree existed source target disk = do
    removed ← remove_old existed target disk
    created ← create_parent (store.parent target) removed
    copy_tree store source target created

  target_found : Bool → Text → FilePath → Disk → Run (VendorError IoError TomlError) Target
  unfolding hash_dir list_beq
  target_found false digest target disk = returns (record { existed = false; matches = false })
  target_found true digest target disk = do
    hashed ← try_map (io target) (hash_dir tools.sha256_hex ((tools.view disk).fs.entries target))
    returns (record { existed = true; matches = hashed.0 == digest })

  pub dependency_of : Text → Map Text Dependency → Run (VendorError IoError TomlError) Dependency
  unfolding get
  dependency_of name deps = elim (get name deps) [
    | none ↦ fails (missing_dependency name)
    | some dep ↦ returns dep
  ]

  plan_of :
      Dependency → SourceResolution → FilePath → Disk → Run (VendorError IoError TomlError) Plan
  unfolding hash_dir target_found
  plan_of dep source target disk = do
    let seen = tools.view disk
    hashed ← try_map (io source.root) (hash_dir tools.sha256_hex (seen.fs.entries source.root))
    found ← target_found (seen.exists target) hashed.0 target disk
    returns (record {
      dep = dep;
      source = source;
      target = target;
      digest = hashed.0;
      size_bytes = hashed.1;
      found = found;
    })

  -- `add_impl` up to its first write, with the disk that the fetch of the source has left.
  unfoldable pub planned :
      FilePath
      → Text
      → Option HostAuthMap
      → Disk
      → Run (VendorError IoError TomlError) (Plan × Disk)
  unfolding resolve_source vendor_root join plan_of dependency_of Load.load
  planned workspace name auth disk = do
    let seen = tools.view disk
    manifest ← try_map manifest_error (Load.load tools.manifest_from_str seen.read workspace)
    dep ← dependency_of name manifest.dependencies
    (source, fetched) ← resolve_source tools disk workspace name dep auth
    plan ← plan_of dep source (join (vendor_root workspace) name) fetched
    returns (plan, fetched)

  -- The arms of `(wrote, replaced)`.
  unfoldable pub place :
      Bool → Plan → Disk → Run (VendorError IoError TomlError) ((Bool × Bool) × Disk)
  unfolding replace_tree
  place write plan disk =
      if plan.found.matches
      then returns ((false, false), disk)
      else if write
      then (replace_tree plan.found.existed plan.source.root plan.target disk >>= λ placed.
          returns ((true, plan.found.existed), placed))
      else returns ((true, plan.found.existed), disk)

  unfoldable pub lock_vendored :
      FilePath → Text → Plan → Disk → Run (VendorError IoError TomlError) Disk
  unfolding upsert_vendor_lock_entry list_beq
  lock_vendored workspace name plan disk =
      let lock_digest = unwrap_or plan.digest plan.source.lock_digest in
      let vendor_digest = if lock_digest == plan.digest then none else some plan.digest in
      upsert_vendor_lock_entry workspace name plan.dep lock_digest vendor_digest disk

  unfoldable pub add_impl :
      FilePath
      → Text
      → Bool
      → Option HostAuthMap
      → Disk
      → Run (VendorError IoError TomlError) (VendorAddOutput × Disk)
  unfolding planned place lock_vendored add_output
  add_impl workspace name write auth disk = do
    (plan, fetched) ← planned workspace name auth disk
    (told, placed) ← place write plan fetched
    written ← if write then lock_vendored workspace name plan placed else returns placed
    returns (add_output name plan told, written)

  unfoldable pub add :
      FilePath
      → Text
      → Option HostAuthMap
      → Disk
      → Run (VendorError IoError TomlError) (VendorAddOutput × Disk)
  unfolding add_impl
  add workspace name auth disk = add_impl workspace name true auth disk

  unfoldable pub plan_add :
      FilePath
      → Text
      → Option HostAuthMap
      → Disk
      → Run (VendorError IoError TomlError) (VendorAddOutput × Disk)
  unfolding add_impl
  plan_add workspace name auth disk = add_impl workspace name false auth disk
