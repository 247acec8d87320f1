-- ===== src/Vendor/Inventory.antt =====
-- `expected_entries`, `scan_vendor_entries` and `list`: what the manifest and the lock expect of the vendor
-- directory, and what it holds.
pub mod Total
use akua.Base.{
  ℕ, Bool, true, false, not, ◌||◌, Option, none, some, List, [], ◌∷◌, ◌++◌, Result, ok, err, ◌==◌,
  nat_eq, list_eq, list_beq, if◌then◌else◌, push,
}
use akua.Base.Maps.{Map, get, insert}
use akua.Base.Orders.{nat_ord, list_ord, list_lt}
use akua.Base.Paths.{FilePath, join}
use akua.Base.Runs.{Run, fails, returns, try, try_map, ◌>>=◌}
use akua.Base.Sorting.{sort_by_key}
use akua.Base.Texts.{Text, codes}
use akua.Lock.{AkuaLock, LockedPackage, find_package}
use akua.Lock.Files.{LockLoadError, missing}
use akua.Lock.Files
use akua.Manifest.{AkuaManifest, Dependency}
use akua.Manifest.Load
use akua.Resolver.Digest.{hash_dir}
use akua.Resolver.Fetching.{unwrap_or}
use akua.Resolver.Resolution.{is_dir_or_false}
use akua.Resolver.Workspace.{FileSystem}
use akua.Vendor.{
  VendorListEntry, VendorListOutput, VendorCheckEntry, VendorCheckOutput, VendorError,
  manifest_error, lock_error, io, drift_detected,
}
use akua.Vendor.Sources.{
  Tools, Snapshot, Listing, absent, unlistable, listed, SourceResolution, locked_source_meta,
  resolve_source,
}

pub record ExpectedDep : Type 0 where
  pub name : Text
  pub source_kind : Text
  pub source_ref : Text
  pub digest : Text
  pub vendor_digest : Option Text

-- `BTreeSet<String>` is a map to the unit.
pub record ExpectedSet : Type 0 where
  pub names : Map Text (Unit {0})
  pub entries : List ExpectedDep

abbrev pub contains_key {ℓ} : {V : Type ℓ} → Text → Map Text V → Bool
unfolding get
contains_key k m = elim (get k m) [ none ↦ false | some _ ↦ true ]

abbrev vendor_dir : FilePath
vendor_dir = codes ".akua/vendor"

unfoldable pub vendor_root : FilePath → FilePath
unfolding join
vendor_root workspace = join workspace vendor_dir

-- What an entry of the lock expects of the vendor directory.
expected_of_locked : Text → LockedPackage → ExpectedDep
unfolding locked_source_meta
expected_of_locked name locked =
    let meta = locked_source_meta locked in
    record {
      name = name;
      source_kind = meta.0;
      source_ref = meta.1;
      digest = locked.digest;
      vendor_digest = locked.vendor_digest;
    }

-- The loop over the packages of the lock.
unfoldable pub add_locked : AkuaManifest → List LockedPackage → ExpectedSet → ExpectedSet
unfolding expected_of_locked insert
add_locked manifest [] set = set
add_locked manifest (p ∷ ps) set =
    let names = insert p.name tt set.names in
    if contains_key p.name manifest.dependencies
    then add_locked manifest ps (record set { names = names })
    else add_locked manifest ps
        (record { names = names; entries = push set.entries (expected_of_locked p.name p) })

locked_in : Text → Option AkuaLock → Option LockedPackage
unfolding find_package
locked_in name none = none
locked_in name (some lock) = find_package name lock

add_all_locked : AkuaManifest → Option AkuaLock → ExpectedSet → ExpectedSet
unfolding add_locked
add_all_locked manifest none set = set
add_all_locked manifest (some lock) set = add_locked manifest lock.packages set

sort_expected : ExpectedSet → ExpectedSet
unfolding sort_by_key
sort_expected set = record set { entries = sort_by_key (λ (e : ExpectedDep). e.name) set.entries }

module _ {IoError TomlError : Type 0} where
  -- A missing lock is none.
  unfoldable pub optional_lock :
      Result (LockLoadError IoError TomlError) AkuaLock
      → Result (VendorError IoError TomlError) (Option AkuaLock)
  optional_lock (ok lock) = ok (some lock)
  optional_lock (err (missing _)) = ok none
  optional_lock (err e) = err (lock_error e)

  module _ {Disk : Type 0} (tools : Tools IoError TomlError Disk) where
    expected_dep :
        FilePath
        → Text
        → Dependency
        → Option LockedPackage
        → Disk
        → Run (VendorError IoError TomlError) (ExpectedDep × Disk)
    unfolding expected_of_locked resolve_source hash_dir
    expected_dep workspace name dep (some locked) disk =
        returns (expected_of_locked name locked, disk)
    expected_dep workspace name dep none disk = do
      (source, fetched) ← resolve_source tools disk workspace name dep none
      hashed ←
          try_map (io source.root)
            (hash_dir tools.sha256_hex ((tools.view fetched).fs.entries source.root))
      let entry : ExpectedDep = record {
        name = name;
        source_kind = source.kind;
        source_ref = source.source_ref;
        digest = hashed.0;
        vendor_digest = none;
      }
      returns (entry, fetched)

    -- The loop over the dependencies of the manifest.
    unfoldable pub add_dependencies :
        FilePath
        → Option AkuaLock
        → Map Text Dependency
        → ExpectedSet
        → Disk
        → Run (VendorError IoError TomlError) (ExpectedSet × Disk)
    unfolding expected_dep locked_in insert
    add_dependencies workspace lock [] set disk = returns (set, disk)
    add_dependencies workspace lock ((name, dep) ∷ deps) set disk = do
      entry ← expected_dep workspace name dep (locked_in name lock) disk
      add_dependencies workspace lock deps
          (record { names = insert name tt set.names; entries = push set.entries entry.0 }) entry.1

    unfoldable pub expected_entries :
        FilePath → Disk → Run (VendorError IoError TomlError) (ExpectedSet × Disk)
    unfolding add_dependencies add_all_locked sort_expected optional_lock Load.load Files.load
    expected_entries workspace disk = do
      let seen = tools.view disk
      manifest ← try_map manifest_error (Load.load tools.manifest_from_str seen.read workspace)
      lock ← try (optional_lock (Files.load tools.lock_from_str seen.read workspace))
      set ←
          add_dependencies workspace lock manifest.dependencies
            (record { names = []; entries = [] }) disk
      returns (sort_expected (add_all_locked manifest lock set.0), set.1)

  module _ (sha256_hex : Text → Text) (disk : Snapshot IoError) where
    scan_entry :
        FilePath
        → Map Text (Unit {0})
        → Text
        → Result (VendorError IoError TomlError) (List VendorListEntry)
    unfolding hash_dir
    scan_entry root expected name =
        let path = join root name in
        if is_dir_or_false (disk.fs.is_dir path)
        then (elim (hash_dir sha256_hex (disk.fs.entries path)) [
          | err e ↦ err (io path e)
          | ok hashed ↦ ok (
              record {
                name = name;
                path = path;
                digest = hashed.0;
                size_bytes = hashed.1;
                orphan = not (contains_key name expected);
              }
              ∷ [])
        ])
        else ok []

    -- The loop over the entries of the directory.
    unfoldable pub scan_names :
        FilePath
        → Map Text (Unit {0})
        → List (Result IoError Text)
        → List VendorListEntry
        → Result (VendorError IoError TomlError) (List VendorListEntry)
    unfolding scan_entry
    scan_names root expected [] entries = ok entries
    scan_names root expected (err e ∷ names) entries = err (io root e)
    scan_names root expected (ok name ∷ names) entries = elim (scan_entry root expected name) [
      | err e ↦ err e
      | ok found ↦ scan_names root expected names (entries ++ found)
    ]

    scan_listing :
        FilePath
        → Map Text (Unit {0})
        → Listing IoError
        → Result (VendorError IoError TomlError) (List VendorListEntry)
    unfolding scan_names sort_by_key
    scan_listing root expected absent = ok []
    scan_listing root expected (unlistable e) = err (io root e)
    scan_listing root expected (listed names) = elim (scan_names root expected names []) [
      | err e ↦ err e
      | ok entries ↦ ok (sort_by_key (λ (e : VendorListEntry). e.name) entries)
    ]

    unfoldable pub scan_vendor_entries :
        FilePath
        → Map Text (Unit {0})
        → Result (VendorError IoError TomlError) (List VendorListEntry)
    unfolding scan_listing
    scan_vendor_entries root expected = scan_listing root expected (disk.list_dir root)

  unfoldable pub list :
      {Disk : Type 0}
      → Tools IoError TomlError Disk
      → FilePath
      → Disk
      → Run (VendorError IoError TomlError) (VendorListOutput × Disk)
  unfolding expected_entries scan_vendor_entries vendor_root
  list tools workspace disk = do
    expected ← expected_entries tools workspace disk
    entries ← try (
        scan_vendor_entries tools.sha256_hex (tools.view expected.1) (vendor_root workspace)
          expected.0.names)
    returns (record { entries = entries }, expected.1)
