-- ===== src/Vendor/Drift.antt =====
-- `check`: the vendor directory against what the manifest and the lock expect of it.
pub mod Clean
use akua.Base.{
  ℕ, Bool, true, false, not, ◌||◌, Option, none, some, List, [], ◌∷◌, Result, ok, err, ◌==◌, nat_eq,
  list_eq, list_beq, if◌then◌else◌, push,
}
use akua.Base.Maps.{Map, get, insert}
use akua.Base.Orders.{nat_ord, list_ord, list_lt}
use akua.Base.Paths.{FilePath, join}
use akua.Base.Runs.{Run, returns, try, ◌>>=◌}
use akua.Base.Sorting.{sort_by_key}
use akua.Base.Texts.{Text}
use akua.Resolver.Fetching.{unwrap_or}
use akua.Vendor.{VendorListEntry, VendorCheckEntry, VendorCheckOutput, VendorError, drift_detected}
use akua.Vendor.Sources.{Tools, Snapshot}
use akua.Vendor.Inventory.{
  ExpectedDep, ExpectedSet, contains_key, vendor_root, expected_entries, scan_vendor_entries,
}

-- The entries on disk by name; the last of one name stays.
unfoldable pub disk_map : List VendorListEntry → Map Text VendorListEntry → Map Text VendorListEntry
unfolding insert
disk_map [] m = m
disk_map (e ∷ es) m = disk_map es (insert e.name e m)

-- The digest that the vendored tree of an expected entry has.
abbrev pub vendored_digest : ExpectedDep → Text
vendored_digest e = unwrap_or e.digest e.vendor_digest

check_entry : FilePath → ExpectedDep → Option VendorListEntry → VendorCheckEntry
unfolding join
check_entry root expected (some actual) = record {
  name = expected.name;
  path = join root expected.name;
  source_kind = some expected.source_kind;
  source_ref = some expected.source_ref;
  expected_digest = some (vendored_digest expected);
  actual_digest = some actual.digest;
  orphan = false;
  missing_vendor = false;
  missing_source = false;
}
check_entry root expected none = record {
  name = expected.name;
  path = join root expected.name;
  source_kind = some expected.source_kind;
  source_ref = some expected.source_ref;
  expected_digest = some (vendored_digest expected);
  actual_digest = none;
  orphan = false;
  missing_vendor = true;
  missing_source = false;
}

-- The two arms of the `match` on the entry on disk.
compare : FilePath → ExpectedDep → Option VendorListEntry → VendorCheckOutput → VendorCheckOutput
unfolding check_entry list_beq
compare root expected (some actual) out = record {
  drift = out.drift || not (actual.digest == vendored_digest expected);
  entries = push out.entries (check_entry root expected (some actual));
  orphaned = out.orphaned;
  missing = out.missing;
}
compare root expected none out = record {
  drift = true;
  entries = push out.entries (check_entry root expected none);
  orphaned = out.orphaned;
  missing = push out.missing expected.name;
}

-- The loop over the expected entries.
unfoldable pub compare_all :
    FilePath → Map Text VendorListEntry → List ExpectedDep → VendorCheckOutput → VendorCheckOutput
unfolding compare get
compare_all root on_disk [] out = out
compare_all root on_disk (e ∷ es) out =
    compare_all root on_disk es (compare root e (get e.name on_disk) out)

report_orphan : VendorListEntry → VendorCheckOutput → VendorCheckOutput
report_orphan entry out = record {
  drift = true;
  entries = push out.entries (record {
    name = entry.name;
    path = entry.path;
    source_kind = none;
    source_ref = none;
    expected_digest = none;
    actual_digest = some entry.digest;
    orphan = true;
    missing_vendor = false;
    missing_source = false;
  });
  orphaned = push out.orphaned entry.name;
  missing = out.missing;
}

-- The loop over the entries on disk.
unfoldable pub report_orphans :
    Map Text (Unit {0}) → List VendorListEntry → VendorCheckOutput → VendorCheckOutput
unfolding report_orphan
report_orphans names [] out = out
report_orphans names (e ∷ es) out =
    if contains_key e.name names
    then report_orphans names es out
    else report_orphans names es (report_orphan e out)

abbrev no_drift : VendorCheckOutput
no_drift = record { drift = false; entries = []; orphaned = []; missing = [] }

sort_output : VendorCheckOutput → VendorCheckOutput
unfolding sort_by_key list_lt
sort_output out = record {
  drift = out.drift;
  entries = sort_by_key (λ (e : VendorCheckEntry). e.name) out.entries;
  orphaned = sort_by_key (λ (n : Text). n) out.orphaned;
  missing = sort_by_key (λ (n : Text). n) out.missing;
}

-- The report, before it is returned or is an error.
unfoldable pub drift_report : FilePath → ExpectedSet → List VendorListEntry → VendorCheckOutput
unfolding sort_output report_orphans compare_all disk_map
drift_report root expected on_disk = sort_output (
    report_orphans expected.names on_disk
      (compare_all root (disk_map on_disk []) expected.entries no_drift))

module _ {IoError TomlError : Type 0} where
  -- A report that has drift is an error.
  unfoldable pub drift_result :
      VendorCheckOutput → Result (VendorError IoError TomlError) VendorCheckOutput
  drift_result output = if output.drift then err (drift_detected output) else ok output

  unfoldable pub check :
      {Disk : Type 0}
      → Tools IoError TomlError Disk
      → FilePath
      → Disk
      → Run (VendorError IoError TomlError) (VendorCheckOutput × Disk)
  unfolding expected_entries scan_vendor_entries drift_report drift_result vendor_root
  check tools workspace disk = do
    expected ← expected_entries tools workspace disk
    on_disk ← try (
        scan_vendor_entries tools.sha256_hex (tools.view expected.1) (vendor_root workspace)
          expected.0.names)
    output ← try (drift_result (drift_report (vendor_root workspace) expected.0 on_disk))
    returns (output, expected.1)
