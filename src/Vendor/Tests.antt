-- ===== src/Vendor/Tests.antt =====
-- Vendoring at concrete workspaces.
use akua.Base.{
  ℕ, suc, ◌≡◌, refl, ◌↔◌, true, false, none, some, [], ◌∷◌, ◌++◌, ok, err, Result, List, ltb,
  length, ◌+◌, ◌<◌, arith, subst, All, find, nat_eq, list_eq, list_beq, if◌then◌else◌,
}
use akua.Base.Orders.{nat_ord, list_ord, list_lt}
use akua.Base.Paths.{FilePath, content, join}
use akua.Base.Maps.{get}
use akua.Base.Runs.{returns, fails}
use akua.Base.Sorting.{sort_by_key}
use akua.Base.Texts.{codes, starts_with}
use akua.Auth.HostAuth.{url_has_userinfo, canonicalize_url}
use akua.Lock
use akua.Lock.{AkuaLock, LockedPackage, empty, has_key}
use akua.Lock.Entries.{entry_of}
use akua.Manifest
use akua.Manifest.Load
use akua.Manifest.{AkuaManifest, Dependency}
use akua.Resolver.{ResolvedSource, git}
use akua.Resolver.Digest.{no_more, file}
use akua.Resolver.Locking.{written_entry}
use akua.Resolver.Workspace.{found, path_starts_with}
use akua.Vendor.{io, VendorListEntry, VendorAddOutput}
use akua.Vendor.Adding.{add, plan_add, vendored_lock, vendor_lock_source}
use akua.Vendor.Adding.Locked.{vendored_entry, entry_of-vendored_lock}
use akua.Vendor.Adding.Planned.{plan_add-add}
use akua.Vendor.Drift.{drift_report}
use akua.Vendor.Drift.Clean.{IsVendored, drift_report_iff}
use akua.Vendor.Inventory.{ExpectedDep, ExpectedSet, contains_key}
use akua.Vendor.Sources.{Tools, Snapshot, SourceResolution, absent, resolve_source}
use akua.Vendor.Copying.{
  Store, DirEntry, is_directory, is_regular, is_other, copy_tree, copy_within,
}
use akua.Vendor.Copying.Enough.{IsNamed, copy_tree-copy_within}

abbrev listed_web : VendorListEntry
listed_web = record {
  name = codes "web";
  path = codes "/w/.akua/vendor/web";
  digest = codes "sha256:1";
  size_bytes = 1;
  orphan = false;
}

abbrev listed_db : VendorListEntry
listed_db = record {
  name = codes "db";
  path = codes "/w/.akua/vendor/db";
  digest = codes "sha256:2";
  size_bytes = 2;
  orphan = true;
}

abbrev expected_web : ExpectedDep
expected_web = record {
  name = codes "web";
  source_kind = codes "path";
  source_ref = codes "path+file://web";
  digest = codes "sha256:1";
  vendor_digest = none;
}

abbrev expects_web : ExpectedSet
expects_web = record { names = (codes "web", tt) ∷ []; entries = expected_web ∷ [] }

drift_report_iff_example :
    (drift_report (codes "/w/.akua/vendor") expects_web (listed_db ∷ listed_web ∷ [])).drift ≡ false
    ↔ (All (IsVendored (listed_db ∷ listed_web ∷ [])) expects_web.entries
        × All
            (λ (a : VendorListEntry). contains_key a.name expects_web.names ≡ true)
            (listed_db ∷ listed_web ∷ []))
drift_report_iff_example =
    drift_report_iff (codes "/w/.akua/vendor") expects_web (listed_db ∷ listed_web ∷ [])
      (((λ e. cc), tt), (tt, tt))

-- The tree that nothing expects is drift.
orphan_drifts :
    (drift_report (codes "/w/.akua/vendor") expects_web (listed_db ∷ listed_web ∷ [])).drift ≡ true
unfolding drift_report list_beq list_lt
orphan_drifts = refl

abbrev web : Dependency
web = record {
  oci = none;
  git = none;
  path = some (codes "web");
  repo = none;
  chart = none;
  version = none;
  tag = none;
  rev = none;
  replace = none;
}

abbrev shop : AkuaManifest
shop = record {
  package_section = record {
    name = codes "shop";
    version = codes "1";
    edition = codes "akua.dev/v1";
    strict_signing = true;
  };
  workspace = none;
  signing = none;
  dependencies = (codes "web", web) ∷ [];
}

abbrev test_snapshot : Snapshot (Unit {0})
test_snapshot = record {
  fs = record {
    canonicalize = λ p. found p;
    is_dir = λ _. ok true;
    is_file = λ _. false;
    read_dir = λ _. none;
    entries = λ _. file (codes "a") (ok (codes "1")) no_more;
  };
  read = λ _. content [];
  exists = λ _. false;
  list_dir = λ _. absent;
}

-- The disk counts what is written to it.
abbrev tools_of : AkuaManifest → Tools (Unit {0}) (Unit {0}) ℕ
tools_of manifest = record {
  manifest_from_str = λ _. ok manifest;
  lock_from_str = λ _. ok empty;
  lock_to_string = λ _. ok [];
  sha256_hex = λ s. s;
  default_cache_root = λ _. codes "/c";
  load_creds = λ _. ok (record { entries = [] });
  view = λ _. test_snapshot;
  fetch_oci = λ _ _ _ _ _ _. err tt;
  fetch_git =
      λ _ _ _ _ _ d. ok (record { chart_dir = codes "/c/web"; commit_sha = codes "c0" }, suc d);
}

-- Every directory has one file and one link, and no path has more than three bytes.
abbrev test_store : Store (Unit {0}) ℕ
test_store = record {
  parent = λ _. some (codes "/w/.akua/vendor");
  path_max = 3;
  too_long = tt;
  read_dir = λ _ _. ok (is_regular (codes "a") ∷ is_other (codes "l") ∷ []);
  remove_dir_all = λ _ d. ok (suc d);
  create_dir_all = λ p d. if ltb 3 (length p) then err tt else ok (suc d);
  copy = λ _ _ d. ok (suc d);
  write = λ _ _ d. ok (suc d);
}

-- The same, with no limit that a path meets.
abbrev wide_store : Store (Unit {0}) ℕ
wide_store = record test_store { create_dir_all = λ _ d. ok (suc d) }

abbrev git_web : Dependency
git_web = record {
  oci = none;
  git = some (codes "https://h/web");
  path = none;
  repo = none;
  chart = none;
  version = none;
  tag = some (codes "v1");
  rev = none;
  replace = none;
}

abbrev git_shop : AkuaManifest
git_shop = record shop { dependencies = (codes "web", git_web) ∷ [] }

abbrev added_web : VendorAddOutput
added_web = record {
  name = codes "web";
  source_kind = codes "git";
  source_ref = codes "https://h/web@v1";
  path = codes "/w/.akua/vendor/web";
  digest = codes "sha256:a" ++ (0 ∷ (codes "1" ++ (10 ∷ [])));
  size_bytes = 1;
  wrote = true;
  replaced = false;
}

plan_add-add_example :
    (m : AkuaManifest) × (dep : Dependency) × (source : SourceResolution × ℕ) × (Load.load
        (tools_of git_shop).manifest_from_str
        test_snapshot.read
        (codes "/w")
      ≡ ok m)
    × (get (codes "web") m.dependencies ≡ some dep)
    × (resolve_source (tools_of git_shop) 0 (codes "/w") (codes "web") dep none ≡ returns source)
    × (plan_add (tools_of git_shop) wide_store (codes "/w") (codes "web") none 0
        ≡ returns (added_web, source.1))
unfolding plan_add add path_starts_with starts_with list_beq list_lt Manifest.validate sort_by_key
    Lock.validate url_has_userinfo canonicalize_url
plan_add-add_example =
    plan_add-add (tools_of git_shop) wide_store (codes "/w") (codes "web") none 0 {out = added_web}
      {after = 5} refl

abbrev web_commit : ResolvedSource
web_commit = git (codes "https://h/web") (codes "v1") (codes "c0")

abbrev vendored_web : LockedPackage
vendored_web =
    vendored_entry (codes "web") web_commit (codes "git:c0") (some (codes "sha256:1")) empty

abbrev web_lock : AkuaLock
web_lock = record { version = 1; packages = vendored_web ∷ [] }

entry_of-vendored_lock_example : entry_of (codes "web") (codes "v1") web_lock.packages ≡ (
    if has_key
      (codes "web")
      (codes "v1")
      (written_entry (codes "web") web_commit (codes "git:c0") empty)
    then some vendored_web
    else entry_of (codes "web") (codes "v1") [])
unfolding vendored_lock vendor_lock_source list_beq find
entry_of-vendored_lock_example =
    entry_of-vendored_lock {E = Unit {0}} (codes "web") (codes "v1") (codes "web") git_web
      (codes "git:c0") (some (codes "sha256:1")) empty {source = web_commit}
      {digest = codes "git:c0"} {after = web_lock} refl refl

-- A source that holds its target: every directory has a directory.
abbrev nested_store : Store (Unit {0}) ℕ
nested_store = record test_store {
  read_dir = λ _ _. ok (is_regular (codes "a") ∷ is_directory (codes "t") ∷ []);
}

too_long_refused :
    (path : FilePath) (disk : ℕ)
    → nested_store.path_max < length path
    → nested_store.create_dir_all path disk ≡ err nested_store.too_long
too_long_refused path disk h = ground arith

nested_entries :
    {es : List (DirEntry (Unit {0}))}
    → ◌≡◌ {A = Result (Unit {0}) (List (DirEntry (Unit {0})))}
        (ok (is_regular (codes "a") ∷ is_directory (codes "t") ∷ []))
        (ok es)
    → (is_regular (codes "a") ∷ is_directory (codes "t") ∷ []) ≡ es
nested_entries e = cc

read_dir-IsNamed :
    (path : FilePath) (disk : ℕ) (entries : List (DirEntry (Unit {0})))
    → nested_store.read_dir path disk ≡ ok entries
    → All IsNamed entries
read_dir-IsNamed path disk entries h =
    subst (All IsNamed) (nested_entries h) (tt, (((λ e. cc), refl), tt))

copy_tree-copy_within_example :
    copy_tree {TomlError = Unit {0}} nested_store (codes "/") (codes "/t") 0
    ≡ copy_within nested_store (2 + suc nested_store.path_max) (codes "/") (codes "/t") 0
copy_tree-copy_within_example =
    copy_tree-copy_within nested_store too_long_refused read_dir-IsNamed 2 (codes "/") (codes "/t")
      0

-- The copy goes down until the path is too long.
copies_into_itself :
    copy_tree {TomlError = Unit {0}} nested_store (codes "/") (codes "/t") 0
    ≡ fails (io (codes "/t/t") tt)
unfolding copy_tree join
copies_into_itself = refl
