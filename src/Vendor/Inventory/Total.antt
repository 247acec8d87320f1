-- ===== src/Vendor/Inventory/Total.antt =====
-- `expected_entries` does not panic.
use akua.Base.{◌≢◌, Option, none, some, [], ◌∷◌, arith, inl, inr, nat_eq, push}
use akua.Base.Maps.{Map, insert}
use akua.Base.Orders.{nat_ord, list_ord}
use akua.Base.Paths.{FilePath}
use akua.Base.Runs.{
  panics, Run-cases, try_map-ok, >>=-eq-panics, try, try_map, try_map-no_panic, try-no_panic,
}
use akua.Base.Texts.{Text}
use akua.Lock.{AkuaLock, LockedPackage}
use akua.Lock.Files
use akua.Manifest.{Dependency}
use akua.Manifest.Load.{load-AllSound}
use akua.Manifest.Load
use akua.Manifest.Validate.{IsSound, AllSound}
use akua.Vendor.{manifest_error}
use akua.Vendor.Inventory.{
  ExpectedSet, expected_dep, locked_in, add_dependencies, expected_entries, optional_lock,
}
use akua.Vendor.Sources.{Tools}
use akua.Vendor.Sources.Total.{resolve_source-no_panic}

module _ {IoError TomlError Disk : Type 0} (tools : Tools IoError TomlError Disk) where
  expected_dep-no_panic :
      (workspace : FilePath) (name : Text) (d : Dependency) (locked : Option LockedPackage)
      (disk : Disk)
      → IsSound d
      → expected_dep tools workspace name d locked disk ≢ panics
  unfolding expected_dep
  expected_dep-no_panic workspace name d none disk s p =
      ground (arith, resolve_source-no_panic tools disk workspace name d none s)
  expected_dep-no_panic workspace name d (some l) disk s p = cc

  add_dependencies-no_panic :
      (workspace : FilePath) (lock : Option AkuaLock) (deps : Map Text Dependency)
      (set : ExpectedSet) (disk : Disk)
      → AllSound deps
      → add_dependencies tools workspace lock deps set disk ≢ panics
  unfolding add_dependencies
  add_dependencies-no_panic workspace lock [] set disk a p = cc
  add_dependencies-no_panic workspace lock ((name, d) ∷ deps) set disk a p =
      elim (Run-cases (expected_dep tools workspace name d (locked_in name lock) disk)) [
        | inl (e, h) ↦
            add_dependencies-no_panic workspace lock deps
              (record { names = insert name tt set.names; entries = push set.entries e.0 }) e.1 a.1
              (ground arith)
        | inr (inl h) ↦ ground arith
        | inr (inr h) ↦ expected_dep-no_panic workspace name d (locked_in name lock) disk a.0 h
      ]

  pub expected_entries-no_panic :
      (workspace : FilePath) (disk : Disk) → expected_entries tools workspace disk ≢ panics
  unfolding expected_entries
  expected_entries-no_panic workspace disk p =
      let loaded = Load.load tools.manifest_from_str (tools.view disk).read workspace in
      elim (>>=-eq-panics (try_map manifest_error loaded) _ p) [
        | inl h ↦ try_map-no_panic manifest_error loaded h
        | inr (m, h, q) ↦
            elim (>>=-eq-panics
              (try
                (optional_lock (Files.load tools.lock_from_str (tools.view disk).read workspace)))
              _ q) [
                | inl k ↦ try-no_panic _ k
                | inr (lock, k, r) ↦
                    elim (>>=-eq-panics
                      (add_dependencies tools workspace lock m.dependencies
                        (record { names = []; entries = [] }) disk)
                      _ r) [
                        | inl o ↦
                            add_dependencies-no_panic workspace lock m.dependencies
                              (record { names = []; entries = [] }) disk
                              (load-AllSound tools.manifest_from_str (tools.view disk).read
                                workspace (try_map-ok manifest_error loaded h))
                              o
                        | inr (set, _, o) ↦ cc
                      ]
              ]
      ]
