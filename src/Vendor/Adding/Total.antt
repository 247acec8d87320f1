-- ===== src/Vendor/Adding/Total.antt =====
-- `add` does not panic: a helm dependency is refused before the lock is written.
use akua.Base.{◌≡◌, ◌≢◌, some, arith, nat_eq, list_eq}
use akua.Base.Maps.{Map, get}
use akua.Base.Orders.{nat_ord, list_ord}
use akua.Base.Runs.{returns}
use akua.Base.Texts.{Text}
use akua.Manifest.{Dependency, helm_spec, spec}
use akua.Manifest.Load
use akua.Manifest.Validate.{IsSound}
use akua.Vendor.Adding.{dependency_of}
use akua.Vendor.Copying.{Store}
use akua.Vendor.Sources.{Tools}

-- The dependency has a typed view, and is not one of helm.
abbrev IsVendorable : Dependency → Type 0
IsVendorable d =
    IsSound d × ((repo chart version : Text) → spec d ≢ some (helm_spec repo chart version))

module _ {IoError TomlError Disk : Type 0} (tools : Tools IoError TomlError Disk)
    (store : Store IoError Disk) where
  pub dependency_of-get :
      (name : Text) (deps : Map Text Dependency) {d : Dependency}
      → dependency_of tools store name deps ≡ returns d
      → get name deps ≡ some d
  unfolding dependency_of
  dependency_of-get name deps h = ground arith
