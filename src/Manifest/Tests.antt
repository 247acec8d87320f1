-- ===== src/Manifest/Tests.antt =====
-- Runs of the manifest code, and its theorems at concrete inputs.
use akua.Base.{◌≡◌, refl, true, none, some, [], ◌∷◌, Result, ok, err, nat_eq}
use akua.Base.Maps.{Map}
use akua.Base.Paths.{FilePath, Read, content}
use akua.Base.Texts.{Text, codes, starts_with}
use akua.Auth.HostAuth.{url_has_userinfo}
use akua.Manifest.{
  Dependency, AkuaManifest, ManifestError, ambiguous_source, helm_chart_invalid,
  validate_dependency, validate, is_valid_package_name, is_path_traversal_chart_name,
}
use akua.Manifest.Validate.{IsSound, AllSound, validate_dependency_iff, validate_iff}
use akua.Manifest.Load.{load, load-AllSound}

abbrev no_source : Dependency
no_source = record {
  oci = none;
  git = none;
  path = none;
  repo = none;
  chart = none;
  version = none;
  tag = none;
  rev = none;
  replace = none;
}

abbrev redis : Dependency
redis = record no_source {
  oci = some (codes "oci://reg.dev/redis");
  version = some (codes "1.2.3");
}

abbrev pinned_path : Dependency
pinned_path = record no_source { path = some (codes "./redis"); version = some (codes "1.2.3") }

abbrev escaping_chart : Dependency
escaping_chart = record no_source {
  repo = some (codes "https://charts.dev");
  chart = some (codes "../../etc");
  version = some (codes "1");
}

abbrev two_dependencies : Map Text Dependency
two_dependencies = (codes "redis", redis) ∷ (codes "web", pinned_path) ∷ []

abbrev shop : AkuaManifest
shop = record {
  package_section = record {
    name = codes "shop-1";
    version = codes "0.1.0";
    edition = codes "akua.dev/v1alpha1";
    strict_signing = true;
  };
  workspace = none;
  signing = none;
  dependencies = (codes "redis", redis) ∷ [];
}

abbrev check : Text → Dependency → Result (ManifestError (Unit {0})) (Unit {0})
check = validate_dependency

no_source_counted : check (codes "web") no_source ≡ err (ambiguous_source (codes "web") 0)
unfolding validate_dependency
no_source_counted = refl

chart_name_checked :
    check (codes "web") escaping_chart ≡ err (helm_chart_invalid (codes "web") (codes "../../etc"))
unfolding validate_dependency url_has_userinfo is_path_traversal_chart_name
chart_name_checked = refl

validate_dependency_iff_example : IsSound redis
unfolding validate_dependency url_has_userinfo
validate_dependency_iff_example =
    (validate_dependency_iff {TomlError = Unit {0}} (codes "redis") redis).0 refl

validate_iff_example :
    (starts_with (codes "akua.dev/v1alpha1") (codes "akua.dev/") ≡ true)
    × (is_valid_package_name (codes "shop-1") ≡ true)
    × AllSound ((codes "redis", redis) ∷ [])
unfolding validate url_has_userinfo
validate_iff_example = (validate_iff {TomlError = Unit {0}} shop).0 refl

-- A TOML library that reads every text as the one manifest.
abbrev reads_shop : Text → Result (Unit {0}) AkuaManifest
reads_shop _ = ok shop

abbrev one_file : FilePath → Read (Unit {0})
one_file _ = content (codes "[package]")

shop_loaded : load reads_shop one_file (codes "/work") ≡ ok shop
unfolding load validate url_has_userinfo
shop_loaded = refl

load-AllSound_example : AllSound shop.dependencies
load-AllSound_example = load-AllSound reads_shop one_file (codes "/work") shop_loaded
