-- ===== src/Resolver/Tests.antt =====
-- Runs of the resolver's lock code, and its theorems at concrete inputs.
use akua.Base.{
  ◌≡◌, ◌↔◌, refl, none, some, [], ◌∷◌, ok, nat_eq, list_eq, list_beq, find, here, there,
}
use akua.Base.Orders.{nat_ord, list_ord, pair_ord}
use akua.Base.Sorting.{HasDistinctKeys}
use akua.Base.Texts.{Text, codes, starts_with}
use akua.Auth.HostAuth.{canonicalize_url}
use akua.Lock.{AkuaLock, LockedPackage, sort_key, validate}
use akua.Lock.Order.{KnownDigests}
use akua.Lock.Entries.{entry_of}
use akua.Manifest.{Dependency, path_spec, spec, validate_dependency}
use akua.Resolver.{
  path, oci, git, ResolvedChart, ResolvedCharts, kcl_module, helm_chart, to_locked_fields,
  helm_charts, resolved_source_for_replace, upsert_locked_from_source, merge_into_lock,
}
use akua.Resolver.Overrides.{resolved_source_for_replace-panic}
use akua.Resolver.Locking.{upsert_locked-signature}
use akua.Resolver.Merging.{KnownCharts, merge_into_lock-valid, merge_into_lock-member}

abbrev redis : ResolvedChart
redis = record {
  name = codes "redis";
  abs_path = codes "/c/redis";
  sha256 = codes "sha256:00";
  kind = helm_chart;
  source = oci (codes "oci://reg.dev/redis") (codes "8") (codes "sha256:00");
}

abbrev web : ResolvedChart
web = record {
  name = codes "web";
  abs_path = codes "/w/web";
  sha256 = codes "sha256:11";
  kind = kcl_module;
  source = path (codes "./web");
}

abbrev resolved : ResolvedCharts
resolved = record { entries = (codes "redis", redis) ∷ (codes "web", web) ∷ [] }

abbrev entry : Text → Text → LockedPackage
entry version digest = record {
  name = codes "redis";
  version = version;
  source = codes "oci://reg.dev/redis";
  digest = digest;
  vendor_digest = none;
  signature = some (codes "signed");
  dependencies = [];
  attestation = none;
  replaced = none;
  yanked = none;
  kyverno_source_digest = none;
  converter_version = none;
}

abbrev old_lock : AkuaLock
old_lock = record {
  version = 1;
  packages = entry (codes "") (codes "git:0") ∷ entry (codes "8") (codes "sha256:00") ∷ [];
}

git_entry_source :
    (to_locked_fields (git (codes "https://git.dev/x.git") (codes "v1") (codes "00"))).0
    ≡ codes "git+https://git.dev/x@v1"
unfolding to_locked_fields canonicalize_url
git_entry_source = refl

only_charts : helm_charts resolved ≡ (codes "redis", redis) ∷ []
unfolding helm_charts
only_charts = refl

old_apart : HasDistinctKeys sort_key old_lock.packages
old_apart = (((λ e. cc), tt), (tt, tt))

old_known : KnownDigests old_lock.packages
unfolding starts_with
old_known = (refl, (refl, tt))

new_known : KnownCharts resolved.entries
unfolding starts_with
new_known = (refl, (refl, tt))

upsert_locked-signature_example :
    (codes "sha256:00" ≡ codes "sha256:00")
    × (old : LockedPackage) × (entry_of (codes "redis") (codes "8") old_lock.packages ≡ some old)
    × (old.digest ≡ codes "sha256:00")
    × (old.signature ≡ some (codes "signed"))
unfolding upsert_locked_from_source to_locked_fields list_beq find
upsert_locked-signature_example =
    upsert_locked-signature (codes "redis") redis.source (codes "sha256:00") old_lock
      {p = entry (codes "8") (codes "sha256:00")} refl refl

merge_into_lock-valid_example :
    validate {TomlError = Unit {0}} (merge_into_lock resolved old_lock) ≡ ok tt
merge_into_lock-valid_example =
    merge_into_lock-valid resolved old_lock refl old_apart old_known new_known

merge_into_lock-member_example :
    (p : LockedPackage) × (entry_of
        (codes "web")
        (codes "local")
        (merge_into_lock resolved old_lock).packages
      ≡ some p)
    × (p.digest ≡ codes "sha256:11")
unfolding to_locked_fields
merge_into_lock-member_example =
    merge_into_lock-member resolved old_lock (codes "web", web) refl old_apart old_known new_known
      (((λ e. cc), tt), (tt, tt)) (there (here refl))

abbrev replaced_path : Dependency
replaced_path = record {
  oci = none;
  git = none;
  path = some (codes "./web");
  repo = none;
  chart = none;
  version = none;
  tag = none;
  rev = none;
  replace = some (record { path = codes "../fork" });
}

resolved_source_for_replace-panic_example :
    resolved_source_for_replace (codes "web") replaced_path (codes "../fork") ≡ none
    ↔ ((declared : Text) × (spec replaced_path ≡ some (path_spec declared)))
unfolding validate_dependency
resolved_source_for_replace-panic_example =
    resolved_source_for_replace-panic {TomlError = Unit {0}} (codes "web") (codes "../fork")
      replaced_path refl
