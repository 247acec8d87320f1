-- ===== src/Resolver.antt =====
-- crates/akua-core/src/chart_resolver.rs: what a dependency resolves to, and how that enters the lock.
-- A panic (`unreachable!`, `expect`) is `none`.
pub mod Locking
pub mod Merging
pub mod Overrides
pub mod Digest
pub mod Workspace
pub mod Fetching
pub mod Resolution
mod Tests
mod TreeTests
use akua.Base.{
  ℕ, Bool, true, false, ◌&&◌, Option, none, some, List, [], ◌∷◌, ◌++◌, Result, ok, err, ◌==◌,
  nat_eq, list_eq, list_beq, get_elem?, if◌then◌else◌, retain,
}
use akua.Base.Maps.{Map}
use akua.Base.Orders.{nat_ord, list_ord}
use akua.Base.Paths.{FilePath}
use akua.Base.Texts.{Text, codes}
use akua.Auth.HostAuth.{canonicalize_url}
use akua.Lock.{AkuaLock, LockedPackage, Replaced, find_slot, upsert_at, sort}
use akua.Manifest.{
  Dependency, DependencySource, helm_source, DependencySpec, path_spec, oci_spec, git_spec,
  helm_spec, tag_or_rev, spec,
}

pub data PackageKind : Type 0 where
  helm_chart kcl_module : PackageKind

pub data ResolvedSource : Type 0 where
  path : (declared : Text) → ResolvedSource
  oci : (oci version blob_digest : Text) → ResolvedSource
  oci_replaced : (oci version replace_path : Text) → ResolvedSource
  git : (git tag_or_rev commit_sha : Text) → ResolvedSource
  git_replaced : (git tag_or_rev replace_path : Text) → ResolvedSource
  helm : (repo chart version digest : Text) → ResolvedSource

pub record ResolvedChart : Type 0 where
  pub name : Text
  pub abs_path : FilePath
  pub sha256 : Text
  pub kind : PackageKind
  pub source : ResolvedSource

pub record ResolvedCharts : Type 0 where
  pub entries : Map Text ResolvedChart

abbrev is_kind : PackageKind → PackageKind → Bool
is_kind helm_chart helm_chart = true
is_kind kcl_module kcl_module = true
is_kind _ _ = false

unfoldable pub helm_charts : ResolvedCharts → Map Text ResolvedChart
unfolding retain
helm_charts resolved =
    retain (λ (e : Text × ResolvedChart). is_kind e.1.kind helm_chart) resolved.entries

unfoldable pub kcl_pkgs : ResolvedCharts → Map Text ResolvedChart
unfolding retain
kcl_pkgs resolved =
    retain (λ (e : Text × ResolvedChart). is_kind e.1.kind kcl_module) resolved.entries

unfoldable pub kind_str : ResolvedSource → Text
kind_str (path _) = codes "path"
kind_str (oci _ _ _) = codes "oci"
kind_str (oci_replaced _ _ _) = codes "oci"
kind_str (git _ _ _) = codes "git"
kind_str (git_replaced _ _ _) = codes "git"
kind_str (helm _ _ _ _) = codes "helm"

abbrev git_source_text : Text → Text → Text
git_source_text url at = codes "git+" ++ (canonicalize_url url ++ (b'@' ∷ at))

abbrev marker : Text → Option Replaced
marker p = some (record { path = p })

-- The source, the version and the marker of a replacement that an entry of the lock has.
unfoldable pub to_locked_fields : ResolvedSource → Text × Text × Option Replaced
to_locked_fields (path declared) = (codes "path+file://" ++ declared, codes "local", none)
to_locked_fields (oci url version _) = (url, version, none)
to_locked_fields (oci_replaced url version replace_path) = (url, version, marker replace_path)
to_locked_fields (git url at _) = (git_source_text url at, at, none)
to_locked_fields (git_replaced url at replace_path) =
    (git_source_text url at, at, marker replace_path)
to_locked_fields (helm repo chart version _) =
    (codes "helm+" ++ (repo ++ (b'#' ∷ chart)), version, none)

-- The entry that gives its metadata to a new one: the one at the slot, if its digest is the same. A slot
-- is in range.
pub carried : Text → Option LockedPackage → Option LockedPackage
unfolding list_beq
carried digest none = none
carried digest (some p) = if p.digest == digest then some p else none

unfoldable pub at_slot : Option ℕ → AkuaLock → Option LockedPackage
at_slot none lock = none
at_slot (some i) lock = get_elem? lock.packages i

-- `and_then` on the metadata that is carried over.
abbrev carry_field {ℓ} : {A : Type ℓ} → Option LockedPackage → (LockedPackage → Option A) → Option A
carry_field none f = none
carry_field (some p) f = f p

abbrev carry_dependencies : Option LockedPackage → List Text
carry_dependencies none = []
carry_dependencies (some p) = p.dependencies

abbrev locked_entry :
    Text → Text × Text × Option Replaced → Text → Option LockedPackage → LockedPackage
locked_entry name fields digest carry = record {
  name = name;
  version = fields.1;
  source = fields.0;
  digest = digest;
  vendor_digest = carry_field carry (λ p. p.vendor_digest);
  signature = carry_field carry (λ p. p.signature);
  attestation = carry_field carry (λ p. p.attestation);
  dependencies = carry_dependencies carry;
  replaced = fields.2;
  yanked = carry_field carry (λ p. p.yanked);
  kyverno_source_digest = carry_field carry (λ p. p.kyverno_source_digest);
  converter_version = carry_field carry (λ p. p.converter_version);
}

unfoldable pub upsert_locked_from_source : Text → ResolvedSource → Text → AkuaLock → AkuaLock
unfolding to_locked_fields find_slot at_slot carried upsert_at
upsert_locked_from_source name source digest lock =
    let fields = to_locked_fields source in
    let slot = find_slot name fields.1 lock in
    upsert_at slot (locked_entry name fields digest (carried digest (at_slot slot lock))) lock

-- The loop of `merge_into_lock`.
unfoldable pub upsert_all : Map Text ResolvedChart → AkuaLock → AkuaLock
unfolding upsert_locked_from_source
upsert_all [] lock = lock
upsert_all ((_, chart) ∷ charts) lock =
    upsert_all charts (upsert_locked_from_source chart.name chart.source chart.sha256 lock)

unfoldable pub merge_into_lock : ResolvedCharts → AkuaLock → AkuaLock
unfolding upsert_all sort
merge_into_lock resolved lock = sort (upsert_all resolved.entries lock)

-- `ChartResolveError::UnsupportedSource`, the one error of `resolved_source_for_replace`.
pub record UnsupportedSource : Type 0 where
  pub name : Text
  pub kind : DependencySource
  pub reason : Text

abbrev tag_or_head : DependencySpec → Text
unfolding tag_or_rev
tag_or_head s = elim (tag_or_rev s) [ none ↦ codes "HEAD" | some at ↦ at ]

source_of_spec : Text → Text → DependencySpec → Option (Result UnsupportedSource ResolvedSource)
source_of_spec name replace_path (oci_spec url version) =
    some (ok (oci_replaced url version replace_path))
source_of_spec name replace_path (git_spec url tag rev) =
    some (ok (git_replaced url (tag_or_head (git_spec url tag rev)) replace_path))
source_of_spec name replace_path (path_spec _) = none
source_of_spec name replace_path (helm_spec _ _ _) = some (
    err (record {
      name = name;
      kind = helm_source;
      reason = codes "helm-repo dependencies are not yet supported";
    }))

unfoldable pub resolved_source_for_replace :
    Text → Dependency → Text → Option (Result UnsupportedSource ResolvedSource)
unfolding spec source_of_spec tag_or_head
resolved_source_for_replace name dep replace_path = elim (spec dep) [
  | none ↦ none
  | some s ↦ source_of_spec name replace_path s
]
