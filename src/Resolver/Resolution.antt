-- ===== src/Resolver/Resolution.antt =====
-- `resolve_with_options`: every dependency of a manifest, from its replacement, from the vendor directory
-- or by its fetcher. The fetchers, with their caches and credentials, are arguments, and so is the
-- default cache root, which the environment gives. A panic is `none`.
pub mod Offline
pub mod Rejected
use akua.Base.{
  ℕ, Bool, true, false, Option, none, some, List, [], ◌∷◌, ◌++◌, Result, ok, err, ◌>>=◌, ◌>>◌,
  map_err, is_empty, if◌then◌else◌,
}
use akua.Base.Maps.{Map, get, insert}
use akua.Base.Orders.{nat_ord, list_ord}
use akua.Base.Paths.{FilePath, join}
use akua.Base.Texts.{Text, codes, strip_prefix}
use akua.Auth.HostAuth.{HostAuthMap}
use akua.Lock.{git_digest_prefix, sha256_digest_prefix, vendored_lock_fallback}
use akua.Manifest.{
  AkuaManifest, Dependency, DependencySource, oci_source, git_source, helm_source, DependencySpec,
  path_spec, oci_spec, git_spec, helm_spec, spec, tag_or_rev,
}
use akua.Resolver.{
  PackageKind, helm_chart, ResolvedSource, path, oci, oci_replaced, git, git_replaced, helm,
  ResolvedChart, ResolvedCharts, UnsupportedSource, resolved_source_for_replace,
}
use akua.Resolver.Workspace.{
  FileSystem, ChartResolveError, unsupported_source, oci_fetch, helm_fetch, git_fetch,
  replace_rejected, user_manifest, internal, detect_dep_kind, resolve_path,
}
use akua.Resolver.Fetching.{
  FetchedArtifact, FetchedRepo, Fetched, RefSpec, label, ref_spec, Caches, Network, ResolverOptions,
  unwrap_or, ok_or, needs_digest, resolve_oci, resolve_helm, expected_commit, resolve_git,
}

abbrev pub is_dir_or_false : {IoError : Type 0} → Result IoError Bool → Bool
is_dir_or_false (ok b) = b
is_dir_or_false (err _) = false

-- The digest of the vendored tree takes the place of the one that was fetched.
patch_source : ResolvedChart → ResolvedSource → ResolvedChart
unfolding strip_prefix
patch_source chart (oci url version _) = record chart { source = oci url version chart.sha256 }
patch_source chart (git url at _) =
    let raw = unwrap_or chart.sha256 (strip_prefix chart.sha256 sha256_digest_prefix) in
    record chart { source = git url at raw; sha256 = git_digest_prefix ++ raw }
patch_source chart _ = chart

module _ {IoError : Type 0} (fs : FileSystem IoError) (sha256_hex : Text → Text) where
  abbrev vendor_path : Text → FilePath → FilePath
  vendor_path name root = join (join root (codes ".akua/vendor")) name

  unfoldable pub resolve_from_vendor :
      Text → FilePath → ResolvedSource → Result (ChartResolveError IoError) (Option ResolvedChart)
  unfolding resolve_path patch_source join
  resolve_from_vendor name root placeholder =
      if is_dir_or_false (fs.is_dir (vendor_path name root))
      then (resolve_path fs sha256_hex name (vendor_path name root) root placeholder internal
          >>= λ chart. ok (some (patch_source chart chart.source)))
      else ok none

  -- Vendor first, but not for helm.
  vendored :
      Text → DependencySpec → FilePath → Result (ChartResolveError IoError) (Option ResolvedChart)
  unfolding resolve_from_vendor tag_or_rev
  vendored name (path_spec declared) root = resolve_from_vendor name root (path declared)
  vendored name (oci_spec url version) root = resolve_from_vendor name root (oci url version [])
  vendored name (git_spec url tag rev) root =
      resolve_from_vendor name root
        (git url (unwrap_or vendored_lock_fallback (tag_or_rev (git_spec url tag rev))) [])
  vendored name (helm_spec _ _ _) root = ok none

  resolve_replaced :
      ResolverOptions
      → Text
      → Dependency
      → FilePath
      → FilePath
      → Option (Result (ChartResolveError IoError) ResolvedChart)
  unfolding resolved_source_for_replace resolve_path
  resolve_replaced opts name dep replace_path root =
      if opts.reject_replace
      then some (err (replace_rejected name))
      else elim (resolved_source_for_replace name dep replace_path) [
        | none ↦ none
        | some (err u) ↦ some (err (unsupported_source u.name u.kind u.reason))
        | some (ok source) ↦
            some (resolve_path fs sha256_hex name replace_path root source user_manifest)
      ]

module _ {IoError : Type 0} (fs : FileSystem IoError) (sha256_hex : Text → Text)
    (default_root : Text → FilePath) (caches : Caches) (network : Network IoError)
    (opts : ResolverOptions) where
  fetch_spec :
      Text → DependencySpec → FilePath → Option (Result (ChartResolveError IoError) ResolvedChart)
  unfolding resolve_oci resolve_helm resolve_git resolve_path
  fetch_spec name (path_spec declared) root =
      some (resolve_path fs sha256_hex name declared root (path declared) user_manifest)
  fetch_spec name (oci_spec url version) root =
      some (resolve_oci fs default_root caches network opts name url version)
  fetch_spec name (git_spec url tag rev) root = elim (ref_spec tag rev) [
    | none ↦ none
    | some at ↦ some (resolve_git fs default_root caches network opts name url at)
  ]
  fetch_spec name (helm_spec repo chart version) root =
      some (resolve_helm fs default_root caches network opts name repo chart version)

  resolve_spec :
      Text → DependencySpec → FilePath → Option (Result (ChartResolveError IoError) ResolvedChart)
  unfolding vendored fetch_spec
  resolve_spec name s root = elim (vendored fs sha256_hex name s root) [
    | err e ↦ some (err e)
    | ok (some chart) ↦ some (ok chart)
    | ok none ↦ fetch_spec name s root
  ]

  -- The body of the loop.
  unfoldable pub resolve_dependency :
      Text → Dependency → FilePath → Option (Result (ChartResolveError IoError) ResolvedChart)
  unfolding resolve_replaced resolve_spec spec
  resolve_dependency name dep root = elim dep.replace [
    | some replace ↦ resolve_replaced fs sha256_hex opts name dep replace.path root
    | none ↦ elim (spec dep) [ none ↦ none | some s ↦ resolve_spec name s root ]
  ]

  unfoldable pub resolve_all :
      Map Text Dependency
      → FilePath
      → Map Text ResolvedChart
      → Option (Result (ChartResolveError IoError) ResolvedCharts)
  unfolding resolve_dependency insert
  resolve_all [] root entries = some (ok (record { entries = entries }))
  resolve_all ((name, dep) ∷ deps) root entries = elim (resolve_dependency name dep root) [
    | none ↦ none
    | some (err e) ↦ some (err e)
    | some (ok chart) ↦ resolve_all deps root (insert name chart entries)
  ]

  unfoldable pub resolve_with_options :
      AkuaManifest → FilePath → Option (Result (ChartResolveError IoError) ResolvedCharts)
  unfolding resolve_all
  resolve_with_options manifest root = resolve_all manifest.dependencies root []
