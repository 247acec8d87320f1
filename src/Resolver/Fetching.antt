-- ===== src/Resolver/Fetching.antt =====
-- The fetchers' results and options, and `resolve_oci`, `resolve_helm` and `resolve_git`: the lookup in the
-- cache where the resolver is offline, and the fetch where it is not.
use akua.Base.{
  Bool, Option, none, some, ◌++◌, Result, ok, err, ◌>>=◌, map_err, is_empty, if◌then◌else◌,
}
use akua.Base.Maps.{Map, get}
use akua.Base.Orders.{nat_ord, list_ord}
use akua.Base.Paths.{FilePath}
use akua.Base.Texts.{Text, codes, em_dash, strip_prefix}
use akua.Auth.HostAuth.{HostAuthMap}
use akua.Lock.{git_digest_prefix}
use akua.Manifest.{oci_source, git_source, helm_source}
use akua.Resolver.{PackageKind, helm_chart, oci, git, helm, ResolvedChart}
use akua.Resolver.Workspace.{
  FileSystem, ChartResolveError, unsupported_source, oci_fetch, helm_fetch, git_fetch,
  detect_dep_kind,
}

pub record FetchedArtifact : Type 0 where
  pub root_dir : FilePath
  pub blob_digest : Text
  pub kind : PackageKind

pub record FetchedRepo : Type 0 where
  pub chart_dir : FilePath
  pub commit_sha : Text

pub record Fetched : Type 0 where
  pub root_dir : FilePath
  pub digest : Text
  pub version : Text

pub data RefSpec : Type 0 where
  tag_ref rev_ref : Text → RefSpec

abbrev pub label : RefSpec → Text
label (tag_ref t) = t
label (rev_ref r) = r

-- The tag wins over the commit.
abbrev pub ref_spec : Option Text → Option Text → Option RefSpec
ref_spec (some tag) rev = some (tag_ref tag)
ref_spec none (some rev) = some (rev_ref rev)
ref_spec none none = none

-- What the fetchers have in their caches, by digest.
pub record Caches : Type 0 where
  pub oci_from_cache : FilePath → Text → Option FetchedArtifact
  pub git_from_cache : FilePath → Text → Option FetchedRepo
  pub helm_from_cache : FilePath → Text → Text → Option Fetched

-- What the fetchers do with the network, given the digest that is expected, and the key of signatures or
-- the credentials. `fetch_oci` reads the store of registry credentials too.
pub record Network (IoError : Type 0) : Type 0 where
  pub fetch_oci :
      Text → Text → FilePath → Option Text → Option Text → Result IoError FetchedArtifact
  pub fetch_git :
      Text → RefSpec → FilePath → Option Text → Option HostAuthMap → Result IoError FetchedRepo
  pub fetch_helm :
      Text → Text → Text → FilePath → Option Text → Option HostAuthMap → Result IoError Fetched

pub record ResolverOptions : Type 0 where
  pub offline : Bool
  pub cache_root : Option FilePath
  pub expected_digests : Map Text Text
  pub cosign_public_key_pem : Option Text
  pub reject_replace : Bool
  pub auth : Option HostAuthMap

abbrev pub unwrap_or {ℓ} : {A : Type ℓ} → A → Option A → A
unwrap_or d none = d
unwrap_or d (some a) = a

abbrev pub ok_or {ℓ κ} : {E : Type ℓ} {A : Type κ} → E → Option A → Result E A
ok_or e none = err e
ok_or e (some a) = ok a

abbrev pub needs_digest : Text
needs_digest =
    codes "offline mode needs a lockfile-pinned digest "
    ++ (em_dash ++ codes " run `akua add` first")

module _ {IoError : Type 0} (fs : FileSystem IoError) (default_root : Text → FilePath)
    (caches : Caches) (network : Network IoError) (opts : ResolverOptions) where
  unfoldable pub resolve_oci : Text → Text → Text → Result (ChartResolveError IoError) ResolvedChart
  unfolding get
  resolve_oci name url version = do
    let cache_root = unwrap_or (default_root (codes "oci")) opts.cache_root
    fetched ←
        if opts.offline
        then (ok_or (unsupported_source name oci_source needs_digest)
              (get name opts.expected_digests)
            >>= λ digest.
                ok_or
                  (unsupported_source name oci_source (
                    codes "offline mode and the OCI cache doesn't have this dep "
                    ++ (em_dash ++ codes " run `akua add` online first")))
                  (caches.oci_from_cache cache_root digest))
        else map_err (oci_fetch name) (
            network.fetch_oci url version cache_root (get name opts.expected_digests)
              opts.cosign_public_key_pem)
    ok (record {
      name = name;
      abs_path = fetched.root_dir;
      sha256 = fetched.blob_digest;
      kind = fetched.kind;
      source = oci url version fetched.blob_digest;
    })

  unfoldable pub resolve_helm :
      Text → Text → Text → Text → Result (ChartResolveError IoError) ResolvedChart
  unfolding get
  resolve_helm name repo chart version = do
    let cache_root = unwrap_or (default_root (codes "helm")) opts.cache_root
    fetched ←
        if opts.offline
        then (ok_or (unsupported_source name helm_source needs_digest)
              (get name opts.expected_digests)
            >>= λ digest.
                ok_or
                  (unsupported_source name helm_source (
                    codes "offline mode and the helm cache doesn't have this dep "
                    ++ (em_dash ++ codes " run `akua add` online first")))
                  (caches.helm_from_cache cache_root digest chart))
        else map_err (helm_fetch name) (
            network.fetch_helm repo chart version cache_root (get name opts.expected_digests)
              opts.auth)
    ok (record {
      name = name;
      abs_path = fetched.root_dir;
      sha256 = fetched.digest;
      kind = helm_chart;
      source =
          helm repo chart (if is_empty fetched.version then version else fetched.version)
            fetched.digest;
    })

  -- `opts.expected_digests.get(name)`, without the lock's prefix.
  unfoldable pub expected_commit : Text → Option Text
  unfolding get strip_prefix
  expected_commit name = elim (get name opts.expected_digests) [
    | none ↦ none
    | some digest ↦ strip_prefix digest git_digest_prefix
  ]

  unfoldable pub resolve_git :
      Text → Text → RefSpec → Result (ChartResolveError IoError) ResolvedChart
  unfolding expected_commit detect_dep_kind
  resolve_git name url at = do
    let cache_root = unwrap_or (default_root (codes "git")) opts.cache_root
    fetched ←
        if opts.offline
        then (ok_or
              (unsupported_source name git_source (
                codes "offline mode needs a lockfile-pinned commit "
                ++ (em_dash ++ codes " run `akua add` first")))
              (expected_commit name)
            >>= λ commit.
                ok_or
                  (unsupported_source name git_source (
                    codes "offline mode and the git cache doesn't have this commit "
                    ++ (em_dash ++ codes " run `akua add` online first")))
                  (caches.git_from_cache cache_root commit))
        else map_err (git_fetch name)
            (network.fetch_git url at cache_root (expected_commit name) opts.auth)
    ok (record {
      name = name;
      abs_path = fetched.chart_dir;
      sha256 = git_digest_prefix ++ fetched.commit_sha;
      kind = detect_dep_kind fs fetched.chart_dir;
      source = git url (label at) fetched.commit_sha;
    })
