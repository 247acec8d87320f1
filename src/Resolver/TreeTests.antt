-- ===== src/Resolver/TreeTests.antt =====
-- Runs of the resolver over directories, and its theorems at concrete inputs.
use mathlib.Core.List.{Permᴰ}
use akua.Base.{
  ◌≡◌, refl, true, false, none, some, [], ◌∷◌, ◌++◌, ok, err, ℕ, All, list_beq, if◌then◌else◌, ◌==◌,
  list_eq, nat_eq,
}
use akua.Base.Orders.{nat_ord, list_ord, list_lt}
use akua.Base.Paths.{FilePath}
use akua.Base.Sorting.{sort_by_key}
use akua.Base.Texts.{Text, codes}
use akua.Manifest.{AkuaManifest, Dependency, spec}
use akua.Resolver.{path, ResolvedChart, helm_chart}
use akua.Resolver.Digest.{
  Entries, no_more, file, directory, symlink, collect_files, hash_dir, hash_dir-Permᴰ,
  hash_dir_collides, FoundFile,
}
use akua.Resolver.Workspace.{
  found, FileSystem, path_escape, user_manifest, resolve_path, path_starts_with,
}
use akua.Resolver.Workspace.Confined.{IsConfined, resolve_path-IsConfined}
use akua.Resolver.Fetching.{Caches, Network, ResolverOptions, FetchedArtifact}
use akua.Resolver.Resolution.{resolve_with_options}
use akua.Resolver.Resolution.Offline.{resolve_with_options-offline}
use akua.Resolver.Resolution.Rejected.{resolve_with_options-no_replace}

-- No hash at all: the text itself.
abbrev identity : Text → Text
identity s = s

abbrev one_order : Entries (Unit {0})
one_order =
    file (codes "a") (ok (codes "1"))
      (directory (codes "d") (file (codes "b") (ok (codes "2")) no_more) no_more)

abbrev other_order : Entries (Unit {0})
other_order =
    directory (codes "d") (file (codes "b") (ok (codes "2")) no_more)
      (symlink (codes "s") (file (codes "a") (ok (codes "1")) no_more))

abbrev first_file : FoundFile (Unit {0})
first_file = (codes "a" ∷ [], ok (codes "1"))

abbrev second_file : FoundFile (Unit {0})
second_file = (codes "d" ∷ codes "b" ∷ [], ok (codes "2"))

hash_dir-Permᴰ_example : hash_dir identity one_order ≡ hash_dir identity other_order
unfolding collect_files
hash_dir-Permᴰ_example =
    hash_dir-Permᴰ identity one_order other_order {files = first_file ∷ second_file ∷ []}
      {others = second_file ∷ first_file ∷ []} refl refl (Permᴰ.swap refl refl)
      (((λ e. cc), tt), (tt, tt))

hash_dir_collides_example :
    (digest : Text) × (m n : ℕ) × (hash_dir {IoError = Unit {0}} identity
        (file (codes "a") (ok (codes "1" ++ (10 ∷ (codes "b" ++ (0 ∷ codes "2"))))) no_more)
      ≡ ok (digest, m))
    × (hash_dir {IoError = Unit {0}} identity
          (file (codes "a") (ok (codes "1")) (file (codes "b") (ok (codes "2")) no_more))
        ≡ ok (digest, n))
unfolding list_lt
hash_dir_collides_example =
    hash_dir_collides identity (codes "a") (codes "b") (codes "1") (codes "2") refl

-- A workspace at `/w`: `/w/up` leads out of it.
abbrev small_disk : FileSystem (Unit {0})
unfolding list_beq
small_disk = record {
  canonicalize = λ p. if p == codes "/w/up" then found (codes "/etc") else found p;
  is_dir = λ _. ok true;
  is_file = λ _. false;
  read_dir = λ _. none;
  entries = λ _. one_order;
}

abbrev local_chart : ResolvedChart
local_chart = record {
  name = codes "web";
  abs_path = codes "/w/web";
  sha256 =
      codes "sha256:a"
      ++ (0 ∷ (codes "1" ++ (10 ∷ (codes "d/b" ++ (0 ∷ (codes "2" ++ (10 ∷ [])))))));
  kind = helm_chart;
  source = path (codes "web");
}

escape_refused :
    resolve_path small_disk identity
      (codes "web")
      (codes "up")
      (codes "/w")
      (path (codes "up"))
      user_manifest
    ≡ err (path_escape (codes "web") (codes "up") (codes "/etc") (codes "/w"))
unfolding resolve_path small_disk path_starts_with
escape_refused = refl

resolve_path-IsConfined_example :
    IsConfined small_disk identity (codes "web") (codes "/w") local_chart
unfolding resolve_path small_disk path_starts_with sort_by_key list_lt
resolve_path-IsConfined_example =
    resolve_path-IsConfined small_disk identity (codes "web") (codes "web") (codes "/w")
      (path (codes "web")) refl

abbrev redis : Dependency
redis = record {
  oci = some (codes "oci://r/x");
  git = none;
  path = none;
  repo = none;
  chart = none;
  version = some (codes "1");
  tag = none;
  rev = none;
  replace = none;
}

abbrev shop : AkuaManifest
shop = record {
  package_section = record {
    name = codes "shop";
    version = codes "1";
    edition = codes "akua.dev/v1";
    strict_signing = true;
  };
  workspace = none;
  signing = none;
  dependencies = (codes "redis", redis) ∷ [];
}

abbrev no_directories : FileSystem (Unit {0})
no_directories = record {
  canonicalize = λ p. found p;
  is_dir = λ _. err tt;
  is_file = λ _. false;
  read_dir = λ _. none;
  entries = λ _. no_more;
}

abbrev cached : FetchedArtifact
cached = record { root_dir = codes "/c/x"; blob_digest = codes "sha256:00"; kind = helm_chart }

abbrev one_cached : Caches
one_cached = record {
  oci_from_cache = λ _ _. some cached;
  git_from_cache = λ _ _. none;
  helm_from_cache = λ _ _ _. none;
}

abbrev no_network : Network (Unit {0})
no_network = record {
  fetch_oci = λ _ _ _ _ _. err tt;
  fetch_git = λ _ _ _ _ _. err tt;
  fetch_helm = λ _ _ _ _ _ _. err tt;
}

abbrev some_network : Network (Unit {0})
some_network = record {
  fetch_oci = λ _ _ _ _ _. ok cached;
  fetch_git = λ _ _ _ _ _. err tt;
  fetch_helm = λ _ _ _ _ _ _. err tt;
}

abbrev offline_options : ResolverOptions
offline_options = record {
  offline = true;
  cache_root = none;
  expected_digests = (codes "redis", codes "sha256:00") ∷ [];
  reject_replace = true;
  cosign_public_key_pem = none;
  auth = none;
}

abbrev roots : Text → FilePath
roots kind = codes "/c"

resolve_with_options-offline_example :
    resolve_with_options no_directories identity roots one_cached no_network offline_options shop
      (codes "/w")
    ≡ resolve_with_options no_directories identity roots one_cached some_network offline_options
        shop
        (codes "/w")
resolve_with_options-offline_example =
    resolve_with_options-offline no_directories identity roots one_cached no_network some_network
      offline_options refl shop (codes "/w")

resolve_with_options-no_replace_example :
    All (λ (e : Text × Dependency). e.1.replace ≡ none) shop.dependencies
unfolding resolve_with_options spec list_lt
resolve_with_options-no_replace_example =
    resolve_with_options-no_replace no_directories identity roots one_cached no_network
      offline_options refl shop (codes "/w") refl
