-- ===== src/Resolver/Resolution/Offline.antt =====
-- Offline resolution asks the network for nothing.
use akua.Base.{◌≡◌, refl, ap, ◌∙◌, true, Option, none, some, [], ◌∷◌, Result, ok, err}
use akua.Base.Maps.{Map, insert}
use akua.Base.Orders.{nat_ord, list_ord}
use akua.Base.Paths.{FilePath}
use akua.Base.Texts.{Text}
use akua.Manifest.{
  AkuaManifest, Dependency, Replace, DependencySpec, path_spec, oci_spec, git_spec, helm_spec, spec,
}
use akua.Resolver.{ResolvedChart}
use akua.Resolver.Workspace.{FileSystem}
use akua.Resolver.Fetching.{
  Caches, Network, ResolverOptions, RefSpec, ref_spec, resolve_oci, resolve_helm, resolve_git,
}
use akua.Resolver.Resolution.{
  fetch_spec, vendored, resolve_spec, resolve_replaced, resolve_dependency, resolve_all,
  resolve_with_options,
}

-- What the loop does with the result for one dependency.
abbrev next {ℓ} :
    {E : Type 0} {A : Type ℓ}
    → (ResolvedChart → Option (Result E A))
    → Option (Result E ResolvedChart)
    → Option (Result E A)
next k none = none
next k (some (err e)) = some (err e)
next k (some (ok chart)) = k chart

next_same {ℓ} :
    {E : Type 0} {A : Type ℓ} (k l : ResolvedChart → Option (Result E A))
    → ((chart : ResolvedChart) → k chart ≡ l chart)
    → (o : Option (Result E ResolvedChart)) → next k o ≡ next l o
next_same k l same none = refl
next_same k l same (some (err e)) = refl
next_same k l same (some (ok chart)) = same chart

module _ {IoError : Type 0} (fs : FileSystem IoError) (sha256_hex : Text → Text)
    (default_root : Text → FilePath) (caches : Caches) (one other : Network IoError)
    (opts : ResolverOptions) (offline : opts.offline ≡ true) where
  fetch_spec-offline :
      (name : Text) (s : DependencySpec) (root : FilePath)
      → fetch_spec fs sha256_hex default_root caches one opts name s root
        ≡ fetch_spec fs sha256_hex default_root caches other opts name s root
  unfolding fetch_spec resolve_oci resolve_helm resolve_git
  fetch_spec-offline name (path_spec declared) root = refl
  fetch_spec-offline name (oci_spec url version) root = rw offline refl
  fetch_spec-offline name (git_spec url tag rev) root = by_ref (ref_spec tag rev)
    where
      by_ref :
          (at : Option RefSpec)
          → (elim at [
            | none ↦ none
            | some r ↦ some (resolve_git fs default_root caches one opts name url r)
          ])
            ≡ (elim at [
              | none ↦ none
              | some r ↦ some (resolve_git fs default_root caches other opts name url r)
            ])
      by_ref none = refl
      by_ref (some r) = rw offline refl
  fetch_spec-offline name (helm_spec repo chart version) root = rw offline refl

  resolve_spec-offline :
      (name : Text) (s : DependencySpec) (root : FilePath)
      → resolve_spec fs sha256_hex default_root caches one opts name s root
        ≡ resolve_spec fs sha256_hex default_root caches other opts name s root
  unfolding resolve_spec
  resolve_spec-offline name s root =
      ap
        (λ fetched. elim (vendored fs sha256_hex name s root) [
          | err e ↦ some (err e)
          | ok (some chart) ↦ some (ok chart)
          | ok none ↦ fetched
        ])
        (fetch_spec-offline name s root)

  resolve_dependency-offline :
      (name : Text) (dep : Dependency) (root : FilePath)
      → resolve_dependency fs sha256_hex default_root caches one opts name dep root
        ≡ resolve_dependency fs sha256_hex default_root caches other opts name dep root
  unfolding resolve_dependency
  resolve_dependency-offline name dep root = by_replace dep.replace
    where
      by_spec :
          (o : Option DependencySpec)
          → (elim o [
            | none ↦ none
            | some s ↦ resolve_spec fs sha256_hex default_root caches one opts name s root
          ])
            ≡ (elim o [
              | none ↦ none
              | some s ↦ resolve_spec fs sha256_hex default_root caches other opts name s root
            ])
      by_spec none = refl
      by_spec (some s) = resolve_spec-offline name s root

      by_replace :
          (o : Option Replace)
          → (elim o [
            | some r ↦ resolve_replaced fs sha256_hex opts name dep r.path root
            | none ↦ elim (spec dep) [
              | none ↦ none
              | some s ↦ resolve_spec fs sha256_hex default_root caches one opts name s root
            ]
          ])
            ≡ (elim o [
              | some r ↦ resolve_replaced fs sha256_hex opts name dep r.path root
              | none ↦ elim (spec dep) [
                | none ↦ none
                | some s ↦ resolve_spec fs sha256_hex default_root caches other opts name s root
              ]
            ])
      by_replace none = by_spec (spec dep)
      by_replace (some r) = refl

  resolve_all-offline :
      (deps : Map Text Dependency) (root : FilePath) (entries : Map Text ResolvedChart)
      → resolve_all fs sha256_hex default_root caches one opts deps root entries
        ≡ resolve_all fs sha256_hex default_root caches other opts deps root entries
  unfolding resolve_all
  resolve_all-offline [] root entries = refl
  resolve_all-offline ((name, dep) ∷ deps) root entries =
      ap
        (next (λ chart.
          resolve_all fs sha256_hex default_root caches one opts deps root
            (insert name chart entries)))
        (resolve_dependency-offline name dep root)
      ∙ next_same _ _ (λ chart. resolve_all-offline deps root (insert name chart entries))
          (resolve_dependency fs sha256_hex default_root caches other opts name dep root)

  -- Offline, the result of resolving a manifest is the same whatever the network answers.
  pub resolve_with_options-offline :
      (manifest : AkuaManifest) (root : FilePath)
      → resolve_with_options fs sha256_hex default_root caches one opts manifest root
        ≡ resolve_with_options fs sha256_hex default_root caches other opts manifest root
  unfolding resolve_with_options
  resolve_with_options-offline manifest root = resolve_all-offline manifest.dependencies root []
