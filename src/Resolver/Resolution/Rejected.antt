-- ===== src/Resolver/Resolution/Rejected.antt =====
-- `reject_replace`: no manifest with a replacement resolves.
use akua.Base.{◌≡◌, refl, sym, ap, ◌∙◌, true, Option, none, some, [], ◌∷◌, Result, ok, err, All}
use akua.Base.Maps.{Map, insert}
use akua.Base.Orders.{nat_ord, list_ord}
use akua.Base.Paths.{FilePath}
use akua.Base.Texts.{Text}
use akua.Manifest.{AkuaManifest, Dependency, Replace, spec}
use akua.Resolver.{ResolvedChart, ResolvedCharts}
use akua.Resolver.Workspace.{FileSystem, ChartResolveError, replace_rejected}
use akua.Resolver.Fetching.{Caches, Network, ResolverOptions}
use akua.Resolver.Resolution.{
  resolve_replaced, resolve_spec, resolve_dependency, resolve_all, resolve_with_options,
}

module _ {IoError : Type 0} (fs : FileSystem IoError) (sha256_hex : Text → Text)
    (default_root : Text → FilePath) (caches : Caches) (network : Network IoError)
    (opts : ResolverOptions) (reject : opts.reject_replace ≡ true) where
  resolve_dependency-no_replace :
      (name : Text) (dep : Dependency) (root : FilePath) {chart : ResolvedChart}
      → resolve_dependency fs sha256_hex default_root caches network opts name dep root
        ≡ some (ok chart)
      → dep.replace ≡ none
  unfolding resolve_dependency resolve_replaced
  resolve_dependency-no_replace name dep root {chart} h = by_replace dep.replace refl
    where
      rejected :
          (r : Replace)
          → resolve_replaced fs sha256_hex opts name dep r.path root
            ≡ some (err (replace_rejected name))
      rejected r = rw reject refl

      by_replace : (o : Option Replace) → dep.replace ≡ o → dep.replace ≡ none
      by_replace none e = e
      by_replace (some r) e =
          let computed =
            ap {B = Option (Result (ChartResolveError IoError) ResolvedChart)}
              (λ q. elim q [
                | some replace ↦ resolve_replaced fs sha256_hex opts name dep replace.path root
                | none ↦ elim (spec dep) [
                  | none ↦ none
                  | some s ↦ resolve_spec fs sha256_hex default_root caches network opts name s root
                ]
              ])
              e in
          let clash : some (ok chart) ≡ some (err (replace_rejected name)) =
            sym h ∙ computed ∙ rejected r in
          absurd cc

  resolve_all-no_replace :
      (deps : Map Text Dependency) (root : FilePath) (entries : Map Text ResolvedChart)
      {charts : ResolvedCharts}
      → resolve_all fs sha256_hex default_root caches network opts deps root entries
        ≡ some (ok charts)
      → All (λ (e : Text × Dependency). e.1.replace ≡ none) deps
  unfolding resolve_all
  resolve_all-no_replace [] root entries h = tt
  resolve_all-no_replace ((name, dep) ∷ deps) root entries {charts} h =
      let (chart, first, rest) =
        resolved (resolve_dependency fs sha256_hex default_root caches network opts name dep root) _
          h in
      (
        resolve_dependency-no_replace name dep root first,
        resolve_all-no_replace deps root (insert name chart entries) rest,
      )
    where
      resolved :
          (o : Option (Result (ChartResolveError IoError) ResolvedChart))
          (k : ResolvedChart → Option (Result (ChartResolveError IoError) ResolvedCharts))
          → (elim o [ none ↦ none | some (err e) ↦ some (err e) | some (ok chart) ↦ k chart ])
            ≡ some (ok charts)
          → (chart : ResolvedChart) × (o ≡ some (ok chart)) × (k chart ≡ some (ok charts))
      resolved none k h = cc
      resolved (some (err e)) k h = cc
      resolved (some (ok chart)) k h = (chart, refl, h)

  -- Where replacements are rejected, a manifest resolves only if none of its dependencies has one.
  pub resolve_with_options-no_replace :
      (manifest : AkuaManifest) (root : FilePath) {charts : ResolvedCharts}
      → resolve_with_options fs sha256_hex default_root caches network opts manifest root
        ≡ some (ok charts)
      → All (λ (e : Text × Dependency). e.1.replace ≡ none) manifest.dependencies
  unfolding resolve_with_options
  resolve_with_options-no_replace manifest root h =
      resolve_all-no_replace manifest.dependencies root [] h
