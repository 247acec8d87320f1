-- ===== src/Vendor/Sources/Total.antt =====
-- No panic is reached while a source is resolved: the dependency of a valid manifest has its typed view.
use akua.Base.{
  ◌≡◌, refl, sym, ◌∙◌, subst, ◌≢◌, Option, none, some, [], ◌∷◌, arith, inl, inr, Bool-cases, nat_eq,
  list_eq,
}
use akua.Base.Maps.{Map, get, same_key}
use akua.Base.Orders.{nat_ord, list_ord}
use akua.Base.Paths.{FilePath}
use akua.Base.Runs.{returns, panics}
use akua.Base.Texts.{Text}
use akua.Auth.HostAuth.{HostAuthMap}
use akua.Manifest.{
  Dependency, DependencySpec, path_spec, oci_spec, git_spec, helm_spec, spec, tag_or_rev,
}
use akua.Manifest.Validate.{IsSafe, IsSound, AllSound}
use akua.Vendor.Sources.{
  Tools, resolve_path_dep, resolve_oci_source, resolve_git_source, source_of, resolve_source,
  SourceResolution,
}

pub get-AllSound :
    (name : Text) (deps : Map Text Dependency) {d : Dependency}
    → AllSound deps
    → get name deps ≡ some d
    → IsSound d
unfolding get
get-AllSound name [] a h = cc
get-AllSound name ((j, d) ∷ deps) {d = e} a h = elim (Bool-cases (same_key j name)) [
  | inl s ↦
      let same : some d ≡ some e = sym (rw s refl) ∙ h in
      let eq : d ≡ e = cc in subst IsSound eq a.0
  | inr s ↦ get-AllSound name deps a.1 (sym (rw s refl) ∙ h)
]

module _ {IoError TomlError Disk : Type 0} (tools : Tools IoError TomlError Disk)
    (disk : Disk) where
  resolve_path_dep-no_panic :
      (workspace : FilePath) (name : Text) (requested : FilePath)
      → resolve_path_dep tools disk workspace name requested ≢ panics
  unfolding resolve_path_dep
  resolve_path_dep-no_panic workspace name requested p = ground arith

  resolve_git_source-no_panic :
      (workspace : FilePath) (name git : Text) (tag rev : Option Text) (auth : Option HostAuthMap)
      → tag_or_rev (git_spec git tag rev) ≢ none
      → resolve_git_source tools disk workspace name git tag rev auth ≢ panics
  unfolding resolve_git_source tag_or_rev
  resolve_git_source-no_panic workspace name git tag rev auth h p = ground arith

  resolve_oci_source-no_panic :
      (workspace : FilePath) (name oci version : Text)
      → resolve_oci_source tools disk workspace name oci version ≢ panics
  unfolding resolve_oci_source
  resolve_oci_source-no_panic workspace name oci version p = ground arith

  source_of-no_panic :
      (workspace : FilePath) (name : Text) (d : Dependency) (s : DependencySpec)
      (auth : Option HostAuthMap)
      → IsSafe d s
      → source_of tools disk workspace name s auth ≢ panics
  unfolding source_of
  source_of-no_panic workspace name d (path_spec declared) auth h p =
      ground (arith, resolve_path_dep-no_panic workspace name declared)
  source_of-no_panic workspace name d (oci_spec oci version) auth h p =
      resolve_oci_source-no_panic workspace name oci version p
  source_of-no_panic workspace name d (git_spec git tag rev) auth h p =
      resolve_git_source-no_panic workspace name git tag rev auth h.1 p
  source_of-no_panic workspace name d (helm_spec repo chart version) auth h p = cc

  pub resolve_source-no_panic :
      (workspace : FilePath) (name : Text) (d : Dependency) (auth : Option HostAuthMap)
      → IsSound d
      → resolve_source tools disk workspace name d auth ≢ panics
  unfolding resolve_source
  resolve_source-no_panic workspace name d auth (s, e, safe) p =
      source_of-no_panic workspace name d s auth safe (ground arith)

  -- A helm dependency has no source.
  pub resolve_source-not_helm :
      (workspace : FilePath) (name : Text) (d : Dependency) (auth : Option HostAuthMap)
      {source : SourceResolution × Disk} (repo chart version : Text)
      → resolve_source tools disk workspace name d auth ≡ returns source
      → spec d ≢ some (helm_spec repo chart version)
  unfolding resolve_source source_of
  resolve_source-not_helm workspace name d auth repo chart version h e = ground arith
