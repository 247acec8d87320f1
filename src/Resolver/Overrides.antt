-- ===== src/Resolver/Overrides.antt =====
-- The `replace` of a dependency: which sources take one.
use akua.Base.{◌≡◌, ◌↔◌, refl, sym, ap, ◌∙◌, none, some, ok}
use akua.Base.Texts.{Text}
use akua.Manifest.{
  Dependency, DependencySpec, path_spec, oci_spec, git_spec, helm_spec, spec, validate_dependency,
}
use akua.Manifest.Validate.{validate_dependency_iff}
use akua.Resolver.{source_of_spec, resolved_source_for_replace}

source_of_spec-panic :
    (name replace_path : Text) (s : DependencySpec)
    → source_of_spec name replace_path s ≡ none
    → (declared : Text) × (s ≡ path_spec declared)
unfolding source_of_spec
source_of_spec-panic name r (path_spec declared) h = (declared, refl)
source_of_spec-panic name r (oci_spec _ _) h = cc
source_of_spec-panic name r (git_spec _ _ _) h = cc
source_of_spec-panic name r (helm_spec _ _ _) h = cc

-- On a valid dependency, `replace` panics exactly where the dependency is a path: validation does not
-- refuse that one.
pub resolved_source_for_replace-panic :
    {TomlError : Type 0} (name replace_path : Text) (dep : Dependency)
    → validate_dependency {TomlError = TomlError} name dep ≡ ok tt
    → resolved_source_for_replace name dep replace_path ≡ none
      ↔ ((declared : Text) × (spec dep ≡ some (path_spec declared)))
unfolding resolved_source_for_replace source_of_spec
resolved_source_for_replace-panic name replace_path dep h =
    let (s, e, _) = (validate_dependency_iff name dep).0 h in
    let same = ap (λ o. elim o [ none ↦ none | some s ↦ source_of_spec name replace_path s ]) e in
    (
      (λ p.
          let (declared, q) = source_of_spec-panic name replace_path s (sym same ∙ p) in
          (declared, e ∙ ap some q)),
      (λ q. ap (λ o. elim o [ none ↦ none | some s ↦ source_of_spec name replace_path s ]) q.1),
    )
