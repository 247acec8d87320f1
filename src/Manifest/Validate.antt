-- ===== src/Manifest/Validate.antt =====
-- What validation establishes: the typed view `spec` never panics on a valid dependency, and its URL
-- and chart name are safe to use.
use akua.Base.{
  ◌≡◌, refl, sym, ◌∙◌, ap, ◌≢◌, ◌↔◌, inl, inr, true, false, none, some, [], ◌∷◌, ◌++◌, ok, err,
  >>=-eq-ok, arith, All, Option-cases, Result-cases,
}
use akua.Base.Maps.{Map}
use akua.Base.Texts.{Text, codes, starts_with}
use akua.Base.Texts.Parts.{
  Lacks, contains_char-text, contains_text-Lacks, LacksBefore, contains_char-LacksBefore,
}
use akua.Auth.HostAuth.{strip_scheme, url_has_userinfo}
use akua.Manifest.{
  Dependency, DependencySpec, path_spec, oci_spec, git_spec, helm_spec, tag_or_rev, ManifestError,
  AkuaManifest, spec, is_path_traversal_chart_name, validate_dependency, validate_dependencies,
  validate, is_valid_package_name,
}

-- No `@` stands in a URL's authority: in front of the first `/` behind the scheme.
abbrev pub NamesNoUser : Text → Type 0
NamesNoUser url = LacksBefore b'@' b'/' (strip_scheme url)

url_has_userinfo_iff : (url : Text) → (url_has_userinfo url ≡ false) ↔ NamesNoUser url
unfolding url_has_userinfo
url_has_userinfo_iff url = contains_char-LacksBefore b'@' b'/' (strip_scheme url) (λ e. cc)

-- What is promised of a dependency besides its shape: a path has no pin, no URL has an `@` in its authority, a git
-- dependency has a tag or a commit, and no `/`, `\` or `..` is a part of a chart's name.
abbrev pub IsSafe : Dependency → DependencySpec → Type 0
IsSafe d (path_spec declared) = (d.version ≡ none) × (d.tag ≡ none) × (d.rev ≡ none)
IsSafe d (oci_spec oci version) = NamesNoUser oci
IsSafe d (git_spec git tag rev) = NamesNoUser git × (tag_or_rev (git_spec git tag rev) ≢ none)
IsSafe d (helm_spec repo chart version) =
    NamesNoUser repo × Lacks chart (codes "/") × Lacks chart (codes "\\") × Lacks chart (codes "..")

abbrev pub IsSound : Dependency → Type 0
IsSound d = (s : DependencySpec) × (spec d ≡ some s) × IsSafe d s

-- The test of a chart's name looks for the three parts.
is_path_traversal_chart_name_iff :
    (chart : Text)
    → (is_path_traversal_chart_name chart ≡ false)
      ↔ (Lacks chart (codes "/") × Lacks chart (codes "\\") × Lacks chart (codes ".."))
unfolding is_path_traversal_chart_name
is_path_traversal_chart_name_iff chart = (
  λ h. (
    (contains_text-Lacks chart (codes "/")).0 (sym (contains_char-text b'/' chart) ∙ ground arith),
    (contains_text-Lacks chart (codes "\\")).0
        (sym (contains_char-text b'\\' chart) ∙ ground arith),
    (contains_text-Lacks chart (codes "..")).0 (ground arith),
  ),
  λ (slash, backslash, dots). ground (
    arith,
    contains_char-text b'/' chart ∙ (contains_text-Lacks chart (codes "/")).1 slash,
    contains_char-text b'\\' chart ∙ (contains_text-Lacks chart (codes "\\")).1 backslash,
    (contains_text-Lacks chart (codes "..")).1 dots,
  ),
)

module _ {TomlError : Type 0} (name : Text) (d : Dependency) where
  valid-has_spec : validate_dependency {TomlError = TomlError} name d ≡ ok tt → spec d ≢ none
  unfolding validate_dependency spec
  valid-has_spec h e = ground arith

  valid-IsSafe :
      (s : DependencySpec)
      → validate_dependency {TomlError = TomlError} name d ≡ ok tt
      → spec d ≡ some s
      → IsSafe d s
  unfolding validate_dependency spec tag_or_rev
  valid-IsSafe (path_spec p) h e = ground arith
  valid-IsSafe (oci_spec oci version) h e = (url_has_userinfo_iff oci).0 (ground arith)
  valid-IsSafe (git_spec git tag rev) h e =
      ((url_has_userinfo_iff git).0 (ground arith), λ none_given. ground arith)
  valid-IsSafe (helm_spec repo chart version) h e =
      let (slash, backslash, dots) = (is_path_traversal_chart_name_iff chart).0 (ground arith) in
      ((url_has_userinfo_iff repo).0 (ground arith), slash, backslash, dots)

  safe-valid :
      (s : DependencySpec)
      → spec d ≡ some s
      → IsSafe d s
      → validate_dependency {TomlError = TomlError} name d ≡ ok tt
  unfolding validate_dependency spec tag_or_rev
  safe-valid (path_spec p) e f = ground arith
  safe-valid (oci_spec oci version) e f = ground (arith, (url_has_userinfo_iff oci).1 f)
  safe-valid (git_spec git tag rev) e (no_user, pinned) =
      ground (arith, (url_has_userinfo_iff git).1 no_user)
  safe-valid (helm_spec repo chart version) e (no_user, slash, backslash, dots) = ground (
    arith,
    (url_has_userinfo_iff repo).1 no_user,
    (is_path_traversal_chart_name_iff chart).1 (slash, backslash, dots),
  )

  -- A dependency is valid exactly where its typed view exists (`spec` does not panic) and is safe: no URL
  -- has an `@` in its authority, a git dependency has a tag or a commit, a path has no pin, and no `/`, `\` or `..` is a
  -- part of a helm chart's name.
  pub validate_dependency_iff :
      (validate_dependency {TomlError = TomlError} name d ≡ ok tt) ↔ IsSound d
  validate_dependency_iff = (
    λ h. elim (Option-cases (spec d)) [
      | inl e ↦ absurd (valid-has_spec h e)
      | inr (s, e) ↦ (s, e, valid-IsSafe s h e)
    ],
    λ (s, e, f). safe-valid s e f,
  )

abbrev pub AllSound : Map Text Dependency → Type 0
AllSound = All (λ (e : Text × Dependency). IsSound e.1)

module _ {TomlError : Type 0} where
  pub validate_dependencies-AllSound :
      (deps : Map Text Dependency)
      → validate_dependencies {TomlError = TomlError} deps ≡ ok tt
      → AllSound deps
  unfolding validate_dependencies
  validate_dependencies-AllSound [] h = tt
  validate_dependencies-AllSound ((name, d) ∷ deps) h =
      let (_, first, rest) =
        >>=-eq-ok (validate_dependency name d) (λ _. validate_dependencies deps) h in
      ((validate_dependency_iff name d).0 first, validate_dependencies-AllSound deps rest)

  AllSound-valid :
      (deps : Map Text Dependency)
      → AllSound deps
      → validate_dependencies {TomlError = TomlError} deps ≡ ok tt
  unfolding validate_dependencies
  AllSound-valid [] h = refl
  AllSound-valid ((name, d) ∷ deps) h =
      rw ((validate_dependency_iff {TomlError = TomlError} name d).1 h.0) (AllSound-valid deps h.1)

  -- A manifest is valid exactly where its edition and its name have their form and every dependency
  -- has a typed view that is safe.
  pub validate_iff :
      (m : AkuaManifest)
      → (validate {TomlError = TomlError} m ≡ ok tt) ↔ (
          (starts_with m.package_section.edition (codes "akua.dev/") ≡ true)
          × (is_valid_package_name m.package_section.name ≡ true)
          × AllSound m.dependencies)
  unfolding validate
  validate_iff m = (
    λ h. (ground arith, ground arith, validate_dependencies-AllSound m.dependencies (ground arith)),
    λ (e, n, a). ground (arith, AllSound-valid m.dependencies a),
  )

  -- The error is that of the first invalid dependency, in the order of the names.
  validate_dependencies_err :
      (deps : Map Text Dependency) (e : ManifestError TomlError)
      → validate_dependencies deps ≡ err e
      → (before after : Map Text Dependency) × (name : Text) × (d : Dependency) × (deps
          ≡ before ++ ((name, d) ∷ after))
        × AllSound before
        × (validate_dependency name d ≡ err e)
  unfolding validate_dependencies
  validate_dependencies_err [] e h = ground arith
  validate_dependencies_err ((name, d) ∷ deps) e h =
      elim (Result-cases (validate_dependency {TomlError = TomlError} name d)) [
        | inl (f, k) ↦ ([], deps, name, d, refl, tt, ground arith)
        | inr (_, k) ↦
            let (before, after, n, c, parts, sound, here) =
              validate_dependencies_err deps e (ground arith) in
            (
              (name, d) ∷ before,
              after,
              n,
              c,
              ap (◌∷◌ (name, d)) parts,
              ((validate_dependency_iff name d).0 k, sound),
              here,
            )
      ]
