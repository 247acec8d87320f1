-- ===== src/Manifest.antt =====
-- crates/akua-core/src/mod_file.rs: `akua.toml`, the manifest that a person edits.
pub mod Names
pub mod Validate
pub mod Load
mod Tests
use akua.Base.{
  ℕ, ◌+◌, Bool, true, false, not, ◌&&◌, ◌||◌, Option, none, some, List, [], ◌∷◌, Result, ok, err,
  ◌>>=◌, ◌>>◌, ◌==◌, nat_eq, all, leb, if◌then◌else◌,
}
use akua.Base.Maps.{Map}
use akua.Base.Orders.{nat_ord, list_ord}
use akua.Base.Texts.{
  Text, codes, starts_with, contains_char, contains_text, is_ascii_alphanumeric, is_ascii_digit,
}
use akua.Auth.HostAuth.{url_has_userinfo}

pub record SigningSection : Type 0 where
  pub cosign_public_key : Option Text
  pub cosign_private_key : Option Text

pub record PackageSection : Type 0 where
  pub name : Text
  pub version : Text
  pub edition : Text
  pub strict_signing : Bool

pub record WorkspaceSection : Type 0 where
  pub members : List Text

pub record Replace : Type 0 where
  pub path : Text

pub record Dependency : Type 0 where
  pub oci : Option Text
  pub git : Option Text
  pub path : Option Text
  pub repo : Option Text
  pub chart : Option Text
  pub version : Option Text
  pub tag : Option Text
  pub rev : Option Text
  pub replace : Option Replace

pub record AkuaManifest : Type 0 where
  pub package_section : PackageSection
  pub workspace : Option WorkspaceSection
  pub signing : Option SigningSection
  pub dependencies : Map Text Dependency

pub data DependencySource : Type 0 where
  oci_source git_source path_source helm_source : DependencySource

pub data DependencySpec : Type 0 where
  path_spec : (declared : Text) → DependencySpec
  oci_spec : (oci version : Text) → DependencySpec
  git_spec : (git : Text) (tag rev : Option Text) → DependencySpec
  helm_spec : (repo chart version : Text) → DependencySpec

-- `tag.or(rev)` of a git dependency.
unfoldable pub tag_or_rev : DependencySpec → Option Text
tag_or_rev (git_spec git (some tag) rev) = some tag
tag_or_rev (git_spec git none rev) = rev
tag_or_rev _ = none

-- `Parse` and `Serialize` hold an error of the TOML library.
pub data ManifestError (TomlError : Type 0) : Type 0 where
  parse_error serialize_error : TomlError → ManifestError TomlError
  ambiguous_source : (name : Text) (count : ℕ) → ManifestError TomlError
  oci_missing_version git_missing_tag_or_rev path_has_pin : (name : Text) → ManifestError TomlError
  bad_edition bad_package_name : Text → ManifestError TomlError
  git_url_has_user_info : (name : Text) → ManifestError TomlError
  helm_missing_chart helm_missing_version : (name : Text) → ManifestError TomlError
  helm_url_has_user_info : (name : Text) → ManifestError TomlError
  helm_chart_invalid : (name chart : Text) → ManifestError TomlError
  oci_url_has_user_info : (name : Text) → ManifestError TomlError

abbrev is_some {ℓ} : {A : Type ℓ} → Option A → Bool
is_some none = false
is_some (some _) = true

abbrev is_none {ℓ} : {A : Type ℓ} → Option A → Bool
is_none none = true
is_none (some _) = false

-- The `match` on which of the four fields are set.
source_of_flags : Bool → Bool → Bool → Bool → Option DependencySource
source_of_flags true false false false = some oci_source
source_of_flags false true false false = some git_source
source_of_flags false false true false = some path_source
source_of_flags false false false true = some helm_source
source_of_flags _ _ _ _ = none

unfoldable pub source : Dependency → Option DependencySource
unfolding source_of_flags
source d = source_of_flags (is_some d.oci) (is_some d.git) (is_some d.path) (is_some d.repo)

-- `expect` and `unreachable!` panic: `none`.
spec_of_fields :
    Option Text → Option Text → Option Text → Option Text → Dependency → Option DependencySpec
spec_of_fields (some declared) none none none d = some (path_spec declared)
spec_of_fields none (some oci) none none d = elim d.version [
  | none ↦ none
  | some version ↦ some (oci_spec oci version)
]
spec_of_fields none none (some git) none d = some (git_spec git d.tag d.rev)
spec_of_fields none none none (some repo) d = elim d.chart [
  | none ↦ none
  | some chart ↦ elim d.version [ none ↦ none | some version ↦ some (helm_spec repo chart version) ]
]
spec_of_fields _ _ _ _ d = none

unfoldable pub spec : Dependency → Option DependencySpec
unfolding spec_of_fields
spec d = spec_of_fields d.path d.oci d.git d.repo d

unfoldable pub is_path_traversal_chart_name : Text → Bool
unfolding contains_char contains_text
is_path_traversal_chart_name chart =
    contains_char b'/' chart || contains_char b'\\' chart || contains_text chart (codes "..")

abbrev count_set : Bool → ℕ
count_set true = 1
count_set false = 0

-- A URL that `expect` has found: an absent one does not reach the test.
userinfo_in : Option Text → Bool
userinfo_in none = false
userinfo_in (some url) = url_has_userinfo url

traversal_in :
    {TomlError : Type 0} → Text → Option Text → Result (ManifestError TomlError) (Unit {0})
traversal_in name none = ok tt
traversal_in name (some chart) =
    if is_path_traversal_chart_name chart then err (helm_chart_invalid name chart) else ok tt

module _ {TomlError : Type 0} where
  -- The arms of the `match` on the source, in their order.
  validate_source :
      Text → Dependency → DependencySource → Result (ManifestError TomlError) (Unit {0})
  validate_source name d oci_source =
      if is_none d.version
      then err (oci_missing_version name)
      else if userinfo_in d.oci
      then err (oci_url_has_user_info name)
      else ok tt
  validate_source name d git_source =
      if is_none d.tag && is_none d.rev
      then err (git_missing_tag_or_rev name)
      else if userinfo_in d.git
      then err (git_url_has_user_info name)
      else ok tt
  validate_source name d path_source =
      if is_some d.version || is_some d.tag || is_some d.rev then err (path_has_pin name) else ok tt
  validate_source name d helm_source =
      if is_none d.chart
      then err (helm_missing_chart name)
      else if is_none d.version
      then err (helm_missing_version name)
      else if userinfo_in d.repo
      then err (helm_url_has_user_info name)
      else traversal_in name d.chart

  -- `Dependency::validate`
  unfoldable pub validate_dependency :
      Text → Dependency → Result (ManifestError TomlError) (Unit {0})
  unfolding validate_source userinfo_in traversal_in source
  validate_dependency name d = elim (source d) [
    | none ↦ err (
        ambiguous_source name (
          count_set (is_some d.oci)
          + count_set (is_some d.git)
          + count_set (is_some d.path)
          + count_set (is_some d.repo)))
    | some s ↦ validate_source name d s
  ]

  -- The loop over the dependencies, in the order of their names.
  unfoldable pub validate_dependencies :
      Map Text Dependency → Result (ManifestError TomlError) (Unit {0})
  unfolding validate_dependency
  validate_dependencies [] = ok tt
  validate_dependencies ((name, d) ∷ deps) =
      let rest = validate_dependencies deps in validate_dependency name d >> rest

abbrev is_name_char : ℕ → Bool
is_name_char c = is_ascii_alphanumeric c || c == b'_' || c == b'-'

unfoldable pub is_valid_package_name : Text → Bool
unfolding all
is_valid_package_name [] = false
is_valid_package_name (first ∷ chars) =
    if first == b'-'
    then false
    else if not (is_ascii_alphanumeric first || first == b'_')
    then false
    else all is_name_char chars

-- `AkuaManifest::validate`
unfoldable pub validate :
    {TomlError : Type 0} → AkuaManifest → Result (ManifestError TomlError) (Unit {0})
unfolding starts_with is_valid_package_name validate_dependencies
validate m =
    if not (starts_with m.package_section.edition (codes "akua.dev/"))
    then err (bad_edition m.package_section.edition)
    else if not (is_valid_package_name m.package_section.name)
    then err (bad_package_name m.package_section.name)
    else validate_dependencies m.dependencies

-- One character in front of the others. A character that is not ASCII has several bytes: the first
-- gives its `_`, and the bytes that continue it give nothing.
abbrev ident_char : ℕ → Text → Text
ident_char c rest =
    if is_ascii_alphanumeric c || c == b'_'
    then c ∷ rest
    else if leb 128 c && leb c 191
    then rest
    else b'_' ∷ rest

unfoldable pub ident_chars : Text → Text
ident_chars [] = []
ident_chars (c ∷ s) = ident_char c (ident_chars s)

abbrev starts_with_digit : Text → Bool
starts_with_digit [] = false
starts_with_digit (c ∷ _) = is_ascii_digit c

unfoldable pub kcl_ident : Text → Text
unfolding ident_chars
kcl_ident name = let out = ident_chars name in if starts_with_digit out then b'_' ∷ out else out
