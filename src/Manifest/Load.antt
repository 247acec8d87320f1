-- ===== src/Manifest/Load.antt =====
-- `AkuaManifest::parse` and `load`. The TOML library and the file system are arguments: `from_str`
-- decodes a text, and `read` reads the file at a path. `Display` is derived by a library's macro.
use akua.Base.{
  ◌≡◌, refl, Bool, true, false, Result, ok, err, ◌>>=◌, map_err, arith, inl, inr, Result-cases,
}
use akua.Base.Paths.{FilePath, join, Read, content, not_found, io_error}
use akua.Base.Texts.{Text, codes}
use akua.Contract.Errors.{StructuredError, new_error, with_path, with_default_docs}
use akua.Manifest.{
  AkuaManifest, ManifestError, parse_error, git_url_has_user_info, helm_missing_chart,
  helm_missing_version, helm_url_has_user_info, helm_chart_invalid, oci_url_has_user_info, validate,
}
use akua.Manifest.Validate.{AllSound, validate_iff}

pub data ManifestLoadError (IoError TomlError : Type 0) : Type 0 where
  missing : FilePath → ManifestLoadError IoError TomlError
  io : FilePath → IoError → ManifestLoadError IoError TomlError
  parse : FilePath → ManifestError TomlError → ManifestLoadError IoError TomlError

-- `ManifestError::structured_code`
unfoldable pub structured_code : {TomlError : Type 0} → ManifestError TomlError → Text
structured_code (git_url_has_user_info _) = codes "E_MANIFEST_GIT_USERINFO"
structured_code (helm_missing_chart _) = codes "E_MANIFEST_HELM_MISSING_CHART"
structured_code (helm_missing_version _) = codes "E_MANIFEST_HELM_MISSING_VERSION"
structured_code (helm_url_has_user_info _) = codes "E_MANIFEST_HELM_USERINFO"
structured_code (helm_chart_invalid _ _) = codes "E_MANIFEST_HELM_CHART_INVALID"
structured_code (oci_url_has_user_info _) = codes "E_MANIFEST_OCI_USERINFO"
structured_code _ = codes "E_MANIFEST_PARSE"

module _ {TomlError : Type 0} (from_str : Text → Result TomlError AkuaManifest) where
  -- `AkuaManifest::parse`
  unfoldable pub parse_manifest : Text → Result (ManifestError TomlError) AkuaManifest
  parse_manifest s = do
    manifest ← map_err parse_error (from_str s)
    elim (validate manifest) [ ok _ ↦ ok manifest | err e ↦ err e ]

  parse_manifest-valid :
      (s : Text) {m : AkuaManifest}
      → parse_manifest s ≡ ok m
      → validate {TomlError = TomlError} m ≡ ok tt
  unfolding parse_manifest
  parse_manifest-valid s {m} h = elim (Result-cases (from_str s)) [
    | inl (e, k) ↦ ground arith
    | inr (a, k) ↦ elim (Result-cases (validate {TomlError = TomlError} a)) [
      | inl (e, v) ↦ ground arith
      | inr (_, v) ↦ ground arith
    ]
  ]

module _ {IoError TomlError : Type 0} where
  module _ (io_text : IoError → Text) (manifest_text : ManifestError TomlError → Text) where
    unfoldable pub to_structured : ManifestLoadError IoError TomlError → StructuredError
    unfolding structured_code
    to_structured (missing path) =
        with_default_docs
          (with_path path (new_error (codes "E_MANIFEST_MISSING") (codes "akua.toml not found")))
    to_structured (io path source) =
        with_default_docs (with_path path (new_error (codes "E_IO") (io_text source)))
    to_structured (parse path source) =
        with_default_docs
          (with_path path (new_error (structured_code source) (manifest_text source)))

  unfoldable pub is_system : ManifestLoadError IoError TomlError → Bool
  is_system (io _ _) = true
  is_system _ = false

  module _ (from_str : Text → Result TomlError AkuaManifest) (read : FilePath → Read IoError) where
    -- `AkuaManifest::load`
    unfoldable pub load : FilePath → Result (ManifestLoadError IoError TomlError) AkuaManifest
    unfolding parse_manifest
    load workspace =
        let path = join workspace (codes "akua.toml") in
        elim (read path) [
          | content s ↦ map_err (parse path) (parse_manifest from_str s)
          | not_found ↦ err (missing path)
          | io_error e ↦ err (io path e)
        ]

    load-valid :
        (workspace : FilePath) {m : AkuaManifest}
        → load workspace ≡ ok m
        → validate {TomlError = TomlError} m ≡ ok tt
    unfolding load
    load-valid workspace {m} h = by_read (read (join workspace (codes "akua.toml"))) refl
      where
        by_read :
            (r : Read IoError)
            → read (join workspace (codes "akua.toml")) ≡ r
            → validate {TomlError = TomlError} m ≡ ok tt
        by_read (content s) e = elim (Result-cases (parse_manifest from_str s)) [
          | inl (f, k) ↦ ground arith
          | inr (a, k) ↦ parse_manifest-valid from_str s (ground arith)
        ]
        by_read not_found e = ground arith
        by_read (io_error f) e = ground arith

    -- Whatever is loaded is valid: each of its dependencies has a typed view, which is safe.
    pub load-AllSound :
        (workspace : FilePath) {m : AkuaManifest} → load workspace ≡ ok m → AllSound m.dependencies
    load-AllSound workspace {m} h =
        ((validate_iff {TomlError = TomlError} m).0 (load-valid workspace h)).2
