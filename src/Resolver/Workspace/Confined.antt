-- ===== src/Resolver/Workspace/Confined.antt =====
-- A path that a manifest names leads nowhere outside the workspace.
use akua.Base.{
  ℕ, ◌≡◌, refl, ap, ◌∙◌, subst, Bool, true, false, List, [], ◌∷◌, ◌++◌, Result, ok, err, map_err,
  arith, inl, inr, Bool-cases, >>=-eq-ok, nat_eq, list_eq, list_beq_iff,
}
use akua.Base.Paths.{FilePath, is_absolute, join}
use akua.Base.Texts.{Text}
use akua.Resolver.{ResolvedSource, ResolvedChart}
use akua.Resolver.Digest.{hash_dir}
use akua.Resolver.Workspace.{
  Canonical, found, missing, failed, FileSystem, components, starts_with_names, path_starts_with,
  chart_io, user_manifest, canonical_under, validate_workspace_path, canonical_target, resolve_path,
  workspace_canonical, path_error, require_dir, detect_dep_kind,
}

starts_with_names→append :
    (ns ms : List Text) → starts_with_names ns ms ≡ true → (rest : List Text) × (ns ≡ ms ++ rest)
unfolding starts_with_names
starts_with_names→append ns [] h = (ns, refl)
starts_with_names→append [] (m ∷ ms) h = cc
starts_with_names→append (n ∷ ns) (m ∷ ms) h =
    let (rest, e) = starts_with_names→append ns ms (ground arith) in
    let same : n ≡ m = ground (arith, list_beq_iff n m) in
    (rest, ap (n ∷◌) e ∙ ap (λ k. k ∷ (ms ++ rest)) same)

map_err-eq-ok :
    {E F A : Type 0} (f : E → F) (r : Result E A) {a : A} → map_err f r ≡ ok a → r ≡ ok a
map_err-eq-ok f (ok b) h = cc
map_err-eq-ok f (err e) h = cc

module _ {IoError : Type 0} (fs : FileSystem IoError) where
  workspace_canonical-found :
      (name : Text) (root : FilePath) (c : Canonical IoError) {canon : FilePath}
      → workspace_canonical fs name root c ≡ ok canon
      → c ≡ found canon
  unfolding workspace_canonical
  workspace_canonical-found name root (found p) h = ground arith
  workspace_canonical-found name root (missing e) h = ground arith
  workspace_canonical-found name root (failed e) h = ground arith

  canonical_under-found :
      (root joined : FilePath) (c : Canonical IoError) {canon : FilePath}
      → canonical_under fs root joined c ≡ ok canon
      → (c ≡ found canon) × (path_starts_with canon root ≡ true)
  unfolding canonical_under
  canonical_under-found root joined (found p) {canon} h =
      elim (Bool-cases (path_starts_with p root)) [
        | inl e ↦
            let same : p ≡ canon = ground arith in
            (ap found same, subst (λ q. path_starts_with q root ≡ true) same e)
        | inr e ↦ absurd (ground arith)
      ]
  canonical_under-found root joined (missing e) h = ground arith
  canonical_under-found root joined (failed e) h = ground arith

  validate_workspace_path-found :
      (ws root requested : FilePath) {canon : FilePath}
      → validate_workspace_path fs ws root requested ≡ ok canon
      → (is_absolute requested ≡ false)
        × (fs.canonicalize (join root requested) ≡ found canon)
        × (path_starts_with canon ws ≡ true)
  unfolding validate_workspace_path
  validate_workspace_path-found ws root requested h = elim (Bool-cases (is_absolute requested)) [
    | inl e ↦ absurd (ground arith)
    | inr e ↦
        let (c, under) =
          canonical_under-found ws (join root requested) (fs.canonicalize (join root requested))
            (ground arith) in
        (e, c, under)
  ]

  canonical_target-confined :
      (name : Text) (requested root : FilePath) {canon : FilePath}
      → canonical_target fs name requested root user_manifest ≡ ok canon
      → (is_absolute requested ≡ false)
        × (fs.canonicalize (join root requested) ≡ found canon)
        × (ws : FilePath) × (fs.canonicalize root ≡ found ws)
        × (path_starts_with canon ws ≡ true)
  unfolding canonical_target
  canonical_target-confined name requested root h =
      let (ws, w, v) = >>=-eq-ok (workspace_canonical fs name root (fs.canonicalize root)) _ h in
      let (relative, c, under) = validate_workspace_path-found ws root requested (
        map_err-eq-ok (path_error fs name requested) (validate_workspace_path fs ws root requested)
          v) in
      (relative, c, ws, workspace_canonical-found name root (fs.canonicalize root) w, under)

  require_dir-ok :
      (name : Text) (canon : FilePath) (b : Bool) → require_dir fs name canon b ≡ ok tt → b ≡ true
  unfolding require_dir
  require_dir-ok name canon true h = refl
  require_dir-ok name canon false h = cc

  -- The path is relative, its target under the root is a directory whose path has the canonical root in
  -- front, and the digest is the hash of that directory.
  abbrev pub IsConfined : (Text → Text) → FilePath → FilePath → ResolvedChart → Type 0
  IsConfined sha256_hex requested root chart =
      (is_absolute requested ≡ false)
      × (fs.canonicalize (join root requested) ≡ found chart.abs_path)
      × (fs.is_dir chart.abs_path ≡ ok true)
      × (size : ℕ) × (hash_dir sha256_hex (fs.entries chart.abs_path) ≡ ok (chart.sha256, size))
      × (ws : FilePath) × (fs.canonicalize root ≡ found ws)
      × (rest : List Text) × (components chart.abs_path ≡ components ws ++ rest)

  -- A path that the manifest names and that resolves is relative, and its target is a directory below the
  -- canonical workspace root; the digest is the hash of that directory.
  pub resolve_path-IsConfined :
      (sha256_hex : Text → Text) (name : Text) (requested root : FilePath) (source : ResolvedSource)
      {chart : ResolvedChart}
      → resolve_path fs sha256_hex name requested root source user_manifest ≡ ok chart
      → IsConfined sha256_hex requested root chart
  unfolding resolve_path path_starts_with
  resolve_path-IsConfined sha256_hex name requested root source {chart} h =
      let (canon, target, h1) =
        >>=-eq-ok (canonical_target fs name requested root user_manifest) _ h in
      let (b, dir, h2) = >>=-eq-ok (map_err (chart_io name canon) (fs.is_dir canon)) _ h1 in
      let (_, is_directory, h3) = >>=-eq-ok (require_dir fs name canon b) _ h2 in
      let ((digest, size), hashed, h4) =
        >>=-eq-ok (map_err (chart_io name canon) (hash_dir sha256_hex (fs.entries canon))) _ h3 in
      let (relative, c, ws, w, under) = canonical_target-confined name requested root target in
      let (rest, path) = starts_with_names→append (components canon) (components ws) under in
      let built : ResolvedChart = record {
        name = name;
        abs_path = canon;
        sha256 = digest;
        kind = detect_dep_kind fs canon;
        source = source;
      } in
      let same : built ≡ chart = cc in
      subst (IsConfined sha256_hex requested root) same (
        relative,
        c,
        map_err-eq-ok (chart_io name canon) (fs.is_dir canon) dir
            ∙ ap ok (require_dir-ok name canon b is_directory),
        size,
        map_err-eq-ok (chart_io name canon) (hash_dir sha256_hex (fs.entries canon)) hashed,
        ws,
        w,
        rest,
        path,
      )
