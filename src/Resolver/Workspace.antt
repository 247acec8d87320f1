-- ===== src/Resolver/Workspace.antt =====
-- Which directories a dependency may be: `validate_workspace_path`, `detect_kind` (oci_fetcher.rs) and
-- `resolve_path`. The file system and SHA-256 are arguments.
pub mod Confined
use akua.Base.{
  ℕ, ◌≡◌, refl, sym, ap, ◌∙◌, subst, Bool, true, false, not, ◌&&◌, ◌||◌, Option, none, some, List,
  [], ◌∷◌, ◌++◌, Result, ok, err, ◌>>=◌, ◌>>◌, map_err, arith, inl, inr, Bool-cases, Result-cases,
  all, find, ◌==◌, nat_eq, list_eq, list_beq, list_beq_iff, if◌then◌else◌,
}
use akua.Base.Paths.{FilePath, is_absolute, join}
use akua.Base.Texts.{Text, codes}
use akua.Manifest.{DependencySource}
use akua.Resolver.{PackageKind, helm_chart, kcl_module, ResolvedSource, ResolvedChart}
use akua.Resolver.Digest.{Entries, hash_dir}

-- `canonicalize`: an error of the kind `NotFound` is told apart from the others.
pub data Canonical (IoError : Type 0) : Type 0 where
  found : FilePath → Canonical IoError
  missing failed : IoError → Canonical IoError

pub record FileSystem (IoError : Type 0) : Type 0 where
  pub canonicalize : FilePath → Canonical IoError
  pub is_dir : FilePath → Result IoError Bool
  pub is_file : FilePath → Bool
  pub read_dir : FilePath → Option (List (FilePath × Bool))
  pub entries : FilePath → Entries IoError

-- The names of a path, split at `/`.
split_names : Text → List Text
split_names [] = [] ∷ []
split_names (c ∷ s) =
    let rest = split_names s in
    if c == b'/' then [] ∷ rest else elim rest [ [] ↦ (c ∷ []) ∷ [] | n ∷ ns ↦ (c ∷ n) ∷ ns ]

is_plain : Text → Bool
unfolding list_beq
is_plain name = not (name == []) && not (name == codes ".")

keep_plain : List Text → List Text
keep_plain [] = []
keep_plain (n ∷ ns) = let rest = keep_plain ns in if is_plain n then n ∷ rest else rest

-- `Path::components`: the root, if there is one, is `/`. A `.` in front of a relative path is dropped
-- here, which tells no two canonical paths apart.
unfoldable pub components : FilePath → List Text
unfolding split_names keep_plain is_plain
components p =
    if is_absolute p then codes "/" ∷ keep_plain (split_names p) else keep_plain (split_names p)

starts_with_names : List Text → List Text → Bool
unfolding list_beq
starts_with_names ns [] = true
starts_with_names [] (m ∷ ms) = false
starts_with_names (n ∷ ns) (m ∷ ms) = n == m && starts_with_names ns ms

-- `Path::starts_with`
unfoldable pub path_starts_with : FilePath → FilePath → Bool
unfolding components starts_with_names
path_starts_with p base = starts_with_names (components p) (components base)

pub data WorkspacePathError (IoError : Type 0) : Type 0 where
  absolute_rejected not_found : FilePath → WorkspacePathError IoError
  io : FilePath → IoError → WorkspacePathError IoError
  escape : (resolved workspace_root : FilePath) → WorkspacePathError IoError

-- `IoError` stands for the causes: errors of I/O, and those of the fetchers.
pub data ChartResolveError (IoError : Type 0) : Type 0 where
  unsupported_source :
      (name : Text) → DependencySource → (reason : Text) → ChartResolveError IoError
  oci_fetch helm_fetch git_fetch : (name : Text) → IoError → ChartResolveError IoError
  replace_rejected : (name : Text) → ChartResolveError IoError
  target_not_found not_a_directory : (name : Text) → FilePath → ChartResolveError IoError
  chart_io : (name : Text) → FilePath → IoError → ChartResolveError IoError
  absolute_path_rejected : (name : Text) → FilePath → ChartResolveError IoError
  path_escape :
      (name : Text) (requested resolved workspace_root : FilePath) → ChartResolveError IoError

pub data PathOrigin : Type 0 where
  user_manifest internal : PathOrigin

module _ {IoError : Type 0} (fs : FileSystem IoError) where
  canonical_under :
      FilePath → FilePath → Canonical IoError → Result (WorkspacePathError IoError) FilePath
  canonical_under workspace_canon joined (found canon) =
      if path_starts_with canon workspace_canon
      then ok canon
      else err (escape canon workspace_canon)
  canonical_under workspace_canon joined (missing _) = err (not_found joined)
  canonical_under workspace_canon joined (failed e) = err (io joined e)

  unfoldable pub validate_workspace_path :
      FilePath → FilePath → FilePath → Result (WorkspacePathError IoError) FilePath
  unfolding canonical_under join
  validate_workspace_path workspace_canon workspace_root requested =
      if is_absolute requested
      then err (absolute_rejected requested)
      else canonical_under workspace_canon (join workspace_root requested)
          (fs.canonicalize (join workspace_root requested))

  all_present : List Text → FilePath → Bool
  unfolding all join
  all_present markers dir = all (λ m. fs.is_file (join dir m)) markers

  detect_kind_at : FilePath → List Text → PackageKind → Option PackageKind
  unfolding all_present find
  detect_kind_at dir markers kind =
      if all_present markers dir then some kind else elim (fs.read_dir dir) [
        | none ↦ none
        | some children ↦
            elim (find (λ (e : FilePath × Bool). e.1 && all_present markers e.0) children) [
              | none ↦ none
              | some _ ↦ some kind
            ]
      ]

  or_else : Option PackageKind → Option PackageKind → Option PackageKind
  or_else none k = k
  or_else (some k) _ = some k

  unfoldable pub detect_kind : FilePath → Option PackageKind
  unfolding detect_kind_at or_else
  detect_kind dir =
      or_else
        (or_else (detect_kind_at dir (codes "Chart.yaml" ∷ []) helm_chart)
          (detect_kind_at dir (codes "kcl.mod" ∷ []) kcl_module))
        (detect_kind_at dir (codes "akua.toml" ∷ codes "package.k" ∷ []) kcl_module)

  unfoldable pub detect_dep_kind : FilePath → PackageKind
  unfolding detect_kind
  detect_dep_kind dir = elim (detect_kind dir) [ none ↦ helm_chart | some kind ↦ kind ]

  -- A root that is missing is an error of its own kind no more.
  workspace_canonical :
      Text → FilePath → Canonical IoError → Result (ChartResolveError IoError) FilePath
  workspace_canonical name workspace_root (found canon) = ok canon
  workspace_canonical name workspace_root (missing e) = err (chart_io name workspace_root e)
  workspace_canonical name workspace_root (failed e) = err (chart_io name workspace_root e)

  path_error : Text → FilePath → WorkspacePathError IoError → ChartResolveError IoError
  path_error name requested (absolute_rejected path) = absolute_path_rejected name path
  path_error name requested (not_found path) = target_not_found name path
  path_error name requested (io path e) = chart_io name path e
  path_error name requested (escape resolved ws) = path_escape name requested resolved ws

  internal_canonical :
      Text → FilePath → Canonical IoError → Result (ChartResolveError IoError) FilePath
  internal_canonical name joined (found canon) = ok canon
  internal_canonical name joined (missing _) = err (target_not_found name joined)
  internal_canonical name joined (failed e) = err (chart_io name joined e)

  -- The `match` on the origin.
  unfoldable pub canonical_target :
      Text → FilePath → FilePath → PathOrigin → Result (ChartResolveError IoError) FilePath
  unfolding workspace_canonical path_error internal_canonical validate_workspace_path join
  canonical_target name requested workspace_root user_manifest = do
    workspace_canon ← workspace_canonical name workspace_root (fs.canonicalize workspace_root)
    map_err (path_error name requested)
        (validate_workspace_path workspace_canon workspace_root requested)
  canonical_target name requested workspace_root internal =
      let joined = if is_absolute requested then requested else join workspace_root requested in
      internal_canonical name joined (fs.canonicalize joined)

  require_dir : Text → FilePath → Bool → Result (ChartResolveError IoError) (Unit {0})
  require_dir name canon true = ok tt
  require_dir name canon false = err (not_a_directory name canon)

  unfoldable pub resolve_path :
      (Text → Text)
      → Text
      → FilePath
      → FilePath
      → ResolvedSource
      → PathOrigin
      → Result (ChartResolveError IoError) ResolvedChart
  unfolding canonical_target require_dir hash_dir detect_dep_kind
  resolve_path sha256_hex name requested workspace_root source origin = do
    canon ← canonical_target name requested workspace_root origin
    is_directory ← map_err (chart_io name canon) (fs.is_dir canon)
    require_dir name canon is_directory
    hashed ← map_err (chart_io name canon) (hash_dir sha256_hex (fs.entries canon))
    ok (record {
      name = name;
      abs_path = canon;
      sha256 = hashed.0;
      kind = detect_dep_kind canon;
      source = source;
    })
