-- ===== src/Cache.antt =====
-- crates/akua-core/src/cache_inventory.rs: what the caches hold, and how they are cleared. Sums of `u64`
-- wrap, as they do in a build without overflow checks.
pub mod Sizes
pub mod Operations
pub mod Freed
mod Tests
use akua.Base.{
  ℕ, suc, ◌+◌, ◌%◌, ◌^◌, Bool, true, false, not, ◌&&◌, Option, none, some, List, [], ◌∷◌, ◌++◌,
  Result, ok, err, ◌>>=◌, map_err, is_empty, push, if◌then◌else◌,
}
use akua.Base.Orders.{nat_ord, list_ord, list_lt}
use akua.Base.Paths.{FilePath, join}
use akua.Base.Sorting.{sort_by_key}
use akua.Base.Texts.{Text, codes}
use akua.Resolver.Workspace.{components}

pub record CacheEntry : Type 0 where
  pub kind : Text
  pub id : Text
  pub path : FilePath
  pub size_bytes : ℕ

pub record CacheInventory : Type 0 where
  pub oci_root : FilePath
  pub git_root : FilePath
  pub helm_root : FilePath
  pub entries : List CacheEntry
  pub total_bytes : ℕ

pub record CacheClearReport : Type 0 where
  pub removed : ℕ
  pub freed_bytes : ℕ

-- `CacheError::Io`, the one error.
pub record CacheError (IoError : Type 0) : Type 0 where
  pub path : FilePath
  pub source : IoError

pub data ClearScope : Type 0 where
  all_caches oci_only git_only helm_only : ClearScope

unfoldable pub includes_oci : ClearScope → Bool
includes_oci all_caches = true
includes_oci oci_only = true
includes_oci _ = false

unfoldable pub includes_git : ClearScope → Bool
includes_git all_caches = true
includes_git git_only = true
includes_git _ = false

unfoldable pub includes_helm : ClearScope → Bool
includes_helm all_caches = true
includes_helm helm_only = true
includes_helm _ = false

unfoldable pub as_str : ClearScope → Text
as_str all_caches = codes "all"
as_str oci_only = codes "oci"
as_str git_only = codes "git"
as_str helm_only = codes "helm"

set_variable : Option Text → Option Text
set_variable none = none
set_variable (some v) = if is_empty v then none else some v

-- `var` is `std::env::var(..).ok()`.
unfoldable pub default_cache_root : (Text → Option Text) → Text → FilePath
unfolding set_variable join
default_cache_root var subdir = elim (set_variable (var (codes "XDG_CACHE_HOME"))) [
  | some xdg ↦ join (join xdg (codes "akua")) subdir
  | none ↦ elim (set_variable (var (codes "HOME"))) [
    | some home ↦ join (join home (codes ".cache/akua")) subdir
    | none ↦ join (codes ".akua/cache") subdir
  ]
]

abbrev pub wrap : ℕ → ℕ
wrap n = n % (2 ^ 64)

-- `iter().map(..).sum()`
unfoldable pub total_from : ℕ → List CacheEntry → ℕ
total_from acc [] = acc
total_from acc (e ∷ es) = total_from (wrap (acc + e.size_bytes)) es

-- A directory below an entry, as it is read. `vanished` is one that is not found, which is no error.
pub data SizeTree (IoError : Type 0) : Type 0 where
  no_more vanished : SizeTree IoError
  file : Result IoError ℕ → SizeTree IoError → SizeTree IoError
  directory : SizeTree IoError → SizeTree IoError → SizeTree IoError
  other : SizeTree IoError → SizeTree IoError
  unreadable : IoError → SizeTree IoError

-- An entry of a cache's directory: its path, its name where that is Unicode, and what is below it.
pub record Found (IoError : Type 0) : Type 0 where
  pub path : FilePath
  pub is_dir : Bool
  pub file_name : Option Text
  pub below : SizeTree IoError

-- What the module does to the file system. `read_dir` has the entries that can be read, if the directory can.
pub record Store (IoError Disk : Type 0) : Type 0 where
  pub read_dir : Disk → FilePath → Option (List (Found IoError))
  pub exists : Disk → FilePath → Bool
  pub remove_dir_all : FilePath → Disk → Result IoError Disk

module _ {IoError : Type 0} where
  unfoldable pub walk_for_size : SizeTree IoError → ℕ → Result IoError ℕ
  walk_for_size no_more total = ok total
  walk_for_size vanished total = ok total
  walk_for_size (unreadable e) total = err e
  walk_for_size (file (err e) rest) total = err e
  walk_for_size (file (ok len) rest) total = walk_for_size rest (wrap (total + len))
  walk_for_size (directory inner rest) total = do
    below ← walk_for_size inner total
    walk_for_size rest below
  walk_for_size (other rest) total = walk_for_size rest total

  unfoldable pub dir_size : SizeTree IoError → Result IoError ℕ
  unfolding walk_for_size
  dir_size tree = walk_for_size tree 0

  io : FilePath → IoError → CacheError IoError
  io path e = record { path = path; source = e }

  -- The loops of the three inventories differ in the kind and in what stands in front of the name.
  unfoldable pub collect_entries :
      Text
      → Text
      → List (Found IoError)
      → List CacheEntry
      → Result (CacheError IoError) (List CacheEntry)
  unfolding dir_size io
  collect_entries kind prefix [] out = ok out
  collect_entries kind prefix (e ∷ es) out =
      if not e.is_dir then collect_entries kind prefix es out else elim e.file_name [
        | none ↦ collect_entries kind prefix es out
        | some name ↦ elim (dir_size e.below) [
          | err failed ↦ err (io e.path failed)
          | ok size_bytes ↦ collect_entries kind prefix es (
              push out (record {
                kind = kind;
                id = prefix ++ name;
                path = e.path;
                size_bytes = size_bytes;
              }))
        ]
      ]

  collect_listing :
      Text
      → Text
      → Option (List (Found IoError))
      → List CacheEntry
      → Result (CacheError IoError) (List CacheEntry)
  unfolding collect_entries
  collect_listing kind prefix none out = ok out
  collect_listing kind prefix (some es) out = collect_entries kind prefix es out

module _ {IoError Disk : Type 0} (store : Store IoError Disk) where
  unfoldable pub collect_oci :
      Disk → FilePath → List CacheEntry → Result (CacheError IoError) (List CacheEntry)
  unfolding collect_listing join
  collect_oci disk root out =
      collect_listing (codes "oci-blob") (codes "sha256:")
        (store.read_dir disk (join root (codes "sha256"))) out

  unfoldable pub collect_git :
      Disk → FilePath → List CacheEntry → Result (CacheError IoError) (List CacheEntry)
  unfolding collect_listing join
  collect_git disk root out = do
    repos ←
        collect_listing (codes "git-repo") [] (store.read_dir disk (join root (codes "repos"))) out
    collect_listing (codes "git-checkout") (codes "git:")
        (store.read_dir disk (join root (codes "checkouts"))) repos

  unfoldable pub collect_helm :
      Disk → FilePath → List CacheEntry → Result (CacheError IoError) (List CacheEntry)
  unfolding collect_listing
  collect_helm disk root out =
      collect_listing (codes "helm-chart") (codes "helm:") (store.read_dir disk root) out
