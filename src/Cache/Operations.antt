-- ===== src/Cache/Operations.antt =====
-- `list` and `clear` over the three caches.
use akua.Base.{◌+◌, Bool, true, false, List, [], ◌∷◌, Result, ok, ◌>>=◌, map_err, if◌then◌else◌}
use akua.Base.Orders.{nat_ord, list_ord, list_lt}
use akua.Base.Paths.{FilePath}
use akua.Base.Sorting.{sort_by_key}
use akua.Base.Texts.{Text, codes}
use akua.Resolver.Workspace.{components}
use akua.Cache.{
  CacheEntry, CacheInventory, CacheClearReport, CacheError, ClearScope, Store, wrap, includes_oci,
  includes_git, includes_helm, total_from, collect_oci, collect_git, collect_helm,
}

-- What `reap` adds to the report.
abbrev pub count_entries : List CacheEntry → CacheClearReport → CacheClearReport
count_entries [] report = report
count_entries (e ∷ es) report = count_entries es (record {
  removed = report.removed + 1;
  freed_bytes = wrap (report.freed_bytes + e.size_bytes);
})

module _ {IoError Disk : Type 0} (store : Store IoError Disk) where
  -- Paths are ordered by their components.
  unfoldable pub list_at_roots :
      Disk → FilePath → FilePath → FilePath → Result (CacheError IoError) CacheInventory
  unfolding collect_oci collect_git collect_helm sort_by_key list_lt total_from components
  list_at_roots disk oci_root git_root helm_root = do
    oci ← collect_oci store disk oci_root []
    git ← collect_git store disk git_root oci
    helm ← collect_helm store disk helm_root git
    let entries = sort_by_key (λ (e : CacheEntry). components e.path) helm
    ok (record {
      oci_root = oci_root;
      git_root = git_root;
      helm_root = helm_root;
      entries = entries;
      total_bytes = total_from 0 entries;
    })

  -- `roots` is `default_cache_root`.
  unfoldable pub list : Disk → (Text → FilePath) → Result (CacheError IoError) CacheInventory
  unfolding list_at_roots
  list disk roots =
      list_at_roots disk (roots (codes "oci")) (roots (codes "git")) (roots (codes "helm"))

  unfoldable pub reap :
      FilePath
      → List CacheEntry
      → CacheClearReport × Disk
      → Result (CacheError IoError) (CacheClearReport × Disk)
  reap root entries (report, disk) =
      if store.exists disk root
      then (map_err (λ e. record { path = root; source = e }) (store.remove_dir_all root disk)
          >>= λ after. ok (count_entries entries report, after))
      else ok (report, disk)

  -- One `if` of `clear_at_roots`: the inventory of a cache, and its end.
  unfoldable pub clear_branch :
      Bool
      → (Disk → FilePath → List CacheEntry → Result (CacheError IoError) (List CacheEntry))
      → FilePath
      → CacheClearReport × Disk
      → Result (CacheError IoError) (CacheClearReport × Disk)
  unfolding reap
  clear_branch false collect root state = ok state
  clear_branch true collect root (report, disk) = do
    entries ← collect disk root []
    reap root entries (report, disk)

  unfoldable pub clear_at_roots :
      ClearScope
      → FilePath
      → FilePath
      → FilePath
      → Disk
      → Result (CacheError IoError) (CacheClearReport × Disk)
  unfolding clear_branch includes_oci includes_git includes_helm collect_oci collect_git
      collect_helm
  clear_at_roots scope oci_root git_root helm_root disk = do
    oci ←
        clear_branch (includes_oci scope) (collect_oci store) oci_root
          (record { removed = 0; freed_bytes = 0 }, disk)
    git ← clear_branch (includes_git scope) (collect_git store) git_root oci
    clear_branch (includes_helm scope) (collect_helm store) helm_root git

  unfoldable pub clear :
      ClearScope → (Text → FilePath) → Disk → Result (CacheError IoError) (CacheClearReport × Disk)
  unfolding clear_at_roots
  clear scope roots disk =
      clear_at_roots scope (roots (codes "oci")) (roots (codes "git")) (roots (codes "helm")) disk
