-- ===== src/Cache/Freed.antt =====
-- What `clear` frees is what `list` shows.
use akua.Base.{
  ◌+◌, ◌≡◌, refl, sym, ap, ◌∙◌, subst, true, false, none, List, [], ◌∷◌, ◌++◌, Result, ok,
  >>=-eq-ok, arith, ◌⊎◌, inl, inr, Bool-cases, Result-cases, length, length-append,
}
use akua.Base.Orders.{nat_ord, list_ord}
use akua.Base.Paths.{FilePath, join}
use akua.Base.Sorting.{sort_by_key}
use akua.Base.Texts.{codes}
use akua.Resolver.Workspace.{components}
use akua.Cache.{
  CacheEntry, CacheInventory, CacheClearReport, CacheError, all_caches, Store, wrap, total_from,
  collect_oci, collect_git, collect_helm,
}
use akua.Cache.Operations.{count_entries, list_at_roots, reap, clear_branch, clear_at_roots}
use akua.Cache.Sizes.{
  total_from-append, total_from-sort_by_key, length-sort_by_key, collect_git-alone,
  collect_helm-alone,
}

-- The report counts these entries besides those of another report.
abbrev Counts : CacheClearReport → List CacheEntry → CacheClearReport → Type 0
Counts before es after =
    (after.removed ≡ before.removed + length es)
    × (after.freed_bytes ≡ total_from before.freed_bytes es)

count_entries-Counts :
    (es : List CacheEntry) (report : CacheClearReport) → Counts report es (count_entries es report)
unfolding total_from
count_entries-Counts [] report = (omega arith, refl)
count_entries-Counts (e ∷ es) report =
    let (n, total) = count_entries-Counts es (record {
      removed = report.removed + 1;
      freed_bytes = wrap (report.freed_bytes + e.size_bytes);
    }) in
    (omega (arith, n), total)

returned :
    {A B E : Type 0} (a c : A) (b d : B)
    → ◌≡◌ {A = Result E (A × B)} (ok (a, b)) (ok (c, d))
    → (a ≡ c) × (b ≡ d)
returned a c b d h = (cc, cc)

no_entries : CacheClearReport
no_entries = record { removed = 0; freed_bytes = 0 }

-- The counts of three inventories are those of all their entries.
Counts-append :
    (os gs hs : List CacheEntry) (r1 r2 r3 : CacheClearReport)
    → Counts no_entries os r1
    → Counts r1 gs r2
    → Counts r2 hs r3
    → (r3.removed ≡ length ((os ++ gs) ++ hs)) × (r3.freed_bytes ≡ total_from 0 ((os ++ gs) ++ hs))
unfolding no_entries
Counts-append os gs hs r1 r2 r3 a b c = (
  omega (arith, a.0, b.0, c.0, length-append (os ++ gs) hs, length-append os gs),
  c.1
      ∙ ap (λ n. total_from n hs) (b.1 ∙ ap (λ n. total_from n gs) a.1)
      ∙ sym (
          total_from-append 0 (os ++ gs) hs
          ∙ ap (λ n. total_from n hs) (total_from-append 0 os gs)),
)

-- The inventory of these entries has their number and their sum.
inventory_sums :
    {E : Type 0} (entries : List CacheEntry) (a b c : FilePath) (inventory : CacheInventory)
    → ◌≡◌ {A = Result E CacheInventory}
        (ok (record {
          oci_root = a;
          git_root = b;
          helm_root = c;
          entries = sort_by_key (λ (e : CacheEntry). components e.path) entries;
          total_bytes = total_from 0 (sort_by_key (λ (e : CacheEntry). components e.path) entries);
        }))
        (ok inventory)
    → (length inventory.entries ≡ length entries) × (inventory.total_bytes ≡ total_from 0 entries)
inventory_sums entries a b c inventory h =
    let sorted = sort_by_key (λ (e : CacheEntry). components e.path) entries in
    let listed : inventory.entries ≡ sorted = cc in
    let summed : inventory.total_bytes ≡ total_from 0 sorted = cc in
    (
      ap length listed ∙ length-sort_by_key (λ (e : CacheEntry). components e.path) entries,
      summed ∙ total_from-sort_by_key (λ (e : CacheEntry). components e.path) 0 entries,
    )

module _ {IoError Disk : Type 0} (store : Store IoError Disk) where
  -- Removing the root leaves the listing of the path.
  abbrev pub IsApart : FilePath → FilePath → Type 0
  IsApart root p =
      (d after : Disk)
      → store.remove_dir_all root d ≡ ok after
      → store.read_dir after p ≡ store.read_dir d p

  -- Where the root does not exist, the path below it has no listing.
  abbrev pub IsBelow : FilePath → FilePath → Type 0
  IsBelow root p = (d : Disk) → store.exists d root ≡ false → store.read_dir d p ≡ none

  -- The disk after a cache is cleared: the same, or without the root.
  abbrev Cleared : FilePath → Disk → Disk → Type 0
  Cleared root before after = (after ≡ before) ⊎ (store.remove_dir_all root before ≡ ok after)

  Cleared-read_dir :
      (root p : FilePath) (before after : Disk)
      → IsApart root p
      → Cleared root before after
      → store.read_dir after p ≡ store.read_dir before p
  Cleared-read_dir root p before after apart (inl e) = ap (λ d. store.read_dir d p) e
  Cleared-read_dir root p before after apart (inr r) = apart before after r

  reap-Counts :
      (root : FilePath) (es : List CacheEntry) (report : CacheClearReport) (disk : Disk)
      {next : CacheClearReport} {after : Disk}
      → (store.exists disk root ≡ false → es ≡ [])
      → reap store root es (report, disk) ≡ ok (next, after)
      → Counts report es next × Cleared root disk after
  unfolding reap total_from
  reap-Counts root es report disk {next} {after} empty h =
      elim (Bool-cases (store.exists disk root)) [
        | inr e ↦
            let (a, b) = returned report next disk after (sym (rw e refl) ∙ h) in
            (
              subst (λ fs. Counts report fs next) (sym (empty e))
                  (subst (Counts report []) a (omega arith, refl)),
              inl (sym b),
            )
        | inl e ↦ elim (Result-cases (store.remove_dir_all root disk)) [
          | inl (f, r) ↦ absurd (ground arith)
          | inr (d, r) ↦
              let (a, b) =
                returned (count_entries es report) next d after (sym (rw (e, r) refl) ∙ h) in
              (subst (Counts report es) a (count_entries-Counts es report), inr (r ∙ ap ok b))
        ]
      ]

  clear_branch-Counts :
      (collect : Disk → FilePath → List CacheEntry → Result (CacheError IoError) (List CacheEntry))
      (root : FilePath) (report : CacheClearReport) (disk : Disk) {es : List CacheEntry}
      {next : CacheClearReport} {after : Disk}
      → (store.exists disk root ≡ false → collect disk root [] ≡ ok [])
      → collect disk root [] ≡ ok es
      → clear_branch store true collect root (report, disk) ≡ ok (next, after)
      → Counts report es next × Cleared root disk after
  unfolding clear_branch
  clear_branch-Counts collect root report disk {es} {next} {after} empty h k =
      reap-Counts root es report disk {next = next} {after = after}
        (λ e. same_entries (sym h ∙ empty e)) (sym (rw h refl) ∙ k)
    where
      same_entries :
          ◌≡◌ {A = Result (CacheError IoError) (List CacheEntry)} (ok es) (ok []) → es ≡ []
      same_entries q = cc

  git-empty :
      (root : FilePath) (disk : Disk)
      → IsBelow root (join root (codes "repos"))
      → IsBelow root (join root (codes "checkouts"))
      → store.exists disk root ≡ false
      → collect_git store disk root [] ≡ ok []
  unfolding collect_git
  git-empty root disk a b e = rw (a disk e, b disk e) refl

  -- Where no cache's root holds another, and a root that does not exist has no listing below it: clearing all
  -- the caches removes as many entries, and frees as many bytes, as the inventory of the same disk has.
  pub clear_at_roots-list_at_roots :
      (oci git helm : FilePath) (disk : Disk) {inventory : CacheInventory}
      {report : CacheClearReport} {after : Disk}
      → IsBelow oci (join oci (codes "sha256"))
      → IsBelow git (join git (codes "repos"))
      → IsBelow git (join git (codes "checkouts"))
      → IsBelow helm helm
      → IsApart oci (join git (codes "repos"))
      → IsApart oci (join git (codes "checkouts"))
      → IsApart oci helm
      → IsApart git helm
      → list_at_roots store disk oci git helm ≡ ok inventory
      → clear_at_roots store all_caches oci git helm disk ≡ ok (report, after)
      → (report.removed ≡ length inventory.entries) × (report.freed_bytes ≡ inventory.total_bytes)
  unfolding list_at_roots clear_at_roots collect_oci collect_git collect_helm no_entries
  clear_at_roots-list_at_roots oci git helm disk {inventory} {report} {after} bo br bc bh ar ac ah
        gh l c =
      let (os, o, l1) = >>=-eq-ok (collect_oci store disk oci []) _ l in
      let (gs, g, l2) = >>=-eq-ok (collect_git store disk git os) _ l1 in
      let (hs, h, l3) = >>=-eq-ok (collect_helm store disk helm gs) _ l2 in
      let (own_git, g', git_all) = collect_git-alone store disk git os g in
      let (own_helm, h', helm_all) = collect_helm-alone store disk helm gs h in
      let ((r1, d1), c1, k1) =
        >>=-eq-ok (clear_branch store true (collect_oci store) oci (no_entries, disk)) _ c in
      let ((r2, d2), c2, k2) =
        >>=-eq-ok (clear_branch store true (collect_git store) git (r1, d1)) _ k1 in
      let (n1, e1) =
        clear_branch-Counts (collect_oci store) oci no_entries disk {next = r1} {after = d1}
          (λ e. rw (bo disk e) refl) o c1 in
      let repos = Cleared-read_dir oci (join git (codes "repos")) disk d1 ar e1 in
      let checkouts = Cleared-read_dir oci (join git (codes "checkouts")) disk d1 ac e1 in
      let (n2, e2) =
        clear_branch-Counts (collect_git store) git r1 d1 {next = r2} {after = d2}
          (git-empty git d1 br bc) (rw (repos, checkouts) g') c2 in
      let charts =
        Cleared-read_dir git helm d1 d2 gh e2 ∙ Cleared-read_dir oci helm disk d1 ah e1 in
      let (n3, e3) =
        clear_branch-Counts (collect_helm store) helm r2 d2 {next = report} {after = after}
          (λ e. rw (bh d2 e) refl) (rw charts h') k2 in
      let (removed, freed) = Counts-append os own_git own_helm r1 r2 report n1 n2 n3 in
      let all : hs ≡ (os ++ own_git) ++ own_helm = helm_all ∙ ap (λ xs. xs ++ own_helm) git_all in
      let (number, sum) = inventory_sums hs oci git helm inventory l3 in
      (removed ∙ sym (number ∙ ap length all), freed ∙ sym (sum ∙ ap (total_from 0) all))
