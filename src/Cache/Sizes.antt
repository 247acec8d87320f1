-- ===== src/Cache/Sizes.antt =====
-- The sum of sizes does not depend on the order of the entries, and an inventory goes on where the last one
-- ended.
use mathlib.Core.List.{append_assoc, append-nil}
use akua.Base.{
  ℕ, suc, ◌+◌, ◌≡◌, refl, sym, ap, ◌∙◌, Option, none, some, List, [], ◌∷◌, ◌++◌, Result, ok, err,
  ◌>>=◌, arith, inl, inr, Bool-cases, length, push, Result-cases, Option-cases,
}
use akua.Base.Orders.{Ord, nat_ord, list_ord}
use akua.Base.Paths.{FilePath, join}
use akua.Base.Sorting.{insert_by_key, sort_by_key}
use akua.Base.Texts.{Text, codes}
use akua.Cache.{
  CacheEntry, CacheError, Store, Found, wrap, total_from, dir_size, collect_entries,
  collect_listing, collect_git, collect_helm,
}

wrap_swap : (a x y : ℕ) → wrap (wrap (a + x) + y) ≡ wrap (wrap (a + y) + x)
wrap_swap a x y = omega arith

pub total_from-append :
    (acc : ℕ) (xs ys : List CacheEntry)
    → total_from acc (xs ++ ys) ≡ total_from (total_from acc xs) ys
unfolding total_from
total_from-append acc [] ys = refl
total_from-append acc (x ∷ xs) ys = total_from-append (wrap (acc + x.size_bytes)) xs ys

module _ {K : Type 0} ⦃o : Ord K⦄ (key : CacheEntry → K) where
  total_from-insert :
      (acc : ℕ) (x : CacheEntry) (ys : List CacheEntry)
      → total_from acc (insert_by_key key x ys) ≡ total_from (wrap (acc + x.size_bytes)) ys
  unfolding total_from insert_by_key
  total_from-insert acc x [] = refl
  total_from-insert acc x (y ∷ ys) = elim (Bool-cases (o.lt (key y) (key x))) [
    | inl h ↦ rw h (
        total_from-insert (wrap (acc + y.size_bytes)) x ys
        ∙ ap (λ n. total_from n ys) (wrap_swap acc y.size_bytes x.size_bytes))
    | inr h ↦ rw h refl
  ]

  -- The sum of the sizes, modulo `2 ^ 64`, is that of the sorted entries.
  pub total_from-sort_by_key :
      (acc : ℕ) (xs : List CacheEntry) → total_from acc (sort_by_key key xs) ≡ total_from acc xs
  unfolding total_from sort_by_key
  total_from-sort_by_key acc [] = refl
  total_from-sort_by_key acc (x ∷ xs) =
      total_from-insert acc x (sort_by_key key xs)
      ∙ total_from-sort_by_key (wrap (acc + x.size_bytes)) xs

  length-insert_by_key :
      (x : CacheEntry) (ys : List CacheEntry) → length (insert_by_key key x ys) ≡ suc (length ys)
  unfolding insert_by_key
  length-insert_by_key x [] = refl
  length-insert_by_key x (y ∷ ys) = elim (Bool-cases (o.lt (key y) (key x))) [
    | inl h ↦ rw h (ap suc (length-insert_by_key x ys))
    | inr h ↦ rw h refl
  ]

  pub length-sort_by_key : (xs : List CacheEntry) → length (sort_by_key key xs) ≡ length xs
  unfolding sort_by_key
  length-sort_by_key [] = refl
  length-sort_by_key (x ∷ xs) =
      length-insert_by_key x (sort_by_key key xs) ∙ ap suc (length-sort_by_key xs)

module _ {IoError : Type 0} where
  -- The result behind the entries that are there already.
  behind :
      List CacheEntry
      → Result (CacheError IoError) (List CacheEntry)
      → Result (CacheError IoError) (List CacheEntry)
  behind out (ok es) = ok (out ++ es)
  behind out (err e) = err e

  behind-behind :
      (a b : List CacheEntry) (r : Result (CacheError IoError) (List CacheEntry))
      → behind a (behind b r) ≡ behind (a ++ b) r
  unfolding behind
  behind-behind a b (ok es) = ap ok (sym (append_assoc a b es))
  behind-behind a b (err e) = refl

  collect_entries-behind :
      (kind prefix : Text) (es : List (Found IoError)) (out : List CacheEntry)
      → collect_entries kind prefix es out ≡ behind out (collect_entries kind prefix es [])
  unfolding collect_entries behind
  collect_entries-behind kind prefix [] out = ap ok (sym (append-nil out))
  collect_entries-behind kind prefix (e ∷ es) out = elim (Bool-cases e.is_dir) [
    | inr d ↦ rw d (collect_entries-behind kind prefix es out)
    | inl d ↦ elim (Option-cases e.file_name) [
      | inl n ↦ rw (d, n) (collect_entries-behind kind prefix es out)
      | inr (name, n) ↦ elim (Result-cases (dir_size e.below)) [
        | inl (f, s) ↦ rw (d, n, s) refl
        | inr (size, s) ↦
            rw (d, n, s)
              (let entry : CacheEntry = record {
                kind = kind;
                id = prefix ++ name;
                path = e.path;
                size_bytes = size;
              } in
                collect_entries-behind kind prefix es (push out entry)
                ∙ sym (
                    ap (behind out) (collect_entries-behind kind prefix es (entry ∷ []))
                    ∙ behind-behind out (entry ∷ []) (collect_entries kind prefix es [])))
      ]
    ]
  ]

  collect_listing-behind :
      (kind prefix : Text) (listing : Option (List (Found IoError))) (out : List CacheEntry)
      → collect_listing kind prefix listing out
        ≡ behind out (collect_listing kind prefix listing [])
  unfolding collect_listing behind
  collect_listing-behind kind prefix none out = ap ok (sym (append-nil out))
  collect_listing-behind kind prefix (some es) out = collect_entries-behind kind prefix es out

  behind-bind :
      (out : List CacheEntry) (first : Result (CacheError IoError) (List CacheEntry))
      (next : List CacheEntry → Result (CacheError IoError) (List CacheEntry))
      → ((es : List CacheEntry) → next es ≡ behind es (next []))
      → (behind out first >>= next) ≡ behind out (first >>= next)
  unfolding behind
  behind-bind out (err e) next h = refl
  behind-bind out (ok es) next h =
      h (out ++ es) ∙ sym (ap (behind out) (h es) ∙ behind-behind out es (next []))

  behind-ok :
      (out : List CacheEntry) (r : Result (CacheError IoError) (List CacheEntry))
      {all : List CacheEntry}
      → behind out r ≡ ok all
      → (es : List CacheEntry) × (r ≡ ok es) × (all ≡ out ++ es)
  unfolding behind
  behind-ok out (err e) h = cc
  behind-ok out (ok es) h = (es, refl, cc)

module _ {IoError Disk : Type 0} (store : Store IoError Disk) where
  collect_git-behind :
      (disk : Disk) (root : FilePath) (out : List CacheEntry)
      → collect_git store disk root out ≡ behind out (collect_git store disk root [])
  unfolding collect_git
  collect_git-behind disk root out =
      let repos = store.read_dir disk (join root (codes "repos")) in
      let checkouts = store.read_dir disk (join root (codes "checkouts")) in
      ap (λ r. r >>= collect_listing (codes "git-checkout") (codes "git:") checkouts)
        (collect_listing-behind (codes "git-repo") [] repos out)
      ∙ behind-bind out (collect_listing (codes "git-repo") [] repos [])
          (collect_listing (codes "git-checkout") (codes "git:") checkouts)
          (collect_listing-behind (codes "git-checkout") (codes "git:") checkouts)

  -- An inventory that goes on behind another one has what it has alone.
  pub collect_git-alone :
      (disk : Disk) (root : FilePath) (out : List CacheEntry) {all : List CacheEntry}
      → collect_git store disk root out ≡ ok all
      → (es : List CacheEntry) × (collect_git store disk root [] ≡ ok es) × (all ≡ out ++ es)
  collect_git-alone disk root out h =
      behind-ok out (collect_git store disk root []) (sym (collect_git-behind disk root out) ∙ h)

  pub collect_helm-alone :
      (disk : Disk) (root : FilePath) (out : List CacheEntry) {all : List CacheEntry}
      → collect_helm store disk root out ≡ ok all
      → (es : List CacheEntry) × (collect_helm store disk root [] ≡ ok es) × (all ≡ out ++ es)
  unfolding collect_helm
  collect_helm-alone disk root out h =
      let listing = store.read_dir disk root in
      behind-ok out (collect_listing (codes "helm-chart") (codes "helm:") listing [])
        (sym (collect_listing-behind (codes "helm-chart") (codes "helm:") listing out) ∙ h)
