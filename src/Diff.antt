-- ===== src/Diff.antt =====
-- crates/akua-core/src/dir_diff.rs: what changed from one directory to another. A panic is `panics`.
pub mod Keys
pub mod Clean
pub mod Hashed
mod Tests
use akua.Base.{
  ℕ, Bool, true, false, ◌&&◌, Option, none, some, List, [], ◌∷◌, ◌++◌, Result, ok, err, ◌==◌,
  nat_eq, list_eq, list_beq, is_empty, push, if◌then◌else◌,
}
use akua.Base.Maps.{Map, get, insert, keys}
use akua.Base.Orders.{nat_ord, list_ord, list_lt}
use akua.Base.Paths.{FilePath}
use akua.Base.Runs.{Run, returns, fails, panics, try, try_map, ◌>>=◌}
use akua.Base.Sorting.{sort_by_key}
use akua.Base.Texts.{Text, codes}

-- A path below the root, as its components, which is how paths are ordered.
abbrev pub RelPath : Type 0
RelPath = List Text

pub record FileChange : Type 0 where
  pub path : RelPath
  pub before : Text
  pub after : Text

pub record DirDiff : Type 0 where
  pub added : List RelPath
  pub removed : List RelPath
  pub changed : List FileChange
  pub unchanged : List RelPath
  pub skipped : List RelPath

unfoldable pub is_clean : DirDiff → Bool
is_clean d = is_empty d.added && is_empty d.removed && is_empty d.changed

-- `io` names the side and the path below its root, the root itself being no component.
pub data Side : Type 0 where
  before_side after_side : Side

pub data DirDiffError (IoError : Type 0) : Type 0 where
  io : Side → RelPath → IoError → DirDiffError IoError
  not_dir : Side → DirDiffError IoError

-- `dedup`: of equal neighbours the first stays.
dedup_from : RelPath → List RelPath → List RelPath
unfolding list_beq
dedup_from x [] = x ∷ []
dedup_from x (y ∷ ys) = if x == y then dedup_from x ys else x ∷ dedup_from y ys

unfoldable pub dedup : List RelPath → List RelPath
unfolding dedup_from
dedup [] = []
dedup (x ∷ xs) = dedup_from x xs

unfoldable pub sort_dedup : List RelPath → List RelPath
unfolding dedup sort_by_key list_lt
sort_dedup xs = dedup (sort_by_key (λ (k : RelPath). k) xs)

unfoldable pub all_keys : {V W : Type 0} → Map RelPath V → Map RelPath W → List RelPath
unfolding sort_dedup
all_keys before after = sort_dedup (keys before ++ keys after)

no_diff : DirDiff
no_diff = record { added = []; removed = []; changed = []; unchanged = []; skipped = [] }

-- The comparison of two hashes.
compare_hashes : RelPath → Text → Text → DirDiff → DirDiff
unfolding list_beq
compare_hashes rel b a d =
    if b == a then record d { unchanged = push d.unchanged rel } else record d {
      changed =
          push d.changed
            (record { path = rel; before = codes "sha256:" ++ b; after = codes "sha256:" ++ a });
    }

module _ {E : Type 0} where
  -- The body of the loop of `diff_manifests`.
  classify : RelPath → Option Text → Option Text → DirDiff → Run E DirDiff
  unfolding compare_hashes
  classify rel (some b) (some a) d = returns (compare_hashes rel b a d)
  classify rel (some _) none d = returns (record d { removed = push d.removed rel })
  classify rel none (some _) d = returns (record d { added = push d.added rel })
  classify rel none none d = panics

  unfoldable pub classify_all :
      Map RelPath Text → Map RelPath Text → List RelPath → DirDiff → Run E DirDiff
  unfolding classify get
  classify_all before after [] d = returns d
  classify_all before after (rel ∷ rels) d = do
    next ← classify rel (get rel before) (get rel after) d
    classify_all before after rels next

  unfoldable pub diff_manifests : Map RelPath Text → Map RelPath Text → Run E DirDiff
  unfolding classify_all all_keys no_diff
  diff_manifests before after = classify_all before after (all_keys before after) no_diff

-- A directory as `walk` sees it: the entries in the order of their names, in which it sorts them. An entry
-- whose kind cannot be read, or a directory that cannot be listed, stops the walk.
pub data Children (IoError : Type 0) : Type 0 where
  no_more : Children IoError
  file : (name : Text) → (size : ℕ) → Children IoError → Children IoError
  directory : (name : Text) → Children IoError → Children IoError → Children IoError
  other : (name : Text) → Children IoError → Children IoError
  unstatable : (name : Text) → IoError → Children IoError
  unlistable : IoError → Children IoError

pub record CollectResult : Type 0 where
  pub files : Map RelPath ℕ
  pub skipped : List RelPath

-- What `symlink_metadata` says of the root, and its entries.
pub data Root (IoError : Type 0) : Type 0 where
  no_metadata : IoError → Root IoError
  no_directory : Root IoError
  root_of : Children IoError → Root IoError

module _ {IoError : Type 0} (side : Side) where
  unfoldable pub walk :
      RelPath → Children IoError → CollectResult → Result (DirDiffError IoError) CollectResult
  unfolding insert
  walk cursor no_more found = ok found
  walk cursor (unlistable e) found = err (io side cursor e)
  walk cursor (unstatable name e) found = err (io side (push cursor name) e)
  walk cursor (other name rest) found =
      walk cursor rest (record found { skipped = push found.skipped (push cursor name) })
  walk cursor (file name size rest) found =
      walk cursor rest (record found { files = insert (push cursor name) size found.files })
  walk cursor (directory name inner rest) found = elim (walk (push cursor name) inner found) [
    | err e ↦ err e
    | ok next ↦ walk cursor rest next
  ]

  unfoldable pub collect : Root IoError → Result (DirDiffError IoError) CollectResult
  unfolding walk
  collect (no_metadata e) = err (io side [] e)
  collect no_directory = err (not_dir side)
  collect (root_of children) = walk [] children (record { files = []; skipped = [] })

module _ {IoError : Type 0} (hash_before hash_after : RelPath → Result IoError Text) where
  -- The body of the loop of `diff`; a file is hashed only where the other side has it too.
  compare_files : RelPath → Option ℕ → Option ℕ → DirDiff → Run (DirDiffError IoError) DirDiff
  unfolding compare_hashes
  compare_files rel (some _) (some _) d = do
    before_hash ← try_map (io before_side rel) (hash_before rel)
    after_hash ← try_map (io after_side rel) (hash_after rel)
    returns (compare_hashes rel before_hash after_hash d)
  compare_files rel (some _) none d = returns (record d { removed = push d.removed rel })
  compare_files rel none (some _) d = returns (record d { added = push d.added rel })
  compare_files rel none none d = panics

  unfoldable pub compare_all :
      Map RelPath ℕ → Map RelPath ℕ → List RelPath → DirDiff → Run (DirDiffError IoError) DirDiff
  unfolding compare_files get
  compare_all before after [] d = returns d
  compare_all before after (rel ∷ rels) d = do
    next ← compare_files rel (get rel before) (get rel after) d
    compare_all before after rels next

  unfoldable pub diff : Root IoError → Root IoError → Run (DirDiffError IoError) DirDiff
  unfolding collect compare_all all_keys no_diff sort_dedup
  diff before after = do
    before_files ← try (collect before_side before)
    after_files ← try (collect after_side after)
    compare_all before_files.files after_files.files (all_keys before_files.files after_files.files)
        (record no_diff { skipped = sort_dedup (before_files.skipped ++ after_files.skipped) })
