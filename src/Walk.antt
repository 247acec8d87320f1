-- ===== src/Walk.antt =====
-- crates/akua-core/src/walk.rs: the files and the directories of a workspace.
pub mod Kept
mod Tests
use akua.Base.{
  ℕ, Bool, true, false, ◌&&◌, ◌||◌, List, [], ◌∷◌, Result, ok, err, ◌>>=◌, map_err, ◌==◌, nat_eq,
  list_eq, list_beq, push, if◌then◌else◌,
}
use akua.Base.Orders.{nat_ord, list_ord, list_lt}
use akua.Base.Paths.{FilePath, join}
use akua.Base.Sorting.{sort_by_key}
use akua.Base.Texts.{Text, codes, starts_with}

-- A directory as it is read, its entries in the order in which the file system gives them. `vanished` is a
-- directory that is not found, which is no error; any other failure stops the walk.
pub data Tree (IoError : Type 0) : Type 0 where
  no_more vanished : Tree IoError
  file : (name : Text) → Tree IoError → Tree IoError
  directory : (name : Text) → Tree IoError → Tree IoError → Tree IoError
  other : (name : Text) → Tree IoError → Tree IoError
  untyped : (name : Text) → IoError → Tree IoError → Tree IoError
  unreadable : IoError → Tree IoError

-- A path below the root, as its components.
abbrev pub RelPath : Type 0
RelPath = List Text

unfoldable pub should_skip_dir : Text → Bool
unfolding starts_with list_beq
should_skip_dir name =
    if starts_with name (codes ".")
    then true
    else name == codes "deploy"
      || name == codes "rendered"
      || name == codes "out"
      || name == codes "target"
      || name == codes "node_modules"
      || name == codes "dist"

module _ {IoError : Type 0} where
  module _ (keep_file : Text → Bool) where
    -- The second of each pair of the source, the path from the root, is the first one joined to the root.
    unfoldable pub walk : RelPath → Tree IoError → List RelPath → Result IoError (List RelPath)
    unfolding should_skip_dir
    walk dir no_more out = ok out
    walk dir vanished out = ok out
    walk dir (unreadable e) out = err e
    walk dir (file name rest) out =
        if should_skip_dir name
        then walk dir rest out
        else walk dir rest (if keep_file name then push out (push dir name) else out)
    walk dir (directory name inner rest) out =
        if should_skip_dir name
        then walk dir rest out
        else (walk (push dir name) inner out >>= λ found. walk dir rest found)
    walk dir (other name rest) out = walk dir rest out
    walk dir (untyped name e rest) out = if should_skip_dir name then walk dir rest out else err e

    unfoldable pub collect_files : Tree IoError → Result IoError (List RelPath)
    unfolding walk sort_by_key list_lt
    collect_files root = do out ← walk [] root []; ok (sort_by_key (λ (p : RelPath). p) out)

  unfoldable pub walk_dirs : RelPath → Tree IoError → List RelPath → Result IoError (List RelPath)
  unfolding should_skip_dir
  walk_dirs dir no_more out = ok out
  walk_dirs dir vanished out = ok out
  walk_dirs dir (unreadable e) out = err e
  walk_dirs dir (file name rest) out = walk_dirs dir rest out
  walk_dirs dir (directory name inner rest) out =
      if should_skip_dir name
      then walk_dirs dir rest out
      else (walk_dirs (push dir name) inner (push out (push dir name)) >>= λ found.
          walk_dirs dir rest found)
  walk_dirs dir (other name rest) out = walk_dirs dir rest out
  walk_dirs dir (untyped name e rest) out =
      if should_skip_dir name then walk_dirs dir rest out else err e

  -- The root is its own path, which has no component; a root that is no directory has none.
  unfoldable pub collect_directories : Bool → Tree IoError → Result IoError (List RelPath)
  unfolding walk_dirs sort_by_key list_lt
  collect_directories is_dir root = do
    out ← if is_dir then walk_dirs [] root ([] ∷ []) else ok []
    ok (sort_by_key (λ (p : RelPath). p) out)
