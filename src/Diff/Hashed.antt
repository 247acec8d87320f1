-- ===== src/Diff/Hashed.antt =====
-- `diff` is `diff_manifests` on the hashes of the files.
use akua.Base.{ℕ, ◌≡◌, Option, none, some, List, [], ◌∷◌, Result, ok, nat_eq, list_eq}
use akua.Base.Maps.{Map}
use akua.Base.Orders.{nat_ord, list_ord}
use akua.Base.Texts.{Text}
use akua.Diff.{RelPath, DirDiff}

with_skipped : List RelPath → DirDiff → DirDiff
with_skipped s d = record d { skipped = s }

module _ {IoError : Type 0} (hash : RelPath → Result IoError Text) where
  -- The second map has the paths of the first, each with the hash of its file.
  abbrev pub AreHashed : Map RelPath ℕ → Map RelPath Text → Type 0
  AreHashed [] [] = Unit
  AreHashed ((rel, _) ∷ files) ((path, digest) ∷ hashes) =
      (rel ≡ path) × (hash rel ≡ ok digest) × AreHashed files hashes
  AreHashed _ _ = ⊥

  -- The lookups of one path in the two maps.
  abbrev Looked : RelPath → Option ℕ → Option Text → Type 0
  Looked k none none = Unit
  Looked k (some _) (some digest) = hash k ≡ ok digest
  Looked k _ _ = ⊥
