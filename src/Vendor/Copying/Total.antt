-- ===== src/Vendor/Copying/Total.antt =====
-- A copy does not panic.
use akua.Base.{ℕ, zero, suc, ◌≢◌, List, [], ◌∷◌, inl, inr}
use akua.Base.Paths.{FilePath, join}
use akua.Base.Runs.{Run, panics, try_map, >>=-eq-panics, try_map-no_panic}
use akua.Vendor.{VendorError, io}
use akua.Vendor.Copying.{
  DirEntry, unreadable, untyped, is_directory, is_regular, is_other, Store, copy_entries,
  copy_within, copy_tree,
}

module _ {IoError TomlError Disk : Type 0} (store : Store IoError Disk) where
  copy_entries-no_panic :
      (descend : FilePath → FilePath → Disk → Run (VendorError IoError TomlError) Disk)
      (source target : FilePath) (entries : List (DirEntry IoError)) (disk : Disk)
      → ((s t : FilePath) (d : Disk) → descend s t d ≢ panics)
      → copy_entries store descend source target entries disk ≢ panics
  unfolding copy_entries
  copy_entries-no_panic descend source target [] disk h p = cc
  copy_entries-no_panic descend source target (unreadable e ∷ rest) disk h p = cc
  copy_entries-no_panic descend source target (untyped name e ∷ rest) disk h p = cc
  copy_entries-no_panic descend source target (is_other name ∷ rest) disk h p =
      copy_entries-no_panic descend source target rest disk h p
  copy_entries-no_panic descend source target (is_regular name ∷ rest) disk h p =
      let copied = store.copy (join source name) (join target name) disk in
      elim (>>=-eq-panics (try_map (io (join source name)) copied) _ p) [
        | inl q ↦ try_map-no_panic (io (join source name)) copied q
        | inr (d, _, q) ↦ copy_entries-no_panic descend source target rest d h q
      ]
  copy_entries-no_panic descend source target (is_directory name ∷ rest) disk h p =
      elim (>>=-eq-panics (descend (join source name) (join target name) disk) _ p) [
        | inl q ↦ h (join source name) (join target name) disk q
        | inr (d, _, q) ↦ copy_entries-no_panic descend source target rest d h q
      ]

  copy_within-no_panic :
      (n : ℕ) (source target : FilePath) (disk : Disk)
      → copy_within {TomlError = TomlError} store n source target disk ≢ panics
  unfolding copy_within
  copy_within-no_panic zero source target disk p = cc
  copy_within-no_panic (suc n) source target disk p =
      elim (>>=-eq-panics (try_map (io target) (store.create_dir_all target disk)) _ p) [
        | inl h ↦ try_map-no_panic (io target) (store.create_dir_all target disk) h
        | inr (d, _, q) ↦ elim (>>=-eq-panics (try_map (io source) (store.read_dir source d)) _ q) [
          | inl h ↦ try_map-no_panic (io source) (store.read_dir source d) h
          | inr (entries, _, r) ↦
              copy_entries-no_panic (copy_within store n) source target entries d
                (copy_within-no_panic n) r
        ]
      ]

  pub copy_tree-no_panic :
      (source target : FilePath) (disk : Disk)
      → copy_tree {TomlError = TomlError} store source target disk ≢ panics
  unfolding copy_tree
  copy_tree-no_panic source target disk p =
      copy_within-no_panic (suc store.path_max) source target disk p
