-- ===== src/Diff/Tests.antt =====
-- Diffs of small directories.
use akua.Base.{◌≡◌, refl, ◌↔◌, true, none, some, [], ◌∷◌, nat_eq, list_eq, list_beq}
use akua.Base.Maps.{Map, get}
use akua.Base.Orders.{nat_ord, list_ord, list_lt}
use akua.Base.Runs.{returns}
use akua.Base.Texts.{Text, codes}
use akua.Diff.{RelPath, DirDiff, is_clean, diff_manifests, no_more, file, other, Root, root_of}
use akua.Diff.Clean.{diff_manifests-clean}

abbrev old_hashes : Map RelPath Text
old_hashes = (codes "a" ∷ [], codes "00") ∷ (codes "b" ∷ [], codes "01") ∷ []

abbrev new_hashes : Map RelPath Text
new_hashes = (codes "a" ∷ [], codes "00") ∷ (codes "c" ∷ [], codes "01") ∷ []

abbrev changed_paths : DirDiff
changed_paths = record {
  added = (codes "c" ∷ []) ∷ [];
  removed = (codes "b" ∷ []) ∷ [];
  changed = [];
  unchanged = (codes "a" ∷ []) ∷ [];
  skipped = [];
}

renamed : diff_manifests {E = Unit {0}} old_hashes new_hashes ≡ returns changed_paths
unfolding diff_manifests list_beq list_lt
renamed = refl

diff_manifests-clean_example :
    (d : DirDiff) × (diff_manifests {E = Unit {0}} old_hashes new_hashes ≡ returns d)
    × ((is_clean d ≡ true) ↔ ((k : RelPath) → get k old_hashes ≡ get k new_hashes))
diff_manifests-clean_example = diff_manifests-clean {E = Unit {0}} old_hashes new_hashes

abbrev old_root : Root (Unit {0})
old_root = root_of (file (codes "a") 1 (file (codes "b") 1 (other (codes "l") no_more)))

abbrev new_root : Root (Unit {0})
new_root = root_of (file (codes "a") 1 (file (codes "c") 1 no_more))

abbrev old_hash : RelPath → Text
unfolding list_beq
old_hash p = elim (get p old_hashes) [ none ↦ [] | some h ↦ h ]

abbrev new_hash : RelPath → Text
unfolding list_beq
new_hash p = elim (get p new_hashes) [ none ↦ [] | some h ↦ h ]
