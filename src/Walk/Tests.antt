-- ===== src/Walk/Tests.antt =====
-- A walk over a small workspace.
use akua.Base.{refl, ◌↔◌, true, List, [], ◌∷◌, In, nat_eq, list_eq, list_beq}
use akua.Base.Orders.{nat_ord, list_ord, list_lt}
use akua.Base.Sorting.{IsSorted}
use akua.Base.Texts.{codes, starts_with}
use akua.Walk.{Tree, no_more, file, directory, RelPath, collect_files}
use akua.Walk.Kept.{IsKept, collect_files-IsKept}

abbrev workspace : Tree (Unit {0})
workspace = file (codes "b") (
    directory (codes "target") (file (codes "x") no_more)
      (directory (codes "a") (file (codes "c") no_more) no_more))

abbrev workspace_files : List RelPath
workspace_files = (codes "a" ∷ codes "c" ∷ []) ∷ (codes "b" ∷ []) ∷ []

collect_files-IsKept_example :
    ((p : RelPath) → In p workspace_files ↔ IsKept (λ _. true) p workspace)
    × IsSorted (λ (p : RelPath). p) workspace_files
unfolding collect_files starts_with list_beq list_lt
collect_files-IsKept_example = collect_files-IsKept (λ _. true) workspace refl
