-- ===== src/Cache/Tests.antt =====
-- A cache of one OCI blob: it is listed, and cleared.
use akua.Base.{
  ◌≡◌, refl, Bool, true, false, ◌&&◌, none, some, [], ◌∷◌, ok, err, length, nat_eq, list_eq,
  list_beq, ◌==◌, if◌then◌else◌,
}
use akua.Base.Orders.{nat_ord, list_ord}
use akua.Base.Paths.{FilePath}
use akua.Base.Texts.{codes}
use akua.Cache.{
  CacheEntry, CacheInventory, CacheClearReport, Found, Store, no_more, file, directory,
}
use akua.Cache.Operations.{list_at_roots, clear_at_roots}
use akua.Cache.Freed.{IsApart, IsBelow, clear_at_roots-list_at_roots}

abbrev blob : Found (Unit {0})
blob = record {
  path = codes "/o/sha256/ab";
  is_dir = true;
  file_name = some (codes "ab");
  below = directory (file (ok 3) no_more) (file (ok 4) no_more);
}

-- The state says whether the blobs are there.
abbrev blob_store : Store (Unit {0}) Bool
unfolding list_beq
blob_store = record {
  read_dir = λ present p. if present && p == codes "/o/sha256" then some (blob ∷ []) else none;
  exists = λ present p. present && p == codes "/o";
  remove_dir_all = λ p present. if p == codes "/o" then ok false else err tt;
}

abbrev listed_blob : CacheEntry
listed_blob = record {
  kind = codes "oci-blob";
  id = codes "sha256:ab";
  path = codes "/o/sha256/ab";
  size_bytes = 7;
}

abbrev blob_inventory : CacheInventory
blob_inventory = record {
  oci_root = codes "/o";
  git_root = codes "/g";
  helm_root = codes "/h";
  entries = listed_blob ∷ [];
  total_bytes = 7;
}

abbrev one_removed : CacheClearReport
one_removed = record { removed = 1; freed_bytes = 7 }

oci-IsBelow : IsBelow blob_store (codes "/o") (codes "/o/sha256")
unfolding blob_store list_beq
oci-IsBelow true e = cc
oci-IsBelow false e = refl

others-IsBelow : (root p : FilePath) → (p == codes "/o/sha256") ≡ false → IsBelow blob_store root p
unfolding blob_store
others-IsBelow root p h true e = rw h refl
others-IsBelow root p h false e = refl

others-IsApart : (root p : FilePath) → (p == codes "/o/sha256") ≡ false → IsApart blob_store root p
unfolding blob_store
others-IsApart root p h true true r = refl
others-IsApart root p h false false r = refl
others-IsApart root p h true false r = rw h refl
others-IsApart root p h false true r = rw h refl

clear_at_roots-list_at_roots_example :
    (one_removed.removed ≡ length blob_inventory.entries)
    × (one_removed.freed_bytes ≡ blob_inventory.total_bytes)
unfolding list_at_roots clear_at_roots blob_store list_beq
clear_at_roots-list_at_roots_example =
    clear_at_roots-list_at_roots blob_store (codes "/o") (codes "/g") (codes "/h") true
      {inventory = blob_inventory} {report = one_removed} {after = false} oci-IsBelow
      (others-IsBelow (codes "/g") (codes "/g/repos") refl)
      (others-IsBelow (codes "/g") (codes "/g/checkouts") refl)
      (others-IsBelow (codes "/h") (codes "/h") refl)
      (others-IsApart (codes "/o") (codes "/g/repos") refl)
      (others-IsApart (codes "/o") (codes "/g/checkouts") refl)
      (others-IsApart (codes "/o") (codes "/h") refl)
      (others-IsApart (codes "/g") (codes "/h") refl) refl refl
