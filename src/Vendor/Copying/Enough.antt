-- ===== src/Vendor/Copying/Enough.antt =====
-- The bound on the depth of a copy is enough: a deeper one changes nothing.
use akua.Base.{
  ℕ, zero, suc, ◌+◌, ◌<◌, ◌≡◌, refl, ap, ◌∙◌, false, List, [], ◌∷◌, Result, ok, err, ◌≢◌, length,
  length-append, All, arith,
}
use akua.Base.Paths.{FilePath, join, is_absolute}
use akua.Base.Runs.{Run, returns, fails, panics, try_map, ◌>>=◌}
use akua.Base.Texts.{Text}
use akua.Vendor.{VendorError, io}
use akua.Vendor.Copying.{
  DirEntry, unreadable, untyped, is_directory, is_regular, is_other, Store, copy_entries,
  copy_within, copy_tree,
}

-- The name of an entry: not empty, and no absolute path.
abbrev IsName : Text → Type 0
IsName name = (name ≢ []) × (is_absolute name ≡ false)

-- The directories among the entries have names.
abbrev pub IsNamed : {IoError : Type 0} → DirEntry IoError → Type 0
IsNamed (is_directory name) = IsName name
IsNamed _ = Unit

join-longer : (base name : Text) → IsName name → length base < length (join base name)
unfolding join
join-longer base [] (some_name, relative) = absurd (some_name refl)
join-longer base (c ∷ name) (some_name, relative) =
    ground (arith, length-append base (c ∷ name), length-append base (b'/' ∷ c ∷ name))

>>=-eq :
    {E A B : Type 0} (r : Run E A) (f g : A → Run E B)
    → ((x : A) → f x ≡ g x)
    → (r >>= f) ≡ (r >>= g)
>>=-eq (returns x) f g h = h x
>>=-eq (fails e) f g h = refl
>>=-eq panics f g h = refl

-- A bind of a library's result, where the rest agrees on what it returns.
try_map-eq :
    {E F A B : Type 0} (f : E → F) (r : Result E A) (k l : A → Run F B)
    → ((x : A) → r ≡ ok x → k x ≡ l x)
    → (try_map f r >>= k) ≡ (try_map f r >>= l)
try_map-eq f (ok x) k l h = h x refl
try_map-eq f (err e) k l h = refl

module _ {IoError TomlError Disk : Type 0} (store : Store IoError Disk) where
  copy_entries-eq :
      (f g : FilePath → FilePath → Disk → Run (VendorError IoError TomlError) Disk)
      (source target : FilePath) (entries : List (DirEntry IoError)) (disk : Disk)
      → All IsNamed entries
      → ((s t : FilePath) (d : Disk) → length target < length t → f s t d ≡ g s t d)
      → copy_entries store f source target entries disk
        ≡ copy_entries store g source target entries disk
  unfolding copy_entries
  copy_entries-eq f g source target [] disk named h = refl
  copy_entries-eq f g source target (unreadable e ∷ rest) disk named h = refl
  copy_entries-eq f g source target (untyped name e ∷ rest) disk named h = refl
  copy_entries-eq f g source target (is_other name ∷ rest) disk named h =
      copy_entries-eq f g source target rest disk named.1 h
  copy_entries-eq f g source target (is_regular name ∷ rest) disk named h =
      try_map-eq (io (join source name)) (store.copy (join source name) (join target name) disk)
        (λ d. copy_entries store f source target rest d)
        (λ d. copy_entries store g source target rest d)
        (λ d _. copy_entries-eq f g source target rest d named.1 h)
  copy_entries-eq f g source target (is_directory name ∷ rest) disk named h =
      ap (λ r. r >>= λ d. copy_entries store f source target rest d)
        (h (join source name) (join target name) disk (join-longer target name named.0))
      ∙ >>=-eq (g (join source name) (join target name) disk)
          (λ d. copy_entries store f source target rest d)
          (λ d. copy_entries store g source target rest d)
          (λ d. copy_entries-eq f g source target rest d named.1 h)

  module _
      (refused : (path : FilePath) (disk : Disk)
        → store.path_max < length path
        → store.create_dir_all path disk ≡ err store.too_long)
      (named : (path : FilePath) (disk : Disk) (entries : List (DirEntry IoError))
        → store.read_dir path disk ≡ ok entries
        → All IsNamed entries) where
    copy_within-suc :
        (n : ℕ) (source target : FilePath) (disk : Disk)
        → store.path_max < n + length target
        → copy_within {TomlError = TomlError} store n source target disk
          ≡ copy_within store (suc n) source target disk
    unfolding copy_within
    copy_within-suc zero source target disk h = rw (refused target disk (omega (arith, h))) refl
    copy_within-suc (suc n) source target disk h =
        try_map-eq (io target) (store.create_dir_all target disk) _ _ (λ created _.
          try_map-eq (io source) (store.read_dir source created) _ _ (λ entries listed.
            copy_entries-eq (copy_within store n) (copy_within store (suc n)) source target entries
              created (named source created entries listed)
              (λ s t d longer. copy_within-suc n s t d (omega (arith, longer, h)))))

    -- Where a directory with a path of more than `path_max` bytes cannot be created and directories' entries have
    -- names, every bound on the depth that is no less than the one of `copy_tree` gives the same result: the bound
    -- is never what ends a copy.
    pub copy_tree-copy_within :
        (more : ℕ) (source target : FilePath) (disk : Disk)
        → copy_tree {TomlError = TomlError} store source target disk
          ≡ copy_within store (more + suc store.path_max) source target disk
    unfolding copy_tree
    copy_tree-copy_within zero source target disk =
        let same : suc store.path_max ≡ zero + suc store.path_max = omega arith in
        ap (λ n. copy_within {TomlError = TomlError} store n source target disk) same
    copy_tree-copy_within (suc more) source target disk =
        let next : suc (more + suc store.path_max) ≡ suc more + suc store.path_max = omega arith in
        copy_tree-copy_within more source target disk
        ∙ copy_within-suc (more + suc store.path_max) source target disk (omega arith)
        ∙ ap (λ n. copy_within {TomlError = TomlError} store n source target disk) next
