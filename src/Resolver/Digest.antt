-- ===== src/Resolver/Digest.antt =====
-- The content hash of a directory tree, `hash_dir` and `collect_files`. SHA-256, as hexadecimal digits,
-- is an argument.
use mathlib.Core.List.{Permᴰ}
use akua.Base.{
  append_laws, ℕ, ◌+◌, ◌≡◌, refl, sym, ap, ◌∙◌, false, List, [], ◌∷◌, ◌++◌, Result, ok, err, ◌>>=◌,
  arith, length, leb, if◌then◌else◌,
}
use akua.Base.Orders.{nat_ord, list_ord, list_lt}
use akua.Base.Sorting.{HasDistinctKeys, sort_by_key, sort_by_key-Permᴰ}
use akua.Base.Texts.{Text, codes}

-- A directory as it is read: its entries in the order in which the file system gives them. The contents
-- of a file are read later and may fail; an entry that cannot be read, or a directory, stops the walk.
pub data Entries (IoError : Type 0) : Type 0 where
  no_more : Entries IoError
  file : (name : Text) → Result IoError Text → Entries IoError → Entries IoError
  directory : (name : Text) → Entries IoError → Entries IoError → Entries IoError
  symlink : (name : Text) → Entries IoError → Entries IoError
  unreadable : IoError → Entries IoError

-- A path below the root, as its components, and the file's contents.
abbrev pub FoundFile : Type 0 → Type 0
FoundFile IoError = List Text × Result IoError Text

module _ {IoError : Type 0} where
  unfoldable pub collect_files :
      List Text → Entries IoError → Result IoError (List (FoundFile IoError))
  collect_files dir no_more = ok []
  collect_files dir (file name content rest) = do
    files ← collect_files dir rest
    ok ((dir ++ (name ∷ []), content) ∷ files)
  collect_files dir (directory name entries rest) = do
    inner ← collect_files (dir ++ (name ∷ [])) entries
    files ← collect_files dir rest
    ok (inner ++ files)
  collect_files dir (symlink name rest) = collect_files dir rest
  collect_files dir (unreadable e) = err e

-- `to_string_lossy` of a path whose components are UTF-8.
unfoldable pub path_text : List Text → Text
path_text [] = []
path_text (name ∷ []) = name
path_text (name ∷ next ∷ names) = name ++ (b'/' ∷ path_text (next ∷ names))

abbrev pub u64_max : ℕ
u64_max = 18446744073709551615

abbrev pub saturating_add : ℕ → ℕ → ℕ
saturating_add a b = if leb (a + b) u64_max then a + b else u64_max

-- What the hasher absorbs for a file.
abbrev pub frame : List Text → Text → Text
frame path bytes = path_text path ++ (0 ∷ (bytes ++ (10 ∷ [])))

-- The frame of two files is that of one, whose contents look like a frame.
frame_merges :
    (a b first second : Text)
    → frame (a ∷ []) first ++ frame (b ∷ []) second
      ≡ frame (a ∷ []) (first ++ (10 ∷ (b ++ (0 ∷ second))))
unfolding path_text
frame_merges a b first second = simp append_laws

module _ {IoError : Type 0} where
  -- The loop over the files: what the hasher has absorbed, and the bytes of the contents.
  unfoldable pub absorb : List (FoundFile IoError) → Text → ℕ → Result IoError (Text × ℕ)
  unfolding path_text
  absorb [] hashed size_bytes = ok (hashed, size_bytes)
  absorb ((path, err e) ∷ files) hashed size_bytes = err e
  absorb ((path, ok bytes) ∷ files) hashed size_bytes =
      absorb files (hashed ++ frame path bytes) (saturating_add size_bytes (length bytes))

  module _ (sha256_hex : Text → Text) where
    hash_files : List (FoundFile IoError) → Result IoError (Text × ℕ)
    hash_files files = do
      (hashed, size_bytes) ← absorb (sort_by_key (λ (f : FoundFile IoError). f.0) files) [] 0
      ok (codes "sha256:" ++ sha256_hex hashed, size_bytes)

    unfoldable pub hash_dir : Entries IoError → Result IoError (Text × ℕ)
    unfolding hash_files collect_files absorb
    hash_dir root = collect_files [] root >>= hash_files

    -- The hash does not depend on the order in which the file system gives the entries: two directories
    -- whose files are the same in some order, no two at one path, have the same hash and size.
    pub hash_dir-Permᴰ :
        (root other : Entries IoError) {files others : List (FoundFile IoError)}
        → collect_files [] root ≡ ok files
        → collect_files [] other ≡ ok others
        → Permᴰ files others
        → HasDistinctKeys (λ (f : FoundFile IoError). f.0) files
        → hash_dir root ≡ hash_dir other
    unfolding hash_dir hash_files
    hash_dir-Permᴰ root other {files} {others} h k d distinct =
        let sorted = sort_by_key-Permᴰ (λ (f : FoundFile IoError). f.0) d distinct in
        ap (λ r. r >>= hash_files) h
        ∙ ap
            (λ s. absorb s [] 0 >>= λ (hashed, size_bytes).
              ok (codes "sha256:" ++ sha256_hex hashed, size_bytes))
            sorted
        ∙ sym (ap (λ r. r >>= hash_files) k)

    -- The frame of a file does not keep its end apart from the next file: a file `a` whose contents go on
    -- with a newline, the name `b`, a zero byte and the contents of `b` has the hash of the two files,
    -- where `b` does not come before `a`.
    pub hash_dir_collides :
        (a b first second : Text)
        → list_lt b a ≡ false
        → (digest : Text) × (m n : ℕ) × (hash_dir
              (file a (ok (first ++ (10 ∷ (b ++ (0 ∷ second))))) no_more)
            ≡ ok (digest, m))
          × (hash_dir (file a (ok first) (file b (ok second) no_more)) ≡ ok (digest, n))
    unfolding hash_dir absorb path_text sort_by_key list_lt
    hash_dir_collides a b first second h =
        let order : list_lt (b ∷ []) (a ∷ []) ≡ false = ground arith in
        let merged = first ++ (10 ∷ (b ++ (0 ∷ second))) in
        (
          codes "sha256:" ++ sha256_hex (frame (a ∷ []) first ++ frame (b ∷ []) second),
          saturating_add 0 (length merged),
          saturating_add (saturating_add 0 (length first)) (length second),
          ap (λ hashed. ok (codes "sha256:" ++ sha256_hex hashed, saturating_add 0 (length merged)))
              (sym (frame_merges a b first second)),
          rw order refl,
        )
