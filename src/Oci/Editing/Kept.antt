-- ===== src/Oci/Editing/Kept.antt =====
-- What `auth.toml` has after it was edited.
use akua.Base.{
  map_err-ok, ◌≡◌, refl, sym, ap, ◌∙◌, Bool, true, false, Option, none, some, [], ◌∷◌, Result, ok,
  >>=-eq-ok, Bool-cases, subst, All, map_err, arith, inl, inr, if◌then◌else◌,
}
use akua.Base.Maps.{
  Map, get, get-insert, get-remove, insert, insert-IsOrdered, remove, IsOrdered, same_key,
  same_key→eq,
}
use akua.Base.Orders.{nat_ord, list_ord}
use akua.Base.Paths.{FilePath, content}
use akua.Base.Texts.{Text, codes}
use akua.Oci.Transport.{Credentials}
use akua.Oci.Store.{AkuaAuthEntry, AkuaAuthFile, from_credentials}
use akua.Oci.Editing.{
  Disk, Codec, read_string, load_file, write_file, upsert_entry, remove_from, remove_entry, parent,
  create_parent, with_extension,
}

empty_file :
    {E : Type 0} {empty file : AkuaAuthFile}
    → ◌≡◌ {A = Result E AkuaAuthFile} (ok empty) (ok file)
    → empty ≡ file
empty_file h = cc

pair_parts :
    {E F : Type 0} {a b : Bool} {d e : F}
    → ◌≡◌ {A = Result E (Bool × F)} (ok (a, d)) (ok (b, e))
    → (a ≡ b) × (d ≡ e)
pair_parts h = (cc, cc)

get_of_absent :
    (k r : Text) (m : Map Text AkuaAuthEntry)
    → get k m ≡ none
    → get r m ≡ (if same_key k r then none else get r m)
get_of_absent k r m h = ground (arith, same_key→eq k r)

remove-All :
    (P : Text → Type 0) (k : Text) (m : Map Text AkuaAuthEntry)
    → All (λ (e : Text × AkuaAuthEntry). P e.0) m
    → All (λ (e : Text × AkuaAuthEntry). P e.0) (remove k m)
unfolding remove
remove-All P k [] a = tt
remove-All P k ((j, w) ∷ m) a = elim (Bool-cases (same_key j k)) [
  | inl same ↦ rw same a.1
  | inr other ↦ rw other (a.0, remove-All P k m a.1)
]

remove-IsOrdered : (k : Text) (m : Map Text AkuaAuthEntry) → IsOrdered m → IsOrdered (remove k m)
unfolding remove
remove-IsOrdered k [] h = tt
remove-IsOrdered k ((j, w) ∷ m) h = elim (Bool-cases (same_key j k)) [
  | inl same ↦ rw same h.1
  | inr other ↦
      rw other (remove-All (λ i. list_ord.lt j i ≡ true) k m h.0, remove-IsOrdered k m h.1)
]

-- `is_some`
abbrev pub is_some : Option AkuaAuthEntry → Bool
is_some none = false
is_some (some _) = true

-- Whether the file has the registry.
abbrev pub has_entry : Text → AkuaAuthFile → Bool
has_entry registry file = is_some (get registry file.registries)

module _ {IoError TomlError JsonError Files : Type 0} (disk : Disk IoError Files)
    (codec : Codec IoError TomlError)
    (reads : (tmp path : FilePath) (body : Text) (d d1 d2 : Files)
      → disk.write tmp body d ≡ ok d1
      → disk.rename tmp path d1 ≡ ok d2
      → (disk.exists path d2 ≡ true) × (disk.read path d2 ≡ content body))
    (decodes : (file : AkuaAuthFile) (body : Text)
      → IsOrdered file.registries
      → codec.to_string_pretty file ≡ ok body
      → codec.from_str body ≡ ok file)
    (ordered : (file : AkuaAuthFile) (body : Text)
      → codec.from_str body ≡ ok file
      → IsOrdered file.registries) where
  load_file-content :
      (path : FilePath) (file : AkuaAuthFile) (body : Text) (d : Files)
      → disk.exists path d ≡ true
      → disk.read path d ≡ content body
      → codec.from_str body ≡ ok file
      → load_file {JsonError = JsonError} disk codec path d ≡ ok file
  unfolding load_file read_string
  load_file-content path file body d there read parsed = ground arith

  write_file-load_file :
      (path : FilePath) (file : AkuaAuthFile) (files after : Files)
      → IsOrdered file.registries
      → write_file {JsonError = JsonError} disk codec path file files ≡ ok after
      → load_file {JsonError = JsonError} disk codec path after ≡ ok file
  unfolding write_file
  write_file-load_file path file files after o h =
      let tmp = with_extension (codes "toml.tmp") path in
      let (created, h1, k1) =
        >>=-eq-ok (create_parent {JsonError = JsonError} disk codec (parent path) files) _ h in
      let (body, h2, k2) = >>=-eq-ok (map_err _ (codec.to_string_pretty file)) _ k1 in
      let (written, h3, k3) = >>=-eq-ok (map_err _ (disk.write tmp body created)) _ k2 in
      let there =
        reads tmp path body created written after (map_err-ok _ (disk.write tmp body created) h3)
          (map_err-ok _ (disk.rename tmp path written) k3) in
      load_file-content path file body after there.0 there.1
        (decodes file body o (map_err-ok _ (codec.to_string_pretty file) h2))

  load_file-IsOrdered :
      (path : FilePath) (d : Files) (file : AkuaAuthFile)
      → load_file {JsonError = JsonError} disk codec path d ≡ ok file
      → IsOrdered file.registries
  unfolding load_file
  load_file-IsOrdered path d file h = elim (Bool-cases (disk.exists path d)) [
    | inl there ↦
        let (body, read, parsed) =
          >>=-eq-ok (read_string {JsonError = JsonError} disk codec path d) _ (rw there at h) in
        ordered file body (map_err-ok _ (codec.from_str body) parsed)
    | inr absent ↦
        subst (λ (f : AkuaAuthFile). IsOrdered f.registries) (empty_file (rw absent at h)) tt
  ]

  -- Where a file that was written under another name and renamed reads back, the TOML library reads back what it
  -- wrote, and what it reads is sorted: after `upsert_entry` the file has the credentials for the registry, and for
  -- every other registry what it had before.
  pub upsert_entry-load_file :
      (path : FilePath) (registry : Text) (creds : Credentials) (files after : Files) (r : Text)
      → upsert_entry {JsonError = JsonError} disk codec path registry creds files ≡ ok after
      → (before : AkuaAuthFile) × (edited : AkuaAuthFile) × (load_file {JsonError = JsonError} disk
            codec path files
          ≡ ok before)
        × (load_file {JsonError = JsonError} disk codec path after ≡ ok edited)
        × (get r edited.registries ≡ (
            if same_key registry r then some (from_credentials creds) else get r before.registries))
  unfolding upsert_entry
  upsert_entry-load_file path registry creds files after r h =
      let (before, found, written) =
        >>=-eq-ok (load_file {JsonError = JsonError} disk codec path files) _ h in
      let edited : AkuaAuthFile = record {
        registries = insert registry (from_credentials creds) before.registries;
      } in
      let o =
        insert-IsOrdered registry (from_credentials creds) before.registries
          (load_file-IsOrdered path files before found) in
      (
        before,
        edited,
        found,
        write_file-load_file path edited files after o written,
        get-insert r registry (from_credentials creds) before.registries,
      )

  removed_from :
      (path : FilePath) (registry : Text) (before : AkuaAuthFile) (files : Files) (removed : Bool)
      (after : Files) (r : Text) (entry : Option AkuaAuthEntry)
      → get registry before.registries ≡ entry
      → load_file {JsonError = JsonError} disk codec path files ≡ ok before
      → remove_from {JsonError = JsonError} disk codec path registry files before entry
        ≡ ok (removed, after)
      → (edited : AkuaAuthFile) × (load_file {JsonError = JsonError} disk codec path after
          ≡ ok edited)
        × (removed ≡ has_entry registry before)
        × (get r edited.registries
            ≡ (if same_key registry r then none else get r before.registries))
  unfolding remove_from
  removed_from path registry before files removed after r none absent found h =
      let (same, kept) = pair_parts h in
      (
        before,
        subst (λ d. load_file {JsonError = JsonError} disk codec path d ≡ ok before) kept found,
        sym same ∙ sym (ap is_some absent),
        get_of_absent registry r before.registries absent,
      )
  removed_from path registry before files removed after r (some entry) there found h =
      let edited : AkuaAuthFile = record { registries = remove registry before.registries } in
      let o = load_file-IsOrdered path files before found in
      let (written, w, k) =
        >>=-eq-ok (write_file {JsonError = JsonError} disk codec path edited files) _ h in
      let (same, kept) = pair_parts k in
      (
        edited,
        write_file-load_file path edited files after (remove-IsOrdered registry before.registries o)
            (w ∙ ap ok kept),
        sym same ∙ sym (ap is_some there),
        get-remove r registry before.registries o,
      )

  -- Where a file that was written under another name and renamed reads back, the TOML library reads back what it
  -- wrote, and what it reads is sorted: `remove_entry` tells whether the file had the registry, and after it the file has
  -- nothing for the registry, and for every other registry what it had before.
  pub remove_entry-load_file :
      (path : FilePath) (registry : Text) (files : Files) (removed : Bool) (after : Files)
      (r : Text)
      → remove_entry {JsonError = JsonError} disk codec path registry files ≡ ok (removed, after)
      → (before : AkuaAuthFile) × (edited : AkuaAuthFile) × (load_file {JsonError = JsonError} disk
            codec path files
          ≡ ok before)
        × (load_file {JsonError = JsonError} disk codec path after ≡ ok edited)
        × (removed ≡ has_entry registry before)
        × (get r edited.registries
            ≡ (if same_key registry r then none else get r before.registries))
  unfolding remove_entry
  remove_entry-load_file path registry files removed after r h =
      let (before, found, k) =
        >>=-eq-ok (load_file {JsonError = JsonError} disk codec path files) _ h in
      let (edited, loaded, same, entries) =
        removed_from path registry before files removed after r (get registry before.registries)
          refl found k in
      (before, edited, found, loaded, same, entries)
