-- ===== src/Oci/Editing/Used.antt =====
-- Credentials that were written, as `CredsStore` reads them.
use akua.Base.{◌≡◌, refl, ap, subst, ◌∙◌, true, false, Option, some, ok, arith, if◌then◌else◌}
use akua.Base.Maps.{Map, get, IsOrdered, same_key, same_key_refl}
use akua.Base.Orders.{nat_ord, list_ord}
use akua.Base.Paths.{FilePath, content, not_found}
use akua.Base.Texts.{Text}
use akua.Oci.Transport.{Credentials, basic, bearer}
use akua.Oci.Store.{
  CredsStore, Codecs, AkuaAuthFile, AkuaAuthEntry, from_credentials, into_credentials, for_registry,
  akua_auth_path, load, akua_entries,
}
use akua.Oci.Store.Precedence.{
  for_registry-load, Entries, or_else, credentials_of, akua_creds, docker_creds,
}
use akua.Oci.Editing.{Disk, Codec, upsert_entry, load_file, read_string}
use akua.Oci.Editing.Kept.{upsert_entry-load_file}

-- Credentials that are written into an entry are read from it.
into_credentials-from_credentials :
    (creds : Credentials) → into_credentials (from_credentials creds) ≡ creds
unfolding into_credentials from_credentials
into_credentials-from_credentials (basic username password) = refl
into_credentials-from_credentials (bearer token) = refl

same_key_if : {A : Type 0} (k : Text) (a b : A) → (if same_key k k then a else b) ≡ a
same_key_if k a b = rw (same_key_refl k) refl

akua_creds_wins :
    (r : Text) (creds : Credentials) (entries : Map Text AkuaAuthEntry) (other : Option Credentials)
    → get r entries ≡ some (from_credentials creds)
    → or_else (akua_creds r entries) other ≡ some creds
akua_creds_wins r creds entries other there =
    ap (λ entry. or_else (credentials_of entry) other) there
    ∙ ap some (into_credentials-from_credentials creds)

-- Both read the file with one library.
abbrev pub with_toml :
    {IoError TomlError JsonError : Type 0}
    → Codec IoError TomlError
    → Codecs TomlError JsonError
    → Codecs TomlError JsonError
with_toml codec codecs = record codecs { toml_from_str = codec.from_str }

module _ {IoError TomlError JsonError Files : Type 0} (disk : Disk IoError Files)
    (codec : Codec IoError TomlError) (codecs : Codecs TomlError JsonError)
    (absent : (path : FilePath) (d : Files)
      → disk.exists path d ≡ false
      → disk.read path d ≡ not_found) where
  akua_entries-load_file :
      (path : FilePath) (d : Files) (file : AkuaAuthFile) (entries : Map Text AkuaAuthEntry)
      → load_file {JsonError = JsonError} disk codec path d ≡ ok file
      → akua_entries {IoError = IoError} (with_toml codec codecs) (λ p. disk.read p d) path
        ≡ ok entries
      → entries ≡ file.registries
  unfolding load_file read_string akua_entries
  akua_entries-load_file path d file entries h k = ground (arith, absent path d)

  module _
      (reads : (tmp path : FilePath) (body : Text) (d d1 d2 : Files)
        → disk.write tmp body d ≡ ok d1
        → disk.rename tmp path d1 ≡ ok d2
        → (disk.exists path d2 ≡ true) × (disk.read path d2 ≡ content body))
      (decodes : (file : AkuaAuthFile) (body : Text)
        → IsOrdered file.registries
        → codec.to_string_pretty file ≡ ok body
        → codec.from_str body ≡ ok file)
      (ordered : (file : AkuaAuthFile) (body : Text)
        → codec.from_str body ≡ ok file
        → IsOrdered file.registries) where
    -- Where a file that was written under another name and renamed reads back and one that does not exist is not
    -- found, and the TOML library reads back what it wrote and reads sorted files: after `upsert_entry` into the
    -- file that `akua_auth_path` names, a store that `load` returns has those credentials for the registry, whatever
    -- Docker's configuration has for it.
    pub upsert_entry-load :
        (var : Text → Option Text) (path : FilePath) (registry : Text) (creds : Credentials)
        (files after : Files) {store : CredsStore}
        → akua_auth_path var ≡ some path
        → upsert_entry {JsonError = JsonError} disk codec path registry creds files ≡ ok after
        → load {IoError = IoError} (with_toml codec codecs) (λ p. disk.read p after) var ≡ ok store
        → for_registry store registry ≡ some creds
    upsert_entry-load var path registry creds files after {store} located h k =
        let (before, edited, found, loaded, entry) =
          upsert_entry-load_file {JsonError = JsonError} disk codec reads decodes ordered path
            registry creds files after registry h in
        let (akua, docker, a, d, same) =
          for_registry-load (with_toml codec codecs) (λ p. disk.read p after) var registry k in
        let read =
          subst
            (λ p.
              Entries
                (akua_entries {IoError = IoError} (with_toml codec codecs) (λ q. disk.read q after))
                p akua)
            located a in
        let agree = akua_entries-load_file path after edited akua loaded read in
        same
        ∙ akua_creds_wins registry creds akua
            (docker_creds codecs.decode_base64 codecs.trim registry docker)
            (ap (get registry) agree
              ∙ entry
              ∙ same_key_if registry (some (from_credentials creds))
                  (get registry before.registries))
