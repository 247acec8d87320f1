-- ===== src/Oci/Store/Precedence.antt =====
-- Which file's credentials a registry has.
use akua.Base.{
  ◌≡◌, refl, ◌∙◌, Option, none, some, List, [], ◌∷◌, Result, ok, >>=-eq-ok, arith, if◌then◌else◌,
  ap, Option-cases, inl, inr,
}
use akua.Base.Maps.{Map, get, get-insert, same_key, same_key→eq}
use akua.Base.Orders.{nat_ord, list_ord}
use akua.Base.Paths.{FilePath, Read}
use akua.Base.Texts.{Text}
use akua.Oci.Transport.{Credentials}
use akua.Oci.Store.{
  CredsStore, AkuaAuthEntry, DockerAuthEntry, AuthLoadError, Codecs, for_registry, into_credentials,
  docker_credentials, or_insert, register_akua, register_docker, akua_entries, docker_entries,
  akua_auth_path, docker_config_path, merged, merge_akua_auth, merge_docker_config, load,
}

-- The first of two that is there.
abbrev pub or_else : Option Credentials → Option Credentials → Option Credentials
or_else (some c) d = some c
or_else none d = d

-- The credentials of an entry, where there is one.
abbrev pub credentials_of : Option AkuaAuthEntry → Option Credentials
credentials_of none = none
credentials_of (some entry) = some (into_credentials entry)

-- What `auth.toml` has for a registry.
abbrev pub akua_creds : Text → Map Text AkuaAuthEntry → Option Credentials
akua_creds registry entries = credentials_of (get registry entries)

module _ (decode : Text → Option Text) (trim : Text → Text) where
  -- The first usable entry that the Docker configuration has for a registry.
  abbrev pub docker_creds : Text → List (Text × DockerAuthEntry) → Option Credentials
  docker_creds registry [] = none
  docker_creds registry ((name, entry) ∷ rest) =
      let later = docker_creds registry rest in
      if same_key name registry then or_else (docker_credentials decode trim entry) later else later

or_else_assoc : (a b c : Option Credentials) → or_else (or_else a b) c ≡ or_else a (or_else b c)
or_else_assoc (some a) b c = refl
or_else_assoc none b c = refl

get-or_insert :
    (r k : Text) (v : Credentials) (m : Map Text Credentials)
    → get r (or_insert k v m) ≡ or_else (get r m) (if same_key k r then some v else none)
unfolding or_insert
get-or_insert r k v m = ground (arith, get-insert r k v m, same_key→eq k r)

get-register_akua :
    (r : Text) (entries : Map Text AkuaAuthEntry) (m : Map Text Credentials)
    → get r (register_akua entries m) ≡ or_else (get r m) (akua_creds r entries)
unfolding register_akua get
get-register_akua r [] m = ground arith
get-register_akua r ((k, e) ∷ rest) m = ground (
  arith,
  get-register_akua r rest (or_insert k (into_credentials e) m),
  get-or_insert r k (into_credentials e) m,
)

module _ (decode : Text → Option Text) (trim : Text → Text) where
  get-register_docker :
      (r : Text) (entries : List (Text × DockerAuthEntry)) (m : Map Text Credentials)
      → get r (register_docker decode trim entries m)
        ≡ or_else (get r m) (docker_creds decode trim r entries)
  unfolding register_docker
  get-register_docker r [] m = ground arith
  get-register_docker r ((k, e) ∷ rest) m = elim (Option-cases (docker_credentials decode trim e)) [
    | inl unusable ↦ rw unusable (ground (arith, get-register_docker r rest m))
    | inr (c, usable) ↦
        rw usable
          (ground (arith, get-register_docker r rest (or_insert k c m), get-or_insert r k c m))
  ]

-- What a merge reads of a file that may have no place.
abbrev pub Entries :
    {IoError TomlError JsonError E : Type 0}
    → (FilePath → Result (AuthLoadError IoError TomlError JsonError) (List (Text × E)))
    → Option FilePath
    → List (Text × E)
    → Type 0
Entries entries_at none entries = entries ≡ []
Entries entries_at (some path) entries = entries_at path ≡ ok entries

module _ {IoError TomlError JsonError : Type 0} (codecs : Codecs TomlError JsonError)
    (read : FilePath → Read IoError) where
  merged_akua :
      (path : Option FilePath) (before after : CredsStore)
      → merged codecs read (merge_akua_auth codecs read) path before ≡ ok after
      → (entries : Map Text AkuaAuthEntry) × Entries (akua_entries codecs read) path entries
        × (after.entries ≡ register_akua entries before.entries)
  unfolding merged merge_akua_auth
  merged_akua none before after h = ([], refl, cc)
  merged_akua (some path) before after h =
      let (entries, found, same) = >>=-eq-ok (akua_entries codecs read path) _ h in
      (entries, found, cc)

  merged_docker :
      (path : Option FilePath) (before after : CredsStore)
      → merged codecs read (merge_docker_config codecs read) path before ≡ ok after
      → (entries : List (Text × DockerAuthEntry)) × Entries
          (docker_entries codecs read)
          path
          entries
        × (after.entries ≡ register_docker codecs.decode_base64 codecs.trim entries before.entries)
  unfolding merged merge_docker_config register_docker
  merged_docker none before after h = ([], refl, cc)
  merged_docker (some path) before after h =
      let (entries, found, same) = >>=-eq-ok (docker_entries codecs read path) _ h in
      (entries, found, cc)

  -- Where `load` returns a store, each file that has a place was read or is missing, and a registry has the
  -- credentials of `auth.toml` where that file has the registry, and otherwise those of the first usable entry
  -- of Docker's configuration for it.
  pub for_registry-load :
      (var : Text → Option Text) (r : Text) {store : CredsStore}
      → load codecs read var ≡ ok store
      → (akua : Map Text AkuaAuthEntry) × (docker : List (Text × DockerAuthEntry)) × Entries
          (akua_entries codecs read)
          (akua_auth_path var)
          akua
        × Entries (docker_entries codecs read) (docker_config_path var) docker
        × (for_registry store r
            ≡ or_else (akua_creds r akua) (docker_creds codecs.decode_base64 codecs.trim r docker))
  unfolding load for_registry get
  for_registry-load var r {store} h =
      let (first, found, rest) =
        >>=-eq-ok (merged codecs read (merge_akua_auth codecs read) (akua_auth_path var) _) _ h in
      let (akua, a, same) =
        merged_akua (akua_auth_path var) (record { entries = [] }) first found in
      let (docker, d, same2) = merged_docker (docker_config_path var) first store rest in
      (
        akua,
        docker,
        a,
        d,
        ap (get r) same2
            ∙ get-register_docker codecs.decode_base64 codecs.trim r docker first.entries
            ∙ ap
                (λ found_first.
                  or_else found_first (docker_creds codecs.decode_base64 codecs.trim r docker))
                (ap (get r) same ∙ get-register_akua r akua []),
      )
