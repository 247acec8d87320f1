-- ===== src/Oci/Store.antt =====
-- `CredsStore` of oci_auth.rs: the credentials of both files, and where the files are. The decoding of
-- the files, base64, the reads and the environment are arguments.
pub mod Precedence
use akua.Base.{
  ◌≡◌, Bool, Option, none, some, List, [], ◌∷◌, Result, ok, err, ◌>>=◌, map_err, is_empty,
  if◌then◌else◌,
}
use akua.Base.Maps.{Map, get, insert}
use akua.Base.Orders.{nat_ord, list_ord}
use akua.Base.Paths.{FilePath, join, Read, content, not_found, io_error}
use akua.Base.Texts.{Text, codes, split_once}
use akua.Resolver.Fetching.{unwrap_or}
use akua.Oci.Transport.{Credentials, basic, bearer}

-- The entries, a `HashMap` whose order nothing uses.
pub record CredsStore : Type 0 where
  pub entries : Map Text Credentials

-- `ParseBackend`
pub data ParseBackend (TomlError JsonError : Type 0) : Type 0 where
  toml : TomlError → ParseBackend TomlError JsonError
  json : JsonError → ParseBackend TomlError JsonError

pub data AuthLoadError (IoError TomlError JsonError : Type 0) : Type 0 where
  io : FilePath → IoError → AuthLoadError IoError TomlError JsonError
  parse : FilePath → ParseBackend TomlError JsonError → AuthLoadError IoError TomlError JsonError

pub record AkuaAuthEntry : Type 0 where
  pub username : Option Text
  pub password : Option Text
  pub token : Option Text

pub record AkuaAuthFile : Type 0 where
  pub registries : Map Text AkuaAuthEntry

pub record DockerAuthEntry : Type 0 where
  pub auth : Option Text
  pub username : Option Text
  pub password : Option Text

-- `auths`, a `HashMap` in some order of iteration.
pub record DockerConfig : Type 0 where
  pub auths : Option (List (Text × DockerAuthEntry))

unfoldable pub for_registry : CredsStore → Text → Option Credentials
unfolding get
for_registry store registry = get registry store.entries

-- `AkuaAuthEntry::from_credentials`
unfoldable pub from_credentials : Credentials → AkuaAuthEntry
from_credentials (basic username password) = record {
  username = some username;
  password = some password;
  token = none;
}
from_credentials (bearer token) = record { username = none; password = none; token = some token }

-- `AkuaAuthEntry::into_credentials`
unfoldable pub into_credentials : AkuaAuthEntry → Credentials
into_credentials entry = elim entry.token [
  | some token ↦ bearer token
  | none ↦ basic (unwrap_or [] entry.username) (unwrap_or [] entry.password)
]

-- A `username` and a `password` that are set verbatim.
verbatim : Option Text → Option Text → Option Credentials
verbatim (some username) (some password) = some (basic username password)
verbatim _ _ = none

-- `DockerAuthEntry::into_credentials`: `decode` is the decoding of base64 and then of UTF-8.
unfoldable pub docker_credentials :
    (decode : Text → Option Text) → (trim : Text → Text) → DockerAuthEntry → Option Credentials
unfolding verbatim split_once
docker_credentials decode trim entry =
    let otherwise = verbatim entry.username entry.password in
    elim entry.auth [
      | none ↦ otherwise
      | some b64 ↦ elim (decode (trim b64)) [
        | none ↦ otherwise
        | some text ↦ elim (split_once b':' text) [
          | none ↦ otherwise
          | some parts ↦ some (basic parts.0 parts.1)
        ]
      ]
    ]

-- `entry(k).or_insert(v)`
unfoldable pub or_insert : Text → Credentials → Map Text Credentials → Map Text Credentials
unfolding get insert
or_insert k v m = elim (get k m) [ some _ ↦ m | none ↦ insert k v m ]

-- The loop of `merge_akua_auth`.
unfoldable pub register_akua : Map Text AkuaAuthEntry → Map Text Credentials → Map Text Credentials
unfolding or_insert into_credentials
register_akua [] m = m
register_akua ((registry, entry) ∷ rest) m =
    register_akua rest (or_insert registry (into_credentials entry) m)

module _ (decode : Text → Option Text) (trim : Text → Text) where
  -- The loop of `merge_docker_config`.
  unfoldable pub register_docker :
      List (Text × DockerAuthEntry) → Map Text Credentials → Map Text Credentials
  unfolding or_insert docker_credentials
  register_docker [] m = m
  register_docker ((registry, entry) ∷ rest) m =
      register_docker rest (elim (docker_credentials decode trim entry) [
        | some creds ↦ or_insert registry creds m
        | none ↦ m
      ])

-- `std::env::var(..).ok()`, where it is not empty.
set_variable : Option Text → Option Text
set_variable none = none
set_variable (some v) = if is_empty v then none else some v

-- A path below the variable's directory, or below the home directory.
located : (Text → Option Text) → Text → Text → Text → Option FilePath
unfolding set_variable join
located var name below below_home = elim (set_variable (var name)) [
  | some dir ↦ some (join dir below)
  | none ↦ elim (set_variable (var (codes "HOME"))) [
    | some home ↦ some (join home below_home)
    | none ↦ none
  ]
]

unfoldable pub akua_auth_path : (Text → Option Text) → Option FilePath
unfolding located
akua_auth_path var =
    located var (codes "XDG_CONFIG_HOME") (codes "akua/auth.toml") (codes ".config/akua/auth.toml")

unfoldable pub docker_config_path : (Text → Option Text) → Option FilePath
unfolding located
docker_config_path var =
    located var (codes "DOCKER_CONFIG") (codes "config.json") (codes ".docker/config.json")

-- The libraries that decode the files.
pub record Codecs (TomlError JsonError : Type 0) : Type 0 where
  pub toml_from_str : Text → Result TomlError AkuaAuthFile
  pub json_from_str : Text → Result JsonError DockerConfig
  pub decode_base64 : Text → Option Text
  pub trim : Text → Text

module _ {IoError TomlError JsonError : Type 0} (codecs : Codecs TomlError JsonError)
    (read : FilePath → Read IoError) where
  -- What a merge registers: nothing where the file is missing.
  unfoldable pub akua_entries :
      FilePath → Result (AuthLoadError IoError TomlError JsonError) (Map Text AkuaAuthEntry)
  akua_entries path = elim (read path) [
    | content body ↦
        (map_err (λ e. parse path (toml e)) (codecs.toml_from_str body) >>= λ parsed.
        ok parsed.registries)
    | not_found ↦ ok []
    | io_error e ↦ err (io path e)
  ]

  unfoldable pub docker_entries :
      FilePath → Result (AuthLoadError IoError TomlError JsonError) (List (Text × DockerAuthEntry))
  docker_entries path = elim (read path) [
    | content body ↦
        (map_err (λ e. parse path (json e)) (codecs.json_from_str body) >>= λ parsed.
        ok (unwrap_or [] parsed.auths))
    | not_found ↦ ok []
    | io_error e ↦ err (io path e)
  ]

  unfoldable pub merge_akua_auth :
      FilePath → CredsStore → Result (AuthLoadError IoError TomlError JsonError) CredsStore
  unfolding akua_entries register_akua
  merge_akua_auth path store = do
    entries ← akua_entries path
    ok (record { entries = register_akua entries store.entries })

  unfoldable pub merge_docker_config :
      FilePath → CredsStore → Result (AuthLoadError IoError TomlError JsonError) CredsStore
  unfolding docker_entries register_docker
  merge_docker_config path store = do
    entries ← docker_entries path
    ok (record { entries = register_docker codecs.decode_base64 codecs.trim entries store.entries })

  -- A merge of a file that has a place.
  unfoldable pub merged :
      (FilePath → CredsStore → Result (AuthLoadError IoError TomlError JsonError) CredsStore)
      → Option FilePath
      → CredsStore
      → Result (AuthLoadError IoError TomlError JsonError) CredsStore
  merged merge none store = ok store
  merged merge (some path) store = merge path store

  unfoldable pub load :
      (Text → Option Text) → Result (AuthLoadError IoError TomlError JsonError) CredsStore
  unfolding merged merge_akua_auth merge_docker_config akua_auth_path docker_config_path
  load var = do
    store ← merged merge_akua_auth (akua_auth_path var) (record { entries = [] })
    merged merge_docker_config (docker_config_path var) store
