-- ===== src/Auth/AuthParse.antt =====
-- crates/akuapkg-cli/src/auth_parse.rs: `--auth` values and their merge with `--auth-file`.
pub mod Pairs
pub mod Merge
use akua.Base.{
  Bool, true, false, Option, none, some, List, [], ◌∷◌, Result, ok, err, ◌>>=◌, map_err, is_empty,
  if◌then◌else◌,
}
use akua.Base.Texts.{Text, split_once}
use akua.Auth.HostAuth.{BasicAuth, HostAuthMap, insert}

-- The causes of `ReadFile` and `ParseFile` are values of the libraries' error types.
pub data AuthParseError (IoError TomlError : Type 0) : Type 0 where
  invalid_pair empty_prefix empty_username : Text → AuthParseError IoError TomlError
  read_file : Text → IoError → AuthParseError IoError TomlError
  parse_file : Text → TomlError → AuthParseError IoError TomlError

module _ {IoError TomlError : Type 0} where
  unfoldable pub parse_auth_pair :
      Text → Result (AuthParseError IoError TomlError) (Text × BasicAuth)
  unfolding split_once
  parse_auth_pair value = elim (split_once b'=' value) [
    | none ↦ err (invalid_pair value)
    | some (prefix, rest) ↦
        if is_empty prefix then err (empty_prefix value) else elim (split_once b':' rest) [
          | none ↦ err (invalid_pair value)
          | some (username, password) ↦
              if is_empty username
              then err (empty_username value)
              else ok (prefix, record { username = username; password = password })
        ]
  ]

  -- The loop of `parse_auth_pairs`, over the map so far.
  unfoldable pub parse_auth_loop :
      List Text → HostAuthMap → Result (AuthParseError IoError TomlError) HostAuthMap
  unfolding parse_auth_pair insert
  parse_auth_loop [] map = ok map
  parse_auth_loop (v ∷ values) map = elim (parse_auth_pair v) [
    | err e ↦ err e
    | ok (prefix, creds) ↦ parse_auth_loop values (insert prefix creds map)
  ]

  unfoldable pub parse_auth_pairs :
      List Text → Result (AuthParseError IoError TomlError) (Option HostAuthMap)
  unfolding parse_auth_loop
  parse_auth_pairs values = do
    map ← parse_auth_loop values []
    if is_empty map then ok none else ok (some map)

  -- The file's text comes from the file system, and its `[auth]` table from the TOML library.
  pub load_auth_file :
      (Text → Result IoError Text)
      → (Text → Result TomlError HostAuthMap)
      → Text
      → Result (AuthParseError IoError TomlError) HostAuthMap
  load_auth_file read_to_string from_str path = do
    text ← map_err (read_file path) (read_to_string path)
    map_err (parse_file path) (from_str text)

-- The loop of `merge_auth`.
unfoldable pub insert_all : HostAuthMap → HostAuthMap → HostAuthMap
unfolding insert
insert_all base [] = base
insert_all base ((k, v) ∷ over) = insert_all (insert k v base) over

unfoldable pub merge_auth : Option HostAuthMap → Option HostAuthMap → Option HostAuthMap
unfolding insert_all
merge_auth none none = none
merge_auth (some f) none = some f
merge_auth none (some f) = some f
merge_auth (some base) (some over) = some (insert_all base over)
