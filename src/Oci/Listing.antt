-- ===== src/Oci/Listing.antt =====
-- `list_sources` of oci_auth.rs: the registries that either file has, without their secrets.
pub mod Total
use akua.Base.{
  ◌≡◌, refl, sym, ◌∙◌, ◌≢◌, Bool, true, false, Option, none, some, List, [], ◌∷◌, Result, ok, err,
  ◌⊎◌, inl, inr, Bool-cases, map_err, if◌then◌else◌, ◌||◌, All, arith,
}
use akua.Base.Maps.{Map, get, insert}
use akua.Base.Orders.{nat_ord, list_ord}
use akua.Base.Paths.{FilePath, Read}
use akua.Base.Runs.{Run, returns, panics, try, ◌>>=◌, >>=-eq-panics, try-no_panic}
use akua.Base.Texts.{Text, codes}
use akua.Resolver.Fetching.{unwrap_or}
use akua.Oci.Store.{
  AuthLoadError, parse, toml, json, AkuaAuthEntry, AkuaAuthFile, DockerAuthEntry, DockerConfig,
  Codecs, akua_auth_path, docker_config_path,
}
use akua.Oci.Editing.{Disk, Codec, read_string}

pub record RegistrySummary : Type 0 where
  pub registry : Text
  pub source : Text
  pub auth_kind : Text

-- `SourcePresence`
record SourcePresence : Type 0 where
  in_akua : Bool
  in_docker : Bool
  auth_kind : Text

kind_of : Option Text → Text
kind_of none = codes "basic"
kind_of (some _) = codes "bearer"

seen_in_akua : Text → Option SourcePresence → SourcePresence
seen_in_akua kind none = record { in_akua = true; in_docker = false; auth_kind = kind }
seen_in_akua kind (some p) = record p { in_akua = true; auth_kind = kind }

seen_in_docker : Option SourcePresence → SourcePresence
seen_in_docker none = record { in_akua = false; in_docker = true; auth_kind = codes "basic" }
seen_in_docker (some p) = record p { in_docker = true }

add_akua : Map Text AkuaAuthEntry → Map Text SourcePresence → Map Text SourcePresence
unfolding kind_of seen_in_akua get insert
add_akua [] m = m
add_akua ((registry, entry) ∷ rest) m =
    add_akua rest (insert registry (seen_in_akua (kind_of entry.token) (get registry m)) m)

add_docker : List (Text × DockerAuthEntry) → Map Text SourcePresence → Map Text SourcePresence
unfolding seen_in_docker get insert
add_docker [] m = m
add_docker ((registry, _) ∷ rest) m =
    add_docker rest (insert registry (seen_in_docker (get registry m)) m)

source_name : {E : Type 0} → Bool → Bool → Run E Text
source_name true true = returns (codes "both")
source_name true false = returns (codes "akua")
source_name false true = returns (codes "docker")
source_name false false = panics

summaries : {E : Type 0} → Map Text SourcePresence → Run E (List RegistrySummary)
unfolding source_name
summaries [] = returns []
summaries ((registry, p) ∷ m) =
    let rest = summaries m in
    source_name p.in_akua p.in_docker >>= λ source. rest >>= λ found.
    returns (record { registry = registry; source = source; auth_kind = p.auth_kind } ∷ found)

module _ {IoError TomlError JsonError Files : Type 0} (disk : Disk IoError Files)
    (codec : Codec IoError TomlError) (codecs : Codecs TomlError JsonError) (files : Files) where
  listed_akua :
      Option FilePath → Result (AuthLoadError IoError TomlError JsonError) (Map Text AkuaAuthEntry)
  unfolding read_string
  listed_akua none = ok []
  listed_akua (some path) =
      if disk.exists path files
      then elim (read_string {JsonError = JsonError} disk codec path files) [
        | err e ↦ err e
        | ok body ↦ elim (codecs.toml_from_str body) [
          | err e ↦ err (parse path (toml e))
          | ok parsed ↦ ok parsed.registries
        ]
      ]
      else ok []

  listed_docker :
      Option FilePath
      → Result (AuthLoadError IoError TomlError JsonError) (List (Text × DockerAuthEntry))
  unfolding read_string
  listed_docker none = ok []
  listed_docker (some path) =
      if disk.exists path files
      then elim (read_string {JsonError = JsonError} disk codec path files) [
        | err e ↦ err e
        | ok body ↦ elim (codecs.json_from_str body) [
          | err e ↦ err (parse path (json e))
          | ok parsed ↦ ok (unwrap_or [] parsed.auths)
        ]
      ]
      else ok []

  unfoldable pub list_sources :
      (Text → Option Text) → Run (AuthLoadError IoError TomlError JsonError) (List RegistrySummary)
  unfolding listed_akua listed_docker akua_auth_path docker_config_path add_akua add_docker
      summaries
  list_sources var = do
    akua ← try (listed_akua (akua_auth_path var))
    docker ← try (listed_docker (docker_config_path var))
    summaries (add_docker docker (add_akua akua []))
