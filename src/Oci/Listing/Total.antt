-- ===== src/Oci/Listing/Total.antt =====
-- `list_sources` never reaches its `unreachable!`.
use akua.Base.{
  ◌≡◌, refl, sym, ◌∙◌, ◌≢◌, Bool, true, false, Option, none, some, List, [], ◌∷◌, inl, inr,
  Bool-cases, ◌||◌, All, arith,
}
use akua.Base.Maps.{Map, get, insert}
use akua.Base.Orders.{nat_ord, list_ord}
use akua.Base.Runs.{Run, returns, panics, try, >>=-eq-panics, try-no_panic}
use akua.Base.Texts.{Text, codes}
use akua.Oci.Store.{AkuaAuthEntry, DockerAuthEntry, Codecs, akua_auth_path, docker_config_path}
use akua.Oci.Editing.{Disk, Codec}
use akua.Oci.Listing.{
  RegistrySummary, SourcePresence, kind_of, seen_in_akua, seen_in_docker, add_akua, add_docker,
  source_name, summaries, listed_akua, listed_docker, list_sources,
}

-- A registry that some file has.
abbrev IsSeen : SourcePresence → Type 0
IsSeen p = p.in_akua || p.in_docker ≡ true

abbrev AllSeen : Map Text SourcePresence → Type 0
AllSeen m = All (λ (e : Text × SourcePresence). IsSeen e.1) m

insert-AllSeen :
    (k : Text) (p : SourcePresence) (m : Map Text SourcePresence)
    → IsSeen p
    → AllSeen m
    → AllSeen (insert k p m)
unfolding insert
insert-AllSeen k p [] s a = (s, tt)
insert-AllSeen k p ((j, q) ∷ m) s a = elim (Bool-cases (list_ord.lt j k)) [
  | inl below ↦ rw below (a.0, insert-AllSeen k p m s a.1)
  | inr other ↦ rw other (elim (Bool-cases (list_ord.lt k j)) [
    | inl above ↦ rw above (s, a)
    | inr same ↦ rw same (s, a.1)
  ])
]

seen_in_akua-IsSeen : (kind : Text) (p : Option SourcePresence) → IsSeen (seen_in_akua kind p)
unfolding seen_in_akua
seen_in_akua-IsSeen kind none = refl
seen_in_akua-IsSeen kind (some p) = ground arith

seen_in_docker-IsSeen : (p : Option SourcePresence) → IsSeen (seen_in_docker p)
unfolding seen_in_docker
seen_in_docker-IsSeen none = refl
seen_in_docker-IsSeen (some p) = ground arith

add_akua-AllSeen :
    (entries : Map Text AkuaAuthEntry) (m : Map Text SourcePresence)
    → AllSeen m
    → AllSeen (add_akua entries m)
unfolding add_akua
add_akua-AllSeen [] m a = a
add_akua-AllSeen ((k, e) ∷ rest) m a =
    let p = seen_in_akua (kind_of e.token) (get k m) in
    add_akua-AllSeen rest (insert k p m)
      (insert-AllSeen k p m (seen_in_akua-IsSeen (kind_of e.token) (get k m)) a)

add_docker-AllSeen :
    (entries : List (Text × DockerAuthEntry)) (m : Map Text SourcePresence)
    → AllSeen m
    → AllSeen (add_docker entries m)
unfolding add_docker
add_docker-AllSeen [] m a = a
add_docker-AllSeen ((k, e) ∷ rest) m a =
    let p = seen_in_docker (get k m) in
    add_docker-AllSeen rest (insert k p m)
      (insert-AllSeen k p m (seen_in_docker-IsSeen (get k m)) a)

returned_no_panic : {E : Type 0} {A : Type 0} (x : A) → ◌≢◌ {A = Run E A} (returns x) panics
returned_no_panic x h = cc

-- A registry that some file has gets a source, and no panic.
source_name-seen :
    {E : Type 0} (a b : Bool) → a || b ≡ true → (s : Text) × (source_name {E = E} a b ≡ returns s)
unfolding source_name
source_name-seen true true h = (codes "both", refl)
source_name-seen true false h = (codes "akua", refl)
source_name-seen false true h = (codes "docker", refl)
source_name-seen false false h = cc

summaries-AllSeen :
    {E : Type 0} (m : Map Text SourcePresence)
    → AllSeen m
    → (found : List RegistrySummary) × (summaries {E = E} m ≡ returns found)
unfolding summaries
summaries-AllSeen {E = E} [] a = ([], refl)
summaries-AllSeen {E = E} ((k, p) ∷ m) a =
    let (source, named) = source_name-seen {E = E} p.in_akua p.in_docker a.0 in
    let (found, rest) = summaries-AllSeen {E = E} m a.1 in
    (
      record { registry = k; source = source; auth_kind = p.auth_kind } ∷ found,
      rw (named, rest) refl,
    )

module _ {IoError TomlError JsonError Files : Type 0} (disk : Disk IoError Files)
    (codec : Codec IoError TomlError) (codecs : Codecs TomlError JsonError) where
  -- `list_sources` never panics, whatever the files and the environment hold: every registry that it finds is in one
  -- of the two files, so its `unreachable!` is not reached.
  pub list_sources-no_panic :
      (files : Files) (var : Text → Option Text)
      → list_sources {IoError = IoError} disk codec codecs files var ≢ panics
  unfolding list_sources
  list_sources-no_panic files var h =
      elim (>>=-eq-panics (try (listed_akua disk codec codecs files (akua_auth_path var))) _ h) [
        | inl bad ↦ try-no_panic (listed_akua disk codec codecs files (akua_auth_path var)) bad
        | inr (akua, read, k) ↦
            elim (>>=-eq-panics
              (try (listed_docker disk codec codecs files (docker_config_path var))) _ k) [
                | inl bad ↦
                    try-no_panic (listed_docker disk codec codecs files (docker_config_path var))
                      bad
                | inr (docker, read2, l) ↦
                    let (found, done) = summaries-AllSeen (add_docker docker (add_akua akua [])) (
                      add_docker-AllSeen docker (add_akua akua []) (add_akua-AllSeen akua [] tt)) in
                    returned_no_panic found (sym done ∙ l)
              ]
      ]
