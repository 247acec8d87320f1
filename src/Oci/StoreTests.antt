-- ===== src/Oci/StoreTests.antt =====
-- The credentials' files at concrete inputs: a disk of one file, and a codec of files with one token.
use akua.Base.{
  ℕ, ◌≡◌, refl, ◌≢◌, Bool, true, false, Option, none, some, List, [], ◌∷◌, Result, ok, err,
  if◌then◌else◌, subst, ◌==◌, nat_eq,
}
use akua.Base.Maps.{Map, get, insert, remove, IsOrdered, same_key}
use akua.Base.Orders.{nat_ord, list_ord, list_lt}
use akua.Base.Paths.{FilePath, Read, content, not_found}
use akua.Base.Texts.{Text, codes}
use akua.Oci.Transport.{bearer}
use akua.Oci.Store.{
  CredsStore, Codecs, AkuaAuthFile, AkuaAuthEntry, DockerAuthEntry, for_registry, akua_auth_path,
  docker_config_path, load, akua_entries, docker_entries,
}
use akua.Oci.Store.Precedence.{for_registry-load, Entries, or_else, akua_creds, docker_creds}
use akua.Oci.Editing.{Disk, Codec, upsert_entry, remove_entry, load_file}
use akua.Oci.Editing.Kept.{has_entry, remove_entry-load_file}
use akua.Base.Runs.{panics}
use akua.Oci.Listing.{list_sources}
use akua.Oci.Listing.Total.{list_sources-no_panic}
use akua.Oci.Editing.Used.{with_toml, upsert_entry-load}

abbrev file_at : Option Text → Read ℕ
file_at none = not_found
file_at (some body) = content body

abbrev there : Option Text → Bool
there none = false
there (some _) = true

abbrev one_file : Disk ℕ (Option Text)
one_file = record {
  exists = λ path d. there d;
  read = λ path d. file_at d;
  missing = 2;
  create_dir_all = λ path d. ok d;
  write = λ path body d. ok (some body);
  rename = λ from to d. ok d;
}

abbrev encode_entry : ℕ → Option Text → Option Text → Option Text → Result ℕ Text
encode_entry c none none (some t) = ok (c ∷ t)
encode_entry c _ _ _ = err 1

abbrev encode : Map Text AkuaAuthEntry → Result ℕ Text
encode [] = ok []
encode (((c ∷ []), e) ∷ []) = encode_entry c e.username e.password e.token
encode _ = err 1

abbrev decode : Text → Result ℕ AkuaAuthFile
decode [] = ok (record { registries = [] })
decode (c ∷ t) = ok (record {
  registries = (c ∷ [], record { username = none; password = none; token = some t }) ∷ [];
})

abbrev one_token : Codec ℕ ℕ
one_token = record {
  from_str = decode;
  to_string_pretty = λ file. encode file.registries;
  invalid_data = λ e. e;
}

one_file-reads :
    (tmp path : FilePath) (body : Text) (d d1 d2 : Option Text)
    → one_file.write tmp body d ≡ ok d1
    → one_file.rename tmp path d1 ≡ ok d2
    → (one_file.exists path d2 ≡ true) × (one_file.read path d2 ≡ content body)
one_file-reads tmp path body d d1 none h k = (cc, cc)
one_file-reads tmp path body d d1 (some s) h k = (refl, cc)

encode_entry-decode :
    (c : ℕ) (u p t : Option Text) (body : Text)
    → encode_entry c u p t ≡ ok body
    → decode body
      ≡ ok (record { registries = (c ∷ [], record { username = u; password = p; token = t }) ∷ [] })
encode_entry-decode c none none (some t) [] h = cc
encode_entry-decode c none none (some t) (d ∷ s) h = cc
encode_entry-decode c none none none body h = cc
encode_entry-decode c none (some p) t body h = cc
encode_entry-decode c (some u) p t body h = cc

encode-decode :
    (m : Map Text AkuaAuthEntry) (body : Text)
    → encode m ≡ ok body
    → decode body ≡ ok (record { registries = m })
encode-decode [] [] h = refl
encode-decode [] (c ∷ t) h = cc
encode-decode (((c ∷ []), e) ∷ []) body h =
    encode_entry-decode c e.username e.password e.token body h
encode-decode (([], e) ∷ m) body h = cc
encode-decode (((c ∷ d ∷ s), e) ∷ m) body h = cc
encode-decode (((c ∷ []), e) ∷ f ∷ m) body h = cc

one_token-decodes :
    (file : AkuaAuthFile) (body : Text)
    → IsOrdered file.registries
    → one_token.to_string_pretty file ≡ ok body
    → one_token.from_str body ≡ ok file
one_token-decodes file body o h = encode-decode file.registries body h

ok_eq : (a b : AkuaAuthFile) → ◌≡◌ {A = Result ℕ AkuaAuthFile} (ok a) (ok b) → a ≡ b
ok_eq a b h = cc

one_token-IsOrdered :
    (file : AkuaAuthFile) (body : Text)
    → one_token.from_str body ≡ ok file
    → IsOrdered file.registries
one_token-IsOrdered file [] h =
    subst (λ (f : AkuaAuthFile). IsOrdered f.registries) (ok_eq (record { registries = [] }) file h)
      tt
one_token-IsOrdered file (c ∷ t) h =
    subst (λ (f : AkuaAuthFile). IsOrdered f.registries)
      (ok_eq
        (record {
          registries = (c ∷ [], record { username = none; password = none; token = some t }) ∷ [];
        })
        file h)
      (tt, tt)

one_file-absent :
    (path : FilePath) (d : Option Text)
    → one_file.exists path d ≡ false
    → one_file.read path d ≡ not_found
one_file-absent path none h = refl
one_file-absent path (some s) h = cc

abbrev test_codecs : Codecs ℕ ℕ
test_codecs = record {
  toml_from_str = decode;
  json_from_str = λ _. ok (record { auths = none });
  decode_base64 = λ _. none;
  trim = λ s. s;
}

-- The environment of a user with a directory for configurations.
abbrev test_var : Text → Option Text
test_var [] = none
test_var (c ∷ name) = if c == b'X' then some (codes "/x") else none

abbrev config_path : FilePath
config_path = codes "/x/akua/auth.toml"

abbrev abc_store : CredsStore
abc_store = record { entries = (codes "r", bearer (codes "abc")) ∷ [] }

upsert_entry-load_example : for_registry abc_store (codes "r") ≡ some (bearer (codes "abc"))
unfolding akua_auth_path docker_config_path upsert_entry load insert
upsert_entry-load_example =
    upsert_entry-load one_file one_token test_codecs one_file-absent one_file-reads
      one_token-decodes one_token-IsOrdered test_var config_path (codes "r") (bearer (codes "abc"))
      none (some (codes "rabc")) refl refl refl

remove_entry-load_file_example :
    (before : AkuaAuthFile) × (edited : AkuaAuthFile) × (load_file {JsonError = ℕ} one_file
        one_token config_path
        (some (codes "rabc"))
      ≡ ok before)
    × (load_file {JsonError = ℕ} one_file one_token config_path (some []) ≡ ok edited)
    × (true ≡ has_entry (codes "r") before)
    × (get (codes "r") edited.registries
        ≡ (if same_key (codes "r") (codes "r") then none else get (codes "r") before.registries))
unfolding remove_entry get remove list_lt
remove_entry-load_file_example =
    remove_entry-load_file {JsonError = ℕ} one_file one_token one_file-reads one_token-decodes
      one_token-IsOrdered config_path (codes "r") (some (codes "rabc")) true (some []) (codes "r")
      refl

for_registry-load_example :
    (akua : Map Text AkuaAuthEntry) × (docker : List (Text × DockerAuthEntry)) × Entries
      (akua_entries (with_toml one_token test_codecs) (λ p. file_at (some (codes "rabc"))))
      (akua_auth_path test_var)
      akua
    × Entries
        (docker_entries (with_toml one_token test_codecs) (λ p. file_at (some (codes "rabc"))))
        (docker_config_path test_var)
        docker
    × (for_registry abc_store (codes "r")
        ≡ or_else
            (akua_creds (codes "r") akua)
            (docker_creds test_codecs.decode_base64 test_codecs.trim (codes "r") docker))
unfolding load akua_auth_path docker_config_path
for_registry-load_example =
    for_registry-load (with_toml one_token test_codecs) (λ p. file_at (some (codes "rabc")))
      test_var (codes "r") refl

list_sources-no_panic_example :
    list_sources {IoError = ℕ} one_file one_token test_codecs (some (codes "rabc")) test_var
    ≢ panics
list_sources-no_panic_example =
    list_sources-no_panic one_file one_token test_codecs (some (codes "rabc")) test_var
