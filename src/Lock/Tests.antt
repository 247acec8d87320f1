-- ===== src/Lock/Tests.antt =====
-- Runs of the lock code, and its theorems at concrete inputs.
use akua.Base.{
  ◌≡◌, refl, subst, none, some, List, [], ◌∷◌, ◌++◌, Result, ok, err, ◌==◌, nat_eq, if◌then◌else◌,
  list_beq, list_eq,
}
use akua.Base.Orders.{nat_ord, list_ord, pair_ord}
use akua.Base.Sorting.{IsSorted, HasDistinctKeys}
use akua.Base.Paths.{FilePath, Read, content}
use akua.Base.Texts.{Text, codes, starts_with}
use akua.Lock.{
  LockedPackage, AkuaLock, LockError, validate, sort_key, sort, upsert, unsorted_packages,
}
use akua.Lock.Order.{package_name, NoTwins, KnownDigests, validate_lock_iff}
use akua.Lock.Entries.{entry_of, entry_of-upsert}
use akua.Lock.Files.{header, load, save, save-load}

abbrev entry : Text → Text → LockedPackage
entry name version = record {
  name = name;
  version = version;
  source = codes "oci://reg.dev";
  digest = codes "sha256:00";
  vendor_digest = none;
  signature = none;
  dependencies = [];
  attestation = none;
  replaced = none;
  yanked = none;
  kyverno_source_digest = none;
  converter_version = none;
}

abbrev web : LockedPackage
web = entry (codes "web") (codes "1")

abbrev redis : LockedPackage
redis = entry (codes "redis") (codes "7")

abbrev redis_patch : LockedPackage
redis_patch = entry (codes "redis") (codes "7.1")

abbrev unsorted : AkuaLock
unsorted = record { version = 1; packages = web ∷ redis ∷ [] }

abbrev sorted : AkuaLock
sorted = record { version = 1; packages = redis ∷ web ∷ [] }

abbrev check : AkuaLock → Result (LockError (Unit {0})) (Unit {0})
check = validate

unsorted_refused : check unsorted ≡ err (unsorted_packages (codes "redis") (codes "web"))
unfolding validate
unsorted_refused = refl

sorted_run : sort unsorted ≡ sorted
unfolding sort
sorted_run = refl

apart : HasDistinctKeys sort_key unsorted.packages
apart = (((λ e. cc), tt), (tt, tt))

known : KnownDigests unsorted.packages
unfolding starts_with
known = (refl, (refl, tt))

validate_lock_iff_example :
    (sorted.version ≡ 1)
    × IsSorted package_name sorted.packages
    × NoTwins sorted.packages
    × KnownDigests sorted.packages
unfolding validate
validate_lock_iff_example = (validate_lock_iff {TomlError = Unit {0}} sorted).0 refl

entry_of-upsert_example :
    entry_of (codes "redis") (codes "7.1") (upsert redis_patch unsorted).packages ≡ some redis_patch
unfolding list_beq
entry_of-upsert_example = entry_of-upsert (codes "redis") (codes "7.1") redis_patch unsorted

-- A TOML library that writes the names of the entries, and reads the header and the names of the two
-- packages in their order.
names : List LockedPackage → Text
names [] = []
names (p ∷ ps) = p.name ++ names ps

abbrev names_of : AkuaLock → Result (Unit {0}) Text
unfolding names
names_of lock = ok (names lock.packages)

abbrev lock_of : Text → Result (Unit {0}) AkuaLock
unfolding list_beq
lock_of s = if s == (header ++ codes "redisweb") then ok sorted else err tt

-- A file system with one file.
abbrev read_one : Text → FilePath → Read (Unit {0})
read_one disk _ = content disk

abbrev write_one : FilePath → Text → Text → Result (Unit {0}) Text
write_one _ s _ = ok s

names_read_back :
    (body : Text) → names_of (sort unsorted) ≡ ok body → lock_of (header ++ body) ≡ ok sorted
unfolding sort names list_beq
names_read_back body e =
    subst (λ r. (elim r [ ok b ↦ lock_of (header ++ b) | err _ ↦ ok sorted ]) ≡ ok sorted) e refl

save-load_example : load lock_of (read_one (header ++ codes "redisweb")) (codes "/work") ≡ ok sorted
unfolding sort save names
save-load_example =
    save-load lock_of names_of read_one write_one (codes "/work") unsorted [] names_read_back
      (λ s next e. cc) refl apart known refl
