-- ===== src/Lock.antt =====
-- crates/akua-core/src/lock_file.rs: `akua.lock`, one entry for each resolved package.
pub mod Order
pub mod Entries
pub mod Files
mod Tests
use akua.Base.{
  ℕ, Bool, true, false, not, ◌&&◌, ◌||◌, Option, none, some, List, [], ◌∷◌, ◌++◌, Result, ok, err,
  ◌>>◌, ◌==◌, nat_eq, list_eq, list_beq, find, position, set, if◌then◌else◌,
}
use akua.Base.Orders.{Ord, nat_ord, list_ord, pair_ord, list_lt, pair_lt}
use akua.Base.Sorting.{sort_by_key}
use akua.Base.Texts.{Text, codes, starts_with}

pub record Replaced : Type 0 where
  pub path : Text

pub record LockedPackage : Type 0 where
  pub name : Text
  pub version : Text
  pub source : Text
  pub digest : Text
  pub vendor_digest : Option Text
  pub signature : Option Text
  pub dependencies : List Text
  pub attestation : Option Text
  pub replaced : Option Replaced
  pub yanked : Option Bool
  pub kyverno_source_digest : Option Text
  pub converter_version : Option Text

pub record AkuaLock : Type 0 where
  pub version : ℕ
  pub packages : List LockedPackage

abbrev pub current_version : ℕ
current_version = 1

abbrev pub sha256_digest_prefix : Text
sha256_digest_prefix = codes "sha256:"

abbrev pub git_digest_prefix : Text
git_digest_prefix = codes "git:"

abbrev pub vendored_lock_fallback : Text
vendored_lock_fallback = codes "vendored"

unfoldable pub is_path : LockedPackage → Bool
unfolding starts_with
is_path p = starts_with p.source (codes "path+file://")

unfoldable pub is_oci : LockedPackage → Bool
unfolding starts_with
is_oci p = starts_with p.source (codes "oci://")

-- `Parse` and `Serialize` hold an error of the TOML library.
pub data LockError (TomlError : Type 0) : Type 0 where
  parse_error serialize_error : TomlError → LockError TomlError
  version_mismatch : (found expected : ℕ) → LockError TomlError
  unsorted_packages : (later earlier : Text) → LockError TomlError
  duplicate_package bad_digest : Text → LockError TomlError

-- `b.name < a.name`
abbrev pub name_lt : Text → Text → Bool
name_lt = list_lt

abbrev pub has_known_digest : LockedPackage → Bool
has_known_digest p =
    starts_with p.digest sha256_digest_prefix || starts_with p.digest git_digest_prefix

module _ {TomlError : Type 0} where
  -- The loop over `packages.windows(2)`.
  unfoldable pub check_windows : List LockedPackage → Result (LockError TomlError) (Unit {0})
  unfolding list_lt list_beq
  check_windows [] = ok tt
  check_windows (a ∷ []) = ok tt
  check_windows (a ∷ b ∷ ps) =
      let rest = check_windows (b ∷ ps) in
      if name_lt b.name a.name
      then err (unsorted_packages b.name a.name)
      else if a.name == b.name && a.version == b.version
      then err (duplicate_package a.name)
      else rest

  -- The loop over the digests.
  unfoldable pub check_digests : List LockedPackage → Result (LockError TomlError) (Unit {0})
  unfolding starts_with
  check_digests [] = ok tt
  check_digests (p ∷ ps) =
      let rest = check_digests ps in
      if not (has_known_digest p) then err (bad_digest p.name) else rest

  unfoldable pub validate : AkuaLock → Result (LockError TomlError) (Unit {0})
  unfolding check_windows check_digests
  validate lock =
      if not (lock.version == current_version)
      then err (version_mismatch lock.version current_version)
      else check_windows lock.packages >> check_digests lock.packages

-- `a.name.cmp(&b.name).then_with(|| a.version.cmp(&b.version))`
abbrev pub sort_key : LockedPackage → Text × Text
sort_key p = (p.name, p.version)

unfoldable pub sort : AkuaLock → AkuaLock
unfolding sort_by_key pair_lt list_lt
sort lock = record lock { packages = sort_by_key sort_key lock.packages }

abbrev pub empty : AkuaLock
empty = record { version = current_version; packages = [] }

-- The first entry of the name.
unfoldable pub find_package : Text → AkuaLock → Option LockedPackage
unfolding find list_beq
find_package name lock = find (λ p. p.name == name) lock.packages

abbrev pub has_key : Text → Text → LockedPackage → Bool
has_key name version p = p.name == name && p.version == version

unfoldable pub find_slot : Text → Text → AkuaLock → Option ℕ
unfolding position list_beq
find_slot name version lock = position (has_key name version) lock.packages

-- A slot is one that `find_slot` gave, so the write is in range.
unfoldable pub upsert_at : Option ℕ → LockedPackage → AkuaLock → AkuaLock
upsert_at (some idx) entry lock = record lock { packages = set lock.packages idx entry }
upsert_at none entry lock = record lock { packages = lock.packages ++ (entry ∷ []) }

unfoldable pub upsert : LockedPackage → AkuaLock → AkuaLock
unfolding find_slot upsert_at
upsert entry lock = upsert_at (find_slot entry.name entry.version lock) entry lock
