-- ===== src/Lib.antt =====
-- akua: a package manager and renderer for Kubernetes packages written in KCL. A package has a manifest,
-- `akua.toml`, that a person edits; its dependencies are resolved, and what they resolved to is recorded
-- in `akua.lock`. Credentials for the hosts that are asked come from flags and files, and the command
-- line tells an agent from a person before it decides how to print.
--
-- The parts and the code that they follow:
--   Base      numbers, lists, orders, stable sorting, maps and byte strings, as the code uses them
--   Contract  crates/akua-core/src/cli_contract (Exit: exit.rs, Errors: error.rs and codes.rs,
--             Agent: agent.rs) and crates/akuapkg-cli/src/contract (Context: args.rs and context.rs)
--   Auth      HostAuth: crates/akua-core/src/host_auth.rs; AuthParse: crates/akuapkg-cli/src/auth_parse.rs
--   Manifest  crates/akua-core/src/mod_file.rs: the data and its checks; Names for identifiers and package
--             names, Validate for what the checks establish, Load for reading from disk
--   Lock      crates/akua-core/src/lock_file.rs: the data and its operations; Order for validation and
--             sorting, Entries for the lock as a map, Files for reading and writing
--   Resolver  crates/akua-core/src/chart_resolver.rs: what a dependency resolves to; Locking and Merging for
--             how that enters the lock, Overrides for `replace`, Digest for the hash of a directory,
--             Workspace for the paths that are allowed (with `detect_kind` of oci_fetcher.rs), Fetching for
--             the cache or the fetch that a source takes, Resolution for the loop over a manifest's
--             dependencies and for the vendor directory. The code is that of a build with every fetcher.
--   Vendor    crates/akua-core/src/vendor.rs: the vendor directory; Sources for where a dependency's bytes come
--             from, Inventory for what is expected and what is there, Drift for `check`, Adding for `add`,
--             Copying for `copy_tree`
--   Diff      crates/akua-core/src/dir_diff.rs: what changed between two directories
--   Walk      crates/akua-core/src/walk.rs: the files of a workspace
--   Cache     crates/akua-core/src/cache_inventory.rs: the inventory of the caches; Operations for `list` and
--             `clear`, Sizes and Freed for what they add up to
--   Oci       crates/akua-core/src/oci_transport.rs: Reference for `parse_ref`, Transport for challenges and
--             bodies, Requests for the exchange with a registry; and oci_auth.rs: Store for what both files
--             have, Editing for changes of auth.toml, Listing for `list_sources`
--   Signing   crates/akua-core/src/cosign.rs: the encoding of an envelope (Encoding) and its verification
--             (Signed); slsa.rs: the statement about what was published
--   Inspect   crates/akua-core/src/tree.rs (Tree), check.rs (Check) and duration_parse.rs (Duration)
-- Definitions have the names of the functions that they follow, with the method's type in a comment where
-- the name alone does not tell. The manifest's checks use `url_has_userinfo` of the credentials; the
-- resolver takes the manifest's typed view of a dependency, makes URLs canonical with the credentials'
-- code and writes into the lock; manifest and lock turn their errors into those of Contract. The vendor
-- module reads the manifest and the lock, checks paths and hashes directories with the resolver's code, and
-- writes the lock with the resolver's `upsert_locked_from_source`.
--
-- Representation. Text is the list of its UTF-8 bytes. A `BTreeMap` is an association list sorted by its
-- keys, a `HashMap` is one in some order of iteration. Records have the structs' fields; updates in place
-- give a new value. `Option` with `none` is also the result of code that panics, where a comment says so; `Run`, in
-- Base/Runs, has a result, an error and a panic.
-- Every loop but one is structural recursion. `copy_tree` lists a directory when it enters it, and may find
-- there what it has just made: it has a bound on its depth, the longest path and one, which is enough since
-- every directory makes the path longer, and the operating system refuses a path that is too long. `sort_by_key` is insertion from the right,
-- which is stable as the standard library's is.
--
-- Arguments and not definitions are the TOML library (decoding and encoding), the file system's reads and
-- writes, SHA-256, the HTTP client, base64, JSON, ECDSA, the fetchers with their caches and the network, the environment's variables, and the
-- texts that an error type's `Display` gives. What the code relies on of them is a hypothesis of the
-- theorem that needs it.
--
-- Not modelled: base64 and JSON output, the fetchers themselves, signing, the scan of imports, the KCL, Helm and Kustomize engines, and the verbs of the command line.
pub mod Base
pub mod Contract
pub mod Auth
pub mod Manifest
pub mod Lock
pub mod Resolver
pub mod Vendor
pub mod Diff
pub mod Walk
pub mod Inspect
pub mod Cache
pub mod Oci
pub mod Signing
