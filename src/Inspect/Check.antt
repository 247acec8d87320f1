-- ===== src/Inspect/Check.antt =====
-- crates/akua-core/src/check.rs: `akua check`. The KCL linter and `Display` of the errors are arguments.
use akua.Base.{
  ℕ, ◌≡◌, refl, ◌↔◌, Bool, true, false, ◌&&◌, Option, none, some, List, [], ◌∷◌, ◌++◌, Result, ok,
  err, all, length, push, arith, if◌then◌else◌,
}
use akua.Base.Texts.{Text, codes}
use akua.Lock.{AkuaLock, LockError}
use akua.Lock.Files.{parse_lock}
use akua.Manifest.{AkuaManifest, ManifestError}
use akua.Manifest.Load.{parse_manifest}

pub record CheckResult (LintIssue : Type 0) : Type 0 where
  pub name : Text
  pub passed : Bool
  pub error : Option Text
  pub issues : List LintIssue

pub record CheckOutput (LintIssue : Type 0) : Type 0 where
  pub status : Text
  pub checks : List (CheckResult LintIssue)

-- What the command calls. `lint` is `lint_kcl_source`, of a file name and a source.
pub record Gates (TomlError LintError LintIssue : Type 0) : Type 0 where
  pub manifest_from_str : Text → Result TomlError AkuaManifest
  pub lock_from_str : Text → Result TomlError AkuaLock
  pub lint : Text → Text → Result LintError (List LintIssue)
  pub manifest_text : ManifestError TomlError → Text
  pub lock_text : LockError TomlError → Text
  pub lint_text : LintError → Text
  pub decimal : ℕ → Text

module _ {TomlError LintError LintIssue : Type 0}
    (gates : Gates TomlError LintError LintIssue) where
  ok_check : Text → CheckResult LintIssue
  ok_check name = record { name = name; passed = true; error = none; issues = [] }

  fail_check : Text → Text → CheckResult LintIssue
  fail_check name error = record { name = name; passed = false; error = some error; issues = [] }

  parsed : {E A : Type 0} → Text → (E → Text) → Result E A → CheckResult LintIssue
  unfolding ok_check fail_check
  parsed name text (ok _) = ok_check name
  parsed name text (err e) = fail_check name (text e)

  unfoldable pub check_manifest : Text → CheckResult LintIssue
  unfolding parse_manifest parsed
  check_manifest toml =
      parsed (codes "manifest") gates.manifest_text (parse_manifest gates.manifest_from_str toml)

  unfoldable pub check_lockfile : Text → CheckResult LintIssue
  unfolding parse_lock parsed
  check_lockfile toml =
      parsed (codes "lockfile") gates.lock_text (parse_lock gates.lock_from_str toml)

  linted : Result LintError (List LintIssue) → CheckResult LintIssue
  unfolding ok_check fail_check
  linted (ok []) = ok_check (codes "package")
  linted (ok (i ∷ is)) = record {
    name = codes "package";
    passed = false;
    error = some (gates.decimal (length (i ∷ is)) ++ codes " lint issue(s)");
    issues = i ∷ is;
  }
  linted (err e) = fail_check (codes "package") (gates.lint_text e)

  unfoldable pub check_package : Text × Text → CheckResult LintIssue
  unfolding linted
  check_package (filename, source) = linted (gates.lint filename source)

  push_check :
      {A : Type 0}
      → (A → CheckResult LintIssue)
      → Option A
      → List (CheckResult LintIssue)
      → List (CheckResult LintIssue)
  push_check run none checks = checks
  push_check run (some a) checks = push checks (run a)

  unfoldable pub check_from_sources :
      Option Text → Option Text → Option (Text × Text) → CheckOutput LintIssue
  unfolding check_manifest check_lockfile check_package push_check all
  check_from_sources manifest lock pkg =
      let checks =
        push_check check_package pkg
          (push_check check_lockfile lock (push_check check_manifest manifest [])) in
      record {
        status =
            if all (λ (c : CheckResult LintIssue). c.passed) checks
            then codes "ok"
            else codes "fail";
        checks = checks;
      }

  -- A source that is given passes its gate.
  abbrev pub Passes : {A : Type 0} → (A → Type 0) → Option A → Type 0
  Passes P none = Unit
  Passes P (some a) = P a

  parsed-passes :
      {E A : Type 0} (name : Text) (text : E → Text) (r : Result E A)
      → ((parsed name text r).passed ≡ true) ↔ ((a : A) × (r ≡ ok a))
  unfolding parsed ok_check fail_check
  parsed-passes name text (ok a) = ((λ h. (a, refl)), (λ h. refl))
  parsed-passes name text (err e) = ((λ h. cc), (λ (a, h). cc))

  linted-passes : (r : Result LintError (List LintIssue)) → ((linted r).passed ≡ true) ↔ (r ≡ ok [])
  unfolding linted ok_check fail_check
  linted-passes (ok []) = ((λ h. refl), (λ h. refl))
  linted-passes (ok (i ∷ is)) = ((λ h. cc), (λ h. cc))
  linted-passes (err e) = ((λ h. cc), (λ h. cc))

  all-push :
      (p : CheckResult LintIssue → Bool) (xs : List (CheckResult LintIssue))
      (x : CheckResult LintIssue)
      → all p (push xs x) ≡ (all p xs && p x)
  unfolding all
  all-push p [] x = ground arith
  all-push p (y ∷ ys) x = ground (arith, all-push p ys x)

  push_check-all :
      {A : Type 0} (run : A → CheckResult LintIssue) (P : A → Type 0)
      → ((a : A) → ((run a).passed ≡ true) ↔ P a)
      → (o : Option A) (checks : List (CheckResult LintIssue))
      → (all (λ c. c.passed) (push_check run o checks) ≡ true)
        ↔ ((all (λ c. c.passed) checks ≡ true) × Passes P o)
  unfolding push_check
  push_check-all run P each none checks = ((λ h. (h, tt)), (λ h. h.0))
  push_check-all run P each (some a) checks =
      let split = all-push (λ c. c.passed) checks (run a) in
      (
        (λ h. (ground arith, (each a).0 (ground arith))),
        (λ h. let passed = (each a).1 h.1 in ground arith),
      )

  status-ok :
      (b : Bool)
      → (◌≡◌ {A = Text} (if b then codes "ok" else codes "fail") (codes "ok")) ↔ (b ≡ true)
  status-ok true = ((λ h. refl), (λ h. refl))
  status-ok false = ((λ h. cc), (λ h. cc))

  -- The status is `ok` exactly where the manifest that is given parses, the lock that is given parses, and the
  -- linter finds nothing in the package that is given.
  pub check_from_sources_iff :
      (manifest lock : Option Text) (pkg : Option (Text × Text))
      → ((check_from_sources manifest lock pkg).status ≡ codes "ok") ↔ (
          Passes
            (λ s. (m : AkuaManifest) × (parse_manifest gates.manifest_from_str s ≡ ok m))
            manifest
          × Passes (λ s. (l : AkuaLock) × (parse_lock gates.lock_from_str s ≡ ok l)) lock
          × Passes (λ (f : Text × Text). gates.lint f.0 f.1 ≡ ok []) pkg)
  unfolding check_from_sources check_manifest check_lockfile check_package all
  check_from_sources_iff manifest lock pkg =
      let first =
        push_check-all check_manifest
          (λ s. (m : AkuaManifest) × (parse_manifest gates.manifest_from_str s ≡ ok m))
          (λ s.
            parsed-passes (codes "manifest") gates.manifest_text
              (parse_manifest gates.manifest_from_str s))
          manifest [] in
      let second =
        push_check-all check_lockfile
          (λ s. (l : AkuaLock) × (parse_lock gates.lock_from_str s ≡ ok l))
          (λ s. parsed-passes (codes "lockfile") gates.lock_text (parse_lock gates.lock_from_str s))
          lock (push_check check_manifest manifest []) in
      let third =
        push_check-all check_package (λ (f : Text × Text). gates.lint f.0 f.1 ≡ ok [])
          (λ (f : Text × Text). linted-passes (gates.lint f.0 f.1)) pkg
          (push_check check_lockfile lock (push_check check_manifest manifest [])) in
      let status = status-ok (
        all (λ (c : CheckResult LintIssue). c.passed)
          (push_check check_package pkg
            (push_check check_lockfile lock (push_check check_manifest manifest [])))) in
      (
        (λ h.
            let (rest, c) = third.0 (status.0 h) in
            let (one, b) = second.0 rest in ((first.0 one).1, b, c)),
        (λ h. status.1 (third.1 (second.1 (first.1 (refl, h.0), h.1), h.2))),
      )
