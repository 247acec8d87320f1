-- ===== src/Auth/HostAuth/Repeated.antt =====
-- `canonicalize_url` applied to its own result.
use mathlib.Core.List.{append_assoc, append-nil}
use akua.Base.{
  append_laws, ◌≡◌, refl, sym, ap, ◌∙◌, ◌≢◌, false, ◌∷◌, ◌++◌, length, length-append, arith, nat_eq,
}
use akua.Base.Texts.{Text, codes, contains_char, before, trim_end_matches}
use akua.Base.Texts.Laws.{
  before-append, split_once-eq-some, split_once_text_scheme, rsplit_once_absent,
  trim_end_matches_kept, length-trim_end_matches-le, strip_suffix-append,
}
use akua.Auth.HostAuth.{strip_userinfo, canonical_authority, split_path, tidy, canonicalize_url}

abbrev pub at_path : Text → Text → Text → Text
at_path scheme host path = scheme ++ (codes "://" ++ (host ++ (b'/' ∷ path)))

module _ (scheme host : Text) (plain_scheme : contains_char b':' scheme ≡ false)
    (no_user : contains_char b'@' host ≡ false) (no_port : contains_char b':' host ≡ false)
    (no_slash : contains_char b'/' host ≡ false) where
  strip_userinfo_plain :
      (path : Text) → strip_userinfo (host ++ (b'/' ∷ path)) ≡ host ++ (b'/' ∷ path)
  unfolding before strip_userinfo
  strip_userinfo_plain path = rw (
    before-append b'/' host (b'/' ∷ path) no_slash ∙ append-nil host,
    rsplit_once_absent b'@' host no_user,
    strip_userinfo,
  )

  split_path_plain : (path : Text) → split_path (host ++ (b'/' ∷ path)) ≡ (host, b'/' ∷ path)
  unfolding split_path
  split_path_plain path =
      rw
        ((split_once-eq-some b'/' (host ++ (b'/' ∷ path)) host path).1 (refl, no_slash), split_path)

  canonical_authority_plain : canonical_authority scheme host ≡ host
  unfolding canonical_authority
  canonical_authority_plain = rw (rsplit_once_absent b':' host no_port, canonical_authority)

  -- A URL with a plain host is only tidied.
  canonicalize_url_plain :
      (path : Text) → canonicalize_url (at_path scheme host path) ≡ tidy (at_path scheme host path)
  unfolding canonicalize_url
  canonicalize_url_plain path =
      rw (split_once_text_scheme scheme (host ++ (b'/' ∷ path)) plain_scheme, canonicalize_url)
        (rw strip_userinfo_plain (rw split_path_plain (rw canonical_authority_plain)))

tidy_kept : (u : Text) → trim_end_matches b'/' (u ++ codes ".git") ≡ u ++ codes ".git"
tidy_kept u =
    ap (trim_end_matches b'/') (sym (append_assoc u (codes ".gi") (codes "t")))
    ∙ trim_end_matches_kept b'/' b't' (u ++ codes ".gi") (omega arith)
    ∙ append_assoc u (codes ".gi") (codes "t")

tidy_git : (u : Text) → tidy (u ++ codes ".git") ≡ trim_end_matches b'/' u
unfolding tidy
tidy_git u = rw (tidy_kept u, strip_suffix-append u (codes ".git"), tidy)

module _ (scheme host : Text) (plain_scheme : contains_char b':' scheme ≡ false)
    (no_user : contains_char b'@' host ≡ false) (no_port : contains_char b':' host ≡ false)
    (no_slash : contains_char b'/' host ≡ false) where
  -- One `.git` goes.
  canonicalize_url-git :
      (p : Text)
      → canonicalize_url (at_path scheme host (p ++ codes ".git"))
        ≡ trim_end_matches b'/' (at_path scheme host p)
  canonicalize_url-git p =
      canonicalize_url_plain scheme host plain_scheme no_user no_port no_slash (p ++ codes ".git")
      ∙ ap tidy (simp append_laws)
      ∙ tidy_git (at_path scheme host p)

  canonicalize_url-git_git :
      (p : Text)
      → canonicalize_url (at_path scheme host ((p ++ codes ".git") ++ codes ".git"))
        ≡ at_path scheme host (p ++ codes ".git")
  canonicalize_url-git_git p =
      canonicalize_url-git (p ++ codes ".git")
      ∙ ap (trim_end_matches b'/') (simp append_laws)
      ∙ tidy_kept (at_path scheme host p)
      ∙ simp append_laws

  -- `canonicalize_url` is not idempotent: where a URL has a plain scheme and host (no port, no user)
  -- and its path ends in `.git.git`, its canonical form changes when it is made canonical again.
  canonicalize_url_repeats :
      (p : Text)
      → let once = canonicalize_url (at_path scheme host ((p ++ codes ".git") ++ codes ".git")) in
        canonicalize_url once ≢ once
  canonicalize_url_repeats p same =
      let once = canonicalize_url-git_git p in
      let twice = canonicalize_url-git p in
      let e : trim_end_matches b'/' (at_path scheme host p)
          ≡ at_path scheme host p ++ codes ".git" =
        sym twice ∙ ap canonicalize_url (sym once) ∙ same ∙ once ∙ simp append_laws in
      absurd (
        omega (
          arith,
          ap length e,
          length-append (at_path scheme host p) (codes ".git"),
          length-trim_end_matches-le b'/' (at_path scheme host p),
        ))
