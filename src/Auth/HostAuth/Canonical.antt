-- ===== src/Auth/HostAuth/Canonical.antt =====
-- `canonicalize_url` and `strip_userinfo` leave no credentials in a URL.
use mathlib.Core.List.{append_assoc, append-nil}
use akua.Base.{
  append_laws, ℕ, suc, ◌≡◌, refl, sym, ap, ◌∙◌, ◌⊎◌, inl, inr, false, none, some, [], ◌∷◌, ◌++◌,
  length, drop, arith, Option-cases, nat_eq,
}
use akua.Base.Texts.{
  Text, codes, strip_prefix, contains_char, split_once, rsplit_once, split_once_text, before,
  trim_end_matches, strip_suffix,
}
use akua.Base.Texts.Laws.{
  before-prefix, before-append, rsplit_once-eq-some, rsplit_once-eq-none, contains_char-append,
  split_once-eq-some, split_once-eq-none, trim_end_matches-prefix, strip_suffix-eq-some, from,
  before-append-from, before-from, before-of_prefix, strip_prefix→append,
}
use akua.Auth.HostAuth.{
  strip_scheme, strip_userinfo, url_has_userinfo, canonical_authority, split_path, tidy,
  canonicalize_url,
}

drop-suc-append : (a s : Text) (c : ℕ) → drop (suc (length a)) (a ++ (c ∷ s)) ≡ s
drop-suc-append [] s c = refl
drop-suc-append (x ∷ a) s c = drop-suc-append a s c

-- A text without `/`, with a path behind it, stands before the first `/`.
before-append-from_path :
    (b s : Text) → contains_char b'/' b ≡ false → before b'/' (b ++ from b'/' s) ≡ b
before-append-from_path b s h =
    before-append b'/' b (from b'/' s) h ∙ ap (◌++◌ b) (before-from b'/' s) ∙ append-nil b

cut_user :
    (s a b : Text)
    → before b'/' s ≡ a ++ (b'@' ∷ b)
    → contains_char b'@' b ≡ false
    → contains_char b'@' (before b'/' (drop (suc (length a)) s)) ≡ false
unfolding contains_char
cut_user s a b e f =
    let parts : s ≡ a ++ (b'@' ∷ (b ++ from b'/' s)) =
      before-append-from b'/' s
      ∙ ap (λ t. t ++ from b'/' s) e
      ∙ append_assoc a (b'@' ∷ b) (from b'/' s) in
    let no_slash : contains_char b'/' b ≡ false = ground (
      arith,
      before-prefix b'/' s,
      ap (contains_char b'/') e,
      contains_char-append b'/' a (b'@' ∷ b),
    ) in
    ap (λ t. contains_char b'@' (before b'/' t))
      (ap (drop (suc (length a))) parts ∙ drop-suc-append a (b ++ from b'/' s) b'@')
    ∙ ap (contains_char b'@') (before-append-from_path b s no_slash)
    ∙ f

-- The authority that is left names no user.
pub strip_userinfo-no_user :
    (s : Text) → contains_char b'@' (before b'/' (strip_userinfo s)) ≡ false
unfolding strip_userinfo
strip_userinfo-no_user s = elim (Option-cases (rsplit_once b'@' (before b'/' s))) [
  | inl e ↦ rw (e, strip_userinfo) (rsplit_once-eq-none b'@' (before b'/' s) e)
  | inr ((a, b), e) ↦
      let (parts, none_left) = rsplit_once-eq-some b'@' (before b'/' s) a b e in
      rw (e, strip_userinfo) (cut_user s a b parts none_left)
]

split_path-authority : (s : Text) → (split_path s).0 ≡ before b'/' s
unfolding split_path before
split_path-authority s = elim (Option-cases (split_once b'/' s)) [
  | inl e ↦ rw (e, split_path) (sym (before_id s ((split_once-eq-none b'/' s).0 e)))
  | inr ((a, p), e) ↦
      let (parts, none_left) = (split_once-eq-some b'/' s a p).0 e in
      rw (e, split_path)
        (sym (ap (before b'/') parts ∙ before-append b'/' a (b'/' ∷ p) none_left ∙ append-nil a))
]
  where
    before_id : (s : Text) → contains_char b'/' s ≡ false → before b'/' s ≡ s
    before_id s h = ap (before b'/') (sym (append-nil s)) ∙ before-append b'/' s [] h ∙ append-nil s

split_path-path : (s : Text) → before b'/' (split_path s).1 ≡ []
unfolding split_path before
split_path-path s = ground arith

canonical_authority-contains :
    (c : ℕ) (scheme a : Text)
    → contains_char c a ≡ false
    → contains_char c (canonical_authority scheme a) ≡ false
unfolding canonical_authority
canonical_authority-contains c scheme a h = elim (Option-cases (rsplit_once b':' a)) [
  | inl e ↦ rw (e, canonical_authority) h
  | inr ((host, port), e) ↦
      let (parts, _) = rsplit_once-eq-some b':' a host port e in
      rw (e, canonical_authority)
        (ground (arith, ap (contains_char c) parts, contains_char-append c host (b':' ∷ port)))
]

-- In a prefix of `scheme://rest` whose scheme has no `@`, none stands before the first `/`.
before-of_scheme :
    (scheme rest q z : Text)
    → contains_char b'@' scheme ≡ false
    → q ++ z ≡ scheme ++ (codes "://" ++ rest)
    → contains_char b'@' (before b'/' q) ≡ false
unfolding contains_char before
before-of_scheme scheme rest [] z h e = refl
before-of_scheme [] rest (c ∷ []) z h e = ground arith
before-of_scheme [] rest (c ∷ d ∷ q) z h e = ground arith
before-of_scheme (d ∷ s) rest (x ∷ q) z h e = ground (arith, before-of_scheme s rest q z)

before-of_scheme_tail :
    (s rest r z : Text)
    → contains_char b'@' s ≡ false
    → codes "//" ++ (r ++ z) ≡ s ++ (codes "://" ++ rest)
    → contains_char b'@' (before b'/' r) ≡ false
unfolding contains_char
before-of_scheme_tail [] rest r z h e = ground arith
before-of_scheme_tail (a ∷ []) rest r z h e = ground arith
before-of_scheme_tail (a ∷ b ∷ s) rest r z h e =
    before-of_scheme s rest r z (ground arith) (ground arith)

strip_scheme_at :
    (x : ℕ) (q r : Text) → strip_prefix (x ∷ q) (codes "://") ≡ some r → strip_scheme (x ∷ q) ≡ r
unfolding strip_scheme
strip_scheme_at x q r h = rw (h, strip_scheme, split_once_text)

strip_scheme_past :
    (x : ℕ) (q : Text)
    → strip_prefix (x ∷ q) (codes "://") ≡ none
    → (strip_scheme (x ∷ q) ≡ x ∷ q) ⊎ (strip_scheme (x ∷ q) ≡ strip_scheme q)
unfolding strip_scheme
strip_scheme_past x q h = elim (Option-cases (split_once_text (codes "://") q)) [
  | inl e ↦ inl (ground arith)
  | inr ((a, b), e) ↦ inr (ground arith)
]

scheme_step :
    (d : ℕ) (s rest : Text) (x : ℕ) (q z : Text)
    → contains_char b'@' (d ∷ s) ≡ false
    → (x ∷ q) ++ z ≡ (d ∷ s) ++ (codes "://" ++ rest)
    → contains_char b'@' (before b'/' (strip_scheme q)) ≡ false
    → contains_char b'@' (before b'/' (strip_scheme (x ∷ q))) ≡ false
unfolding contains_char
scheme_step d s rest x q z h e ih = elim (Option-cases (strip_prefix (x ∷ q) (codes "://"))) [
  | inr (r, f) ↦
      let parts = strip_prefix→append (x ∷ q) (codes "://") r f in
      rw (strip_scheme_at x q r f) (before-of_scheme_tail s rest r z (ground arith) (ground arith))
  | inl f ↦ elim (strip_scheme_past x q f) [
    | inl g ↦ rw g (before-of_scheme (d ∷ s) rest (x ∷ q) z h e)
    | inr g ↦ rw g ih
  ]
]

-- The same behind the scheme, where the text is cut at its first `://`.
strip_scheme-of_prefix :
    (scheme rest q z : Text)
    → contains_char b'@' scheme ≡ false
    → contains_char b'@' (before b'/' rest) ≡ false
    → q ++ z ≡ scheme ++ (codes "://" ++ rest)
    → contains_char b'@' (before b'/' (strip_scheme q)) ≡ false
unfolding strip_scheme split_once_text strip_prefix contains_char before
strip_scheme-of_prefix scheme rest [] z h k e = refl
strip_scheme-of_prefix [] rest (c ∷ []) z h k e = ground arith
strip_scheme-of_prefix [] rest (c ∷ d ∷ []) z h k e = ground arith
strip_scheme-of_prefix [] rest (c ∷ d ∷ x ∷ q) z h k e =
    ground (arith, before-of_prefix b'/' b'@' q z)
strip_scheme-of_prefix (d ∷ s) rest (x ∷ q) z h k e =
    scheme_step d s rest x q z h e
      (strip_scheme-of_prefix s rest q z (ground arith) k (ground arith))

tidy-prefix : (t : Text) → (z : Text) × (t ≡ tidy t ++ z)
unfolding tidy
tidy-prefix t =
    let (z, e) = trim_end_matches-prefix b'/' t in
    elim (Option-cases (strip_suffix (codes ".git") (trim_end_matches b'/' t))) [
      | inl f ↦
          let (y, g) = trim_end_matches-prefix b'/' (trim_end_matches b'/' t) in
          (y ++ z, e ∙ ap (λ u. u ++ z) g ∙ append_assoc _ y z ∙ rw (f, tidy))
      | inr (stem, f) ↦
          let (y, g) = trim_end_matches-prefix b'/' stem in
          let cut = strip_suffix-eq-some (codes ".git") (trim_end_matches b'/' t) stem f in
          (
            y ++ (codes ".git" ++ z),
            e
                ∙ ap (λ u. u ++ z) (cut ∙ ap (λ u. u ++ codes ".git") g)
                ∙ regroup _ y z
                ∙ rw (f, tidy),
          )
    ]
  where
    regroup : (u y z : Text) → ((u ++ y) ++ codes ".git") ++ z ≡ u ++ (y ++ (codes ".git" ++ z))
    regroup u y z = simp append_laws

host_no_user :
    (after scheme : Text)
    → let s = split_path (strip_userinfo after) in
      contains_char b'@' (before b'/' (canonical_authority scheme s.0 ++ s.1)) ≡ false
host_no_user after scheme =
    let s = strip_userinfo after in
    let authority = split_path-authority s in
    let host = canonical_authority scheme (split_path s).0 in
    let no_slash =
      canonical_authority-contains b'/' scheme (split_path s).0
        (rw authority (before-prefix b'/' s)) in
    let no_user =
      canonical_authority-contains b'@' scheme (split_path s).0
        (rw authority (strip_userinfo-no_user after)) in
    rw (before-append b'/' host (split_path s).1 no_slash, split_path-path, append-nil) no_user

-- A canonical URL names no user, whatever the URL was, if its scheme has no `@`.
pub canonicalize_url-no_user :
    (url scheme after_scheme : Text)
    → split_once_text (codes "://") url ≡ some (scheme, after_scheme)
    → contains_char b'@' scheme ≡ false
    → url_has_userinfo (canonicalize_url url) ≡ false
unfolding canonicalize_url url_has_userinfo
canonicalize_url-no_user url scheme after h k =
    let (authority, path) = split_path (strip_userinfo after) in
    let host = canonical_authority scheme authority in
    let (z, e) = tidy-prefix (scheme ++ (codes "://" ++ (host ++ path))) in
    rw (h, canonicalize_url)
      (strip_scheme-of_prefix scheme (host ++ path) _ z k (host_no_user after scheme) (sym e))
