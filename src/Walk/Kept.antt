-- ===== src/Walk/Kept.antt =====
-- What the walk collects: exactly the kept files that no skipped name leads to.
use mathlib.Core.List.{append_assoc}
use akua.Base.{
  ◌≡◌, refl, sym, ◌∙◌, subst, ◌↔◌, ◌⊎◌, inl, inr, Bool, true, false, List, [], ◌∷◌, ◌++◌, Result,
  ok, ◌>>=◌, >>=-eq-ok, arith, In, here, there, Bool-cases, push, nat_eq, list_eq, if◌then◌else◌,
}
use akua.Base.Orders.{nat_ord, list_ord}
use akua.Base.Sorting.{sort_by_key, sort_by_key-In, In-sort_by_key, IsSorted, sort_by_key-IsSorted}
use akua.Base.Texts.{Text}
use akua.Walk.{
  Tree, no_more, vanished, file, directory, other, untyped, unreadable, RelPath, should_skip_dir,
  walk, collect_files,
}

-- The tree has a kept file at the path, and no name on the way is skipped.
pub data IsKept {IoError : Type 0} (keep_file : Text → Bool) : RelPath → Tree IoError → Type 0 where
  this_file :
      {name : Text} {rest : Tree IoError}
      → should_skip_dir name ≡ false
      → keep_file name ≡ true
      → IsKept keep_file (name ∷ []) (file name rest)
  below :
      {name : Text} {p : RelPath} {inner rest : Tree IoError}
      → should_skip_dir name ≡ false
      → IsKept keep_file p inner
      → IsKept keep_file (name ∷ p) (directory name inner rest)
  after_file :
      {name : Text} {p : RelPath} {rest : Tree IoError}
      → IsKept keep_file p rest
      → IsKept keep_file p (file name rest)
  after_directory :
      {name : Text} {p : RelPath} {inner rest : Tree IoError}
      → IsKept keep_file p rest
      → IsKept keep_file p (directory name inner rest)
  after_other :
      {name : Text} {p : RelPath} {rest : Tree IoError}
      → IsKept keep_file p rest
      → IsKept keep_file p (other name rest)
  after_untyped :
      {name : Text} {p : RelPath} {e : IoError} {rest : Tree IoError}
      → IsKept keep_file p rest
      → IsKept keep_file p (untyped name e rest)

In-push : {q : RelPath} (xs : List RelPath) (x : RelPath) → In q (push xs x) → In q xs ⊎ (q ≡ x)
In-push [] x (here e) = inr e
In-push [] x (there i) = elim i [ ]
In-push (y ∷ ys) x (here e) = inl (here e)
In-push (y ∷ ys) x (there i) = elim (In-push ys x i) [ inl j ↦ inl (there j) | inr e ↦ inr e ]

push-old : {q : RelPath} (xs : List RelPath) (x : RelPath) → In q xs → In q (push xs x)
push-old [] x i = elim i [ ]
push-old (y ∷ ys) x (here e) = here e
push-old (y ∷ ys) x (there i) = there (push-old ys x i)

push-new : {q : RelPath} (xs : List RelPath) (x : RelPath) → q ≡ x → In q (push xs x)
push-new [] x e = here e
push-new (y ∷ ys) x e = there (push-new ys x e)

push-append : (dir : RelPath) (name : Text) (p : RelPath) → push dir name ++ p ≡ dir ++ (name ∷ p)
push-append dir name p = append_assoc dir (name ∷ []) p

same_list :
    {E : Type 0} {out found : List RelPath}
    → ◌≡◌ {A = Result E (List RelPath)} (ok out) (ok found)
    → found ≡ out
same_list h = cc

module _ {IoError : Type 0} (keep_file : Text → Bool) where
  -- A path below the directory, at which the tree has a kept file.
  abbrev Below : RelPath → Tree IoError → RelPath → Type 0
  Below dir t q = (p : RelPath) × IsKept keep_file p t × (q ≡ dir ++ p)

  later :
      (dir q : RelPath) (t u : Tree IoError) (out : List RelPath)
      → ((p : RelPath) → IsKept keep_file p t → IsKept keep_file p u)
      → In q out ⊎ Below dir t q
      → In q out ⊎ Below dir u q
  later dir q t u out f (inl i) = inl i
  later dir q t u out f (inr (p, k, e)) = inr (p, f p k, e)

  walk-sound :
      (dir : RelPath) (t : Tree IoError) (out : List RelPath) {found : List RelPath} {q : RelPath}
      → walk keep_file dir t out ≡ ok found
      → In q found
      → In q out ⊎ Below dir t q
  unfolding walk
  walk-sound dir no_more out {found} {q} h i = inl (subst (In q) (same_list h) i)
  walk-sound dir vanished out {found} {q} h i = inl (subst (In q) (same_list h) i)
  walk-sound dir (unreadable e) out h i = cc
  walk-sound dir (other name rest) out h i =
      later dir _ rest _ out (λ p k. after_other k) (walk-sound dir rest out h i)
  walk-sound dir (untyped name e rest) out h i = elim (Bool-cases (should_skip_dir name)) [
    | inl s ↦
        later dir _ rest _ out (λ p k. after_untyped k)
          (walk-sound dir rest out (sym (rw s refl) ∙ h) i)
    | inr s ↦ absurd (ground arith)
  ]
  walk-sound dir (file name rest) out h i = elim (Bool-cases (should_skip_dir name)) [
    | inl s ↦
        later dir _ rest _ out (λ p k. after_file k)
          (walk-sound dir rest out (sym (rw s refl) ∙ h) i)
    | inr s ↦ elim (Bool-cases (keep_file name)) [
      | inr k ↦
          later dir _ rest _ out (λ p m. after_file m)
            (walk-sound dir rest out (sym (rw (s, k) refl) ∙ h) i)
      | inl k ↦ elim (walk-sound dir rest (push out (push dir name)) (sym (rw (s, k) refl) ∙ h) i) [
        | inr (p, m, e) ↦ inr (p, after_file m, e)
        | inl j ↦ elim (In-push out (push dir name) j) [
          | inl o ↦ inl o
          | inr e ↦ inr (name ∷ [], this_file s k, e)
        ]
      ]
    ]
  ]
  walk-sound dir (directory name inner rest) out {found = last} h i =
      elim (Bool-cases (should_skip_dir name)) [
        | inl s ↦
            later dir _ rest _ out (λ p k. after_directory k)
              (walk-sound dir rest out (sym (rw s refl) ∙ h) i)
        | inr s ↦
            let opened : (walk keep_file (push dir name) inner out >>= λ found.
            walk keep_file dir rest found)
                ≡ ok last =
              sym (rw s refl) ∙ h in
            let (found, first, next) =
              >>=-eq-ok (walk keep_file (push dir name) inner out) _ opened in
            elim (walk-sound dir rest found next i) [
              | inr (p, m, e) ↦ inr (p, after_directory m, e)
              | inl j ↦ elim (walk-sound (push dir name) inner out first j) [
                | inl o ↦ inl o
                | inr (p, m, e) ↦ inr (name ∷ p, below s m, e ∙ push-append dir name p)
              ]
            ]
      ]

  walk-old :
      (dir : RelPath) (t : Tree IoError) (out : List RelPath) {found : List RelPath} {q : RelPath}
      → walk keep_file dir t out ≡ ok found
      → In q out
      → In q found
  unfolding walk
  walk-old dir no_more out {found} {q} h i = subst (In q) (sym (same_list h)) i
  walk-old dir vanished out {found} {q} h i = subst (In q) (sym (same_list h)) i
  walk-old dir (unreadable e) out h i = cc
  walk-old dir (other name rest) out h i = walk-old dir rest out h i
  walk-old dir (untyped name e rest) out h i = elim (Bool-cases (should_skip_dir name)) [
    | inl s ↦ walk-old dir rest out (sym (rw s refl) ∙ h) i
    | inr s ↦ absurd (ground arith)
  ]
  walk-old dir (file name rest) out h i = elim (Bool-cases (should_skip_dir name)) [
    | inl s ↦ walk-old dir rest out (sym (rw s refl) ∙ h) i
    | inr s ↦ elim (Bool-cases (keep_file name)) [
      | inr k ↦ walk-old dir rest out (sym (rw (s, k) refl) ∙ h) i
      | inl k ↦
          walk-old dir rest (push out (push dir name)) (sym (rw (s, k) refl) ∙ h)
            (push-old out (push dir name) i)
    ]
  ]
  walk-old dir (directory name inner rest) out {found = last} h i =
      elim (Bool-cases (should_skip_dir name)) [
        | inl s ↦ walk-old dir rest out (sym (rw s refl) ∙ h) i
        | inr s ↦
            let opened : (walk keep_file (push dir name) inner out >>= λ found.
            walk keep_file dir rest found)
                ≡ ok last =
              sym (rw s refl) ∙ h in
            let (found, first, next) =
              >>=-eq-ok (walk keep_file (push dir name) inner out) _ opened in
            walk-old dir rest found next (walk-old (push dir name) inner out first i)
      ]

  walk-complete :
      (dir : RelPath) (t : Tree IoError) (out : List RelPath) {found : List RelPath} {p : RelPath}
      → walk keep_file dir t out ≡ ok found
      → IsKept keep_file p t
      → In (dir ++ p) found
  unfolding walk
  walk-complete dir no_more out h m = elim m [ ]
  walk-complete dir vanished out h m = elim m [ ]
  walk-complete dir (unreadable _) out h m = elim m [ ]
  walk-complete dir (file name rest) out {found = last} h (this_file s k) =
      walk-old dir rest (push out (push dir name)) (sym (rw (s, k) refl) ∙ h)
        (push-new out (push dir name) refl)
  walk-complete dir (file name rest) out h (after_file m) =
      elim (Bool-cases (should_skip_dir name)) [
        | inl s ↦ walk-complete dir rest out (sym (rw s refl) ∙ h) m
        | inr s ↦
            walk-complete dir rest (if keep_file name then push out (push dir name) else out)
              (sym (rw s refl) ∙ h) m
      ]
  walk-complete dir (directory name inner rest) out {found = last} {p = q} h (below {p} s m) =
      let opened : (walk keep_file (push dir name) inner out >>= λ found.
      walk keep_file dir rest found)
          ≡ ok last =
        sym (rw s refl) ∙ h in
      let (found, first, next) = >>=-eq-ok (walk keep_file (push dir name) inner out) _ opened in
      walk-old dir rest found next (
        subst (λ r. In r found) (push-append dir name p)
          (walk-complete (push dir name) inner out first m))
  walk-complete dir (directory name inner rest) out {found = last} h (after_directory m) =
      elim (Bool-cases (should_skip_dir name)) [
        | inl s ↦ walk-complete dir rest out (sym (rw s refl) ∙ h) m
        | inr s ↦
            let opened : (walk keep_file (push dir name) inner out >>= λ found.
            walk keep_file dir rest found)
                ≡ ok last =
              sym (rw s refl) ∙ h in
            let (found, first, next) =
              >>=-eq-ok (walk keep_file (push dir name) inner out) _ opened in
            walk-complete dir rest found next m
      ]
  walk-complete dir (other name rest) out h (after_other m) = walk-complete dir rest out h m
  walk-complete dir (untyped name e rest) out h (after_untyped m) =
      elim (Bool-cases (should_skip_dir name)) [
        | inl s ↦ walk-complete dir rest out (sym (rw s refl) ∙ h) m
        | inr s ↦ absurd (ground arith)
      ]

  -- Where the walk succeeds, what it collects is exactly the files that are kept and that no skipped name leads
  -- to, their own names among them, and it is in order.
  pub collect_files-IsKept :
      (root : Tree IoError) {found : List RelPath}
      → collect_files keep_file root ≡ ok found
      → ((p : RelPath) → In p found ↔ IsKept keep_file p root) × IsSorted (λ (p : RelPath). p) found
  unfolding collect_files
  collect_files-IsKept root {found} h =
      let (out, walked, last) = >>=-eq-ok (walk keep_file [] root []) _ h in
      let same : found ≡ sort_by_key (λ (p : RelPath). p) out = same_list last in
      (
        λ p. (
          (λ i.
              elim (walk-sound [] root [] walked
                (In-sort_by_key (λ (r : RelPath). r) out (subst (In p) same i))) [
                  | inl none_yet ↦ elim none_yet [ ]
                  | inr (q, k, e) ↦ subst (λ r. IsKept keep_file r root) (sym e) k
                ]),
          (λ k.
              subst (In p) (sym same)
                (sort_by_key-In (λ (r : RelPath). r) out (walk-complete [] root [] walked k))),
        ),
        subst (IsSorted (λ (p : RelPath). p)) (sym same)
            (sort_by_key-IsSorted (λ (p : RelPath). p) out),
      )
