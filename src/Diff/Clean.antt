-- ===== src/Diff/Clean.antt =====
-- `diff_manifests` returns a diff, which is clean exactly where the two sides are the same map.
use akua.Base.{
  ◌≡◌, refl, sym, ap, ◌∙◌, ◌≢◌, ◌↔◌, ◌⊎◌, inl, inr, true, false, Option, none, some, List, [], ◌∷◌,
  ◌++◌, arith, All, All-In, Bool-cases, Option-cases, push, is_empty, nat_eq, list_eq, list_beq_iff,
  ◌==◌,
}
use akua.Base.Maps.{Map, get}
use akua.Base.Orders.{nat_ord, list_ord}
use akua.Base.Runs.{returns}
use akua.Base.Texts.{Text, codes}
use akua.Diff.{
  RelPath, DirDiff, is_clean, compare_hashes, classify, classify_all, all_keys, no_diff,
  diff_manifests,
}
use akua.Diff.Keys.{IsKey, all_keys-IsKey, before-all_keys, after-all_keys}

is_empty-push {ℓ} : {A : Type ℓ} (xs : List A) (x : A) → is_empty (push xs x) ≡ false
is_empty-push [] x = refl
is_empty-push (y ∷ ys) x = refl

All-every : {P : RelPath → Type 0} → ((k : RelPath) → P k) → (ks : List RelPath) → All P ks
All-every f [] = tt
All-every f (k ∷ ks) = (f k, All-every f ks)

agree_everywhere :
    (before after : Map RelPath Text)
    → All (λ k. get k before ≡ get k after) (all_keys before after)
    → (k : RelPath) → get k before ≡ get k after
agree_everywhere before after a k = elim (Option-cases (get k before)) [
  | inr (v, h) ↦
      All-In (λ j. get j before ≡ get j after) (all_keys before after) a
        (before-all_keys before after k h)
  | inl n ↦ elim (Option-cases (get k after)) [
    | inr (v, h) ↦
        All-In (λ j. get j before ≡ get j after) (all_keys before after) a
          (after-all_keys before after k h)
    | inl o ↦ n ∙ sym o
  ]
]

module _ {E : Type 0} where
  -- One key: the diff stays clean exactly where the two sides agree on it.
  classify-clean :
      (rel : RelPath) (b a : Option Text) (d : DirDiff)
      → (b ≢ none) ⊎ (a ≢ none)
      → (next : DirDiff) × (classify {E = E} rel b a d ≡ returns next)
        × ((is_clean next ≡ true) ↔ ((is_clean d ≡ true) × (b ≡ a)))
  unfolding classify is_clean compare_hashes
  classify-clean rel (some b) (some a) d k = elim (Bool-cases (b == a)) [
    | inl e ↦ (_, refl, rw e ((λ h. (h, ap some ((list_beq_iff b a).0 e))), (λ h. h.0)))
    | inr e ↦ (
      _,
      refl,
      rw e (
        (λ h.
            let grown = is_empty-push d.changed (record {
              path = rel;
              before = codes "sha256:" ++ b;
              after = codes "sha256:" ++ a;
            }) in
            absurd (ground arith)),
        (λ h. ground (arith, list_beq_iff b a)),
      ),
    )
  ]
  classify-clean rel (some b) none d k =
      (_, refl, ((λ h. ground (arith, is_empty-push d.removed rel)), (λ h. ground arith)))
  classify-clean rel none (some a) d k =
      (_, refl, ((λ h. ground (arith, is_empty-push d.added rel)), (λ h. ground arith)))
  classify-clean rel none none d (inl k) = absurd (k refl)
  classify-clean rel none none d (inr k) = absurd (k refl)

  classify_all-clean :
      (before after : Map RelPath Text) (rels : List RelPath) (d : DirDiff)
      → All (IsKey before after) rels
      → (last : DirDiff) × (classify_all {E = E} before after rels d ≡ returns last)
        × ((is_clean last ≡ true)
            ↔ ((is_clean d ≡ true) × All (λ k. get k before ≡ get k after) rels))
  unfolding classify_all
  classify_all-clean before after [] d a = (d, refl, ((λ h. (h, tt)), (λ h. h.0)))
  classify_all-clean before after (rel ∷ rels) d a =
      let (next, step, one) = classify-clean rel (get rel before) (get rel after) d a.0 in
      let (last, steps, rest) = classify_all-clean before after rels next a.1 in
      (
        last,
        rw step steps,
        (
          (λ h.
              let (c, others) = rest.0 h in let (clean, same) = one.0 c in (clean, (same, others))),
          (λ h. rest.1 (one.1 (h.0, h.1.0), h.1.1)),
        ),
      )

  -- `diff_manifests` returns, whatever the two maps, and its diff is clean exactly where each path has the
  -- same hash, or none, in both.
  pub diff_manifests-clean :
      (before after : Map RelPath Text)
      → (d : DirDiff) × (diff_manifests {E = E} before after ≡ returns d)
        × ((is_clean d ≡ true) ↔ ((k : RelPath) → get k before ≡ get k after))
  unfolding diff_manifests is_clean no_diff
  diff_manifests-clean before after =
      let (d, made, clean) =
        classify_all-clean before after (all_keys before after) no_diff
          (all_keys-IsKey before after) in
      (
        d,
        made,
        (
          (λ h. agree_everywhere before after (clean.0 h).1),
          (λ h. clean.1 (refl, All-every h (all_keys before after))),
        ),
      )
