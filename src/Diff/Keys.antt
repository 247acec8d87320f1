-- ===== src/Diff/Keys.antt =====
-- The keys of both sides: each is a key of one of them, and none is left out.
use akua.Base.{
  ◌≡◌, refl, sym, ◌∙◌, ◌≢◌, ◌⊎◌, inl, inr, none, some, List, [], ◌∷◌, ◌++◌, arith, All, In, here,
  there, Bool-cases, nat_eq, list_eq, list_beq_iff, ◌==◌,
}
use akua.Base.Maps.{Map, get, keys, same_key, same_key→eq, same_key_refl}
use akua.Base.Orders.{nat_ord, list_ord}
use akua.Base.Sorting.{sort_by_key, sort_by_key-In, All-sort_by_key}
use akua.Diff.{RelPath, dedup_from, dedup, sort_dedup, all_keys}

get-keys {ℓ} :
    {V : Type ℓ} (k : RelPath) (m : Map RelPath V) {v : V} → get k m ≡ some v → In k (keys m)
unfolding get
get-keys k [] h = cc
get-keys k ((j, w) ∷ m) h = elim (Bool-cases (same_key j k)) [
  | inl s ↦ here (sym (same_key→eq j k s))
  | inr s ↦ there (get-keys k m (sym (rw s refl) ∙ h))
]

keys-get-later {ℓ} :
    {T : Type ℓ} (j : RelPath) (w : T) (m ks : Map RelPath T)
    → All (λ k. get k m ≢ none) (keys ks)
    → All (λ k. get k ((j, w) ∷ m) ≢ none) (keys ks)
unfolding get
keys-get-later j w m [] a = tt
keys-get-later j w m ((i, _) ∷ ks) a =
    ((λ h. let held = a.0 in ground arith), keys-get-later j w m ks a.1)

keys-get {ℓ} : {V : Type ℓ} (m : Map RelPath V) → All (λ k. get k m ≢ none) (keys m)
unfolding get
keys-get [] = tt
keys-get ((j, w) ∷ m) =
    ((λ h. ground (arith, same_key_refl j)), keys-get-later j w m m (keys-get m))

In-append-left {ℓ} : {A : Type ℓ} {a : A} (xs ys : List A) → In a xs → In a (xs ++ ys)
In-append-left [] ys i = elim i [ ]
In-append-left (x ∷ xs) ys (here e) = here e
In-append-left (x ∷ xs) ys (there i) = there (In-append-left xs ys i)

In-append-right {ℓ} : {A : Type ℓ} {a : A} (xs ys : List A) → In a ys → In a (xs ++ ys)
In-append-right [] ys i = i
In-append-right (x ∷ xs) ys i = there (In-append-right xs ys i)

drop_twin : {k x y : RelPath} {ys : List RelPath} → x ≡ y → In k (x ∷ y ∷ ys) → In k (x ∷ ys)
drop_twin e (here h) = here h
drop_twin e (there (here h)) = here (h ∙ sym e)
drop_twin e (there (there j)) = there j

below_head :
    {k x : RelPath} {ys zs : List RelPath} → (In k ys → In k zs) → In k (x ∷ ys) → In k (x ∷ zs)
below_head f (here h) = here h
below_head f (there j) = there (f j)

In-dedup_from :
    {k : RelPath} (x : RelPath) (xs : List RelPath) → In k (x ∷ xs) → In k (dedup_from x xs)
unfolding dedup_from
In-dedup_from x [] i = i
In-dedup_from {k} x (y ∷ ys) i = elim (Bool-cases (x == y)) [
  | inl e ↦ rw e (In-dedup_from x ys (drop_twin ((list_beq_iff x y).0 e) i))
  | inr e ↦ rw e (below_head (In-dedup_from y ys) i)
]

In-sort_dedup : {k : RelPath} (xs : List RelPath) → In k xs → In k (sort_dedup xs)
unfolding sort_dedup dedup
In-sort_dedup {k} xs i = go (sort_by_key (λ (j : RelPath). j) xs) (sort_by_key-In (λ j. j) xs i)
  where
    go : (ys : List RelPath) → In k ys → In k (dedup ys)
    go [] j = j
    go (y ∷ ys) j = In-dedup_from y ys j

All-dedup_from :
    (P : RelPath → Type 0) (x : RelPath) (xs : List RelPath)
    → P x
    → All P xs
    → All P (dedup_from x xs)
unfolding dedup_from
All-dedup_from P x [] p a = (p, tt)
All-dedup_from P x (y ∷ ys) p a = elim (Bool-cases (x == y)) [
  | inl e ↦ rw e (All-dedup_from P x ys p a.1)
  | inr e ↦ rw e (p, All-dedup_from P y ys a.0 a.1)
]

All-sort_dedup : (P : RelPath → Type 0) (xs : List RelPath) → All P xs → All P (sort_dedup xs)
unfolding sort_dedup dedup
All-sort_dedup P xs a = go (sort_by_key (λ (j : RelPath). j) xs) (All-sort_by_key (λ j. j) P xs a)
  where
    go : (ys : List RelPath) → All P ys → All P (dedup ys)
    go [] b = b
    go (y ∷ ys) b = All-dedup_from P y ys b.0 b.1

All-append {ℓ} :
    {A : Type ℓ} (P : A → Type 0) (xs ys : List A) → All P xs → All P ys → All P (xs ++ ys)
All-append P [] ys a b = b
All-append P (x ∷ xs) ys a b = (a.0, All-append P xs ys a.1 b)

All-weaken {ℓ} :
    {A : Type ℓ} {P Q : A → Type 0} (f : (x : A) → P x → Q x) (xs : List A) → All P xs → All Q xs
All-weaken f [] a = tt
All-weaken f (x ∷ xs) a = (f x a.0, All-weaken f xs a.1)

module _ {V W : Type 0} (before : Map RelPath V) (after : Map RelPath W) where
  -- A key has an entry on one side.
  abbrev pub IsKey : RelPath → Type 0
  IsKey k = (get k before ≢ none) ⊎ (get k after ≢ none)

  pub all_keys-IsKey : All IsKey (all_keys before after)
  unfolding all_keys
  all_keys-IsKey = All-sort_dedup IsKey (keys before ++ keys after) (
      All-append IsKey (keys before) (keys after)
        (All-weaken (λ k h. inl h) (keys before) (keys-get before))
        (All-weaken (λ k h. inr h) (keys after) (keys-get after)))

  pub before-all_keys : (k : RelPath) {v : V} → get k before ≡ some v → In k (all_keys before after)
  unfolding all_keys
  before-all_keys k h =
      In-sort_dedup (keys before ++ keys after)
        (In-append-left (keys before) (keys after) (get-keys k before h))

  pub after-all_keys : (k : RelPath) {v : W} → get k after ≡ some v → In k (all_keys before after)
  unfolding all_keys
  after-all_keys k h =
      In-sort_dedup (keys before ++ keys after)
        (In-append-right (keys before) (keys after) (get-keys k after h))
