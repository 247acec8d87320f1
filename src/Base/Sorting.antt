-- ===== src/Base/Sorting.antt =====
-- Rust's stable `sort_by` and `sort_by_key`, as insertion from the right.
use akua.Base.Tests.{if◌then◌else◌, Bool-cases}
use akua.Base.Lists.{All, In, here, there}
use akua.Base.Orders.{Ord, lt_asymm}
use mathlib.Core.Path.{◌≡◌, refl, sym, ap, ap₂, subst, ◌∙◌}
use mathlib.Core.Logic.{inl, inr}
use mathlib.Core.Bool.{Bool, true, false}
use mathlib.Core.List.{List, [], ◌∷◌, Perm, Permᴰ}
use mathlib.Core.List.Perm
use native.Mathlib.Omega.{arith}

elem_swap {ℓ} : {A : Type ℓ} {a x y : A} {ys : List A} → In a (x ∷ ys) → In a (x ∷ y ∷ ys)
elem_swap (here h) = here h
elem_swap (there m) = there (there m)

inserted_elem {ℓ} :
    {A : Type ℓ} {a x y : A} {ys zs : List A} (b : Bool)
    → In a (if b then y ∷ zs else x ∷ y ∷ ys)
    → (In a zs → In a (x ∷ ys))
    → In a (x ∷ y ∷ ys)
inserted_elem true (here h) f = there (here h)
inserted_elem true (there m) f = elem_swap (f m)
inserted_elem false m f = m

sorted_elem {ℓ} :
    {A : Type ℓ} {a x : A} {xs ys : List A} → (In a xs → In a ys) → In a (x ∷ xs) → In a (x ∷ ys)
sorted_elem f (here h) = here h
sorted_elem f (there m) = there (f m)

module _ {ℓ κ} {A : Type ℓ} {K : Type κ} ⦃o : Ord K⦄ (key : A → K) where
  unfoldable pub insert_by_key : A → List A → List A
  insert_by_key x [] = x ∷ []
  insert_by_key x (y ∷ ys) = if o.lt (key y) (key x) then y ∷ insert_by_key x ys else x ∷ y ∷ ys

  unfoldable pub sort_by_key : List A → List A
  unfolding insert_by_key
  sort_by_key [] = []
  sort_by_key (x ∷ xs) = insert_by_key x (sort_by_key xs)

  -- `y` may follow `x`.
  abbrev pub MayFollow : A → A → Type 0
  MayFollow x y = o.lt (key y) (key x) ≡ false

  -- No element is followed by one with a smaller key.
  abbrev pub IsSorted : List A → Type 0
  IsSorted [] = Unit
  IsSorted (x ∷ xs) = All (MayFollow x) xs × IsSorted xs

  -- No two elements have the same key.
  abbrev pub HasDistinctKeys : List A → Type κ
  HasDistinctKeys [] = Unit
  HasDistinctKeys (x ∷ xs) = All (λ y. ¬ (key x ≡ key y)) xs × HasDistinctKeys xs

  pub insert_by_key-perm : (x : A) (xs : List A) → Perm (insert_by_key x xs) (x ∷ xs)
  unfolding insert_by_key
  insert_by_key-perm x [] = Perm.refl _
  insert_by_key-perm x (y ∷ ys) = elim (Bool-cases (o.lt (key y) (key x))) [
    | inl h ↦ rw h (Perm.trans (Perm.cons y (insert_by_key-perm x ys)) (Perm.swap x y ys))
    | inr h ↦ rw h (Perm.refl _)
  ]

  pub sort_by_key-perm : (xs : List A) → Perm (sort_by_key xs) xs
  unfolding sort_by_key
  sort_by_key-perm [] = Perm.refl _
  sort_by_key-perm (x ∷ xs) =
      Perm.trans (insert_by_key-perm x (sort_by_key xs)) (Perm.cons x (sort_by_key-perm xs))

  MayFollow-trans : (x y z : A) → MayFollow x y → MayFollow y z → MayFollow x z
  MayFollow-trans x y z h k = ground (
    arith,
    o.lt_trans (key z) (key x) (key y),
    o.lt_trans (key y) (key z) (key x),
    o.lt_connected (key x) (key y),
    o.lt_connected (key y) (key z),
  )

  pub All-MayFollow :
      (x y : A) (zs : List A) → MayFollow x y → All (MayFollow y) zs → All (MayFollow x) zs
  All-MayFollow x y [] h a = tt
  All-MayFollow x y (z ∷ zs) h a = (MayFollow-trans x y z h a.0, All-MayFollow x y zs h a.1)

  All-insert_by_key :
      (P : A → Type 0) (x : A) (ys : List A) → P x → All P ys → All P (insert_by_key x ys)
  unfolding insert_by_key
  All-insert_by_key P x [] h a = (h, tt)
  All-insert_by_key P x (y ∷ ys) h a = elim (Bool-cases (o.lt (key y) (key x))) [
    | inl e ↦ rw e (a.0, All-insert_by_key P x ys h a.1)
    | inr e ↦ rw e (h, a)
  ]

  insert_by_key-IsSorted : (x : A) (ys : List A) → IsSorted ys → IsSorted (insert_by_key x ys)
  unfolding insert_by_key
  insert_by_key-IsSorted x [] s = (tt, tt)
  insert_by_key-IsSorted x (y ∷ ys) s = elim (Bool-cases (o.lt (key y) (key x))) [
    | inl e ↦ rw e (
      All-insert_by_key (MayFollow y) x ys (lt_asymm (key y) (key x) e) s.0,
      insert_by_key-IsSorted x ys s.1,
    )
    | inr e ↦ rw e ((e, All-MayFollow x y ys e s.0), s)
  ]

  pub sort_by_key-IsSorted : (xs : List A) → IsSorted (sort_by_key xs)
  unfolding sort_by_key
  sort_by_key-IsSorted [] = tt
  sort_by_key-IsSorted (x ∷ xs) = insert_by_key-IsSorted x _ (sort_by_key-IsSorted xs)

  -- A sorted list is left as it is.
  pub sort_by_key_id : (xs : List A) → IsSorted xs → sort_by_key xs ≡ xs
  unfolding sort_by_key
  sort_by_key_id [] s = refl
  sort_by_key_id (x ∷ []) s = refl
  sort_by_key_id (x ∷ y ∷ ys) s = ap (insert_by_key x) (sort_by_key_id (y ∷ ys) s.1) ∙ rw s.0.0

  -- Where the keys differ, the order of two insertions does not matter.
  insert_by_key_comm :
      (x y : A) (zs : List A)
      → ¬ (key x ≡ key y)
      → insert_by_key x (insert_by_key y zs) ≡ insert_by_key y (insert_by_key x zs)
  unfolding insert_by_key
  insert_by_key_comm x y [] h =
      ground (arith, o.lt_connected (key x) (key y), lt_asymm (key x) (key y))
  insert_by_key_comm x y (z ∷ zs) h = ground (
    arith,
    insert_by_key_comm x y zs h,
    o.lt_connected (key x) (key y),
    lt_asymm (key x) (key y),
    o.lt_trans (key y) (key z) (key x),
    o.lt_trans (key x) (key z) (key y),
    o.lt_trans (key z) (key x) (key y),
    o.lt_trans (key z) (key y) (key x),
  )

  All-Permᴰ : (P : A → Type κ) {xs ys : List A} → Permᴰ xs ys → All P xs → All P ys
  All-Permᴰ P Permᴰ.nil a = tt
  All-Permᴰ P (Permᴰ.cons e d) a = (subst P e a.0, All-Permᴰ P d a.1)
  All-Permᴰ P (Permᴰ.swap e f) a = (subst P f a.1.0, (subst P e a.0, a.1.1))
  All-Permᴰ P (Permᴰ.trans d e) a = All-Permᴰ P e (All-Permᴰ P d a)

  HasDistinctKeys-Permᴰ : {xs ys : List A} → Permᴰ xs ys → HasDistinctKeys xs → HasDistinctKeys ys
  HasDistinctKeys-Permᴰ Permᴰ.nil h = h
  HasDistinctKeys-Permᴰ (Permᴰ.cons {a} {b} {l₁} e d) h = (
    All-Permᴰ (λ y. ¬ (key b ≡ key y)) d (subst (λ c. All (λ y. ¬ (key c ≡ key y)) l₁) e h.0),
    HasDistinctKeys-Permᴰ d h.1,
  )
  HasDistinctKeys-Permᴰ (Permᴰ.swap {a} {b} {a'} {b'} {l} e f) h =
      subst (λ c. HasDistinctKeys (a' ∷ c ∷ l)) e
        (subst (λ c. HasDistinctKeys (c ∷ a ∷ l)) f (((λ p. h.0.0 (sym p)), h.1.0), (h.0.1, h.1.1)))
  HasDistinctKeys-Permᴰ (Permᴰ.trans d e) h = HasDistinctKeys-Permᴰ e (HasDistinctKeys-Permᴰ d h)

  -- The result of a sort does not depend on the order of its input, where the keys differ.
  pub sort_by_key-Permᴰ :
      {xs ys : List A} → Permᴰ xs ys → HasDistinctKeys xs → sort_by_key xs ≡ sort_by_key ys
  unfolding sort_by_key
  sort_by_key-Permᴰ Permᴰ.nil h = refl
  sort_by_key-Permᴰ (Permᴰ.cons {b} {l₁} e d) h =
      ap (λ c. insert_by_key c (sort_by_key l₁)) e ∙ ap (insert_by_key b) (sort_by_key-Permᴰ d h.1)
  sort_by_key-Permᴰ (Permᴰ.swap {a} {b} {l} e f) h =
      insert_by_key_comm a b (sort_by_key l) h.0.0
      ∙ ap₂ (λ c d. insert_by_key c (insert_by_key d (sort_by_key l))) f e
  sort_by_key-Permᴰ (Permᴰ.trans d e) h =
      sort_by_key-Permᴰ d h ∙ sort_by_key-Permᴰ e (HasDistinctKeys-Permᴰ d h)

  insert_by_key-In : {a : A} (x : A) (ys : List A) → In a (x ∷ ys) → In a (insert_by_key x ys)
  unfolding insert_by_key
  insert_by_key-In x [] m = m
  insert_by_key-In {a} x (y ∷ ys) m = elim (Bool-cases (o.lt (key y) (key x))) [
    | inl e ↦ rw e (passes (insert_by_key-In {a = a} x ys) m)
    | inr e ↦ rw e m
  ]
    where
      passes :
          (In a (x ∷ ys) → In a (insert_by_key x ys))
          → In a (x ∷ y ∷ ys)
          → In a (y ∷ insert_by_key x ys)
      passes ih (here h) = there (ih (here h))
      passes ih (there (here h)) = here h
      passes ih (there (there n)) = there (ih (there n))

  -- Every element is still there after a sort.
  pub sort_by_key-In : {a : A} (xs : List A) → In a xs → In a (sort_by_key xs)
  unfolding sort_by_key
  sort_by_key-In [] m = elim m [ ]
  sort_by_key-In (x ∷ xs) (here h) = insert_by_key-In x _ (here h)
  sort_by_key-In (x ∷ xs) (there m) = insert_by_key-In x _ (there (sort_by_key-In xs m))

  insert_by_key-of : {a : A} (x : A) (ys : List A) → In a (insert_by_key x ys) → In a (x ∷ ys)
  unfolding insert_by_key
  insert_by_key-of x [] m = m
  insert_by_key-of {a} x (y ∷ ys) m = inserted_elem (o.lt (key y) (key x)) m (insert_by_key-of x ys)

  -- Every element of a sort was there before.
  pub In-sort_by_key : {a : A} (xs : List A) → In a (sort_by_key xs) → In a xs
  unfolding sort_by_key
  In-sort_by_key [] m = m
  In-sort_by_key (x ∷ xs) m = sorted_elem (In-sort_by_key xs) (insert_by_key-of x _ m)

  -- What holds of all the elements holds of all of them after a sort.
  pub All-sort_by_key : (P : A → Type 0) (xs : List A) → All P xs → All P (sort_by_key xs)
  unfolding sort_by_key
  All-sort_by_key P [] a = tt
  All-sort_by_key P (x ∷ xs) a = All-insert_by_key P x _ a.0 (All-sort_by_key P xs a.1)

  All-insert_of :
      (P : A → Type κ) (x : A) (ys : List A) → P x → All P ys → All P (insert_by_key x ys)
  unfolding insert_by_key
  All-insert_of P x [] h a = (h, tt)
  All-insert_of P x (y ∷ ys) h a = elim (Bool-cases (o.lt (key y) (key x))) [
    | inl e ↦ rw e (a.0, All-insert_of P x ys h a.1)
    | inr e ↦ rw e (h, a)
  ]

  pub All-sort_of : (P : A → Type κ) (xs : List A) → All P xs → All P (sort_by_key xs)
  unfolding sort_by_key
  All-sort_of P [] a = tt
  All-sort_of P (x ∷ xs) a = All-insert_of P x _ a.0 (All-sort_of P xs a.1)

  HasDistinctKeys-insert :
      (x : A) (ys : List A)
      → All (λ y. ¬ (key x ≡ key y)) ys
      → HasDistinctKeys ys
      → HasDistinctKeys (insert_by_key x ys)
  unfolding insert_by_key
  HasDistinctKeys-insert x [] a h = (tt, tt)
  HasDistinctKeys-insert x (y ∷ ys) a h = elim (Bool-cases (o.lt (key y) (key x))) [
    | inl e ↦ rw e (
      All-insert_of (λ z. ¬ (key y ≡ key z)) x ys (λ p. a.0 (sym p)) h.0,
      HasDistinctKeys-insert x ys a.1 h.1,
    )
    | inr e ↦ rw e (a, h)
  ]

  -- A sort adds no element whose key was there before.
  pub HasDistinctKeys-sort_by_key :
      (xs : List A) → HasDistinctKeys xs → HasDistinctKeys (sort_by_key xs)
  unfolding sort_by_key
  HasDistinctKeys-sort_by_key [] h = tt
  HasDistinctKeys-sort_by_key (x ∷ xs) h =
      HasDistinctKeys-insert x _ (All-sort_of (λ y. ¬ (key x ≡ key y)) xs h.0)
        (HasDistinctKeys-sort_by_key xs h.1)
