-- ===== src/Base/Maps.antt =====
-- `BTreeMap<K, V>`: entries in increasing order of their keys, which is the order of its iteration.
use akua.Base.Tests.{if◌then◌else◌, Bool-cases}
use mathlib.Core.Logic.{inl, inr}
use akua.Base.Lists.{All}
use akua.Base.Orders.{Ord, lt_asymm}
use mathlib.Core.Path.{◌≡◌, refl, subst}
use mathlib.Core.Bool.{Bool, true, false}
use mathlib.Core.Option.{Option, none, some}
use mathlib.Core.List.{List, [], ◌∷◌}
use native.Mathlib.Omega.{arith}

abbrev pub Map {ℓ κ} : Type ℓ → Type κ → Type (ℓ ⊔ κ)
Map K V = List (K × V)

abbrev pub keys {ℓ κ} : {K : Type ℓ} {V : Type κ} → Map K V → List K
keys [] = []
keys ((k, _) ∷ m) = k ∷ keys m

module _ {ℓ} {K : Type ℓ} ⦃o : Ord K⦄ where
  -- Neither key is below the other.
  abbrev pub same_key : K → K → Bool
  same_key j k = if o.lt j k then false else if o.lt k j then false else true

  pub same_key→eq : (j k : K) → same_key j k ≡ true → j ≡ k
  same_key→eq j k h = ground (arith, o.lt_connected j k)

  pub same_key_refl : (k : K) → same_key k k ≡ true
  same_key_refl k = ground (arith, o.lt_irrefl k)

module _ {ℓ κ} {K : Type ℓ} {V : Type κ} ⦃o : Ord K⦄ where
  unfoldable pub get : K → Map K V → Option V
  get k [] = none
  get k ((j, v) ∷ m) = if same_key j k then some v else get k m

  unfoldable pub insert : K → V → Map K V → Map K V
  insert k v [] = (k, v) ∷ []
  insert k v ((j, w) ∷ m) =
      if o.lt j k
      then (j, w) ∷ insert k v m
      else if o.lt k j
      then (k, v) ∷ (j, w) ∷ m
      else (k, v) ∷ m

  unfoldable pub remove : K → Map K V → Map K V
  remove k [] = []
  remove k ((j, w) ∷ m) = if same_key j k then m else (j, w) ∷ remove k m

  abbrev pub IsOrdered : Map K V → Type 0
  IsOrdered [] = Unit
  IsOrdered ((k, _) ∷ m) = All (λ (e : K × V). o.lt k e.0 ≡ true) m × IsOrdered m

  pub get-insert :
      (j k : K) (v : V) (m : Map K V)
      → get j (insert k v m) ≡ (if same_key k j then some v else get j m)
  unfolding get insert
  get-insert j k v [] = refl
  get-insert j k v ((i, w) ∷ m) = ground (
    arith,
    get-insert j k v m,
    o.lt_connected i k,
    o.lt_connected i j,
    o.lt_connected k j,
    o.lt_irrefl k,
    o.lt_irrefl j,
  )

  All-lt :
      (j k : K) (m : Map K V)
      → o.lt j k ≡ true
      → All (λ (e : K × V). o.lt k e.0 ≡ true) m
      → All (λ (e : K × V). o.lt j e.0 ≡ true) m
  All-lt j k [] h a = tt
  All-lt j k ((i, w) ∷ m) h a = (o.lt_trans j k i h a.0, All-lt j k m h a.1)

  All-insert :
      (P : K → Type 0) (k : K) (v : V) (m : Map K V)
      → P k
      → All (λ (e : K × V). P e.0) m
      → All (λ (e : K × V). P e.0) (insert k v m)
  unfolding insert
  All-insert P k v [] p a = (p, tt)
  All-insert P k v ((j, w) ∷ m) p a = ground (arith, All-insert P k v m p a.1)

  pub insert-IsOrdered : (k : K) (v : V) (m : Map K V) → IsOrdered m → IsOrdered (insert k v m)
  unfolding insert
  insert-IsOrdered k v [] h = (tt, tt)
  insert-IsOrdered k v ((j, w) ∷ m) h = elim (Bool-cases (o.lt j k)) [
    | inl e ↦ rw e (All-insert (λ i. o.lt j i ≡ true) k v m e h.0, insert-IsOrdered k v m h.1)
    | inr e ↦ rw e (elim (Bool-cases (o.lt k j)) [
      | inl f ↦ rw f ((f, All-lt k j m f h.0), h)
      | inr f ↦ rw f (subst (λ i. IsOrdered ((i, v) ∷ m)) (o.lt_connected j k e f) h)
    ])
  ]

  -- A key below all the keys of a map has no entry.
  pub get_of_below :
      (k : K) (m : Map K V) → All (λ (e : K × V). o.lt k e.0 ≡ true) m → get k m ≡ none
  unfolding get
  get_of_below k [] a = refl
  get_of_below k ((j, w) ∷ m) a = ground (arith, get_of_below k m a.1, lt_asymm k j)

  pub get-remove :
      (j k : K) (m : Map K V)
      → IsOrdered m
      → get j (remove k m) ≡ (if same_key k j then none else get j m)
  unfolding get remove
  get-remove j k [] h = ground arith
  get-remove j k ((i, w) ∷ m) h = ground (
    arith,
    get-remove j k m h.1,
    get_of_below i m h.0,
    o.lt_connected i k,
    o.lt_connected i j,
    o.lt_connected k j,
    o.lt_irrefl k,
    o.lt_irrefl j,
  )
