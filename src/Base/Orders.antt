-- ===== src/Base/Orders.antt =====
-- Strict linear orders as an interface (`Ord` of the source's types), with those of numbers, of byte
-- strings and of pairs.
use akua.Base.Tests.{ltb, if◌then◌else◌}
use Prim.Native.Nat.{ℕ}
use mathlib.Core.Path.{◌≡◌, refl}
use mathlib.Core.Bool.{Bool, true, false, ◌||◌}
use mathlib.Core.List.{List, [], ◌∷◌}
use native.Mathlib.Omega.{arith}

pub record Ord {ℓ} (A : Type ℓ) : Type ℓ where
  pub lt : A → A → Bool
  pub lt_irrefl : (a : A) → lt a a ≡ false
  pub lt_trans : (a b c : A) → lt a b ≡ true → lt b c ≡ true → lt a c ≡ true
  pub lt_connected : (a b : A) → lt a b ≡ false → lt b a ≡ false → a ≡ b

pub ltb_irrefl : (a : ℕ) → ltb a a ≡ false
ltb_irrefl a = ground arith

pub ltb_trans : (a b c : ℕ) → ltb a b ≡ true → ltb b c ≡ true → ltb a c ≡ true
ltb_trans a b c h k = ground arith

pub ltb_connected : (a b : ℕ) → ltb a b ≡ false → ltb b a ≡ false → a ≡ b
ltb_connected a b h k = ground arith

instance abbrev pub nat_ord : Ord ℕ
nat_ord = record {
  lt = ltb;
  lt_irrefl = ltb_irrefl;
  lt_trans = ltb_trans;
  lt_connected = ltb_connected;
}

module _ {ℓ} {A : Type ℓ} ⦃o : Ord A⦄ where
  pub lt_asymm : (a b : A) → o.lt a b ≡ true → o.lt b a ≡ false
  lt_asymm a b h = ground (arith, o.lt_trans a b a h, o.lt_irrefl a)

  -- Lexicographic order; the shorter of two strings with a common prefix comes first.
  unfoldable pub list_lt : List A → List A → Bool
  list_lt [] [] = false
  list_lt [] (_ ∷ _) = true
  list_lt (_ ∷ _) [] = false
  list_lt (x ∷ xs) (y ∷ ys) = o.lt x y || (if o.lt y x then false else list_lt xs ys)

  pub list_lt_irrefl : (xs : List A) → list_lt xs xs ≡ false
  unfolding list_lt
  list_lt_irrefl [] = refl
  list_lt_irrefl (x ∷ xs) = ground (arith, o.lt_irrefl x, list_lt_irrefl xs)

  pub list_lt_trans :
      (xs ys zs : List A) → list_lt xs ys ≡ true → list_lt ys zs ≡ true → list_lt xs zs ≡ true
  unfolding list_lt
  list_lt_trans [] (y ∷ ys) (z ∷ zs) h k = refl
  list_lt_trans (x ∷ xs) (y ∷ ys) (z ∷ zs) h k = ground (
    arith,
    list_lt_trans xs ys zs,
    o.lt_trans x y z,
    o.lt_trans z x y,
    o.lt_trans y z x,
    lt_asymm x y,
    lt_asymm y z,
    o.lt_connected x y,
    o.lt_connected y z,
  )
  list_lt_trans [] [] zs h k = cc
  list_lt_trans (x ∷ xs) [] zs h k = cc
  list_lt_trans [] (y ∷ ys) [] h k = cc
  list_lt_trans (x ∷ xs) (y ∷ ys) [] h k = cc

  pub list_lt_connected : (xs ys : List A) → list_lt xs ys ≡ false → list_lt ys xs ≡ false → xs ≡ ys
  unfolding list_lt
  list_lt_connected [] [] h k = refl
  list_lt_connected [] (y ∷ ys) h k = cc
  list_lt_connected (x ∷ xs) [] h k = cc
  list_lt_connected (x ∷ xs) (y ∷ ys) h k =
      ground (arith, o.lt_connected x y, list_lt_connected xs ys)

instance abbrev pub list_ord {ℓ} : {A : Type ℓ} ⦃o : Ord A⦄ → Ord (List A)
list_ord = record {
  lt = list_lt;
  lt_irrefl = list_lt_irrefl;
  lt_trans = list_lt_trans;
  lt_connected = list_lt_connected;
}

-- `a.0.cmp(b.0).then_with(|| a.1.cmp(b.1))`
module _ {ℓ κ} {A : Type ℓ} {B : Type κ} ⦃o : Ord A⦄ ⦃q : Ord B⦄ where
  unfoldable pub pair_lt : A × B → A × B → Bool
  pair_lt (a, b) (c, d) = o.lt a c || (if o.lt c a then false else q.lt b d)

  pub pair_lt_irrefl : (x : A × B) → pair_lt x x ≡ false
  unfolding pair_lt
  pair_lt_irrefl (a, b) = ground (arith, o.lt_irrefl a, q.lt_irrefl b)

  pub pair_lt_trans : (x y z : A × B) → pair_lt x y ≡ true → pair_lt y z ≡ true → pair_lt x z ≡ true
  unfolding pair_lt
  pair_lt_trans (a, b) (c, d) (e, f) h k = ground (
    arith,
    q.lt_trans b d f,
    o.lt_trans a c e,
    o.lt_trans e a c,
    o.lt_trans c e a,
    lt_asymm a c,
    lt_asymm c e,
    o.lt_connected a c,
    o.lt_connected c e,
  )

  pub pair_lt_connected : (x y : A × B) → pair_lt x y ≡ false → pair_lt y x ≡ false → x ≡ y
  unfolding pair_lt
  pair_lt_connected (a, b) (c, d) h k = ground (arith, o.lt_connected a c, q.lt_connected b d)

instance abbrev pub pair_ord {ℓ κ} : {A : Type ℓ} {B : Type κ} ⦃o : Ord A⦄ ⦃q : Ord B⦄ → Ord (A × B)
pair_ord = record {
  lt = pair_lt;
  lt_irrefl = pair_lt_irrefl;
  lt_trans = pair_lt_trans;
  lt_connected = pair_lt_connected;
}

-- `Reverse`
abbrev pub reverse_ord {ℓ} : {A : Type ℓ} → Ord A → Ord A
reverse_ord o = record {
  lt = λ a b. o.lt b a;
  lt_irrefl = o.lt_irrefl;
  lt_trans = λ a b c h k. o.lt_trans c b a k h;
  lt_connected = λ a b h k. o.lt_connected a b k h;
}
