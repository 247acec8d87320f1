-- ===== src/Base/Texts/Laws.antt =====
-- How the searches split a text.
use Prim.Native.Nat.{ℕ, ◌≤◌}
use mathlib.Core.Path.{◌≡◌, refl, ap, ◌∙◌}
use mathlib.Core.Logic.{◌↔◌, inl, inr}
use mathlib.Core.Bool.{true, false, ◌||◌}
use mathlib.Core.List.{[], ◌∷◌, ◌++◌}
use mathlib.Core.Option.{none, some}
use native.Mathlib.Omega.{arith}
use akua.Base.Tests.{◌==◌, nat_eq, list_beq_iff, list_eq, Bool-cases, eq_refl, if◌then◌else◌}
use akua.Base.Lists.{length, length-append}
use akua.Base.Texts.{
  Text, codes, starts_with, strip_prefix, split_once_text, contains_char, split_once, rsplit_once,
  before, trim_end_matches, trim_cons, strip_suffix,
}

pub starts_with-append : (p s : Text) → starts_with (p ++ s) p ≡ true
unfolding starts_with
starts_with-append [] s = refl
starts_with-append (c ∷ p) s = ground (arith, starts_with-append p s)

-- A text with a prefix is that prefix and a rest.
pub starts_with→append : (s p : Text) → starts_with s p ≡ true → (r : Text) × (s ≡ p ++ r)
unfolding starts_with
starts_with→append s [] h = (s, refl)
starts_with→append [] (p ∷ ps) h = cc
starts_with→append (c ∷ s) (p ∷ ps) h =
    let (r, e) = starts_with→append s ps (ground arith) in (r, ground arith)

-- The part in front of the split has no `c`.
pub split_once-eq-some :
    (c : ℕ) (s a b : Text)
    → (split_once c s ≡ some (a, b)) ↔ ((s ≡ a ++ (c ∷ b)) × (contains_char c a ≡ false))
unfolding split_once contains_char
split_once-eq-some c [] [] b = ground arith
split_once-eq-some c [] (x ∷ a) b = ground arith
split_once-eq-some c (d ∷ s) [] b = ground arith
split_once-eq-some c (d ∷ s) (x ∷ a) b = ground (arith, split_once-eq-some c s a b)

pub split_once-eq-none : (c : ℕ) (s : Text) → (split_once c s ≡ none) ↔ (contains_char c s ≡ false)
unfolding split_once contains_char
split_once-eq-none c [] = ground arith
split_once-eq-none c (d ∷ s) = ground (arith, split_once-eq-none c s)

pub contains_char-append :
    (c : ℕ) (s t : Text) → contains_char c (s ++ t) ≡ (contains_char c s || contains_char c t)
unfolding contains_char
contains_char-append c [] t = refl
contains_char-append c (d ∷ s) t = ground (arith, contains_char-append c s t)

pub before-prefix : (c : ℕ) (s : Text) → contains_char c (before c s) ≡ false
unfolding contains_char before
before-prefix c [] = refl
before-prefix c (d ∷ s) = ground (arith, before-prefix c s)

-- A text without `c` stands before the first `c` that follows it.
pub before-append :
    (c : ℕ) (a s : Text) → contains_char c a ≡ false → before c (a ++ s) ≡ a ++ before c s
unfolding contains_char before
before-append c [] s h = refl
before-append c (d ∷ a) s h = ground (arith, before-append c a s)

pub rsplit_once-eq-none : (c : ℕ) (s : Text) → rsplit_once c s ≡ none → contains_char c s ≡ false
unfolding rsplit_once contains_char
rsplit_once-eq-none c [] h = refl
rsplit_once-eq-none c (d ∷ s) h = ground (arith, rsplit_once-eq-none c s)

-- The part behind the split has no `c`.
pub rsplit_once-eq-some :
    (c : ℕ) (s a b : Text)
    → rsplit_once c s ≡ some (a, b)
    → (s ≡ a ++ (c ∷ b)) × (contains_char c b ≡ false)
unfolding rsplit_once contains_char
rsplit_once-eq-some c [] a b h = cc
rsplit_once-eq-some c (d ∷ s) [] b h = ground (arith, rsplit_once-eq-none c s)
rsplit_once-eq-some c (d ∷ s) (x ∷ a) b h = ground (arith, rsplit_once-eq-some c s a b)

trim-cons : (c d : ℕ) (t r : Text) → (q : Text) × (d ∷ (t ++ r) ≡ trim_cons c d t ++ q)
unfolding trim_cons
trim-cons c d [] r = elim (Bool-cases (d == c)) [ inl e ↦ (d ∷ r, rw e) | inr e ↦ (r, rw e) ]
trim-cons c d (e ∷ t) r = (r, refl)

pub trim_end_matches-prefix : (c : ℕ) (s : Text) → (r : Text) × (s ≡ trim_end_matches c s ++ r)
unfolding trim_end_matches
trim_end_matches-prefix c [] = ([], refl)
trim_end_matches-prefix c (d ∷ s) =
    let (r, e) = trim_end_matches-prefix c s in
    let (q, f) = trim-cons c d (trim_end_matches c s) r in (q, ap (◌∷◌ d) e ∙ f)

pub strip_suffix-eq-some : (p s t : Text) → strip_suffix p s ≡ some t → s ≡ t ++ p
unfolding strip_suffix
strip_suffix-eq-some p [] [] h = ground (arith, list_beq_iff [] p, list_beq_iff p [])
strip_suffix-eq-some p [] (x ∷ t) h = ground arith
strip_suffix-eq-some p (d ∷ s) [] h = ground (arith, list_beq_iff (d ∷ s) p)
strip_suffix-eq-some p (d ∷ s) (x ∷ t) h =
    ground (arith, list_beq_iff (d ∷ s) p, strip_suffix-eq-some p s t)

-- What stands behind `before`: nothing, or a text that begins with the byte.
pub from : ℕ → Text → Text
from c [] = []
from c (d ∷ s) = if d == c then d ∷ s else from c s

pub before-append-from : (c : ℕ) (s : Text) → s ≡ before c s ++ from c s
unfolding before from
before-append-from c [] = refl
before-append-from c (d ∷ s) = ground (arith, before-append-from c s)

pub before-from : (c : ℕ) (s : Text) → before c (from c s) ≡ []
unfolding before from
before-from c [] = refl
before-from c (d ∷ s) = ground (arith, before-from c s)

-- A prefix has no byte before the first `c` that the whole text lacks there.
pub before-of_prefix :
    (c x : ℕ) (q z : Text)
    → contains_char x (before c (q ++ z)) ≡ false
    → contains_char x (before c q) ≡ false
unfolding contains_char before
before-of_prefix c x [] z h = refl
before-of_prefix c x (d ∷ q) z h = ground (arith, before-of_prefix c x q z)

pub strip_prefix→append : (s p r : Text) → strip_prefix s p ≡ some r → s ≡ p ++ r
unfolding strip_prefix
strip_prefix→append s [] r h = ground arith
strip_prefix→append [] (p ∷ ps) r h = cc
strip_prefix→append (c ∷ s) (p ∷ ps) r h = ground (arith, strip_prefix→append s ps r)

pub strip_prefix-append : (p r : Text) → strip_prefix (p ++ r) p ≡ some r
unfolding strip_prefix
strip_prefix-append [] r = refl
strip_prefix-append (c ∷ p) r = ground (arith, strip_prefix-append p r)

-- A scheme without `:` ends at the first `://`.
pub split_once_text_scheme :
    (scheme r : Text)
    → contains_char b':' scheme ≡ false
    → split_once_text (codes "://") (scheme ++ (codes "://" ++ r)) ≡ some (scheme, r)
unfolding split_once_text strip_prefix contains_char
split_once_text_scheme [] r h = refl
split_once_text_scheme (d ∷ s) r h = ground (arith, split_once_text_scheme s r)

pub rsplit_once_absent : (c : ℕ) (s : Text) → contains_char c s ≡ false → rsplit_once c s ≡ none
unfolding rsplit_once contains_char
rsplit_once_absent c [] h = refl
rsplit_once_absent c (d ∷ s) h = ground (arith, rsplit_once_absent c s)

-- A text that ends in another byte is not trimmed.
pub trim_end_matches_kept :
    (c d : ℕ) (s : Text) → ¬ (d ≡ c) → trim_end_matches c (s ++ (d ∷ [])) ≡ s ++ (d ∷ [])
unfolding trim_end_matches
trim_end_matches_kept c d [] h = ground arith
trim_end_matches_kept c d (x ∷ []) h = ground (arith, trim_end_matches_kept c d [] h)
trim_end_matches_kept c d (x ∷ y ∷ s) h = ground (arith, trim_end_matches_kept c d (y ∷ s) h)

pub length-trim_end_matches-le : (c : ℕ) (s : Text) → length (trim_end_matches c s) ≤ length s
length-trim_end_matches-le c s =
    let (r, e) = trim_end_matches-prefix c s in
    omega (arith, ap length e, length-append (trim_end_matches c s) r)

pub strip_suffix-append : (s p : Text) → strip_suffix p (s ++ p) ≡ some s
unfolding strip_suffix
strip_suffix-append [] [] = refl
strip_suffix-append [] (d ∷ p) = rw (eq_refl (d ∷ p))
strip_suffix-append (d ∷ s) p = ground (
  arith,
  strip_suffix-append s p,
  list_beq_iff (d ∷ (s ++ p)) p,
  λ (e : d ∷ (s ++ p) ≡ p). ap length e,
  length-append s p,
)
