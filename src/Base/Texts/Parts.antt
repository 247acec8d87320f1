-- ===== src/Base/Texts/Parts.antt =====
-- What the searches for a part of a text find.
use Prim.Native.Nat.{ℕ}
use mathlib.Core.Path.{◌≡◌, refl, ap, ◌∙◌}
use mathlib.Core.Logic.{◌≢◌, ◌↔◌, inl, inr}
use mathlib.Core.Bool.{true, false}
use mathlib.Core.List.{[], ◌∷◌, ◌++◌}
use native.Mathlib.Omega.{arith}
use akua.Base.Tests.{nat_eq, Bool-cases}
use akua.Base.Tests.{◌==◌, nat_eq}
use akua.Base.Texts.{Text, starts_with, contains_char, contains_text, before}
use akua.Base.Texts.Laws.{starts_with-append, starts_with→append}

-- A text of which another is no part.
abbrev pub Lacks : Text → Text → Type 0
Lacks s part = (a b : Text) → s ≢ a ++ (part ++ b)

contains_text-append : (a part b : Text) → contains_text (a ++ (part ++ b)) part ≡ true
unfolding contains_text
contains_text-append [] [] [] = starts_with-append [] []
contains_text-append [] [] (c ∷ b) = ground (arith, starts_with-append [] (c ∷ b))
contains_text-append [] (c ∷ part) b = ground (arith, starts_with-append (c ∷ part) b)
contains_text-append (c ∷ a) part b = ground (arith, contains_text-append a part b)

contains_text-found :
    (s part : Text) → contains_text s part ≡ true → (a : Text) × (b : Text) × (s ≡ a ++ (part ++ b))
unfolding contains_text
contains_text-found [] part h = let (b, e) = starts_with→append [] part h in ([], b, e)
contains_text-found (c ∷ s) part h = elim (Bool-cases (starts_with (c ∷ s) part)) [
  | inl front ↦ let (b, e) = starts_with→append (c ∷ s) part front in ([], b, e)
  | inr later ↦
      let (a, b, e) = contains_text-found s part (ground arith) in (c ∷ a, b, ap (◌∷◌ c) e)
]

pub contains_char-text : (c : ℕ) (s : Text) → contains_char c s ≡ contains_text s (c ∷ [])
unfolding contains_char contains_text starts_with
contains_char-text c [] = refl
contains_char-text c (d ∷ s) = ground (arith, contains_char-text c s)

pub contains_text-Lacks : (s part : Text) → (contains_text s part ≡ false) ↔ Lacks s part
contains_text-Lacks s part = (
  λ h a b e. let there = ap (λ t. contains_text t part) e ∙ contains_text-append a part b in cc,
  λ lacks. elim (Bool-cases (contains_text s part)) [
    | inl there ↦ let (a, b, e) = contains_text-found s part there in absurd (lacks a b e)
    | inr absent ↦ absent
  ],
)

-- A `c` in front of the first `d` of a text, or in the text where it has no `d`.
abbrev pub LacksBefore : ℕ → ℕ → Text → Type 0
LacksBefore c d s = (a b : Text) → contains_char d a ≡ false → s ≢ a ++ (c ∷ b)

found_before :
    (c d : ℕ) (s : Text)
    → contains_char c (before d s) ≡ true
    → (a : Text) × (b : Text) × (contains_char d a ≡ false) × (s ≡ a ++ (c ∷ b))
unfolding contains_char before
found_before c d [] h = cc
found_before c d (x ∷ s) h = elim (Bool-cases (x == d)) [
  | inl stop ↦ ground arith
  | inr other ↦ elim (Bool-cases (x == c)) [
    | inl here ↦ ([], s, refl, ground arith)
    | inr later ↦
        let (a, b, clear, e) = found_before c d s (ground arith) in
        (x ∷ a, b, ground arith, ap (◌∷◌ x) e)
  ]
]

before-append :
    (c d : ℕ) (a b : Text)
    → c ≢ d
    → contains_char d a ≡ false
    → contains_char c (before d (a ++ (c ∷ b))) ≡ true
unfolding contains_char before
before-append c d [] b other h = ground arith
before-append c d (x ∷ a) b other h = ground (arith, before-append c d a b other)

pub contains_char-LacksBefore :
    (c d : ℕ) (s : Text) → c ≢ d → (contains_char c (before d s) ≡ false) ↔ LacksBefore c d s
contains_char-LacksBefore c d s other = (
  λ h a b clear e.
      let there = ap (λ t. contains_char c (before d t)) e ∙ before-append c d a b other clear in
      cc,
  λ lacks. elim (Bool-cases (contains_char c (before d s))) [
    | inl there ↦ let (a, b, clear, e) = found_before c d s there in absurd (lacks a b clear e)
    | inr absent ↦ absent
  ],
)
