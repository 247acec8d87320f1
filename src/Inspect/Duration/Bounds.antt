-- ===== src/Inspect/Duration/Bounds.antt =====
-- What a duration that is read may be, and that it is read exactly where it is not too long.
use akua.Base.{
  ℕ, ◌+◌, ◌-◌, ◌*◌, ◌≤◌, ◌≡◌, refl, sym, ap, ◌∙◌, subst, inl, inr, true, false, Option, none, some,
  [], ◌∷◌, ◌++◌, Result, ok, err, arith, All, Bool-cases, Option-cases, ◌==◌, nat_eq, list_eq,
  list_beq, list_beq_iff, leb, leb→le, is_empty, if◌then◌else◌,
}
use akua.Base.Texts.{Text, codes, is_ascii_alphabetic, is_ascii_digit}
use akua.Resolver.Digest.{u64_max}
use akua.Inspect.Duration.{
  IntError, parse_digits, parse_u64, split_unit, wrap, nanos_per_sec, micro_unit, scale, scaled,
  parse_trimmed, parse_go_duration,
}

parse_digits-bound :
    (acc : ℕ) (s : Text) {n : ℕ} → acc ≤ u64_max → parse_digits acc s ≡ ok n → n ≤ u64_max
unfolding parse_digits
parse_digits-bound acc [] {n} a h = ground arith
parse_digits-bound acc (c ∷ s) {n} a h =
    let next = acc * 10 + (c - b'0') in
    elim (Bool-cases (is_ascii_digit c)) [
      | inr d ↦ absurd (ground arith)
      | inl d ↦ elim (Bool-cases (leb next u64_max)) [
        | inr l ↦ absurd (ground arith)
        | inl l ↦ parse_digits-bound next s (leb→le next u64_max l) (sym (rw (d, l) refl) ∙ h)
      ]
    ]

parse_u64-bound : (s : Text) {n : ℕ} → parse_u64 s ≡ ok n → n ≤ u64_max
unfolding parse_u64
parse_u64-bound [] h = cc
parse_u64-bound (c ∷ s) {n} h = ground (
  arith,
  parse_digits-bound 0 s {n = n} (omega arith),
  parse_digits-bound 0 (c ∷ s) {n = n} (omega arith),
)

wrap-bound : (n : ℕ) → wrap n ≤ u64_max
wrap-bound n = omega arith

wrap_id : (n : ℕ) → n ≤ u64_max → wrap n ≡ n
wrap_id n h = omega arith

scale-bound :
    (unit : Text) (n : ℕ) {d : ℕ}
    → n ≤ u64_max
    → scale unit n ≡ some d
    → d ≤ u64_max * nanos_per_sec
unfolding scale
scale-bound unit n {d} a h = ground (arith, wrap-bound (n * 60), wrap-bound (wrap (n * 60) * 60))

-- The nanoseconds of a unit.
unfoldable pub unit_nanos : Text → Option ℕ
unfolding list_beq
unit_nanos unit =
    if unit == codes "ns"
    then some 1
    else if unit == codes "us"
    then some 1000
    else if unit == codes "ms"
    then some 1000000
    else if unit == codes "s"
    then some 1000000000
    else if unit == codes "m"
    then some 60000000000
    else if unit == codes "h"
    then some 3600000000000
    else none

micro_unit-nanos : (unit : Text) → (unit == micro_unit) ≡ true → unit_nanos unit ≡ none
unfolding unit_nanos
micro_unit-nanos unit h = ap unit_nanos ((list_beq_iff unit micro_unit).0 h)

scale-exact :
    (unit : Text) (n : ℕ) {k : ℕ}
    → unit_nanos unit ≡ some k
    → n * k ≤ u64_max * nanos_per_sec
    → scale unit n ≡ some (n * k)
unfolding scale unit_nanos
scale-exact unit n {k} h b =
    ground (arith, wrap_id (n * 60), wrap_id (n * 60 * 60), micro_unit-nanos unit)

-- A text that is a number has no letters.
abbrev NoLetters : Text → Type 0
NoLetters = All (λ c. is_ascii_alphabetic c ≡ false)

parse_digits-NoLetters : (acc : ℕ) (s : Text) {n : ℕ} → parse_digits acc s ≡ ok n → NoLetters s
unfolding parse_digits
parse_digits-NoLetters acc [] h = tt
parse_digits-NoLetters acc (c ∷ s) {n} h =
    let next = acc * 10 + (c - b'0') in
    elim (Bool-cases (is_ascii_digit c)) [
      | inr d ↦ absurd (ground arith)
      | inl d ↦ elim (Bool-cases (leb next u64_max)) [
        | inr l ↦ absurd (ground arith)
        | inl l ↦ (ground arith, parse_digits-NoLetters next s (sym (rw (d, l) refl) ∙ h))
      ]
    ]

parse_u64-NoLetters : (s : Text) {n : ℕ} → parse_u64 s ≡ ok n → NoLetters s
unfolding parse_u64
parse_u64-NoLetters [] h = tt
parse_u64-NoLetters (c ∷ s) {n} h = elim (Bool-cases (c == b'+')) [
  | inl p ↦ elim (Bool-cases (is_empty s)) [
    | inl e ↦ absurd (ground arith)
    | inr e ↦ (ground arith, parse_digits-NoLetters 0 s (sym (rw (p, e) refl) ∙ h))
  ]
  | inr p ↦ parse_digits-NoLetters 0 (c ∷ s) (sym (rw p refl) ∙ h)
]

-- The unit begins with a letter.
unit_nanos-letter :
    (unit : Text) {k : ℕ}
    → unit_nanos unit ≡ some k
    → (c : ℕ) × (rest : Text) × (unit ≡ c ∷ rest) × (is_ascii_alphabetic c ≡ true)
unfolding unit_nanos list_beq
unit_nanos-letter [] h = ground arith
unit_nanos-letter (c ∷ rest) h = (c, rest, refl, ground arith)

split_unit-append :
    (num rest : Text) (c : ℕ)
    → NoLetters num
    → is_ascii_alphabetic c ≡ true
    → split_unit (num ++ (c ∷ rest)) ≡ some (num, c ∷ rest)
unfolding split_unit
split_unit-append [] rest c a h = ground arith
split_unit-append (d ∷ num) rest c a h = rw (a.0, split_unit-append num rest c a.1 h) refl

parse_trimmed-split :
    (s : Text) {num unit : Text}
    → split_unit s ≡ some (num, unit)
    → parse_trimmed s ≡ scaled s num unit (parse_u64 num)
unfolding parse_trimmed split_unit
parse_trimmed-split [] h = cc
parse_trimmed-split (c ∷ s) h = rw h refl

scaled-ok :
    (s num unit : Text) (r : Result IntError ℕ) {d : ℕ}
    → scaled s num unit r ≡ ok d
    → (n : ℕ) × (r ≡ ok n) × (scale unit n ≡ some d)
unfolding scaled
scaled-ok s num unit (err e) h = cc
scaled-ok s num unit (ok n) h = (n, refl, ground arith)

parse_trimmed-ok :
    (s : Text) {d : ℕ}
    → parse_trimmed s ≡ ok d
    → (num unit : Text) × (n : ℕ) × (parse_u64 num ≡ ok n) × (scale unit n ≡ some d)
unfolding parse_trimmed
parse_trimmed-ok [] h = cc
parse_trimmed-ok (c ∷ s) {d} h = elim (Option-cases (split_unit (c ∷ s))) [
  | inl e ↦ absurd (ground arith)
  | inr ((num, unit), e) ↦
      let (n, p, u) =
        scaled-ok (c ∷ s) num unit (parse_u64 num) (sym (parse_trimmed-split (c ∷ s) e) ∙ h) in
      (num, unit, n, p, u)
]

-- A number in front of a unit is read exactly, where the product is no more than what a duration of `u64`
-- seconds holds.
pub parse_go_duration-exact :
    (trim : Text → Text) (num unit : Text) {n k : ℕ}
    → trim (num ++ unit) ≡ num ++ unit
    → parse_u64 num ≡ ok n
    → unit_nanos unit ≡ some k
    → n * k ≤ u64_max * nanos_per_sec
    → parse_go_duration trim (num ++ unit) ≡ ok (n * k)
unfolding parse_go_duration parse_trimmed scaled
parse_go_duration-exact trim num unit {n} {k} t p u b =
    let (c, rest, unit_is, letter) = unit_nanos-letter unit u in
    let split : split_unit (num ++ unit) ≡ some (num, unit) =
      subst (λ w. split_unit (num ++ w) ≡ some (num, w)) (sym unit_is)
        (split_unit-append num rest c (parse_u64-NoLetters num p) letter) in
    ap parse_trimmed t
    ∙ parse_trimmed-split (num ++ unit) split
    ∙ rw p (ground (arith, scale-exact unit n u b))

-- A duration that is returned is no more than the largest number of seconds in a `u64`.
parse_go_duration-bound :
    (trim : Text → Text) (s : Text) {d : ℕ}
    → parse_go_duration trim s ≡ ok d
    → d ≤ u64_max * nanos_per_sec
unfolding parse_go_duration parse_trimmed scaled
parse_go_duration-bound trim s {d} h =
    let (num, unit, n, p, u) = parse_trimmed-ok (trim s) h in
    scale-bound unit n (parse_u64-bound num p) u
