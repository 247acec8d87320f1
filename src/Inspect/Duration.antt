-- ===== src/Inspect/Duration.antt =====
-- crates/akua-core/src/duration_parse.rs: the durations of `--timeout`, in nanoseconds. `trim` is
-- `str::trim`. The products of a `u64` wrap, as they do in a build without overflow checks.
pub mod Bounds
use akua.Base.{
  ℕ, ◌+◌, ◌-◌, ◌*◌, ◌%◌, ◌^◌, ◌≤◌, ◌<◌, ◌≡◌, refl, sym, ap, ◌∙◌, inl, inr, Bool, true, false, not,
  Option, none, some, List, [], ◌∷◌, ◌++◌, Result, ok, err, arith, Bool-cases, Option-cases, ◌==◌,
  nat_eq, list_eq, list_beq, list_beq_iff, leb, leb→le, All, subst, is_empty, if◌then◌else◌,
}
use akua.Base.Texts.{Text, codes, is_ascii_alphabetic, is_ascii_digit}
use akua.Resolver.Digest.{u64_max}

pub data IntError : Type 0 where
  no_digits invalid_digit pos_overflow : IntError

abbrev int_error_text : IntError → Text
int_error_text no_digits = codes "cannot parse integer from empty string"
int_error_text invalid_digit = codes "invalid digit found in string"
int_error_text pos_overflow = codes "number too large to fit in target type"

parse_digits : ℕ → Text → Result IntError ℕ
parse_digits acc [] = ok acc
parse_digits acc (c ∷ s) =
    let next = acc * 10 + (c - b'0') in
    let rest = parse_digits next s in
    if not (is_ascii_digit c)
    then err invalid_digit
    else if leb next u64_max
    then rest
    else err pos_overflow

-- `str::parse::<u64>`
unfoldable pub parse_u64 : Text → Result IntError ℕ
unfolding parse_digits
parse_u64 [] = err no_digits
parse_u64 (c ∷ s) =
    if c == b'+'
    then if is_empty s then err invalid_digit else parse_digits 0 s
    else parse_digits 0 (c ∷ s)

-- `s.find(is_ascii_alphabetic)` and `split_at`; there is none to find in a text without letters.
unfoldable pub split_unit : Text → Option (Text × Text)
split_unit [] = none
split_unit (c ∷ s) =
    if is_ascii_alphabetic c
    then some ([], c ∷ s)
    else elim (split_unit s) [ none ↦ none | some (num, unit) ↦ some (c ∷ num, unit) ]

abbrev wrap : ℕ → ℕ
wrap n = n % (2 ^ 64)

abbrev nanos_per_sec : ℕ
nanos_per_sec = 1000000000

-- The unit written with the micro sign.
abbrev micro_unit : Text
micro_unit = 194 ∷ 181 ∷ 115 ∷ []

-- The `match` on the unit.
unfoldable pub scale : Text → ℕ → Option ℕ
unfolding list_beq
scale unit n =
    if unit == codes "ns"
    then some n
    else if unit == codes "us"
    then some (n * 1000)
    else if unit == micro_unit
    then some (n * 1000)
    else if unit == codes "ms"
    then some (n * 1000000)
    else if unit == codes "s"
    then some (n * nanos_per_sec)
    else if unit == codes "m"
    then some (wrap (n * 60) * nanos_per_sec)
    else if unit == codes "h"
    then some (wrap (wrap (n * 60) * 60) * nanos_per_sec)
    else none

scaled : Text → Text → Text → Result IntError ℕ → Result Text ℕ
unfolding scale
scaled s num unit (err e) = err (
    codes "invalid number `"
    ++ (num ++ (codes "` in `" ++ (s ++ (codes "`: " ++ int_error_text e)))))
scaled s num unit (ok n) = elim (scale unit n) [
  | some d ↦ ok d
  | none ↦ err (
      codes "unknown unit `"
      ++ (unit ++ (codes "` in `" ++ (s ++ codes "` (expected ns/us/ms/s/m/h)"))))
]

parse_trimmed : Text → Result Text ℕ
unfolding split_unit scaled parse_u64
parse_trimmed s = if is_empty s then err (codes "empty duration") else elim (split_unit s) [
  | none ↦ err (codes "missing unit in `" ++ (s ++ codes "` (expected one of ns/us/ms/s/m/h)"))
  | some (num, unit) ↦ scaled s num unit (parse_u64 num)
]

unfoldable pub parse_go_duration : (Text → Text) → Text → Result Text ℕ
unfolding parse_trimmed
parse_go_duration trim s = parse_trimmed (trim s)
