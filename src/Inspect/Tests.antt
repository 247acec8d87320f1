-- ===== src/Inspect/Tests.antt =====
-- The checks and the durations at concrete inputs.
use akua.Base.{
  ℕ, ◌≡◌, refl, ◌↔◌, none, some, [], ◌∷◌, ◌++◌, ok, err, arith, nat_eq, list_eq, list_beq,
}
use akua.Base.Texts.{codes}
use akua.Lock.{AkuaLock, empty}
use akua.Lock.Files.{parse_lock}
use akua.Inspect.Check.{Gates, check_from_sources, check_from_sources_iff}
use akua.Inspect.Duration.{parse_go_duration, parse_u64}
use akua.Inspect.Duration.Bounds.{unit_nanos, parse_go_duration-exact}

abbrev test_gates : Gates (Unit {0}) (Unit {0}) ℕ
test_gates = record {
  manifest_from_str = λ _. err tt;
  lock_from_str = λ _. ok empty;
  lint = λ _ _. ok [];
  manifest_text = λ _. codes "bad";
  lock_text = λ _. codes "bad";
  lint_text = λ _. codes "bad";
  decimal = λ _. codes "1";
}

check_from_sources_iff_example :
    ((check_from_sources test_gates none (some []) (some (codes "package.k", []))).status
      ≡ codes "ok")
    ↔ (Unit {0}
        × ((l : AkuaLock) × (parse_lock test_gates.lock_from_str [] ≡ ok l))
        × (test_gates.lint (codes "package.k") [] ≡ ok []))
check_from_sources_iff_example =
    check_from_sources_iff test_gates none (some []) (some (codes "package.k", []))

parse_go_duration-exact_example : parse_go_duration (λ s. s) (codes "5m") ≡ ok 300000000000
unfolding parse_u64 unit_nanos list_beq
parse_go_duration-exact_example =
    parse_go_duration-exact (λ s. s) (codes "5") (codes "m") {n = 5} {k = 60000000000} refl refl
      refl (omega arith)

-- A number of minutes whose seconds do not fit wraps: 44 seconds.
minutes_wrap : parse_go_duration (λ s. s) (codes "307445734561825861m") ≡ ok 44000000000
unfolding parse_go_duration list_beq
minutes_wrap = refl

micro_sign_refused :
    parse_go_duration (λ s. s) (53 ∷ 194 ∷ 181 ∷ 115 ∷ [])
    ≡ err (
        codes "invalid number `"
        ++ ((53 ∷ 194 ∷ 181 ∷ [])
            ++ (codes "` in `"
                ++ ((53 ∷ 194 ∷ 181 ∷ 115 ∷ [])
                    ++ (codes "`: " ++ codes "invalid digit found in string")))))
unfolding parse_go_duration list_beq
micro_sign_refused = refl
