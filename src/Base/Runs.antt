-- ===== src/Base/Runs.antt =====
-- Computations that return, fail or panic: a `Result` with `unreachable!` and `expect`.
use akua.Base.Results.{Result, ok, err}
use mathlib.Core.Path.{◌≡◌, refl}
use mathlib.Core.Logic.{◌≢◌, ◌⊎◌, inl, inr}
use mathlib.Core.Option.{Option, none, some}

pub data Run {ℓ κ} (E : Type ℓ) (A : Type κ) : Type (ℓ ⊔ κ) where
  returns : A → Run E A
  fails : E → Run E A
  panics : Run E A

infixl 5 ◌>>=◌ ◌>>◌
abbrev pub ◌>>=◌ {ℓ κ} : {F : Type ℓ} {X Y : Type κ} → Run F X → (X → Run F Y) → Run F Y
returns x >>= next = next x
fails e >>= next = fails e
panics >>= next = panics

abbrev pub ◌>>◌ {ℓ κ} : {F : Type ℓ} {X Y : Type κ} → Run F X → Run F Y → Run F Y
first >> second = first >>= λ _. second

-- `?` on a result whose error is converted.
abbrev pub try_map {ℓ κ μ} : {E : Type ℓ} {F : Type μ} {A : Type κ} → (E → F) → Result E A → Run F A
try_map f (ok a) = returns a
try_map f (err e) = fails (f e)

abbrev pub try {ℓ κ} : {E : Type ℓ} {A : Type κ} → Result E A → Run E A
try (ok a) = returns a
try (err e) = fails e

-- A value that an earlier check guarantees.
abbrev pub expect {ℓ κ} : {E : Type ℓ} {A : Type κ} → Option A → Run E A
expect none = panics
expect (some a) = returns a

-- Inversion of a bind that returns.
pub >>=-eq-returns {ℓ κ} :
    {E : Type ℓ} {A B : Type κ} (r : Run E A) (next : A → Run E B) {y : B}
    → (r >>= next) ≡ returns y
    → (x : A) × (r ≡ returns x) × (next x ≡ returns y)
>>=-eq-returns (fails e) next h = cc
>>=-eq-returns panics next h = cc
>>=-eq-returns (returns x) next h = (x, refl, h)

-- A bind panics only where one of its parts does.
pub >>=-eq-panics {ℓ κ} :
    {E : Type ℓ} {A B : Type κ} (r : Run E A) (next : A → Run E B)
    → (r >>= next) ≡ panics
    → (r ≡ panics) ⊎ ((x : A) × (r ≡ returns x) × (next x ≡ panics))
>>=-eq-panics (fails e) next h = cc
>>=-eq-panics panics next h = inl refl
>>=-eq-panics (returns x) next h = inr (x, refl, h)

pub try_map-no_panic {ℓ κ μ} :
    {E : Type ℓ} {F : Type μ} {A : Type κ} (f : E → F) (r : Result E A) → try_map f r ≢ panics
try_map-no_panic f (ok a) = λ p. cc
try_map-no_panic f (err e) = λ p. cc

pub try-no_panic {ℓ κ} : {E : Type ℓ} {A : Type κ} (r : Result E A) → try r ≢ panics
try-no_panic (ok a) = λ p. cc
try-no_panic (err e) = λ p. cc

-- A successful `?` was on a result that is `ok`.
pub try_map-ok {ℓ κ μ} :
    {E : Type ℓ} {F : Type μ} {A : Type κ} (f : E → F) (r : Result E A) {a : A}
    → try_map f r ≡ returns a
    → r ≡ ok a
try_map-ok f (ok b) h = cc
try_map-ok f (err e) h = cc

pub try-ok {ℓ κ} : {E : Type ℓ} {A : Type κ} (r : Result E A) {a : A} → try r ≡ returns a → r ≡ ok a
try-ok (ok b) h = cc
try-ok (err e) h = cc

pub Run-cases {ℓ κ} :
    {E : Type ℓ} {A : Type κ} (r : Run E A)
    → ((a : A) × (r ≡ returns a)) ⊎ (((e : E) × (r ≡ fails e)) ⊎ (r ≡ panics))
Run-cases (returns a) = inl (a, refl)
Run-cases (fails e) = inr (inl (e, refl))
Run-cases panics = inr (inr refl)
