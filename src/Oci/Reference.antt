-- ===== src/Oci/Reference.antt =====
-- `parse_ref` and `registry_scheme` of oci_transport.rs.
use akua.Base.{
  ℕ, ◌+◌, ◌≡◌, refl, ap, ap₂, subst, ◌∙◌, ◌≢◌, ◌↔◌, false, ◌||◌, Option, none, some, [], ◌∷◌, ◌++◌,
  Result, ok, err, ◌>>=◌, >>=-eq-ok, arith, ◌==◌, nat_eq, list_eq, list_beq, is_empty,
  if◌then◌else◌,
}
use akua.Base.Texts.{Text, codes, strip_prefix, split_once, before, contains_char}
use akua.Base.Texts.Laws.{split_once-eq-some}
use akua.Resolver.Fetching.{ok_or}

pub record OciRef : Type 0 where
  pub registry : Text
  pub repository : Text

-- `TransportError::BadRef`, the one error of `parse_ref`.
pub record BadRef : Type 0 where
  pub reference : Text

unfoldable pub parse_ref : Text → Result BadRef OciRef
unfolding strip_prefix split_once
parse_ref s = do
  rest ← ok_or (record { reference = s }) (strip_prefix s (codes "oci://"))
  parts ← ok_or (record { reference = s }) (split_once b'/' rest)
  if is_empty parts.0 || is_empty parts.1
      then err (record { reference = s })
      else ok (record { registry = parts.0; repository = parts.1 })

-- `matches(':').count()`
count_char : ℕ → Text → ℕ
count_char c [] = 0
count_char c (d ∷ s) = let rest = count_char c s in if d == c then rest + 1 else rest

-- The part before a port, and what the brackets hold.
registry_host : Text → Text
unfolding strip_prefix before count_char
registry_host registry = elim (strip_prefix registry (codes "[")) [
  | some rest ↦ before b']' rest
  | none ↦ if count_char b':' registry == 1 then before b':' registry else registry
]

unfoldable pub registry_scheme : Text → Text
unfolding registry_host list_beq
registry_scheme registry =
    let host = registry_host registry in
    if host == codes "localhost" || host == codes "127.0.0.1" || host == codes "::1"
    then codes "http"
    else codes "https"

strip_prefix_iff : (p s rest : Text) → (strip_prefix s p ≡ some rest) ↔ (s ≡ p ++ rest)
unfolding strip_prefix
strip_prefix_iff [] s rest = ground arith
strip_prefix_iff (c ∷ p) [] rest = ground arith
strip_prefix_iff (c ∷ p) (d ∷ s) rest = ground (arith, strip_prefix_iff p s rest)

ok_or-ok {ℓ κ} :
    {E : Type ℓ} {A : Type κ} (e : E) (o : Option A) {a : A} → ok_or e o ≡ ok a → o ≡ some a
ok_or-ok e none h = cc
ok_or-ok e (some b) h = cc

-- What `parse_ref` asks of a reference.
abbrev pub IsReference : Text → OciRef → Type 0
IsReference s r =
    (s ≡ codes "oci://" ++ (r.registry ++ (b'/' ∷ r.repository)))
    × (contains_char b'/' r.registry ≡ false)
    × (r.registry ≢ [])
    × (r.repository ≢ [])

both_given :
    (e : BadRef) (a b : Text) (r : OciRef)
    → (if is_empty a || is_empty b then err e else ok (record { registry = a; repository = b }))
      ≡ ok r
    → (a ≡ r.registry) × (b ≡ r.repository) × (a ≢ []) × (b ≢ [])
both_given e [] b r h = cc
both_given e (x ∷ a) [] r h = cc
both_given e (x ∷ a) (y ∷ b) r h = (cc, cc, (λ p. cc), (λ p. cc))

parse_ref-IsReference : (s : Text) (r : OciRef) → parse_ref s ≡ ok r → IsReference s r
unfolding parse_ref
parse_ref-IsReference s r h =
    let refused : BadRef = record { reference = s } in
    let (rest, h1, k) = >>=-eq-ok (ok_or refused (strip_prefix s (codes "oci://"))) _ h in
    let (parts, h2, k2) = >>=-eq-ok (ok_or refused (split_once b'/' rest)) _ k in
    let stripped = (strip_prefix_iff (codes "oci://") s rest).0 (ok_or-ok refused _ h1) in
    let split =
      (split_once-eq-some b'/' rest parts.0 parts.1).0
        (ok_or-ok refused (split_once b'/' rest) h2) in
    let (registry, repository, a, b) = both_given refused parts.0 parts.1 r k2 in
    (
      stripped
          ∙ ap (codes "oci://" ++◌) (split.0 ∙ ap₂ (λ x y. x ++ (b'/' ∷ y)) registry repository),
      subst (λ x. contains_char b'/' x ≡ false) registry split.1,
      (λ e. a (registry ∙ e)),
      (λ e. b (repository ∙ e)),
    )

IsReference-parse_ref : (s : Text) (r : OciRef) → IsReference s r → parse_ref s ≡ ok r
unfolding parse_ref
IsReference-parse_ref s r (whole, no_slash, a, b) =
    let rest = r.registry ++ (b'/' ∷ r.repository) in
    rw
      (
        (strip_prefix_iff (codes "oci://") s rest).1 whole,
        (split_once-eq-some b'/' rest r.registry r.repository).1 (refl, no_slash),
      )
      (ground arith)

-- `parse_ref` returns a reference exactly where the text is `oci://`, the registry, `/` and the repository,
-- with no `/` in the registry and neither of them empty.
pub parse_ref_iff : (s : Text) (r : OciRef) → (parse_ref s ≡ ok r) ↔ IsReference s r
parse_ref_iff s r = (parse_ref-IsReference s r, IsReference-parse_ref s r)
