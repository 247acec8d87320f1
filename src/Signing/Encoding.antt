-- ===== src/Signing/Encoding.antt =====
-- The encoding of a payload and its type tells them apart.
use akua.Base.{ℕ, ◌≡◌, refl, sym, ◌∙◌, false, Option, some, [], ◌∷◌, ◌++◌, length, arith}
use akua.Base.Texts.{Text, codes, contains_char}
use akua.Base.Texts.Laws.{split_once-eq-some}
use akua.Signing.{dsse_pae}

-- Two texts that agree, cut at a space that neither first part has, agree in both parts.
cut_once :
    (a b c d : Text)
    → contains_char b' ' a ≡ false
    → contains_char b' ' c ≡ false
    → a ++ (b' ' ∷ b) ≡ c ++ (b' ' ∷ d)
    → (a ≡ c) × (b ≡ d)
cut_once a b c d p q e = some_pair (
    sym ((split_once-eq-some b' ' (a ++ (b' ' ∷ b)) a b).1 (refl, p))
    ∙ (split_once-eq-some b' ' (a ++ (b' ' ∷ b)) c d).1 (e, q))
  where
    some_pair :
        {a b c d : Text}
        → ◌≡◌ {A = Option (Text × Text)} (some (a, b)) (some (c, d))
        → (a ≡ c) × (b ≡ d)
    some_pair h = (cc, cc)

-- Two texts that agree and whose first parts have one length agree in both parts.
cut_at : (a b c d : Text) → length a ≡ length c → a ++ b ≡ c ++ d → (a ≡ c) × (b ≡ d)
cut_at [] b [] d n e = (refl, e)
cut_at [] b (y ∷ c) d n e = ground arith
cut_at (x ∷ a) b [] d n e = ground arith
cut_at (x ∷ a) b (y ∷ c) d n e = ground (arith, cut_at a b c d)

module _ (decimal : ℕ → Text) (no_space : (n : ℕ) → contains_char b' ' (decimal n) ≡ false)
    (injective : (m n : ℕ) → decimal m ≡ decimal n → m ≡ n) where
  -- Where the decimal digits of a number tell it and have no space: two pairs of a payload's type and a payload
  -- with one encoding are one pair.
  pub dsse_pae-injective :
      (type1 payload1 type2 payload2 : Text)
      → dsse_pae decimal type1 payload1 ≡ dsse_pae decimal type2 payload2
      → (type1 ≡ type2) × (payload1 ≡ payload2)
  unfolding dsse_pae
  dsse_pae-injective type1 payload1 type2 payload2 e =
      let whole = cut_at (codes "DSSEv1 ") _ (codes "DSSEv1 ") _ refl e in
      let types =
        cut_once (decimal (length type1)) _ (decimal (length type2)) _ (no_space (length type1))
          (no_space (length type2)) whole.1 in
      let rest = cut_at type1 _ type2 _ (injective (length type1) (length type2) types.0) types.1 in
      let payloads =
        cut_once (decimal (length payload1)) payload1 (decimal (length payload2)) payload2
          (no_space (length payload1)) (no_space (length payload2))
          (cut_at (b' ' ∷ []) _ (b' ' ∷ []) _ refl rest.1).1 in
      (rest.0, payloads.1)
